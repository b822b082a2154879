-- ===== src/Json/Lookup.antt =====
-- What a lookup gives after an assignment, as std::map promises.
use tool_debug.Common.{Bytes, [], ◌∷◌, ◌≡◌, refl, some, arith, equal, equal_iff, if◌then◌else◌}
use tool_debug.Json.Parser.{Dict, find, assign}

pub find-assign :
    {V : Type 0} (k j : Bytes) (v : V) (m : Dict V)
    → find j (assign k v m) ≡ (if equal k j then some v else find j m)
unfolding find assign
find-assign k j v [] = refl
find-assign k j v ((i, w) ∷ m) =
    ground (arith, equal_iff k j, equal_iff i k, equal_iff i j, find-assign k j v m)
