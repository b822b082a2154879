-- ===== src/Backend.antt =====
-- src_vwave/backend/backend.h: the errors and values of a waveform backend, names and patterns,
-- and the two walks over its scopes.
pub mod Glob
pub mod Greedy
pub mod Termination
pub mod Walks
use tool_debug.Common.{
  ℕ, zero, suc, ◌+◌, ◌-◌, ◌*◌, Bytes, codes, List, [], ◌∷◌, ◌++◌, Bool, true, false, ◌&&◌, ◌||◌,
  not, Option, none, some, if◌then◌else◌, ◌==◌, ltb, leb, ℤ, is_empty, length,
}
use tool_debug.Common.Run.{Run, done, out_of_fuel, result_or}

-- A thrown BackendError with its code and message, or another std::exception.
pub data Error : Type 0 where
  backend_error : Bytes → Bytes → Error
  exception : Bytes → Error

pub data Result {ℓ} (A : Type ℓ) : Type ℓ where
  ok : A → Result A
  error : Error → Result A

infixl 5 ◌>>=◌
abbrev pub ◌>>=◌ {ℓ κ} : {A : Type ℓ} {B : Type κ} → Result A → (A → Result B) → Result B
ok a >>= f = f a
error e >>= f = error e

pub record FileInfo : Type 0 where
  pub min_time : ℤ
  pub max_time : ℤ
  pub scale : Bytes
  pub version : Bytes
  pub completed : Bool

pub record SignalInfo : Type 0 where
  pub name : Bytes
  pub full_name : Bytes
  pub direction : Bytes
  pub left : ℤ
  pub right : ℤ

pub record Value : Type 0 where
  pub time : ℤ
  pub value : Bytes

pub record Range : Type 0 where
  pub changes : List Value
  pub total : ℤ

pub record Edge : Type 0 where
  pub found : Bool
  pub value : Value

-- The virtual functions. `signal` gives nothing where the source returns false.
pub record WaveBackend : Type 0 where
  pub info : Result FileInfo
  pub has_scope : Bytes → Bool
  pub children : Bytes → Result (List Bytes)
  pub signals : Bytes → Result (List SignalInfo)
  pub signal : Bytes → Result (Option SignalInfo)
  pub point : Bytes → ℤ → Bytes → Result Value
  pub range : Bytes → ℤ → ℤ → Bytes → ℤ → Result Range
  pub edge : Bytes → ℤ → Bytes → Bool → Result Edge
  pub count : Bytes → ℤ → ℤ → Result ℤ

abbrev pub dot : ℕ
dot = b'.'

-- The text behind the last dot, if there is one.
unfoldable pub after_dot : Bytes → Option Bytes
after_dot [] = none
after_dot (c ∷ s) = elim (after_dot s) [
  | some t ↦ some t
  | none ↦ if c == dot then some s else none
]

unfoldable pub leaf_name : Bytes → Bytes
unfolding after_dot
leaf_name full = elim (after_dot full) [ none ↦ full | some t ↦ t ]

-- `while (*pattern == '*') ++pattern; return *pattern == 0;`
unfoldable pub only_stars : Bytes → Bool
only_stars [] = true
only_stars (c ∷ p) = c == b'*' && only_stars p

-- `*pattern == '?' || *pattern == *text`
abbrev pub fits : ℕ → ℕ → Bool
fits c d = c == b'?' || c == d

-- `pattern = star + 1; text = ++retry`, if there was a star. The text is a suffix of the one that
-- is retried, so that is not empty here.
abbrev pub retry_star :
    (Bytes → Bytes → Option (Bytes × Bytes) → Run Bool) → Option (Bytes × Bytes) → Run Bool
retry_star loop none = done false
retry_star loop (some (sp, [])) = done false
retry_star loop (some (sp, e ∷ retry)) = loop sp retry (some (sp, retry))

-- The loop of `wildcard_match`, with the pattern behind the last star and the text from which it
-- is retried.
unfoldable pub match_loop : ℕ → Bytes → Bytes → Option (Bytes × Bytes) → Run Bool
unfolding only_stars
match_loop zero p t star = out_of_fuel
match_loop (suc f) p [] star = done (only_stars p)
match_loop (suc f) [] (d ∷ t) star = retry_star (match_loop f) star
match_loop (suc f) (c ∷ p) (d ∷ t) star =
    let one = match_loop f p t star in
    let starred = match_loop f p (d ∷ t) (some (p, d ∷ t)) in
    let again = retry_star (match_loop f) star in
    if fits c d then one else if c == b'*' then starred else again

unfoldable pub wildcard_run : Bytes → Bytes → Run Bool
unfolding match_loop
wildcard_run pattern text =
    match_loop (suc ((length text + 1) * (length pattern + 1))) pattern text none

-- The fuel never runs out (Backend/Termination.antt).
unfoldable pub wildcard_match : Bytes → Bytes → Bool
wildcard_match pattern text = result_or (wildcard_run pattern text) false
