-- ===== src/Tests/Backend.antt =====
-- Patterns on concrete names, and the walks over a design of three scopes.
use tool_debug.Common.{
  length, Bytes, codes, equal, Bool, true, false, List, [], ◌∷◌, ◌≡◌, refl, ◌⊎◌, ◌++◌, ◌≤◌, ◌+◌,
  if◌then◌else◌, ◌||◌, pos, none, arith, All, is_empty,
}
use tool_debug.Common.Run.{done, split}
use tool_debug.Backend.{
  Result, ok, error, exception, SignalInfo, WaveBackend, wildcard_run, leaf_name,
}
use tool_debug.Backend.Glob.{glob}
use tool_debug.Backend.Greedy.{wildcard_run-glob}
use tool_debug.Backend.Termination.{wildcard_run_total, wildcard_run_star}
use tool_debug.Backend.Walks.{scopes, is_parent}
use tool_debug.Backend.Walks.Listed.{scopes-subtree, subtree}

leaf_of_path : leaf_name (codes "top.cpu.clk") ≡ codes "clk"
unfolding leaf_name
leaf_of_path = refl

wildcard_run-glob_example : wildcard_run (codes "d*_?") (codes "data_q_1") ≡ done true
unfolding glob
wildcard_run-glob_example =
    wildcard_run-glob (codes "d*_?") (codes "data_q_1")
      (refl, (refl, (refl, (refl, (refl, (refl, (refl, (refl, tt))))))))

wildcard_run_total_example : (b : Bool) × (wildcard_run (codes "*a*b") (codes "aab") ≡ done b)
wildcard_run_total_example = wildcard_run_total (codes "*a*b") (codes "aab")

wildcard_run_star_example :
    (wildcard_run (codes "*") (codes "*p") ≡ done false) × (glob (codes "*") (codes "*p") ≡ true)
wildcard_run_star_example = wildcard_run_star b'p' []

abbrev wire : Bytes → Bytes → SignalInfo
wire name full = record {
  name = name;
  full_name = full;
  direction = codes "none";
  left = pos 0;
  right = pos 0;
}

abbrev pub tops : Bytes → List Bytes
tops path =
    if is_empty path
    then codes "t" ∷ []
    else if equal path (codes "t")
    then codes "t.a" ∷ codes "t.b" ∷ []
    else []

abbrev pub wires : Bytes → List SignalInfo
wires path =
    if equal path (codes "t")
    then wire (codes "clk") (codes "t.clk") ∷ wire (codes "rst") (codes "t.rst") ∷ []
    else if equal path (codes "t.b")
    then wire (codes "clk2") (codes "t.b.clk2") ∷ []
    else []

abbrev refused {ℓ} : {A : Type ℓ} → Result A
refused = error (exception (codes "not opened"))

abbrev pub is_scope : Bytes → Bool
is_scope path = equal path (codes "t") || (equal path (codes "t.a") || equal path (codes "t.b"))

-- As in the program's backends, what is no scope of the design is refused.
abbrev pub design : WaveBackend
design = record {
  info = refused;
  has_scope = is_scope;
  children = λ path. if is_empty path || is_scope path then ok (tops path) else refused;
  signals = λ path. if is_scope path then ok (wires path) else refused;
  signal = λ path. ok none;
  point = λ path time radix. refused;
  range = λ path begin end radix limit. refused;
  edge = λ path time kind backward. refused;
  count = λ path begin end. refused;
}

pub tops-eq : (p : Bytes) → is_parent design p ≡ true → design.children p ≡ ok (tops p)
tops-eq p h = rw h refl

pub tops-known : (p : Bytes) → All (λ c. design.has_scope c ≡ true) (tops p)
unfolding equal
tops-known p =
    split (All (λ c. design.has_scope c ≡ true)) (is_empty p) (λ e. (refl, tt))
      (λ e.
        split (All (λ c. design.has_scope c ≡ true)) (equal p (codes "t"))
          (λ e'. (refl, (refl, tt))) (λ e'. tt))

pub wires-eq : (p : Bytes) → design.has_scope p ≡ true → design.signals p ≡ ok (wires p)
wires-eq p h = rw h refl

pub tops_named : (p : Bytes) → All (λ c. is_empty c ≡ false) (tops p)
tops_named p =
    split (All (λ c. is_empty c ≡ false)) (is_empty p) (λ e. (refl, tt))
      (λ e.
        split (All (λ c. is_empty c ≡ false)) (equal p (codes "t")) (λ e'. (refl, (refl, tt)))
          (λ e'. tt))

scopes-subtree_example :
    (result : List Bytes) × (rest : List Bytes) × (scopes design (codes "t") 2 ≡ ok result)
    × (result ++ rest ≡ subtree tops 2 (codes "t"))
    × ((rest ≡ []) ⊎ (500 ≤ length result))
    × (length result ≤ 499 + 2)
scopes-subtree_example =
    scopes-subtree design tops tops-eq tops-known tops_named (codes "t") 2 refl
      (unfold equal in refl) (omega arith)
