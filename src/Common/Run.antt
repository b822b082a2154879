-- ===== src/Common/Run.antt =====
-- A loop on fuel: its result, or that the fuel ran out. Each user proves that it does not.
use mathlib.Core.Path.{◌≡◌, refl}
use mathlib.Core.Bool.{Bool, true, false}
use tool_debug.Common.Tests.{if◌then◌else◌}

pub data Run {ℓ} (A : Type ℓ) : Type ℓ where
  done : A → Run A
  out_of_fuel : Run A

abbrev pub then_run {ℓ κ} : {A : Type ℓ} {B : Type κ} → Run A → (A → Run B) → Run B
then_run (done a) f = f a
then_run out_of_fuel f = out_of_fuel

-- The result, with a value for the case that is not met.
abbrev pub result_or {ℓ} : {A : Type ℓ} → Run A → A → A
result_or (done a) d = a
result_or out_of_fuel d = d

abbrev pub Ends {ℓ} : {A : Type ℓ} → Run A → Type 0
Ends (done _) = Unit
Ends out_of_fuel = ⊥

pub Ends-done {ℓ} : {A : Type ℓ} (r : Run A) → Ends r → (a : A) × (r ≡ done a)
Ends-done (done a) h = (a, refl)
Ends-done out_of_fuel h = absurd h

-- To split on a test under a predicate.
pub split {ℓ κ} :
    {A : Type ℓ} (P : A → Type κ) (b : Bool) {x y : A}
    → (b ≡ true → P x)
    → (b ≡ false → P y)
    → P (if b then x else y)
split P true h k = h refl
split P false h k = k refl
