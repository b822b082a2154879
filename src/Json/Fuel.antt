-- ===== src/Json/Fuel.antt =====
-- The fuel that the parser hands out is enough: each round steps over a character at least.
use tool_debug.Common.{
  ℕ, zero, suc, ◌+◌, ◌-◌, ◌<◌, ◌≤◌, Bytes, codes, List, [], ◌∷◌, ◌++◌, ◌≡◌, refl, Bool, true, not,
  ◌==◌, is_empty, arith, length, drop,
}
use tool_debug.Common.Run.{Ends, Ends-done, split}
use tool_debug.Json.Parser.{
  Run, done, out_of_fuel, then_run, Maps, no_maps, advance, at, expect, skip_ws, parse_string_val,
  array_loop, parse_array, skip_nested_object, after_number, parse_number, parse_value, starts_with,
  object_loop, parse_object, parse,
}
use tool_debug.Json.Strings.{length-skip_ws, length-parse_string_val, length-parse_string_val_lt}

-- The run ends, and leaves a text of at most `n` bytes.
abbrev pub Leaves {ℓ} : {A : Type ℓ} → ℕ → Run (A × Bytes) → Type 0
Leaves n (done r) = length r.1 ≤ n
Leaves n out_of_fuel = ⊥

abbrev pub LeavesText : ℕ → Run Bytes → Type 0
LeavesText n (done s) = length s ≤ n
LeavesText n out_of_fuel = ⊥

at-advance : (c : ℕ) (s : Bytes) → at c s ≡ true → suc (length (advance s)) ≡ length s
unfolding at
at-advance c [] h = cc h
at-advance c (d ∷ s) h = refl

length-advance : (s : Bytes) → length (advance s) ≤ length s
length-advance [] = omega arith
length-advance (c ∷ s) = omega arith

Leaves-mono {ℓ} : {A : Type ℓ} (r : Run (A × Bytes)) (m n : ℕ) → m ≤ n → Leaves m r → Leaves n r
Leaves-mono (done r) m n h k = omega arith
Leaves-mono out_of_fuel m n h k = k

LeavesText-mono : (r : Run Bytes) (m n : ℕ) → m ≤ n → LeavesText m r → LeavesText n r
LeavesText-mono (done r) m n h k = omega arith
LeavesText-mono out_of_fuel m n h k = k

array_loop-Leaves :
    (f : ℕ) (result : List Bytes) (s : Bytes)
    → length s < f
    → Leaves (length s) (array_loop f result s)
unfolding array_loop
array_loop-Leaves zero result s h = absurd (omega arith)
array_loop-Leaves (suc f) result s h =
    let v = (parse_string_val s).0 in
    let s₁ = (parse_string_val s).1 in
    let s₂ = skip_ws s₁ in
    let result' = result ++ v ∷ [] in
    let short : length s₂ ≤ length s =
      omega (arith, length-skip_ws s₁, length-parse_string_val s) in
    split (Leaves (length s)) (at b',' s₂)
      (λ comma.
        let ih =
          array_loop-Leaves f result' (advance s₂) (omega (arith, at-advance b',' s₂ comma)) in
        Leaves-mono (array_loop f result' (advance s₂)) _ _ (omega (arith, length-advance s₂)) ih)
      (λ _.
        split (Leaves (length s)) (at b']' s₂) (λ _. omega (arith, length-advance s₂)) (λ _. short))

length-expect : (c : ℕ) (s : Bytes) → length (expect c s).1 ≤ length s
unfolding expect
length-expect c s =
    split (λ (r : Bool × Bytes). length r.1 ≤ length s) (at c (skip_ws s))
      (λ _. omega (arith, length-advance (skip_ws s), length-skip_ws s)) (λ _. length-skip_ws s)

parse_array-Leaves : (s : Bytes) → Leaves (length s) (parse_array s)
unfolding parse_array
parse_array-Leaves s =
    let s₁ = skip_ws (expect b'[' s).1 in
    let short : length s₁ ≤ length s =
      omega (arith, length-skip_ws (expect b'[' s).1, length-expect b'[' s) in
    split (Leaves (length s)) (at b']' s₁) (λ _. omega (arith, length-advance s₁))
      (λ _.
        Leaves-mono (array_loop (suc (length s₁)) [] s₁) _ _ short
          (array_loop-Leaves (suc (length s₁)) [] s₁ (omega arith)))

skip_nested_object-LeavesText :
    (f depth : ℕ) (s : Bytes) → length s < f → LeavesText (length s) (skip_nested_object f depth s)
unfolding skip_nested_object
skip_nested_object-LeavesText zero depth s h = absurd (omega arith)
skip_nested_object-LeavesText (suc f) depth [] h = omega arith
skip_nested_object-LeavesText (suc f) depth (c ∷ s) h =
    let next = λ (d : ℕ) (t : Bytes) (short : length t < length (c ∷ s)).
      LeavesText-mono (skip_nested_object f d t) (length t) (length (c ∷ s)) (omega arith)
        (skip_nested_object-LeavesText f d t (omega arith)) in
    let P = LeavesText (length (c ∷ s)) in
    split P (c == b'{') (λ _. next (depth + 1) s (omega arith))
      (λ _.
        split P (c == b'}')
          (λ _. split P (depth - 1 == 0) (λ _. omega arith) (λ _. next (depth - 1) s (omega arith)))
          (λ _.
            split P (c == b'"')
              (λ q. next depth (parse_string_val (c ∷ s)).1 (length-parse_string_val_lt c s q))
              (λ _. next depth s (omega arith))))

length-after_number : (s : Bytes) → length (after_number s) ≤ length s
unfolding after_number
length-after_number [] = omega arith
length-after_number (c ∷ s) = ground (arith, length-after_number s)

length-drop_le : (n : ℕ) (s : Bytes) → length (drop n s) ≤ length s
length-drop_le zero s = omega arith
length-drop_le (suc n) [] = omega arith
length-drop_le (suc n) (c ∷ s) = omega (arith, length-drop_le n s)

then_array :
    (n : ℕ) (r : Run (List Bytes × Bytes)) (f : List Bytes → Maps)
    → Leaves n r
    → Leaves n (then_run r (λ a. done (f a.0, a.1)))
then_array n (done r) f h = h
then_array n out_of_fuel f h = h

then_text :
    (n : ℕ) (r : Run Bytes) (f : Bytes → Maps)
    → LeavesText n r
    → Leaves n (then_run r (λ t. done (f t, t)))
then_text n (done r) f h = h
then_text n out_of_fuel f h = h

parse_value-Leaves : (key : Bytes) (m : Maps) (s : Bytes) → Leaves (length s) (parse_value key m s)
unfolding parse_value
parse_value-Leaves key m s =
    let P = Leaves {A = Maps} (length s) in
    split P (at b'"' s) (λ _. length-parse_string_val s)
      (λ _.
        split P (at b'[' s) (λ _. then_array (length s) (parse_array s) _ (parse_array-Leaves s))
          (λ _.
            split P (at b'{' s)
              (λ _.
                then_text (length s) (skip_nested_object (suc (length s)) 0 s) _
                  (skip_nested_object-LeavesText (suc (length s)) 0 s (omega arith)))
              (λ _.
                split P (starts_with (codes "true") s) (λ _. length-drop_le 4 s)
                  (λ _.
                    split P (starts_with (codes "false") s) (λ _. length-drop_le 5 s)
                      (λ _. unfold parse_number in length-after_number s)))))

then-Ends {ℓ κ} :
    {A : Type ℓ} {B : Type κ} (n : ℕ) (r : Run (A × Bytes)) (k : A × Bytes → Run B)
    → Leaves n r
    → ((a : A × Bytes) → length a.1 ≤ n → Ends (k a))
    → Ends (then_run r k)
then-Ends n (done a) k h f = f a h
then-Ends n out_of_fuel k h f = h

object_loop-Ends : (f : ℕ) (m : Maps) (s : Bytes) → length s < f → Ends (object_loop f m s)
unfolding object_loop
object_loop-Ends zero m s h = absurd (omega arith)
object_loop-Ends (suc f) m s h =
    let key = (parse_string_val s).0 in
    let s₁ = (parse_string_val s).1 in
    let s₂ = (expect b':' s₁).1 in
    let short : length (skip_ws s₂) ≤ length s =
      omega (arith, length-skip_ws s₂, length-expect b':' s₁, length-parse_string_val s) in
    let P = Ends {A = Bool × Maps} in
    split P (is_empty key) (λ _. tt)
      (λ _.
        split P (not (expect b':' s₁).0) (λ _. tt)
          (λ _.
            then-Ends (length (skip_ws s₂)) (parse_value key m (skip_ws s₂)) _
              (parse_value-Leaves key m (skip_ws s₂))
              (λ a le.
                split P (at b',' (skip_ws a.1))
                  (λ comma.
                    object_loop-Ends f a.0 (advance (skip_ws a.1))
                      (omega (arith, at-advance b',' (skip_ws a.1) comma, length-skip_ws a.1)))
                  (λ _. tt))))

parse-Ends : (s : Bytes) → Ends (parse s)
unfolding parse parse_object
parse-Ends s =
    let P = Ends {A = Bool × Maps} in
    let s₁ = (expect b'{' s).1 in
    split P (not (expect b'{' s).0) (λ _. tt)
      (λ _.
        split P (at b'}' (skip_ws s₁)) (λ _. tt)
          (λ _.
            object_loop-Ends (suc (length s)) no_maps (skip_ws s₁)
              (omega (arith, length-skip_ws s₁, length-expect b'{' s))))

-- `parse` returns on every text: each of its loops ends within the fuel that it is given.
pub parse_total : (json : Bytes) → (r : Bool × Maps) × (parse json ≡ done r)
parse_total json = Ends-done (parse json) (parse-Ends json)
