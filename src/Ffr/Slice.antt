-- ===== src/Ffr/Slice.antt =====
-- src_vwave/backend/ffr_backend.h: the bits that a part select takes from a value.
use tool_debug.Common.{
  pos_part, neg_part, ℕ, zero, suc, ◌+◌, ◌-◌, Bytes, codes, [], ◌∷◌, ◌++◌, ℤ, pos, negsuc, ltb_ℤ,
  Bool, Option, none, some, if◌then◌else◌, leb, get_elem?,
}
use tool_debug.Backend.{SignalInfo, Result, ok, error, backend_error, ◌>>=◌}

-- The kinds of a variable, by the low six bits of its type; `sv_kind` are those from
-- FSDB_VT_SV_VARIABLE on, but for strings.
pub data VarKind : Type 0 where
  vcd_kind real_kind string_kind sv_kind : VarKind

-- What the backend keeps of a variable. An id of 0 is none.
pub record Var : Type 0 where
  pub info : SignalInfo
  pub id : ℕ
  pub kind : VarKind
  pub one_byte : Bool
  pub source : Bytes
  pub sliced : Bool
  pub base_left : ℤ
  pub base_right : ℤ
  pub slice_left : ℤ
  pub slice_right : ℤ

abbrev pub of_diff : ℕ → ℕ → ℤ
of_diff a b = if leb b a then pos (a - b) else negsuc (b - a - 1)

infixl 60 ◌-ℤ◌
abbrev pub ◌-ℤ◌ : ℤ → ℤ → ℤ
a -ℤ b = of_diff (pos_part a + neg_part b) (pos_part b + neg_part a)

abbrev pub magnitude : ℤ → ℕ
magnitude (pos n) = n
magnitude (negsuc n) = suc n

abbrev pub up : ℤ → ℤ
up (pos n) = pos (suc n)
up (negsuc zero) = pos 0
up (negsuc (suc n)) = negsuc n

abbrev pub down : ℤ → ℤ
down (pos zero) = negsuc 0
down (pos (suc n)) = pos n
down (negsuc n) = negsuc (suc n)

-- The bit of an index, if the value has it.
abbrev pub bit_at : Bytes → ℤ → Option ℕ
bit_at bin (pos offset) = get_elem? bin offset
bit_at bin (negsuc n) = none

abbrev pub outside {ℓ} : {A : Type ℓ} → Var → Result A
outside var = error (
    backend_error (codes "SIGNAL_NOT_FOUND")
      (codes "Bit select outside signal range: " ++ var.info.full_name))

abbrev pub selected_bit : Var → Option ℕ → Result Bytes → Result Bytes
selected_bit var none rest = outside var
selected_bit var (some bit) rest = rest >>= (λ selected. ok (bit ∷ selected))

-- `base_left > base_right ? base_left - index : index - base_left`
abbrev pub offset_of : Var → ℤ → ℤ
offset_of var index =
    if ltb_ℤ var.base_right var.base_left then var.base_left -ℤ index else index -ℤ var.base_left

-- The loop from an index on, which takes as many steps as there are to the right end.
unfoldable pub select_loop : Var → Bytes → ℕ → ℤ → Result Bytes
select_loop var bin zero index = selected_bit var (bit_at bin (offset_of var index)) (ok [])
select_loop var bin (suc steps) index =
    let next = if ltb_ℤ var.slice_right var.slice_left then down index else up index in
    selected_bit var (bit_at bin (offset_of var index)) (select_loop var bin steps next)

unfoldable pub project_slice : Var → Bytes → Result Bytes
unfolding select_loop
project_slice var bin =
    select_loop var bin (magnitude (var.slice_left -ℤ var.slice_right)) var.slice_left
