-- ===== src/Backend/Glob.antt =====
-- What a pattern matches, independently of the loop: `*` any text, `?` any one byte.
use tool_debug.Common.{
  ℕ, suc, ◌≤◌, Bytes, [], ◌∷◌, ◌++◌, ◌≡◌, refl, ap, Bool, true, false, ◌&&◌, ◌||◌, if◌then◌else◌,
  ◌==◌, is_empty, length, All, arith, Bool-cases, inl, inr,
}
use tool_debug.Backend.{fits}

-- Some suffix of the text passes the test.
unfoldable pub any_suffix : (Bytes → Bool) → Bytes → Bool
any_suffix g [] = g []
any_suffix g (d ∷ t) = g (d ∷ t) || any_suffix g t

unfoldable pub one_then : ℕ → (Bytes → Bool) → Bytes → Bool
one_then c g [] = false
one_then c g (d ∷ t) = fits c d && g t

unfoldable pub glob : Bytes → Bytes → Bool
unfolding any_suffix one_then
glob [] t = is_empty t
glob (c ∷ p) t = if c == b'*' then any_suffix (glob p) t else one_then c (glob p) t

abbrev pub Starless : Bytes → Type 0
Starless = All (λ c. (c == b'*') ≡ false)

pub Starless-append : (v w : Bytes) → Starless v → Starless w → Starless (v ++ w)
Starless-append [] w h k = k
Starless-append (c ∷ v) w h k = (h.0, Starless-append v w h.1 k)

pub any_suffix-append :
    (g : Bytes → Bool) (x t : Bytes) → any_suffix g t ≡ true → any_suffix g (x ++ t) ≡ true
unfolding any_suffix
any_suffix-append g [] t h = h
any_suffix-append g (d ∷ x) t h = ground (arith, any_suffix-append g x t h)

-- A suffix that passes.
pub any_suffix→split :
    (g : Bytes → Bool) (t : Bytes)
    → any_suffix g t ≡ true
    → (a v : Bytes) × (t ≡ a ++ v) × (g v ≡ true)
unfolding any_suffix
any_suffix→split g [] h = ([], [], refl, h)
any_suffix→split g (d ∷ t) h = elim (Bool-cases (g (d ∷ t))) [
  | inl here ↦ ([], d ∷ t, refl, here)
  | inr there ↦
      let (a, v, e, k) = any_suffix→split g t (ground arith) in (d ∷ a, v, ap (◌∷◌ d) e, k)
]

-- A starless front of the pattern takes as many bytes of the text.
pub glob-Starless :
    (w p u : Bytes)
    → Starless w
    → glob (w ++ p) u ≡ true
    → (y z : Bytes) × (u ≡ y ++ z) × (length y ≡ length w) × (glob p z ≡ true)
unfolding glob
glob-Starless [] p u s h = ([], u, refl, refl, h)
glob-Starless (c ∷ w) p [] s h = absurd (let n = s.0 in ground arith)
glob-Starless (c ∷ w) p (d ∷ u) s h =
    let n = s.0 in
    let (y, z, e, l, k) = glob-Starless w p u s.1 (ground arith) in
    (d ∷ y, z, ap (◌∷◌ d) e, ap suc l, k)

-- Of two ways to split a text, the one that takes more leaves a suffix of what the other leaves.
pub suffix_of :
    (x t r z : Bytes) → x ++ t ≡ r ++ z → length x ≤ length r → (b : Bytes) × (t ≡ b ++ z)
suffix_of [] t r z e h = (r, e)
suffix_of (c ∷ x) t [] z e h = elim h [ ]
suffix_of (c ∷ x) t (d ∷ r) z e h = suffix_of x t r z (cc) (omega arith)
