-- ===== src/RunDir/Paths.antt =====
-- dirname of the C library, and absolute paths as lists of names.
use tool_debug.Common.{
  append_assoc, ◌<◌, Bytes, codes, List, [], ◌∷◌, ◌++◌, reverse, ◌≡◌, refl, sym, ap, ◌∙◌, subst,
  false, ◌==◌, if◌then◌else◌, is_empty, length, length-append, All, arith,
}
use mathlib.Core.List.{reverse-append, reverse-reverse}

unfoldable pub drop_slashes : Bytes → Bytes
drop_slashes [] = []
drop_slashes (c ∷ s) = if c == b'/' then drop_slashes s else c ∷ s

unfoldable pub drop_name : Bytes → Bytes
drop_name [] = []
drop_name (c ∷ s) = if c == b'/' then c ∷ s else drop_name s

abbrev pub or_root : Bytes → Bytes
or_root [] = codes "/"
or_root (c ∷ s) = reverse (c ∷ s)

-- What is left, read from the back, once the last name is off.
abbrev pub before_name : Bytes → Bytes
before_name [] = codes "."
before_name (c ∷ s) = or_root (drop_slashes (c ∷ s))

abbrev pub parent_of : Bytes → Bytes
parent_of [] = codes "/"
parent_of (c ∷ s) = before_name (drop_name (c ∷ s))

unfoldable pub dirname : Bytes → Bytes
unfolding drop_slashes drop_name
dirname path = if is_empty path then codes "." else parent_of (drop_slashes (reverse path))

-- The path of the names, innermost first; the root has none.
abbrev pub path_of : List Bytes → Bytes
path_of [] = []
path_of (name ∷ names) = path_of names ++ (b'/' ∷ name)

abbrev pub absolute : List Bytes → Bytes
absolute [] = codes "/"
absolute (name ∷ names) = path_of (name ∷ names)

abbrev pub HasNoSlash : Bytes → Type 0
HasNoSlash = All (λ c. (c == b'/') ≡ false)

-- A name is not empty and has no slash.
abbrev pub IsName : Bytes → Type 0
IsName name = (is_empty name ≡ false) × HasNoSlash name

HasNoSlash-append : (a b : Bytes) → HasNoSlash a → HasNoSlash b → HasNoSlash (a ++ b)
HasNoSlash-append [] b h k = k
HasNoSlash-append (c ∷ a) b h k = (h.0, HasNoSlash-append a b h.1 k)

reverse-HasNoSlash : (s : Bytes) → HasNoSlash s → HasNoSlash (reverse s)
reverse-HasNoSlash [] h = tt
reverse-HasNoSlash (c ∷ s) h =
    subst HasNoSlash (sym (reverse-append (c ∷ []) s))
      (HasNoSlash-append (reverse s) (c ∷ []) (reverse-HasNoSlash s h.1) (h.0, tt))

drop_name-behind : (s t : Bytes) → HasNoSlash s → drop_name (s ++ (b'/' ∷ t)) ≡ b'/' ∷ t
unfolding drop_name
drop_name-behind [] t h = refl
drop_name-behind (c ∷ s) t h = rw h.0 (drop_name-behind s t h.1)

reverse-filled : (s : Bytes) → is_empty s ≡ false → is_empty (reverse s) ≡ false
reverse-filled s h = go (reverse s) refl
  where
    go : (r : Bytes) → reverse s ≡ r → is_empty r ≡ false
    go [] e = ap is_empty (ap reverse (sym e) ∙ reverse-reverse s) ∙ h
    go (c ∷ r) e = refl

-- The last name is taken off.
parent_of-name :
    (r t : Bytes)
    → HasNoSlash r
    → is_empty r ≡ false
    → parent_of (drop_slashes (r ++ (b'/' ∷ t))) ≡ or_root (drop_slashes t)
unfolding drop_slashes
parent_of-name [] t h k = absurd (ground arith)
parent_of-name (c ∷ r) t h k = rw h.0 (ap before_name (drop_name-behind (c ∷ r) t h))

reverse-path_of :
    (name : Bytes) (names : List Bytes)
    → reverse (path_of (name ∷ names)) ≡ reverse name ++ (b'/' ∷ reverse (path_of names))
reverse-path_of name names =
    reverse-append (path_of names) (b'/' ∷ name)
    ∙ ap (λ s. s ++ reverse (path_of names)) (reverse-append (b'/' ∷ []) name)
    ∙ append_assoc (reverse name) (b'/' ∷ []) (reverse (path_of names))

drop_slashes-name :
    (s t : Bytes) → HasNoSlash s → is_empty s ≡ false → drop_slashes (s ++ t) ≡ s ++ t
unfolding drop_slashes
drop_slashes-name [] t h k = absurd (ground arith)
drop_slashes-name (c ∷ s) t h k = rw h.0 refl

or_root-reverse : (s : Bytes) → is_empty s ≡ false → or_root (reverse s) ≡ s
or_root-reverse s h = go (reverse s) refl
  where
    go : (r : Bytes) → reverse s ≡ r → or_root r ≡ s
    go [] e = absurd (ground (arith, ap is_empty (sym (reverse-reverse s) ∙ ap reverse e), h))
    go (c ∷ r) e = ap reverse (sym e) ∙ reverse-reverse s

pub path_of-filled : (name : Bytes) (names : List Bytes) → is_empty (path_of (name ∷ names)) ≡ false
path_of-filled name names = go (path_of names)
  where
    go : (s : Bytes) → is_empty (s ++ (b'/' ∷ name)) ≡ false
    go [] = refl
    go (c ∷ s) = refl

drop_slashes-path_of :
    (names : List Bytes)
    → All IsName names
    → or_root (drop_slashes (reverse (path_of names))) ≡ absolute names
drop_slashes-path_of [] h = unfold drop_slashes in refl
drop_slashes-path_of (name ∷ names) h =
    let e = reverse-path_of name names in
    let kept =
      drop_slashes-name (reverse name) (b'/' ∷ reverse (path_of names))
        (reverse-HasNoSlash name h.0.1) (reverse-filled name h.0.0) in
    ap or_root (ap drop_slashes e ∙ kept ∙ sym e)
    ∙ or_root-reverse (path_of (name ∷ names)) (path_of-filled name names)

-- The path without its last name.
pub dirname-path_of :
    (name : Bytes) (names : List Bytes)
    → All IsName (name ∷ names)
    → dirname (path_of (name ∷ names)) ≡ absolute names
unfolding dirname
dirname-path_of name names h = rw (path_of-filled name names) (
    ap (λ s. parent_of (drop_slashes s)) (reverse-path_of name names)
    ∙ parent_of-name (reverse name) (reverse (path_of names)) (reverse-HasNoSlash name h.0.1)
        (reverse-filled name h.0.0)
    ∙ drop_slashes-path_of names h.1)

pub absolute-shorter :
    (name : Bytes) (names : List Bytes)
    → is_empty name ≡ false
    → length (absolute names) < length (path_of (name ∷ names))
absolute-shorter [] names h = absurd (ground arith)
absolute-shorter (c ∷ name) [] h = omega arith
absolute-shorter (c ∷ name) (next ∷ names) h =
    omega (arith, length-append (path_of (next ∷ names)) (b'/' ∷ c ∷ name))
