-- ===== src/Ffr/Listing.antt =====
-- What the FFR backend lists for a range is the change that holds at its begin and the changes in it.
use tool_debug.Common.{
  ℕ, zero, suc, ◌≤◌, ◌<◌, Bytes, equal, List, [], ◌∷◌, ◌++◌, append-nil, append_assoc, ◌≡◌, refl,
  sym, ap, ◌∙◌, subst, inl, inr, pos, ltb_ℤ, Bool, true, false, ◌&&◌, ◌||◌, some, if◌then◌else◌,
  ltb, leb, length, take, drop, length-append, All, arith, Bool-cases,
}
use tool_debug.Backend.{ok, ◌>>=◌, Value, Range}
use tool_debug.Ffr.Slice.{Var}
use tool_debug.Ffr.Cursor.{
  Vc, Track, Reader, open_cursor, current, changes_at, min_ℤ, tag_of, seek_from, no_changes,
  add_change, range_loop, range_first, range_from, cursor_range,
}

-- Each tag is greater than those before it.
abbrev pub Rising : List Vc → Type 0
Rising [] = Unit
Rising (vc ∷ vcs) = All (λ later. vc.tag < later.tag) vcs × Rising vcs

-- What the reader documents of a search: it goes to the last change that is not after the tag.
pub record Lands (reader : Reader) (track : Track) (begin : ℕ) : Type 0 where
  pub front : List Vc
  pub vc : Vc
  pub after : List Vc
  pub parts : track.changes ≡ front ++ vc ∷ after
  pub position : track.seek (tag_of (min_ℤ (pos begin) reader.max_time)) ≡ some (length front)
  pub before : All (λ c. c.tag ≤ begin) front
  pub at : vc.tag ≤ begin
  pub behind : All (λ c. begin < c.tag) after

-- The text of each change, where every one has a value that can be shown.
abbrev pub Shows : Reader → Track → Var → Bytes → (Vc → Bytes) → Vc → Type 0
Shows reader track var radix text vc =
    current reader track var radix vc ≡ ok (record { time = pos vc.tag; value = text vc })

-- The changes after the begin and not after the end.
unfoldable pub between : ℕ → ℕ → (Vc → Bytes) → List Vc → List Value
between begin end text [] = []
between begin end text (vc ∷ vcs) =
    let rest = between begin end text vcs in
    if ltb begin vc.tag && leb vc.tag end
    then record { time = pos vc.tag; value = text vc } ∷ rest
    else rest

-- For a part select, without the changes that leave its bits as they were.
unfoldable pub kept : Bool → Bytes → List Value → List Value
kept sliced last [] = []
kept sliced last (v ∷ vs) =
    let same = kept sliced last vs in
    let more = v ∷ kept sliced v.value vs in if sliced && equal v.value last then same else more

-- The first values up to the limit, with the number of all.
abbrev pub listing : ℕ → List Value → Range
listing limit vs = record { changes = take limit vs; total = pos (length vs) }

take-snoc :
    (limit : ℕ) (vs : List Value) (v : Value)
    → (if ltb (length (take limit vs)) limit then take limit vs ++ v ∷ [] else take limit vs)
      ≡ take limit (vs ++ v ∷ [])
take-snoc zero vs v = refl
take-snoc (suc zero) [] v = refl
take-snoc (suc (suc limit)) [] v = ground arith
take-snoc (suc limit) (x ∷ vs) v = elim (Bool-cases (ltb (length (take limit vs)) limit)) [
  | inl room ↦
      let further : ltb (suc (length (take limit vs))) (suc limit) ≡ true = ground arith in
      rw further (ap (◌∷◌ x) (rw room at (take-snoc limit vs v)))
  | inr full ↦
      let further : ltb (suc (length (take limit vs))) (suc limit) ≡ false = ground arith in
      rw further (ap (◌∷◌ x) (rw full at (take-snoc limit vs v)))
]

add_change-listing :
    (limit : ℕ) (vs : List Value) (v : Value)
    → add_change limit v (listing limit vs) ≡ listing limit (vs ++ v ∷ [])
add_change-listing limit vs v =
    let more : suc (length vs) ≡ length (vs ++ v ∷ []) = omega (arith, length-append vs (v ∷ [])) in
    ap (λ (cs : List Value). record { changes = cs; total = pos (suc (length vs)) })
      (take-snoc limit vs v)
    ∙ ap (λ (n : ℕ). record { changes = take limit (vs ++ v ∷ []); total = pos n }) more

between-late :
    (begin end : ℕ) (text : Vc → Bytes) (vcs : List Vc)
    → All (λ c. end < c.tag) vcs
    → between begin end text vcs ≡ []
unfolding between
between-late begin end text [] h = refl
between-late begin end text (vc ∷ vcs) h =
    let late = h.0 in
    let out : (ltb begin vc.tag && leb vc.tag end) ≡ false = ground arith in
    rw out (between-late begin end text vcs h.1)

between-early :
    (begin end : ℕ) (text : Vc → Bytes) (front vcs : List Vc)
    → All (λ c. c.tag ≤ begin) front
    → between begin end text (front ++ vcs) ≡ between begin end text vcs
unfolding between
between-early begin end text [] vcs h = refl
between-early begin end text (vc ∷ front) vcs h =
    let early = h.0 in
    let out : (ltb begin vc.tag && leb vc.tag end) ≡ false = ground arith in
    rw out (between-early begin end text front vcs h.1)

All-mono : (m n : ℕ) → m < n → (vcs : List Vc) → All (λ c. n < c.tag) vcs → All (λ c. m < c.tag) vcs
All-mono m n h [] all = tt
All-mono m n h (vc ∷ vcs) all = (let late = all.0 in omega arith, All-mono m n h vcs all.1)

module _ (reader : Reader) (track : Track) (var : Var) (radix : Bytes) (text : Vc → Bytes) where
  range_loop-kept :
      (begin end limit : ℕ) (last : Bytes) (taken : List Value) (vcs : List Vc)
      → Rising vcs
      → All (λ c. begin < c.tag) vcs
      → All (Shows reader track var radix text) vcs
      → range_loop reader track var radix (pos end) limit last (listing limit taken) vcs
        ≡ ok (listing limit (taken ++ kept var.sliced last (between begin end text vcs)))
  unfolding range_loop kept between
  range_loop-kept begin end limit last taken [] rising late shows =
      ap (λ vs. ok (listing limit vs)) (sym (append-nil taken))
  range_loop-kept begin end limit last taken (vc ∷ vcs) rising late shows =
      let v : Value = record { time = pos vc.tag; value = text vc } in
      let first = late.0 in
      let show : Shows reader track var radix text vc = shows.0 in
      rw show (elim (Bool-cases (ltb end vc.tag)) [
        | inl over ↦
            let ends : ltb_ℤ (pos end) (pos vc.tag) ≡ true = ground arith in
            let out : (ltb begin vc.tag && leb vc.tag end) ≡ false = ground arith in
            let rest =
              between-late begin end text vcs (All-mono end vc.tag (ground arith) vcs rising.0) in
            rw (ends, out, rest) (ap (λ vs. ok (listing limit vs)) (sym (append-nil taken)))
        | inr within ↦
            let goes_on : ltb_ℤ (pos end) (pos vc.tag) ≡ false = ground arith in
            let inside : (ltb begin vc.tag && leb vc.tag end) ≡ true = ground arith in
            rw (goes_on, inside)
              (elim (Bool-cases (var.sliced && equal (text vc) last)) [
                | inl same ↦
                    rw same (range_loop-kept begin end limit last taken vcs rising.1 late.1 shows.1)
                | inr other ↦ rw other (
                    ap (λ r. range_loop reader track var radix (pos end) limit (text vc) r vcs)
                      (add_change-listing limit taken v)
                    ∙ range_loop-kept begin end limit (text vc) (taken ++ v ∷ []) vcs rising.1
                        late.1 shows.1
                    ∙ ap (λ vs. ok (listing limit vs))
                        (append_assoc taken (v ∷ [])
                          (kept var.sliced (text vc) (between begin end text vcs))))
              ])
      ])

drop-append_self : (front vcs : List Vc) → drop (length front) (front ++ vcs) ≡ vcs
drop-append_self [] vcs = refl
drop-append_self (vc ∷ front) vcs = drop-append_self front vcs

All-behind {ℓ} : (P : Vc → Type ℓ) (front vcs : List Vc) → All P (front ++ vcs) → All P vcs
All-behind P [] vcs h = h
All-behind P (vc ∷ front) vcs h = All-behind P front vcs h.1

Rising-behind : (front vcs : List Vc) → Rising (front ++ vcs) → Rising vcs
Rising-behind [] vcs h = h
Rising-behind (vc ∷ front) vcs h = Rising-behind front vcs h.1

add_change-first : (limit : ℕ) (v : Value) → add_change limit v no_changes ≡ listing limit (v ∷ [])
add_change-first zero v = refl
add_change-first (suc limit) v = add_change-listing (suc limit) [] v

range_from-kept :
    (reader : Reader) (track : Track) (var : Var) (radix : Bytes) (text : Vc → Bytes)
    (begin end limit : ℕ) (vc : Vc) (after : List Vc)
    → Rising (vc ∷ after)
    → All (Shows reader track var radix text) (vc ∷ after)
    → vc.tag ≤ begin
    → All (λ c. begin < c.tag) after
    → begin ≤ end
    → range_from reader track var radix (pos begin) (pos end) limit (vc ∷ after)
      ≡ ok (
          listing limit (
            record { time = pos begin; value = text vc }
            ∷ kept var.sliced (text vc) (between begin end text after)))
range_from-kept reader track var radix text begin end limit vc after rising shows early late order =
    let v : Value = record { time = pos vc.tag; value = text vc } in
    let first : Value = record { time = pos begin; value = text vc } in
    let shown : Shows reader track var radix text vc = shows.0 in
    let there : (ltb_ℤ (pos begin) (pos vc.tag) || ltb_ℤ (pos end) (pos vc.tag)) ≡ false =
      ground arith in
    ap (λ r. r >>= range_first reader track var radix (pos begin) (pos end) limit after) shown
    ∙ ap
        (λ b.
          if b
          then ok no_changes
          else range_loop reader track var radix (pos end) limit (text vc)
              (add_change limit first no_changes) after)
        there
    ∙ ap (λ r. range_loop reader track var radix (pos end) limit (text vc) r after)
        (add_change-first limit first)
    ∙ range_loop-kept reader track var radix text begin end limit (text vc) (first ∷ []) after
        rising.1 late shows.1

-- A range lists the value that holds at its begin and then the changes behind it up to its end, for
-- a part select only those that change its bits: the first ones up to the limit, with the number of
-- all, where the cursor opens and its tags rise, the reader searches as documented, every change has
-- a value, and the end is not before the begin.
pub cursor_range-between :
    (reader : Reader) (track : Track) (var : Var) (path radix : Bytes) (text : Vc → Bytes)
    (begin end limit : ℕ)
    → open_cursor reader var path ≡ ok track
    → Rising track.changes
    → All (Shows reader track var radix text) track.changes
    → (lands : Lands reader track begin) → begin ≤ end
    → cursor_range reader var path (pos begin) (pos end) radix limit
      ≡ ok (
          listing limit (
            record { time = pos begin; value = text lands.vc }
            ∷ kept var.sliced (text lands.vc) (between begin end text track.changes)))
unfolding cursor_range
cursor_range-between reader track var path radix text begin end limit opens rising shows lands
      order =
    let front = lands.front in
    let vc = lands.vc in
    let after = lands.after in
    let found : seek_from reader track (pos begin) ≡ vc ∷ after =
      ap (changes_at track) lands.position
      ∙ ap (drop (length front)) lands.parts
      ∙ drop-append_self front (vc ∷ after) in
    let listed : between begin end text track.changes ≡ between begin end text after =
      ap (between begin end text) lands.parts
      ∙ between-early begin end text front (vc ∷ after) lands.before
      ∙ between-early begin end text (vc ∷ []) after (lands.at, tt) in
    ap
      (λ t. t >>= (λ track.
        range_from reader track var radix (pos begin) (pos end) limit
          (seek_from reader track (pos begin))))
      opens
    ∙ ap (range_from reader track var radix (pos begin) (pos end) limit) found
    ∙ range_from-kept reader track var radix text begin end limit vc after
        (Rising-behind front (vc ∷ after) (subst Rising lands.parts rising))
        (All-behind (Shows reader track var radix text) front (vc ∷ after)
          (subst (All (Shows reader track var radix text)) lands.parts shows))
        lands.at lands.behind order
    ∙ ap
        (λ vs. ok (
          listing limit
            (record { time = pos begin; value = text vc } ∷ kept var.sliced (text vc) vs)))
        (sym listed)
