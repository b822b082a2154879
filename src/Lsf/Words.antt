-- ===== src/Lsf/Words.antt =====
-- split_command gives back the words of a command line.
use tool_debug.Common.{
  ℕ, Bytes, List, [], ◌∷◌, ◌++◌, append_assoc, append-nil, false, ◌||◌, none, some, ◌≡◌, refl, ap,
  sym, ◌∙◌, ◌==◌, ==_iff, is_empty, is_space, All,
}
use tool_debug.Lsf.{flush, split_loop, split_command}

-- How a word is written.
pub data Style : Type 0 where
  bare quoted double_quoted : Style

unfoldable pub spell : Style → Bytes → Bytes
spell bare word = word
spell quoted word = b'\'' ∷ (word ++ b'\'' ∷ [])
spell double_quoted word = b'"' ∷ (word ++ b'"' ∷ [])

-- A bare word has no quote and no blank, a quoted one not the quote that it stands in.
abbrev pub IsPlain : Style → Bytes → Type 0
IsPlain bare = All (λ c. ((c == b'\'' || c == b'"') ≡ false) × (is_space c ≡ false))
IsPlain quoted = All (λ c. (c == b'\'') ≡ false)
IsPlain double_quoted = All (λ c. (c == b'"') ≡ false)

-- Each word with a blank behind it.
unfoldable pub command : List (Style × Bytes) → Bytes
unfolding spell
command [] = []
command ((style, word) ∷ rest) = spell style word ++ b' ' ∷ command rest

abbrev pub AreWords : List (Style × Bytes) → Type 0
AreWords = All (λ w. IsPlain w.0 w.1 × (is_empty w.1 ≡ false))

abbrev pub words_of : List (Style × Bytes) → List Bytes
words_of [] = []
words_of ((style, word) ∷ rest) = word ∷ words_of rest

inside_quotes :
    (quote : ℕ) (word so_far rest : Bytes)
    → All (λ c. (c == quote) ≡ false) word
    → split_loop (some quote) so_far (word ++ quote ∷ rest) ≡ split_loop none (so_far ++ word) rest
unfolding split_loop
inside_quotes quote [] so_far rest h =
    rw ((==_iff quote quote).1 refl) (ap (λ w. split_loop none w rest) (sym (append-nil so_far)))
inside_quotes quote (c ∷ word) so_far rest h = rw h.0 (
    inside_quotes quote word (so_far ++ c ∷ []) rest h.1
    ∙ ap (λ w. split_loop none w rest) (append_assoc so_far (c ∷ []) word))

bare_word :
    (word so_far rest : Bytes)
    → All (λ c. ((c == b'\'' || c == b'"') ≡ false) × (is_space c ≡ false)) word
    → split_loop none so_far (word ++ b' ' ∷ rest)
      ≡ flush (so_far ++ word) ++ split_loop none [] rest
unfolding split_loop
bare_word [] so_far rest h = ap (λ w. flush w ++ split_loop none [] rest) (sym (append-nil so_far))
bare_word (c ∷ word) so_far rest h =
    let later =
      bare_word word (so_far ++ c ∷ []) rest h.1
      ∙ ap (λ w. flush w ++ split_loop none [] rest) (append_assoc so_far (c ∷ []) word) in
    rw (h.0.0, h.0.1) later

spelled :
    (style : Style) (word rest : Bytes)
    → IsPlain style word
    → split_loop none [] (spell style word ++ b' ' ∷ rest) ≡ flush word ++ split_loop none [] rest
unfolding spell split_loop
spelled bare word rest h = bare_word word [] rest h
spelled quoted word rest h =
    ap (split_loop (some b'\'') []) (append_assoc word (b'\'' ∷ []) (b' ' ∷ rest))
    ∙ inside_quotes b'\'' word [] (b' ' ∷ rest) h
spelled double_quoted word rest h =
    ap (split_loop (some b'"') []) (append_assoc word (b'"' ∷ []) (b' ' ∷ rest))
    ∙ inside_quotes b'"' word [] (b' ' ∷ rest) h

flush_filled : (word : Bytes) → is_empty word ≡ false → flush word ≡ word ∷ []
unfolding flush
flush_filled [] h = absurd cc
flush_filled (c ∷ word) h = refl

-- `split_command` gives the words of a command line, whether each is bare, quoted or double quoted,
-- where no word is empty, a bare one has no quote or blank and a quoted one not its own quote.
pub split_command-command :
    (words : List (Style × Bytes)) → AreWords words → split_command (command words) ≡ words_of words
unfolding split_command command
split_command-command [] h = unfold split_loop flush in refl
split_command-command ((style, word) ∷ rest) h =
    spelled style word (command rest) h.0.0
    ∙ ap (λ w. w ++ split_loop none [] (command rest)) (flush_filled word h.0.1)
    ∙ ap (◌∷◌ word) (split_command-command rest h.1)
