-- ===== src/Tests/Lsf.antt =====
-- Submission commands and responses on concrete texts.
use tool_debug.Common.{Bytes, codes, List, [], ◌∷◌, ◌≡◌, refl, pos}
use tool_debug.Common.Decimal.{to_string}
use tool_debug.Lsf.{find, skip_digits, split_command, replace_pid}
use tool_debug.Lsf.Words.{Style, bare, quoted, double_quoted, command, split_command-command}

abbrev words : List (Style × Bytes)
words =
    (bare, codes "bsub") ∷ (quoted, codes "-R rusage[mem=1]") ∷ (double_quoted, codes "it's") ∷ []

split_command-command_example :
    split_command (command words) ≡ codes "bsub" ∷ codes "-R rusage[mem=1]" ∷ codes "it's" ∷ []
split_command-command_example = split_command-command words (
    (
      (((refl, refl), ((refl, refl), ((refl, refl), ((refl, refl), tt)))), refl),
      (
        (
          (
            refl,
            (
              refl,
              (
                refl,
                (
                  refl,
                  (
                    refl,
                    (
                      refl,
                      (
                        refl,
                        (refl, (refl, (refl, (refl, (refl, (refl, (refl, (refl, (refl, tt))))))))),
                      ),
                    ),
                  ),
                ),
              ),
            ),
          ),
          refl,
        ),
        (((refl, (refl, (refl, (refl, tt)))), refl), tt),
      ),
    ))

-- A quote inside a word joins its parts.
joined_parts : split_command (codes "a'b c'd  e") ≡ codes "ab cd" ∷ codes "e" ∷ []
unfolding split_command
joined_parts = refl

abbrev pong : Bytes
pong = codes "{\"pid\":17,\"pid\":4}"

first_pid : replace_pid pong (pos 99) ≡ codes "{\"pid\":99,\"pid\":4}"
unfolding replace_pid find to_string skip_digits
first_pid = refl
