-- ===== src/Tests/Ffr.antt =====
-- Values in each radix.
use tool_debug.Ffr.Brackets.{parse_range, ranges_in}
use tool_debug.Ffr.Dimensions.{Dimension, index, range, ends, brackets, parse_range-ranges_in}
use tool_debug.Common.{
  [], negsuc, arith, ◌∷◌, some, pos, ◌++◌, map, none, List, equal, codes, ◌≡◌, refl,
}
use tool_debug.Common.Decimal.{decimal}
use tool_debug.Ffr.{convert}
use tool_debug.Ffr.Doubling.{binary_from, convert-decimal}

convert-decimal_example : convert (codes "1100100") (codes "dec") ≡ codes "100"
unfolding decimal binary_from
convert-decimal_example =
    convert-decimal (codes "1100100") (refl, (refl, (refl, (refl, (refl, (refl, (refl, tt)))))))

in_hex : convert (codes "1x00zzzz111101") (codes "hex") ≡ codes "xzzd"
unfolding convert equal
in_hex = refl

-- The dimensions of mem[3:0][-2].
abbrev memory : List Dimension
memory = range (pos 3) (pos 0) ∷ index (negsuc 1) ∷ []

parse_range-ranges_in_example :
    map parse_range (ranges_in (codes "mem" ++ brackets memory)) ≡ map (λ d. some (ends d)) memory
parse_range-ranges_in_example =
    parse_range-ranges_in (codes "mem") memory (refl, (refl, (refl, tt)))
      ((omega arith, omega arith), (omega arith, tt))

no_brackets : parse_range (codes "[]") ≡ none
unfolding parse_range
no_brackets = refl
