-- ===== src/Common/Pattern.antt =====
-- The part of Python's `re` that the mask patterns use, matched by derivatives.
use sieve.Prelude.{ℕ, String, code, Bool, true, false, ◌&&◌, ◌||◌, leb, if◌then◌else◌}

pub data Regex : Type 0 where
  fails eps : Regex
  range : ℕ → ℕ → Regex
  seq : Regex → Regex → Regex
  alt : Regex → Regex → Regex
  star : Regex → Regex

abbrev pub letter : ℕ → Regex
letter c = range c c

-- `r?` and `r+`
abbrev pub optional : Regex → Regex
optional r = alt r eps

abbrev pub plus : Regex → Regex
plus r = seq r (star r)

nullable : Regex → Bool
nullable fails = false
nullable eps = true
nullable (range a b) = false
nullable (seq r s) = nullable r && nullable s
nullable (alt r s) = nullable r || nullable s
nullable (star r) = true

-- What is left to match after a character.
derivative : ℕ → Regex → Regex
unfolding nullable
derivative c fails = fails
derivative c eps = fails
derivative c (range a b) = if leb a c && leb c b then eps else fails
derivative c (seq r s) =
    let first = seq (derivative c r) s in
    let second = derivative c s in if nullable r then alt first second else first
derivative c (alt r s) = alt (derivative c r) (derivative c s)
derivative c (star r) = seq (derivative c r) (star r)

unfoldable pub matches : Regex → String → Bool
unfolding nullable derivative
matches r String.[] = nullable r
matches r (String.◌∷◌ c s) = matches (derivative (code c) r) s
