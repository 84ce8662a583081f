-- ===== src/Common.antt =====
-- sieve_common/common.py: the marks that stand for masked and skipped values, and the patterns of
-- the texts that are always masked.
mod Pattern
use Pattern.{Regex, eps, range, seq, alt, letter, optional, plus, matches}
use sieve.Prelude.{String, Bool, false, ◌||◌, ◌≡◌, refl}

abbrev pub sieve_idx_skip : String
sieve_idx_skip = "SIEVE-SKIP"

abbrev pub sieve_value_mask : String
sieve_value_mask = "SIEVE-NON-NIL"

abbrev pub sieve_learn_value_mask : String
sieve_learn_value_mask = "SIEVE-IGNORE"

abbrev digit : Regex
digit = range b'0' b'9'

-- `$` matches at the end, and before a newline that ends the text.
abbrev dollar : Regex
dollar = optional (letter 10)

infixr 60 ◌▸◌
abbrev ◌▸◌ : Regex → Regex → Regex
r ▸ s = seq r s

-- ^[0-9]+-[0-9]+-[0-9]+T[0-9]+:[0-9]+:[0-9]+Z$
unfoldable pub time_reg : Regex
time_reg =
    plus digit
    ▸ letter b'-'
    ▸ plus digit
    ▸ letter b'-'
    ▸ plus digit
    ▸ letter b'T'
    ▸ plus digit
    ▸ letter b':'
    ▸ plus digit
    ▸ letter b':'
    ▸ plus digit
    ▸ letter b'Z'
    ▸ dollar

-- 25[0-5]|2[0-4][0-9]|[01]?[0-9][0-9]?
abbrev octet : Regex
octet = alt (letter b'2' ▸ letter b'5' ▸ range b'0' b'5') (
    alt (letter b'2' ▸ range b'0' b'4' ▸ digit)
      (optional (range b'0' b'1') ▸ digit ▸ optional digit))

unfoldable pub ip_reg : Regex
ip_reg = (octet ▸ letter b'.') ▸ (octet ▸ letter b'.') ▸ (octet ▸ letter b'.') ▸ octet ▸ dollar

-- `MASK_REGS` holds the two patterns.
unfoldable pub match_mask_regex : String → Bool
unfolding matches time_reg ip_reg
match_mask_regex s = matches time_reg s || matches ip_reg s
