-- ===== src/Wire/Decimal.antt =====
-- `strconv.AppendInt` and `strconv.ParseInt` at base 10 and 64 bits, as utils.go uses them.
pub mod RoundTrip
use ibapi.Common.{
  ℕ, zero, suc, ◌+◌, ◌-◌, ◌*◌, ◌/◌, ◌%◌, ◌^◌, List, [], ◌∷◌, Bool, true, false, ◌||◌, ◌≡◌, refl,
  Bytes, codes, ltb, leb, ◌==◌, if◌then◌else◌, ℤ, pos, negsuc, arith,
}

-- The digits of `n` in front of `out`, the last one first; the fuel bounds their number.
digits : ℕ → ℕ → Bytes → Bytes
digits zero n out = out
digits (suc f) n out =
    let more = digits f (n / 10) ((b'0' + n % 10) ∷ out) in
    if n / 10 == 0 then (b'0' + n % 10) ∷ out else more

-- A number below 10 ^ k has k digits at most, so `n + 1` rounds are enough.
abbrev format_nat : ℕ → Bytes
format_nat n = digits (suc n) n []

-- `strconv.AppendInt(nil, i, 10)`.
unfoldable pub format_int : ℤ → Bytes
unfolding digits
format_int (pos n) = format_nat n
format_int (negsuc n) = b'-' ∷ format_nat (suc n)

-- A `*strconv.NumError`: the text is no number, or the number is out of range.
pub data NumError : Type 0 where
  syntax_error range_error : NumError

pub data Parsed : Type 0 where
  parsed : ℤ → Parsed
  failed : NumError → Parsed

-- The loop of `ParseUint`: the second test says that `n*10 + d` does not fit a uint64.
scan_digits : Bytes → ℕ → (ℕ → Parsed) → Parsed
scan_digits [] n k = k n
scan_digits (c ∷ s) n k =
    if ltb c b'0' || ltb b'9' c
    then failed syntax_error
    else if leb (2 ^ 64) (n * 10 + (c - b'0'))
    then failed range_error
    else scan_digits s (n * 10 + (c - b'0')) k

parse_uint : Bytes → (ℕ → Parsed) → Parsed
unfolding scan_digits
parse_uint [] k = failed syntax_error
parse_uint (c ∷ s) k = scan_digits (c ∷ s) 0 k

abbrev positive : ℕ → Parsed
positive n = if leb (2 ^ 63) n then failed range_error else parsed (pos n)

abbrev negative : ℕ → Parsed
negative zero = parsed (pos 0)
negative (suc n) = if leb (2 ^ 63) n then failed range_error else parsed (negsuc n)

-- `strconv.ParseInt(s, 10, 64)`.
unfoldable pub parse_int : Bytes → Parsed
unfolding parse_uint
parse_int [] = failed syntax_error
parse_int (c ∷ s) =
    if c == b'+'
    then parse_uint s positive
    else if c == b'-'
    then parse_uint s negative
    else parse_uint (c ∷ s) positive

test_format : format_int (negsuc 1233) ≡ codes "-1234"
unfolding format_int
test_format = refl

test_parse : parse_int (codes "-9223372036854775808") ≡ parsed (negsuc 9223372036854775807)
unfolding parse_int
test_parse = refl

test_parse_range : parse_int (codes "9223372036854775808") ≡ failed range_error
unfolding parse_int
test_parse_range = refl

test_parse_decimal : parse_int (codes "1.5") ≡ failed syntax_error
unfolding parse_int
test_parse_decimal = refl
