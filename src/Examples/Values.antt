-- ===== src/Examples/Values.antt =====
-- The values of the examples. The floats are integers here, printed and parsed in decimal.
use ibapi.Common.{
  ℕ, [], ◌∷◌, Bool, true, false, Option, none, some, ◌≡◌, ◌≢◌, refl, Bytes, codes, ℤ, pos, negsuc,
  ltb, int_eq, arith,
}
use ibapi.Wire.Decimal.{format_int, parse_int, Parsed, parsed, failed}
use ibapi.Wire.Decimal.RoundTrip.{parse_int-format_int, format_int-Lacks, format_int-ne-nil}
use ibapi.Wire.Float.{Floats, IsPrintable}
use ibapi.Buffer.Items.{Int64, Text, Real}
use ibapi.Decoder.Wrapper.{AccountTime}
use ibapi.Decoder.Dispatch.{msg_id}

abbrev parsed_value : Parsed → Option ℤ
parsed_value (parsed i) = some i
parsed_value (failed e) = none

abbrev int_lt : ℤ → ℤ → Bool
int_lt (pos a) (pos b) = ltb a b
int_lt (pos a) (negsuc b) = false
int_lt (negsuc a) (pos b) = true
int_lt (negsuc a) (negsuc b) = ltb b a

instance abbrev pub ints : Floats ℤ
ints = record {
  format_float = format_int;
  parse_float = λ s. parsed_value (parse_int s);
  of_int = λ i. i;
  to_int = λ i. i;
  unset_float = pos 9007199254740992;
  float_eq = int_eq;
  float_lt = int_lt;
}

first_code : (s : Bytes) → s ≢ [] → (c : ℕ) × (r : Bytes) × (s ≡ c ∷ r)
first_code [] h = absurd (h refl)
first_code (c ∷ r) h = (c, r, refl)

pub printable : (i : Int64) → IsPrintable i.value
printable i = record {
  reads_back = rw (parse_int-format_int i.value i.in_range) refl;
  no_nul = format_int-Lacks i.value;
  starts = first_code (format_int i.value) (format_int-ne-nil i.value);
}

abbrev pub whole : Int64 → Real ℤ
whole i = record { value = i.value; printable = printable i }

abbrev pub seven : Int64
seven = msg_id 7 refl

abbrev pub one : Int64
one = msg_id 1 refl

abbrev pub two : Int64
two = msg_id 2 refl

abbrev pub minus_one : Int64
minus_one = record { value = negsuc 0; in_range = ground arith }

abbrev pub ticker : Text
ticker = record { bytes = codes "IBM"; no_nul = ground arith }

abbrev pub empty_text : Text
empty_text = record { bytes = []; no_nul = tt }

abbrev pub no_clock : Bytes → Option AccountTime
no_clock s = none
