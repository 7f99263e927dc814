-- ===== src/Wire/Decimal/RoundTrip.antt =====
-- What `ParseInt` reads back of a printed integer, and the bytes that a print holds.
use mathlib.Core.Path.{subst}
use ibapi.Common.{
  ℕ, zero, suc, ◌+◌, ◌/◌, ◌%◌, ◌^◌, ◌≤◌, ◌<◌, [], ◌∷◌, ◌≡◌, ◌≢◌, refl, Bytes, Lacks, ℤ, pos, negsuc,
  IsInt64, arith,
}
use ibapi.Wire.Decimal.{
  digits, format_nat, format_int, Parsed, parsed, scan_digits, parse_uint, positive, negative,
  parse_int,
}

scan_last :
    (n : ℕ) (out : Bytes) (k : ℕ → Parsed)
    → n < 2 ^ 64
    → scan_digits ((b'0' + n % 10) ∷ out) (n / 10) k ≡ scan_digits out n k
unfolding scan_digits
scan_last n out k h = ground arith

scan_digits-digits :
    (f n : ℕ) (out : Bytes) (k : ℕ → Parsed)
    → n < f
    → n < 2 ^ 64
    → scan_digits (digits f n out) 0 k ≡ scan_digits out n k
unfolding digits
scan_digits-digits zero n out k h b = absurd (omega arith)
scan_digits-digits (suc f) n out k h b =
    ground (arith, scan_last n out k b, scan_digits-digits f (n / 10) ((b'0' + n % 10) ∷ out) k)

abbrev StartsWithDigit : Bytes → Type 0
StartsWithDigit [] = ⊥
StartsWithDigit (c ∷ _) = (b'0' ≤ c) × (c ≤ b'9')

digits-StartsWithDigit : (f n : ℕ) (out : Bytes) → n < f → StartsWithDigit (digits f n out)
unfolding digits
digits-StartsWithDigit zero n out h = absurd (omega arith)
digits-StartsWithDigit (suc f) n out h =
    ground (arith, digits-StartsWithDigit f (n / 10) ((b'0' + n % 10) ∷ out))

parse_uint-scan_digits :
    (s : Bytes) (k : ℕ → Parsed) → StartsWithDigit s → parse_uint s k ≡ scan_digits s 0 k
unfolding parse_uint
parse_uint-scan_digits [] k h = absurd h
parse_uint-scan_digits (c ∷ s) k h = refl

parse_int-scan_digits : (s : Bytes) → StartsWithDigit s → parse_int s ≡ scan_digits s 0 positive
unfolding parse_int
parse_int-scan_digits [] h = absurd h
parse_int-scan_digits (c ∷ s) h = ground arith

format_nat-StartsWithDigit : (n : ℕ) → StartsWithDigit (format_nat n)
format_nat-StartsWithDigit n = digits-StartsWithDigit (suc n) n [] (omega arith)

parse_uint-format_nat : (n : ℕ) (k : ℕ → Parsed) → n < 2 ^ 64 → scan_digits (format_nat n) 0 k ≡ k n
unfolding scan_digits
parse_uint-format_nat n k h = scan_digits-digits (suc n) n [] k (omega arith) h

-- Every int64 is read back from its decimal print.
pub parse_int-format_int : (i : ℤ) → IsInt64 i → parse_int (format_int i) ≡ parsed i
unfolding format_int
parse_int-format_int (pos n) h =
    rw
      (
        parse_int-scan_digits _ (format_nat-StartsWithDigit n),
        parse_uint-format_nat n positive (omega arith),
      )
      (ground arith)
parse_int-format_int (negsuc n) h =
    unfold parse_int in
    rw
      (
        parse_uint-scan_digits _ negative (format_nat-StartsWithDigit (suc n)),
        parse_uint-format_nat (suc n) negative (omega arith),
      )
      (ground arith)

digits-Lacks : (f n : ℕ) (out : Bytes) → Lacks 0 out → Lacks 0 (digits f n out)
unfolding digits
digits-Lacks zero n out h = h
digits-Lacks (suc f) n out h =
    ground (arith, digits-Lacks f (n / 10) ((b'0' + n % 10) ∷ out) (omega arith, h))

-- A printed integer holds no NUL.
pub format_int-Lacks : (i : ℤ) → Lacks 0 (format_int i)
unfolding format_int
format_int-Lacks (pos n) = digits-Lacks (suc n) n [] tt
format_int-Lacks (negsuc n) = (omega arith, digits-Lacks (suc (suc n)) (suc n) [] tt)

-- A printed integer is not empty.
pub format_int-ne-nil : (i : ℤ) → format_int i ≢ []
unfolding format_int
format_int-ne-nil (pos n) e = subst StartsWithDigit e (format_nat-StartsWithDigit n)
format_int-ne-nil (negsuc n) e = cc
