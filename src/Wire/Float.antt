-- ===== src/Wire/Float.antt =====
-- The float64 values and what the code asks of `strconv` and of the hardware about them. The
-- type is a parameter: an instance of `Floats F` stands wherever the code touches a float.
use ibapi.Common.{ℕ, ◌∷◌, Bool, Option, some, ◌≡◌, Bytes, Lacks, ℤ}

pub record Floats (F : Type 0) : Type 0 where
  -- `strconv.AppendFloat(nil, v, 'g', 10, 64)`.
  pub format_float : F → Bytes
  -- `strconv.ParseFloat(s, 64)`; `none` is an error.
  pub parse_float : Bytes → Option F
  -- `float64(i)` of an int64.
  pub of_int : ℤ → F
  -- `int64(v)` of a float64.
  pub to_int : F → ℤ
  -- `math.MaxFloat64`, which the package calls UNSETFLOAT.
  pub unset_float : F
  pub float_eq : F → F → Bool
  pub float_lt : F → F → Bool

-- What the package relies on for a value `v` of its own: `strconv` reads back what it printed
-- (true of values of ten significant digits), the print is not empty and holds no NUL.
pub record IsPrintable {F : Type 0} ⦃fl : Floats F⦄ (v : F) : Type 0 where
  pub reads_back : fl.parse_float (fl.format_float v) ≡ some v
  pub no_nul : Lacks 0 (fl.format_float v)
  pub starts : (c : ℕ) × (r : Bytes) × (fl.format_float v ≡ c ∷ r)
