-- ===== src/Buffer/Items.antt =====
-- What a server writes: typed values, each printed with a NUL behind it.
use ibapi.Common.{◌∷◌, List, [], ◌++◌, Bool, true, false, Bytes, Lacks, ℤ, IsInt64}
use ibapi.Wire.Decimal.{format_int}
use ibapi.Wire.Float.{Floats, IsPrintable}

-- An `int64`.
pub record Int64 : Type 0 where
  pub value : ℤ
  pub in_range : IsInt64 value

-- A text with no NUL.
pub record Text : Type 0 where
  pub bytes : Bytes
  pub no_nul : Lacks 0 bytes

-- A float64 that its print determines.
pub record Real (F : Type 0) ⦃fl : Floats F⦄ : Type 0 where
  pub value : F
  pub printable : IsPrintable value

pub data Item (F : Type 0) ⦃fl : Floats F⦄ : Type 0 where
  int : Int64 → Item F
  -- an empty field where a number is expected
  empty : Item F
  text : Text → Item F
  bool : Bool → Item F
  real : Real F → Item F

module _ {F : Type 0} ⦃fl : Floats F⦄ where
  unfoldable pub print : Item F → Bytes
  print (int i) = format_int i.value
  print empty = []
  print (text t) = t.bytes
  print (bool true) = b'1' ∷ []
  print (bool false) = b'0' ∷ []
  print (real v) = fl.format_float v.value

  -- The bytes of a message with these values.
  unfoldable pub wire : List (Item F) → Bytes
  unfolding print
  wire [] = []
  wire (i ∷ is) = print i ++ 0 ∷ wire is
