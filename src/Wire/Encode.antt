-- ===== src/Wire/Encode.antt =====
-- `makeMsgBytes` and `handleEmpty` of utils.go: the fields of a request as bytes.
pub mod Layout
use ibapi.Common.{
  ℕ, ◌-◌, ◌/◌, ◌%◌, ◌^◌, List, [], ◌∷◌, ◌++◌, Bool, true, false, Option, none, some, Bytes, length,
  if◌then◌else◌, ℤ, pos, int_eq,
}
use ibapi.Wire.Decimal.{format_int}
use ibapi.Wire.Float.{Floats}

-- `fieldSplit`.
abbrev pub field_split : ℕ
field_split = 0

-- `UNSETINT`.
abbrev pub unset_int : ℤ
unset_int = pos (2 ^ 63 - 1)

-- An argument of `makeMsgBytes`, by its dynamic type. An `int` is printed through `int64`.
pub data Field (F : Type 0) : Type 0 where
  int : ℤ → Field F
  float : F → Field F
  str : Bytes → Field F
  bool : Bool → Field F
  raw : Bytes → Field F
  unsupported : Field F

-- The four bytes that `binary.BigEndian.PutUint32` writes.
abbrev pub be32 : ℕ → Bytes
be32 n = (n / 2 ^ 24 % 256) ∷ (n / 2 ^ 16 % 256) ∷ (n / 2 ^ 8 % 256) ∷ (n % 256) ∷ []

-- `PutUint32(b, uint32(n))`: the first four bytes are overwritten.
abbrev pub put_uint32 : Bytes → ℕ → Bytes
put_uint32 (_ ∷ _ ∷ _ ∷ _ ∷ b) n =
    (n / 2 ^ 24 % 256) ∷ (n / 2 ^ 16 % 256) ∷ (n / 2 ^ 8 % 256) ∷ (n % 256) ∷ b
put_uint32 b n = b

-- One round of the loop of `makeMsgBytes`: the field and the separator are appended.
append_field : Bytes → Option Bytes → Option Bytes
append_field msg none = none
append_field msg (some b) = some (msg ++ (b ++ field_split ∷ []))

-- The size goes into the header.
add_size : Option Bytes → Option Bytes
add_size none = none
add_size (some msg) = some (put_uint32 msg (length msg - 4))

module _ {F : Type 0} ⦃fl : Floats F⦄ where
  -- The bytes of one field; `none` is the panic on a type that is not supported.
  unfoldable pub field_bytes : Field F → Option Bytes
  field_bytes (int i) = some (format_int i)
  field_bytes (float v) = some (fl.format_float v)
  field_bytes (str s) = some s
  field_bytes (bool true) = some (b'1' ∷ [])
  field_bytes (bool false) = some (b'0' ∷ [])
  field_bytes (raw b) = some b
  field_bytes unsupported = none

  -- The loop over the fields.
  append_fields : Option Bytes → List (Field F) → Option Bytes
  append_fields msg [] = msg
  append_fields none (f ∷ fs) = none
  append_fields (some msg) (f ∷ fs) = append_fields (append_field msg (field_bytes f)) fs

  -- `makeMsgBytes`.
  unfoldable pub make_msg_bytes : List (Field F) → Option Bytes
  unfolding append_field append_fields add_size
  make_msg_bytes fields = add_size (append_fields (some (0 ∷ 0 ∷ 0 ∷ 0 ∷ [])) fields)

  -- `handleEmpty`: an unset number is sent as an empty field.
  unfoldable pub handle_empty : Field F → Option Bytes
  handle_empty (int i) = some (if int_eq i unset_int then [] else format_int i)
  handle_empty (float v) = some (if fl.float_eq v fl.unset_float then [] else fl.format_float v)
  handle_empty _ = none
