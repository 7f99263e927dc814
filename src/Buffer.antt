-- ===== src/Buffer.antt =====
-- `MsgBuffer` of utils.go: the readers that take a message apart, field by field.
pub mod Items
pub mod RoundTrip
pub mod Written
use ibapi.Common.{
  List, [], ◌∷◌, ◌++◌, Bool, true, false, not, ◌||◌, Option, none, some, ◌≡◌, refl, Bytes, codes, ℤ,
  pos, negsuc, ◌==◌, if◌then◌else◌, bytes_eq,
}
use ibapi.Wire.Decimal.{NumError, Parsed, parsed, failed, parse_int}
use ibapi.Wire.Float.{Floats}
use ibapi.Wire.Encode.{unset_int, field_split}

-- The value of a `panic`.
pub data Fault : Type 0 where
  -- `io.EOF`: no separator is left.
  unterminated : Fault
  bad_int : NumError → Fault
  bad_float : Fault
  bad_time : Fault
  index_out_of_range : Fault
  -- `make` with a negative capacity.
  bad_capacity : Fault
  -- The type of an order condition that `InitOrderCondition` does not know.
  unknown_condition : Fault

-- `buf` is the unread part of the embedded `bytes.Buffer`.
pub record MsgBuffer : Type 0 where
  pub buf : Bytes
  pub bs : Bytes
  pub err : Option Fault

-- A run of code that reads the buffer and makes callbacks: it ends with a value, the buffer and
-- the callbacks made so far, or by a panic behind some callbacks.
pub data Run (L A : Type 0) : Type 0 where
  done : A → MsgBuffer → List L → Run L A
  panicked : Fault → List L → Run L A

abbrev pub M : Type 0 → Type 0 → Type 0
M L A = MsgBuffer → List L → Run L A

abbrev pub bind_run : {L A B : Type 0} → Run L A → (A → M L B) → Run L B
bind_run (done a m l) f = f a m l
bind_run (panicked e l) f = panicked e l

infixl 5 ◌>>=◌ ◌>>◌
abbrev pub ◌>>=◌ : {L A B : Type 0} → M L A → (A → M L B) → M L B
◌>>=◌ r f m l = bind_run (r m l) f

abbrev pub ◌>>◌ : {L B : Type 0} → M L (Unit {0}) → M L B → M L B
r >> k = r >>= λ _. k

abbrev pub pure : {L A : Type 0} → A → M L A
pure a m l = done a m l

-- A call of the wrapper.
abbrev pub call : {L : Type 0} → L → M L (Unit {0})
call c m l = done tt m (l ++ c ∷ [])

abbrev pub panic : {L A : Type 0} → Fault → M L A
panic e m l = panicked e l

-- The bytes in front of the first separator and those behind it.
cut_field : Bytes → Option (Bytes × Bytes)
cut_field [] = none
cut_field (c ∷ s) =
    if c == field_split
    then some ([], s)
    else elim (cut_field s) [ none ↦ none | some (f, rest) ↦ some (c ∷ f, rest) ]

take_field : {L : Type 0} → Option (Bytes × Bytes) → M L Bytes
take_field none m l = panicked unterminated l
take_field (some (f, rest)) m l = done f (record { buf = rest; bs = f; err = none }) l

-- `m.bs, m.err = m.ReadBytes(fieldSplit)`, the panic at its error, and the cut of the separator.
pub next_field : {L : Type 0} → M L Bytes
unfolding cut_field take_field
next_field m l = take_field (cut_field m.buf) m l

int_result : {L : Type 0} → Parsed → M L ℤ
int_result (parsed i) = pure i
int_result (failed e) = panic (bad_int e)

-- What an empty field stands for, or the integer that the field spells.
pub int_field : {L : Type 0} → ℤ → Bytes → M L ℤ
unfolding int_result
int_field unset [] = pure unset
int_field unset (c ∷ s) = int_result (parse_int (c ∷ s))

-- `readInt`.
unfoldable pub read_int : {L : Type 0} → M L ℤ
unfolding next_field int_field
read_int = do f ← next_field; int_field (pos 0) f

-- `readIntCheckUnset`.
unfoldable pub read_int_check_unset : {L : Type 0} → M L ℤ
unfolding next_field int_field
read_int_check_unset = do f ← next_field; int_field unset_int f

-- `readString`.
unfoldable pub read_string : {L : Type 0} → M L Bytes
unfolding next_field
read_string = next_field

-- `readBool`: all but "0" and an empty field is true.
unfoldable pub read_bool : {L : Type 0} → M L Bool
unfolding next_field
read_bool = do f ← next_field; pure (not (bytes_eq f (b'0' ∷ []) || bytes_eq f []))

float_result : {L F : Type 0} → Option F → M L F
float_result none = panic bad_float
float_result (some v) = pure v

pub float_field : {L F : Type 0} ⦃fl : Floats F⦄ → F → Bytes → M L F
unfolding float_result
float_field unset [] = pure unset
float_field ⦃fl⦄ unset (c ∷ s) = float_result (fl.parse_float (c ∷ s))

-- `readFloat`.
unfoldable pub read_float : {L F : Type 0} ⦃fl : Floats F⦄ → M L F
unfolding next_field float_field
read_float ⦃fl⦄ = do f ← next_field; float_field (fl.of_int (pos 0)) f

-- `readFloatCheckUnset`.
unfoldable pub read_float_check_unset : {L F : Type 0} ⦃fl : Floats F⦄ → M L F
unfolding next_field float_field
read_float_check_unset ⦃fl⦄ = do f ← next_field; float_field fl.unset_float f

-- `NewMsgBuffer`.
abbrev pub new_msg_buffer : Bytes → MsgBuffer
new_msg_buffer b = record { buf = b; bs = []; err = none }

-- `Reset`.
unfoldable pub reset : MsgBuffer → MsgBuffer
reset m = record { buf = []; bs = []; err = none }

test_int :
    read_int {L = Unit {0}} (new_msg_buffer (b'4' ∷ b'2' ∷ 0 ∷ 7 ∷ [])) []
    ≡ done (pos 42) (record { buf = 7 ∷ []; bs = b'4' ∷ b'2' ∷ []; err = none }) []
unfolding read_int parse_int
test_int = refl
