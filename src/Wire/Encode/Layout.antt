-- ===== src/Wire/Encode/Layout.antt =====
-- The layout of an encoded message: the size, then every field behind which a NUL stands.
use ibapi.Common.{
  suc, ◌∙◌, ◌-◌, List, [], ◌∷◌, ◌++◌, Option, none, some, ◌≡◌, refl, Bytes, length, append_assoc,
  append-nil, arith, Bool, true, false, codes, ap, if◌then◌else◌,
}
use ibapi.Wire.Decimal.{format_int}
use ibapi.Wire.Float.{Floats}
use ibapi.Wire.Encode.{
  Field, int, float, str, bool, raw, unsupported, be32, field_bytes, append_field, append_fields,
  add_size, make_msg_bytes,
}

-- Every part with a NUL behind it.
abbrev pub terminated : List Bytes → Bytes
terminated [] = []
terminated (b ∷ bs) = b ++ 0 ∷ terminated bs

-- A message of the wire: its size and its bytes.
abbrev pub frame : Bytes → Bytes
frame m = be32 (length m) ++ m

abbrev pub cons_field : Option Bytes → Option (List Bytes) → Option (List Bytes)
cons_field none bs = none
cons_field (some b) none = none
cons_field (some b) (some bs) = some (b ∷ bs)

-- The texts of the fields, if each has a supported type.
abbrev pub rendered : {F : Type 0} ⦃fl : Floats F⦄ → List (Field F) → Option (List Bytes)
rendered [] = some []
rendered (f ∷ fs) = cons_field (field_bytes f) (rendered fs)

abbrev append_rendered : Bytes → Option (List Bytes) → Option Bytes
append_rendered msg none = none
append_rendered msg (some bs) = some (msg ++ terminated bs)

append_fields-none :
    {F : Type 0} ⦃fl : Floats F⦄ (fs : List (Field F)) → append_fields none fs ≡ none
unfolding append_fields
append_fields-none [] = refl
append_fields-none (f ∷ fs) = refl

append_rendered-cons :
    (msg b : Bytes) (o : Option (List Bytes))
    → append_rendered (msg ++ (b ++ 0 ∷ [])) o ≡ append_rendered msg (cons_field (some b) o)
append_rendered-cons msg b none = refl
append_rendered-cons msg b (some bs) = simp append_assoc

append_field-rendered :
    {F : Type 0} ⦃fl : Floats F⦄ (msg : Bytes) (o : Option Bytes) (fs : List (Field F))
    → ((b : Bytes) → append_fields (some b) fs ≡ append_rendered b (rendered fs))
    → append_fields (append_field msg o) fs ≡ append_rendered msg (cons_field o (rendered fs))
unfolding append_field
append_field-rendered msg none fs ih = append_fields-none fs
append_field-rendered msg (some b) fs ih =
    ih (msg ++ (b ++ 0 ∷ [])) ∙ append_rendered-cons msg b (rendered fs)

append_fields-rendered :
    {F : Type 0} ⦃fl : Floats F⦄ (fs : List (Field F)) (msg : Bytes)
    → append_fields (some msg) fs ≡ append_rendered msg (rendered fs)
unfolding append_fields
append_fields-rendered [] msg = rw append-nil
append_fields-rendered (f ∷ fs) msg =
    append_field-rendered msg (field_bytes f) fs (append_fields-rendered fs)

abbrev pub framed : Option (List Bytes) → Option Bytes
framed none = none
framed (some bs) = some (frame (terminated bs))

add_size-append_rendered :
    (o : Option (List Bytes)) → add_size (append_rendered (0 ∷ 0 ∷ 0 ∷ 0 ∷ []) o) ≡ framed o
unfolding add_size
add_size-append_rendered none = refl
add_size-append_rendered (some bs) =
    let e : suc (suc (suc (suc (length (terminated bs))))) - 4 ≡ length (terminated bs) =
      omega arith in
    rw e

-- `makeMsgBytes` over the texts of the fields.
pub make_msg_bytes-rendered :
    {F : Type 0} ⦃fl : Floats F⦄ (fs : List (Field F)) → make_msg_bytes fs ≡ framed (rendered fs)
unfolding make_msg_bytes
make_msg_bytes-rendered fs = rw (append_fields-rendered fs) (add_size-append_rendered (rendered fs))

-- A field of the list has a type that is not supported.
abbrev pub has_unsupported : {F : Type 0} → List (Field F) → Bool
has_unsupported [] = false
has_unsupported (unsupported ∷ fs) = true
has_unsupported (int i ∷ fs) = has_unsupported fs
has_unsupported (float v ∷ fs) = has_unsupported fs
has_unsupported (str s ∷ fs) = has_unsupported fs
has_unsupported (bool b ∷ fs) = has_unsupported fs
has_unsupported (raw b ∷ fs) = has_unsupported fs

-- The text of each field on the wire.
abbrev pub texts : {F : Type 0} ⦃fl : Floats F⦄ → List (Field F) → List Bytes
texts [] = []
texts (unsupported ∷ fs) = texts fs
texts (int i ∷ fs) = format_int i ∷ texts fs
texts ⦃fl⦄ (float v ∷ fs) = fl.format_float v ∷ texts fs
texts (str s ∷ fs) = s ∷ texts fs
texts (bool b ∷ fs) = (if b then codes "1" else codes "0") ∷ texts fs
texts (raw b ∷ fs) = b ∷ texts fs

abbrev pub unless : Bool → List Bytes → Option (List Bytes)
unless true bs = none
unless false bs = some bs

cons-unless :
    (b : Bytes) (u : Bool) (bs : List Bytes) → cons_field (some b) (unless u bs) ≡ unless u (b ∷ bs)
cons-unless b true bs = refl
cons-unless b false bs = refl

pub rendered-texts :
    {F : Type 0} ⦃fl : Floats F⦄ (fs : List (Field F))
    → rendered fs ≡ unless (has_unsupported fs) (texts fs)
unfolding field_bytes
rendered-texts [] = refl
rendered-texts (unsupported ∷ fs) = refl
rendered-texts (int i ∷ fs) = rw (rendered-texts fs) (cons-unless _ (has_unsupported fs) (texts fs))
rendered-texts (float v ∷ fs) =
    rw (rendered-texts fs) (cons-unless _ (has_unsupported fs) (texts fs))
rendered-texts (str s ∷ fs) = rw (rendered-texts fs) (cons-unless _ (has_unsupported fs) (texts fs))
rendered-texts (bool true ∷ fs) =
    rw (rendered-texts fs) (cons-unless _ (has_unsupported fs) (texts fs))
rendered-texts (bool false ∷ fs) =
    rw (rendered-texts fs) (cons-unless _ (has_unsupported fs) (texts fs))
rendered-texts (raw b ∷ fs) = rw (rendered-texts fs) (cons-unless _ (has_unsupported fs) (texts fs))

framed-unless :
    (u : Bool) (bs : List Bytes)
    → framed (unless u bs) ≡ (if u then none else some (frame (terminated bs)))
framed-unless true bs = refl
framed-unless false bs = refl

-- `makeMsgBytes` panics exactly if a field has a type that is not supported. Otherwise it writes the
-- size of what follows, and the text of every field with a NUL behind it: an integer in decimal, a
-- float as `strconv` prints it, a Boolean as 1 or 0, and a string or bytes as they are.
pub make_msg_bytes-layout :
    {F : Type 0} ⦃fl : Floats F⦄ (fs : List (Field F))
    → make_msg_bytes fs
      ≡ (if has_unsupported fs then none else some (frame (terminated (texts fs))))
make_msg_bytes-layout fs =
    make_msg_bytes-rendered fs
    ∙ ap framed (rendered-texts fs)
    ∙ framed-unless (has_unsupported fs) (texts fs)
