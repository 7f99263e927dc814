-- ===== src/Buffer/RoundTrip.antt =====
-- Each reader returns the value that was printed, and leaves the buffer at the next field.
use ibapi.Common.{
  ◌∷◌, List, [], ◌++◌, Bool, true, false, Option, none, some, ◌≡◌, ◌≢◌, refl, Bytes, Lacks, ℤ, pos,
  arith,
}
use ibapi.Wire.Decimal.{format_int, parse_int, parsed}
use ibapi.Wire.Decimal.RoundTrip.{parse_int-format_int, format_int-Lacks, format_int-ne-nil}
use ibapi.Wire.Float.{Floats}
use ibapi.Wire.Encode.{unset_int}
use ibapi.Buffer.{
  Fault, MsgBuffer, done, cut_field, next_field, int_field, int_result, float_field, float_result,
  read_int, read_int_check_unset, read_string, read_bool, read_float, read_float_check_unset,
}
use ibapi.Buffer.Items.{Item, Int64, Text, Real, int, empty, text, bool, real, print, wire}

cut_field-print : (f rest : Bytes) → Lacks 0 f → cut_field (f ++ 0 ∷ rest) ≡ some (f, rest)
unfolding cut_field
cut_field-print [] rest h = refl
cut_field-print (c ∷ f) rest h = ground (arith, cut_field-print f rest h.1)

-- The buffer behind a field.
abbrev pub behind : Bytes → Bytes → MsgBuffer
behind f rest = record { buf = rest; bs = f; err = none }

pub next_field-print :
    {L : Type 0} (f rest b : Bytes) (e : Option Fault) (l : List L)
    → Lacks 0 f
    → next_field (record { buf = f ++ 0 ∷ rest; bs = b; err = e }) l ≡ done f (behind f rest) l
unfolding next_field
next_field-print f rest b e l h = rw (cut_field-print f rest h)

pub int_field-format_int :
    {L : Type 0} (unset : ℤ) (i : Int64) (m : MsgBuffer) (l : List L)
    → int_field unset (format_int i.value) m l ≡ done i.value m l
int_field-format_int unset i m l =
    go (format_int i.value) (format_int-ne-nil i.value) (parse_int-format_int i.value i.in_range)
  where
    go :
        (s : Bytes)
        → s ≢ []
        → parse_int s ≡ parsed i.value
        → int_field unset s m l ≡ done i.value m l
    go [] h p = absurd (h refl)
    go (c ∷ s) h p = unfold int_field int_result in rw p

pub float_field-format_float :
    {L F : Type 0} ⦃fl : Floats F⦄ (unset : F) (v : Real F) (m : MsgBuffer) (l : List L)
    → float_field unset (fl.format_float v.value) m l ≡ done v.value m l
float_field-format_float ⦃fl⦄ unset v m l =
    let (c, r, s) = v.printable.starts in
    let p = v.printable.reads_back in rw s (unfold float_field float_result in rw (rw s at p))

pub wire-nil : (F : Type 0) ⦃fl : Floats F⦄ → wire {F = F} [] ≡ []
unfolding wire
wire-nil F = refl

module _ {L F : Type 0} ⦃fl : Floats F⦄ where
  pub read_int-wire :
      (i : Int64) (is : List (Item F)) (b : Bytes) (e : Option Fault) (l : List L)
      → read_int (record { buf = wire (int i ∷ is); bs = b; err = e }) l
        ≡ done i.value (behind (format_int i.value) (wire is)) l
  unfolding read_int wire
  read_int-wire i is b e l =
      rw (next_field-print (format_int i.value) (wire is) b e l (format_int-Lacks i.value))
        (int_field-format_int (pos 0) i _ l)

  pub read_int_check_unset-wire :
      (i : Int64) (is : List (Item F)) (b : Bytes) (e : Option Fault) (l : List L)
      → read_int_check_unset (record { buf = wire (int i ∷ is); bs = b; err = e }) l
        ≡ done i.value (behind (format_int i.value) (wire is)) l
  unfolding read_int_check_unset wire
  read_int_check_unset-wire i is b e l =
      rw (next_field-print (format_int i.value) (wire is) b e l (format_int-Lacks i.value))
        (int_field-format_int unset_int i _ l)

  pub read_int-wire_empty :
      (is : List (Item F)) (b : Bytes) (e : Option Fault) (l : List L)
      → read_int (record { buf = wire (empty ∷ is); bs = b; err = e }) l
        ≡ done (pos 0) (behind [] (wire is)) l
  unfolding read_int wire next_field int_field
  read_int-wire_empty is b e l = refl

  pub read_int_check_unset-wire_empty :
      (is : List (Item F)) (b : Bytes) (e : Option Fault) (l : List L)
      → read_int_check_unset (record { buf = wire (empty ∷ is); bs = b; err = e }) l
        ≡ done unset_int (behind [] (wire is)) l
  unfolding read_int_check_unset wire next_field int_field
  read_int_check_unset-wire_empty is b e l = refl

  pub read_string-wire :
      (t : Text) (is : List (Item F)) (b : Bytes) (e : Option Fault) (l : List L)
      → read_string (record { buf = wire (text t ∷ is); bs = b; err = e }) l
        ≡ done t.bytes (behind t.bytes (wire is)) l
  unfolding read_string wire
  read_string-wire t is b e l = next_field-print t.bytes (wire is) b e l t.no_nul

  pub read_bool-wire :
      (v : Bool) (is : List (Item F)) (b : Bytes) (e : Option Fault) (l : List L)
      → read_bool (record { buf = wire (bool v ∷ is); bs = b; err = e }) l
        ≡ done v (behind (print {F = F} (bool v)) (wire is)) l
  unfolding read_bool wire next_field print
  read_bool-wire true is b e l = refl
  read_bool-wire false is b e l = refl

  pub read_float-wire :
      (v : Real F) (is : List (Item F)) (b : Bytes) (e : Option Fault) (l : List L)
      → read_float (record { buf = wire (real v ∷ is); bs = b; err = e }) l
        ≡ done v.value (behind (fl.format_float v.value) (wire is)) l
  unfolding read_float wire
  read_float-wire v is b e l =
      rw (next_field-print (fl.format_float v.value) (wire is) b e l v.printable.no_nul)
        (float_field-format_float (fl.of_int (pos 0)) v _ l)

  pub read_float_check_unset-wire :
      (v : Real F) (is : List (Item F)) (b : Bytes) (e : Option Fault) (l : List L)
      → read_float_check_unset (record { buf = wire (real v ∷ is); bs = b; err = e }) l
        ≡ done v.value (behind (fl.format_float v.value) (wire is)) l
  unfolding read_float_check_unset wire
  read_float_check_unset-wire v is b e l =
      rw (next_field-print (fl.format_float v.value) (wire is) b e l v.printable.no_nul)
        (float_field-format_float fl.unset_float v _ l)

pub ruleset readers = (
  wire-nil, read_int-wire, read_int-wire_empty, read_string-wire, read_bool-wire, read_float-wire,
  read_int_check_unset-wire, read_float_check_unset-wire,
)
