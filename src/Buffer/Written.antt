-- ===== src/Buffer/Written.antt =====
-- What `makeMsgBytes` writes for a field, the readers of `MsgBuffer` read back (utils.go).
use ibapi.Common.{
  ◌∷◌, [], ◌++◌, Bool, true, false, Option, none, some, ◌≡◌, refl, Bytes, pos, int_eq, int_eq_iff,
  Bool-cases, inl, inr, if◌then◌else◌,
}
use ibapi.Wire.Decimal.{format_int}
use ibapi.Wire.Decimal.RoundTrip.{format_int-Lacks}
use ibapi.Wire.Float.{Floats}
use ibapi.Wire.Encode.{int, float, str, bool, field_bytes, handle_empty, unset_int}
use ibapi.Buffer.{
  Fault, M, done, next_field, int_field, float_field, read_int, read_int_check_unset, read_string,
  read_bool, read_float, read_float_check_unset,
}
use ibapi.Buffer.Items.{Int64, Text, Real}
use ibapi.Buffer.RoundTrip.{
  behind, next_field-print, int_field-format_int, float_field-format_float,
}

-- There are bytes, and the reader takes them and the NUL behind them, whatever follows, and returns
-- the value.
abbrev pub ReadsBack : {L A : Type 0} → Option Bytes → M L A → A → Bytes → Option Fault → Type 0
ReadsBack none r a rest e = ⊥
ReadsBack (some b) r a rest e =
    r (record { buf = b ++ 0 ∷ rest; bs = []; err = e }) [] ≡ done a (behind b rest) []

module _ (L F : Type 0) ⦃fl : Floats F⦄ (rest : Bytes) (e : Option Fault) where
  int-ReadsBack :
      (i : Int64) → ReadsBack {L = L} (field_bytes {F = F} (int i.value)) read_int i.value rest e
  unfolding field_bytes read_int
  int-ReadsBack i =
      rw (next_field-print (format_int i.value) rest [] e [] (format_int-Lacks i.value))
        (int_field-format_int (pos 0) i _ [])

  float-ReadsBack :
      (x : Real F) → ReadsBack {L = L} (field_bytes (float x.value)) read_float x.value rest e
  unfolding field_bytes read_float
  float-ReadsBack x =
      rw (next_field-print (fl.format_float x.value) rest [] e [] x.printable.no_nul)
        (float_field-format_float (fl.of_int (pos 0)) x _ [])

  bool-ReadsBack : (v : Bool) → ReadsBack {L = L} (field_bytes {F = F} (bool v)) read_bool v rest e
  unfolding field_bytes read_bool next_field
  bool-ReadsBack true = refl
  bool-ReadsBack false = refl

  unset_int-ReadsBack :
      (i : Int64)
      → ReadsBack {L = L} (handle_empty {F = F} (int i.value)) read_int_check_unset i.value rest e
  unfolding handle_empty read_int_check_unset
  unset_int-ReadsBack i = elim (Bool-cases (int_eq i.value unset_int)) [
    | inl h ↦ rw h (rw ((int_eq_iff i.value unset_int).0 h) (unfold next_field int_field in refl))
    | inr h ↦
        rw (h, next_field-print (format_int i.value) rest [] e [] (format_int-Lacks i.value))
          (int_field-format_int unset_int i _ [])
  ]

  unset_float-ReadsBack :
      (x : Real F)
      → ReadsBack {L = L}
          (handle_empty (float x.value))
          read_float_check_unset
          (if fl.float_eq x.value fl.unset_float then fl.unset_float else x.value)
          rest
          e
  unfolding handle_empty read_float_check_unset
  unset_float-ReadsBack x = elim (Bool-cases (fl.float_eq x.value fl.unset_float)) [
    | inl h ↦ rw h (unfold next_field float_field in refl)
    | inr h ↦
        rw (h, next_field-print (fl.format_float x.value) rest [] e [] x.printable.no_nul)
          (float_field-format_float fl.unset_float x _ [])
  ]

  pub written_fields_read_back :
      (i : Int64) (t : Text) (v : Bool) (x : Real F)
      → ReadsBack {L = L} (field_bytes {F = F} (int i.value)) read_int i.value rest e
        × ReadsBack {L = L} (field_bytes {F = F} (str t.bytes)) read_string t.bytes rest e
        × ReadsBack {L = L} (field_bytes {F = F} (bool v)) read_bool v rest e
        × ReadsBack {L = L} (field_bytes (float x.value)) read_float x.value rest e
        × ReadsBack {L = L} (handle_empty {F = F} (int i.value)) read_int_check_unset i.value rest e
        × ReadsBack {L = L}
            (handle_empty (float x.value))
            read_float_check_unset
            (if fl.float_eq x.value fl.unset_float then fl.unset_float else x.value)
            rest
            e
  unfolding field_bytes read_string
  written_fields_read_back i t v x = (
    int-ReadsBack i,
    next_field-print t.bytes rest [] e [] t.no_nul,
    bool-ReadsBack v,
    float-ReadsBack x,
    unset_int-ReadsBack i,
    unset_float-ReadsBack x,
  )
