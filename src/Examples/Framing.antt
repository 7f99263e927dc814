-- ===== src/Examples/Framing.antt =====
-- Examples of numbers, encoded requests, split messages and streams.
use mathlib.Core.List.{flatten}
use ibapi.Common.{
  List, [], ◌∷◌, ◌≡◌, refl, Bytes, codes, true, false, none, some, if◌then◌else◌, pos, ℤ, arith,
}
use ibapi.Wire.Encode.{Field, int, str, bool, float, make_msg_bytes, field_bytes, handle_empty}
use ibapi.Wire.Encode.Layout.{has_unsupported, texts, frame, terminated, make_msg_bytes-layout}
use ibapi.Wire.Frame.{scan_stream, scan_eof}
use ibapi.Wire.Frame.Stream.{scan_stream-frames}
use ibapi.Buffer.{
  read_int, read_string, read_bool, read_float, read_int_check_unset, read_float_check_unset,
}
use ibapi.Buffer.Written.{ReadsBack, written_fields_read_back}
use ibapi.Examples.Values.{ints, seven, ticker, whole, two}

-- Two messages in three reads, one of which ends inside a header.
abbrev two_messages : List Bytes
two_messages = (7 ∷ 8 ∷ 0 ∷ []) ∷ [] ∷ []

abbrev three_reads : List Bytes
three_reads = (0 ∷ 0 ∷ []) ∷ (0 ∷ 3 ∷ 7 ∷ 8 ∷ 0 ∷ 0 ∷ []) ∷ (0 ∷ 0 ∷ 0 ∷ []) ∷ []

scan_stream-frames_example : scan_stream [] three_reads ≡ (two_messages, scan_eof)
unfolding flatten
scan_stream-frames_example =
    scan_stream-frames two_messages three_reads refl (omega arith, (omega arith, tt))

abbrev two_fields : List Bytes
two_fields = codes "9" ∷ codes "IBM" ∷ []

abbrev some_fields : List (Field ℤ)
some_fields = int (pos 2) ∷ str (codes "IBM") ∷ bool false ∷ []

make_msg_bytes-layout_example :
    make_msg_bytes some_fields
    ≡ (if has_unsupported some_fields then none else some (frame (terminated (texts some_fields))))
make_msg_bytes-layout_example = make_msg_bytes-layout some_fields

written_fields_read_back_example :
    ReadsBack {L = ℤ} (field_bytes {F = ℤ} (int (pos 7))) read_int (pos 7) (codes "x") none
    × ReadsBack {L = ℤ}
        (field_bytes {F = ℤ} (str ticker.bytes))
        read_string
        ticker.bytes
        (codes "x")
        none
    × ReadsBack {L = ℤ} (field_bytes {F = ℤ} (bool true)) read_bool true (codes "x") none
    × ReadsBack {L = ℤ} (field_bytes (float (pos 2))) read_float (pos 2) (codes "x") none
    × ReadsBack {L = ℤ}
        (handle_empty {F = ℤ} (int (pos 7)))
        read_int_check_unset
        (pos 7)
        (codes "x")
        none
    × ReadsBack {L = ℤ}
        (handle_empty (float (pos 2)))
        read_float_check_unset
        (if ints.float_eq (pos 2) ints.unset_float then ints.unset_float else pos 2)
        (codes "x")
        none
written_fields_read_back_example =
    written_fields_read_back ℤ ℤ (codes "x") none seven ticker true (whole two)
