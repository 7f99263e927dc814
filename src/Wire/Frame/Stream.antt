-- ===== src/Wire/Frame/Stream.antt =====
-- The scanner delivers the messages of a stream, however the socket cuts the stream up.
use mathlib.Core.List.{flatten}
use native.Mathlib.Decide.{dec_lt}
use ibapi.Common.{
  ℕ, zero, suc, ◌+◌, ◌^◌, ◌≤◌, ◌<◌, List, [], ◌∷◌, ◌++◌, false, ◌≡◌, refl, Bytes, length, drop,
  take-append, drop-append, All, arith, append_assoc, length-append, append-nil, leb, ap, sym, ◌∙◌,
}
use ibapi.Wire.Encode.{be32}
use ibapi.Wire.Encode.Layout.{frame}
use ibapi.Wire.Frame.{max_msg_len, more, token, scan_fields, drain, scan_stream, scan_eof}

-- The size of a message fits the scanner's buffer, header included.
abbrev pub Fits : Bytes → Type 0
Fits m = length m + 4 ≤ max_msg_len

scan_fields-frame :
    (m rest : Bytes)
    → length m < 2 ^ 32
    → scan_fields (frame m ++ rest) false ≡ token (length m + 4) m
unfolding scan_fields
scan_fields-frame m rest h = ground (arith, length-append m rest, take-append m rest)

-- A proper prefix of a frame holds no token.
scan_fields-prefix :
    (m p c : Bytes)
    → frame m ≡ p ++ c
    → length p < length m + 4
    → length m < 2 ^ 32
    → scan_fields p false ≡ more
unfolding scan_fields
scan_fields-prefix m [] c e h l = refl
scan_fields-prefix m (b ∷ []) c e h l = refl
scan_fields-prefix m (b ∷ b' ∷ []) c e h l = refl
scan_fields-prefix m (a ∷ b ∷ d ∷ []) c e h l = refl
scan_fields-prefix m (a ∷ b ∷ c' ∷ d ∷ p) c e h l = ground arith

-- Two ways to cut a list in two: the longer front begins with the shorter one.
append-split :
    (p q a b : Bytes)
    → p ++ q ≡ a ++ b
    → length a ≤ length p
    → (c : Bytes) × (p ≡ a ++ c) × (c ++ q ≡ b)
append-split p q [] b e h = (p, refl, e)
append-split [] q (x ∷ a) b e h = absurd (omega arith)
append-split (y ∷ p) q (x ∷ a) b e h =
    let (c, e1, e2) = append-split p q a b (cc) (omega arith) in (c, cc, e2)

-- The bytes of a sequence of messages.
abbrev pub frames : List Bytes → Bytes
frames [] = []
frames (m ∷ ms) = frame m ++ frames ms

abbrev pub AllFit : List Bytes → Type 0
AllFit = All Fits

-- What stays in the buffer is no whole message.
abbrev Waiting : Bytes → List Bytes → Type 0
Waiting left [] = left ≡ []
Waiting left (m ∷ _) = length left < length m + 4

-- What `drain` has done of the messages `ms`, where `q` is yet to come.
abbrev Drained : List Bytes × Bytes → Bytes → List Bytes → Type 0
Drained d q ms =
    (rest : List Bytes) × (ms ≡ d.0 ++ rest)
    × (d.1 ++ q ≡ frames rest)
    × AllFit rest
    × Waiting d.1 rest

drain-token :
    (f n : ℕ) (buf tok : Bytes)
    → scan_fields buf false ≡ token n tok
    → drain (suc f) buf ≡ (tok ∷ (drain f (drop n buf)).0, (drain f (drop n buf)).1)
unfolding drain
drain-token f n buf tok e = rw (e, drain)

drain-more : (f : ℕ) (buf : Bytes) → scan_fields buf false ≡ more → drain f buf ≡ ([], buf)
unfolding drain
drain-more zero buf e = refl
drain-more (suc f) buf e = rw (e, drain)

drop-frame : (m c p : Bytes) → p ≡ frame m ++ c → drop (length m + 4) p ≡ c
drop-frame m c p e =
    let n : length m + 4 ≡ length (frame m) = omega arith in rw (e, n) (drop-append (frame m) c)

-- Nothing of the stream is left, or the next message is not whole in the buffer.
drain-Drained-short :
    (f : ℕ) (p q m : Bytes) (ms : List Bytes)
    → p ++ q ≡ frame m ++ frames ms
    → AllFit (m ∷ ms)
    → length p < length m + 4
    → Drained (drain f p) q (m ∷ ms)
drain-Drained-short f p q m ms e fits h =
    let (c, e1, e2) =
      append-split (frame m) (frames ms) p q (sym e)
        (omega (arith, length-append (be32 (length m)) m)) in
    rw (drain-more f p (scan_fields-prefix m p c e1 h (omega arith))) (m ∷ ms, refl, e, fits, h)

drain-Drained :
    (ms : List Bytes) (f : ℕ) (p q : Bytes)
    → length p ≤ f
    → p ++ q ≡ frames ms
    → AllFit ms
    → Drained (drain f p) q ms
drain-Drained [] f [] q h e fits =
    rw (drain-more f [] (unfold scan_fields in refl)) ([], refl, e, tt, refl)
drain-Drained [] f (x ∷ p) q h e fits = cc
drain-Drained (m ∷ ms) zero [] q h e fits = drain-Drained-short 0 [] q m ms e fits (omega arith)
drain-Drained (m ∷ ms) zero (x ∷ p) q h e fits = absurd (omega arith)
drain-Drained (m ∷ ms) (suc f) p q h e fits = elim (dec_lt (length p) (length m + 4)) [
  | yes l ↦ drain-Drained-short (suc f) p q m ms e fits l
  | no l ↦
      let (c, e1, e2) =
        append-split p q (frame m) (frames ms) e
          (omega (arith, length-append (be32 (length m)) m)) in
      let (rest, r1, r2, r3, r4) =
        drain-Drained ms f c q (omega (arith, ap length e1, length-append m c)) e2 fits.1 in
      rw
        (
          drain-token f (length m + 4) p m (rw e1 (scan_fields-frame m c (omega arith))),
          drop-frame m c p e1,
        )
        (rest, ap (λ (l : List Bytes). m ∷ l) r1, r2, r3, r4)
]

Waiting-lt :
    (left : Bytes) (rest : List Bytes)
    → Waiting left rest
    → AllFit rest
    → leb max_msg_len (length left) ≡ false
Waiting-lt left [] w fits = rw w
Waiting-lt left (m ∷ rest) w fits = ground arith

-- At the end of the stream nothing waits.
Waiting-at_end :
    (left : Bytes) (rest : List Bytes) → Waiting left rest → left ++ [] ≡ frames rest → rest ≡ []
Waiting-at_end left [] w e = refl
Waiting-at_end left (m ∷ rest) w e = absurd (
    omega (
      arith,
      ap length e,
      length-append left [],
      length-append (frame m) (frames rest),
      length-append (be32 (length m)) m,
    ))

scan_stream-frames_from :
    (reads : List Bytes) (buf : Bytes) (ms : List Bytes)
    → buf ++ flatten reads ≡ frames ms
    → AllFit ms
    → scan_stream buf reads ≡ (ms, scan_eof)
unfolding scan_stream flatten
scan_stream-frames_from [] buf ms e fits =
    let (rest, e1, e2, fits', w) = drain-Drained ms (length buf) buf [] (omega arith) e fits in
    rw (Waiting-lt _ rest w fits') (rw (e1, Waiting-at_end _ rest w e2, append-nil))
scan_stream-frames_from (r ∷ reads) buf ms e fits =
    let (rest, e1, e2, fits', w) =
      drain-Drained ms (length buf) buf (r ++ flatten reads) (omega arith) e fits in
    rw (Waiting-lt _ rest w fits')
      (rw (scan_stream-frames_from reads _ rest (append_assoc _ r (flatten reads) ∙ e2) fits', e1))

-- A stream of whole messages, each of which fits the buffer, is delivered message by message, in
-- order and without an error, for every way in which the reads cut its bytes up.
pub scan_stream-frames :
    (ms : List Bytes) (reads : List Bytes)
    → flatten reads ≡ frames ms
    → AllFit ms
    → scan_stream [] reads ≡ (ms, scan_eof)
scan_stream-frames ms reads e fits = scan_stream-frames_from reads [] ms e fits
