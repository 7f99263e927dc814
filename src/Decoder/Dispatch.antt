-- ===== src/Decoder/Dispatch.antt =====
-- `interpret` on a message of the wire: the id chooses the function, which reads the rest.
use ibapi.Common.{
  ℕ, ◌<◌, ◌^◌, List, [], ◌∷◌, ◌++◌, true, Option, ◌≡◌, ◌≢◌, refl, Bytes, ℤ, pos, negsuc, leb,
  leb→le, arith,
}
use ibapi.Wire.Decimal.{format_int}
use ibapi.Wire.Decimal.RoundTrip.{format_int-ne-nil}
use ibapi.Wire.Float.{Floats}
use ibapi.Buffer.{new_msg_buffer, ◌>>=◌, read_int}
use ibapi.Buffer.Items.{Item, Int64, int, wire}
use ibapi.Buffer.RoundTrip.{behind, read_int-wire}
use ibapi.Decoder.Wrapper.{AccountTime, Callback}
use ibapi.Decoder.{
  set_version, set_msg_id2process, Decoder, lookup_process, apply_process, interpret, outcome,
  Outcome, completed,
}

-- The id of a message.
abbrev pub msg_id : (n : ℕ) → leb n 255 ≡ true → Int64
msg_id n h = record { value = pos n; in_range = small n h }
  where
    small : (n : ℕ) → leb n 255 ≡ true → n < 2 ^ 63
    small n h = omega (arith, leb→le n 255 h)

module _ {F : Type 0} ⦃fl : Floats F⦄ (d : Decoder F) where
  interpret-cons :
      (b : Bytes)
      → b ≢ []
      → interpret d b
        ≡ (read_int >>= λ id. apply_process (lookup_process id d.msg_id2process) d.version)
            (new_msg_buffer b)
            []
  unfolding interpret
  interpret-cons [] h = absurd (h refl)
  interpret-cons (c ∷ b) h = refl

  wire-ne-nil : (id : Int64) (is : List (Item F)) → wire (int id ∷ is) ≢ []
  unfolding wire
  wire-ne-nil id is = go (format_int id.value) (format_int-ne-nil id.value)
    where
      go : (s : Bytes) → s ≢ [] → s ++ 0 ∷ wire is ≢ []
      go [] h e = h refl
      go (c ∷ s) h e = cc

  pub interpret-wire :
      (id : Int64) (is : List (Item F))
      → interpret d (wire (int id ∷ is))
        ≡ apply_process
            (lookup_process id.value d.msg_id2process)
            d.version
            (behind (format_int id.value) (wire is))
            []
  interpret-wire id is =
      rw (interpret-cons (wire (int id ∷ is)) (wire-ne-nil id is), read_int-wire id is)

-- The decoder as `HandShake` leaves it: the version of the server, and the whole table.
abbrev pub ready : {F : Type 0} ⦃fl : Floats F⦄ → (Bytes → Option AccountTime) → ℤ → Decoder F
ready clock version =
    set_msg_id2process clock
      (set_version version (record { version = negsuc 0; msg_id2process = [] }))

-- On the message with this id and these values the decoder reads every byte and makes these calls.
abbrev pub Delivers :
    {F : Type 0} ⦃fl : Floats F⦄ → Decoder F → Int64 → List (Item F) → List (Callback F) → Type 0
Delivers d id is calls = outcome (interpret d (wire (int id ∷ is))) ≡ completed [] calls

-- The calls, or the panic, that the chosen function makes decide how the message ends.
pub delivers_of :
    {F : Type 0} ⦃fl : Floats F⦄ (d : Decoder F) (id : Int64) (is : List (Item F)) {o : Outcome F}
    → outcome (
        apply_process
          (lookup_process id.value d.msg_id2process)
          d.version
          (behind (format_int id.value) (wire is))
          [])
      ≡ o
    → outcome (interpret d (wire (int id ∷ is))) ≡ o
delivers_of d id is h = rw (interpret-wire d id is) h
