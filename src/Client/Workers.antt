-- ===== src/Client/Workers.antt =====
-- The receiver and the decoder goroutines (client.go), which share the channel `msgChan`.
pub mod Order
use ibapi.Common.{
  List, [], ◌∷◌, ◌++◌, Bool, true, false, ◌-◌, some, Bytes, length, ltb, if◌then◌else◌,
}
use ibapi.Buffer.{Fault, Run, done, panicked}
use ibapi.Decoder.Wrapper.{Callback}
use ibapi.Decoder.{interpret}
use ibapi.Client.State.{worker_panic, Client, Res, ok, waits, ◌>>=◌}
use ibapi.Client.Lifecycle.{set_err, signal_shutdown}

-- The client, and whether `goDecode` still runs.
pub record Pipeline (F : Type 0) : Type 0 where
  pub client : Client F
  pub decoding : Bool

-- A turn of the receiver, with the message that the scanner found, or of the decoder.
pub data Turn : Type 0 where
  receive : Bytes → Turn
  decode : Turn

module _ {F : Type 0} (panic_error : Fault → Bytes) where
  -- `ic.msgChan <- msgBytes` of `goReceive`: it waits while the channel is full, whether or not the
  -- client shuts down.
  unfoldable pub put_message : Bytes → Client F → Res (Client F)
  put_message m c =
      if ltb (length c.msg_chan) 100
      then ok (record c { msg_chan = c.msg_chan ++ m ∷ [] })
      else waits

  -- A panic is recovered: it is recorded, the shutdown is signalled, and the decoder leaves.
  unfoldable pub after_decode : Client F → Run (Callback F) (Unit {0}) → Res (Pipeline F)
  after_decode c (done u b l) =
      ok (record { client = record c { calls = c.calls ++ l }; decoding = true })
  after_decode c (panicked e l) =
      signal_shutdown
        (set_err (some (worker_panic (panic_error e))) (record c { calls = c.calls ++ l }))
      >>= λ c'. ok (record { client = record c' { wg = c'.wg - 1 }; decoding = false })

  -- The branch of `ic.msgChan` of `goDecode`.
  unfoldable pub take_next : List Bytes → Client F → Res (Pipeline F)
  take_next [] c = waits
  take_next (m ∷ ms) c = after_decode (record c { msg_chan = ms }) (interpret c.decoder m)

  unfoldable pub turn : Turn → Pipeline F → Res (Pipeline F)
  turn (receive m) p =
      put_message m p.client >>= λ c. ok (record { client = c; decoding = p.decoding })
  turn decode p = if p.decoding then take_next p.client.msg_chan p.client else waits

  -- An interleaving of the two goroutines.
  unfoldable pub turns : List Turn → Pipeline F → Res (Pipeline F)
  turns [] p = ok p
  turns (t ∷ ts) p = turn t p >>= turns ts
