-- ===== src/Examples/Goroutines.antt =====
-- Examples of the receiver and the decoder.
use ibapi.Common.{List, [], ◌∷◌, true, Bytes, codes, pos, ℤ}
use ibapi.Buffer.{Fault}
use ibapi.Wire.Encode.Layout.{terminated}
use ibapi.Decoder.Dispatch.{ready}
use ibapi.Client.State.{Client}
use ibapi.Client.Lifecycle.{new_ib_client, connect}
use ibapi.Client.Teardown.{IfEnds}
use ibapi.Client.Workers.{Pipeline, Turn, receive, decode, turns}
use ibapi.Client.Workers.Order.{received, InOrder, turns-InOrder}
use ibapi.Examples.Values.{ints, no_clock}

abbrev no_text : Fault → Bytes
no_text e = []

-- A client with a decoder and one worker.
abbrev working_client : Client ℤ
working_client = record (connect (codes "localhost") (pos 7496) (pos 3) true new_ib_client).0 {
  decoder = ready no_clock (pos 161);
  wg = 1;
}

abbrev working : Pipeline ℤ
working = record { client = working_client; decoding = true }

-- Two messages, the second one of which makes the decoder panic.
abbrev some_turns : List Turn
some_turns =
    receive (terminated (codes "9" ∷ codes "1" ∷ codes "42" ∷ []))
    ∷ receive (codes "9")
    ∷ decode
    ∷ decode
    ∷ []

turns-InOrder_example :
    IfEnds
      (turns no_text some_turns working)
      (λ p'. InOrder working.client (received some_turns) p'.client)
turns-InOrder_example = turns-InOrder no_text some_turns working
