-- ===== src/Request/PlaceOrder.antt =====
-- `PlaceOrder` of client.go: the guards on the version of the server, and the message of the order.
pub mod Fields
pub mod Guards
pub mod Outcomes
use ibapi.Common.{◌++◌, Bool, Bytes, ℤ, at_least, if◌then◌else◌}
use ibapi.Wire.Float.{Floats}
use ibapi.Wire.Encode.{make_msg_bytes}
use ibapi.Data.Contract.{Contract}
use ibapi.Data.Order.{Order}
use ibapi.Client.State.{update_tws, Client, Res, ok}
use ibapi.Client.Lifecycle.{report}
use ibapi.Request.{enqueue_bytes}
use ibapi.Request.PlaceOrder.Fields.{place_order_fields}
use ibapi.Request.PlaceOrder.Guards.{Verdict, accepted, warned, refused, order_verdict}

module _ {F : Type 0} ⦃fl : Floats F⦄ where
  -- The error of a guard.
  abbrev pub refuse : ℤ → Bytes → Client F → Client F
  refuse order_id text c =
      report order_id (record { code = update_tws.code; msg = update_tws.msg ++ text }) c

  -- What comes behind the guards: below version 102 nothing is sent. `choice` is the one of
  -- `enqueue`.
  unfoldable pub send_order : Bool → ℤ → Contract F → Order F → Client F → Res (Client F)
  send_order choice order_id contract order c =
      if at_least c.server_version 102
      then enqueue_bytes choice c
          (make_msg_bytes (place_order_fields c.server_version order_id contract order))
      else ok c

  unfoldable pub after_guards :
      Verdict → Bool → ℤ → Contract F → Order F → Client F → Res (Client F)
  unfolding send_order
  after_guards accepted choice order_id contract order c =
      send_order choice order_id contract order c
  after_guards (warned text) choice order_id contract order c =
      send_order choice order_id contract order (refuse order_id text c)
  after_guards (refused text) choice order_id contract order c = ok (refuse order_id text c)

  -- `PlaceOrder`.
  unfoldable pub place_order : Bool → ℤ → Contract F → Order F → Client F → Res (Client F)
  unfolding order_verdict after_guards
  place_order choice order_id contract order c =
      after_guards (order_verdict c.server_version contract order) choice order_id contract order c
