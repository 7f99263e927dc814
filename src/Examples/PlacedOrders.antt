-- ===== src/Examples/PlacedOrders.antt =====
-- Concrete runs of the theorems on `PlaceOrder`.
use ibapi.Common.{
  [], ◌∷◌, ◌++◌, true, false, ◌≡◌, refl, codes, ℤ, pos, arith, not, ◌&&◌, if◌then◌else◌,
}
use ibapi.Data.Order.{Order}
use ibapi.Data.Contract.{zero_contract}
use ibapi.Data.Order.Values.{new_limit_order}
use ibapi.Wire.Encode.Layout.{terminated, frame}
use ibapi.Client.State.{Client}
use ibapi.Client.Lifecycle.{connect, new_ib_client, is_connected}
use ibapi.Client.Teardown.{Ends}
use ibapi.Request.PlaceOrder.{place_order}
use ibapi.Request.PlaceOrder.Fields.Texts.{order_texts}
use ibapi.Request.PlaceOrder.Guards.Recent.{is_warned, asks_too_much, asks_in_vain}
use ibapi.Request.PlaceOrder.Guards.{accepted, order_verdict}
use ibapi.Request.PlaceOrder.Guards.Switch.{is_refused, is_accepted, order_verdict-ages}
use ibapi.Request.PlaceOrder.Outcomes.{errors, place_order_all_branches, old_servers_get_no_order}
use ibapi.Examples.Sessions.{connected_client}
use ibapi.Examples.Values.{ints}

-- A client whose server has version 101.
abbrev old_client : Client ℤ
old_client = record connected_client { server_version = pos 101 }

abbrev pub limit_order : Order ℤ
limit_order = new_limit_order (codes "BUY") (pos 2) (pos 7)

-- An order with a duration, on a server of version 150.
abbrev middle_client : Client ℤ
middle_client = record connected_client { server_version = pos 150 }

abbrev timed_order : Order ℤ
timed_order = record limit_order { duration = pos 60 }

place_order_all_branches_example :
    (is_refused (order_verdict (pos 150) zero_contract timed_order)
      ≡ asks_too_much (pos 150) timed_order)
    × (is_warned (order_verdict (pos 150) zero_contract timed_order)
        ≡ not (asks_too_much (pos 150) timed_order) && asks_in_vain (pos 150) timed_order)
    × Ends (place_order true (pos 7) zero_contract timed_order middle_client) (λ c'.
      (c'.calls
        ≡ middle_client.calls ++ errors (pos 7) (order_verdict (pos 150) zero_contract timed_order))
      × (c'.req_chan
          ≡ middle_client.req_chan
            ++ (if asks_too_much (pos 150) timed_order
                then []
                else frame (terminated (order_texts (pos 150) (pos 7) zero_contract timed_order))
                  ∷ [])))
unfolding connect new_ib_client is_connected
place_order_all_branches_example =
    place_order_all_branches true (pos 7) zero_contract timed_order middle_client refl refl refl
      (omega arith)

old_servers_get_no_order_example :
    Ends (place_order true (pos 7) zero_contract limit_order old_client) (λ c'.
      (c'.req_chan ≡ old_client.req_chan)
      × (c'.calls
          ≡ old_client.calls ++ errors (pos 7) (order_verdict (pos 101) zero_contract limit_order)))
old_servers_get_no_order_example =
    old_servers_get_no_order true (pos 7) zero_contract limit_order old_client refl

order_verdict-ages_example :
    (is_refused (order_verdict (pos 65) (zero_contract {F = ℤ}) limit_order) ≡ true)
    × (is_accepted (order_verdict (pos 158) (zero_contract {F = ℤ}) limit_order)
          && not (is_accepted (order_verdict (pos 159) (zero_contract {F = ℤ}) limit_order))
        ≡ false)
    × (order_verdict (pos 161) (zero_contract {F = ℤ}) limit_order ≡ accepted)
order_verdict-ages_example =
    order_verdict-ages 65 158 159 161 zero_contract limit_order (omega arith) (omega arith)
      (omega arith)
