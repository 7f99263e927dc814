-- ===== src/Examples/Sessions.antt =====
-- Examples of sessions: connecting, the handshake, requests, and disconnecting.
use ibapi.Common.{
  [], ◌∷◌, ◌++◌, true, false, not, ◌&&◌, none, some, ◌≡◌, refl, codes, negsuc, pos, ℤ, arith, ◌≤◌,
  ◌⊎◌, length,
}
use ibapi.Decoder.Wrapper.{Callback}
use ibapi.Client.State.{
  network, connected, Client, close_of_nil_channel, close_of_closed_channel, closed_chan, ok, fault,
}
use ibapi.Client.Lifecycle.{
  new_conn, new_ib_client, connect, disconnect, enqueue, is_connected, set_wrapper, set_context,
  set_connection_options,
}
use ibapi.Client.Teardown.{
  Ends, IsGuarded, disconnect_ends, disconnect_again, disconnect_before_connect, reconnect_panics,
  new_ib_client-IsGuarded,
}
use ibapi.Client.Sending.{
  EndsOrWaits, Queued, Refused, setters_after_disconnect, enqueue_all_branches,
  enqueue_after_disconnect,
}
use ibapi.Examples.Values.{ints}

-- A client that was never connected, and one after a `Connect`.
abbrev new_client : Client ℤ
new_client = new_ib_client

abbrev pub in_session : Client ℤ
in_session = (connect (codes "localhost") (pos 7496) (pos 3) true new_client).0

in_session-IsGuarded : IsGuarded in_session
unfolding connect new_ib_client
in_session-IsGuarded = ground arith

disconnect_ends_example : Ends (disconnect (some (network (codes "closed"))) in_session) (λ r.
    (r.1 ≡ none)
    × (r.0.calls ≡ in_session.calls ++ Callback.connection_closed ∷ [])
    × (r.0.done_chan ≡ closed_chan)
    × (r.0.conn ≡ new_conn)
    × (r.0.req_chan ≡ [])
    × (r.0.msg_chan ≡ [])
    × (r.0.disconnect_once ≡ true)
    × IsGuarded r.0)
unfolding connect new_ib_client
disconnect_ends_example =
    disconnect_ends (some (network (codes "closed"))) in_session in_session-IsGuarded
      (λ e. ground arith) refl refl refl

-- What the first `Disconnect` leaves.
abbrev after_session : Client ℤ
after_session = record in_session {
  req_id_seq = pos 0;
  conn = new_conn;
  host = [];
  port = negsuc 0;
  client_id = negsuc 0;
  disconnect_once = true;
  shutdown_once = true;
  done_once = true;
  done_chan = closed_chan;
  calls = Callback.connection_closed ∷ [];
}

disconnect_again_example : disconnect none after_session ≡ ok (after_session, none)
unfolding connect new_ib_client disconnect
disconnect_again_example = disconnect_again none none in_session after_session none refl

disconnect_before_connect_example : disconnect none new_client ≡ fault close_of_nil_channel
unfolding new_ib_client
disconnect_before_connect_example =
    disconnect_before_connect none new_client new_ib_client-IsGuarded refl refl refl refl

-- A client whose worker panicked.
abbrev terminated_client : Client ℤ
terminated_client = record in_session { terminated = true; shutdown_once = true }

terminated_client-IsGuarded : IsGuarded terminated_client
unfolding connect new_ib_client
terminated_client-IsGuarded = ground arith

reconnect_panics_example :
    disconnect none (connect (codes "localhost") (pos 7496) (pos 3) true terminated_client).0
    ≡ fault close_of_closed_channel
unfolding connect new_ib_client
reconnect_panics_example =
    reconnect_panics (codes "localhost") (pos 7496) (pos 3) none terminated_client refl

setters_after_disconnect_example : Ends (disconnect none terminated_client) (λ r.
    (r.0.connect_options ≡ [])
    × ((set_wrapper r.0).1 ≡ none)
    × ((set_wrapper r.0).0.decoder.msg_id2process ≡ [])
    × ((set_context true r.0).1 ≡ none)
    × ((set_context true r.0).0.has_ctx ≡ true)
    × ((set_connection_options (codes "+PACEAPI") r.0).1 ≡ none)
    × ((set_connection_options (codes "+PACEAPI") r.0).0.connect_options ≡ codes "+PACEAPI"))
unfolding connect new_ib_client
setters_after_disconnect_example =
    setters_after_disconnect none true (codes "+PACEAPI") terminated_client
      terminated_client-IsGuarded (λ e. ground arith) refl refl refl

-- A client whose handshake is through.
abbrev pub connected_client : Client ℤ
connected_client = record in_session { conn = record in_session.conn { state = connected } }

enqueue_all_branches_example :
    EndsOrWaits
      (enqueue (codes "x") false connected_client)
      (λ c'.
        (length c'.req_chan ≤ 10)
        × ((is_connected connected_client ≡ true) × Queued (codes "x") connected_client c'
            ⊎ (is_connected connected_client && not connected_client.terminated ≡ false)
              × Refused connected_client c'))
      ((is_connected connected_client && not connected_client.terminated ≡ true)
        × (length connected_client.req_chan ≡ 10))
unfolding connect new_ib_client
enqueue_all_branches_example = enqueue_all_branches (codes "x") false connected_client (omega arith)

enqueue_after_disconnect_example :
    Ends
      (disconnect none terminated_client)
      (λ r. Ends (enqueue (codes "x") true r.0) (Refused r.0))
unfolding connect new_ib_client
enqueue_after_disconnect_example =
    enqueue_after_disconnect none (codes "x") true terminated_client terminated_client-IsGuarded
      (λ e. ground arith) refl refl refl
