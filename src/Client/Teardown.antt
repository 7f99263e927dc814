-- ===== src/Client/Teardown.antt =====
-- What a call of `Disconnect` leaves behind, and the invariant of the channels and the onces.
use ibapi.Common.{
  ◌∙◌, [], ◌∷◌, ◌++◌, Bool, true, false, Option, none, some, ◌≡◌, ◌≢◌, ℤ, pos, arith, Bytes,
}
use mathlib.Core.Path.{subst, ap}
use ibapi.Decoder.Wrapper.{Callback}
use ibapi.Client.State.{
  ClientError, own, connect_fail, Client, nil_chan, closed_chan, close_of_nil_channel,
  close_of_closed_channel, Res, ok, fault, waits,
}
use ibapi.Client.Lifecycle.{
  new_conn, no_valid_id, new_ib_client, connect, signal_shutdown, set_err, disconnect,
}

-- The run ends with a value that satisfies `P`.
abbrev pub Ends : {A : Type 0} → Res A → (A → Type 0) → Type 0
Ends (ok a) P = P a
Ends (fault e) P = ⊥
Ends waits P = ⊥

-- `P` holds of the value if the run ends.
abbrev pub IfEnds : {A : Type 0} → Res A → (A → Type 0) → Type 0
IfEnds (ok a) P = P a
IfEnds (fault e) P = Unit
IfEnds waits P = Unit

IfEnds-ok : {A : Type 0} (P : A → Type 0) (a : A) (r : Res A) → r ≡ ok a → IfEnds r P → P a
IfEnds-ok P a r e p = subst (λ x. IfEnds x P) e p

-- Every closed channel has its `sync.Once` fired.
pub record IsGuarded {F : Type 0} (c : Client F) : Type 0 where
  pub terminated_once : c.terminated ≡ true → c.shutdown_once ≡ true
  pub done_fired : c.done_chan ≡ closed_chan → c.done_once ≡ true

module _ {F : Type 0} where
  pub new_ib_client-IsGuarded : IsGuarded (new_ib_client {F = F})
  unfolding new_ib_client
  new_ib_client-IsGuarded = ground arith

  pub connect-IsGuarded :
      (host : Bytes) (port client_id : ℤ) (dialled : Bool) (c : Client F)
      → c.terminated ≡ false
      → IsGuarded c
      → IsGuarded (connect host port client_id dialled c).0
  unfolding connect
  connect-IsGuarded host port client_id dialled c t g = ground arith

  pub signal_shutdown-IsGuarded : (c : Client F) → IsGuarded c → Ends (signal_shutdown c) IsGuarded
  unfolding signal_shutdown
  signal_shutdown-IsGuarded c g = ground arith

  pub set_err-IsGuarded :
      (e : Option ClientError) (c : Client F) → IsGuarded c → IsGuarded (set_err e c)
  unfolding set_err
  set_err-IsGuarded none c g = g
  set_err-IsGuarded (some e) c g = ground arith

  -- For every client whose closed channels have their onces fired, that was connected (its `done` is
  -- not nil), has no worker running and was not disconnected since: `Disconnect` ends; it makes
  -- exactly one further call of the wrapper, `ConnectionClosed`; `done` is closed, the connection is
  -- a fresh one, the queues are empty; and whatever error was recorded before or comes from closing
  -- the socket, the error that it returns is nil.
  pub disconnect_ends :
      (closing : Option ClientError) (c : Client F)
      → IsGuarded c
      → c.done_chan ≢ nil_chan
      → c.done_once ≡ false
      → c.wg ≡ 0
      → c.disconnect_once ≡ false
      → Ends (disconnect closing c) (λ r.
        (r.1 ≡ none)
        × (r.0.calls ≡ c.calls ++ Callback.connection_closed ∷ [])
        × (r.0.done_chan ≡ closed_chan)
        × (r.0.conn ≡ new_conn)
        × (r.0.req_chan ≡ [])
        × (r.0.msg_chan ≡ [])
        × (r.0.disconnect_once ≡ true)
        × IsGuarded r.0)
  unfolding disconnect
  disconnect_ends closing c g open_ch fresh no_worker first = ground arith

  disconnect_settles :
      (closing : Option ClientError) (c : Client F)
      → IfEnds (disconnect closing c) (λ r. (r.0.disconnect_once ≡ true) × (r.0.err ≡ r.1))
  unfolding disconnect
  disconnect_settles closing c = ground arith

  disconnect_once_only :
      (again : Option ClientError) (c : Client F)
      → c.disconnect_once ≡ true
      → disconnect again c ≡ ok (c, c.err)
  unfolding disconnect
  disconnect_once_only again c h = ground arith

  -- After a call of `Disconnect` that ended, another one before the next `Connect` changes nothing,
  -- makes no call of the wrapper, and returns the recorded error.
  pub disconnect_again :
      (closing again : Option ClientError) (c c' : Client F) (e : Option ClientError)
      → disconnect closing c ≡ ok (c', e)
      → disconnect again c' ≡ ok (c', e)
  disconnect_again closing again c c' e h =
      let p = IfEnds-ok _ (c', e) _ h (disconnect_settles closing c) in
      disconnect_once_only again c' p.0 ∙ ap (λ x. ok (c', x)) p.1

  -- `Disconnect` of a client that was never connected, with no worker: it panics, since it closes a
  -- `done` channel that is nil.
  pub disconnect_before_connect :
      (closing : Option ClientError) (c : Client F)
      → IsGuarded c
      → c.done_chan ≡ nil_chan
      → c.done_once ≡ false
      → c.wg ≡ 0
      → c.disconnect_once ≡ false
      → disconnect closing c ≡ fault close_of_nil_channel
  unfolding disconnect
  disconnect_before_connect closing c g nil_ch fresh no_worker first = ground arith

  -- `Connect` again on a client whose `terminatedSignal` is closed (a worker panicked, and no
  -- `Disconnect` was made since): the once is new and the channel is not, so the next `Disconnect`
  -- panics at a second close.
  pub reconnect_panics :
      (host : Bytes) (port client_id : ℤ) (closing : Option ClientError) (c : Client F)
      → c.terminated ≡ true
      → disconnect closing (connect host port client_id true c).0 ≡ fault close_of_closed_channel
  unfolding connect disconnect
  reconnect_panics host port client_id closing c t = ground arith

  -- A `Connect` whose dial fails returns CONNECT_FAIL and makes exactly one call of the wrapper, with
  -- code 502; the client is left disconnected and reset, its connection options included.
  connect_fails :
      (host : Bytes) (port client_id : ℤ) (c : Client F)
      → let r = connect host port client_id false c in
        (r.1 ≡ some (own connect_fail))
        × (r.0.calls ≡ c.calls ++ Callback.error no_valid_id (pos 502) connect_fail.msg ∷ [])
        × (r.0.conn ≡ new_conn)
        × (r.0.connect_options ≡ [])
        × (r.0.done_chan ≡ c.done_chan)
  unfolding connect
  connect_fails host port client_id c = ground arith
