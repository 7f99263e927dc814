-- ===== src/Client/Sending.antt =====
-- The setters, the errors and the queue of requests of a client.
use ibapi.Common.{
  suc, ◌≤◌, List, [], ◌∷◌, ◌++◌, Bool, true, false, not, ◌&&◌, Option, none, some, ◌≡◌, ◌≢◌, refl,
  Bytes, ℤ, pos, length, arith, ◌⊎◌,
}
use ibapi.Decoder.Wrapper.{Callback}
use ibapi.Client.State.{
  already_connected, not_connected, nil_chan, ClientError, own, Client, Res, ok, waits, fault,
}
use ibapi.Client.Lifecycle.{
  no_valid_id, set_wrapper, set_context, set_connection_options, set_err, enqueue, is_connected,
  connect, disconnect,
}
use ibapi.Client.Teardown.{Ends, IsGuarded}

-- What a call leaves behind if it ends, or what holds if it waits; a panic is excluded.
abbrev pub EndsOrWaits : {A : Type 0} → Res A → (A → Type 0) → Type 0 → Type 0
EndsOrWaits (ok a) P W = P a
EndsOrWaits (fault e) P W = ⊥
EndsOrWaits waits P W = W

-- The queue has one more message, and no callback was made.
abbrev pub Queued : {F : Type 0} → Bytes → Client F → Client F → Type 0
Queued msg c c' = (c'.req_chan ≡ c.req_chan ++ msg ∷ []) × (c'.calls ≡ c.calls)

-- The queue is as before, and the wrapper has got the error 504.
abbrev pub Refused : {F : Type 0} → Client F → Client F → Type 0
Refused c c' =
    (c'.req_chan ≡ c.req_chan)
    × (c'.calls ≡ c.calls ++ Callback.error no_valid_id (pos 504) not_connected.msg ∷ [])

length-snoc : {A : Type 0} (a : A) (xs : List A) → length (xs ++ a ∷ []) ≡ suc (length xs)
length-snoc a [] = refl
length-snoc a (x ∷ xs) = rw (length-snoc a xs)

module _ {F : Type 0} where
  -- From a successful `Connect` on, whatever the client was before, each of the three setters
  -- returns ALREADY_CONNECTED and changes nothing.
  setters_after_connect :
      (host : Bytes) (port client_id : ℤ) (ctx : Bool) (opts : Bytes) (c : Client F)
      → let c' = (connect host port client_id true c).0 in
        (set_wrapper c' ≡ (c', some (own already_connected)))
        × (set_context ctx c' ≡ (c', some (own already_connected)))
        × (set_connection_options opts c' ≡ (c', some (own already_connected)))
  unfolding set_wrapper set_context set_connection_options connect
  setters_after_connect host port client_id ctx opts c = ground arith

  -- For every client whose closed channels have their onces fired, that was connected, has no worker
  -- running and was not disconnected since, whether or not a worker has signalled the shutdown:
  -- `Disconnect` ends, the connection options are empty, and each of the three setters returns nil
  -- and sets what it is given, `SetWrapper` a decoder without a table.
  pub setters_after_disconnect :
      (closing : Option ClientError) (ctx : Bool) (opts : Bytes) (c : Client F)
      → IsGuarded c
      → c.done_chan ≢ nil_chan
      → c.done_once ≡ false
      → c.wg ≡ 0
      → c.disconnect_once ≡ false
      → Ends (disconnect closing c) (λ r.
        (r.0.connect_options ≡ [])
        × ((set_wrapper r.0).1 ≡ none)
        × ((set_wrapper r.0).0.decoder.msg_id2process ≡ [])
        × ((set_context ctx r.0).1 ≡ none)
        × ((set_context ctx r.0).0.has_ctx ≡ ctx)
        × ((set_connection_options opts r.0).1 ≡ none)
        × ((set_connection_options opts r.0).0.connect_options ≡ opts))
  unfolding set_wrapper set_context set_connection_options disconnect
  setters_after_disconnect closing ctx opts c g open_ch fresh no_worker first = ground arith

  -- After the first error that is recorded in a session, no later call of `setErr` changes the
  -- client, and the recorded error is that first one.
  set_err_first_wins :
      (e : ClientError) (later : Option ClientError) (c : Client F)
      → c.err_once ≡ false
      → ((set_err (some e) c).err ≡ some e)
        × (set_err later (set_err (some e) c) ≡ set_err (some e) c)
  unfolding set_err
  set_err_first_wins e none c h = ground arith
  set_err_first_wins e (some l) c h = ground arith

  -- A call of `enqueue` on a queue of at most ten messages, for either choice of `select`: it does
  -- not panic and the queue has at most ten messages still. If it ends, either the client is
  -- connected and the message, and nothing else, is at the end of the queue, or the client is not
  -- connected or is shutting down, the queue is as before and the wrapper gets one error, 504. It
  -- waits only while the client is connected and not shutting down, with ten messages queued.
  pub enqueue_all_branches :
      (msg : Bytes) (send : Bool) (c : Client F)
      → length c.req_chan ≤ 10
      → EndsOrWaits
          (enqueue msg send c)
          (λ c'.
            (length c'.req_chan ≤ 10)
            × ((is_connected c ≡ true) × Queued msg c c'
                ⊎ (is_connected c && not c.terminated ≡ false) × Refused c c'))
          ((is_connected c && not c.terminated ≡ true) × (length c.req_chan ≡ 10))
  unfolding enqueue is_connected
  enqueue_all_branches msg send c h = ground (arith, length-snoc msg c.req_chan)

  -- For every client whose closed channels have their onces fired, that was connected, has no worker
  -- running and was not disconnected since, whether or not a worker has signalled the shutdown:
  -- `Disconnect` ends, and a request made after it is never queued and never waits, whatever the
  -- choice of `select`: the wrapper gets the error 504.
  pub enqueue_after_disconnect :
      (closing : Option ClientError) (msg : Bytes) (send : Bool) (c : Client F)
      → IsGuarded c
      → c.done_chan ≢ nil_chan
      → c.done_once ≡ false
      → c.wg ≡ 0
      → c.disconnect_once ≡ false
      → Ends (disconnect closing c) (λ r. Ends (enqueue msg send r.0) (Refused r.0))
  unfolding enqueue is_connected disconnect
  enqueue_after_disconnect closing msg send c g open_ch fresh no_worker first = ground arith
