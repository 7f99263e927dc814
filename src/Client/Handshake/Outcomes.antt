-- ===== src/Client/Handshake/Outcomes.antt =====
-- The ends of `HandShake`: confirmed, given up, and cut off.
use ibapi.Common.{
  suc, List, [], ◌∷◌, ◌++◌, true, false, ◌&&◌, Option, none, some, ◌≡◌, refl, Bytes, ℤ, pos, arith,
  ℕ, ◌≤◌, ◌<◌, ◌⊎◌, inl, inr, ◌-◌, append_assoc, ◌∙◌,
}
use mathlib.Core.Path.{subst}
use native.Mathlib.Decide.{dec_le}
use ibapi.Wire.Float.{Floats}
use ibapi.Wire.Frame.{split_msg_bytes}
use ibapi.Decoder.Wrapper.{Callback, AccountTime}
use ibapi.Decoder.{Decoder, interpret}
use ibapi.Buffer.{Run, done, panicked}
use ibapi.Client.State.{
  already_connected, ClientError, own, Client, Res, ok, fault, waits, open_chan, closed_chan, ◌>>=◌,
}
use ibapi.Client.Lifecycle.{
  is_connected, no_valid_id, new_conn, finish_disconnect, begin_disconnect, wait_workers,
  set_conn_state,
}
use ibapi.Client.Teardown.{Ends}
use ibapi.Client.Handshake.{
  Event, message, timeout, cancelled, remove_id, first_field, take_id, with_id, take_message,
  give_up, count_messages, unread, receiver_leaves, add_calls, confirm, confirm_ids, bail,
  leave_handshake, await_ready, after_scan, hand_shake, hello, scanned, settle, server_info,
  start_api, after_start, after_hello,
}
use ibapi.Client.Handshake.Confirm.{
  seen_id, all_seen, all_seen-remove_id, Quiet, messages, all_calls, Connects, confirm-missing,
  confirm-two,
}

-- What holds of the client if the run ends without an error.
abbrev pub IfNil : {F : Type 0} → Res (Client F × Option ClientError) → (Client F → Type 0) → Type 0
IfNil (ok (c, none)) P = P c
IfNil (ok (c, some e)) P = Unit
IfNil (fault e) P = Unit
IfNil waits P = Unit

IfNil-map :
    {F : Type 0} {P Q : Client F → Type 0} (r : Res (Client F × Option ClientError))
    → ((c : Client F) → P c → Q c)
    → IfNil r P
    → IfNil r Q
IfNil-map (ok (c, none)) f p = f c p
IfNil-map (ok (c, some e)) f p = tt
IfNil-map (fault e) f p = tt
IfNil-map waits f p = tt

IfNil-bind :
    {A F : Type 0} (P : Client F → Type 0) (r : Res A) (f : A → Res (Client F × Option ClientError))
    → ((a : A) → IfNil (f a) P)
    → IfNil (r >>= f) P
IfNil-bind P (ok a) f h = h a
IfNil-bind P (fault e) f h = tt
IfNil-bind P waits f h = tt

IfNil-ok :
    {F : Type 0} (P : Client F → Type 0) (c : Client F) (r : Res (Client F × Option ClientError))
    → r ≡ ok (c, none)
    → IfNil r P
    → P c
IfNil-ok P c r e p = subst (λ x. IfNil x P) e p

Ends-bind :
    {A B : Type 0} (P : A → Type 0) (Q : B → Type 0) (r : Res A) (f : A → Res B)
    → Ends r P
    → ((a : A) → P a → Ends (f a) Q)
    → Ends (r >>= f) Q
Ends-bind P Q (ok a) f p h = h a p
Ends-bind P Q (fault e) f p h = p
Ends-bind P Q waits f p h = p

module _ {F : Type 0} where
  -- Connected, with every id seen.
  abbrev Confirmed : List ℤ → List Event → Client F → Type 0
  Confirmed ids es c = (is_connected c ≡ true) × (all_seen ids es ≡ true)

  settled :
      (ids left : List ℤ) (id : ℤ) (m : Bytes) (es : List Event) (c : Client F)
      → first_field m ≡ some id
      → remove_id id ids ≡ left
      → IfNil (confirm (remove_id id ids) es c) (Confirmed (remove_id id ids) es)
      → IfNil (settle left c (confirm (remove_id id ids) es c)) (Confirmed ids (message m ∷ es))
  unfolding is_connected set_conn_state
  settled ids [] id m es c f e h = (refl, all_seen-remove_id ids id m es f (rw e refl))
  settled ids (i ∷ is) id m es c f e h =
      IfNil-map (confirm (remove_id id ids) es c)
        (λ c' p. (p.0, all_seen-remove_id ids id m es f p.1)) h

  taken :
      (ids : List ℤ) (o : Option ℤ) (m : Bytes) (es : List Event) (c : Client F)
      → first_field m ≡ o
      → ((is : List ℤ) (c' : Client F) → IfNil (confirm is es c') (Confirmed is es))
      → IfNil
          (take_id o m c >>= λ r.
            settle (remove_id r.1 ids) r.0 (confirm (remove_id r.1 ids) es r.0))
          (Confirmed ids (message m ∷ es))
  taken ids none m es c f ih = tt
  taken ids (some id) m es c f ih = ran (interpret c.decoder m)
    where
      ran :
          (r : Run (Callback F) (Unit {0}))
          → IfNil
              (add_calls c r >>= with_id id >>= λ r.
                settle (remove_id r.1 ids) r.0 (confirm (remove_id r.1 ids) es r.0))
              (Confirmed ids (message m ∷ es))
      ran (done u b l) = settled ids (remove_id id ids) id m es _ f refl (ih (remove_id id ids) _)
      ran (panicked e l) = tt

  confirm_sound :
      (ids : List ℤ) (es : List Event) (c : Client F) → IfNil (confirm ids es c) (Confirmed ids es)
  unfolding confirm take_message
  confirm_sound ids [] c = tt
  confirm_sound ids (timeout ∷ es) c = tt
  confirm_sound ids (cancelled ∷ es) c = tt
  confirm_sound ids (message m ∷ es) c =
      taken ids (first_field m) m es c refl (λ is. confirm_sound is es)

  await_ready_sound :
      (closing : Option ClientError) (es : List Event) (c : Client F)
      → IfNil (await_ready closing es c) (Confirmed confirm_ids es)
  unfolding await_ready leave_handshake
  await_ready_sound closing es c =
      leaves (confirm confirm_ids es (record c { wg = suc c.wg })) (confirm_sound confirm_ids es _)
    where
      leaves :
          (r : Res (Client F × Option ClientError))
          → IfNil r (Confirmed confirm_ids es)
          → IfNil (r >>= leave_handshake (unread es) closing) (Confirmed confirm_ids es)
      leaves (ok (c', none)) p = p
      leaves (ok (c', some e)) p = IfNil-bind _ (bail _ closing c') _ (λ c₁. tt)
      leaves (fault e) p = tt
      leaves waits p = tt

  -- A session as `Connect` leaves it: no worker, and no once fired.
  pub record IsFresh (c : Client F) : Type 0 where
    pub alive : c.terminated ≡ false
    pub running : c.shutdown_once ≡ false
    pub undone : c.done_once ≡ false
    pub opened : c.done_chan ≡ open_chan
    pub idle : c.wg ≡ 0
    pub first : c.disconnect_once ≡ false
    pub empty : c.msg_chan ≡ []

  bail_fresh :
      (left : ℕ) (closing : Option ClientError) (c : Client F)
      → IsFresh (record c { wg = c.wg - 1 })
      → left ≤ 100
      → Ends (bail left closing c) (λ c'.
        (c'.calls ≡ c.calls ++ Callback.connection_closed ∷ [])
        × (c'.conn ≡ new_conn)
        × (c'.done_chan ≡ closed_chan))
  unfolding bail begin_disconnect wait_workers finish_disconnect receiver_leaves
  bail_fresh left closing c fresh room = ground arith

  bail_blocked :
      (left : ℕ) (closing : Option ClientError) (c : Client F)
      → IsFresh (record c { wg = c.wg - 1 })
      → c.wg ≡ 1
      → 100 < left
      → bail left closing c ≡ waits
  unfolding bail begin_disconnect wait_workers finish_disconnect receiver_leaves
  bail_blocked left closing c fresh one full = ground arith

  unread-messages :
      {d : Decoder F} (qs : List (Quiet d)) (es : List Event)
      → unread (messages qs ++ timeout ∷ es) ≡ count_messages es
  unfolding unread
  unread-messages [] es = refl
  unread-messages (q ∷ qs) es = unread-messages qs es

  -- What a handshake that gave up leaves, where the messages `qs` came first.
  abbrev pub GaveUp :
      (c : Client F) → List (Quiet c.decoder) → Client F × Option ClientError → Type 0
  GaveUp c qs r =
      (r.1 ≡ some (own already_connected))
      × (r.0.calls
          ≡ (c.calls ++ all_calls qs)
            ++ Callback.error no_valid_id (pos 501) already_connected.msg
              ∷ Callback.connection_closed
              ∷ [])
      × (r.0.conn ≡ new_conn)
      × (r.0.done_chan ≡ closed_chan)

  gives_up_room :
      (closing : Option ClientError) (c : Client F) (qs : List (Quiet c.decoder)) (es : List Event)
      → IsFresh c
      → all_seen confirm_ids (messages qs) ≡ false
      → count_messages es ≤ 100
      → Ends (await_ready closing (messages qs ++ timeout ∷ es) c) (GaveUp c qs)
  unfolding await_ready leave_handshake set_conn_state
  gives_up_room closing c qs es fresh h room =
      rw
        (
          unread-messages qs es,
          confirm-missing (record c { wg = suc c.wg }) confirm_ids qs es c.calls h,
        )
        (Ends-bind _ _ (bail (count_messages es) closing _) _
          (bail_fresh (count_messages es) closing _
            (record {
              alive = fresh.alive;
              running = fresh.running;
              undone = fresh.undone;
              opened = fresh.opened;
              idle = omega (arith, fresh.idle);
              first = fresh.first;
              empty = fresh.empty;
            })
            room)
          (λ a p. (refl, p.0 ∙ rw append_assoc, p.1, p.2)))

  gives_up_blocked :
      (closing : Option ClientError) (c : Client F) (qs : List (Quiet c.decoder)) (es : List Event)
      → IsFresh c
      → all_seen confirm_ids (messages qs) ≡ false
      → 100 < count_messages es
      → await_ready closing (messages qs ++ timeout ∷ es) c ≡ waits
  unfolding await_ready leave_handshake set_conn_state
  gives_up_blocked closing c qs es fresh h full =
      rw
        (
          unread-messages qs es,
          confirm-missing (record c { wg = suc c.wg }) confirm_ids qs es c.calls h,
        )
        (rw
          (bail_blocked (count_messages es) closing
            (give_up (record c { wg = suc c.wg; calls = c.calls ++ all_calls qs })).0
            (record {
              alive = fresh.alive;
              running = fresh.running;
              undone = fresh.undone;
              opened = fresh.opened;
              idle = omega (arith, fresh.idle);
              first = fresh.first;
              empty = fresh.empty;
            })
            (omega (arith, fresh.idle)) full)
          refl)

  -- On a fresh session whose messages in front of a timeout, none of which makes the decoder panic,
  -- lack the next valid id or the managed accounts: if the receiver reads at most 100 messages behind
  -- the timeout, the handshake ends with ALREADY_CONNECTED, the messages in front are delivered in
  -- order, the wrapper has got the error 501 and `ConnectionClosed`, the connection is a fresh one
  -- and `done` is closed. If it reads more, which the channel has no room for, the handshake does not
  -- end: its `Disconnect` waits for the receiver, and the receiver for a reader of the channel.
  pub handshake_gives_up :
      (closing : Option ClientError) (c : Client F) (qs : List (Quiet c.decoder)) (es : List Event)
      → IsFresh c
      → seen_id (pos 9) (messages qs) && seen_id (pos 15) (messages qs) ≡ false
      → (count_messages es ≤ 100)
          × Ends (await_ready closing (messages qs ++ timeout ∷ es) c) (GaveUp c qs)
        ⊎ (100 < count_messages es) × (await_ready closing (messages qs ++ timeout ∷ es) c ≡ waits)
  handshake_gives_up closing c qs es fresh h = elim (dec_le (count_messages es) 100) [
    | yes p ↦ inl (p, gives_up_room closing c qs es fresh (ground (arith, h)) p)
    | no n ↦
        inr (omega arith, gives_up_blocked closing c qs es fresh (ground (arith, h)) (omega arith))
  ]

  -- If the messages hold the next valid id and the managed accounts, in any order and among others,
  -- and none of them makes the decoder panic, then the handshake ends without an error and the
  -- client is connected, whatever comes behind them.
  pub handshake-Connects :
      (closing : Option ClientError) (c : Client F) (qs : List (Quiet c.decoder)) (es : List Event)
      → seen_id (pos 9) (messages qs) ≡ true
      → seen_id (pos 15) (messages qs) ≡ true
      → Ends (await_ready closing (messages qs ++ es) c) Connects
  unfolding await_ready leave_handshake
  handshake-Connects closing c qs es h k =
      passes (confirm confirm_ids (messages qs ++ es) (record c { wg = suc c.wg }))
        (confirm-two (record c { wg = suc c.wg }) (pos 9) (pos 15) qs es c.calls refl h k)
    where
      passes :
          (r : Res (Client F × Option ClientError))
          → Ends r Connects
          → Ends (r >>= leave_handshake (unread (messages qs ++ es)) closing) Connects
      passes (ok (c', none)) p = p
      passes (ok (c', some e)) p = ground arith
      passes (fault e) p = p
      passes waits p = p

module _ {F : Type 0} ⦃fl : Floats F⦄ (clock : Bytes → Option AccountTime) where
  after_scan_sound :
      (write : Bytes → Option ClientError) (info : Bytes) (es : List Event)
      (closing : Option ClientError) (c : Client F)
      → IfNil (after_scan clock write closing es (scanned info) c) (Confirmed confirm_ids es)
  unfolding after_scan
  after_scan_sound write info es closing c =
      IfNil-bind _ (server_info clock (split_msg_bytes info) c) _
        (λ c₁. IfNil-bind _ (start_api write c₁) _ (started c₁))
    where
      started :
          (c₁ : Client F) (o : Option ClientError)
          → IfNil (after_start closing es c₁ o) (Confirmed confirm_ids es)
      started c₁ none = await_ready_sound closing es c₁
      started c₁ (some e) = tt

  hand_shake_sound :
      (write : Bytes → Option ClientError) (info : Bytes) (es : List Event)
      (closing : Option ClientError) (c : Client F)
      → IfNil (hand_shake clock write (scanned info) es closing c) (Confirmed confirm_ids es)
  unfolding hand_shake
  hand_shake_sound write info es closing c = sent (write (hello c.connect_options))
    where
      sent :
          (o : Option ClientError)
          → IfNil (after_hello clock write (scanned info) es closing c o) (Confirmed confirm_ids es)
      sent none = after_scan_sound write info es closing c
      sent (some e) = tt

  -- If `HandShake` read the message of the server and returns nil, the client is connected, and among
  -- the messages that came were one with the id 9, the next valid id, and one with the id 15, the
  -- managed accounts.
  pub handshake_sound :
      (write : Bytes → Option ClientError) (info : Bytes) (es : List Event)
      (closing : Option ClientError) (c c' : Client F)
      → hand_shake clock write (scanned info) es closing c ≡ ok (c', none)
      → (is_connected c' ≡ true) × (seen_id (pos 9) es ≡ true) × (seen_id (pos 15) es ≡ true)
  handshake_sound write info es closing c c' h =
      let p =
        IfNil-ok (Confirmed confirm_ids es) c' (hand_shake clock write (scanned info) es closing c)
          h (hand_shake_sound write info es closing c) in
      (p.0, ground (arith, p.1), ground (arith, p.1))
