-- ===== src/Request/PlaceOrder/Outcomes.antt =====
-- What `PlaceOrder` (client.go) does on each branch of its guards, and on servers of each age.
use ibapi.Common.{
  ◌<◌, List, [], ◌∷◌, ◌++◌, Bool, true, false, Option, none, some, ◌≡◌, refl, Bytes, ℤ, length,
  at_least, below, arith, ◌∙◌, ap, append-nil, sym, not, ◌&&◌, if◌then◌else◌,
}
use ibapi.Wire.Float.{Floats}
use ibapi.Wire.Encode.Layout.{
  terminated, frame, rendered, framed, make_msg_bytes-rendered, unless, has_unsupported, texts,
  rendered-texts,
}
use ibapi.Data.Contract.{Contract}
use ibapi.Data.Order.{Order}
use ibapi.Decoder.Wrapper.{Callback}
use ibapi.Client.State.{update_tws, Client}
use ibapi.Client.Lifecycle.{is_connected, enqueue}
use ibapi.Client.Teardown.{Ends}
use ibapi.Request.{enqueue_bytes}
use ibapi.Request.PlaceOrder.Fields.{place_order_fields}
use ibapi.Request.PlaceOrder.Fields.Prints.{rendered-prints, prints-place_order_fields}
use ibapi.Request.PlaceOrder.Fields.Texts.{order_texts}
use ibapi.Request.PlaceOrder.Fields.Layout.{texts-place_order_fields}
use ibapi.Request.PlaceOrder.Guards.Switch.{is_refused}
use ibapi.Request.PlaceOrder.Guards.Recent.{
  is_warned, asks_too_much, asks_in_vain, order_verdict-refused, order_verdict-warned,
}
use ibapi.Request.PlaceOrder.Guards.{Verdict, accepted, warned, refused, order_verdict}
use ibapi.Request.PlaceOrder.{place_order, send_order, after_guards, refuse}

-- The error that a verdict makes.
abbrev pub errors : {F : Type 0} → ℤ → Verdict → List (Callback F)
errors id accepted = []
errors id (warned text) = Callback.error id update_tws.code (update_tws.msg ++ text) ∷ []
errors id (refused text) = Callback.error id update_tws.code (update_tws.msg ++ text) ∷ []

-- What a verdict puts into the queue, where `msg` is the message of the order.
abbrev pub queued : Verdict → Bytes → List Bytes
queued accepted msg = msg ∷ []
queued (warned text) msg = msg ∷ []
queued (refused text) msg = []

some-unless : (u : Bool) (ts bs : List Bytes) → unless u ts ≡ some bs → bs ≡ ts
some-unless u ts bs e = ground arith

queued-refused :
    (x : Verdict) (msg : Bytes) → queued x msg ≡ (if is_refused x then [] else msg ∷ [])
queued-refused accepted msg = refl
queued-refused (warned text) msg = refl
queued-refused (refused text) msg = refl

below-at_least : (v : ℤ) → below v 102 ≡ true → at_least v 102 ≡ false
below-at_least v h = ground arith

module _ {F : Type 0} ⦃fl : Floats F⦄ where
  printed_texts :
      (v order_id : ℤ) (contract : Contract F) (order : Order F)
      → (bs : List Bytes) × (rendered (place_order_fields v order_id contract order) ≡ some bs)
  printed_texts v order_id contract order =
      rendered-prints (place_order_fields v order_id contract order)
        (prints-place_order_fields v order_id contract order)

  enqueue_bytes-room :
      (choice : Bool) (msg : Bytes) (o : Option Bytes) (c : Client F)
      → o ≡ some msg
      → is_connected c ≡ true
      → c.terminated ≡ false
      → length c.req_chan < 10
      → Ends
          (enqueue_bytes choice c o)
          (λ c'. (c'.calls ≡ c.calls) × (c'.req_chan ≡ c.req_chan ++ msg ∷ []))
  unfolding enqueue is_connected
  enqueue_bytes-room choice msg none c e on live room = absurd (ground arith)
  enqueue_bytes-room choice msg (some b) c e on live room = ground arith

  send_order-room :
      (choice : Bool) (order_id : ℤ) (contract : Contract F) (order : Order F) (c : Client F)
      (bs : List Bytes)
      → rendered (place_order_fields c.server_version order_id contract order) ≡ some bs
      → at_least c.server_version 102 ≡ true
      → is_connected c ≡ true
      → c.terminated ≡ false
      → length c.req_chan < 10
      → Ends
          (send_order choice order_id contract order c)
          (λ c'. (c'.calls ≡ c.calls) × (c'.req_chan ≡ c.req_chan ++ frame (terminated bs) ∷ []))
  unfolding send_order
  send_order-room choice order_id contract order c bs e new on live room = rw new (
      enqueue_bytes-room choice (frame (terminated bs)) _ c
        (make_msg_bytes-rendered (place_order_fields c.server_version order_id contract order)
          ∙ ap framed e)
        on live room)

  after_guards-room :
      (verdict : Verdict) (choice : Bool) (order_id : ℤ) (contract : Contract F) (order : Order F)
      (c : Client F) (bs : List Bytes)
      → rendered (place_order_fields c.server_version order_id contract order) ≡ some bs
      → at_least c.server_version 102 ≡ true
      → is_connected c ≡ true
      → c.terminated ≡ false
      → length c.req_chan < 10
      → Ends (after_guards verdict choice order_id contract order c) (λ c'.
        (c'.calls ≡ c.calls ++ errors order_id verdict)
        × (c'.req_chan ≡ c.req_chan ++ queued verdict (frame (terminated bs))))
  unfolding after_guards is_connected
  after_guards-room accepted choice order_id contract order c bs e new on live room =
      rw append-nil (send_order-room choice order_id contract order c bs e new on live room)
  after_guards-room (warned text) choice order_id contract order c bs e new on live room =
      send_order-room choice order_id contract order (refuse order_id text c) bs e new on live room
  after_guards-room (refused text) choice order_id contract order c bs e new on live room =
      (refl, rw append-nil)

  order_texts-rendered :
      (v order_id : ℤ) (contract : Contract F) (order : Order F)
      → at_least v 102 ≡ true
      → rendered (place_order_fields v order_id contract order)
        ≡ some (order_texts v order_id contract order)
  order_texts-rendered v order_id contract order new =
      let m = printed_texts v order_id contract order in
      let fs = place_order_fields v order_id contract order in
      m.1
      ∙ ap some (
          some-unless (has_unsupported fs) (texts fs) (m.0) (sym (rendered-texts fs) ∙ m.1)
          ∙ texts-place_order_fields v order_id contract order new)

  -- On a connected client with room in its queue, whose server has version 102 or a later one, and for
  -- every order: the guards refuse it exactly if it asks for one of the nine things that its server
  -- does not know (`asks_too_much`), and otherwise complain exactly if a duration or a time to send
  -- it to the market is set and not known (`asks_in_vain`). If they refuse it, or complain,
  -- `PlaceOrder` makes one error, with the id of the order and code 503, and none otherwise. Unless
  -- they refuse it, it puts one message into the queue: the size, and the texts that `order_texts`
  -- lists, each with a NUL behind it. It neither panics nor waits.
  pub place_order_all_branches :
      (choice : Bool) (order_id : ℤ) (contract : Contract F) (order : Order F) (c : Client F)
      → at_least c.server_version 102 ≡ true
      → is_connected c ≡ true
      → c.terminated ≡ false
      → length c.req_chan < 10
      → let verdict = order_verdict c.server_version contract order in
        (is_refused verdict ≡ asks_too_much c.server_version order)
        × (is_warned verdict
            ≡ not (asks_too_much c.server_version order) && asks_in_vain c.server_version order)
        × Ends (place_order choice order_id contract order c) (λ c'.
          (c'.calls ≡ c.calls ++ errors order_id verdict)
          × (c'.req_chan
              ≡ c.req_chan
                ++ (if asks_too_much c.server_version order
                    then []
                    else frame (terminated (order_texts c.server_version order_id contract order))
                      ∷ [])))
  unfolding place_order after_guards
  place_order_all_branches choice order_id contract order c new on live room =
      let v = c.server_version in
      let refusals = order_verdict-refused v contract order new in
      (
        refusals,
        order_verdict-warned v contract order new,
        rw
            (
              sym refusals,
              sym (
                  queued-refused (order_verdict v contract order)
                    (frame (terminated (order_texts v order_id contract order)))),
            )
            (after_guards-room (order_verdict v contract order) choice order_id contract order c
              (order_texts v order_id contract order)
              (order_texts-rendered v order_id contract order new) new on live room),
      )

  after_guards-old :
      (verdict : Verdict) (choice : Bool) (order_id : ℤ) (contract : Contract F) (order : Order F)
      (c : Client F)
      → below c.server_version 102 ≡ true
      → Ends
          (after_guards verdict choice order_id contract order c)
          (λ c'. (c'.req_chan ≡ c.req_chan) × (c'.calls ≡ c.calls ++ errors order_id verdict))
  unfolding after_guards send_order
  after_guards-old accepted choice order_id contract order c old =
      rw (below-at_least c.server_version old) (refl, rw append-nil)
  after_guards-old (warned text) choice order_id contract order c old =
      rw (below-at_least c.server_version old) (refl, refl)
  after_guards-old (refused text) choice order_id contract order c old = (refl, refl)

  -- On every client whose server is older than version 102, and for every order: `PlaceOrder` queues
  -- nothing, whatever its guards say. It makes the error of their verdict, if there is one, and so
  -- nothing at all happens to an order that they accept.
  pub old_servers_get_no_order :
      (choice : Bool) (order_id : ℤ) (contract : Contract F) (order : Order F) (c : Client F)
      → below c.server_version 102 ≡ true
      → Ends (place_order choice order_id contract order c) (λ c'.
        (c'.req_chan ≡ c.req_chan)
        × (c'.calls ≡ c.calls ++ errors order_id (order_verdict c.server_version contract order)))
  unfolding place_order
  old_servers_get_no_order choice order_id contract order c old =
      after_guards-old (order_verdict c.server_version contract order) choice order_id contract
        order c old
