-- ===== src/Request/Sent.antt =====
-- What reaches the server when a request is made, and requests that go under another one's id.
use mathlib.Core.List.{flatten}
use ibapi.Common.{
  ◌<◌, List, [], ◌∷◌, ◌++◌, Bool, true, false, some, ◌≡◌, refl, Bytes, ℤ, length, at_least, All,
  Lacks, arith, append-nil, ◌∙◌, ap, sym,
}
use ibapi.Wire.Float.{Floats}
use ibapi.Wire.Encode.{Field, int, str}
use ibapi.Wire.Encode.Layout.{terminated, frame, rendered, make_msg_bytes-rendered}
use ibapi.Wire.Frame.{split_msg_bytes, scan_stream, scan_eof}
use ibapi.Wire.Frame.Fields.{split_msg_bytes-terminated}
use ibapi.Wire.Frame.Stream.{Fits, scan_stream-frames}
use ibapi.Client.State.{Client, ok}
use ibapi.Client.Lifecycle.{is_connected, enqueue}
use ibapi.Client.Teardown.{Ends}
use ibapi.Request.{Request, rejected, send, noted, raised, perform}
use ibapi.Request.Groups.{
  update_display_group, unsubscribe_from_group_events, verify_message, verify_and_auth_message,
}
use ibapi.Request.News.{req_wsh_meta_data, req_wsh_event_data}

-- The request with one more field.
abbrev pub with_field : {F : Type 0} → Request F → Field F → Request F
with_field (send fs) f = send (fs ++ f ∷ [])
with_field (rejected id code text) f = rejected id code text
with_field (noted id code text fs) f = noted id code text (fs ++ f ∷ [])
with_field raised f = raised

module _ {F : Type 0} ⦃fl : Floats F⦄ where
  perform-rendered :
      (choice : Bool) (fs : List (Field F)) (bs : List Bytes) (c : Client F)
      → rendered fs ≡ some bs
      → perform choice (send fs) c ≡ enqueue (frame (terminated bs)) choice c
  unfolding perform
  perform-rendered choice fs bs c e = rw (make_msg_bytes-rendered fs, e) refl

  enqueue-room :
      (msg : Bytes) (choice : Bool) (c : Client F)
      → is_connected c ≡ true
      → c.terminated ≡ false
      → length c.req_chan < 10
      → enqueue msg choice c ≡ ok (record c { req_chan = c.req_chan ++ msg ∷ [] })
  unfolding enqueue is_connected
  enqueue-room msg choice c on live room = ground arith

  -- On a connected client with room in its queue: a request whose fields have no NUL in their texts
  -- and that fits the buffer of a scanner queues one message and makes no callback; and however the
  -- socket cuts the bytes of that message up, a scanner with the rules of `scanFields` finds that one
  -- message in them, whose fields are the texts of the request's fields.
  pub request_reaches_server :
      (choice : Bool) (fs : List (Field F)) (bs reads : List Bytes) (c : Client F)
      → is_connected c ≡ true
      → c.terminated ≡ false
      → length c.req_chan < 10
      → rendered fs ≡ some bs
      → All (Lacks 0) bs
      → Fits (terminated bs)
      → flatten reads ≡ frame (terminated bs)
      → Ends
          (perform choice (send fs) c)
          (λ c'. (c'.calls ≡ c.calls) × (c'.req_chan ≡ c.req_chan ++ flatten reads ∷ []))
        × (scan_stream [] reads ≡ (terminated bs ∷ [], scan_eof))
        × (split_msg_bytes (terminated bs) ≡ bs)
  request_reaches_server choice fs bs reads c on live room e lacks fits cut =
      let queued = perform-rendered choice fs bs c e ∙ enqueue-room _ choice c on live room in
      (
        rw (queued, cut) (refl, refl),
        scan_stream-frames (terminated bs ∷ []) reads (cut ∙ rw append-nil) (fits, tt),
        ap split_msg_bytes (sym (append-nil (terminated bs)))
            ∙ split_msg_bytes-terminated bs [] lacks tt,
      )

  -- From version 161 on, three requests go out under the id of another one: leaving the events of a
  -- display group is an update of the group that lacks its last field, a message that verifies and
  -- authenticates is a verification message with one more field, and a request for calendar events
  -- is one for the calendar's metadata with one more field.
  pub request_ids_collide :
      (version req_id con_id : ℤ) (info message answer : Bytes)
      → at_least version 161 ≡ true
      → (update_display_group {F = F} version req_id info
          ≡ with_field (unsubscribe_from_group_events version req_id) (str info))
        × (verify_and_auth_message {F = F} version message answer
            ≡ with_field (verify_message version message) (str answer))
        × (req_wsh_event_data {F = F} version req_id con_id
            ≡ with_field (req_wsh_meta_data version req_id) (int con_id))
  unfolding update_display_group unsubscribe_from_group_events verify_message
      verify_and_auth_message req_wsh_meta_data req_wsh_event_data
  request_ids_collide version req_id con_id info message answer h = ground arith
