-- ===== src/Client/Handshake.antt =====
-- The handshake (client.go): `startAPI` and `HandShake`. Its messages come one by one from the
-- receiver; `write` is what the buffered writer answers to the bytes of a write and a flush.
pub mod Confirm
pub mod Outcomes
use ibapi.Common.{
  ℕ, suc, ◌+◌, leb, ◌-◌, ◌^◌, List, [], ◌∷◌, ◌++◌, Bool, true, false, Option, none, some, Bytes,
  codes, length, ℤ, pos, negsuc, int_eq, at_least, if◌then◌else◌, ◌==◌,
}
use ibapi.Wire.Decimal.{format_int, parse_int, Parsed, parsed, failed, syntax_error, range_error}
use ibapi.Wire.Float.{Floats}
use ibapi.Wire.Encode.{Field, int, str, be32, make_msg_bytes}
use ibapi.Wire.Frame.{split_msg_bytes}
use ibapi.Buffer.{Run, done, panicked}
use ibapi.Decoder.Wrapper.{Callback, AccountTime}
use ibapi.Decoder.{Decoder, set_version, set_msg_id2process, interpret}
use ibapi.Client.State.{
  already_connected, ClientError, own, connected, disconnected, Client, bad_index, decoder_panic,
  unsupported_type, Res, ok, fault, waits, ◌>>=◌,
}
use ibapi.Client.Lifecycle.{
  no_valid_id, report, set_conn_state, begin_disconnect, wait_workers, finish_disconnect,
}

-- The bytes that `HandShake` sends first: the head, the size, and the range of versions with the
-- connection options.
abbrev pub client_versions : Bytes → Bytes
client_versions [] = codes "v100..161"
client_versions (c ∷ opts) = codes "v100..161" ++ b' ' ∷ c ∷ opts

unfoldable pub hello : Bytes → Bytes
hello options =
    codes "API" ++ 0 ∷ be32 (length (client_versions options)) ++ client_versions options

-- `v, _ := strconv.Atoi(s)` and `strconv.ParseInt(s, 10, 64)`, where the error is dropped.
abbrev pub lax : Bytes → Parsed → ℤ
lax s (parsed i) = i
lax s (failed syntax_error) = pos 0
lax [] (failed range_error) = pos 0
lax (c ∷ s) (failed range_error) = if c == b'-' then negsuc (2 ^ 63 - 1) else pos (2 ^ 63 - 1)

unfoldable pub atoi : Bytes → ℤ
atoi s = lax s (parse_int s)

-- What `Scan` of the first message gives: a token, the end of the stream (`Err` is then nil), or an
-- error.
pub data Scanned : Type 0 where
  scanned : Bytes → Scanned
  stream_end : Scanned
  scan_error : ClientError → Scanned

-- What the loop of `HandShake` selects.
pub data Event : Type 0 where
  message : Bytes → Event
  timeout : Event
  cancelled : Event

-- `mNEXT_VALID_ID` and `mMANAGED_ACCTS`.
abbrev pub confirm_ids : List ℤ
confirm_ids = pos 9 ∷ pos 15 ∷ []

-- The first entry of the list that is `id` is taken out.
unfoldable pub remove_id : ℤ → List ℤ → List ℤ
remove_id id [] = []
remove_id id (i ∷ is) = let rest = remove_id id is in if int_eq id i then is else i ∷ rest

-- `f[0]` of the split message.
unfoldable pub first_field : Bytes → Option ℤ
unfolding atoi
first_field m = elim (split_msg_bytes m) [ [] ↦ none | f ∷ fs ↦ some (atoi f) ]

-- The messages among the events.
abbrev pub count_messages : List Event → ℕ
count_messages [] = 0
count_messages (message m ∷ es) = suc (count_messages es)
count_messages (timeout ∷ es) = count_messages es
count_messages (cancelled ∷ es) = count_messages es

-- The messages behind the event at which `HandShake` gives up: the receiver reads them and nobody
-- takes them.
unfoldable pub unread : List Event → ℕ
unread [] = 0
unread (message m ∷ es) = unread es
unread (timeout ∷ es) = count_messages es
unread (cancelled ∷ es) = count_messages es

module _ {F : Type 0} where
  -- The calls of a run of the decoder stand in the log; a panic of it is not recovered here.
  abbrev pub add_calls : Client F → Run (Callback F) (Unit {0}) → Res (Client F)
  add_calls c (done tt m l) = ok (record c { calls = c.calls ++ l })
  add_calls c (panicked e l) = fault decoder_panic

  abbrev pub with_id : ℤ → Client F → Res (Client F × ℤ)
  with_id id c = ok (c, id)

  abbrev pub take_id : Option ℤ → Bytes → Client F → Res (Client F × ℤ)
  take_id none m c = fault bad_index
  take_id (some id) m c = add_calls c (interpret c.decoder m) >>= with_id id

  -- The branch of `ic.msgChan`, up to the test of the list.
  unfoldable pub take_message : Bytes → Client F → Res (Client F × ℤ)
  take_message m c = take_id (first_field m) m c

  -- The branches of the timer and of the context.
  abbrev pub give_up : Client F → Client F × Option ClientError
  give_up c = (
    report no_valid_id already_connected (set_conn_state disconnected c),
    some (own already_connected),
  )

  abbrev pub acknowledge : Client F → Client F × Option ClientError
  acknowledge c =
      let c' = set_conn_state connected c in
      (record c' { calls = c'.calls ++ Callback.connect_ack ∷ [] }, none)

  abbrev pub settle :
      List ℤ → Client F → Res (Client F × Option ClientError) → Res (Client F × Option ClientError)
  settle [] c rest = ok (acknowledge c)
  settle (id ∷ ids) c rest = rest

  -- `comfirmReadyLoop`. With no event it waits.
  unfoldable pub confirm : List ℤ → List Event → Client F → Res (Client F × Option ClientError)
  confirm ids [] c = waits
  confirm ids (timeout ∷ es) c = ok (give_up c)
  confirm ids (cancelled ∷ es) c = ok (give_up c)
  confirm ids (message m ∷ es) c =
      take_message m c >>= λ r. settle (remove_id r.1 ids) r.0 (confirm (remove_id r.1 ids) es r.0)

  -- The receiver at the end of the stream, with `left` messages read that nobody takes: it leaves if
  -- `msgChan` has room for them, and is blocked at its send otherwise.
  unfoldable pub receiver_leaves : ℕ → Client F → Client F
  receiver_leaves left c =
      if leb (length c.msg_chan + left) 100 then record c { wg = c.wg - 1 } else c

  -- The deferred `Disconnect` of a `HandShake` that failed: the receiver is the only worker.
  unfoldable pub bail : ℕ → Option ClientError → Client F → Res (Client F)
  unfolding begin_disconnect wait_workers finish_disconnect receiver_leaves
  bail left closing c =
      if c.disconnect_once
      then ok c
      else begin_disconnect closing c >>= λ c₁.
          wait_workers (receiver_leaves left c₁) >>= finish_disconnect

  unfoldable pub leave_handshake :
      ℕ → Option ClientError → Client F × Option ClientError → Res (Client F × Option ClientError)
  leave_handshake left closing (c, none) = ok (c, none)
  leave_handshake left closing (c, some e) = bail left closing c >>= λ c'. ok (c', some e)

  -- From the start of the receiver on.
  unfoldable pub await_ready :
      Option ClientError → List Event → Client F → Res (Client F × Option ClientError)
  await_ready closing es c =
      confirm confirm_ids es (record c { wg = suc c.wg }) >>= leave_handshake (unread es) closing

  abbrev pub after_start :
      Option ClientError
      → List Event
      → Client F
      → Option ClientError
      → Res (Client F × Option ClientError)
  after_start closing es c (some e) = ok (c, some e)
  after_start closing es c none = await_ready closing es c

module _ {F : Type 0} ⦃fl : Floats F⦄ where
  -- The fields of `startAPI`.
  unfoldable pub start_api_fields : Client F → List (Field F)
  start_api_fields c =
      if at_least c.server_version 72
      then int (pos 71) ∷ int (pos 2) ∷ int c.client_id ∷ str [] ∷ []
      else int (pos 71) ∷ int (pos 2) ∷ int c.client_id ∷ []

  -- `startAPI`.
  unfoldable pub start_api : (Bytes → Option ClientError) → Client F → Res (Option ClientError)
  unfolding start_api_fields
  start_api write c = elim (make_msg_bytes (start_api_fields c)) [
    | none ↦ fault unsupported_type
    | some b ↦ ok (write b)
  ]

  module _ (clock : Bytes → Option AccountTime) where
    -- The version and the time of the server, and the decoder for them.
    unfoldable pub server_info : List Bytes → Client F → Res (Client F)
    server_info (v ∷ time ∷ fs) c = ok (record c {
      server_version = atoi v;
      conn_time = time;
      decoder = set_msg_id2process clock (set_version (atoi v) c.decoder);
    })
    server_info _ c = fault bad_index

    unfoldable pub after_scan :
        (Bytes → Option ClientError)
        → Option ClientError
        → List Event
        → Scanned
        → Client F
        → Res (Client F × Option ClientError)
    after_scan write closing es stream_end c = ok (c, none)
    after_scan write closing es (scan_error e) c = ok (c, some e)
    after_scan write closing es (scanned b) c =
        server_info (split_msg_bytes b) c >>= λ c'. start_api write c' >>= after_start closing es c'

    abbrev pub after_hello :
        (Bytes → Option ClientError)
        → Scanned
        → List Event
        → Option ClientError
        → Client F
        → Option ClientError
        → Res (Client F × Option ClientError)
    after_hello write first es closing c (some e) = ok (c, some e)
    after_hello write first es closing c none = after_scan write closing es first c

    -- `HandShake`; `first` is what the scanner finds, `closing` the error of a close of the socket.
    unfoldable pub hand_shake :
        (Bytes → Option ClientError)
        → Scanned
        → List Event
        → Option ClientError
        → Client F
        → Res (Client F × Option ClientError)
    hand_shake write first es closing c =
        after_hello write first es closing c (write (hello c.connect_options))
