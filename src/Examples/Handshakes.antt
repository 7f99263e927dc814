-- ===== src/Examples/Handshakes.antt =====
-- Examples of handshakes and of requests.
use mathlib.Core.List.{flatten}
use ibapi.Common.{
  All, List, [], ◌∷◌, ◌++◌, true, Option, none, some, ◌≡◌, refl, Bytes, codes, pos, ℤ, arith, ℕ,
  ◌+◌, ◌%◌, ◌==◌, Bool, ◌≤◌, ◌<◌, ◌⊎◌,
}
use ibapi.Wire.Decimal.{format_int, parse_int}
use ibapi.Wire.Encode.{make_msg_bytes, field_bytes, Field, int, str}
use ibapi.Wire.Encode.Layout.{terminated}
use ibapi.Wire.Frame.{split_msg_bytes, scan_stream, scan_eof}
use ibapi.Buffer.{done, read_int, read_string}
use ibapi.Data.Contract.{Contract, TagValue, zero_contract}
use ibapi.Decoder.{
  interpret, process_table, lookup_process, find_process, apply_process, set_msg_id2process,
  set_version,
}
use ibapi.Decoder.Account.{wrap_next_valid_id, wrap_managed_accounts}
use ibapi.Decoder.Dispatch.{ready}
use ibapi.Decoder.Wrapper.{Callback}
use ibapi.Client.State.{ClientError, connected, Client, ok, waits}
use ibapi.Client.Lifecycle.{set_conn_state, new_ib_client, connect, is_connected}
use ibapi.Client.Teardown.{Ends}
use ibapi.Client.Handshake.{
  after_scan, server_info, start_api, confirm, take_message, remove_id, leave_handshake, atoi,
  Event, message, timeout, await_ready, count_messages, hand_shake, scanned, first_field,
}
use ibapi.Client.Handshake.Confirm.{Quiet, messages, seen_id, Connects}
use ibapi.Client.Handshake.Outcomes.{
  IsFresh, handshake_sound, handshake-Connects, handshake_gives_up, GaveUp,
}
use ibapi.Request.{send, perform}
use ibapi.Request.Groups.{
  update_display_group, unsubscribe_from_group_events, verify_message, verify_and_auth_message,
}
use ibapi.Request.News.{req_wsh_meta_data, req_wsh_event_data}
use ibapi.Request.Sent.{with_field, request_reaches_server, request_ids_collide}
use ibapi.Data.Scanner.{new_scanner_subscription}
use ibapi.Request.Versions.{IsSentIf, plain_requests, contract_requests, request_guards_exact}
use ibapi.Examples.Values.{ints, no_clock}

abbrev never_connected : Client ℤ
never_connected = new_ib_client

-- A client behind a `Connect`, with the decoder that the handshake sets up.
abbrev waiting_client : Client ℤ
waiting_client = record (connect (codes "localhost") (pos 7496) (pos 3) true never_connected).0 {
  decoder = ready no_clock (pos 161);
}

abbrev next_id_bytes : Bytes
next_id_bytes = terminated (codes "9" ∷ codes "1" ∷ codes "42" ∷ [])

abbrev accounts_bytes : Bytes
accounts_bytes = terminated (codes "15" ∷ codes "1" ∷ codes "DU1" ∷ [])

next_id-reads : first_field next_id_bytes ≡ some (pos 9)
unfolding first_field split_msg_bytes parse_int
next_id-reads = refl

accounts-reads : first_field accounts_bytes ≡ some (pos 15)
unfolding first_field split_msg_bytes parse_int
accounts-reads = refl

next_id-runs :
    interpret {F = ℤ} (ready no_clock (pos 161)) next_id_bytes
    ≡ done tt
        (record { buf = []; bs = codes "42"; err = none })
        (Callback.next_valid_id (pos 42) ∷ [])
unfolding interpret read_int read_string parse_int process_table lookup_process find_process
    apply_process set_msg_id2process set_version wrap_next_valid_id
next_id-runs = refl

accounts-runs :
    interpret {F = ℤ} (ready no_clock (pos 161)) accounts_bytes
    ≡ done tt
        (record { buf = []; bs = codes "DU1"; err = none })
        (Callback.managed_accounts (codes "DU1" ∷ []) ∷ [])
unfolding interpret read_int read_string parse_int process_table lookup_process find_process
    apply_process set_msg_id2process set_version wrap_managed_accounts
accounts-runs = refl

-- The messages of the next valid id and of the managed accounts.
abbrev next_id : Quiet waiting_client.decoder
next_id = record {
  bytes = next_id_bytes;
  id = pos 9;
  calls = Callback.next_valid_id (pos 42) ∷ [];
  left = record { buf = []; bs = codes "42"; err = none };
  has_id = next_id-reads;
  runs = next_id-runs;
}

abbrev accounts : Quiet waiting_client.decoder
accounts = record {
  bytes = accounts_bytes;
  id = pos 15;
  calls = Callback.managed_accounts (codes "DU1" ∷ []) ∷ [];
  left = record { buf = []; bs = codes "DU1"; err = none };
  has_id = accounts-reads;
  runs = accounts-runs;
}

handshake-Connects_example :
    Ends
      (await_ready none (messages (accounts ∷ next_id ∷ []) ++ timeout ∷ []) waiting_client)
      Connects
unfolding connect new_ib_client first_field split_msg_bytes parse_int
handshake-Connects_example =
    handshake-Connects none waiting_client (accounts ∷ next_id ∷ []) (timeout ∷ []) refl refl

waiting_client-IsFresh : IsFresh waiting_client
unfolding connect new_ib_client
waiting_client-IsFresh = ground arith

handshake_gives_up_example :
    (count_messages (message accounts_bytes ∷ []) ≤ 100)
      × Ends
          (await_ready none
            (messages (next_id ∷ []) ++ timeout ∷ message accounts_bytes ∷ [])
            waiting_client)
          (GaveUp waiting_client (next_id ∷ []))
    ⊎ (100 < count_messages (message accounts_bytes ∷ []))
      × (await_ready none
            (messages (next_id ∷ []) ++ timeout ∷ message accounts_bytes ∷ [])
            waiting_client
          ≡ waits)
unfolding connect new_ib_client first_field split_msg_bytes parse_int
handshake_gives_up_example =
    handshake_gives_up none waiting_client (next_id ∷ []) (message accounts_bytes ∷ [])
      waiting_client-IsFresh refl

-- A socket that takes every write.
abbrev takes_all : Bytes → Option ClientError
takes_all b = none

abbrev both_events : List Event
both_events = message next_id_bytes ∷ message accounts_bytes ∷ []

-- The message of the server: its version and its time.
abbrev server_bytes : Bytes
server_bytes = terminated (codes "161" ∷ codes "20260102 10:00:00" ∷ [])

-- The client behind this handshake.
abbrev confirmed_client : Client ℤ
confirmed_client = record waiting_client {
  conn = record waiting_client.conn { state = connected };
  server_version = pos 161;
  conn_time = codes "20260102 10:00:00";
  wg = 1;
  calls =
      Callback.next_valid_id (pos 42)
      ∷ Callback.managed_accounts (codes "DU1" ∷ [])
      ∷ Callback.connect_ack
      ∷ [];
}

confirmed_client-reached :
    hand_shake no_clock takes_all (scanned server_bytes) both_events none waiting_client
    ≡ ok (confirmed_client, none)
unfolding hand_shake after_scan server_info start_api make_msg_bytes field_bytes format_int
    await_ready confirm take_message remove_id leave_handshake set_conn_state connect new_ib_client
    first_field atoi split_msg_bytes interpret read_int read_string parse_int process_table
    lookup_process find_process apply_process set_msg_id2process set_version wrap_next_valid_id
    wrap_managed_accounts
confirmed_client-reached = refl

handshake_sound_example :
    (is_connected confirmed_client ≡ true)
    × (seen_id (pos 9) both_events ≡ true)
    × (seen_id (pos 15) both_events ≡ true)
handshake_sound_example =
    handshake_sound no_clock takes_all server_bytes both_events none waiting_client confirmed_client
      confirmed_client-reached

-- A request and its message.
abbrev symbols_fields : List (Field ℤ)
symbols_fields = int (pos 81) ∷ int (pos 3) ∷ str (codes "IB") ∷ []

abbrev symbols_texts : List Bytes
symbols_texts = codes "81" ∷ codes "3" ∷ codes "IB" ∷ []

abbrev symbols_reads : List Bytes
symbols_reads =
    (0 ∷ 0 ∷ []) ∷ (0 ∷ 8 ∷ codes "81") ∷ (0 ∷ codes "3") ∷ (0 ∷ codes "IB") ∷ (0 ∷ []) ∷ []

request_reaches_server_example :
    Ends (perform true (send symbols_fields) confirmed_client) (λ c'.
      (c'.calls ≡ confirmed_client.calls)
      × (c'.req_chan ≡ confirmed_client.req_chan ++ flatten symbols_reads ∷ []))
    × (scan_stream [] symbols_reads ≡ (terminated symbols_texts ∷ [], scan_eof))
    × (split_msg_bytes (terminated symbols_texts) ≡ symbols_texts)
unfolding flatten connect new_ib_client is_connected field_bytes format_int
request_reaches_server_example =
    request_reaches_server true symbols_fields symbols_texts symbols_reads confirmed_client refl
      refl (omega arith) refl (ground arith) (omega arith) refl

request_ids_collide_example :
    (update_display_group {F = ℤ} (pos 161) (pos 4) (codes "8314")
      ≡ with_field (unsubscribe_from_group_events (pos 161) (pos 4)) (str (codes "8314")))
    × (verify_and_auth_message {F = ℤ} (pos 161) (codes "a") (codes "b")
        ≡ with_field (verify_message (pos 161) (codes "a")) (str (codes "b")))
    × (req_wsh_event_data {F = ℤ} (pos 161) (pos 4) (pos 8314)
        ≡ with_field (req_wsh_meta_data (pos 161) (pos 4)) (int (pos 8314)))
request_ids_collide_example =
    request_ids_collide (pos 161) (pos 4) (pos 8314) (codes "8314") (codes "a") (codes "b") refl

abbrev plain_contract : Contract ℤ
plain_contract = record zero_contract { symbol = codes "IBM" }

abbrev one_option : TagValue
one_option = record { tag = codes "k"; value = codes "v" }

abbrev numbered_ids : ℕ → ℤ
numbered_ids n = pos (n + 4)

abbrev numbered_texts : ℕ → Bytes
numbered_texts n = b'x' ∷ (n + 48) ∷ []

abbrev even_flags : ℕ → Bool
even_flags n = n % 2 == 0

request_guards_exact_example :
    All IsSentIf (plain_requests {F = ℤ} (pos 120) numbered_ids numbered_texts even_flags)
    × All IsSentIf (
        contract_requests
          (pos 120)
          numbered_ids
          numbered_texts
          even_flags
          numbered_ids
          plain_contract
          new_scanner_subscription
          (one_option ∷ [])
          [])
request_guards_exact_example =
    request_guards_exact (pos 120) numbered_ids numbered_texts even_flags numbered_ids
      plain_contract new_scanner_subscription (one_option ∷ []) []
