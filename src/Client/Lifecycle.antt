-- ===== src/Client/Lifecycle.antt =====
-- The life of a client (client.go): construction, the setters, `Connect`, the errors and signals
-- that its goroutines share, `Disconnect` and `reset`; and `IbConnection` (connection.go).
use ibapi.Common.{
  ℕ, ◌+◌, [], ◌∷◌, ◌++◌, Bool, true, false, not, ◌&&◌, ◌||◌, Option, none, some, Bytes, ℤ, pos,
  negsuc, length, ltb, ◌==◌, if◌then◌else◌, suc, zero, ◌-◌, ◌^◌,
}
use ibapi.Decoder.Wrapper.{Callback}
use ibapi.Client.State.{
  IbError, already_connected, connect_fail, not_connected, ClientError, own, ConnState,
  disconnected, connecting, connected, Conn, DoneChan, nil_chan, open_chan, closed_chan, Client,
  close_of_nil_channel, close_of_closed_channel, Res, ok, fault, waits, ◌>>=◌,
}

-- `&IbConnection{}`.
abbrev pub new_conn : Conn
new_conn = record {
  open_socket = false;
  host = [];
  port = pos 0;
  state = disconnected;
  num_bytes_sent = 0;
  num_msg_sent = 0;
  num_bytes_recv = 0;
  num_msg_recv = 0;
}

abbrev pub is_disconnected : ConnState → Bool
is_disconnected disconnected = true
is_disconnected _ = false

abbrev pub is_connected_state : ConnState → Bool
is_connected_state connected = true
is_connected_state _ = false

-- `(*IbConnection).reset`.
unfoldable pub reset_counters : Conn → Conn
reset_counters c = record c {
  num_bytes_sent = 0;
  num_bytes_recv = 0;
  num_msg_sent = 0;
  num_msg_recv = 0;
}

-- `(*IbConnection).Write` and `Read`, of which `n` bytes were taken.
unfoldable pub count_write : ℕ → Conn → Conn
count_write n c = record c {
  num_bytes_sent = c.num_bytes_sent + n;
  num_msg_sent = c.num_msg_sent + 1;
}

unfoldable pub count_read : ℕ → Conn → Conn
count_read n c = record c {
  num_bytes_recv = c.num_bytes_recv + n;
  num_msg_recv = c.num_msg_recv + 1;
}

-- `(*IbConnection).connect`; `dialled` says that the address was found and the dial succeeded.
unfoldable pub conn_connect : Bytes → ℤ → Bool → Conn → Conn
unfolding reset_counters
conn_connect host port dialled c = record (reset_counters (record c { host = host; port = port })) {
  open_socket = dialled;
}

-- `NO_VALID_ID`.
abbrev pub no_valid_id : ℤ
no_valid_id = negsuc 0

-- `x + 1` of an int64.
abbrev pub add_one : ℤ → ℤ
add_one (pos n) = if n == 2 ^ 63 - 1 then negsuc (2 ^ 63 - 1) else pos (n + 1)
add_one (negsuc zero) = pos 0
add_one (negsuc (suc n)) = negsuc n

-- `close(ic.done)`.
close_chan : DoneChan → Res DoneChan
close_chan nil_chan = fault close_of_nil_channel
close_chan open_chan = ok closed_chan
close_chan closed_chan = fault close_of_closed_channel

module _ {F : Type 0} where
  -- A call of `wrapper.Error` for an error of the client.
  abbrev pub report : ℤ → IbError → Client F → Client F
  report id e c = record c { calls = c.calls ++ Callback.error id e.code e.msg ∷ [] }

  -- `setConnState`.
  unfoldable pub set_conn_state : ConnState → Client F → Client F
  set_conn_state s c = record c { conn = record c.conn { state = s } }

  -- `ConnState` is the field itself. `IsConnected`.
  unfoldable pub is_connected : Client F → Bool
  is_connected c = is_connected_state c.conn.state

  -- `reset`.
  unfoldable pub reset : Client F → Client F
  reset c = record c {
    req_id_seq = pos 0;
    conn = new_conn;
    host = [];
    port = negsuc 0;
    extra_auth = false;
    client_id = negsuc 0;
    server_version = negsuc 0;
    conn_time = [];
    req_chan = [];
    err_chan = [];
    msg_chan = [];
    terminated = false;
    wg = 0;
    connect_options = [];
    err = none;
    has_ctx = true;
  }

  -- `NewIbClient`, without options.
  unfoldable pub new_ib_client : Client F
  unfolding reset
  new_ib_client = reset (record {
    host = [];
    port = pos 0;
    client_id = pos 0;
    conn = new_conn;
    decoder = record { version = pos 0; msg_id2process = [] };
    connect_options = [];
    req_id_seq = pos 0;
    req_chan = [];
    err_chan = [];
    msg_chan = [];
    terminated = false;
    done_chan = nil_chan;
    done_once = false;
    shutdown_once = false;
    disconnect_once = false;
    err_once = false;
    server_version = pos 0;
    conn_time = [];
    extra_auth = false;
    wg = 0;
    has_ctx = false;
    err = none;
    calls = [];
  })

  -- `GetReqID`.
  unfoldable pub get_req_id : Client F → Client F × ℤ
  get_req_id c = let next = add_one c.req_id_seq in (record c { req_id_seq = next }, next)

  -- `SetWrapper`: a new decoder, with no table. (The wrapper itself is the caller's.)
  unfoldable pub set_wrapper : Client F → Client F × Option ClientError
  set_wrapper c =
      if is_disconnected c.conn.state
      then (record c { decoder = record { version = pos 0; msg_id2process = [] } }, none)
      else (c, some (own already_connected))

  -- `SetContext`; `ctx` says whether the given context is not nil.
  unfoldable pub set_context : Bool → Client F → Client F × Option ClientError
  set_context ctx c =
      if is_disconnected c.conn.state
      then (record c { has_ctx = ctx }, none)
      else (c, some (own already_connected))

  -- `SetConnectionOptions`.
  unfoldable pub set_connection_options : Bytes → Client F → Client F × Option ClientError
  set_connection_options opts c =
      if is_disconnected c.conn.state
      then (record c { connect_options = opts }, none)
      else (c, some (own already_connected))

  -- `Connect`; `dialled` says whether the socket could be connected.
  unfoldable pub connect : Bytes → ℤ → ℤ → Bool → Client F → Client F × Option ClientError
  unfolding set_conn_state conn_connect reset
  connect host port client_id dialled c =
      let c₁ =
        set_conn_state connecting (record c { host = host; port = port; client_id = client_id }) in
      let c₂ = record c₁ { conn = conn_connect host port dialled c₁.conn } in
      if dialled
      then (
        record c₂ {
          done_chan = open_chan;
          done_once = false;
          shutdown_once = false;
          disconnect_once = false;
          err_once = false;
        },
        none,
      )
      else (reset (report no_valid_id connect_fail c₂), some (own connect_fail))

  -- `close(ic.terminatedSignal)`, which is never nil.
  unfoldable close_terminated : Client F → Res (Client F)
  close_terminated c =
      if c.terminated then fault close_of_closed_channel else ok (record c { terminated = true })

  -- `signalShutdown`.
  unfoldable pub signal_shutdown : Client F → Res (Client F)
  unfolding close_terminated
  signal_shutdown c =
      if c.shutdown_once then ok c else close_terminated (record c { shutdown_once = true })

  -- `setErr`.
  unfoldable pub set_err : Option ClientError → Client F → Client F
  set_err none c = c
  set_err (some e) c = if c.err_once then c else record c { err_once = true; err = some e }

  -- `(*IbConnection).disconnect`: with no socket it is not closed. `closing` is the error of `Close`.
  unfoldable pub conn_disconnect : Option ClientError → Client F → Option ClientError
  conn_disconnect closing c = if c.conn.open_socket then closing else none

  close_done : Client F → Res (Client F)
  close_done c =
      if c.done_once
      then ok c
      else close_chan c.done_chan >>= λ ch. ok (record c { done_once = true; done_chan = ch })

  -- `Disconnect` up to `wg.Wait()`, in the call that the `sync.Once` lets through.
  unfoldable pub begin_disconnect : Option ClientError → Client F → Res (Client F)
  unfolding signal_shutdown set_err conn_disconnect
  begin_disconnect closing c = signal_shutdown (record c { disconnect_once = true }) >>= λ c'.
      ok (set_err (conn_disconnect closing c') c')

  -- The deferred calls of `Disconnect`, the last one first.
  unfoldable pub finish_disconnect : Client F → Res (Client F)
  unfolding reset close_done close_chan
  finish_disconnect c =
      close_done (reset (record c { calls = c.calls ++ Callback.connection_closed ∷ [] }))

  unfoldable pub wait_workers : Client F → Res (Client F)
  wait_workers c = if c.wg == 0 then ok c else waits

  -- `Disconnect` called while no worker runs: `wg.Wait()` returns at once.
  unfoldable pub disconnect : Option ClientError → Client F → Res (Client F × Option ClientError)
  unfolding begin_disconnect finish_disconnect wait_workers
  disconnect closing c =
      if c.disconnect_once
      then ok (c, c.err)
      else begin_disconnect closing c >>= λ c₁.
          wait_workers c₁ >>= λ c₂. finish_disconnect c₂ >>= λ c₃. ok (c₃, c₃.err)

  -- `enqueue`. Where the channel has room and `terminatedSignal` is closed, Go chooses: `send` is
  -- the choice to send.
  enqueue_open : Bytes → Bool → Client F → Res (Client F)
  enqueue_open msg send c =
      let room = ltb (length c.req_chan) 10 in
      if room && (send || not c.terminated)
      then ok (record c { req_chan = c.req_chan ++ msg ∷ [] })
      else if c.terminated
      then ok (report no_valid_id not_connected c)
      else waits

  unfoldable pub enqueue : Bytes → Bool → Client F → Res (Client F)
  unfolding enqueue_open is_connected
  enqueue msg send c =
      if is_connected c then enqueue_open msg send c else ok (report no_valid_id not_connected c)

  -- `Run`: the requester and the decoder are started.
  unfoldable pub run : Client F → Client F × Option ClientError
  unfolding is_connected
  run c =
      if is_connected c
      then (record c { wg = c.wg + 2 }, none)
      else (report no_valid_id not_connected c, some (own not_connected))
