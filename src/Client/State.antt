-- ===== src/Client/State.antt =====
-- The state of `IbClient` (client.go), of its `IbConnection` (connection.go), and the errors of
-- errors.go. The wrapper is the list of its calls so far.
use ibapi.Common.{ℕ, List, Bool, Option, Bytes, codes, ℤ, pos}
use ibapi.Decoder.{Decoder}
use ibapi.Decoder.Wrapper.{Callback}

-- `IbError`.
pub record IbError : Type 0 where
  pub code : ℤ
  pub msg : Bytes

abbrev pub already_connected : IbError
already_connected = record { code = pos 501; msg = codes "Already connected." }

abbrev pub connect_fail : IbError
connect_fail = record {
  code = pos 502;
  msg =
      codes
        "Couldn't connect to TWS. Confirm that \"Enable ActiveX and Socket EClients\" \n\tis enabled and connection port is the same as \"Socket Port\" on the \n\tTWS \"Edit->Global Configuration...->API->Settings\" menu. Live Trading ports: \n\tTWS: 7496; IB Gateway: 4001. Simulated Trading ports for new installations \n\tof version 954.1 or newer:  TWS: 7497; IB Gateway: 4002";
}

abbrev pub update_tws : IbError
update_tws = record { code = pos 503; msg = codes "The TWS is out of date and must be upgraded." }

abbrev pub not_connected : IbError
not_connected = record { code = pos 504; msg = codes "Not connected" }

abbrev pub bad_message : IbError
bad_message = record { code = pos 508; msg = codes "Bad message" }

-- A Go `error` of the client: one of its own, one of the network, or the panic of a worker.
pub data ClientError : Type 0 where
  own : IbError → ClientError
  network : Bytes → ClientError
  worker_panic : Bytes → ClientError

-- The states of a connection.
pub data ConnState : Type 0 where
  disconnected connecting connected redirect : ConnState

-- `IbConnection`; `open_socket` says that the embedded `*net.TCPConn` is not nil.
pub record Conn : Type 0 where
  pub open_socket : Bool
  pub host : Bytes
  pub port : ℤ
  pub state : ConnState
  pub num_bytes_sent : ℕ
  pub num_msg_sent : ℕ
  pub num_bytes_recv : ℕ
  pub num_msg_recv : ℕ

-- The channel `done`, which nothing is sent on.
pub data DoneChan : Type 0 where
  nil_chan open_chan closed_chan : DoneChan

-- `IbClient`. A `sync.Once` is whether it has fired; `terminated` says that the channel
-- `terminatedSignal` is closed; `wg` is the counter of the wait group; `has_ctx` says that `ctx` is
-- not nil.
pub record Client (F : Type 0) : Type 0 where
  pub host : Bytes
  pub port : ℤ
  pub client_id : ℤ
  pub conn : Conn
  pub decoder : Decoder F
  pub connect_options : Bytes
  pub req_id_seq : ℤ
  pub req_chan : List Bytes
  pub err_chan : List ClientError
  pub msg_chan : List Bytes
  pub terminated : Bool
  pub done_chan : DoneChan
  pub done_once : Bool
  pub shutdown_once : Bool
  pub disconnect_once : Bool
  pub err_once : Bool
  pub server_version : ℤ
  pub conn_time : Bytes
  pub extra_auth : Bool
  pub wg : ℕ
  pub has_ctx : Bool
  pub err : Option ClientError
  pub calls : List (Callback F)

-- What stops a goroutine: the panic of a close, of an index, of a field, of
-- options that are for internal use, or of a callback or reader.
pub data ClientFault : Type 0 where
  close_of_nil_channel close_of_closed_channel bad_index decoder_panic unsupported_type
        internal_options :
      ClientFault

-- A call ends, panics, or waits for another goroutine.
pub data Res (A : Type 0) : Type 0 where
  ok : A → Res A
  fault : ClientFault → Res A
  waits : Res A

infixl 5 ◌>>=◌
abbrev pub ◌>>=◌ : {A B : Type 0} → Res A → (A → Res B) → Res B
ok a >>= f = f a
fault e >>= f = fault e
waits >>= f = waits
