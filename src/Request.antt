-- ===== src/Request.antt =====
-- The requests of `IbClient` (client.go): each checks the version of the server, and calls the
-- wrapper back with an error or enqueues one message.
pub mod Account
pub mod Orders
pub mod Market
pub mod News
pub mod Groups
pub mod Options
pub mod Data
pub mod History
pub mod Details
pub mod PlaceOrder
pub mod Sent
pub mod Versions
use ibapi.Common.{List, ◌++◌, Bool, Option, none, some, Bytes, ℤ}
use ibapi.Wire.Float.{Floats}
use ibapi.Wire.Encode.{Field, make_msg_bytes}
use ibapi.Client.State.{update_tws, Client, unsupported_type, internal_options, Res, ok, fault}
use ibapi.Client.Lifecycle.{report, enqueue}

-- What a request comes to: an error for the wrapper (id, code, text), the fields of a message, an
-- error and yet a message, or the panic on options that are for internal use.
pub data Request (F : Type 0) : Type 0 where
  rejected : ℤ → ℤ → Bytes → Request F
  send : List (Field F) → Request F
  noted : ℤ → ℤ → Bytes → List (Field F) → Request F
  raised : Request F

-- The server is too old for the request.
abbrev pub too_old : {F : Type 0} → ℤ → Bytes → Request F
too_old id text = rejected id update_tws.code (update_tws.msg ++ text)

module _ {F : Type 0} ⦃fl : Floats F⦄ where
  abbrev pub enqueue_bytes : Bool → Client F → Option Bytes → Res (Client F)
  enqueue_bytes choice c none = fault unsupported_type
  enqueue_bytes choice c (some b) = enqueue b choice c

  -- The body that all requests share; `choice` is the one of `enqueue`.
  unfoldable pub perform : Bool → Request F → Client F → Res (Client F)
  perform choice (rejected id code text) c = ok (report id (record { code = code; msg = text }) c)
  perform choice (send fields) c = enqueue_bytes choice c (make_msg_bytes fields)
  perform choice (noted id code text fields) c =
      enqueue_bytes choice (report id (record { code = code; msg = text }) c)
        (make_msg_bytes fields)
  perform choice raised c = fault internal_options
