-- ===== src/Request/News.antt =====
-- Requests of `IbClient` (client.go): the requests about news and the event calendar.
use ibapi.Common.{[], ◌∷◌, Bool, codes, ℤ, pos, below, if◌then◌else◌}
use ibapi.Wire.Encode.{int, bool}
use ibapi.Client.Lifecycle.{no_valid_id}
use ibapi.Request.{Request, send, too_old}

module _ {F : Type 0} where
  -- `ReqNewsBulletins`.
  unfoldable pub req_news_bulletins : Bool → Request F
  req_news_bulletins all_msgs = send (int (pos 12) ∷ int (pos 1) ∷ bool all_msgs ∷ [])

  -- `CancelNewsBulletins`.
  unfoldable pub cancel_news_bulletins : Request F
  cancel_news_bulletins = send (int (pos 13) ∷ int (pos 1) ∷ [])

  -- `ReqNewsProviders`.
  unfoldable pub req_news_providers : ℤ → Request F
  req_news_providers version =
      if below version 115
      then too_old no_valid_id (codes " It does not support news providers request.")
      else send (int (pos 85) ∷ [])

  -- `ReqWshMetaData`.
  unfoldable pub req_wsh_meta_data : ℤ → ℤ → Request F
  req_wsh_meta_data version req_id =
      if below version 161
      then too_old no_valid_id (codes "  It does not support WSHE Calendar API.")
      else send (int (pos 100) ∷ int req_id ∷ [])

  -- `CancelWshMetaData`.
  unfoldable pub cancel_wsh_meta_data : ℤ → ℤ → Request F
  cancel_wsh_meta_data version req_id =
      if below version 161
      then too_old no_valid_id (codes "  It does not support WSHE Calendar API.")
      else send (int (pos 101) ∷ int req_id ∷ [])

  -- `ReqWshEventData`.
  unfoldable pub req_wsh_event_data : ℤ → ℤ → ℤ → Request F
  req_wsh_event_data version req_id con_id =
      if below version 161
      then too_old no_valid_id (codes "  It does not support WSHE Calendar API.")
      else send (int (pos 100) ∷ int req_id ∷ int con_id ∷ [])

  -- `CancelWshEventData`.
  unfoldable pub cancel_wsh_event_data : ℤ → ℤ → Request F
  cancel_wsh_event_data version req_id =
      if below version 161
      then too_old no_valid_id (codes "  It does not support WSHE Calendar API.")
      else send (int (pos 103) ∷ int req_id ∷ [])
