-- ===== src/Request/Account.antt =====
-- Requests of `IbClient` (client.go): the requests about accounts, positions and profits.
use ibapi.Common.{[], ◌∷◌, Bool, Bytes, codes, ℤ, pos, below, if◌then◌else◌}
use ibapi.Wire.Encode.{int, str, bool}
use ibapi.Client.Lifecycle.{no_valid_id}
use ibapi.Request.{Request, send, too_old}

module _ {F : Type 0} where
  -- `SetServerLogLevel`.
  unfoldable pub set_server_log_level : ℤ → Request F
  set_server_log_level log_level = send (int (pos 14) ∷ int (pos 1) ∷ int log_level ∷ [])

  -- `ReqAccountUpdates`.
  unfoldable pub req_account_updates : Bool → Bytes → Request F
  req_account_updates subscribe acc_name =
      send (int (pos 6) ∷ int (pos 2) ∷ bool subscribe ∷ str acc_name ∷ [])

  -- `ReqAccountSummary`.
  unfoldable pub req_account_summary : ℤ → Bytes → Bytes → Request F
  req_account_summary req_id group_name tags =
      send (int (pos 62) ∷ int (pos 1) ∷ int req_id ∷ str group_name ∷ str tags ∷ [])

  -- `CancelAccountSummary`.
  unfoldable pub cancel_account_summary : ℤ → Request F
  cancel_account_summary req_id = send (int (pos 63) ∷ int (pos 1) ∷ int req_id ∷ [])

  -- `ReqPositions`.
  unfoldable pub req_positions : ℤ → Request F
  req_positions version =
      if below version 67
      then too_old no_valid_id (codes "  It does not support positions request.")
      else send (int (pos 61) ∷ int (pos 1) ∷ [])

  -- `CancelPositions`.
  unfoldable pub cancel_positions : ℤ → Request F
  cancel_positions version =
      if below version 67
      then too_old no_valid_id (codes "  It does not support positions request.")
      else send (int (pos 64) ∷ int (pos 1) ∷ [])

  -- `ReqPositionsMulti`.
  unfoldable pub req_positions_multi : ℤ → ℤ → Bytes → Bytes → Request F
  req_positions_multi version req_id account model_code =
      if below version 103
      then too_old no_valid_id (codes "  It does not support positions multi request.")
      else send (int (pos 74) ∷ int (pos 1) ∷ int req_id ∷ str account ∷ str model_code ∷ [])

  -- `CancelPositionsMulti`.
  unfoldable pub cancel_positions_multi : ℤ → ℤ → Request F
  cancel_positions_multi version req_id =
      if below version 103
      then too_old no_valid_id (codes "  It does not support cancel positions multi request.")
      else send (int (pos 75) ∷ int (pos 1) ∷ int req_id ∷ [])

  -- `ReqAccountUpdatesMulti`.
  unfoldable pub req_account_updates_multi : ℤ → ℤ → Bytes → Bytes → Bool → Request F
  req_account_updates_multi version req_id account model_code ledger_and_nlv =
      if below version 103
      then too_old no_valid_id (codes "  It does not support account updates multi request.")
      else send (
          int (pos 76)
          ∷ int (pos 1)
          ∷ int req_id
          ∷ str account
          ∷ str model_code
          ∷ bool ledger_and_nlv
          ∷ [])

  -- `CancelAccountUpdatesMulti`.
  unfoldable pub cancel_account_updates_multi : ℤ → ℤ → Request F
  cancel_account_updates_multi version req_id =
      if below version 103
      then too_old no_valid_id (codes "  It does not support cancel account updates multi request.")
      else send (int (pos 77) ∷ int (pos 1) ∷ int req_id ∷ [])

  -- `ReqPnL`.
  unfoldable pub req_pnl : ℤ → ℤ → Bytes → Bytes → Request F
  req_pnl version req_id account model_code =
      if below version 127
      then too_old no_valid_id (codes "  It does not support PnL request.")
      else send (int (pos 92) ∷ int req_id ∷ str account ∷ str model_code ∷ [])

  -- `CancelPnL`.
  unfoldable pub cancel_pnl : ℤ → ℤ → Request F
  cancel_pnl version req_id =
      if below version 127
      then too_old no_valid_id (codes "  It does not support PnL request.")
      else send (int (pos 93) ∷ int req_id ∷ [])

  -- `ReqPnLSingle`.
  unfoldable pub req_pnl_single : ℤ → ℤ → Bytes → Bytes → ℤ → Request F
  req_pnl_single version req_id account model_code contract_id =
      if below version 127
      then too_old no_valid_id (codes "  It does not support PnL request.")
      else send (int (pos 94) ∷ int req_id ∷ str account ∷ str model_code ∷ int contract_id ∷ [])

  -- `CancelPnLSingle`.
  unfoldable pub cancel_pnl_single : ℤ → ℤ → Request F
  cancel_pnl_single version req_id =
      if below version 127
      then too_old no_valid_id (codes "  It does not support PnL request.")
      else send (int (pos 95) ∷ int req_id ∷ [])

  -- `ReqManagedAccts`.
  unfoldable pub req_managed_accts : Request F
  req_managed_accts = send (int (pos 17) ∷ int (pos 1) ∷ [])

  -- `RequestFA`.
  unfoldable pub request_fa : ℤ → Request F
  request_fa fa_data = send (int (pos 18) ∷ int (pos 1) ∷ int fa_data ∷ [])

  -- `ReplaceFA`.
  unfoldable pub replace_fa : ℤ → Bytes → Request F
  replace_fa fa_data cxml = send (int (pos 19) ∷ int (pos 1) ∷ int fa_data ∷ str cxml ∷ [])

  -- `ReqFamilyCodes`.
  unfoldable pub req_family_codes : ℤ → Request F
  req_family_codes version =
      if below version 107
      then too_old no_valid_id (codes "  It does not support family codes request.")
      else send (int (pos 80) ∷ [])

  -- `ReqSoftDollarTiers`.
  unfoldable pub req_soft_dollar_tiers : ℤ → Request F
  req_soft_dollar_tiers req_id = send (int (pos 79) ∷ int req_id ∷ [])
