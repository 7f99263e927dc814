-- ===== src/Request/Groups.antt =====
-- Requests of `IbClient` (client.go): the display groups, the verification and reference data.
use ibapi.Common.{[], ◌∷◌, ◌++◌, Bool, Bytes, codes, ℤ, pos, below, if◌then◌else◌}
use ibapi.Wire.Encode.{int, str}
use ibapi.Client.State.{bad_message}
use ibapi.Client.Lifecycle.{no_valid_id}
use ibapi.Request.{Request, rejected, send, too_old}

module _ {F : Type 0} where
  -- `QueryDisplayGroups`.
  unfoldable pub query_display_groups : ℤ → ℤ → Request F
  query_display_groups version req_id =
      if below version 70
      then too_old no_valid_id (codes "  It does not support queryDisplayGroups request.")
      else send (int (pos 67) ∷ int (pos 1) ∷ int req_id ∷ [])

  -- `SubscribeToGroupEvents`.
  unfoldable pub subscribe_to_group_events : ℤ → ℤ → ℤ → Request F
  subscribe_to_group_events version req_id group_id =
      if below version 70
      then too_old no_valid_id (codes "  It does not support subscribeToGroupEvents request.")
      else send (int (pos 68) ∷ int (pos 1) ∷ int req_id ∷ int group_id ∷ [])

  -- `UpdateDisplayGroup`.
  unfoldable pub update_display_group : ℤ → ℤ → Bytes → Request F
  update_display_group version req_id contract_info =
      if below version 70
      then too_old no_valid_id (codes "  It does not support updateDisplayGroup request.")
      else send (int (pos 69) ∷ int (pos 1) ∷ int req_id ∷ str contract_info ∷ [])

  -- `UnsubscribeFromGroupEvents`.
  unfoldable pub unsubscribe_from_group_events : ℤ → ℤ → Request F
  unsubscribe_from_group_events version req_id =
      if below version 70
      then too_old no_valid_id (codes "  It does not support unsubscribeFromGroupEvents request.")
      else send (int (pos 69) ∷ int (pos 1) ∷ int req_id ∷ [])

  -- `VerifyRequest`.
  unfoldable pub verify_request : ℤ → Bool → Bytes → Bytes → Request F
  verify_request version extra_auth api_name api_version =
      if below version 70
      then too_old no_valid_id (codes "  It does not support verification request.")
      else if extra_auth
      then rejected no_valid_id bad_message.code (
          bad_message.msg
          ++ codes "  Intent to authenticate needs to be expressed during initial connect request.")
      else send (int (pos 65) ∷ int (pos 1) ∷ str api_name ∷ str api_version ∷ [])

  -- `VerifyMessage`.
  unfoldable pub verify_message : ℤ → Bytes → Request F
  verify_message version api_data =
      if below version 70
      then too_old no_valid_id (codes "  It does not support verification request.")
      else send (int (pos 66) ∷ int (pos 1) ∷ str api_data ∷ [])

  -- `VerifyAndAuthRequest`.
  unfoldable pub verify_and_auth_request : ℤ → Bool → Bytes → Bytes → Bytes → Request F
  verify_and_auth_request version extra_auth api_name api_version opaque_isv_key =
      if below version 70
      then too_old no_valid_id (codes "  It does not support verification request.")
      else if extra_auth
      then rejected no_valid_id bad_message.code (
          bad_message.msg
          ++ codes "  Intent to authenticate needs to be expressed during initial connect request.")
      else send
          (int (pos 72) ∷ int (pos 1) ∷ str api_name ∷ str api_version ∷ str opaque_isv_key ∷ [])

  -- `VerifyAndAuthMessage`.
  unfoldable pub verify_and_auth_message : ℤ → Bytes → Bytes → Request F
  verify_and_auth_message version api_data xyz_response =
      if below version 70
      then too_old no_valid_id (codes "  It does not support verification request.")
      else send (int (pos 66) ∷ int (pos 1) ∷ str api_data ∷ str xyz_response ∷ [])

  -- `ReqSecDefOptParams`.
  unfoldable pub req_sec_def_opt_params : ℤ → ℤ → Bytes → Bytes → Bytes → ℤ → Request F
  req_sec_def_opt_params version req_id underlying_symbol fut_fop_exchange underlying_security_type
        underlying_contract_id =
      if below version 104
      then too_old no_valid_id (codes "  It does not support security definition option request.")
      else send (
          int (pos 78)
          ∷ int req_id
          ∷ str underlying_symbol
          ∷ str fut_fop_exchange
          ∷ str underlying_security_type
          ∷ int underlying_contract_id
          ∷ [])

  -- `ReqMatchingSymbols`.
  unfoldable pub req_matching_symbols : ℤ → ℤ → Bytes → Request F
  req_matching_symbols version req_id pattern =
      if below version 108
      then too_old no_valid_id (codes "  It does not support matching symbols request.")
      else send (int (pos 81) ∷ int req_id ∷ str pattern ∷ [])

  -- `ReqCurrentTime`.
  unfoldable pub req_current_time : Request F
  req_current_time = send (int (pos 49) ∷ int (pos 1) ∷ [])
