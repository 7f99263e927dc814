-- ===== src/Decoder.antt =====
-- `ibDecoder` (decoder.go): the table of message ids and `interpret`.
pub mod Wrapper
pub mod Read
pub mod Account
pub mod Ticks
pub mod Greeks
pub mod History
pub mod Reference
pub mod Orders
pub mod OrderFields
pub mod OpenOrder
pub mod CompletedOrder
pub mod Contracts
pub mod Dispatch
pub mod Messages
use ibapi.Common.{ℕ, List, [], ◌∷◌, Option, none, some, Bytes, ℤ, pos, negsuc, ◌==◌, if◌then◌else◌}
use ibapi.Wire.Float.{Floats}
use ibapi.Buffer.{new_msg_buffer, Run, done, panicked, Fault, MsgBuffer, pure, read_int, ◌>>=◌}
use ibapi.Decoder.Wrapper.{Callback, AccountTime}
use ibapi.Decoder.Read.{D}
use ibapi.Decoder.Ticks.{
  process_tick_price_msg, wrap_tick_size, wrap_update_mkt_depth, wrap_update_mkt_depth_l2,
  wrap_tick_generic, wrap_tick_string, wrap_tick_efp, wrap_tick_snapshot_end, wrap_market_data_type,
  process_tick_req_params, process_tick_news, process_reroute_mkt_data_req,
  process_reroute_mkt_depth_req, process_tick_by_tick_msg,
}
use ibapi.Decoder.Greeks.{process_tick_option_computation_msg}
use ibapi.Decoder.Orders.{
  process_order_status_msg, process_execution_data_msg, wrap_open_order_end, wrap_exec_details_end,
  process_delta_neutral_validation_msg, process_commission_report_msg, process_order_bound_msg,
  process_completed_orders_end_msg,
}
use ibapi.Decoder.OpenOrder.{process_open_order}
use ibapi.Decoder.CompletedOrder.{process_completed_order_msg}
use ibapi.Decoder.Account.{
  wrap_error, wrap_update_account_value, process_portfolio_value_msg, wrap_update_account_time,
  wrap_next_valid_id, wrap_managed_accounts, wrap_receive_fa, wrap_account_download_end,
  process_position_data_msg, wrap_position_end, wrap_account_summary, wrap_account_summary_end,
  process_position_multi_msg, wrap_position_multi_end, wrap_account_update_multi,
  wrap_account_update_multi_end, process_pnl_msg, process_pnl_single_msg,
  process_replace_fa_end_msg,
}
use ibapi.Decoder.Contracts.{
  process_contract_data_msg, process_bond_contract_data_msg, process_scanner_data_msg,
}
use ibapi.Decoder.History.{
  wrap_update_news_bulletin, process_historical_data_msg, process_historical_data_update_msg,
  process_real_time_bar_msg, wrap_fundamental_data, process_head_timestamp, process_news_providers,
  process_news_article, process_historical_news, process_historical_news_end,
  process_histogram_data, process_historical_ticks, process_historical_ticks_bid_ask,
  process_historical_ticks_last,
}
use ibapi.Decoder.Reference.{
  wrap_scanner_parameters, wrap_current_time, wrap_contract_details_end, wrap_verify_message_api,
  wrap_verify_completed, wrap_display_group_list, wrap_display_group_updated,
  wrap_verify_and_auth_message_api, wrap_verify_and_auth_completed,
  process_security_definition_option_parameter_msg,
  wrap_security_definition_option_parameter_end_msg, process_soft_dollar_tiers_msg,
  process_family_codes_msg, process_symbol_samples_msg, process_smart_components,
  process_mkt_depth_exchanges, process_market_rule_msg, process_wsh_meta_data_msg,
  process_wsh_event_data_msg,
}

-- A function of the table, over the version that the decoder has when the message comes.
abbrev pub Process : Type 0 → Type 0
Process F = ℤ → D F (Unit {0})

-- `ibDecoder`; the wrapper is the log of the run.
pub record Decoder (F : Type 0) : Type 0 where
  pub version : ℤ
  pub msg_id2process : List (ℕ × Process F)

-- `setVersion`.
unfoldable pub set_version : {F : Type 0} → ℤ → Decoder F → Decoder F
set_version v d = record d { version = v }

module _ {F : Type 0} ⦃fl : Floats F⦄ (clock : Bytes → Option AccountTime) where
  -- The map of `setmsgID2process`.
  unfoldable pub process_table : List (ℕ × Process F)
  process_table =
      (1, process_tick_price_msg)
      ∷ (2, λ _. wrap_tick_size)
      ∷ (3, process_order_status_msg)
      ∷ (4, λ _. wrap_error)
      ∷ (5, process_open_order)
      ∷ (6, λ _. wrap_update_account_value)
      ∷ (7, process_portfolio_value_msg)
      ∷ (8, λ _. wrap_update_account_time clock)
      ∷ (9, λ _. wrap_next_valid_id)
      ∷ (10, process_contract_data_msg)
      ∷ (11, process_execution_data_msg)
      ∷ (12, λ _. wrap_update_mkt_depth)
      ∷ (13, λ _. wrap_update_mkt_depth_l2)
      ∷ (14, λ _. wrap_update_news_bulletin)
      ∷ (15, λ _. wrap_managed_accounts)
      ∷ (16, λ _. wrap_receive_fa)
      ∷ (17, process_historical_data_msg)
      ∷ (90, λ _. process_historical_data_update_msg)
      ∷ (18, process_bond_contract_data_msg)
      ∷ (19, λ _. wrap_scanner_parameters)
      ∷ (20, λ _. process_scanner_data_msg)
      ∷ (21, process_tick_option_computation_msg)
      ∷ (45, λ _. wrap_tick_generic)
      ∷ (46, λ _. wrap_tick_string)
      ∷ (47, λ _. wrap_tick_efp)
      ∷ (49, λ _. wrap_current_time)
      ∷ (50, λ _. process_real_time_bar_msg)
      ∷ (51, λ _. wrap_fundamental_data)
      ∷ (52, λ _. wrap_contract_details_end)
      ∷ (54, λ _. wrap_account_download_end)
      ∷ (53, λ _. wrap_open_order_end)
      ∷ (55, λ _. wrap_exec_details_end)
      ∷ (56, λ _. process_delta_neutral_validation_msg)
      ∷ (57, λ _. wrap_tick_snapshot_end)
      ∷ (58, λ _. wrap_market_data_type)
      ∷ (59, λ _. process_commission_report_msg)
      ∷ (61, process_position_data_msg)
      ∷ (62, λ _. wrap_position_end)
      ∷ (63, λ _. wrap_account_summary)
      ∷ (64, λ _. wrap_account_summary_end)
      ∷ (65, λ _. wrap_verify_message_api)
      ∷ (66, λ _. wrap_verify_completed)
      ∷ (67, λ _. wrap_display_group_list)
      ∷ (68, λ _. wrap_display_group_updated)
      ∷ (69, λ _. wrap_verify_and_auth_message_api)
      ∷ (70, λ _. wrap_verify_and_auth_completed)
      ∷ (71, λ _. process_position_multi_msg)
      ∷ (72, λ _. wrap_position_multi_end)
      ∷ (73, λ _. wrap_account_update_multi)
      ∷ (74, λ _. wrap_account_update_multi_end)
      ∷ (75, λ _. process_security_definition_option_parameter_msg)
      ∷ (76, λ _. wrap_security_definition_option_parameter_end_msg)
      ∷ (77, λ _. process_soft_dollar_tiers_msg)
      ∷ (78, λ _. process_family_codes_msg)
      ∷ (79, λ _. process_symbol_samples_msg)
      ∷ (82, λ _. process_smart_components)
      ∷ (81, λ _. process_tick_req_params)
      ∷ (80, process_mkt_depth_exchanges)
      ∷ (88, λ _. process_head_timestamp)
      ∷ (84, λ _. process_tick_news)
      ∷ (85, λ _. process_news_providers)
      ∷ (83, λ _. process_news_article)
      ∷ (86, λ _. process_historical_news)
      ∷ (87, λ _. process_historical_news_end)
      ∷ (89, λ _. process_histogram_data)
      ∷ (91, λ _. process_reroute_mkt_data_req)
      ∷ (92, λ _. process_reroute_mkt_depth_req)
      ∷ (93, λ _. process_market_rule_msg)
      ∷ (94, process_pnl_msg)
      ∷ (95, process_pnl_single_msg)
      ∷ (96, λ _. process_historical_ticks)
      ∷ (97, λ _. process_historical_ticks_bid_ask)
      ∷ (98, λ _. process_historical_ticks_last)
      ∷ (99, λ _. process_tick_by_tick_msg)
      ∷ (100, λ _. process_order_bound_msg)
      ∷ (101, process_completed_order_msg)
      ∷ (102, λ _. process_completed_orders_end_msg)
      ∷ (103, λ _. process_replace_fa_end_msg)
      ∷ (104, λ _. process_wsh_meta_data_msg)
      ∷ (105, λ _. process_wsh_event_data_msg)
      ∷ []

  -- `setmsgID2process`.
  unfoldable pub set_msg_id2process : Decoder F → Decoder F
  set_msg_id2process d = record d { msg_id2process = process_table }

module _ {F : Type 0} where
  -- A lookup in a Go map; the key is an int64, and the table has no negative id.
  unfoldable pub find_process : ℕ → List (ℕ × Process F) → Option (Process F)
  find_process id [] = none
  find_process id ((k, p) ∷ table) = if k == id then some p else find_process id table

  unfoldable pub lookup_process : ℤ → List (ℕ × Process F) → Option (Process F)
  unfolding find_process
  lookup_process (pos id) table = find_process id table
  lookup_process (negsuc id) table = none

  -- A message with an id that the table does not have is only logged.
  unfoldable pub apply_process : Option (Process F) → Process F
  apply_process none version = pure tt
  apply_process (some p) version = p version

  -- `interpret`: the run of the decoder on one message.
  unfoldable pub interpret : Decoder F → Bytes → Run (Callback F) (Unit {0})
  unfolding lookup_process apply_process
  interpret d [] = done tt (new_msg_buffer []) []
  interpret d (c ∷ bytes) =
      (read_int >>= λ id. apply_process (lookup_process id d.msg_id2process) d.version)
        (new_msg_buffer (c ∷ bytes)) []

-- How a run ended: the bytes that no reader took, and the calls of the wrapper, in order.
pub data Outcome (F : Type 0) : Type 0 where
  completed : Bytes → List (Callback F) → Outcome F
  crashed : Fault → List (Callback F) → Outcome F

abbrev pub outcome : {F A : Type 0} → Run (Callback F) A → Outcome F
outcome (done a m l) = completed m.buf l
outcome (panicked e l) = crashed e l
