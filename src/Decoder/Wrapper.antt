-- ===== src/Decoder/Wrapper.antt =====
-- `IbWrapper` of wrapper.go: a call of the wrapper is a value, with the arguments of the call. The
-- user of the library implements the wrapper; what a component does to it is the list of calls.
use ibapi.Common.{List, Bool, Bytes, ℤ, ℕ}
use ibapi.Data.Contract.{Contract, ContractDetails, ContractDescription, DeltaNeutralContract}
use ibapi.Data.Market.{
  TickAttrib, TickAttribBidAsk, TickAttribLast, BarData, HistoricalTick, HistoricalTickBidAsk,
  HistoricalTickLast, CommissionReport, FamilyCode, SmartComponent, DepthMktDataDescription,
  NewsProvider, HistogramData, PriceIncrement, SoftDollarTier, Execution,
}
use ibapi.Data.Order.{Order, OrderState}

-- The `time.Time` of `UpdateAccountTime`: the day, and the nanoseconds since its midnight.
pub record AccountTime : Type 0 where
  pub year : ℕ
  pub month : ℕ
  pub day : ℕ
  pub nanoseconds : ℕ

pub data Callback (F : Type 0) : Type 0 where
  tick_price : ℤ → ℤ → F → TickAttrib → Callback F
  tick_size : ℤ → ℤ → F → Callback F
  order_status : ℤ → Bytes → F → F → F → ℤ → ℤ → F → ℤ → Bytes → F → Callback F
  error : ℤ → ℤ → Bytes → Callback F
  update_account_value : Bytes → Bytes → Bytes → Bytes → Callback F
  update_portfolio : Contract F → F → F → F → F → F → F → Bytes → Callback F
  update_account_time : AccountTime → Callback F
  next_valid_id : ℤ → Callback F
  contract_details : ℤ → ContractDetails F → Callback F
  exec_details : ℤ → Contract F → (Execution F) → Callback F
  update_mkt_depth : ℤ → ℤ → ℤ → ℤ → F → F → Callback F
  update_mkt_depth_l2 : ℤ → ℤ → Bytes → ℤ → ℤ → F → F → Bool → Callback F
  update_news_bulletin : ℤ → ℤ → Bytes → Bytes → Callback F
  managed_accounts : List Bytes → Callback F
  receive_fa : ℤ → Bytes → Callback F
  historical_data : ℤ → (BarData F) → Callback F
  historical_data_end : ℤ → Bytes → Bytes → Callback F
  historical_data_update : ℤ → (BarData F) → Callback F
  bond_contract_details : ℤ → ContractDetails F → Callback F
  scanner_parameters : Bytes → Callback F
  scanner_data : ℤ → ℤ → ContractDetails F → Bytes → Bytes → Bytes → Bytes → Callback F
  scanner_data_end : ℤ → Callback F
  tick_option_computation : ℤ → ℤ → ℤ → F → F → F → F → F → F → F → F → Callback F
  tick_generic : ℤ → ℤ → F → Callback F
  tick_string : ℤ → ℤ → Bytes → Callback F
  tick_efp : ℤ → ℤ → F → Bytes → F → ℤ → Bytes → F → F → Callback F
  current_time : ℤ → Callback F
  realtime_bar : ℤ → ℤ → F → F → F → F → F → F → ℤ → Callback F
  fundamental_data : ℤ → Bytes → Callback F
  contract_details_end : ℤ → Callback F
  open_order : ℤ → Contract F → Order F → OrderState F → Callback F
  open_order_end : Callback F
  account_download_end : Bytes → Callback F
  exec_details_end : ℤ → Callback F
  delta_neutral_validation : ℤ → (DeltaNeutralContract F) → Callback F
  tick_snapshot_end : ℤ → Callback F
  market_data_type : ℤ → ℤ → Callback F
  position : Bytes → Contract F → F → F → Callback F
  position_end : Callback F
  account_summary : ℤ → Bytes → Bytes → Bytes → Bytes → Callback F
  account_summary_end : ℤ → Callback F
  verify_message_api : Bytes → Callback F
  verify_completed : Bool → Bytes → Callback F
  display_group_list : ℤ → Bytes → Callback F
  display_group_updated : ℤ → Bytes → Callback F
  verify_and_auth_message_api : Bytes → Bytes → Callback F
  verify_and_auth_completed : Bool → Bytes → Callback F
  position_multi : ℤ → Bytes → Bytes → Contract F → F → F → Callback F
  position_multi_end : ℤ → Callback F
  account_update_multi : ℤ → Bytes → Bytes → Bytes → Bytes → Bytes → Callback F
  account_update_multi_end : ℤ → Callback F
  security_definition_option_parameter :
      ℤ → Bytes → ℤ → Bytes → Bytes → List Bytes → List F → Callback F
  security_definition_option_parameter_end : ℤ → Callback F
  soft_dollar_tiers : ℤ → List SoftDollarTier → Callback F
  family_codes : List FamilyCode → Callback F
  symbol_samples : ℤ → List (ContractDescription F) → Callback F
  smart_components : ℤ → List SmartComponent → Callback F
  tick_req_params : ℤ → F → Bytes → ℤ → Callback F
  mkt_depth_exchanges : List DepthMktDataDescription → Callback F
  head_timestamp : ℤ → Bytes → Callback F
  tick_news : ℤ → ℤ → Bytes → Bytes → Bytes → Bytes → Callback F
  news_providers : List NewsProvider → Callback F
  news_article : ℤ → ℤ → Bytes → Callback F
  historical_news : ℤ → Bytes → Bytes → Bytes → Bytes → Callback F
  historical_news_end : ℤ → Bool → Callback F
  histogram_data : ℤ → List (HistogramData F) → Callback F
  reroute_mkt_data_req : ℤ → ℤ → Bytes → Callback F
  reroute_mkt_depth_req : ℤ → ℤ → Bytes → Callback F
  market_rule : ℤ → List (PriceIncrement F) → Callback F
  pnl : ℤ → F → F → F → Callback F
  pnl_single : ℤ → F → F → F → F → F → Callback F
  historical_ticks : ℤ → List (HistoricalTick F) → Bool → Callback F
  historical_ticks_bid_ask : ℤ → List (HistoricalTickBidAsk F) → Bool → Callback F
  historical_ticks_last : ℤ → List (HistoricalTickLast F) → Bool → Callback F
  tick_by_tick_all_last : ℤ → ℤ → ℤ → F → F → TickAttribLast → Bytes → Bytes → Callback F
  tick_by_tick_bid_ask : ℤ → ℤ → F → F → F → F → TickAttribBidAsk → Callback F
  tick_by_tick_mid_point : ℤ → ℤ → F → Callback F
  order_bound : ℤ → ℤ → ℤ → Callback F
  completed_order : Contract F → Order F → OrderState F → Callback F
  completed_orders_end : Callback F
  commission_report : (CommissionReport F) → Callback F
  connect_ack : Callback F
  connection_closed : Callback F
  replace_fa_end : ℤ → Bytes → Callback F
  wsh_meta_data : ℤ → Bytes → Callback F
  wsh_event_data : ℤ → Bytes → Callback F
