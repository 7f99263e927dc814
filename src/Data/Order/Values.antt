-- ===== src/Data/Order/Values.antt =====
-- The zero values of the orders, and the orders that `NewOrder`, `NewLimitOrder` and `NewMarketOrder`
-- make (order.go).
use ibapi.Common.{[], ◌∷◌, true, false, Bytes, codes, pos, negsuc}
use ibapi.Wire.Float.{Floats}
use ibapi.Wire.Encode.{unset_int}
use ibapi.Data.Order.{Order, OrderState}

-- The zero value of `Order`.
abbrev pub zero_order : {F : Type 0} ⦃fl : Floats F⦄ → Order F
zero_order ⦃fl⦄ = record {
  order_id = pos 0;
  client_id = pos 0;
  perm_id = pos 0;
  action = [];
  total_quantity = fl.of_int (pos 0);
  order_type = [];
  limit_price = fl.of_int (pos 0);
  aux_price = fl.of_int (pos 0);
  tif = [];
  active_start_time = [];
  active_stop_time = [];
  oca_group = [];
  oca_type = pos 0;
  order_ref = [];
  transmit = false;
  parent_id = pos 0;
  block_order = false;
  sweep_to_fill = false;
  display_size = pos 0;
  trigger_method = pos 0;
  outside_rth = false;
  hidden = false;
  good_after_time = [];
  good_till_date = [];
  override_percentage_constraints = false;
  rule80a = [];
  all_or_none = false;
  min_qty = pos 0;
  percent_offset = fl.of_int (pos 0);
  trail_stop_price = fl.of_int (pos 0);
  trailing_percent = fl.of_int (pos 0);
  fa_group = [];
  fa_profile = [];
  fa_method = [];
  fa_percentage = [];
  open_close = [];
  origin = pos 0;
  short_sale_slot = pos 0;
  designated_location = [];
  exempt_code = pos 0;
  discretionary_amount = fl.of_int (pos 0);
  e_trade_only = false;
  firm_quote_only = false;
  nbbo_price_cap = fl.of_int (pos 0);
  opt_out_smart_routing = false;
  auction_strategy = pos 0;
  starting_price = fl.of_int (pos 0);
  stock_ref_price = fl.of_int (pos 0);
  delta = fl.of_int (pos 0);
  stock_range_lower = fl.of_int (pos 0);
  stock_range_upper = fl.of_int (pos 0);
  randomize_price = false;
  randomize_size = false;
  volatility = fl.of_int (pos 0);
  volatility_type = pos 0;
  delta_neutral_order_type = [];
  delta_neutral_aux_price = fl.of_int (pos 0);
  delta_neutral_contract_id = pos 0;
  delta_neutral_settling_firm = [];
  delta_neutral_clearing_account = [];
  delta_neutral_clearing_intent = [];
  delta_neutral_open_close = [];
  delta_neutral_short_sale = false;
  delta_neutral_short_sale_slot = pos 0;
  delta_neutral_designated_location = [];
  continuous_update = false;
  reference_price_type = pos 0;
  basis_points = fl.of_int (pos 0);
  basis_points_type = pos 0;
  scale_init_level_size = pos 0;
  scale_subs_level_size = pos 0;
  scale_price_increment = fl.of_int (pos 0);
  scale_price_adjust_value = fl.of_int (pos 0);
  scale_price_adjust_interval = pos 0;
  scale_profit_offset = fl.of_int (pos 0);
  scale_auto_reset = false;
  scale_init_position = pos 0;
  scale_init_fill_qty = pos 0;
  scale_random_percent = false;
  scale_table = [];
  not_supp_scale_num_components = pos 0;
  hedge_type = [];
  hedge_param = [];
  account = [];
  settling_firm = [];
  clearing_account = [];
  clearing_intent = [];
  algo_strategy = [];
  algo_params = [];
  smart_combo_routing_params = [];
  algo_id = [];
  what_if = false;
  not_held = false;
  solicited = false;
  model_code = [];
  order_combo_legs = [];
  order_misc_options = [];
  reference_contract_id = pos 0;
  pegged_change_amount = fl.of_int (pos 0);
  is_pegged_change_amount_decrease = false;
  reference_change_amount = fl.of_int (pos 0);
  reference_exchange_id = [];
  adjusted_order_type = [];
  trigger_price = fl.of_int (pos 0);
  adjusted_stop_price = fl.of_int (pos 0);
  adjusted_stop_limit_price = fl.of_int (pos 0);
  adjusted_trailing_amount = fl.of_int (pos 0);
  adjustable_trailing_unit = pos 0;
  limit_price_offset = fl.of_int (pos 0);
  conditions = [];
  conditions_cancel_order = false;
  conditions_ignore_rth = false;
  ext_operator = [];
  cash_qty = fl.of_int (pos 0);
  mifid2_decision_maker = [];
  mifid2_decision_algo = [];
  mifid2_execution_trader = [];
  mifid2_execution_algo = [];
  dont_use_auto_price_for_hedge = false;
  is_oms_container = false;
  discretionary_up_to_limit_price = false;
  auto_cancel_date = [];
  filled_quantity = fl.of_int (pos 0);
  ref_futures_con_id = pos 0;
  auto_cancel_parent = false;
  shareholder = [];
  imbalance_only = false;
  route_marketable_to_bbo = false;
  parent_perm_id = pos 0;
  use_price_mgmt_algo = false;
  duration = pos 0;
  post_to_ats = pos 0;
  soft_dollar_tier = record { name = []; value = []; display_name = [] };
}

-- The zero value of `OrderState`.
abbrev pub zero_order_state : {F : Type 0} ⦃fl : Floats F⦄ → OrderState F
zero_order_state ⦃fl⦄ = record {
  status = [];
  initial_margin_before = [];
  initial_margin_change = [];
  initial_margin_after = [];
  maintenance_margin_before = [];
  maintenance_margin_change = [];
  maintenance_margin_after = [];
  equity_with_loan_before = [];
  equity_with_loan_change = [];
  equity_with_loan_after = [];
  commission = fl.of_int (pos 0);
  min_commission = fl.of_int (pos 0);
  max_commission = fl.of_int (pos 0);
  commission_currency = [];
  warning_text = [];
  completed_time = [];
  completed_status = [];
}

-- `NewOrder`.
unfoldable pub new_order : {F : Type 0} ⦃fl : Floats F⦄ → Order F
new_order ⦃fl⦄ = record zero_order {
  limit_price = fl.unset_float;
  aux_price = fl.unset_float;
  transmit = true;
  min_qty = unset_int;
  percent_offset = fl.unset_float;
  trail_stop_price = fl.unset_float;
  trailing_percent = fl.unset_float;
  open_close = b'O' ∷ [];
  exempt_code = negsuc 0;
  e_trade_only = true;
  firm_quote_only = true;
  nbbo_price_cap = fl.unset_float;
  auction_strategy = pos 0;
  starting_price = fl.unset_float;
  stock_ref_price = fl.unset_float;
  delta = fl.unset_float;
  stock_range_lower = fl.unset_float;
  stock_range_upper = fl.unset_float;
  volatility = fl.unset_float;
  volatility_type = unset_int;
  delta_neutral_aux_price = fl.unset_float;
  reference_price_type = unset_int;
  basis_points = fl.unset_float;
  basis_points_type = unset_int;
  scale_init_level_size = unset_int;
  scale_subs_level_size = unset_int;
  scale_price_increment = fl.unset_float;
  scale_price_adjust_value = fl.unset_float;
  scale_price_adjust_interval = unset_int;
  scale_profit_offset = fl.unset_float;
  scale_init_position = unset_int;
  scale_init_fill_qty = unset_int;
  trigger_price = fl.unset_float;
  adjusted_stop_price = fl.unset_float;
  adjusted_stop_limit_price = fl.unset_float;
  adjusted_trailing_amount = fl.unset_float;
  limit_price_offset = fl.unset_float;
  cash_qty = fl.unset_float;
  filled_quantity = fl.unset_float;
  duration = unset_int;
  post_to_ats = unset_int;
}

module _ {F : Type 0} ⦃fl : Floats F⦄ where
  -- `NewLimitOrder`.
  unfoldable pub new_limit_order : Bytes → F → F → Order F
  unfolding new_order
  new_limit_order action lmt_price quantity = record new_order {
    order_type = codes "LMT";
    action = action;
    limit_price = lmt_price;
    total_quantity = quantity;
  }

  -- `NewMarketOrder`.
  unfoldable pub new_market_order : Bytes → F → Order F
  unfolding new_order
  new_market_order action quantity = record new_order {
    order_type = codes "MKT";
    action = action;
    total_quantity = quantity;
  }
