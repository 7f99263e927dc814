-- ===== src/Data/Order.antt =====
-- The orders of order.go and common.go.
pub mod Values
use ibapi.Common.{List, ◌&&◌, not, Bool, Bytes, codes, bytes_eq, ℤ, pos}
use ibapi.Wire.Float.{Floats}
use ibapi.Data.Contract.{TagValue}
use ibapi.Data.Market.{SoftDollarTier}
use ibapi.Data.Condition.{OrderConditioner}

-- `OrderComboLeg`.
pub record OrderComboLeg (F : Type 0) : Type 0 where
  pub price : F

-- `Order`.
pub record Order (F : Type 0) : Type 0 where
  pub order_id : ℤ
  pub client_id : ℤ
  pub perm_id : ℤ
  pub action : Bytes
  pub total_quantity : F
  pub order_type : Bytes
  pub limit_price : F
  pub aux_price : F
  pub tif : Bytes
  pub active_start_time : Bytes
  pub active_stop_time : Bytes
  pub oca_group : Bytes
  pub oca_type : ℤ
  pub order_ref : Bytes
  pub transmit : Bool
  pub parent_id : ℤ
  pub block_order : Bool
  pub sweep_to_fill : Bool
  pub display_size : ℤ
  pub trigger_method : ℤ
  pub outside_rth : Bool
  pub hidden : Bool
  pub good_after_time : Bytes
  pub good_till_date : Bytes
  pub override_percentage_constraints : Bool
  pub rule80a : Bytes
  pub all_or_none : Bool
  pub min_qty : ℤ
  pub percent_offset : F
  pub trail_stop_price : F
  pub trailing_percent : F
  pub fa_group : Bytes
  pub fa_profile : Bytes
  pub fa_method : Bytes
  pub fa_percentage : Bytes
  pub open_close : Bytes
  pub origin : ℤ
  pub short_sale_slot : ℤ
  pub designated_location : Bytes
  pub exempt_code : ℤ
  pub discretionary_amount : F
  pub e_trade_only : Bool
  pub firm_quote_only : Bool
  pub nbbo_price_cap : F
  pub opt_out_smart_routing : Bool
  pub auction_strategy : ℤ
  pub starting_price : F
  pub stock_ref_price : F
  pub delta : F
  pub stock_range_lower : F
  pub stock_range_upper : F
  pub randomize_price : Bool
  pub randomize_size : Bool
  pub volatility : F
  pub volatility_type : ℤ
  pub delta_neutral_order_type : Bytes
  pub delta_neutral_aux_price : F
  pub delta_neutral_contract_id : ℤ
  pub delta_neutral_settling_firm : Bytes
  pub delta_neutral_clearing_account : Bytes
  pub delta_neutral_clearing_intent : Bytes
  pub delta_neutral_open_close : Bytes
  pub delta_neutral_short_sale : Bool
  pub delta_neutral_short_sale_slot : ℤ
  pub delta_neutral_designated_location : Bytes
  pub continuous_update : Bool
  pub reference_price_type : ℤ
  pub basis_points : F
  pub basis_points_type : ℤ
  pub scale_init_level_size : ℤ
  pub scale_subs_level_size : ℤ
  pub scale_price_increment : F
  pub scale_price_adjust_value : F
  pub scale_price_adjust_interval : ℤ
  pub scale_profit_offset : F
  pub scale_auto_reset : Bool
  pub scale_init_position : ℤ
  pub scale_init_fill_qty : ℤ
  pub scale_random_percent : Bool
  pub scale_table : Bytes
  pub not_supp_scale_num_components : ℤ
  pub hedge_type : Bytes
  pub hedge_param : Bytes
  pub account : Bytes
  pub settling_firm : Bytes
  pub clearing_account : Bytes
  pub clearing_intent : Bytes
  pub algo_strategy : Bytes
  pub algo_params : List TagValue
  pub smart_combo_routing_params : List TagValue
  pub algo_id : Bytes
  pub what_if : Bool
  pub not_held : Bool
  pub solicited : Bool
  pub model_code : Bytes
  pub order_combo_legs : List (OrderComboLeg F)
  pub order_misc_options : List TagValue
  pub reference_contract_id : ℤ
  pub pegged_change_amount : F
  pub is_pegged_change_amount_decrease : Bool
  pub reference_change_amount : F
  pub reference_exchange_id : Bytes
  pub adjusted_order_type : Bytes
  pub trigger_price : F
  pub adjusted_stop_price : F
  pub adjusted_stop_limit_price : F
  pub adjusted_trailing_amount : F
  pub adjustable_trailing_unit : ℤ
  pub limit_price_offset : F
  pub conditions : List (OrderConditioner F)
  pub conditions_cancel_order : Bool
  pub conditions_ignore_rth : Bool
  pub ext_operator : Bytes
  pub cash_qty : F
  pub mifid2_decision_maker : Bytes
  pub mifid2_decision_algo : Bytes
  pub mifid2_execution_trader : Bytes
  pub mifid2_execution_algo : Bytes
  pub dont_use_auto_price_for_hedge : Bool
  pub is_oms_container : Bool
  pub discretionary_up_to_limit_price : Bool
  pub auto_cancel_date : Bytes
  pub filled_quantity : F
  pub ref_futures_con_id : ℤ
  pub auto_cancel_parent : Bool
  pub shareholder : Bytes
  pub imbalance_only : Bool
  pub route_marketable_to_bbo : Bool
  pub parent_perm_id : ℤ
  pub use_price_mgmt_algo : Bool
  pub duration : ℤ
  pub post_to_ats : ℤ
  pub soft_dollar_tier : SoftDollarTier

-- `OrderState`.
pub record OrderState (F : Type 0) : Type 0 where
  pub status : Bytes
  pub initial_margin_before : Bytes
  pub initial_margin_change : Bytes
  pub initial_margin_after : Bytes
  pub maintenance_margin_before : Bytes
  pub maintenance_margin_change : Bytes
  pub maintenance_margin_after : Bytes
  pub equity_with_loan_before : Bytes
  pub equity_with_loan_change : Bytes
  pub equity_with_loan_after : Bytes
  pub commission : F
  pub min_commission : F
  pub max_commission : F
  pub commission_currency : Bytes
  pub warning_text : Bytes
  pub completed_time : Bytes
  pub completed_status : Bytes

module _ {F : Type 0} ⦃fl : Floats F⦄ where
  -- `ScalePriceIncrement` is set and positive.
  abbrev pub has_increment : Order F → Bool
  has_increment o =
      not (fl.float_eq o.scale_price_increment fl.unset_float)
      && fl.float_lt (fl.of_int (pos 0)) o.scale_price_increment

-- The order is pegged to a benchmark.
abbrev pub is_peg_bench : {F : Type 0} → Order F → Bool
is_peg_bench o = bytes_eq o.order_type (codes "PEG BENCH")
