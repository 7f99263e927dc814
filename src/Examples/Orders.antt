-- ===== src/Examples/Orders.antt =====
-- Concrete runs of the theorems on the orders that a server sends.
use ibapi.Common.{[], ◌∷◌, true, false, ◌≡◌, refl, codes, ℤ, pos, arith, length, map, ◌++◌}
use ibapi.Buffer.Items.{Text}
use ibapi.Buffer.Items.{bool}
use ibapi.Data.Condition.{to_fields, cond_type, init_order_condition, zero_condition, set_cond_type}
use ibapi.Decoder.OrderFields.Parts.{read_conditions}
use ibapi.Decoder.Messages.Lists.{Takes, all_items}
use ibapi.Decoder.Wrapper.{Callback}
use ibapi.Decoder.Dispatch.{ready, msg_id, Delivers}
use ibapi.Decoder.Messages.Conditions.{
  WireCondition, condition_items, blank, conditions_lost, init_order_condition-size,
}
use ibapi.Decoder.Messages.OpenOrder.{
  OpenOrderValues, open_order_items, open_order_of, open_contract_of, open_order_delivered,
}
use ibapi.Decoder.Messages.OpenOrder.Head.{ContractValues, HeadValues}
use ibapi.Decoder.Messages.OpenOrder.Prices.{PriceValues}
use ibapi.Decoder.Messages.OpenOrder.Parts.{LegValues, PartValues}
use ibapi.Decoder.Messages.OpenOrder.End.{StateValues, PegValues, TailValues, state_of}
use ibapi.Examples.PlacedOrders.{limit_order}
use ibapi.Examples.Values.{ints, whole, seven, one, two, minus_one, ticker, no_clock}

abbrev peg_bench : Text
peg_bench = record { bytes = codes "PEG BENCH"; no_nul = ground arith }

abbrev one_condition : WireCondition ℤ
one_condition = WireCondition.price ticker true seven ticker (whole two) one

abbrev other_condition : WireCondition ℤ
other_condition = WireCondition.margin ticker false (whole seven)

abbrev one_leg : LegValues
one_leg = record {
  contract_id = seven;
  ratio = one;
  action = ticker;
  exchange = ticker;
  open_close = one;
  short_sale_slot = one;
  designated_location = ticker;
  exempt_code = minus_one;
}

abbrev contract_values : ContractValues ℤ
contract_values = record {
  contract_id = seven;
  symbol = ticker;
  security_type = ticker;
  expiry = ticker;
  strike = whole two;
  right = ticker;
  multiplier = ticker;
  exchange = ticker;
  currency = ticker;
  local_symbol = ticker;
  trading_class = ticker;
}

abbrev head_values : HeadValues ℤ
head_values = record {
  action = ticker;
  total_quantity = whole two;
  order_type = peg_bench;
  limit_price = whole two;
  aux_price = whole two;
  tif = ticker;
  oca_group = ticker;
  account = ticker;
  open_close = ticker;
  origin = seven;
  order_ref = ticker;
  client_id = seven;
  perm_id = seven;
  outside_rth = true;
  hidden = true;
  discretionary_amount = whole two;
  good_after_time = ticker;
  shares_allocation = ticker;
  fa_group = ticker;
  fa_method = ticker;
  fa_percentage = ticker;
  fa_profile = ticker;
  model_code = ticker;
  good_till_date = ticker;
  rule80a = ticker;
  percent_offset = whole two;
  settling_firm = ticker;
  short_sale_slot = seven;
  designated_location = ticker;
  exempt_code = seven;
  auction_strategy = seven;
  starting_price = whole two;
  stock_ref_price = whole two;
  delta = whole two;
  stock_range_lower = whole two;
  stock_range_upper = whole two;
  display_size = seven;
  block_order = true;
  sweep_to_fill = true;
  all_or_none = true;
  min_qty = seven;
  oca_type = seven;
}

abbrev price_values : PriceValues ℤ
price_values = record {
  e_trade_only = true;
  firm_quote_only = true;
  nbbo_price_cap = whole two;
  parent_id = seven;
  trigger_method = seven;
  volatility = whole two;
  volatility_type = seven;
  delta_neutral_order_type = ticker;
  delta_neutral_aux_price = whole two;
  delta_neutral_contract_id = seven;
  delta_neutral_settling_firm = ticker;
  delta_neutral_clearing_account = ticker;
  delta_neutral_clearing_intent = ticker;
  delta_neutral_open_close = ticker;
  delta_neutral_short_sale = true;
  delta_neutral_short_sale_slot = seven;
  delta_neutral_designated_location = ticker;
  continuous_update = true;
  reference_price_type = seven;
  trail_stop_price = whole two;
  trailing_percent = whole two;
  basis_points = whole two;
  basis_points_type = seven;
}

abbrev part_values : PartValues ℤ
part_values = record {
  combo_legs_description = ticker;
  combo_legs = record { elements = one_leg ∷ []; count = one; is_length = refl };
  order_combo_legs = record { elements = whole seven ∷ []; count = one; is_length = refl };
  smart_combo_routing_params = record {
    elements = (ticker, ticker) ∷ [];
    count = one;
    is_length = refl;
  };
  scale_init_level_size = seven;
  scale_subs_level_size = seven;
  scale_price_increment = whole two;
  scale_price_adjust_value = whole two;
  scale_price_adjust_interval = seven;
  scale_profit_offset = whole two;
  scale_auto_reset = true;
  scale_init_position = seven;
  scale_init_fill_qty = seven;
  scale_random_percent = true;
  hedge_type = ticker;
  hedge_param = ticker;
  opt_out_smart_routing = true;
  clearing_account = ticker;
  clearing_intent = ticker;
  not_held = true;
  has_neutral = true;
  neutral_contract_id = seven;
  neutral_delta = whole two;
  neutral_price = whole two;
  algo_strategy = ticker;
  algo_params = record { elements = (ticker, ticker) ∷ []; count = one; is_length = refl };
  solicited = true;
}

abbrev state_values : StateValues ℤ
state_values = record {
  status = ticker;
  initial_margin_before = ticker;
  maintenance_margin_before = ticker;
  equity_with_loan_before = ticker;
  initial_margin_change = ticker;
  maintenance_margin_change = ticker;
  equity_with_loan_change = ticker;
  initial_margin_after = ticker;
  maintenance_margin_after = ticker;
  equity_with_loan_after = ticker;
  commission = whole two;
  min_commission = whole two;
  max_commission = whole two;
  commission_currency = ticker;
  warning_text = ticker;
}

abbrev peg_values : PegValues ℤ
peg_values = record {
  reference_contract_id = seven;
  is_pegged_change_amount_decrease = true;
  pegged_change_amount = whole two;
  reference_change_amount = whole two;
  reference_exchange_id = ticker;
  conditions = record { elements = one_condition ∷ []; count = one; is_length = refl };
  conditions_ignore_rth = true;
  conditions_cancel_order = true;
  adjusted_order_type = ticker;
  trigger_price = whole two;
  trail_stop_price = whole two;
  limit_price_offset = whole two;
  adjusted_stop_price = whole two;
  adjusted_stop_limit_price = whole two;
  adjusted_trailing_amount = whole two;
  adjustable_trailing_unit = seven;
}

abbrev tail_values : TailValues ℤ
tail_values = record {
  soft_dollar_name = ticker;
  soft_dollar_value = ticker;
  soft_dollar_display_name = ticker;
  cash_qty = whole two;
  dont_use_auto_price_for_hedge = true;
  is_oms_container = true;
  discretionary_up_to_limit_price = true;
  use_price_mgmt_algo = true;
  duration = seven;
  post_to_ats = seven;
}

abbrev order_values : OpenOrderValues ℤ
order_values = record {
  order_id = two;
  contract = contract_values;
  head = head_values;
  prices = price_values;
  parts = part_values;
  what_if = true;
  state = state_values;
  randomize_size = true;
  randomize_price = false;
  peg = peg_values;
  tail = tail_values;
}

open_order_delivered_example :
    Delivers (ready no_clock (pos 161)) (msg_id 5 refl) (open_order_items order_values) (
      Callback.open_order
        (pos 2)
        (open_contract_of order_values)
        (open_order_of order_values)
        (state_of state_values)
      ∷ [])
open_order_delivered_example = open_order_delivered no_clock (pos 161) order_values refl

conditions_lost_example :
    Takes {L = Callback ℤ}
      (read_conditions 2 limit_order)
      (all_items condition_items (one_condition ∷ other_condition ∷ [])
        ++ bool true ∷ bool false ∷ [])
      (record limit_order {
        conditions = map blank (one_condition ∷ other_condition ∷ []);
        conditions_ignore_rth = true;
        conditions_cancel_order = false;
      })
      []
conditions_lost_example =
    conditions_lost limit_order (one_condition ∷ other_condition ∷ []) true false

init_order_condition-size_example :
    (length (to_fields (blank other_condition)) ≡ 3) × (cond_type (blank other_condition) ≡ pos 0)
unfolding init_order_condition zero_condition set_cond_type
init_order_condition-size_example = init_order_condition-size (pos 4) (blank other_condition) 3 refl
