-- ===== src/Decoder/OpenOrder.antt =====
-- `processOpenOrder` of decoder.go, part by part.
use ibapi.Common.{[], Bool, ◌&&◌, ℤ, pos, negsuc, at_least, below, zero, suc, has_text}
use ibapi.Wire.Float.{Floats}
use ibapi.Buffer.{
  pure, panic, call, ◌>>=◌, bad_capacity, read_int, read_int_check_unset, read_string, read_bool,
  read_float, read_float_check_unset,
}
use ibapi.Data.Contract.{Contract}
use ibapi.Data.Order.Values.{zero_order, zero_order_state}
use ibapi.Data.Order.{Order, OrderState, is_peg_bench}
use ibapi.Decoder.Wrapper.{Callback}
use ibapi.Decoder.Read.{D, read_if}
use ibapi.Decoder.Reference.{read_soft_dollar_tier}
use ibapi.Decoder.OrderFields.{
  read_order_contract, read_order_terms, read_order_hours, read_exempt_code, read_advisor,
  read_stock_range, read_fill_rules, read_volatility, read_trail,
}
use ibapi.Decoder.OrderFields.Parts.{
  read_combo_legs, read_order_combo_legs, read_scale, read_hedge, read_clearing, read_delta_neutral,
  read_algo, read_randomize, read_peg_bench, read_conditions,
}

module _ {F : Type 0} ⦃fl : Floats F⦄ where
  -- The ids of an open order.
  unfoldable pub read_open_ids : Order F → D F (Order F)
  read_open_ids o = do
    client_id ← read_int
    perm_id ← read_int
    pure (record o { client_id = client_id; perm_id = perm_id })

  -- From the trade on ETrade to the parent.
  unfoldable pub read_routing : Order F → D F (Order F)
  read_routing o = do
    e_trade_only ← read_bool
    firm_quote_only ← read_bool
    nbbo_price_cap ← read_float_check_unset
    parent_id ← read_int
    pure (record o {
      e_trade_only = e_trade_only;
      firm_quote_only = firm_quote_only;
      nbbo_price_cap = nbbo_price_cap;
      parent_id = parent_id;
    })

  -- Where the neutral order is settled.
  unfoldable pub read_neutral_settling : Order F → D F (Order F)
  read_neutral_settling o = do
    delta_neutral_contract_id ← read_int
    delta_neutral_settling_firm ← read_string
    delta_neutral_clearing_account ← read_string
    delta_neutral_clearing_intent ← read_string
    pure (record o {
      delta_neutral_contract_id = delta_neutral_contract_id;
      delta_neutral_settling_firm = delta_neutral_settling_firm;
      delta_neutral_clearing_account = delta_neutral_clearing_account;
      delta_neutral_clearing_intent = delta_neutral_clearing_intent;
    })

  -- How the neutral order opens or closes.
  unfoldable pub read_neutral_open_close : Order F → D F (Order F)
  read_neutral_open_close o = do
    delta_neutral_open_close ← read_string
    delta_neutral_short_sale ← read_bool
    delta_neutral_short_sale_slot ← read_int
    delta_neutral_designated_location ← read_string
    pure (record o {
      delta_neutral_open_close = delta_neutral_open_close;
      delta_neutral_short_sale = delta_neutral_short_sale;
      delta_neutral_short_sale_slot = delta_neutral_short_sale_slot;
      delta_neutral_designated_location = delta_neutral_designated_location;
    })

  -- The basis points.
  unfoldable pub read_basis_points : Order F → D F (Order F)
  read_basis_points o = do
    basis_points ← read_float_check_unset
    basis_points_type ← read_int_check_unset
    pure (record o { basis_points = basis_points; basis_points_type = basis_points_type })

  -- The open order up to the kind of its group.
  unfoldable pub read_open_head : ℤ → ℤ → Order F → D F (Order F)
  unfolding read_open_ids
  read_open_head version v o = do
    terms ← read_order_terms version v o
    ids ← read_open_ids terms
    hours ← read_order_hours ids
    _ ← read_string
    advisor ← read_advisor version hours
    exempt ← read_exempt_code version v advisor
    auction_strategy ← read_int
    range ← read_stock_range (record exempt { auction_strategy = auction_strategy })
    block_order ← read_bool
    read_fill_rules (record range { block_order = block_order })

  -- The open order from there to its basis points.
  unfoldable pub read_open_prices : ℤ → Order F → D F (Order F)
  unfolding read_routing read_neutral_settling read_neutral_open_close read_basis_points
  read_open_prices v o = do
    routing ← read_routing o
    vol ← read_volatility routing
    let is_neutral : Bool = has_text vol.delta_neutral_order_type
    settling ← read_if (at_least v 27 && is_neutral) (read_neutral_settling vol) vol
    open_close ← read_if (at_least v 31 && is_neutral) (read_neutral_open_close settling) settling
    trail ← read_trail v open_close
    read_basis_points trail

  -- From the legs to the algorithm, of the order and of its contract.
  unfoldable pub read_open_parts : ℤ → Contract F → Order F → D F (Contract F × Order F)
  read_open_parts v c o = do
    legs ← read_combo_legs v c
    order_legs ← read_order_combo_legs v o
    scale ← read_scale v order_legs
    hedge ← read_hedge v scale
    opt_out ← read_if (at_least v 25) read_bool hedge.opt_out_smart_routing
    clearing ← read_clearing v (record hedge { opt_out_smart_routing = opt_out })
    neutral ← read_delta_neutral v legs
    algo ← read_algo v clearing
    pure (neutral, algo)

  -- The state of the order.
  unfoldable pub read_order_state : ℤ → D F (OrderState F)
  read_order_state version = do
    status ← read_string
    initial_margin_before ← read_if (at_least version 142) read_string []
    maintenance_margin_before ← read_if (at_least version 142) read_string []
    equity_with_loan_before ← read_if (at_least version 142) read_string []
    initial_margin_change ← read_if (at_least version 142) read_string []
    maintenance_margin_change ← read_if (at_least version 142) read_string []
    equity_with_loan_change ← read_if (at_least version 142) read_string []
    initial_margin_after ← read_string
    maintenance_margin_after ← read_string
    equity_with_loan_after ← read_string
    commission ← read_float_check_unset
    min_commission ← read_float_check_unset
    max_commission ← read_float_check_unset
    commission_currency ← read_string
    warning_text ← read_string
    pure (record zero_order_state {
      status = status;
      initial_margin_before = initial_margin_before;
      maintenance_margin_before = maintenance_margin_before;
      equity_with_loan_before = equity_with_loan_before;
      initial_margin_change = initial_margin_change;
      maintenance_margin_change = maintenance_margin_change;
      equity_with_loan_change = equity_with_loan_change;
      initial_margin_after = initial_margin_after;
      maintenance_margin_after = maintenance_margin_after;
      equity_with_loan_after = equity_with_loan_after;
      commission = commission;
      min_commission = min_commission;
      max_commission = max_commission;
      commission_currency = commission_currency;
      warning_text = warning_text;
    })

  -- The adjusted order.
  unfoldable pub read_adjusted : Order F → D F (Order F)
  read_adjusted o = do
    adjusted_order_type ← read_string
    trigger_price ← read_float
    trail_stop_price ← read_float
    limit_price_offset ← read_float
    adjusted_stop_price ← read_float
    adjusted_stop_limit_price ← read_float
    adjusted_trailing_amount ← read_float
    adjustable_trailing_unit ← read_int
    pure (record o {
      adjusted_order_type = adjusted_order_type;
      trigger_price = trigger_price;
      trail_stop_price = trail_stop_price;
      limit_price_offset = limit_price_offset;
      adjusted_stop_price = adjusted_stop_price;
      adjusted_stop_limit_price = adjusted_stop_limit_price;
      adjusted_trailing_amount = adjusted_trailing_amount;
      adjustable_trailing_unit = adjustable_trailing_unit;
    })

  -- `make` with the count, and the conditions if there are any.
  unfoldable pub counted_conditions : Order F → ℤ → D F (Order F)
  counted_conditions o (negsuc n) = panic bad_capacity
  counted_conditions o (pos zero) = pure (record o { conditions = [] })
  counted_conditions o (pos (suc n)) = read_conditions (suc n) o

  unfoldable pub read_open_conditions : Order F → D F (Order F)
  unfolding counted_conditions
  read_open_conditions o = do n ← read_int; counted_conditions o n

  -- From the benchmark to the adjusted order.
  unfoldable pub read_pegged : Order F → D F (Order F)
  unfolding read_open_conditions read_adjusted
  read_pegged o = do
    pegged ← read_if (is_peg_bench o) (read_peg_bench o) o
    conditioned ← read_open_conditions pegged
    read_adjusted conditioned

  -- The fields that newer servers add at the end.
  unfoldable pub read_open_tail : ℤ → Order F → D F (Order F)
  unfolding read_soft_dollar_tier
  read_open_tail version o = do
    soft_dollar_tier ← read_if (at_least version 106) read_soft_dollar_tier o.soft_dollar_tier
    cash_qty ← read_if (at_least version 111) read_float o.cash_qty
    dont_use_auto_price_for_hedge ←
        read_if (at_least version 141) read_bool o.dont_use_auto_price_for_hedge
    is_oms_container ← read_if (at_least version 145) read_bool o.is_oms_container
    discretionary_up_to_limit_price ←
        read_if (at_least version 148) read_bool o.discretionary_up_to_limit_price
    use_price_mgmt_algo ← read_if (at_least version 151) read_bool o.use_price_mgmt_algo
    duration ← read_if (at_least version 158) read_int_check_unset o.duration
    post_to_ats ← read_if (at_least version 160) read_int_check_unset o.post_to_ats
    pure (record o {
      soft_dollar_tier = soft_dollar_tier;
      cash_qty = cash_qty;
      dont_use_auto_price_for_hedge = dont_use_auto_price_for_hedge;
      is_oms_container = is_oms_container;
      discretionary_up_to_limit_price = discretionary_up_to_limit_price;
      use_price_mgmt_algo = use_price_mgmt_algo;
      duration = duration;
      post_to_ats = post_to_ats;
    })

  -- `processOpenOrder`.
  unfoldable pub process_open_order : ℤ → D F (Unit {0})
  unfolding read_open_head read_open_prices read_open_parts read_order_state read_pegged
      read_open_tail
  process_open_order version = do
    v ← read_if (below version 145) read_int version
    order_id ← read_int
    c ← read_order_contract v
    head ← read_open_head version v (record zero_order { order_id = order_id })
    prices ← read_open_prices v head
    parts ← read_open_parts v c prices
    what_if ← read_bool
    state ← read_order_state version
    randomize ← read_randomize v (record (parts.1) { what_if = what_if })
    pegged ← read_if (at_least version 102) (read_pegged randomize) randomize
    o ← read_open_tail version pegged
    call (Callback.open_order order_id (parts.0) o state)
