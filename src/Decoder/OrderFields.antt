-- ===== src/Decoder/OrderFields.antt =====
-- The parts of an order message that open and completed orders share (decoder.go). `version` is the
-- server's and `v` the message's; a field that a version lacks is left as it is.
pub mod Parts
use ibapi.Common.{[], ℤ, pos, at_least, below, int_eq, if◌then◌else◌}
use ibapi.Wire.Float.{Floats}
use ibapi.Buffer.{
  pure, ◌>>=◌, read_int, read_int_check_unset, read_string, read_bool, read_float,
  read_float_check_unset,
}
use ibapi.Data.Contract.{Contract, zero_contract}
use ibapi.Data.Order.{Order}
use ibapi.Decoder.Read.{D, read_if}

module _ {F : Type 0} ⦃fl : Floats F⦄ where
  -- The contract.
  unfoldable pub read_order_contract : ℤ → D F (Contract F)
  read_order_contract v = do
    contract_id ← read_int
    symbol ← read_string
    security_type ← read_string
    expiry ← read_string
    strike ← read_float
    right ← read_string
    multiplier ← read_if (at_least v 32) read_string []
    exchange ← read_string
    currency ← read_string
    local_symbol ← read_string
    trading_class ← read_if (at_least v 32) read_string []
    pure (record zero_contract {
      contract_id = contract_id;
      symbol = symbol;
      security_type = security_type;
      expiry = expiry;
      strike = strike;
      right = right;
      multiplier = multiplier;
      exchange = exchange;
      currency = currency;
      local_symbol = local_symbol;
      trading_class = trading_class;
    })

  -- A quantity: an integer on the wire of older servers.
  unfoldable pub read_quantity : ℤ → D F F
  read_quantity version =
      if at_least version 101 then read_float else (do n ← read_int; pure (fl.of_int n))

  -- From the action to the reference.
  unfoldable pub read_order_terms : ℤ → ℤ → Order F → D F (Order F)
  read_order_terms version v o = do
    action ← read_string
    total_quantity ← read_quantity version
    order_type ← read_string
    limit_price ← if below v 29 then read_float else read_float_check_unset
    aux_price ← if below v 30 then read_float else read_float_check_unset
    tif ← read_string
    oca_group ← read_string
    account ← read_string
    open_close ← read_string
    origin ← read_int
    order_ref ← read_string
    pure (record o {
      action = action;
      total_quantity = total_quantity;
      order_type = order_type;
      limit_price = limit_price;
      aux_price = aux_price;
      tif = tif;
      oca_group = oca_group;
      account = account;
      open_close = open_close;
      origin = origin;
      order_ref = order_ref;
    })

  -- From the regular trading hours to the time from which the order holds.
  unfoldable pub read_order_hours : Order F → D F (Order F)
  read_order_hours o = do
    outside_rth ← read_bool
    hidden ← read_bool
    discretionary_amount ← read_float
    good_after_time ← read_string
    pure (record o {
      outside_rth = outside_rth;
      hidden = hidden;
      discretionary_amount = discretionary_amount;
      good_after_time = good_after_time;
    })

  -- The exempt code of a short sale.
  unfoldable pub read_exempt_code : ℤ → ℤ → Order F → D F (Order F)
  read_exempt_code version v o =
      if int_eq version (pos 51)
      then (do _ ← read_string; pure o)
      else if at_least v 23
      then (do exempt_code ← read_int; pure (record o { exempt_code = exempt_code }))
      else pure o

  -- From the financial advisor's group to the place of a short sale.
  unfoldable pub read_advisor : ℤ → Order F → D F (Order F)
  read_advisor version o = do
    fa_group ← read_string
    fa_method ← read_string
    fa_percentage ← read_string
    fa_profile ← read_string
    model_code ← read_if (at_least version 103) read_string o.model_code
    good_till_date ← read_string
    rule80a ← read_string
    percent_offset ← read_float_check_unset
    settling_firm ← read_string
    short_sale_slot ← read_int
    designated_location ← read_string
    pure (record o {
      fa_group = fa_group;
      fa_method = fa_method;
      fa_percentage = fa_percentage;
      fa_profile = fa_profile;
      model_code = model_code;
      good_till_date = good_till_date;
      rule80a = rule80a;
      percent_offset = percent_offset;
      settling_firm = settling_firm;
      short_sale_slot = short_sale_slot;
      designated_location = designated_location;
    })

  -- From the starting price of a box order to the displayed size.
  unfoldable pub read_stock_range : Order F → D F (Order F)
  read_stock_range o = do
    starting_price ← read_float_check_unset
    stock_ref_price ← read_float_check_unset
    delta ← read_float_check_unset
    stock_range_lower ← read_float_check_unset
    stock_range_upper ← read_float_check_unset
    display_size ← read_int
    pure (record o {
      starting_price = starting_price;
      stock_ref_price = stock_ref_price;
      delta = delta;
      stock_range_lower = stock_range_lower;
      stock_range_upper = stock_range_upper;
      display_size = display_size;
    })

  -- From the sweep to the kind of the group that cancels itself.
  unfoldable pub read_fill_rules : Order F → D F (Order F)
  read_fill_rules o = do
    sweep_to_fill ← read_bool
    all_or_none ← read_bool
    min_qty ← read_int_check_unset
    oca_type ← read_int
    pure (record o {
      sweep_to_fill = sweep_to_fill;
      all_or_none = all_or_none;
      min_qty = min_qty;
      oca_type = oca_type;
    })

  -- From the trigger to the price of the neutral order.
  unfoldable pub read_volatility : Order F → D F (Order F)
  read_volatility o = do
    trigger_method ← read_int
    volatility ← read_float_check_unset
    volatility_type ← read_int
    delta_neutral_order_type ← read_string
    delta_neutral_aux_price ← read_float_check_unset
    pure (record o {
      trigger_method = trigger_method;
      volatility = volatility;
      volatility_type = volatility_type;
      delta_neutral_order_type = delta_neutral_order_type;
      delta_neutral_aux_price = delta_neutral_aux_price;
    })

  -- From the continuous update to the trailing percentage.
  unfoldable pub read_trail : ℤ → Order F → D F (Order F)
  read_trail v o = do
    continuous_update ← read_bool
    reference_price_type ← read_int
    trail_stop_price ← read_float_check_unset
    trailing_percent ← read_if (at_least v 30) read_float_check_unset o.trailing_percent
    pure (record o {
      continuous_update = continuous_update;
      reference_price_type = reference_price_type;
      trail_stop_price = trail_stop_price;
      trailing_percent = trailing_percent;
    })
