-- ===== src/Decoder/CompletedOrder.antt =====
-- `processCompletedOrderMsg` of decoder.go, part by part.
use ibapi.Common.{Bool, ◌&&◌, ℤ, pos, negsuc, at_least, zero, suc, has_text}
use ibapi.Wire.Float.{Floats}
use ibapi.Wire.Encode.{unset_int}
use ibapi.Buffer.{pure, call, ◌>>=◌, read_int, read_string, read_bool, read_float}
use ibapi.Data.Contract.{Contract}
use ibapi.Data.Order.Values.{zero_order, zero_order_state}
use ibapi.Data.Order.{Order, OrderState, is_peg_bench}
use ibapi.Decoder.Wrapper.{Callback}
use ibapi.Decoder.Read.{D, read_if}
use ibapi.Decoder.OrderFields.{
  read_order_contract, read_order_terms, read_order_hours, read_exempt_code, read_advisor,
  read_stock_range, read_fill_rules, read_volatility, read_trail,
}
use ibapi.Decoder.OrderFields.Parts.{
  read_combo_legs, read_order_combo_legs, read_scale, read_hedge, read_clearing, read_delta_neutral,
  read_algo, read_randomize, read_peg_bench, read_conditions,
}

module _ {F : Type 0} ⦃fl : Floats F⦄ where
  -- The short sale of the neutral order.
  unfoldable pub read_completed_neutral : Order F → D F (Order F)
  read_completed_neutral o = do
    delta_neutral_short_sale ← read_bool
    delta_neutral_short_sale_slot ← read_int
    delta_neutral_designated_location ← read_string
    pure (record o {
      delta_neutral_short_sale = delta_neutral_short_sale;
      delta_neutral_short_sale_slot = delta_neutral_short_sale_slot;
      delta_neutral_designated_location = delta_neutral_designated_location;
    })

  -- The completed order up to its trailing stop. The version of the message is `UNSETINT`.
  unfoldable pub read_completed_head : ℤ → ℤ → Order F → D F (Order F)
  unfolding read_completed_neutral
  read_completed_head version v o = do
    terms ← read_order_terms version v o
    perm_id ← read_int
    hours ← read_order_hours (record terms { perm_id = perm_id })
    advisor ← read_advisor version hours
    exempt ← read_exempt_code version v advisor
    range ← read_stock_range exempt
    rules ← read_fill_rules range
    vol ← read_volatility rules
    let is_neutral : Bool = has_text vol.delta_neutral_order_type
    id ← read_if (at_least v 27 && is_neutral) read_int vol.delta_neutral_contract_id
    let settling : Order F = record vol { delta_neutral_contract_id = id }
    neutral ← read_if (at_least v 31 && is_neutral) (read_completed_neutral settling) settling
    read_trail v neutral

  -- From the legs to the algorithm, of the order and of its contract.
  unfoldable pub read_completed_parts : ℤ → Contract F → Order F → D F (Contract F × Order F)
  read_completed_parts v c o = do
    legs ← read_combo_legs v c
    order_legs ← read_order_combo_legs v o
    scale ← read_scale v order_legs
    hedge ← read_hedge v scale
    clearing ← read_clearing v hedge
    neutral ← read_delta_neutral v legs
    algo ← read_algo v clearing
    pure (neutral, algo)

  -- The conditions, if the count is positive.
  unfoldable pub read_completed_conditions : Order F → D F (Order F)
  read_completed_conditions o = do n ← read_int; go n
    where
      go : ℤ → D F (Order F)
      go (negsuc n) = pure o
      go (pos zero) = pure o
      go (pos (suc n)) = read_conditions (suc n) o

  -- The benchmark and the conditions.
  unfoldable pub read_completed_pegged : Order F → D F (Order F)
  unfolding read_completed_conditions
  read_completed_pegged o = do
    pegged ← read_if (is_peg_bench o) (read_peg_bench o) o
    read_completed_conditions pegged

  -- From the trailing stop to the parent.
  unfoldable pub read_completed_tail : ℤ → Order F → D F (Order F)
  read_completed_tail version o = do
    trail_stop_price ← read_float
    limit_price_offset ← read_float
    cash_qty ← read_if (at_least version 111) read_float o.cash_qty
    dont_use_auto_price_for_hedge ←
        read_if (at_least version 141) read_bool o.dont_use_auto_price_for_hedge
    is_oms_container ← read_if (at_least version 145) read_bool o.is_oms_container
    auto_cancel_date ← read_string
    filled_quantity ← read_float
    ref_futures_con_id ← read_int
    auto_cancel_parent ← read_bool
    shareholder ← read_string
    imbalance_only ← read_bool
    route_marketable_to_bbo ← read_bool
    parent_perm_id ← read_int
    pure (record o {
      trail_stop_price = trail_stop_price;
      limit_price_offset = limit_price_offset;
      cash_qty = cash_qty;
      dont_use_auto_price_for_hedge = dont_use_auto_price_for_hedge;
      is_oms_container = is_oms_container;
      auto_cancel_date = auto_cancel_date;
      filled_quantity = filled_quantity;
      ref_futures_con_id = ref_futures_con_id;
      auto_cancel_parent = auto_cancel_parent;
      shareholder = shareholder;
      imbalance_only = imbalance_only;
      route_marketable_to_bbo = route_marketable_to_bbo;
      parent_perm_id = parent_perm_id;
    })

  -- `processCompletedOrderMsg`.
  unfoldable pub process_completed_order_msg : ℤ → D F (Unit {0})
  unfolding read_completed_head read_completed_parts read_completed_pegged read_completed_tail
  process_completed_order_msg version = do
    c ← read_order_contract version
    head ← read_completed_head version unset_int zero_order
    parts ← read_completed_parts unset_int c head
    status ← read_string
    randomize ← read_randomize unset_int (parts.1)
    pegged ← read_if (at_least version 102) (read_completed_pegged randomize) randomize
    o ← read_completed_tail version pegged
    completed_time ← read_string
    completed_status ← read_string
    let state : OrderState F = record zero_order_state {
      status = status;
      completed_time = completed_time;
      completed_status = completed_status;
    }
    call (Callback.completed_order (parts.0) o state)
