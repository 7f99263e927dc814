-- ===== src/Decoder/Orders.antt =====
-- The messages of decoder.go about orders and their executions.
use ibapi.Common.{[], ℤ, pos, negsuc, at_least, below}
use ibapi.Wire.Float.{Floats}
use ibapi.Buffer.{pure, call, ◌>>=◌, read_int, read_string, read_float}
use ibapi.Decoder.Wrapper.{Callback}
use ibapi.Decoder.Read.{D, read_if}
use ibapi.Data.Contract.{Contract, zero_contract}
use ibapi.Data.Market.{CommissionReport, Execution}

module _ {F : Type 0} ⦃fl : Floats F⦄ where
  -- `wrapOpenOrderEnd`.
  unfoldable pub wrap_open_order_end : D F (Unit {0})
  wrap_open_order_end = call Callback.open_order_end

  -- `wrapExecDetailsEnd`.
  unfoldable pub wrap_exec_details_end : D F (Unit {0})
  wrap_exec_details_end = do
    _ ← read_string
    req_id ← read_int
    call (Callback.exec_details_end req_id)

  -- `processOrderBoundMsg`.
  unfoldable pub process_order_bound_msg : D F (Unit {0})
  process_order_bound_msg = do
    req_id ← read_int
    api_client_id ← read_int
    api_order_id ← read_int
    call (Callback.order_bound req_id api_client_id api_order_id)

  -- `processCompletedOrdersEndMsg`.
  unfoldable pub process_completed_orders_end_msg : D F (Unit {0})
  process_completed_orders_end_msg = call Callback.completed_orders_end

  -- `processOrderStatusMsg`.
  unfoldable pub process_order_status_msg : ℤ → D F (Unit {0})
  process_order_status_msg version = do
    _ ← read_if (below version 131) read_string []
    order_id ← read_int
    status ← read_string
    filled ← read_float
    remaining ← read_float
    avg_filled_price ← read_float
    perm_id ← read_int
    parent_id ← read_int
    last_fill_price ← read_float
    client_id ← read_int
    why_held ← read_string
    mkt_cap_price ← read_if (at_least version 131) read_float (fl.of_int (pos 0))
    call (
        Callback.order_status order_id status filled remaining avg_filled_price perm_id parent_id
          last_fill_price client_id why_held mkt_cap_price)

  -- `processDeltaNeutralValidationMsg`.
  unfoldable pub process_delta_neutral_validation_msg : D F (Unit {0})
  process_delta_neutral_validation_msg = do
    _ ← read_string
    req_id ← read_int
    contract_id ← read_int
    delta ← read_float
    price ← read_float
    call (
        Callback.delta_neutral_validation req_id
          (record { contract_id = contract_id; delta = delta; price = price }))

  -- `processCommissionReportMsg`.
  unfoldable pub process_commission_report_msg : D F (Unit {0})
  process_commission_report_msg = do
    _ ← read_string
    exec_id ← read_string
    commission ← read_float
    currency ← read_string
    realized_pnl ← read_float
    yield ← read_float
    yield_redemption_date ← read_int
    let report : CommissionReport F = record {
      exec_id = exec_id;
      commission = commission;
      currency = currency;
      realized_pnl = realized_pnl;
      yield = yield;
      yield_redemption_date = yield_redemption_date;
    }
    call (Callback.commission_report report)

  -- The contract of `processExecutionDataMsg`.
  unfoldable pub read_execution_contract : ℤ → D F (Contract F)
  read_execution_contract v = do
    contract_id ← read_int
    symbol ← read_string
    security_type ← read_string
    expiry ← read_string
    strike ← read_float
    right ← read_string
    multiplier ← read_if (at_least v 9) read_string []
    exchange ← read_string
    currency ← read_string
    local_symbol ← read_string
    trading_class ← read_if (at_least v 10) read_string []
    pure (record zero_contract {
      contract_id = contract_id;
      symbol = symbol;
      security_type = security_type;
      expiry = expiry;
      strike = strike;
      right = right;
      multiplier = multiplier;
      exchange = exchange;
      currency = currency;
      local_symbol = local_symbol;
      trading_class = trading_class;
    })

  -- The execution of `processExecutionDataMsg`.
  unfoldable pub read_execution : ℤ → ℤ → ℤ → D F (Execution F)
  read_execution version v order_id = do
    exec_id ← read_string
    time ← read_string
    account_code ← read_string
    exchange ← read_string
    side ← read_string
    shares ← read_float
    price ← read_float
    perm_id ← read_int
    client_id ← read_int
    liquidation ← read_int
    cum_qty ← read_if (at_least v 6) read_float (fl.of_int (pos 0))
    average_price ← read_if (at_least v 6) read_float (fl.of_int (pos 0))
    order_ref ← read_if (at_least v 8) read_string []
    ev_rule ← read_if (at_least v 9) read_string []
    ev_multiplier ← read_if (at_least v 9) read_float (fl.of_int (pos 0))
    model_code ← read_if (at_least version 103) read_string []
    last_liquidity ← read_if (at_least version 136) read_int (pos 0)
    pure (record {
      exec_id = exec_id;
      time = time;
      account_code = account_code;
      exchange = exchange;
      side = side;
      shares = shares;
      price = price;
      perm_id = perm_id;
      client_id = client_id;
      order_id = order_id;
      liquidation = liquidation;
      cum_qty = cum_qty;
      average_price = average_price;
      order_ref = order_ref;
      ev_rule = ev_rule;
      ev_multiplier = ev_multiplier;
      model_code = model_code;
      last_liquidity = last_liquidity;
    })

  -- `processExecutionDataMsg`.
  unfoldable pub process_execution_data_msg : ℤ → D F (Unit {0})
  unfolding read_execution_contract read_execution
  process_execution_data_msg version = do
    v ← read_if (below version 136) read_int version
    req_id ← read_if (at_least v 7) read_int (negsuc 0)
    order_id ← read_int
    c ← read_execution_contract v
    e ← read_execution version v order_id
    call (Callback.exec_details req_id c e)
