-- ===== src/Decoder/Account.antt =====
-- The account and position messages of decoder.go.
use ibapi.Common.{[], ◌&&◌, Option, none, some, Bytes, ℤ, pos, int_eq, at_least, if◌then◌else◌}
use ibapi.Wire.Float.{Floats}
use ibapi.Wire.Frame.{split_at}
use ibapi.Buffer.{bad_time, pure, panic, call, ◌>>=◌, read_int, read_string, read_float}
use ibapi.Decoder.Wrapper.{Callback}
use ibapi.Decoder.Read.{D, read_if}
use ibapi.Data.Contract.{zero_contract}
use ibapi.Decoder.Wrapper.{AccountTime}

module _ {F : Type 0} ⦃fl : Floats F⦄ where
  -- `wrapNextValidID`.
  unfoldable pub wrap_next_valid_id : D F (Unit {0})
  wrap_next_valid_id = do _ ← read_string; req_id ← read_int; call (Callback.next_valid_id req_id)

  -- `wrapUpdateAccountValue`.
  unfoldable pub wrap_update_account_value : D F (Unit {0})
  wrap_update_account_value = do
    _ ← read_string
    tag ← read_string
    val ← read_string
    currency ← read_string
    acc_name ← read_string
    call (Callback.update_account_value tag val currency acc_name)

  -- `wrapError`.
  unfoldable pub wrap_error : D F (Unit {0})
  wrap_error = do
    _ ← read_string
    req_id ← read_int
    error_code ← read_int
    error_string ← read_string
    call (Callback.error req_id error_code error_string)

  -- `wrapAccountSummary`.
  unfoldable pub wrap_account_summary : D F (Unit {0})
  wrap_account_summary = do
    _ ← read_string
    req_id ← read_int
    account ← read_string
    tag ← read_string
    value ← read_string
    currency ← read_string
    call (Callback.account_summary req_id account tag value currency)

  -- `wrapAccountUpdateMulti`.
  unfoldable pub wrap_account_update_multi : D F (Unit {0})
  wrap_account_update_multi = do
    _ ← read_string
    req_id ← read_int
    acc ← read_string
    model_code ← read_string
    tag ← read_string
    val ← read_string
    currency ← read_string
    call (Callback.account_update_multi req_id acc model_code tag val currency)

  -- `wrapAccountDownloadEnd`.
  unfoldable pub wrap_account_download_end : D F (Unit {0})
  wrap_account_download_end = do
    _ ← read_string
    acc_name ← read_string
    call (Callback.account_download_end acc_name)

  -- `wrapPositionEnd`.
  unfoldable pub wrap_position_end : D F (Unit {0})
  wrap_position_end = call Callback.position_end

  -- `wrapAccountSummaryEnd`.
  unfoldable pub wrap_account_summary_end : D F (Unit {0})
  wrap_account_summary_end = do
    _ ← read_string
    req_id ← read_int
    call (Callback.account_summary_end req_id)

  -- `wrapPositionMultiEnd`.
  unfoldable pub wrap_position_multi_end : D F (Unit {0})
  wrap_position_multi_end = do
    _ ← read_string
    req_id ← read_int
    call (Callback.position_multi_end req_id)

  -- `wrapAccountUpdateMultiEnd`.
  unfoldable pub wrap_account_update_multi_end : D F (Unit {0})
  wrap_account_update_multi_end = do
    _ ← read_string
    req_id ← read_int
    call (Callback.account_update_multi_end req_id)

  -- `wrapReceiveFA`.
  unfoldable pub wrap_receive_fa : D F (Unit {0})
  wrap_receive_fa = do
    _ ← read_string
    fa_data ← read_int
    cxml ← read_string
    call (Callback.receive_fa fa_data cxml)

  -- `processReplaceFAEndMsg`.
  unfoldable pub process_replace_fa_end_msg : D F (Unit {0})
  process_replace_fa_end_msg = do
    req_id ← read_int
    reply ← read_string
    call (Callback.replace_fa_end req_id reply)

  -- `wrapManagedAccounts`.
  unfoldable pub wrap_managed_accounts : D F (Unit {0})
  unfolding split_at
  wrap_managed_accounts = do
    _ ← read_string
    acc_names ← read_string
    call (Callback.managed_accounts (split_at b',' [] acc_names))

  -- `wrapUpdateAccountTime`. `clock` is `time.ParseInLocation("04:05", …)` with the date of
  -- `time.Now()` added; `none` is the error.
  unfoldable pub wrap_update_account_time : (Bytes → Option AccountTime) → D F (Unit {0})
  wrap_update_account_time clock = do
    _ ← read_string
    ts ← read_string
    elim (clock ts) [ none ↦ panic bad_time | some t ↦ call (Callback.update_account_time t) ]

  -- `processPnLMsg`.
  unfoldable pub process_pnl_msg : ℤ → D F (Unit {0})
  process_pnl_msg version = do
    req_id ← read_int
    daily_pnl ← read_float
    unrealized_pnl ← read_if (at_least version 129) read_float (fl.of_int (pos 0))
    realized_pnl ← read_if (at_least version 135) read_float (fl.of_int (pos 0))
    call (Callback.pnl req_id daily_pnl unrealized_pnl realized_pnl)

  -- `processPnLSingleMsg`.
  unfoldable pub process_pnl_single_msg : ℤ → D F (Unit {0})
  process_pnl_single_msg version = do
    req_id ← read_int
    position ← read_float
    daily_pnl ← read_float
    unrealized_pnl ← read_if (at_least version 129) read_float (fl.of_int (pos 0))
    realized_pnl ← read_if (at_least version 135) read_float (fl.of_int (pos 0))
    value ← read_float
    call (Callback.pnl_single req_id position daily_pnl unrealized_pnl realized_pnl value)

  -- `float64(readInt())` from before fractional positions.
  unfoldable pub read_position : ℤ → D F F
  read_position version =
      if at_least version 101 then read_float else read_int >>= λ p. pure (fl.of_int p)

  -- `processPositionDataMsg`.
  unfoldable pub process_position_data_msg : ℤ → D F (Unit {0})
  unfolding read_position
  process_position_data_msg version = do
    v ← read_int
    acc ← read_string
    contract_id ← read_int
    symbol ← read_string
    security_type ← read_string
    expiry ← read_string
    strike ← read_float
    right ← read_string
    multiplier ← read_string
    exchange ← read_string
    currency ← read_string
    local_symbol ← read_string
    trading_class ← read_if (at_least v 2) read_string []
    p ← read_position version
    avg_cost ← read_if (at_least v 3) read_float (fl.of_int (pos 0))
    let c = record zero_contract {
      contract_id = contract_id;
      symbol = symbol;
      security_type = security_type;
      expiry = expiry;
      strike = strike;
      right = right;
      multiplier = multiplier;
      exchange = exchange;
      currency = currency;
      local_symbol = local_symbol;
      trading_class = trading_class;
    }
    call (Callback.position acc c p avg_cost)

  -- `processPositionMultiMsg`.
  unfoldable pub process_position_multi_msg : D F (Unit {0})
  process_position_multi_msg = do
    _ ← read_string
    req_id ← read_int
    acc ← read_string
    contract_id ← read_int
    symbol ← read_string
    security_type ← read_string
    expiry ← read_string
    strike ← read_float
    right ← read_string
    multiplier ← read_string
    exchange ← read_string
    currency ← read_string
    local_symbol ← read_string
    trading_class ← read_string
    p ← read_float
    avg_cost ← read_float
    model_code ← read_string
    let c = record zero_contract {
      contract_id = contract_id;
      symbol = symbol;
      security_type = security_type;
      expiry = expiry;
      strike = strike;
      right = right;
      multiplier = multiplier;
      exchange = exchange;
      currency = currency;
      local_symbol = local_symbol;
      trading_class = trading_class;
    }
    call (Callback.position_multi req_id acc model_code c p avg_cost)

  -- `processPortfolioValueMsg`.
  unfoldable pub process_portfolio_value_msg : ℤ → D F (Unit {0})
  unfolding read_position
  process_portfolio_value_msg version = do
    v ← read_int
    contract_id ← read_int
    symbol ← read_string
    security_type ← read_string
    expiry ← read_string
    strike ← read_float
    right ← read_string
    multiplier ← read_if (at_least v 7) read_string []
    primary_exchange ← read_if (at_least v 7) read_string []
    currency ← read_string
    local_symbol ← read_string
    trading_class ← read_if (at_least v 8) read_string []
    position ← read_position version
    market_price ← read_float
    market_value ← read_float
    average_cost ← read_float
    unrealized_pnl ← read_float
    realized_pnl ← read_float
    acc_name ← read_string
    primary ← read_if (int_eq v (pos 6) && int_eq version (pos 39)) read_string primary_exchange
    let c = record zero_contract {
      contract_id = contract_id;
      symbol = symbol;
      security_type = security_type;
      expiry = expiry;
      strike = strike;
      right = right;
      multiplier = multiplier;
      primary_exchange = primary;
      currency = currency;
      local_symbol = local_symbol;
      trading_class = trading_class;
    }
    call (
        Callback.update_portfolio c position market_price market_value average_cost unrealized_pnl
          realized_pnl acc_name)
