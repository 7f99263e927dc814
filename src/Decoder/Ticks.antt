-- ===== src/Decoder/Ticks.antt =====
-- The tick messages of decoder.go.
use ibapi.Common.{false, ◌&&◌, ◌||◌, Option, none, some, ℤ, pos, int_eq, at_least, if◌then◌else◌}
use ibapi.Wire.Float.{Floats}
use ibapi.Buffer.{pure, call, ◌>>=◌, ◌>>◌, read_int, read_string, read_bool, read_float}
use ibapi.Decoder.Wrapper.{Callback}
use ibapi.Decoder.Read.{D, has_bit}
use ibapi.Data.Market.{TickAttrib, TickAttribLast}

-- The attributes that `processTickPriceMsg` reads off the mask.
unfoldable pub tick_attrib : ℤ → ℤ → TickAttrib
tick_attrib version attr_mask =
    if at_least version 109
    then record {
      can_auto_execute = has_bit 0 attr_mask;
      past_limit = has_bit 1 attr_mask;
      pre_open = at_least version 132 && has_bit 2 attr_mask;
    }
    else record {
      can_auto_execute = int_eq attr_mask (pos 1);
      past_limit = false;
      pre_open = false;
    }

-- The tick type of the size that comes with a price; `none` is `NOT_SET`.
unfoldable pub size_tick_type : ℤ → Option ℤ
size_tick_type t =
    if int_eq t (pos 1)
    then some (pos 0)
    else if int_eq t (pos 2)
    then some (pos 3)
    else if int_eq t (pos 4)
    then some (pos 5)
    else if int_eq t (pos 66)
    then some (pos 69)
    else if int_eq t (pos 67)
    then some (pos 70)
    else if int_eq t (pos 68)
    then some (pos 71)
    else none

-- The attributes of a last tick.
unfoldable pub tick_attrib_last : ℤ → TickAttribLast
tick_attrib_last mask = record { past_limit = has_bit 0 mask; unreported = has_bit 1 mask }

module _ {F : Type 0} ⦃fl : Floats F⦄ where
  -- `wrapTickSize`.
  unfoldable pub wrap_tick_size : D F (Unit {0})
  wrap_tick_size = do
    _ ← read_string
    req_id ← read_int
    tick_type ← read_int
    size ← read_float
    call (Callback.tick_size req_id tick_type size)

  -- `wrapTickGeneric`.
  unfoldable pub wrap_tick_generic : D F (Unit {0})
  wrap_tick_generic = do
    _ ← read_string
    req_id ← read_int
    tick_type ← read_int
    value ← read_float
    call (Callback.tick_generic req_id tick_type value)

  -- `wrapTickString`.
  unfoldable pub wrap_tick_string : D F (Unit {0})
  wrap_tick_string = do
    _ ← read_string
    req_id ← read_int
    tick_type ← read_int
    value ← read_string
    call (Callback.tick_string req_id tick_type value)

  -- `wrapTickEFP`.
  unfoldable pub wrap_tick_efp : D F (Unit {0})
  wrap_tick_efp = do
    _ ← read_string
    req_id ← read_int
    tick_type ← read_int
    basis_points ← read_float
    formatted_basis_points ← read_string
    total_dividends ← read_float
    hold_days ← read_int
    future_last_trade_date ← read_string
    dividend_impact ← read_float
    dividends_to_last_trade_date ← read_float
    call (
        Callback.tick_efp req_id tick_type basis_points formatted_basis_points total_dividends
          hold_days future_last_trade_date dividend_impact dividends_to_last_trade_date)

  -- `wrapMarketDataType`.
  unfoldable pub wrap_market_data_type : D F (Unit {0})
  wrap_market_data_type = do
    _ ← read_string
    req_id ← read_int
    market_data_type ← read_int
    call (Callback.market_data_type req_id market_data_type)

  -- `wrapTickSnapshotEnd`.
  unfoldable pub wrap_tick_snapshot_end : D F (Unit {0})
  wrap_tick_snapshot_end = do
    _ ← read_string
    req_id ← read_int
    call (Callback.tick_snapshot_end req_id)

  -- `processTickReqParams`.
  unfoldable pub process_tick_req_params : D F (Unit {0})
  process_tick_req_params = do
    ticker_id ← read_int
    min_tick ← read_float
    bbo_exchange ← read_string
    snapshot_permissions ← read_int
    call (Callback.tick_req_params ticker_id min_tick bbo_exchange snapshot_permissions)

  -- `processTickNews`.
  unfoldable pub process_tick_news : D F (Unit {0})
  process_tick_news = do
    ticker_id ← read_int
    time_stamp ← read_int
    provider_code ← read_string
    article_id ← read_string
    headline ← read_string
    extra_data ← read_string
    call (Callback.tick_news ticker_id time_stamp provider_code article_id headline extra_data)

  -- `processRerouteMktDataReq`.
  unfoldable pub process_reroute_mkt_data_req : D F (Unit {0})
  process_reroute_mkt_data_req = do
    req_id ← read_int
    contract_id ← read_int
    exchange ← read_string
    call (Callback.reroute_mkt_data_req req_id contract_id exchange)

  -- `processRerouteMktDepthReq`.
  unfoldable pub process_reroute_mkt_depth_req : D F (Unit {0})
  process_reroute_mkt_depth_req = do
    req_id ← read_int
    contract_id ← read_int
    exchange ← read_string
    call (Callback.reroute_mkt_depth_req req_id contract_id exchange)

  -- `wrapUpdateMktDepth`.
  unfoldable pub wrap_update_mkt_depth : D F (Unit {0})
  wrap_update_mkt_depth = do
    _ ← read_string
    req_id ← read_int
    position ← read_int
    operation ← read_int
    side ← read_int
    price ← read_float
    size ← read_float
    call (Callback.update_mkt_depth req_id position operation side price size)

  -- `wrapUpdateMktDepthL2`.
  unfoldable pub wrap_update_mkt_depth_l2 : D F (Unit {0})
  wrap_update_mkt_depth_l2 = do
    _ ← read_string
    req_id ← read_int
    position ← read_int
    market_maker ← read_string
    operation ← read_int
    side ← read_int
    price ← read_float
    size ← read_float
    is_smart_depth ← read_bool
    call (
        Callback.update_mkt_depth_l2 req_id position market_maker operation side price size
          is_smart_depth)

  unfoldable pub call_size : ℤ → F → Option ℤ → D F (Unit {0})
  call_size req_id size none = pure tt
  call_size req_id size (some t) = call (Callback.tick_size req_id t size)

  -- `processTickPriceMsg`.
  unfoldable pub process_tick_price_msg : ℤ → D F (Unit {0})
  unfolding call_size
  process_tick_price_msg version = do
    _ ← read_string
    req_id ← read_int
    tick_type ← read_int
    price ← read_float
    size ← read_float
    attr_mask ← read_int
    call (Callback.tick_price req_id tick_type price (tick_attrib version attr_mask))
    call_size req_id size (size_tick_type tick_type)

  unfoldable pub all_last : ℤ → ℤ → ℤ → D F (Unit {0})
  all_last req_id tick_type time = do
    price ← read_float
    size ← read_float
    mask ← read_int
    exchange ← read_string
    special_conditions ← read_string
    call (
        Callback.tick_by_tick_all_last req_id tick_type time price size (tick_attrib_last mask)
          exchange special_conditions)

  unfoldable pub bid_ask : ℤ → ℤ → D F (Unit {0})
  bid_ask req_id time = do
    bid_price ← read_float
    ask_price ← read_float
    bid_size ← read_float
    ask_size ← read_float
    mask ← read_int
    call (
        Callback.tick_by_tick_bid_ask req_id time bid_price ask_price bid_size ask_size
          (record { bid_past_low = has_bit 0 mask; ask_past_high = has_bit 1 mask }))

  unfoldable pub mid_point : ℤ → ℤ → D F (Unit {0})
  mid_point req_id time = do
    price ← read_float
    call (Callback.tick_by_tick_mid_point req_id time price)

  unfoldable pub by_type : ℤ → ℤ → ℤ → D F (Unit {0})
  by_type req_id tick_type time =
      if int_eq tick_type (pos 1) || int_eq tick_type (pos 2)
      then all_last req_id tick_type time
      else if int_eq tick_type (pos 3)
      then bid_ask req_id time
      else if int_eq tick_type (pos 4)
      then mid_point req_id time
      else pure tt

  -- `processTickByTickMsg`: a type that the switch does not name is passed over.
  unfoldable pub process_tick_by_tick_msg : D F (Unit {0})
  unfolding by_type all_last bid_ask mid_point
  process_tick_by_tick_msg = do
    req_id ← read_int
    tick_type ← read_int
    time ← read_int
    by_type req_id tick_type time
