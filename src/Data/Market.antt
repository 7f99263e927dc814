-- ===== src/Data/Market.antt =====
-- The market data and the reports that the decoder hands to the wrapper (common.go, execution.go,
-- order.go).
use ibapi.Common.{Bool, Bytes, ℤ}

pub record TickAttrib : Type 0 where
  pub can_auto_execute : Bool
  pub past_limit : Bool
  pub pre_open : Bool

pub record TickAttribBidAsk : Type 0 where
  pub bid_past_low : Bool
  pub ask_past_high : Bool

pub record TickAttribLast : Type 0 where
  pub past_limit : Bool
  pub unreported : Bool

pub record BarData (F : Type 0) : Type 0 where
  pub date : Bytes
  pub open_price : F
  pub high : F
  pub low : F
  pub close : F
  pub volume : F
  pub bar_count : ℤ
  pub average : F

pub record HistoricalTick (F : Type 0) : Type 0 where
  pub time : ℤ
  pub price : F
  pub size : F

pub record HistoricalTickBidAsk (F : Type 0) : Type 0 where
  pub time : ℤ
  pub tick_attrib_bid_ask : TickAttribBidAsk
  pub price_bid : F
  pub price_ask : F
  pub size_bid : F
  pub size_ask : F

pub record HistoricalTickLast (F : Type 0) : Type 0 where
  pub time : ℤ
  pub tick_attrib_last : TickAttribLast
  pub price : F
  pub size : F
  pub exchange : Bytes
  pub special_conditions : Bytes

pub record CommissionReport (F : Type 0) : Type 0 where
  pub exec_id : Bytes
  pub commission : F
  pub currency : Bytes
  pub realized_pnl : F
  pub yield : F
  pub yield_redemption_date : ℤ

pub record FamilyCode : Type 0 where
  pub account_id : Bytes
  pub family_code : Bytes

pub record SmartComponent : Type 0 where
  pub bit_number : ℤ
  pub exchange : Bytes
  pub exchange_letter : Bytes

pub record DepthMktDataDescription : Type 0 where
  pub exchange : Bytes
  pub security_type : Bytes
  pub listing_exchange : Bytes
  pub service_data_type : Bytes
  pub agg_group : ℤ

pub record NewsProvider : Type 0 where
  pub code : Bytes
  pub name : Bytes

pub record HistogramData (F : Type 0) : Type 0 where
  pub price : F
  pub count : F

pub record PriceIncrement (F : Type 0) : Type 0 where
  pub low_edge : F
  pub increment : F

pub record SoftDollarTier : Type 0 where
  pub name : Bytes
  pub value : Bytes
  pub display_name : Bytes

pub record Execution (F : Type 0) : Type 0 where
  pub exec_id : Bytes
  pub time : Bytes
  pub account_code : Bytes
  pub exchange : Bytes
  pub side : Bytes
  pub shares : F
  pub price : F
  pub perm_id : ℤ
  pub client_id : ℤ
  pub order_id : ℤ
  pub liquidation : ℤ
  pub cum_qty : F
  pub average_price : F
  pub order_ref : Bytes
  pub ev_rule : Bytes
  pub ev_multiplier : F
  pub model_code : Bytes
  pub last_liquidity : ℤ

pub record ExecutionFilter : Type 0 where
  pub client_id : ℤ
  pub account_code : Bytes
  pub time : Bytes
  pub symbol : Bytes
  pub security_type : Bytes
  pub exchange : Bytes
  pub side : Bytes
