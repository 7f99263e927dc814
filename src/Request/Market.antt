-- ===== src/Request/Market.antt =====
-- Requests of `IbClient` (client.go): the requests about market data without a contract.
use ibapi.Common.{[], ◌∷◌, Bytes, codes, ℤ, pos, below, if◌then◌else◌}
use ibapi.Wire.Encode.{int, str}
use ibapi.Client.Lifecycle.{no_valid_id}
use ibapi.Request.{Request, send, too_old}

module _ {F : Type 0} where
  -- `CancelMktData`.
  unfoldable pub cancel_mkt_data : ℤ → Request F
  cancel_mkt_data req_id = send (int (pos 2) ∷ int (pos 2) ∷ int req_id ∷ [])

  -- `ReqMarketDataType`.
  unfoldable pub req_market_data_type : ℤ → ℤ → Request F
  req_market_data_type version market_data_type =
      if below version 55
      then too_old no_valid_id (codes "  It does not support market data type requests.")
      else send (int (pos 59) ∷ int (pos 1) ∷ int market_data_type ∷ [])

  -- `ReqSmartComponents`.
  unfoldable pub req_smart_components : ℤ → ℤ → Bytes → Request F
  req_smart_components version req_id bbo_exchange =
      if below version 114
      then too_old no_valid_id (codes "  It does not support smart components request.")
      else send (int (pos 83) ∷ int req_id ∷ str bbo_exchange ∷ [])

  -- `ReqMarketRule`.
  unfoldable pub req_market_rule : ℤ → ℤ → Request F
  req_market_rule version market_rule_id =
      if below version 126
      then too_old no_valid_id (codes " It does not support market rule requests.")
      else send (int (pos 91) ∷ int market_rule_id ∷ [])

  -- `CancelTickByTickData`.
  unfoldable pub cancel_tick_by_tick_data : ℤ → ℤ → Request F
  cancel_tick_by_tick_data version req_id =
      if below version 137
      then too_old no_valid_id (codes " It does not support tick-by-tick data requests.")
      else send (int (pos 98) ∷ int req_id ∷ [])

  -- `CancelCalculateImpliedVolatility`.
  unfoldable pub cancel_calculate_implied_volatility : ℤ → ℤ → Request F
  cancel_calculate_implied_volatility version req_id =
      if below version 49
      then too_old req_id (codes "  It does not support calculateImpliedVolatility req.")
      else send (int (pos 56) ∷ int (pos 1) ∷ int req_id ∷ [])

  -- `CancelCalculateOptionPrice`.
  unfoldable pub cancel_calculate_option_price : ℤ → ℤ → Request F
  cancel_calculate_option_price version req_id =
      if below version 49
      then too_old req_id (codes "  It does not support calculateImpliedVolatility req.")
      else send (int (pos 57) ∷ int (pos 1) ∷ int req_id ∷ [])

  -- `ReqMktDepthExchanges`.
  unfoldable pub req_mkt_depth_exchanges : ℤ → Request F
  req_mkt_depth_exchanges version =
      if below version 112
      then too_old no_valid_id (codes "  It does not support market depth exchanges request.")
      else send (int (pos 82) ∷ [])

  -- `CancelHistoricalData`.
  unfoldable pub cancel_historical_data : ℤ → Request F
  cancel_historical_data req_id = send (int (pos 25) ∷ int (pos 1) ∷ int req_id ∷ [])

  -- `CancelHeadTimeStamp`.
  unfoldable pub cancel_head_timestamp : ℤ → ℤ → Request F
  cancel_head_timestamp version req_id =
      if below version 123
      then too_old req_id (codes "  It does not support head time stamp requests.")
      else send (int (pos 90) ∷ int req_id ∷ [])

  -- `CancelHistogramData`.
  unfoldable pub cancel_histogram_data : ℤ → ℤ → Request F
  cancel_histogram_data version req_id =
      if below version 119
      then too_old no_valid_id (codes "  It does not support histogram requests..")
      else send (int (pos 89) ∷ int req_id ∷ [])

  -- `ReqScannerParameters`.
  unfoldable pub req_scanner_parameters : Request F
  req_scanner_parameters = send (int (pos 24) ∷ int (pos 1) ∷ [])

  -- `CancelScannerSubscription`.
  unfoldable pub cancel_scanner_subscription : ℤ → Request F
  cancel_scanner_subscription req_id = send (int (pos 23) ∷ int (pos 1) ∷ int req_id ∷ [])

  -- `CancelRealTimeBars`.
  unfoldable pub cancel_real_time_bars : ℤ → Request F
  cancel_real_time_bars req_id = send (int (pos 51) ∷ int (pos 1) ∷ int req_id ∷ [])

  -- `CancelFundamentalData`.
  unfoldable pub cancel_fundamental_data : ℤ → ℤ → Request F
  cancel_fundamental_data version req_id =
      if below version 40
      then too_old no_valid_id (codes "  It does not support fundamental data request.")
      else send (int (pos 53) ∷ int (pos 1) ∷ int req_id ∷ [])
