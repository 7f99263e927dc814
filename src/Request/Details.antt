-- ===== src/Request/Details.antt =====
-- The requests of `IbClient` (client.go) for executions, contract details and scanner subscriptions.
use ibapi.Common.{
  List, [], ◌∷◌, ◌++◌, Bool, true, false, ◌&&◌, ◌||◌, codes, ℤ, pos, below, at_least, has_text,
  bytes_eq, if◌then◌else◌,
}
use ibapi.Wire.Float.{Floats}
use ibapi.Wire.Encode.{Field, int, float, str, bool, raw}
use ibapi.Data.Contract.{Contract, TagValue}
use ibapi.Data.Market.{ExecutionFilter}
use ibapi.Data.Scanner.{ScannerSubscription}
use ibapi.Client.Lifecycle.{no_valid_id}
use ibapi.Request.{Request, send, too_old}
use ibapi.Request.Options.{when, option_text}
use ibapi.Request.PlaceOrder.Fields.{emptied}

abbrev has_filters : List TagValue → Bool
has_filters [] = false
has_filters (tv ∷ tvs) = true

module _ {F : Type 0} where
  -- `ReqExecutions`.
  unfoldable pub req_executions : ℤ → ℤ → ExecutionFilter → Request F
  req_executions version req_id f = send (
      int (pos 7) ∷ int (pos 3) ∷ when (at_least version 42) (int req_id ∷ [])
      ++ int f.client_id
        ∷ str f.account_code
        ∷ str f.time
        ∷ str f.symbol
        ∷ str f.security_type
        ∷ str f.exchange
        ∷ str f.side
        ∷ [])

  -- The exchange of a contract; the primary exchange stands behind a colon on some servers.
  unfoldable pub exchange_fields : ℤ → Contract F → List (Field F)
  exchange_fields version c =
      if at_least version 75
      then str c.exchange ∷ str c.primary_exchange ∷ []
      else if at_least version 70
      then (if has_text c.primary_exchange
            && (bytes_eq c.exchange (codes "BEST") || bytes_eq c.exchange (codes "SMART"))
          then str (c.exchange ++ b':' ∷ c.primary_exchange) ∷ []
          else str c.exchange ∷ [])
      else []

  -- `ReqContractDetails`.
  unfoldable pub req_contract_details : ℤ → ℤ → Contract F → Request F
  unfolding exchange_fields
  req_contract_details version req_id c =
      if below version 45 && (has_text c.security_id_type || has_text c.security_id)
      then too_old req_id (codes "  It does not support secIdType and secId parameters.")
      else if below version 68 && has_text c.trading_class
      then too_old req_id
          (codes "  It does not support tradingClass parameter in reqContractDetails.")
      else if below version 70 && has_text c.primary_exchange
      then too_old req_id
          (codes "  It does not support primaryExchange parameter in reqContractDetails.")
      else send (
          int (pos 9) ∷ int (pos 8) ∷ when (at_least version 40) (int req_id ∷ [])
          ++ (int c.contract_id
                ∷ str c.symbol
                ∷ str c.security_type
                ∷ str c.expiry
                ∷ float c.strike
                ∷ str c.right
                ∷ str c.multiplier
                ∷ exchange_fields version c
              ++ (str c.currency
                    ∷ str c.local_symbol
                    ∷ when (at_least version 68) (str c.trading_class ∷ bool c.include_expired ∷ [])
                  ++ when (at_least version 45) (str c.security_id_type ∷ str c.security_id ∷ []))))

module _ {F : Type 0} ⦃fl : Floats F⦄ where
  -- The fields of a subscription.
  unfoldable pub subscription_fields : ScannerSubscription F → List (Field F)
  subscription_fields s =
      emptied (int s.number_of_rows)
      ∷ str s.instrument
      ∷ str s.location_code
      ∷ str s.scan_code
      ∷ emptied (float s.above_price)
      ∷ emptied (float s.below_price)
      ∷ emptied (int s.above_volume)
      ∷ emptied (float s.market_cap_above)
      ∷ emptied (float s.market_cap_below)
      ∷ str s.moody_rating_above
      ∷ str s.moody_rating_below
      ∷ str s.sp_rating_above
      ∷ str s.sp_rating_below
      ∷ str s.maturity_date_above
      ∷ str s.maturity_date_below
      ∷ emptied (float s.coupon_rate_above)
      ∷ emptied (float s.coupon_rate_below)
      ∷ bool s.exclude_convertible
      ∷ emptied (int s.average_option_volume_above)
      ∷ str s.scanner_setting_pairs
      ∷ str s.stock_type_filter
      ∷ []

  -- `ReqScannerSubscription`.
  unfoldable pub req_scanner_subscription :
      ℤ → ℤ → ScannerSubscription F → List TagValue → List TagValue → Request F
  unfolding subscription_fields
  req_scanner_subscription version req_id s options filters =
      if below version 143 && has_filters filters
      then too_old no_valid_id
          (codes " It does not support API scanner subscription generic filter options")
      else send (
          int (pos 22) ∷ when (below version 143) (int (pos 4) ∷ [])
          ++ (int req_id ∷ subscription_fields s
              ++ (when (at_least version 143) (raw (option_text filters) ∷ [])
                  ++ when (at_least version 70) (raw (option_text options) ∷ []))))
