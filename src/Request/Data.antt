-- ===== src/Request/Data.antt =====
-- The requests of `IbClient` (client.go) for market data, market depth and bars in real time.
use ibapi.Common.{
  List, [], ◌∷◌, ◌++◌, Bool, true, false, ◌&&◌, ◌||◌, Option, none, some, Bytes, codes, ℤ, pos,
  below, at_least, is_pos, has_text, if◌then◌else◌,
}
use ibapi.Wire.Encode.{int, float, str, bool, raw}
use ibapi.Data.Contract.{Contract, TagValue, DeltaNeutralContract}
use ibapi.Client.Lifecycle.{no_valid_id}
use ibapi.Request.{Request, send, raised, too_old}
use ibapi.Request.Options.{when, option_text, contract_terms, bag_fields}
use ibapi.Request.PlaceOrder.Fields.{neutral_fields}

abbrev is_delta_neutral : {F : Type 0} → Option (DeltaNeutralContract F) → Bool
is_delta_neutral none = false
is_delta_neutral (some n) = true

abbrev has_options : List TagValue → Bool
has_options [] = false
has_options (tv ∷ tvs) = true

-- The first guard of `ReqMktDepth` runs over into the second one.
abbrev depth_refused : ℤ → Bool → Bool
depth_refused version is_smart_depth = below version 68 || (below version 146 && is_smart_depth)

module _ {F : Type 0} where
  -- `ReqMktData`.
  unfoldable pub req_mkt_data : ℤ → ℤ → Contract F → Bytes → Bool → Bool → List TagValue → Request F
  req_mkt_data version req_id c ticks snapshot regulatory options =
      if below version 40 && is_delta_neutral c.delta_neutral_contract
      then too_old req_id (codes "  It does not support delta-neutral orders.")
      else if below version 47 && is_pos c.contract_id
      then too_old req_id (codes "  It does not support conId parameter.")
      else if below version 68 && has_text c.trading_class
      then too_old req_id (codes "  It does not support tradingClass parameter in reqMktData.")
      else if at_least version 70 && has_options options
      then raised
      else send (
          int (pos 1)
            ∷ int (pos 11)
            ∷ int req_id
            ∷ when (at_least version 47) (int c.contract_id ∷ [])
          ++ (contract_terms c
              ++ (when (at_least version 68) (str c.trading_class ∷ [])
                  ++ (bag_fields c
                      ++ (when (at_least version 40) (neutral_fields c.delta_neutral_contract)
                          ++ (str ticks
                                ∷ bool snapshot
                                ∷ when (at_least version 114) (bool regulatory ∷ [])
                              ++ when (at_least version 70) (str [] ∷ [])))))))

  -- `ReqMktDepth`.
  unfoldable pub req_mkt_depth : ℤ → ℤ → Contract F → ℤ → Bool → List TagValue → Request F
  req_mkt_depth version req_id c num_rows is_smart_depth options =
      if below version 68 && (has_text c.trading_class || is_pos c.contract_id)
      then too_old req_id
          (codes "  It does not support conId and tradingClass parameters in reqMktDepth.")
      else if depth_refused version is_smart_depth
      then too_old req_id (codes "  It does not support SMART depth request.")
      else if below version 149 && has_text c.primary_exchange
      then too_old req_id (codes " It does not support primaryExchange parameter in reqMktDepth.")
      else if at_least version 70 && has_options options
      then raised
      else send (
          int (pos 10)
            ∷ int (pos 5)
            ∷ int req_id
            ∷ when (at_least version 68) (int c.contract_id ∷ [])
          ++ (str c.symbol
                ∷ str c.security_type
                ∷ str c.expiry
                ∷ float c.strike
                ∷ str c.right
                ∷ str c.multiplier
                ∷ str c.exchange
                ∷ when (at_least version 149) (str c.primary_exchange ∷ [])
              ++ (str c.currency
                    ∷ str c.local_symbol
                    ∷ when (at_least version 68) (str c.trading_class ∷ [])
                  ++ (int num_rows ∷ when (at_least version 146) (bool is_smart_depth ∷ [])
                      ++ when (at_least version 70) (str [] ∷ [])))))

  -- `ReqRealTimeBars`.
  unfoldable pub req_real_time_bars :
      ℤ → ℤ → Contract F → ℤ → Bytes → Bool → List TagValue → Request F
  req_real_time_bars version req_id c bar_size what_to_show use_rth options =
      if below version 68 && has_text c.trading_class
      then too_old req_id
          (codes "  It does not support conId and tradingClass parameter in reqRealTimeBars.")
      else send (
          int (pos 50)
            ∷ int (pos 3)
            ∷ int req_id
            ∷ when (at_least version 68) (int c.contract_id ∷ [])
          ++ (contract_terms c
              ++ (when (at_least version 68) (str c.trading_class ∷ [])
                  ++ (int bar_size
                      ∷ str what_to_show
                      ∷ bool use_rth
                      ∷ when (at_least version 70) (raw (option_text options) ∷ [])))))

  -- `ReqFundamentalData`.
  unfoldable pub req_fundamental_data : ℤ → ℤ → Contract F → Bytes → List TagValue → Request F
  req_fundamental_data version req_id c report_type options =
      if below version 40
      then too_old no_valid_id (codes "  It does not support fundamental data request.")
      else if below version 68
      then too_old no_valid_id
          (codes "  It does not support conId parameter in reqFundamentalData.")
      else send (
          int (pos 52)
            ∷ int (pos 2)
            ∷ int req_id
            ∷ when (at_least version 68) (int c.contract_id ∷ [])
          ++ (str c.symbol
              ∷ str c.security_type
              ∷ str c.exchange
              ∷ str c.primary_exchange
              ∷ str c.currency
              ∷ str c.local_symbol
              ∷ str report_type
              ∷ when (at_least version 70) (raw (option_text options) ∷ [])))
