-- ===== src/Request/Options.antt =====
-- Requests of `IbClient` (client.go) that carry a contract, and the cancel of a market depth.
use ibapi.Common.{
  List, [], ◌∷◌, ◌++◌, Bool, not, ◌&&◌, Bytes, codes, ℤ, pos, below, at_least, if◌then◌else◌,
  bytes_eq, length,
}
use ibapi.Wire.Encode.{Field, int, float, str, bool, raw}
use ibapi.Data.Contract.{Contract, ComboLeg, TagValue}
use ibapi.Client.Lifecycle.{no_valid_id}
use ibapi.Request.{Request, send, too_old}

-- The loop that writes `tag=value;` for each option.
unfoldable pub option_text : List TagValue → Bytes
option_text [] = []
option_text (tv ∷ tvs) = tv.tag ++ b'=' ∷ tv.value ++ b';' ∷ option_text tvs

module _ {F : Type 0} where
  abbrev pub when : Bool → List (Field F) → List (Field F)
  when b fields = if b then fields else []

  -- The contract, from its symbol to its local symbol.
  abbrev pub contract_terms : Contract F → List (Field F)
  contract_terms c =
      str c.symbol
      ∷ str c.security_type
      ∷ str c.expiry
      ∷ float c.strike
      ∷ str c.right
      ∷ str c.multiplier
      ∷ str c.exchange
      ∷ str c.primary_exchange
      ∷ str c.currency
      ∷ str c.local_symbol
      ∷ []

  abbrev leg_terms : List ComboLeg → List (Field F)
  leg_terms [] = []
  leg_terms (l ∷ ls) =
      int l.contract_id ∷ int l.ratio ∷ str l.action ∷ str l.exchange ∷ leg_terms ls

  -- The legs of a combination.
  abbrev pub bag_fields : Contract F → List (Field F)
  bag_fields c =
      when (bytes_eq c.security_type (codes "BAG"))
        (int (pos (length c.combo_legs)) ∷ leg_terms c.combo_legs)

  -- `CancelMktDepth`.
  unfoldable pub cancel_mkt_depth : ℤ → ℤ → Bool → Request F
  cancel_mkt_depth version req_id is_smart_depth =
      if below version 146 && is_smart_depth
      then too_old req_id (codes " It does not support SMART depth cancel.")
      else send (
          int (pos 11)
          ∷ int (pos 1)
          ∷ int req_id
          ∷ when (at_least version 146) (bool is_smart_depth ∷ []))

  -- `ReqTickByTickData`.
  unfoldable pub req_tick_by_tick_data : ℤ → ℤ → Contract F → Bytes → ℤ → Bool → Request F
  req_tick_by_tick_data version req_id contract tick_type number_of_ticks ignore_size =
      if below version 137
      then too_old no_valid_id (codes " It does not support tick-by-tick data requests.")
      else if below version 140
      then too_old no_valid_id (
          codes
            " It does not support ignoreSize and numberOfTicks parameters in tick-by-tick data requests.")
      else send (
          int (pos 97)
          ∷ int req_id
          ∷ int contract.contract_id
          ∷ str contract.symbol
          ∷ str contract.security_type
          ∷ str contract.expiry
          ∷ float contract.strike
          ∷ str contract.right
          ∷ str contract.multiplier
          ∷ str contract.exchange
          ∷ str contract.primary_exchange
          ∷ str contract.currency
          ∷ str contract.local_symbol
          ∷ str contract.trading_class
          ∷ str tick_type
          ∷ when (at_least version 140) (int number_of_ticks ∷ bool ignore_size ∷ []))

  -- The fields that `CalculateImpliedVolatility` and `CalculateOptionPrice` both send.
  abbrev calc_fields : ℤ → ℤ → ℤ → Contract F → F → F → List TagValue → List (Field F)
  calc_fields id version req_id contract value under_price options =
      int id
      ∷ int (pos 3)
      ∷ int req_id
      ∷ int contract.contract_id
      ∷ str contract.symbol
      ∷ str contract.security_id
      ∷ str contract.expiry
      ∷ float contract.strike
      ∷ str contract.right
      ∷ str contract.multiplier
      ∷ str contract.exchange
      ∷ str contract.primary_exchange
      ∷ str contract.currency
      ∷ str contract.local_symbol
      ∷ (when (at_least version 68) (str contract.trading_class ∷ [])
          ++ (float value
              ∷ float under_price
              ∷ when (at_least version 70)
                  (int (pos (length options)) ∷ raw (option_text options) ∷ [])))

  -- `CalculateImpliedVolatility`.
  unfoldable pub calculate_implied_volatility :
      ℤ → ℤ → Contract F → F → F → List TagValue → Request F
  calculate_implied_volatility version req_id contract option_price under_price options =
      if below version 49
      then too_old no_valid_id (codes "  It does not support calculateImpliedVolatility req.")
      else if below version 68 && not (bytes_eq contract.trading_class [])
      then too_old no_valid_id
          (codes "  It does not support tradingClass parameter in calculateImpliedVolatility.")
      else send (calc_fields (pos 54) version req_id contract option_price under_price options)

  -- `CalculateOptionPrice`.
  unfoldable pub calculate_option_price : ℤ → ℤ → Contract F → F → F → List TagValue → Request F
  calculate_option_price version req_id contract volatility under_price options =
      if below version 49
      then too_old req_id (codes "  It does not support calculateImpliedVolatility req.")
      else if below version 68
      then too_old req_id
          (codes "  It does not support tradingClass parameter in calculateImpliedVolatility.")
      else send (calc_fields (pos 55) version req_id contract volatility under_price options)

  -- `ExerciseOptions`.
  unfoldable pub exercise_options : ℤ → ℤ → Contract F → ℤ → ℤ → Bytes → ℤ → Request F
  exercise_options version req_id contract action quantity account override =
      if below version 68 && not (bytes_eq contract.trading_class [])
      then too_old no_valid_id (
          codes
            "  It does not support conId, multiplier, tradingClass parameter in exerciseOptions.")
      else send (
          int (pos 21)
          ∷ int (pos 2)
          ∷ int req_id
          ∷ (when (at_least version 68) (int contract.contract_id ∷ [])
              ++ (str contract.symbol
                  ∷ str contract.expiry
                  ∷ float contract.strike
                  ∷ str contract.right
                  ∷ str contract.multiplier
                  ∷ str contract.exchange
                  ∷ str contract.currency
                  ∷ str contract.local_symbol
                  ∷ (when (at_least version 68) (str contract.trading_class ∷ [])
                      ++ (int action ∷ int quantity ∷ str account ∷ int override ∷ [])))))

  -- `ReqHistogramData`.
  unfoldable pub req_histogram_data : ℤ → ℤ → Contract F → Bool → Bytes → Request F
  req_histogram_data version req_id contract use_rth time_period =
      if below version 119
      then too_old no_valid_id (codes "  It does not support histogram requests..")
      else send (
          int (pos 88)
          ∷ int req_id
          ∷ int contract.contract_id
          ∷ str contract.symbol
          ∷ str contract.security_type
          ∷ str contract.expiry
          ∷ float contract.strike
          ∷ str contract.right
          ∷ str contract.multiplier
          ∷ str contract.exchange
          ∷ str contract.primary_exchange
          ∷ str contract.currency
          ∷ str contract.local_symbol
          ∷ str contract.trading_class
          ∷ bool contract.include_expired
          ∷ bool use_rth
          ∷ str time_period
          ∷ [])
