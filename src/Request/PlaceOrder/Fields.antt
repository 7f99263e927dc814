-- ===== src/Request/PlaceOrder/Fields.antt =====
-- The fields of the message of `PlaceOrder` (client.go), part by part. `v` is the server's version.
pub mod Prints
pub mod Texts
pub mod Layout
use ibapi.Common.{
  List, [], ◌∷◌, ◌++◌, Bool, true, false, ◌&&◌, Option, none, some, Bytes, codes, ℤ, pos, below,
  at_least, length, ltb, has_text, bytes_eq, if◌then◌else◌,
}
use ibapi.Wire.Float.{Floats}
use ibapi.Wire.Encode.{Field, int, float, str, bool, raw, unsupported, handle_empty}
use ibapi.Data.Contract.{Contract, ComboLeg, TagValue, DeltaNeutralContract}
use ibapi.Data.Condition.{OrderConditioner, cond_type, to_fields}
use ibapi.Data.Order.{Order, OrderComboLeg, has_increment, is_peg_bench}
use ibapi.Request.Options.{when, option_text}

module _ {F : Type 0} where
  -- `contract.SecurityType == "BAG"`.
  abbrev pub is_bag : Contract F → Bool
  is_bag c = bytes_eq c.security_type (codes "BAG")

  leg_fields : ℤ → List ComboLeg → List (Field F)
  leg_fields v [] = []
  leg_fields v (l ∷ ls) =
      int l.contract_id
        ∷ int l.ratio
        ∷ str l.action
        ∷ str l.exchange
        ∷ int l.open_close
        ∷ int l.short_sale_slot
        ∷ str l.designated_location
        ∷ when (at_least v 51) (int l.exempt_code ∷ [])
      ++ leg_fields v ls

  unfoldable pub neutral_fields : Option (DeltaNeutralContract F) → List (Field F)
  neutral_fields none = bool false ∷ []
  neutral_fields (some n) = bool true ∷ int n.contract_id ∷ float n.delta ∷ float n.price ∷ []

  tag_fields : List TagValue → List (Field F)
  tag_fields [] = []
  tag_fields (tv ∷ tvs) = str tv.tag ∷ str tv.value ∷ tag_fields tvs

module _ {F : Type 0} ⦃fl : Floats F⦄ where
  text_field : Option Bytes → Field F
  text_field (some b) = str b
  text_field none = unsupported

  -- What `handleEmpty` returns, as a field.
  unfoldable pub emptied : Field F → Field F
  unfolding text_field
  emptied f = text_field (handle_empty f)

  -- A price, which older servers get as zero when it is unset.
  price_field : Bool → F → Field F
  price_field true v = if fl.float_eq v fl.unset_float then float (fl.of_int (pos 0)) else float v
  price_field false v = emptied (float v)

  -- The id of the order and the contract.
  unfoldable pub place_contract : ℤ → ℤ → Contract F → List (Field F)
  place_contract v order_id c =
      when (below v 145) (int (pos (if below v 44 then 27 else 45)) ∷ [])
      ++ (int order_id ∷ when (at_least v 46) (int c.contract_id ∷ [])
          ++ (str c.symbol
                ∷ str c.security_type
                ∷ str c.expiry
                ∷ float c.strike
                ∷ str c.right
                ∷ str c.multiplier
                ∷ str c.exchange
                ∷ str c.primary_exchange
                ∷ str c.currency
                ∷ str c.local_symbol
                ∷ when (at_least v 68) (str c.trading_class ∷ [])
              ++ when (at_least v 45) (str c.security_id_type ∷ str c.security_id ∷ [])))

  -- The action, quantity, type and prices, and what follows them in every version.
  unfoldable pub place_terms : ℤ → Order F → List (Field F)
  unfolding price_field
  place_terms v o =
      str o.action
      ∷ (if at_least v 101 then float o.total_quantity else int (fl.to_int o.total_quantity))
      ∷ str o.order_type
      ∷ price_field (below v 61) o.limit_price
      ∷ price_field (below v 62) o.aux_price
      ∷ str o.tif
      ∷ str o.oca_group
      ∷ str o.account
      ∷ str o.open_close
      ∷ int o.origin
      ∷ str o.order_ref
      ∷ bool o.transmit
      ∷ int o.parent_id
      ∷ bool o.block_order
      ∷ bool o.sweep_to_fill
      ∷ int o.display_size
      ∷ int o.trigger_method
      ∷ bool o.outside_rth
      ∷ bool o.hidden
      ∷ []

  price_fields : List (OrderComboLeg F) → List (Field F)
  price_fields [] = []
  price_fields (l ∷ ls) = emptied (float l.price) ∷ price_fields ls

  -- The legs of a combination, of the contract and of the order, and their routing.
  unfoldable pub place_legs : ℤ → Contract F → Order F → List (Field F)
  unfolding leg_fields price_fields tag_fields
  place_legs v c o =
      when (is_bag c) (int (pos (length c.combo_legs)) ∷ leg_fields v c.combo_legs)
      ++ (when (at_least v 61 && is_bag c)
            (int (pos (length o.order_combo_legs)) ∷ price_fields o.order_combo_legs)
          ++ when (at_least v 57 && is_bag c) (
              int (pos (length o.smart_combo_routing_params))
              ∷ tag_fields o.smart_combo_routing_params))

  -- The discretionary amount, the advisor and the short sale.
  unfoldable pub place_advisor : ℤ → Order F → List (Field F)
  place_advisor v o =
      str []
      ∷ float o.discretionary_amount
      ∷ str o.good_after_time
      ∷ str o.good_till_date
      ∷ str o.fa_group
      ∷ str o.fa_method
      ∷ str o.fa_percentage
      ∷ str o.fa_profile
      ∷ (when (at_least v 103) (str o.model_code ∷ [])
          ++ (int o.short_sale_slot
                ∷ str o.designated_location
                ∷ when (at_least v 51) (int o.exempt_code ∷ [])
              ++ int o.oca_type ∷ []))

  -- From the rule 80A to the volatility.
  unfoldable pub place_settling : Order F → List (Field F)
  place_settling o =
      str o.rule80a
      ∷ str o.settling_firm
      ∷ bool o.all_or_none
      ∷ emptied (int o.min_qty)
      ∷ emptied (float o.percent_offset)
      ∷ bool false
      ∷ bool false
      ∷ emptied (float fl.unset_float)
      ∷ int o.auction_strategy
      ∷ emptied (float o.starting_price)
      ∷ emptied (float o.stock_ref_price)
      ∷ emptied (float o.delta)
      ∷ emptied (float o.stock_range_lower)
      ∷ emptied (float o.stock_range_upper)
      ∷ bool o.override_percentage_constraints
      ∷ emptied (float o.volatility)
      ∷ emptied (int o.volatility_type)
      ∷ str o.delta_neutral_order_type
      ∷ emptied (float o.delta_neutral_aux_price)
      ∷ []

  -- The neutral order.
  unfoldable pub place_neutral : ℤ → Order F → List (Field F)
  place_neutral v o =
      when (at_least v 58 && has_text o.delta_neutral_order_type) (
        int o.delta_neutral_contract_id
        ∷ str o.delta_neutral_settling_firm
        ∷ str o.delta_neutral_clearing_account
        ∷ str o.delta_neutral_clearing_intent
        ∷ [])
      ++ when (at_least v 66 && has_text o.delta_neutral_order_type) (
          str o.delta_neutral_open_close
          ∷ bool o.delta_neutral_short_sale
          ∷ int o.delta_neutral_short_sale_slot
          ∷ str o.delta_neutral_designated_location
          ∷ [])

  -- From the continuous update to the table of a scale order.
  unfoldable pub place_scale : ℤ → Order F → List (Field F)
  place_scale v o =
      bool o.continuous_update
      ∷ emptied (int o.reference_price_type)
      ∷ emptied (float o.trail_stop_price)
      ∷ (when (at_least v 62) (emptied (float o.trailing_percent) ∷ [])
          ++ ((if at_least v 40
                then emptied (int o.scale_init_level_size)
                  ∷ emptied (int o.scale_subs_level_size)
                  ∷ []
                else str [] ∷ emptied (int o.scale_init_level_size) ∷ [])
              ++ (emptied (float o.scale_price_increment)
                    ∷ when (at_least v 60 && has_increment o) (
                        emptied (float o.scale_price_adjust_value)
                        ∷ emptied (int o.scale_price_adjust_interval)
                        ∷ emptied (float o.scale_profit_offset)
                        ∷ bool o.scale_auto_reset
                        ∷ emptied (int o.scale_init_position)
                        ∷ emptied (int o.scale_init_fill_qty)
                        ∷ bool o.scale_random_percent
                        ∷ [])
                  ++ when (at_least v 69)
                      (str o.scale_table ∷ str o.active_start_time ∷ str o.active_stop_time ∷ []))))

  -- From the hedge to the delta neutral contract.
  unfoldable pub place_hedge : ℤ → Contract F → Order F → List (Field F)
  unfolding neutral_fields
  place_hedge v c o =
      when (at_least v 54)
        (str o.hedge_type ∷ when (has_text o.hedge_type) (str o.hedge_param ∷ []))
      ++ (when (at_least v 56) (bool o.opt_out_smart_routing ∷ [])
          ++ (when (at_least v 39) (str o.clearing_account ∷ str o.clearing_intent ∷ [])
              ++ (when (at_least v 44) (bool o.not_held ∷ [])
                  ++ when (at_least v 40) (neutral_fields c.delta_neutral_contract))))

  -- From the algorithm to the random size and price.
  unfoldable pub place_algo : ℤ → Order F → List (Field F)
  unfolding tag_fields
  place_algo v o =
      when (at_least v 41) (
        str o.algo_strategy
        ∷ when (has_text o.algo_strategy)
            (int (pos (length o.algo_params)) ∷ tag_fields o.algo_params))
      ++ (when (at_least v 71) (str o.algo_id ∷ [])
          ++ (bool o.what_if ∷ when (at_least v 70) (raw (option_text o.order_misc_options) ∷ [])
              ++ (when (at_least v 73) (bool o.solicited ∷ [])
                  ++ when (at_least v 76) (bool o.randomize_size ∷ bool o.randomize_price ∷ []))))

  condition_list : List (OrderConditioner F) → List (Field F)
  condition_list [] = []
  condition_list (c ∷ cs) = int (cond_type c) ∷ to_fields c ++ condition_list cs

  -- From the benchmark to the adjusted order.
  unfoldable pub place_conditions : Order F → List (Field F)
  unfolding condition_list
  place_conditions o =
      when (is_peg_bench o) (
        int o.reference_contract_id
        ∷ bool o.is_pegged_change_amount_decrease
        ∷ float o.pegged_change_amount
        ∷ float o.reference_change_amount
        ∷ str o.reference_exchange_id
        ∷ [])
      ++ (int (pos (length o.conditions)) ∷ condition_list o.conditions
          ++ (when (ltb 0 (length o.conditions))
                (bool o.conditions_ignore_rth ∷ bool o.conditions_cancel_order ∷ [])
              ++ str o.adjusted_order_type
                ∷ float o.trigger_price
                ∷ float o.limit_price_offset
                ∷ float o.adjusted_stop_price
                ∷ float o.adjusted_stop_limit_price
                ∷ float o.adjusted_trailing_amount
                ∷ int o.adjustable_trailing_unit
                ∷ []))

  -- The fields that newer versions add at the end.
  unfoldable pub place_tail : ℤ → Order F → List (Field F)
  place_tail v o =
      when (at_least v 105) (str o.ext_operator ∷ [])
      ++ (when (at_least v 106) (str o.soft_dollar_tier.name ∷ str o.soft_dollar_tier.value ∷ [])
          ++ (when (at_least v 111) (float o.cash_qty ∷ [])
              ++ (when (at_least v 138)
                    (str o.mifid2_decision_maker ∷ str o.mifid2_decision_algo ∷ [])
                  ++ (when (at_least v 139)
                        (str o.mifid2_execution_trader ∷ str o.mifid2_execution_algo ∷ [])
                      ++ (when (at_least v 141) (bool o.dont_use_auto_price_for_hedge ∷ [])
                          ++ (when (at_least v 145) (bool o.is_oms_container ∷ [])
                              ++ (when (at_least v 148)
                                    (bool o.discretionary_up_to_limit_price ∷ [])
                                  ++ (when (at_least v 151) (bool o.use_price_mgmt_algo ∷ [])
                                      ++ (when (at_least v 158) (emptied (int o.duration) ∷ [])
                                          ++ (when (at_least v 160)
                                              (emptied (int o.post_to_ats) ∷ [])))))))))))

  -- The fields of the message, as they are when the server has version 102 or a later one.
  unfoldable pub place_order_fields : ℤ → ℤ → Contract F → Order F → List (Field F)
  place_order_fields v order_id c o =
      int (pos 3) ∷ place_contract v order_id c
      ++ (place_terms v o
          ++ (place_legs v c o
              ++ (place_advisor v o
                  ++ (place_settling o
                      ++ (place_neutral v o
                          ++ (place_scale v o
                              ++ (place_hedge v c o
                                  ++ (place_algo v o
                                      ++ (place_conditions o ++ place_tail v o)))))))))
