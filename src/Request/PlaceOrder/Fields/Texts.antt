-- ===== src/Request/PlaceOrder/Fields/Texts.antt =====
-- The message of `PlaceOrder` (client.go) on a server of version 102 or a later one, as the texts that
-- stand on the wire.
use ibapi.Common.{
  List, [], ◌∷◌, ◌++◌, Bool, Option, none, some, Bytes, codes, ℤ, pos, below, at_least, length, ltb,
  has_text, int_eq, if◌then◌else◌,
}
use ibapi.Wire.Decimal.{format_int}
use ibapi.Wire.Float.{Floats}
use ibapi.Wire.Encode.{unset_int}
use ibapi.Wire.Encode.Layout.{texts}
use ibapi.Data.Contract.{Contract, ComboLeg, TagValue, DeltaNeutralContract}
use ibapi.Data.Condition.{OrderConditioner, cond_type, to_fields}
use ibapi.Data.Order.{Order, OrderComboLeg, has_increment, is_peg_bench}
use ibapi.Request.Options.{option_text}
use ibapi.Request.PlaceOrder.Fields.{is_bag}

-- These texts, if the test holds.
abbrev pub given : Bool → List Bytes → List Bytes
given b ts = if b then ts else []

abbrev pub flag_text : Bool → Bytes
flag_text b = if b then codes "1" else codes "0"

-- The empty text for a number that is not set.
abbrev pub int_text : ℤ → Bytes
int_text i = if int_eq i unset_int then [] else format_int i

abbrev pub float_text : {F : Type 0} ⦃fl : Floats F⦄ → F → Bytes
float_text ⦃fl⦄ x = if fl.float_eq x fl.unset_float then [] else fl.format_float x

abbrev pub tag_texts : List TagValue → List Bytes
tag_texts [] = []
tag_texts (tv ∷ tvs) = tv.tag ∷ tv.value ∷ tag_texts tvs

abbrev pub leg_texts : List ComboLeg → List Bytes
leg_texts [] = []
leg_texts (l ∷ ls) =
    format_int l.contract_id
    ∷ format_int l.ratio
    ∷ l.action
    ∷ l.exchange
    ∷ format_int l.open_close
    ∷ format_int l.short_sale_slot
    ∷ l.designated_location
    ∷ format_int l.exempt_code
    ∷ leg_texts ls

module _ {F : Type 0} ⦃fl : Floats F⦄ where
  abbrev pub price_texts : List (OrderComboLeg F) → List Bytes
  price_texts [] = []
  price_texts (l ∷ ls) = float_text l.price ∷ price_texts ls

  abbrev pub condition_texts : List (OrderConditioner F) → List Bytes
  condition_texts [] = []
  condition_texts (c ∷ cs) = (format_int (cond_type c) ∷ texts (to_fields c)) ++ condition_texts cs

  abbrev pub neutral_texts : Option (DeltaNeutralContract F) → List Bytes
  neutral_texts none = codes "0" ∷ []
  neutral_texts (some n) =
      codes "1" ∷ format_int n.contract_id ∷ fl.format_float n.delta ∷ fl.format_float n.price ∷ []

  abbrev pub contract_texts : ℤ → ℤ → Contract F → List Bytes
  contract_texts v order_id c =
      given (below v 145) (format_int (pos 45) ∷ [])
      ++ format_int order_id
        ∷ format_int c.contract_id
        ∷ c.symbol
        ∷ c.security_type
        ∷ c.expiry
        ∷ fl.format_float c.strike
        ∷ c.right
        ∷ c.multiplier
        ∷ c.exchange
        ∷ c.primary_exchange
        ∷ c.currency
        ∷ c.local_symbol
        ∷ c.trading_class
        ∷ c.security_id_type
        ∷ c.security_id
        ∷ []

  abbrev pub terms_texts : Order F → List Bytes
  terms_texts o =
      o.action
      ∷ fl.format_float o.total_quantity
      ∷ o.order_type
      ∷ float_text o.limit_price
      ∷ float_text o.aux_price
      ∷ o.tif
      ∷ o.oca_group
      ∷ o.account
      ∷ o.open_close
      ∷ format_int o.origin
      ∷ o.order_ref
      ∷ flag_text o.transmit
      ∷ format_int o.parent_id
      ∷ flag_text o.block_order
      ∷ flag_text o.sweep_to_fill
      ∷ format_int o.display_size
      ∷ format_int o.trigger_method
      ∷ flag_text o.outside_rth
      ∷ flag_text o.hidden
      ∷ []

  abbrev pub legs_texts : Contract F → Order F → List Bytes
  legs_texts c o =
      given (is_bag c) (format_int (pos (length c.combo_legs)) ∷ leg_texts c.combo_legs)
      ++ (given (is_bag c)
            (format_int (pos (length o.order_combo_legs)) ∷ price_texts o.order_combo_legs)
          ++ given (is_bag c) (
              format_int (pos (length o.smart_combo_routing_params))
              ∷ tag_texts o.smart_combo_routing_params))

  abbrev pub advisor_texts : ℤ → Order F → List Bytes
  advisor_texts v o =
      []
      ∷ fl.format_float o.discretionary_amount
      ∷ o.good_after_time
      ∷ o.good_till_date
      ∷ o.fa_group
      ∷ o.fa_method
      ∷ o.fa_percentage
      ∷ o.fa_profile
      ∷ (given (at_least v 103) (o.model_code ∷ [])
          ++ format_int o.short_sale_slot
            ∷ o.designated_location
            ∷ format_int o.exempt_code
            ∷ format_int o.oca_type
            ∷ [])

  abbrev pub settling_texts : Order F → List Bytes
  settling_texts o =
      o.rule80a
      ∷ o.settling_firm
      ∷ flag_text o.all_or_none
      ∷ int_text o.min_qty
      ∷ float_text o.percent_offset
      ∷ codes "0"
      ∷ codes "0"
      ∷ float_text fl.unset_float
      ∷ format_int o.auction_strategy
      ∷ float_text o.starting_price
      ∷ float_text o.stock_ref_price
      ∷ float_text o.delta
      ∷ float_text o.stock_range_lower
      ∷ float_text o.stock_range_upper
      ∷ flag_text o.override_percentage_constraints
      ∷ float_text o.volatility
      ∷ int_text o.volatility_type
      ∷ o.delta_neutral_order_type
      ∷ float_text o.delta_neutral_aux_price
      ∷ []

  abbrev pub neutral_order_texts : Order F → List Bytes
  neutral_order_texts o = given (has_text o.delta_neutral_order_type) (
      format_int o.delta_neutral_contract_id
      ∷ o.delta_neutral_settling_firm
      ∷ o.delta_neutral_clearing_account
      ∷ o.delta_neutral_clearing_intent
      ∷ o.delta_neutral_open_close
      ∷ flag_text o.delta_neutral_short_sale
      ∷ format_int o.delta_neutral_short_sale_slot
      ∷ o.delta_neutral_designated_location
      ∷ [])

  abbrev pub scale_texts : Order F → List Bytes
  scale_texts o =
      flag_text o.continuous_update
      ∷ int_text o.reference_price_type
      ∷ float_text o.trail_stop_price
      ∷ float_text o.trailing_percent
      ∷ int_text o.scale_init_level_size
      ∷ int_text o.scale_subs_level_size
      ∷ float_text o.scale_price_increment
      ∷ (given (has_increment o) (
            float_text o.scale_price_adjust_value
            ∷ int_text o.scale_price_adjust_interval
            ∷ float_text o.scale_profit_offset
            ∷ flag_text o.scale_auto_reset
            ∷ int_text o.scale_init_position
            ∷ int_text o.scale_init_fill_qty
            ∷ flag_text o.scale_random_percent
            ∷ [])
          ++ o.scale_table ∷ o.active_start_time ∷ o.active_stop_time ∷ [])

  abbrev pub hedge_texts : Contract F → Order F → List Bytes
  hedge_texts c o =
      o.hedge_type
      ∷ (given (has_text o.hedge_type) (o.hedge_param ∷ [])
          ++ flag_text o.opt_out_smart_routing
            ∷ o.clearing_account
            ∷ o.clearing_intent
            ∷ flag_text o.not_held
            ∷ neutral_texts c.delta_neutral_contract)

  abbrev pub algo_texts : Order F → List Bytes
  algo_texts o =
      o.algo_strategy
      ∷ (given (has_text o.algo_strategy)
            (format_int (pos (length o.algo_params)) ∷ tag_texts o.algo_params)
          ++ o.algo_id
            ∷ flag_text o.what_if
            ∷ option_text o.order_misc_options
            ∷ flag_text o.solicited
            ∷ flag_text o.randomize_size
            ∷ flag_text o.randomize_price
            ∷ [])

  abbrev pub conditions_texts : Order F → List Bytes
  conditions_texts o =
      given (is_peg_bench o) (
        format_int o.reference_contract_id
        ∷ flag_text o.is_pegged_change_amount_decrease
        ∷ fl.format_float o.pegged_change_amount
        ∷ fl.format_float o.reference_change_amount
        ∷ o.reference_exchange_id
        ∷ [])
      ++ (format_int (pos (length o.conditions)) ∷ condition_texts o.conditions
          ++ (given (ltb 0 (length o.conditions))
                (flag_text o.conditions_ignore_rth ∷ flag_text o.conditions_cancel_order ∷ [])
              ++ o.adjusted_order_type
                ∷ fl.format_float o.trigger_price
                ∷ fl.format_float o.limit_price_offset
                ∷ fl.format_float o.adjusted_stop_price
                ∷ fl.format_float o.adjusted_stop_limit_price
                ∷ fl.format_float o.adjusted_trailing_amount
                ∷ format_int o.adjustable_trailing_unit
                ∷ []))

  abbrev pub tail_texts : ℤ → Order F → List Bytes
  tail_texts v o =
      given (at_least v 105) (o.ext_operator ∷ [])
      ++ (given (at_least v 106) (o.soft_dollar_tier.name ∷ o.soft_dollar_tier.value ∷ [])
          ++ (given (at_least v 111) (fl.format_float o.cash_qty ∷ [])
              ++ (given (at_least v 138) (o.mifid2_decision_maker ∷ o.mifid2_decision_algo ∷ [])
                  ++ (given (at_least v 139)
                        (o.mifid2_execution_trader ∷ o.mifid2_execution_algo ∷ [])
                      ++ (given (at_least v 141) (flag_text o.dont_use_auto_price_for_hedge ∷ [])
                          ++ (given (at_least v 145) (flag_text o.is_oms_container ∷ [])
                              ++ (given (at_least v 148)
                                    (flag_text o.discretionary_up_to_limit_price ∷ [])
                                  ++ (given (at_least v 151) (flag_text o.use_price_mgmt_algo ∷ [])
                                      ++ (given (at_least v 158) (int_text o.duration ∷ [])
                                          ++ given (at_least v 160)
                                              (int_text o.post_to_ats ∷ []))))))))))

  -- The texts of the message, from its id on.
  abbrev pub order_texts : ℤ → ℤ → Contract F → Order F → List Bytes
  order_texts v order_id c o =
      format_int (pos 3) ∷ contract_texts v order_id c
      ++ (terms_texts o
          ++ (legs_texts c o
              ++ (advisor_texts v o
                  ++ (settling_texts o
                      ++ (neutral_order_texts o
                          ++ (scale_texts o
                              ++ (hedge_texts c o
                                  ++ (algo_texts o ++ (conditions_texts o ++ tail_texts v o)))))))))
