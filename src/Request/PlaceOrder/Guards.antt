-- ===== src/Request/PlaceOrder/Guards.antt =====
-- The version guards of `PlaceOrder` (client.go): a Go `switch` whose first case that holds is run.
-- Some cases run over into the body of the next one, whose condition is not asked then.
pub mod Switch
pub mod Recent
use ibapi.Common.{
  ℕ, List, [], ◌∷◌, ◌++◌, Bool, true, false, not, ◌&&◌, ◌||◌, Option, none, some, Bytes, codes, ℤ,
  negsuc, below, is_pos, int_eq, has_text, if◌then◌else◌,
}
use ibapi.Wire.Float.{Floats}
use ibapi.Wire.Encode.{unset_int}
use ibapi.Data.Contract.{Contract, ComboLeg}
use ibapi.Data.Order.{Order, OrderComboLeg, has_increment}
use ibapi.Request.PlaceOrder.Fields.{is_bag}

-- What the guards come to: the order goes on; an error is reported and the order goes on all the
-- same, since the case does not return; an error is reported and the order is given up.
pub data Verdict : Type 0 where
  accepted : Verdict
  warned : Bytes → Verdict
  refused : Bytes → Verdict

-- A case: the version that brought what it asks about, whether the order has that, and its body.
abbrev pub Case : Type 0
Case = ℕ × Bool × Verdict

-- `switch v := ic.serverVersion; { case v < k && p: … }`: the first case whose condition holds.
unfoldable pub switch : ℤ → List Case → Verdict
switch v [] = accepted
switch v ((k, p, body) ∷ cases) = if below v k && p then body else switch v cases

abbrev pub is_set_int : ℤ → Bool
is_set_int i = not (int_eq i unset_int)

abbrev is_some : {A : Type 0} → Option A → Bool
is_some none = false
is_some (some a) = true

-- A leg of the contract has an exempt code.
unfoldable pub exempts : List ComboLeg → Bool
exempts [] = false
exempts (l ∷ ls) = if not (int_eq l.exempt_code (negsuc 0)) then true else exempts ls

abbrev hedge_refusal : Verdict
hedge_refusal = refused (codes "  It does not support hedge orders.")

module _ {F : Type 0} ⦃fl : Floats F⦄ where
  abbrev pub is_set : F → Bool
  is_set x = not (fl.float_eq x fl.unset_float)

  -- A leg of the order has a price.
  unfoldable pub priced : List (OrderComboLeg F) → Bool
  priced [] = false
  priced (l ∷ ls) = if is_set l.price then true else priced ls

  -- The body of the case of `ORDER_COMBO_LEGS_PRICE`, and the one that it runs over into.
  unfoldable pub leg_price_case : Order F → Verdict
  unfolding priced
  leg_price_case o =
      if priced o.order_combo_legs
      then refused (codes "  It does not support per-leg prices for order combo legs.")
      else refused (codes "  It does not support trailing percent parameter.")

  -- The parameters of a scale order that `SCALE_ORDERS3` brought.
  unfoldable pub scales : Order F → Bool
  scales o =
      has_increment o
      && (is_set o.scale_price_adjust_value
          || is_set_int o.scale_price_adjust_interval
          || is_set o.scale_profit_offset
          || o.scale_auto_reset
          || is_set_int o.scale_init_position
          || is_set_int o.scale_init_fill_qty
          || o.scale_random_percent)

  -- The body of the case of `SCALE_ORDERS3` and those behind it.
  unfoldable pub scale_case : Order F → Verdict
  unfolding scales leg_price_case
  scale_case o =
      if scales o
      then refused (
          codes
            "  It does not support Scale order parameters: PriceAdjustValue, PriceAdjustInterval, "
          ++ codes "ProfitOffset, AutoReset, InitPosition, InitFillQty and RandomPercent.")
      else leg_price_case o

  -- The body of the case of `DELTA_NEUTRAL_OPEN_CLOSE` and those behind it.
  unfoldable pub open_close_case : Order F → Verdict
  unfolding scale_case
  open_close_case o =
      if has_text o.delta_neutral_open_close
        || o.delta_neutral_short_sale
        || is_pos o.delta_neutral_short_sale_slot
        || has_text o.delta_neutral_designated_location
      then refused (
          codes
            "  It does not support deltaNeutral parameters: OpenClose, ShortSale, ShortSaleSlot, DesignatedLocation.")
      else scale_case o

  -- The body of the case of `DELTA_NEUTRAL_CONID` and those behind it.
  unfoldable pub neutral_id_case : Order F → Verdict
  unfolding open_close_case
  neutral_id_case o =
      if is_pos o.delta_neutral_contract_id
        || has_text o.delta_neutral_settling_firm
        || has_text o.delta_neutral_clearing_account
        || has_text o.delta_neutral_clearing_intent
      then refused (
          codes
            "  It does not support deltaNeutral parameters: ConId, SettlingFirm, ClearingAccount, ClearingIntent.")
      else open_close_case o

  -- The body of the second case of `SSHORTX` and the one behind it.
  unfoldable pub short_sale_case : Contract F → Verdict
  unfolding exempts
  short_sale_case c =
      if exempts c.combo_legs
      then refused (codes "  It does not support exemptCode parameter.")
      else hedge_refusal

  -- The cases up to the neutral order's.
  unfoldable pub old_cases : Contract F → Order F → List Case
  unfolding short_sale_case
  old_cases c o =
      (
        40,
        is_some c.delta_neutral_contract,
        refused (codes "  It does not support delta-neutral orders."),
      )
      ∷ (
        40,
        is_set_int o.scale_subs_level_size,
        refused (codes "  It does not support Subsequent Level Size for Scale orders."),
      )
      ∷ (41, has_text o.algo_strategy, refused (codes "  It does not support algo orders."))
      ∷ (44, o.not_held, refused (codes "  It does not support notHeld parameter."))
      ∷ (
        45,
        (has_text c.security_type || has_text c.security_id),
        refused (codes "  It does not support secIdType and secId parameters."),
      )
      ∷ (
        46,
        is_set_int c.contract_id && is_pos c.contract_id,
        refused (codes "  It does not support conId parameter."),
      )
      ∷ (
        52,
        not (int_eq o.exempt_code (negsuc 0)),
        refused (codes "  It does not support exemptCode parameter."),
      )
      ∷ (52, true, short_sale_case c)
      ∷ (54, has_text o.hedge_type, hedge_refusal)
      ∷ (
        56,
        o.opt_out_smart_routing,
        refused (codes "  It does not support optOutSmartRouting parameter."),
      )
      ∷ []

  -- The cases that run over into each other.
  unfoldable pub chained_cases : Contract F → Order F → List Case
  unfolding neutral_id_case open_close_case scale_case leg_price_case
  chained_cases c o =
      (58, true, neutral_id_case o)
      ∷ (66, true, open_close_case o)
      ∷ (60, true, scale_case o)
      ∷ (61, is_bag c, leg_price_case o)
      ∷ (
        62,
        is_set o.trailing_percent,
        refused (codes "  It does not support trailing percent parameter."),
      )
      ∷ []

  -- The cases behind them.
  unfoldable pub new_cases : Contract F → Order F → List Case
  new_cases c o =
      (
        68,
        has_text c.trading_class,
        refused (codes "  It does not support tradingClass parameter in placeOrder."),
      )
      ∷ (
        69,
        (has_text o.scale_table || has_text o.active_start_time || has_text o.active_stop_time),
        refused (
            codes
              "  It does not support scaleTable, activeStartTime and activeStopTime parameters."),
      )
      ∷ (71, has_text o.algo_id, refused (codes "  It does not support algoId parameter."))
      ∷ (73, o.solicited, refused (codes "  It does not support order solicited parameter."))
      ∷ (103, has_text o.model_code, refused (codes "  It does not support model code parameter."))
      ∷ (
        105,
        has_text o.ext_operator,
        refused (codes "  It does not support ext operator parameter"),
      )
      ∷ (
        106,
        (has_text o.soft_dollar_tier.name || has_text o.soft_dollar_tier.value),
        refused (codes " It does not support soft dollar tier"),
      )
      ∷ (111, is_set o.cash_qty, refused (codes " It does not support cash quantity parameter"))
      ∷ (
        138,
        (has_text o.mifid2_decision_maker || has_text o.mifid2_decision_algo),
        refused (codes " It does not support MIFID II decision maker parameters"),
      )
      ∷ (
        139,
        (has_text o.mifid2_execution_trader || has_text o.mifid2_execution_algo),
        refused (codes " It does not support MIFID II execution parameters"),
      )
      ∷ (
        141,
        o.dont_use_auto_price_for_hedge,
        refused (codes " It does not support dontUseAutoPriceForHedge parameter"),
      )
      ∷ (145, o.is_oms_container, refused (codes " It does not support oms container parameter"))
      ∷ (
        151,
        o.use_price_mgmt_algo,
        refused (codes " It does not support Use price management algo requests"),
      )
      ∷ (158, is_set_int o.duration, warned (codes " It does not support duration attribute"))
      ∷ (160, is_set_int o.post_to_ats, warned (codes " It does not support postToAts attribute"))
      ∷ []

  abbrev pub guards : Contract F → Order F → List Case
  guards c o = old_cases c o ++ (chained_cases c o ++ new_cases c o)

  -- The guards of `PlaceOrder`.
  unfoldable pub order_verdict : ℤ → Contract F → Order F → Verdict
  unfolding switch old_cases chained_cases new_cases
  order_verdict v c o = switch v (guards c o)
