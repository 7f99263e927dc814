-- ===== src/Decoder/Messages/OpenOrder/End.antt =====
-- The values from the state to the end of an open order.
use ibapi.Common.{
  List, [], ◌∷◌, ◌++◌, map, length, Bool, true, ◌≡◌, ℤ, pos, at_least, if◌then◌else◌,
}
use ibapi.Wire.Float.{Floats}
use ibapi.Buffer.Items.{Item, Int64, Text, Real, int, text, real, bool}
use ibapi.Data.Order.{Order, OrderState, is_peg_bench}
use ibapi.Data.Order.Values.{zero_order_state}
use ibapi.Decoder.Wrapper.{Callback}
use ibapi.Decoder.Messages.Lists.{all_items}
use ibapi.Decoder.Messages.Reads.{Reads, Reads-bind, Reads-pure, Reads-read_if, Reads-int, Counted}
use ibapi.Decoder.Messages.OrderBlocks.More.{
  read_peg_bench-Reads, read_adjusted-Reads, read_order_state-Reads, read_open_tail-Reads,
}
use ibapi.Decoder.OpenOrder.{
  read_pegged, read_open_conditions, counted_conditions, read_open_tail, read_order_state,
}
use ibapi.Decoder.Messages.Conditions.{WireCondition, condition_items, blank, conditions_lost}

-- The values of the state of an order.
pub record StateValues (F : Type 0) ⦃fl : Floats F⦄ : Type 0 where
  pub status : Text
  pub initial_margin_before : Text
  pub maintenance_margin_before : Text
  pub equity_with_loan_before : Text
  pub initial_margin_change : Text
  pub maintenance_margin_change : Text
  pub equity_with_loan_change : Text
  pub initial_margin_after : Text
  pub maintenance_margin_after : Text
  pub equity_with_loan_after : Text
  pub commission : Real F
  pub min_commission : Real F
  pub max_commission : Real F
  pub commission_currency : Text
  pub warning_text : Text

-- The values from the benchmark to the adjusted order.
pub record PegValues (F : Type 0) ⦃fl : Floats F⦄ : Type 0 where
  pub reference_contract_id : Int64
  pub is_pegged_change_amount_decrease : Bool
  pub pegged_change_amount : Real F
  pub reference_change_amount : Real F
  pub reference_exchange_id : Text
  pub conditions : Counted (WireCondition F)
  pub conditions_ignore_rth : Bool
  pub conditions_cancel_order : Bool
  pub adjusted_order_type : Text
  pub trigger_price : Real F
  pub trail_stop_price : Real F
  pub limit_price_offset : Real F
  pub adjusted_stop_price : Real F
  pub adjusted_stop_limit_price : Real F
  pub adjusted_trailing_amount : Real F
  pub adjustable_trailing_unit : Int64

-- The values at the end of an open order.
pub record TailValues (F : Type 0) ⦃fl : Floats F⦄ : Type 0 where
  pub soft_dollar_name : Text
  pub soft_dollar_value : Text
  pub soft_dollar_display_name : Text
  pub cash_qty : Real F
  pub dont_use_auto_price_for_hedge : Bool
  pub is_oms_container : Bool
  pub discretionary_up_to_limit_price : Bool
  pub use_price_mgmt_algo : Bool
  pub duration : Int64
  pub post_to_ats : Int64

module _ {F : Type 0} ⦃fl : Floats F⦄ where
  abbrev pub state_items : StateValues F → List (Item F)
  state_items x =
      text x.status
      ∷ text x.initial_margin_before
      ∷ text x.maintenance_margin_before
      ∷ text x.equity_with_loan_before
      ∷ text x.initial_margin_change
      ∷ text x.maintenance_margin_change
      ∷ text x.equity_with_loan_change
      ∷ text x.initial_margin_after
      ∷ text x.maintenance_margin_after
      ∷ text x.equity_with_loan_after
      ∷ real x.commission
      ∷ real x.min_commission
      ∷ real x.max_commission
      ∷ text x.commission_currency
      ∷ text x.warning_text
      ∷ []

  abbrev pub state_of : StateValues F → OrderState F
  state_of x = record zero_order_state {
    status = x.status.bytes;
    initial_margin_before = x.initial_margin_before.bytes;
    maintenance_margin_before = x.maintenance_margin_before.bytes;
    equity_with_loan_before = x.equity_with_loan_before.bytes;
    initial_margin_change = x.initial_margin_change.bytes;
    maintenance_margin_change = x.maintenance_margin_change.bytes;
    equity_with_loan_change = x.equity_with_loan_change.bytes;
    initial_margin_after = x.initial_margin_after.bytes;
    maintenance_margin_after = x.maintenance_margin_after.bytes;
    equity_with_loan_after = x.equity_with_loan_after.bytes;
    commission = x.commission.value;
    min_commission = x.min_commission.value;
    max_commission = x.max_commission.value;
    commission_currency = x.commission_currency.bytes;
    warning_text = x.warning_text.bytes;
  }

  -- The two flags come only with a condition.
  abbrev pub flag_items : List (WireCondition F) → Bool → Bool → List (Item F)
  flag_items [] ignore_rth cancel_order = []
  flag_items (w ∷ ws) ignore_rth cancel_order =
      all_items condition_items (w ∷ ws) ++ bool ignore_rth ∷ bool cancel_order ∷ []

  -- The order with these conditions, which are blank.
  abbrev pub with_conditions : List (WireCondition F) → Bool → Bool → Order F → Order F
  with_conditions [] ignore_rth cancel_order o = record o { conditions = [] }
  with_conditions (w ∷ ws) ignore_rth cancel_order o = record o {
    conditions = map blank (w ∷ ws);
    conditions_ignore_rth = ignore_rth;
    conditions_cancel_order = cancel_order;
  }

  -- The values of the benchmark come only with the type of the order.
  abbrev pub peg_items : Bool → PegValues F → List (Item F)
  peg_items is_pegged x =
      (if is_pegged
        then int x.reference_contract_id
          ∷ bool x.is_pegged_change_amount_decrease
          ∷ real x.pegged_change_amount
          ∷ real x.reference_change_amount
          ∷ text x.reference_exchange_id
          ∷ []
        else [])
      ++ ((int x.conditions.count
            ∷ flag_items x.conditions.elements x.conditions_ignore_rth x.conditions_cancel_order)
          ++ text x.adjusted_order_type
            ∷ real x.trigger_price
            ∷ real x.trail_stop_price
            ∷ real x.limit_price_offset
            ∷ real x.adjusted_stop_price
            ∷ real x.adjusted_stop_limit_price
            ∷ real x.adjusted_trailing_amount
            ∷ int x.adjustable_trailing_unit
            ∷ [])

  abbrev pub with_bench : PegValues F → Order F → Order F
  with_bench x o =
      if is_peg_bench o
      then record o {
        reference_contract_id = x.reference_contract_id.value;
        is_pegged_change_amount_decrease = x.is_pegged_change_amount_decrease;
        pegged_change_amount = x.pegged_change_amount.value;
        reference_change_amount = x.reference_change_amount.value;
        reference_exchange_id = x.reference_exchange_id.bytes;
      }
      else o

  abbrev pub with_adjusted : PegValues F → Order F → Order F
  with_adjusted x o = record o {
    adjusted_order_type = x.adjusted_order_type.bytes;
    trigger_price = x.trigger_price.value;
    trail_stop_price = x.trail_stop_price.value;
    limit_price_offset = x.limit_price_offset.value;
    adjusted_stop_price = x.adjusted_stop_price.value;
    adjusted_stop_limit_price = x.adjusted_stop_limit_price.value;
    adjusted_trailing_amount = x.adjusted_trailing_amount.value;
    adjustable_trailing_unit = x.adjustable_trailing_unit.value;
  }

  abbrev pub with_peg : PegValues F → Order F → Order F
  with_peg x o = with_adjusted x (
      with_conditions x.conditions.elements x.conditions_ignore_rth x.conditions_cancel_order
        (with_bench x o))

  abbrev pub tail_items : TailValues F → List (Item F)
  tail_items x =
      text x.soft_dollar_name
      ∷ text x.soft_dollar_value
      ∷ text x.soft_dollar_display_name
      ∷ real x.cash_qty
      ∷ bool x.dont_use_auto_price_for_hedge
      ∷ bool x.is_oms_container
      ∷ bool x.discretionary_up_to_limit_price
      ∷ bool x.use_price_mgmt_algo
      ∷ int x.duration
      ∷ int x.post_to_ats
      ∷ []

  abbrev pub with_tail : TailValues F → Order F → Order F
  with_tail x o = record o {
    soft_dollar_tier = record {
      name = x.soft_dollar_name.bytes;
      value = x.soft_dollar_value.bytes;
      display_name = x.soft_dollar_display_name.bytes;
    };
    cash_qty = x.cash_qty.value;
    dont_use_auto_price_for_hedge = x.dont_use_auto_price_for_hedge;
    is_oms_container = x.is_oms_container;
    discretionary_up_to_limit_price = x.discretionary_up_to_limit_price;
    use_price_mgmt_algo = x.use_price_mgmt_algo;
    duration = x.duration.value;
    post_to_ats = x.post_to_ats.value;
  }

  counted_conditions-Reads :
      (ws : List (WireCondition F)) (ignore_rth cancel_order : Bool) (o : Order F)
      → Reads {L = Callback F} {F = F}
          (counted_conditions o (pos (length ws)))
          (flag_items ws ignore_rth cancel_order)
          (with_conditions ws ignore_rth cancel_order o)
  unfolding counted_conditions
  counted_conditions-Reads [] ignore_rth cancel_order o = Reads-pure
  counted_conditions-Reads (w ∷ ws) ignore_rth cancel_order o = record {
    takes = conditions_lost o (w ∷ ws) ignore_rth cancel_order;
  }

  conditions-Reads :
      (x : PegValues F) (o : Order F)
      → Reads {L = Callback F} {F = F}
          (read_open_conditions o)
          (int x.conditions.count
            ∷ flag_items x.conditions.elements x.conditions_ignore_rth x.conditions_cancel_order)
          (with_conditions x.conditions.elements x.conditions_ignore_rth x.conditions_cancel_order
            o)
  unfolding read_open_conditions
  conditions-Reads x o = Reads-bind (counted_conditions o) (Reads-int x.conditions.count) (
      rw x.conditions.is_length (
        counted_conditions-Reads x.conditions.elements x.conditions_ignore_rth
          x.conditions_cancel_order o))

  pub peg-Reads :
      (x : PegValues F) (o : Order F)
      → Reads {L = Callback F} {F = F} (read_pegged o) (peg_items (is_peg_bench o) x) (with_peg x o)
  unfolding read_pegged
  peg-Reads x o =
      Reads-bind _
        (Reads-read_if (is_peg_bench o) o (
          read_peg_bench-Reads o x.reference_contract_id x.is_pegged_change_amount_decrease
            x.pegged_change_amount x.reference_change_amount x.reference_exchange_id))
        (Reads-bind _ (conditions-Reads x (with_bench x o)) (
          read_adjusted-Reads
            (with_conditions x.conditions.elements x.conditions_ignore_rth x.conditions_cancel_order
              (with_bench x o))
            x.adjusted_order_type x.trigger_price x.trail_stop_price x.limit_price_offset
            x.adjusted_stop_price x.adjusted_stop_limit_price x.adjusted_trailing_amount
            x.adjustable_trailing_unit))

module _ {F : Type 0} ⦃fl : Floats F⦄ (version : ℤ) (new : at_least version 160 ≡ true) where
  pub state-Reads :
      (x : StateValues F)
      → Reads {L = Callback F} {F = F} (read_order_state version) (state_items x) (state_of x)
  state-Reads x =
      read_order_state-Reads version x.status x.initial_margin_before x.maintenance_margin_before
        x.equity_with_loan_before x.initial_margin_change x.maintenance_margin_change
        x.equity_with_loan_change x.initial_margin_after x.maintenance_margin_after
        x.equity_with_loan_after x.commission x.min_commission x.max_commission
        x.commission_currency x.warning_text new

  pub tail-Reads :
      (x : TailValues F) (o : Order F)
      → Reads {L = Callback F} {F = F} (read_open_tail version o) (tail_items x) (with_tail x o)
  tail-Reads x o =
      read_open_tail-Reads version o x.soft_dollar_name x.soft_dollar_value
        x.soft_dollar_display_name x.cash_qty x.dont_use_auto_price_for_hedge x.is_oms_container
        x.discretionary_up_to_limit_price x.use_price_mgmt_algo x.duration x.post_to_ats new
