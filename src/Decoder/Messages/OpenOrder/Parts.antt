-- ===== src/Decoder/Messages/OpenOrder/Parts.antt =====
-- The values from the legs to the algorithm of an open order.
use ibapi.Common.{
  List, [], ◌∷◌, ◌++◌, map, Bool, true, ◌&&◌, some, ◌≡◌, refl, ℤ, pos, at_least, has_text, not,
  if◌then◌else◌, append-nil,
}
use ibapi.Wire.Float.{Floats}
use ibapi.Wire.Decimal.{format_int}
use ibapi.Buffer.Items.{Item, Int64, Text, Real, int, text, real, bool}
use ibapi.Buffer.RoundTrip.{readers}
use ibapi.Data.Contract.{Contract, ComboLeg, TagValue, DeltaNeutralContract}
use ibapi.Data.Order.{Order, OrderComboLeg, has_increment}
use ibapi.Decoder.Wrapper.{Callback}
use ibapi.Decoder.Messages.Lists.{all_items}
use ibapi.Decoder.Messages.Reads.{
  Reads, Reads-bind, Reads-read_if, Reads-guarded, Reads-there, Reads-int, Reads-text, Reads-bool,
  Reads-real, Reads-set_real, Reads-counted, Reads-end, Counted,
}
use ibapi.Decoder.Messages.OrderBlocks.{late}
use ibapi.Decoder.Messages.OrderBlocks.More.{
  read_scale_size-Reads, read_scale_prices-Reads, read_clearing-Reads,
}
use ibapi.Decoder.OrderFields.Parts.{
  read_order_combo_leg, read_combo_leg, read_combo_legs, read_order_combo_legs, read_scale,
  read_hedge, read_delta_neutral, read_neutral_contract, read_algo,
}
use ibapi.Decoder.Contracts.{read_tag_value}
use ibapi.Decoder.OpenOrder.{read_open_parts}

-- A leg of the contract.
pub record LegValues : Type 0 where
  pub contract_id : Int64
  pub ratio : Int64
  pub action : Text
  pub exchange : Text
  pub open_close : Int64
  pub short_sale_slot : Int64
  pub designated_location : Text
  pub exempt_code : Int64

-- The values from the legs to the algorithm.
pub record PartValues (F : Type 0) ⦃fl : Floats F⦄ : Type 0 where
  pub combo_legs_description : Text
  pub combo_legs : Counted LegValues
  pub order_combo_legs : Counted (Real F)
  pub smart_combo_routing_params : Counted (Text × Text)
  pub scale_init_level_size : Int64
  pub scale_subs_level_size : Int64
  pub scale_price_increment : Real F
  pub scale_price_adjust_value : Real F
  pub scale_price_adjust_interval : Int64
  pub scale_profit_offset : Real F
  pub scale_auto_reset : Bool
  pub scale_init_position : Int64
  pub scale_init_fill_qty : Int64
  pub scale_random_percent : Bool
  pub hedge_type : Text
  pub hedge_param : Text
  pub opt_out_smart_routing : Bool
  pub clearing_account : Text
  pub clearing_intent : Text
  pub not_held : Bool
  pub has_neutral : Bool
  pub neutral_contract_id : Int64
  pub neutral_delta : Real F
  pub neutral_price : Real F
  pub algo_strategy : Text
  pub algo_params : Counted (Text × Text)
  pub solicited : Bool

abbrev pub leg_of : LegValues → ComboLeg
leg_of x = record {
  contract_id = x.contract_id.value;
  ratio = x.ratio.value;
  action = x.action.bytes;
  exchange = x.exchange.bytes;
  open_close = x.open_close.value;
  short_sale_slot = x.short_sale_slot.value;
  designated_location = x.designated_location.bytes;
  exempt_code = x.exempt_code.value;
}

abbrev pub tag_of : Text × Text → TagValue
tag_of tv = record { tag = tv.0.bytes; value = tv.1.bytes }

module _ {F : Type 0} ⦃fl : Floats F⦄ where
  abbrev pub leg_items : LegValues → List (Item F)
  leg_items x =
      int x.contract_id
      ∷ int x.ratio
      ∷ text x.action
      ∷ text x.exchange
      ∷ int x.open_close
      ∷ int x.short_sale_slot
      ∷ text x.designated_location
      ∷ int x.exempt_code
      ∷ []

  abbrev pub price_item : Real F → List (Item F)
  price_item v = real v ∷ []

  abbrev pub tag_items : Text × Text → List (Item F)
  tag_items tv = text tv.0 ∷ text tv.1 ∷ []

  abbrev pub order_leg_of : Real F → OrderComboLeg F
  order_leg_of v = record { price = v.value }

  abbrev pub with_legs : PartValues F → Contract F → Contract F
  with_legs x c = record c {
    combo_legs_description = x.combo_legs_description.bytes;
    combo_legs = map leg_of x.combo_legs.elements;
  }

  abbrev pub with_order_legs : PartValues F → Order F → Order F
  with_order_legs x o = record o {
    order_combo_legs = map order_leg_of x.order_combo_legs.elements;
    smart_combo_routing_params = map tag_of x.smart_combo_routing_params.elements;
  }

  abbrev pub with_size : PartValues F → Order F → Order F
  with_size x o = record o {
    scale_init_level_size = x.scale_init_level_size.value;
    scale_subs_level_size = x.scale_subs_level_size.value;
    scale_price_increment = x.scale_price_increment.value;
  }

  abbrev pub with_scale : PartValues F → Order F → Order F
  with_scale x o =
      if has_increment (with_size x o)
      then record (with_size x o) {
        scale_price_adjust_value = x.scale_price_adjust_value.value;
        scale_price_adjust_interval = x.scale_price_adjust_interval.value;
        scale_profit_offset = x.scale_profit_offset.value;
        scale_auto_reset = x.scale_auto_reset;
        scale_init_position = x.scale_init_position.value;
        scale_init_fill_qty = x.scale_init_fill_qty.value;
        scale_random_percent = x.scale_random_percent;
      }
      else with_size x o

  abbrev pub is_scaled : PartValues F → Bool
  is_scaled x =
      not (fl.float_eq x.scale_price_increment.value fl.unset_float)
      && fl.float_lt (fl.of_int (pos 0)) x.scale_price_increment.value

  abbrev pub with_hedge : PartValues F → Order F → Order F
  with_hedge x o = record o {
    hedge_type = x.hedge_type.bytes;
    hedge_param = if has_text x.hedge_type.bytes then x.hedge_param.bytes else o.hedge_param;
  }

  abbrev pub with_opt_out : PartValues F → Order F → Order F
  with_opt_out x o = record o { opt_out_smart_routing = x.opt_out_smart_routing }

  abbrev pub with_clearing : PartValues F → Order F → Order F
  with_clearing x o = record o {
    clearing_account = x.clearing_account.bytes;
    clearing_intent = x.clearing_intent.bytes;
    not_held = x.not_held;
  }

  abbrev pub neutral_of : PartValues F → DeltaNeutralContract F
  neutral_of x = record {
    contract_id = x.neutral_contract_id.value;
    delta = x.neutral_delta.value;
    price = x.neutral_price.value;
  }

  abbrev pub with_neutral : PartValues F → Contract F → Contract F
  with_neutral x c = record c {
    delta_neutral_contract =
        if x.has_neutral then some (neutral_of x) else c.delta_neutral_contract;
  }

  abbrev pub with_algo : PartValues F → Order F → Order F
  with_algo x o = record o {
    algo_strategy = x.algo_strategy.bytes;
    algo_params =
        if has_text x.algo_strategy.bytes then map tag_of x.algo_params.elements else o.algo_params;
    solicited = x.solicited;
  }

  -- The items of the parts, in the order of the wire. Some come only under a condition.
  abbrev pub part_items : PartValues F → List (Item F)
  part_items x =
      (text x.combo_legs_description
        ∷ int x.combo_legs.count
        ∷ all_items leg_items x.combo_legs.elements)
      ++ (((int x.order_combo_legs.count ∷ all_items price_item x.order_combo_legs.elements)
            ++ (int x.smart_combo_routing_params.count
                ∷ all_items tag_items x.smart_combo_routing_params.elements))
          ++ ((int x.scale_init_level_size
                ∷ int x.scale_subs_level_size
                ∷ real x.scale_price_increment
                ∷ (if is_scaled x
                    then real x.scale_price_adjust_value
                      ∷ int x.scale_price_adjust_interval
                      ∷ real x.scale_profit_offset
                      ∷ bool x.scale_auto_reset
                      ∷ int x.scale_init_position
                      ∷ int x.scale_init_fill_qty
                      ∷ bool x.scale_random_percent
                      ∷ []
                    else []))
              ++ ((text x.hedge_type
                    ∷ (if has_text x.hedge_type.bytes then text x.hedge_param ∷ [] else []))
                  ++ (bool x.opt_out_smart_routing
                      ∷ text x.clearing_account
                      ∷ text x.clearing_intent
                      ∷ bool x.not_held
                      ∷ ((bool x.has_neutral
                            ∷ (if x.has_neutral
                                then int x.neutral_contract_id
                                  ∷ real x.neutral_delta
                                  ∷ real x.neutral_price
                                  ∷ []
                                else []))
                          ++ (text x.algo_strategy
                              ∷ ((if has_text x.algo_strategy.bytes
                                    then int x.algo_params.count
                                      ∷ all_items tag_items x.algo_params.elements
                                    else [])
                                  ++ bool x.solicited ∷ [])))))))

  -- The order and the contract with these values.
  abbrev pub with_parts : PartValues F → Order F → Order F
  with_parts x o =
      with_algo x
        (with_clearing x (with_opt_out x (with_hedge x (with_scale x (with_order_legs x o)))))

  abbrev pub contract_with_parts : PartValues F → Contract F → Contract F
  contract_with_parts x c = with_neutral x (with_legs x c)

module _ {F : Type 0} ⦃fl : Floats F⦄ where
  leg-Reads :
      (x : LegValues) → Reads {L = Callback F} {F = F} read_combo_leg (leg_items x) (leg_of x)
  unfolding read_combo_leg
  leg-Reads x = record {
    takes = λ rest b l. (format_int x.exempt_code.value, simp (readers, append-nil));
  }

  order_leg-Reads :
      (v : Real F) → Reads {L = Callback F} read_order_combo_leg (price_item v) (order_leg_of v)
  unfolding read_order_combo_leg
  order_leg-Reads v = Reads-end _ (Reads-set_real v)

  tag-Reads :
      (tv : Text × Text) → Reads {L = Callback F} {F = F} read_tag_value (tag_items tv) (tag_of tv)
  unfolding read_tag_value
  tag-Reads tv = Reads-bind _ (Reads-text (tv.0)) (Reads-end _ (Reads-text (tv.1)))

module _ {F : Type 0} ⦃fl : Floats F⦄ (version : ℤ) (new : at_least version 160 ≡ true) where
  legs-Reads :
      (x : PartValues F) (c : Contract F)
      → Reads {L = Callback F} {F = F}
          (read_combo_legs version c)
          (text x.combo_legs_description
            ∷ int x.combo_legs.count
            ∷ all_items leg_items x.combo_legs.elements)
          (with_legs x c)
  unfolding read_combo_legs
  legs-Reads x c = Reads-bind _ (Reads-text x.combo_legs_description) (
      Reads-end _ (Reads-there _ (late version new 29 refl) (Reads-counted leg-Reads x.combo_legs)))

  order_legs-Reads :
      (x : PartValues F) (o : Order F)
      → Reads {L = Callback F} {F = F}
          (read_order_combo_legs version o)
          ((int x.order_combo_legs.count ∷ all_items price_item x.order_combo_legs.elements)
            ++ (int x.smart_combo_routing_params.count
                ∷ all_items tag_items x.smart_combo_routing_params.elements))
          (with_order_legs x o)
  unfolding read_order_combo_legs
  order_legs-Reads x o =
      Reads-bind _
        (Reads-there _ (late version new 29 refl)
          (Reads-counted order_leg-Reads x.order_combo_legs))
        (Reads-end _ (
          Reads-there _ (late version new 26 refl)
            (Reads-counted tag-Reads x.smart_combo_routing_params)))

  scale-Reads :
      (x : PartValues F) (o : Order F)
      → Reads {L = Callback F} {F = F}
          (read_scale version o)
          (int x.scale_init_level_size
            ∷ int x.scale_subs_level_size
            ∷ real x.scale_price_increment
            ∷ (if is_scaled x
                then real x.scale_price_adjust_value
                  ∷ int x.scale_price_adjust_interval
                  ∷ real x.scale_profit_offset
                  ∷ bool x.scale_auto_reset
                  ∷ int x.scale_init_position
                  ∷ int x.scale_init_fill_qty
                  ∷ bool x.scale_random_percent
                  ∷ []
                else []))
          (with_scale x o)
  unfolding read_scale
  scale-Reads x o =
      Reads-bind _
        (read_scale_size-Reads version o x.scale_init_level_size x.scale_subs_level_size
          x.scale_price_increment new)
        (Reads-guarded _ _ _ (late version new 28 refl) (
          Reads-read_if (is_scaled x) (with_size x o) (
            read_scale_prices-Reads (with_size x o) x.scale_price_adjust_value
              x.scale_price_adjust_interval x.scale_profit_offset x.scale_auto_reset
              x.scale_init_position x.scale_init_fill_qty x.scale_random_percent)))

  hedge-Reads :
      (x : PartValues F) (o : Order F)
      → Reads {L = Callback F} {F = F}
          (read_hedge version o)
          (text x.hedge_type
            ∷ (if has_text x.hedge_type.bytes then text x.hedge_param ∷ [] else []))
          (with_hedge x o)
  unfolding read_hedge
  hedge-Reads x o =
      Reads-bind _ (Reads-there _ (late version new 24 refl) (Reads-text x.hedge_type)) (
        Reads-end _ (
          Reads-guarded _ _ _ (late version new 24 refl)
            (Reads-read_if (has_text x.hedge_type.bytes) o.hedge_param (Reads-text x.hedge_param))))

  neutral-Reads :
      (x : PartValues F) (c : Contract F)
      → Reads {L = Callback F} {F = F}
          (read_delta_neutral version c)
          (bool x.has_neutral
            ∷ (if x.has_neutral
                then int x.neutral_contract_id ∷ real x.neutral_delta ∷ real x.neutral_price ∷ []
                else []))
          (with_neutral x c)
  unfolding read_delta_neutral read_neutral_contract
  neutral-Reads x c =
      Reads-bind _ (Reads-there _ (late version new 20 refl) (Reads-bool x.has_neutral)) (
        Reads-end _ (
          Reads-read_if x.has_neutral c.delta_neutral_contract (
            Reads-bind _ (Reads-int x.neutral_contract_id) (
              Reads-bind _ (Reads-real x.neutral_delta)
                (Reads-end _ (Reads-real x.neutral_price))))))

  algo-Reads :
      (x : PartValues F) (o : Order F)
      → Reads {L = Callback F} {F = F}
          (read_algo version o)
          (text x.algo_strategy
            ∷ ((if has_text x.algo_strategy.bytes
                  then int x.algo_params.count ∷ all_items tag_items x.algo_params.elements
                  else [])
                ++ bool x.solicited ∷ []))
          (with_algo x o)
  unfolding read_algo
  algo-Reads x o =
      Reads-bind _ (Reads-there _ (late version new 21 refl) (Reads-text x.algo_strategy)) (
        Reads-bind _
          (Reads-guarded _ _ _ (late version new 21 refl) (
            Reads-read_if (has_text x.algo_strategy.bytes) o.algo_params
              (Reads-counted tag-Reads x.algo_params)))
          (Reads-end _ (Reads-there _ (late version new 33 refl) (Reads-bool x.solicited))))

  pub parts-Reads :
      (x : PartValues F) (c : Contract F) (o : Order F)
      → Reads {L = Callback F} {F = F}
          (read_open_parts version c o)
          (part_items x)
          (contract_with_parts x c, with_parts x o)
  unfolding read_open_parts
  parts-Reads x c o = Reads-bind _ (legs-Reads x c) (
      Reads-bind _ (order_legs-Reads x o) (
        Reads-bind _ (scale-Reads x (with_order_legs x o)) (
          Reads-bind _ (hedge-Reads x (with_scale x (with_order_legs x o))) (
            Reads-bind _
              (Reads-there _ (late version new 25 refl) (Reads-bool x.opt_out_smart_routing))
              (Reads-bind _
                (read_clearing-Reads version
                  (with_opt_out x (with_hedge x (with_scale x (with_order_legs x o))))
                  x.clearing_account x.clearing_intent x.not_held new)
                (Reads-bind _ (neutral-Reads x (with_legs x c)) (
                  Reads-end _ (
                    algo-Reads x (
                      with_clearing x (
                        with_opt_out x (with_hedge x (with_scale x (with_order_legs x o)))))))))))))
