-- ===== src/Decoder/Messages/Conditions.antt =====
-- The order conditions (orderCondition.go): what is sent of them, and what is left of them when they
-- are read.
use ibapi.Common.{
  ℕ, List, [], ◌∷◌, ◌++◌, Bool, false, some, ◌≡◌, refl, ℤ, pos, map, length, append-nil,
  append_assoc, arith,
}
use ibapi.Wire.Float.{Floats}
use ibapi.Wire.Decimal.{format_int}
use ibapi.Buffer.Items.{Item, Int64, Text, Real, int, text, real, bool, print}
use ibapi.Buffer.RoundTrip.{readers}
use ibapi.Data.Condition.{
  OrderCondition, OperatorCondition, ContractCondition, OrderConditioner, price_condition,
  time_condition, margin_condition, execution_condition, volume_condition, percent_change_condition,
  to_fields, contract_fields, operator_fields, condition_fields, decode, decode_contract,
  decode_operator, decode_condition, cond_type, set_cond_type, zero_condition, init_order_condition,
}
use ibapi.Data.Order.{Order}
use ibapi.Decoder.Wrapper.{Callback}
use ibapi.Decoder.Dispatch.{msg_id}
use ibapi.Decoder.Messages.Lists.{all_items, Takes, Takes-repeat}
use ibapi.Decoder.OrderFields.Parts.{read_order_condition, read_conditions, decode_new}

-- A condition as a server prints it.
pub data WireCondition (F : Type 0) ⦃fl : Floats F⦄ : Type 0 where
  price : Text → Bool → Int64 → Text → Real F → Int64 → WireCondition F
  time : Text → Bool → Text → WireCondition F
  margin : Text → Bool → Real F → WireCondition F
  execution : Text → Text → Text → Text → WireCondition F
  volume : Text → Bool → Int64 → Text → Int64 → WireCondition F
  percent_change : Text → Bool → Int64 → Text → Real F → WireCondition F

abbrev blank_base : OrderCondition
blank_base = record { condition_type = pos 0; is_conjunction_connection = false }

abbrev blank_operator : OperatorCondition
blank_operator = record { order_condition = blank_base; is_more = false }

abbrev blank_contract : ContractCondition
blank_contract = record { operator_condition = blank_operator; con_id = pos 0; exchange = [] }

module _ {F : Type 0} ⦃fl : Floats F⦄ where
  abbrev pub type_of : WireCondition F → Int64
  type_of (price _ _ _ _ _ _) = msg_id 1 refl
  type_of (time _ _ _) = msg_id 3 refl
  type_of (margin _ _ _) = msg_id 4 refl
  type_of (execution _ _ _ _) = msg_id 5 refl
  type_of (volume _ _ _ _ _) = msg_id 6 refl
  type_of (percent_change _ _ _ _ _) = msg_id 7 refl

  abbrev pub values_of : WireCondition F → List (Item F)
  values_of (price connector more con_id exchange p trigger) =
      text connector ∷ bool more ∷ int con_id ∷ text exchange ∷ real p ∷ int trigger ∷ []
  values_of (time connector more t) = text connector ∷ bool more ∷ text t ∷ []
  values_of (margin connector more percent) = text connector ∷ bool more ∷ real percent ∷ []
  values_of (execution connector sec_type exchange symbol) =
      text connector ∷ text sec_type ∷ text exchange ∷ text symbol ∷ []
  values_of (volume connector more con_id exchange v) =
      text connector ∷ bool more ∷ int con_id ∷ text exchange ∷ int v ∷ []
  values_of (percent_change connector more con_id exchange percent) =
      text connector ∷ bool more ∷ int con_id ∷ text exchange ∷ real percent ∷ []

  abbrev pub condition_items : WireCondition F → List (Item F)
  condition_items w = int (type_of w) ∷ values_of w

  -- The condition of this type with every field zero.
  abbrev pub blank : WireCondition F → OrderConditioner F
  blank (price _ _ _ _ _ _) = price_condition (record {
    contract_condition = blank_contract;
    price = fl.of_int (pos 0);
    trigger_method = pos 0;
  })
  blank (time _ _ _) = time_condition (record { operator_condition = blank_operator; time = [] })
  blank (margin _ _ _) =
      margin_condition (record { operator_condition = blank_operator; percent = fl.of_int (pos 0) })
  blank (execution _ _ _ _) =
      execution_condition
        (record { order_condition = blank_base; sec_type = []; exchange = []; symbol = [] })
  blank (volume _ _ _ _ _) =
      volume_condition (record { contract_condition = blank_contract; volume = pos 0 })
  blank (percent_change _ _ _ _ _) =
      percent_change_condition
        (record { contract_condition = blank_contract; change_percent = fl.of_int (pos 0) })

  -- For every type that `InitOrderCondition` knows: the size it returns is the number of fields that
  -- the condition sends, and the type of the condition is 0, whatever type was asked for.
  pub init_order_condition-size :
      (t : ℤ) (c : OrderConditioner F) (size : ℕ)
      → init_order_condition t ≡ some (c, size)
      → (length (to_fields c) ≡ size) × (cond_type c ≡ pos 0)
  unfolding init_order_condition zero_condition set_cond_type to_fields contract_fields
      operator_fields condition_fields
  init_order_condition-size t c size h = ground arith

  -- What `init_order_condition` makes for a condition of the wire.
  init_order_condition-blank :
      (w : WireCondition F)
      → init_order_condition (type_of w).value ≡ some (blank w, length (values_of w))
  unfolding init_order_condition zero_condition set_cond_type
  init_order_condition-blank (price _ _ _ _ _ _) = refl
  init_order_condition-blank (time _ _ _) = refl
  init_order_condition-blank (margin _ _ _) = refl
  init_order_condition-blank (execution _ _ _ _) = refl
  init_order_condition-blank (volume _ _ _ _ _) = refl
  init_order_condition-blank (percent_change _ _ _ _ _) = refl

  decode-Takes :
      (w : WireCondition F)
      → Takes {L = Callback F}
          (decode_new (some (blank w, length (values_of w))))
          (values_of w)
          (blank w)
          []
  unfolding decode decode_contract decode_operator decode_condition decode_new
  decode-Takes (price _ _ _ _ _ t) rest b l = (format_int t.value, simp (readers, append-nil))
  decode-Takes (time _ _ t) rest b l = (t.bytes, simp (readers, append-nil))
  decode-Takes (margin _ _ p) rest b l = (fl.format_float p.value, simp (readers, append-nil))
  decode-Takes (execution _ _ _ s) rest b l = (s.bytes, simp (readers, append-nil))
  decode-Takes (volume _ _ _ _ v) rest b l = (format_int v.value, simp (readers, append-nil))
  decode-Takes (percent_change _ _ _ _ p) rest b l =
      (fl.format_float p.value, simp (readers, append-nil))

  read_order_condition-Takes :
      (w : WireCondition F)
      → Takes {L = Callback F} read_order_condition (condition_items w) (blank w) []
  unfolding read_order_condition
  read_order_condition-Takes w rest b l =
      let (b', p) = decode-Takes w rest (format_int (type_of w).value) l in
      (b', simp (readers, init_order_condition-blank w, p))

  -- For every list of conditions of the six types, with any values, and every order: the decoder
  -- reads exactly these conditions and the two flags behind them, and the order gets as many
  -- conditions of these types, each with every field zero: no value of a condition is kept.
  pub conditions_lost :
      (o : Order F) (ws : List (WireCondition F)) (ignore_rth cancel_order : Bool)
      → Takes {L = Callback F}
          (read_conditions (length ws) o)
          (all_items condition_items ws ++ bool ignore_rth ∷ bool cancel_order ∷ [])
          (record o {
            conditions = map blank ws;
            conditions_ignore_rth = ignore_rth;
            conditions_cancel_order = cancel_order;
          })
          []
  unfolding read_conditions
  conditions_lost o ws ignore_rth cancel_order rest b l =
      let (b', p) =
        Takes-repeat read_order_condition condition_items blank read_order_condition-Takes ws
          (bool ignore_rth ∷ bool cancel_order ∷ rest) b l in
      (print {F = F} (bool cancel_order), simp (append_assoc, p, readers, append-nil))
