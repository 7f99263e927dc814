-- ===== src/Data/Condition.antt =====
-- The conditions of an order (orderCondition.go). A struct that embeds another one has it as a
-- field; the methods have value receivers.
use ibapi.Common.{
  ℕ, List, [], ◌∷◌, ◌++◌, Bool, false, Option, none, some, Bytes, codes, ℤ, pos, bytes_eq, int_eq,
  if◌then◌else◌,
}
use ibapi.Wire.Float.{Floats}
use ibapi.Wire.Encode.{Field, int, float, str, bool}
use ibapi.Buffer.{M, pure, ◌>>=◌, read_int, read_string, read_bool, read_float}

-- `OrderCondition`.
pub record OrderCondition : Type 0 where
  pub condition_type : ℤ
  pub is_conjunction_connection : Bool

-- `ExecutionCondition`.
pub record ExecutionCondition : Type 0 where
  pub order_condition : OrderCondition
  pub sec_type : Bytes
  pub exchange : Bytes
  pub symbol : Bytes

-- `OperatorCondition`.
pub record OperatorCondition : Type 0 where
  pub order_condition : OrderCondition
  pub is_more : Bool

-- `MarginCondition`.
pub record MarginCondition (F : Type 0) : Type 0 where
  pub operator_condition : OperatorCondition
  pub percent : F

-- `ContractCondition`.
pub record ContractCondition : Type 0 where
  pub operator_condition : OperatorCondition
  pub con_id : ℤ
  pub exchange : Bytes

-- `TimeCondition`.
pub record TimeCondition : Type 0 where
  pub operator_condition : OperatorCondition
  pub time : Bytes

-- `PriceCondition`.
pub record PriceCondition (F : Type 0) : Type 0 where
  pub contract_condition : ContractCondition
  pub price : F
  pub trigger_method : ℤ

-- `PercentChangeCondition`.
pub record PercentChangeCondition (F : Type 0) : Type 0 where
  pub contract_condition : ContractCondition
  pub change_percent : F

-- `VolumeCondition`.
pub record VolumeCondition : Type 0 where
  pub contract_condition : ContractCondition
  pub volume : ℤ

-- A value of the interface `OrderConditioner`, by its dynamic type.
pub data OrderConditioner (F : Type 0) : Type 0 where
  price_condition : PriceCondition F → OrderConditioner F
  time_condition : TimeCondition → OrderConditioner F
  margin_condition : MarginCondition F → OrderConditioner F
  execution_condition : ExecutionCondition → OrderConditioner F
  volume_condition : VolumeCondition → OrderConditioner F
  percent_change_condition : PercentChangeCondition F → OrderConditioner F

-- The zero values of the structs that are embedded.
abbrev zero_order_condition : OrderCondition
zero_order_condition = record { condition_type = pos 0; is_conjunction_connection = false }

abbrev zero_operator_condition : OperatorCondition
zero_operator_condition = record { order_condition = zero_order_condition; is_more = false }

abbrev zero_contract_condition : ContractCondition
zero_contract_condition = record {
  operator_condition = zero_operator_condition;
  con_id = pos 0;
  exchange = [];
}

-- The `OrderCondition` that a condition embeds.
abbrev pub embedded : {F : Type 0} → OrderConditioner F → OrderCondition
embedded (price_condition c) = c.contract_condition.operator_condition.order_condition
embedded (time_condition c) = c.operator_condition.order_condition
embedded (margin_condition c) = c.operator_condition.order_condition
embedded (execution_condition c) = c.order_condition
embedded (volume_condition c) = c.contract_condition.operator_condition.order_condition
embedded (percent_change_condition c) = c.contract_condition.operator_condition.order_condition

-- `CondType`.
abbrev pub cond_type : {F : Type 0} → OrderConditioner F → ℤ
cond_type c = (embedded c).condition_type

-- `setCondType` of an `OrderCondition`: the copy that the method changes.
unfoldable pub set_condition_type : ℤ → OrderCondition → OrderCondition
set_condition_type t c = record c { condition_type = t }

-- `setCondType` through the interface: the copy is thrown away.
unfoldable pub set_cond_type : {F : Type 0} → ℤ → OrderConditioner F → OrderConditioner F
unfolding set_condition_type
set_cond_type t c = let dropped = set_condition_type t (embedded c) in c

-- `toFields`, of the structs that are embedded and of a condition.
module _ {F : Type 0} where
  unfoldable pub condition_fields : OrderCondition → List (Field F)
  condition_fields c =
      if c.is_conjunction_connection then str (codes "a") ∷ [] else str (codes "o") ∷ []

  unfoldable pub operator_fields : OperatorCondition → List (Field F)
  unfolding condition_fields
  operator_fields c = condition_fields c.order_condition ++ bool c.is_more ∷ []

  unfoldable pub contract_fields : ContractCondition → List (Field F)
  unfolding operator_fields
  contract_fields c = operator_fields c.operator_condition ++ int c.con_id ∷ str c.exchange ∷ []

  unfoldable pub to_fields : OrderConditioner F → List (Field F)
  unfolding contract_fields
  to_fields (price_condition c) =
      contract_fields c.contract_condition ++ float c.price ∷ int c.trigger_method ∷ []
  to_fields (time_condition c) = operator_fields c.operator_condition ++ str c.time ∷ []
  to_fields (margin_condition c) = operator_fields c.operator_condition ++ float c.percent ∷ []
  to_fields (execution_condition c) =
      condition_fields c.order_condition ++ str c.sec_type ∷ str c.exchange ∷ str c.symbol ∷ []
  to_fields (volume_condition c) = contract_fields c.contract_condition ++ int c.volume ∷ []
  to_fields (percent_change_condition c) =
      contract_fields c.contract_condition ++ float c.change_percent ∷ []

-- `decode`: the copy of the receiver that the method changes. The copy that the method of an
-- embedded struct changes is thrown away.
module _ {L : Type 0} where
  unfoldable pub decode_condition : OrderCondition → M L OrderCondition
  decode_condition c = do
    connector ← read_string
    pure (record c { is_conjunction_connection = bytes_eq connector (codes "a") })

  unfoldable pub decode_operator : OperatorCondition → M L OperatorCondition
  unfolding decode_condition
  decode_operator c = do
    _ ← decode_condition c.order_condition
    is_more ← read_bool
    pure (record c { is_more = is_more })

  unfoldable pub decode_contract : ContractCondition → M L ContractCondition
  unfolding decode_operator
  decode_contract c = do
    _ ← decode_operator c.operator_condition
    con_id ← read_int
    exchange ← read_string
    pure (record c { con_id = con_id; exchange = exchange })

module _ {L F : Type 0} ⦃fl : Floats F⦄ where
  unfoldable pub decode : OrderConditioner F → M L (OrderConditioner F)
  unfolding decode_contract
  decode (price_condition c) = do
    _ ← decode_contract c.contract_condition
    price ← read_float
    trigger_method ← read_int
    pure (price_condition (record c { price = price; trigger_method = trigger_method }))
  decode (time_condition c) = do
    _ ← decode_operator c.operator_condition
    time ← read_string
    pure (time_condition (record c { time = time }))
  decode (margin_condition c) = do
    _ ← decode_operator c.operator_condition
    percent ← read_float
    pure (margin_condition (record c { percent = percent }))
  decode (execution_condition c) = do
    _ ← decode_condition c.order_condition
    sec_type ← read_string
    exchange ← read_string
    symbol ← read_string
    pure (
        execution_condition
          (record c { sec_type = sec_type; exchange = exchange; symbol = symbol }))
  decode (volume_condition c) = do
    _ ← decode_contract c.contract_condition
    volume ← read_int
    pure (volume_condition (record c { volume = volume }))
  decode (percent_change_condition c) = do
    _ ← decode_contract c.contract_condition
    change_percent ← read_float
    pure (percent_change_condition (record c { change_percent = change_percent }))

module _ {F : Type 0} ⦃fl : Floats F⦄ where
  -- The condition that a type starts with and its size; `none` is the panic on another type.
  unfoldable pub zero_condition : ℤ → Option (OrderConditioner F × ℕ)
  zero_condition t =
      if int_eq t (pos 1)
      then some (
        price_condition (record {
          contract_condition = zero_contract_condition;
          price = fl.of_int (pos 0);
          trigger_method = pos 0;
        }),
        6,
      )
      else if int_eq t (pos 3)
      then some
          (time_condition (record { operator_condition = zero_operator_condition; time = [] }), 3)
      else if int_eq t (pos 4)
      then some (
        margin_condition
            (record { operator_condition = zero_operator_condition; percent = fl.of_int (pos 0) }),
        3,
      )
      else if int_eq t (pos 5)
      then some (
        execution_condition (record {
          order_condition = zero_order_condition;
          sec_type = [];
          exchange = [];
          symbol = [];
        }),
        4,
      )
      else if int_eq t (pos 6)
      then some (
        volume_condition (record { contract_condition = zero_contract_condition; volume = pos 0 }),
        5,
      )
      else if int_eq t (pos 7)
      then some (
        percent_change_condition (record {
          contract_condition = zero_contract_condition;
          change_percent = fl.of_int (pos 0);
        }),
        5,
      )
      else none

  -- `setCondType` on the new condition, whose size is handed on.
  abbrev with_type : ℤ → Option (OrderConditioner F × ℕ) → Option (OrderConditioner F × ℕ)
  with_type t none = none
  with_type t (some (c, size)) = some (set_cond_type t c, size)

  -- `InitOrderCondition`.
  unfoldable pub init_order_condition : ℤ → Option (OrderConditioner F × ℕ)
  unfolding zero_condition
  init_order_condition t = with_type t (zero_condition t)
