-- ===== src/Decoder/OrderFields/Parts.antt =====
-- The lists and the optional parts of an order message, which open and completed orders share
-- (decoder.go). `version` is the
-- server's and `v` the message's; a field that a version lacks is left as it is.
use ibapi.Common.{false, ◌&&◌, Option, none, some, ℤ, at_least, below, has_text, ℕ}
use ibapi.Wire.Float.{Floats}
use ibapi.Buffer.{
  pure, panic, ◌>>=◌, unknown_condition, read_int, read_int_check_unset, read_string, read_bool,
  read_float, read_float_check_unset,
}
use ibapi.Data.Contract.{Contract, ComboLeg, DeltaNeutralContract}
use ibapi.Data.Condition.{OrderConditioner, decode, init_order_condition}
use ibapi.Data.Order.{Order, OrderComboLeg, has_increment}
use ibapi.Decoder.Read.{D, read_if, counted, repeat}
use ibapi.Decoder.Contracts.{read_tag_value}

module _ {F : Type 0} ⦃fl : Floats F⦄ where
  unfoldable pub read_order_combo_leg : D F (OrderComboLeg F)
  read_order_combo_leg = do price ← read_float_check_unset; pure (record { price = price })

  -- A leg of the contract.
  unfoldable pub read_combo_leg : D F ComboLeg
  read_combo_leg = do
    contract_id ← read_int
    ratio ← read_int
    action ← read_string
    exchange ← read_string
    open_close ← read_int
    short_sale_slot ← read_int
    designated_location ← read_string
    exempt_code ← read_int
    pure (record {
      contract_id = contract_id;
      ratio = ratio;
      action = action;
      exchange = exchange;
      open_close = open_close;
      short_sale_slot = short_sale_slot;
      designated_location = designated_location;
      exempt_code = exempt_code;
    })

  -- The legs of the contract and their description.
  unfoldable pub read_combo_legs : ℤ → Contract F → D F (Contract F)
  unfolding read_combo_leg
  read_combo_legs v c = do
    combo_legs_description ← read_string
    combo_legs ← read_if (at_least v 29) (do n ← read_int; counted n read_combo_leg) c.combo_legs
    pure (record c { combo_legs_description = combo_legs_description; combo_legs = combo_legs })

  -- The legs of the order and the parameters of their routing.
  unfoldable pub read_order_combo_legs : ℤ → Order F → D F (Order F)
  unfolding read_order_combo_leg read_tag_value
  read_order_combo_legs v o = do
    legs ←
        read_if (at_least v 29) (do n ← read_int; counted n read_order_combo_leg) o.order_combo_legs
    params ←
        read_if (at_least v 26) (do n ← read_int; counted n read_tag_value)
          o.smart_combo_routing_params
    pure (record o { order_combo_legs = legs; smart_combo_routing_params = params })

  -- The sizes of a scale order.
  unfoldable pub read_scale_size : ℤ → Order F → D F (Order F)
  read_scale_size v o = do
    not_supp_scale_num_components ←
        read_if (below v 20) read_int_check_unset o.not_supp_scale_num_components
    scale_init_level_size ← read_int_check_unset
    scale_subs_level_size ← read_if (at_least v 20) read_int_check_unset o.scale_subs_level_size
    scale_price_increment ← read_float_check_unset
    pure (record o {
      not_supp_scale_num_components = not_supp_scale_num_components;
      scale_init_level_size = scale_init_level_size;
      scale_subs_level_size = scale_subs_level_size;
      scale_price_increment = scale_price_increment;
    })

  -- The prices of a scale order.
  unfoldable pub read_scale_prices : Order F → D F (Order F)
  read_scale_prices o = do
    scale_price_adjust_value ← read_float_check_unset
    scale_price_adjust_interval ← read_int_check_unset
    scale_profit_offset ← read_float_check_unset
    scale_auto_reset ← read_bool
    scale_init_position ← read_int_check_unset
    scale_init_fill_qty ← read_int_check_unset
    scale_random_percent ← read_bool
    pure (record o {
      scale_price_adjust_value = scale_price_adjust_value;
      scale_price_adjust_interval = scale_price_adjust_interval;
      scale_profit_offset = scale_profit_offset;
      scale_auto_reset = scale_auto_reset;
      scale_init_position = scale_init_position;
      scale_init_fill_qty = scale_init_fill_qty;
      scale_random_percent = scale_random_percent;
    })

  -- The parameters of a scale order.
  unfoldable pub read_scale : ℤ → Order F → D F (Order F)
  unfolding read_scale_size read_scale_prices
  read_scale v o = do
    s ← read_scale_size v o
    read_if (at_least v 28 && has_increment s) (read_scale_prices s) s

  -- The parameters of a hedge.
  unfoldable pub read_hedge : ℤ → Order F → D F (Order F)
  read_hedge v o = do
    hedge_type ← read_if (at_least v 24) read_string o.hedge_type
    hedge_param ← read_if (at_least v 24 && has_text hedge_type) read_string o.hedge_param
    pure (record o { hedge_type = hedge_type; hedge_param = hedge_param })

  -- The clearing, and whether the order is held.
  unfoldable pub read_clearing : ℤ → Order F → D F (Order F)
  read_clearing v o = do
    clearing_account ← read_string
    clearing_intent ← read_string
    not_held ← read_if (at_least v 22) read_bool o.not_held
    pure (record o {
      clearing_account = clearing_account;
      clearing_intent = clearing_intent;
      not_held = not_held;
    })

  unfoldable pub read_neutral_contract : D F (Option (DeltaNeutralContract F))
  read_neutral_contract = do
    contract_id ← read_int
    delta ← read_float
    price ← read_float
    pure (some (record { contract_id = contract_id; delta = delta; price = price }))

  -- The delta neutral contract, where the message says that there is one.
  unfoldable pub read_delta_neutral : ℤ → Contract F → D F (Contract F)
  unfolding read_neutral_contract
  read_delta_neutral v c = do
    present ← read_if (at_least v 20) read_bool false
    n ← read_if present read_neutral_contract c.delta_neutral_contract
    pure (record c { delta_neutral_contract = n })

  -- The algorithm with its parameters, and whether the order was solicited.
  unfoldable pub read_algo : ℤ → Order F → D F (Order F)
  unfolding read_tag_value
  read_algo v o = do
    algo_strategy ← read_if (at_least v 21) read_string o.algo_strategy
    algo_params ←
        read_if (at_least v 21 && has_text algo_strategy)
          (do n ← read_int; counted n read_tag_value) o.algo_params
    solicited ← read_if (at_least v 33) read_bool o.solicited
    pure (record o {
      algo_strategy = algo_strategy;
      algo_params = algo_params;
      solicited = solicited;
    })

  -- Whether size and price vary at random.
  unfoldable pub read_randomize : ℤ → Order F → D F (Order F)
  read_randomize v o = do
    randomize_size ← read_if (at_least v 34) read_bool o.randomize_size
    randomize_price ← read_if (at_least v 34) read_bool o.randomize_price
    pure (record o { randomize_size = randomize_size; randomize_price = randomize_price })

  -- The benchmark of a pegged order.
  unfoldable pub read_peg_bench : Order F → D F (Order F)
  read_peg_bench o = do
    reference_contract_id ← read_int
    is_pegged_change_amount_decrease ← read_bool
    pegged_change_amount ← read_float
    reference_change_amount ← read_float
    reference_exchange_id ← read_string
    pure (record o {
      reference_contract_id = reference_contract_id;
      is_pegged_change_amount_decrease = is_pegged_change_amount_decrease;
      pegged_change_amount = pegged_change_amount;
      reference_change_amount = reference_change_amount;
      reference_exchange_id = reference_exchange_id;
    })

  -- The new condition decodes; what it changes is a copy of it.
  unfoldable pub decode_new : Option (OrderConditioner F × ℕ) → D F (OrderConditioner F)
  decode_new none = panic unknown_condition
  decode_new (some (c, size)) = do _ ← decode c; pure c

  -- One round of the loop over the conditions.
  unfoldable pub read_order_condition : D F (OrderConditioner F)
  unfolding decode_new
  read_order_condition = do t ← read_int; decode_new (init_order_condition t)

  -- The conditions, of which there is one at least, and what they do to the order.
  unfoldable pub read_conditions : ℕ → Order F → D F (Order F)
  unfolding read_order_condition
  read_conditions n o = do
    conditions ← repeat n read_order_condition
    conditions_ignore_rth ← read_bool
    conditions_cancel_order ← read_bool
    pure (record o {
      conditions = conditions;
      conditions_ignore_rth = conditions_ignore_rth;
      conditions_cancel_order = conditions_cancel_order;
    })
