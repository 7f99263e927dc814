-- ===== src/Decoder/Messages/OpenOrder.antt =====
-- The message of an open order (`processOpenOrder` of decoder.go), from the wire to the wrapper.
pub mod Head
pub mod Prices
pub mod Parts
pub mod End
use ibapi.Common.{List, ◌∷◌, ◌++◌, [], Bool, true, Option, ◌≡◌, refl, Bytes, ℤ, pos, at_least}
use ibapi.Wire.Float.{Floats}
use ibapi.Wire.Decimal.{format_int}
use ibapi.Buffer.Items.{Item, Int64, int, bool}
use ibapi.Data.Contract.{Contract}
use ibapi.Data.Order.{Order, is_peg_bench}
use ibapi.Data.Order.Values.{zero_order}
use ibapi.Decoder.Wrapper.{AccountTime, Callback}
use ibapi.Decoder.{
  set_version, set_msg_id2process, process_table, lookup_process, find_process, apply_process,
}
use ibapi.Decoder.OpenOrder.{process_open_order}
use ibapi.Decoder.Dispatch.{ready, msg_id, Delivers, delivers_of}
use ibapi.Decoder.Messages.Lists.{Takes-last}
use ibapi.Decoder.Messages.Reads.{
  Calls, Calls-bind, Calls-end, Reads-absent, Reads-int, Reads-bool, Reads-there,
}
use ibapi.Decoder.Messages.OrderBlocks.{early, late}
use ibapi.Decoder.Messages.OrderBlocks.More.{read_randomize-Reads}
use ibapi.Decoder.Messages.OpenOrder.Head.{
  ContractValues, HeadValues, contract_items, contract_of, head_items, with_head, contract-Reads,
  head-Reads,
}
use ibapi.Decoder.Messages.OpenOrder.Prices.{PriceValues, price_items, with_prices, prices-Reads}
use ibapi.Decoder.Messages.OpenOrder.Parts.{
  PartValues, part_items, with_parts, contract_with_parts, parts-Reads,
}
use ibapi.Decoder.Messages.OpenOrder.End.{
  StateValues, PegValues, TailValues, state_items, state_of, peg_items, with_peg, tail_items,
  with_tail, peg-Reads, state-Reads, tail-Reads,
}

-- The values of an open order, in the order of the wire.
pub record OpenOrderValues (F : Type 0) ⦃fl : Floats F⦄ : Type 0 where
  pub order_id : Int64
  pub contract : ContractValues F
  pub head : HeadValues F
  pub prices : PriceValues F
  pub parts : PartValues F
  pub what_if : Bool
  pub state : StateValues F
  pub randomize_size : Bool
  pub randomize_price : Bool
  pub peg : PegValues F
  pub tail : TailValues F

module _ {F : Type 0} ⦃fl : Floats F⦄ where
  -- The order up to the flags of the volatility.
  abbrev pub order_up_to_flags : OpenOrderValues F → Order F
  order_up_to_flags x =
      record (with_parts x.parts (
        with_prices x.prices
          (with_head x.head (record zero_order { order_id = x.order_id.value })))) {
            what_if = x.what_if;
            randomize_size = x.randomize_size;
            randomize_price = x.randomize_price;
          }

  -- The order with all values: every part sets its own fields, from the empty order on.
  abbrev pub open_order_of : OpenOrderValues F → Order F
  open_order_of x = with_tail x.tail (with_peg x.peg (order_up_to_flags x))

  abbrev pub open_contract_of : OpenOrderValues F → Contract F
  open_contract_of x = contract_with_parts x.parts (contract_of x.contract)

  abbrev pub open_order_items : OpenOrderValues F → List (Item F)
  open_order_items x =
      int x.order_id
      ∷ (contract_items x.contract
          ++ (head_items x.head
              ++ (price_items x.prices
                  ++ (part_items x.parts
                      ++ (bool x.what_if
                          ∷ (state_items x.state
                              ++ (bool x.randomize_size
                                  ∷ bool x.randomize_price
                                  ∷ (peg_items (is_peg_bench (order_up_to_flags x)) x.peg
                                      ++ tail_items x.tail))))))))

  process_open_order-Calls :
      (version : ℤ) (x : OpenOrderValues F)
      → at_least version 160 ≡ true
      → Calls (process_open_order version) (open_order_items x) (
          Callback.open_order x.order_id.value
            (open_contract_of x)
            (open_order_of x)
            (state_of x.state)
          ∷ [])
  unfolding process_open_order
  process_open_order-Calls version x new =
      let o₀ : Order F = record zero_order { order_id = x.order_id.value } in
      let o₁ = with_head x.head o₀ in
      let o₂ = with_prices x.prices o₁ in
      let o₃ : Order F = record (with_parts x.parts o₂) { what_if = x.what_if } in
      Calls-bind _ (Reads-absent _ (early version new 145 refl)) (
        Calls-bind _ (Reads-int x.order_id) (
          Calls-bind _ (contract-Reads version new x.contract) (
            Calls-bind _ (head-Reads version new x.head o₀) (
              Calls-bind _ (prices-Reads version new x.prices o₁) (
                Calls-bind _ (parts-Reads version new x.parts (contract_of x.contract) o₂) (
                  Calls-bind _ (Reads-bool x.what_if) (
                    Calls-bind _ (state-Reads version new x.state) (
                      Calls-bind _
                        (read_randomize-Reads version o₃ x.randomize_size x.randomize_price new)
                        (Calls-bind _
                          (Reads-there _ (late version new 102 refl)
                            (peg-Reads x.peg (order_up_to_flags x)))
                          (Calls-end _ (
                            tail-Reads version new x.tail
                              (with_peg x.peg (order_up_to_flags x)))))))))))))

  -- For a server of version 160 or later and all values, with lists of any length: the message of an
  -- open order with these values makes exactly one call, of the order's id, the contract, the order
  -- and the state, in which each field has the value that the wire has for it, the fields of parts
  -- that are not there are those of an empty order, and the conditions are blank; no byte is left.
  pub open_order_delivered :
      (clock : Bytes → Option AccountTime) (version : ℤ) (x : OpenOrderValues F)
      → at_least version 160 ≡ true
      → Delivers (ready clock version) (msg_id 5 refl) (open_order_items x) (
          Callback.open_order x.order_id.value
            (open_contract_of x)
            (open_order_of x)
            (state_of x.state)
          ∷ [])
  unfolding set_version set_msg_id2process process_table lookup_process find_process apply_process
  open_order_delivered clock version x new =
      let (b, p) =
        Takes-last (process_open_order version) (open_order_items x) tt
          (Callback.open_order x.order_id.value (open_contract_of x) (open_order_of x)
              (state_of x.state)
            ∷ [])
          (format_int (pos 5)) [] (process_open_order-Calls version x new).makes in
      delivers_of (ready clock version) (msg_id 5 refl) (open_order_items x) (rw p refl)
