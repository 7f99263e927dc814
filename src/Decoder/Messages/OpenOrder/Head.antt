-- ===== src/Decoder/Messages/OpenOrder/Head.antt =====
-- The values of the contract and of the head of an open order, as the wire has them.
use ibapi.Common.{List, [], ◌∷◌, Bool, true, ◌≡◌, ℤ, at_least}
use ibapi.Wire.Float.{Floats}
use ibapi.Buffer.Items.{Item, Int64, Text, Real, int, text, real, bool}
use ibapi.Data.Contract.{Contract, zero_contract}
use ibapi.Data.Order.{Order}
use ibapi.Decoder.Wrapper.{Callback}
use ibapi.Decoder.Messages.Reads.{Reads, Reads-bind, Reads-int, Reads-text, Reads-bool}
use ibapi.Decoder.Messages.OrderBlocks.{
  read_order_contract-Reads, read_order_terms-Reads, read_open_ids-Reads, read_order_hours-Reads,
  read_advisor-Reads, read_exempt_code-Reads, read_stock_range-Reads, read_fill_rules-Reads,
}
use ibapi.Decoder.OrderFields.{read_order_contract}
use ibapi.Decoder.OpenOrder.{read_open_head}

-- The values of the contract of an order message.
pub record ContractValues (F : Type 0) ⦃fl : Floats F⦄ : Type 0 where
  pub contract_id : Int64
  pub symbol : Text
  pub security_type : Text
  pub expiry : Text
  pub strike : Real F
  pub right : Text
  pub multiplier : Text
  pub exchange : Text
  pub currency : Text
  pub local_symbol : Text
  pub trading_class : Text

-- The values of the head of an open order. The text `shares_allocation` is skipped.
pub record HeadValues (F : Type 0) ⦃fl : Floats F⦄ : Type 0 where
  pub action : Text
  pub total_quantity : Real F
  pub order_type : Text
  pub limit_price : Real F
  pub aux_price : Real F
  pub tif : Text
  pub oca_group : Text
  pub account : Text
  pub open_close : Text
  pub origin : Int64
  pub order_ref : Text
  pub client_id : Int64
  pub perm_id : Int64
  pub outside_rth : Bool
  pub hidden : Bool
  pub discretionary_amount : Real F
  pub good_after_time : Text
  pub shares_allocation : Text
  pub fa_group : Text
  pub fa_method : Text
  pub fa_percentage : Text
  pub fa_profile : Text
  pub model_code : Text
  pub good_till_date : Text
  pub rule80a : Text
  pub percent_offset : Real F
  pub settling_firm : Text
  pub short_sale_slot : Int64
  pub designated_location : Text
  pub exempt_code : Int64
  pub auction_strategy : Int64
  pub starting_price : Real F
  pub stock_ref_price : Real F
  pub delta : Real F
  pub stock_range_lower : Real F
  pub stock_range_upper : Real F
  pub display_size : Int64
  pub block_order : Bool
  pub sweep_to_fill : Bool
  pub all_or_none : Bool
  pub min_qty : Int64
  pub oca_type : Int64

module _ {F : Type 0} ⦃fl : Floats F⦄ where
  abbrev pub contract_items : ContractValues F → List (Item F)
  contract_items x =
      int x.contract_id
      ∷ text x.symbol
      ∷ text x.security_type
      ∷ text x.expiry
      ∷ real x.strike
      ∷ text x.right
      ∷ text x.multiplier
      ∷ text x.exchange
      ∷ text x.currency
      ∷ text x.local_symbol
      ∷ text x.trading_class
      ∷ []

  abbrev pub contract_of : ContractValues F → Contract F
  contract_of x = record zero_contract {
    contract_id = x.contract_id.value;
    symbol = x.symbol.bytes;
    security_type = x.security_type.bytes;
    expiry = x.expiry.bytes;
    strike = x.strike.value;
    right = x.right.bytes;
    multiplier = x.multiplier.bytes;
    exchange = x.exchange.bytes;
    currency = x.currency.bytes;
    local_symbol = x.local_symbol.bytes;
    trading_class = x.trading_class.bytes;
  }

  abbrev pub head_items : HeadValues F → List (Item F)
  head_items x =
      text x.action
      ∷ real x.total_quantity
      ∷ text x.order_type
      ∷ real x.limit_price
      ∷ real x.aux_price
      ∷ text x.tif
      ∷ text x.oca_group
      ∷ text x.account
      ∷ text x.open_close
      ∷ int x.origin
      ∷ text x.order_ref
      ∷ int x.client_id
      ∷ int x.perm_id
      ∷ bool x.outside_rth
      ∷ bool x.hidden
      ∷ real x.discretionary_amount
      ∷ text x.good_after_time
      ∷ text x.shares_allocation
      ∷ text x.fa_group
      ∷ text x.fa_method
      ∷ text x.fa_percentage
      ∷ text x.fa_profile
      ∷ text x.model_code
      ∷ text x.good_till_date
      ∷ text x.rule80a
      ∷ real x.percent_offset
      ∷ text x.settling_firm
      ∷ int x.short_sale_slot
      ∷ text x.designated_location
      ∷ int x.exempt_code
      ∷ int x.auction_strategy
      ∷ real x.starting_price
      ∷ real x.stock_ref_price
      ∷ real x.delta
      ∷ real x.stock_range_lower
      ∷ real x.stock_range_upper
      ∷ int x.display_size
      ∷ bool x.block_order
      ∷ bool x.sweep_to_fill
      ∷ bool x.all_or_none
      ∷ int x.min_qty
      ∷ int x.oca_type
      ∷ []

  -- The order with these values.
  abbrev pub with_terms : HeadValues F → Order F → Order F
  with_terms x o = record o {
    action = x.action.bytes;
    total_quantity = x.total_quantity.value;
    order_type = x.order_type.bytes;
    limit_price = x.limit_price.value;
    aux_price = x.aux_price.value;
    tif = x.tif.bytes;
    oca_group = x.oca_group.bytes;
    account = x.account.bytes;
    open_close = x.open_close.bytes;
    origin = x.origin.value;
    order_ref = x.order_ref.bytes;
  }

  abbrev pub with_ids : HeadValues F → Order F → Order F
  with_ids x o = record o { client_id = x.client_id.value; perm_id = x.perm_id.value }

  abbrev pub with_hours : HeadValues F → Order F → Order F
  with_hours x o = record o {
    outside_rth = x.outside_rth;
    hidden = x.hidden;
    discretionary_amount = x.discretionary_amount.value;
    good_after_time = x.good_after_time.bytes;
  }

  abbrev pub with_advisor : HeadValues F → Order F → Order F
  with_advisor x o = record o {
    fa_group = x.fa_group.bytes;
    fa_method = x.fa_method.bytes;
    fa_percentage = x.fa_percentage.bytes;
    fa_profile = x.fa_profile.bytes;
    model_code = x.model_code.bytes;
    good_till_date = x.good_till_date.bytes;
    rule80a = x.rule80a.bytes;
    percent_offset = x.percent_offset.value;
    settling_firm = x.settling_firm.bytes;
    short_sale_slot = x.short_sale_slot.value;
    designated_location = x.designated_location.bytes;
  }

  abbrev pub with_exempt : HeadValues F → Order F → Order F
  with_exempt x o = record o { exempt_code = x.exempt_code.value }

  abbrev pub with_auction : HeadValues F → Order F → Order F
  with_auction x o = record o { auction_strategy = x.auction_strategy.value }

  abbrev pub with_range : HeadValues F → Order F → Order F
  with_range x o = record o {
    starting_price = x.starting_price.value;
    stock_ref_price = x.stock_ref_price.value;
    delta = x.delta.value;
    stock_range_lower = x.stock_range_lower.value;
    stock_range_upper = x.stock_range_upper.value;
    display_size = x.display_size.value;
  }

  abbrev pub with_block : HeadValues F → Order F → Order F
  with_block x o = record o { block_order = x.block_order }

  abbrev pub with_rules : HeadValues F → Order F → Order F
  with_rules x o = record o {
    sweep_to_fill = x.sweep_to_fill;
    all_or_none = x.all_or_none;
    min_qty = x.min_qty.value;
    oca_type = x.oca_type.value;
  }

  abbrev pub with_head : HeadValues F → Order F → Order F
  with_head x o = with_rules x (
      with_block x (
        with_range x (
          with_auction x
            (with_exempt x (with_advisor x (with_hours x (with_ids x (with_terms x o))))))))

module _ {F : Type 0} ⦃fl : Floats F⦄ (version : ℤ) (new : at_least version 160 ≡ true) where
  pub contract-Reads :
      (x : ContractValues F)
      → Reads {L = Callback F} (read_order_contract version) (contract_items x) (contract_of x)
  contract-Reads x =
      read_order_contract-Reads version x.contract_id x.symbol x.security_type x.expiry x.strike
        x.right x.multiplier x.exchange x.currency x.local_symbol x.trading_class new

  pub head-Reads :
      (x : HeadValues F) (o : Order F)
      → Reads {L = Callback F} (read_open_head version version o) (head_items x) (with_head x o)
  unfolding read_open_head
  head-Reads x o =
      Reads-bind _
        (read_order_terms-Reads version o x.action x.total_quantity x.order_type x.limit_price
          x.aux_price x.tif x.oca_group x.account x.open_close x.origin x.order_ref new)
        (Reads-bind _ (read_open_ids-Reads (with_terms x o) x.client_id x.perm_id) (
          Reads-bind _
            (read_order_hours-Reads (with_ids x (with_terms x o)) x.outside_rth x.hidden
              x.discretionary_amount x.good_after_time)
            (Reads-bind _ (Reads-text x.shares_allocation) (
              Reads-bind _
                (read_advisor-Reads version (with_hours x (with_ids x (with_terms x o))) x.fa_group
                  x.fa_method x.fa_percentage x.fa_profile x.model_code x.good_till_date x.rule80a
                  x.percent_offset x.settling_firm x.short_sale_slot x.designated_location new)
                (Reads-bind _
                  (read_exempt_code-Reads version
                    (with_advisor x (with_hours x (with_ids x (with_terms x o)))) x.exempt_code new)
                  (Reads-bind _ (Reads-int x.auction_strategy) (
                    Reads-bind _
                      (read_stock_range-Reads
                        (with_auction x (
                          with_exempt x
                            (with_advisor x (with_hours x (with_ids x (with_terms x o))))))
                        x.starting_price x.stock_ref_price x.delta x.stock_range_lower
                        x.stock_range_upper x.display_size)
                      (Reads-bind _ (Reads-bool x.block_order) (
                        read_fill_rules-Reads
                          (with_block x (
                            with_range x (
                              with_auction x (
                                with_exempt x
                                  (with_advisor x (with_hours x (with_ids x (with_terms x o))))))))
                          x.sweep_to_fill x.all_or_none x.min_qty x.oca_type)))))))))
