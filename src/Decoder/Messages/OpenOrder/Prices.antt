-- ===== src/Decoder/Messages/OpenOrder/Prices.antt =====
-- The values from the routing to the basis points of an open order.
use ibapi.Common.{List, [], ◌∷◌, ◌++◌, Bool, true, ◌≡◌, refl, ℤ, at_least, has_text, if◌then◌else◌}
use ibapi.Wire.Float.{Floats}
use ibapi.Buffer.Items.{Item, Int64, Text, Real, int, text, real, bool}
use ibapi.Data.Order.{Order}
use ibapi.Decoder.Wrapper.{Callback}
use ibapi.Decoder.Messages.Reads.{Reads, Reads-bind, Reads-read_if, Reads-guarded}
use ibapi.Decoder.Messages.OrderBlocks.{
  late, read_routing-Reads, read_volatility-Reads, read_neutral_settling-Reads,
}
use ibapi.Decoder.Messages.OrderBlocks.More.{
  read_neutral_open_close-Reads, read_trail-Reads, read_basis_points-Reads,
}
use ibapi.Decoder.OpenOrder.{read_open_prices}

-- The values from the routing to the basis points.
pub record PriceValues (F : Type 0) ⦃fl : Floats F⦄ : Type 0 where
  pub e_trade_only : Bool
  pub firm_quote_only : Bool
  pub nbbo_price_cap : Real F
  pub parent_id : Int64
  pub trigger_method : Int64
  pub volatility : Real F
  pub volatility_type : Int64
  pub delta_neutral_order_type : Text
  pub delta_neutral_aux_price : Real F
  pub delta_neutral_contract_id : Int64
  pub delta_neutral_settling_firm : Text
  pub delta_neutral_clearing_account : Text
  pub delta_neutral_clearing_intent : Text
  pub delta_neutral_open_close : Text
  pub delta_neutral_short_sale : Bool
  pub delta_neutral_short_sale_slot : Int64
  pub delta_neutral_designated_location : Text
  pub continuous_update : Bool
  pub reference_price_type : Int64
  pub trail_stop_price : Real F
  pub trailing_percent : Real F
  pub basis_points : Real F
  pub basis_points_type : Int64

module _ {F : Type 0} ⦃fl : Floats F⦄ where
  abbrev pub is_neutral : PriceValues F → Bool
  is_neutral x = has_text x.delta_neutral_order_type.bytes

  -- The values of the neutral order come only with its type.
  abbrev pub price_items : PriceValues F → List (Item F)
  price_items x =
      bool x.e_trade_only
      ∷ bool x.firm_quote_only
      ∷ real x.nbbo_price_cap
      ∷ int x.parent_id
      ∷ int x.trigger_method
      ∷ real x.volatility
      ∷ int x.volatility_type
      ∷ text x.delta_neutral_order_type
      ∷ real x.delta_neutral_aux_price
      ∷ ((if is_neutral x
            then int x.delta_neutral_contract_id
              ∷ text x.delta_neutral_settling_firm
              ∷ text x.delta_neutral_clearing_account
              ∷ text x.delta_neutral_clearing_intent
              ∷ []
            else [])
          ++ ((if is_neutral x
                then text x.delta_neutral_open_close
                  ∷ bool x.delta_neutral_short_sale
                  ∷ int x.delta_neutral_short_sale_slot
                  ∷ text x.delta_neutral_designated_location
                  ∷ []
                else [])
              ++ bool x.continuous_update
                ∷ int x.reference_price_type
                ∷ real x.trail_stop_price
                ∷ real x.trailing_percent
                ∷ real x.basis_points
                ∷ int x.basis_points_type
                ∷ []))

  abbrev pub with_routing : PriceValues F → Order F → Order F
  with_routing x o = record o {
    e_trade_only = x.e_trade_only;
    firm_quote_only = x.firm_quote_only;
    nbbo_price_cap = x.nbbo_price_cap.value;
    parent_id = x.parent_id.value;
  }

  abbrev pub with_volatility : PriceValues F → Order F → Order F
  with_volatility x o = record o {
    trigger_method = x.trigger_method.value;
    volatility = x.volatility.value;
    volatility_type = x.volatility_type.value;
    delta_neutral_order_type = x.delta_neutral_order_type.bytes;
    delta_neutral_aux_price = x.delta_neutral_aux_price.value;
  }

  abbrev pub with_settling : PriceValues F → Order F → Order F
  with_settling x o =
      if is_neutral x
      then record o {
        delta_neutral_contract_id = x.delta_neutral_contract_id.value;
        delta_neutral_settling_firm = x.delta_neutral_settling_firm.bytes;
        delta_neutral_clearing_account = x.delta_neutral_clearing_account.bytes;
        delta_neutral_clearing_intent = x.delta_neutral_clearing_intent.bytes;
      }
      else o

  abbrev pub with_open_close : PriceValues F → Order F → Order F
  with_open_close x o =
      if is_neutral x
      then record o {
        delta_neutral_open_close = x.delta_neutral_open_close.bytes;
        delta_neutral_short_sale = x.delta_neutral_short_sale;
        delta_neutral_short_sale_slot = x.delta_neutral_short_sale_slot.value;
        delta_neutral_designated_location = x.delta_neutral_designated_location.bytes;
      }
      else o

  abbrev pub with_trail : PriceValues F → Order F → Order F
  with_trail x o = record o {
    continuous_update = x.continuous_update;
    reference_price_type = x.reference_price_type.value;
    trail_stop_price = x.trail_stop_price.value;
    trailing_percent = x.trailing_percent.value;
  }

  abbrev pub with_basis : PriceValues F → Order F → Order F
  with_basis x o = record o {
    basis_points = x.basis_points.value;
    basis_points_type = x.basis_points_type.value;
  }

  -- The order with these values.
  abbrev pub with_prices : PriceValues F → Order F → Order F
  with_prices x o =
      with_basis x
        (with_trail x (with_open_close x (with_settling x (with_volatility x (with_routing x o)))))

module _ {F : Type 0} ⦃fl : Floats F⦄ (version : ℤ) (new : at_least version 160 ≡ true) where
  pub prices-Reads :
      (x : PriceValues F) (o : Order F)
      → Reads {L = Callback F} (read_open_prices version o) (price_items x) (with_prices x o)
  unfolding read_open_prices
  prices-Reads x o =
      Reads-bind _
        (read_routing-Reads o x.e_trade_only x.firm_quote_only x.nbbo_price_cap x.parent_id)
        (Reads-bind _
          (read_volatility-Reads (with_routing x o) x.trigger_method x.volatility x.volatility_type
            x.delta_neutral_order_type x.delta_neutral_aux_price)
          (Reads-bind _
            (Reads-guarded _ _ _ (late version new 27 refl) (
              Reads-read_if (is_neutral x) (with_volatility x (with_routing x o)) (
                read_neutral_settling-Reads (with_volatility x (with_routing x o))
                  x.delta_neutral_contract_id x.delta_neutral_settling_firm
                  x.delta_neutral_clearing_account x.delta_neutral_clearing_intent)))
            (Reads-bind _
              (Reads-guarded _ _ _ (late version new 31 refl) (
                Reads-read_if (is_neutral x)
                  (with_settling x (with_volatility x (with_routing x o)))
                  (read_neutral_open_close-Reads
                    (with_settling x (with_volatility x (with_routing x o)))
                    x.delta_neutral_open_close x.delta_neutral_short_sale
                    x.delta_neutral_short_sale_slot x.delta_neutral_designated_location)))
              (Reads-bind _
                (read_trail-Reads version
                  (with_open_close x (with_settling x (with_volatility x (with_routing x o))))
                  x.continuous_update x.reference_price_type x.trail_stop_price x.trailing_percent
                  new)
                (read_basis_points-Reads
                  (with_trail x
                    (with_open_close x (with_settling x (with_volatility x (with_routing x o)))))
                  x.basis_points x.basis_points_type)))))
