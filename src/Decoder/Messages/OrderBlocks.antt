-- ===== src/Decoder/Messages/OrderBlocks.antt =====
-- What the parts of an order message read, field by field.
pub mod More
use ibapi.Common.{
  ℕ, [], ◌∷◌, Bool, true, false, ◌≡◌, ℤ, pos, at_least, below, leb, int_eq, arith, append-nil,
}
use ibapi.Wire.Float.{Floats}
use ibapi.Wire.Decimal.{format_int}
use ibapi.Buffer.Items.{Int64, Text, Real, int, text, real, bool}
use ibapi.Buffer.RoundTrip.{readers}
use ibapi.Data.Contract.{zero_contract}
use ibapi.Data.Order.{Order}
use ibapi.Decoder.Wrapper.{Callback}
use ibapi.Decoder.Messages.Reads.{Reads}
use ibapi.Decoder.OrderFields.{
  read_order_contract, read_order_terms, read_quantity, read_order_hours, read_exempt_code,
  read_advisor, read_stock_range, read_fill_rules, read_volatility,
}
use ibapi.Decoder.OpenOrder.{read_open_ids, read_routing, read_neutral_settling}

-- What the guards of the decoder say of a server of version 160 or later.
pub late :
    (version : ℤ)
    → at_least version 160 ≡ true
    → (k : ℕ) → leb k 160 ≡ true
    → at_least version k ≡ true
late version new k h = ground arith

pub early :
    (version : ℤ)
    → at_least version 160 ≡ true
    → (k : ℕ) → leb k 160 ≡ true
    → below version k ≡ false
early version new k h = ground arith

pub not_old : (version : ℤ) → at_least version 160 ≡ true → int_eq version (pos 51) ≡ false
not_old version new = ground arith

module _ {F : Type 0} ⦃fl : Floats F⦄ where
  pub read_order_contract-Reads :
      (version : ℤ) (contract_id : Int64) (symbol : Text) (security_type : Text) (expiry : Text)
      (strike : Real F) (right : Text) (multiplier : Text) (exchange : Text) (currency : Text)
      (local_symbol : Text) (trading_class : Text)
      → at_least version 160 ≡ true
      → Reads {L = Callback F} {F = F}
          (read_order_contract version)
          (int contract_id
            ∷ text symbol
            ∷ text security_type
            ∷ text expiry
            ∷ real strike
            ∷ text right
            ∷ text multiplier
            ∷ text exchange
            ∷ text currency
            ∷ text local_symbol
            ∷ text trading_class
            ∷ [])
          (record zero_contract {
            contract_id = contract_id.value;
            symbol = symbol.bytes;
            security_type = security_type.bytes;
            expiry = expiry.bytes;
            strike = strike.value;
            right = right.bytes;
            multiplier = multiplier.bytes;
            exchange = exchange.bytes;
            currency = currency.bytes;
            local_symbol = local_symbol.bytes;
            trading_class = trading_class.bytes;
          })
  unfolding read_order_contract
  read_order_contract-Reads version contract_id symbol security_type expiry strike right multiplier
        exchange currency local_symbol trading_class new =
      record {
        takes = λ rest p l. (
          trading_class.bytes,
          simp (readers, late version new, early version new, not_old version new, append-nil),
        );
      }

  pub read_order_terms-Reads :
      (version : ℤ) (o : Order F) (action : Text) (total_quantity : Real F) (order_type : Text)
      (limit_price : Real F) (aux_price : Real F) (tif : Text) (oca_group : Text) (account : Text)
      (open_close : Text) (origin : Int64) (order_ref : Text)
      → at_least version 160 ≡ true
      → Reads {L = Callback F} {F = F}
          (read_order_terms version version o)
          (text action
            ∷ real total_quantity
            ∷ text order_type
            ∷ real limit_price
            ∷ real aux_price
            ∷ text tif
            ∷ text oca_group
            ∷ text account
            ∷ text open_close
            ∷ int origin
            ∷ text order_ref
            ∷ [])
          (record o {
            action = action.bytes;
            total_quantity = total_quantity.value;
            order_type = order_type.bytes;
            limit_price = limit_price.value;
            aux_price = aux_price.value;
            tif = tif.bytes;
            oca_group = oca_group.bytes;
            account = account.bytes;
            open_close = open_close.bytes;
            origin = origin.value;
            order_ref = order_ref.bytes;
          })
  unfolding read_order_terms read_quantity
  read_order_terms-Reads version o action total_quantity order_type limit_price aux_price tif
        oca_group account open_close origin order_ref new =
      record {
        takes = λ rest p l. (
          order_ref.bytes,
          simp (readers, late version new, early version new, not_old version new, append-nil),
        );
      }

  pub read_open_ids-Reads :
      (o : Order F) (client_id : Int64) (perm_id : Int64)
      → Reads {L = Callback F} {F = F}
          (read_open_ids o)
          (int client_id ∷ int perm_id ∷ [])
          (record o { client_id = client_id.value; perm_id = perm_id.value })
  unfolding read_open_ids
  read_open_ids-Reads o client_id perm_id = record {
    takes = λ rest p l. ((format_int perm_id.value), simp (readers, append-nil));
  }

  pub read_order_hours-Reads :
      (o : Order F) (outside_rth : Bool) (hidden : Bool) (discretionary_amount : Real F)
      (good_after_time : Text)
      → Reads {L = Callback F} {F = F}
          (read_order_hours o)
          (bool outside_rth ∷ bool hidden ∷ real discretionary_amount ∷ text good_after_time ∷ [])
          (record o {
            outside_rth = outside_rth;
            hidden = hidden;
            discretionary_amount = discretionary_amount.value;
            good_after_time = good_after_time.bytes;
          })
  unfolding read_order_hours
  read_order_hours-Reads o outside_rth hidden discretionary_amount good_after_time = record {
    takes = λ rest p l. (good_after_time.bytes, simp (readers, append-nil));
  }

  pub read_advisor-Reads :
      (version : ℤ) (o : Order F) (fa_group : Text) (fa_method : Text) (fa_percentage : Text)
      (fa_profile : Text) (model_code : Text) (good_till_date : Text) (rule80a : Text)
      (percent_offset : Real F) (settling_firm : Text) (short_sale_slot : Int64)
      (designated_location : Text)
      → at_least version 160 ≡ true
      → Reads {L = Callback F} {F = F}
          (read_advisor version o)
          (text fa_group
            ∷ text fa_method
            ∷ text fa_percentage
            ∷ text fa_profile
            ∷ text model_code
            ∷ text good_till_date
            ∷ text rule80a
            ∷ real percent_offset
            ∷ text settling_firm
            ∷ int short_sale_slot
            ∷ text designated_location
            ∷ [])
          (record o {
            fa_group = fa_group.bytes;
            fa_method = fa_method.bytes;
            fa_percentage = fa_percentage.bytes;
            fa_profile = fa_profile.bytes;
            model_code = model_code.bytes;
            good_till_date = good_till_date.bytes;
            rule80a = rule80a.bytes;
            percent_offset = percent_offset.value;
            settling_firm = settling_firm.bytes;
            short_sale_slot = short_sale_slot.value;
            designated_location = designated_location.bytes;
          })
  unfolding read_advisor
  read_advisor-Reads version o fa_group fa_method fa_percentage fa_profile model_code good_till_date
        rule80a percent_offset settling_firm short_sale_slot designated_location new =
      record {
        takes = λ rest p l. (
          designated_location.bytes,
          simp (readers, late version new, early version new, not_old version new, append-nil),
        );
      }

  pub read_exempt_code-Reads :
      (version : ℤ) (o : Order F) (exempt_code : Int64)
      → at_least version 160 ≡ true
      → Reads {L = Callback F} {F = F}
          (read_exempt_code version version o)
          (int exempt_code ∷ [])
          (record o { exempt_code = exempt_code.value })
  unfolding read_exempt_code
  read_exempt_code-Reads version o exempt_code new = record {
    takes = λ rest p l. (
      (format_int exempt_code.value),
      simp (readers, late version new, early version new, not_old version new, append-nil),
    );
  }

  pub read_stock_range-Reads :
      (o : Order F) (starting_price : Real F) (stock_ref_price : Real F) (delta : Real F)
      (stock_range_lower : Real F) (stock_range_upper : Real F) (display_size : Int64)
      → Reads {L = Callback F} {F = F}
          (read_stock_range o)
          (real starting_price
            ∷ real stock_ref_price
            ∷ real delta
            ∷ real stock_range_lower
            ∷ real stock_range_upper
            ∷ int display_size
            ∷ [])
          (record o {
            starting_price = starting_price.value;
            stock_ref_price = stock_ref_price.value;
            delta = delta.value;
            stock_range_lower = stock_range_lower.value;
            stock_range_upper = stock_range_upper.value;
            display_size = display_size.value;
          })
  unfolding read_stock_range
  read_stock_range-Reads o starting_price stock_ref_price delta stock_range_lower stock_range_upper
        display_size =
      record { takes = λ rest p l. ((format_int display_size.value), simp (readers, append-nil)) }

  pub read_fill_rules-Reads :
      (o : Order F) (sweep_to_fill : Bool) (all_or_none : Bool) (min_qty : Int64) (oca_type : Int64)
      → Reads {L = Callback F} {F = F}
          (read_fill_rules o)
          (bool sweep_to_fill ∷ bool all_or_none ∷ int min_qty ∷ int oca_type ∷ [])
          (record o {
            sweep_to_fill = sweep_to_fill;
            all_or_none = all_or_none;
            min_qty = min_qty.value;
            oca_type = oca_type.value;
          })
  unfolding read_fill_rules
  read_fill_rules-Reads o sweep_to_fill all_or_none min_qty oca_type = record {
    takes = λ rest p l. ((format_int oca_type.value), simp (readers, append-nil));
  }

  pub read_routing-Reads :
      (o : Order F) (e_trade_only : Bool) (firm_quote_only : Bool) (nbbo_price_cap : Real F)
      (parent_id : Int64)
      → Reads {L = Callback F} {F = F}
          (read_routing o)
          (bool e_trade_only ∷ bool firm_quote_only ∷ real nbbo_price_cap ∷ int parent_id ∷ [])
          (record o {
            e_trade_only = e_trade_only;
            firm_quote_only = firm_quote_only;
            nbbo_price_cap = nbbo_price_cap.value;
            parent_id = parent_id.value;
          })
  unfolding read_routing
  read_routing-Reads o e_trade_only firm_quote_only nbbo_price_cap parent_id = record {
    takes = λ rest p l. ((format_int parent_id.value), simp (readers, append-nil));
  }

  pub read_volatility-Reads :
      (o : Order F) (trigger_method : Int64) (volatility : Real F) (volatility_type : Int64)
      (delta_neutral_order_type : Text) (delta_neutral_aux_price : Real F)
      → Reads {L = Callback F} {F = F}
          (read_volatility o)
          (int trigger_method
            ∷ real volatility
            ∷ int volatility_type
            ∷ text delta_neutral_order_type
            ∷ real delta_neutral_aux_price
            ∷ [])
          (record o {
            trigger_method = trigger_method.value;
            volatility = volatility.value;
            volatility_type = volatility_type.value;
            delta_neutral_order_type = delta_neutral_order_type.bytes;
            delta_neutral_aux_price = delta_neutral_aux_price.value;
          })
  unfolding read_volatility
  read_volatility-Reads o trigger_method volatility volatility_type delta_neutral_order_type
        delta_neutral_aux_price =
      record {
        takes = λ rest p l.
            ((fl.format_float delta_neutral_aux_price.value), simp (readers, append-nil));
      }

  pub read_neutral_settling-Reads :
      (o : Order F) (delta_neutral_contract_id : Int64) (delta_neutral_settling_firm : Text)
      (delta_neutral_clearing_account : Text) (delta_neutral_clearing_intent : Text)
      → Reads {L = Callback F} {F = F}
          (read_neutral_settling o)
          (int delta_neutral_contract_id
            ∷ text delta_neutral_settling_firm
            ∷ text delta_neutral_clearing_account
            ∷ text delta_neutral_clearing_intent
            ∷ [])
          (record o {
            delta_neutral_contract_id = delta_neutral_contract_id.value;
            delta_neutral_settling_firm = delta_neutral_settling_firm.bytes;
            delta_neutral_clearing_account = delta_neutral_clearing_account.bytes;
            delta_neutral_clearing_intent = delta_neutral_clearing_intent.bytes;
          })
  unfolding read_neutral_settling
  read_neutral_settling-Reads o delta_neutral_contract_id delta_neutral_settling_firm
        delta_neutral_clearing_account delta_neutral_clearing_intent =
      record {
        takes = λ rest p l. (delta_neutral_clearing_intent.bytes, simp (readers, append-nil));
      }
