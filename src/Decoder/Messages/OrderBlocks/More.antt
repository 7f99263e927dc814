-- ===== src/Decoder/Messages/OrderBlocks/More.antt =====
-- What the later parts of an order message read, field by field.
use ibapi.Common.{[], ◌∷◌, Bool, true, ◌≡◌, ℤ, at_least, append-nil}
use ibapi.Wire.Float.{Floats}
use ibapi.Wire.Decimal.{format_int}
use ibapi.Buffer.Items.{Int64, Text, Real, int, text, real, bool, print}
use ibapi.Buffer.RoundTrip.{readers}
use ibapi.Data.Order.{Order}
use ibapi.Data.Order.Values.{zero_order_state}
use ibapi.Decoder.Wrapper.{Callback}
use ibapi.Decoder.Messages.Reads.{Reads}
use ibapi.Decoder.OrderFields.{read_trail}
use ibapi.Decoder.OrderFields.Parts.{
  read_scale_size, read_scale_prices, read_clearing, read_randomize, read_peg_bench,
}
use ibapi.Decoder.OpenOrder.{
  read_neutral_open_close, read_basis_points, read_adjusted, read_order_state, read_open_tail,
}
use ibapi.Decoder.Reference.{read_soft_dollar_tier}
use ibapi.Decoder.Messages.OrderBlocks.{late, early, not_old}

module _ {F : Type 0} ⦃fl : Floats F⦄ where
  pub read_neutral_open_close-Reads :
      (o : Order F) (delta_neutral_open_close : Text) (delta_neutral_short_sale : Bool)
      (delta_neutral_short_sale_slot : Int64) (delta_neutral_designated_location : Text)
      → Reads {L = Callback F} {F = F}
          (read_neutral_open_close o)
          (text delta_neutral_open_close
            ∷ bool delta_neutral_short_sale
            ∷ int delta_neutral_short_sale_slot
            ∷ text delta_neutral_designated_location
            ∷ [])
          (record o {
            delta_neutral_open_close = delta_neutral_open_close.bytes;
            delta_neutral_short_sale = delta_neutral_short_sale;
            delta_neutral_short_sale_slot = delta_neutral_short_sale_slot.value;
            delta_neutral_designated_location = delta_neutral_designated_location.bytes;
          })
  unfolding read_neutral_open_close
  read_neutral_open_close-Reads o delta_neutral_open_close delta_neutral_short_sale
        delta_neutral_short_sale_slot delta_neutral_designated_location =
      record {
        takes = λ rest p l. (delta_neutral_designated_location.bytes, simp (readers, append-nil));
      }

  pub read_trail-Reads :
      (version : ℤ) (o : Order F) (continuous_update : Bool) (reference_price_type : Int64)
      (trail_stop_price : Real F) (trailing_percent : Real F)
      → at_least version 160 ≡ true
      → Reads {L = Callback F} {F = F}
          (read_trail version o)
          (bool continuous_update
            ∷ int reference_price_type
            ∷ real trail_stop_price
            ∷ real trailing_percent
            ∷ [])
          (record o {
            continuous_update = continuous_update;
            reference_price_type = reference_price_type.value;
            trail_stop_price = trail_stop_price.value;
            trailing_percent = trailing_percent.value;
          })
  unfolding read_trail
  read_trail-Reads version o continuous_update reference_price_type trail_stop_price
        trailing_percent new =
      record {
        takes = λ rest p l. (
          (fl.format_float trailing_percent.value),
          simp (readers, late version new, early version new, not_old version new, append-nil),
        );
      }

  pub read_basis_points-Reads :
      (o : Order F) (basis_points : Real F) (basis_points_type : Int64)
      → Reads {L = Callback F} {F = F}
          (read_basis_points o)
          (real basis_points ∷ int basis_points_type ∷ [])
          (record o {
            basis_points = basis_points.value;
            basis_points_type = basis_points_type.value;
          })
  unfolding read_basis_points
  read_basis_points-Reads o basis_points basis_points_type = record {
    takes = λ rest p l. ((format_int basis_points_type.value), simp (readers, append-nil));
  }

  pub read_scale_size-Reads :
      (version : ℤ) (o : Order F) (scale_init_level_size : Int64) (scale_subs_level_size : Int64)
      (scale_price_increment : Real F)
      → at_least version 160 ≡ true
      → Reads {L = Callback F} {F = F}
          (read_scale_size version o)
          (int scale_init_level_size ∷ int scale_subs_level_size ∷ real scale_price_increment ∷ [])
          (record o {
            scale_init_level_size = scale_init_level_size.value;
            scale_subs_level_size = scale_subs_level_size.value;
            scale_price_increment = scale_price_increment.value;
          })
  unfolding read_scale_size
  read_scale_size-Reads version o scale_init_level_size scale_subs_level_size scale_price_increment
        new =
      record {
        takes = λ rest p l. (
          (fl.format_float scale_price_increment.value),
          simp (readers, late version new, early version new, not_old version new, append-nil),
        );
      }

  pub read_scale_prices-Reads :
      (o : Order F) (scale_price_adjust_value : Real F) (scale_price_adjust_interval : Int64)
      (scale_profit_offset : Real F) (scale_auto_reset : Bool) (scale_init_position : Int64)
      (scale_init_fill_qty : Int64) (scale_random_percent : Bool)
      → Reads {L = Callback F} {F = F}
          (read_scale_prices o)
          (real scale_price_adjust_value
            ∷ int scale_price_adjust_interval
            ∷ real scale_profit_offset
            ∷ bool scale_auto_reset
            ∷ int scale_init_position
            ∷ int scale_init_fill_qty
            ∷ bool scale_random_percent
            ∷ [])
          (record o {
            scale_price_adjust_value = scale_price_adjust_value.value;
            scale_price_adjust_interval = scale_price_adjust_interval.value;
            scale_profit_offset = scale_profit_offset.value;
            scale_auto_reset = scale_auto_reset;
            scale_init_position = scale_init_position.value;
            scale_init_fill_qty = scale_init_fill_qty.value;
            scale_random_percent = scale_random_percent;
          })
  unfolding read_scale_prices
  read_scale_prices-Reads o scale_price_adjust_value scale_price_adjust_interval scale_profit_offset
        scale_auto_reset scale_init_position scale_init_fill_qty scale_random_percent =
      record {
        takes =
            λ rest p l. ((print {F = F} (bool scale_random_percent)), simp (readers, append-nil));
      }

  pub read_clearing-Reads :
      (version : ℤ) (o : Order F) (clearing_account : Text) (clearing_intent : Text)
      (not_held : Bool)
      → at_least version 160 ≡ true
      → Reads {L = Callback F} {F = F}
          (read_clearing version o)
          (text clearing_account ∷ text clearing_intent ∷ bool not_held ∷ [])
          (record o {
            clearing_account = clearing_account.bytes;
            clearing_intent = clearing_intent.bytes;
            not_held = not_held;
          })
  unfolding read_clearing
  read_clearing-Reads version o clearing_account clearing_intent not_held new = record {
    takes = λ rest p l. (
      (print {F = F} (bool not_held)),
      simp (readers, late version new, early version new, not_old version new, append-nil),
    );
  }

  pub read_randomize-Reads :
      (version : ℤ) (o : Order F) (randomize_size : Bool) (randomize_price : Bool)
      → at_least version 160 ≡ true
      → Reads {L = Callback F} {F = F}
          (read_randomize version o)
          (bool randomize_size ∷ bool randomize_price ∷ [])
          (record o { randomize_size = randomize_size; randomize_price = randomize_price })
  unfolding read_randomize
  read_randomize-Reads version o randomize_size randomize_price new = record {
    takes = λ rest p l. (
      (print {F = F} (bool randomize_price)),
      simp (readers, late version new, early version new, not_old version new, append-nil),
    );
  }

  pub read_peg_bench-Reads :
      (o : Order F) (reference_contract_id : Int64) (is_pegged_change_amount_decrease : Bool)
      (pegged_change_amount : Real F) (reference_change_amount : Real F)
      (reference_exchange_id : Text)
      → Reads {L = Callback F} {F = F}
          (read_peg_bench o)
          (int reference_contract_id
            ∷ bool is_pegged_change_amount_decrease
            ∷ real pegged_change_amount
            ∷ real reference_change_amount
            ∷ text reference_exchange_id
            ∷ [])
          (record o {
            reference_contract_id = reference_contract_id.value;
            is_pegged_change_amount_decrease = is_pegged_change_amount_decrease;
            pegged_change_amount = pegged_change_amount.value;
            reference_change_amount = reference_change_amount.value;
            reference_exchange_id = reference_exchange_id.bytes;
          })
  unfolding read_peg_bench
  read_peg_bench-Reads o reference_contract_id is_pegged_change_amount_decrease pegged_change_amount
        reference_change_amount reference_exchange_id =
      record { takes = λ rest p l. (reference_exchange_id.bytes, simp (readers, append-nil)) }

  pub read_adjusted-Reads :
      (o : Order F) (adjusted_order_type : Text) (trigger_price : Real F)
      (trail_stop_price : Real F) (limit_price_offset : Real F) (adjusted_stop_price : Real F)
      (adjusted_stop_limit_price : Real F) (adjusted_trailing_amount : Real F)
      (adjustable_trailing_unit : Int64)
      → Reads {L = Callback F} {F = F}
          (read_adjusted o)
          (text adjusted_order_type
            ∷ real trigger_price
            ∷ real trail_stop_price
            ∷ real limit_price_offset
            ∷ real adjusted_stop_price
            ∷ real adjusted_stop_limit_price
            ∷ real adjusted_trailing_amount
            ∷ int adjustable_trailing_unit
            ∷ [])
          (record o {
            adjusted_order_type = adjusted_order_type.bytes;
            trigger_price = trigger_price.value;
            trail_stop_price = trail_stop_price.value;
            limit_price_offset = limit_price_offset.value;
            adjusted_stop_price = adjusted_stop_price.value;
            adjusted_stop_limit_price = adjusted_stop_limit_price.value;
            adjusted_trailing_amount = adjusted_trailing_amount.value;
            adjustable_trailing_unit = adjustable_trailing_unit.value;
          })
  unfolding read_adjusted
  read_adjusted-Reads o adjusted_order_type trigger_price trail_stop_price limit_price_offset
        adjusted_stop_price adjusted_stop_limit_price adjusted_trailing_amount
        adjustable_trailing_unit =
      record {
        takes =
            λ rest p l. ((format_int adjustable_trailing_unit.value), simp (readers, append-nil));
      }

  pub read_order_state-Reads :
      (version : ℤ) (status : Text) (initial_margin_before : Text)
      (maintenance_margin_before : Text) (equity_with_loan_before : Text)
      (initial_margin_change : Text) (maintenance_margin_change : Text)
      (equity_with_loan_change : Text) (initial_margin_after : Text)
      (maintenance_margin_after : Text) (equity_with_loan_after : Text) (commission : Real F)
      (min_commission : Real F) (max_commission : Real F) (commission_currency : Text)
      (warning_text : Text)
      → at_least version 160 ≡ true
      → Reads {L = Callback F} {F = F}
          (read_order_state version)
          (text status
            ∷ text initial_margin_before
            ∷ text maintenance_margin_before
            ∷ text equity_with_loan_before
            ∷ text initial_margin_change
            ∷ text maintenance_margin_change
            ∷ text equity_with_loan_change
            ∷ text initial_margin_after
            ∷ text maintenance_margin_after
            ∷ text equity_with_loan_after
            ∷ real commission
            ∷ real min_commission
            ∷ real max_commission
            ∷ text commission_currency
            ∷ text warning_text
            ∷ [])
          (record zero_order_state {
            status = status.bytes;
            initial_margin_before = initial_margin_before.bytes;
            maintenance_margin_before = maintenance_margin_before.bytes;
            equity_with_loan_before = equity_with_loan_before.bytes;
            initial_margin_change = initial_margin_change.bytes;
            maintenance_margin_change = maintenance_margin_change.bytes;
            equity_with_loan_change = equity_with_loan_change.bytes;
            initial_margin_after = initial_margin_after.bytes;
            maintenance_margin_after = maintenance_margin_after.bytes;
            equity_with_loan_after = equity_with_loan_after.bytes;
            commission = commission.value;
            min_commission = min_commission.value;
            max_commission = max_commission.value;
            commission_currency = commission_currency.bytes;
            warning_text = warning_text.bytes;
          })
  unfolding read_order_state
  read_order_state-Reads version status initial_margin_before maintenance_margin_before
        equity_with_loan_before initial_margin_change maintenance_margin_change
        equity_with_loan_change initial_margin_after maintenance_margin_after equity_with_loan_after
        commission min_commission max_commission commission_currency warning_text new =
      record {
        takes = λ rest p l. (
          warning_text.bytes,
          simp (readers, late version new, early version new, not_old version new, append-nil),
        );
      }

  pub read_open_tail-Reads :
      (version : ℤ) (o : Order F) (soft_dollar_name : Text) (soft_dollar_value : Text)
      (soft_dollar_display_name : Text) (cash_qty : Real F) (dont_use_auto_price_for_hedge : Bool)
      (is_oms_container : Bool) (discretionary_up_to_limit_price : Bool)
      (use_price_mgmt_algo : Bool) (duration : Int64) (post_to_ats : Int64)
      → at_least version 160 ≡ true
      → Reads {L = Callback F} {F = F}
          (read_open_tail version o)
          (text soft_dollar_name
            ∷ text soft_dollar_value
            ∷ text soft_dollar_display_name
            ∷ real cash_qty
            ∷ bool dont_use_auto_price_for_hedge
            ∷ bool is_oms_container
            ∷ bool discretionary_up_to_limit_price
            ∷ bool use_price_mgmt_algo
            ∷ int duration
            ∷ int post_to_ats
            ∷ [])
          (record o {
            soft_dollar_tier = record {
              name = soft_dollar_name.bytes;
              value = soft_dollar_value.bytes;
              display_name = soft_dollar_display_name.bytes;
            };
            cash_qty = cash_qty.value;
            dont_use_auto_price_for_hedge = dont_use_auto_price_for_hedge;
            is_oms_container = is_oms_container;
            discretionary_up_to_limit_price = discretionary_up_to_limit_price;
            use_price_mgmt_algo = use_price_mgmt_algo;
            duration = duration.value;
            post_to_ats = post_to_ats.value;
          })
  unfolding read_open_tail read_soft_dollar_tier
  read_open_tail-Reads version o soft_dollar_name soft_dollar_value soft_dollar_display_name
        cash_qty dont_use_auto_price_for_hedge is_oms_container discretionary_up_to_limit_price
        use_price_mgmt_algo duration post_to_ats new =
      record {
        takes = λ rest p l. (
          (format_int post_to_ats.value),
          simp (readers, late version new, early version new, not_old version new, append-nil),
        );
      }
