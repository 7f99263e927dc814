-- ===== src/Decoder/Contracts.antt =====
-- The contract and scanner messages of decoder.go.
use ibapi.Common.{List, [], ◌∷◌, Bool, Bytes, ℤ, pos, negsuc, at_least}
use ibapi.Wire.Float.{Floats}
use ibapi.Wire.Frame.{split_at}
use ibapi.Buffer.{
  index_out_of_range, pure, panic, call, ◌>>=◌, ◌>>◌, read_int, read_string, read_bool, read_float,
}
use ibapi.Decoder.Wrapper.{Callback}
use ibapi.Decoder.Read.{D, read_if, counted, for_each}
use ibapi.Data.Contract.{ContractDetails, TagValue, zero_contract, zero_contract_details}

-- The expiry and the last trade time of `processContractDataMsg`: the first two parts of a text
-- cut at spaces (`strings.Split` gives one part at least).
unfoldable pub expiry_parts : List Bytes → Bytes × Bytes
expiry_parts [] = ([], [])
expiry_parts (a ∷ []) = (a, [])
expiry_parts (a ∷ b ∷ _) = (a, b)

unfoldable pub contract_expiry : Bytes → Bytes × Bytes
unfolding expiry_parts split_at
contract_expiry [] = ([], [])
contract_expiry (c ∷ s) = expiry_parts (split_at b' ' [] (c ∷ s))

module _ {F : Type 0} ⦃fl : Floats F⦄ where
  unfoldable pub read_tag_value : D F TagValue
  read_tag_value = do
    tag ← read_string
    value ← read_string
    pure (record { tag = tag; value = value })

  -- `if v >= k { n := readInt(); … }` around a list of tags and values.
  unfoldable pub read_security_ids : Bool → D F (List TagValue)
  unfolding read_tag_value
  read_security_ids b = read_if b (read_int >>= λ n. counted n read_tag_value) []

  -- `processContractDataMsg`.
  unfoldable pub process_contract_data_msg : ℤ → D F (Unit {0})
  unfolding read_security_ids
  process_contract_data_msg version = do
    v ← read_int
    req_id ← read_if (at_least v 3) read_int (negsuc 0)
    symbol ← read_string
    security_type ← read_string
    last_trade_date ← read_string
    strike ← read_float
    right ← read_string
    exchange ← read_string
    currency ← read_string
    local_symbol ← read_string
    market_name ← read_string
    trading_class ← read_string
    contract_id ← read_int
    min_tick ← read_float
    md_size_multiplier ← read_if (at_least version 110) read_int (pos 0)
    multiplier ← read_string
    order_types ← read_string
    valid_exchanges ← read_string
    price_magnifier ← read_int
    under_contract_id ← read_if (at_least v 4) read_int (pos 0)
    long_name ← read_if (at_least v 5) read_string []
    primary_exchange ← read_if (at_least v 5) read_string []
    contract_month ← read_if (at_least v 6) read_string []
    industry ← read_if (at_least v 6) read_string []
    category ← read_if (at_least v 6) read_string []
    subcategory ← read_if (at_least v 6) read_string []
    timezone_id ← read_if (at_least v 6) read_string []
    trading_hours ← read_if (at_least v 6) read_string []
    liquid_hours ← read_if (at_least v 6) read_string []
    ev_rule ← read_if (at_least v 8) read_string []
    ev_multiplier ← read_if (at_least v 8) read_int (pos 0)
    security_id_list ← read_security_ids (at_least v 7)
    agg_group ← read_if (at_least version 121) read_int (pos 0)
    under_symbol ← read_if (at_least version 122) read_string []
    under_security_type ← read_if (at_least version 122) read_string []
    market_rule_ids ← read_if (at_least version 126) read_string []
    real_expiration_date ← read_if (at_least version 134) read_string []
    stock_type ← read_if (at_least version 152) read_string []
    let details : ContractDetails F = record zero_contract_details {
      contract = record zero_contract {
        contract_id = contract_id;
        symbol = symbol;
        security_type = security_type;
        expiry = (contract_expiry last_trade_date).0;
        strike = strike;
        right = right;
        multiplier = multiplier;
        exchange = exchange;
        currency = currency;
        local_symbol = local_symbol;
        trading_class = trading_class;
        primary_exchange = primary_exchange;
      };
      market_name = market_name;
      min_tick = min_tick;
      order_types = order_types;
      valid_exchanges = valid_exchanges;
      price_magnifier = price_magnifier;
      under_contract_id = under_contract_id;
      long_name = long_name;
      contract_month = contract_month;
      industry = industry;
      category = category;
      subcategory = subcategory;
      timezone_id = timezone_id;
      trading_hours = trading_hours;
      liquid_hours = liquid_hours;
      ev_rule = ev_rule;
      ev_multiplier = ev_multiplier;
      md_size_multiplier = md_size_multiplier;
      agg_group = agg_group;
      under_symbol = under_symbol;
      under_security_type = under_security_type;
      market_rule_ids = market_rule_ids;
      security_id_list = security_id_list;
      real_expiration_date = real_expiration_date;
      last_trade_time = (contract_expiry last_trade_date).1;
      stock_type = stock_type;
    }
    call (Callback.contract_details req_id details)

  -- The switch over the parts of the expiry in `processBondContractDataMsg`. The first case holds for
  -- every text, and it falls through to the others, which index the second and the third part.
  unfoldable pub bond_expiry : List Bytes → D F (Bytes × Bytes × Bytes)
  bond_expiry [] = pure ([], [], [])
  bond_expiry (maturity ∷ []) = panic index_out_of_range
  bond_expiry (maturity ∷ time ∷ []) = panic index_out_of_range
  bond_expiry (maturity ∷ time ∷ zone ∷ _) = pure (maturity, time, zone)

  -- `processBondContractDataMsg`.
  unfoldable pub process_bond_contract_data_msg : ℤ → D F (Unit {0})
  unfolding read_security_ids split_at
  process_bond_contract_data_msg version = do
    v ← read_int
    req_id ← read_if (at_least v 3) read_int (negsuc 0)
    symbol ← read_string
    security_type ← read_string
    cusip ← read_string
    coupon ← read_int
    expiry ← read_string
    dates ← bond_expiry (split_at b' ' [] expiry)
    issue_date ← read_string
    ratings ← read_string
    bond_type ← read_string
    coupon_type ← read_string
    convertible ← read_bool
    callable ← read_bool
    putable ← read_bool
    desc_append ← read_string
    exchange ← read_string
    currency ← read_string
    market_name ← read_string
    trading_class ← read_string
    contract_id ← read_int
    min_tick ← read_float
    md_size_multiplier ← read_if (at_least version 110) read_int (pos 0)
    order_types ← read_string
    valid_exchanges ← read_string
    next_option_date ← read_string
    next_option_type ← read_string
    next_option_partial ← read_bool
    notes ← read_string
    long_name ← read_if (at_least v 4) read_string []
    ev_rule ← read_if (at_least v 6) read_string []
    ev_multiplier ← read_if (at_least v 6) read_int (pos 0)
    security_id_list ← read_security_ids (at_least v 5)
    agg_group ← read_if (at_least version 121) read_int (pos 0)
    market_rule_ids ← read_if (at_least version 126) read_string []
    let details : ContractDetails F = record zero_contract_details {
      contract = record zero_contract {
        contract_id = contract_id;
        symbol = symbol;
        security_type = security_type;
        exchange = exchange;
        currency = currency;
        trading_class = trading_class;
      };
      market_name = market_name;
      min_tick = min_tick;
      order_types = order_types;
      valid_exchanges = valid_exchanges;
      long_name = long_name;
      timezone_id = dates.2;
      ev_rule = ev_rule;
      ev_multiplier = ev_multiplier;
      md_size_multiplier = md_size_multiplier;
      agg_group = agg_group;
      market_rule_ids = market_rule_ids;
      security_id_list = security_id_list;
      last_trade_time = dates.1;
      cusip = cusip;
      ratings = ratings;
      desc_append = desc_append;
      bond_type = bond_type;
      coupon_type = coupon_type;
      callable = callable;
      putable = putable;
      coupon = coupon;
      convertible = convertible;
      maturity = dates.0;
      issue_date = issue_date;
      next_option_date = next_option_date;
      next_option_type = next_option_type;
      next_option_partial = next_option_partial;
      notes = notes;
    }
    call (Callback.bond_contract_details req_id details)

  unfoldable pub one_scan : ℤ → D F (Unit {0})
  one_scan req_id = do
    rank ← read_int
    contract_id ← read_int
    symbol ← read_string
    security_type ← read_string
    expiry ← read_string
    strike ← read_float
    right ← read_string
    exchange ← read_string
    currency ← read_string
    local_symbol ← read_string
    market_name ← read_string
    trading_class ← read_string
    distance ← read_string
    benchmark ← read_string
    projection ← read_string
    legs ← read_string
    let details : ContractDetails F = record zero_contract_details {
      contract = record zero_contract {
        contract_id = contract_id;
        symbol = symbol;
        security_type = security_type;
        expiry = expiry;
        strike = strike;
        right = right;
        exchange = exchange;
        currency = currency;
        local_symbol = local_symbol;
        trading_class = trading_class;
      };
      market_name = market_name;
    }
    call (Callback.scanner_data req_id rank details distance benchmark projection legs)

  -- `processScannerDataMsg`.
  unfoldable pub process_scanner_data_msg : D F (Unit {0})
  process_scanner_data_msg = do
    _ ← read_string
    req_id ← read_int
    n ← read_int
    for_each n (one_scan req_id)
    call (Callback.scanner_data_end req_id)
