-- ===== src/Decoder/Reference.antt =====
-- The messages of decoder.go about the market and the session: rules, exchanges, groups.
use ibapi.Common.{[], not, ℤ, pos, at_least}
use ibapi.Wire.Float.{Floats}
use ibapi.Buffer.{pure, call, ◌>>=◌, read_int, read_string, read_bool, read_float}
use ibapi.Decoder.Wrapper.{Callback}
use ibapi.Decoder.Read.{D, read_if, counted}
use ibapi.Data.Market.{
  SoftDollarTier, FamilyCode, SmartComponent, DepthMktDataDescription, PriceIncrement,
}
use ibapi.Data.Contract.{ContractDescription, zero_contract}

module _ {F : Type 0} ⦃fl : Floats F⦄ where
  -- `wrapScannerParameters`.
  unfoldable pub wrap_scanner_parameters : D F (Unit {0})
  wrap_scanner_parameters = do
    _ ← read_string
    xml ← read_string
    call (Callback.scanner_parameters xml)

  -- `wrapVerifyMessageAPI`.
  unfoldable pub wrap_verify_message_api : D F (Unit {0})
  wrap_verify_message_api = do
    _ ← read_string
    api_data ← read_string
    call (Callback.verify_message_api api_data)

  -- `wrapVerifyCompleted`.
  unfoldable pub wrap_verify_completed : D F (Unit {0})
  wrap_verify_completed = do
    _ ← read_string
    is_successful ← read_bool
    err ← read_string
    call (Callback.verify_completed is_successful err)

  -- `wrapDisplayGroupList`.
  unfoldable pub wrap_display_group_list : D F (Unit {0})
  wrap_display_group_list = do
    _ ← read_string
    req_id ← read_int
    groups ← read_string
    call (Callback.display_group_list req_id groups)

  -- `wrapDisplayGroupUpdated`.
  unfoldable pub wrap_display_group_updated : D F (Unit {0})
  wrap_display_group_updated = do
    _ ← read_string
    req_id ← read_int
    contract_info ← read_string
    call (Callback.display_group_updated req_id contract_info)

  -- `wrapVerifyAndAuthMessageAPI`.
  unfoldable pub wrap_verify_and_auth_message_api : D F (Unit {0})
  wrap_verify_and_auth_message_api = do
    _ ← read_string
    api_data ← read_string
    xyz_challange ← read_string
    call (Callback.verify_and_auth_message_api api_data xyz_challange)

  -- `wrapVerifyAndAuthCompleted`.
  unfoldable pub wrap_verify_and_auth_completed : D F (Unit {0})
  wrap_verify_and_auth_completed = do
    _ ← read_string
    is_successful ← read_bool
    err ← read_string
    call (Callback.verify_and_auth_completed is_successful err)

  -- `wrapContractDetailsEnd`.
  unfoldable pub wrap_contract_details_end : D F (Unit {0})
  wrap_contract_details_end = do
    _ ← read_string
    req_id ← read_int
    call (Callback.contract_details_end req_id)

  -- `wrapSecurityDefinitionOptionParameterEndMsg`.
  unfoldable pub wrap_security_definition_option_parameter_end_msg : D F (Unit {0})
  wrap_security_definition_option_parameter_end_msg = do
    req_id ← read_int
    call (Callback.security_definition_option_parameter_end req_id)

  -- `processWshMetaDataMsg`.
  unfoldable pub process_wsh_meta_data_msg : D F (Unit {0})
  process_wsh_meta_data_msg = do
    req_id ← read_int
    data_json ← read_string
    call (Callback.wsh_meta_data req_id data_json)

  -- `processWshEventDataMsg`.
  unfoldable pub process_wsh_event_data_msg : D F (Unit {0})
  process_wsh_event_data_msg = do
    req_id ← read_int
    data_json ← read_string
    call (Callback.wsh_event_data req_id data_json)

  -- `wrapCurrentTime`: the time is kept as its Unix seconds.
  unfoldable pub wrap_current_time : D F (Unit {0})
  wrap_current_time = do _ ← read_string; ts ← read_int; call (Callback.current_time ts)

  -- `processSecurityDefinitionOptionParameterMsg`.
  unfoldable pub process_security_definition_option_parameter_msg : D F (Unit {0})
  process_security_definition_option_parameter_msg = do
    req_id ← read_int
    exchange ← read_string
    underlying_contract_id ← read_int
    trading_class ← read_string
    multiplier ← read_string
    exp_n ← read_int
    expirations ← counted exp_n read_string
    strike_n ← read_int
    strikes ← counted strike_n read_float
    call (
        Callback.security_definition_option_parameter req_id exchange underlying_contract_id
          trading_class multiplier expirations strikes)

  unfoldable pub read_soft_dollar_tier : D F SoftDollarTier
  read_soft_dollar_tier = do
    name ← read_string
    value ← read_string
    display_name ← read_string
    pure (record { name = name; value = value; display_name = display_name })

  -- `processSoftDollarTiersMsg`.
  unfoldable pub process_soft_dollar_tiers_msg : D F (Unit {0})
  process_soft_dollar_tiers_msg = do
    req_id ← read_int
    n ← read_int
    tiers ← counted n read_soft_dollar_tier
    call (Callback.soft_dollar_tiers req_id tiers)

  unfoldable pub read_family_code : D F FamilyCode
  read_family_code = do
    account_id ← read_string
    family_code ← read_string
    pure (record { account_id = account_id; family_code = family_code })

  -- `processFamilyCodesMsg`.
  unfoldable pub process_family_codes_msg : D F (Unit {0})
  process_family_codes_msg = do
    n ← read_int
    family_codes ← counted n read_family_code
    call (Callback.family_codes family_codes)

  unfoldable pub read_contract_description : D F (ContractDescription F)
  read_contract_description = do
    contract_id ← read_int
    symbol ← read_string
    security_type ← read_string
    primary_exchange ← read_string
    currency ← read_string
    sdt_n ← read_int
    derivative_sec_types ← counted sdt_n read_string
    pure (record {
      contract = record zero_contract {
        contract_id = contract_id;
        symbol = symbol;
        security_type = security_type;
        primary_exchange = primary_exchange;
        currency = currency;
      };
      derivative_sec_types = derivative_sec_types;
    })

  -- `processSymbolSamplesMsg`.
  unfoldable pub process_symbol_samples_msg : D F (Unit {0})
  process_symbol_samples_msg = do
    req_id ← read_int
    n ← read_int
    contract_descriptions ← counted n read_contract_description
    call (Callback.symbol_samples req_id contract_descriptions)

  unfoldable pub read_smart_component : D F SmartComponent
  read_smart_component = do
    bit_number ← read_int
    exchange ← read_string
    exchange_letter ← read_string
    pure
        (record { bit_number = bit_number; exchange = exchange; exchange_letter = exchange_letter })

  -- `processSmartComponents`.
  unfoldable pub process_smart_components : D F (Unit {0})
  process_smart_components = do
    req_id ← read_int
    n ← read_int
    smart_components ← counted n read_smart_component
    call (Callback.smart_components req_id smart_components)

  -- An exchange of `processMktDepthExchanges`. Where the server sends a service type, it is stored
  -- in `SecurityType` too, over the security type.
  unfoldable pub read_depth_description : ℤ → D F DepthMktDataDescription
  read_depth_description version = do
    exchange ← read_string
    security_type ← read_string
    let has_service = at_least version 120
    listing_exchange ← read_if has_service read_string []
    service ← read_if has_service read_string security_type
    agg_group ← read_if has_service read_int (pos 0)
    _ ← read_if (not has_service) read_string []
    pure (record {
      exchange = exchange;
      security_type = service;
      listing_exchange = listing_exchange;
      service_data_type = [];
      agg_group = agg_group;
    })

  -- `processMktDepthExchanges`.
  unfoldable pub process_mkt_depth_exchanges : ℤ → D F (Unit {0})
  process_mkt_depth_exchanges version = do
    n ← read_int
    depth_mkt_data_descriptions ← counted n (read_depth_description version)
    call (Callback.mkt_depth_exchanges depth_mkt_data_descriptions)

  unfoldable pub read_price_increment : D F (PriceIncrement F)
  read_price_increment = do
    low_edge ← read_float
    increment ← read_float
    pure (record { low_edge = low_edge; increment = increment })

  -- `processMarketRuleMsg`.
  unfoldable pub process_market_rule_msg : D F (Unit {0})
  process_market_rule_msg = do
    market_rule_id ← read_int
    n ← read_int
    price_increments ← counted n read_price_increment
    call (Callback.market_rule market_rule_id price_increments)
