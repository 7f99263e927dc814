-- ===== src/Request/Versions.antt =====
-- The version guards of the requests (client.go).
use ibapi.Common.{
  ℕ, List, [], ◌∷◌, Bool, true, false, not, ◌&&◌, ◌||◌, Option, none, some, ◌≡◌, Bytes, ℤ, All,
  arith, at_least, below, is_pos, has_text, bytes_eq,
}
use ibapi.Data.Contract.{Contract, TagValue, DeltaNeutralContract}
use ibapi.Request.{Request, rejected, send, noted, raised}
use ibapi.Request.Account.{
  req_positions, cancel_positions, req_positions_multi, cancel_positions_multi,
  req_account_updates_multi, cancel_account_updates_multi, req_pnl, cancel_pnl, req_pnl_single,
  cancel_pnl_single, req_family_codes,
}
use ibapi.Request.Market.{
  req_market_data_type, req_smart_components, req_market_rule, cancel_tick_by_tick_data,
  cancel_calculate_implied_volatility, cancel_calculate_option_price, req_mkt_depth_exchanges,
  cancel_head_timestamp, cancel_histogram_data, cancel_fundamental_data,
}
use ibapi.Request.News.{
  req_news_providers, req_wsh_meta_data, cancel_wsh_meta_data, req_wsh_event_data,
  cancel_wsh_event_data,
}
use ibapi.Request.Groups.{
  query_display_groups, subscribe_to_group_events, update_display_group,
  unsubscribe_from_group_events, verify_request, verify_message, verify_and_auth_request,
  verify_and_auth_message, req_sec_def_opt_params, req_matching_symbols,
}
use ibapi.Data.Scanner.{ScannerSubscription}
use ibapi.Wire.Float.{Floats}
use ibapi.Request.Data.{req_mkt_data, req_mkt_depth, req_real_time_bars, req_fundamental_data}
use ibapi.Request.History.{
  req_head_time_stamp, req_historical_ticks, req_news_article, req_historical_news,
}
use ibapi.Request.Details.{req_contract_details, req_scanner_subscription}
use ibapi.Request.Options.{
  cancel_mkt_depth, req_tick_by_tick_data, calculate_implied_volatility, calculate_option_price,
  exercise_options, req_histogram_data,
}

-- A message is made.
abbrev pub is_sent : {F : Type 0} → Request F → Bool
is_sent (send fs) = true
is_sent (rejected id code text) = false
is_sent (noted id code text fs) = true
is_sent raised = false

-- The request makes a message exactly if the table says so.
abbrev pub IsSentIf : {F : Type 0} → Bool × Request F → Type 0
IsSentIf (sent, r) = is_sent r ≡ sent

abbrev pub no_options : List TagValue → Bool
no_options [] = true
no_options (tv ∷ tvs) = false

abbrev pub has_neutral : {F : Type 0} → Option (DeltaNeutralContract F) → Bool
has_neutral none = false
has_neutral (some n) = true

-- The requests without a contract, each with the servers and arguments that it is sent for. The
-- arguments of a type are numbered, so that no two are the same.
abbrev pub plain_requests :
    {F : Type 0} → ℤ → (ℕ → ℤ) → (ℕ → Bytes) → (ℕ → Bool) → List (Bool × Request F)
plain_requests v id text flag =
    (at_least v 67, req_positions v)
    ∷ (at_least v 67, cancel_positions v)
    ∷ (at_least v 103, req_positions_multi v (id 0) (text 0) (text 1))
    ∷ (at_least v 103, cancel_positions_multi v (id 0))
    ∷ (at_least v 103, req_account_updates_multi v (id 0) (text 0) (text 1) (flag 0))
    ∷ (at_least v 103, cancel_account_updates_multi v (id 0))
    ∷ (at_least v 127, req_pnl v (id 0) (text 0) (text 1))
    ∷ (at_least v 127, cancel_pnl v (id 0))
    ∷ (at_least v 127, req_pnl_single v (id 0) (text 0) (text 1) (id 1))
    ∷ (at_least v 127, cancel_pnl_single v (id 0))
    ∷ (at_least v 107, req_family_codes v)
    ∷ (at_least v 55, req_market_data_type v (id 0))
    ∷ (at_least v 114, req_smart_components v (id 0) (text 0))
    ∷ (at_least v 126, req_market_rule v (id 0))
    ∷ (at_least v 137, cancel_tick_by_tick_data v (id 0))
    ∷ (at_least v 49, cancel_calculate_implied_volatility v (id 0))
    ∷ (at_least v 49, cancel_calculate_option_price v (id 0))
    ∷ (at_least v 112, req_mkt_depth_exchanges v)
    ∷ (at_least v 123, cancel_head_timestamp v (id 0))
    ∷ (at_least v 119, cancel_histogram_data v (id 0))
    ∷ (at_least v 40, cancel_fundamental_data v (id 0))
    ∷ (at_least v 115, req_news_providers v)
    ∷ (at_least v 161, req_wsh_meta_data v (id 0))
    ∷ (at_least v 161, cancel_wsh_meta_data v (id 0))
    ∷ (at_least v 161, req_wsh_event_data v (id 0) (id 1))
    ∷ (at_least v 161, cancel_wsh_event_data v (id 0))
    ∷ (at_least v 70, query_display_groups v (id 0))
    ∷ (at_least v 70, subscribe_to_group_events v (id 0) (id 1))
    ∷ (at_least v 70, update_display_group v (id 0) (text 0))
    ∷ (at_least v 70, unsubscribe_from_group_events v (id 0))
    ∷ (at_least v 70 && not (flag 0), verify_request v (flag 0) (text 0) (text 1))
    ∷ (at_least v 70, verify_message v (text 0))
    ∷ (at_least v 70 && not (flag 0), verify_and_auth_request v (flag 0) (text 0) (text 1) (text 2))
    ∷ (at_least v 70, verify_and_auth_message v (text 0) (text 1))
    ∷ (at_least v 104, req_sec_def_opt_params v (id 0) (text 0) (text 1) (text 2) (id 1))
    ∷ (at_least v 108, req_matching_symbols v (id 0) (text 0))
    ∷ []

-- The requests with a contract or a subscription, and the cancel of a market depth.
abbrev pub contract_requests :
    {F : Type 0} ⦃fl : Floats F⦄
    → ℤ
    → (ℕ → ℤ)
    → (ℕ → Bytes)
    → (ℕ → Bool)
    → (ℕ → F)
    → Contract F
    → ScannerSubscription F
    → List TagValue
    → List TagValue
    → List (Bool × Request F)
contract_requests v id text flag value c subscription options filters =
    (at_least v 146 || not (flag 0), cancel_mkt_depth v (id 0) (flag 0))
    ∷ (at_least v 140, req_tick_by_tick_data v (id 0) c (text 0) (id 1) (flag 0))
    ∷ (
      at_least v 49 && (at_least v 68 || bytes_eq c.trading_class []),
      calculate_implied_volatility v (id 0) c (value 0) (value 1) options,
    )
    ∷ (at_least v 68, calculate_option_price v (id 0) c (value 0) (value 1) options)
    ∷ (
      at_least v 68 || bytes_eq c.trading_class [],
      exercise_options v (id 0) c (id 1) (id 2) (text 0) (id 3),
    )
    ∷ (at_least v 119, req_histogram_data v (id 0) c (flag 0) (text 0))
    ∷ (
      (at_least v 40 || not (has_neutral c.delta_neutral_contract))
          && ((at_least v 47 || not (is_pos c.contract_id))
              && ((at_least v 68 || not (has_text c.trading_class))
                  && (below v 70 || no_options options))),
      req_mkt_data v (id 0) c (text 0) (flag 0) (flag 1) options,
    )
    ∷ (
      at_least v 68
          && ((at_least v 146 || not (flag 0))
              && ((at_least v 149 || not (has_text c.primary_exchange))
                  && (below v 70 || no_options options))),
      req_mkt_depth v (id 0) c (id 1) (flag 0) options,
    )
    ∷ (
      at_least v 68 || not (has_text c.trading_class),
      req_real_time_bars v (id 0) c (id 1) (text 0) (flag 0) options,
    )
    ∷ (at_least v 68, req_fundamental_data v (id 0) c (text 0) options)
    ∷ (at_least v 118, req_head_time_stamp v (id 0) c (text 0) (flag 0) (id 1))
    ∷ (
      at_least v 130,
      req_historical_ticks v (id 0) c (text 0) (text 1) (id 1) (text 2) (flag 0) (flag 1) options,
    )
    ∷ (at_least v 116, req_news_article v (id 0) (text 0) (text 1) options)
    ∷ (
      at_least v 117,
      req_historical_news v (id 0) (id 1) (text 0) (text 1) (text 2) (id 2) options,
    )
    ∷ (
      (at_least v 45 || not (has_text c.security_id_type || has_text c.security_id))
          && ((at_least v 68 || not (has_text c.trading_class))
              && (at_least v 70 || not (has_text c.primary_exchange))),
      req_contract_details v (id 0) c,
    )
    ∷ (
      at_least v 143 || no_options filters,
      req_scanner_subscription v (id 0) subscription options filters,
    )
    ∷ []

plain_guards :
    (F : Type 0) (v : ℤ) (id : ℕ → ℤ) (text : ℕ → Bytes) (flag : ℕ → Bool)
    → All IsSentIf (plain_requests {F = F} v id text flag)
unfolding req_positions cancel_positions req_positions_multi cancel_positions_multi
    req_account_updates_multi cancel_account_updates_multi req_pnl cancel_pnl req_pnl_single
    cancel_pnl_single req_family_codes req_market_data_type req_smart_components req_market_rule
    cancel_tick_by_tick_data cancel_calculate_implied_volatility cancel_calculate_option_price
    req_mkt_depth_exchanges cancel_head_timestamp cancel_histogram_data cancel_fundamental_data
    req_news_providers req_wsh_meta_data cancel_wsh_meta_data req_wsh_event_data
    cancel_wsh_event_data query_display_groups subscribe_to_group_events update_display_group
    unsubscribe_from_group_events verify_request verify_message verify_and_auth_request
    verify_and_auth_message req_sec_def_opt_params req_matching_symbols
plain_guards F v id text flag = ground arith

module _ {F : Type 0} ⦃fl : Floats F⦄ where
  contract_guards :
      (v : ℤ) (id : ℕ → ℤ) (text : ℕ → Bytes) (flag : ℕ → Bool) (value : ℕ → F) (c : Contract F)
      (subscription : ScannerSubscription F) (options filters : List TagValue)
      → All IsSentIf (contract_requests v id text flag value c subscription options filters)
  unfolding cancel_mkt_depth req_tick_by_tick_data calculate_implied_volatility
      calculate_option_price exercise_options req_histogram_data req_mkt_data req_mkt_depth
      req_real_time_bars req_fundamental_data req_head_time_stamp req_historical_ticks
      req_news_article req_historical_news req_contract_details req_scanner_subscription
  contract_guards v id text flag value c subscription options filters = ground arith

  -- On a server of any version and for all arguments: each of the 52 requests in the two tables makes
  -- a message exactly on the versions, and with the arguments, that stand beside it. In every other
  -- case it makes none: it is rejected, or panics on options that are for internal use.
  pub request_guards_exact :
      (v : ℤ) (id : ℕ → ℤ) (text : ℕ → Bytes) (flag : ℕ → Bool) (value : ℕ → F) (c : Contract F)
      (subscription : ScannerSubscription F) (options filters : List TagValue)
      → All IsSentIf (plain_requests {F = F} v id text flag)
        × All IsSentIf (contract_requests v id text flag value c subscription options filters)
  request_guards_exact v id text flag value c subscription options filters = (
    plain_guards F v id text flag,
    contract_guards v id text flag value c subscription options filters,
  )
