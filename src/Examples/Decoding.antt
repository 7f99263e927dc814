-- ===== src/Examples/Decoding.antt =====
-- Examples of messages of the server.
use ibapi.Common.{List, [], ◌∷◌, ◌++◌, map, true, false, ◌≡◌, refl, codes, negsuc, pos, ℤ, arith}
use ibapi.Buffer.{index_out_of_range, bad_capacity, done}
use ibapi.Buffer.Items.{int, text, real, bool, wire}
use ibapi.Buffer.RoundTrip.{behind}
use ibapi.Wire.Decimal.{format_int}
use ibapi.Decoder.Wrapper.{Callback}
use ibapi.Decoder.{interpret, outcome, completed, crashed}
use ibapi.Decoder.Dispatch.{ready, msg_id, Delivers}
use ibapi.Decoder.Greeks.{Greeks, unset_greeks}
use ibapi.Decoder.Reference.{read_depth_description}
use ibapi.Decoder.Messages.Ticks.{
  computation_calls, TickValues, TicksDelivered, ticks_delivered, size_calls, tick_price_delivered,
  price_attributes, size_type_of, price_types, tick_option_computation_delivered,
}
use ibapi.Decoder.Messages.Account.{AccountValues, AccountDelivered, account_delivered}
use ibapi.Decoder.Messages.History.{
  NewsValues, NewsDelivered, news_delivered, WireBar, WireTick, bar_items, bar_data,
  histogram_items, histogram_data, tick_items, tick_data, historical_data_delivered,
  histogram_delivered, historical_ticks_delivered,
}
use ibapi.Decoder.Messages.Lists.{all_items}
use ibapi.Decoder.Messages.Greeks.{own_sentinels, unset_greeks_loses}
use ibapi.Decoder.Messages.Faults.{
  bond_panics, negative_count, unknown_ids, depth_description_loses,
}
use ibapi.Examples.Values.{ints, whole, seven, one, two, minus_one, ticker, empty_text, no_clock}

abbrev tick_values : TickValues ℤ
tick_values = record {
  v = ticker;
  value_text = ticker;
  formatted_basis_points = ticker;
  future_last_trade_date = ticker;
  bbo_exchange = ticker;
  provider_code = ticker;
  article_id = ticker;
  headline = ticker;
  extra_data = ticker;
  exchange = ticker;
  market_maker = ticker;
  req_id = seven;
  tick_type = seven;
  hold_days = seven;
  market_data_type = seven;
  ticker_id = seven;
  snapshot_permissions = seven;
  time_stamp = seven;
  contract_id = seven;
  position = seven;
  operation = seven;
  side = seven;
  size = whole two;
  value = whole two;
  basis_points = whole two;
  total_dividends = whole two;
  dividend_impact = whole two;
  dividends_to_last_trade_date = whole two;
  min_tick = whole two;
  price = whole two;
  is_smart_depth = true;
}

ticks_delivered_example : TicksDelivered (ready no_clock (pos 161)) tick_values
ticks_delivered_example = ticks_delivered no_clock (pos 161) tick_values

abbrev account_values : AccountValues ℤ
account_values = record {
  v = ticker;
  tag = ticker;
  val = ticker;
  currency = ticker;
  acc_name = ticker;
  error_string = ticker;
  account = ticker;
  value = ticker;
  acc = ticker;
  model_code = ticker;
  cxml = ticker;
  reply = ticker;
  req_id = seven;
  error_code = seven;
  fa_data = seven;
}

account_delivered_example : AccountDelivered (ready no_clock (pos 161)) account_values
account_delivered_example = account_delivered no_clock (pos 161) account_values

abbrev news_values : NewsValues ℤ
news_values = record {
  req_id = seven;
  article_type = seven;
  news_id = seven;
  msg_type = seven;
  head_timestamp = ticker;
  article_text = ticker;
  time = ticker;
  provider_code = ticker;
  article_id = ticker;
  headline = ticker;
  v = ticker;
  news_message = ticker;
  origin_exch = ticker;
  content = ticker;
  has_more = true;
}

news_delivered_example : NewsDelivered (ready no_clock (pos 161)) news_values
news_delivered_example = news_delivered no_clock (pos 161) news_values

tick_price_delivered_example :
    Delivers
      (ready no_clock (pos 161))
      (msg_id 1 refl)
      (text ticker ∷ int seven ∷ int one ∷ real (whole two) ∷ real (whole seven) ∷ int one ∷ [])
      (Callback.tick_price (pos 7) (pos 1) (pos 2) (price_attributes (pos 161) true false false 0)
        ∷ size_calls (pos 7) (pos 7) (size_type_of (pos 1) price_types))
tick_price_delivered_example =
    tick_price_delivered no_clock (pos 161) ticker seven one (whole two) (whole seven) one true
      false false 0 refl

abbrev one_bar : WireBar ℤ
one_bar = record {
  date = ticker;
  open_price = whole two;
  high = whole seven;
  low = whole one;
  close = whole two;
  volume = whole seven;
  average = whole two;
  bar_count = two;
}

historical_data_delivered_example :
    Delivers
      (ready no_clock (pos 124))
      (msg_id 17 refl)
      (int seven
        ∷ text ticker
        ∷ text ticker
        ∷ int two
        ∷ all_items bar_items (one_bar ∷ one_bar ∷ []))
      (map (λ x. Callback.historical_data (pos 7) (bar_data x)) (one_bar ∷ one_bar ∷ [])
        ++ Callback.historical_data_end (pos 7) (codes "IBM") (codes "IBM") ∷ [])
historical_data_delivered_example =
    historical_data_delivered no_clock (pos 124) seven ticker ticker two (one_bar ∷ one_bar ∷ [])
      refl refl

abbrev one_tick : WireTick ℤ
one_tick = record { time = seven; skipped = empty_text; price = whole two; size = whole one }

historical_ticks_delivered_example :
    Delivers
      (ready no_clock (pos 130))
      (msg_id 96 refl)
      (int seven ∷ int one ∷ (all_items tick_items (one_tick ∷ []) ++ bool true ∷ []))
      (Callback.historical_ticks (pos 7) (map tick_data (one_tick ∷ [])) true ∷ [])
historical_ticks_delivered_example =
    historical_ticks_delivered no_clock (pos 130) seven one (one_tick ∷ []) true refl

histogram_delivered_example :
    Delivers
      (ready no_clock (pos 119))
      (msg_id 89 refl)
      (int seven ∷ int one ∷ all_items histogram_items ((whole two, whole seven) ∷ []))
      (Callback.histogram_data (pos 7) (map histogram_data ((whole two, whole seven) ∷ [])) ∷ [])
histogram_delivered_example =
    histogram_delivered no_clock (pos 119) seven one ((whole two, whole seven) ∷ []) refl

bond_panics_example :
    outcome {F = ℤ} (
      interpret (ready no_clock (pos 161)) (
        wire {F = ℤ} (
          int (msg_id 18 refl)
          ∷ int seven
          ∷ int one
          ∷ text ticker
          ∷ text ticker
          ∷ text ticker
          ∷ int two
          ∷ text ticker
          ∷ int one
          ∷ [])))
    ≡ crashed index_out_of_range []
bond_panics_example =
    bond_panics no_clock (pos 161) seven one two ticker ticker ticker ticker (int one ∷ []) refl
      (omega arith)

unknown_ids_example :
    outcome {F = ℤ}
      (interpret (ready no_clock (pos 161)) (wire {F = ℤ} (int (msg_id 106 refl) ∷ int one ∷ [])))
    ≡ completed (wire {F = ℤ} (int one ∷ [])) []
unknown_ids_example = unknown_ids no_clock (pos 161) (msg_id 106 refl) (int one ∷ []) refl

negative_count_example :
    let d = ready {F = ℤ} no_clock (pos 161) in
    (outcome (interpret d (wire {F = ℤ} (int (msg_id 89 refl) ∷ int seven ∷ int minus_one ∷ [])))
      ≡ crashed bad_capacity [])
    × (outcome (interpret d (wire {F = ℤ} (int (msg_id 85 refl) ∷ int minus_one ∷ [])))
        ≡ crashed bad_capacity [])
    × (outcome (interpret d (wire {F = ℤ} (int (msg_id 78 refl) ∷ int minus_one ∷ [])))
        ≡ crashed bad_capacity [])
    × Delivers d
        (msg_id 17 refl)
        (int seven ∷ text ticker ∷ text ticker ∷ int minus_one ∷ [])
        (Callback.historical_data_end (pos 7) (codes "IBM") (codes "IBM") ∷ [])
negative_count_example =
    negative_count no_clock (pos 161) seven minus_one 0 ticker ticker [] refl refl

abbrev no_calls : List (Callback ℤ)
no_calls = []

depth_description_loses_example :
    read_depth_description
      (pos 161)
      (behind []
        (wire {F = ℤ} (text ticker ∷ text ticker ∷ text ticker ∷ text empty_text ∷ int one ∷ [])))
      no_calls
    ≡ done
        (record {
          exchange = codes "IBM";
          security_type = [];
          listing_exchange = codes "IBM";
          service_data_type = [];
          agg_group = pos 1;
        })
        (behind (format_int (pos 1)) (wire {F = ℤ} []))
        no_calls
depth_description_loses_example =
    depth_description_loses no_clock (pos 161) ticker ticker ticker empty_text one [] [] no_calls
      refl

tick_option_computation_delivered_example :
    Delivers
      (ready no_clock (pos 161))
      (msg_id 21 refl)
      (int seven
        ∷ int one
        ∷ int two
        ∷ real (whole minus_one)
        ∷ real (whole two)
        ∷ real (whole one)
        ∷ real (whole two)
        ∷ real (whole one)
        ∷ real (whole two)
        ∷ real (whole one)
        ∷ real (whole seven)
        ∷ [])
      (computation_calls (pos 7) (pos 1) (pos 2) (
        unset_greeks (record {
          implied_vol = negsuc 0;
          delta = pos 2;
          opt_price = pos 1;
          pv_dividend = pos 2;
          gamma = pos 1;
          vega = pos 2;
          theta = pos 1;
          und_price = pos 7;
        })))
tick_option_computation_delivered_example =
    tick_option_computation_delivered no_clock (pos 161) seven one two (whole minus_one) (whole two)
      (whole one) (whole two) (whole one) (whole two) (whole one) (whole seven) refl refl

-- A negative implied volatility, with a price of the underlying.
abbrev some_greeks : Greeks ℤ
some_greeks = record {
  implied_vol = negsuc 0;
  delta = pos 0;
  opt_price = pos 5;
  pv_dividend = pos 0;
  gamma = pos 0;
  vega = pos 0;
  theta = pos 0;
  und_price = pos 100;
}

unset_greeks_loses_example : ¬ (unset_greeks some_greeks ≡ own_sentinels some_greeks)
unset_greeks_loses_example = unset_greeks_loses some_greeks refl refl (λ e. ground arith)
