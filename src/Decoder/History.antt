-- ===== src/Decoder/History.antt =====
-- The history, news and bar messages of decoder.go.
use ibapi.Common.{[], ℤ, below}
use ibapi.Wire.Float.{Floats}
use ibapi.Buffer.{pure, call, ◌>>=◌, ◌>>◌, read_int, read_string, read_bool, read_float}
use ibapi.Decoder.Wrapper.{Callback}
use ibapi.Decoder.Read.{D, read_if, counted, for_each, has_bit}
use ibapi.Data.Market.{
  BarData, HistoricalTick, HistoricalTickBidAsk, HistoricalTickLast, NewsProvider, HistogramData,
}
use ibapi.Decoder.Ticks.{tick_attrib_last}

module _ {F : Type 0} ⦃fl : Floats F⦄ where
  -- `processHeadTimestamp`.
  unfoldable pub process_head_timestamp : D F (Unit {0})
  process_head_timestamp = do
    req_id ← read_int
    head_timestamp ← read_string
    call (Callback.head_timestamp req_id head_timestamp)

  -- `processNewsArticle`.
  unfoldable pub process_news_article : D F (Unit {0})
  process_news_article = do
    req_id ← read_int
    article_type ← read_int
    article_text ← read_string
    call (Callback.news_article req_id article_type article_text)

  -- `processHistoricalNews`.
  unfoldable pub process_historical_news : D F (Unit {0})
  process_historical_news = do
    req_id ← read_int
    time ← read_string
    provider_code ← read_string
    article_id ← read_string
    headline ← read_string
    call (Callback.historical_news req_id time provider_code article_id headline)

  -- `processHistoricalNewsEnd`.
  unfoldable pub process_historical_news_end : D F (Unit {0})
  process_historical_news_end = do
    req_id ← read_int
    has_more ← read_bool
    call (Callback.historical_news_end req_id has_more)

  -- `wrapUpdateNewsBulletin`.
  unfoldable pub wrap_update_news_bulletin : D F (Unit {0})
  wrap_update_news_bulletin = do
    _ ← read_string
    news_id ← read_int
    msg_type ← read_int
    news_message ← read_string
    origin_exch ← read_string
    call (Callback.update_news_bulletin news_id msg_type news_message origin_exch)

  -- `wrapFundamentalData`.
  unfoldable pub wrap_fundamental_data : D F (Unit {0})
  wrap_fundamental_data = do
    _ ← read_string
    req_id ← read_int
    content ← read_string
    call (Callback.fundamental_data req_id content)

  -- A bar of `processHistoricalDataMsg`.
  unfoldable pub read_bar : ℤ → D F (BarData F)
  read_bar version = do
    date ← read_string
    open_price ← read_float
    high ← read_float
    low ← read_float
    close ← read_float
    volume ← read_float
    average ← read_float
    _ ← read_if (below version 124) read_string []
    bar_count ← read_int
    pure (record {
      date = date;
      open_price = open_price;
      high = high;
      low = low;
      close = close;
      volume = volume;
      bar_count = bar_count;
      average = average;
    })

  unfoldable pub one_bar : ℤ → ℤ → D F (Unit {0})
  unfolding read_bar
  one_bar version req_id = do bar ← read_bar version; call (Callback.historical_data req_id bar)

  -- `processHistoricalDataMsg`: a callback for each bar, and one behind the last.
  unfoldable pub process_historical_data_msg : ℤ → D F (Unit {0})
  process_historical_data_msg version = do
    _ ← read_if (below version 124) read_string []
    req_id ← read_int
    start_date_str ← read_string
    end_date_str ← read_string
    n ← read_int
    for_each n (one_bar version req_id)
    call (Callback.historical_data_end req_id start_date_str end_date_str)

  -- `processHistoricalDataUpdateMsg`.
  unfoldable pub process_historical_data_update_msg : D F (Unit {0})
  process_historical_data_update_msg = do
    req_id ← read_int
    bar_count ← read_int
    date ← read_string
    open_price ← read_float
    close ← read_float
    high ← read_float
    low ← read_float
    average ← read_float
    volume ← read_float
    let bar : BarData F = record {
      date = date;
      open_price = open_price;
      high = high;
      low = low;
      close = close;
      volume = volume;
      bar_count = bar_count;
      average = average;
    }
    call (Callback.historical_data_update req_id bar)

  -- `processRealTimeBarMsg`.
  unfoldable pub process_real_time_bar_msg : D F (Unit {0})
  process_real_time_bar_msg = do
    _ ← read_string
    req_id ← read_int
    time ← read_int
    open_price ← read_float
    high ← read_float
    low ← read_float
    close ← read_float
    volume ← read_float
    wap ← read_float
    count ← read_int
    call (Callback.realtime_bar req_id time open_price high low close volume wap count)

  unfoldable pub read_news_provider : D F NewsProvider
  read_news_provider = do
    name ← read_string
    code ← read_string
    pure (record { code = code; name = name })

  -- `processNewsProviders`.
  unfoldable pub process_news_providers : D F (Unit {0})
  process_news_providers = do
    n ← read_int
    news_providers ← counted n read_news_provider
    call (Callback.news_providers news_providers)

  unfoldable pub read_histogram_item : D F (HistogramData F)
  read_histogram_item = do
    price ← read_float
    count ← read_float
    pure (record { price = price; count = count })

  -- `processHistogramData`.
  unfoldable pub process_histogram_data : D F (Unit {0})
  process_histogram_data = do
    req_id ← read_int
    n ← read_int
    histogram ← counted n read_histogram_item
    call (Callback.histogram_data req_id histogram)

  unfoldable pub read_historical_tick : D F (HistoricalTick F)
  read_historical_tick = do
    time ← read_int
    _ ← read_string
    price ← read_float
    size ← read_float
    pure (record { time = time; price = price; size = size })

  -- `processHistoricalTicks`.
  unfoldable pub process_historical_ticks : D F (Unit {0})
  process_historical_ticks = do
    req_id ← read_int
    n ← read_int
    ticks ← counted n read_historical_tick
    is_done ← read_bool
    call (Callback.historical_ticks req_id ticks is_done)

  unfoldable pub read_historical_tick_bid_ask : D F (HistoricalTickBidAsk F)
  read_historical_tick_bid_ask = do
    time ← read_int
    mask ← read_int
    price_bid ← read_float
    price_ask ← read_float
    size_bid ← read_float
    size_ask ← read_float
    pure (record {
      time = time;
      tick_attrib_bid_ask = record {
        bid_past_low = has_bit 1 mask;
        ask_past_high = has_bit 0 mask;
      };
      price_bid = price_bid;
      price_ask = price_ask;
      size_bid = size_bid;
      size_ask = size_ask;
    })

  -- `processHistoricalTicksBidAsk`.
  unfoldable pub process_historical_ticks_bid_ask : D F (Unit {0})
  process_historical_ticks_bid_ask = do
    req_id ← read_int
    n ← read_int
    ticks ← counted n read_historical_tick_bid_ask
    is_done ← read_bool
    call (Callback.historical_ticks_bid_ask req_id ticks is_done)

  unfoldable pub read_historical_tick_last : D F (HistoricalTickLast F)
  read_historical_tick_last = do
    time ← read_int
    mask ← read_int
    price ← read_float
    size ← read_float
    exchange ← read_string
    special_conditions ← read_string
    pure (record {
      time = time;
      tick_attrib_last = tick_attrib_last mask;
      price = price;
      size = size;
      exchange = exchange;
      special_conditions = special_conditions;
    })

  -- `processHistoricalTicksLast`.
  unfoldable pub process_historical_ticks_last : D F (Unit {0})
  process_historical_ticks_last = do
    req_id ← read_int
    n ← read_int
    ticks ← counted n read_historical_tick_last
    is_done ← read_bool
    call (Callback.historical_ticks_last req_id ticks is_done)
