-- ===== src/Decoder/Messages/History.antt =====
-- The history messages, from the wire to the wrapper.
use ibapi.Common.{
  List, [], ◌∷◌, ◌++◌, map, Option, ◌≡◌, refl, Bytes, ℤ, pos, Bool, false, below, length,
  append-nil,
}
use ibapi.Wire.Float.{Floats}
use ibapi.Buffer.Items.{Item, Int64, Text, Real, int, text, real, bool}
use ibapi.Buffer.RoundTrip.{readers}
use ibapi.Wire.Decimal.{format_int}
use ibapi.Decoder.Wrapper.{Callback, AccountTime}
use ibapi.Decoder.{
  Decoder, set_version, set_msg_id2process, process_table, lookup_process, find_process,
  apply_process,
}
use ibapi.Decoder.Dispatch.{ready, msg_id, Delivers, delivers_of}
use ibapi.Decoder.Read.{repeat, rounds}
use ibapi.Decoder.History.{
  process_head_timestamp, process_news_article, process_historical_news,
  process_historical_news_end, wrap_update_news_bulletin, wrap_fundamental_data,
}
use ibapi.Data.Market.{BarData, HistogramData, HistoricalTick}
use ibapi.Decoder.History.{
  read_bar, one_bar, process_historical_data_msg, read_histogram_item, process_histogram_data,
  read_historical_tick, process_historical_ticks,
}
use ibapi.Decoder.Messages.Lists.{all_items, Takes, Takes-last, Takes-repeat, Takes-rounds}

-- A bar as the server writes it from version 124 on.
pub record WireBar (F : Type 0) ⦃fl : Floats F⦄ : Type 0 where
  pub date : Text
  pub open_price : Real F
  pub high : Real F
  pub low : Real F
  pub close : Real F
  pub volume : Real F
  pub average : Real F
  pub bar_count : Int64

pub record WireTick (F : Type 0) ⦃fl : Floats F⦄ : Type 0 where
  pub time : Int64
  pub skipped : Text
  pub price : Real F
  pub size : Real F

module _ {F : Type 0} ⦃fl : Floats F⦄ where
  abbrev pub bar_items : WireBar F → List (Item F)
  bar_items x =
      text x.date
      ∷ real x.open_price
      ∷ real x.high
      ∷ real x.low
      ∷ real x.close
      ∷ real x.volume
      ∷ real x.average
      ∷ int x.bar_count
      ∷ []

  abbrev pub bar_data : WireBar F → BarData F
  bar_data x = record {
    date = x.date.bytes;
    open_price = x.open_price.value;
    high = x.high.value;
    low = x.low.value;
    close = x.close.value;
    volume = x.volume.value;
    bar_count = x.bar_count.value;
    average = x.average.value;
  }

  one_bar-Takes :
      (version : ℤ) (req_id : ℤ)
      → below version 124 ≡ false
      → (x : WireBar F)
      → Takes
          (one_bar version req_id)
          (bar_items x)
          tt
          (Callback.historical_data req_id (bar_data x) ∷ [])
  unfolding one_bar read_bar
  one_bar-Takes version req_id h x rest b l = (format_int x.bar_count.value, simp (h, readers))

  abbrev pub histogram_items : Real F × Real F → List (Item F)
  histogram_items (p, c) = real p ∷ real c ∷ []

  abbrev pub histogram_data : Real F × Real F → HistogramData F
  histogram_data (p, c) = record { price = p.value; count = c.value }

  read_histogram_item-Takes :
      (x : Real F × Real F)
      → Takes {L = Callback F} read_histogram_item (histogram_items x) (histogram_data x) []
  unfolding read_histogram_item
  read_histogram_item-Takes (p, c) rest b l = (fl.format_float c.value, simp (readers, append-nil))

  abbrev pub tick_items : WireTick F → List (Item F)
  tick_items x = int x.time ∷ text x.skipped ∷ real x.price ∷ real x.size ∷ []

  abbrev pub tick_data : WireTick F → HistoricalTick F
  tick_data x = record { time = x.time.value; price = x.price.value; size = x.size.value }

  read_historical_tick-Takes :
      (x : WireTick F) → Takes {L = Callback F} read_historical_tick (tick_items x) (tick_data x) []
  unfolding read_historical_tick
  read_historical_tick-Takes x rest b l = (fl.format_float x.size.value, simp (readers, append-nil))

-- The values of the news messages.
pub record NewsValues (F : Type 0) ⦃fl : Floats F⦄ : Type 0 where
  pub req_id : Int64
  pub article_type : Int64
  pub news_id : Int64
  pub msg_type : Int64
  pub head_timestamp : Text
  pub article_text : Text
  pub time : Text
  pub provider_code : Text
  pub article_id : Text
  pub headline : Text
  pub v : Text
  pub news_message : Text
  pub origin_exch : Text
  pub content : Text
  pub has_more : Bool

-- Each message with these values makes exactly its callback, and no byte of it is left.
abbrev pub NewsDelivered : {F : Type 0} ⦃fl : Floats F⦄ → Decoder F → NewsValues F → Type 0
NewsDelivered d x =
    (Delivers d (msg_id 88 refl) (int x.req_id ∷ text x.head_timestamp ∷ [])
      (Callback.head_timestamp x.req_id.value x.head_timestamp.bytes ∷ []))
    × (Delivers d (msg_id 83 refl) (int x.req_id ∷ int x.article_type ∷ text x.article_text ∷ [])
        (Callback.news_article x.req_id.value x.article_type.value x.article_text.bytes ∷ []))
    × (Delivers d (msg_id 86 refl)
        (int x.req_id
          ∷ text x.time
          ∷ text x.provider_code
          ∷ text x.article_id
          ∷ text x.headline
          ∷ [])
        (Callback.historical_news x.req_id.value x.time.bytes x.provider_code.bytes
            x.article_id.bytes x.headline.bytes
          ∷ []))
    × (Delivers d (msg_id 87 refl) (int x.req_id ∷ bool x.has_more ∷ [])
        (Callback.historical_news_end x.req_id.value x.has_more ∷ []))
    × (Delivers d (msg_id 14 refl)
        (text x.v ∷ int x.news_id ∷ int x.msg_type ∷ text x.news_message ∷ text x.origin_exch ∷ [])
        (Callback.update_news_bulletin x.news_id.value x.msg_type.value x.news_message.bytes
            x.origin_exch.bytes
          ∷ []))
    × (Delivers d (msg_id 51 refl) (text x.v ∷ int x.req_id ∷ text x.content ∷ [])
        (Callback.fundamental_data x.req_id.value x.content.bytes ∷ []))

module _ {F : Type 0} ⦃fl : Floats F⦄ (clock : Bytes → Option AccountTime) (version : ℤ) where
  -- For all values, on every version: each news and time stamp message with a fixed layout makes
  -- exactly its callback, with the values that the server printed, and no byte of it is left.
  pub news_delivered : (x : NewsValues F) → NewsDelivered (ready clock version) x
  unfolding set_version set_msg_id2process process_table lookup_process find_process apply_process
      process_head_timestamp process_news_article process_historical_news
      process_historical_news_end wrap_update_news_bulletin wrap_fundamental_data
  news_delivered x =
      let d = ready clock version in
      (
        delivers_of d (msg_id 88 refl) _ (simp readers),
        delivers_of d (msg_id 83 refl) _ (simp readers),
        delivers_of d (msg_id 86 refl) _ (simp readers),
        delivers_of d (msg_id 87 refl) _ (simp readers),
        delivers_of d (msg_id 14 refl) _ (simp readers),
        delivers_of d (msg_id 51 refl) _ (simp readers),
      )

  -- From version 124 on, for every list of bars: a historical data message with their number and
  -- the bars makes one callback for each bar, in order, then the end callback with the two dates,
  -- and no byte of it is left.
  pub historical_data_delivered :
      (req_id : Int64) (start_date end_date : Text) (n : Int64) (bars : List (WireBar F))
      → below version 124 ≡ false
      → n.value ≡ pos (length bars)
      → Delivers
          (ready clock version)
          (msg_id 17 refl)
          (int req_id ∷ text start_date ∷ text end_date ∷ int n ∷ all_items bar_items bars)
          (map (λ x. Callback.historical_data req_id.value (bar_data x)) bars
            ++ Callback.historical_data_end req_id.value start_date.bytes end_date.bytes ∷ [])
  unfolding set_version set_msg_id2process process_table lookup_process find_process apply_process
      process_historical_data_msg
  historical_data_delivered req_id start_date end_date n bars h e =
      let (b, run) =
        Takes-last (rounds (length bars) (one_bar version req_id.value)) _ _ _
          (format_int (pos (length bars))) []
          (Takes-rounds (one_bar version req_id.value) bar_items
            (λ x. Callback.historical_data req_id.value (bar_data x))
            (one_bar-Takes version req_id.value h) bars) in
      delivers_of (ready clock version) (msg_id 17 refl) _ (simp (h, readers, e, run))

  -- For every list of price and count pairs, on every version: a histogram message with their
  -- number and the pairs makes one callback with all of them, in order, and no byte of it is left.
  pub histogram_delivered :
      (req_id n : Int64) (ps : List (Real F × Real F))
      → n.value ≡ pos (length ps)
      → Delivers
          (ready clock version)
          (msg_id 89 refl)
          (int req_id ∷ int n ∷ all_items histogram_items ps)
          (Callback.histogram_data req_id.value (map histogram_data ps) ∷ [])
  unfolding set_version set_msg_id2process process_table lookup_process find_process apply_process
      process_histogram_data
  histogram_delivered req_id n ps e =
      let (b, run) =
        Takes-last (repeat (length ps) read_histogram_item) _ _ _ (format_int (pos (length ps))) []
          (Takes-repeat read_histogram_item histogram_items histogram_data read_histogram_item-Takes
            ps) in
      delivers_of (ready clock version) (msg_id 89 refl) _ (simp (readers, e, run))

  -- For every list of ticks, on every version: a message of historical ticks with their number, the
  -- ticks and the flag makes one callback with all ticks, in order, and the flag, and no byte of it
  -- is left.
  pub historical_ticks_delivered :
      (req_id n : Int64) (ts : List (WireTick F)) (is_done : Bool)
      → n.value ≡ pos (length ts)
      → Delivers
          (ready clock version)
          (msg_id 96 refl)
          (int req_id ∷ int n ∷ (all_items tick_items ts ++ bool is_done ∷ []))
          (Callback.historical_ticks req_id.value (map tick_data ts) is_done ∷ [])
  unfolding set_version set_msg_id2process process_table lookup_process find_process apply_process
      process_historical_ticks
  historical_ticks_delivered req_id n ts is_done e =
      let (b, run) =
        Takes-repeat read_historical_tick tick_items tick_data read_historical_tick-Takes ts
          (bool is_done ∷ []) (format_int (pos (length ts))) [] in
      delivers_of (ready clock version) (msg_id 96 refl) _ (simp (readers, e, run))
