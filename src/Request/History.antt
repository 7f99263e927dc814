-- ===== src/Request/History.antt =====
-- The requests of `IbClient` (client.go) for historical data, ticks and news.
use ibapi.Common.{
  List, [], ◌∷◌, ◌++◌, Bool, ◌&&◌, ◌||◌, Bytes, codes, ℤ, pos, below, at_least, is_pos, has_text,
  if◌then◌else◌,
}
use ibapi.Wire.Encode.{Field, int, str, bool, raw}
use ibapi.Data.Contract.{Contract, TagValue}
use ibapi.Client.State.{update_tws}
use ibapi.Client.Lifecycle.{no_valid_id}
use ibapi.Request.{Request, send, noted, too_old}
use ibapi.Request.Options.{when, option_text, contract_terms, bag_fields}

-- The loop that appends the values of the chart options.
unfoldable pub option_values : List TagValue → Bytes
option_values [] = []
option_values (tv ∷ tvs) = tv.value ++ option_values tvs

module _ {F : Type 0} where
  -- The fields of the message of `ReqHistoricalData`.
  unfoldable pub historical_data_fields :
      ℤ
      → ℤ
      → Contract F
      → Bytes
      → Bytes
      → Bytes
      → Bytes
      → Bool
      → ℤ
      → Bool
      → List TagValue
      → List (Field F)
  unfolding option_values
  historical_data_fields version req_id c end_date_time duration bar_size what_to_show use_rth
        format_date keep_up_to_date options =
      int (pos 20) ∷ when (below version 125) (int (pos 6) ∷ [])
      ++ (int req_id ∷ when (at_least version 68) (int c.contract_id ∷ [])
          ++ (contract_terms c
              ++ (when (at_least version 68) (str c.trading_class ∷ [])
                  ++ (bool c.include_expired
                        ∷ str end_date_time
                        ∷ str bar_size
                        ∷ str duration
                        ∷ bool use_rth
                        ∷ str what_to_show
                        ∷ int format_date
                        ∷ bag_fields c
                      ++ (when (at_least version 124) (bool keep_up_to_date ∷ [])
                          ++ when (at_least version 70) (str (option_values options) ∷ []))))))

  -- `ReqHistoricalData`. The guard reports an error and does not return.
  unfoldable pub req_historical_data :
      ℤ
      → ℤ
      → Contract F
      → Bytes
      → Bytes
      → Bytes
      → Bytes
      → Bool
      → ℤ
      → Bool
      → List TagValue
      → Request F
  unfolding historical_data_fields
  req_historical_data version req_id c end_date_time duration bar_size what_to_show use_rth
        format_date keep_up_to_date options =
      let fields =
        historical_data_fields version req_id c end_date_time duration bar_size what_to_show use_rth
          format_date keep_up_to_date options in
      if below version 68 && (has_text c.trading_class || is_pos c.contract_id)
      then noted req_id update_tws.code update_tws.msg fields
      else send fields

  -- `ReqHeadTimeStamp`.
  unfoldable pub req_head_time_stamp : ℤ → ℤ → Contract F → Bytes → Bool → ℤ → Request F
  req_head_time_stamp version req_id c what_to_show use_rth format_date =
      if below version 118
      then too_old req_id (codes "  It does not support head time stamp requests.")
      else send (
          int (pos 87) ∷ int req_id ∷ int c.contract_id ∷ contract_terms c
          ++ str c.trading_class
            ∷ bool c.include_expired
            ∷ bool use_rth
            ∷ str what_to_show
            ∷ int format_date
            ∷ [])

  -- `ReqHistoricalTicks`.
  unfoldable pub req_historical_ticks :
      ℤ → ℤ → Contract F → Bytes → Bytes → ℤ → Bytes → Bool → Bool → List TagValue → Request F
  req_historical_ticks version req_id c start_date_time end_date_time number_of_ticks what_to_show
        use_rth ignore_size options =
      if below version 130
      then too_old no_valid_id (codes "  It does not support historical ticks requests..")
      else send (
          int (pos 96) ∷ int req_id ∷ int c.contract_id ∷ contract_terms c
          ++ str c.trading_class
            ∷ bool c.include_expired
            ∷ str start_date_time
            ∷ str end_date_time
            ∷ int number_of_ticks
            ∷ str what_to_show
            ∷ bool use_rth
            ∷ bool ignore_size
            ∷ raw (option_text options)
            ∷ [])

  -- `ReqNewsArticle`.
  unfoldable pub req_news_article : ℤ → ℤ → Bytes → Bytes → List TagValue → Request F
  req_news_article version req_id provider_code article_id options =
      if below version 116
      then too_old no_valid_id (codes "  It does not support news article request.")
      else send (
          int (pos 84)
          ∷ int req_id
          ∷ str provider_code
          ∷ str article_id
          ∷ when (at_least version 128) (raw (option_text options) ∷ []))

  -- `ReqHistoricalNews`.
  unfoldable pub req_historical_news :
      ℤ → ℤ → ℤ → Bytes → Bytes → Bytes → ℤ → List TagValue → Request F
  req_historical_news version req_id contract_id provider_code start_date_time end_date_time
        total_results options =
      if below version 117
      then too_old no_valid_id (codes "  It does not support historical news request.")
      else send (
          int (pos 86)
          ∷ int req_id
          ∷ int contract_id
          ∷ str provider_code
          ∷ str start_date_time
          ∷ str end_date_time
          ∷ int total_results
          ∷ when (at_least version 128) (raw (option_text options) ∷ []))
