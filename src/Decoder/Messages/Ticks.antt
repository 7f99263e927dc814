-- ===== src/Decoder/Messages/Ticks.antt =====
-- The tick messages, from the wire to the wrapper.
use ibapi.Common.{
  List, [], ◌∷◌, ◌++◌, Option, none, some, ◌≡◌, refl, Bytes, ℤ, Bool, true, false, not, ◌&&◌, ◌==◌,
  ◌+◌, ◌*◌, ℕ, pos, int_eq, ap, ◌∙◌, arith, if◌then◌else◌, at_least, append-nil,
}
use ibapi.Wire.Float.{Floats}
use ibapi.Buffer.{MsgBuffer, done}
use ibapi.Data.Market.{TickAttrib}
use ibapi.Decoder.Read.{has_bit}
use ibapi.Buffer.Items.{Int64, Text, Real, int, text, real, bool}
use ibapi.Buffer.RoundTrip.{readers}
use ibapi.Decoder.Wrapper.{Callback, AccountTime}
use ibapi.Decoder.{
  Decoder, set_version, set_msg_id2process, process_table, lookup_process, find_process,
  apply_process,
}
use ibapi.Decoder.Dispatch.{ready, msg_id, Delivers, delivers_of}
use ibapi.Decoder.Ticks.{
  wrap_tick_size, wrap_tick_generic, wrap_tick_string, wrap_tick_efp, wrap_market_data_type,
  wrap_tick_snapshot_end, process_tick_req_params, process_tick_news, process_reroute_mkt_data_req,
  process_reroute_mkt_depth_req, wrap_update_mkt_depth, wrap_update_mkt_depth_l2,
}
use ibapi.Decoder.Ticks.{tick_attrib, size_tick_type, call_size, process_tick_price_msg}
use ibapi.Decoder.Greeks.{
  Greeks, unset_greeks, call_computation, process_tick_option_computation_msg,
}

-- The size callback that comes with a price.
abbrev pub size_calls : {F : Type 0} → ℤ → F → Option ℤ → List (Callback F)
size_calls req_id size none = []
size_calls req_id size (some t) = Callback.tick_size req_id t size ∷ []

-- The types of a price tick, each with the type of its size.
abbrev pub price_types : List (ℤ × ℤ)
price_types =
    (pos 1, pos 0)
    ∷ (pos 2, pos 3)
    ∷ (pos 4, pos 5)
    ∷ (pos 66, pos 69)
    ∷ (pos 67, pos 70)
    ∷ (pos 68, pos 71)
    ∷ []

abbrev pub size_type_of : ℤ → List (ℤ × ℤ) → Option ℤ
size_type_of t [] = none
size_type_of t ((p, s) ∷ types) = if int_eq t p then some s else size_type_of t types

size_tick_type-price_types : (t : ℤ) → size_tick_type t ≡ size_type_of t price_types
unfolding size_tick_type
size_tick_type-price_types t = refl

abbrev bit_value : Bool → ℕ
bit_value true = 1
bit_value false = 0

-- The mask with these three lowest bits and the rest above them.
abbrev pub mask_of : Bool → Bool → Bool → ℕ → ℕ
mask_of b₀ b₁ b₂ high = bit_value b₀ + (2 * bit_value b₁ + (4 * bit_value b₂ + 8 * high))

-- What the bits of a mask say on a server of this version.
abbrev pub price_attributes : ℤ → Bool → Bool → Bool → ℕ → TickAttrib
price_attributes version b₀ b₁ b₂ high =
    if at_least version 109
    then record { can_auto_execute = b₀; past_limit = b₁; pre_open = at_least version 132 && b₂ }
    else record {
      can_auto_execute = b₀ && (not b₁ && (not b₂ && high == 0));
      past_limit = false;
      pre_open = false;
    }

first_bit : (b₀ b₁ b₂ : Bool) (high : ℕ) → has_bit 0 (pos (mask_of b₀ b₁ b₂ high)) ≡ b₀
first_bit b₀ b₁ b₂ high = ground arith

second_bit : (b₀ b₁ b₂ : Bool) (high : ℕ) → has_bit 1 (pos (mask_of b₀ b₁ b₂ high)) ≡ b₁
second_bit b₀ b₁ b₂ high = ground arith

third_bit : (b₀ b₁ b₂ : Bool) (high : ℕ) → has_bit 2 (pos (mask_of b₀ b₁ b₂ high)) ≡ b₂
third_bit b₀ b₁ b₂ high = ground arith

mask_is_one :
    (b₀ b₁ b₂ : Bool) (high : ℕ)
    → int_eq (pos (mask_of b₀ b₁ b₂ high)) (pos 1) ≡ b₀ && (not b₁ && (not b₂ && high == 0))
mask_is_one b₀ b₁ b₂ high = ground arith

tick_attrib-mask_of :
    (version : ℤ) (b₀ b₁ b₂ : Bool) (high : ℕ)
    → tick_attrib version (pos (mask_of b₀ b₁ b₂ high)) ≡ price_attributes version b₀ b₁ b₂ high
unfolding tick_attrib
tick_attrib-mask_of version b₀ b₁ b₂ high =
    rw
      (
        first_bit b₀ b₁ b₂ high,
        second_bit b₀ b₁ b₂ high,
        third_bit b₀ b₁ b₂ high,
        mask_is_one b₀ b₁ b₂ high,
      )
      refl

-- The callback of an option computation.
abbrev pub computation_calls : {F : Type 0} → ℤ → ℤ → ℤ → Greeks F → List (Callback F)
computation_calls req_id tick_type attr g =
    Callback.tick_option_computation req_id tick_type attr g.implied_vol g.delta g.opt_price
      g.pv_dividend g.gamma g.vega g.theta g.und_price
    ∷ []

-- The values of the tick and depth messages.
pub record TickValues (F : Type 0) ⦃fl : Floats F⦄ : Type 0 where
  pub v : Text
  pub value_text : Text
  pub formatted_basis_points : Text
  pub future_last_trade_date : Text
  pub bbo_exchange : Text
  pub provider_code : Text
  pub article_id : Text
  pub headline : Text
  pub extra_data : Text
  pub exchange : Text
  pub market_maker : Text
  pub req_id : Int64
  pub tick_type : Int64
  pub hold_days : Int64
  pub market_data_type : Int64
  pub ticker_id : Int64
  pub snapshot_permissions : Int64
  pub time_stamp : Int64
  pub contract_id : Int64
  pub position : Int64
  pub operation : Int64
  pub side : Int64
  pub size : Real F
  pub value : Real F
  pub basis_points : Real F
  pub total_dividends : Real F
  pub dividend_impact : Real F
  pub dividends_to_last_trade_date : Real F
  pub min_tick : Real F
  pub price : Real F
  pub is_smart_depth : Bool

-- Each message with these values makes exactly its callback, and no byte of it is left.
abbrev pub TicksDelivered : {F : Type 0} ⦃fl : Floats F⦄ → Decoder F → TickValues F → Type 0
TicksDelivered d x =
    (Delivers d (msg_id 2 refl) (text x.v ∷ int x.req_id ∷ int x.tick_type ∷ real x.size ∷ [])
      (Callback.tick_size x.req_id.value x.tick_type.value x.size.value ∷ []))
    × (Delivers d (msg_id 45 refl) (text x.v ∷ int x.req_id ∷ int x.tick_type ∷ real x.value ∷ [])
        (Callback.tick_generic x.req_id.value x.tick_type.value x.value.value ∷ []))
    × (Delivers d (msg_id 46 refl)
        (text x.v ∷ int x.req_id ∷ int x.tick_type ∷ text x.value_text ∷ [])
        (Callback.tick_string x.req_id.value x.tick_type.value x.value_text.bytes ∷ []))
    × (Delivers d (msg_id 47 refl)
        (text x.v
          ∷ int x.req_id
          ∷ int x.tick_type
          ∷ real x.basis_points
          ∷ text x.formatted_basis_points
          ∷ real x.total_dividends
          ∷ int x.hold_days
          ∷ text x.future_last_trade_date
          ∷ real x.dividend_impact
          ∷ real x.dividends_to_last_trade_date
          ∷ [])
        (Callback.tick_efp x.req_id.value x.tick_type.value x.basis_points.value
            x.formatted_basis_points.bytes x.total_dividends.value x.hold_days.value
            x.future_last_trade_date.bytes x.dividend_impact.value
            x.dividends_to_last_trade_date.value
          ∷ []))
    × (Delivers d (msg_id 58 refl) (text x.v ∷ int x.req_id ∷ int x.market_data_type ∷ [])
        (Callback.market_data_type x.req_id.value x.market_data_type.value ∷ []))
    × (Delivers d (msg_id 57 refl) (text x.v ∷ int x.req_id ∷ [])
        (Callback.tick_snapshot_end x.req_id.value ∷ []))
    × (Delivers d (msg_id 81 refl)
        (int x.ticker_id ∷ real x.min_tick ∷ text x.bbo_exchange ∷ int x.snapshot_permissions ∷ [])
        (Callback.tick_req_params x.ticker_id.value x.min_tick.value x.bbo_exchange.bytes
            x.snapshot_permissions.value
          ∷ []))
    × (Delivers d (msg_id 84 refl)
        (int x.ticker_id
          ∷ int x.time_stamp
          ∷ text x.provider_code
          ∷ text x.article_id
          ∷ text x.headline
          ∷ text x.extra_data
          ∷ [])
        (Callback.tick_news x.ticker_id.value x.time_stamp.value x.provider_code.bytes
            x.article_id.bytes x.headline.bytes x.extra_data.bytes
          ∷ []))
    × (Delivers d (msg_id 91 refl) (int x.req_id ∷ int x.contract_id ∷ text x.exchange ∷ [])
        (Callback.reroute_mkt_data_req x.req_id.value x.contract_id.value x.exchange.bytes ∷ []))
    × (Delivers d (msg_id 92 refl) (int x.req_id ∷ int x.contract_id ∷ text x.exchange ∷ [])
        (Callback.reroute_mkt_depth_req x.req_id.value x.contract_id.value x.exchange.bytes ∷ []))
    × (Delivers d (msg_id 12 refl)
        (text x.v
          ∷ int x.req_id
          ∷ int x.position
          ∷ int x.operation
          ∷ int x.side
          ∷ real x.price
          ∷ real x.size
          ∷ [])
        (Callback.update_mkt_depth x.req_id.value x.position.value x.operation.value x.side.value
            x.price.value x.size.value
          ∷ []))
    × (Delivers d (msg_id 13 refl)
        (text x.v
          ∷ int x.req_id
          ∷ int x.position
          ∷ text x.market_maker
          ∷ int x.operation
          ∷ int x.side
          ∷ real x.price
          ∷ real x.size
          ∷ bool x.is_smart_depth
          ∷ [])
        (Callback.update_mkt_depth_l2 x.req_id.value x.position.value x.market_maker.bytes
            x.operation.value x.side.value x.price.value x.size.value x.is_smart_depth
          ∷ []))

module _ {F : Type 0} ⦃fl : Floats F⦄ (clock : Bytes → Option AccountTime) (version : ℤ) where
  pub ticks_delivered : (x : TickValues F) → TicksDelivered (ready clock version) x
  unfolding set_version set_msg_id2process process_table lookup_process find_process apply_process
      wrap_tick_size wrap_tick_generic wrap_tick_string wrap_tick_efp wrap_market_data_type
      wrap_tick_snapshot_end process_tick_req_params process_tick_news process_reroute_mkt_data_req
      process_reroute_mkt_depth_req wrap_update_mkt_depth wrap_update_mkt_depth_l2
  ticks_delivered x =
      let d = ready clock version in
      (
        delivers_of d (msg_id 2 refl) _ (simp readers),
        delivers_of d (msg_id 45 refl) _ (simp readers),
        delivers_of d (msg_id 46 refl) _ (simp readers),
        delivers_of d (msg_id 47 refl) _ (simp readers),
        delivers_of d (msg_id 58 refl) _ (simp readers),
        delivers_of d (msg_id 57 refl) _ (simp readers),
        delivers_of d (msg_id 81 refl) _ (simp readers),
        delivers_of d (msg_id 84 refl) _ (simp readers),
        delivers_of d (msg_id 91 refl) _ (simp readers),
        delivers_of d (msg_id 92 refl) _ (simp readers),
        delivers_of d (msg_id 12 refl) _ (simp readers),
        delivers_of d (msg_id 13 refl) _ (simp readers),
      )

  call_size_run :
      (req_id : ℤ) (size : F) (o : Option ℤ) (m : MsgBuffer) (l : List (Callback F))
      → call_size req_id size o m l ≡ done tt m (l ++ size_calls req_id size o)
  unfolding call_size
  call_size_run req_id size none m l = rw append-nil
  call_size_run req_id size (some t) m l = refl

  -- For all values and every mask that is not negative, on every version: a price message makes the
  -- price callback, then a size callback exactly for the types 1, 2, 4, 66, 67 and 68, with the size
  -- types 0, 3, 5, 69, 70 and 71, and no byte of it is left. The attributes are the bits 0 and 1 of
  -- the mask and, from version 132 on, bit 2; below version 109 the first one says that the mask is 1,
  -- and the others are off.
  pub tick_price_delivered :
      (v : Text) (req_id tick_type : Int64) (price size : Real F) (mask : Int64) (b₀ b₁ b₂ : Bool)
      (high : ℕ)
      → mask.value ≡ pos (mask_of b₀ b₁ b₂ high)
      → Delivers
          (ready clock version)
          (msg_id 1 refl)
          (text v ∷ int req_id ∷ int tick_type ∷ real price ∷ real size ∷ int mask ∷ [])
          (Callback.tick_price req_id.value tick_type.value price.value
              (price_attributes version b₀ b₁ b₂ high)
            ∷ size_calls req_id.value size.value (size_type_of tick_type.value price_types))
  unfolding set_version set_msg_id2process process_table lookup_process find_process apply_process
      process_tick_price_msg
  tick_price_delivered v req_id tick_type price size mask b₀ b₁ b₂ high e =
      delivers_of (ready clock version) (msg_id 1 refl) _ (
        simp (
          readers,
          call_size_run,
          size_tick_type-price_types tick_type.value,
          ap (tick_attrib version) e ∙ tick_attrib-mask_of version b₀ b₁ b₂ high,
        ))

  -- For a server that sends no version field (156 and above): the option computation is delivered
  -- with the values that `unset_greeks` leaves, and no byte of it is left.
  pub tick_option_computation_delivered :
      (req_id tick_type attr : Int64) (iv delta opt pv gamma vega theta und : Real F)
      → at_least version 156 ≡ true
      → at_least version 6 ≡ true
      → let g = unset_greeks (record {
        implied_vol = iv.value;
        delta = delta.value;
        opt_price = opt.value;
        pv_dividend = pv.value;
        gamma = gamma.value;
        vega = vega.value;
        theta = theta.value;
        und_price = und.value;
      }) in
        Delivers
          (ready clock version)
          (msg_id 21 refl)
          (int req_id
            ∷ int tick_type
            ∷ int attr
            ∷ real iv
            ∷ real delta
            ∷ real opt
            ∷ real pv
            ∷ real gamma
            ∷ real vega
            ∷ real theta
            ∷ real und
            ∷ [])
          (computation_calls req_id.value tick_type.value attr.value g)
  unfolding set_version set_msg_id2process process_table lookup_process find_process apply_process
      process_tick_option_computation_msg call_computation
  tick_option_computation_delivered req_id tick_type attr iv delta opt pv gamma vega theta und h
        h6 =
      delivers_of (ready clock version) (msg_id 21 refl) _ (simp (h, h6, readers))
