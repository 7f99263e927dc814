-- ===== src/Decoder/Greeks.antt =====
-- The option computations of decoder.go: `processTickOptionComputationMsg`.
use ibapi.Common.{not, ◌||◌, ℤ, pos, negsuc, int_eq, at_least, if◌then◌else◌}
use ibapi.Wire.Float.{Floats}
use ibapi.Buffer.{call, ◌>>=◌, read_int, read_float}
use ibapi.Decoder.Wrapper.{Callback}
use ibapi.Decoder.Read.{D, read_if}

-- The values of an option computation that `processTickOptionComputationMsg` reads.
pub record Greeks (F : Type 0) : Type 0 where
  pub implied_vol : F
  pub delta : F
  pub opt_price : F
  pub pv_dividend : F
  pub gamma : F
  pub vega : F
  pub theta : F
  pub und_price : F

module _ {F : Type 0} ⦃fl : Floats F⦄ where
  -- The bodies of the switch; each falls through to the next.
  unfoldable pub from_und_price : Greeks F → Greeks F
  from_und_price g = record g { und_price = fl.unset_float }

  unfoldable pub from_theta : Greeks F → Greeks F
  unfolding from_und_price
  from_theta g = from_und_price (record g { theta = fl.unset_float })

  unfoldable pub from_vega : Greeks F → Greeks F
  unfolding from_theta
  from_vega g = from_theta (record g { vega = fl.unset_float })

  unfoldable pub from_gamma : Greeks F → Greeks F
  unfolding from_vega
  from_gamma g = from_vega (record g { gamma = fl.unset_float })

  unfoldable pub from_pv_dividend : Greeks F → Greeks F
  unfolding from_gamma
  from_pv_dividend g = from_gamma (record g { pv_dividend = fl.unset_float })

  unfoldable pub from_opt_price : Greeks F → Greeks F
  unfolding from_pv_dividend
  from_opt_price g = from_pv_dividend (record g { opt_price = fl.unset_float })

  unfoldable pub from_delta : Greeks F → Greeks F
  unfolding from_opt_price
  from_delta g = from_opt_price (record g { delta = fl.unset_float })

  unfoldable pub from_implied_vol : Greeks F → Greeks F
  unfolding from_delta
  from_implied_vol g = from_delta (record g { implied_vol = fl.unset_float })

  -- The switch: the first case that holds is entered.
  unfoldable pub unset_greeks : Greeks F → Greeks F
  unfolding from_implied_vol
  unset_greeks g =
      if fl.float_lt g.implied_vol (fl.of_int (pos 0))
      then from_implied_vol g
      else if fl.float_eq g.delta (fl.of_int (negsuc 1))
      then from_delta g
      else if fl.float_eq g.opt_price (fl.of_int (negsuc 0))
      then from_opt_price g
      else if fl.float_eq g.pv_dividend (fl.of_int (negsuc 0))
      then from_pv_dividend g
      else if fl.float_eq g.gamma (fl.of_int (negsuc 1))
      then from_gamma g
      else if fl.float_eq g.vega (fl.of_int (negsuc 1))
      then from_vega g
      else if fl.float_eq g.theta (fl.of_int (negsuc 1))
      then from_theta g
      else if fl.float_eq g.und_price (fl.of_int (negsuc 0))
      then from_und_price g
      else g

  unfoldable pub call_computation : ℤ → ℤ → ℤ → Greeks F → D F (Unit {0})
  call_computation req_id tick_type tick_attr g = call (
      Callback.tick_option_computation req_id tick_type tick_attr g.implied_vol g.delta g.opt_price
        g.pv_dividend g.gamma g.vega g.theta g.und_price)

  -- `processTickOptionComputationMsg`; 13 is `MODEL_OPTION` and 83 is `DELAYED_MODEL_OPTION`.
  unfoldable pub process_tick_option_computation_msg : ℤ → D F (Unit {0})
  unfolding call_computation
  process_tick_option_computation_msg version = do
    v ← read_if (not (at_least version 156)) read_int version
    req_id ← read_int
    tick_type ← read_int
    tick_attr ← read_if (at_least version 156) read_int (pos 0)
    implied_vol ← read_float
    delta ← read_float
    let model = at_least v 6 || int_eq tick_type (pos 13) || int_eq tick_type (pos 83)
    opt_price ← read_if model read_float fl.unset_float
    pv_dividend ← read_if model read_float fl.unset_float
    gamma ← read_if (at_least v 6) read_float fl.unset_float
    vega ← read_if (at_least v 6) read_float fl.unset_float
    theta ← read_if (at_least v 6) read_float fl.unset_float
    und_price ← read_if (at_least v 6) read_float fl.unset_float
    call_computation req_id tick_type tick_attr (
        unset_greeks (record {
          implied_vol = implied_vol;
          delta = delta;
          opt_price = opt_price;
          pv_dividend = pv_dividend;
          gamma = gamma;
          vega = vega;
          theta = theta;
          und_price = und_price;
        }))
