-- ===== src/Decoder/Messages/Greeks.antt =====
-- Which values of an option computation survive the switch of `processTickOptionComputationMsg`.
use ibapi.Common.{Bool, true, false, ◌||◌, ◌≡◌, pos, negsuc, ap, arith, if◌then◌else◌}
use ibapi.Wire.Float.{Floats}
use ibapi.Decoder.Greeks.{Greeks, unset_greeks}

module _ {F : Type 0} ⦃fl : Floats F⦄ where
  -- The sentinels -1 and -2, which stand for no value.
  abbrev pub is_one : F → Bool
  is_one v = fl.float_eq v (fl.of_int (negsuc 0))

  abbrev pub is_two : F → Bool
  is_two v = fl.float_eq v (fl.of_int (negsuc 1))

  abbrev pub drop_if : Bool → F → F
  drop_if dropped v = if dropped then fl.unset_float else v

  -- The values with the sentinels taken out, each by its own sentinel alone.
  abbrev pub own_sentinels : Greeks F → Greeks F
  own_sentinels g = record {
    implied_vol = drop_if (fl.float_lt g.implied_vol (fl.of_int (pos 0))) g.implied_vol;
    delta = drop_if (is_two g.delta) g.delta;
    opt_price = drop_if (is_one g.opt_price) g.opt_price;
    pv_dividend = drop_if (is_one g.pv_dividend) g.pv_dividend;
    gamma = drop_if (is_two g.gamma) g.gamma;
    vega = drop_if (is_two g.vega) g.vega;
    theta = drop_if (is_two g.theta) g.theta;
    und_price = drop_if (is_one g.und_price) g.und_price;
  }

  -- The values, each taken out by its own sentinel or by that of a value before it.
  abbrev pub sentinels_so_far : Greeks F → Greeks F
  sentinels_so_far g =
      let d₀ = fl.float_lt g.implied_vol (fl.of_int (pos 0)) in
      let d₁ = d₀ || is_two g.delta in
      let d₂ = d₁ || is_one g.opt_price in
      let d₃ = d₂ || is_one g.pv_dividend in
      let d₄ = d₃ || is_two g.gamma in
      let d₅ = d₄ || is_two g.vega in
      let d₆ = d₅ || is_two g.theta in
      let d₇ = d₆ || is_one g.und_price in
      record {
        implied_vol = drop_if d₀ g.implied_vol;
        delta = drop_if d₁ g.delta;
        opt_price = drop_if d₂ g.opt_price;
        pv_dividend = drop_if d₃ g.pv_dividend;
        gamma = drop_if d₄ g.gamma;
        vega = drop_if d₅ g.vega;
        theta = drop_if d₆ g.theta;
        und_price = drop_if d₇ g.und_price;
      }

  -- Every value is dropped if it carries its sentinel or if a value before it does: the cases of
  -- the switch fall through, so the first sentinel takes all later values with it.
  unset_greeks_prefix : (g : Greeks F) → unset_greeks g ≡ sentinels_so_far g
  unfolding unset_greeks
  unset_greeks_prefix g = ground arith

  -- With a negative implied volatility and a price of the underlying that is neither its sentinel nor
  -- unset already, that price is lost: the result is not that of taking out each value's own
  -- sentinel.
  pub unset_greeks_loses :
      (g : Greeks F)
      → fl.float_lt g.implied_vol (fl.of_int (pos 0)) ≡ true
      → is_one g.und_price ≡ false
      → ¬ (g.und_price ≡ fl.unset_float)
      → ¬ (unset_greeks g ≡ own_sentinels g)
  unfolding unset_greeks
  unset_greeks_loses g neg real_price set e = ground (arith, ap (λ (x : Greeks F). x.und_price) e)
