-- ===== src/Request/PlaceOrder/Guards/Recent.antt =====
-- The guards of `PlaceOrder` (client.go) on a server of version 102 or a later one.
use ibapi.Common.{
  ◌++◌, Bool, true, false, not, ◌&&◌, ◌||◌, ◌≡◌, ℤ, at_least, below, take, drop, Bytes, refl,
  has_text, arith, ◌∙◌, ap, if◌then◌else◌,
}
use ibapi.Wire.Float.{Floats}
use ibapi.Data.Contract.{Contract}
use ibapi.Data.Order.{Order}
use ibapi.Request.PlaceOrder.Guards.{
  Verdict, accepted, warned, refused, is_set, is_set_int, switch, order_verdict, old_cases,
  chained_cases, new_cases,
}
use ibapi.Request.PlaceOrder.Guards.Switch.{is_refused, switch-skip}

abbrev pub is_warned : Verdict → Bool
is_warned (warned text) = true
is_warned accepted = false
is_warned (refused text) = false

refused-if_refused :
    (b : Bool) (text : Bytes) (x : Verdict)
    → is_refused (if b then refused text else x) ≡ b || is_refused x
refused-if_refused true text x = refl
refused-if_refused false text x = refl

refused-if_warned :
    (b : Bool) (text : Bytes) (x : Verdict)
    → is_refused (if b then warned text else x) ≡ not b && is_refused x
refused-if_warned true text x = refl
refused-if_warned false text x = refl

warned-if_refused :
    (b : Bool) (text : Bytes) (x : Verdict)
    → is_warned (if b then refused text else x) ≡ not b && is_warned x
warned-if_refused true text x = refl
warned-if_refused false text x = refl

warned-if_warned :
    (b : Bool) (text : Bytes) (x : Verdict)
    → is_warned (if b then warned text else x) ≡ b || is_warned x
warned-if_warned true text x = refl
warned-if_warned false text x = refl

and-false : (b : Bool) → b && false ≡ false
and-false b = ground arith

or-false : (b : Bool) → b || false ≡ b
or-false b = ground arith

not-or : (a b : Bool) → not (a || b) ≡ not a && not b
not-or a b = ground arith

and_assoc : (a b c : Bool) → (a && b) && c ≡ a && (b && c)
and_assoc a b c = ground arith

module _ {F : Type 0} ⦃fl : Floats F⦄ where
  -- The order asks for something that the server does not know.
  abbrev pub asks_too_much : ℤ → Order F → Bool
  asks_too_much v o =
      (below v 103 && has_text o.model_code)
      || ((below v 105 && has_text o.ext_operator)
          || ((below v 106
                && (has_text o.soft_dollar_tier.name || has_text o.soft_dollar_tier.value))
              || ((below v 111 && is_set o.cash_qty)
                  || ((below v 138
                        && (has_text o.mifid2_decision_maker || has_text o.mifid2_decision_algo))
                      || ((below v 139
                            && (has_text o.mifid2_execution_trader
                                || has_text o.mifid2_execution_algo))
                          || ((below v 141 && o.dont_use_auto_price_for_hedge)
                              || ((below v 145 && o.is_oms_container)
                                  || (below v 151 && o.use_price_mgmt_algo))))))))

  -- The order has a duration or a time to send it to the market, which the server does not know.
  abbrev pub asks_in_vain : ℤ → Order F → Bool
  asks_in_vain v o =
      (below v 158 && is_set_int o.duration) || (below v 160 && is_set_int o.post_to_ats)

  recent_verdict :
      (v : ℤ) (c : Contract F) (o : Order F)
      → at_least v 102 ≡ true
      → order_verdict v c o ≡ switch v (drop 4 (new_cases c o))
  unfolding order_verdict old_cases chained_cases new_cases
  recent_verdict v c o new =
      switch-skip v 102 (old_cases c o ++ (chained_cases c o ++ take 4 (new_cases c o)))
        (drop 4 (new_cases c o)) new (ground arith)

  recent_refusals :
      (v : ℤ) (c : Contract F) (o : Order F)
      → is_refused (switch v (drop 4 (new_cases c o))) ≡ asks_too_much v o
  unfolding switch new_cases
  recent_refusals v c o = simp (refused-if_refused, refused-if_warned, and-false, or-false)

  recent_warnings :
      (v : ℤ) (c : Contract F) (o : Order F)
      → is_warned (switch v (drop 4 (new_cases c o))) ≡ not (asks_too_much v o) && asks_in_vain v o
  unfolding switch new_cases
  recent_warnings v c o = simp (warned-if_refused, warned-if_warned, or-false, not-or, and_assoc)

  pub order_verdict-refused :
      (v : ℤ) (c : Contract F) (o : Order F)
      → at_least v 102 ≡ true
      → is_refused (order_verdict v c o) ≡ asks_too_much v o
  order_verdict-refused v c o new = ap is_refused (recent_verdict v c o new) ∙ recent_refusals v c o

  pub order_verdict-warned :
      (v : ℤ) (c : Contract F) (o : Order F)
      → at_least v 102 ≡ true
      → is_warned (order_verdict v c o) ≡ not (asks_too_much v o) && asks_in_vain v o
  order_verdict-warned v c o new = ap is_warned (recent_verdict v c o new) ∙ recent_warnings v c o
