-- ===== src/Request/PlaceOrder/Guards/Switch.antt =====
-- The switch of `PlaceOrder` (client.go), by the age of the server.
use ibapi.Common.{
  ℕ, ◌≤◌, ◌<◌, List, [], ◌∷◌, ◌++◌, Bool, true, false, not, ◌&&◌, ◌≡◌, refl, ℤ, pos, leb, at_least,
  below, drop, arith,
}
use ibapi.Wire.Float.{Floats}
use ibapi.Data.Contract.{Contract}
use ibapi.Data.Order.{Order}
use ibapi.Request.PlaceOrder.Guards.{
  Verdict, accepted, warned, refused, Case, switch, order_verdict, old_cases, chained_cases,
  new_cases, guards, short_sale_case, neutral_id_case, open_close_case, scale_case, leg_price_case,
}

abbrev pub is_refused : Verdict → Bool
is_refused (refused text) = true
is_refused accepted = false
is_refused (warned text) = false

abbrev pub is_accepted : Verdict → Bool
is_accepted accepted = true
is_accepted (refused text) = false
is_accepted (warned text) = false

-- No case asks about more than version `n` brought.
abbrev pub within : ℕ → List Case → Bool
within n [] = true
within n ((k, p, body) ∷ cases) = leb k n && within n cases

-- No body lets the order pass without an error.
abbrev complains : List Case → Bool
complains [] = true
complains ((k, p, body) ∷ cases) = not (is_accepted body) && complains cases

-- Every body gives the order up.
abbrev refuses : List Case → Bool
refuses [] = true
refuses ((k, p, body) ∷ cases) = is_refused body && refuses cases

switch-within :
    (v : ℤ) (n : ℕ) (cases : List Case)
    → at_least v n ≡ true
    → within n cases ≡ true
    → switch v cases ≡ accepted
unfolding switch
switch-within v n [] h w = refl
switch-within v n ((k, p, body) ∷ cases) h w = ground (arith, switch-within v n cases)

pub switch-skip :
    (v : ℤ) (n : ℕ) (old new : List Case)
    → at_least v n ≡ true
    → within n old ≡ true
    → switch v (old ++ new) ≡ switch v new
unfolding switch
switch-skip v n [] new h w = refl
switch-skip v n ((k, p, body) ∷ old) new h w = ground (arith, switch-skip v n old new)

switch_mono :
    (v w : ℕ) (cases : List Case)
    → v ≤ w
    → complains cases ≡ true
    → switch (pos v) cases ≡ accepted
    → switch (pos w) cases ≡ accepted
unfolding switch
switch_mono v w [] le h e = refl
switch_mono v w ((k, p, body) ∷ cases) le h e = ground (arith, switch_mono v w cases)

-- A case that asks about nothing but the version is reached by every older server.
switch-refuses :
    (v : ℤ) (k : ℕ) (body : Verdict) (old new : List Case)
    → below v k ≡ true
    → refuses old ≡ true
    → is_refused body ≡ true
    → is_refused (switch v (old ++ (k, true, body) ∷ new)) ≡ true
unfolding switch
switch-refuses v k body [] new h r b = ground arith
switch-refuses v k body ((j, p, other) ∷ old) new h r b =
    ground (arith, switch-refuses v k body old new)

refused-complains : (x : Verdict) → is_refused x ≡ true → is_accepted x ≡ false
refused-complains accepted h = absurd (ground arith)
refused-complains (warned text) h = refl
refused-complains (refused text) h = refl

module _ {F : Type 0} ⦃fl : Floats F⦄ where
  leg_price_case-refuses : (o : Order F) → is_refused (leg_price_case o) ≡ true
  unfolding leg_price_case
  leg_price_case-refuses o = ground arith

  scale_case-refuses : (o : Order F) → is_refused (scale_case o) ≡ true
  unfolding scale_case
  scale_case-refuses o = ground (arith, leg_price_case-refuses o)

  open_close_case-refuses : (o : Order F) → is_refused (open_close_case o) ≡ true
  unfolding open_close_case
  open_close_case-refuses o = ground (arith, scale_case-refuses o)

  neutral_id_case-refuses : (o : Order F) → is_refused (neutral_id_case o) ≡ true
  unfolding neutral_id_case
  neutral_id_case-refuses o = ground (arith, open_close_case-refuses o)

  short_sale_case-refuses : (c : Contract F) → is_refused (short_sale_case c) ≡ true
  unfolding short_sale_case
  short_sale_case-refuses c = ground arith

  guards-complain : (c : Contract F) (o : Order F) → complains (guards c o) ≡ true
  unfolding old_cases chained_cases new_cases
  guards-complain c o = simp (
    refused-complains (short_sale_case c) (short_sale_case-refuses c),
    refused-complains (neutral_id_case o) (neutral_id_case-refuses o),
    refused-complains (open_close_case o) (open_close_case-refuses o),
    refused-complains (scale_case o) (scale_case-refuses o),
    refused-complains (leg_price_case o) (leg_price_case-refuses o),
  )

  accepts_mono :
      (v w : ℕ) (c : Contract F) (o : Order F) (x : Verdict)
      → v ≤ w
      → order_verdict (pos v) c o ≡ x
      → is_accepted x && not (is_accepted (order_verdict (pos w) c o)) ≡ false
  unfolding order_verdict
  accepts_mono v w c o accepted le e =
      rw (switch_mono v w (guards c o) le (guards-complain c o) e) refl
  accepts_mono v w c o (warned text) le e = refl
  accepts_mono v w c o (refused text) le e = refl

  -- For every order: the guards of every server below version 66 refuse it; those of no server
  -- accept it where the ones of a newer server do not; and those of every server from version 160 on
  -- accept it.
  pub order_verdict-ages :
      (old v w new : ℕ) (c : Contract F) (o : Order F)
      → old < 66
      → v ≤ w
      → 160 ≤ new
      → (is_refused (order_verdict (pos old) c o) ≡ true)
        × (is_accepted (order_verdict (pos v) c o) && not (is_accepted (order_verdict (pos w) c o))
            ≡ false)
        × (order_verdict (pos new) c o ≡ accepted)
  unfolding order_verdict old_cases chained_cases new_cases
  order_verdict-ages old v w new c o aged le late = (
    switch-refuses (pos old) 66 (open_close_case o)
        (old_cases c o ++ (58, true, neutral_id_case o) ∷ [])
        (drop 2 (chained_cases c o) ++ new_cases c o) (ground arith)
        (simp (short_sale_case-refuses, neutral_id_case-refuses)) (open_close_case-refuses o),
    accepts_mono v w c o (order_verdict (pos v) c o) le refl,
    switch-within (pos new) 160 (guards c o) (ground arith) refl,
  )
