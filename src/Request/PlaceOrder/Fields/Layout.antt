-- ===== src/Request/PlaceOrder/Fields/Layout.antt =====
-- The fields of `PlaceOrder` (client.go) have the texts of `order_texts`.
use ibapi.Common.{
  List, [], ◌∷◌, ◌++◌, Bool, true, false, Option, none, some, ◌≡◌, refl, ℤ, ℕ, leb, below, at_least,
  arith, Bytes,
}
use ibapi.Wire.Float.{Floats}
use ibapi.Wire.Encode.{Field, int, float, str, bool, raw, unsupported, handle_empty}
use ibapi.Wire.Encode.Layout.{texts}
use ibapi.Data.Contract.{Contract, ComboLeg, TagValue, DeltaNeutralContract}
use ibapi.Data.Condition.{OrderConditioner, cond_type, to_fields}
use ibapi.Data.Order.{Order, OrderComboLeg}
use ibapi.Request.Options.{when}
use ibapi.Request.PlaceOrder.Fields.{
  emptied, text_field, price_field, tag_fields, leg_fields, price_fields, neutral_fields,
  condition_list, place_contract, place_terms, place_legs, place_advisor, place_settling,
  place_neutral, place_scale, place_hedge, place_algo, place_conditions, place_tail,
  place_order_fields,
}
use ibapi.Request.PlaceOrder.Fields.Texts.{
  given, int_text, float_text, tag_texts, leg_texts, price_texts, condition_texts, neutral_texts,
  contract_texts, terms_texts, legs_texts, advisor_texts, settling_texts, neutral_order_texts,
  scale_texts, hedge_texts, algo_texts, conditions_texts, tail_texts, order_texts,
}

newer : (v : ℤ) (k : ℕ) → at_least v 102 ≡ true → leb k 102 ≡ true → at_least v k ≡ true
newer v k new h = ground arith

not_older : (v : ℤ) (k : ℕ) → at_least v 102 ≡ true → leb k 102 ≡ true → below v k ≡ false
not_older v k new h = ground arith

texts-tag_fields :
    (F : Type 0) ⦃fl : Floats F⦄ (tvs : List TagValue)
    → texts {F = F} (tag_fields tvs) ≡ tag_texts tvs
unfolding tag_fields
texts-tag_fields F [] = refl
texts-tag_fields F (tv ∷ tvs) = rw (texts-tag_fields F tvs)

texts-leg_fields :
    (F : Type 0) ⦃fl : Floats F⦄ (v : ℤ) (ls : List ComboLeg)
    → at_least v 102 ≡ true
    → texts {F = F} (leg_fields v ls) ≡ leg_texts ls
unfolding leg_fields
texts-leg_fields F v [] new = refl
texts-leg_fields F v (l ∷ ls) new = rw (newer v 51 new refl, texts-leg_fields F v ls new) refl

given-append : (b : Bool) (xs ys : List Bytes) → given b xs ++ given b ys ≡ given b (xs ++ ys)
given-append true xs ys = refl
given-append false xs ys = refl

module _ {F : Type 0} ⦃fl : Floats F⦄ where
  texts-append : (xs ys : List (Field F)) → texts (xs ++ ys) ≡ texts xs ++ texts ys
  texts-append [] ys = refl
  texts-append (int i ∷ xs) ys = rw (texts-append xs ys)
  texts-append (float v ∷ xs) ys = rw (texts-append xs ys)
  texts-append (str s ∷ xs) ys = rw (texts-append xs ys)
  texts-append (bool b ∷ xs) ys = rw (texts-append xs ys)
  texts-append (raw b ∷ xs) ys = rw (texts-append xs ys)
  texts-append (unsupported ∷ xs) ys = texts-append xs ys

  texts-when : (b : Bool) (xs : List (Field F)) → texts (when b xs) ≡ given b (texts xs)
  texts-when true xs = refl
  texts-when false xs = refl

  emptied-int : (i : ℤ) → emptied {F = F} (int i) ≡ str (int_text i)
  unfolding emptied text_field handle_empty
  emptied-int i = refl

  emptied-float : (x : F) → emptied (float x) ≡ str (float_text x)
  unfolding emptied text_field handle_empty
  emptied-float x = refl

  texts-price_fields : (ls : List (OrderComboLeg F)) → texts (price_fields ls) ≡ price_texts ls
  unfolding price_fields
  texts-price_fields [] = refl
  texts-price_fields (l ∷ ls) = rw (emptied-float l.price, texts-price_fields ls)

  texts-condition_list :
      (cs : List (OrderConditioner F)) → texts (condition_list cs) ≡ condition_texts cs
  unfolding condition_list
  texts-condition_list [] = refl
  texts-condition_list (c ∷ cs) =
      rw (
        texts-append (int (cond_type c) ∷ to_fields c) (condition_list cs),
        texts-condition_list cs,
      )

  texts-neutral_fields :
      (n : Option (DeltaNeutralContract F)) → texts (neutral_fields n) ≡ neutral_texts n
  unfolding neutral_fields
  texts-neutral_fields none = refl
  texts-neutral_fields (some n) = refl

  texts-settling : (o : Order F) → texts (place_settling o) ≡ settling_texts o
  unfolding place_settling
  texts-settling o = simp (emptied-int, emptied-float)

  texts-conditions : (o : Order F) → texts (place_conditions o) ≡ conditions_texts o
  unfolding place_conditions
  texts-conditions o = simp (texts-append, texts-when, texts-condition_list)

  texts-tail : (v : ℤ) (o : Order F) → texts (place_tail v o) ≡ tail_texts v o
  unfolding place_tail
  texts-tail v o = simp (texts-append, texts-when, emptied-int)

  texts-contract :
      (v order_id : ℤ) (c : Contract F)
      → at_least v 102 ≡ true
      → texts (place_contract v order_id c) ≡ contract_texts v order_id c
  unfolding place_contract
  texts-contract v order_id c new = simp (
    not_older v 44 new refl,
    newer v 45 new refl,
    newer v 46 new refl,
    newer v 68 new refl,
    texts-append,
    texts-when,
  )

  texts-terms :
      (v : ℤ) (o : Order F) → at_least v 102 ≡ true → texts (place_terms v o) ≡ terms_texts o
  unfolding place_terms price_field emptied handle_empty
  texts-terms v o new =
      rw (not_older v 61 new refl, not_older v 62 new refl, newer v 101 new refl) refl

  texts-legs :
      (v : ℤ) (c : Contract F) (o : Order F)
      → at_least v 102 ≡ true
      → texts (place_legs v c o) ≡ legs_texts c o
  unfolding place_legs
  texts-legs v c o new = simp (
    newer v 57 new refl,
    newer v 61 new refl,
    texts-append,
    texts-when,
    texts-leg_fields F v c.combo_legs new,
    texts-price_fields,
    texts-tag_fields,
  )

  texts-advisor :
      (v : ℤ) (o : Order F) → at_least v 102 ≡ true → texts (place_advisor v o) ≡ advisor_texts v o
  unfolding place_advisor
  texts-advisor v o new = simp (newer v 51 new refl, texts-append, texts-when)

  texts-neutral :
      (v : ℤ) (o : Order F)
      → at_least v 102 ≡ true
      → texts (place_neutral v o) ≡ neutral_order_texts o
  unfolding place_neutral
  texts-neutral v o new =
      simp (newer v 58 new refl, newer v 66 new refl, texts-append, texts-when, given-append)

  texts-scale :
      (v : ℤ) (o : Order F) → at_least v 102 ≡ true → texts (place_scale v o) ≡ scale_texts o
  unfolding place_scale
  texts-scale v o new = simp (
    newer v 62 new refl,
    newer v 40 new refl,
    newer v 60 new refl,
    newer v 69 new refl,
    texts-append,
    texts-when,
    emptied-int,
    emptied-float,
  )

  texts-hedge :
      (v : ℤ) (c : Contract F) (o : Order F)
      → at_least v 102 ≡ true
      → texts (place_hedge v c o) ≡ hedge_texts c o
  unfolding place_hedge
  texts-hedge v c o new = simp (
    newer v 54 new refl,
    newer v 56 new refl,
    newer v 39 new refl,
    newer v 44 new refl,
    newer v 40 new refl,
    texts-append,
    texts-when,
    texts-neutral_fields,
  )

  texts-algo : (v : ℤ) (o : Order F) → at_least v 102 ≡ true → texts (place_algo v o) ≡ algo_texts o
  unfolding place_algo
  texts-algo v o new = simp (
    newer v 41 new refl,
    newer v 71 new refl,
    newer v 70 new refl,
    newer v 73 new refl,
    newer v 76 new refl,
    texts-append,
    texts-when,
    texts-tag_fields,
  )

  pub texts-place_order_fields :
      (v order_id : ℤ) (c : Contract F) (o : Order F)
      → at_least v 102 ≡ true
      → texts (place_order_fields v order_id c o) ≡ order_texts v order_id c o
  unfolding place_order_fields
  texts-place_order_fields v order_id c o new =
      rw
        (
          texts-append (place_contract v order_id c) _,
          texts-append (place_terms v o) _,
          texts-append (place_legs v c o) _,
          texts-append (place_advisor v o) _,
          texts-append (place_settling o) _,
          texts-append (place_neutral v o) _,
          texts-append (place_scale v o) _,
          texts-append (place_hedge v c o) _,
          texts-append (place_algo v o) _,
          texts-append (place_conditions o) _,
          texts-contract v order_id c new,
          texts-terms v o new,
          texts-legs v c o new,
          texts-advisor v o new,
          texts-settling o,
          texts-neutral v o new,
          texts-scale v o new,
          texts-hedge v c o new,
          texts-algo v o new,
          texts-conditions o,
          texts-tail v o,
        )
        refl
