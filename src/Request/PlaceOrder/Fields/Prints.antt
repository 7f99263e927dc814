-- ===== src/Request/PlaceOrder/Fields/Prints.antt =====
-- Every field of the message of `PlaceOrder` has a type that `makeMsgBytes` prints.
use ibapi.Common.{
  List, [], ◌∷◌, ◌++◌, Bool, true, false, ◌&&◌, Option, none, some, ◌≡◌, refl, Bytes, ℤ, arith,
  if◌then◌else◌,
}
use ibapi.Wire.Float.{Floats}
use ibapi.Wire.Encode.{Field, int, float, str, bool, raw, unsupported, field_bytes, handle_empty}
use ibapi.Wire.Encode.Layout.{rendered, cons_field}
use ibapi.Data.Contract.{Contract, ComboLeg, TagValue, DeltaNeutralContract}
use ibapi.Data.Condition.{
  OrderConditioner, to_fields, condition_fields, operator_fields, contract_fields, price_condition,
  time_condition, margin_condition, execution_condition, volume_condition, percent_change_condition,
}
use ibapi.Data.Order.{Order, OrderComboLeg}
use ibapi.Request.Options.{when}
use ibapi.Request.PlaceOrder.Fields.{
  emptied, text_field, price_field, tag_fields, leg_fields, price_fields, neutral_fields,
  condition_list, place_contract, place_terms, place_legs, place_advisor, place_settling,
  place_neutral, place_scale, place_hedge, place_algo, place_conditions, place_tail,
  place_order_fields,
}

-- No field of the list has a type that is not supported.
abbrev pub prints : {F : Type 0} → List (Field F) → Bool
prints [] = true
prints (unsupported ∷ fs) = false
prints (int i ∷ fs) = prints fs
prints (float v ∷ fs) = prints fs
prints (str s ∷ fs) = prints fs
prints (bool b ∷ fs) = prints fs
prints (raw b ∷ fs) = prints fs

module _ {F : Type 0} where
  prints-append : (xs ys : List (Field F)) → prints (xs ++ ys) ≡ prints xs && prints ys
  prints-append [] ys = refl
  prints-append (int i ∷ xs) ys = prints-append xs ys
  prints-append (float v ∷ xs) ys = prints-append xs ys
  prints-append (str s ∷ xs) ys = prints-append xs ys
  prints-append (bool b ∷ xs) ys = prints-append xs ys
  prints-append (raw b ∷ xs) ys = prints-append xs ys
  prints-append (unsupported ∷ xs) ys = refl

  prints-when : (b : Bool) (xs : List (Field F)) → prints xs ≡ true → prints (when b xs) ≡ true
  prints-when true xs h = h
  prints-when false xs h = refl

module _ (F : Type 0) where
  prints-leg_fields : (v : ℤ) (ls : List ComboLeg) → prints {F = F} (leg_fields v ls) ≡ true
  unfolding leg_fields
  prints-leg_fields v [] = refl
  prints-leg_fields v (l ∷ ls) = simp (prints-append, prints-when, prints-leg_fields v ls)

  prints-tag_fields : (tvs : List TagValue) → prints {F = F} (tag_fields tvs) ≡ true
  unfolding tag_fields
  prints-tag_fields [] = refl
  prints-tag_fields (tv ∷ tvs) = prints-tag_fields tvs

module _ {F : Type 0} where
  prints-neutral_fields : (n : Option (DeltaNeutralContract F)) → prints (neutral_fields n) ≡ true
  unfolding neutral_fields
  prints-neutral_fields none = refl
  prints-neutral_fields (some n) = refl

  prints-to_fields : (c : OrderConditioner F) → prints (to_fields c) ≡ true
  unfolding to_fields contract_fields operator_fields condition_fields
  prints-to_fields (price_condition c) = ground arith
  prints-to_fields (time_condition c) = ground arith
  prints-to_fields (margin_condition c) = ground arith
  prints-to_fields (execution_condition c) = ground arith
  prints-to_fields (volume_condition c) = ground arith
  prints-to_fields (percent_change_condition c) = ground arith

module _ {F : Type 0} ⦃fl : Floats F⦄ where
  prints-place_contract :
      (v order_id : ℤ) (c : Contract F) → prints (place_contract v order_id c) ≡ true
  unfolding place_contract
  prints-place_contract v order_id c = simp (prints-append, prints-when)

  prints-place_terms : (v : ℤ) (o : Order F) → prints (place_terms v o) ≡ true
  unfolding place_terms price_field emptied text_field handle_empty
  prints-place_terms v o = ground arith

  prints-price_fields : (ls : List (OrderComboLeg F)) → prints (price_fields ls) ≡ true
  unfolding price_fields emptied text_field handle_empty
  prints-price_fields [] = refl
  prints-price_fields (l ∷ ls) = prints-price_fields ls

  prints-place_legs : (v : ℤ) (c : Contract F) (o : Order F) → prints (place_legs v c o) ≡ true
  unfolding place_legs
  prints-place_legs v c o =
      simp (prints-append, prints-when, prints-leg_fields, prints-price_fields, prints-tag_fields)

  prints-place_advisor : (v : ℤ) (o : Order F) → prints (place_advisor v o) ≡ true
  unfolding place_advisor
  prints-place_advisor v o = simp (prints-append, prints-when)

  prints-place_settling : (o : Order F) → prints (place_settling o) ≡ true
  unfolding place_settling emptied text_field handle_empty
  prints-place_settling o = refl

  prints-place_neutral : (v : ℤ) (o : Order F) → prints (place_neutral v o) ≡ true
  unfolding place_neutral
  prints-place_neutral v o = simp (prints-append, prints-when)

  prints-either :
      (b : Bool) (xs ys : List (Field F))
      → prints xs ≡ true
      → prints ys ≡ true
      → prints (if b then xs else ys) ≡ true
  prints-either true xs ys hx hy = hx
  prints-either false xs ys hx hy = hy

  prints-place_scale : (v : ℤ) (o : Order F) → prints (place_scale v o) ≡ true
  unfolding place_scale emptied text_field handle_empty
  prints-place_scale v o = simp (prints-append, prints-when, prints-either)

  prints-place_hedge : (v : ℤ) (c : Contract F) (o : Order F) → prints (place_hedge v c o) ≡ true
  unfolding place_hedge
  prints-place_hedge v c o = simp (prints-append, prints-when, prints-neutral_fields)

  prints-place_algo : (v : ℤ) (o : Order F) → prints (place_algo v o) ≡ true
  unfolding place_algo
  prints-place_algo v o = simp (prints-append, prints-when, prints-tag_fields)

  prints-condition_list : (cs : List (OrderConditioner F)) → prints (condition_list cs) ≡ true
  unfolding condition_list
  prints-condition_list [] = refl
  prints-condition_list (c ∷ cs) = simp (prints-append, prints-to_fields, prints-condition_list cs)

  prints-place_conditions : (o : Order F) → prints (place_conditions o) ≡ true
  unfolding place_conditions
  prints-place_conditions o = simp (prints-append, prints-when, prints-condition_list)

  prints-place_tail : (v : ℤ) (o : Order F) → prints (place_tail v o) ≡ true
  unfolding place_tail emptied text_field handle_empty
  prints-place_tail v o = simp (prints-append, prints-when)

  pub prints-place_order_fields :
      (v order_id : ℤ) (c : Contract F) (o : Order F)
      → prints (place_order_fields v order_id c o) ≡ true
  unfolding place_order_fields
  prints-place_order_fields v order_id c o = simp (
    prints-append, prints-place_contract, prints-place_terms, prints-place_legs,
    prints-place_advisor, prints-place_settling, prints-place_neutral, prints-place_scale,
    prints-place_hedge, prints-place_algo, prints-place_conditions, prints-place_tail,
  )

  with_text :
      (b : Bytes) (fs : List (Field F))
      → (bs : List Bytes) × (rendered fs ≡ some bs)
      → (bs : List Bytes) × (cons_field (some b) (rendered fs) ≡ some bs)
  with_text b fs (bs, e) = (b ∷ bs, rw e refl)

  -- A list of such fields has its texts.
  pub rendered-prints :
      (fs : List (Field F)) → prints fs ≡ true → (bs : List Bytes) × (rendered fs ≡ some bs)
  unfolding field_bytes
  rendered-prints [] h = ([], refl)
  rendered-prints (int i ∷ fs) h = with_text _ fs (rendered-prints fs h)
  rendered-prints (float v ∷ fs) h = with_text _ fs (rendered-prints fs h)
  rendered-prints (str s ∷ fs) h = with_text _ fs (rendered-prints fs h)
  rendered-prints (bool true ∷ fs) h = with_text _ fs (rendered-prints fs h)
  rendered-prints (bool false ∷ fs) h = with_text _ fs (rendered-prints fs h)
  rendered-prints (raw b ∷ fs) h = with_text _ fs (rendered-prints fs h)
  rendered-prints (unsupported ∷ fs) h = absurd (ground arith)
