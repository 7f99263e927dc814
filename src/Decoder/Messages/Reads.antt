-- ===== src/Decoder/Messages/Reads.antt =====
-- Readers that take a list of items off the wire, and how they are put together.
use ibapi.Common.{
  List, [], ◌∷◌, ◌++◌, map, length, Bool, true, false, ◌&&◌, ◌≡◌, refl, pos, append_assoc,
  append-nil, if◌then◌else◌,
}
use ibapi.Wire.Float.{Floats}
use ibapi.Wire.Decimal.{format_int}
use ibapi.Buffer.{
  M, pure, call, read_int, read_string, read_bool, read_float, read_int_check_unset,
  read_float_check_unset, ◌>>=◌,
}
use ibapi.Buffer.Items.{Item, Int64, Text, Real, int, text, real, bool, print}
use ibapi.Buffer.RoundTrip.{readers}
use ibapi.Decoder.Read.{read_if, counted}
use ibapi.Decoder.Messages.Lists.{Takes, Takes-repeat, all_items}

-- The run `r` takes the items `is`, gives `a` and makes no call.
pub record Reads {L F A : Type 0} ⦃fl : Floats F⦄ (r : M L A) (is : List (Item F)) (a : A)
    : Type 0 where
  pub takes : Takes r is a []

-- The run takes the items and makes the calls.
pub record Calls {L F : Type 0} ⦃fl : Floats F⦄ (r : M L (Unit {0})) (is : List (Item F))
    (cs : List L) : Type 0 where
  pub makes : Takes r is tt cs

-- A list with its length as the server prints it.
pub record Counted (X : Type 0) : Type 0 where
  pub elements : List X
  pub count : Int64
  pub is_length : count.value ≡ pos (length elements)

module _ {L F A B : Type 0} ⦃fl : Floats F⦄ where
  bind-Takes :
      (r : M L A) (k : A → M L B) (is js : List (Item F)) (a : A) (b : B)
      → Takes r is a []
      → Takes (k a) js b []
      → Takes (r >>= k) (is ++ js) b []
  bind-Takes r k is js a b t u rest c l =
      let (c₁, p) = t (js ++ rest) c l in
      let (c₂, q) = u rest c₁ l in (c₂, rw append_assoc (rw (rw append-nil at p) q))

  -- One part behind another one.
  pub Reads-bind :
      {r : M L A} (k : A → M L B) {is js : List (Item F)} {a : A} {b : B}
      → Reads r is a
      → Reads (k a) js b
      → Reads (r >>= k) (is ++ js) b
  Reads-bind {r} k {is} {js} {a} {b} t u = record {
    takes = bind-Takes r k is js a b t.takes u.takes;
  }

  end-Takes :
      (r : M L A) (f : A → B) (is : List (Item F)) (a : A)
      → Takes r is a []
      → Takes (r >>= λ x. pure (f x)) is (f a) []
  end-Takes r f is a t rest c l = let (c₁, p) = t rest c l in (c₁, rw p refl)

  -- What becomes of the value that was read.
  pub Reads-end :
      {r : M L A} (f : A → B) {is : List (Item F)} {a : A}
      → Reads r is a
      → Reads (r >>= λ x. pure (f x)) is (f a)
  Reads-end {r} f {is} {a} t = record { takes = end-Takes r f is a t.takes }

module _ {L F A : Type 0} ⦃fl : Floats F⦄ where
  bind_calls-Takes :
      (r : M L A) (k : A → M L (Unit {0})) (is js : List (Item F)) (a : A) (cs : List L)
      → Takes r is a []
      → Takes (k a) js tt cs
      → Takes (r >>= k) (is ++ js) tt cs
  bind_calls-Takes r k is js a cs t u rest c l =
      let (c₁, p) = t (js ++ rest) c l in
      let (c₂, q) = u rest c₁ l in (c₂, rw append_assoc (rw (rw append-nil at p) q))

  -- Calls behind what was read.
  pub Calls-bind :
      {r : M L A} (k : A → M L (Unit {0})) {is js : List (Item F)} {a : A} {cs : List L}
      → Reads r is a
      → Calls (k a) js cs
      → Calls (r >>= k) (is ++ js) cs
  Calls-bind {r} k {is} {js} {a} {cs} t u = record {
    makes = bind_calls-Takes r k is js a cs t.takes u.makes;
  }

  end_call-Takes :
      (r : M L A) (f : A → L) (is : List (Item F)) (a : A)
      → Takes r is a []
      → Takes (r >>= λ x. call (f x)) is tt (f a ∷ [])
  end_call-Takes r f is a t rest c l =
      let (c₁, p) = t rest c l in (c₁, rw (rw append-nil at p) refl)

  -- One call with what was read.
  pub Calls-end :
      {r : M L A} (f : A → L) {is : List (Item F)} {a : A}
      → Reads r is a
      → Calls (r >>= λ x. call (f x)) is (f a ∷ [])
  Calls-end {r} f {is} {a} t = record { makes = end_call-Takes r f is a t.takes }

module _ {L F A : Type 0} ⦃fl : Floats F⦄ where
  pub Reads-pure : {a : A} → Reads {L = L} {F = F} (pure a) [] a
  Reads-pure {a} = record { takes = λ rest b l. (b, rw append-nil refl) }

  -- A part whose version is over.
  pub Reads-absent : {g : Bool} (r : M L A) {d : A} → g ≡ false → Reads {F = F} (read_if g r d) [] d
  Reads-absent r h = rw h Reads-pure

  -- A part that is there only under a condition.
  pub Reads-read_if :
      (c : Bool) (d : A) {r : M L A} {is : List (Item F)} {a : A}
      → Reads r is a
      → Reads (read_if c r d) (if c then is else []) (if c then a else d)
  Reads-read_if true d t = t
  Reads-read_if false d t = Reads-pure

  -- A part whose version is there.
  pub Reads-guarded :
      {g : Bool} (c : Bool) (r : M L A) (d : A) {a : A} {is : List (Item F)}
      → g ≡ true
      → Reads (read_if c r d) is a
      → Reads (read_if (g && c) r d) is a
  Reads-guarded c r d h t = rw h t

  pub Reads-there :
      {g : Bool} (d : A) {r : M L A} {a : A} {is : List (Item F)}
      → g ≡ true
      → Reads r is a
      → Reads (read_if g r d) is a
  Reads-there d h t = rw h t

module _ {L F : Type 0} ⦃fl : Floats F⦄ where
  pub Reads-int : (i : Int64) → Reads {L = L} {F = F} read_int (int i ∷ []) i.value
  Reads-int i = record { takes = λ rest b l. (format_int i.value, simp (readers, append-nil)) }

  pub Reads-text : (t : Text) → Reads {L = L} {F = F} read_string (text t ∷ []) t.bytes
  Reads-text t = record { takes = λ rest b l. (t.bytes, simp (readers, append-nil)) }

  pub Reads-bool : (v : Bool) → Reads {L = L} {F = F} read_bool (bool v ∷ []) v
  Reads-bool v = record { takes = λ rest b l. (print {F = F} (bool v), simp (readers, append-nil)) }

  pub Reads-real : (v : Real F) → Reads {L = L} read_float (real v ∷ []) v.value
  Reads-real v = record {
    takes = λ rest b l. (fl.format_float v.value, simp (readers, append-nil));
  }

  pub Reads-set_int : (i : Int64) → Reads {L = L} {F = F} read_int_check_unset (int i ∷ []) i.value
  Reads-set_int i = record { takes = λ rest b l. (format_int i.value, simp (readers, append-nil)) }

  pub Reads-set_real : (v : Real F) → Reads {L = L} read_float_check_unset (real v ∷ []) v.value
  Reads-set_real v = record {
    takes = λ rest b l. (fl.format_float v.value, simp (readers, append-nil));
  }

module _ {L F X A : Type 0} ⦃fl : Floats F⦄ where
  -- A loop over a counted list takes the count and all elements.
  pub Reads-counted :
      {r : M L A} {enc : X → List (Item F)} {val : X → A}
      → ((x : X) → Reads r (enc x) (val x))
      → (c : Counted X)
      → Reads
          (do n ← read_int; counted n r)
          (int c.count ∷ all_items enc c.elements)
          (map val c.elements)
  Reads-counted {r} {enc} {val} t c = record {
    takes = λ rest b l.
        let (b', p) =
          Takes-repeat r enc val (λ x. (t x).takes) c.elements rest
            (format_int (pos (length c.elements))) l in
        (b', simp (readers, c.is_length, p));
  }
