-- ===== src/Decoder/Messages/Lists.antt =====
-- Counted lists: a reader that takes one element off the wire takes a list of them.
use ibapi.Common.{ℕ, suc, List, [], ◌∷◌, ◌++◌, map, length, ◌≡◌, Bytes, append_assoc, append-nil}
use ibapi.Wire.Float.{Floats}
use ibapi.Buffer.{M, MsgBuffer, done}
use ibapi.Buffer.Items.{Item, wire}
use ibapi.Buffer.RoundTrip.{behind, wire-nil}
use ibapi.Decoder.Read.{repeat, rounds}

-- The items of all elements.
abbrev pub all_items : {F X : Type 0} ⦃fl : Floats F⦄ → (X → List (Item F)) → List X → List (Item F)
all_items enc [] = []
all_items enc (x ∷ xs) = enc x ++ all_items enc xs

module _ {L F A : Type 0} ⦃fl : Floats F⦄ where
  -- On the items `is` and whatever follows, the run `r` gives `a`, makes the calls `cs` and stops
  -- behind the items.
  abbrev pub Takes : M L A → List (Item F) → A → List L → Type 0
  Takes r is a cs =
      (rest : List (Item F)) (b : Bytes) (l : List L)
      → (b' : Bytes) × (r (behind b (wire (is ++ rest))) l
          ≡ done a (behind b' (wire rest)) (l ++ cs))

  -- The same with nothing behind the items.
  pub Takes-last :
      (r : M L A) (is : List (Item F)) (a : A) (cs : List L) (b : Bytes) (l : List L)
      → Takes r is a cs
      → (b' : Bytes) × (r (behind b (wire is)) l ≡ done a (behind b' []) (l ++ cs))
  Takes-last r is a cs b l t =
      let (b', p) = t [] b l in (b', rw append-nil at (rw (wire-nil F) at p))

repeat-step :
    {L A : Type 0} (r : M L A) (n : ℕ) (m m₁ m₂ : MsgBuffer) (l : List L) (a : A) (as' : List A)
    → r m l ≡ done a m₁ l
    → repeat n r m₁ l ≡ done as' m₂ l
    → repeat (suc n) r m l ≡ done (a ∷ as') m₂ l
unfolding repeat
repeat-step r n m m₁ m₂ l a as' p q = simp (p, q)

rounds-step :
    {L : Type 0} (r : M L (Unit {0})) (n : ℕ) (m m₁ m₂ : MsgBuffer) (l l₁ l₂ : List L)
    → r m l ≡ done tt m₁ l₁
    → rounds n r m₁ l₁ ≡ done tt m₂ l₂
    → rounds (suc n) r m l ≡ done tt m₂ l₂
unfolding rounds
rounds-step r n m m₁ m₂ l l₁ l₂ p q = simp (p, q)

module _ {L F X A : Type 0} ⦃fl : Floats F⦄ (r : M L A) (enc : X → List (Item F))
    (val : X → A) where
  -- A loop that appends what it reads takes all elements, in order.
  pub Takes-repeat :
      ((x : X) → Takes r (enc x) (val x) [])
      → (xs : List X) → Takes (repeat (length xs) r) (all_items enc xs) (map val xs) []
  Takes-repeat t [] rest b l = (b, unfold repeat in rw append-nil)
  Takes-repeat t (x ∷ xs) rest b l =
      let (b₁, p) = t x (all_items enc xs ++ rest) b l in
      let (b₂, q) = Takes-repeat t xs rest b₁ l in
      (
        b₂,
        rw (append_assoc, append-nil)
            (repeat-step r (length xs) _ _ _ l _ _ (rw append-nil at p) (rw append-nil at q)),
      )

module _ {L F X : Type 0} ⦃fl : Floats F⦄ (r : M L (Unit {0})) (enc : X → List (Item F))
    (calls : X → L) where
  -- A loop that makes a call in each round makes the calls of all elements, in order.
  pub Takes-rounds :
      ((x : X) → Takes r (enc x) tt (calls x ∷ []))
      → (xs : List X) → Takes (rounds (length xs) r) (all_items enc xs) tt (map calls xs)
  Takes-rounds t [] rest b l = (b, unfold rounds in rw append-nil)
  Takes-rounds t (x ∷ xs) rest b l =
      let (b₁, p) = t x (all_items enc xs ++ rest) b l in
      let (b₂, q) = Takes-rounds t xs rest b₁ (l ++ calls x ∷ []) in
      (b₂, rw append_assoc (rounds-step r (length xs) _ _ _ l _ _ p (rw append_assoc at q)))
