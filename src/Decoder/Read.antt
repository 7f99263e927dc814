-- ===== src/Decoder/Read.antt =====
-- The control structure of the decoder's functions: fields that depend on a version, and loops.
use ibapi.Common.{
  ℕ, zero, suc, List, [], ◌∷◌, Bool, true, false, ℤ, pos, negsuc, ◌==◌, ◌/◌, ◌%◌, ◌^◌,
}
use ibapi.Decoder.Wrapper.{Callback}
use ibapi.Buffer.{bad_capacity, M, pure, panic, ◌>>=◌, ◌>>◌}

module _ {L A : Type 0} where
  -- `if b { x = r() }`, where `x` holds `d` before.
  abbrev pub read_if : Bool → M L A → A → M L A
  read_if true r d = r
  read_if false r d = pure d

  -- `n` rounds of a loop that appends what `r` reads.
  unfoldable pub repeat : ℕ → M L A → M L (List A)
  repeat zero r = pure []
  repeat (suc n) r = do a ← r; as' ← repeat n r; pure (a ∷ as')

  -- `xs := make([]T, 0, n)` and `for ; n > 0; n--`: a negative capacity panics.
  abbrev pub counted : ℤ → M L A → M L (List A)
  counted (pos n) r = repeat n r
  counted (negsuc n) r = panic bad_capacity

module _ {L : Type 0} where
  -- `n` rounds of a loop that only makes callbacks.
  unfoldable pub rounds : ℕ → M L (Unit {0}) → M L (Unit {0})
  rounds zero r = pure tt
  rounds (suc n) r = do r; rounds n r

  -- `for n := …; n > 0; n--` with no slice.
  abbrev pub for_each : ℤ → M L (Unit {0}) → M L (Unit {0})
  for_each (pos n) r = rounds n r
  for_each (negsuc n) r = pure tt

-- `mask & 2^k != 0`, in two's complement.
abbrev pub has_bit : ℕ → ℤ → Bool
has_bit k (pos n) = n / 2 ^ k % 2 == 1
has_bit k (negsuc n) = n / 2 ^ k % 2 == 0

-- What a function of the decoder does to the message and to the wrapper.
abbrev pub D : Type 0 → Type 0 → Type 0
D F A = M (Callback F) A
