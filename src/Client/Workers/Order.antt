-- ===== src/Client/Workers/Order.antt =====
-- The messages keep their order between the two goroutines.
use mathlib.Core.Path.{ap}
use ibapi.Common.{
  List, [], ◌∷◌, ◌++◌, some, ◌≡◌, refl, sym, ◌∙◌, Bytes, length, arith, append_assoc, append-nil,
  Bool-cases, inl, inr, ltb,
}
use ibapi.Buffer.{Fault, Run, done, panicked}
use ibapi.Decoder.Wrapper.{Callback}
use ibapi.Decoder.{Decoder, interpret}
use ibapi.Client.State.{ClientError, Client, Res, ok, waits, fault, ◌>>=◌}
use ibapi.Client.Lifecycle.{set_err, signal_shutdown}
use ibapi.Client.Teardown.{IfEnds}
use ibapi.Client.Workers.{
  Pipeline, Turn, receive, decode, put_message, after_decode, take_next, turn, turns,
}

-- The messages that the turns of the receiver put into the channel.
abbrev pub received : List Turn → List Bytes
received [] = []
received (receive m ∷ ts) = m ∷ received ts
received (decode ∷ ts) = received ts

received-cons : (t : Turn) (ts : List Turn) → received (t ∷ ts) ≡ received (t ∷ []) ++ received ts
received-cons (receive m) ts = refl
received-cons decode ts = refl

-- The calls of a run, whether it panicked or not.
abbrev pub run_calls : {F : Type 0} → Run (Callback F) (Unit {0}) → List (Callback F)
run_calls (done u b l) = l
run_calls (panicked e l) = l

-- The calls that these messages make, one after the other.
abbrev pub delivered : {F : Type 0} → Decoder F → List Bytes → List (Callback F)
delivered d [] = []
delivered d (m ∷ ms) = run_calls (interpret d m) ++ delivered d ms

-- What was received is what was taken out and what still waits, in order; and the calls are those of
-- the messages taken out.
pub record InOrder {F : Type 0} (c : Client F) (ms : List Bytes) (c' : Client F) : Type 0 where
  pub taken : List Bytes
  pub queue : c.msg_chan ++ ms ≡ taken ++ c'.msg_chan
  pub made : c'.calls ≡ c.calls ++ delivered c.decoder taken
  pub same : c'.decoder ≡ c.decoder

delivered-append :
    {F : Type 0} (d : Decoder F) (ms ns : List Bytes)
    → delivered d (ms ++ ns) ≡ delivered d ms ++ delivered d ns
delivered-append d [] ns = refl
delivered-append d (m ∷ ms) ns =
    rw (delivered-append d ms ns)
      (sym (append_assoc (run_calls (interpret d m)) (delivered d ms) (delivered d ns)))

IfEnds-bind :
    {A B : Type 0} (P : A → Type 0) (Q : B → Type 0) (r : Res A) (f : A → Res B)
    → IfEnds r P
    → ((a : A) → P a → IfEnds (f a) Q)
    → IfEnds (r >>= f) Q
IfEnds-bind P Q (ok a) f p h = h a p
IfEnds-bind P Q (fault e) f p h = tt
IfEnds-bind P Q waits f p h = tt

IfEnds-map :
    {A : Type 0} (P Q : A → Type 0) (r : Res A) → ((a : A) → P a → Q a) → IfEnds r P → IfEnds r Q
IfEnds-map P Q (ok a) f p = f a p
IfEnds-map P Q (fault e) f p = tt
IfEnds-map P Q waits f p = tt

InOrder-trans :
    {F : Type 0} (c c' c'' : Client F) (ms ns : List Bytes)
    → InOrder c ms c'
    → InOrder c' ns c''
    → InOrder c (ms ++ ns) c''
InOrder-trans c c' c'' ms ns a b = record {
  taken = a.taken ++ b.taken;
  queue =
      sym (append_assoc c.msg_chan ms ns)
      ∙ ap (λ (l : List Bytes). l ++ ns) a.queue
      ∙ append_assoc a.taken c'.msg_chan ns
      ∙ ap (λ (l : List Bytes). a.taken ++ l) b.queue
      ∙ sym (append_assoc a.taken b.taken c''.msg_chan);
  made =
      b.made
      ∙ ap (λ x. x ++ delivered c'.decoder b.taken) a.made
      ∙ append_assoc c.calls (delivered c.decoder a.taken) (delivered c'.decoder b.taken)
      ∙ ap (λ d. c.calls ++ (delivered c.decoder a.taken ++ delivered d b.taken)) a.same
      ∙ ap (λ x. c.calls ++ x) (sym (delivered-append c.decoder a.taken b.taken));
  same = b.same ∙ a.same;
}

-- What the shutdown and the record of an error leave alone.
abbrev Keeps : {F : Type 0} → Client F → Client F → Type 0
Keeps c c' = (c'.msg_chan ≡ c.msg_chan) × (c'.calls ≡ c.calls) × (c'.decoder ≡ c.decoder)

shut-Keeps :
    {F : Type 0} (e : ClientError) (c : Client F)
    → IfEnds (signal_shutdown (set_err (some e) c)) (Keeps c)
unfolding signal_shutdown set_err
shut-Keeps e c = ground arith

module _ {F : Type 0} (panic_error : Fault → Bytes) where
  decoded-InOrder :
      (c : Client F) (m : Bytes) (ms : List Bytes) (r : Run (Callback F) (Unit {0}))
      → c.msg_chan ≡ m ∷ ms
      → interpret c.decoder m ≡ r
      → IfEnds
          (after_decode panic_error (record c { msg_chan = ms }) r)
          (λ p'. InOrder c [] p'.client)
  unfolding after_decode
  decoded-InOrder c m ms (done u b l) e h = record {
    taken = m ∷ [];
    queue = append-nil c.msg_chan ∙ e;
    made = rw (h, append-nil) refl;
    same = refl;
  }
  decoded-InOrder c m ms (panicked f l) e h =
      IfEnds-bind (Keeps (record c { msg_chan = ms; calls = c.calls ++ l })) _ (signal_shutdown _) _
        (shut-Keeps _ _)
        (λ c' k. record {
          taken = m ∷ [];
          queue = append-nil c.msg_chan ∙ e ∙ ap (λ (q : List Bytes). m ∷ q) (sym k.0);
          made = k.1 ∙ rw (h, append-nil) refl;
          same = k.2;
        })

  next-InOrder :
      (c : Client F) (q : List Bytes)
      → c.msg_chan ≡ q
      → IfEnds (take_next panic_error q c) (λ p'. InOrder c [] p'.client)
  unfolding take_next
  next-InOrder c [] e = tt
  next-InOrder c (m ∷ ms) e = decoded-InOrder c m ms (interpret c.decoder m) e refl

  turn-InOrder :
      (t : Turn) (p : Pipeline F)
      → IfEnds (turn panic_error t p) (λ p'. InOrder p.client (received (t ∷ [])) p'.client)
  unfolding turn put_message
  turn-InOrder (receive m) p = elim (Bool-cases (ltb (length p.client.msg_chan) 100)) [
    | inl e ↦ rw e (record { taken = []; queue = refl; made = sym (append-nil _); same = refl })
    | inr e ↦ rw e tt
  ]
  turn-InOrder decode p = elim (Bool-cases p.decoding) [
    | inl e ↦ rw e (next-InOrder p.client p.client.msg_chan refl)
    | inr e ↦ rw e tt
  ]

  -- For every interleaving of the receiver and the decoder that neither waits nor faults, with or
  -- without a panic of the decoder: the messages are taken out in the order in which they were
  -- received, none is lost or taken twice, and the wrapper gets the calls of the messages taken
  -- out, in that order.
  pub turns-InOrder :
      (ts : List Turn) (p : Pipeline F)
      → IfEnds (turns panic_error ts p) (λ p'. InOrder p.client (received ts) p'.client)
  unfolding turns
  turns-InOrder [] p = record {
    taken = [];
    queue = append-nil p.client.msg_chan;
    made = sym (append-nil p.client.calls);
    same = refl;
  }
  turns-InOrder (t ∷ ts) p =
      IfEnds-bind (λ p₁. InOrder p.client (received (t ∷ [])) p₁.client) _ (turn panic_error t p) _
        (turn-InOrder t p)
        (λ p₁ a. rw (received-cons t ts) (
          IfEnds-map _ _ (turns panic_error ts p₁)
            (λ p₂ b. InOrder-trans p.client p₁.client p₂.client _ _ a b) (turns-InOrder ts p₁)))
