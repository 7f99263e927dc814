-- ===== src/Client/Handshake/Confirm.antt =====
-- When `HandShake` takes a client for connected, and how it gives up.
use ibapi.Common.{
  List, [], ◌∷◌, ◌++◌, Bool, true, false, ◌||◌, ◌&&◌, Option, none, some, ◌≡◌, refl, Bytes, ℤ, pos,
  int_eq, arith, ◌⊎◌, inl, inr, append_assoc, append-nil, ◌∙◌, ◌≢◌, negsuc, Bool-cases,
}
use ibapi.Buffer.{done, MsgBuffer}
use ibapi.Decoder.Wrapper.{Callback}
use ibapi.Decoder.{Decoder, interpret}
use ibapi.Client.State.{ClientError, Client, ok}
use ibapi.Client.Lifecycle.{is_connected, set_conn_state}
use ibapi.Client.Teardown.{Ends}
use ibapi.Client.Handshake.{
  Event, message, timeout, remove_id, first_field, take_message, confirm, acknowledge, give_up,
  settle,
}

-- A message whose first field is the id `i` is among the events.
abbrev pub seen_id : ℤ → List Event → Bool
seen_id i [] = false
seen_id i (message m ∷ es) = elim (first_field m) [
  | none ↦ seen_id i es
  | some id ↦ int_eq id i || seen_id i es
]
seen_id i (_ ∷ es) = seen_id i es

-- Every id of the list is seen.
abbrev pub all_seen : List ℤ → List Event → Bool
all_seen [] es = true
all_seen (i ∷ is) es = seen_id i es && all_seen is es

-- A message that the decoder takes without a panic: its id, and the calls that it makes.
pub record Quiet {F : Type 0} (d : Decoder F) : Type 0 where
  pub bytes : Bytes
  pub id : ℤ
  pub calls : List (Callback F)
  pub left : MsgBuffer
  pub has_id : first_field bytes ≡ some id
  pub runs : interpret d bytes ≡ done tt left calls

abbrev pub messages : {F : Type 0} {d : Decoder F} → List (Quiet d) → List Event
messages [] = []
messages (q ∷ qs) = message q.bytes ∷ messages qs

abbrev pub all_calls : {F : Type 0} {d : Decoder F} → List (Quiet d) → List (Callback F)
all_calls [] = []
all_calls (q ∷ qs) = q.calls ++ all_calls qs

list_cases : {A : Type 0} (xs : List A) → (xs ≡ []) ⊎ (xs ≢ [])
list_cases [] = inl refl
list_cases (x ∷ xs) = inr (λ e. ground arith)

int_eq-other : (a i j : ℤ) → int_eq a i ≡ true → int_eq i j ≡ false → int_eq a j ≡ false
int_eq-other (pos a) (pos i) (pos j) h k = ground arith
int_eq-other (negsuc a) (negsuc i) (negsuc j) h k = ground arith
int_eq-other (pos a) (pos i) (negsuc j) h k = refl
int_eq-other (negsuc a) (negsuc i) (pos j) h k = refl
int_eq-other (pos a) (negsuc i) j h k = ground arith
int_eq-other (negsuc a) (pos i) j h k = ground arith

seen_id-message :
    (i : ℤ) (m : Bytes) (es : List Event) → seen_id i es ≡ true → seen_id i (message m ∷ es) ≡ true
seen_id-message i m es h = ground arith

all_seen-message :
    (is : List ℤ) (m : Bytes) (es : List Event)
    → all_seen is es ≡ true
    → all_seen is (message m ∷ es) ≡ true
all_seen-message [] m es h = refl
all_seen-message (i ∷ is) m es h = ground (arith, seen_id-message i m es, all_seen-message is m es)

pub all_seen-remove_id :
    (is : List ℤ) (id : ℤ) (m : Bytes) (es : List Event)
    → first_field m ≡ some id
    → all_seen (remove_id id is) es ≡ true
    → all_seen is (message m ∷ es) ≡ true
unfolding remove_id
all_seen-remove_id [] id m es f h = refl
all_seen-remove_id (i ∷ is) id m es f h =
    ground
      (arith, all_seen-message is m es, seen_id-message i m es, all_seen-remove_id is id m es f)

-- The client with these calls of the wrapper.
abbrev pub with_calls : {F : Type 0} → Client F → List (Callback F) → Client F
with_calls c l = record c { calls = l }

-- The client is connected and no error comes back.
abbrev pub Connects : {F : Type 0} → Client F × Option ClientError → Type 0
Connects r = (r.1 ≡ none) × (is_connected r.0 ≡ true)

module _ {F : Type 0} (c : Client F) where
  take_message-quiet :
      (q : Quiet c.decoder) (l : List (Callback F))
      → take_message q.bytes (with_calls c l) ≡ ok (with_calls c (l ++ q.calls), q.id)
  unfolding take_message
  take_message-quiet q l = rw (q.has_id, q.runs)

  confirm-quiet :
      (ids : List ℤ) (q : Quiet c.decoder) (es : List Event) (l : List (Callback F))
      → remove_id q.id ids ≢ []
      → confirm ids (message q.bytes ∷ es) (with_calls c l)
        ≡ confirm (remove_id q.id ids) es (with_calls c (l ++ q.calls))
  unfolding confirm
  confirm-quiet ids q es l h = rw (take_message-quiet q l) (go (remove_id q.id ids) h)
    where
      go :
          (is : List ℤ)
          → is ≢ []
          → settle is (with_calls c (l ++ q.calls)) (confirm is es (with_calls c (l ++ q.calls)))
            ≡ confirm is es (with_calls c (l ++ q.calls))
      go [] h = absurd (h refl)
      go (i ∷ is) h = refl

  confirm-last :
      (ids : List ℤ) (q : Quiet c.decoder) (es : List Event) (l : List (Callback F))
      → remove_id q.id ids ≡ []
      → confirm ids (message q.bytes ∷ es) (with_calls c l)
        ≡ ok (acknowledge (with_calls c (l ++ q.calls)))
  unfolding confirm
  confirm-last ids q es l h = rw (take_message-quiet q l, h)

  confirm-timeout :
      (ids : List ℤ) (es : List Event) (l : List (Callback F))
      → confirm ids (timeout ∷ es) (with_calls c l) ≡ ok (give_up (with_calls c (l ++ [])))
  unfolding confirm
  confirm-timeout ids es l = rw append-nil

  pub confirm-missing :
      (ids : List ℤ) (qs : List (Quiet c.decoder)) (es : List Event) (l : List (Callback F))
      → all_seen ids (messages qs) ≡ false
      → confirm ids (messages qs ++ timeout ∷ es) (with_calls c l)
        ≡ ok (give_up (with_calls c (l ++ all_calls qs)))
  confirm-missing ids [] es l h = confirm-timeout ids es l
  confirm-missing ids (q ∷ qs) es l h = elim (list_cases (remove_id q.id ids)) [
    | inl e ↦ absurd (ground (arith, e, all_seen-remove_id ids q.id q.bytes (messages qs) q.has_id))
    | inr ne ↦
        confirm-quiet ids q (messages qs ++ timeout ∷ es) l ne
        ∙ confirm-missing (remove_id q.id ids) qs es (l ++ q.calls)
            (ground (arith, all_seen-remove_id ids q.id q.bytes (messages qs) q.has_id))
        ∙ rw append_assoc
  ]

  confirm-one :
      (i : ℤ) (qs : List (Quiet c.decoder)) (es : List Event) (l : List (Callback F))
      → seen_id i (messages qs) ≡ true
      → Ends (confirm (i ∷ []) (messages qs ++ es) (with_calls c l)) Connects
  unfolding is_connected set_conn_state remove_id
  confirm-one i [] es l h = ground arith
  confirm-one i (q ∷ qs) es l h = elim (Bool-cases (int_eq q.id i)) [
    | inl e ↦ rw (confirm-last (i ∷ []) q (messages qs ++ es) l (rw e)) (refl, refl)
    | inr ne ↦
        rw (confirm-quiet (i ∷ []) q (messages qs ++ es) l (rw ne (λ x. ground arith)), ne)
          (confirm-one i qs es (l ++ q.calls) (ground (arith, q.has_id)))
  ]

  pub confirm-two :
      (i j : ℤ) (qs : List (Quiet c.decoder)) (es : List Event) (l : List (Callback F))
      → int_eq i j ≡ false
      → seen_id i (messages qs) ≡ true
      → seen_id j (messages qs) ≡ true
      → Ends (confirm (i ∷ j ∷ []) (messages qs ++ es) (with_calls c l)) Connects
  unfolding remove_id
  confirm-two i j [] es l ne h k = ground arith
  confirm-two i j (q ∷ qs) es l ne h k = elim (Bool-cases (int_eq q.id i)) [
    | inl e ↦
        rw (confirm-quiet (i ∷ j ∷ []) q (messages qs ++ es) l (rw e (λ x. ground arith)), e)
          (confirm-one j qs es (l ++ q.calls)
            (ground (arith, q.has_id, int_eq-other q.id i j e ne)))
    | inr d ↦ elim (Bool-cases (int_eq q.id j)) [
      | inl e ↦
          rw (confirm-quiet (i ∷ j ∷ []) q (messages qs ++ es) l (rw d (λ x. ground arith)), d, e)
            (confirm-one i qs es (l ++ q.calls) (ground (arith, q.has_id)))
      | inr e ↦
          rw (confirm-quiet (i ∷ j ∷ []) q (messages qs ++ es) l (rw d (λ x. ground arith)), d, e)
            (confirm-two i j qs es (l ++ q.calls) ne (ground (arith, q.has_id))
              (ground (arith, q.has_id)))
    ]
  ]
