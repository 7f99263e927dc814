-- ===== src/Decoder/Messages/Faults.antt =====
-- Messages that the decoder does not take as they are meant: panics, fields that are lost, ids that
-- it does not know.
use ibapi.Common.{
  ℕ, suc, List, [], ◌∷◌, ◌++◌, Option, none, ◌≡◌, refl, Bytes, ℤ, pos, negsuc, Bool, true, false,
  ◌&&◌, ◌||◌, arith, at_least, below, if◌then◌else◌, length, ◌≤◌, ◌<◌,
}
use ibapi.Wire.Float.{Floats}
use ibapi.Buffer.{index_out_of_range, bad_capacity, MsgBuffer, done, panicked}
use ibapi.Buffer.Items.{Item, Int64, Text, int, text, wire}
use ibapi.Buffer.RoundTrip.{readers, behind}
use ibapi.Wire.Decimal.{format_int}
use ibapi.Decoder.Wrapper.{Callback, AccountTime}
use ibapi.Decoder.{
  set_version, set_msg_id2process, process_table, lookup_process, find_process, apply_process,
  interpret, outcome, completed, crashed,
}
use ibapi.Decoder.Dispatch.{ready, msg_id, Delivers, delivers_of}
use ibapi.Common.{ltb, ◌==◌}
use ibapi.Wire.Frame.{split_at}
use ibapi.Decoder.{Process}
use ibapi.Decoder.History.{
  process_historical_data_msg, process_histogram_data, process_news_providers,
}
use ibapi.Decoder.Reference.{read_depth_description, process_family_codes_msg}
use ibapi.Decoder.Contracts.{bond_expiry, process_bond_contract_data_msg}

-- A text with fewer than two spaces has fewer than three parts.
abbrev pub count_spaces : Bytes → ℕ
count_spaces [] = 0
count_spaces (c ∷ s) = if c == b' ' then suc (count_spaces s) else count_spaces s

length-split_at : (cur s : Bytes) → length (split_at b' ' cur s) ≡ suc (count_spaces s)
unfolding split_at
length-split_at cur [] = refl
length-split_at cur (c ∷ s) =
    ground (arith, length-split_at [] s, length-split_at (cur ++ c ∷ []) s)

bond_expiry-short :
    {F : Type 0} ⦃fl : Floats F⦄ (parts : List Bytes) (m : MsgBuffer) (l : List (Callback F))
    → 0 < length parts
    → length parts < 3
    → bond_expiry parts m l ≡ panicked index_out_of_range l
unfolding bond_expiry
bond_expiry-short [] m l h k = absurd (omega arith)
bond_expiry-short (a ∷ []) m l h k = refl
bond_expiry-short (a ∷ b ∷ []) m l h k = refl
bond_expiry-short (a ∷ b ∷ c ∷ r) m l h k = absurd (omega arith)

-- No key of the table is as large as `k`.
abbrev keys_below : {F : Type 0} → ℕ → List (ℕ × Process F) → Bool
keys_below k [] = true
keys_below k ((id, p) ∷ table) = ltb id k && keys_below k table

find_process-keys_below :
    {F : Type 0} (k id : ℕ) (table : List (ℕ × Process F))
    → keys_below k table ≡ true
    → k ≤ id
    → find_process id table ≡ none
unfolding find_process
find_process-keys_below k id [] h l = refl
find_process-keys_below k id ((j, p) ∷ table) h l =
    ground (arith, find_process-keys_below k id table)

module _ {F : Type 0} ⦃fl : Floats F⦄ (clock : Bytes → Option AccountTime) (version : ℤ) where
  -- On every version of the server: a bond message whose own version is 3 or a later one and whose expiry has fewer than two spaces in it, such as a plain
  -- date or an empty text, makes the decoder panic at an index out of range, whatever follows, and
  -- no callback is made.
  pub bond_panics :
      (v req_id coupon : Int64) (symbol security_type cusip expiry : Text) (rest : List (Item F))
      → at_least v.value 3 ≡ true
      → count_spaces expiry.bytes ≤ 1
      → outcome {F = F} (
          interpret (ready clock version) (
            wire (
              int (msg_id 18 refl)
              ∷ int v
              ∷ int req_id
              ∷ text symbol
              ∷ text security_type
              ∷ text cusip
              ∷ int coupon
              ∷ text expiry
              ∷ rest)))
        ≡ crashed index_out_of_range []
  unfolding set_version set_msg_id2process process_table lookup_process find_process apply_process
      process_bond_contract_data_msg
  bond_panics v req_id coupon symbol security_type cusip expiry rest h few =
      let short = λ (m : MsgBuffer).
        bond_expiry-short {F = F} (split_at b' ' [] expiry.bytes) m []
          (omega (arith, length-split_at [] expiry.bytes))
          (omega (arith, length-split_at [] expiry.bytes)) in
      delivers_of (ready clock version) (msg_id 18 refl) _ (simp (h, readers, short))

  -- From version 124 on: a negative count in a histogram, a list of news providers or a list of
  -- family codes makes the decoder panic, whatever follows, and no callback is made; in a historical
  -- data message it stands for no bar, and the end callback is made.
  pub negative_count :
      (req_id n : Int64) (k : ℕ) (start_date end_date : Text) (rest : List (Item F))
      → n.value ≡ negsuc k
      → below version 124 ≡ false
      → let d = ready {F = F} clock version in
        (outcome (interpret d (wire (int (msg_id 89 refl) ∷ int req_id ∷ int n ∷ rest)))
          ≡ crashed bad_capacity [])
        × (outcome (interpret d (wire (int (msg_id 85 refl) ∷ int n ∷ rest)))
            ≡ crashed bad_capacity [])
        × (outcome (interpret d (wire (int (msg_id 78 refl) ∷ int n ∷ rest)))
            ≡ crashed bad_capacity [])
        × Delivers d
            (msg_id 17 refl)
            (int req_id ∷ text start_date ∷ text end_date ∷ int n ∷ [])
            (Callback.historical_data_end req_id.value start_date.bytes end_date.bytes ∷ [])
  unfolding set_version set_msg_id2process process_table lookup_process find_process apply_process
      process_histogram_data process_news_providers process_family_codes_msg
      process_historical_data_msg
  negative_count req_id n k start_date end_date rest e h =
      let d = ready clock version in
      (
        delivers_of d (msg_id 89 refl) _ (simp (readers, e)),
        delivers_of d (msg_id 85 refl) _ (simp (readers, e)),
        delivers_of d (msg_id 78 refl) _ (simp (readers, e)),
        delivers_of d (msg_id 17 refl) _ (simp (readers, e, h)),
      )

  -- On every version: a message whose id is negative or above 105 makes no callback and no panic,
  -- whatever follows; the fields behind the id are not read.
  pub unknown_ids :
      (id : Int64) (rest : List (Item F))
      → at_least id.value 106 || below id.value 0 ≡ true
      → outcome {F = F} (interpret (ready clock version) (wire (int id ∷ rest)))
        ≡ completed (wire rest) []
  unfolding set_version set_msg_id2process process_table lookup_process find_process apply_process
  unknown_ids id rest h = delivers_of (ready clock version) id rest (unknown id.value h)
    where
      unknown :
          (i : ℤ)
          → at_least i 106 || below i 0 ≡ true
          → outcome {F = F} (
              apply_process
                (lookup_process i (process_table clock))
                version
                (behind (format_int id.value) (wire rest))
                [])
            ≡ completed (wire rest) []
      unknown (negsuc k) h = refl
      unknown (pos k) h =
          rw (find_process-keys_below 106 k (process_table clock) refl (ground arith))

  -- From version 120 on: the description of an exchange keeps the service type in place of the
  -- security type, and its own service type stays empty.
  pub depth_description_loses :
      (exchange security_type listing service : Text) (agg_group : Int64) (rest : List (Item F))
      (b : Bytes) (l : List (Callback F))
      → at_least version 120 ≡ true
      → read_depth_description version
          (behind b (
            wire (
              text exchange
              ∷ text security_type
              ∷ text listing
              ∷ text service
              ∷ int agg_group
              ∷ rest)))
          l
        ≡ done
            (record {
              exchange = exchange.bytes;
              security_type = service.bytes;
              listing_exchange = listing.bytes;
              service_data_type = [];
              agg_group = agg_group.value;
            })
            (behind (format_int agg_group.value) (wire rest))
            l
  unfolding read_depth_description
  depth_description_loses exchange security_type listing service agg_group rest b l h =
      simp (h, readers)
