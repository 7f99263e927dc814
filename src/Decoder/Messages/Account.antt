-- ===== src/Decoder/Messages/Account.antt =====
-- The account and position messages, from the wire to the wrapper.
use ibapi.Common.{[], ◌∷◌, Option, refl, Bytes, ℤ}
use ibapi.Wire.Float.{Floats}
use ibapi.Buffer.Items.{Int64, Text, int, text}
use ibapi.Buffer.RoundTrip.{readers}
use ibapi.Decoder.Wrapper.{Callback, AccountTime}
use ibapi.Decoder.{
  Decoder, set_version, set_msg_id2process, process_table, lookup_process, find_process,
  apply_process,
}
use ibapi.Decoder.Dispatch.{ready, msg_id, Delivers, delivers_of}
use ibapi.Decoder.Account.{
  wrap_next_valid_id, wrap_update_account_value, wrap_error, wrap_account_summary,
  wrap_account_update_multi, wrap_account_download_end, wrap_account_summary_end,
  wrap_position_multi_end, wrap_account_update_multi_end, wrap_receive_fa,
  process_replace_fa_end_msg,
}

-- The values of the account messages.
pub record AccountValues (F : Type 0) ⦃fl : Floats F⦄ : Type 0 where
  pub v : Text
  pub tag : Text
  pub val : Text
  pub currency : Text
  pub acc_name : Text
  pub error_string : Text
  pub account : Text
  pub value : Text
  pub acc : Text
  pub model_code : Text
  pub cxml : Text
  pub reply : Text
  pub req_id : Int64
  pub error_code : Int64
  pub fa_data : Int64

-- Each message with these values makes exactly its callback, and no byte of it is left.
abbrev pub AccountDelivered : {F : Type 0} ⦃fl : Floats F⦄ → Decoder F → AccountValues F → Type 0
AccountDelivered d x =
    (Delivers d (msg_id 9 refl) (text x.v ∷ int x.req_id ∷ [])
      (Callback.next_valid_id x.req_id.value ∷ []))
    × (Delivers d (msg_id 6 refl)
        (text x.v ∷ text x.tag ∷ text x.val ∷ text x.currency ∷ text x.acc_name ∷ [])
        (Callback.update_account_value x.tag.bytes x.val.bytes x.currency.bytes x.acc_name.bytes
          ∷ []))
    × (Delivers d (msg_id 4 refl)
        (text x.v ∷ int x.req_id ∷ int x.error_code ∷ text x.error_string ∷ [])
        (Callback.error x.req_id.value x.error_code.value x.error_string.bytes ∷ []))
    × (Delivers d (msg_id 63 refl)
        (text x.v
          ∷ int x.req_id
          ∷ text x.account
          ∷ text x.tag
          ∷ text x.value
          ∷ text x.currency
          ∷ [])
        (Callback.account_summary x.req_id.value x.account.bytes x.tag.bytes x.value.bytes
            x.currency.bytes
          ∷ []))
    × (Delivers d (msg_id 73 refl)
        (text x.v
          ∷ int x.req_id
          ∷ text x.acc
          ∷ text x.model_code
          ∷ text x.tag
          ∷ text x.val
          ∷ text x.currency
          ∷ [])
        (Callback.account_update_multi x.req_id.value x.acc.bytes x.model_code.bytes x.tag.bytes
            x.val.bytes x.currency.bytes
          ∷ []))
    × (Delivers d (msg_id 54 refl) (text x.v ∷ text x.acc_name ∷ [])
        (Callback.account_download_end x.acc_name.bytes ∷ []))
    × (Delivers d (msg_id 64 refl) (text x.v ∷ int x.req_id ∷ [])
        (Callback.account_summary_end x.req_id.value ∷ []))
    × (Delivers d (msg_id 72 refl) (text x.v ∷ int x.req_id ∷ [])
        (Callback.position_multi_end x.req_id.value ∷ []))
    × (Delivers d (msg_id 74 refl) (text x.v ∷ int x.req_id ∷ [])
        (Callback.account_update_multi_end x.req_id.value ∷ []))
    × (Delivers d (msg_id 16 refl) (text x.v ∷ int x.fa_data ∷ text x.cxml ∷ [])
        (Callback.receive_fa x.fa_data.value x.cxml.bytes ∷ []))
    × (Delivers d (msg_id 103 refl) (int x.req_id ∷ text x.reply ∷ [])
        (Callback.replace_fa_end x.req_id.value x.reply.bytes ∷ []))

module _ {F : Type 0} ⦃fl : Floats F⦄ (clock : Bytes → Option AccountTime) (version : ℤ) where
  -- For all values, on every version: the next valid id, an account value, an error, an account
  -- summary, an update of several accounts, the ends of an account's download, of a summary, of the
  -- positions of several accounts and of their updates, an advisor's configuration, and the end of
  -- its replacement each make exactly their callback, with the values that the server printed, and no
  -- byte of the message is left.
  pub account_delivered : (x : AccountValues F) → AccountDelivered (ready clock version) x
  unfolding set_version set_msg_id2process process_table lookup_process find_process apply_process
      wrap_next_valid_id wrap_update_account_value wrap_error wrap_account_summary
      wrap_account_update_multi wrap_account_download_end wrap_account_summary_end
      wrap_position_multi_end wrap_account_update_multi_end wrap_receive_fa
      process_replace_fa_end_msg
  account_delivered x =
      let d = ready clock version in
      (
        delivers_of d (msg_id 9 refl) _ (simp readers),
        delivers_of d (msg_id 6 refl) _ (simp readers),
        delivers_of d (msg_id 4 refl) _ (simp readers),
        delivers_of d (msg_id 63 refl) _ (simp readers),
        delivers_of d (msg_id 73 refl) _ (simp readers),
        delivers_of d (msg_id 54 refl) _ (simp readers),
        delivers_of d (msg_id 64 refl) _ (simp readers),
        delivers_of d (msg_id 72 refl) _ (simp readers),
        delivers_of d (msg_id 74 refl) _ (simp readers),
        delivers_of d (msg_id 16 refl) _ (simp readers),
        delivers_of d (msg_id 103 refl) _ (simp readers),
      )
