-- ===== src/Wire/Frame/Fields.antt =====
-- `splitMsgBytes` undoes the layout of fields.
use ibapi.Common.{
  ◌-◌, List, [], ◌∷◌, ◌++◌, ◌≡◌, Bytes, length, take, All, Lacks, arith, append_assoc, append-nil,
  length-append, take-append, ap,
}
use ibapi.Wire.Encode.Layout.{terminated}
use ibapi.Wire.Frame.{split_at, split_msg_bytes}

split_at-part :
    (cur b rest : Bytes)
    → Lacks 0 b
    → split_at 0 cur (b ++ 0 ∷ rest) ≡ (cur ++ b) ∷ split_at 0 [] rest
unfolding split_at
split_at-part cur [] rest h = rw append-nil
split_at-part cur (c ∷ b) rest h =
    ground (arith, split_at-part (cur ++ c ∷ []) b rest, append_assoc cur (c ∷ []) b)

split_at-last : (cur tail : Bytes) → Lacks 0 tail → split_at 0 cur tail ≡ (cur ++ tail) ∷ []
unfolding split_at
split_at-last cur [] h = rw append-nil
split_at-last cur (c ∷ b) h =
    ground (arith, split_at-last (cur ++ c ∷ []) b, append_assoc cur (c ∷ []) b)

split_at-terminated :
    (bs : List Bytes) (tail : Bytes)
    → All (Lacks 0) bs
    → Lacks 0 tail
    → split_at 0 [] (terminated bs ++ tail) ≡ bs ++ tail ∷ []
split_at-terminated [] tail h ht = split_at-last [] tail ht
split_at-terminated (b ∷ bs) tail h ht =
    rw (append_assoc, split_at-part [] b (terminated bs ++ tail) h.0)
      (ap (λ (l : List Bytes). b ∷ l) (split_at-terminated bs tail h.1 ht))

take-concat : (bs : List Bytes) (x : Bytes) → take (length (bs ++ x ∷ []) - 1) (bs ++ x ∷ []) ≡ bs
take-concat bs x =
    let e : length (bs ++ x ∷ []) - 1 ≡ length bs = omega (arith, length-append bs (x ∷ [])) in
    rw e (take-append bs (x ∷ []))

-- The fields of a message are its parts in front of a NUL, and a tail that no NUL ends is
-- dropped without notice.
pub split_msg_bytes-terminated :
    (bs : List Bytes) (tail : Bytes)
    → All (Lacks 0) bs
    → Lacks 0 tail
    → split_msg_bytes (terminated bs ++ tail) ≡ bs
unfolding split_msg_bytes
split_msg_bytes-terminated bs tail h ht =
    rw (split_at-terminated bs tail h ht) (take-concat bs tail)
