-- ===== src/Wire/Frame.antt =====
-- `scanFields` and `splitMsgBytes` of utils.go, and the loop of `bufio.Scanner` that calls
-- `scanFields` (client.go sets the scanner up in `reset`).
pub mod Stream
pub mod Fields
use ibapi.Common.{
  ℕ, zero, suc, ◌+◌, ◌-◌, ◌*◌, ◌^◌, List, [], ◌∷◌, ◌++◌, Bool, true, false, ◌≡◌, refl, Bytes,
  length, take, drop, ltb, leb, ◌==◌, if◌then◌else◌,
}

-- `MAX_MSG_LEN`.
abbrev pub max_msg_len : ℕ
max_msg_len = 0xffffff

-- `binary.BigEndian.Uint32(data[:4])`.
abbrev pub uint32 : Bytes → ℕ
uint32 (a ∷ b ∷ c ∷ d ∷ _) = a * 2 ^ 24 + b * 2 ^ 16 + c * 2 ^ 8 + d
uint32 _ = 0

-- What `scanFields` returns: `io.EOF`; a request for more data; or a token and the advance.
pub data Split : Type 0 where
  eof : Split
  more : Split
  token : ℕ → Bytes → Split

-- `scanFields`.
unfoldable pub scan_fields : Bytes → Bool → Split
scan_fields bytes true = eof
scan_fields bytes false =
    if ltb (length bytes) 4
    then more
    else let total_size = uint32 bytes + 4 in
      if ltb (length bytes) total_size
      then more
      else token total_size (take (total_size - 4) (drop 4 bytes))

-- `bytes.Split(data, sep)` at a separator of one byte: the current part is `cur`.
unfoldable pub split_at : ℕ → Bytes → Bytes → List Bytes
split_at sep cur [] = cur ∷ []
split_at sep cur (c ∷ s) =
    if c == sep then cur ∷ split_at sep [] s else split_at sep (cur ++ c ∷ []) s

-- `splitMsgBytes`: what stands behind the last NUL is dropped.
unfoldable pub split_msg_bytes : Bytes → List Bytes
unfolding split_at
split_msg_bytes bytes = let fields = split_at 0 [] bytes in take (length fields - 1) fields

pub data ScanEnd : Type 0 where
  scan_eof too_long : ScanEnd

-- The tokens that `scanFields` finds in the buffered bytes, and the bytes that stay. A token
-- takes four bytes at least, so the length of the buffer is enough fuel.
drain : ℕ → Bytes → List Bytes × Bytes
drain zero buf = ([], buf)
drain (suc f) buf = elim (scan_fields buf false) [
  | token advance tok ↦ let (toks, left) = drain f (drop advance buf) in (tok ∷ toks, left)
  | more ↦ ([], buf)
  | eof ↦ ([], buf)
]

-- `Scan` until it returns false. Each list of `reads` is what one `Read` of the socket gave;
-- behind the last stands the end of the stream, where `scanFields` drops what is buffered.
-- A buffer of `MAX_MSG_LEN` bytes with no token in it is the error `ErrTooLong`.
unfoldable pub scan_stream : Bytes → List Bytes → List Bytes × ScanEnd
unfolding drain
scan_stream buf [] =
    let (toks, left) = drain (length buf) buf in
    (toks, if leb max_msg_len (length left) then too_long else scan_eof)
scan_stream buf (r ∷ reads) =
    let (toks, left) = drain (length buf) buf in
    let rest = scan_stream (left ++ r) reads in
    if leb max_msg_len (length left) then (toks, too_long) else (toks ++ rest.0, rest.1)

test_split : split_msg_bytes (1 ∷ 2 ∷ 0 ∷ 0 ∷ 3 ∷ 0 ∷ []) ≡ (1 ∷ 2 ∷ []) ∷ [] ∷ (3 ∷ []) ∷ []
unfolding split_msg_bytes
test_split = refl

test_split_tail : split_msg_bytes (1 ∷ 0 ∷ 9 ∷ []) ≡ (1 ∷ []) ∷ []
unfolding split_msg_bytes
test_split_tail = refl

test_stream :
    scan_stream [] ((0 ∷ 0 ∷ 0 ∷ []) ∷ (2 ∷ 7 ∷ []) ∷ (8 ∷ 0 ∷ 0 ∷ 0 ∷ 0 ∷ 0 ∷ []) ∷ [])
    ≡ ((7 ∷ 8 ∷ []) ∷ [] ∷ [], scan_eof)
unfolding scan_stream scan_fields
test_stream = refl
