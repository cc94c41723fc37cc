-- ===== src/Rpc/Fragment/Frames.antt =====
-- src/protocol/rpc/wire.rs: one frame, and what `read_fragment` makes of it.
use Prim.Native.Nat.{bit_and}
use nfs_mamont_mirror.Prelude.{
  ℕ, ◌+◌, ◌-◌, ◌^◌, ◌<◌, ◌≡◌, Bool, true, false, ◌++◌, length, ltb, arith, if◌then◌else◌, lt→ltb,
  append_assoc, le→ltb,
}
use nfs_mamont_mirror.Prelude.Endian.{to_be_bytes, length-to_be_bytes, from_be_bytes-to_be_bytes}
use nfs_mamont_mirror.Prelude.Masks.{bit_and_mask, bit_and_bit}
use nfs_mamont_mirror.Prelude.Result.{ok}
use nfs_mamont_mirror.Xdr.Reader.{Bytes, read_exact-append}
use nfs_mamont_mirror.Rpc.Fragment.{read_fragment}

-- The header word of a fragment.
abbrev pub header : Bool → ℕ → ℕ
header is_last size = if is_last then size + 2 ^ 31 else size

abbrev pub frame : Bool → Bytes → Bytes
frame is_last bytes = to_be_bytes 4 (header is_last (length bytes)) ++ bytes

header_last :
    (is_last : Bool) (n : ℕ) → n < 2 ^ 31 → ltb 0 (bit_and (header is_last n) (2 ^ 31)) ≡ is_last
header_last true n h = rw (bit_and_bit 31 (n + 2 ^ 31)) (lt→ltb 0 _ (omega arith))
header_last false n h = rw (bit_and_bit 31 n) (le→ltb 0 _ (omega arith))

header_size : (is_last : Bool) (n : ℕ) → n < 2 ^ 31 → bit_and (header is_last n) (2 ^ 31 - 1) ≡ n
header_size true n h = rw (bit_and_mask 31 (n + 2 ^ 31)) (omega arith)
header_size false n h = rw (bit_and_mask 31 n) (omega arith)

header_word : (is_last : Bool) (n : ℕ) → n < 2 ^ 31 → header is_last n < 256 ^ 4
header_word true n h = omega arith
header_word false n h = omega arith

-- A frame is read as its bytes and its mark, and no byte after it is touched.
pub read_fragment-frame :
    (append_to : Bytes) (is_last : Bool) (bytes rest : Bytes)
    → length bytes < 2 ^ 31
    → read_fragment append_to (frame is_last bytes ++ rest)
      ≡ ok ((is_last, append_to ++ bytes), rest)
unfolding read_fragment
read_fragment-frame append_to is_last bytes rest h =
    let n = length bytes in
    let word = header is_last n in
    let four = rw (length-to_be_bytes 4 word) at (read_exact-append (to_be_bytes 4 word)) in
    rw (append_assoc, four)
      (simp (
        from_be_bytes-to_be_bytes 4 word (header_word is_last n h),
        header_last is_last n h,
        header_size is_last n h,
        read_exact-append,
      ))

-- Record marking, as RFC 5531 has it: a message is cut into fragments of less than 2 ^ 31 bytes,
-- the last of which is marked.
pub data IsRecord : Bytes → Bytes → Type 0 where
  last : (bytes : Bytes) → length bytes < 2 ^ 31 → IsRecord bytes (frame true bytes)
  more :
      (bytes : Bytes) {message wire : Bytes}
      → length bytes < 2 ^ 31
      → IsRecord message wire
      → IsRecord (bytes ++ message) (frame false bytes ++ wire)
