-- ===== src/Rpc/Fragment.antt =====
-- src/protocol/rpc/wire.rs: record marking over a byte stream. The socket is the bytes that the
-- peer has sent (for reads) or is given (for writes); it neither closes nor fails within a write.
pub mod Frames
pub mod Write
use Prim.Native.Nat.{bit_and}
use nfs_mamont_mirror.Prelude.{
  ℕ, zero, suc, ◌+◌, ◌-◌, ◌^◌, min, Bool, Option, none, some, [], ◌++◌, length, take, drop, ltb,
  leb, if◌then◌else◌,
}
use nfs_mamont_mirror.Prelude.Endian.{to_be_bytes, from_be_bytes}
use nfs_mamont_mirror.Xdr.Reader.{Bytes, Reader, pure, ◌>>=◌, read_exact}

-- Appends one fragment to `append_to`, and tells whether it was the last of its record.
unfoldable pub read_fragment : Bytes → Reader (Bool × Bytes)
read_fragment append_to = do
  header_buf ← read_exact 4
  let fragment_header = from_be_bytes header_buf
  let is_last = ltb 0 (bit_and fragment_header (2 ^ 31))
  let len = bit_and fragment_header (2 ^ 31 - 1)
  bytes ← read_exact len
  pure (is_last, append_to ++ bytes)

-- `MAX_FRAGMENT_SIZE`
abbrev pub max_fragment_size : ℕ
max_fragment_size = 2 ^ 31 - 1

abbrev pub prepend : Bytes → Option Bytes → Option Bytes
prepend sent none = none
prepend sent (some more) = some (sent ++ more)

-- The loop of `write_fragment`: what it sends from `offset` on. `none` means that the fuel ran out.
unfoldable pub write_fragment_loop : ℕ → Bytes → ℕ → Option Bytes
write_fragment_loop zero buf offset = none
write_fragment_loop (suc fuel) buf offset =
    let remaining = length buf - offset in
    let fragment_size = min remaining max_fragment_size in
    let is_last = leb (length buf) (offset + fragment_size) in
    let fragment_header = if is_last then fragment_size + 2 ^ 31 else fragment_size in
    let sent = to_be_bytes 4 fragment_header ++ take fragment_size (drop offset buf) in
    let more = write_fragment_loop fuel buf (offset + fragment_size) in
    if ltb offset (length buf) then prepend sent more else some []

-- Every round but the last sends a byte at least.
unfoldable pub write_fragment : Bytes → Option Bytes
write_fragment buf = write_fragment_loop (suc (length buf)) buf 0
