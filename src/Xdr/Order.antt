-- ===== src/Xdr/Order.antt =====
-- The crate `byteorder`, which src/protocol/xdr/mod.rs calls as `XDREndian` (`BigEndian`).
-- Its code is not in the repository: the words that it writes and reads are a parameter.
use nfs_mamont_mirror.Prelude.{ℕ, ◌^◌, ◌<◌, ◌≡◌, length}
use nfs_mamont_mirror.Prelude.Endian.{
  to_be_bytes, from_be_bytes, length-to_be_bytes, from_be_bytes-to_be_bytes,
}
use nfs_mamont_mirror.Xdr.Reader.{Bytes}

-- `write_u32`, `read_u32`, `write_u64` and `read_u64` on the bytes of one word, with what the
-- codecs rely on: a word has a fixed width, and what was written reads back.
pub record ByteOrder : Type 0 where
  pub write_u32 : ℕ → Bytes
  pub read_u32 : Bytes → ℕ
  pub write_u64 : ℕ → Bytes
  pub read_u64 : Bytes → ℕ
  pub length-write_u32 : (n : ℕ) → length (write_u32 n) ≡ 4
  pub length-write_u64 : (n : ℕ) → length (write_u64 n) ≡ 8
  pub read-write_u32 : (n : ℕ) → n < 2 ^ 32 → read_u32 (write_u32 n) ≡ n
  pub read-write_u64 : (n : ℕ) → n < 2 ^ 64 → read_u64 (write_u64 n) ≡ n

-- An order that meets them: most significant byte first.
abbrev pub big_endian : ByteOrder
big_endian = record {
  write_u32 = to_be_bytes 4;
  read_u32 = from_be_bytes;
  write_u64 = to_be_bytes 8;
  read_u64 = from_be_bytes;
  length-write_u32 = length-to_be_bytes 4;
  length-write_u64 = length-to_be_bytes 8;
  read-write_u32 = λ n h. from_be_bytes-to_be_bytes 4 n h;
  read-write_u64 = λ n h. from_be_bytes-to_be_bytes 8 n h;
}
