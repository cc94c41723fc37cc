-- ===== src/Xdr/Signed.antt =====
-- src/protocol/xdr/mod.rs: the signed words and the floating-point words. `byteorder` writes an
-- `i32` as the `u32` of the same bits, and a `f32` as the `u32` that `to_bits` gives; a float is
-- that pattern here.
use nfs_mamont_mirror.Prelude.{
  ℕ, ◌+◌, ◌-◌, ◌^◌, ◌<◌, ◌≡◌, refl, ap, ltb, lt→ltb, le→ltb, if◌then◌else◌, arith,
}
use nfs_mamont_mirror.Prelude.Result.{ok}
use nfs_mamont_mirror.Xdr.Reader.{Bytes, pure, ◌>>=◌, Codec}
use nfs_mamont_mirror.Xdr.Order.{ByteOrder}
use nfs_mamont_mirror.Xdr.Basic.{u32, u64}
use nfs_mamont_mirror.Xdr.RoundTrip.{RoundTrips, RoundTrips-via, u32-RoundTrips, u64-RoundTrips}

-- `negsuc n` is -(n + 1).
pub data ℤ : Type 0 where
  pos : ℕ → ℤ
  negsuc : ℕ → ℤ

-- The two's complement of a word, by the weight of its highest bit.
abbrev pub to_word : ℕ → ℤ → ℕ
to_word high (pos n) = n
to_word high (negsuc n) = high + high - 1 - n

abbrev pub from_word : ℕ → ℕ → ℤ
from_word high n = if ltb n high then pos n else negsuc (high + high - 1 - n)

-- What a word of that highest bit can hold.
abbrev pub Fits : ℕ → ℤ → Type 0
Fits high (pos n) = n < high
Fits high (negsuc n) = n < high

pub from_word-to_word : (high : ℕ) (z : ℤ) → Fits high z → from_word high (to_word high z) ≡ z
from_word-to_word high (pos n) h = rw (lt→ltb n high h)
from_word-to_word high (negsuc n) h =
    rw (le→ltb (high + high - 1 - n) high (omega arith)) (ap negsuc (omega arith))

to_word_small : (high : ℕ) (z : ℤ) → Fits high z → to_word high z < high + high
to_word_small high (pos n) h = omega arith
to_word_small high (negsuc n) h = omega arith

module _ ⦃order : ByteOrder⦄ where
  unfoldable pub i32 : Codec ℤ
  i32 = record {
    serialize = λ z. u32.serialize (to_word (2 ^ 31) z);
    deserialize = (do n ← u32.deserialize; pure (from_word (2 ^ 31) n));
  }

  unfoldable pub i64 : Codec ℤ
  i64 = record {
    serialize = λ z. u64.serialize (to_word (2 ^ 63) z);
    deserialize = (do n ← u64.deserialize; pure (from_word (2 ^ 63) n));
  }

  abbrev pub f32 : Codec ℕ
  f32 = u32

  abbrev pub f64 : Codec ℕ
  f64 = u64

module _ ⦃order : ByteOrder⦄ where
  read_word :
      (high : ℕ) (c : Codec ℕ) (z : ℤ) (src rest : Bytes)
      → Fits high z
      → c.deserialize src ≡ ok (to_word high z, rest)
      → (c.deserialize >>= λ n. pure (from_word high n)) src ≡ ok (z, rest)
  read_word high c z src rest h e = rw (e, from_word-to_word high z h)

  -- A number of 32 bits with its sign, and one of 64 bits, is read back as it was written.
  pub i32-RoundTrips : (z : ℤ) → Fits (2 ^ 31) z → RoundTrips i32 z
  unfolding i32
  i32-RoundTrips z h =
      RoundTrips-via u32 i32 (u32-RoundTrips _ (to_word_small (2 ^ 31) z h)) refl
        λ src rest. read_word (2 ^ 31) u32 z src rest h

  pub i64-RoundTrips : (z : ℤ) → Fits (2 ^ 63) z → RoundTrips i64 z
  unfolding i64
  i64-RoundTrips z h =
      RoundTrips-via u64 i64 (u64-RoundTrips _ (to_word_small (2 ^ 63) z h)) refl
        λ src rest. read_word (2 ^ 63) u64 z src rest h
