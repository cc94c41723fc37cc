-- ===== src/Xdr/RoundTrip.antt =====
-- src/protocol/xdr/mod.rs: what the codecs of XDR's own types write reads back.
pub mod Composite
use nfs_mamont_mirror.Prelude.{
  ℕ, ◌%◌, ◌^◌, ◌<◌, ◌≡◌, refl, Bool, true, false, some, List, ◌++◌, length, length-append, arith,
  lt→ltb, append_assoc, ◌∙◌,
}
use nfs_mamont_mirror.Prelude.Result.{ok}
use nfs_mamont_mirror.Xdr.Reader.{Bytes, read_exact, read_exact-append, ◌⨾◌, Codec}
use nfs_mamont_mirror.Xdr.Order.{ByteOrder}
use nfs_mamont_mirror.Xdr.Basic.{find_variant, u32, u64, bool, enum, usize_as_u32}

-- Writing `a` succeeds with whole words of four bytes, and reading takes exactly these bytes off
-- any input that begins with them and gives `a` back.
pub record RoundTrips {ℓ} {A : Type ℓ} (c : Codec A) (a : A) : Type ℓ where
  pub bytes : Bytes
  pub written : c.serialize a ≡ ok bytes
  pub aligned : length bytes % 4 ≡ 0
  pub reads : (rest : Bytes) → c.deserialize (bytes ++ rest) ≡ ok (a, rest)

pub aligned-append : (a b : Bytes) → length a % 4 ≡ 0 → length b % 4 ≡ 0 → length (a ++ b) % 4 ≡ 0
aligned-append a b h k = omega (arith, length-append a b)

module _ {ℓ κ} {A : Type ℓ} {B : Type κ} (c : Codec A) (d : Codec B) {a : A} {b : B} where
  -- A codec that writes what another writes, and reads what it reads.
  pub RoundTrips-via :
      RoundTrips c a
      → d.serialize b ≡ c.serialize a
      → ((src rest : Bytes) → c.deserialize src ≡ ok (a, rest) → d.deserialize src ≡ ok (b, rest))
      → RoundTrips d b
  RoundTrips-via v same read = record {
    bytes = v.bytes;
    written = same ∙ v.written;
    aligned = v.aligned;
    reads = λ rest. read (v.bytes ++ rest) rest (v.reads rest);
  }

  -- A codec that writes and reads one value, and then another.
  pub RoundTrips-then {ι} :
      {C : Type ι} (e : Codec C) {r : C}
      → RoundTrips c a
      → RoundTrips d b
      → e.serialize r ≡ (c.serialize a ⨾ d.serialize b)
      → ((src mid rest : Bytes)
          → c.deserialize src ≡ ok (a, mid)
          → d.deserialize mid ≡ ok (b, rest)
          → e.deserialize src ≡ ok (r, rest))
      → RoundTrips e r
  RoundTrips-then e v w same read = record {
    bytes = v.bytes ++ w.bytes;
    written = same ∙ rw (v.written, w.written);
    aligned = aligned-append v.bytes w.bytes v.aligned w.aligned;
    reads = λ rest.
        rw append_assoc (read _ (w.bytes ++ rest) rest (v.reads (w.bytes ++ rest)) (w.reads rest));
  }

module _ ⦃order : ByteOrder⦄ where
  read_u32_word :
      (n : ℕ) (rest : Bytes)
      → read_exact 4 (order.write_u32 n ++ rest) ≡ ok (order.write_u32 n, rest)
  read_u32_word n rest =
      rw (order.length-write_u32 n) at (read_exact-append (order.write_u32 n) rest)

  read_u64_word :
      (n : ℕ) (rest : Bytes)
      → read_exact 8 (order.write_u64 n ++ rest) ≡ ok (order.write_u64 n, rest)
  read_u64_word n rest =
      rw (order.length-write_u64 n) at (read_exact-append (order.write_u64 n) rest)

  pub u32-RoundTrips : (n : ℕ) → n < 2 ^ 32 → RoundTrips u32 n
  unfolding u32
  u32-RoundTrips n h = record {
    bytes = order.write_u32 n;
    written = refl;
    aligned = omega (arith, order.length-write_u32 n);
    reads = λ rest. rw (read_u32_word n rest, order.read-write_u32 n h);
  }

  pub u64-RoundTrips : (n : ℕ) → n < 2 ^ 64 → RoundTrips u64 n
  unfolding u64
  u64-RoundTrips n h = record {
    bytes = order.write_u64 n;
    written = refl;
    aligned = omega (arith, order.length-write_u64 n);
    reads = λ rest. rw (read_u64_word n rest, order.read-write_u64 n h);
  }

  pub bool-RoundTrips : (b : Bool) → RoundTrips bool b
  unfolding bool
  bool-RoundTrips true =
      RoundTrips-via u32 bool (u32-RoundTrips 1 (omega arith)) refl (λ src rest e. rw e)
  bool-RoundTrips false =
      RoundTrips-via u32 bool (u32-RoundTrips 0 (omega arith)) refl (λ src rest e. rw e)

  -- A variant is found by its discriminant in any list that has no earlier one with the same.
  pub enum-RoundTrips {ℓ} :
      {A : Type ℓ} (discriminant : A → ℕ) (variants : List A) (a : A)
      → discriminant a < 2 ^ 32
      → find_variant discriminant variants (discriminant a) ≡ some a
      → RoundTrips (enum discriminant variants) a
  unfolding enum
  enum-RoundTrips discriminant variants a h found =
      RoundTrips-via u32 (enum discriminant variants) (u32-RoundTrips (discriminant a) h) refl
        (λ src rest e. rw (e, found))

  pub usize-RoundTrips : (n : ℕ) → n < 2 ^ 32 → RoundTrips usize_as_u32 n
  unfolding usize_as_u32
  usize-RoundTrips n h =
      RoundTrips-via u32 usize_as_u32 (u32-RoundTrips n h) (rw (lt→ltb n (2 ^ 32) h))
        (λ src rest e. e)
