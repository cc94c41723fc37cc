-- ===== src/Xdr/RoundTrip/Composite.antt =====
-- src/protocol/xdr/mod.rs and utils.rs: round trips of padded, counted and optional data.
use nfs_mamont_mirror.Prelude.{
  ℕ, zero, suc, ◌+◌, ◌%◌, ◌^◌, ◌<◌, ◌≡◌, refl, true, false, none, some, Option, List, [], ◌∷◌, ◌++◌,
  append_assoc, length, length-append, replicate, length-replicate, All, arith, ltb, lt→ltb,
  if◌then◌else◌,
}
use nfs_mamont_mirror.Prelude.Result.{ok}
use nfs_mamont_mirror.Xdr.Reader.{Bytes, Writer, read_exact-append, Codec}
use nfs_mamont_mirror.Xdr.Order.{ByteOrder}
use nfs_mamont_mirror.Xdr.Basic.{
  padding_len, read_padding, write_padding, deserialize_n, serialize_each, opaque, vec_u8, string,
  is_ascii, bool, usize_as_u32, array, vec, option,
}
use nfs_mamont_mirror.Xdr.RoundTrip.{
  RoundTrips, aligned-append, RoundTrips-via, RoundTrips-then, bool-RoundTrips, usize-RoundTrips,
}

-- The padding is that of RFC 4506: the fewest bytes that fill up the last word.
pub padding_len_lem : (n : ℕ) → ((n + padding_len n) % 4 ≡ 0) × (padding_len n < 4)
unfolding padding_len
padding_len_lem n = (omega arith, omega arith)

abbrev pad_bytes : ℕ → Bytes
pad_bytes n = replicate (padding_len n) 0

length-pad_bytes : (n : ℕ) → length (pad_bytes n) ≡ padding_len n
length-pad_bytes n = length-replicate (padding_len n) 0

abbrev written : Bytes → Writer
written = ok

zeros : (p : ℕ) → (if ltb 0 p then ok (replicate p 0) else ok []) ≡ written (replicate p 0)
zeros zero = refl
zeros (suc p) = rw (lt→ltb 0 (suc p) (omega arith))

write_padding_lem : (n : ℕ) → write_padding n ≡ ok (pad_bytes n)
unfolding write_padding
write_padding_lem n = zeros (padding_len n)

-- The bytes of the padding are read, and not looked at.
read_padding_lem :
    (n : ℕ) (pad rest : Bytes)
    → length pad ≡ padding_len n
    → read_padding n (pad ++ rest) ≡ ok (tt, rest)
unfolding read_padding
read_padding_lem n [] rest h = rw (← h)
read_padding_lem n (b ∷ pad) rest h =
    rw (← h, lt→ltb 0 (suc (length pad)) (omega arith), read_exact-append (b ∷ pad) rest)

aligned_padded : (n : ℕ) (bs : Bytes) → length bs ≡ n → length (bs ++ pad_bytes n) % 4 ≡ 0
aligned_padded n bs h =
    let pad = pad_bytes n in
    omega (arith, padding_len_lem n, length-append bs pad, length-pad_bytes n)

module _ ⦃order : ByteOrder⦄ where
  pub opaque-RoundTrips : (n : ℕ) (bs : Bytes) → length bs ≡ n → RoundTrips (opaque n) bs
  unfolding opaque
  opaque-RoundTrips n bs h = record {
    bytes = bs ++ pad_bytes n;
    written = rw write_padding_lem;
    aligned = aligned_padded n bs h;
    reads = λ rest.
        let pad = pad_bytes n in
        rw (append_assoc, ← h, read_exact-append bs)
          (rw (h, read_padding_lem n pad rest (length-pad_bytes n)));
  }

  pub vec_u8-RoundTrips : (bs : Bytes) → length bs < 2 ^ 32 → RoundTrips vec_u8 bs
  unfolding vec_u8
  vec_u8-RoundTrips bs h =
      let w = usize-RoundTrips (length bs) h in
      let n = length bs in
      let pad = pad_bytes n in
      record {
        bytes = w.bytes ++ (bs ++ pad);
        written = rw (w.written, write_padding_lem);
        aligned = aligned-append w.bytes (bs ++ pad) w.aligned (aligned_padded n bs refl);
        reads = λ rest. simp (
          append_assoc,
          w.reads,
          read_exact-append,
          read_padding_lem n pad rest (length-pad_bytes n),
        );
      }

  -- An ASCII string of less than 2 ^ 32 bytes is written with its length and padded to whole words,
  -- and is read back as it was, whatever follows.
  pub string-RoundTrips :
      (bs : Bytes) → length bs < 2 ^ 32 → is_ascii bs ≡ true → RoundTrips string bs
  unfolding string
  string-RoundTrips bs h ascii =
      RoundTrips-via vec_u8 string (vec_u8-RoundTrips bs h) refl (λ src rest e. rw (e, ascii))

  pub option-RoundTrips-none {ℓ} : {A : Type ℓ} (item : Codec A) → RoundTrips (option item) none
  unfolding option
  option-RoundTrips-none item =
      RoundTrips-via bool (option item) (bool-RoundTrips false) refl (λ src rest e. rw e)

  pub option-RoundTrips-some {ℓ} :
      {A : Type ℓ} (item : Codec A) (a : A) → RoundTrips item a → RoundTrips (option item) (some a)
  unfolding option
  option-RoundTrips-some item a v =
      RoundTrips-then bool item (option item) (bool-RoundTrips true) v refl
        (λ src mid rest e f. rw (e, f))

  abbrev pub option-All {ℓ} : {A : Type ℓ} → Codec A → Option A → Type ℓ
  option-All item none = Unit
  option-All item (some a) = RoundTrips item a

  pub option-RoundTrips {ℓ} :
      {A : Type ℓ} (item : Codec A) (o : Option A) → option-All item o → RoundTrips (option item) o
  option-RoundTrips item none h = option-RoundTrips-none item
  option-RoundTrips item (some a) h = option-RoundTrips-some item a h

  -- The elements one after the other, with no count.
  pub array-RoundTrips {ℓ} :
      {A : Type ℓ} (item : Codec A) (as' : List A)
      → All (RoundTrips item) as'
      → RoundTrips (array (length as') item) as'
  unfolding array serialize_each deserialize_n
  array-RoundTrips item [] h = record {
    bytes = [];
    written = refl;
    aligned = refl;
    reads = λ rest. refl;
  }
  array-RoundTrips item (a ∷ as') h =
      RoundTrips-then item (array (length as') item) (array (suc (length as')) item) h.0
        (array-RoundTrips item as' h.1) refl (λ src mid rest e f. rw (e, f))

  pub vec-RoundTrips {ℓ} :
      {A : Type ℓ} (item : Codec A) (as' : List A)
      → length as' < 2 ^ 32
      → All (RoundTrips item) as'
      → RoundTrips (vec item) as'
  unfolding vec array
  vec-RoundTrips item as' fits h =
      RoundTrips-then usize_as_u32 (array (length as') item) (vec item)
        (usize-RoundTrips (length as') fits) (array-RoundTrips item as' h) refl
        (λ src mid rest e f. rw (e, f))
