-- ===== src/Xdr/Basic.antt =====
-- src/protocol/xdr/mod.rs and src/protocol/xdr/utils.rs: the codecs of XDR's own types.
-- A signed word is kept as its bit pattern; `byteorder` writes an `i32` as that pattern.
use nfs_mamont_mirror.Prelude.{
  ℕ, zero, suc, ◌-◌, ◌%◌, ◌^◌, Bool, true, false, ◌&&◌, Option, none, some, List, [], ◌∷◌, length,
  replicate, ltb, ◌==◌, if◌then◌else◌,
}
use nfs_mamont_mirror.Prelude.Result.{ok, err}
use nfs_mamont_mirror.Xdr.Reader.{
  Bytes, invalid_data, Reader, pure, fail, ◌>>=◌, ◌>>◌, read_exact, Writer, ◌⨾◌, Codec,
}
use nfs_mamont_mirror.Xdr.Order.{ByteOrder}

abbrev pub alignment : ℕ
alignment = 4

unfoldable pub padding_len : ℕ → ℕ
padding_len src_len = (alignment - src_len % alignment) % alignment

unfoldable pub read_padding : ℕ → Reader (Unit {0})
read_padding src_len =
    let pad_len = padding_len src_len in
    if ltb 0 pad_len then read_exact pad_len >> pure tt else pure tt

unfoldable pub write_padding : ℕ → Writer
write_padding src_len =
    let pad_len = padding_len src_len in if ltb 0 pad_len then ok (replicate pad_len 0) else ok []

-- `for i in self { i.deserialize(src)?; }` on a vector of `n` elements
unfoldable pub deserialize_n {ℓ} : {A : Type ℓ} → ℕ → Reader A → Reader (List A)
deserialize_n zero item = pure []
deserialize_n (suc n) item = do a ← item; as' ← deserialize_n n item; pure (a ∷ as')

-- `for i in self { i.serialize(dest)?; }`
unfoldable pub serialize_each {ℓ} : {A : Type ℓ} → (A → Writer) → List A → Writer
serialize_each item [] = ok []
serialize_each item (a ∷ as') = item a ⨾ serialize_each item as'

-- `FromPrimitive::from_i32` as derived: the variant with that discriminant.
unfoldable pub find_variant {ℓ} : {A : Type ℓ} → (A → ℕ) → List A → ℕ → Option A
find_variant discriminant [] n = none
find_variant discriminant (v ∷ vs) n =
    if discriminant v == n then some v else find_variant discriminant vs n

-- `<[u8]>::is_ascii`
unfoldable pub is_ascii : Bytes → Bool
is_ascii [] = true
is_ascii (b ∷ bs) = ltb b 128 && is_ascii bs

module _ ⦃order : ByteOrder⦄ where
  unfoldable pub u32 : Codec ℕ
  u32 = record {
    serialize = λ n. ok (order.write_u32 n);
    deserialize = (do bs ← read_exact 4; pure (order.read_u32 bs));
  }

  unfoldable pub u64 : Codec ℕ
  u64 = record {
    serialize = λ n. ok (order.write_u64 n);
    deserialize = (do bs ← read_exact 8; pure (order.read_u64 bs));
  }

  -- `bool`, written and read as an `i32`
  unfoldable pub bool : Codec Bool
  bool = record {
    serialize = λ b. u32.serialize (if b then 1 else 0);
    deserialize = (do
      n ← u32.deserialize
      if n == 0 then pure false else if n == 1 then pure true else fail invalid_data);
  }

  abbrev or_invalid {ℓ} : {A : Type ℓ} → Option A → Reader A
  or_invalid none = fail invalid_data
  or_invalid (some a) = pure a

  -- `SerializeEnum` and `DeserializeEnum`: an enumeration by its discriminants, as an `i32`
  unfoldable pub enum {ℓ} : {A : Type ℓ} → (A → ℕ) → List A → Codec A
  enum discriminant variants = record {
    serialize = λ a. u32.serialize (discriminant a);
    deserialize = (do n ← u32.deserialize; or_invalid (find_variant discriminant variants n));
  }

  -- `UsizeAsU32`; a `u32` always fits a `usize` of 32 bits or more
  unfoldable pub usize_as_u32 : Codec ℕ
  usize_as_u32 = record {
    serialize = λ n. if ltb n (2 ^ 32) then u32.serialize n else err invalid_data;
    deserialize = u32.deserialize;
  }

  -- `[u8; N]`
  unfoldable pub opaque : ℕ → Codec Bytes
  opaque n = record {
    serialize = λ bs. ok bs ⨾ write_padding n;
    deserialize = (do bs ← read_exact n; read_padding n; pure bs);
  }

  -- `[u8]` and `Vec<u8>`
  unfoldable pub vec_u8 : Codec Bytes
  vec_u8 = record {
    serialize = λ bs. usize_as_u32.serialize (length bs) ⨾ ok bs ⨾ write_padding (length bs);
    deserialize = (do n ← usize_as_u32.deserialize; bs ← read_exact n; read_padding n; pure bs);
  }

  -- `str` and `String`: the bytes, which must be ASCII when they are read
  unfoldable pub string : Codec Bytes
  string = record {
    serialize = vec_u8.serialize;
    deserialize = (do bs ← vec_u8.deserialize; if is_ascii bs then pure bs else fail invalid_data);
  }

  -- `[T; N]`
  unfoldable pub array {ℓ} : {A : Type ℓ} → ℕ → Codec A → Codec (List A)
  array n item = record {
    serialize = serialize_each item.serialize;
    deserialize = deserialize_n n item.deserialize;
  }

  -- `[T]` and `Vec<T>`
  unfoldable pub vec {ℓ} : {A : Type ℓ} → Codec A → Codec (List A)
  vec item = record {
    serialize = λ l. usize_as_u32.serialize (length l) ⨾ serialize_each item.serialize l;
    deserialize = (do n ← usize_as_u32.deserialize; deserialize_n n item.deserialize);
  }

  -- `Option<T>`
  abbrev serialize_option {ℓ} : {A : Type ℓ} → Codec A → Option A → Writer
  serialize_option item none = bool.serialize false
  serialize_option item (some a) = bool.serialize true ⨾ item.serialize a

  unfoldable pub option {ℓ} : {A : Type ℓ} → Codec A → Codec (Option A)
  option item = record {
    serialize = serialize_option item;
    deserialize = (do
      there ← bool.deserialize
      if there then (do a ← item.deserialize; pure (some a)) else pure none);
  }
