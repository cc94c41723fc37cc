-- ===== src/Xdr/Reader.antt =====
-- `std::io::Read` over a buffer, the errors of the wire code, and the traits of
-- src/protocol/xdr/mod.rs. A byte string is a list of numbers below 256.
use nfs_mamont_mirror.Prelude.{ℕ, zero, suc, ◌<◌, ◌≡◌, refl, List, [], ◌∷◌, ◌++◌, length, arith}
use nfs_mamont_mirror.Prelude.Result
use nfs_mamont_mirror.Prelude.Result.{Result, ok, err}

abbrev pub Bytes : Type 0
Bytes = List ℕ

abbrev pub IsByte : ℕ → Type 0
IsByte b = b < 256

-- `io::ErrorKind::UnexpectedEof` and `InvalidData`, and the messages made by `anyhow!`.
pub data Error : Type 0 where
  unexpected_eof invalid_data nfsv4_not_implemented bad_call_format queue_closed : Error

-- A read takes its bytes off the front of the input, and hands on what is left.
abbrev pub Reader {ℓ} : Type ℓ → Type ℓ
Reader A = Bytes → Result Error (A × Bytes)

abbrev pub pure {ℓ} : {A : Type ℓ} → A → Reader A
pure a src = ok (a, src)

abbrev pub fail {ℓ} : {A : Type ℓ} → Error → Reader A
fail e src = err e

module _ {ℓ κ} {A : Type ℓ} {B : Type κ} where
  infixl 5 ◌>>=◌ ◌>>◌
  abbrev pub ◌>>=◌ : Reader A → (A → Reader B) → Reader B
  ◌>>=◌ p f src = Result.◌>>=◌ (p src) λ (a, rest). f a rest

  abbrev pub ◌>>◌ : Reader A → Reader B → Reader B
  p >> q = p >>= λ _. q

-- `Read::read_exact` into a buffer of `n` bytes.
unfoldable pub read_exact : ℕ → Reader Bytes
read_exact zero src = ok ([], src)
read_exact (suc n) [] = err unexpected_eof
read_exact (suc n) (b ∷ src) = Result.◌>>=◌ (read_exact n src) λ (bs, rest). ok (b ∷ bs, rest)

pub read_exact-append : (bs rest : Bytes) → read_exact (length bs) (bs ++ rest) ≡ ok (bs, rest)
unfolding read_exact
read_exact-append [] rest = refl
read_exact-append (b ∷ bs) rest = rw (read_exact-append bs rest)

-- What is read and what is left make up the input.
pub read_exact_parts :
    (n : ℕ) (src : Bytes) {bs rest : Bytes}
    → read_exact n src ≡ ok (bs, rest)
    → (src ≡ bs ++ rest) × (length bs ≡ n)
unfolding read_exact
read_exact_parts zero src h = ground arith
read_exact_parts (suc n) [] h = cc
read_exact_parts (suc n) (b ∷ src) {bs} {rest} h =
    let ((bs', rest'), read, same) = Result.>>=-eq-ok (read_exact n src) _ h in
    let (e, k) = read_exact_parts n src read in ground arith

-- What a writer appends to a growable buffer; `write_all` to it never fails.
abbrev pub Writer : Type 0
Writer = Result Error Bytes

-- `a?; b`: one write after the other.
infixr 6 ◌⨾◌
abbrev pub ◌⨾◌ : Writer → Writer → Writer
v ⨾ w = Result.◌>>=◌ v λ a. Result.◌>>=◌ w λ b. ok (a ++ b)

-- The traits `Serialize` and `Deserialize` of one type.
pub record Codec {ℓ} (A : Type ℓ) : Type ℓ where
  pub serialize : A → Writer
  pub deserialize : Reader A

-- A write that cannot fail.
abbrev pub Writes : Writer → Type 0
Writes w = (bs : Bytes) × (w ≡ ok bs)

pub Writes-then : {v w : Writer} → Writes v → Writes w → Writes (v ⨾ w)
Writes-then (a, e) (b, f) = (a ++ b, rw (e, f))
