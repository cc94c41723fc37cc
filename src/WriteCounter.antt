-- ===== src/WriteCounter.antt =====
-- src/write_counter.rs: a writer that counts what is written through it. `std::io::Write` is a
-- record of its calls, on a writer `W` with errors `E`. A `usize` has 64 bits and wraps around, as
-- in a release build.
use nfs_mamont_mirror.Prelude.{
  ℕ, ◌+◌, ◌%◌, ◌^◌, ◌<◌, ◌≡◌, refl, ap, ◌∙◌, List, [], ◌∷◌, ◌++◌, length, length-append, arith,
}
use nfs_mamont_mirror.Prelude.Result.{Result, ok, err}
use nfs_mamont_mirror.Xdr.Reader.{Bytes}

pub record Write {ℓ} (E : Type 0) (W : Type ℓ) : Type ℓ where
  pub write : Bytes → W → Result E ℕ × W
  pub flush : W → Result E (Unit {0}) × W

pub record WriteCounter {ℓ} (W : Type ℓ) : Type ℓ where
  pub inner : W
  pub count : ℕ

-- `self.count += size`
abbrev pub counted : {E : Type 0} → Result E ℕ → ℕ → ℕ
counted (ok size) count = (count + size) % 2 ^ 64
counted (err e) count = count

module _ {ℓ} {W : Type ℓ} where
  abbrev pub new : W → WriteCounter W
  new inner = record { inner = inner; count = 0 }

  abbrev pub into_inner : WriteCounter W → W
  into_inner self = self.inner

  abbrev pub bytes_written : WriteCounter W → ℕ
  bytes_written self = self.count

module _ {ℓ} {E : Type 0} {W : Type ℓ} where
  -- `impl Write for WriteCounter`
  unfoldable pub counting : Write E W → Write E (WriteCounter W)
  counting out = record {
    write = λ buf self.
        let (res, inner) = out.write buf self.inner in
        (res, record { inner = inner; count = counted res self.count });
    flush = λ self. let (res, inner) = out.flush self.inner in (res, record self { inner = inner });
  }

  -- What some writes in turn return, and what they leave.
  abbrev pub write_each : Write E W → List Bytes → W → List (Result E ℕ) × W
  write_each out [] w = ([], w)
  write_each out (buf ∷ bufs) w =
      let (res, w') = out.write buf w in
      let (more, last) = write_each out bufs w' in (res ∷ more, last)

-- The bytes that were taken.
abbrev pub taken : {E : Type 0} → List (Result E ℕ) → ℕ
taken [] = 0
taken (ok size ∷ results) = size + taken results
taken (err e ∷ results) = taken results

module _ {E : Type 0} where
  counted_then :
      (res : Result E ℕ) (results : List (Result E ℕ)) (count : ℕ)
      → (counted res count + taken results) % 2 ^ 64 ≡ (count + taken (res ∷ results)) % 2 ^ 64
  counted_then (ok size) results count = omega arith
  counted_then (err e) results count = refl

module _ {ℓ} {E : Type 0} {W : Type ℓ} where
  -- Whatever the writer is: writes through a counter return what the same writes return without
  -- it and leave the writer as they do, and the count grows by the bytes that were taken, modulo
  -- 2 ^ 64, where failed writes add nothing.
  pub counting-write_each :
      (out : Write E W) (bufs : List Bytes) (self : WriteCounter W)
      → self.count < 2 ^ 64
      → let (results, last) = write_each (counting out) bufs self in
        (results ≡ (write_each out bufs self.inner).0)
        × (into_inner last ≡ (write_each out bufs self.inner).1)
        × (bytes_written last ≡ (self.count + taken results) % 2 ^ 64)
  unfolding counting
  counting-write_each out [] self h = (refl, refl, omega arith)
  counting-write_each out (buf ∷ bufs) self h =
      let (res, inner) = out.write buf self.inner in
      let next : WriteCounter W = record { inner = inner; count = counted res self.count } in
      let (same, kept, grown) = counting-write_each out bufs next (small res self.count h) in
      (ap (λ r. res ∷ r) same, kept, grown ∙ counted_then res _ self.count)
    where
      small : (res : Result E ℕ) (count : ℕ) → count < 2 ^ 64 → counted res count < 2 ^ 64
      small (ok size) count h = omega arith
      small (err e) count h = h

-- `impl Write for Vec<u8>`, which takes all
abbrev pub vec_writer : {E : Type 0} → Write E Bytes
vec_writer = record { write = λ buf w. (ok (length buf), w ++ buf); flush = λ w. (ok tt, w) }

length-write_each :
    (E : Type 0) (bufs : List Bytes) (w : Bytes)
    → length (write_each (vec_writer {E = E}) bufs w).1
      ≡ length w + taken (write_each (vec_writer {E = E}) bufs w).0
length-write_each E [] w = omega arith
length-write_each E (buf ∷ bufs) w =
    omega (arith, length-write_each E bufs (w ++ buf), length-append w buf)

-- Over a new buffer, the count is the number of bytes that are in it.
pub bytes_written-vec :
    (E : Type 0) (bufs : List Bytes)
    → let self = (write_each (counting (vec_writer {E = E})) bufs (new [])).1 in
      bytes_written self ≡ length (into_inner self) % 2 ^ 64
bytes_written-vec E bufs =
    let (same, kept, grown) =
      counting-write_each (vec_writer {E = E}) bufs (new []) (omega arith) in
    omega (arith, grown, length-write_each E bufs [], ap length kept, ap taken same)
