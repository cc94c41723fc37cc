-- ===== src/Vfs/Handle.antt =====
-- src/vfs.rs: `id_to_fh` and `fh_to_id`, the file handles of NFS.
use nfs_mamont_mirror.Prelude.{
  ℕ, zero, suc, [], ◌∷◌, take_all, length-take, length-drop, ◌<◌, ◌≡◌, ◌↔◌, refl, ap, ◌∙◌,
  Bool-cases, take, drop, length, ◌++◌, All, ◌==◌, arith, sym, take-append, drop-append,
  take-append-drop, length-append, inl, inr,
}
use nfs_mamont_mirror.Prelude.Result.{ok, err}
use nfs_mamont_mirror.Prelude.Endian.{
  to_le_bytes, from_le_bytes, from_le_bytes_lt, length-to_le_bytes, to_le_bytes-from_le_bytes,
  from_le_bytes-to_le_bytes,
}
use nfs_mamont_mirror.Xdr.Reader.{Bytes, IsByte}
use nfs_mamont_mirror.Xdr.Nfs3.{NfsFh3}
use nfs_mamont_mirror.Xdr.Nfs3.RoundTrip.{IsU64}
use nfs_mamont_mirror.Vfs.{
  NfsFileSystem, check_generation, id_to_fh, fh_to_id, nfs3err_stale, nfs3err_badhandle,
}

-- A handle of 16 bytes, the word of a generation and that of an identifier.
unfoldable pub handle : ℕ → ℕ → NfsFh3
handle gen id = record { bytes = to_le_bytes 8 gen ++ to_le_bytes 8 id }

All-take : (n : ℕ) (bs : Bytes) → All IsByte bs → All IsByte (take n bs)
All-take zero bs h = tt
All-take (suc n) [] h = tt
All-take (suc n) (b ∷ bs) h = (h.0, All-take n bs h.1)

All-drop : (n : ℕ) (bs : Bytes) → All IsByte bs → All IsByte (drop n bs)
All-drop zero bs h = h
All-drop (suc n) [] h = tt
All-drop (suc n) (b ∷ bs) h = All-drop n bs h.1

-- The words of a handle: 16 bytes are two of them.
is_handle :
    (bs : Bytes)
    → length bs ≡ 16
    → All IsByte bs
    → (IsU64 (from_le_bytes (take 8 bs)) × IsU64 (from_le_bytes (take 8 (drop 8 bs))))
      × (bs ≡ (handle (from_le_bytes (take 8 bs)) (from_le_bytes (take 8 (drop 8 bs)))).bytes)
unfolding handle
is_handle bs n h =
    let first = take 8 bs in
    let second = take 8 (drop 8 bs) in
    let whole = take_all 8 (drop 8 bs) (omega (arith, length-drop 8 bs)) in
    let m : length first ≡ 8 = omega (arith, length-take 8 bs) in
    let k : length second ≡ 8 = omega (arith, length-take 8 (drop 8 bs), length-drop 8 bs) in
    let hf = All-take 8 bs h in
    let hs = All-take 8 (drop 8 bs) (All-drop 8 bs h) in
    let f_lt = rw m at (from_le_bytes_lt first hf) in
    let s_lt = rw k at (from_le_bytes_lt second hs) in
    let f_eq = rw m at (to_le_bytes-from_le_bytes first hf) in
    let s_eq = rw k at (to_le_bytes-from_le_bytes second hs) in
    ((omega arith, omega arith), rw (f_eq, s_eq, whole) (sym (take-append-drop 8 bs)))

fh_to_id-handle {ℓ} :
    {S : Type ℓ} (self : NfsFileSystem S) (gen id : ℕ)
    → IsU64 gen
    → IsU64 id
    → fh_to_id self (handle gen id) ≡ check_generation gen self.generation id
unfolding fh_to_id handle
fh_to_id-handle self gen id h k =
    let n = length-to_le_bytes 8 gen in
    let m = length-to_le_bytes 8 id in
    let t = rw n at (take-append (to_le_bytes 8 gen) (to_le_bytes 8 id)) in
    let d = rw n at (drop-append (to_le_bytes 8 gen) (to_le_bytes 8 id)) in
    let w = take_all 8 (to_le_bytes 8 id) (omega arith) in
    let sixteen : length (to_le_bytes 8 gen ++ to_le_bytes 8 id) ≡ 16 =
      omega (arith, length-append (to_le_bytes 8 gen) (to_le_bytes 8 id)) in
    rw (sixteen, t, d, w, from_le_bytes-to_le_bytes 8 gen h, from_le_bytes-to_le_bytes 8 id k)

check_generation_iff :
    (gen gennum id id' : ℕ)
    → (check_generation gen gennum id ≡ ok id') ↔ ((gen ≡ gennum) × (id ≡ id'))
check_generation_iff gen gennum id id' = ground arith

module _ {ℓ} {S : Type ℓ} (self : NfsFileSystem S) where
  pub fh_to_id-id_to_fh :
      (id : ℕ) → IsU64 self.generation → IsU64 id → fh_to_id self (id_to_fh self id) ≡ ok id
  unfolding id_to_fh handle
  fh_to_id-id_to_fh id g k =
      fh_to_id-handle self self.generation id g k
      ∙ (check_generation_iff self.generation self.generation id id).1 (refl, refl)

  accepted :
      (fh : NfsFh3) (id : ℕ)
      → All IsByte fh.bytes
      → fh_to_id self fh ≡ ok id
      → IsU64 id × (fh ≡ id_to_fh self id)
  unfolding fh_to_id id_to_fh handle
  accepted fh id h e = elim (Bool-cases (length fh.bytes == 16)) [
    | inl n ↦
        let (gen, same) = (check_generation_iff _ self.generation _ id).0 (rw n at e) in
        let ((f, s), whole) = is_handle fh.bytes (ground arith) h in
        (rw same at s, ap (λ bs. record { bytes = bs }) (rw (gen, same) at whole))
    | inr n ↦ absurd (ground arith)
  ]

  -- If the generation of the server is a 64-bit number, then a handle made of bytes gives an
  -- identifier exactly when it is the handle that this server makes for it, and the identifier
  -- is then a 64-bit number.
  pub fh_to_id_iff :
      (fh : NfsFh3) (id : ℕ)
      → IsU64 self.generation
      → All IsByte fh.bytes
      → (fh_to_id self fh ≡ ok id) ↔ (IsU64 id × (fh ≡ id_to_fh self id))
  fh_to_id_iff fh id g h = (accepted fh id h, λ (k, e). rw e (fh_to_id-id_to_fh id g k))

  -- A handle that a server of another 64-bit generation made for a 64-bit identifier is stale if
  -- that generation was an earlier one, and no good handle if it is a later one.
  pub fh_to_id-id_to_fh_other :
      (other : NfsFileSystem S) (id : ℕ)
      → IsU64 other.generation
      → IsU64 id
      → (other.generation < self.generation → fh_to_id self (id_to_fh other id) ≡ err nfs3err_stale)
        × (self.generation < other.generation
            → fh_to_id self (id_to_fh other id) ≡ err nfs3err_badhandle)
  unfolding id_to_fh handle
  fh_to_id-id_to_fh_other other id g h =
      let e = fh_to_id-handle self other.generation id g h in
      (λ lt. e ∙ ground arith, λ lt. e ∙ ground arith)
