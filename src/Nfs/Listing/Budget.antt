-- ===== src/Nfs/Listing/Budget.antt =====
-- src/protocol/nfs/v3/readdir.rs and readdirplus.rs: which entries are written, and how long the
-- answer gets.
use nfs_mamont_mirror.Prelude.{
  ◌&&◌, ◌^◌, ◌-◌, ◌/◌, map, ltb, ltb→lt, if◌then◌else◌, ℕ, suc, ◌+◌, ◌<◌, ◌≤◌, ◌≡◌, ◌↔◌, ◌⊎◌, inl,
  inr, refl, Bool, true, false, List, [], ◌∷◌, ◌++◌, length, take, arith, length-append,
}
use nfs_mamont_mirror.Prelude.Result.{Result, ok, err, ◌>>=◌, >>=-eq-ok}
use nfs_mamont_mirror.Xdr.Reader.{Bytes, Error, Writer, ◌⨾◌}
use nfs_mamont_mirror.Rpc.Context.{Context}
use nfs_mamont_mirror.Vfs.{ReadDirSimpleResult, ReadDirResult, fh_to_id, readdir_simple}
use nfs_mamont_mirror.Xdr.Nfs3.Dir.{
  Readdir3Args, Readdirplus3Args, readdirplus3_args_codec, readdir3_args_codec,
}
use nfs_mamont_mirror.Nfs.{attributes}
use nfs_mamont_mirror.Nfs.Listing.{
  nfsproc3_readdir, nfsproc3_readdirplus, listing_header, simple_entry, write_entries,
  write_listing, max_bytes_allowed,
}
use nfs_mamont_mirror.Xdr.Order.{ByteOrder}
use nfs_mamont_mirror.Xdr.Basic.{bool, u32}

both : (a b : Bool) → (a && b) ≡ true → a ≡ true
both true b h = refl
both false b h = cc

-- All entries, one after the other.
abbrev pub all_entries : List (Writer × ℕ) → Writer
all_entries [] = ok []
all_entries ((encoded, added) ∷ entries) = encoded ⨾ all_entries entries

-- What is written is a prefix of the entries, of whole ones.
abbrev pub IsPrefix : List (Writer × ℕ) → Bytes → Bool → Type 0
IsPrefix entries bytes all =
    (k : ℕ) × (k ≤ length entries)
    × (all_entries (take k entries) ≡ ok bytes)
    × ((all ≡ true) ↔ (k ≡ length entries))

IsPrefix-cons :
    (encoded : Writer) (added : ℕ) (entries : List (Writer × ℕ)) (buf rest : Bytes) (all : Bool)
    → encoded ≡ ok buf
    → IsPrefix entries rest all
    → IsPrefix ((encoded, added) ∷ entries) (buf ++ rest) all
IsPrefix-cons encoded added entries buf rest all e (k, le, prefix, whole) = (
  suc k,
  omega arith,
  rw (e, prefix) refl,
  (λ h. omega (arith, whole.0 h), λ h. whole.1 (omega arith)),
)

IsPrefix-stop :
    (entry : Writer × ℕ) (entries : List (Writer × ℕ)) → IsPrefix (entry ∷ entries) [] false
IsPrefix-stop entry entries = (0, omega arith, refl, (λ h. cc, λ h. absurd (omega arith)))

-- One round of the loop: an entry that fits and those after it, or the end.
Continues : Bool → Result Error (Bytes × Bool) → Bytes → Bytes → Bool → Type 0
Continues fit tail buf bytes all =
    ((fit ≡ true) × (rest : Bytes) × (tail ≡ ok (rest, all)) × (bytes ≡ buf ++ rest))
    ⊎ ((bytes ≡ []) × (all ≡ false))

continues :
    (fit : Bool) (tail : Result Error (Bytes × Bool)) (buf : Bytes) {bytes : Bytes} {all : Bool}
    → (if fit
        then ◌>>=◌ {B = Bytes × Bool} tail (λ (rest, all'). ok (buf ++ rest, all'))
        else ok ([], false))
      ≡ ok (bytes, all)
    → Continues fit tail buf bytes all
unfolding Continues
continues true (ok (rest, all')) buf h = inl (refl, rest, cc, cc)
continues true (err e) buf h = cc
continues false tail buf h = inr (cc, cc)

module _ (fits : ℕ → ℕ → Bool) where
  -- Whatever the test of the budget is, the loop over the entries of a directory writes the first
  -- ones, whole, and tells that it has written all exactly if it has.
  pub write_entries_prefix :
      (entries : List (Writer × ℕ)) (written dircount : ℕ) {bytes : Bytes} {all : Bool}
      → write_entries fits written dircount entries ≡ ok (bytes, all)
      → IsPrefix entries bytes all
  unfolding write_entries Continues
  write_entries_prefix [] written dircount h = (0, omega arith, cc, (λ e. refl, λ e. cc))
  write_entries_prefix ((err e, added) ∷ entries) written dircount h = cc
  write_entries_prefix ((ok buf, added) ∷ entries) written dircount {bytes} {all} h =
      elim (continues _ _ buf h) [
        | inl (fit, rest, tail, same) ↦ rw same (
            IsPrefix-cons (ok buf) added entries buf rest all refl
              (write_entries_prefix entries (written + length buf) (dircount + added) tail))
        | inr (same, stop) ↦ rw (same, stop) (IsPrefix-stop (ok buf, added) entries)
      ]

  -- If the test of the budget keeps the total below `max`, then the entries written do so.
  write_entries_within :
      (max : ℕ) (entries : List (Writer × ℕ)) (written dircount : ℕ) {bytes : Bytes} {all : Bool}
      → ((b c : ℕ) → fits b c ≡ true → b < max)
      → write_entries fits written dircount entries ≡ ok (bytes, all)
      → (length bytes ≡ 0) ⊎ (written + length bytes < max)
  unfolding write_entries Continues
  write_entries_within max [] written dircount {bytes} f h =
      let e : bytes ≡ [] = cc in inl (rw e refl)
  write_entries_within max ((err e, added) ∷ entries) written dircount f h = cc
  write_entries_within max ((ok buf, added) ∷ entries) written dircount {bytes} {all} f h =
      elim (continues _ _ buf h) [
        | inl (fit, rest, tail, same) ↦
            let below = f _ _ fit in
            let total = length-append buf rest in
            elim (write_entries_within max entries (written + length buf) (dircount + added) f
              tail) [
                | inl none ↦ inr (rw same (omega arith))
                | inr within ↦ inr (rw same (omega arith))
              ]
        | inr (same, stop) ↦ inl (rw same refl)
      ]

module _ ⦃order : ByteOrder⦄ where
  -- The end of the list and the `eof` flag are two words.
  length-tail :
      (eof : Bool) (tail : Bytes)
      → (bool.serialize false ⨾ bool.serialize eof) ≡ ok tail
      → length tail ≡ 8
  unfolding bool u32
  length-tail eof tail h =
      let e : order.write_u32 0 ++ order.write_u32 (if eof then 1 else 0) ≡ tail = cc in
      rw⁻¹ e (
        omega (
          arith,
          length-append (order.write_u32 0) (order.write_u32 (if eof then 1 else 0)),
          order.length-write_u32 0,
          order.length-write_u32 (if eof then 1 else 0),
        ))

  -- If the test of the budget keeps the total below `max`, then an answer with a list is at most
  -- seven bytes longer than `max`, or it has no entry, only its header and two words.
  length-write_listing :
      (fits : ℕ → ℕ → Bool) (max : ℕ) (header : Writer) (head : Bytes) (entries : List (Writer × ℕ))
      (end : Bool) {out : Bytes}
      → ((b c : ℕ) → fits b c ≡ true → b < max)
      → header ≡ ok head
      → write_listing fits header entries end ≡ ok out
      → (length out ≡ length head + 8) ⊎ (length out < max + 8)
  unfolding write_listing
  length-write_listing fits max header head entries end {out} f e h =
      let ((bytes, all), listed, go) = >>=-eq-ok _ _ (rw e at h) in
      let (tail, ended, same) = >>=-eq-ok _ _ go in
      let total : head ++ (bytes ++ tail) ≡ out = cc in
      let a = length-append head (bytes ++ tail) in
      let b = length-append bytes tail in
      let c = length-tail _ tail ended in
      elim (write_entries_within fits max entries (length head) 0 f listed) [
        | inl none ↦ inl (rw⁻¹ total (omega arith))
        | inr within ↦ inr (rw⁻¹ total (omega arith))
      ]

module _ {ℓ} {S : Type ℓ} ⦃order : ByteOrder⦄ where
  -- If a READDIR with a count of at least 128 reaches a directory that the file system lists, then
  -- the whole answer has fewer bytes than the count, less 120, or it has no entry: only its
  -- header, the end of the list and the `eof` flag.
  pub length-nfsproc3_readdir :
      (xid : ℕ) (input rest : Bytes) (context : Context S) (s s' : S) (args : Readdir3Args)
      (dirid : ℕ) (result : ReadDirSimpleResult) (head : Bytes) {out : Bytes}
      → 128 ≤ args.dircount
      → args.dircount < 2 ^ 32
      → readdir3_args_codec.deserialize input ≡ ok (args, rest)
      → fh_to_id context.vfs args.dir ≡ ok dirid
      → readdir_simple context.vfs dirid args.cookie
          (args.dircount / 16)
          (attributes context.vfs dirid s).1
        ≡ (ok result, s')
      → listing_header xid (attributes context.vfs dirid s).0 ≡ ok head
      → (nfsproc3_readdir xid input context s).0 ≡ ok out
      → (length out ≡ length head + 8) ⊎ (length out < args.dircount - 120)
  unfolding nfsproc3_readdir
  length-nfsproc3_readdir xid input rest context s s' args dirid result head {out} lo hi a h l e o =
      let max = max_bytes_allowed args.dircount in
      let budget : max + 128 ≡ args.dircount = omega arith in
      let listed : write_listing (λ bytes count. ltb bytes max)
            (listing_header xid (attributes context.vfs dirid s).0)
            (map simple_entry result.entries) result.end
          ≡ ok out =
        simp (a, h, l) at o in
      elim (length-write_listing (λ bytes count. ltb bytes max) max _ head _ result.end
        (λ b c. ltb→lt b max) e listed) [ inl none ↦ inl none | inr within ↦ inr (omega arith) ]

  -- If a READDIRPLUS with a maximal count of at least 128 reaches a directory that the file system
  -- lists, then the whole answer has fewer bytes than that count, less 120, or it has no entry:
  -- only its header, the end of the list and the `eof` flag.
  pub length-nfsproc3_readdirplus :
      (xid : ℕ) (input rest : Bytes) (context : Context S) (s s' : S) (args : Readdirplus3Args)
      (dirid : ℕ) (result : ReadDirResult) (head : Bytes) {out : Bytes}
      → 128 ≤ args.maxcount
      → args.maxcount < 2 ^ 32
      → readdirplus3_args_codec.deserialize input ≡ ok (args, rest)
      → fh_to_id context.vfs args.dir ≡ ok dirid
      → context.vfs.readdir dirid args.cookie
          (args.dircount / 16)
          (attributes context.vfs dirid s).1
        ≡ (ok result, s')
      → listing_header xid (attributes context.vfs dirid s).0 ≡ ok head
      → (nfsproc3_readdirplus xid input context s).0 ≡ ok out
      → (length out ≡ length head + 8) ⊎ (length out < args.maxcount - 120)
  unfolding nfsproc3_readdirplus
  length-nfsproc3_readdirplus xid input rest context s s' args dirid result head lo hi a h l e o =
      let max = max_bytes_allowed args.maxcount in
      let budget : max + 128 ≡ args.maxcount = omega arith in
      let fits : ℕ → ℕ → Bool = λ bytes count. ltb bytes max && ltb count args.dircount in
      let below : (b c : ℕ) → fits b c ≡ true → b < max = λ b c t. ltb→lt b max (both _ _ t) in
      elim (length-write_listing fits max _ head _ result.end below e (simp (a, h, l) at o)) [
        | inl none ↦ inl none
        | inr within ↦ inr (omega arith)
      ]
