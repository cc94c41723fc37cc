-- ===== src/Vfs/Path.antt =====
-- src/vfs.rs: `path_to_id` follows the names of a path.
use nfs_mamont_mirror.Prelude.{
  fun_ext, append-nil, ap, ℕ, ◌≡◌, ◌≢◌, refl, List, [], ◌∷◌, ◌++◌, All, arith,
}
use nfs_mamont_mirror.Prelude.Result.{ok}
use nfs_mamont_mirror.Xdr.Reader.{Bytes}
use nfs_mamont_mirror.Vfs.{NfsFileSystem, Call, split, slash, and_then, walk, path_to_id}

-- A name that can stand in a path: it is not empty and holds no slash.
abbrev pub IsName : Bytes → Type 0
IsName name = (name ≢ []) × All (λ b. b ≢ slash) name

-- The names of a path, each one after a slash.
unfoldable pub path_of : List Bytes → Bytes
path_of [] = []
path_of (name ∷ names) = slash ∷ (name ++ path_of names)

-- The file that the names lead to, from the directory `fid` on.
unfoldable pub follow {ℓ} : {S : Type ℓ} → NfsFileSystem S → List Bytes → ℕ → Call S ℕ
follow self [] fid s = (ok fid, s)
follow self (name ∷ names) fid s = and_then (self.lookup fid name) (follow self names) s

split-slash : (bs : Bytes) → split slash (slash ∷ bs) ≡ [] ∷ split slash bs
unfolding split
split-slash bs = refl

split-name :
    (name rest : Bytes)
    → All (λ b. b ≢ slash) name
    → split slash (name ++ slash ∷ rest) ≡ name ∷ split slash rest
unfolding split
split-name [] rest h = refl
split-name (b ∷ bs) rest h = rw (split-name bs rest h.1) (let ne = h.0 in ground arith)

split-name_alone : (name : Bytes) → All (λ b. b ≢ slash) name → split slash name ≡ name ∷ []
unfolding split
split-name_alone [] h = refl
split-name_alone (b ∷ bs) h = rw (split-name_alone bs h.1) (let ne = h.0 in ground arith)

split_names :
    (name : Bytes) (names : List Bytes)
    → IsName name
    → All IsName names
    → split slash (name ++ path_of names) ≡ name ∷ names
unfolding path_of
split_names name [] h hs = rw append-nil (split-name_alone name h.1)
split_names name (next ∷ names) h hs =
    rw (split-name name (next ++ path_of names) h.1)
      (ap (◌∷◌ name) (split_names next names hs.0 hs.1))

split-path_of : (names : List Bytes) → All IsName names → split slash (path_of names) ≡ [] ∷ names
unfolding path_of split
split-path_of [] h = refl
split-path_of (name ∷ names) h = ap (◌∷◌ []) (split_names name names h.0 h.1)

module _ {ℓ} {S : Type ℓ} (self : NfsFileSystem S) where
  walk-follow :
      (names : List Bytes) (fid : ℕ)
      → All IsName names
      → (s : S) → walk self names fid s ≡ follow self names fid s
  unfolding walk follow
  walk-follow [] fid h s = refl
  walk-follow ([] ∷ names) fid h s = absurd (h.0.0 refl)
  walk-follow ((b ∷ bs) ∷ names) fid h s =
      let e : walk self names ≡ follow self names =
        fun_ext λ f. fun_ext λ t. walk-follow names f h.1 t in
      rw e

  -- The path of some names, each one not empty and free of slashes, leads from the root to the
  -- file that looking up one name after the other finds, or to the first error of these lookups.
  pub path_to_id-path_of :
      (names : List Bytes)
      → All IsName names
      → (s : S) → path_to_id self (path_of names) s ≡ follow self names self.root_dir s
  unfolding path_to_id walk
  path_to_id-path_of names h s = rw (split-path_of names h) (walk-follow names self.root_dir h s)
