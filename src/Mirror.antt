-- ===== src/Mirror.antt =====
-- examples/mirror_fs: fs_entry.rs, error_handling.rs and the state of fs_map.rs. The state of a call is the
-- world of the operating system, which FsUtil has as a parameter, and the map. The table that
-- stands for the crate intaglio is a parameter as well.
pub mod Map
pub mod Calls
pub mod Changes
pub mod Consistent
pub mod Renaming
pub mod Symlinks
pub mod Keeping
pub mod Session
use mathlib.Core.Option
use nfs_mamont_mirror.Prelude.{
  ◌%◌, ◌^◌, ℕ, zero, suc, ◌+◌, ◌&&◌, ◌==◌, ==_iff, ltb, ◌≡◌, ◌↔◌, refl, Bool, true, false, not,
  Option, none, some, List, [], ◌∷◌, ◌++◌, if◌then◌else◌, arith,
}
use nfs_mamont_mirror.Prelude.Result.{Result}
use nfs_mamont_mirror.Prelude.Table.{Eq, lookup, insert, remove}
use nfs_mamont_mirror.Xdr.Reader.{Bytes}
use nfs_mamont_mirror.Xdr.Nfs3.{Fattr3}
use nfs_mamont_mirror.Xdr.Nfs3.Enums.{
  Ftype3, nf3_dir, ftype3_number, NfsStat3, nfs3err_noent, nfs3err_io,
}
use nfs_mamont_mirror.Rpc.Tracker.{same_bytes, same_bytes_iff}
use nfs_mamont_mirror.FsUtil.{
  Metadata, FileType, is_symlink, PathBuf, DirItem, failed, named, Io, Os, fattr3_differ,
  metadata_to_fattr3,
}

instance abbrev pub fileid_eq : Eq ℕ
fileid_eq = record { beq = ◌==◌; beq_iff = ==_iff }

-- A path is a list of symbols.
instance abbrev pub symbols_eq : Eq (List ℕ)
symbols_eq = record { beq = same_bytes; beq_iff = same_bytes_iff }

-- `BTreeSet`, in ascending order
abbrev pub BTreeSet : Type 0
BTreeSet = List ℕ

unfoldable pub set_insert : ℕ → BTreeSet → BTreeSet
set_insert x [] = x ∷ []
set_insert x (y ∷ set) =
    let rest = set_insert x set in
    if ltb x y then x ∷ y ∷ set else if x == y then y ∷ set else y ∷ rest

unfoldable pub set_remove : ℕ → BTreeSet → BTreeSet
set_remove x [] = []
set_remove x (y ∷ set) = let rest = set_remove x set in if x == y then rest else y ∷ rest

-- `BTreeSet::from_iter`
unfoldable pub set_from : List ℕ → BTreeSet
set_from [] = []
set_from (x ∷ xs) = set_insert x (set_from xs)

pub record FsEntry : Type 0 where
  pub name : List ℕ
  pub fsmeta : Fattr3
  pub children_meta : Fattr3
  pub children : Option BTreeSet

abbrev pub new_entry : List ℕ → Fattr3 → FsEntry
new_entry name fsmeta = record {
  name = name;
  fsmeta = fsmeta;
  children_meta = fsmeta;
  children = none;
}

abbrev pub is_dir_type : Ftype3 → Bool
is_dir_type nf3_dir = true
is_dir_type _ = false

abbrev pub is_directory : FsEntry → Bool
is_directory self = is_dir_type self.fsmeta.ftype

abbrev pub has : Option BTreeSet → Bool
has none = false
has (some set) = true

pub data RefreshResult : Type 0 where
  refresh_delete refresh_reload refresh_noop : RefreshResult

-- intaglio's `SymbolTable`; `intern` fails when the table is full.
pub record SymbolTable (T : Type 0) : Type 0 where
  pub empty : T
  pub intern : Bytes → T → Option ℕ × T
  pub check_interned : Bytes → T → Option ℕ
  pub symbol : ℕ → T → Option Bytes

pub record FsMap (T : Type 0) : Type 0 where
  pub root : Bytes
  pub next_fileid : ℕ
  pub interned : T
  pub id_to_path : List (ℕ × FsEntry)
  pub path_to_id : List (List ℕ × ℕ)

-- How a call ends.
pub data Outcome (A : Type 0) : Type 0 where
  ok : A → Outcome A
  err : NfsStat3 → Outcome A
  panic : Outcome A

abbrev pub Action : Type 0 → Type 0 → Type 0
Action S A = S → Outcome A × S

-- The world, and the map that the mutex guards.
abbrev pub State : Type 0 → Type 0 → Type 0
State W T = W × FsMap T

module _ {S A B : Type 0} where
  abbrev pub and_then : Outcome A × S → (A → Action S B) → Outcome B × S
  and_then (ok a, s) next = next a s
  and_then (err e, s) next = (err e, s)
  and_then (panic, s) next = (panic, s)

  infixl 5 ◌>>=◌ ◌>>◌
  abbrev pub ◌>>=◌ : Action S A → (A → Action S B) → Action S B
  ◌>>=◌ first next s = and_then (first s) next

  abbrev pub ◌>>◌ : Action S A → Action S B → Action S B
  first >> next = first >>= λ _. next

module _ {S : Type 0} where
  abbrev pub require : Bool → NfsStat3 → Action S (Unit {0})
  require true e s = (ok tt, s)
  require false e s = (err e, s)

module _ {S A : Type 0} where
  abbrev pub pure : A → Action S A
  pure a s = (ok a, s)

  abbrev pub fail : NfsStat3 → Action S A
  fail e s = (err e, s)

  abbrev pub ok_or : NfsStat3 → Option A → Action S A
  ok_or e none s = (err e, s)
  ok_or e (some a) s = (ok a, s)

  abbrev pub unwrap : Option A → Action S A
  unwrap none s = (panic, s)
  unwrap (some a) s = (ok a, s)

  -- `let _ = call.await;`
  abbrev pub ignored : Outcome A × S → Outcome (Unit {0}) × S
  ignored (ok a, s) = (ok tt, s)
  ignored (err e, s) = (ok tt, s)
  ignored (panic, s) = (panic, s)

  abbrev pub ignore : Action S A → Action S (Unit {0})
  ignore call s = ignored (call s)

module _ {W T A : Type 0} where
  -- A call of the operating system, with its answer.
  abbrev pub try_io : Io W A → Action (State W T) (Option A)
  try_io call s = (ok (call s.0).0, ((call s.0).1, s.1))

  -- `call.map_err(|_| e)?`
  abbrev pub io : NfsStat3 → Io W A → Action (State W T) A
  io e call s = ok_or e (call s.0).0 ((call s.0).1, s.1)

module _ {W T : Type 0} where
  abbrev pub change : (FsMap T → FsMap T) → Action (State W T) (Unit {0})
  change f s = (ok tt, (s.0, f s.1))

  -- `fsmap.find_entry(id)?`
  unfoldable pub find_entry : ℕ → Action (State W T) FsEntry
  find_entry id s = ok_or nfs3err_noent (lookup id s.1.id_to_path) s
