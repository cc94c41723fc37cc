-- ===== src/Demo/Invariant/Moves.antt =====
-- examples/demo_fs/fs.rs: REMOVE and RENAME leave valid entries behind.
use nfs_mamont_mirror.Prelude.{
  none, some, ◌==◌, ℕ, ◌≡◌, ◌≤◌, refl, List, [], ◌∷◌, get_elem?, modify, get_elem?-modify, arith,
  Bool-cases, inl, inr, count, Option, ==_iff,
}
use nfs_mamont_mirror.Xdr.Reader.{Bytes}
use nfs_mamont_mirror.Xdr.Nfs3.Enums.{nfs3err_noent}
use nfs_mamont_mirror.Demo.{
  ◌>>◌, assign, FsEntry, FsContents, file, directory, DemoFs, Action, and_then,
}
use nfs_mamont_mirror.Demo.Names.{find_named}
use nfs_mamont_mirror.Demo.Moves.{
  remove_child, find_in, not_directory, remove, rename, drop_old, move_between, with_name,
}
use nfs_mamont_mirror.Demo.Invariant.{IsValid, Quiet, child_of, Quiet-IsValid}
use nfs_mamont_mirror.Demo.Invariant.Lists.{drop-IsValid}
use nfs_mamont_mirror.Demo.Invariant.Moved.{cleared-IsValid, moved-IsValid}
use nfs_mamont_mirror.Demo.Invariant.Rules.{
  lock_then, get_then, index_then, ok_or_then, directory_then,
}
use nfs_mamont_mirror.Demo.Tree.{children, listed}

find_in_then :
    {B : Type 0} (s : DemoFs) (v : IsValid s) (name : Bytes) (c : FsContents) (k : ℕ → Action B)
    → ((dir : List ℕ) (id : ℕ)
        → c ≡ directory dir
        → find_named s.fs name dir ≡ some id
        → IsValid (k id s).1)
    → IsValid (and_then (find_in name c s) k).1
find_in_then s v name (file b) k next = v
find_in_then s v name (directory dir) k next =
    ok_or_then s v nfs3err_noent (find_named s.fs name dir) k λ id h. next dir id refl h

not_directory_then :
    {B : Type 0} (s : DemoFs) (v : IsValid s) (c : FsContents) (k : Unit {0} → Action B)
    → ((b : ℕ) → c ≡ file b → IsValid (k tt s).1)
    → IsValid (and_then (not_directory c s) k).1
not_directory_then s v (file b) k next = next b refl
not_directory_then s v (directory dir) k next = v

-- An entry that holds a block still does once the list of a directory has changed.
pub still_file :
    (k n id b : ℕ) (fs : List FsEntry) (e : FsEntry)
    → get_elem? fs id ≡ some e
    → e.contents ≡ file b
    → (e' : FsEntry) × (get_elem? (modify k (remove_child n) fs) id ≡ some e')
      × (e'.contents ≡ file b)
still_file k n id b fs e h c = elim (Bool-cases (k == id)) [
  | inl t ↦ (remove_child n e, rw (get_elem?-modify, t, h) refl, rw c refl)
  | inr f ↦ (e, rw (get_elem?-modify, f) h, c)
]

pub remove-IsValid :
    (dirid : ℕ) (filename : Bytes) (s : DemoFs) → IsValid s → IsValid (remove dirid filename s).1
unfolding remove
remove-IsValid dirid filename s v = lock_then s v _ (
    get_then s v dirid _ λ dir_entry there.
      find_in_then s v filename dir_entry.contents _ λ dir id is_dir found.
        index_then s v id _ λ removed here. not_directory_then s v removed.contents _ λ b is_file.
          let (e', h, c) = still_file dirid id id b s.fs removed here is_file in
          cleared-IsValid (record s { fs = modify dirid (remove_child id) s.fs }) id e' b h c
            (drop-IsValid dirid id s v))

-- What is found is in the list.
pub find_named-count :
    (fs : List FsEntry) (name : Bytes) (dir : List ℕ) (id : ℕ)
    → find_named fs name dir ≡ some id
    → 1 ≤ count id dir
unfolding find_named
find_named-count fs name [] id h = cc
find_named-count fs name (i ∷ dir) id h = let rest = find_named-count fs name dir id in ground arith

parent_there :
    (d : ℕ) (o : Option FsEntry) → 1 ≤ child_of d o → (e : FsEntry) × (o ≡ some e) × (e.parent ≡ d)
parent_there d none h = absurd (omega (arith, h))
parent_there d (some e) h = elim (Bool-cases (e.parent == d)) [
  | inl t ↦ (e, refl, (==_iff e.parent d).0 t)
  | inr f ↦ absurd (omega (arith, rw f at h))
]

pub found_parent :
    (s : DemoFs) (from id : ℕ) (entry : FsEntry) (name : Bytes) (dir : List ℕ)
    → IsValid s
    → get_elem? s.fs from ≡ some entry
    → entry.contents ≡ directory dir
    → find_named s.fs name dir ≡ some id
    → (e : FsEntry) × (get_elem? s.fs id ≡ some e) × (e.parent ≡ from)
unfolding children
found_parent s from id entry name dir v there is_dir found =
    let once = v.once from id in
    let here = find_named-count s.fs name dir id found in
    let lists : count id (listed (get_elem? s.fs from)) ≡ count id dir = rw (there, is_dir) refl in
    parent_there from (get_elem? s.fs id) (omega arith)

-- The entry that is moved, once the target's list has changed.
same_parent_there :
    (k n id d : ℕ) (fs : List FsEntry) (e : FsEntry)
    → get_elem? fs id ≡ some e
    → e.parent ≡ d
    → (e' : FsEntry) × (get_elem? (modify k (remove_child n) fs) id ≡ some e') × (e'.parent ≡ d)
same_parent_there k n id d fs e h p = elim (Bool-cases (k == id)) [
  | inl t ↦ (remove_child n e, rw (get_elem?-modify, t, h) refl, p)
  | inr f ↦ (e, rw (get_elem?-modify, f) h, p)
]

moved_then :
    (s : DemoFs) (v : IsValid s) (from to id : ℕ) (name : Bytes) (e : FsEntry)
    → get_elem? s.fs id ≡ some e
    → e.parent ≡ from
    → IsValid (and_then (move_between from to id s) (λ u. assign id (with_name name))).1
unfolding Quiet
moved_then s v from to id name e h p = elim (Bool-cases (from == to)) [
  | inl same ↦ rw same (Quiet-IsValid id (with_name name) s (λ x. (refl, refl)) v)
  | inr other ↦ rw other (
      Quiet-IsValid id (with_name name) _ (λ x. (refl, refl))
        (moved-IsValid s from to id e other h p v))
]

replaced_then :
    (s : DemoFs) (v : IsValid s) (from to id : ℕ) (name : Bytes) (old : Option ℕ) (e : FsEntry)
    → get_elem? s.fs id ≡ some e
    → e.parent ≡ from
    → IsValid
        (and_then (drop_old to old s) λ u. move_between from to id >> assign id (with_name name)).1
replaced_then s v from to id name none e h p = moved_then s v from to id name e h p
replaced_then s v from to id name (some n) e h p =
    let (e', h', p') = same_parent_there to n id from s.fs e h p in
    moved_then (record s { fs = modify to (remove_child n) s.fs }) (drop-IsValid to n s v) from to
      id name e' h' p'

pub rename-IsValid :
    (from_dirid : ℕ) (from_filename : Bytes) (to_dirid : ℕ) (to_filename : Bytes) (s : DemoFs)
    → IsValid s
    → IsValid (rename from_dirid from_filename to_dirid to_filename s).1
unfolding rename
rename-IsValid from_dirid from_filename to_dirid to_filename s v = lock_then s v _ (
    index_then s v from_dirid _ λ from there.
      find_in_then s v from_filename from.contents _ λ dir id is_dir found.
        directory_then s v to_dirid _ λ to_is_dir.
          let (e, h, p) =
            found_parent s from_dirid id from from_filename dir v there is_dir found in
          replaced_then s v from_dirid to_dirid id to_filename
            (find_named s.fs to_filename (children s.fs to_dirid)) e h p)
