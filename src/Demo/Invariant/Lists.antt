-- ===== src/Demo/Invariant/Lists.antt =====
-- examples/demo_fs: changes of the list of one directory.
use nfs_mamont_mirror.Prelude.{
  ℕ, ◌+◌, ◌≡◌, ◌≤◌, ◌==◌, refl, Bool, true, false, Option, none, some, List, [], ◌∷◌, get_elem?,
  modify, if◌then◌else◌, count, count-append, get_elem?-modify, arith,
}
use mathlib.Core.Option
use nfs_mamont_mirror.Demo.{FsEntry, FsContents, file, directory, DemoFs, with_child, push_child}
use nfs_mamont_mirror.Demo.Tree.{is_directory, is_dir_entry, list_of, listed, children}
use nfs_mamont_mirror.Demo.Moves.{without, drop_child, remove_child}
use nfs_mamont_mirror.Demo.Invariant.{IsValid, child_of, block_end, end_of}

-- A change of the list of a directory leaves the rest of the entry alone.
pub Reshapes : (FsContents → FsContents) → Type 0
Reshapes g = (c : FsContents) → (end_of (g c) ≡ end_of c) × (is_directory (g c) ≡ is_directory c)

abbrev pub reshape : (FsContents → FsContents) → FsEntry → FsEntry
reshape g e = record e { contents = g e.contents }

pub push-Reshapes : (n : ℕ) → Reshapes (with_child n)
unfolding Reshapes
push-Reshapes n (file block) = (refl, refl)
push-Reshapes n (directory dir) = (refl, refl)

pub drop-Reshapes : (n : ℕ) → Reshapes (drop_child n)
unfolding Reshapes
drop-Reshapes n (file block) = (refl, refl)
drop-Reshapes n (directory dir) = (refl, refl)

-- What is left alone at every place, by a change of one list.
pub record Kept (e e' : Option FsEntry) : Type 0 where
  pub same_parent : (d : ℕ) → child_of d e' ≡ child_of d e
  pub same_block : block_end e' ≡ block_end e
  pub same_kind : is_dir_entry e' ≡ is_dir_entry e

pub reshape-Kept :
    (k j : ℕ) (g : FsContents → FsContents) (fs : List FsEntry)
    → Reshapes g
    → Kept (get_elem? fs j) (get_elem? (modify k (reshape g) fs) j)
unfolding Reshapes
reshape-Kept k j g fs r = rw get_elem?-modify (at (k == j) (get_elem? fs j))
  where
    at : (b : Bool) (o : Option FsEntry) → Kept o (if b then Option.map (reshape g) o else o)
    at true none = record { same_parent = λ d. refl; same_block = refl; same_kind = refl }
    at true (some e) = record {
      same_parent = λ d. refl;
      same_block = (r e.contents).0;
      same_kind = (r e.contents).1;
    }
    at false o = record { same_parent = λ d. refl; same_block = refl; same_kind = refl }

pub count-with_child :
    (n i : ℕ) (c : FsContents)
    → count i (list_of (with_child n c)) ≤ count i (list_of c) + (if n == i then 1 else 0)
count-with_child n i (file block) = omega arith
count-with_child n i (directory dir) = omega (arith, count-append i dir (n ∷ []))

count-without :
    (n i : ℕ) (dir : List ℕ) → count i (without n dir) ≡ (if n == i then 0 else count i dir)
unfolding without
count-without n i [] = ground arith
count-without n i (j ∷ dir) = ground (arith, count-without n i dir)

count-drop_child :
    (n i : ℕ) (c : FsContents)
    → count i (list_of (drop_child n c)) ≡ (if n == i then 0 else count i (list_of c))
count-drop_child n i (file block) = ground arith
count-drop_child n i (directory dir) = count-without n i dir

pub children-push :
    (k n d i : ℕ) (fs : List FsEntry)
    → count i (children (modify k (push_child n) fs) d)
      ≤ count i (children fs d) + (if k == d then (if n == i then 1 else 0) else 0)
unfolding children
children-push k n d i fs = rw get_elem?-modify (at (k == d) (get_elem? fs d))
  where
    at :
        (b : Bool) (o : Option FsEntry)
        → count i (listed (if b then Option.map (push_child n) o else o))
          ≤ count i (listed o) + (if b then (if n == i then 1 else 0) else 0)
    at true none = omega arith
    at true (some e) = count-with_child n i e.contents
    at false o = omega arith

pub children-drop :
    (k n d i : ℕ) (fs : List FsEntry)
    → count i (children (modify k (remove_child n) fs) d) ≡ (
        if k == d then (if n == i then 0 else count i (children fs d)) else count i (children fs d))
unfolding children
children-drop k n d i fs = rw get_elem?-modify (at (k == d) (get_elem? fs d))
  where
    at :
        (b : Bool) (o : Option FsEntry)
        → count i (listed (if b then Option.map (remove_child n) o else o))
          ≡ (if b then (if n == i then 0 else count i (listed o)) else count i (listed o))
    at true none = ground arith
    at true (some e) = count-drop_child n i e.contents
    at false o = refl

pub drop-IsValid :
    (k n : ℕ) (s : DemoFs) → IsValid s → IsValid (record s { fs = modify k (remove_child n) s.fs })
drop-IsValid k n s v = record {
  once = λ d i.
      let kept = reshape-Kept k i (drop_child n) s.fs (drop-Reshapes n) in
      let p = kept.same_parent d in
      let old = v.once d i in let e = children-drop k n d i s.fs in ground arith;
  stored = λ j.
      let kept = reshape-Kept k j (drop_child n) s.fs (drop-Reshapes n) in
      let b = kept.same_block in let old = v.stored j in omega arith;
  rooted =
      let kept = reshape-Kept k 1 (drop_child n) s.fs (drop-Reshapes n) in
      rw (kept.same_kind) (v.rooted);
}
