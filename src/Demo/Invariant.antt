-- ===== src/Demo/Invariant.antt =====
-- examples/demo_fs: what the entries keep to, and the steps that every call is made of.
pub mod Lists
pub mod Attach
pub mod Moved
pub mod Rules
pub mod Queries
pub mod Writes
pub mod News
pub mod Moves
pub mod Calls
use nfs_mamont_mirror.Prelude.{
  ℕ, ◌+◌, ◌≡◌, ◌≤◌, ◌==◌, refl, Bool, true, false, Option, none, some, List, [], ◌∷◌, length,
  get_elem?, modify, if◌then◌else◌, count, count-append, get_elem?-modify, arith, Bool-cases, inl,
  inr,
}
use mathlib.Core.Option
use nfs_mamont_mirror.Demo.{FsEntry, FsContents, file, directory, DemoFs, with_child, push_child}
use nfs_mamont_mirror.Demo.Tree.{
  is_directory, is_dir_entry, directory_at, list_of, listed, children,
}
use nfs_mamont_mirror.Demo.Moves.{without, drop_child, remove_child}

-- 1 if the entry's parent is `d`.
abbrev pub child_of : ℕ → Option FsEntry → ℕ
child_of d none = 0
child_of d (some e) = if e.parent == d then 1 else 0

-- One more than the place of the block.
abbrev pub end_of : FsContents → ℕ
end_of (file block) = block + 1
end_of (directory dir) = 0

abbrev pub block_end : Option FsEntry → ℕ
block_end none = 0
block_end (some e) = end_of e.contents

-- A directory lists each of its children once, and only entries whose parent it is, so that no
-- entry stands in two directories; every file has its block; the root is a directory.
pub record IsValid (s : DemoFs) : Type 0 where
  pub once : (d i : ℕ) → count i (children s.fs d) ≤ child_of d (get_elem? s.fs i)
  pub stored : (k : ℕ) → block_end (get_elem? s.fs k) ≤ length s.blocks
  pub rooted : directory_at s.fs 1 ≡ true

-- What `IsValid` looks at in one place: `same` entries are alike in it.
pub record Alike (e e' : Option FsEntry) : Type 0 where
  pub same_children : listed e' ≡ listed e
  pub same_parent : (d : ℕ) → child_of d e' ≡ child_of d e
  pub same_block : block_end e' ≡ block_end e
  pub same_kind : is_dir_entry e' ≡ is_dir_entry e

-- A call that changes no list, parent, block or kind.
pub Alike-IsValid :
    (s s' : DemoFs)
    → ((k : ℕ) → Alike (get_elem? s.fs k) (get_elem? s'.fs k))
    → length s.blocks ≤ length s'.blocks
    → IsValid s
    → IsValid s'
unfolding children
Alike-IsValid s s' alike more v = record {
  once = λ d i. rw ((alike d).same_children, (alike i).same_parent d) (v.once d i);
  stored = λ k. let b = (alike k).same_block in let old = v.stored k in omega arith;
  rooted = rw ((alike 1).same_kind) (v.rooted);
}

pub Alike-refl : (e : Option FsEntry) → Alike e e
Alike-refl e = record {
  same_children = refl;
  same_parent = λ d. refl;
  same_block = refl;
  same_kind = refl;
}

-- An assignment to the name or the attributes.
pub Quiet : (FsEntry → FsEntry) → Type 0
Quiet f = (e : FsEntry) → ((f e).parent ≡ e.parent) × ((f e).contents ≡ e.contents)

Alike-Quiet : (f : FsEntry → FsEntry) (e : Option FsEntry) → Quiet f → Alike e (Option.map f e)
unfolding Quiet
Alike-Quiet f none q = Alike-refl none
Alike-Quiet f (some e) q = record {
  same_children = rw ((q e).1);
  same_parent = λ d. rw ((q e).0);
  same_block = rw ((q e).1);
  same_kind = rw ((q e).1);
}

pub Quiet-IsValid :
    (k : ℕ) (f : FsEntry → FsEntry) (s : DemoFs)
    → Quiet f
    → IsValid s
    → IsValid (record s { fs = modify k f s.fs })
Quiet-IsValid k f s q v = Alike-IsValid s _ alike (omega arith) v
  where
    alike : (j : ℕ) → Alike (get_elem? s.fs j) (get_elem? (modify k f s.fs) j)
    alike j = elim (Bool-cases (k == j)) [
      | inl e ↦ rw (get_elem?-modify, e) (Alike-Quiet f (get_elem? s.fs j) q)
      | inr e ↦ rw (get_elem?-modify, e) (Alike-refl (get_elem? s.fs j))
    ]
