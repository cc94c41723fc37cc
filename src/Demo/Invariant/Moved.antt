-- ===== src/Demo/Invariant/Moved.antt =====
-- examples/demo_fs: an entry that is cleared, and one that is moved to another directory.
use nfs_mamont_mirror.Prelude.{
  ℕ, ◌+◌, ◌≡◌, ◌≤◌, ◌==◌, refl, Bool, true, false, Option, none, some, List, [], ◌∷◌, ◌++◌, length,
  get_elem?, modify, if◌then◌else◌, count, get_elem?-modify, arith, Bool-cases, inl, inr,
  length-append, ==_iff, ◌∙◌, sym,
}
use mathlib.Core.Option
use nfs_mamont_mirror.Demo.{FsEntry, file, DemoFs, with_child, push_child}
use nfs_mamont_mirror.Demo.Tree.{is_dir_entry, directory_at, listed, children}
use nfs_mamont_mirror.Demo.Moves.{remove_child, drop_child, cleared}
use nfs_mamont_mirror.Demo.Invariant.{IsValid, child_of, block_end}
use nfs_mamont_mirror.Demo.Invariant.Lists.{
  reshape-Kept, children-push, children-drop, push-Reshapes, drop-Reshapes,
}

-- A function of the entry at a place, after a change of the entry at `k`.
at_modified :
    (P : Option FsEntry → ℕ) (k j : ℕ) (f : FsEntry → FsEntry) (fs : List FsEntry)
    → P (get_elem? (modify k f fs) j)
      ≡ (if k == j then P (Option.map f (get_elem? fs j)) else P (get_elem? fs j))
at_modified P k j f fs = rw get_elem?-modify (at (k == j))
  where
    at :
        (b : Bool)
        → P (if b then Option.map f (get_elem? fs j) else get_elem? fs j)
          ≡ (if b then P (Option.map f (get_elem? fs j)) else P (get_elem? fs j))
    at true = refl
    at false = refl

listed-cleared :
    (block i : ℕ) (o : Option FsEntry) → count i (listed (Option.map (cleared block) o)) ≡ 0
listed-cleared block i none = refl
listed-cleared block i (some e) = refl

child_of-cleared :
    (block d : ℕ) (o : Option FsEntry) → child_of d (Option.map (cleared block) o) ≡ child_of d o
child_of-cleared block d none = refl
child_of-cleared block d (some e) = refl

block_end-cleared :
    (block : ℕ) (o : Option FsEntry) → block_end (Option.map (cleared block) o) ≤ block + 1
block_end-cleared block none = omega arith
block_end-cleared block (some e) = omega arith

not_root :
    (fs : List FsEntry) (k : ℕ) (e : FsEntry) (b : ℕ)
    → directory_at fs 1 ≡ true
    → get_elem? fs k ≡ some e
    → e.contents ≡ file b
    → (k == 1) ≡ false
not_root fs k e b root there is_file = elim (Bool-cases (k == 1)) [
  | inl t ↦
      let one : k ≡ 1 = (==_iff k 1).0 t in
      let here : get_elem? fs 1 ≡ some e = rw one at there in
      absurd (cc (rw (here, is_file) at root))
  | inr f ↦ f
]

-- A file that is cleared, with a new block.
pub cleared-IsValid :
    (s : DemoFs) (k : ℕ) (e : FsEntry) (b : ℕ)
    → get_elem? s.fs k ≡ some e
    → e.contents ≡ file b
    → IsValid s
    → IsValid
        (record s { blocks = s.blocks ++ [] ∷ []; fs = modify k (cleared (length s.blocks)) s.fs })
unfolding children
cleared-IsValid s k e b there is_file v = record {
  once = λ d i.
      let f = cleared (length s.blocks) in
      let a = at_modified (λ o. count i (listed o)) k d f s.fs in
      let c = at_modified (child_of d) k i f s.fs in
      let x = listed-cleared (length s.blocks) i (get_elem? s.fs d) in
      let y = child_of-cleared (length s.blocks) d (get_elem? s.fs i) in
      let old = v.once d i in ground arith;
  stored = λ j.
      let f = cleared (length s.blocks) in
      let c = at_modified block_end k j f s.fs in
      let y = block_end-cleared (length s.blocks) (get_elem? s.fs j) in
      let more = length-append s.blocks ([] ∷ []) in let old = v.stored j in ground arith;
  rooted = rw (get_elem?-modify, not_root s.fs k e b v.rooted there is_file) (v.rooted);
}

abbrev pub with_parent : ℕ → FsEntry → FsEntry
with_parent to e = record e { parent = to }

listed-with_parent :
    (to i : ℕ) (o : Option FsEntry)
    → count i (listed (Option.map (with_parent to) o)) ≡ count i (listed o)
listed-with_parent to i none = refl
listed-with_parent to i (some e) = refl

block_end-with_parent :
    (to : ℕ) (o : Option FsEntry) → block_end (Option.map (with_parent to) o) ≡ block_end o
block_end-with_parent to none = refl
block_end-with_parent to (some e) = refl

is_dir_entry-with_parent :
    (to : ℕ) (o : Option FsEntry) → is_dir_entry (Option.map (with_parent to) o) ≡ is_dir_entry o
is_dir_entry-with_parent to none = refl
is_dir_entry-with_parent to (some e) = refl

-- The entries after an entry has gone from one directory to another.
abbrev pub moved : ℕ → ℕ → ℕ → List FsEntry → List FsEntry
moved from to id fs =
    modify id (with_parent to) (modify to (push_child id) (modify from (remove_child id) fs))

child_of-with_parent :
    (to d : ℕ) (o : Option FsEntry) (e : FsEntry)
    → o ≡ some e
    → child_of d (Option.map (with_parent to) o) ≡ (if to == d then 1 else 0)
child_of-with_parent to d o e h = rw h refl

modified_there :
    (k j : ℕ) (f : FsEntry → FsEntry) (fs : List FsEntry) (e : FsEntry)
    → get_elem? fs j ≡ some e
    → (e' : FsEntry) × (get_elem? (modify k f fs) j ≡ some e')
modified_there k j f fs e h = elim (Bool-cases (k == j)) [
  | inl t ↦ (f e, rw (get_elem?-modify, t, h) refl)
  | inr n ↦ (e, rw (get_elem?-modify, n) h)
]

children-with_parent :
    (to id d i : ℕ) (fs : List FsEntry)
    → count i (children (modify id (with_parent to) fs) d) ≡ count i (children fs d)
unfolding children
children-with_parent to id d i fs =
    let a = at_modified (λ o. count i (listed o)) id d (with_parent to) fs in
    let b = listed-with_parent to i (get_elem? fs d) in ground arith

module _ (s : DemoFs) (from to id : ℕ) (e : FsEntry) (other : (from == to) ≡ false)
    (there : get_elem? s.fs id ≡ some e) (p : e.parent ≡ from) (v : IsValid s) where
  taken_out : List FsEntry
  taken_out = modify from (remove_child id) s.fs

  put_in : List FsEntry
  unfolding taken_out
  put_in = modify to (push_child id) taken_out

  -- The parents, before the entry's own is set.
  old_parent : (d i : ℕ) → child_of d (get_elem? put_in i) ≡ child_of d (get_elem? s.fs i)
  unfolding put_in
  old_parent d i =
      (reshape-Kept to i (with_child id) taken_out (push-Reshapes id)).same_parent d
      ∙ (reshape-Kept from i (drop_child id) s.fs (drop-Reshapes id)).same_parent d

  -- The entry itself is still there, whatever its lists have become.
  still_there : (e' : FsEntry) × (get_elem? put_in id ≡ some e')
  unfolding put_in
  still_there =
      let (e1, h1) = modified_there from id (remove_child id) s.fs e there in
      modified_there to id (push_child id) taken_out e1 h1

  new_parent :
      (d i : ℕ)
      → child_of d (get_elem? (modify id (with_parent to) put_in) i)
        ≡ (if id == i then (if to == d then 1 else 0) else child_of d (get_elem? s.fs i))
  new_parent d i =
      at_modified (child_of d) id i (with_parent to) put_in ∙ (elim (Bool-cases (id == i)) [
        | inl t ↦
            let (e2, h2) = still_there in
            let same : id ≡ i = (==_iff id i).0 t in
            rw t (child_of-with_parent to d (get_elem? put_in i) e2 (rw (sym same) h2))
        | inr n ↦ rw n (old_parent d i)
      ])

  own_parent : (d : ℕ) → child_of d (get_elem? s.fs id) ≡ (if from == d then 1 else 0)
  own_parent d = rw (there, p) refl

  moved_once :
      (d i : ℕ)
      → count i (children (modify id (with_parent to) put_in) d)
        ≤ child_of d (get_elem? (modify id (with_parent to) put_in) i)
  unfolding put_in
  moved_once d i =
      let a = children-with_parent to id d i put_in in
      let c = children-push to id d i taken_out in
      let x = children-drop from id d i s.fs in
      let n = new_parent d i in
      let old = v.once d i in
      let own = v.once d id in
      let o = own_parent d in
      elim (Bool-cases (id == i)) [
        | inl t ↦ let same : id ≡ i = (==_iff id i).0 t in ground arith
        | inr f ↦ ground arith
      ]

  moved_root : directory_at (modify id (with_parent to) put_in) 1 ≡ true
  unfolding put_in taken_out
  moved_root =
      let x = (reshape-Kept from 1 (drop_child id) s.fs (drop-Reshapes id)).same_kind in
      let y = (reshape-Kept to 1 (with_child id) taken_out (push-Reshapes id)).same_kind in
      elim (Bool-cases (id == 1)) [
        | inl t ↦ rw (get_elem?-modify, t, is_dir_entry-with_parent) (y ∙ (x ∙ v.rooted))
        | inr n ↦ rw (get_elem?-modify, n) (y ∙ (x ∙ v.rooted))
      ]

  pub moved-IsValid : IsValid (record s { fs = moved from to id s.fs })
  unfolding put_in taken_out
  moved-IsValid = record {
    once = moved_once;
    stored = λ j.
        let x = (reshape-Kept from j (drop_child id) s.fs (drop-Reshapes id)).same_block in
        let y = (reshape-Kept to j (with_child id) taken_out (push-Reshapes id)).same_block in
        let z = at_modified block_end id j (with_parent to) put_in in
        let w = block_end-with_parent to (get_elem? put_in j) in
        let old = v.stored j in ground arith;
    rooted = moved_root;
  }
