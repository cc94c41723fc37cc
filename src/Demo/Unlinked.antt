-- ===== src/Demo/Unlinked.antt =====
-- examples/demo_fs/fs.rs: what REMOVE and RENAME do to the directories.
use nfs_mamont_mirror.Prelude.{
  [], ◌∷◌, ◌++◌, get_elem?-push, ℕ, ◌≡◌, ◌≤◌, ◌==◌, ==_iff, Bool-cases, inl, inr, true, false, refl,
  List, Option, some, none, get_elem?, modify, get_elem?-modify, count, arith, length, sym, ◌∙◌,
}
use mathlib.Core.Option
use nfs_mamont_mirror.Xdr.Reader.{Bytes}
use nfs_mamont_mirror.Demo.{get, file, FsEntry, directory, DemoFs, ok, index, FsContents}
use nfs_mamont_mirror.Demo.Names.{find_named}
use nfs_mamont_mirror.Demo.Tree.{children, listed, directory_at}
use nfs_mamont_mirror.Demo.Moves.{drop_child, remove_child, with_name, rename, cleared, remove}
use nfs_mamont_mirror.Demo.Invariant.{IsValid, child_of, block_end, end_of}
use nfs_mamont_mirror.Demo.Files.{block_of, block_bytes, file_bytes}
use nfs_mamont_mirror.Demo.Invariant.Moves.{find_named-count, still_file}
use nfs_mamont_mirror.Demo.Invariant.Lists.{children-drop}

-- An entry that some directory lists is listed in no other.
only_there :
    (s : DemoFs) (d d' i : ℕ)
    → IsValid s
    → 1 ≤ count i (children s.fs d)
    → (d == d') ≡ false
    → count i (children s.fs d') ≡ 0
only_there s d d' i v here apart =
    let a = v.once d i in let b = v.once d' i in at (get_elem? s.fs i) (omega arith) b
  where
    at :
        (o : Option FsEntry)
        → 1 ≤ child_of d o
        → count i (children s.fs d') ≤ child_of d' o
        → count i (children s.fs d') ≡ 0
    at Option.none x y = omega arith
    at (some e) x y =
        let p = ==_iff e.parent d in let q = ==_iff e.parent d' in ground (arith, apart)

children-quiet :
    (k d : ℕ) (f : FsEntry → FsEntry) (fs : List FsEntry)
    → ((e : FsEntry) → (f e).contents ≡ e.contents)
    → children (modify k f fs) d ≡ children fs d
unfolding children
children-quiet k d f fs keeps = elim (Bool-cases (k == d)) [
  | inl t ↦ rw (get_elem?-modify, t) (at (get_elem? fs d))
  | inr n ↦ rw (get_elem?-modify, n) refl
]
  where
    at : (o : Option FsEntry) → listed (Option.map f o) ≡ listed o
    at none = refl
    at (some e) = rw (keeps e) refl

found-listed :
    (s : DemoFs) (dirid id : ℕ) (name : Bytes) (d : FsEntry) (dir : List ℕ)
    → get_elem? s.fs dirid ≡ some d
    → d.contents ≡ directory dir
    → find_named s.fs name dir ≡ some id
    → 1 ≤ count id (children s.fs dirid)
unfolding children
found-listed s dirid id name d dir there is_dir found =
    rw (there, is_dir) (find_named-count s.fs name dir id found)

-- Once it is out of the one directory that lists it, an entry is in none.
gone-everywhere :
    (s : DemoFs) (dirid id d' : ℕ)
    → IsValid s
    → 1 ≤ count id (children s.fs dirid)
    → count id (children (modify dirid (remove_child id) s.fs) d') ≡ 0
gone-everywhere s dirid id d' v here =
    let a = children-drop dirid id d' id s.fs in
    let b = only_there s dirid d' id v here in
    let self : (id == id) ≡ true = ground arith in ground arith

others-stay :
    (s : DemoFs) (dirid id d' i : ℕ)
    → (id == i) ≡ false
    → count i (children (modify dirid (remove_child id) s.fs) d') ≡ count i (children s.fs d')
others-stay s dirid id d' i other = ground (arith, children-drop dirid id d' i s.fs)

rename-same_run :
    (dirid id : ℕ) (name : Bytes) (d : FsEntry) (dir : List ℕ) (s : DemoFs)
    → s.poisoned ≡ false
    → get_elem? s.fs dirid ≡ some d
    → d.contents ≡ directory dir
    → find_named s.fs name dir ≡ some id
    → rename dirid name dirid name s
      ≡ (ok tt, record s { fs = modify id (with_name name) (modify dirid (remove_child id) s.fs) })
unfolding rename index children
rename-same_run dirid id name d dir s free there is_dir found =
    let dir_there : directory_at s.fs dirid ≡ true = rw (there, is_dir) refl in
    let same : find_named s.fs name (children s.fs dirid) ≡ some id = rw (there, is_dir) found in
    let self : (dirid == dirid) ≡ true = ground arith in
    rw (free, there, is_dir, found, dir_there, same, self) refl

-- RENAME of an entry onto its own name in its own directory, with valid entries and the mutex not
-- poisoned, answers that all is well, and takes the entry out of its directory: no directory
-- lists it afterwards, and every other entry is listed where it was.
pub rename_same-lost :
    (dirid id : ℕ) (name : Bytes) (d : FsEntry) (dir : List ℕ) (s : DemoFs)
    → IsValid s
    → s.poisoned ≡ false
    → get_elem? s.fs dirid ≡ some d
    → d.contents ≡ directory dir
    → find_named s.fs name dir ≡ some id
    → (s' : DemoFs) × (rename dirid name dirid name s ≡ (ok tt, s'))
      × ((d' : ℕ) → count id (children s'.fs d') ≡ 0)
      × ((d' i : ℕ) → (id == i) ≡ false → count i (children s'.fs d') ≡ count i (children s.fs d'))
rename_same-lost dirid id name d dir s v free there is_dir found = (
  record s { fs = modify id (with_name name) (modify dirid (remove_child id) s.fs) },
  rename-same_run dirid id name d dir s free there is_dir found,
  λ d'.
      rw (children-quiet id d' (with_name name) (modify dirid (remove_child id) s.fs) (λ e. refl))
        (gone-everywhere s dirid id d' v (found-listed s dirid id name d dir there is_dir found)),
  λ d' i other.
      rw (children-quiet id d' (with_name name) (modify dirid (remove_child id) s.fs) (λ e. refl))
        (others-stay s dirid id d' i other),
)

-- The state that a REMOVE leaves.
abbrev removed : ℕ → ℕ → DemoFs → DemoFs
removed dirid id s = record s {
  fs = modify id (cleared (length s.blocks)) (modify dirid (remove_child id) s.fs);
  blocks = s.blocks ++ [] ∷ [];
}

block_of-remove_child :
    (n : ℕ) (o : Option FsEntry) → block_of (Option.map (remove_child n) o) ≡ block_of o
block_of-remove_child n none = refl
block_of-remove_child n (some e) = at e.contents
  where
    at :
        (c : FsContents)
        → block_of (some (record e { contents = drop_child n c }))
          ≡ block_of (some (record e { contents = c }))
    at (file b) = refl
    at (directory dir) = refl

block_of-removed :
    (s : DemoFs) (dirid id i : ℕ)
    → (id == i) ≡ false
    → block_of (get_elem? (removed dirid id s).fs i) ≡ block_of (get_elem? s.fs i)
block_of-removed s dirid id i other = elim (Bool-cases (dirid == i)) [
  | inl t ↦
      rw (get_elem?-modify, other, get_elem?-modify, t)
        (block_of-remove_child id (get_elem? s.fs i))
  | inr n ↦ rw (get_elem?-modify, other, get_elem?-modify, n) refl
]

-- A block that is there stays, when one is added.
block_bytes-push :
    (blocks : List Bytes) (o : Option FsEntry)
    → block_end o ≤ length blocks
    → block_bytes (blocks ++ [] ∷ []) (block_of o) ≡ block_bytes blocks (block_of o)
block_bytes-push blocks none fits = refl
block_bytes-push blocks (some e) fits = at e.contents fits
  where
    at :
        (c : FsContents)
        → end_of c ≤ length blocks
        → block_bytes (blocks ++ [] ∷ []) (block_of (some (record e { contents = c })))
          ≡ block_bytes blocks (block_of (some (record e { contents = c })))
    at (file b) h =
        let old : (b == length blocks) ≡ false = ground (arith, h) in rw (get_elem?-push, old) refl
    at (directory dir) h = refl

bytes-stay :
    (s : DemoFs) (dirid id i : ℕ)
    → IsValid s
    → (id == i) ≡ false
    → file_bytes i (removed dirid id s) ≡ file_bytes i s
bytes-stay s dirid id i v other =
    rw (block_of-removed s dirid id i other)
      (block_bytes-push s.blocks (get_elem? s.fs i) (v.stored i))

remove-run :
    (dirid id b : ℕ) (name : Bytes) (d f : FsEntry) (dir : List ℕ) (s : DemoFs)
    → s.poisoned ≡ false
    → get_elem? s.fs dirid ≡ some d
    → d.contents ≡ directory dir
    → find_named s.fs name dir ≡ some id
    → get_elem? s.fs id ≡ some f
    → f.contents ≡ file b
    → remove dirid name s ≡ (ok tt, removed dirid id s)
unfolding remove get index
remove-run dirid id b name d f dir s free there is_dir found here is_file =
    rw (free, there, is_dir, found, here, is_file) refl

children-cleared :
    (k d b i : ℕ) (f : FsEntry) (c : ℕ) (fs : List FsEntry)
    → get_elem? fs k ≡ some f
    → f.contents ≡ file c
    → count i (children (modify k (cleared b) fs) d) ≡ count i (children fs d)
unfolding children
children-cleared k d b i f c fs here is_file = elim (Bool-cases (k == d)) [
  | inl t ↦
      let same : k ≡ d = (==_iff k d).0 t in rw (get_elem?-modify, t, sym same, here, is_file) refl
  | inr n ↦ rw (get_elem?-modify, n) refl
]

-- REMOVE of a file, with valid entries and the mutex not poisoned: no directory lists the entry
-- afterwards, every other entry is listed where it was, and the bytes of every other entry, the
-- other links of that file among them, are what they were.
pub remove-unlinks :
    (dirid id b : ℕ) (name : Bytes) (d f : FsEntry) (dir : List ℕ) (s : DemoFs)
    → IsValid s
    → s.poisoned ≡ false
    → get_elem? s.fs dirid ≡ some d
    → d.contents ≡ directory dir
    → find_named s.fs name dir ≡ some id
    → get_elem? s.fs id ≡ some f
    → f.contents ≡ file b
    → (s' : DemoFs) × (remove dirid name s ≡ (ok tt, s'))
      × ((d' : ℕ) → count id (children s'.fs d') ≡ 0)
      × ((d' i : ℕ) → (id == i) ≡ false → count i (children s'.fs d') ≡ count i (children s.fs d'))
      × ((i : ℕ) → (id == i) ≡ false → file_bytes i s' ≡ file_bytes i s)
remove-unlinks dirid id b name d f dir s v free there is_dir found here is_file =
    let (f', here', is_file') = still_file dirid id id b s.fs f here is_file in
    let clear = λ (d' : ℕ) (i : ℕ).
      children-cleared id d' (length s.blocks) i f' b (modify dirid (remove_child id) s.fs) here'
        is_file' in
    (
      removed dirid id s,
      remove-run dirid id b name d f dir s free there is_dir found here is_file,
      λ d'.
          clear d' id
          ∙ gone-everywhere s dirid id d' v (found-listed s dirid id name d dir there is_dir found),
      λ d' i other. clear d' i ∙ others-stay s dirid id d' i other,
      λ i other. bytes-stay s dirid id i v other,
    )
