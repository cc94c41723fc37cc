-- ===== src/Demo/Answers/Queries.antt =====
-- examples/demo_fs/fs.rs: LOOKUP, GETATTR, READLINK, READDIR and READ do not panic.
use nfs_mamont_mirror.Prelude.{
  zero, suc, ℕ, ◌+◌, ◌^◌, ◌≡◌, ◌≤◌, ◌<◌, refl, min, ltb, leb, Bool, true, false, Option, none, some,
  List, [], ◌∷◌, length, drop, get_elem?, get_elem?-lt, count, if◌then◌else◌, arith,
}
use nfs_mamont_mirror.Xdr.Reader.{Bytes}
use nfs_mamont_mirror.Xdr.Nfs3.Enums.{
  NfsStat3, nfs3err_noent, Ftype3, nf3_reg, nf3_dir, nf3_blk, nf3_chr, nf3_lnk, nf3_sock, nf3_fifo,
}
use nfs_mamont_mirror.Rpc.Tracker.{same_bytes}
use nfs_mamont_mirror.Demo.{
  FsEntry, FsContents, file, directory, DemoFs, ok_or, Action, and_then, pure,
}
use nfs_mamont_mirror.Demo.Names.{
  dot, dot_dot, find_named, position, lookup_in, lookup, getattr, block_at, target, link_target,
  readlink, after_position, start_index, list_entries, readdir_in, readdir,
}
use nfs_mamont_mirror.Demo.Contents.{read_in, read, usize}
use nfs_mamont_mirror.Demo.Tree.{children}
use nfs_mamont_mirror.Demo.Pages.{There, There-tail, parent-listed}
use nfs_mamont_mirror.Demo.Invariant.{IsValid, end_of}
use nfs_mamont_mirror.Demo.Answers.{
  Answers, there_is, lock-Answers, get-Answers, index-Answers, block_at-Answers, result-Answers,
  if-Answers,
}

pub getattr-Answers : (id : ℕ) (s : DemoFs) → s.poisoned ≡ false → Answers (getattr id s)
unfolding getattr
getattr-Answers id s free = lock-Answers s free _ (get-Answers s free id _ λ e h. free)

found-Answers :
    {A : Type 0} (e : NfsStat3) (o : Option A) (s : DemoFs)
    → s.poisoned ≡ false
    → Answers (ok_or e o s)
found-Answers e none s free = free
found-Answers e (some a) s free = free

lookup_in-Answers :
    (dirid : ℕ) (name : Bytes) (entry : FsEntry) (contents : FsContents) (s : DemoFs)
    → s.poisoned ≡ false
    → Answers (lookup_in dirid name entry contents s)
lookup_in-Answers dirid name entry (file block) s free = free
lookup_in-Answers dirid name entry (directory dir) s free =
    if-Answers (same_bytes name dot) _ _ s free (
      if-Answers (same_bytes name dot_dot) _ _ s free
        (found-Answers nfs3err_noent (find_named s.fs name dir) s free))

pub lookup-Answers :
    (dirid : ℕ) (name : Bytes) (s : DemoFs) → s.poisoned ≡ false → Answers (lookup dirid name s)
unfolding lookup
lookup-Answers dirid name s free =
    lock-Answers s free _
      (get-Answers s free dirid _ λ e h. lookup_in-Answers dirid name e e.contents s free)

-- The block of an entry that is a file.
pub block-lt :
    (s : DemoFs) (id : ℕ) (e : FsEntry)
    → IsValid s
    → get_elem? s.fs id ≡ some e
    → end_of e.contents ≤ length s.blocks
block-lt s id e v there = let h = v.stored id in rw there at h

target-Answers :
    (contents : FsContents) (s : DemoFs)
    → s.poisoned ≡ false
    → end_of contents ≤ length s.blocks
    → Answers (target contents s)
unfolding block_at
target-Answers (directory dir) s free h = free
target-Answers (file block) s free h =
    let (b, here) = there_is s.blocks block (omega (arith, h)) in rw here free

link_target-Answers :
    (ftype : Ftype3) (contents : FsContents) (s : DemoFs)
    → s.poisoned ≡ false
    → end_of contents ≤ length s.blocks
    → Answers (link_target ftype contents s)
link_target-Answers nf3_lnk contents s free h = target-Answers contents s free h
link_target-Answers nf3_reg contents s free h = free
link_target-Answers nf3_dir contents s free h = free
link_target-Answers nf3_blk contents s free h = free
link_target-Answers nf3_chr contents s free h = free
link_target-Answers nf3_sock contents s free h = free
link_target-Answers nf3_fifo contents s free h = free

pub readlink-Answers :
    (id : ℕ) (s : DemoFs) → IsValid s → s.poisoned ≡ false → Answers (readlink id s)
unfolding readlink
readlink-Answers id s v free = lock-Answers s free _ (
    get-Answers s free id _
      λ e h. link_target-Answers e.attr.ftype e.contents s free (block-lt s id e v h))

start_index-Answers :
    {B : Type 0} (start_after : ℕ) (dir : List ℕ) (s : DemoFs) (k : ℕ → Action B)
    → s.poisoned ≡ false
    → ((start : ℕ) → Answers (k start s))
    → Answers (and_then (start_index start_after dir s) k)
start_index-Answers start_after dir s k free next =
    at (ltb 0 start_after) (position start_after dir)
  where
    at :
        (b : Bool) (o : Option ℕ)
        → Answers (and_then ((if b then after_position o else pure 0) s) k)
    at true none = free
    at true (some n) = next (n + 1)
    at false o = next 0

There-drop : (fs : List FsEntry) (n : ℕ) (dir : List ℕ) → There fs dir → There fs (drop n dir)
There-drop fs zero dir there = there
There-drop fs (suc n) [] there = there
There-drop fs (suc n) (i ∷ dir) there = There-drop fs n dir (There-tail fs i dir there)

list_entries-Answers :
    (n k : ℕ) (dir : List ℕ) (s : DemoFs)
    → There s.fs dir
    → s.poisoned ≡ false
    → Answers (list_entries n k dir s)
unfolding list_entries There
list_entries-Answers n k [] s there free = free
list_entries-Answers n k (i ∷ dir) s there free =
    let (e, here) = there i (ground arith) in
    let rest = list_entries-Answers n (k + 1) dir s (There-tail s.fs i dir there) free in
    index-Answers s free i _ (get_elem?-lt s.fs i here) λ f h.
      result-Answers ((if leb n (k + 1) then pure [] else list_entries n (k + 1) dir) s) _
        (if-Answers (leb n (k + 1)) _ _ s free rest) λ r s' w. w

readdir_in-Answers :
    (start_after n : ℕ) (contents : FsContents) (s : DemoFs)
    → ((dir : List ℕ) → contents ≡ directory dir → There s.fs dir)
    → s.poisoned ≡ false
    → Answers (readdir_in start_after n contents s)
readdir_in-Answers start_after n (file block) s there free = free
readdir_in-Answers start_after n (directory dir) s there free =
    start_index-Answers start_after dir s _ free λ start.
      result-Answers (list_entries n 0 (drop start dir) s) _
        (list_entries-Answers n 0 (drop start dir) s (There-drop s.fs start dir (there dir refl))
          free)
        λ r s' w. w

pub readdir-Answers :
    (dirid start_after n : ℕ) (s : DemoFs)
    → IsValid s
    → s.poisoned ≡ false
    → Answers (readdir dirid start_after n s)
unfolding readdir There children
readdir-Answers dirid start_after n s v free = lock-Answers s free _ (
    get-Answers s free dirid _ λ e here.
      let all : (dir : List ℕ) → e.contents ≡ directory dir → There s.fs dir = λ dir is_dir i.
        let once = v.once dirid i in
        (parent-listed dirid (count i dir) (get_elem? s.fs i) (rw (here, is_dir) at once)).1 in
      readdir_in-Answers start_after n e.contents s all free)

read_in-Answers :
    (offset len : ℕ) (contents : FsContents) (s : DemoFs)
    → s.poisoned ≡ false
    → end_of contents ≤ length s.blocks
    → offset + len < 2 ^ 64
    → Answers (read_in offset len contents s)
read_in-Answers offset len (directory dir) s free h fits = free
read_in-Answers offset len (file block) s free h fits =
    block_at-Answers s free block _ (omega (arith, h)) λ bytes.
      let end : usize (offset + len) ≡ offset + len = omega arith in
      let ordered : leb (min offset (length bytes)) (min (offset + len) (length bytes)) ≡ true =
        ground arith in
      rw (end, ordered) free

pub read-Answers :
    (id offset len : ℕ) (s : DemoFs)
    → IsValid s
    → s.poisoned ≡ false
    → offset + len < 2 ^ 64
    → Answers (read id offset len s)
unfolding read
read-Answers id offset len s v free fits = lock-Answers s free _ (
    get-Answers s free id _
      λ e h. read_in-Answers offset len e.contents s free (block-lt s id e v h) fits)
