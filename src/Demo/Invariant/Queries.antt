-- ===== src/Demo/Invariant/Queries.antt =====
-- examples/demo_fs/fs.rs: the calls that change no entry.
use nfs_mamont_mirror.Prelude.{
  ℕ, ◌+◌, ltb, leb, true, Option, none, some, List, [], ◌∷◌, length, drop, get_elem?, if◌then◌else◌,
  min,
}
use nfs_mamont_mirror.Xdr.Reader.{Bytes}
use nfs_mamont_mirror.Xdr.Nfs3.Enums.{
  Ftype3, nf3_reg, nf3_dir, nf3_blk, nf3_chr, nf3_lnk, nf3_sock, nf3_fifo, NfsStat3,
}
use nfs_mamont_mirror.Rpc.Tracker.{same_bytes}
use nfs_mamont_mirror.Demo.{
  FsEntry, FsContents, file, directory, DemoFs, ok_or, or_panic, pure, nfs3err_noent,
}
use nfs_mamont_mirror.Demo.Names.{
  dot, dot_dot, find_named, position, lookup_in, lookup, getattr, block_at, target, link_target,
  readlink, after_position, start_index, list_entries, readdir_in, readdir,
}
use nfs_mamont_mirror.Demo.Contents.{read_in, read, slice, usize}
use nfs_mamont_mirror.Demo.Invariant.{IsValid}
use nfs_mamont_mirror.Demo.Invariant.Rules.{
  lock_then, get_then, index_then, block_at_then, result_then, other-IsValid, if-IsValid,
}

pub getattr-IsValid : (id : ℕ) (s : DemoFs) → IsValid s → IsValid (getattr id s).1
unfolding getattr
getattr-IsValid id s v = lock_then s v _ (get_then s v id _ λ e h. v)

found-IsValid :
    {A : Type 0} (e : NfsStat3) (o : Option A) (s : DemoFs) → IsValid s → IsValid (ok_or e o s).1
found-IsValid e none s v = v
found-IsValid e (some a) s v = v

lookup_in-IsValid :
    (dirid : ℕ) (name : Bytes) (entry : FsEntry) (contents : FsContents) (s : DemoFs)
    → IsValid s
    → IsValid (lookup_in dirid name entry contents s).1
lookup_in-IsValid dirid name entry (file block) s v = v
lookup_in-IsValid dirid name entry (directory dir) s v = if-IsValid (same_bytes name dot) _ _ s v (
    if-IsValid (same_bytes name dot_dot) _ _ s v
      (found-IsValid nfs3err_noent (find_named s.fs name dir) s v))

pub lookup-IsValid :
    (dirid : ℕ) (filename : Bytes) (s : DemoFs) → IsValid s → IsValid (lookup dirid filename s).1
unfolding lookup
lookup-IsValid dirid filename s v =
    lock_then s v _ (get_then s v dirid _ λ e h. lookup_in-IsValid dirid filename e e.contents s v)

block_at-IsValid : (block : ℕ) (s : DemoFs) → IsValid s → IsValid (block_at block s).1
unfolding block_at
block_at-IsValid block s v = at (get_elem? s.blocks block)
  where
    at : (o : Option Bytes) → IsValid (or_panic o s).1
    at none = other-IsValid s true s.readings v
    at (some b) = v

target-IsValid : (contents : FsContents) (s : DemoFs) → IsValid s → IsValid (target contents s).1
target-IsValid (file block) s v = block_at-IsValid block s v
target-IsValid (directory dir) s v = v

link_target-IsValid :
    (ftype : Ftype3) (contents : FsContents) (s : DemoFs)
    → IsValid s
    → IsValid (link_target ftype contents s).1
link_target-IsValid nf3_lnk contents s v = target-IsValid contents s v
link_target-IsValid nf3_reg contents s v = v
link_target-IsValid nf3_dir contents s v = v
link_target-IsValid nf3_blk contents s v = v
link_target-IsValid nf3_chr contents s v = v
link_target-IsValid nf3_sock contents s v = v
link_target-IsValid nf3_fifo contents s v = v

pub readlink-IsValid : (id : ℕ) (s : DemoFs) → IsValid s → IsValid (readlink id s).1
unfolding readlink
readlink-IsValid id s v =
    lock_then s v _ (get_then s v id _ λ e h. link_target-IsValid e.attr.ftype e.contents s v)

start_index-IsValid :
    (start_after : ℕ) (dir : List ℕ) (s : DemoFs)
    → IsValid s
    → IsValid (start_index start_after dir s).1
start_index-IsValid start_after dir s v =
    if-IsValid (ltb 0 start_after) _ _ s (at (position start_after dir)) v
  where
    at : (o : Option ℕ) → IsValid (after_position o s).1
    at none = v
    at (some pos) = v

list_entries-IsValid :
    (max_entries count : ℕ) (dir : List ℕ) (s : DemoFs)
    → IsValid s
    → IsValid (list_entries max_entries count dir s).1
unfolding list_entries
list_entries-IsValid max_entries count [] s v = v
list_entries-IsValid max_entries count (i ∷ dir) s v =
    let rest = list_entries-IsValid max_entries (count + 1) dir s v in
    index_then s v i _ λ f h.
      result_then
        ((if leb max_entries (count + 1) then pure [] else list_entries max_entries (count + 1) dir)
          s)
        _ (if-IsValid (leb max_entries (count + 1)) _ _ s v rest) λ r s' w. w

readdir_in-IsValid :
    (start_after max_entries : ℕ) (contents : FsContents) (s : DemoFs)
    → IsValid s
    → IsValid (readdir_in start_after max_entries contents s).1
readdir_in-IsValid start_after max_entries (file block) s v = v
readdir_in-IsValid start_after max_entries (directory dir) s v =
    result_then (start_index start_after dir s) _ (start_index-IsValid start_after dir s v)
      λ start s' w.
        result_then (list_entries max_entries 0 (drop start dir) s') _
          (list_entries-IsValid max_entries 0 (drop start dir) s' w) λ r s'' x. x

pub readdir-IsValid :
    (dirid start_after max_entries : ℕ) (s : DemoFs)
    → IsValid s
    → IsValid (readdir dirid start_after max_entries s).1
unfolding readdir
readdir-IsValid dirid start_after max_entries s v =
    lock_then s v _
      (get_then s v dirid _ λ e h. readdir_in-IsValid start_after max_entries e.contents s v)

slice-IsValid :
    (start end : ℕ) (bytes : Bytes) (s : DemoFs) → IsValid s → IsValid (slice start end bytes s).1
slice-IsValid start end bytes s v =
    if-IsValid (leb start end) _ _ s v (other-IsValid s true s.readings v)

read_in-IsValid :
    (offset count : ℕ) (contents : FsContents) (s : DemoFs)
    → IsValid s
    → IsValid (read_in offset count contents s).1
read_in-IsValid offset count (directory dir) s v = v
read_in-IsValid offset count (file block) s v = block_at_then s v block _ λ bytes.
    result_then
      (slice (min offset (length bytes)) (min (usize (offset + count)) (length bytes)) bytes s) _
      (slice-IsValid _ _ bytes s v) λ out s' w. w

pub read-IsValid :
    (id offset count : ℕ) (s : DemoFs) → IsValid s → IsValid (read id offset count s).1
unfolding read
read-IsValid id offset count s v =
    lock_then s v _ (get_then s v id _ λ e h. read_in-IsValid offset count e.contents s v)
