-- ===== src/Demo/Invariant/Writes.antt =====
-- examples/demo_fs/fs.rs: WRITE, SETATTR and COMMIT leave valid entries behind.
use nfs_mamont_mirror.Prelude.{
  ◌^◌, ℕ, zero, suc, ◌+◌, refl, Bool, true, false, Option, none, some, List, [], ◌∷◌, length,
  get_elem?, length-modify, if◌then◌else◌, ltb, leb, arith,
}
use nfs_mamont_mirror.Xdr.Reader.{Bytes}
use nfs_mamont_mirror.Xdr.Nfs3.{NfsTime3, Fattr3, Sattr3, SetAtime, SetMtime}
use nfs_mamont_mirror.Demo.{
  FsEntry, FsContents, file, directory, DemoFs, Duration, Action, and_then, set_mtime, assign,
}
use nfs_mamont_mirror.Demo.Contents.{
  usize, resize, splice, store, file_of, copy_in, shares, set_size, set_sizes, all_sizes, write,
  new_atime, new_mtime, updated, resize_file, setattr, commit, grow,
}
use nfs_mamont_mirror.Demo.Invariant.{
  IsValid, Alike, Alike-IsValid, Alike-refl, Quiet, Quiet-IsValid,
}
use nfs_mamont_mirror.Demo.Invariant.Rules.{
  lock_then, get_then, now_then, block_at_then, result_then, other-IsValid, if-IsValid,
}
use nfs_mamont_mirror.Demo.Invariant.Queries.{getattr-IsValid}

pub store-IsValid :
    (block : ℕ) (bytes : Bytes) (s : DemoFs) → IsValid s → IsValid (store block bytes s).1
store-IsValid block bytes s v =
    Alike-IsValid s (store block bytes s).1 (λ k. Alike-refl (get_elem? s.fs k))
      (rw length-modify (omega arith)) v

Alike-set_size :
    (b : Bool) (n : ℕ) (e : FsEntry) → Alike (some e) (some (if b then set_size n e else e))
Alike-set_size true n e = record {
  same_children = refl;
  same_parent = λ d. refl;
  same_block = refl;
  same_kind = refl;
}
Alike-set_size false n e = Alike-refl (some e)

Alike-set_sizes :
    (block n : ℕ) (fs : List FsEntry) (k : ℕ)
    → Alike (get_elem? fs k) (get_elem? (set_sizes block n fs) k)
unfolding set_sizes
Alike-set_sizes block n [] zero = Alike-refl none
Alike-set_sizes block n [] (suc k) = Alike-refl none
Alike-set_sizes block n (e ∷ fs) zero = Alike-set_size (shares block e.contents) n e
Alike-set_sizes block n (e ∷ fs) (suc k) = Alike-set_sizes block n fs k

all_sizes-IsValid : (block n : ℕ) (s : DemoFs) → IsValid s → IsValid (all_sizes block n s).1
all_sizes-IsValid block n s v =
    Alike-IsValid s (all_sizes block n s).1 (Alike-set_sizes block n s.fs) (omega arith) v

copy_in-IsValid :
    (offset end : ℕ) (new : Bytes) (block : ℕ) (bytes : Bytes) (s : DemoFs)
    → IsValid s
    → IsValid (copy_in offset end new block bytes s).1
copy_in-IsValid offset end new block bytes s v =
    if-IsValid (leb offset end) _ _ s (store-IsValid block (splice offset new bytes) s v)
      (other-IsValid s true s.readings v)

file_of_then :
    {B : Type 0} (s : DemoFs) (v : IsValid s) (c : FsContents) (k : ℕ → Action B)
    → ((b : ℕ) → IsValid (k b s).1)
    → IsValid (and_then (file_of c s) k).1
file_of_then s v (file b) k next = next b
file_of_then s v (directory dir) k next = v

resize-IsValid : (len : ℕ) (bytes : Bytes) (s : DemoFs) → IsValid s → IsValid (resize len bytes s).1
resize-IsValid len bytes s v =
    if-IsValid (ltb len (2 ^ 63)) _ _ s v (other-IsValid s true s.readings v)

grow-IsValid : (end : ℕ) (bytes : Bytes) (s : DemoFs) → IsValid s → IsValid (grow end bytes s).1
unfolding grow
grow-IsValid end bytes s v =
    if-IsValid (ltb (length bytes) end) _ _ s (resize-IsValid end bytes s v) v

pub write-IsValid :
    (id offset : ℕ) (new : Bytes) (s : DemoFs) → IsValid s → IsValid (write id offset new s).1
unfolding write
write-IsValid id offset new s v = lock_then s v _ (
    get_then s v id _ λ e h. file_of_then s v e.contents _ λ block.
      block_at_then s v block _ λ bytes.
        let end = usize (offset + length new) in
        result_then (grow end bytes s) _ (grow-IsValid end bytes s v) λ longer s' w.
          let s1 = (store block longer s').1 in
          result_then (copy_in offset end new block longer s1) _
            (copy_in-IsValid offset end new block longer s1 (store-IsValid block longer s' w))
            λ u s'' x. getattr-IsValid id _ (all_sizes-IsValid block (length longer) s'' x))

new_atime_then :
    {B : Type 0} (clock : ℕ → Duration) (how : SetAtime) (old : NfsTime3) (s : DemoFs)
    (v : IsValid s)
    → (k : NfsTime3 → Action B)
    → ((t : NfsTime3) (n : ℕ)
        → IsValid (record s { readings = n })
        → IsValid (k t (record s { readings = n })).1)
    → IsValid (and_then (new_atime clock how old s) k).1
new_atime_then clock SetAtime.dont_change old s v k next = next old s.readings v
new_atime_then clock SetAtime.set_to_server_time old s v k next = now_then s v clock k next
new_atime_then clock (SetAtime.set_to_client_time c) old s v k next = next c s.readings v

new_mtime_then :
    {B : Type 0} (clock : ℕ → Duration) (how : SetMtime) (old : NfsTime3) (s : DemoFs)
    (v : IsValid s)
    → (k : NfsTime3 → Action B)
    → ((t : NfsTime3) (n : ℕ)
        → IsValid (record s { readings = n })
        → IsValid (k t (record s { readings = n })).1)
    → IsValid (and_then (new_mtime clock how old s) k).1
new_mtime_then clock SetMtime.dont_change old s v k next = next old s.readings v
new_mtime_then clock SetMtime.set_to_server_time old s v k next = now_then s v clock k next
new_mtime_then clock (SetMtime.set_to_client_time c) old s v k next = next c s.readings v

resize_file-IsValid :
    (size : Option ℕ) (contents : FsContents) (s : DemoFs)
    → IsValid s
    → IsValid (resize_file size contents s).1
resize_file-IsValid none contents s v = v
resize_file-IsValid (some size) (directory dir) s v = v
resize_file-IsValid (some size) (file block) s v = block_at_then s v block _ λ bytes.
    result_then (resize (usize size) bytes s) _ (resize-IsValid (usize size) bytes s v)
      λ longer s' w. store-IsValid block longer s' w

with_attr-Quiet : (a : Fattr3) → Quiet (λ e. record e { attr = a })
unfolding Quiet
with_attr-Quiet a e = (refl, refl)

pub setattr-IsValid :
    (clock : ℕ → Duration) (id : ℕ) (changes : Sattr3) (s : DemoFs)
    → IsValid s
    → IsValid (setattr clock id changes s).1
unfolding setattr
setattr-IsValid clock id changes s v = lock_then s v _ (
    get_then s v id _ λ entry h.
      new_atime_then clock changes.atime entry.attr.atime s v _ λ atime n w.
        new_mtime_then clock changes.mtime entry.attr.mtime (record s { readings = n }) w _
          λ mtime m x.
            let attr = updated changes atime mtime entry.attr in
            let s' = (assign id (λ e. record e { attr = attr }) (record s { readings = m })).1 in
            let y = Quiet-IsValid id (λ e. record e { attr = attr }) _ (with_attr-Quiet attr) x in
            result_then (resize_file changes.size entry.contents s') _
              (resize_file-IsValid changes.size entry.contents s' y) λ u s'' z. z)

pub commit-IsValid :
    (clock : ℕ → Duration) (id offset count : ℕ) (s : DemoFs)
    → IsValid s
    → IsValid (commit clock id offset count s).1
unfolding commit Quiet
commit-IsValid clock id offset count s v = lock_then s v _ (
    get_then s v id _ λ entry h.
      now_then s v clock _ λ t n w. Quiet-IsValid id (set_mtime t) _ (λ e. (refl, refl)) w)
