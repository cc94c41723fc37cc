-- ===== src/Demo/Invariant/Calls.antt =====
-- examples/demo_fs/fs.rs: every request leaves valid entries behind, and so do they all.
use nfs_mamont_mirror.Prelude.{
  ℕ, List, [], ◌∷◌, refl, arith, ◌≤◌, zero, suc, get_elem?, count, length,
}
use nfs_mamont_mirror.Demo.{DemoFs, Duration, Outcome, ok, err, panic, default}
use nfs_mamont_mirror.Demo.Tree.{children, create_exclusive}
use nfs_mamont_mirror.Demo.Session.{Request, done, perform, after_all}
use nfs_mamont_mirror.Demo.Invariant.{IsValid, block_end, child_of}
use nfs_mamont_mirror.Demo.Invariant.Queries.{
  lookup-IsValid, getattr-IsValid, read-IsValid, readdir-IsValid, readlink-IsValid,
}
use nfs_mamont_mirror.Demo.Invariant.Writes.{setattr-IsValid, write-IsValid, commit-IsValid}
use nfs_mamont_mirror.Demo.Invariant.News.{
  create-IsValid, mkdir-IsValid, symlink-IsValid, mknod-IsValid, link-IsValid,
}
use nfs_mamont_mirror.Demo.Invariant.Moves.{remove-IsValid, rename-IsValid}

done-IsValid : {A : Type 0} (r : Outcome A × DemoFs) → IsValid r.1 → IsValid (done r).1
done-IsValid (ok a, s) v = v
done-IsValid (err e, s) v = v
done-IsValid (panic, s) v = v

-- A request leaves valid entries behind, whether it returns, fails or panics.
pub perform-IsValid :
    (clock : ℕ → Duration) (r : Request) (s : DemoFs) → IsValid s → IsValid (perform clock r s).1
unfolding perform create_exclusive
perform-IsValid clock (Request.request_lookup d n) s v = done-IsValid _ (lookup-IsValid d n s v)
perform-IsValid clock (Request.request_getattr i) s v = done-IsValid _ (getattr-IsValid i s v)
perform-IsValid clock (Request.request_setattr i a) s v =
    done-IsValid _ (setattr-IsValid clock i a s v)
perform-IsValid clock (Request.request_read i o c) s v = done-IsValid _ (read-IsValid i o c s v)
perform-IsValid clock (Request.request_write i o b) s v = done-IsValid _ (write-IsValid i o b s v)
perform-IsValid clock (Request.request_create d n a) s v = done-IsValid _ (create-IsValid d n a s v)
perform-IsValid clock (Request.request_create_exclusive d n) s v = v
perform-IsValid clock (Request.request_mkdir d n) s v = done-IsValid _ (mkdir-IsValid clock d n s v)
perform-IsValid clock (Request.request_remove d n) s v = done-IsValid _ (remove-IsValid d n s v)
perform-IsValid clock (Request.request_rename f o t n) s v =
    done-IsValid _ (rename-IsValid f o t n s v)
perform-IsValid clock (Request.request_readdir d a m) s v =
    done-IsValid _ (readdir-IsValid d a m s v)
perform-IsValid clock (Request.request_symlink d n t a) s v =
    done-IsValid _ (symlink-IsValid clock d n t a s v)
perform-IsValid clock (Request.request_readlink i) s v = done-IsValid _ (readlink-IsValid i s v)
perform-IsValid clock (Request.request_link i d n) s v = done-IsValid _ (link-IsValid i d n s v)
perform-IsValid clock (Request.request_mknod d n f p a) s v =
    done-IsValid _ (mknod-IsValid clock d n f p a s v)
perform-IsValid clock (Request.request_commit i o c) s v =
    done-IsValid _ (commit-IsValid clock i o c s v)

pub default-IsValid : IsValid default
unfolding children
default-IsValid = record { once = at; stored = at_block; rooted = refl }
  where
    at : (d i : ℕ) → count i (children default.fs d) ≤ child_of d (get_elem? default.fs i)
    at zero i = omega arith
    at (suc zero) i = omega arith
    at (suc (suc d)) i = omega arith

    at_block : (k : ℕ) → block_end (get_elem? default.fs k) ≤ length default.blocks
    at_block zero = omega arith
    at_block (suc zero) = omega arith
    at_block (suc (suc k)) = omega arith

after_all_from-IsValid :
    (clock : ℕ → Duration) (requests : List Request) (s : DemoFs)
    → IsValid s
    → IsValid (after_all clock requests s)
unfolding after_all
after_all_from-IsValid clock [] s v = v
after_all_from-IsValid clock (r ∷ requests) s v =
    after_all_from-IsValid clock requests _ (perform-IsValid clock r s v)

-- Whatever requests a new file system has had, by whatever clock, and however they ended: every
-- directory lists each of its children once, and each is an entry with that directory as its
-- parent, so that none is in two directories; every file and link has its block; the root is a
-- directory.
pub after_all-IsValid :
    (clock : ℕ → Duration) (requests : List Request) → IsValid (after_all clock requests default)
after_all-IsValid clock requests = after_all_from-IsValid clock requests default default-IsValid
