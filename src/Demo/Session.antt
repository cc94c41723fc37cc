-- ===== src/Demo/Session.antt =====
-- examples/demo_fs/fs.rs: the methods of the file system as requests, one after another. A method
-- holds the mutex until it returns, but for WRITE and CREATE, which release it and take it again
-- for the GETATTR at their end: no request of another client is put in between.
use nfs_mamont_mirror.Prelude.{ℕ, List, [], ◌∷◌}
use nfs_mamont_mirror.Xdr.Reader.{Bytes}
use nfs_mamont_mirror.Xdr.Nfs3.{Sattr3, Specdata3}
use nfs_mamont_mirror.Xdr.Nfs3.Enums.{Ftype3}
use nfs_mamont_mirror.Demo.{DemoFs, Duration, Action, Outcome, ok, err, panic}
use nfs_mamont_mirror.Demo.Names.{lookup, getattr, readlink, readdir}
use nfs_mamont_mirror.Demo.Contents.{write, read, setattr, commit}
use nfs_mamont_mirror.Demo.Tree.{create, create_exclusive, mkdir, symlink, mknod, link}
use nfs_mamont_mirror.Demo.Moves.{remove, rename}

pub data Request : Type 0 where
  request_lookup : ℕ → Bytes → Request
  request_getattr : ℕ → Request
  request_setattr : ℕ → Sattr3 → Request
  request_read : ℕ → ℕ → ℕ → Request
  request_write : ℕ → ℕ → Bytes → Request
  request_create : ℕ → Bytes → Sattr3 → Request
  request_create_exclusive : ℕ → Bytes → Request
  request_mkdir : ℕ → Bytes → Request
  request_remove : ℕ → Bytes → Request
  request_rename : ℕ → Bytes → ℕ → Bytes → Request
  request_readdir : ℕ → ℕ → ℕ → Request
  request_symlink : ℕ → Bytes → Bytes → Sattr3 → Request
  request_readlink : ℕ → Request
  request_link : ℕ → ℕ → Bytes → Request
  request_mknod : ℕ → Bytes → Ftype3 → Specdata3 → Sattr3 → Request
  request_commit : ℕ → ℕ → ℕ → Request

-- How a request ends, without its answer.
abbrev pub done : {A : Type 0} → Outcome A × DemoFs → Outcome (Unit {0}) × DemoFs
done (ok a, s) = (ok tt, s)
done (err e, s) = (err e, s)
done (panic, s) = (panic, s)

unfoldable pub perform : (ℕ → Duration) → Request → Action (Unit {0})
perform clock (request_lookup dirid name) s = done (lookup dirid name s)
perform clock (request_getattr id) s = done (getattr id s)
perform clock (request_setattr id changes) s = done (setattr clock id changes s)
perform clock (request_read id offset count) s = done (read id offset count s)
perform clock (request_write id offset new) s = done (write id offset new s)
perform clock (request_create dirid name attr) s = done (create dirid name attr s)
perform clock (request_create_exclusive dirid name) s = done (create_exclusive dirid name s)
perform clock (request_mkdir dirid name) s = done (mkdir clock dirid name s)
perform clock (request_remove dirid name) s = done (remove dirid name s)
perform clock (request_rename from old to new) s = done (rename from old to new s)
perform clock (request_readdir dirid start_after max_entries) s =
    done (readdir dirid start_after max_entries s)
perform clock (request_symlink dirid name target attr) s =
    done (symlink clock dirid name target attr s)
perform clock (request_readlink id) s = done (readlink id s)
perform clock (request_link id dirid name) s = done (link id dirid name s)
perform clock (request_mknod dirid name ftype spec attrs) s =
    done (mknod clock dirid name ftype spec attrs s)
perform clock (request_commit id offset count) s = done (commit clock id offset count s)

-- The entries after some requests, whatever became of them.
unfoldable pub after_all : (ℕ → Duration) → List Request → DemoFs → DemoFs
after_all clock [] s = s
after_all clock (r ∷ requests) s = after_all clock requests (perform clock r s).1
