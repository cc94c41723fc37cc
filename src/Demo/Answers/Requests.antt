-- ===== src/Demo/Answers/Requests.antt =====
-- examples/demo_fs/fs.rs: which requests are sure to be answered.
use nfs_mamont_mirror.Prelude.{
  get_elem?, some, ℕ, ◌+◌, ◌^◌, ◌≡◌, ◌<◌, refl, List, [], ◌∷◌, true, false, length,
}
use nfs_mamont_mirror.Mount.Text.{is_utf8}
use nfs_mamont_mirror.Demo.{DemoFs, Duration, Outcome, ok, err, panic, default}
use nfs_mamont_mirror.Demo.Tree.{create_exclusive}
use nfs_mamont_mirror.Demo.Session.{Request, done, perform, after_all}
use nfs_mamont_mirror.Demo.Files.{block_of}
use nfs_mamont_mirror.Demo.Invariant.{IsValid}
use nfs_mamont_mirror.Demo.Invariant.Calls.{perform-IsValid, default-IsValid}
use nfs_mamont_mirror.Demo.Answers.{Answers}
use nfs_mamont_mirror.Demo.Answers.Queries.{
  getattr-Answers, lookup-Answers, readlink-Answers, readdir-Answers, read-Answers,
}
use nfs_mamont_mirror.Demo.Answers.Changes.{write-Answers, setattr-Answers, commit-Answers}
use nfs_mamont_mirror.Demo.Answers.News.{
  create-Answers, mkdir-Answers, symlink-Answers, mknod-Answers, link-Answers,
}
use nfs_mamont_mirror.Demo.Answers.Moves.{remove-Answers, rename-Answers}

-- READ ends below 2 ^ 64, WRITE to a file below 2 ^ 63, as does a file after SETATTR; the name of a new entry is UTF-8, except that LINK takes any;
-- the directory of CREATE and the source of RENAME are places of entries.
abbrev pub Fits : Request → DemoFs → Type 0
Fits (Request.request_read id offset len) s = offset + len < 2 ^ 64
Fits (Request.request_write id offset new) s =
    (b : ℕ) → block_of (get_elem? s.fs id) ≡ some b → offset + length new < 2 ^ 63
Fits (Request.request_setattr id changes) s =
    (n b : ℕ) → changes.size ≡ some n → block_of (get_elem? s.fs id) ≡ some b → n < 2 ^ 63
Fits (Request.request_create dirid name attr) s = (is_utf8 [] name ≡ true) × (dirid < length s.fs)
Fits (Request.request_mkdir dirid name) s = is_utf8 [] name ≡ true
Fits (Request.request_symlink dirid name target attr) s = is_utf8 [] name ≡ true
Fits (Request.request_mknod dirid name ftype spec attrs) s = is_utf8 [] name ≡ true
Fits (Request.request_rename from old to new) s = from < length s.fs
Fits r s = Unit {0}

-- Each request of a sequence fits the entries that it meets.
unfoldable pub AllFit : (ℕ → Duration) → List Request → DemoFs → Type 0
AllFit clock [] s = Unit {0}
AllFit clock (r ∷ requests) s = Fits r s × AllFit clock requests (perform clock r s).1

done-Answers : {A : Type 0} (r : Outcome A × DemoFs) → Answers r → Answers (done r)
done-Answers (ok a, s) h = h
done-Answers (err e, s) h = h
done-Answers (panic, s) h = h

pub perform-Answers :
    (clock : ℕ → Duration) (r : Request) (s : DemoFs)
    → IsValid s
    → s.poisoned ≡ false
    → Fits r s
    → Answers (perform clock r s)
unfolding perform create_exclusive
perform-Answers clock (Request.request_lookup d n) s v p f = done-Answers _ (lookup-Answers d n s p)
perform-Answers clock (Request.request_getattr i) s v p f = done-Answers _ (getattr-Answers i s p)
perform-Answers clock (Request.request_setattr i a) s v p f =
    done-Answers _ (setattr-Answers clock i a s v p f)
perform-Answers clock (Request.request_read i o c) s v p f =
    done-Answers _ (read-Answers i o c s v p f)
perform-Answers clock (Request.request_write i o b) s v p f =
    done-Answers _ (write-Answers i o b s v p f)
perform-Answers clock (Request.request_create d n a) s v p f =
    done-Answers _ (create-Answers d n a s p f.0 f.1)
perform-Answers clock (Request.request_create_exclusive d n) s v p f = p
perform-Answers clock (Request.request_mkdir d n) s v p f =
    done-Answers _ (mkdir-Answers clock d n s p f)
perform-Answers clock (Request.request_remove d n) s v p f =
    done-Answers _ (remove-Answers d n s v p)
perform-Answers clock (Request.request_rename d o t n) s v p f =
    done-Answers _ (rename-Answers d o t n s p f)
perform-Answers clock (Request.request_readdir d a m) s v p f =
    done-Answers _ (readdir-Answers d a m s v p)
perform-Answers clock (Request.request_symlink d n t a) s v p f =
    done-Answers _ (symlink-Answers clock d n t a s p f)
perform-Answers clock (Request.request_readlink i) s v p f =
    done-Answers _ (readlink-Answers i s v p)
perform-Answers clock (Request.request_link i d n) s v p f = done-Answers _ (link-Answers i d n s p)
perform-Answers clock (Request.request_mknod d n t q a) s v p f =
    done-Answers _ (mknod-Answers clock d n t q a s p f)
perform-Answers clock (Request.request_commit i o c) s v p f =
    done-Answers _ (commit-Answers clock i o c s p)

answered-free : {A : Type 0} (r : Outcome A × DemoFs) → Answers r → r.1.poisoned ≡ false
answered-free (ok a, s) h = h
answered-free (err e, s) h = h
answered-free (panic, s) h = absurd h

after_all-answered :
    (clock : ℕ → Duration) (requests : List Request) (r : Request) (s : DemoFs)
    → IsValid s
    → s.poisoned ≡ false
    → AllFit clock requests s
    → Fits r (after_all clock requests s)
    → Answers (perform clock r (after_all clock requests s))
unfolding after_all AllFit
after_all-answered clock [] r s v p all fits = perform-Answers clock r s v p fits
after_all-answered clock (q ∷ requests) r s v p all fits =
    after_all-answered clock requests r (perform clock q s).1 (perform-IsValid clock q s v)
      (answered-free (perform clock q s) (perform-Answers clock q s v p all.0)) all.1 fits

-- A new file system that has had any requests, each of which fitted what it met, answers the next
-- one that fits: it ends with a result or a status and not in a panic, and leaves the mutex free.
-- To fit, a READ has to end below 2 ^ 64; a WRITE to a file has to end below 2 ^ 63, and the size
-- that a SETATTR gives to a file has to be below 2 ^ 63; the name of a new entry has to be UTF-8,
-- except that LINK takes any; and the directory of a CREATE and the source directory of a RENAME
-- have to be numbers of entries. All other requests fit.
pub after_all-Answers :
    (clock : ℕ → Duration) (requests : List Request) (r : Request)
    → AllFit clock requests default
    → Fits r (after_all clock requests default)
    → Answers (perform clock r (after_all clock requests default))
after_all-Answers clock requests r all fits =
    after_all-answered clock requests r default default-IsValid refl all fits
