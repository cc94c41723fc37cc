-- ===== src/Demo/Answers.antt =====
-- examples/demo_fs/fs.rs: calls that do not panic, action by action: each is followed by `k`.
pub mod Queries
pub mod Changes
pub mod News
pub mod Moves
pub mod Requests
use nfs_mamont_mirror.Prelude.{
  ℕ, zero, suc, ◌+◌, ◌≡◌, ◌≤◌, ◌<◌, refl, Bool, true, false, not, Option, none, some, List, [], ◌∷◌,
  ◌++◌, length, length-append, length-modify, get_elem?, modify, if◌then◌else◌, arith, ap,
}
use nfs_mamont_mirror.Xdr.Reader.{Bytes}
use nfs_mamont_mirror.Xdr.Nfs3.{NfsTime3}
use nfs_mamont_mirror.Xdr.Nfs3.Enums.{NfsStat3, nfs3err_notdir, nfs3err_exist}
use nfs_mamont_mirror.Mount.Text.{is_utf8}
use nfs_mamont_mirror.Demo.{
  FsEntry, FsContents, file, directory, DemoFs, Duration, Outcome, ok, err, panic, Action, and_then,
  lock, require, ok_or, or_panic, get, index, text, now, attach,
}
use nfs_mamont_mirror.Demo.Names.{block_at}
use nfs_mamont_mirror.Demo.Tree.{directory_at, is_dir_entry, in_directory, unless_taken, taken}

-- A call ends with a result or a status, and the mutex is not poisoned.
abbrev pub Answers : {A : Type 0} → Outcome A × DemoFs → Type 0
Answers (ok a, s) = s.poisoned ≡ false
Answers (err e, s) = s.poisoned ≡ false
Answers (panic, s) = ⊥

pub there_is :
    {A : Type 0} (xs : List A) (i : ℕ) → i < length xs → (x : A) × (get_elem? xs i ≡ some x)
there_is [] i h = absurd (omega (arith, h))
there_is (x ∷ xs) zero h = (x, refl)
there_is (x ∷ xs) (suc i) h = there_is xs i (omega (arith, h))

pub directory-lt : (fs : List FsEntry) (i : ℕ) → directory_at fs i ≡ true → i < length fs
directory-lt [] i h = cc
directory-lt (x ∷ fs) zero h = omega arith
directory-lt (x ∷ fs) (suc i) h = omega (arith, directory-lt fs i h)

module _ {B : Type 0} (s : DemoFs) (free : s.poisoned ≡ false) where
  pub lock-Answers : (k : Unit {0} → Action B) → Answers (k tt s) → Answers (and_then (lock s) k)
  lock-Answers k next = at s.poisoned free
    where
      at : (b : Bool) → b ≡ false → Answers (and_then (if b then (panic, s) else (ok tt, s)) k)
      at true h = cc
      at false h = next

  pub require-Answers :
      (b : Bool) (e : NfsStat3) (k : Unit {0} → Action B)
      → (b ≡ true → Answers (k tt s))
      → Answers (and_then (require b e s) k)
  require-Answers true e k next = next refl
  require-Answers false e k next = free

  pub text-Answers :
      (name : Bytes) (k : Unit {0} → Action B)
      → is_utf8 [] name ≡ true
      → Answers (k tt s)
      → Answers (and_then (text name s) k)
  unfolding text
  text-Answers name k is_text next = rw is_text next

  pub ok_or-Answers :
      {A : Type 0} (e : NfsStat3) (o : Option A) (k : A → Action B)
      → ((a : A) → o ≡ some a → Answers (k a s))
      → Answers (and_then (ok_or e o s) k)
  ok_or-Answers e none k next = free
  ok_or-Answers e (some a) k next = next a refl

  pub get-Answers :
      (id : ℕ) (k : FsEntry → Action B)
      → ((e : FsEntry) → get_elem? s.fs id ≡ some e → Answers (k e s))
      → Answers (and_then (get id s) k)
  unfolding get
  get-Answers id k next = ok_or-Answers _ (get_elem? s.fs id) k next

  pub index-Answers :
      (id : ℕ) (k : FsEntry → Action B)
      → id < length s.fs
      → ((e : FsEntry) → get_elem? s.fs id ≡ some e → Answers (k e s))
      → Answers (and_then (index id s) k)
  unfolding index
  index-Answers id k h next = let (e, here) = there_is s.fs id h in rw here (next e here)

  pub block_at-Answers :
      (block : ℕ) (k : Bytes → Action B)
      → block < length s.blocks
      → ((b : Bytes) → Answers (k b s))
      → Answers (and_then (block_at block s) k)
  unfolding block_at
  block_at-Answers block k h next = let (b, here) = there_is s.blocks block h in rw here (next b)

  pub now-Answers :
      (clock : ℕ → Duration) (k : NfsTime3 → Action B)
      → ((t : NfsTime3) (n : ℕ) → Answers (k t (record s { readings = n })))
      → Answers (and_then (now clock s) k)
  unfolding now
  now-Answers clock k next = next _ (s.readings + 1)

  pub directory-Answers :
      (dirid : ℕ) (k : Unit {0} → Action B)
      → (dirid < length s.fs → Answers (k tt s))
      → Answers (and_then (in_directory dirid s) k)
  directory-Answers dirid k next =
      require-Answers (directory_at s.fs dirid) nfs3err_notdir k
        λ is_dir. next (directory-lt s.fs dirid is_dir)

  pub free-Answers :
      (dirid : ℕ) (name : Bytes) (k : Unit {0} → Action B)
      → Answers (k tt s)
      → Answers (and_then (unless_taken dirid name s) k)
  free-Answers dirid name k next =
      require-Answers (not (taken s.fs dirid name)) nfs3err_exist k λ none_there. next

  -- A new entry: there is then one more.
  pub attach-Answers :
      (e : FsEntry) (newid dirid : ℕ) (k : Unit {0} → Action B)
      → dirid < length s.fs
      → ((fs : List FsEntry)
          → length fs ≡ suc (length s.fs)
          → Answers (k tt (record s { fs = fs })))
      → Answers (and_then (attach e newid dirid s) k)
  unfolding attach index
  attach-Answers e newid dirid k h next =
      let more = length-append s.fs (e ∷ []) in
      let (d, here) = there_is (s.fs ++ e ∷ []) dirid (omega arith) in
      rw here (next _ (rw length-modify (omega arith)))

-- An action that answers.
pub result-Answers :
    {A B : Type 0} (r : Outcome A × DemoFs) (k : A → Action B)
    → Answers r
    → ((a : A) (s : DemoFs) → s.poisoned ≡ false → Answers (k a s))
    → Answers (and_then r k)
result-Answers (ok a, s) k free next = next a s free
result-Answers (err e, s) k free next = free
result-Answers (panic, s) k free next = absurd free

pub if-Answers :
    {A : Type 0} (b : Bool) (m n : Action A) (s : DemoFs)
    → Answers (m s)
    → Answers (n s)
    → Answers ((if b then m else n) s)
if-Answers true m n s x y = x
if-Answers false m n s x y = y
