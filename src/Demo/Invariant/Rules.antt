-- ===== src/Demo/Invariant/Rules.antt =====
-- examples/demo_fs/fs.rs: what a call leaves behind, action by action: each is followed by `k`.
use nfs_mamont_mirror.Prelude.{
  ℕ, ◌+◌, ◌≡◌, refl, Bool, true, false, Option, none, some, [], get_elem?, if◌then◌else◌, arith,
}
use mathlib.Core.Bool.{not}
use nfs_mamont_mirror.Xdr.Reader.{Bytes}
use nfs_mamont_mirror.Xdr.Nfs3.{NfsTime3}
use nfs_mamont_mirror.Xdr.Nfs3.Enums.{NfsStat3, nfs3err_notdir, nfs3err_exist}
use nfs_mamont_mirror.Mount.Text.{is_utf8}
use nfs_mamont_mirror.Demo.{
  FsEntry, DemoFs, Duration, ok, panic, Action, and_then, lock, require, ok_or, or_panic, get,
  index, text, now, Outcome, err,
}
use nfs_mamont_mirror.Demo.Names.{block_at}
use nfs_mamont_mirror.Demo.Tree.{unwrap, directory_at, in_directory, unless_taken, taken}
use nfs_mamont_mirror.Demo.Invariant.{IsValid, Alike-IsValid, Alike-refl}

-- The mutex and the clock are no part of it.
pub other-IsValid :
    (s : DemoFs) (b : Bool) (n : ℕ) → IsValid s → IsValid (record s { poisoned = b; readings = n })
other-IsValid s b n v =
    Alike-IsValid s (record s { poisoned = b; readings = n }) (λ k. Alike-refl (get_elem? s.fs k))
      (omega arith) v

module _ {B : Type 0} (s : DemoFs) (v : IsValid s) where
  pub lock_then : (k : Unit {0} → Action B) → IsValid (k tt s).1 → IsValid (and_then (lock s) k).1
  lock_then k next = at s.poisoned
    where
      at : (b : Bool) → IsValid (and_then (if b then (panic, s) else (ok tt, s)) k).1
      at true = v
      at false = next

  pub require_then :
      (b : Bool) (e : NfsStat3) (k : Unit {0} → Action B)
      → (b ≡ true → IsValid (k tt s).1)
      → IsValid (and_then (require b e s) k).1
  require_then true e k next = next refl
  require_then false e k next = v

  pub text_then :
      (name : Bytes) (k : Unit {0} → Action B)
      → IsValid (k tt s).1
      → IsValid (and_then (text name s) k).1
  unfolding text
  text_then name k next = at (is_utf8 [] name)
    where
      at :
          (b : Bool)
          → IsValid (and_then (if b then (ok tt, s) else (panic, record s { poisoned = true })) k).1
      at true = next
      at false = other-IsValid s true s.readings v

  pub ok_or_then :
      {A : Type 0} (e : NfsStat3) (o : Option A) (k : A → Action B)
      → ((a : A) → o ≡ some a → IsValid (k a s).1)
      → IsValid (and_then (ok_or e o s) k).1
  ok_or_then e none k next = v
  ok_or_then e (some a) k next = next a refl

  pub or_panic_then :
      {A : Type 0} (o : Option A) (k : A → Action B)
      → ((a : A) → o ≡ some a → IsValid (k a s).1)
      → IsValid (and_then (or_panic o s) k).1
  or_panic_then none k next = other-IsValid s true s.readings v
  or_panic_then (some a) k next = next a refl

  pub get_then :
      (id : ℕ) (k : FsEntry → Action B)
      → ((e : FsEntry) → get_elem? s.fs id ≡ some e → IsValid (k e s).1)
      → IsValid (and_then (get id s) k).1
  unfolding get
  get_then id k next = ok_or_then _ (get_elem? s.fs id) k next

  pub index_then :
      (id : ℕ) (k : FsEntry → Action B)
      → ((e : FsEntry) → get_elem? s.fs id ≡ some e → IsValid (k e s).1)
      → IsValid (and_then (index id s) k).1
  unfolding index
  index_then id k next = or_panic_then (get_elem? s.fs id) k next

  pub block_at_then :
      (block : ℕ) (k : Bytes → Action B)
      → ((b : Bytes) → IsValid (k b s).1)
      → IsValid (and_then (block_at block s) k).1
  unfolding block_at
  block_at_then block k next = or_panic_then (get_elem? s.blocks block) k λ b h. next b

  pub now_then :
      (clock : ℕ → Duration) (k : NfsTime3 → Action B)
      → ((t : NfsTime3) (n : ℕ)
          → IsValid (record s { readings = n })
          → IsValid (k t (record s { readings = n })).1)
      → IsValid (and_then (now clock s) k).1
  unfolding now
  now_then clock k next = next _ (s.readings + 1) (other-IsValid s s.poisoned (s.readings + 1) v)

-- The tests that calls begin with.
module _ {B : Type 0} (s : DemoFs) (v : IsValid s) (dirid : ℕ) where
  pub directory_then :
      (k : Unit {0} → Action B)
      → (directory_at s.fs dirid ≡ true → IsValid (k tt s).1)
      → IsValid (and_then (in_directory dirid s) k).1
  directory_then k next = require_then s v (directory_at s.fs dirid) nfs3err_notdir k next

  pub free_then :
      (name : Bytes) (k : Unit {0} → Action B)
      → IsValid (k tt s).1
      → IsValid (and_then (unless_taken dirid name s) k).1
  free_then name k next =
      require_then s v (not (taken s.fs dirid name)) nfs3err_exist k λ free. next

-- An action that leaves valid entries behind, whatever it returns.
pub result_then :
    {A B : Type 0} (r : Outcome A × DemoFs) (k : A → Action B)
    → IsValid r.1
    → ((a : A) (s : DemoFs) → IsValid s → IsValid (k a s).1)
    → IsValid (and_then r k).1
result_then (ok a, s) k v next = next a s v
result_then (err e, s) k v next = v
result_then (panic, s) k v next = v

pub unwrap-IsValid : {A : Type 0} (r : Outcome A × DemoFs) → IsValid r.1 → IsValid (unwrap r).1
unwrap-IsValid (ok a, s) v = v
unwrap-IsValid (err e, s) v = v
unwrap-IsValid (panic, s) v = v

pub if-IsValid :
    {A : Type 0} (b : Bool) (m n : Action A) (s : DemoFs)
    → IsValid (m s).1
    → IsValid (n s).1
    → IsValid ((if b then m else n) s).1
if-IsValid true m n s x y = x
if-IsValid false m n s x y = y
