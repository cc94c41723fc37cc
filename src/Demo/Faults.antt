-- ===== src/Demo/Faults.antt =====
-- examples/demo_fs/fs.rs: a panic under the mutex, and the requests that come after it.
use nfs_mamont_mirror.Prelude.{
  ltb, ◌%◌, ◌^◌, modify, ℕ, ◌+◌, ◌≡◌, ◌≤◌, ◌<◌, Bool, true, false, refl, List, [], ◌∷◌, some,
  get_elem?, length, leb, min, arith, Bool-cases, inl, ap, inr,
}
use nfs_mamont_mirror.Xdr.Reader.{Bytes}
use nfs_mamont_mirror.Xdr.Nfs3.{Fattr3, NfsTime3, Sattr3, SetAtime, SetMtime}
use nfs_mamont_mirror.Demo.{FsEntry, file, DemoFs, Duration, ok, panic, get, now}
use nfs_mamont_mirror.Demo.Names.{lookup, getattr, readlink, readdir, block_at}
use nfs_mamont_mirror.Demo.Contents.{
  write, read, setattr, commit, usize, new_atime, new_mtime, updated,
}
use nfs_mamont_mirror.Demo.Tree.{create, create_exclusive, mkdir, symlink, mknod, link}
use nfs_mamont_mirror.Demo.Moves.{remove, rename}
use nfs_mamont_mirror.Demo.Session.{Request, perform, after_all}

-- CREATE with EXCLUSIVE is refused before the mutex is taken; every other request takes it.
abbrev pub takes_lock : Request → Bool
takes_lock (Request.request_create_exclusive dirid name) = false
takes_lock r = true

perform-poisoned :
    (clock : ℕ → Duration) (r : Request) (s : DemoFs)
    → s.poisoned ≡ true
    → takes_lock r ≡ true
    → perform clock r s ≡ (panic, s)
unfolding perform lookup getattr setattr read write create mkdir remove rename readdir symlink
    readlink link mknod commit
perform-poisoned clock (Request.request_lookup d n) s p t = rw p refl
perform-poisoned clock (Request.request_getattr i) s p t = rw p refl
perform-poisoned clock (Request.request_setattr i a) s p t = rw p refl
perform-poisoned clock (Request.request_read i o c) s p t = rw p refl
perform-poisoned clock (Request.request_write i o b) s p t = rw p refl
perform-poisoned clock (Request.request_create d n a) s p t = rw p refl
perform-poisoned clock (Request.request_create_exclusive d n) s p t = cc
perform-poisoned clock (Request.request_mkdir d n) s p t = rw p refl
perform-poisoned clock (Request.request_remove d n) s p t = rw p refl
perform-poisoned clock (Request.request_rename f o t' n) s p t = rw p refl
perform-poisoned clock (Request.request_readdir d a m) s p t = rw p refl
perform-poisoned clock (Request.request_symlink d n t' a) s p t = rw p refl
perform-poisoned clock (Request.request_readlink i) s p t = rw p refl
perform-poisoned clock (Request.request_link i d n) s p t = rw p refl
perform-poisoned clock (Request.request_mknod d n f q a) s p t = rw p refl
perform-poisoned clock (Request.request_commit i o c) s p t = rw p refl

unlocked-same :
    (clock : ℕ → Duration) (r : Request) (s : DemoFs)
    → takes_lock r ≡ false
    → (perform clock r s).1 ≡ s
unfolding perform create_exclusive
unlocked-same clock (Request.request_create_exclusive d n) s t = refl
unlocked-same clock r s t = cc

-- Requests that find the mutex poisoned leave everything as it is.
pub after_all-poisoned :
    (clock : ℕ → Duration) (requests : List Request) (s : DemoFs)
    → s.poisoned ≡ true
    → after_all clock requests s ≡ s
unfolding after_all
after_all-poisoned clock [] s p = refl
after_all-poisoned clock (r ∷ requests) s p =
    let same : (perform clock r s).1 ≡ s = elim (Bool-cases (takes_lock r)) [
      | inl t ↦ ap (λ x. x.1) (perform-poisoned clock r s p t)
      | inr f ↦ unlocked-same clock r s f
    ] in
    rw same (after_all-poisoned clock requests s p)

read-panics :
    (id offset count block : ℕ) (bytes : Bytes) (e : FsEntry) (s : DemoFs)
    → s.poisoned ≡ false
    → get_elem? s.fs id ≡ some e
    → e.contents ≡ file block
    → get_elem? s.blocks block ≡ some bytes
    → length bytes ≤ offset
    → usize (offset + count) < length bytes
    → read id offset count s ≡ (panic, record s { poisoned = true })
unfolding read get block_at
read-panics id offset count block bytes e s p there is_file stored past short =
    let m : min offset (length bytes) ≡ length bytes = omega arith in
    let n : min (usize (offset + count)) (length bytes) ≡ usize (offset + count) = omega arith in
    let bad : leb (length bytes) (usize (offset + count)) ≡ false = ground arith in
    rw (p, there, is_file, stored, m, n, bad) refl

-- A READ of a file whose offset and count add up to 2 ^ 64 or more, so that the end of the range
-- wraps round to a place inside the file while its start does not, panics with the mutex held. From
-- then on nothing changes: whatever requests follow leave the entries as the READ left them, and
-- each later one panics as well, but for an exclusive CREATE.
pub read_overflow-stops :
    (clock : ℕ → Duration) (requests : List Request) (r : Request) (id offset count block : ℕ)
    (bytes : Bytes) (e : FsEntry) (s : DemoFs)
    → s.poisoned ≡ false
    → get_elem? s.fs id ≡ some e
    → e.contents ≡ file block
    → get_elem? s.blocks block ≡ some bytes
    → length bytes ≤ offset
    → usize (offset + count) < length bytes
    → takes_lock r ≡ true
    → (read id offset count s ≡ (panic, record s { poisoned = true }))
      × (after_all clock requests (read id offset count s).1 ≡ record s { poisoned = true })
      × (perform clock r (after_all clock requests (read id offset count s).1)
          ≡ (panic, record s { poisoned = true }))
read_overflow-stops clock requests r id offset count block bytes e s p there is_file stored past
      short t =
    let here = read-panics id offset count block bytes e s p there is_file stored past short in
    let stuck = after_all-poisoned clock requests (record s { poisoned = true }) refl in
    (
      here,
      rw here stuck,
      rw (here, stuck) (perform-poisoned clock r (record s { poisoned = true }) refl t),
    )

-- The state that the panic of such a SETATTR leaves: the attributes are new and the bytes as before.
abbrev pub stopped : ℕ → Fattr3 → ℕ → DemoFs → DemoFs
stopped id attr n s = record s {
  fs = modify id (λ e. record e { attr = attr }) s.fs;
  poisoned = true;
  readings = n;
}

pub new_atime-run :
    (clock : ℕ → Duration) (how : SetAtime) (old : NfsTime3) (s : DemoFs)
    → (t : NfsTime3) × (n : ℕ) × (new_atime clock how old s ≡ (ok t, record s { readings = n }))
unfolding now
new_atime-run clock SetAtime.dont_change old s = (old, s.readings, refl)
new_atime-run clock SetAtime.set_to_server_time old s =
    let d = clock s.readings in
    (record { seconds = d.secs % 2 ^ 32; nseconds = d.nanos }, s.readings + 1, refl)
new_atime-run clock (SetAtime.set_to_client_time c) old s = (c, s.readings, refl)

pub new_mtime-run :
    (clock : ℕ → Duration) (how : SetMtime) (old : NfsTime3) (s : DemoFs)
    → (t : NfsTime3) × (n : ℕ) × (new_mtime clock how old s ≡ (ok t, record s { readings = n }))
unfolding now
new_mtime-run clock SetMtime.dont_change old s = (old, s.readings, refl)
new_mtime-run clock SetMtime.set_to_server_time old s =
    let d = clock s.readings in
    (record { seconds = d.secs % 2 ^ 32; nseconds = d.nanos }, s.readings + 1, refl)
new_mtime-run clock (SetMtime.set_to_client_time c) old s = (c, s.readings, refl)

setattr-panics :
    (clock : ℕ → Duration) (id size block : ℕ) (bytes : Bytes) (changes : Sattr3) (e : FsEntry)
    (s : DemoFs)
    → s.poisoned ≡ false
    → get_elem? s.fs id ≡ some e
    → e.contents ≡ file block
    → get_elem? s.blocks block ≡ some bytes
    → changes.size ≡ some size
    → 2 ^ 63 ≤ size
    → size < 2 ^ 64
    → (attr : Fattr3) × (n : ℕ) × (setattr clock id changes s ≡ (panic, stopped id attr n s))
      × (attr.size ≡ size)
unfolding setattr get block_at now
setattr-panics clock id size block bytes changes e s p there is_file stored is_size large fits =
    let full : ltb (usize size) (2 ^ 63) ≡ false = ground arith in
    let s0 = record s { poisoned = false } in
    let (atime, n, first) = new_atime-run clock changes.atime e.attr.atime s0 in
    let (mtime, m, second) =
      new_mtime-run clock changes.mtime e.attr.mtime (record s0 { readings = n }) in
    (
      updated changes atime mtime e.attr,
      m,
      rw (p, there, first, second, is_size, is_file, stored, full) refl,
      rw is_size refl,
    )

-- A SETATTR that gives a file a size, a 64-bit number, of at least 2 ^ 63, with the mutex not poisoned, panics with
-- the mutex held, as a vector of bytes cannot be that long. The entry then has the size that was
-- asked for, while the bytes are as they were. From then on nothing changes: whatever requests
-- follow leave the entries so, and each later one panics as well, but for an exclusive CREATE.
pub setattr_overflow-stops :
    (clock : ℕ → Duration) (requests : List Request) (r : Request) (id size block : ℕ)
    (bytes : Bytes) (changes : Sattr3) (e : FsEntry) (s : DemoFs)
    → s.poisoned ≡ false
    → get_elem? s.fs id ≡ some e
    → e.contents ≡ file block
    → get_elem? s.blocks block ≡ some bytes
    → changes.size ≡ some size
    → 2 ^ 63 ≤ size
    → size < 2 ^ 64
    → takes_lock r ≡ true
    → (attr : Fattr3) × (n : ℕ) × (setattr clock id changes s ≡ (panic, stopped id attr n s))
      × (attr.size ≡ size)
      × (after_all clock requests (setattr clock id changes s).1 ≡ stopped id attr n s)
      × (perform clock r (after_all clock requests (setattr clock id changes s).1)
          ≡ (panic, stopped id attr n s))
setattr_overflow-stops clock requests r id size block bytes changes e s p there is_file stored
      is_size large fits t =
    let (attr, n, here, of_size) =
      setattr-panics clock id size block bytes changes e s p there is_file stored is_size large
        fits in
    let stuck = after_all-poisoned clock requests (stopped id attr n s) refl in
    (
      attr,
      n,
      here,
      of_size,
      rw here stuck,
      rw (here, stuck) (perform-poisoned clock r (stopped id attr n s) refl t),
    )
