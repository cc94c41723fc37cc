-- ===== src/Demo.antt =====
-- examples/demo_fs: fs_contents.rs, fs_entry.rs and the state of fs.rs. A file is shared by its
-- hard links, so its bytes stand in a list of blocks and an `Arc` is a position in it. The mutex
-- round the entries is poisoned by a panic under it. The clock is a function of how often it has
-- been read.
pub mod Names
pub mod Contents
pub mod Tree
pub mod Moves
pub mod Session
pub mod Faults
pub mod Splice
pub mod Files
pub mod Resized
pub mod Directory
pub mod Unlinked
pub mod Pages
pub mod Answers
pub mod Invariant
use nfs_mamont_mirror.Prelude.{
  ℕ, zero, suc, ◌+◌, ◌%◌, ◌^◌, ◌==◌, Bool, true, false, Option, none, some, List, [], ◌∷◌, ◌++◌,
  length, get_elem?, modify, if◌then◌else◌,
}
use nfs_mamont_mirror.Xdr.Reader.{Bytes}
use nfs_mamont_mirror.Xdr.Nfs3.{Fattr3, NfsTime3, Specdata3}
use nfs_mamont_mirror.Xdr.Nfs3.Enums.{Ftype3, nf3_reg, nf3_dir, NfsStat3, nfs3err_noent}
use nfs_mamont_mirror.Mount.Text.{is_utf8}

pub data FsContents : Type 0 where
  file : ℕ → FsContents
  directory : List ℕ → FsContents

pub record FsEntry : Type 0 where
  pub id : ℕ
  pub attr : Fattr3
  pub name : Bytes
  pub parent : ℕ
  pub contents : FsContents

pub record DemoFs : Type 0 where
  pub fs : List FsEntry
  pub blocks : List Bytes
  pub poisoned : Bool
  pub readings : ℕ

-- `duration_since(UNIX_EPOCH)`
pub record Duration : Type 0 where
  pub secs : ℕ
  pub nanos : ℕ

abbrev pub never : NfsTime3
never = record { seconds = 0; nseconds = 0 }

-- The attributes that both kinds of entry begin with.
abbrev pub new_attr : Ftype3 → ℕ → ℕ → ℕ → Fattr3
new_attr ftype mode size id = record {
  ftype = ftype;
  mode = mode;
  nlink = 1;
  uid = 507;
  gid = 507;
  size = size;
  used = size;
  rdev = record { specdata1 = 0; specdata2 = 0 };
  fsid = 0;
  fileid = id;
  atime = never;
  mtime = never;
  ctime = never;
}

-- `make_file`, with the place of the block that holds the contents.
abbrev pub make_file : Bytes → ℕ → ℕ → Bytes → ℕ → FsEntry
make_file name id parent contents block = record {
  id = id;
  attr = new_attr nf3_reg 493 (length contents) id;
  name = name;
  parent = parent;
  contents = file block;
}

abbrev pub make_dir : Bytes → ℕ → ℕ → List ℕ → FsEntry
make_dir name id parent contents = record {
  id = id;
  attr = new_attr nf3_dir 511 0 id;
  name = name;
  parent = parent;
  contents = directory contents;
}

-- `DemoFS::default`: the special entry 0 and the root directory 1, `/`.
abbrev pub default : DemoFs
default = record {
  fs = make_file [] 0 0 [] 0 ∷ make_dir (47 ∷ []) 1 1 [] ∷ [];
  blocks = [] ∷ [];
  poisoned = false;
  readings = 0;
}

-- How a call ends.
pub data Outcome (A : Type 0) : Type 0 where
  ok : A → Outcome A
  err : NfsStat3 → Outcome A
  panic : Outcome A

abbrev pub Action : Type 0 → Type 0
Action A = DemoFs → Outcome A × DemoFs

abbrev pub pure : {A : Type 0} → A → Action A
pure a s = (ok a, s)

abbrev pub fail : {A : Type 0} → NfsStat3 → Action A
fail e s = (err e, s)

-- A panic while the mutex is held.
abbrev pub panics : {A : Type 0} → Action A
panics s = (panic, record s { poisoned = true })

module _ {A B : Type 0} where
  abbrev pub and_then : Outcome A × DemoFs → (A → Action B) → Outcome B × DemoFs
  and_then (ok a, s) next = next a s
  and_then (err e, s) next = (err e, s)
  and_then (panic, s) next = (panic, s)

  infixl 5 ◌>>=◌ ◌>>◌
  abbrev pub ◌>>=◌ : Action A → (A → Action B) → Action B
  ◌>>=◌ first next s = and_then (first s) next

  abbrev pub ◌>>◌ : Action A → Action B → Action B
  first >> next = first >>= λ _. next

-- `self.fs.lock().unwrap()`
abbrev pub lock : Action (Unit {0})
lock s = if s.poisoned then (panic, s) else (ok tt, s)

-- `if !test { return Err(e); }`
abbrev pub require : Bool → NfsStat3 → Action (Unit {0})
require true e s = (ok tt, s)
require false e s = (err e, s)

module _ {A : Type 0} where
  abbrev pub ok_or : NfsStat3 → Option A → Action A
  ok_or e none s = (err e, s)
  ok_or e (some a) s = (ok a, s)

  -- An index that has to be there.
  abbrev pub or_panic : Option A → Action A
  or_panic none s = (panic, record s { poisoned = true })
  or_panic (some a) s = (ok a, s)

-- `fs.get(id as usize).ok_or(NFS3ERR_NOENT)?`, where a `usize` has 64 bits
unfoldable pub get : ℕ → Action FsEntry
get id s = ok_or nfs3err_noent (get_elem? s.fs id) s

-- `fs[id as usize]`
unfoldable pub index : ℕ → Action FsEntry
index id s = or_panic (get_elem? s.fs id) s

-- `std::str::from_utf8(name).unwrap()`
unfoldable pub text : Bytes → Action (Unit {0})
text name s = if is_utf8 [] name then (ok tt, s) else panics s

-- An assignment to a part of `fs[id as usize]`, which is there.
abbrev pub assign : ℕ → (FsEntry → FsEntry) → Action (Unit {0})
assign id f s = (ok tt, record s { fs = modify id f s.fs })

abbrev pub set_mtime : NfsTime3 → FsEntry → FsEntry
set_mtime t e = record e { attr = record (e.attr) { mtime = t } }

-- `SystemTime::now()`, cut to 32 bits of seconds.
unfoldable pub now : (ℕ → Duration) → Action NfsTime3
now clock s =
    let d = clock s.readings in
    (
      ok (record { seconds = d.secs % 2 ^ 32; nseconds = d.nanos }),
      record s { readings = s.readings + 1 },
    )

-- `Arc::new(RwLock::new(bytes))`
abbrev pub new_block : Bytes → Action ℕ
new_block bytes s = (ok (length s.blocks), record s { blocks = s.blocks ++ bytes ∷ [] })

abbrev pub with_child : ℕ → FsContents → FsContents
with_child id (file block) = file block
with_child id (directory dir) = directory (dir ++ id ∷ [])

abbrev pub push_child : ℕ → FsEntry → FsEntry
push_child id e = record e { contents = with_child id e.contents }

-- `fs.push(entry)`, and then `dir.push(newid)` if `fs[dirid]` is a directory.
unfoldable pub attach : FsEntry → ℕ → ℕ → Action (Unit {0})
attach entry newid dirid s =
    let pushed = record s { fs = s.fs ++ entry ∷ [] } in
    (index dirid >> assign dirid (push_child newid)) pushed
