-- ===== src/Demo/Contents.antt =====
-- examples/demo_fs/fs.rs: READ, WRITE, SETATTR and COMMIT. A `usize` wraps around at 2 ^ 64, as in
-- a release build. WRITE releases the mutex and takes it again for the GETATTR that it ends with.
use nfs_mamont_mirror.Prelude.{
  ℕ, ◌+◌, ◌-◌, ◌%◌, ◌^◌, ◌==◌, ltb, leb, min, Bool, false, Option, none, some, List, [], ◌∷◌, ◌++◌,
  length, modify, take, drop, replicate, if◌then◌else◌,
}
use nfs_mamont_mirror.Xdr.Reader.{Bytes}
use nfs_mamont_mirror.Xdr.Nfs3.{Fattr3, NfsTime3, SetAtime, SetMtime, Sattr3}
use nfs_mamont_mirror.Xdr.Nfs3.Enums.{nfs3err_io, nfs3err_isdir}
use nfs_mamont_mirror.Demo.{
  FsEntry, FsContents, file, directory, Duration, Action, ok, pure, fail, panics, ◌>>=◌, ◌>>◌, lock,
  get, assign, set_mtime, now,
}
use nfs_mamont_mirror.Demo.Names.{getattr, block_at}

abbrev pub usize : ℕ → ℕ
usize n = n % 2 ^ 64

-- The first bytes up to a length, with zeros if there are not as many.
unfoldable pub with_length : ℕ → Bytes → Bytes
with_length len bytes = take len bytes ++ replicate (len - length bytes) 0

-- `bytes.resize(len, 0)`. A vector has at most `isize::MAX` bytes; to make it longer panics.
abbrev pub resize : ℕ → Bytes → Action Bytes
resize len bytes = if ltb len (2 ^ 63) then pure (with_length len bytes) else panics

-- `if end > bytes.len() { bytes.resize(end, 0); }`
unfoldable pub grow : ℕ → Bytes → Action Bytes
grow end bytes = if ltb (length bytes) end then resize end bytes else pure bytes

-- `bytes[offset..offset + data.len()].copy_from_slice(data)`, in range
unfoldable pub splice : ℕ → Bytes → Bytes → Bytes
splice offset new bytes = take offset bytes ++ (new ++ drop (offset + length new) bytes)

abbrev pub store : ℕ → Bytes → Action (Unit {0})
store block bytes s = (ok tt, record s { blocks = modify block (λ old. bytes) s.blocks })

abbrev pub file_of : FsContents → Action ℕ
file_of (file block) = pure block
file_of (directory dir) = fail nfs3err_io

-- The new bytes, or a panic if the range ends before it begins.
abbrev pub copy_in : ℕ → ℕ → Bytes → ℕ → Bytes → Action (Unit {0})
copy_in offset end new block bytes =
    if leb offset end then store block (splice offset new bytes) else panics

-- `Arc::as_ptr(b) == shared_ptr`
abbrev pub shares : ℕ → FsContents → Bool
shares block (file b) = b == block
shares block (directory dir) = false

abbrev pub set_size : ℕ → FsEntry → FsEntry
set_size new_size e = record e { attr = record (e.attr) { size = new_size; used = new_size } }

-- The loop over all entries that share the file.
unfoldable pub set_sizes : ℕ → ℕ → List FsEntry → List FsEntry
set_sizes block new_size [] = []
set_sizes block new_size (e ∷ fs) =
    (if shares block e.contents then set_size new_size e else e) ∷ set_sizes block new_size fs

abbrev pub all_sizes : ℕ → ℕ → Action (Unit {0})
all_sizes block new_size s = (ok tt, record s { fs = set_sizes block new_size s.fs })

unfoldable pub write : ℕ → ℕ → Bytes → Action Fattr3
write id offset new = do
  lock
  entry ← get id
  block ← file_of entry.contents
  bytes ← block_at block
  let end = usize (offset + length new)
  bytes' ← grow end bytes
  store block bytes'
  copy_in offset end new block bytes'
  all_sizes block (length bytes')
  getattr id

-- The slice `bytes[start..end]`, a panic if it ends before it begins.
abbrev pub slice : ℕ → ℕ → Bytes → Action Bytes
slice start end bytes =
    if leb start end then pure (take (end - start) (drop start bytes)) else panics

abbrev pub read_in : ℕ → ℕ → FsContents → Action (Bytes × Bool)
read_in offset count (directory dir) = fail nfs3err_isdir
read_in offset count (file block) = do
  bytes ← block_at block
  let end = usize (offset + count)
  out ← slice (min offset (length bytes)) (min end (length bytes)) bytes
  pure (out, leb (length bytes) end)

unfoldable pub read : ℕ → ℕ → ℕ → Action (Bytes × Bool)
read id offset count = do lock; entry ← get id; read_in offset count entry.contents

abbrev pub new_atime : (ℕ → Duration) → SetAtime → NfsTime3 → Action NfsTime3
new_atime clock SetAtime.dont_change old = pure old
new_atime clock SetAtime.set_to_server_time old = now clock
new_atime clock (SetAtime.set_to_client_time c) old = pure c

abbrev pub new_mtime : (ℕ → Duration) → SetMtime → NfsTime3 → Action NfsTime3
new_mtime clock SetMtime.dont_change old = pure old
new_mtime clock SetMtime.set_to_server_time old = now clock
new_mtime clock (SetMtime.set_to_client_time c) old = pure c

abbrev pub or_old : Option ℕ → ℕ → ℕ
or_old none old = old
or_old (some new) old = new

-- What SETATTR makes of the attributes, once the times are known.
abbrev pub updated : Sattr3 → NfsTime3 → NfsTime3 → Fattr3 → Fattr3
updated setattr atime mtime attr = record attr {
  atime = atime;
  mtime = mtime;
  uid = or_old setattr.uid attr.uid;
  gid = or_old setattr.gid attr.gid;
  size = or_old setattr.size attr.size;
  used = or_old setattr.size attr.used;
}

-- The bytes of a file are cut or filled up. The attributes have been set before.
abbrev pub resize_file : Option ℕ → FsContents → Action (Unit {0})
resize_file none contents = pure tt
resize_file (some size) (directory dir) = pure tt
resize_file (some size) (file block) = do
  bytes ← block_at block
  bytes' ← resize (usize size) bytes
  store block bytes'

unfoldable pub setattr : (ℕ → Duration) → ℕ → Sattr3 → Action Fattr3
setattr clock id changes = do
  lock
  entry ← get id
  atime ← new_atime clock changes.atime entry.attr.atime
  mtime ← new_mtime clock changes.mtime entry.attr.mtime
  let attr = updated changes atime mtime entry.attr
  assign id (λ e. record e { attr = attr })
  resize_file changes.size entry.contents
  pure attr

unfoldable pub commit : (ℕ → Duration) → ℕ → ℕ → ℕ → Action Fattr3
commit clock id offset count = do
  lock
  entry ← get id
  t ← now clock
  assign id (set_mtime t)
  pure (record (entry.attr) { mtime = t })
