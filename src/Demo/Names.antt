-- ===== src/Demo/Names.antt =====
-- examples/demo_fs/fs.rs: LOOKUP, GETATTR, READLINK and READDIR.
use nfs_mamont_mirror.Prelude.{
  ℕ, suc, ◌+◌, ◌-◌, ◌==◌, ltb, leb, Bool, false, Option, none, some, List, [], ◌∷◌, length,
  get_elem?, drop, if◌then◌else◌,
}
use nfs_mamont_mirror.Xdr.Reader.{Bytes}
use nfs_mamont_mirror.Xdr.Nfs3.{Fattr3}
use nfs_mamont_mirror.Xdr.Nfs3.Enums.{
  Ftype3, nf3_lnk, nfs3err_noent, nfs3err_notdir, nfs3err_inval, nfs3err_bad_cookie,
}
use nfs_mamont_mirror.Vfs.{DirEntry, ReadDirResult}
use nfs_mamont_mirror.Rpc.Tracker.{same_bytes}
use nfs_mamont_mirror.Demo.{
  FsEntry, FsContents, file, directory, Action, pure, fail, ◌>>=◌, ◌>>◌, lock, ok_or, or_panic, get,
  index,
}

-- `fs.get(*i as usize)` with `f.name[..] == filename[..]`
abbrev pub is_named : Bytes → Option FsEntry → Bool
is_named name none = false
is_named name (some f) = same_bytes f.name name

-- The first of the children with that name.
unfoldable pub find_named : List FsEntry → Bytes → List ℕ → Option ℕ
find_named fs name [] = none
find_named fs name (i ∷ dir) =
    let rest = find_named fs name dir in if is_named name (get_elem? fs i) then some i else rest

abbrev pub dot : Bytes
dot = 46 ∷ []

abbrev pub dot_dot : Bytes
dot_dot = 46 ∷ 46 ∷ []

abbrev pub lookup_in : ℕ → Bytes → FsEntry → FsContents → Action ℕ
lookup_in dirid name entry (file block) = fail nfs3err_notdir
lookup_in dirid name entry (directory dir) =
    if same_bytes name dot
    then pure dirid
    else if same_bytes name dot_dot
    then pure entry.parent
    else (λ s. ok_or nfs3err_noent (find_named s.fs name dir) s)

unfoldable pub lookup : ℕ → Bytes → Action ℕ
lookup dirid filename = do lock; entry ← get dirid; lookup_in dirid filename entry entry.contents

unfoldable pub getattr : ℕ → Action Fattr3
getattr id = do lock; entry ← get id; pure entry.attr

-- The bytes of a block; every `Arc` points to one.
unfoldable pub block_at : ℕ → Action Bytes
block_at block s = or_panic (get_elem? s.blocks block) s

abbrev pub target : FsContents → Action Bytes
target (file block) = block_at block
target (directory dir) = fail nfs3err_inval

abbrev pub link_target : Ftype3 → FsContents → Action Bytes
link_target nf3_lnk contents = target contents
link_target _ contents = fail nfs3err_inval

unfoldable pub readlink : ℕ → Action Bytes
readlink id = do lock; entry ← get id; link_target entry.attr.ftype entry.contents

-- `dir.iter().position(|&r| r == start_after)`
unfoldable pub position : ℕ → List ℕ → Option ℕ
position r [] = none
position r (i ∷ dir) =
    let rest = position r dir in
    if i == r then some 0 else (elim rest [ none ↦ none | some n ↦ some (suc n) ])

abbrev pub after_position : Option ℕ → Action ℕ
after_position none = fail nfs3err_bad_cookie
after_position (some pos) = pure (pos + 1)

abbrev pub start_index : ℕ → List ℕ → Action ℕ
start_index start_after dir =
    if ltb 0 start_after then after_position (position start_after dir) else pure 0

-- The loop over the entries: it stops once there are as many as asked for, `count` counts them.
unfoldable pub list_entries : ℕ → ℕ → List ℕ → Action (List DirEntry)
list_entries max_entries count [] = pure []
list_entries max_entries count (i ∷ dir) = do
  f ← index i
  let entry : DirEntry = record { fileid = i; name = f.name; attr = f.attr }
  rest ← (if leb max_entries (count + 1) then pure [] else list_entries max_entries (count + 1) dir)
  pure (entry ∷ rest)

abbrev pub readdir_in : ℕ → ℕ → FsContents → Action ReadDirResult
readdir_in start_after max_entries (file block) = fail nfs3err_notdir
readdir_in start_after max_entries (directory dir) = do
  start ← start_index start_after dir
  let remaining_length = length dir - start
  entries ← list_entries max_entries 0 (drop start dir)
  pure (record { entries = entries; end = length entries == remaining_length })

unfoldable pub readdir : ℕ → ℕ → ℕ → Action ReadDirResult
readdir dirid start_after max_entries = do
  lock
  entry ← get dirid
  readdir_in start_after max_entries entry.contents
