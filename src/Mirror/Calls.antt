-- ===== src/Mirror/Calls.antt =====
-- examples/mirror_fs/fs.rs: LOOKUP, GETATTR, READ, READDIR, SETATTR, WRITE, READLINK and COMMIT.
-- Between the release of the mutex and the end of READ and WRITE no other call is modelled.
use nfs_mamont_mirror.Prelude.{
  ℕ, ◌+◌, ◌-◌, ◌%◌, ◌^◌, ◌==◌, ltb, leb, min, Bool, true, false, Option, none, some, List, [], ◌∷◌,
  ◌++◌, length, if◌then◌else◌,
}
use nfs_mamont_mirror.Prelude.Result.{Result}
use nfs_mamont_mirror.Prelude.Table
use nfs_mamont_mirror.Xdr.Reader.{Bytes}
use nfs_mamont_mirror.Xdr.Nfs3.{Fattr3, Sattr3}
use nfs_mamont_mirror.Xdr.Nfs3.Enums.{
  NfsStat3, nfs3err_noent, nfs3err_io, nfs3err_notdir, nfs3err_badtype,
}
use nfs_mamont_mirror.Vfs.{Call, DirEntry, ReadDirResult}
use nfs_mamont_mirror.FsUtil.{Metadata, PathBuf, OpenOptions, Os, metadata_to_fattr3, path_setattr}
use nfs_mamont_mirror.Mirror.{
  FsEntry, FsMap, SymbolTable, BTreeSet, Outcome, ok, err, panic, Action, State, ◌>>=◌, ◌>>◌, pure,
  fail, ok_or, unwrap, try_io, io, require, change, find_entry, is_directory, RefreshResult,
  refresh_delete, refresh_reload, refresh_noop, fileid_eq, symbols_eq,
}
use nfs_mamont_mirror.Mirror.Map.{
  names_of, sym_to_path, find_child, exists_no_traverse, refresh_entry, refresh_dir_list,
  change_entry, symlink_type,
}

-- `path.push(name)`
abbrev pub push : Bytes → PathBuf → PathBuf
push name path = record path { parts = path.parts ++ name ∷ [] }

abbrev pub unless_deleted : {W T : Type 0} → RefreshResult → Action (State W T) (Unit {0})
unless_deleted refresh_delete = fail nfs3err_noent
unless_deleted refresh_reload = pure tt
unless_deleted refresh_noop = pure tt

-- A call of fs_util.rs.
abbrev pub of_result : {W T A : Type 0} → Result NfsStat3 A × W → FsMap T → Outcome A × State W T
of_result (Result.ok a, w) map = (ok a, (w, map))
of_result (Result.err e, w) map = (err e, (w, map))

abbrev pub lifted : {W T A : Type 0} → Call W A → Action (State W T) A
lifted call s = of_result (call s.0) s.1

-- The children from which a page begins.
unfoldable pub after : ℕ → BTreeSet → BTreeSet
after start_after [] = []
after start_after (x ∷ set) =
    let rest = after start_after set in if ltb start_after x then x ∷ rest else rest

abbrev pub range : ℕ → BTreeSet → BTreeSet
range start_after children = if ltb 0 start_after then after start_after children else children

abbrev pub last_name : List Bytes → Bytes
last_name [] = []
last_name (name ∷ []) = name
last_name (name ∷ (next ∷ names)) = last_name (next ∷ names)

abbrev pub to_write : OpenOptions
to_write = record {
  read = false;
  write = true;
  create = true;
  create_new = false;
  truncate = false;
}

abbrev pub to_read : OpenOptions
to_read = record {
  read = true;
  write = false;
  create = false;
  create_new = false;
  truncate = false;
}

module _ {W T : Type 0} (os : Os W) (table : SymbolTable T) (depth : ℕ) where
  abbrev pub known : ℕ → Option FsEntry → Option ℕ
  known id none = none
  known id (some entry) = some id

  -- A child that the map has, with its entry.
  abbrev pub cached : Outcome ℕ → FsMap T → Option ℕ
  cached (ok id) map = known id (Table.lookup id map.id_to_path)
  cached (err e) map = none
  cached panic map = none

  abbrev pub look_on_disk : ℕ → Bytes → Action (State W T) ℕ
  look_on_disk dirid filename = do
    dirent ← find_entry dirid
    dir_path ← sym_to_path os table depth dirent.name
    there ← exists_no_traverse os table depth (push filename dir_path)
    require there nfs3err_noent
    refreshed ← refresh_entry os table depth dirid
    unless_deleted refreshed
    refresh_dir_list os table depth dirid
    find_child os table depth dirid filename

  abbrev pub or_look : ℕ → Bytes → Option ℕ → Action (State W T) ℕ
  or_look dirid filename (some id) = pure id
  or_look dirid filename none = look_on_disk dirid filename

  unfoldable pub lookup : ℕ → Bytes → Action (State W T) ℕ
  lookup dirid filename s =
      or_look dirid filename (cached (find_child os table depth dirid filename s).0 s.1) s

  unfoldable pub getattr : ℕ → Action (State W T) Fattr3
  getattr id = do
    refreshed ← refresh_entry os table depth id
    unless_deleted refreshed
    ent ← find_entry id
    path ← sym_to_path os table depth ent.name
    pure ent.fsmeta

  -- The buffer for a range whose end has wrapped round cannot be allocated.
  abbrev pub read_range : ℕ → ℕ → ℕ → Action (State W T) Bytes
  read_range f start end =
      if ltb end start then unwrap none else io nfs3err_io (os.read_exact f (end - start))

  unfoldable pub read : ℕ → ℕ → ℕ → Action (State W T) (Bytes × Bool)
  read id offset count = do
    ent ← find_entry id
    path ← sym_to_path os table depth ent.name
    f ← io nfs3err_noent (os.open_with to_read path)
    meta ← io nfs3err_noent (os.file_metadata f)
    let end = (offset + count) % 2 ^ 64
    io nfs3err_io (os.seek f (min offset meta.size))
    buf ← read_range f (min offset meta.size) (min end meta.size)
    pure (buf, leb meta.size end)

  unfoldable pub entries : ℕ → ℕ → List ℕ → Action (State W T) (List DirEntry)
  entries max_entries count [] = pure []
  entries max_entries count (fileid ∷ ids) = do
    fileent ← find_entry fileid
    names ← (λ s. unwrap (names_of os table depth fileent.name s.1.interned) s)
    let entry : DirEntry = record { fileid = fileid; name = last_name names; attr = fileent.fsmeta }
    rest ← (if leb max_entries (count + 1) then pure [] else entries max_entries (count + 1) ids)
    pure (entry ∷ rest)

  unfoldable pub readdir : ℕ → ℕ → ℕ → Action (State W T) ReadDirResult
  readdir dirid start_after max_entries = do
    refreshed ← refresh_entry os table depth dirid
    refresh_dir_list os table depth dirid
    entry ← find_entry dirid
    require (is_directory entry) nfs3err_notdir
    children ← ok_or nfs3err_io entry.children
    path ← sym_to_path os table depth entry.name
    entries ← entries max_entries 0 (range start_after children)
    pure (record { entries = entries; end = length entries == length (range start_after children) })

  unfoldable pub setattr : ℕ → Sattr3 → Action (State W T) Fattr3
  setattr id changes = do
    entry ← find_entry id
    path ← sym_to_path os table depth entry.name
    lifted (path_setattr os path changes)
    metadata ← io nfs3err_io (os.symlink_metadata path)
    change (change_entry (λ e. record e { fsmeta = metadata_to_fattr3 id metadata }) id)
    pure (metadata_to_fattr3 id metadata)

  unfoldable pub write : ℕ → ℕ → Bytes → Action (State W T) Fattr3
  write id offset new = do
    ent ← find_entry id
    path ← sym_to_path os table depth ent.name
    f ← io nfs3err_io (os.open_with to_write path)
    io nfs3err_io (os.seek f offset)
    io nfs3err_io (os.write_all f new)
    flushed ← try_io (os.flush f)
    synced ← try_io (os.sync_all f)
    meta ← io nfs3err_io (os.file_metadata f)
    pure (metadata_to_fattr3 id meta)

  abbrev pub link_of : PathBuf → Option Metadata → Action (State W T) Bytes
  link_of path none = fail nfs3err_badtype
  link_of path (some meta) =
      if symlink_type meta.file_type
      then io nfs3err_io (os.read_link path)
      else fail nfs3err_badtype

  unfoldable pub readlink : ℕ → Action (State W T) Bytes
  readlink id = do
    ent ← find_entry id
    path ← sym_to_path os table depth ent.name
    meta ← try_io (os.symlink_metadata path)
    link_of path meta

  unfoldable pub commit : ℕ → ℕ → ℕ → Action (State W T) Fattr3
  commit file_id offset count = getattr file_id
