-- ===== src/Mirror/Changes.antt =====
-- examples/mirror_fs/fs.rs and create_fs_object.rs: CREATE, MKDIR, SYMLINK, MKNOD and LINK, REMOVE
-- and RENAME.
use mathlib.Core.Option
use nfs_mamont_mirror.Prelude.{
  ℕ, ◌==◌, not, Bool, true, false, Option, none, some, List, [], ◌∷◌, ◌++◌, if◌then◌else◌,
}
use nfs_mamont_mirror.Prelude.Table
use nfs_mamont_mirror.Xdr.Reader.{Bytes}
use nfs_mamont_mirror.Xdr.Nfs3.{Fattr3, Sattr3, Specdata3}
use nfs_mamont_mirror.Xdr.Nfs3.Enums.{
  Ftype3, nf3_blk, nf3_chr, nf3_sock, nf3_fifo, nfs3err_noent, nfs3err_io, nfs3err_exist,
  nfs3err_badtype,
}
use nfs_mamont_mirror.FsUtil.{
  Metadata, FileType, is_dir, PathBuf, OpenOptions, Os, metadata_to_fattr3, file_setattr,
}
use nfs_mamont_mirror.Mirror.{
  FsEntry, FsMap, SymbolTable, set_insert, set_remove, ok, Action, State, ◌>>=◌, ◌>>◌, pure, fail,
  ok_or, unwrap, ignore, try_io, io, require, change, find_entry, fileid_eq, symbols_eq,
}
use nfs_mamont_mirror.Mirror.Map.{
  sym_to_path, intern, exists_no_traverse, refresh_entry, change_entry, create_entry,
}
use nfs_mamont_mirror.Mirror.Calls.{push, lifted}

pub data CreateFsObject : Type 0 where
  new_directory : CreateFsObject
  new_file : Sattr3 → CreateFsObject
  new_exclusive : CreateFsObject
  new_symlink : Sattr3 → Bytes → CreateFsObject

abbrev pub with_child : ℕ → FsEntry → FsEntry
with_child id e = record e { children = Option.map (set_insert id) e.children }

abbrev pub without_child : ℕ → FsEntry → FsEntry
without_child id e = record e { children = Option.map (set_remove id) e.children }

-- `File::create`
abbrev pub to_create : OpenOptions
to_create = record {
  read = false;
  write = true;
  create = true;
  create_new = false;
  truncate = true;
}

abbrev pub to_create_new : OpenOptions
to_create_new = record {
  read = false;
  write = true;
  create = false;
  create_new = true;
  truncate = false;
}

abbrev pub or_default : Option ℕ → ℕ
or_default none = 438
or_default (some mode) = mode

module _ {W T : Type 0} (os : Os W) (table : SymbolTable T) (depth : ℕ) where
  abbrev pub if_free : PathBuf → Action (State W T) (Unit {0})
  if_free path =
      exists_no_traverse os table depth path >>= λ there. require (not there) nfs3err_exist

  -- What the operating system is asked to make.
  unfoldable pub make_object : PathBuf → CreateFsObject → Action (State W T) (Unit {0})
  make_object path new_directory = if_free path >> io nfs3err_io (os.create_dir path)
  make_object path (new_file setattr) = do
    file ← io nfs3err_io (os.open_with to_create path)
    ignore (lifted (file_setattr os file setattr))
  make_object path new_exclusive =
      io nfs3err_exist (os.open_with to_create_new path) >>= λ file. pure tt
  make_object path (new_symlink attr target) =
      if_free path >> io nfs3err_io (os.symlink target path)

  -- The new object in the map, and in the list of its directory.
  abbrev pub created : List ℕ → Metadata → Action (State W T) ℕ
  created name meta s = (ok (create_entry name meta s.1).0, (s.0, (create_entry name meta s.1).1))

  unfoldable pub enter_object : ℕ → FsEntry → Bytes → PathBuf → Action (State W T) (ℕ × Metadata)
  enter_object dirid ent objectname path = do
    sym ← intern os table depth objectname
    meta ← io nfs3err_io (os.symlink_metadata path)
    fileid ← created (ent.name ++ sym ∷ []) meta
    found ← find_entry dirid
    change (change_entry (with_child fileid) dirid)
    pure (fileid, meta)

  unfoldable pub create_fs_object : ℕ → Bytes → CreateFsObject → Action (State W T) (ℕ × Fattr3)
  create_fs_object dirid objectname object = do
    ent ← find_entry dirid
    dir_path ← sym_to_path os table depth ent.name
    make_object (push objectname dir_path) object
    refreshed ← refresh_entry os table depth dirid
    (fileid, meta) ← enter_object dirid ent objectname (push objectname dir_path)
    pure (fileid, metadata_to_fattr3 fileid meta)

  unfoldable pub create : ℕ → Bytes → Sattr3 → Action (State W T) (ℕ × Fattr3)
  create dirid filename setattr = create_fs_object dirid filename (new_file setattr)

  unfoldable pub create_exclusive : ℕ → Bytes → Action (State W T) ℕ
  create_exclusive dirid filename =
      create_fs_object dirid filename new_exclusive >>= λ (fileid, attr). pure fileid

  unfoldable pub mkdir : ℕ → Bytes → Action (State W T) (ℕ × Fattr3)
  mkdir dirid dirname = create_fs_object dirid dirname new_directory

  unfoldable pub symlink : ℕ → Bytes → Bytes → Sattr3 → Action (State W T) (ℕ × Fattr3)
  symlink dirid linkname target attr = create_fs_object dirid linkname (new_symlink attr target)

  unfoldable pub link : ℕ → ℕ → Bytes → Action (State W T) Fattr3
  link file_id link_dir_id link_name = do
    file_entry ← find_entry file_id
    source_path ← sym_to_path os table depth file_entry.name
    dir_entry ← find_entry link_dir_id
    dir_path ← sym_to_path os table depth dir_entry.name
    if_free (push link_name dir_path)
    io nfs3err_io (os.hard_link source_path (push link_name dir_path))
    entered ← enter_object link_dir_id dir_entry link_name (push link_name dir_path)
    pure file_entry.fsmeta

  abbrev pub set_owner : PathBuf → Option ℕ → Option ℕ → Action (State W T) (Unit {0})
  set_owner path (some uid) (some gid) = io nfs3err_io (os.chown path uid gid)
  set_owner path _ _ = pure tt

  -- A regular file in place of the device, the pipe or the socket.
  abbrev pub placeholder : PathBuf → Sattr3 → Action (State W T) (Unit {0})
  placeholder path attrs = do
    file ← io nfs3err_io (os.open_with to_create path)
    io nfs3err_io (os.set_permissions path (or_default attrs.mode))
    set_owner path attrs.uid attrs.gid

  unfoldable pub make_node : PathBuf → Ftype3 → Sattr3 → Action (State W T) (Unit {0})
  make_node path nf3_chr attrs = placeholder path attrs
  make_node path nf3_blk attrs = placeholder path attrs
  make_node path nf3_fifo attrs = placeholder path attrs
  make_node path nf3_sock attrs = placeholder path attrs
  make_node path _ attrs = fail nfs3err_badtype

  unfoldable pub mknod : ℕ → Bytes → Ftype3 → Specdata3 → Sattr3 → Action (State W T) (ℕ × Fattr3)
  mknod dir_id name ftype specdata attrs = do
    dir_entry ← find_entry dir_id
    dir_path ← sym_to_path os table depth dir_entry.name
    if_free (push name dir_path)
    make_node (push name dir_path) ftype attrs
    (fileid, meta) ← enter_object dir_id dir_entry name (push name dir_path)
    pure (fileid, metadata_to_fattr3 fileid meta)

  abbrev pub is_dir_file : FileType → Bool
  is_dir_file is_dir = true
  is_dir_file _ = false

  abbrev pub remove_path : PathBuf → Bool → Action (State W T) (Unit {0})
  remove_path path true = io nfs3err_io (os.remove_dir path)
  remove_path path false = io nfs3err_io (os.remove_file path)

  -- The entry leaves the map in both directions, and the list of its directory.
  abbrev pub forget : ℕ → List ℕ → Option ℕ → FsMap T → FsMap T
  forget dirid sympath none map = map
  forget dirid sympath (some fileid) map = change_entry (without_child fileid) dirid (record map {
    id_to_path = Table.remove fileid map.id_to_path;
    path_to_id = Table.remove sympath map.path_to_id;
  })

  unfoldable pub remove : ℕ → Bytes → Action (State W T) (Unit {0})
  remove dirid filename = do
    ent ← find_entry dirid
    dir_path ← sym_to_path os table depth ent.name
    found ← try_io (os.symlink_metadata (push filename dir_path))
    meta ← ok_or nfs3err_noent found
    remove_path (push filename dir_path) (is_dir_file meta.file_type)
    filesym ← intern os table depth filename
    let sympath = ent.name ++ filesym ∷ []
    change (λ map. forget dirid sympath (Table.lookup sympath map.path_to_id) map)
    ignore (refresh_entry os table depth dirid)

  -- The children lists of a move between directories.
  abbrev pub move_child : ℕ → ℕ → ℕ → FsMap T → FsMap T
  move_child from to id map =
      if to == from
      then map
      else change_entry (with_child id) to (change_entry (without_child id) from map)

  abbrev pub renamed : ℕ → ℕ → List ℕ → List ℕ → ℕ → Action (State W T) (Unit {0})
  renamed from_dirid to_dirid from_sympath to_sympath fileid = do
    entry ← (λ s. unwrap (Table.lookup fileid s.1.id_to_path) s)
    change (λ map. move_child from_dirid to_dirid fileid (record map {
      id_to_path = Table.insert fileid (record entry { name = to_sympath }) map.id_to_path;
      path_to_id = Table.insert to_sympath fileid (Table.remove from_sympath map.path_to_id);
    }))

  abbrev pub rename_known : ℕ → ℕ → List ℕ → List ℕ → Option ℕ → Action (State W T) (Unit {0})
  rename_known from_dirid to_dirid from_sympath to_sympath none = pure tt
  rename_known from_dirid to_dirid from_sympath to_sympath (some fileid) =
      renamed from_dirid to_dirid from_sympath to_sympath fileid

  -- What RENAME does to the map, once the operating system has moved the file.
  unfoldable pub rename_entry : ℕ → ℕ → List ℕ → List ℕ → Action (State W T) (Unit {0})
  rename_entry from_dirid to_dirid from_sympath to_sympath s =
      rename_known from_dirid to_dirid from_sympath to_sympath
        (Table.lookup from_sympath s.1.path_to_id) s

  unfoldable pub rename : ℕ → Bytes → ℕ → Bytes → Action (State W T) (Unit {0})
  rename from_dirid from_filename to_dirid to_filename = do
    from_dirent ← find_entry from_dirid
    from_dir ← sym_to_path os table depth from_dirent.name
    to_dirent ← find_entry to_dirid
    to_dir ← sym_to_path os table depth to_dirent.name
    to_there ← exists_no_traverse os table depth to_dir
    require to_there nfs3err_noent
    from_there ← exists_no_traverse os table depth (push from_filename from_dir)
    require from_there nfs3err_noent
    io nfs3err_io (os.rename (push from_filename from_dir) (push to_filename to_dir))
    oldsym ← intern os table depth from_filename
    newsym ← intern os table depth to_filename
    rename_entry from_dirid to_dirid (from_dirent.name ++ oldsym ∷ [])
        (to_dirent.name ++ newsym ∷ [])
    ignore (refresh_entry os table depth from_dirid)
    (if to_dirid == from_dirid then pure tt else ignore (refresh_entry os table depth to_dirid))
