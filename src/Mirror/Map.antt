-- ===== src/Mirror/Map.antt =====
-- examples/mirror_fs/fs_map.rs: the map of file identifiers to paths and back.
use mathlib.Core.Option
use nfs_mamont_mirror.Prelude.{
  ◌%◌, ◌^◌, ℕ, zero, suc, ◌+◌, ◌&&◌, ◌==◌, Bool, true, false, not, Option, none, some, List, [],
  ◌∷◌, ◌++◌, if◌then◌else◌,
}
use nfs_mamont_mirror.Prelude.Table.{lookup, insert, remove}
use nfs_mamont_mirror.Xdr.Reader.{Bytes}
use nfs_mamont_mirror.Xdr.Nfs3.{Fattr3}
use nfs_mamont_mirror.Xdr.Nfs3.Enums.{ftype3_number, nfs3err_noent, nfs3err_io}
use nfs_mamont_mirror.FsUtil.{
  Metadata, FileType, is_symlink, PathBuf, DirItem, failed, named, Io, Os, fattr3_differ,
  metadata_to_fattr3,
}
use nfs_mamont_mirror.Mirror.{
  FsEntry, FsMap, SymbolTable, ok, Action, State, ◌>>=◌, ◌>>◌, pure, fail, ok_or, unwrap, try_io,
  io, change, find_entry, new_entry, is_directory, has, RefreshResult, refresh_delete,
  refresh_reload, refresh_noop, set_from, fileid_eq, symbols_eq,
}

-- An assignment to a part of an entry, if it is there: `if let Some(ent) = get_mut(&id)`.
abbrev pub changed : {T : Type 0} → (FsEntry → FsEntry) → ℕ → Option FsEntry → FsMap T → FsMap T
changed f id none map = map
changed f id (some ent) map = record map { id_to_path = insert id (f ent) map.id_to_path }

abbrev pub change_entry : {T : Type 0} → (FsEntry → FsEntry) → ℕ → FsMap T → FsMap T
change_entry f id map = changed f id (lookup id map.id_to_path) map

abbrev pub children_or_none : Option FsEntry → List ℕ
children_or_none none = []
children_or_none (some entry) = elim entry.children [ none ↦ [] | some set ↦ set ]

-- `collect_all_children`, which visits an entry and then its children, from left to right. `depth`
-- bounds the visits.
unfoldable pub collect_all_children : ℕ → List (ℕ × FsEntry) → List ℕ → List ℕ
collect_all_children zero entries ids = []
collect_all_children (suc depth) entries [] = []
collect_all_children (suc depth) entries (id ∷ ids) =
    id ∷ collect_all_children depth entries (children_or_none (lookup id entries) ++ ids)

module _ {T : Type 0} where
  abbrev pub remove_entry : ℕ → Option FsEntry → FsMap T → FsMap T
  remove_entry id none map = map
  remove_entry id (some ent) map = record map {
    id_to_path = remove id map.id_to_path;
    path_to_id = remove ent.name map.path_to_id;
  }

  -- The loop of `delete_entry`.
  unfoldable pub delete_each : List ℕ → FsMap T → FsMap T
  delete_each [] map = map
  delete_each (id ∷ ids) map = delete_each ids (remove_entry id (lookup id map.id_to_path) map)

  unfoldable pub delete_entry : ℕ → ℕ → FsMap T → FsMap T
  delete_entry depth id map = delete_each (collect_all_children depth map.id_to_path (id ∷ [])) map

  abbrev pub create_at : List ℕ → Metadata → Option ℕ → FsMap T → ℕ × FsMap T
  create_at fullpath meta (some chid) map =
      (chid, change_entry (λ e. record e { fsmeta = metadata_to_fattr3 chid meta }) chid map)
  create_at fullpath meta none map =
      let id = map.next_fileid in
      (
        id,
        record map {
          next_fileid = (id + 1) % 2 ^ 64;
          id_to_path = insert id (new_entry fullpath (metadata_to_fattr3 id meta)) map.id_to_path;
          path_to_id = insert fullpath id map.path_to_id;
        },
      )

  unfoldable pub create_entry : List ℕ → Metadata → FsMap T → ℕ × FsMap T
  create_entry fullpath meta map = create_at fullpath meta (lookup fullpath map.path_to_id) map

abbrev pub symlink_type : FileType → Bool
symlink_type is_symlink = true
symlink_type _ = false

-- `exists_no_traverse` of error_handling.rs
abbrev pub exists_no_symlink : Option Metadata → Bool
exists_no_symlink none = false
exists_no_symlink (some meta) = not (symlink_type meta.file_type)

module _ {W T : Type 0} (os : Os W) (table : SymbolTable T) (depth : ℕ) where
  -- `FSMap::new`
  unfoldable pub new : Bytes → Io W (FsMap T)
  new root w =
      let (meta, w') = os.metadata (record { root = root; parts = [] }) w in
      (
        Option.map
            (λ m. record {
              root = root;
              next_fileid = 1;
              interned = table.empty;
              id_to_path = (0, new_entry [] (metadata_to_fattr3 1 m)) ∷ [];
              path_to_id = ([], 0) ∷ [];
            })
            meta,
        w',
      )

  -- The names of the symbols; `get(..).unwrap()` on each.
  unfoldable pub names_of : List ℕ → T → Option (List Bytes)
  names_of [] interned = some []
  names_of (sym ∷ symlist) interned =
      let rest = names_of symlist interned in
      elim (table.symbol sym interned) [ none ↦ none | some name ↦ Option.map (◌∷◌ name) rest ]

  unfoldable pub sym_to_path : List ℕ → Action (State W T) PathBuf
  sym_to_path symlist s =
      unwrap
        (Option.map (λ parts. record { root = s.1.root; parts = parts })
          (names_of symlist s.1.interned))
        s

  -- `intern(name).unwrap()`
  abbrev pub intern : Bytes → Action (State W T) ℕ
  intern name s =
      let (sym, interned) = table.intern name s.1.interned in
      unwrap sym (s.0, record (s.1) { interned = interned })

  unfoldable pub find_child : ℕ → Bytes → Action (State W T) ℕ
  find_child id filename = do
    entry ← find_entry id
    sym ← (λ s. ok_or nfs3err_noent (table.check_interned filename s.1.interned) s)
    λ s. ok_or nfs3err_noent (lookup (entry.name ++ sym ∷ []) s.1.path_to_id) s

  abbrev pub exists_no_traverse : PathBuf → Action (State W T) Bool
  exists_no_traverse path =
      try_io (os.symlink_metadata path) >>= λ meta. pure (exists_no_symlink meta)

  abbrev pub refresh_with : ℕ → FsEntry → Fattr3 → Action (State W T) RefreshResult
  refresh_with id entry meta =
      if not (fattr3_differ meta entry.fsmeta)
      then pure refresh_noop
      else (if not (ftype3_number entry.fsmeta.ftype == ftype3_number meta.ftype)
          then change (delete_entry depth id) >> pure refresh_delete
          else change (change_entry (λ e. record e { fsmeta = meta }) id) >> pure refresh_reload)

  abbrev pub refresh_at : ℕ → FsEntry → PathBuf → Bool → Action (State W T) RefreshResult
  refresh_at id entry path false = change (delete_entry depth id) >> pure refresh_delete
  refresh_at id entry path true = do
    meta ← io nfs3err_io (os.symlink_metadata path)
    refresh_with id entry (metadata_to_fattr3 id meta)

  unfoldable pub refresh_entry : ℕ → Action (State W T) RefreshResult
  refresh_entry id = do
    entry ← find_entry id
    path ← sym_to_path entry.name
    there ← exists_no_traverse path
    refresh_at id entry path there

  -- The loop over the listing: the new children, in reverse.
  unfoldable pub list_children : List ℕ → List DirItem → List ℕ → Action (State W T) (List ℕ)
  list_children cur_path [] new_children = pure new_children
  list_children cur_path (failed ∷ listing) new_children = fail nfs3err_io
  list_children cur_path (named name metadata ∷ listing) new_children = do
    sym ← intern name
    meta ← unwrap metadata
    next_id ←
        (λ s. let (id, map) = create_entry (cur_path ++ sym ∷ []) meta s.1 in (ok id, (s.0, map)))
    list_children cur_path listing (next_id ∷ new_children)

  abbrev pub set_children : List ℕ → ℕ → Action (State W T) (Unit {0})
  set_children ids id = do
    found ← find_entry id
    change (change_entry (λ e. record e { children = some (set_from ids) }) id)

  abbrev pub relist : ℕ → FsEntry → Option (List DirItem) → Action (State W T) (Unit {0})
  relist id entry none = pure tt
  relist id entry (some listing) = do ids ← list_children entry.name listing []; set_children ids id

  abbrev pub list_again : ℕ → FsEntry → Action (State W T) (Unit {0})
  list_again id entry = do
    path ← sym_to_path entry.name
    listing ← try_io (os.read_dir path)
    relist id entry listing

  abbrev pub refresh_list : ℕ → FsEntry → Bool → Action (State W T) (Unit {0})
  refresh_list id entry true = pure tt
  refresh_list id entry false = if is_directory entry then list_again id entry else pure tt

  unfoldable pub refresh_dir_list : ℕ → Action (State W T) (Unit {0})
  refresh_dir_list id = do
    entry ← find_entry id
    refresh_list id entry
        (has entry.children && not (fattr3_differ entry.children_meta entry.fsmeta))
