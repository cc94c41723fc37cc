-- ===== src/Mirror/Symlinks.antt =====
-- examples/mirror_fs/error_handling.rs and fs_map.rs: an entry that is a symbolic link.
use nfs_mamont_mirror.Prelude.{
  ℕ, suc, ◌≡◌, ◌==◌, refl, true, Bool-cases, inl, inr, List, [], ◌∷◌, ◌++◌, Option, some, none,
  arith,
}
use nfs_mamont_mirror.Prelude.Table.{lookup, lookup-remove}
use nfs_mamont_mirror.Xdr.Reader.{Bytes}
use nfs_mamont_mirror.Xdr.Nfs3.Enums.{nfs3err_noent}
use nfs_mamont_mirror.FsUtil.{Metadata, is_symlink, Os}
use nfs_mamont_mirror.Mirror.{FsEntry, FsMap, SymbolTable, err, find_entry, fileid_eq, symbols_eq}
use nfs_mamont_mirror.Mirror.Map.{
  children_or_none, names_of, sym_to_path, refresh_entry, delete_each, delete_entry,
  collect_all_children, remove_entry,
}
use nfs_mamont_mirror.Mirror.Calls.{getattr}

module _ {T : Type 0} where
  remove_entry_gone :
      (id j : ℕ) (o : Option FsEntry) (map : FsMap T)
      → lookup j map.id_to_path ≡ none
      → lookup j (remove_entry id o map).id_to_path ≡ none
  remove_entry_gone id j none map h = h
  remove_entry_gone id j (some e) map h = elim (Bool-cases (id == j)) [
    | inl t ↦ rw (lookup-remove, t) refl
    | inr n ↦ rw (lookup-remove, n) h
  ]

  delete_each_gone :
      (ids : List ℕ) (j : ℕ) (map : FsMap T)
      → lookup j map.id_to_path ≡ none
      → lookup j (delete_each ids map).id_to_path ≡ none
  unfolding delete_each
  delete_each_gone [] j map h = h
  delete_each_gone (id ∷ ids) j map h =
      delete_each_gone ids j _ (remove_entry_gone id j (lookup id map.id_to_path) map h)

  removed_self :
      (id : ℕ) (o : Option FsEntry) (map : FsMap T)
      → lookup id map.id_to_path ≡ o
      → lookup id (remove_entry id o map).id_to_path ≡ none
  removed_self id none map h = h
  removed_self id (some e) map h =
      let self : (id == id) ≡ true = ground arith in rw (lookup-remove, self) refl

  delete_entry_gone :
      (depth id : ℕ) (map : FsMap T) → lookup id (delete_entry (suc depth) id map).id_to_path ≡ none
  unfolding delete_entry delete_each collect_all_children
  delete_entry_gone depth id map =
      delete_each_gone
        (collect_all_children depth map.id_to_path
          (children_or_none (lookup id map.id_to_path) ++ []))
        id (remove_entry id (lookup id map.id_to_path) map)
        (removed_self id (lookup id map.id_to_path) map refl)

module _ {W T : Type 0} (os : Os W) (table : SymbolTable T) (depth : ℕ) where
  -- GETATTR of an entry that the operating system says is a symbolic link, for any operating system
  -- and symbol table: it is answered NFS3ERR_NOENT, the world is asked for the metadata once, and
  -- the entry is dropped from the map.
  pub getattr-symlink :
      (id : ℕ) (e : FsEntry) (parts : List Bytes) (meta : Metadata) (w w' : W) (map : FsMap T)
      → lookup id map.id_to_path ≡ some e
      → names_of os table (suc depth) e.name map.interned ≡ some parts
      → os.symlink_metadata (record { root = map.root; parts = parts }) w ≡ (some meta, w')
      → meta.file_type ≡ is_symlink
      → (getattr os table (suc depth) id (w, map)
          ≡ (err nfs3err_noent, (w', delete_entry (suc depth) id map)))
        × (lookup id (delete_entry (suc depth) id map).id_to_path ≡ none)
  unfolding getattr refresh_entry find_entry sym_to_path
  getattr-symlink id e parts meta w w' map there names asked is_link =
      (rw (there, names, asked, is_link) refl, delete_entry_gone depth id map)
