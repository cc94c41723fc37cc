-- ===== src/Mirror/Keeping/Refreshing.antt =====
-- examples/mirror_fs/fs_map.rs: refreshing an entry or a listing keeps every path leading
-- to an entry of that name.
use nfs_mamont_mirror.Prelude.{
  ℕ, suc, not, ◌==◌, ◌+◌, ◌≤◌, ◌<◌, ◌^◌, ◌≡◌, refl, ◌∙◌, Bool, true, false, Option, none, some,
  arith, List, [], ◌∷◌, ◌++◌, length,
}
use nfs_mamont_mirror.Prelude.Table.{lookup}
use nfs_mamont_mirror.Xdr.Reader.{Bytes}
use nfs_mamont_mirror.Xdr.Nfs3.{Fattr3}
use nfs_mamont_mirror.Xdr.Nfs3.Enums.{nfs3err_noent, nfs3err_io, ftype3_number}
use nfs_mamont_mirror.FsUtil.{
  fattr3_differ, metadata_to_fattr3, Os, PathBuf, DirItem, failed, named, Metadata,
}
use nfs_mamont_mirror.Mirror.{
  FsEntry, FsMap, SymbolTable, ok, change, fileid_eq, symbols_eq, refresh_delete, refresh_reload,
  refresh_noop,
}
use nfs_mamont_mirror.Mirror.Map.{
  remove_entry, delete_each, delete_entry, create_at, create_entry, refresh_at, refresh_with,
  refresh_entry, list_children, refresh_list, relist, list_again, refresh_dir_list, find_child,
}
use nfs_mamont_mirror.Mirror.Consistent.{delete_entry-Consistent, create_entry-Consistent}
use nfs_mamont_mirror.Mirror.Keeping.{
  change_entry_next, Keeps, Keeps-weaken, Keeps-then, Keeps-seq, pure-Keeps, fail-Keeps,
  found-Keeps, unwrap-Keeps, io-Keeps, find_entry-Keeps, if-Keeps, change_entry-Keeps, intern-Keeps,
  sym_to_path-Keeps, exists_no_traverse-Keeps,
}

module _ {T : Type 0} where
  delete_each_next :
      (ids : List ℕ) (map : FsMap T) → (delete_each ids map).next_fileid ≡ map.next_fileid
  unfolding delete_each
  delete_each_next [] map = refl
  delete_each_next (id ∷ ids) map =
      delete_each_next ids (remove_entry id (lookup id map.id_to_path) map)
      ∙ removed (lookup id map.id_to_path)
    where
      removed : (o : Option FsEntry) → (remove_entry id o map).next_fileid ≡ map.next_fileid
      removed none = refl
      removed (some e) = refl

  create_entry_next :
      (path : List ℕ) (meta : Metadata) (map : FsMap T) (n : ℕ)
      → map.next_fileid ≤ n
      → n + 1 < 2 ^ 64
      → (create_entry path meta map).1.next_fileid ≤ n + 1
  unfolding create_entry
  create_entry_next path meta map n h k = at (lookup path map.path_to_id)
    where
      at : (o : Option ℕ) → (create_at path meta o map).1.next_fileid ≤ n + 1
      at none = omega arith
      at (some id) =
          omega (
            arith,
            change_entry_next (λ e. record e { fsmeta = metadata_to_fattr3 id meta }) id map,
          )

module _ {W T : Type 0} (os : Os W) (table : SymbolTable T) (depth : ℕ) where
  pub delete_entry-Keeps :
      {n : ℕ} (id : ℕ) → Keeps {W = W} {T = T} n n (change (delete_entry depth id))
  unfolding delete_entry
  delete_entry-Keeps id = record {
    keeps = λ s v. record {
      consistent = delete_entry-Consistent depth id s.1 v.consistent;
      below = omega (arith, v.below, delete_each_next _ s.1);
    };
  }

  refresh_with-Keeps :
      {n : ℕ} (id : ℕ) (entry : FsEntry) (meta : Fattr3)
      → Keeps n n (refresh_with os table depth id entry meta)
  refresh_with-Keeps id entry meta =
      if-Keeps (not (fattr3_differ meta entry.fsmeta)) _ _ (pure-Keeps refresh_noop) (
        if-Keeps (not (ftype3_number entry.fsmeta.ftype == ftype3_number meta.ftype)) _ _
          (Keeps-seq _ _ (delete_entry-Keeps id) λ _. pure-Keeps refresh_delete)
          (Keeps-seq _ _ (change_entry-Keeps (λ e. record e { fsmeta = meta }) id (λ e. refl))
            λ _. pure-Keeps refresh_reload))

  refresh_at-Keeps :
      {n : ℕ} (id : ℕ) (entry : FsEntry) (path : PathBuf) (there : Bool)
      → Keeps n n (refresh_at os table depth id entry path there)
  refresh_at-Keeps id entry path false =
      Keeps-seq _ _ (delete_entry-Keeps id) λ _. pure-Keeps refresh_delete
  refresh_at-Keeps id entry path true =
      Keeps-seq _ _ (io-Keeps nfs3err_io (os.symlink_metadata path))
        λ meta. refresh_with-Keeps id entry (metadata_to_fattr3 id meta)

  pub refresh_entry-Keeps : {n : ℕ} (id : ℕ) → Keeps n n (refresh_entry os table depth id)
  unfolding refresh_entry
  refresh_entry-Keeps id = Keeps-seq _ _ (find_entry-Keeps id) λ entry.
      Keeps-seq _ _ (sym_to_path-Keeps os table depth entry.name) λ path.
        Keeps-seq _ _ (exists_no_traverse-Keeps os table depth path)
          λ there. refresh_at-Keeps id entry path there

  pub create-Keeps :
      {n : ℕ} (path : List ℕ) (meta : Metadata)
      → n + 1 < 2 ^ 64
      → Keeps {W = W} {T = T} n
          (n + 1)
          (λ s. (ok (create_entry path meta s.1).0, (s.0, (create_entry path meta s.1).1)))
  create-Keeps {n = n} path meta room = record {
    keeps = λ s v. record {
      consistent = create_entry-Consistent path meta s.1 (omega (arith, v.below)) v.consistent;
      below = create_entry_next path meta s.1 n v.below room;
    };
  }

  list_children-Keeps :
      {n : ℕ} (cur_path : List ℕ) (listing : List DirItem) (new_children : List ℕ)
      → n + length listing < 2 ^ 64
      → Keeps n (n + length listing) (list_children os table depth cur_path listing new_children)
  unfolding list_children
  list_children-Keeps cur_path [] new_children h = Keeps-weaken _ (omega arith) (pure-Keeps _)
  list_children-Keeps cur_path (failed ∷ listing) new_children h =
      Keeps-weaken _ (omega arith) (fail-Keeps _ _)
  list_children-Keeps {n = n} cur_path (named name metadata ∷ listing) new_children h =
      let more : n ≤ n + suc (length listing) = omega arith in
      Keeps-then more _ _ (intern-Keeps os table depth name) λ sym.
        Keeps-then more _ _ (unwrap-Keeps metadata) λ meta.
          Keeps-then (omega arith) _ _ (create-Keeps (cur_path ++ sym ∷ []) meta (omega arith))
            λ id.
              Keeps-weaken _ (omega arith)
                (list_children-Keeps {n = n + 1} cur_path listing (id ∷ new_children) (omega arith))

-- A directory never lists more than `k` entries.
abbrev pub Lists : {W : Type 0} → ℕ → Os W → Type 0
Lists {W = W} k os =
    (path : PathBuf) (w : W) (listing : List DirItem)
    → (os.read_dir path w).0 ≡ some listing
    → length listing ≤ k

module _ {W T : Type 0} (os : Os W) (table : SymbolTable T) (depth k : ℕ) (lists : Lists k os) where
  relist-Keeps :
      {n : ℕ} (id : ℕ) (entry : FsEntry) (listing : Option (List DirItem))
      → n + k < 2 ^ 64
      → ((items : List DirItem) → listing ≡ some items → length items ≤ k)
      → Keeps n (n + k) (relist os table depth id entry listing)
  relist-Keeps id entry none room short = Keeps-weaken _ (omega arith) (pure-Keeps _)
  relist-Keeps {n = n} id entry (some items) room short =
      let few = short items refl in
      Keeps-then (omega arith) _ _
        (list_children-Keeps os table depth entry.name items [] (omega arith))
        λ ids. Keeps-weaken _ (omega arith) (
          Keeps-seq _ _ (find_entry-Keeps {n = n + length items} id)
            λ found. change_entry-Keeps _ id (λ e. refl))

  list_again-Keeps :
      {n : ℕ} (id : ℕ) (entry : FsEntry)
      → n + k < 2 ^ 64
      → Keeps n (n + k) (list_again os table depth id entry)
  list_again-Keeps {n = n} id entry room =
      Keeps-then (omega arith) _ _ (sym_to_path-Keeps os table depth entry.name) λ path. record {
        keeps = λ s v.
            (relist-Keeps {n = n} id entry (os.read_dir path s.0).0 room (lists path s.0)).keeps
              ((os.read_dir path s.0).1, s.1) v;
      }

  pub refresh_dir_list-Keeps :
      {n : ℕ} (id : ℕ) → n + k < 2 ^ 64 → Keeps n (n + k) (refresh_dir_list os table depth id)
  unfolding refresh_dir_list
  refresh_dir_list-Keeps {n = n} id room =
      Keeps-then (omega arith) _ _ (find_entry-Keeps id) λ entry. at entry _
    where
      at :
          (entry : FsEntry) (fresh : Bool)
          → Keeps n (n + k) (refresh_list os table depth id entry fresh)
      at entry true = Keeps-weaken _ (omega arith) (pure-Keeps _)
      at entry false =
          if-Keeps _ _ _ (list_again-Keeps id entry room)
            (Keeps-weaken _ (omega arith) (pure-Keeps _))

module _ {W T : Type 0} (os : Os W) (table : SymbolTable T) (depth : ℕ) where
  pub find_child-Keeps :
      {n : ℕ} (id : ℕ) (name : Bytes) → Keeps n n (find_child os table depth id name)
  unfolding find_child
  find_child-Keeps id name = Keeps-seq _ _ (find_entry-Keeps id) λ entry.
      Keeps-seq _ _ (found-Keeps nfs3err_noent λ map. table.check_interned name map.interned)
        λ sym. found-Keeps nfs3err_noent λ map. lookup (entry.name ++ sym ∷ []) map.path_to_id
