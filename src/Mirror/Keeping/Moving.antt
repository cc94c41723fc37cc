-- ===== src/Mirror/Keeping/Moving.antt =====
-- examples/mirror_fs/fs.rs: REMOVE and RENAME keep every path leading
-- to an entry of that name.
use nfs_mamont_mirror.Prelude.{
  ℕ, Option, Option-cases, none, some, List, [], ◌∷◌, ◌++◌, Bool, Bool-cases, true, false, inl, inr,
  ◌==◌, ◌≡◌, refl, ◌∙◌, arith,
}
use nfs_mamont_mirror.Prelude.Table
use nfs_mamont_mirror.Xdr.Reader.{Bytes}
use nfs_mamont_mirror.Xdr.Nfs3.Enums.{nfs3err_noent, nfs3err_io}
use nfs_mamont_mirror.FsUtil.{Os, PathBuf}
use nfs_mamont_mirror.Mirror.{FsMap, SymbolTable, State, change, fileid_eq, symbols_eq}
use nfs_mamont_mirror.Mirror.Map.{remove_entry}
use nfs_mamont_mirror.Mirror.Calls.{push}
use nfs_mamont_mirror.Mirror.Changes.{
  with_child, without_child, is_dir_file, remove_path, forget, remove, move_child, rename_entry,
  rename,
}
use nfs_mamont_mirror.Mirror.Consistent.{
  Consistent, known_entry, dropped-Consistent, change_entry-Consistent,
}
use nfs_mamont_mirror.Mirror.Renaming.{rename_entry-Consistent}
use nfs_mamont_mirror.Mirror.Keeping.{
  Keeps, Keeps-seq, pure-Keeps, require-Keeps, ok_or-Keeps, try_io-Keeps, io-Keeps,
  find_entry-Keeps, if-Keeps, change_entry_next, intern-Keeps, sym_to_path-Keeps,
  exists_no_traverse-Keeps, ignore-Keeps,
}
use nfs_mamont_mirror.Mirror.Keeping.Refreshing.{refresh_entry-Keeps}

module _ {W T : Type 0} (os : Os W) (table : SymbolTable T) (depth : ℕ) where
  forget-Consistent :
      (dirid : ℕ) (path : List ℕ) (o : Option ℕ) (map : FsMap T)
      → Table.lookup path map.path_to_id ≡ o
      → Consistent map
      → Consistent (forget os table depth dirid path o map)
  forget-Consistent dirid path none map e c = c
  forget-Consistent dirid path (some id) map e c =
      let (entry, here, own) = known_entry path id map c e in
      let dropped : Consistent (remove_entry id (some entry) map) =
        dropped-Consistent id entry map here c in
      change_entry-Consistent (without_child id) dirid _ (λ _. refl) (rw own at dropped)

  forget_next :
      (dirid : ℕ) (path : List ℕ) (o : Option ℕ) (map : FsMap T)
      → (forget os table depth dirid path o map).next_fileid ≡ map.next_fileid
  forget_next dirid path none map = refl
  forget_next dirid path (some id) map = change_entry_next (without_child id) dirid _

  forget-Keeps :
      {n : ℕ} (dirid : ℕ) (path : List ℕ)
      → Keeps {W = W} n n
          (change λ map. forget os table depth dirid path (Table.lookup path map.path_to_id) map)
  forget-Keeps dirid path = record {
    keeps = λ s v. record {
      consistent = forget-Consistent dirid path _ s.1 refl v.consistent;
      below = omega (arith, v.below, forget_next dirid path (Table.lookup path s.1.path_to_id) s.1);
    };
  }

  remove_path-Keeps :
      {n : ℕ} (path : PathBuf) (b : Bool) → Keeps n n (remove_path os table depth path b)
  remove_path-Keeps path true = io-Keeps nfs3err_io (os.remove_dir path)
  remove_path-Keeps path false = io-Keeps nfs3err_io (os.remove_file path)

  pub remove-Keeps :
      {n : ℕ} (dirid : ℕ) (name : Bytes) → Keeps n n (remove os table depth dirid name)
  unfolding remove
  remove-Keeps dirid name = Keeps-seq _ _ (find_entry-Keeps dirid) λ ent.
      Keeps-seq _ _ (sym_to_path-Keeps os table depth ent.name) λ dir_path.
        Keeps-seq _ _ (try_io-Keeps (os.symlink_metadata (push name dir_path))) λ found.
          Keeps-seq _ _ (ok_or-Keeps nfs3err_noent found) λ meta.
            Keeps-seq _ _
              (remove_path-Keeps (push name dir_path) (is_dir_file os table depth meta.file_type))
              λ _. Keeps-seq _ _ (intern-Keeps os table depth name) λ filesym.
                Keeps-seq _ _ (forget-Keeps dirid (ent.name ++ filesym ∷ []))
                  λ _. ignore-Keeps _ (refresh_entry-Keeps os table depth dirid)

  move_child_next :
      (from to id : ℕ) (map : FsMap T)
      → (move_child os table depth from to id map).next_fileid ≡ map.next_fileid
  move_child_next from to id map = elim (Bool-cases (to == from)) [
    | inl t ↦ rw t refl
    | inr n ↦
        rw n
          (change_entry_next (with_child id) to _ ∙ change_entry_next (without_child id) from map)
  ]

  rename_entry_next :
      (from_dirid to_dirid : ℕ) (from to : List ℕ) (s : State W T)
      → (rename_entry os table depth from_dirid to_dirid from to s).1.1.next_fileid
        ≡ s.1.next_fileid
  unfolding rename_entry
  rename_entry_next from_dirid to_dirid from to s =
      elim (Option-cases (Table.lookup from s.1.path_to_id)) [
        | inl gone ↦ rw gone refl
        | inr (id, known) ↦ elim (Option-cases (Table.lookup id s.1.id_to_path)) [
          | inl lost ↦ rw (known, lost) refl
          | inr (e, here) ↦ rw (known, here) (move_child_next from_dirid to_dirid id _)
        ]
      ]

  rename_entry-Keeps :
      {n : ℕ} (from_dirid to_dirid : ℕ) (from to : List ℕ)
      → Keeps n n (rename_entry os table depth from_dirid to_dirid from to)
  rename_entry-Keeps from_dirid to_dirid from to = record {
    keeps = λ s v.
        let (map, e, c, known) =
          rename_entry-Consistent os table depth from_dirid to_dirid from to s v.consistent in
        record {
          consistent = rw e c;
          below = omega (arith, v.below, rename_entry_next from_dirid to_dirid from to s);
        };
  }

  pub rename-Keeps :
      {n : ℕ} (from_dirid : ℕ) (from_name : Bytes) (to_dirid : ℕ) (to_name : Bytes)
      → Keeps n n (rename os table depth from_dirid from_name to_dirid to_name)
  unfolding rename
  rename-Keeps from_dirid from_name to_dirid to_name =
      Keeps-seq _ _ (find_entry-Keeps from_dirid) λ from_dirent.
        Keeps-seq _ _ (sym_to_path-Keeps os table depth from_dirent.name) λ from_dir.
          Keeps-seq _ _ (find_entry-Keeps to_dirid) λ to_dirent.
            Keeps-seq _ _ (sym_to_path-Keeps os table depth to_dirent.name) λ to_dir.
              Keeps-seq _ _ (exists_no_traverse-Keeps os table depth to_dir) λ to_there.
                Keeps-seq _ _ (require-Keeps to_there nfs3err_noent) λ _.
                  Keeps-seq _ _ (exists_no_traverse-Keeps os table depth (push from_name from_dir))
                    λ from_there. Keeps-seq _ _ (require-Keeps from_there nfs3err_noent) λ _.
                      Keeps-seq _ _
                        (io-Keeps nfs3err_io
                          (os.rename (push from_name from_dir) (push to_name to_dir)))
                        λ _. Keeps-seq _ _ (intern-Keeps os table depth from_name) λ oldsym.
                          Keeps-seq _ _ (intern-Keeps os table depth to_name) λ newsym.
                            Keeps-seq _ _
                              (rename_entry-Keeps from_dirid to_dirid
                                (from_dirent.name ++ oldsym ∷ []) (to_dirent.name ++ newsym ∷ []))
                              λ _.
                                Keeps-seq _ _
                                  (ignore-Keeps _ (refresh_entry-Keeps os table depth from_dirid))
                                  λ _.
                                    if-Keeps (to_dirid == from_dirid) _ _ (pure-Keeps tt)
                                      (ignore-Keeps _ (refresh_entry-Keeps os table depth to_dirid))
