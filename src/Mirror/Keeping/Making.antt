-- ===== src/Mirror/Keeping/Making.antt =====
-- examples/mirror_fs/fs.rs: the methods that make entries keep every path leading
-- to an entry of that name.
use nfs_mamont_mirror.Prelude.{
  ℕ, Option, none, some, [], ◌∷◌, ◌++◌, not, ◌+◌, ◌<◌, ◌≤◌, ◌^◌, refl, arith,
}
use nfs_mamont_mirror.Xdr.Reader.{Bytes}
use nfs_mamont_mirror.Xdr.Nfs3.{Sattr3, Specdata3}
use nfs_mamont_mirror.Xdr.Nfs3.Enums.{
  Ftype3, nf3_reg, nf3_dir, nf3_blk, nf3_chr, nf3_lnk, nf3_sock, nf3_fifo, nfs3err_io,
  nfs3err_exist, nfs3err_badtype,
}
use nfs_mamont_mirror.FsUtil.{Os, PathBuf, metadata_to_fattr3, file_setattr}
use nfs_mamont_mirror.Mirror.{FsEntry, SymbolTable, fileid_eq, symbols_eq}
use nfs_mamont_mirror.Mirror.Calls.{push}
use nfs_mamont_mirror.Mirror.Changes.{
  CreateFsObject, new_directory, new_file, new_exclusive, new_symlink, with_child, to_create,
  to_create_new, or_default, if_free, make_object, enter_object, create_fs_object, create_exclusive,
  link, set_owner, placeholder, make_node, mknod,
}
use nfs_mamont_mirror.Mirror.Keeping.{
  Keeps, Keeps-then, Keeps-seq, pure-Keeps, fail-Keeps, require-Keeps, io-Keeps, find_entry-Keeps,
  change_entry-Keeps, intern-Keeps, sym_to_path-Keeps, exists_no_traverse-Keeps, ignore-Keeps,
}
use nfs_mamont_mirror.Mirror.Keeping.Refreshing.{refresh_entry-Keeps, create-Keeps}
use nfs_mamont_mirror.Mirror.Keeping.Methods.{lifted-Keeps}

module _ {W T : Type 0} (os : Os W) (table : SymbolTable T) (depth : ℕ) where
  if_free-Keeps : {n : ℕ} (path : PathBuf) → Keeps n n (if_free os table depth path)
  if_free-Keeps path =
      Keeps-seq _ _ (exists_no_traverse-Keeps os table depth path)
        λ there. require-Keeps (not there) nfs3err_exist

  make_object-Keeps :
      {n : ℕ} (path : PathBuf) (object : CreateFsObject)
      → Keeps n n (make_object os table depth path object)
  unfolding make_object
  make_object-Keeps path new_directory =
      Keeps-seq _ _ (if_free-Keeps path) λ _. io-Keeps nfs3err_io (os.create_dir path)
  make_object-Keeps path (new_file setattr) =
      Keeps-seq _ _ (io-Keeps nfs3err_io (os.open_with to_create path))
        λ file. ignore-Keeps _ (lifted-Keeps (file_setattr os file setattr))
  make_object-Keeps path new_exclusive =
      Keeps-seq _ _ (io-Keeps nfs3err_exist (os.open_with to_create_new path)) λ file. pure-Keeps tt
  make_object-Keeps path (new_symlink attr target) =
      Keeps-seq _ _ (if_free-Keeps path) λ _. io-Keeps nfs3err_io (os.symlink target path)

  set_owner-Keeps :
      {n : ℕ} (path : PathBuf) (uid gid : Option ℕ)
      → Keeps n n (set_owner os table depth path uid gid)
  set_owner-Keeps path (some uid) (some gid) = io-Keeps nfs3err_io (os.chown path uid gid)
  set_owner-Keeps path (some uid) none = pure-Keeps tt
  set_owner-Keeps path none gid = pure-Keeps tt

  placeholder-Keeps :
      {n : ℕ} (path : PathBuf) (attrs : Sattr3) → Keeps n n (placeholder os table depth path attrs)
  placeholder-Keeps path attrs =
      Keeps-seq _ _ (io-Keeps nfs3err_io (os.open_with to_create path)) λ file.
        Keeps-seq _ _ (io-Keeps nfs3err_io (os.set_permissions path (or_default attrs.mode)))
          λ _. set_owner-Keeps path attrs.uid attrs.gid

  make_node-Keeps :
      {n : ℕ} (path : PathBuf) (ftype : Ftype3) (attrs : Sattr3)
      → Keeps n n (make_node os table depth path ftype attrs)
  unfolding make_node
  make_node-Keeps path nf3_chr attrs = placeholder-Keeps path attrs
  make_node-Keeps path nf3_blk attrs = placeholder-Keeps path attrs
  make_node-Keeps path nf3_fifo attrs = placeholder-Keeps path attrs
  make_node-Keeps path nf3_sock attrs = placeholder-Keeps path attrs
  make_node-Keeps path nf3_reg attrs = fail-Keeps (Unit {0}) nfs3err_badtype
  make_node-Keeps path nf3_dir attrs = fail-Keeps (Unit {0}) nfs3err_badtype
  make_node-Keeps path nf3_lnk attrs = fail-Keeps (Unit {0}) nfs3err_badtype

  module _ {n : ℕ} (room : n + 1 < 2 ^ 64) where
    enter_object-Keeps :
        (dirid : ℕ) (ent : FsEntry) (name : Bytes) (path : PathBuf)
        → Keeps n (n + 1) (enter_object os table depth dirid ent name path)
    unfolding enter_object
    enter_object-Keeps dirid ent name path =
        let more : n ≤ n + 1 = omega arith in
        Keeps-then more _ _ (intern-Keeps os table depth name) λ sym.
          Keeps-then more _ _ (io-Keeps nfs3err_io (os.symlink_metadata path)) λ meta.
            Keeps-then (omega arith) _ _
              (create-Keeps os table depth (ent.name ++ sym ∷ []) meta room)
              λ fileid. Keeps-seq _ _ (find_entry-Keeps dirid) λ found.
                Keeps-seq _ _ (change_entry-Keeps (with_child fileid) dirid (λ e. refl))
                  λ _. pure-Keeps (fileid, meta)

    pub create_fs_object-Keeps :
        (dirid : ℕ) (name : Bytes) (object : CreateFsObject)
        → Keeps n (n + 1) (create_fs_object os table depth dirid name object)
    unfolding create_fs_object
    create_fs_object-Keeps dirid name object =
        let more : n ≤ n + 1 = omega arith in
        Keeps-then more _ _ (find_entry-Keeps dirid) λ ent.
          Keeps-then more _ _ (sym_to_path-Keeps os table depth ent.name) λ dir_path.
            Keeps-then more _ _ (make_object-Keeps (push name dir_path) object) λ _.
              Keeps-then more _ _ (refresh_entry-Keeps os table depth dirid) λ refreshed.
                Keeps-then (omega arith) _ _
                  (enter_object-Keeps dirid ent name (push name dir_path))
                  λ r. pure-Keeps (r.0, metadata_to_fattr3 r.0 r.1)

    pub create_exclusive-Keeps :
        (dirid : ℕ) (name : Bytes) → Keeps n (n + 1) (create_exclusive os table depth dirid name)
    unfolding create_exclusive
    create_exclusive-Keeps dirid name =
        Keeps-then (omega arith) _ _ (create_fs_object-Keeps dirid name new_exclusive)
          λ r. pure-Keeps r.0

    pub link-Keeps :
        (file_id dirid : ℕ) (name : Bytes)
        → Keeps n (n + 1) (link os table depth file_id dirid name)
    unfolding link
    link-Keeps file_id dirid name =
        let more : n ≤ n + 1 = omega arith in
        Keeps-then more _ _ (find_entry-Keeps file_id) λ file_entry.
          Keeps-then more _ _ (sym_to_path-Keeps os table depth file_entry.name) λ source_path.
            Keeps-then more _ _ (find_entry-Keeps dirid) λ dir_entry.
              Keeps-then more _ _ (sym_to_path-Keeps os table depth dir_entry.name) λ dir_path.
                Keeps-then more _ _ (if_free-Keeps (push name dir_path)) λ _.
                  Keeps-then more _ _
                    (io-Keeps nfs3err_io (os.hard_link source_path (push name dir_path)))
                    λ _.
                      Keeps-then (omega arith) _ _
                        (enter_object-Keeps dirid dir_entry name (push name dir_path))
                        λ entered. pure-Keeps file_entry.fsmeta

    pub mknod-Keeps :
        (dirid : ℕ) (name : Bytes) (ftype : Ftype3) (spec : Specdata3) (attrs : Sattr3)
        → Keeps n (n + 1) (mknod os table depth dirid name ftype spec attrs)
    unfolding mknod
    mknod-Keeps dirid name ftype spec attrs =
        let more : n ≤ n + 1 = omega arith in
        Keeps-then more _ _ (find_entry-Keeps dirid) λ dir_entry.
          Keeps-then more _ _ (sym_to_path-Keeps os table depth dir_entry.name) λ dir_path.
            Keeps-then more _ _ (if_free-Keeps (push name dir_path)) λ _.
              Keeps-then more _ _ (make_node-Keeps (push name dir_path) ftype attrs) λ _.
                Keeps-then (omega arith) _ _
                  (enter_object-Keeps dirid dir_entry name (push name dir_path))
                  λ r. pure-Keeps (r.0, metadata_to_fattr3 r.0 r.1)
