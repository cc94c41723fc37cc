-- ===== src/Mirror/Keeping/Methods.antt =====
-- examples/mirror_fs/fs.rs: the methods that make no entry keep every path leading
-- to an entry of that name.
use nfs_mamont_mirror.Prelude.{
  ℕ, Option, none, some, List, [], ◌∷◌, leb, ltb, ◌==◌, length, min, ◌%◌, ◌+◌, ◌<◌, ◌≤◌, ◌^◌, refl,
  arith,
}
use nfs_mamont_mirror.Prelude.Result.{Result}
use nfs_mamont_mirror.Xdr.Reader.{Bytes}
use nfs_mamont_mirror.Xdr.Nfs3.{Sattr3}
use nfs_mamont_mirror.Xdr.Nfs3.Enums.{
  NfsStat3, nfs3err_noent, nfs3err_io, nfs3err_badtype, nfs3err_notdir,
}
use nfs_mamont_mirror.Vfs.{Call}
use nfs_mamont_mirror.FsUtil.{Os, PathBuf, Metadata, metadata_to_fattr3, path_setattr}
use nfs_mamont_mirror.Mirror.{
  FsMap, is_directory, SymbolTable, RefreshResult, refresh_delete, refresh_reload, refresh_noop,
  fileid_eq,
}
use nfs_mamont_mirror.Mirror.Map.{names_of, symlink_type}
use nfs_mamont_mirror.Mirror.Calls.{
  of_result, lifted, unless_deleted, push, or_look, look_on_disk, read_range, entries, link_of,
  last_name, to_read, to_write, range, lookup, getattr, read, readdir, setattr, write, readlink,
  commit,
}
use nfs_mamont_mirror.Mirror.Keeping.{
  Within, Keeps, asked-Keeps, Keeps-weaken, Keeps-then, Keeps-seq, pure-Keeps, fail-Keeps,
  require-Keeps, ok_or-Keeps, unwrap-Keeps, try_io-Keeps, io-Keeps, find_entry-Keeps, if-Keeps,
  change_entry-Keeps, sym_to_path-Keeps, exists_no_traverse-Keeps,
}
use nfs_mamont_mirror.Mirror.Keeping.Refreshing.{
  refresh_entry-Keeps, refresh_dir_list-Keeps, find_child-Keeps, Lists,
}

module _ {W T : Type 0} where
  pub lifted-Keeps :
      {A : Type 0} {n : ℕ} (call : Call W A) → Keeps {W = W} {T = T} n n (lifted call)
  lifted-Keeps {A = A} {n = n} call = record { keeps = λ s v. at (call s.0) s.1 v }
    where
      at :
          (r : Result NfsStat3 A × W) (map : FsMap T)
          → Within n map
          → Within n (of_result r map).1.1
      at (Result.ok a, w) map v = v
      at (Result.err e, w) map v = v

  unless_deleted-Keeps : {n : ℕ} (r : RefreshResult) → Keeps {W = W} {T = T} n n (unless_deleted r)
  unless_deleted-Keeps refresh_delete = fail-Keeps (Unit {0}) nfs3err_noent
  unless_deleted-Keeps refresh_reload = pure-Keeps tt
  unless_deleted-Keeps refresh_noop = pure-Keeps tt

module _ {W T : Type 0} (os : Os W) (table : SymbolTable T) (depth : ℕ) where
  pub getattr-Keeps : {n : ℕ} (id : ℕ) → Keeps n n (getattr os table depth id)
  unfolding getattr
  getattr-Keeps id = Keeps-seq _ _ (refresh_entry-Keeps os table depth id) λ refreshed.
      Keeps-seq _ _ (unless_deleted-Keeps refreshed) λ _. Keeps-seq _ _ (find_entry-Keeps id) λ ent.
        Keeps-seq _ _ (sym_to_path-Keeps os table depth ent.name) λ path. pure-Keeps ent.fsmeta

  read_range-Keeps : {n : ℕ} (f start end : ℕ) → Keeps n n (read_range os table depth f start end)
  read_range-Keeps f start end = if-Keeps (ltb end start) _ _ (unwrap-Keeps none) (io-Keeps _ _)

  pub read-Keeps : {n : ℕ} (id offset count : ℕ) → Keeps n n (read os table depth id offset count)
  unfolding read
  read-Keeps id offset count = Keeps-seq _ _ (find_entry-Keeps id) λ ent.
      Keeps-seq _ _ (sym_to_path-Keeps os table depth ent.name) λ path.
        Keeps-seq _ _ (io-Keeps nfs3err_noent (os.open_with to_read path)) λ f.
          Keeps-seq _ _ (io-Keeps nfs3err_noent (os.file_metadata f)) λ meta.
            Keeps-seq _ _ (io-Keeps nfs3err_io (os.seek f (min offset meta.size))) λ _.
              Keeps-seq _ _
                (read_range-Keeps f (min offset meta.size)
                  (min ((offset + count) % 2 ^ 64) meta.size))
                λ buf. pure-Keeps (buf, leb meta.size ((offset + count) % 2 ^ 64))

  pub setattr-Keeps :
      {n : ℕ} (id : ℕ) (changes : Sattr3) → Keeps n n (setattr os table depth id changes)
  unfolding setattr
  setattr-Keeps id changes = Keeps-seq _ _ (find_entry-Keeps id) λ entry.
      Keeps-seq _ _ (sym_to_path-Keeps os table depth entry.name) λ path.
        Keeps-seq _ _ (lifted-Keeps (path_setattr os path changes)) λ _.
          Keeps-seq _ _ (io-Keeps nfs3err_io (os.symlink_metadata path)) λ metadata.
            Keeps-seq _ _
              (change_entry-Keeps (λ e. record e { fsmeta = metadata_to_fattr3 id metadata }) id
                (λ e. refl))
              λ _. pure-Keeps (metadata_to_fattr3 id metadata)

  pub write-Keeps :
      {n : ℕ} (id offset : ℕ) (new : Bytes) → Keeps n n (write os table depth id offset new)
  unfolding write
  write-Keeps id offset new = Keeps-seq _ _ (find_entry-Keeps id) λ ent.
      Keeps-seq _ _ (sym_to_path-Keeps os table depth ent.name) λ path.
        Keeps-seq _ _ (io-Keeps nfs3err_io (os.open_with to_write path)) λ f.
          Keeps-seq _ _ (io-Keeps nfs3err_io (os.seek f offset)) λ _.
            Keeps-seq _ _ (io-Keeps nfs3err_io (os.write_all f new)) λ _.
              Keeps-seq _ _ (try_io-Keeps (os.flush f)) λ _.
                Keeps-seq _ _ (try_io-Keeps (os.sync_all f)) λ _.
                  Keeps-seq _ _ (io-Keeps nfs3err_io (os.file_metadata f))
                    λ meta. pure-Keeps (metadata_to_fattr3 id meta)

  link_of-Keeps :
      {n : ℕ} (path : PathBuf) (meta : Option Metadata)
      → Keeps n n (link_of os table depth path meta)
  link_of-Keeps path none = fail-Keeps Bytes nfs3err_badtype
  link_of-Keeps path (some meta) =
      if-Keeps (symlink_type meta.file_type) _ _ (io-Keeps nfs3err_io (os.read_link path))
        (fail-Keeps Bytes nfs3err_badtype)

  pub readlink-Keeps : {n : ℕ} (id : ℕ) → Keeps n n (readlink os table depth id)
  unfolding readlink
  readlink-Keeps id = Keeps-seq _ _ (find_entry-Keeps id) λ ent.
      Keeps-seq _ _ (sym_to_path-Keeps os table depth ent.name) λ path.
        Keeps-seq _ _ (try_io-Keeps (os.symlink_metadata path)) λ meta. link_of-Keeps path meta

  pub commit-Keeps :
      {n : ℕ} (id offset count : ℕ) → Keeps n n (commit os table depth id offset count)
  unfolding commit
  commit-Keeps id offset count = getattr-Keeps id

  entries-Keeps :
      {n : ℕ} (max_entries count : ℕ) (ids : List ℕ)
      → Keeps n n (entries os table depth max_entries count ids)
  unfolding entries
  entries-Keeps max_entries count [] = pure-Keeps []
  entries-Keeps max_entries count (fileid ∷ ids) =
      Keeps-seq _ _ (find_entry-Keeps fileid) λ fileent.
        Keeps-seq _ _ (asked-Keeps λ map. names_of os table depth fileent.name map.interned)
          λ names.
            Keeps-seq _ _
              (if-Keeps (leb max_entries (count + 1)) _ _ (pure-Keeps [])
                (entries-Keeps max_entries (count + 1) ids))
              λ rest.
                pure-Keeps
                  (record { fileid = fileid; name = last_name names; attr = fileent.fsmeta } ∷ rest)

  or_look-Keeps :
      {n m : ℕ} (dirid : ℕ) (filename : Bytes) (o : Option ℕ)
      → n ≤ m
      → Keeps n m (look_on_disk os table depth dirid filename)
      → Keeps n m (or_look os table depth dirid filename o)
  or_look-Keeps dirid filename none h k = k
  or_look-Keeps dirid filename (some id) h k = Keeps-weaken _ h (pure-Keeps id)

module _ {W T : Type 0} (os : Os W) (table : SymbolTable T) (depth k : ℕ) (lists : Lists k os) where
  look_on_disk-Keeps :
      {n : ℕ} (dirid : ℕ) (filename : Bytes)
      → n + k < 2 ^ 64
      → Keeps n (n + k) (look_on_disk os table depth dirid filename)
  look_on_disk-Keeps {n = n} dirid filename room =
      let more : n ≤ n + k = omega arith in
      Keeps-then more _ _ (find_entry-Keeps dirid) λ dirent.
        Keeps-then more _ _ (sym_to_path-Keeps os table depth dirent.name) λ dir_path.
          Keeps-then more _ _ (exists_no_traverse-Keeps os table depth (push filename dir_path))
            λ there. Keeps-then more _ _ (require-Keeps there nfs3err_noent) λ _.
              Keeps-then more _ _ (refresh_entry-Keeps os table depth dirid) λ refreshed.
                Keeps-then more _ _ (unless_deleted-Keeps refreshed) λ _.
                  Keeps-then (omega arith) _ _
                    (refresh_dir_list-Keeps os table depth k lists dirid room)
                    λ _. find_child-Keeps os table depth dirid filename

  pub lookup-Keeps :
      {n : ℕ} (dirid : ℕ) (filename : Bytes)
      → n + k < 2 ^ 64
      → Keeps n (n + k) (lookup os table depth dirid filename)
  unfolding lookup
  lookup-Keeps dirid filename room = record {
    keeps = λ s v.
        (or_look-Keeps os table depth dirid filename _ (omega arith)
            (look_on_disk-Keeps dirid filename room)).keeps
          s v;
  }

  pub readdir-Keeps :
      {n : ℕ} (dirid start_after max_entries : ℕ)
      → n + k < 2 ^ 64
      → Keeps n (n + k) (readdir os table depth dirid start_after max_entries)
  unfolding readdir
  readdir-Keeps {n = n} dirid start_after max_entries room =
      let more : n ≤ n + k = omega arith in
      Keeps-then more _ _ (refresh_entry-Keeps os table depth dirid) λ refreshed.
        Keeps-then (omega arith) _ _ (refresh_dir_list-Keeps os table depth k lists dirid room) λ _.
          Keeps-seq _ _ (find_entry-Keeps dirid) λ entry.
            Keeps-seq _ _ (require-Keeps (is_directory entry) nfs3err_notdir) λ _.
              Keeps-seq _ _ (ok_or-Keeps nfs3err_io entry.children) λ children.
                Keeps-seq _ _ (sym_to_path-Keeps os table depth entry.name) λ path.
                  Keeps-seq _ _
                    (entries-Keeps os table depth max_entries 0 (range start_after children))
                    λ listed. pure-Keeps (record {
                      entries = listed;
                      end = length listed == length (range start_after children);
                    })
