-- ===== src/Tests/Mirrored.antt =====
-- Calls of the mirror file system, on an operating system that knows one symbolic link.
use nfs_mamont_mirror.Prelude.{ℕ, suc, ◌≡◌, refl, subst, false, some, none, List, [], ◌∷◌, arith}
use nfs_mamont_mirror.Prelude.Table.{lookup, insert, remove}
use nfs_mamont_mirror.Rpc.Tracker.{same_bytes}
use nfs_mamont_mirror.Xdr.Nfs3.{NfsTime3}
use nfs_mamont_mirror.Xdr.Nfs3.Enums.{nfs3err_noent}
use nfs_mamont_mirror.FsUtil.{
  Metadata, is_symlink, is_dir, FileType, Io, Os, metadata_to_fattr3, mode_unmask,
}
use nfs_mamont_mirror.Mirror.{FsMap, SymbolTable, ok, err, new_entry, fileid_eq, symbols_eq}
use nfs_mamont_mirror.Mirror.Map.{
  names_of, create_entry, delete_entry, delete_each, collect_all_children,
}
use nfs_mamont_mirror.Mirror.Calls.{getattr}
use nfs_mamont_mirror.Mirror.Changes.{rename_entry}
use nfs_mamont_mirror.Mirror.Consistent.{Consistent, Named, create_entry-Consistent, some_injective}
use nfs_mamont_mirror.Mirror.Renaming.{rename_entry-Consistent}
use nfs_mamont_mirror.Mirror.Symlinks.{getattr-symlink}

mirrored : Unit {0}
unfolding lookup insert remove names_of create_entry delete_entry delete_each collect_all_children
    getattr rename_entry metadata_to_fattr3 mode_unmask
mirrored = tt

abbrev start : NfsTime3
start = record { seconds = 0; nseconds = 0 }

abbrev pub meta_of : FileType → Metadata
meta_of file_type = record {
  file_type = file_type;
  ino = 1;
  mode = 511;
  uid = 0;
  gid = 0;
  size = 4;
  atime = start;
  mtime = start;
  ctime = start;
}

abbrev refuse : {A : Type 0} → Io ℕ A
refuse w = (none, w)

-- Everything is a symbolic link, and the world counts how often it was asked.
abbrev pub system : Os ℕ
system = record {
  now = λ w. (start, w);
  metadata = λ path w. (some (meta_of is_dir), suc w);
  symlink_metadata = λ path w. (some (meta_of is_symlink), suc w);
  set_file_atime = λ path t. refuse;
  set_file_mtime = λ path t. refuse;
  set_permissions = λ path mode. refuse;
  chown = λ path uid gid. refuse;
  open_with = λ options path. refuse;
  file_set_permissions = λ f mode. refuse;
  set_len = λ f len. refuse;
  file_metadata = λ f. refuse;
  seek = λ f offset. refuse;
  read_exact = λ f len. refuse;
  write_all = λ f bytes. refuse;
  flush = λ f. refuse;
  sync_all = λ f. refuse;
  create_dir = λ path. refuse;
  symlink = λ target path. refuse;
  hard_link = λ source path. refuse;
  remove_dir = λ path. refuse;
  remove_file = λ path. refuse;
  rename = λ from to. refuse;
  read_link = λ path. refuse;
  read_dir = λ path. refuse;
}

-- A symbol is the one byte of its name.
abbrev pub letters : SymbolTable (Unit {0})
letters = record {
  empty = tt;
  intern = λ name t. (some 1, t);
  check_interned = λ name t. some 1;
  symbol = λ sym t. some (sym ∷ []);
}

abbrev pub bare : FsMap (Unit {0})
bare = record {
  root = 47 ∷ [];
  next_fileid = 1;
  interned = tt;
  id_to_path = (0, new_entry [] (metadata_to_fattr3 1 (meta_of is_dir))) ∷ [];
  path_to_id = ([], 0) ∷ [];
}

bare-Consistent : Consistent bare
unfolding lookup
bare-Consistent = record { leads = leads_at; fresh = λ id h. ground arith }
  where
    leads_at :
        (path : List ℕ) (id : ℕ)
        → lookup path bare.path_to_id ≡ some id
        → Named path (lookup id bare.id_to_path)
    leads_at [] id h = subst (λ j. Named [] (lookup j bare.id_to_path)) (some_injective h) refl
    leads_at (x ∷ path) id h = cc

-- The link 1, `a`, below the root.
abbrev with_link : FsMap (Unit {0})
with_link = record {
  root = 47 ∷ [];
  next_fileid = 2;
  interned = tt;
  id_to_path =
      (0, new_entry [] (metadata_to_fattr3 1 (meta_of is_dir)))
      ∷ (1, new_entry (97 ∷ []) (metadata_to_fattr3 1 (meta_of is_symlink)))
      ∷ [];
  path_to_id = ([], 0) ∷ (97 ∷ [], 1) ∷ [];
}

with_link_run : (create_entry (97 ∷ []) (meta_of is_symlink) bare).1 ≡ with_link
with_link_run = unfold mirrored in refl

with_link-Consistent : Consistent with_link
with_link-Consistent =
    subst Consistent with_link_run
      (create_entry-Consistent (97 ∷ []) (meta_of is_symlink) bare (omega arith) bare-Consistent)

getattr-symlink_example :
    (getattr system letters 3 1 (5, with_link)
      ≡ (err nfs3err_noent, (6, delete_entry 3 1 with_link)))
    × (lookup 1 (delete_entry 3 1 with_link).id_to_path ≡ none)
getattr-symlink_example =
    getattr-symlink system letters 2 1
      (new_entry (97 ∷ []) (metadata_to_fattr3 1 (meta_of is_symlink))) ((97 ∷ []) ∷ [])
      (meta_of is_symlink) 5 6 with_link (unfold mirrored in refl) (unfold mirrored in refl) refl
      refl

rename_entry-Consistent_example :
    (map : FsMap (Unit {0})) × (rename_entry system letters 3 0 0 (97 ∷ []) (98 ∷ []) (5, with_link)
      ≡ (ok tt, (5, map)))
    × Consistent map
    × ((id : ℕ)
        → lookup (97 ∷ []) with_link.path_to_id ≡ some id
        → same_bytes (98 ∷ []) (97 ∷ []) ≡ false
        → (lookup (98 ∷ []) map.path_to_id ≡ some id) × (lookup (97 ∷ []) map.path_to_id ≡ none))
rename_entry-Consistent_example =
    rename_entry-Consistent system letters 3 0 0 (97 ∷ []) (98 ∷ []) (5, with_link)
      with_link-Consistent
