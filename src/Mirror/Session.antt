-- ===== src/Mirror/Session.antt =====
-- examples/mirror_fs/fs.rs: the methods of the file system as requests, one after another. The
-- mutex of the map is not poisoned by a panic, so that every request finds the map as the one
-- before it has left it.
use mathlib.Core.Option
use nfs_mamont_mirror.Prelude.{
  ℕ, ◌+◌, ◌*◌, ◌<◌, ◌^◌, ◌≡◌, refl, List, [], ◌∷◌, length, Option, subst, ap, some, none, arith,
}
use nfs_mamont_mirror.Prelude.Table.{lookup}
use nfs_mamont_mirror.Xdr.Reader.{Bytes}
use nfs_mamont_mirror.Xdr.Nfs3.{Sattr3, Specdata3}
use nfs_mamont_mirror.Xdr.Nfs3.Enums.{Ftype3}
use nfs_mamont_mirror.FsUtil.{Os, Metadata, metadata_to_fattr3}
use nfs_mamont_mirror.Mirror.{FsMap, new_entry, SymbolTable, State, fileid_eq, symbols_eq}
use nfs_mamont_mirror.Mirror.Map.{new}
use nfs_mamont_mirror.Mirror.Calls as Calls
use nfs_mamont_mirror.Mirror.Changes as Changes
use nfs_mamont_mirror.Mirror.Changes.{CreateFsObject, new_file, new_directory, new_symlink}
use nfs_mamont_mirror.Mirror.Consistent.{Consistent, Named, some_injective}
use nfs_mamont_mirror.Mirror.Keeping.{Within, Within-weaken}
use nfs_mamont_mirror.Mirror.Keeping.Refreshing.{Lists}
use nfs_mamont_mirror.Mirror.Keeping.Methods as Methods
use nfs_mamont_mirror.Mirror.Keeping.Making as Making
use nfs_mamont_mirror.Mirror.Keeping.Moving as Moving

pub data Request : Type 0 where
  request_lookup : ℕ → Bytes → Request
  request_getattr : ℕ → Request
  request_setattr : ℕ → Sattr3 → Request
  request_read : ℕ → ℕ → ℕ → Request
  request_write : ℕ → ℕ → Bytes → Request
  request_create : ℕ → Bytes → Sattr3 → Request
  request_create_exclusive : ℕ → Bytes → Request
  request_mkdir : ℕ → Bytes → Request
  request_remove : ℕ → Bytes → Request
  request_rename : ℕ → Bytes → ℕ → Bytes → Request
  request_readdir : ℕ → ℕ → ℕ → Request
  request_symlink : ℕ → Bytes → Bytes → Sattr3 → Request
  request_readlink : ℕ → Request
  request_link : ℕ → ℕ → Bytes → Request
  request_mknod : ℕ → Bytes → Ftype3 → Specdata3 → Sattr3 → Request
  request_commit : ℕ → ℕ → ℕ → Request

module _ {W T : Type 0} (os : Os W) (table : SymbolTable T) (depth : ℕ) where
  -- What a request leaves behind, whatever it answers.
  abbrev pub perform : Request → State W T → State W T
  perform (request_lookup dirid name) s = (Calls.lookup os table depth dirid name s).1
  perform (request_getattr id) s = (Calls.getattr os table depth id s).1
  perform (request_setattr id changes) s = (Calls.setattr os table depth id changes s).1
  perform (request_read id offset count) s = (Calls.read os table depth id offset count s).1
  perform (request_write id offset new) s = (Calls.write os table depth id offset new s).1
  perform (request_create dirid name attr) s = (Changes.create os table depth dirid name attr s).1
  perform (request_create_exclusive dirid name) s =
      (Changes.create_exclusive os table depth dirid name s).1
  perform (request_mkdir dirid name) s = (Changes.mkdir os table depth dirid name s).1
  perform (request_remove dirid name) s = (Changes.remove os table depth dirid name s).1
  perform (request_rename from old to new) s = (Changes.rename os table depth from old to new s).1
  perform (request_readdir dirid start_after max_entries) s =
      (Calls.readdir os table depth dirid start_after max_entries s).1
  perform (request_symlink dirid name target attr) s =
      (Changes.symlink os table depth dirid name target attr s).1
  perform (request_readlink id) s = (Calls.readlink os table depth id s).1
  perform (request_link id dirid name) s = (Changes.link os table depth id dirid name s).1
  perform (request_mknod dirid name ftype spec attrs) s =
      (Changes.mknod os table depth dirid name ftype spec attrs s).1
  perform (request_commit id offset count) s = (Calls.commit os table depth id offset count s).1

  abbrev pub after_all : List Request → State W T → State W T
  after_all [] s = s
  after_all (r ∷ requests) s = after_all requests (perform r s)

  -- The map of the root alone.
  abbrev rooted : Bytes → Metadata → FsMap T
  rooted root meta = record {
    root = root;
    next_fileid = 1;
    interned = table.empty;
    id_to_path = (0, new_entry [] (metadata_to_fattr3 1 meta)) ∷ [];
    path_to_id = ([], 0) ∷ [];
  }

  rooted-Within : (root : Bytes) (meta : Metadata) → Within 1 (rooted root meta)
  unfolding lookup
  rooted-Within root meta = record {
    consistent = record { leads = leads; fresh = λ id h. ground arith };
    below = omega arith;
  }
    where
      leads :
          (path : List ℕ) (id : ℕ)
          → lookup path (rooted root meta).path_to_id ≡ some id
          → Named path (lookup id (rooted root meta).id_to_path)
      leads [] id h =
          subst (λ j. Named [] (lookup j (rooted root meta).id_to_path)) (some_injective h) refl
      leads (x ∷ path) id h = absurd (cc h)

  new-Within :
      (root : Bytes) (w w' : W) (map : FsMap T)
      → new os table depth root w ≡ (some map, w')
      → Within 1 map
  unfolding new
  new-Within root w w' map e =
      at (os.metadata (record { root = root; parts = [] }) w).0 (ap (λ r. r.0) e)
    where
      at : (o : Option Metadata) → Option.map (rooted root) o ≡ some map → Within 1 map
      at none h = absurd (cc h)
      at (some meta) h =
          let same : rooted root meta ≡ map = cc h in
          subst (Within 1) same (rooted-Within root meta)

module _ {W T : Type 0} (os : Os W) (table : SymbolTable T) (depth k : ℕ) (lists : Lists k os) where
  made :
      (dirid : ℕ) (name : Bytes) (object : CreateFsObject) (s : State W T) (n : ℕ)
      → n + k + 1 < 2 ^ 64
      → Within n s.1
      → Within (n + k + 1) (Changes.create_fs_object os table depth dirid name object s).1.1
  made dirid name object s n room v =
      Within-weaken (omega arith)
        ((Making.create_fs_object-Keeps os table depth (omega arith) dirid name object).keeps s v)

  perform-Within :
      (r : Request) (s : State W T) (n : ℕ)
      → n + k + 1 < 2 ^ 64
      → Within n s.1
      → Within (n + k + 1) (perform os table depth r s).1
  unfolding Changes.create Changes.mkdir Changes.symlink
  perform-Within (request_lookup dirid name) s n room v =
      Within-weaken (omega arith)
        ((Methods.lookup-Keeps os table depth k lists dirid name (omega arith)).keeps s v)
  perform-Within (request_readdir dirid start_after max_entries) s n room v =
      Within-weaken (omega arith) (
        (Methods.readdir-Keeps os table depth k lists dirid start_after max_entries
            (omega arith)).keeps
          s v)
  perform-Within (request_getattr id) s n room v =
      Within-weaken (omega arith) ((Methods.getattr-Keeps os table depth id).keeps s v)
  perform-Within (request_setattr id changes) s n room v =
      Within-weaken (omega arith) ((Methods.setattr-Keeps os table depth id changes).keeps s v)
  perform-Within (request_read id offset count) s n room v =
      Within-weaken (omega arith) ((Methods.read-Keeps os table depth id offset count).keeps s v)
  perform-Within (request_write id offset bytes) s n room v =
      Within-weaken (omega arith) ((Methods.write-Keeps os table depth id offset bytes).keeps s v)
  perform-Within (request_readlink id) s n room v =
      Within-weaken (omega arith) ((Methods.readlink-Keeps os table depth id).keeps s v)
  perform-Within (request_commit id offset count) s n room v =
      Within-weaken (omega arith) ((Methods.commit-Keeps os table depth id offset count).keeps s v)
  perform-Within (request_remove dirid name) s n room v =
      Within-weaken (omega arith) ((Moving.remove-Keeps os table depth dirid name).keeps s v)
  perform-Within (request_rename from old to name) s n room v =
      Within-weaken (omega arith) ((Moving.rename-Keeps os table depth from old to name).keeps s v)
  perform-Within (request_create dirid name attr) s n room v =
      made dirid name (new_file attr) s n room v
  perform-Within (request_mkdir dirid name) s n room v = made dirid name new_directory s n room v
  perform-Within (request_symlink dirid name target attr) s n room v =
      made dirid name (new_symlink attr target) s n room v
  perform-Within (request_create_exclusive dirid name) s n room v =
      Within-weaken (omega arith)
        ((Making.create_exclusive-Keeps os table depth (omega arith) dirid name).keeps s v)
  perform-Within (request_link id dirid name) s n room v =
      Within-weaken (omega arith)
        ((Making.link-Keeps os table depth (omega arith) id dirid name).keeps s v)
  perform-Within (request_mknod dirid name ftype spec attrs) s n room v =
      Within-weaken (omega arith)
        ((Making.mknod-Keeps os table depth (omega arith) dirid name ftype spec attrs).keeps s v)

  after_all-Within :
      (requests : List Request) (s : State W T) (n : ℕ)
      → n + length requests * (k + 1) < 2 ^ 64
      → Within n s.1
      → Consistent (after_all os table depth requests s).1
  after_all-Within [] s n room v = v.consistent
  after_all-Within (r ∷ requests) s n room v =
      after_all-Within requests (perform os table depth r s) (n + k + 1) (omega arith)
        (perform-Within r s n (omega arith) v)

  -- A mirror that has just been made, on an operating system that lists at most `k` entries of a
  -- directory at a time, and that has had any requests, however they ended, so few that the numbers
  -- for entries, at most `k + 1` for each, have not run out: every path of the map leads to an
  -- entry of that name, and no number that is still to be given out has an entry.
  pub after_all-Consistent :
      (root : Bytes) (w w' : W) (map : FsMap T) (requests : List Request)
      → new os table depth root w ≡ (some map, w')
      → 1 + length requests * (k + 1) < 2 ^ 64
      → Consistent (after_all os table depth requests (w', map)).1
  after_all-Consistent root w w' map requests made_new room =
      after_all-Within requests (w', map) 1 room (new-Within os table depth root w w' map made_new)
