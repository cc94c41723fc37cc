-- ===== src/FsUtil.antt =====
-- src/fs_util.rs: attributes from the metadata of the operating system, and SETATTR on its files.
-- The operating system is a parameter, a record of calls on a world `W`; a call that fails is
-- `none`, since no code looks at the reason.
use Prim.Native.Nat.{bit_or, bit_and}
use nfs_mamont_mirror.Prelude.{
  ℕ, ◌^◌, ◌%◌, ◌==◌, ◌||◌, not, Bool, true, false, Option, none, some, List,
}
use nfs_mamont_mirror.Prelude.Result.{Result, ok, err}
use nfs_mamont_mirror.Xdr.Reader.{Bytes}
use nfs_mamont_mirror.Xdr.Nfs3.{NfsTime3, Fattr3, Sattr3, SetAtime, SetMtime}
use nfs_mamont_mirror.Xdr.Nfs3.Enums.{
  NfsStat3, nfs3err_io, Ftype3, nf3_reg, nf3_dir, nf3_lnk, ftype3_number,
}
use nfs_mamont_mirror.Vfs.{Call, and_then}

-- `std::fs::FileType`, as far as it is asked for
pub data FileType : Type 0 where
  is_file is_dir is_symlink is_other : FileType

-- `std::fs::Metadata`; times are 64-bit patterns
pub record Metadata : Type 0 where
  pub file_type : FileType
  pub ino : ℕ
  pub mode : ℕ
  pub uid : ℕ
  pub gid : ℕ
  pub size : ℕ
  pub atime : NfsTime3
  pub mtime : NfsTime3
  pub ctime : NfsTime3

-- A `PathBuf`: what it begins with and what is pushed on it.
pub record PathBuf : Type 0 where
  pub root : Bytes
  pub parts : List Bytes

-- `OpenOptions`
pub record OpenOptions : Type 0 where
  pub read : Bool
  pub write : Bool
  pub create : Bool
  pub create_new : Bool
  pub truncate : Bool

-- What `next_entry` gives for each entry of a directory: an error, or the name and its metadata.
pub data DirItem : Type 0 where
  failed : DirItem
  named : Bytes → Option Metadata → DirItem

abbrev pub Io {ℓ κ} : Type ℓ → Type κ → Type (ℓ ⊔ κ)
Io W A = W → Option A × W

pub record Os {ℓ} (W : Type ℓ) : Type ℓ where
  pub now : W → NfsTime3 × W
  pub metadata : PathBuf → Io W Metadata
  pub symlink_metadata : PathBuf → Io W Metadata
  pub set_file_atime : PathBuf → NfsTime3 → Io W (Unit {0})
  pub set_file_mtime : PathBuf → NfsTime3 → Io W (Unit {0})
  pub set_permissions : PathBuf → ℕ → Io W (Unit {0})
  pub chown : PathBuf → ℕ → ℕ → Io W (Unit {0})
  pub open_with : OpenOptions → PathBuf → Io W ℕ
  pub file_set_permissions : ℕ → ℕ → Io W (Unit {0})
  pub set_len : ℕ → ℕ → Io W (Unit {0})
  pub file_metadata : ℕ → Io W Metadata
  pub seek : ℕ → ℕ → Io W (Unit {0})
  pub read_exact : ℕ → ℕ → Io W Bytes
  pub write_all : ℕ → Bytes → Io W (Unit {0})
  pub flush : ℕ → Io W (Unit {0})
  pub sync_all : ℕ → Io W (Unit {0})
  pub create_dir : PathBuf → Io W (Unit {0})
  pub symlink : Bytes → PathBuf → Io W (Unit {0})
  pub hard_link : PathBuf → PathBuf → Io W (Unit {0})
  pub remove_dir : PathBuf → Io W (Unit {0})
  pub remove_file : PathBuf → Io W (Unit {0})
  pub rename : PathBuf → PathBuf → Io W (Unit {0})
  pub read_link : PathBuf → Io W Bytes
  pub read_dir : PathBuf → Io W (List DirItem)

abbrev type_number : FileType → ℕ
type_number is_file = 0
type_number is_dir = 1
type_number is_symlink = 2
type_number is_other = 3

unfoldable pub metadata_differ : Metadata → Metadata → Bool
metadata_differ lhs rhs =
    not (lhs.ino == rhs.ino)
    || not (lhs.mtime.seconds == rhs.mtime.seconds)
    || not (lhs.size == rhs.size)
    || not (type_number lhs.file_type == type_number rhs.file_type)

unfoldable pub fattr3_differ : Fattr3 → Fattr3 → Bool
fattr3_differ lhs rhs =
    not (lhs.fileid == rhs.fileid)
    || not (lhs.mtime.seconds == rhs.mtime.seconds)
    || not (lhs.mtime.nseconds == rhs.mtime.nseconds)
    || not (lhs.size == rhs.size)
    || not (ftype3_number lhs.ftype == ftype3_number rhs.ftype)

unfoldable pub mode_unmask : ℕ → ℕ
mode_unmask mode = bit_and (bit_or mode 128) 511

abbrev pub u32_time : NfsTime3 → NfsTime3
u32_time t = record { seconds = t.seconds % 2 ^ 32; nseconds = t.nseconds % 2 ^ 32 }

abbrev attr_of : Ftype3 → ℕ → ℕ → Metadata → Fattr3
attr_of ftype nlink fid meta = record {
  ftype = ftype;
  mode = mode_unmask meta.mode;
  nlink = nlink;
  uid = meta.uid;
  gid = meta.gid;
  size = meta.size;
  used = meta.size;
  rdev = record { specdata1 = 0; specdata2 = 0 };
  fsid = 0;
  fileid = fid;
  atime = u32_time meta.atime;
  mtime = u32_time meta.mtime;
  ctime = u32_time meta.ctime;
}

abbrev attr_for : FileType → ℕ → Metadata → Fattr3
attr_for is_file fid meta = attr_of nf3_reg 1 fid meta
attr_for is_symlink fid meta = attr_of nf3_lnk 1 fid meta
attr_for is_dir fid meta = attr_of nf3_dir 2 fid meta
attr_for is_other fid meta = attr_of nf3_dir 2 fid meta

unfoldable pub metadata_to_fattr3 : ℕ → Metadata → Fattr3
metadata_to_fattr3 fid meta = attr_for meta.file_type fid meta

abbrev is_there : Option Metadata → Bool
is_there none = false
is_there (some meta) = true

module _ {W : Type 0} where
  infixl 5 ◌>>=◌ ◌>>◌
  abbrev ◌>>=◌ : {A B : Type 0} → Call W A → (A → Call W B) → Call W B
  first >>= next = and_then first next

  abbrev ◌>>◌ : {B : Type 0} → Call W (Unit {0}) → Call W B → Call W B
  first >> next = first >>= λ _. next

  -- `let _ = call;`
  abbrev ignore : {A : Type 0} → Io W A → Call W (Unit {0})
  ignore call w = (ok tt, (call w).1)

  abbrev pub or_fails : {A : Type 0} → NfsStat3 → Option A × W → Result NfsStat3 A × W
  or_fails e (none, w) = (err e, w)
  or_fails e (some a, w) = (ok a, w)

  -- `call.or(Err(e))?`
  abbrev pub or_io : {A : Type 0} → NfsStat3 → Io W A → Call W A
  or_io e call w = or_fails e (call w)

  module _ (os : Os W) where
    unfoldable pub exists_no_traverse : PathBuf → W → Bool × W
    exists_no_traverse path w = let (meta, w') = os.symlink_metadata path w in (is_there meta, w')

    abbrev set_atime : PathBuf → SetAtime → Call W (Unit {0})
    set_atime path SetAtime.dont_change = λ w. (ok tt, w)
    set_atime path (SetAtime.set_to_client_time t) = ignore (os.set_file_atime path t)
    set_atime path SetAtime.set_to_server_time =
        λ w. let (t, w') = os.now w in ignore (os.set_file_atime path t) w'

    abbrev set_mtime : PathBuf → SetMtime → Call W (Unit {0})
    set_mtime path SetMtime.dont_change = λ w. (ok tt, w)
    set_mtime path (SetMtime.set_to_client_time t) = ignore (os.set_file_mtime path t)
    set_mtime path SetMtime.set_to_server_time =
        λ w. let (t, w') = os.now w in ignore (os.set_file_mtime path t) w'

    abbrev set_mode : (ℕ → Io W (Unit {0})) → Option ℕ → Call W (Unit {0})
    set_mode call none = λ w. (ok tt, w)
    set_mode call (some mode) = ignore (call (mode_unmask mode))

    abbrev path_set_size : PathBuf → Option ℕ → Call W (Unit {0})
    path_set_size path none = λ w. (ok tt, w)
    path_set_size path (some size) = do
      file ← or_io nfs3err_io (
          os.open_with
            (record {
              read = true;
              write = true;
              create = false;
              create_new = false;
              truncate = false;
            })
            path)
      or_io nfs3err_io (os.set_len file size)

    -- The owner and the group are not set.
    unfoldable pub path_setattr : PathBuf → Sattr3 → Call W (Unit {0})
    path_setattr path setattr = do
      set_atime path setattr.atime
      set_mtime path setattr.mtime
      set_mode (os.set_permissions path) setattr.mode
      path_set_size path setattr.size

    abbrev file_set_size : ℕ → Option ℕ → Call W (Unit {0})
    file_set_size file none = λ w. (ok tt, w)
    file_set_size file (some size) = or_io nfs3err_io (os.set_len file size)

    unfoldable pub file_setattr : ℕ → Sattr3 → Call W (Unit {0})
    file_setattr file setattr = do
      set_mode (os.file_set_permissions file) setattr.mode
      file_set_size file setattr.size
