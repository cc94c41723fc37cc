-- ===== src/Vfs.antt =====
-- src/vfs.rs: the trait `NFSFileSystem`, as a record over the state `S` of a file system, and the
-- methods that the trait itself implements. The state of a call is what the file system is before
-- and after it; the requests that do not return one leave it alone.
pub mod Handle
pub mod Path
use Prim.Native.Nat.{bit_or}
use nfs_mamont_mirror.Xdr.Nfs3.Fs.{Fsinfo3, fsf_symlink, fsf_homogeneous, fsf_cansettime}
use nfs_mamont_mirror.Prelude.{
  ◌*◌, ℕ, Bool, List, [], ◌∷◌, ◌++◌, map, take, drop, length, Option, none, some, ◌==◌, ltb,
  if◌then◌else◌,
}
use nfs_mamont_mirror.Prelude.Result.{Result, ok, err, to_option}
use nfs_mamont_mirror.Prelude.Endian.{to_le_bytes, from_le_bytes}
use nfs_mamont_mirror.Xdr.Reader.{Bytes}
use nfs_mamont_mirror.Xdr.Nfs3.Enums.{NfsStat3, nfs3err_badhandle, nfs3err_stale, Ftype3}
use nfs_mamont_mirror.Xdr.Nfs3.{NfsFh3, NfsTime3, Specdata3, Fattr3, Sattr3}

pub record DirEntrySimple : Type 0 where
  pub fileid : ℕ
  pub name : Bytes

pub record ReadDirSimpleResult : Type 0 where
  pub entries : List DirEntrySimple
  pub end : Bool

pub record DirEntry : Type 0 where
  pub fileid : ℕ
  pub name : Bytes
  pub attr : Fattr3

pub record ReadDirResult : Type 0 where
  pub entries : List DirEntry
  pub end : Bool

unfoldable pub from_readdir_result : ReadDirResult → ReadDirSimpleResult
from_readdir_result result = record {
  entries = map (λ e. record { fileid = e.fileid; name = e.name }) result.entries;
  end = result.end;
}

pub data Capabilities : Type 0 where
  read_only read_write : Capabilities

-- A call of a file system with state `S` that answers an `A`.
abbrev pub Call {ℓ κ} : Type ℓ → Type κ → Type (ℓ ⊔ κ)
Call S A = S → Result NfsStat3 A × S

pub record NfsFileSystem {ℓ} (S : Type ℓ) : Type ℓ where
  pub generation : ℕ
  pub capabilities : Capabilities
  pub root_dir : ℕ
  pub lookup : ℕ → Bytes → Call S ℕ
  pub getattr : ℕ → Call S Fattr3
  pub setattr : ℕ → Sattr3 → Call S Fattr3
  pub read : ℕ → ℕ → ℕ → Call S (Bytes × Bool)
  pub write : ℕ → ℕ → Bytes → Call S Fattr3
  pub create : ℕ → Bytes → Sattr3 → Call S (ℕ × Fattr3)
  pub create_exclusive : ℕ → Bytes → Call S ℕ
  pub mkdir : ℕ → Bytes → Call S (ℕ × Fattr3)
  pub remove : ℕ → Bytes → Call S (Unit {0})
  pub rename : ℕ → Bytes → ℕ → Bytes → Call S (Unit {0})
  pub readdir : ℕ → ℕ → ℕ → Call S ReadDirResult
  pub symlink : ℕ → Bytes → Bytes → Sattr3 → Call S (ℕ × Fattr3)
  pub readlink : ℕ → Call S Bytes
  pub link : ℕ → ℕ → Bytes → Call S Fattr3
  pub mknod : ℕ → Bytes → Ftype3 → Specdata3 → Sattr3 → Call S (ℕ × Fattr3)
  pub commit : ℕ → ℕ → ℕ → Call S Fattr3

-- `path.split(|&r| r == separator)`
abbrev pub put_first : ℕ → List Bytes → List Bytes
put_first b [] = (b ∷ []) ∷ []
put_first b (part ∷ parts) = (b ∷ part) ∷ parts

unfoldable pub split : ℕ → Bytes → List Bytes
split separator [] = [] ∷ []
split separator (b ∷ bs) =
    let parts = split separator bs in if b == separator then [] ∷ parts else put_first b parts

abbrev pub slash : ℕ
slash = 47

-- The match of `fh_to_id` on the order of the two generations.
abbrev pub check_generation : ℕ → ℕ → ℕ → Result NfsStat3 ℕ
check_generation gen gennum id =
    if ltb gen gennum
    then err nfs3err_stale
    else (if ltb gennum gen then err nfs3err_badhandle else ok id)

module _ {ℓ κ ι} {S : Type ℓ} {A : Type κ} {B : Type ι} where
  -- `?` on the answer of a call
  abbrev continue : Result NfsStat3 A × S → (A → Call S B) → Result NfsStat3 B × S
  continue (ok a, s) next = next a s
  continue (err e, s) next = (err e, s)

  abbrev pub and_then : Call S A → (A → Call S B) → Call S B
  and_then first next s = continue (first s) next

module _ {ℓ} {S : Type ℓ} (self : NfsFileSystem S) where
  unfoldable pub id_to_fh : ℕ → NfsFh3
  id_to_fh id = record { bytes = to_le_bytes 8 self.generation ++ to_le_bytes 8 id }

  unfoldable pub fh_to_id : NfsFh3 → Result NfsStat3 ℕ
  fh_to_id id =
      if length id.bytes == 16
      then check_generation (from_le_bytes (take 8 id.bytes)) self.generation
          (from_le_bytes (take 8 (drop 8 id.bytes)))
      else err nfs3err_badhandle

  -- The loop of `path_to_id`: empty components are passed over.
  unfoldable pub walk : List Bytes → ℕ → Call S ℕ
  walk [] fid s = (ok fid, s)
  walk ([] ∷ splits) fid s = walk splits fid s
  walk ((b ∷ bs) ∷ splits) fid s = and_then (self.lookup fid (b ∷ bs)) (walk splits) s

  unfoldable pub path_to_id : Bytes → Call S ℕ
  path_to_id path = walk (split slash path) self.root_dir

  unfoldable pub readdir_simple : ℕ → ℕ → ℕ → Call S ReadDirSimpleResult
  readdir_simple dirid start_after count =
      and_then (self.readdir dirid start_after count)
        λ result s. (ok (from_readdir_result result), s)

  -- `fsinfo` as the trait implements it
  unfoldable pub fsinfo : ℕ → Call S Fsinfo3
  fsinfo root_fileid s =
      let (dir_attr, s') = self.getattr root_fileid s in
      (
        ok (record {
          obj_attributes = to_option dir_attr;
          rtmax = 1024 * 1024;
          rtpref = 1024 * 124;
          rtmult = 1024 * 1024;
          wtmax = 1024 * 1024;
          wtpref = 1024 * 1024;
          wtmult = 1024 * 1024;
          dtpref = 1024 * 1024;
          maxfilesize = 128 * 1024 * 1024 * 1024;
          time_delta = record { seconds = 0; nseconds = 1000000 };
          properties = bit_or (bit_or fsf_symlink fsf_homogeneous) fsf_cansettime;
        }),
        s',
      )

  unfoldable pub server_id : Bytes
  server_id = to_le_bytes 8 self.generation
