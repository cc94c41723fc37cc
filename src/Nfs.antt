-- ===== src/Nfs.antt =====
-- src/protocol/nfs/v3: what the procedures of NFS version 3 have in common. A procedure is given
-- the caller's `xid`, its arguments, the context and the state of the file system; it returns what
-- it writes, and the state.
pub mod Attributes
pub mod Data
pub mod Directory
pub mod System
pub mod Access
pub mod Listing
pub mod Handler
pub mod ReadOnly
pub mod Handles
pub mod Requests
pub mod Rights
use nfs_mamont_mirror.Prelude.{ℕ, Option, none, some}
use nfs_mamont_mirror.Prelude.Result.{Result, ok, err, to_option}
use nfs_mamont_mirror.Xdr.Reader.{Bytes, Error, Writer, ◌⨾◌, Codec}
use nfs_mamont_mirror.Xdr.Order.{ByteOrder}
use nfs_mamont_mirror.Xdr.Basic.{option}
use nfs_mamont_mirror.Xdr.Rpc.{rpc_msg_codec, make_success_reply}
use nfs_mamont_mirror.Xdr.Nfs3.Enums.{NfsStat3, nfsstat3_codec}
use nfs_mamont_mirror.Xdr.Nfs3.{Fattr3, WccAttr, WccData, fattr3_codec, wcc_data_codec}
use nfs_mamont_mirror.Vfs.{NfsFileSystem, Capabilities, read_only, read_write}
use nfs_mamont_mirror.Rpc.Context.{Context}

abbrev pub Procedure {ℓ} : Type ℓ → Type ℓ
Procedure S = ℕ → Bytes → Context S → S → Writer × S

-- `wcc_data::default()`
abbrev pub no_wcc : WccData
no_wcc = record { before = none; after = none }

-- `nfs3::wcc_attr { size: v.size, mtime: v.mtime, ctime: v.ctime }`
abbrev pub wcc_attr_of : Fattr3 → WccAttr
wcc_attr_of v = record { size = v.size; mtime = v.mtime; ctime = v.ctime }

abbrev pub wcc_of_option : Option Fattr3 → Option WccAttr
wcc_of_option none = none
wcc_of_option (some v) = some (wcc_attr_of v)

module _ ⦃order : ByteOrder⦄ where
  -- A success of the RPC call, with the status of the procedure.
  abbrev pub answer_status : ℕ → NfsStat3 → Writer
  answer_status xid stat =
      rpc_msg_codec.serialize (make_success_reply xid) ⨾ nfsstat3_codec.serialize stat

  -- `post_op_attr` and `wcc_data` as they are written
  abbrev pub post_op : Option Fattr3 → Writer
  post_op = (option fattr3_codec).serialize

  abbrev pub wcc : WccData → Writer
  wcc = wcc_data_codec.serialize

module _ {ℓ} {S : Type ℓ} where
  -- `if !matches!(capabilities, ReadWrite) { …; return Ok(()); }`
  abbrev pub with_write : Capabilities → S → Writer → Writer × S → Writer × S
  with_write read_write s refusal run = run
  with_write read_only s refusal run = (refusal, s)

  -- `if let Err(stat) = fh_to_id(…) { …; return Ok(()); }`
  abbrev pub with_id : Result NfsStat3 ℕ → S → (NfsStat3 → Writer) → (ℕ → Writer × S) → Writer × S
  with_id (ok id) s refusal next = next id
  with_id (err stat) s refusal next = (refusal stat, s)

  -- As `with_args`, for a procedure that reads on.
  abbrev pub with_input {κ} :
      {A : Type κ} → Result Error (A × Bytes) → S → (A → Bytes → Writer × S) → Writer × S
  with_input (ok (a, rest)) s f = f a rest
  with_input (err e) s f = (err e, s)

  -- A match on the answer of the file system.
  abbrev pub on {κ} :
      {A : Type κ}
      → Result NfsStat3 A × S
      → (A → S → Writer × S)
      → (NfsStat3 → S → Writer × S)
      → Writer × S
  on (ok a, s) good bad = good a s
  on (err stat, s) good bad = bad stat s

  -- `getattr(id).await.ok()`
  abbrev pub attributes : NfsFileSystem S → ℕ → S → Option Fattr3 × S
  attributes vfs id s = let (r, s') = vfs.getattr id s in (to_option r, s')
