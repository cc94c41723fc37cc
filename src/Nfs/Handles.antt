-- ===== src/Nfs/Handles.antt =====
-- src/protocol/nfs/v3: the file handles that the procedures give out.
use nfs_mamont_mirror.Prelude.{ℕ, ◌≡◌, refl, some, Option}
use nfs_mamont_mirror.Prelude.Result.{ok}
use nfs_mamont_mirror.Xdr.Reader.{Bytes, Writer, ◌⨾◌}
use nfs_mamont_mirror.Xdr.Order.{ByteOrder}
use nfs_mamont_mirror.Xdr.Basic.{option}
use nfs_mamont_mirror.Xdr.Nfs3.{Fattr3, WccAttr, NfsFh3, nfs_fh3_codec}
use nfs_mamont_mirror.Xdr.Nfs3.Enums.{nfs3_ok}
use nfs_mamont_mirror.Xdr.Nfs3.Args.{DirOpArgs3, diropargs3_codec}
use nfs_mamont_mirror.Vfs.{NfsFileSystem, fh_to_id, id_to_fh}
use nfs_mamont_mirror.Vfs.Handle.{fh_to_id-id_to_fh}
use nfs_mamont_mirror.Xdr.Nfs3.RoundTrip.{IsU64}
use nfs_mamont_mirror.Rpc.Context.{Context}
use nfs_mamont_mirror.Nfs.{answer_status, attributes, post_op}
use nfs_mamont_mirror.Nfs.Attributes.{nfsproc3_lookup}
use nfs_mamont_mirror.Nfs.Directory.{finish_create}

-- A success whose first item is a handle that the server takes for the object `fid`.
abbrev pub GivesHandle {ℓ} :
    {S : Type ℓ} ⦃order : ByteOrder⦄ → NfsFileSystem S → ℕ → ℕ → (NfsFh3 → Writer) → Writer → Type 0
GivesHandle vfs xid fid item out =
    (fh : NfsFh3) × (rest : Writer) × (fh_to_id vfs fh ≡ ok fid)
    × (out ≡ answer_status xid nfs3_ok ⨾ item fh ⨾ rest)

module _ {ℓ} {S : Type ℓ} ⦃order : ByteOrder⦄ where
  -- If the arguments of a LOOKUP decode, its directory's handle is accepted, and the file system
  -- finds the name, then the answer is a success with a handle that the server accepts for the
  -- object found. The generation and the object's identifier have to be 64-bit numbers.
  pub nfsproc3_lookup-handle :
      (xid : ℕ) (input rest : Bytes) (context : Context S) (s s' : S) (dirops : DirOpArgs3)
      (dirid fid : ℕ)
      → IsU64 context.vfs.generation
      → IsU64 fid
      → diropargs3_codec.deserialize input ≡ ok (dirops, rest)
      → fh_to_id context.vfs dirops.dir ≡ ok dirid
      → context.vfs.lookup dirid dirops.name (attributes context.vfs dirid s).1 ≡ (ok fid, s')
      → GivesHandle context.vfs xid fid nfs_fh3_codec.serialize
          (nfsproc3_lookup xid input context s).0
  unfolding nfsproc3_lookup
  nfsproc3_lookup-handle xid input rest context s s' dirops dirid fid g k a h l = (
    id_to_fh context.vfs fid,
    post_op (attributes context.vfs fid s').0 ⨾ post_op (attributes context.vfs dirid s).0,
    fh_to_id-id_to_fh context.vfs fid g k,
    rw (a, h, l),
  )

  -- If the file system has made an object in a directory, then what CREATE, MKDIR, SYMLINK and
  -- MKNOD answer is a success with a handle that the server accepts for the new object. The
  -- generation and the object's identifier have to be 64-bit numbers.
  pub finish_create-handle :
      (xid : ℕ) (context : Context S) (dirid fid : ℕ) (before : Option WccAttr)
      (attr : Option Fattr3) (s : S)
      → IsU64 context.vfs.generation
      → IsU64 fid
      → GivesHandle context.vfs xid fid
          (λ fh. (option nfs_fh3_codec).serialize (some fh))
          (finish_create xid context dirid before (ok (fid, attr), s)).0
  unfolding finish_create
  finish_create-handle xid context dirid fid before attr s g k =
      (id_to_fh context.vfs fid, _, fh_to_id-id_to_fh context.vfs fid g k, refl)
