-- ===== src/Nfs/Access.antt =====
-- src/protocol/nfs/v3/access.rs: ACCESS.
use Prim.Native.Nat.{bit_and, bit_or}
use nfs_mamont_mirror.Prelude.{ℕ, ◌==◌, none, some, if◌then◌else◌}
use nfs_mamont_mirror.Xdr.Reader.{Reader, pure, ◌>>=◌, ◌⨾◌}
use nfs_mamont_mirror.Xdr.Order.{ByteOrder}
use nfs_mamont_mirror.Xdr.Basic.{u32}
use nfs_mamont_mirror.Xdr.Nfs3.Enums.{Ftype3, nf3_reg, nf3_dir, nf3_lnk, nfs3_ok}
use nfs_mamont_mirror.Xdr.Nfs3.{NfsFh3, nfs_fh3_codec}
use nfs_mamont_mirror.Vfs.{Capabilities, read_only, read_write, fh_to_id}
use nfs_mamont_mirror.Portmap.{with_args}
use nfs_mamont_mirror.Nfs.{Procedure, answer_status, post_op, with_id, on}

abbrev pub access3_read : ℕ
access3_read = 1

abbrev pub access3_lookup : ℕ
access3_lookup = 2

abbrev pub access3_modify : ℕ
access3_modify = 4

abbrev pub access3_extend : ℕ
access3_extend = 8

abbrev pub access3_delete : ℕ
access3_delete = 16

abbrev pub access3_execute : ℕ
access3_execute = 32

-- `if access & mask != 0 { granted |= access & mask; }`
unfoldable pub grant : ℕ → ℕ → ℕ → ℕ
grant access mask granted =
    if bit_and access mask == 0 then granted else bit_or granted (bit_and access mask)

abbrev pub read_or_execute : ℕ
read_or_execute = bit_or access3_read access3_execute

abbrev pub change : ℕ
change = bit_or (bit_or access3_modify access3_extend) access3_delete

-- The match on the type of the file; `granted` starts with `ACCESS3_LOOKUP`.
unfoldable pub granted_access : Ftype3 → Capabilities → ℕ → ℕ
granted_access nf3_reg read_only access = grant access read_or_execute access3_lookup
granted_access nf3_reg read_write access = bit_or access3_lookup access
granted_access nf3_dir read_only access = grant access access3_read access3_lookup
granted_access nf3_dir read_write access =
    grant access change (grant access read_or_execute access3_lookup)
granted_access nf3_lnk capabilities access = grant access access3_read access3_lookup
granted_access _ capabilities access = grant access read_or_execute access3_lookup

module _ ⦃order : ByteOrder⦄ where
  abbrev pub access_args : Reader (NfsFh3 × ℕ)
  access_args = do
    handle ← nfs_fh3_codec.deserialize
    access ← u32.deserialize
    pure (handle, access)

module _ {ℓ} {S : Type ℓ} ⦃order : ByteOrder⦄ where
  -- Once the attributes are there, the two tests for their absence pass.
  unfoldable pub nfsproc3_access : Procedure S
  nfsproc3_access xid input context s = with_args (access_args input) s λ args.
      with_id (fh_to_id context.vfs args.0) s (λ stat. answer_status xid stat ⨾ post_op none)
        λ id.
          on (context.vfs.getattr id s)
            (λ attr s1. (
              answer_status xid nfs3_ok
                  ⨾ post_op (some attr)
                  ⨾ u32.serialize (granted_access attr.ftype context.vfs.capabilities args.1),
              s1,
            ))
            (λ stat s1. (answer_status xid stat ⨾ post_op none, s1))
