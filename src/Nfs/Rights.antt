-- ===== src/Nfs/Rights.antt =====
-- src/protocol/nfs/v3/access.rs: the rights that ACCESS grants.
use Prim.Native.Nat.{bit_and}
use nfs_mamont_mirror.Prelude.{ℕ, ◌≡◌, refl, ◌⊎◌, inl, inr, arith, some}
use nfs_mamont_mirror.Prelude.Result.{ok}
use nfs_mamont_mirror.Prelude.Masks.{bit_and_mask, bit_and_two}
use nfs_mamont_mirror.Xdr.Reader.{Bytes, ◌⨾◌}
use nfs_mamont_mirror.Xdr.Order.{ByteOrder}
use nfs_mamont_mirror.Xdr.Basic.{u32}
use nfs_mamont_mirror.Xdr.Nfs3.{NfsFh3, Fattr3}
use nfs_mamont_mirror.Xdr.Nfs3.Enums.{Ftype3, nf3_reg, nf3_dir, nf3_lnk, nfs3_ok}
use nfs_mamont_mirror.Vfs.{fh_to_id, read_only}
use nfs_mamont_mirror.Rpc.Context.{Context}
use nfs_mamont_mirror.Nfs.{answer_status, post_op}
use nfs_mamont_mirror.Nfs.Access.{
  access3_read, access3_lookup, read_or_execute, change, grant, granted_access, access_args,
  nfsproc3_access,
}

-- The values of the bits that are kept.
kept_read : (access : ℕ) → (bit_and access 1 ≡ 0) ⊎ (bit_and access 1 ≡ 1)
kept_read access = let e = bit_and_mask 1 access in omega arith

kept_read_or_execute :
    (access : ℕ)
    → ((bit_and access 33 ≡ 0) ⊎ (bit_and access 33 ≡ 1))
      ⊎ ((bit_and access 33 ≡ 32) ⊎ (bit_and access 33 ≡ 33))
kept_read_or_execute access = let e = bit_and_two 4 access in omega arith

unchanged_read : (access : ℕ) → bit_and (grant access access3_read access3_lookup) change ≡ 0
unfolding grant
unchanged_read access = elim (kept_read access) [ inl e ↦ rw e refl | inr e ↦ rw e refl ]

unchanged_read_or_execute :
    (access : ℕ) → bit_and (grant access read_or_execute access3_lookup) change ≡ 0
unfolding grant
unchanged_read_or_execute access = elim (kept_read_or_execute access) [
  | inl h ↦ elim h [ inl e ↦ rw e refl | inr e ↦ rw e refl ]
  | inr h ↦ elim h [ inl e ↦ rw e refl | inr e ↦ rw e refl ]
]

granted_access_read_only :
    (ftype : Ftype3) (access : ℕ) → bit_and (granted_access ftype read_only access) change ≡ 0
unfolding granted_access
granted_access_read_only nf3_reg access = unchanged_read_or_execute access
granted_access_read_only nf3_dir access = unchanged_read access
granted_access_read_only nf3_lnk access = unchanged_read access
granted_access_read_only _ access = unchanged_read_or_execute access

module _ {ℓ} {S : Type ℓ} ⦃order : ByteOrder⦄ where
  -- If an ACCESS on a read-only file system reaches an object that has attributes, then it is
  -- answered with them and with rights of which none is to modify, to extend or to delete,
  -- whatever was asked for.
  pub nfsproc3_access_read_only :
      (xid : ℕ) (input rest : Bytes) (context : Context S) (s s' : S) (handle : NfsFh3)
      (access id : ℕ) (attr : Fattr3)
      → context.vfs.capabilities ≡ read_only
      → access_args input ≡ ok ((handle, access), rest)
      → fh_to_id context.vfs handle ≡ ok id
      → context.vfs.getattr id s ≡ (ok attr, s')
      → (granted : ℕ) × (bit_and granted change ≡ 0)
        × (nfsproc3_access xid input context s
            ≡ (answer_status xid nfs3_ok ⨾ post_op (some attr) ⨾ u32.serialize granted, s'))
  unfolding nfsproc3_access
  nfsproc3_access_read_only xid input rest context s s' handle access id attr w a h g = (
    granted_access attr.ftype read_only access,
    granted_access_read_only attr.ftype access,
    simp (a, h, g, w),
  )
