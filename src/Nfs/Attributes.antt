-- ===== src/Nfs/Attributes.antt =====
-- src/protocol/nfs/v3: NULL, GETATTR, SETATTR, LOOKUP and READLINK.
use nfs_mamont_mirror.Prelude.{
  ℕ, Bool, false, ◌||◌, not, Option, none, some, [], ◌==◌, if◌then◌else◌,
}
use nfs_mamont_mirror.Prelude.Result.{ok}
use nfs_mamont_mirror.Xdr.Reader.{Writer, ◌⨾◌}
use nfs_mamont_mirror.Xdr.Order.{ByteOrder}
use nfs_mamont_mirror.Xdr.Basic.{vec_u8}
use nfs_mamont_mirror.Xdr.Rpc.{rpc_msg_codec, make_success_reply}
use nfs_mamont_mirror.Xdr.Nfs3.Enums.{nfs3_ok, nfs3err_rofs, nfs3err_not_sync}
use nfs_mamont_mirror.Xdr.Nfs3.{NfsTime3, nfs_fh3_codec, fattr3_codec}
use nfs_mamont_mirror.Xdr.Nfs3.Args.{diropargs3_codec, setattr3_args_codec}
use nfs_mamont_mirror.Vfs.{id_to_fh, fh_to_id}
use nfs_mamont_mirror.Portmap.{with_args}
use nfs_mamont_mirror.Nfs.{
  Procedure, no_wcc, wcc_attr_of, answer_status, post_op, wcc, with_write, with_id, on, attributes,
}

-- `c.seconds != ctime.seconds || c.nseconds != ctime.nseconds`, if there is a guard
abbrev pub guard_fails : Option NfsTime3 → NfsTime3 → Bool
guard_fails none ctime = false
guard_fails (some c) ctime = not (c.seconds == ctime.seconds) || not (c.nseconds == ctime.nseconds)

module _ ⦃order : ByteOrder⦄ where
  unfoldable pub nfsproc3_null : ℕ → Writer
  nfsproc3_null xid = rpc_msg_codec.serialize (make_success_reply xid)

  -- What a failing guard writes; the procedure goes on after it.
  unfoldable pub guard_reply : ℕ → Bool → Writer
  guard_reply xid fails = if fails then answer_status xid nfs3err_not_sync ⨾ wcc no_wcc else ok []

module _ {ℓ} {S : Type ℓ} ⦃order : ByteOrder⦄ where
  unfoldable pub nfsproc3_getattr : Procedure S
  nfsproc3_getattr xid input context s = with_args (nfs_fh3_codec.deserialize input) s λ handle.
      with_id (fh_to_id context.vfs handle) s (answer_status xid) λ id.
        on (context.vfs.getattr id s)
          (λ attr s'. (answer_status xid nfs3_ok ⨾ fattr3_codec.serialize attr, s'))
          (λ stat s'. (answer_status xid stat, s'))

  unfoldable pub nfsproc3_setattr : Procedure S
  nfsproc3_setattr xid input context s =
      with_write context.vfs.capabilities s (answer_status xid nfs3err_rofs ⨾ wcc no_wcc) (
        with_args (setattr3_args_codec.deserialize input) s λ args.
          with_id (fh_to_id context.vfs args.object) s (answer_status xid) λ id.
            on (context.vfs.getattr id s)
              (λ v s1.
                let early = guard_reply xid (guard_fails args.guard v.ctime) in
                on (context.vfs.setattr id args.new_attribute s1)
                  (λ post s2. (
                    early
                        ⨾ answer_status xid nfs3_ok
                        ⨾ wcc (record { before = some (wcc_attr_of v); after = some post }),
                    s2,
                  ))
                  (λ stat s2. (early ⨾ answer_status xid stat ⨾ wcc no_wcc, s2)))
              (λ stat s1. (answer_status xid stat ⨾ wcc no_wcc, s1)))

  unfoldable pub nfsproc3_lookup : Procedure S
  nfsproc3_lookup xid input context s = with_args (diropargs3_codec.deserialize input) s λ dirops.
      with_id (fh_to_id context.vfs dirops.dir) s (λ stat. answer_status xid stat ⨾ post_op none)
        λ dirid.
          let (dir_attr, s1) = attributes context.vfs dirid s in
          on (context.vfs.lookup dirid dirops.name s1)
            (λ fid s2.
              let (obj_attr, s3) = attributes context.vfs fid s2 in
              (
                answer_status xid nfs3_ok
                    ⨾ nfs_fh3_codec.serialize (id_to_fh context.vfs fid)
                    ⨾ post_op obj_attr
                    ⨾ post_op dir_attr,
                s3,
              ))
            (λ stat s2. (answer_status xid stat ⨾ post_op dir_attr, s2))

  unfoldable pub nfsproc3_readlink : Procedure S
  nfsproc3_readlink xid input context s = with_args (nfs_fh3_codec.deserialize input) s λ handle.
      with_id (fh_to_id context.vfs handle) s (answer_status xid) λ id.
        on (context.vfs.getattr id s)
          (λ attr s1.
            on (context.vfs.readlink id s1)
              (λ path s2.
                (answer_status xid nfs3_ok ⨾ post_op (some attr) ⨾ vec_u8.serialize path, s2))
              (λ stat s2. (answer_status xid stat ⨾ post_op (some attr), s2)))
          (λ stat s1. (answer_status xid stat ⨾ post_op none, s1))
