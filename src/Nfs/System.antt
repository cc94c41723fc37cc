-- ===== src/Nfs/System.antt =====
-- src/protocol/nfs/v3: FSINFO, FSSTAT and PATHCONF.
use nfs_mamont_mirror.Prelude.{◌*◌, ◌-◌, ◌^◌, true, false, none}
use nfs_mamont_mirror.Xdr.Reader.{◌⨾◌}
use nfs_mamont_mirror.Xdr.Order.{ByteOrder}
use nfs_mamont_mirror.Xdr.Nfs3.Enums.{nfs3_ok}
use nfs_mamont_mirror.Xdr.Nfs3.{nfs_fh3_codec}
use nfs_mamont_mirror.Xdr.Nfs3.Fs.{fsinfo3_codec, fsstat3_resok_codec, pathconf3_resok_codec}
use nfs_mamont_mirror.Vfs.{fh_to_id, fsinfo}
use nfs_mamont_mirror.Portmap.{with_args}
use nfs_mamont_mirror.Nfs.{Procedure, answer_status, post_op, with_id, on, attributes}

module _ {ℓ} {S : Type ℓ} ⦃order : ByteOrder⦄ where
  unfoldable pub nfsproc3_fsinfo : Procedure S
  nfsproc3_fsinfo xid input context s = with_args (nfs_fh3_codec.deserialize input) s λ handle.
      with_id (fh_to_id context.vfs handle) s (λ stat. answer_status xid stat ⨾ post_op none)
        λ id.
          on (fsinfo context.vfs id s)
            (λ info s1. (answer_status xid nfs3_ok ⨾ fsinfo3_codec.serialize info, s1))
            (λ stat s1. (answer_status xid stat, s1))

  unfoldable pub nfsproc3_fsstat : Procedure S
  nfsproc3_fsstat xid input context s = with_args (nfs_fh3_codec.deserialize input) s λ handle.
      with_id (fh_to_id context.vfs handle) s (λ stat. answer_status xid stat ⨾ post_op none)
        λ id.
          let (obj_attr, s1) = attributes context.vfs id s in
          (
            answer_status xid nfs3_ok
                ⨾ fsstat3_resok_codec.serialize (record {
                  obj_attributes = obj_attr;
                  tbytes = 1024 * 1024 * 1024 * 1024;
                  fbytes = 1024 * 1024 * 1024 * 1024;
                  abytes = 1024 * 1024 * 1024 * 1024;
                  tfiles = 1024 * 1024 * 1024;
                  ffiles = 1024 * 1024 * 1024;
                  afiles = 1024 * 1024 * 1024;
                  invarsec = 2 ^ 32 - 1;
                }),
            s1,
          )

  unfoldable pub nfsproc3_pathconf : Procedure S
  nfsproc3_pathconf xid input context s = with_args (nfs_fh3_codec.deserialize input) s λ handle.
      with_id (fh_to_id context.vfs handle) s (λ stat. answer_status xid stat ⨾ post_op none)
        λ id.
          let (obj_attr, s1) = attributes context.vfs id s in
          (
            answer_status xid nfs3_ok
                ⨾ pathconf3_resok_codec.serialize (record {
                  obj_attributes = obj_attr;
                  linkmax = 0;
                  name_max = 32768;
                  no_trunc = true;
                  chown_restricted = true;
                  case_insensitive = false;
                  case_preserving = true;
                }),
            s1,
          )
