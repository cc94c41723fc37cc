-- ===== src/Nfs/Data.antt =====
-- src/protocol/nfs/v3: READ, WRITE and COMMIT.
use nfs_mamont_mirror.Prelude.{◌%◌, ◌^◌, none, some, length, ◌==◌, if◌then◌else◌}
use nfs_mamont_mirror.Xdr.Reader.{◌⨾◌}
use nfs_mamont_mirror.Xdr.Order.{ByteOrder}
use nfs_mamont_mirror.Xdr.Rpc.{rpc_msg_codec, garbage_args_reply_message}
use nfs_mamont_mirror.Xdr.Nfs3.Enums.{nfs3_ok, nfs3err_rofs}
use nfs_mamont_mirror.Xdr.Nfs3.File.{
  file_sync, read3_args_codec, read3_resok_codec, write3_args_codec, write3_resok_codec,
  commit3_args_codec, commit3_resok_codec,
}
use nfs_mamont_mirror.Vfs.{fh_to_id, server_id}
use nfs_mamont_mirror.Portmap.{with_args}
use nfs_mamont_mirror.Nfs.{
  Procedure, no_wcc, wcc_of_option, answer_status, post_op, wcc, with_write, with_id, on,
  attributes,
}

module _ {ℓ} {S : Type ℓ} ⦃order : ByteOrder⦄ where
  -- `bytes.len() as u32`
  unfoldable pub nfsproc3_read : Procedure S
  nfsproc3_read xid input context s = with_args (read3_args_codec.deserialize input) s λ args.
      with_id (fh_to_id context.vfs args.file) s (λ stat. answer_status xid stat ⨾ post_op none)
        λ id.
          let (obj_attr, s1) = attributes context.vfs id s in
          on (context.vfs.read id args.offset args.count s1)
            (λ r s2. (
              answer_status xid nfs3_ok
                  ⨾ read3_resok_codec.serialize (record {
                    file_attributes = obj_attr;
                    count = length r.0 % 2 ^ 32;
                    eof = r.1;
                    bytes = r.0;
                  }),
              s2,
            ))
            (λ stat s2. (answer_status xid stat ⨾ post_op obj_attr, s2))

  unfoldable pub nfsproc3_write : Procedure S
  nfsproc3_write xid input context s =
      with_write context.vfs.capabilities s (answer_status xid nfs3err_rofs ⨾ wcc no_wcc) (
        with_args (write3_args_codec.deserialize input) s λ args.
          if length args.bytes == args.count
          then with_id (fh_to_id context.vfs args.file) s
              (λ stat. answer_status xid stat ⨾ wcc no_wcc)
              (λ id.
                let (pre_obj_attr, s1) = attributes context.vfs id s in
                on (context.vfs.write id args.offset args.bytes s1)
                  (λ fattr s2. (
                    answer_status xid nfs3_ok
                        ⨾ write3_resok_codec.serialize (record {
                          file_wcc = record {
                            before = wcc_of_option pre_obj_attr;
                            after = some fattr;
                          };
                          count = args.count;
                          committed = file_sync;
                          verf = server_id context.vfs;
                        }),
                    s2,
                  ))
                  (λ stat s2. (answer_status xid stat ⨾ wcc no_wcc, s2)))
          else (rpc_msg_codec.serialize (garbage_args_reply_message xid), s))

  unfoldable pub nfsproc3_commit : Procedure S
  nfsproc3_commit xid input context s = with_args (commit3_args_codec.deserialize input) s λ args.
      with_id (fh_to_id context.vfs args.file) s (λ stat. answer_status xid stat ⨾ wcc no_wcc)
        λ id.
          let (pre_obj_attr, s1) = attributes context.vfs id s in
          on (context.vfs.commit id args.offset args.count s1)
            (λ fattr s2. (
              answer_status xid nfs3_ok
                  ⨾ commit3_resok_codec.serialize (record {
                    file_wcc = record { before = wcc_of_option pre_obj_attr; after = some fattr };
                    verf = server_id context.vfs;
                  }),
              s2,
            ))
            (λ stat s2.
              let (post_obj_attr, s3) = attributes context.vfs id s2 in
              (
                answer_status xid stat
                    ⨾ wcc (record { before = wcc_of_option pre_obj_attr; after = post_obj_attr }),
                s3,
              ))
