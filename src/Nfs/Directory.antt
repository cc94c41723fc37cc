-- ===== src/Nfs/Directory.antt =====
-- src/protocol/nfs/v3: CREATE, MKDIR, SYMLINK, MKNOD, REMOVE (also RMDIR), RENAME and LINK.
use nfs_mamont_mirror.Prelude.{ℕ, Option, none, some}
use nfs_mamont_mirror.Prelude.Result.{Result, ok, err}
use nfs_mamont_mirror.Xdr.Reader.{Bytes, Reader, pure, ◌>>=◌, Writer, ◌⨾◌}
use nfs_mamont_mirror.Xdr.Order.{ByteOrder}
use nfs_mamont_mirror.Xdr.Basic.{option}
use nfs_mamont_mirror.Xdr.Nfs3.Enums.{NfsStat3, nfs3_ok, nfs3err_rofs, nfs3err_exist}
use nfs_mamont_mirror.Xdr.Nfs3.{Fattr3, WccAttr, nfs_fh3_codec, sattr3_codec, no_changes, NfsFh3}
use nfs_mamont_mirror.Xdr.Nfs3.Args.{
  DirOpArgs3, diropargs3_codec, CreateMode3, unchecked, guarded, exclusive, createmode3_codec,
}
use nfs_mamont_mirror.Xdr.Nfs3.Dir.{mkdir3_args_codec, symlink3_args_codec, mknod3_args_codec}
use nfs_mamont_mirror.Xdr.Nfs3.File.{link3_args_codec}
use nfs_mamont_mirror.Vfs.{id_to_fh, fh_to_id}
use nfs_mamont_mirror.Rpc.Context.{Context}
use nfs_mamont_mirror.Portmap.{with_args}
use nfs_mamont_mirror.Nfs.{
  Procedure, no_wcc, wcc_attr_of, wcc_of_option, answer_status, post_op, wcc, with_write, with_id,
  with_input, on, attributes,
}

module _ {ℓ} {S : Type ℓ} where
  -- A new object, with attributes that are always there.
  abbrev with_attributes :
      Result NfsStat3 (ℕ × Fattr3) × S → Result NfsStat3 (ℕ × Option Fattr3) × S
  with_attributes (ok (fid, fattr), s) = (ok (fid, some fattr), s)
  with_attributes (err stat, s) = (err stat, s)

  -- A new object of which only the identifier is known.
  abbrev without_attributes : Result NfsStat3 ℕ × S → Result NfsStat3 (ℕ × Option Fattr3) × S
  without_attributes (ok fid, s) = (ok (fid, none), s)
  without_attributes (err stat, s) = (err stat, s)

module _ ⦃order : ByteOrder⦄ where
  abbrev pub refused_write : ℕ → NfsStat3 → Writer
  refused_write xid stat = answer_status xid stat ⨾ wcc no_wcc

  abbrev pub refused_link : ℕ → NfsStat3 → Writer
  refused_link xid stat = answer_status xid stat ⨾ post_op none ⨾ wcc no_wcc

  abbrev create_args : Reader (DirOpArgs3 × CreateMode3)
  create_args = do
    dirops ← diropargs3_codec.deserialize
    createhow ← createmode3_codec.deserialize
    pure (dirops, createhow)

  abbrev rename_args : Reader (DirOpArgs3 × DirOpArgs3)
  rename_args = do
    fromdirops ← diropargs3_codec.deserialize
    todirops ← diropargs3_codec.deserialize
    pure (fromdirops, todirops)

module _ {ℓ} {S : Type ℓ} ⦃order : ByteOrder⦄ where
  -- The end of a procedure that makes an object in a directory: the directory's attributes are
  -- read again, and the answer is the object, or the error.
  unfoldable pub finish_create :
      ℕ → Context S → ℕ → Option WccAttr → Result NfsStat3 (ℕ × Option Fattr3) × S → Writer × S
  finish_create xid context dirid before r =
      on r
        (λ made s.
          let (after, s') = attributes context.vfs dirid s in
          (
            answer_status xid nfs3_ok
                ⨾ (option nfs_fh3_codec).serialize (some (id_to_fh context.vfs made.0))
                ⨾ post_op made.1
                ⨾ wcc (record { before = before; after = after }),
            s',
          ))
        (λ stat s.
          let (after, s') = attributes context.vfs dirid s in
          (answer_status xid stat ⨾ wcc (record { before = before; after = after }), s'))

  abbrev create_unless_found :
      ℕ → Context S → ℕ → Option WccAttr → Result NfsStat3 ℕ × S → (S → Writer × S) → Writer × S
  create_unless_found xid context dirid before (ok found, s) create =
      let (after, s') = attributes context.vfs dirid s in
      (answer_status xid nfs3err_exist ⨾ wcc (record { before = before; after = after }), s')
  create_unless_found xid context dirid before (err stat, s) create = create s

  -- The match on `createhow`.
  unfoldable pub create_how :
      ℕ → Context S → ℕ → Bytes → Option WccAttr → Bytes → S → CreateMode3 → Writer × S
  create_how xid context dirid name before rest s unchecked =
      with_args (sattr3_codec.deserialize rest) s λ attr.
        finish_create xid context dirid before
          (with_attributes (context.vfs.create dirid name attr s))
  create_how xid context dirid name before rest s guarded =
      with_args (sattr3_codec.deserialize rest) s λ attr.
        create_unless_found xid context dirid before (context.vfs.lookup dirid name s) λ s1.
          finish_create xid context dirid before
            (with_attributes (context.vfs.create dirid name attr s1))
  create_how xid context dirid name before rest s exclusive =
      finish_create xid context dirid before
        (without_attributes (context.vfs.create_exclusive dirid name s))

  -- What CREATE, MKDIR, SYMLINK and REMOVE do about their directory first.
  abbrev in_directory : ℕ → Context S → S → NfsFh3 → (ℕ → WccAttr → S → Writer × S) → Writer × S
  in_directory xid context s dir next =
      with_id (fh_to_id context.vfs dir) s (refused_write xid) λ dirid.
        on (context.vfs.getattr dirid s) (λ v s1. next dirid (wcc_attr_of v) s1)
          (λ stat s1. (refused_write xid stat, s1))

  unfoldable pub nfsproc3_create : Procedure S
  nfsproc3_create xid input context s =
      with_write context.vfs.capabilities s (refused_write xid nfs3err_rofs) (
        with_input (create_args input) s λ args rest.
          in_directory xid context s args.0.dir λ dirid before s1.
            create_how xid context dirid args.0.name (some before) rest s1 args.1)

  unfoldable pub nfsproc3_mkdir : Procedure S
  nfsproc3_mkdir xid input context s =
      with_write context.vfs.capabilities s (refused_write xid nfs3err_rofs) (
        with_args (mkdir3_args_codec.deserialize input) s λ args.
          in_directory xid context s args.dirops.dir λ dirid before s1.
            finish_create xid context dirid (some before)
              (with_attributes (context.vfs.mkdir dirid args.dirops.name s1)))

  unfoldable pub nfsproc3_symlink : Procedure S
  nfsproc3_symlink xid input context s =
      with_write context.vfs.capabilities s (refused_write xid nfs3err_rofs) (
        with_args (symlink3_args_codec.deserialize input) s λ args.
          in_directory xid context s args.dirops.dir λ dirid before s1.
            finish_create xid context dirid (some before) (
              with_attributes (
                context.vfs.symlink dirid args.dirops.name args.symlink.symlink_data
                  args.symlink.symlink_attributes s1)))

  unfoldable pub nfsproc3_mknod : Procedure S
  nfsproc3_mknod xid input context s =
      with_write context.vfs.capabilities s (refused_write xid nfs3err_rofs) (
        with_args (mknod3_args_codec.deserialize input) s λ args.
          with_id (fh_to_id context.vfs args.where_dir.dir) s (refused_write xid) λ dirid.
            let (before, s1) = attributes context.vfs dirid s in
            finish_create xid context dirid (wcc_of_option before) (
              with_attributes (
                context.vfs.mknod dirid args.where_dir.name args.what.mknod_type
                  args.what.device.device no_changes s1)))

  unfoldable pub nfsproc3_remove : Procedure S
  nfsproc3_remove xid input context s =
      with_write context.vfs.capabilities s (refused_write xid nfs3err_rofs) (
        with_args (diropargs3_codec.deserialize input) s λ dirops.
          in_directory xid context s dirops.dir λ dirid before s1.
            let (r, s2) = context.vfs.remove dirid dirops.name s1 in
            let (after, s3) = attributes context.vfs dirid s2 in
            let wcc_res = wcc (record { before = some before; after = after }) in
            on (r, s3) (λ done s4. (answer_status xid nfs3_ok ⨾ wcc_res, s4))
              (λ stat s4. (answer_status xid stat ⨾ wcc_res, s4)))

  unfoldable pub nfsproc3_rename : Procedure S
  nfsproc3_rename xid input context s =
      with_write context.vfs.capabilities s (refused_write xid nfs3err_rofs) (
        with_args (rename_args input) s λ args.
          with_id (fh_to_id context.vfs args.0.dir) s (refused_write xid) λ from.
            with_id (fh_to_id context.vfs args.1.dir) s (refused_write xid) λ to.
              on (context.vfs.getattr from s)
                (λ v s1.
                  on (context.vfs.getattr to s1)
                    (λ u s2.
                      let (r, s3) = context.vfs.rename from args.0.name to args.1.name s2 in
                      let (after_from, s4) = attributes context.vfs from s3 in
                      let (after_to, s5) = attributes context.vfs to s4 in
                      let wcc_res =
                        wcc (record { before = some (wcc_attr_of v); after = after_from })
                        ⨾ wcc (record { before = some (wcc_attr_of u); after = after_to }) in
                      on (r, s5) (λ done s6. (answer_status xid nfs3_ok ⨾ wcc_res, s6))
                        (λ stat s6. (answer_status xid stat ⨾ wcc_res, s6)))
                    (λ stat s2. (refused_write xid stat, s2)))
                (λ stat s1. (refused_write xid stat, s1)))

  unfoldable pub nfsproc3_link : Procedure S
  nfsproc3_link xid input context s =
      with_write context.vfs.capabilities s (refused_link xid nfs3err_rofs) (
        with_args (link3_args_codec.deserialize input) s λ args.
          with_id (fh_to_id context.vfs args.file) s (refused_link xid) λ fileid.
            with_id (fh_to_id context.vfs args.link.dir) s (refused_link xid) λ dirid.
              let (before, s1) = attributes context.vfs dirid s in
              on (context.vfs.link fileid dirid args.link.name s1)
                (λ fattr s2.
                  let (after, s3) = attributes context.vfs dirid s2 in
                  (
                    answer_status xid nfs3_ok
                        ⨾ post_op (some fattr)
                        ⨾ wcc (record { before = wcc_of_option before; after = after }),
                    s3,
                  ))
                (λ stat s2.
                  let (file_attr, s3) = attributes context.vfs fileid s2 in
                  let (after, s4) = attributes context.vfs dirid s3 in
                  (
                    answer_status xid stat
                        ⨾ post_op file_attr
                        ⨾ wcc (record { before = wcc_of_option before; after = after }),
                    s4,
                  )))
