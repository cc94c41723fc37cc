-- ===== src/Nfs/Listing.antt =====
-- src/protocol/nfs/v3: READDIR and READDIRPLUS, with the counter of src/write_counter.rs. A
-- `usize` has 64 bits and wraps around, as in a release build.
pub mod Budget
use Prim.Native.Nat.{bit_or}
use nfs_mamont_mirror.Prelude.{
  ℕ, ◌+◌, ◌-◌, ◌*◌, ◌/◌, ◌%◌, ◌^◌, Bool, true, false, ◌&&◌, Option, none, some, List, [], ◌∷◌, ◌++◌,
  map, length, replicate, ltb, if◌then◌else◌,
}
use nfs_mamont_mirror.Prelude.Result.{Result, ok, err, to_option, ◌>>=◌}
use nfs_mamont_mirror.Prelude.Endian.{to_be_bytes}
use nfs_mamont_mirror.Xdr.Reader.{Bytes, Error, Writer, ◌⨾◌, Codec}
use nfs_mamont_mirror.Xdr.Order.{ByteOrder}
use nfs_mamont_mirror.Xdr.Basic.{bool, opaque}
use nfs_mamont_mirror.Xdr.Nfs3.Enums.{nfs3_ok}
use nfs_mamont_mirror.Xdr.Nfs3.{Fattr3}
use nfs_mamont_mirror.Xdr.Nfs3.Dir.{
  entry3_codec, readdir3_args_codec, entryplus3_codec, readdirplus3_args_codec,
}
use nfs_mamont_mirror.Vfs.{
  DirEntrySimple, DirEntry, NfsFileSystem, fh_to_id, id_to_fh, readdir_simple,
}
use nfs_mamont_mirror.Rpc.Context.{Context}
use nfs_mamont_mirror.Portmap.{with_args}
use nfs_mamont_mirror.Nfs.{Procedure, answer_status, post_op, with_id, on}

-- `count as usize - 128`
abbrev pub max_bytes_allowed : ℕ → ℕ
max_bytes_allowed count = (count + 2 ^ 64 - 128) % 2 ^ 64

-- The bytes of a file identifier, a length, the name and a cookie.
abbrev pub added_dircount : Bytes → ℕ
added_dircount name = 8 + 4 + length name + 8

-- The cookie verifier made of the time of the directory's last change.
abbrev pub dirversion : Option Fattr3 → Bytes
dirversion none = replicate 8 0
dirversion (some attr) = to_be_bytes 8 (bit_or (attr.mtime.seconds * 2 ^ 32) attr.mtime.nseconds)

-- The loop over the entries: each one as it would be written, with its share of the count of
-- directory bytes. An entry is written if the totals with it satisfy `fits`; the first one that
-- does not ends the list. The result tells whether all were written.
unfoldable pub write_entries :
    (ℕ → ℕ → Bool) → ℕ → ℕ → List (Writer × ℕ) → Result Error (Bytes × Bool)
write_entries fits written dircount [] = ok ([], true)
write_entries fits written dircount ((encoded, added) ∷ entries) = encoded >>= λ buf.
    let rest = write_entries fits (written + length buf) (dircount + added) entries in
    if fits (written + length buf) (dircount + added)
    then (rest >>= λ (bytes, all). ok (buf ++ bytes, all))
    else ok ([], false)

module _ ⦃order : ByteOrder⦄ where
  -- The header, the entries that fit, the end of the list, and the `eof` flag.
  unfoldable pub write_listing : (ℕ → ℕ → Bool) → Writer → List (Writer × ℕ) → Bool → Writer
  write_listing fits header entries end = header >>= λ head.
      write_entries fits (length head) 0 entries >>= λ (bytes, all).
      (bool.serialize false ⨾ bool.serialize (if all then end else false)) >>= λ tail.
      ok (head ++ (bytes ++ tail))

  abbrev pub listing_header : ℕ → Option Fattr3 → Writer
  listing_header xid dir_attr =
      answer_status xid nfs3_ok ⨾ post_op dir_attr ⨾ (opaque 8).serialize (dirversion dir_attr)

  unfoldable pub simple_entry : DirEntrySimple → Writer × ℕ
  simple_entry e = (
    bool.serialize true
        ⨾ entry3_codec.serialize (record { fileid = e.fileid; name = e.name; cookie = e.fileid }),
    added_dircount e.name,
  )

module _ {ℓ} {S : Type ℓ} ⦃order : ByteOrder⦄ where
  unfoldable pub plus_entry : NfsFileSystem S → DirEntry → Writer × ℕ
  plus_entry vfs e = (
    bool.serialize true
        ⨾ entryplus3_codec.serialize (record {
          fileid = e.fileid;
          name = e.name;
          cookie = e.fileid;
          name_attributes = some e.attr;
          name_handle = some (id_to_fh vfs e.fileid);
        }),
    added_dircount e.name,
  )

  unfoldable pub nfsproc3_readdir : Procedure S
  nfsproc3_readdir xid input context s = with_args (readdir3_args_codec.deserialize input) s λ args.
      with_id (fh_to_id context.vfs args.dir) s (λ stat. answer_status xid stat ⨾ post_op none)
        λ dirid.
          let (r, s1) = context.vfs.getattr dirid s in
          let dir_attr = to_option r in
          let max = max_bytes_allowed args.dircount in
          on (readdir_simple context.vfs dirid args.cookie (args.dircount / 16) s1)
            (λ result s2. (
              write_listing (λ bytes count. ltb bytes max) (listing_header xid dir_attr)
                  (map simple_entry result.entries) result.end,
              s2,
            ))
            (λ stat s2. (answer_status xid stat ⨾ post_op dir_attr, s2))

  unfoldable pub nfsproc3_readdirplus : Procedure S
  nfsproc3_readdirplus xid input context s =
      with_args (readdirplus3_args_codec.deserialize input) s λ args.
        with_id (fh_to_id context.vfs args.dir) s (λ stat. answer_status xid stat ⨾ post_op none)
          λ dirid.
            let (r, s1) = context.vfs.getattr dirid s in
            let dir_attr = to_option r in
            let max = max_bytes_allowed args.maxcount in
            on (context.vfs.readdir dirid args.cookie (args.dircount / 16) s1)
              (λ result s2. (
                write_listing (λ bytes count. ltb bytes max && ltb count args.dircount)
                    (listing_header xid dir_attr) (map (plus_entry context.vfs) result.entries)
                    result.end,
                s2,
              ))
              (λ stat s2. (answer_status xid stat ⨾ post_op dir_attr, s2))
