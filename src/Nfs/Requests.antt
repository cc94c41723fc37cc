-- ===== src/Nfs/Requests.antt =====
-- src/protocol/nfs/v3: requests as a client encodes them, with a handle that the server has made.
use nfs_mamont_mirror.Prelude.{Option, some, ℕ, ◌≡◌, ◌==◌, true, ◌++◌, length, ==_refl}
use nfs_mamont_mirror.Prelude.Result.{Result, ok, err}
use nfs_mamont_mirror.Xdr.Reader.{Bytes, Writer, ◌⨾◌}
use nfs_mamont_mirror.Xdr.Order.{ByteOrder}
use nfs_mamont_mirror.Xdr.Nfs3.{Fattr3, nfs_fh3_codec}
use nfs_mamont_mirror.Xdr.Nfs3.Enums.{NfsStat3, nfs3_ok}
use nfs_mamont_mirror.Xdr.Nfs3.RoundTrip.{IsU64}
use nfs_mamont_mirror.Xdr.Nfs3.Args.{DirOpArgs3, diropargs3_codec}
use nfs_mamont_mirror.Xdr.Nfs3.Args.RoundTrip.{DirOpArgs3Fits, diropargs3-RoundTrips}
use nfs_mamont_mirror.Xdr.Nfs3.File.{Write3Args, file_sync, write3_args_codec, write3_resok_codec}
use nfs_mamont_mirror.Xdr.Nfs3.File.RoundTrip.{Write3ArgsFits, write3_args-RoundTrips}
use nfs_mamont_mirror.Vfs.{id_to_fh, fh_to_id, read_write, server_id}
use nfs_mamont_mirror.Vfs.Handle.{fh_to_id-id_to_fh}
use nfs_mamont_mirror.Rpc.Context.{Context}
use nfs_mamont_mirror.Nfs.{no_wcc, wcc_of_option, answer_status, wcc, attributes}
use nfs_mamont_mirror.Nfs.Attributes.{nfsproc3_lookup}
use nfs_mamont_mirror.Nfs.Data.{nfsproc3_write}
use nfs_mamont_mirror.Nfs.Handles.{GivesHandle, nfsproc3_lookup-handle}

module _ {ℓ} {S : Type ℓ} ⦃order : ByteOrder⦄ where
  -- The answer to a WRITE, by its outcome; `before` are the attributes from before it.
  abbrev pub answer_write :
      ℕ → Context S → Write3Args → Option Fattr3 → Result NfsStat3 Fattr3 → Writer
  answer_write xid context args before (ok fattr) =
      answer_status xid nfs3_ok
      ⨾ write3_resok_codec.serialize (record {
        file_wcc = record { before = wcc_of_option before; after = some fattr };
        count = args.count;
        committed = file_sync;
        verf = server_id context.vfs;
      })
  answer_write xid context args before (err stat) = answer_status xid stat ⨾ wcc no_wcc

  decoded_write :
      (xid : ℕ) (input rest : Bytes) (context : Context S) (s s' : S) (args : Write3Args) (id : ℕ)
      (r : Result NfsStat3 Fattr3)
      → context.vfs.capabilities ≡ read_write
      → write3_args_codec.deserialize input ≡ ok (args, rest)
      → (length args.bytes == args.count) ≡ true
      → fh_to_id context.vfs args.file ≡ ok id
      → context.vfs.write id args.offset args.bytes (attributes context.vfs id s).1 ≡ (r, s')
      → nfsproc3_write xid input context s
        ≡ (answer_write xid context args (attributes context.vfs id s).0 r, s')
  unfolding nfsproc3_write
  decoded_write xid input rest context s s' args id (ok fattr) w d n h e = simp (w, d, n, h, e)
  decoded_write xid input rest context s s' args id (err stat) w d n h e = simp (w, d, n, h, e)

  -- If a client encodes a WRITE to a writable file system, with the handle that the server has
  -- made for an object and the right count, and all fits its words, then the file system is
  -- written to exactly as asked, and its outcome is the answer.
  pub nfsproc3_write-served :
      (xid : ℕ) (context : Context S) (s s' : S) (args : Write3Args) (id : ℕ)
      (r : Result NfsStat3 Fattr3)
      → context.vfs.capabilities ≡ read_write
      → IsU64 context.vfs.generation
      → IsU64 id
      → Write3ArgsFits args
      → args.file ≡ id_to_fh context.vfs id
      → length args.bytes ≡ args.count
      → context.vfs.write id args.offset args.bytes (attributes context.vfs id s).1 ≡ (r, s')
      → (bytes : Bytes) × (write3_args_codec.serialize args ≡ ok bytes)
        × ((rest : Bytes)
            → nfsproc3_write xid (bytes ++ rest) context s
              ≡ (answer_write xid context args (attributes context.vfs id s).0 r, s'))
  nfsproc3_write-served xid context s s' args id r w g k fits f n e =
      let trip = write3_args-RoundTrips args fits in
      let accepted : fh_to_id context.vfs args.file ≡ ok id =
        rw f (fh_to_id-id_to_fh context.vfs id g k) in
      (
        trip.bytes,
        trip.written,
        λ rest.
            decoded_write xid (trip.bytes ++ rest) rest context s s' args id r w (trip.reads rest)
              (rw n (==_refl args.count)) accepted e,
      )

  -- If a client encodes a LOOKUP with the handle that the server has made for a directory, and the
  -- file system finds the name in it, then the answer has a handle that the server accepts for the
  -- object found. All numbers have to fit their words.
  pub nfsproc3_lookup-served :
      (xid : ℕ) (context : Context S) (s s' : S) (dirops : DirOpArgs3) (dirid fid : ℕ)
      → IsU64 context.vfs.generation
      → IsU64 dirid
      → IsU64 fid
      → DirOpArgs3Fits dirops
      → dirops.dir ≡ id_to_fh context.vfs dirid
      → context.vfs.lookup dirid dirops.name (attributes context.vfs dirid s).1 ≡ (ok fid, s')
      → (bytes : Bytes) × (diropargs3_codec.serialize dirops ≡ ok bytes)
        × ((rest : Bytes)
            → GivesHandle context.vfs xid fid nfs_fh3_codec.serialize
                (nfsproc3_lookup xid (bytes ++ rest) context s).0)
  nfsproc3_lookup-served xid context s s' dirops dirid fid g k m fits f e =
      let trip = diropargs3-RoundTrips dirops fits in
      let accepted : fh_to_id context.vfs dirops.dir ≡ ok dirid =
        rw f (fh_to_id-id_to_fh context.vfs dirid g k) in
      (
        trip.bytes,
        trip.written,
        λ rest.
            nfsproc3_lookup-handle xid (trip.bytes ++ rest) rest context s s' dirops dirid fid g m
              (trip.reads rest) accepted e,
      )
