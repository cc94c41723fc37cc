-- ===== src/Tests/Nfs.antt =====
-- Calls of NFS version 3, on file systems that only count what is written to them.
use nfs_mamont_mirror.Prelude.{
  ℕ, ◌≡◌, refl, suc, some, true, false, [], ◌∷◌, ◌++◌, replicate, length, ltb, map, arith, List,
  ◌+◌, ◌⊎◌, ◌<◌, ◌-◌,
}
use nfs_mamont_mirror.Prelude.Result.{ok, err}
use nfs_mamont_mirror.Xdr.Reader.{Bytes, Writer, ◌⨾◌}
use nfs_mamont_mirror.Xdr.Basic.{u32}
use nfs_mamont_mirror.Xdr.Nfs3.{NfsTime3, Fattr3, nfs_fh3_codec}
use nfs_mamont_mirror.Xdr.Nfs3.Enums.{nf3_dir, nfs3err_rofs, nfs3_ok}
use nfs_mamont_mirror.Vfs.{NfsFileSystem, read_write, id_to_fh, read_only}
use nfs_mamont_mirror.Nfs.{answer_status, post_op}
use nfs_mamont_mirror.Nfs.Listing.{
  listing_header, simple_entry, nfsproc3_readdir, nfsproc3_readdirplus,
}
use nfs_mamont_mirror.Nfs.ReadOnly.{refusal_body, write, handle_nfs_read_only}
use nfs_mamont_mirror.Nfs.Listing.Budget.{
  IsPrefix, write_entries_prefix, length-nfsproc3_readdirplus, length-nfsproc3_readdir,
}
use nfs_mamont_mirror.Xdr.Nfs3.Args.{DirOpArgs3, diropargs3_codec}
use nfs_mamont_mirror.Nfs.Attributes.{nfsproc3_lookup}
use nfs_mamont_mirror.Nfs.Handles.{GivesHandle}
use nfs_mamont_mirror.Nfs.Requests.{nfsproc3_lookup-served, nfsproc3_write-served, answer_write}
use nfs_mamont_mirror.Xdr.RoundTrip.{RoundTrips}
use nfs_mamont_mirror.Xdr.Nfs3.File.RoundTrip.{write3_args-RoundTrips}
use nfs_mamont_mirror.Xdr.Nfs3.File.{Write3Args, write3_args_codec}
use Prim.Native.Nat.{bit_and}
use nfs_mamont_mirror.Nfs.Access.{change, nfsproc3_access}
use nfs_mamont_mirror.Nfs.Rights.{nfsproc3_access_read_only}
use nfs_mamont_mirror.Tests.{order, program, small, client, call_of, words, bin}
use nfs_mamont_mirror.Nfs.Data.{nfsproc3_write}
use nfs_mamont_mirror.Nfs.Handler.{handle_nfs}
use nfs_mamont_mirror.Rpc.Context.{Context}

abbrev noon : NfsTime3
noon = record { seconds = 43200; nseconds = 5 }

abbrev directory : Fattr3
directory = record {
  ftype = nf3_dir;
  mode = 493;
  nlink = 2;
  uid = 507;
  gid = 508;
  size = 4096;
  used = 4096;
  rdev = record { specdata1 = 0; specdata2 = 0 };
  fsid = 1;
  fileid = 1;
  atime = noon;
  mtime = noon;
  ctime = noon;
}

-- A file system whose one directory may be written to, and has one entry.
abbrev writable : NfsFileSystem ℕ
writable = record small {
  capabilities = read_write;
  getattr = λ id s. (ok directory, s);
  setattr = λ id attr s. (ok directory, suc s);
  readdir = λ dir after count s. (
    ok (record { entries = record { fileid = 2; name = bin; attr = directory } ∷ []; end = true }),
    s,
  );
}

abbrev writer : Context ℕ
writer = record client { vfs = writable }

-- The handle of the object 1, as it is sent.
abbrev root_handle : Bytes
root_handle = words (16 ∷ []) ++ (77 ∷ replicate 7 0 ++ 1 ∷ replicate 7 0)

abbrev bin_name : Bytes
bin_name = words (3 ∷ []) ++ bin ++ 0 ∷ []

-- Three bytes at the offset 5.
abbrev write_input : Bytes
write_input = root_handle ++ words (0 ∷ 5 ∷ 3 ∷ 2 ∷ []) ++ bin_name

handle_nfs_read_only_example :
    handle_nfs 7 (record (call_of 2 100003 3) { proc = 7 }) write_input client 4
    ≡ (answer_status 7 nfs3err_rofs ⨾ refusal_body write, 4)
handle_nfs_read_only_example =
    handle_nfs_read_only write 7 (record (call_of 2 100003 3) { proc = 7 }) write_input client 4
      refl refl (unfold program in refl)

-- The small file system refuses the write, and has counted it.
written_once : (nfsproc3_write 7 write_input writer 4).1 ≡ 5
unfolding program
written_once = refl

abbrev one_entry : Bytes
one_entry = words (1 ∷ 0 ∷ 2 ∷ []) ++ bin_name ++ words (0 ∷ 2 ∷ [])

abbrev two_entries : List (Writer × ℕ)
two_entries =
    map simple_entry (record { fileid = 2; name = bin } ∷ record { fileid = 3; name = bin } ∷ [])

write_entries_prefix_example : IsPrefix two_entries one_entry false
write_entries_prefix_example =
    write_entries_prefix (λ bytes count. ltb bytes 50) two_entries 0 0 (unfold program in refl)

abbrev bytes_of : Writer → Bytes
bytes_of (ok bs) = bs
bytes_of (err e) = []

abbrev readdir_input : Bytes
readdir_input = root_handle ++ words (0 ∷ 0 ∷ 0 ∷ 0 ∷ 512 ∷ [])

abbrev header : Bytes
header = bytes_of (listing_header 7 (some directory))

abbrev answer : Bytes
answer = bytes_of (nfsproc3_readdir 7 readdir_input writer 4).0

length-nfsproc3_readdir_example : (length answer ≡ length header + 8) ⊎ (length answer < 512 - 120)
length-nfsproc3_readdir_example =
    length-nfsproc3_readdir 7 readdir_input [] writer 4 4
      (record { dir = id_to_fh small 1; cookie = 0; cookieverf = replicate 8 0; dircount = 512 }) 1
      (record { entries = record { fileid = 2; name = bin } ∷ []; end = true }) header (omega arith)
      (omega arith) (unfold program in refl) (unfold program in refl) (unfold program in refl)
      (unfold program in refl) (unfold program in refl)

abbrev readdirplus_input : Bytes
readdirplus_input = root_handle ++ words (0 ∷ 0 ∷ 0 ∷ 0 ∷ 512 ∷ 1024 ∷ [])

abbrev answer_plus : Bytes
answer_plus = bytes_of (nfsproc3_readdirplus 7 readdirplus_input writer 4).0

length-nfsproc3_readdirplus_example :
    (length answer_plus ≡ length header + 8) ⊎ (length answer_plus < 1024 - 120)
length-nfsproc3_readdirplus_example =
    length-nfsproc3_readdirplus 7 readdirplus_input [] writer 4 4
      (record {
        dir = id_to_fh small 1;
        cookie = 0;
        cookieverf = replicate 8 0;
        dircount = 512;
        maxcount = 1024;
      })
      1 (record { entries = record { fileid = 2; name = bin; attr = directory } ∷ []; end = true })
      header (omega arith) (omega arith) (unfold program in refl) (unfold program in refl)
      (unfold program in refl) (unfold program in refl) (unfold program in refl)

-- The write that `write_input` asks for.
abbrev write_args : Write3Args
write_args = record { file = id_to_fh small 1; offset = 5; count = 3; stable = 2; bytes = bin }

write_args_sent : write3_args_codec.serialize write_args ≡ ok write_input
unfolding program
write_args_sent = refl

write3_args-RoundTrips_example : RoundTrips write3_args_codec write_args
write3_args-RoundTrips_example =
    write3_args-RoundTrips write_args
      (unfold program in omega arith, omega arith, omega arith, omega arith, omega arith)

nfsproc3_write-served_example :
    (bytes : Bytes) × (write3_args_codec.serialize write_args ≡ ok bytes)
    × ((rest : Bytes)
        → nfsproc3_write 7 (bytes ++ rest) writer 4
          ≡ (answer_write 7 writer write_args (some directory) (err nfs3err_rofs), 5))
nfsproc3_write-served_example =
    nfsproc3_write-served 7 writer 4 5 write_args 1 (err nfs3err_rofs) refl (omega arith)
      (omega arith)
      (unfold program in omega arith, omega arith, omega arith, omega arith, omega arith)
      (unfold program in refl) refl refl

-- A reader of the same file system, which may not be written to.
abbrev reader : Context ℕ
reader = record client { vfs = record writable { capabilities = read_only } }

-- All six rights are asked for.
abbrev access_input : Bytes
access_input = root_handle ++ words (63 ∷ [])

nfsproc3_access_read_only_example :
    (granted : ℕ) × (bit_and granted change ≡ 0)
    × (nfsproc3_access 7 access_input reader 4
        ≡ (answer_status 7 nfs3_ok ⨾ post_op (some directory) ⨾ u32.serialize granted, 4))
nfsproc3_access_read_only_example =
    nfsproc3_access_read_only 7 access_input [] reader 4 4 (id_to_fh small 1) 63 1 directory refl
      (unfold program in refl) (unfold program in refl) refl

-- A file system that finds the entry 2 under any name.
abbrev finder : Context ℕ
finder = record client { vfs = record writable { lookup = λ dirid name s. (ok 2, suc s) } }

abbrev lookup_args : DirOpArgs3
lookup_args = record { dir = id_to_fh small 1; name = bin }

nfsproc3_lookup-served_example :
    (bytes : Bytes) × (diropargs3_codec.serialize lookup_args ≡ ok bytes)
    × ((rest : Bytes)
        → GivesHandle finder.vfs 7 2 nfs_fh3_codec.serialize
            (nfsproc3_lookup 7 (bytes ++ rest) finder 4).0)
nfsproc3_lookup-served_example =
    nfsproc3_lookup-served 7 finder 4 5 lookup_args 1 2 (omega arith) (omega arith) (omega arith)
      (unfold program in omega arith, omega arith) (unfold program in refl) refl
