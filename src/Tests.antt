-- ===== src/Tests.antt =====
-- A server with a small file system, and messages to it as they come over the wire.
pub mod Wire
pub mod Service
pub mod Dispatch
pub mod Nfs
pub mod Files
pub mod Mirrored
pub mod Listening
pub mod Connected
pub mod Requests
use nfs_mamont_mirror.Prelude.{
  ℕ, suc, ◌&&◌, ◌≡◌, refl, Bool, true, false, List, [], ◌∷◌, ◌++◌, if◌then◌else◌, ◌==◌,
}
use nfs_mamont_mirror.Prelude.Result.{Result, ok, err}
use nfs_mamont_mirror.Prelude.Endian.{to_be_bytes, from_be_bytes, to_le_bytes, from_le_bytes}
use nfs_mamont_mirror.Prelude.Table.{lookup, insert, remove, retain}
use nfs_mamont_mirror.Xdr.Reader.{Bytes, Writer, read_exact}
use nfs_mamont_mirror.Xdr.Order.{ByteOrder, big_endian}
use nfs_mamont_mirror.Xdr.Basic.{
  padding_len, read_padding, write_padding, deserialize_n, serialize_each, find_variant, is_ascii,
  u32, u64, bool, enum, usize_as_u32, opaque, vec_u8, string, array, vec, option,
}
use nfs_mamont_mirror.Xdr.Rpc.{
  CallBody, RpcMsg, RpcBody, OpaqueAuth, no_auth, AuthUnix, auth_unix, rpc_msg_codec,
  rpc_body_codec, call_body_codec, opaque_auth_codec, auth_flavor_codec, auth_unix_codec,
  serialize_rpc_body, serialize_reply_body, reply_body_codec, accepted_reply_codec,
  accept_body_codec, serialize_accept_body, mismatch_info_codec, rejected_reply_codec,
  serialize_rejected_reply, make_success_reply, prog_unavail_reply_message, rpc_vers_mismatch,
  prog_mismatch_reply_message, proc_unavail_reply_message, garbage_args_reply_message,
}
use nfs_mamont_mirror.Xdr.Nfs3.Enums.{
  NfsStat3, nfs3err_noent, nfs3err_rofs, nfsstat3_codec, ftype3_codec,
}
use nfs_mamont_mirror.Xdr.Portmap.{mapping_codec, serialize_next, serialize_pmaplist}
use nfs_mamont_mirror.Xdr.Mount.{mountstat3_codec, mountres3_ok_codec}
use nfs_mamont_mirror.Vfs.{
  NfsFileSystem, Call, Capabilities, read_only, id_to_fh, fh_to_id, path_to_id, walk, split,
  from_readdir_result, readdir_simple, fsinfo, server_id,
}
use nfs_mamont_mirror.Rpc.Tracker.{
  same_bytes, TransactionTracker, is_retransmission, mark_processed, housekeeping,
}
use nfs_mamont_mirror.Rpc.Fragment.{read_fragment, write_fragment, write_fragment_loop}
use nfs_mamont_mirror.Rpc.Connection.{submit_command, read, message_loop, run}
use nfs_mamont_mirror.Rpc.Context.{Context, World, send_signal}
use nfs_mamont_mirror.Rpc.Dispatch.{authenticate, dispatch, handle_rpc}
use nfs_mamont_mirror.Portmap.{
  get_port, set_port, unset_port, dump_list, pmapproc_null, pmapproc_getport, pmapproc_setport,
  pmapproc_unsetport, pmapproc_dump, handle_portmap,
}
use nfs_mamont_mirror.Mount.{
  path_below, mountproc3_null, mountproc3_mnt, mountproc3_umnt, mountproc3_umnt_all,
  mountproc3_export, handle_mount,
}
use nfs_mamont_mirror.Mount.Text.{
  is_utf8, following, from_utf8_or_default, strip_prefix, trim_start_matches, trim_end_matches,
  trim_from, trim,
}
use nfs_mamont_mirror.Nfs.Access.{grant, granted_access, nfsproc3_access}
use nfs_mamont_mirror.Nfs.Directory.{
  finish_create, create_how, nfsproc3_create, nfsproc3_mkdir, nfsproc3_symlink, nfsproc3_mknod,
  nfsproc3_remove, nfsproc3_rename, nfsproc3_link,
}
use nfs_mamont_mirror.Nfs.Listing.{
  write_entries, write_listing, simple_entry, plus_entry, nfsproc3_readdir, nfsproc3_readdirplus,
}
use nfs_mamont_mirror.Nfs.Handler.{handle_nfs}
use nfs_mamont_mirror.Nfs.Data.{nfsproc3_read, nfsproc3_write, nfsproc3_commit}
use nfs_mamont_mirror.Nfs.System.{nfsproc3_fsinfo, nfsproc3_fsstat, nfsproc3_pathconf}
use nfs_mamont_mirror.Nfs.Attributes.{
  nfsproc3_null, guard_reply, nfsproc3_getattr, nfsproc3_setattr, nfsproc3_lookup,
  nfsproc3_readlink,
}
use nfs_mamont_mirror.Xdr.Nfs3.{
  specdata3_codec, nfs_fh3_codec, nfstime3_codec, fattr3_codec, wcc_attr_codec, wcc_data_codec,
  serialize_set_atime, set_atime_codec, serialize_set_mtime, set_mtime_codec, sattr3_codec,
}
use nfs_mamont_mirror.Xdr.Nfs3.File.{
  stable_how_codec, read3_args_codec, read3_resok_codec, write3_args_codec, write3_resok_codec,
}
use nfs_mamont_mirror.Xdr.Nfs3.Dir.{
  entry3_codec, readdir3_args_codec, entryplus3_codec, readdirplus3_args_codec,
}
use nfs_mamont_mirror.Xdr.Nfs3.Args.{createmode3_codec, diropargs3_codec, setattr3_args_codec}

instance abbrev pub order : ByteOrder
order = big_endian

pub program : Unit {0}
unfolding to_be_bytes from_be_bytes to_le_bytes from_le_bytes lookup insert remove retain read_exact
    padding_len read_padding write_padding deserialize_n serialize_each find_variant is_ascii u32
    u64 bool enum usize_as_u32 opaque vec_u8 string array vec option rpc_msg_codec rpc_body_codec
    call_body_codec opaque_auth_codec auth_flavor_codec auth_unix_codec serialize_rpc_body
    serialize_reply_body reply_body_codec accepted_reply_codec accept_body_codec
    serialize_accept_body mismatch_info_codec rejected_reply_codec serialize_rejected_reply
    make_success_reply prog_unavail_reply_message rpc_vers_mismatch prog_mismatch_reply_message
    proc_unavail_reply_message mapping_codec serialize_next serialize_pmaplist mountstat3_codec
    mountres3_ok_codec id_to_fh fh_to_id path_to_id walk split is_retransmission mark_processed
    housekeeping read_fragment write_fragment write_fragment_loop submit_command read message_loop
    run send_signal authenticate dispatch handle_rpc get_port set_port unset_port dump_list
    pmapproc_null pmapproc_getport pmapproc_setport pmapproc_unsetport pmapproc_dump handle_portmap
    path_below mountproc3_null mountproc3_mnt mountproc3_umnt mountproc3_umnt_all mountproc3_export
    handle_mount is_utf8 following from_utf8_or_default strip_prefix trim_start_matches
    trim_end_matches trim_from trim grant granted_access nfsproc3_access nfsproc3_null guard_reply
    nfsproc3_getattr nfsproc3_setattr nfsproc3_lookup nfsproc3_readlink nfsproc3_read nfsproc3_write
    nfsproc3_commit finish_create create_how nfsproc3_create nfsproc3_mkdir nfsproc3_symlink
    nfsproc3_mknod nfsproc3_remove nfsproc3_rename nfsproc3_link handle_nfs write_entries
    write_listing simple_entry plus_entry nfsproc3_readdir nfsproc3_readdirplus nfsproc3_fsinfo
    nfsproc3_fsstat nfsproc3_pathconf specdata3_codec nfs_fh3_codec nfstime3_codec fattr3_codec
    wcc_attr_codec wcc_data_codec serialize_set_atime set_atime_codec serialize_set_mtime
    set_mtime_codec sattr3_codec createmode3_codec diropargs3_codec setattr3_args_codec entry3_codec
    readdir3_args_codec entryplus3_codec readdirplus3_args_codec nfsstat3_codec ftype3_codec
    stable_how_codec read3_args_codec read3_resok_codec write3_args_codec write3_resok_codec
    from_readdir_result readdir_simple fsinfo server_id garbage_args_reply_message
program = tt

-- `/export` as the name of the export, `bin` as the one name of the root directory.
abbrev pub export : Bytes
export = 47 ∷ 101 ∷ 120 ∷ 112 ∷ 111 ∷ 114 ∷ 116 ∷ []

abbrev pub bin : Bytes
bin = 98 ∷ 105 ∷ 110 ∷ []

abbrev refuse : {A : Type 0} → Call ℕ A
refuse s = (err nfs3err_rofs, s)

abbrev find : ℕ → Bytes → Call ℕ ℕ
find dir name s = if dir == 1 && same_bytes name bin then (ok 2, s) else (err nfs3err_noent, s)

-- A file system of two directories, which only counts how often it is written to.
abbrev pub small : NfsFileSystem ℕ
small = record {
  generation = 77;
  capabilities = read_only;
  root_dir = 1;
  lookup = find;
  getattr = λ id. refuse;
  setattr = λ id attr. refuse;
  read = λ id offset count. refuse;
  write = λ id offset bytes s. (err nfs3err_rofs, suc s);
  create = λ dir name attr. refuse;
  create_exclusive = λ dir name. refuse;
  mkdir = λ dir name. refuse;
  remove = λ dir name. refuse;
  rename = λ from name to new. refuse;
  readdir = λ dir after count. refuse;
  symlink = λ dir name target attr. refuse;
  readlink = λ id. refuse;
  link = λ id dir name. refuse;
  mknod = λ dir name kind spec attr. refuse;
  commit = λ id offset count. refuse;
}

abbrev pub nobody : AuthUnix
nobody = record { stamp = 0; machinename = []; uid = 0; gid = 0; gids = [] }

abbrev pub client : Context ℕ
client = record {
  local_port = 2049;
  client_addr = 49 ∷ 58 ∷ 50 ∷ [];
  auth = nobody;
  vfs = small;
  mount_signal = true;
  export_name = export;
}

abbrev pub start : World ℕ
start = record {
  fs = 0;
  transaction_tracker = record { retention_period = 60; transactions = [] };
  portmap_table = [];
  signals = [];
}

abbrev pub call_of : ℕ → ℕ → ℕ → CallBody
call_of rpcvers prog vers = record {
  rpcvers = rpcvers;
  prog = prog;
  vers = vers;
  proc = 0;
  cred = no_auth;
  verf = no_auth;
}

-- Words of four bytes, for numbers below 2 ^ 32.
abbrev pub words : List ℕ → Bytes
words [] = []
words (n ∷ ns) = to_be_bytes 4 n ++ words ns
