-- ===== src/Xdr/Rpc.antt =====
-- src/protocol/xdr/rpc.rs: the messages of ONC RPC version 2, and the replies that the server
-- builds.
pub mod Fields
pub mod RoundTrip
use nfs_mamont_mirror.Prelude.{ℕ, Option, List, [], ◌∷◌, ◌==◌, if◌then◌else◌}
use nfs_mamont_mirror.Xdr.Reader.{
  Bytes, invalid_data, Reader, pure, fail, ◌>>=◌, Writer, ◌⨾◌, Codec,
}
use nfs_mamont_mirror.Xdr.Order.{ByteOrder}
use nfs_mamont_mirror.Xdr.Basic.{u32, enum, vec_u8, vec}

pub data AuthStat : Type 0 where
  auth_badcred auth_rejectedcred auth_badverf auth_rejectedverf auth_tooweak : AuthStat

abbrev pub auth_stat_number : AuthStat → ℕ
auth_stat_number auth_badcred = 1
auth_stat_number auth_rejectedcred = 2
auth_stat_number auth_badverf = 3
auth_stat_number auth_rejectedverf = 4
auth_stat_number auth_tooweak = 5

abbrev pub auth_stats : List AuthStat
auth_stats = auth_badcred ∷ auth_rejectedcred ∷ auth_badverf ∷ auth_rejectedverf ∷ auth_tooweak ∷ []

pub data AuthFlavor : Type 0 where
  auth_null auth_unix auth_short auth_des : AuthFlavor

abbrev pub auth_flavor_number : AuthFlavor → ℕ
auth_flavor_number auth_null = 0
auth_flavor_number auth_unix = 1
auth_flavor_number auth_short = 2
auth_flavor_number auth_des = 3

abbrev pub auth_flavors : List AuthFlavor
auth_flavors = auth_null ∷ auth_unix ∷ auth_short ∷ auth_des ∷ []

pub record AuthUnix : Type 0 where
  pub stamp : ℕ
  pub machinename : Bytes
  pub uid : ℕ
  pub gid : ℕ
  pub gids : List ℕ

pub record OpaqueAuth : Type 0 where
  pub flavor : AuthFlavor
  pub body : Bytes

-- `impl Default for opaque_auth`
abbrev pub no_auth : OpaqueAuth
no_auth = record { flavor = auth_null; body = [] }

pub record CallBody : Type 0 where
  pub rpcvers : ℕ
  pub prog : ℕ
  pub vers : ℕ
  pub proc : ℕ
  pub cred : OpaqueAuth
  pub verf : OpaqueAuth

pub record MismatchInfo : Type 0 where
  pub low : ℕ
  pub high : ℕ

pub data AcceptBody : Type 0 where
  success prog_unavail proc_unavail garbage_args : AcceptBody
  prog_mismatch : MismatchInfo → AcceptBody

pub record AcceptedReply : Type 0 where
  pub verf : OpaqueAuth
  pub reply_data : AcceptBody

pub data RejectedReply : Type 0 where
  rpc_mismatch : MismatchInfo → RejectedReply
  auth_error : AuthStat → RejectedReply

pub data ReplyBody : Type 0 where
  msg_accepted : AcceptedReply → ReplyBody
  msg_denied : RejectedReply → ReplyBody

pub data RpcBody : Type 0 where
  call : CallBody → RpcBody
  reply : ReplyBody → RpcBody

pub record RpcMsg : Type 0 where
  pub xid : ℕ
  pub body : RpcBody

module _ ⦃order : ByteOrder⦄ where
  unfoldable pub auth_stat_codec : Codec AuthStat
  auth_stat_codec = enum auth_stat_number auth_stats

  unfoldable pub auth_flavor_codec : Codec AuthFlavor
  auth_flavor_codec = enum auth_flavor_number auth_flavors

  unfoldable pub auth_unix_codec : Codec AuthUnix
  auth_unix_codec = record {
    serialize = λ v.
        u32.serialize v.stamp
        ⨾ vec_u8.serialize v.machinename
        ⨾ u32.serialize v.uid
        ⨾ u32.serialize v.gid
        ⨾ (vec u32).serialize v.gids;
    deserialize = (do
      stamp ← u32.deserialize
      machinename ← vec_u8.deserialize
      uid ← u32.deserialize
      gid ← u32.deserialize
      gids ← (vec u32).deserialize
      pure
          (record { stamp = stamp; machinename = machinename; uid = uid; gid = gid; gids = gids }));
  }

  unfoldable pub opaque_auth_codec : Codec OpaqueAuth
  opaque_auth_codec = record {
    serialize = λ v. auth_flavor_codec.serialize v.flavor ⨾ vec_u8.serialize v.body;
    deserialize = (do
      flavor ← auth_flavor_codec.deserialize
      body ← vec_u8.deserialize
      pure (record { flavor = flavor; body = body }));
  }

  unfoldable pub call_body_codec : Codec CallBody
  call_body_codec = record {
    serialize = λ v.
        u32.serialize v.rpcvers
        ⨾ u32.serialize v.prog
        ⨾ u32.serialize v.vers
        ⨾ u32.serialize v.proc
        ⨾ opaque_auth_codec.serialize v.cred
        ⨾ opaque_auth_codec.serialize v.verf;
    deserialize = (do
      rpcvers ← u32.deserialize
      prog ← u32.deserialize
      vers ← u32.deserialize
      proc ← u32.deserialize
      cred ← opaque_auth_codec.deserialize
      verf ← opaque_auth_codec.deserialize
      pure (record {
        rpcvers = rpcvers;
        prog = prog;
        vers = vers;
        proc = proc;
        cred = cred;
        verf = verf;
      }));
  }

  unfoldable pub mismatch_info_codec : Codec MismatchInfo
  mismatch_info_codec = record {
    serialize = λ v. u32.serialize v.low ⨾ u32.serialize v.high;
    deserialize = (do
      low ← u32.deserialize
      high ← u32.deserialize
      pure (record { low = low; high = high }));
  }

  unfoldable pub serialize_accept_body : AcceptBody → Writer
  serialize_accept_body success = u32.serialize 0
  serialize_accept_body prog_unavail = u32.serialize 1
  serialize_accept_body (prog_mismatch v) = u32.serialize 2 ⨾ mismatch_info_codec.serialize v
  serialize_accept_body proc_unavail = u32.serialize 3
  serialize_accept_body garbage_args = u32.serialize 4

  unfoldable pub accept_body_codec : Codec AcceptBody
  accept_body_codec = record {
    serialize = serialize_accept_body;
    deserialize = (do
      accept_stat ← u32.deserialize
      if accept_stat == 0
          then pure success
          else if accept_stat == 1
          then pure prog_unavail
          else if accept_stat == 2
          then (do v ← mismatch_info_codec.deserialize; pure (prog_mismatch v))
          else if accept_stat == 3
          then pure proc_unavail
          else if accept_stat == 4
          then pure garbage_args
          else fail invalid_data);
  }

  unfoldable pub accepted_reply_codec : Codec AcceptedReply
  accepted_reply_codec = record {
    serialize = λ v. opaque_auth_codec.serialize v.verf ⨾ accept_body_codec.serialize v.reply_data;
    deserialize = (do
      verf ← opaque_auth_codec.deserialize
      reply_data ← accept_body_codec.deserialize
      pure (record { verf = verf; reply_data = reply_data }));
  }

  unfoldable pub serialize_rejected_reply : RejectedReply → Writer
  serialize_rejected_reply (rpc_mismatch v) = u32.serialize 0 ⨾ mismatch_info_codec.serialize v
  serialize_rejected_reply (auth_error v) = u32.serialize 1 ⨾ u32.serialize (auth_stat_number v)

  unfoldable pub rejected_reply_codec : Codec RejectedReply
  rejected_reply_codec = record {
    serialize = serialize_rejected_reply;
    deserialize = (do
      stat ← u32.deserialize
      if stat == 0
          then (do v ← mismatch_info_codec.deserialize; pure (rpc_mismatch v))
          else if stat == 1
          then (do v ← auth_stat_codec.deserialize; pure (auth_error v))
          else fail invalid_data);
  }

  unfoldable pub serialize_reply_body : ReplyBody → Writer
  serialize_reply_body (msg_accepted v) = u32.serialize 0 ⨾ accepted_reply_codec.serialize v
  serialize_reply_body (msg_denied v) = u32.serialize 1 ⨾ rejected_reply_codec.serialize v

  unfoldable pub reply_body_codec : Codec ReplyBody
  reply_body_codec = record {
    serialize = serialize_reply_body;
    deserialize = (do
      reply_status ← u32.deserialize
      if reply_status == 0
          then (do v ← accepted_reply_codec.deserialize; pure (msg_accepted v))
          else if reply_status == 1
          then (do v ← rejected_reply_codec.deserialize; pure (msg_denied v))
          else fail invalid_data);
  }

  unfoldable pub serialize_rpc_body : RpcBody → Writer
  serialize_rpc_body (call v) = u32.serialize 0 ⨾ call_body_codec.serialize v
  serialize_rpc_body (reply v) = u32.serialize 1 ⨾ reply_body_codec.serialize v

  unfoldable pub rpc_body_codec : Codec RpcBody
  rpc_body_codec = record {
    serialize = serialize_rpc_body;
    deserialize = (do
      msg_type ← u32.deserialize
      if msg_type == 0
          then (do v ← call_body_codec.deserialize; pure (call v))
          else if msg_type == 1
          then (do v ← reply_body_codec.deserialize; pure (reply v))
          else fail invalid_data);
  }

  unfoldable pub rpc_msg_codec : Codec RpcMsg
  rpc_msg_codec = record {
    serialize = λ v. u32.serialize v.xid ⨾ rpc_body_codec.serialize v.body;
    deserialize = (do
      xid ← u32.deserialize
      body ← rpc_body_codec.deserialize
      pure (record { xid = xid; body = body }));
  }

-- The reply with a null verifier that accepts the call and reports `body`.
abbrev pub accepted : ℕ → AcceptBody → RpcMsg
accepted xid body = record {
  xid = xid;
  body = reply (msg_accepted (record { verf = no_auth; reply_data = body }));
}

unfoldable pub proc_unavail_reply_message : ℕ → RpcMsg
proc_unavail_reply_message xid = accepted xid proc_unavail

unfoldable pub prog_unavail_reply_message : ℕ → RpcMsg
prog_unavail_reply_message xid = accepted xid prog_unavail

unfoldable pub prog_mismatch_reply_message : ℕ → ℕ → RpcMsg
prog_mismatch_reply_message xid accepted_ver =
    accepted xid (prog_mismatch (record { low = accepted_ver; high = accepted_ver }))

unfoldable pub garbage_args_reply_message : ℕ → RpcMsg
garbage_args_reply_message xid = accepted xid garbage_args

-- `mismatch_info::default()` has both bounds 0.
unfoldable pub rpc_vers_mismatch : ℕ → RpcMsg
rpc_vers_mismatch xid = record {
  xid = xid;
  body = reply (msg_denied (rpc_mismatch (record { low = 0; high = 0 })));
}

unfoldable pub make_success_reply : ℕ → RpcMsg
make_success_reply xid = accepted xid success
