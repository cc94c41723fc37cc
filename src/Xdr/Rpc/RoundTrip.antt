-- ===== src/Xdr/Rpc/RoundTrip.antt =====
-- src/protocol/xdr/rpc.rs: a whole RPC message is read back as it was written.
use nfs_mamont_mirror.Prelude.{refl, length, arith}
use nfs_mamont_mirror.Xdr.Order.{ByteOrder}
use nfs_mamont_mirror.Xdr.Basic.{u32, enum}
use nfs_mamont_mirror.Xdr.RoundTrip.{RoundTrips, RoundTrips-via, RoundTrips-then, u32-RoundTrips}
use nfs_mamont_mirror.Xdr.Rpc.{
  AcceptBody, success, prog_unavail, prog_mismatch, proc_unavail, garbage_args, AcceptedReply,
  RejectedReply, rpc_mismatch, auth_error, ReplyBody, msg_accepted, msg_denied, RpcBody, call,
  reply, RpcMsg, auth_stat_codec, opaque_auth_codec, call_body_codec, mismatch_info_codec,
  serialize_accept_body, accept_body_codec, accepted_reply_codec, serialize_rejected_reply,
  rejected_reply_codec, serialize_reply_body, reply_body_codec, serialize_rpc_body, rpc_body_codec,
  rpc_msg_codec,
}
use nfs_mamont_mirror.Xdr.Rpc.Fields.{
  IsU32, CallBodyFits, opaque_auth-RoundTrips, auth_stat-RoundTrips, mismatch_info-RoundTrips,
  call_body-RoundTrips,
}

-- Every word of a message fits 32 bits, and so do the lengths of its byte strings.
abbrev pub AcceptBodyFits : AcceptBody → Type 0
AcceptBodyFits (prog_mismatch v) = IsU32 v.low × IsU32 v.high
AcceptBodyFits _ = Unit

abbrev pub RejectedReplyFits : RejectedReply → Type 0
RejectedReplyFits (rpc_mismatch v) = IsU32 v.low × IsU32 v.high
RejectedReplyFits (auth_error v) = Unit

abbrev pub ReplyBodyFits : ReplyBody → Type 0
ReplyBodyFits (msg_accepted v) = IsU32 (length v.verf.body) × AcceptBodyFits v.reply_data
ReplyBodyFits (msg_denied v) = RejectedReplyFits v

abbrev pub RpcBodyFits : RpcBody → Type 0
RpcBodyFits (call v) = CallBodyFits v
RpcBodyFits (reply v) = ReplyBodyFits v

abbrev pub RpcMsgFits : RpcMsg → Type 0
RpcMsgFits v = IsU32 v.xid × RpcBodyFits v.body

module _ ⦃order : ByteOrder⦄ where
  accept_body-RoundTrips : (v : AcceptBody) → AcceptBodyFits v → RoundTrips accept_body_codec v
  unfolding accept_body_codec serialize_accept_body
  accept_body-RoundTrips (prog_mismatch v) h =
      RoundTrips-then u32 mismatch_info_codec accept_body_codec (u32-RoundTrips 2 (omega arith))
        (mismatch_info-RoundTrips v h.0 h.1) refl (λ src mid rest e f. rw (e, f))
  accept_body-RoundTrips success h =
      RoundTrips-via u32 accept_body_codec (u32-RoundTrips 0 (omega arith)) refl
        (λ src rest e. rw e)
  accept_body-RoundTrips prog_unavail h =
      RoundTrips-via u32 accept_body_codec (u32-RoundTrips 1 (omega arith)) refl
        (λ src rest e. rw e)
  accept_body-RoundTrips proc_unavail h =
      RoundTrips-via u32 accept_body_codec (u32-RoundTrips 3 (omega arith)) refl
        (λ src rest e. rw e)
  accept_body-RoundTrips garbage_args h =
      RoundTrips-via u32 accept_body_codec (u32-RoundTrips 4 (omega arith)) refl
        (λ src rest e. rw e)

  accepted_reply-RoundTrips :
      (v : AcceptedReply)
      → IsU32 (length v.verf.body)
      → AcceptBodyFits v.reply_data
      → RoundTrips accepted_reply_codec v
  unfolding accepted_reply_codec
  accepted_reply-RoundTrips v h k =
      RoundTrips-then opaque_auth_codec accept_body_codec accepted_reply_codec
        (opaque_auth-RoundTrips v.verf h) (accept_body-RoundTrips v.reply_data k) refl
        (λ src mid rest e f. rw (e, f))

  -- `*v as u32` and `SerializeEnum` write the same word.
  rejected_reply-RoundTrips :
      (v : RejectedReply) → RejectedReplyFits v → RoundTrips rejected_reply_codec v
  unfolding rejected_reply_codec serialize_rejected_reply
  rejected_reply-RoundTrips (rpc_mismatch v) h =
      RoundTrips-then u32 mismatch_info_codec rejected_reply_codec (u32-RoundTrips 0 (omega arith))
        (mismatch_info-RoundTrips v h.0 h.1) refl (λ src mid rest e f. rw (e, f))
  rejected_reply-RoundTrips (auth_error v) h =
      RoundTrips-then u32 auth_stat_codec rejected_reply_codec (u32-RoundTrips 1 (omega arith))
        (auth_stat-RoundTrips v) (unfold auth_stat_codec enum in refl)
        (λ src mid rest e f. rw (e, f))

  reply_body-RoundTrips : (v : ReplyBody) → ReplyBodyFits v → RoundTrips reply_body_codec v
  unfolding reply_body_codec serialize_reply_body
  reply_body-RoundTrips (msg_accepted v) h =
      RoundTrips-then u32 accepted_reply_codec reply_body_codec (u32-RoundTrips 0 (omega arith))
        (accepted_reply-RoundTrips v h.0 h.1) refl (λ src mid rest e f. rw (e, f))
  reply_body-RoundTrips (msg_denied v) h =
      RoundTrips-then u32 rejected_reply_codec reply_body_codec (u32-RoundTrips 1 (omega arith))
        (rejected_reply-RoundTrips v h) refl (λ src mid rest e f. rw (e, f))

  rpc_body-RoundTrips : (v : RpcBody) → RpcBodyFits v → RoundTrips rpc_body_codec v
  unfolding rpc_body_codec serialize_rpc_body
  rpc_body-RoundTrips (call v) h =
      RoundTrips-then u32 call_body_codec rpc_body_codec (u32-RoundTrips 0 (omega arith))
        (call_body-RoundTrips v h) refl (λ src mid rest e f. rw (e, f))
  rpc_body-RoundTrips (reply v) h =
      RoundTrips-then u32 reply_body_codec rpc_body_codec (u32-RoundTrips 1 (omega arith))
        (reply_body-RoundTrips v h) refl (λ src mid rest e f. rw (e, f))

  -- An RPC message whose words and lengths fit 32 bits is written in whole words of four bytes,
  -- and is read back, from these bytes alone, as the same message, whatever follows it.
  pub rpc_msg-RoundTrips : (v : RpcMsg) → RpcMsgFits v → RoundTrips rpc_msg_codec v
  unfolding rpc_msg_codec
  rpc_msg-RoundTrips v h =
      RoundTrips-then u32 rpc_body_codec rpc_msg_codec (u32-RoundTrips v.xid h.0)
        (rpc_body-RoundTrips v.body h.1) refl (λ src mid rest e f. rw (e, f))
