-- ===== src/Rpc/Dispatch.antt =====
-- src/protocol/rpc/wire.rs: `handle_rpc`, which checks a message and passes it to the program
-- that it calls. The clock is read twice for a message: when it is checked against the tracker,
-- and when it is marked processed. What a message that fails has written is dropped, since the
-- worker clears its buffer before the next one.
pub mod AtMostOnce
pub mod Guards
use nfs_mamont_mirror.Prelude.{ℕ, Bool, true, false, ◌||◌, [], ◌==◌, if◌then◌else◌}
use nfs_mamont_mirror.Prelude.Result.{Result, ok, err, ◌>>=◌}
use nfs_mamont_mirror.Xdr.Reader.{
  Bytes, Error, nfsv4_not_implemented, bad_call_format, Writer, Codec,
}
use nfs_mamont_mirror.Xdr.Order.{ByteOrder}
use nfs_mamont_mirror.Xdr.Rpc.{
  AuthFlavor, AuthUnix, OpaqueAuth, CallBody, RpcBody, auth_unix_codec, rpc_msg_codec,
  prog_unavail_reply_message, rpc_vers_mismatch,
}
use nfs_mamont_mirror.Xdr.Nfs3 as Nfs3
use nfs_mamont_mirror.Xdr.Portmap as PortmapMessages
use nfs_mamont_mirror.Xdr.Mount as MountMessages
use nfs_mamont_mirror.Rpc.Tracker.{is_retransmission, mark_processed}
use nfs_mamont_mirror.Rpc.Context.{Context, World}
use nfs_mamont_mirror.Portmap.{handle_portmap}
use nfs_mamont_mirror.Mount.{handle_mount}
use nfs_mamont_mirror.Nfs.Handler.{handle_nfs}

abbrev nfs_acl_program : ℕ
nfs_acl_program = 100227

abbrev nfs_id_map_program : ℕ
nfs_id_map_program = 100270

abbrev nfs_localio_program : ℕ
nfs_localio_program = 400122

abbrev nfs_metadata_program : ℕ
nfs_metadata_program = 200024

-- The readings of the clock for one message.
pub record Readings : Type 0 where
  pub received : ℕ
  pub finished : ℕ

-- `Result<bool, anyhow::Error>`, with what was written if there is no error.
abbrev pub Answer : Type 0
Answer = Result Error (Bool × Bytes)

abbrev pub sent : Writer → Answer
sent w = w >>= λ bytes. ok (true, bytes)

module _ {ℓ} {S : Type ℓ} where
  abbrev with_fs : World S → Writer × S → Writer × World S
  with_fs w (out, s) = (out, record w { fs = s })

module _ {ℓ} {S : Type ℓ} ⦃order : ByteOrder⦄ where
  abbrev pub with_auth : AuthFlavor → Bytes → Context S → Result Error (Context S)
  with_auth AuthFlavor.auth_unix body context =
      auth_unix_codec.deserialize body >>= λ (auth, rest). ok (record context { auth = auth })
  with_auth _ body context = ok context

  -- `call.cred`, if it is `AUTH_UNIX`, becomes the identity of the context.
  unfoldable pub authenticate : OpaqueAuth → Context S → Result Error (Context S)
  authenticate cred context = with_auth cred.flavor cred.body context

module _ {ℓ} {S : Type ℓ} ⦃order : ByteOrder⦄ where
  -- The match on `call.prog`.
  unfoldable pub dispatch : ℕ → CallBody → Bytes → Context S → World S → Writer × World S
  dispatch xid call input context w =
      let unavailable : Writer × World S =
        (rpc_msg_codec.serialize (prog_unavail_reply_message xid), w) in
      let (mapped, table) = handle_portmap xid call input w.portmap_table in
      if call.prog == Nfs3.program
      then (if call.vers == Nfs3.version
          then with_fs w (handle_nfs xid call input context w.fs)
          else (err nfsv4_not_implemented, w))
      else if call.prog == PortmapMessages.program
      then (mapped, record w { portmap_table = table })
      else if call.prog == MountMessages.program
      then handle_mount xid call input context w
      else if call.prog == nfs_acl_program
          || (call.prog == nfs_id_map_program || call.prog == nfs_metadata_program)
      then unavailable
      else if call.prog == nfs_localio_program
      then unavailable
      else unavailable

  abbrev pub run_new :
      Readings → ℕ → CallBody → Bytes → Context S → Bool → World S → Answer × World S
  run_new readings xid call input context true w = (ok (false, []), w)
  run_new readings xid call input context false w =
      let (out, w') = dispatch xid call input context w in
      (
        sent out,
        record w' {
          transaction_tracker =
              mark_processed readings.finished w'.transaction_tracker xid context.client_addr;
        },
      )

  abbrev pub handle_authentic :
      Readings → ℕ → CallBody → Bytes → World S → Result Error (Context S) → Answer × World S
  handle_authentic readings xid call input w (err e) = (err e, w)
  handle_authentic readings xid call input w (ok context) =
      let (seen, tracker) =
        is_retransmission readings.received w.transaction_tracker xid context.client_addr in
      let w' : World S = record w { transaction_tracker = tracker } in
      if call.rpcvers == 2
      then run_new readings xid call input context seen w'
      else (sent (rpc_msg_codec.serialize (rpc_vers_mismatch xid)), w)

  abbrev pub handle_body : Readings → ℕ → RpcBody → Bytes → Context S → World S → Answer × World S
  handle_body readings xid (RpcBody.call c) input context w =
      handle_authentic readings xid c input w (authenticate c.cred context)
  handle_body readings xid (RpcBody.reply r) input context w = (err bad_call_format, w)

  unfoldable pub handle_rpc : Readings → Bytes → Context S → World S → Answer × World S
  handle_rpc readings input context w = elim (rpc_msg_codec.deserialize input) [
    | ok (recv, rest) ↦ handle_body readings recv.xid recv.body rest context w
    | err e ↦ (err e, w)
  ]
