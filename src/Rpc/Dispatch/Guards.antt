-- ===== src/Rpc/Dispatch/Guards.antt =====
-- src/protocol/rpc/wire.rs: which messages reach a program, and what the others are answered.
use nfs_mamont_mirror.Prelude.{
  ℕ, ◌≡◌, ◌≢◌, ◌⊎◌, refl, true, false, Bool-cases, inl, inr, [], ◌==◌, arith, ==_iff, append-nil,
}
use nfs_mamont_mirror.Prelude.Result.{ok, Result-cases}
use nfs_mamont_mirror.Xdr.Reader.{Bytes}
use nfs_mamont_mirror.Xdr.Order.{ByteOrder}
use nfs_mamont_mirror.Xdr.Rpc.{
  CallBody, RpcMsg, RpcBody, rpc_msg_codec, prog_unavail_reply_message, rpc_vers_mismatch,
}
use nfs_mamont_mirror.Xdr.Rpc.Fields.{IsU32}
use nfs_mamont_mirror.Xdr.Rpc.RoundTrip.{RpcMsgFits, rpc_msg-RoundTrips}
use nfs_mamont_mirror.Xdr.Nfs3 as Nfs3
use nfs_mamont_mirror.Xdr.Portmap as PortmapMessages
use nfs_mamont_mirror.Xdr.Mount as MountMessages
use nfs_mamont_mirror.Rpc.Tracker.{is_retransmission}
use nfs_mamont_mirror.Rpc.Context.{Context, World}
use nfs_mamont_mirror.Rpc.Dispatch.{Readings, Answer, authenticate, dispatch, handle_rpc, sent}
use nfs_mamont_mirror.Rpc.Dispatch.AtMostOnce.{
  SameService, IsCall, noted, handle_rpc_call, handle_rpc_seen,
}

module _ ⦃order : ByteOrder⦄ where
  -- The answer is these bytes, which are the message and nothing else.
  pub record Sends (msg : RpcMsg) (answer : Answer) : Type 0 where
    pub bytes : Bytes
    pub sent_bytes : answer ≡ ok (true, bytes)
    pub message : rpc_msg_codec.deserialize bytes ≡ ok (msg, [])

  sends : (msg : RpcMsg) → RpcMsgFits msg → Sends msg (sent (rpc_msg_codec.serialize msg))
  sends msg fits =
      let m = rpc_msg-RoundTrips msg fits in
      record { bytes = m.bytes; sent_bytes = rw m.written; message = rw append-nil at (m.reads []) }

module _ {ℓ} {S : Type ℓ} ⦃order : ByteOrder⦄ where
  -- The call that was run: the message, and what dispatching it made of the world.
  pub record Ran (readings : Readings) (input : Bytes) (context : Context S) (w : World S)
      : Type ℓ where
    pub xid : ℕ
    pub c : CallBody
    pub rest : Bytes
    pub run_in : Context S
    pub is_call : IsCall input context xid c rest run_in
    pub new :
        (is_retransmission readings.received w.transaction_tracker xid run_in.client_addr).0 ≡ false
    pub effect :
        SameService
          (handle_rpc readings input context w).1
          (dispatch xid c rest run_in (noted readings.received xid run_in w)).1

  abbrev Guarded : Readings → Bytes → Context S → World S → Type ℓ
  Guarded readings input context w =
      SameService (handle_rpc readings input context w).1 w ⊎ Ran readings input context w

  unchanged : (w : World S) → SameService w w
  unchanged w = record { fs = refl; portmap_table = refl; signals = refl }

  Guarded-call :
      (readings : Readings) (input : Bytes) (context : Context S) (w : World S) (xid : ℕ)
      (c : CallBody) (rest : Bytes) (run_in : Context S)
      → IsCall input context xid c rest run_in
      → Guarded readings input context w
  Guarded-call readings input context w xid c rest run_in call =
      elim (Bool-cases
        (is_retransmission readings.received w.transaction_tracker xid run_in.client_addr).0) [
          | inl seen ↦ inl (
              rw (handle_rpc_seen readings input rest xid c context run_in w call seen)
                (record { fs = refl; portmap_table = refl; signals = refl }))
          | inr new ↦ inr (record {
            xid = xid;
            c = c;
            rest = rest;
            run_in = run_in;
            is_call = call;
            new = new;
            effect =
                rw (handle_rpc_call readings input rest xid c context run_in w call, new)
                  (record { fs = refl; portmap_table = refl; signals = refl });
          })
        ]

  Guarded-body :
      (readings : Readings) (input : Bytes) (context : Context S) (w : World S) (xid : ℕ)
      (body : RpcBody) (rest : Bytes)
      → rpc_msg_codec.deserialize input ≡ ok (record { xid = xid; body = body }, rest)
      → Guarded readings input context w
  unfolding handle_rpc
  Guarded-body readings input context w xid (RpcBody.reply r) rest e =
      inl (rw (e, handle_rpc) (unchanged w))
  Guarded-body readings input context w xid (RpcBody.call c) rest e =
      elim (Result-cases (authenticate c.cred context)) [
        | inr (x, refused) ↦ inl (rw (e, handle_rpc, refused) (unchanged w))
        | inl (run_in, identity) ↦ elim (Bool-cases (c.rpcvers == 2)) [
          | inr other ↦ inl (rw (e, handle_rpc, identity, other) (unchanged w))
          | inl two ↦
              Guarded-call readings input context w xid c rest run_in
                (record { message = e; identity = identity; version = (==_iff c.rpcvers 2).0 two })
        ]
      ]

  -- A message either leaves the file system, the port mapper's table and the mount signals alone,
  -- or it is a call of RPC version 2 whose credentials decode, that is no retransmission, and that
  -- changes them the way the program it calls does.
  pub handle_rpc_guarded :
      (readings : Readings) (input : Bytes) (context : Context S) (w : World S)
      → SameService (handle_rpc readings input context w).1 w ⊎ Ran readings input context w
  unfolding handle_rpc
  handle_rpc_guarded readings input context w =
      elim (Result-cases (rpc_msg_codec.deserialize input)) [
        | inl ((msg, rest), e) ↦ Guarded-body readings input context w msg.xid msg.body rest e
        | inr (x, e) ↦ inl (rw (e, handle_rpc) (unchanged w))
      ]

  -- A message read as a call of another RPC version, with credentials that decode, is answered
  -- with the rejection of the version under its `xid`, and changes nothing, the tracker included.
  pub handle_rpc_version :
      (readings : Readings) (input rest : Bytes) (xid : ℕ) (c : CallBody)
      (context run_in : Context S) (w : World S)
      → IsU32 xid
      → rpc_msg_codec.deserialize input ≡ ok (record { xid = xid; body = RpcBody.call c }, rest)
      → authenticate c.cred context ≡ ok run_in
      → c.rpcvers ≢ 2
      → Sends (rpc_vers_mismatch xid) (handle_rpc readings input context w).0
        × ((handle_rpc readings input context w).1 ≡ w)
  unfolding handle_rpc
  handle_rpc_version readings input rest xid c context run_in w h e identity other =
      let no : (c.rpcvers == 2) ≡ false = ground arith in
      rw (e, handle_rpc, identity, no)
        (sends (rpc_vers_mismatch xid) (unfold rpc_vers_mismatch in omega arith), refl)

  -- A program other than NFS, the port mapper and MOUNT, whatever its version and procedure, is
  -- unavailable, and the call changes nothing but the tracker.
  pub handle_rpc_unserved :
      (readings : Readings) (input rest : Bytes) (xid : ℕ) (c : CallBody)
      (context run_in : Context S) (w : World S)
      → IsU32 xid
      → IsCall input context xid c rest run_in
      → (is_retransmission readings.received w.transaction_tracker xid run_in.client_addr).0 ≡ false
      → (c.prog ≢ Nfs3.program)
        × (c.prog ≢ PortmapMessages.program)
        × (c.prog ≢ MountMessages.program)
      → Sends (prog_unavail_reply_message xid) (handle_rpc readings input context w).0
        × SameService (handle_rpc readings input context w).1 w
  unfolding dispatch
  handle_rpc_unserved readings input rest xid c context run_in w h call new other =
      let out : dispatch xid c rest run_in (noted readings.received xid run_in w) ≡ (
        rpc_msg_codec.serialize (prog_unavail_reply_message xid),
        noted readings.received xid run_in w,
      ) =
        ground arith in
      rw (handle_rpc_call readings input rest xid c context run_in w call, new, out)
        (
          sends (prog_unavail_reply_message xid) (unfold prog_unavail_reply_message in omega arith),
          record { fs = refl; portmap_table = refl; signals = refl },
        )
