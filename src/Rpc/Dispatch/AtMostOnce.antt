-- ===== src/Rpc/Dispatch/AtMostOnce.antt =====
-- src/protocol/rpc/wire.rs: what `handle_rpc` does with a message that it has seen before.
use nfs_mamont_mirror.Prelude.{ℕ, ◌≤◌, ◌+◌, ◌≡◌, refl, inr, arith, false, [], ap, true, ◌∙◌}
use nfs_mamont_mirror.Prelude.Result.{ok}
use nfs_mamont_mirror.Xdr.Reader.{Bytes}
use nfs_mamont_mirror.Xdr.Order.{ByteOrder}
use nfs_mamont_mirror.Xdr.Rpc.{CallBody, RpcBody, rpc_msg_codec}
use nfs_mamont_mirror.Rpc.Tracker.{
  TransactionTracker, same_key_iff, is_retransmission, mark_processed,
}
use nfs_mamont_mirror.Rpc.Tracker.Retention.{
  IsValid, IsHeld, status-is_retransmission, status-mark_processed, mark_processed-IsValid,
  is_retransmission-IsValid, is_retransmission_iff,
}
use nfs_mamont_mirror.Rpc.Context.{Context, World}
use nfs_mamont_mirror.Mount.Effects.{handle_mount-SameTables}
use nfs_mamont_mirror.Rpc.Tracker.Trace.{retention-request, retention-processed}
use nfs_mamont_mirror.Rpc.Dispatch.{Readings, authenticate, dispatch, run_new, handle_rpc}

-- What a call can change besides the tracker.
pub record SameService {ℓ} {S : Type ℓ} (v w : World S) : Type ℓ where
  pub fs : v.fs ≡ w.fs
  pub portmap_table : v.portmap_table ≡ w.portmap_table
  pub signals : v.signals ≡ w.signals

-- Once a transaction was entered and marked processed, it is held for the retention period.
processed-IsHeld :
    (received finished now : ℕ) (t : TransactionTracker) (xid : ℕ) (addr : Bytes)
    → IsValid t
    → now ≤ finished + t.retention_period
    → IsHeld now
        (mark_processed finished (is_retransmission received t xid addr).1 xid addr)
        (xid, addr)
processed-IsHeld received finished now t xid addr v l =
    let t' = (is_retransmission received t xid addr).1 in
    inr (
      finished,
      ground (
        arith,
        status-mark_processed finished t' xid addr (xid, addr),
        status-is_retransmission received t xid addr (xid, addr) v,
        same_key_iff (xid, addr) (xid, addr),
      ),
      omega
          (arith, retention-request received t xid addr, retention-processed finished t' xid addr),
    )

module _ {ℓ} {S : Type ℓ} ⦃order : ByteOrder⦄ where
  pub tracker-dispatch :
      (xid : ℕ) (call : CallBody) (input : Bytes) (context : Context S) (w : World S)
      → (dispatch xid call input context w).1.transaction_tracker ≡ w.transaction_tracker
  unfolding dispatch
  tracker-dispatch xid call input context w =
      ground (arith, (handle_mount-SameTables xid call input context w).0)

module _ {ℓ} {S : Type ℓ} ⦃order : ByteOrder⦄ where
  -- The message is a call of RPC version 2 whose credentials decode, and give the context that
  -- the call is run in.
  pub record IsCall (input : Bytes) (context : Context S) (xid : ℕ) (c : CallBody) (rest : Bytes)
      (context' : Context S) : Type ℓ where
    pub message :
        rpc_msg_codec.deserialize input ≡ ok (record { xid = xid; body = RpcBody.call c }, rest)
    pub identity : authenticate c.cred context ≡ ok context'
    pub version : c.rpcvers ≡ 2

module _ {ℓ} {S : Type ℓ} ⦃order : ByteOrder⦄ where
  abbrev pub noted : ℕ → ℕ → Context S → World S → World S
  noted received xid context w = record w {
    transaction_tracker =
        (is_retransmission received w.transaction_tracker xid context.client_addr).1;
  }

  pub handle_rpc_call :
      (readings : Readings) (input rest : Bytes) (xid : ℕ) (c : CallBody)
      (context context' : Context S) (w : World S)
      → IsCall input context xid c rest context'
      → handle_rpc readings input context w
        ≡ run_new readings xid c rest context'
            (is_retransmission readings.received w.transaction_tracker xid context'.client_addr).0
            (noted readings.received xid context' w)
  unfolding handle_rpc
  handle_rpc_call readings input rest xid c context context' w call =
      rw (call.message, handle_rpc, call.identity, call.version)

  pub run_new-tracker :
      (readings : Readings) (xid : ℕ) (c : CallBody) (rest : Bytes) (context : Context S)
      (w : World S)
      → (run_new readings xid c rest context false w).1.transaction_tracker
        ≡ mark_processed readings.finished w.transaction_tracker xid context.client_addr
  run_new-tracker readings xid c rest context w =
      ap (λ t. mark_processed readings.finished t xid context.client_addr)
        (tracker-dispatch xid c rest context w)

  pub handle_rpc_seen :
      (readings : Readings) (input rest : Bytes) (xid : ℕ) (c : CallBody)
      (context context' : Context S) (w : World S)
      → IsCall input context xid c rest context'
      → (is_retransmission readings.received w.transaction_tracker xid context'.client_addr).0
        ≡ true
      → handle_rpc readings input context w
        ≡ (ok (false, []), noted readings.received xid context' w)
  handle_rpc_seen readings input rest xid c context context' w call seen =
      handle_rpc_call readings input rest xid c context context' w call ∙ rw seen

  pub handle_rpc_tracker :
      (readings : Readings) (input rest : Bytes) (xid : ℕ) (c : CallBody)
      (context context' : Context S) (w : World S)
      → IsCall input context xid c rest context'
      → (is_retransmission readings.received w.transaction_tracker xid context'.client_addr).0
        ≡ false
      → (handle_rpc readings input context w).1.transaction_tracker
        ≡ mark_processed readings.finished
            (is_retransmission readings.received w.transaction_tracker xid context'.client_addr).1
            xid
            context'.client_addr
  handle_rpc_tracker readings input rest xid c context context' w call new =
      rw (handle_rpc_call readings input rest xid c context context' w call, new)
        (run_new-tracker readings xid c rest context' (noted readings.received xid context' w))

  seen_again :
      (first : Readings) (received : ℕ) (input rest : Bytes) (xid : ℕ) (c : CallBody)
      (context run_in : Context S) (w : World S)
      → IsValid w.transaction_tracker
      → IsCall input context xid c rest run_in
      → (is_retransmission first.received w.transaction_tracker xid run_in.client_addr).0 ≡ false
      → received ≤ first.finished + w.transaction_tracker.retention_period
      → (is_retransmission received
          (handle_rpc first input context w).1.transaction_tracker
          xid
          run_in.client_addr).0
        ≡ true
  seen_again first received input rest xid c context run_in w v call new soon =
      let t = w.transaction_tracker in
      let addr = run_in.client_addr in
      let valid = is_retransmission-IsValid first.received t xid addr v in
      let held = processed-IsHeld first.received first.finished received t xid addr v soon in
      rw (handle_rpc_tracker first input rest xid c context run_in w call new) (
        (is_retransmission_iff received _ xid addr
            (mark_processed-IsValid first.finished _ xid addr valid)).1
          held)

  -- A call that was let through and run to its end is not run again while its transaction is
  -- retained: a later call with the same `xid` from the same client, whatever it asks for, is not
  -- answered, and leaves the file system, the port mapper's table and the mount signals alone.
  pub handle_rpc-retransmission :
      (first second : Readings) (input rest input' rest' : Bytes) (xid : ℕ) (c c' : CallBody)
      (context run_in context' run_in' : Context S) (w : World S)
      → IsValid w.transaction_tracker
      → IsCall input context xid c rest run_in
      → IsCall input' context' xid c' rest' run_in'
      → run_in'.client_addr ≡ run_in.client_addr
      → (is_retransmission first.received w.transaction_tracker xid run_in.client_addr).0 ≡ false
      → second.received ≤ first.finished + w.transaction_tracker.retention_period
      → ((handle_rpc second input' context' (handle_rpc first input context w).1).0
          ≡ ok (false, []))
        × SameService
            (handle_rpc second input' context' (handle_rpc first input context w).1).1
            (handle_rpc first input context w).1
  handle_rpc-retransmission first second input rest input' rest' xid c c' context run_in context'
        run_in' w v call call' same new soon =
      let seen =
        seen_again first second.received input rest xid c context run_in w v call new soon in
      let w' = (handle_rpc first input context w).1 in
      let e = handle_rpc_seen second input' rest' xid c' context' run_in' w' call' (rw same seen) in
      rw e (refl, record { fs = refl; portmap_table = refl; signals = refl })
