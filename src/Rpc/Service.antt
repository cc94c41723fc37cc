-- ===== src/Rpc/Service.antt =====
-- src/protocol/rpc/wire.rs: `process_rpc_command`, which the worker of a connection runs, and what
-- a client is answered over the whole connection. The processor's state is the world and the
-- number of messages so far, by which the clock is read.
use nfs_mamont_mirror.Prelude.{
  ℕ, zero, suc, ◌≡◌, refl, ap, ◌∙◌, ◌≤◌, ◌+◌, true, false, Bool, List, [], ◌∷◌, ◌++◌, length, drop,
  append-nil,
}
use nfs_mamont_mirror.Prelude.Result.{Result, ok, err}
use nfs_mamont_mirror.Xdr.Reader.{Bytes, Error}
use nfs_mamont_mirror.Xdr.Order.{ByteOrder}
use nfs_mamont_mirror.Xdr.Rpc.{CallBody}
use nfs_mamont_mirror.Rpc.Context.{Context, World}
use nfs_mamont_mirror.Rpc.Connection.{RpcCommand, SocketMessageHandler}
use nfs_mamont_mirror.Rpc.Queue.{
  ResponseBuffer, Processor, with_capacity, forward, worker, reply, replies,
}
use nfs_mamont_mirror.Rpc.Queue.Order.{delivered, forward-worker}
use nfs_mamont_mirror.Rpc.Tracker.{is_retransmission}
use nfs_mamont_mirror.Rpc.Tracker.Retention.{IsValid}
use nfs_mamont_mirror.Rpc.Dispatch.{Answer, Readings, handle_rpc}
use nfs_mamont_mirror.Rpc.Dispatch.AtMostOnce.{SameService, IsCall, handle_rpc-retransmission}

-- `SocketMessageHandler::new`
abbrev pub new_handler {ℓ} : {C : Type ℓ} → C → SocketMessageHandler C
new_handler context = record {
  cur_fragment = [];
  context = context;
  command_queue = record { sent = []; closed = false };
}

abbrev pub verdict : Answer → Result Error Bool
verdict (ok (send, bytes)) = ok send
verdict (err e) = err e

-- The cursor starts at the front of the buffer. What a message that fails has written is left out:
-- it is never sent, and the buffer is cleared before the next one.
abbrev pub into_buffer : Answer → ResponseBuffer → ResponseBuffer
into_buffer (ok (send, bytes)) output = record output {
  buffer = bytes ++ drop (length bytes) output.buffer;
}
into_buffer (err e) output = output

-- What one message adds to the replies.
abbrev pub answered : Answer → List (Result Error Bytes)
answered (ok (true, bytes)) = ok bytes ∷ []
answered (ok (false, bytes)) = []
answered (err e) = err e ∷ []

drop_nil : (n : ℕ) → drop {A = ℕ} n [] ≡ []
drop_nil zero = refl
drop_nil (suc n) = refl

reply-answered : (a : Answer) → reply (verdict a) (into_buffer a with_capacity).buffer ≡ answered a
unfolding with_capacity
reply-answered (ok (true, bytes)) = rw (drop_nil (length bytes), append-nil bytes) refl
reply-answered (ok (false, bytes)) = refl
reply-answered (err e) = refl

module _ {ℓ} {S : Type ℓ} ⦃order : ByteOrder⦄ (clock : ℕ → Readings) where
  unfoldable pub process_rpc_command : Processor (Context S) (World S × ℕ)
  process_rpc_command input output context (w, n) =
      let (answer, w') = handle_rpc (clock n) input context w in
      (verdict answer, into_buffer answer output, (w', suc n))

  -- The messages handled one after the other, each in the world that the ones before it have left.
  abbrev pub answers :
      List (RpcCommand (Context S)) → World S → ℕ → List (Result Error Bytes) × World S
  answers [] w n = ([], w)
  answers (c ∷ commands) w n =
      let (answer, w') = handle_rpc (clock n) c.bytes c.context w in
      let (rest, last) = answers commands w' (suc n) in (answered answer ++ rest, last)

  replies-answers :
      (commands : List (RpcCommand (Context S))) (w : World S) (n : ℕ)
      → ((replies process_rpc_command commands (w, n)).0 ≡ (answers commands w n).0)
        × ((replies process_rpc_command commands (w, n)).1.0 ≡ (answers commands w n).1)
  unfolding replies process_rpc_command
  replies-answers [] w n = (refl, refl)
  replies-answers (c ∷ commands) w n =
      let (answer, w') = handle_rpc (clock n) c.bytes c.context w in
      let (e, k) = replies-answers commands w' (suc n) in (rw (reply-answered answer, e) refl, k)

  -- The worker of a connection, on whatever buffer it has been left, sends on what `handle_rpc`
  -- answers to its messages one after the other, each in the world that the ones before it have
  -- left, and leaves the world that the last one leaves.
  pub worker-answers :
      (commands : List (RpcCommand (Context S))) (b : ResponseBuffer) (w : World S)
      → (forward (worker process_rpc_command (delivered commands) b (w, 0)).0
          ≡ (answers commands w 0).0)
        × ((worker process_rpc_command (delivered commands) b (w, 0)).1.0
            ≡ (answers commands w 0).1)
  worker-answers commands b w =
      let (e, k) = forward-worker process_rpc_command commands b (w, 0) in
      let (e', k') = replies-answers commands w 0 in (e ∙ e', ap (λ s. s.0) k ∙ k')

  -- A call that comes again over the same connection, right after it was let through and while its
  -- transaction is retained, adds nothing to the replies, whatever it asks for now, and changes
  -- neither the file system nor the port mapper's table nor the mount signals.
  pub answers-retransmission :
      (xid : ℕ) (first second : RpcCommand (Context S)) (rest rest' : Bytes) (c c' : CallBody)
      (run_in run_in' : Context S) (w : World S) (n : ℕ)
      → IsValid w.transaction_tracker
      → IsCall first.bytes first.context xid c rest run_in
      → IsCall second.bytes second.context xid c' rest' run_in'
      → run_in'.client_addr ≡ run_in.client_addr
      → (is_retransmission (clock n).received w.transaction_tracker xid run_in.client_addr).0
        ≡ false
      → (clock (suc n)).received ≤ (clock n).finished + w.transaction_tracker.retention_period
      → ((answers (first ∷ second ∷ []) w n).0 ≡ (answers (first ∷ []) w n).0)
        × SameService (answers (first ∷ second ∷ []) w n).1 (answers (first ∷ []) w n).1
  answers-retransmission xid first second rest rest' c c' run_in run_in' w n v call call' same new
        soon =
      let (e, k) =
        handle_rpc-retransmission (clock n) (clock (suc n)) first.bytes rest second.bytes rest' xid
          c c' first.context run_in second.context run_in' w v call call' same new soon in
      (rw e refl, k)
