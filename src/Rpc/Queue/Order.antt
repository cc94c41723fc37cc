-- ===== src/Rpc/Queue/Order.antt =====
-- src/protocol/rpc/command_queue.rs: answers keep the order of the commands and do not mix.
use nfs_mamont_mirror.Prelude.{◌≡◌, refl, Bool, true, false, List, [], ◌∷◌, ◌++◌, map}
use nfs_mamont_mirror.Rpc.Connection.{RpcCommand}
use nfs_mamont_mirror.Rpc.Queue.{
  ResponseBuffer, with_capacity, mark_has_content, clear, forward, Processor, outcome, worker,
  reply, replies, CommandResult,
}
use nfs_mamont_mirror.Prelude.Result.{Result, ok, err}
use nfs_mamont_mirror.Xdr.Reader.{Error, Bytes}

abbrev pub delivered {ℓ} : {C : Type ℓ} → List (RpcCommand C) → List (RpcCommand C × Bool)
delivered = map (λ c. (c, true))

module _ {ℓ} {C S : Type ℓ} (processor : Processor C S) where
  -- One round, from the answer of the processor on.
  round :
      (answer : Result Error Bool) (buffer : ResponseBuffer) (results : List CommandResult)
      (rest : List (Result Error Bytes))
      → forward results ≡ rest
      → forward ((outcome answer buffer).0 ∷ results) ≡ reply answer buffer.buffer ++ rest
  unfolding forward mark_has_content
  round (ok true) buffer results rest e = rw e
  round (ok false) buffer results rest e = e
  round (err x) buffer results rest e = rw e

  -- While the receiver of results is there, the messages that are sent on are the answers of the
  -- commands in the order of their submission, each as if it had been run alone on an empty
  -- buffer: nothing that an earlier command wrote, failed or not, is sent with a later one.
  pub forward-worker :
      (commands : List (RpcCommand C)) (b : ResponseBuffer) (s : S)
      → (forward (worker processor (delivered commands) b s).0 ≡ (replies processor commands s).0)
        × ((worker processor (delivered commands) b s).1 ≡ (replies processor commands s).1)
  unfolding worker replies forward clear with_capacity
  forward-worker [] b s = (refl, refl)
  forward-worker (c ∷ cs) b s =
      let (answer, buffer, s') = processor c.bytes with_capacity c.context s in
      let (e, f) = forward-worker cs (outcome answer buffer).1 s' in (round answer buffer _ _ e, f)
