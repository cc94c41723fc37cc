-- ===== src/Rpc/Queue.antt =====
-- src/protocol/rpc/command_queue.rs and wire.rs: the worker that runs commands in the order in
-- which they were submitted, and the task that passes its results on. `C` is the type of
-- `rpc::Context`, and `S` what the processor shares with other connections.
pub mod Order
use nfs_mamont_mirror.Prelude.{
  Bool, true, false, Option, none, some, List, [], ◌∷◌, if◌then◌else◌, ◌++◌,
}
use nfs_mamont_mirror.Prelude.Result.{Result, ok, err}
use nfs_mamont_mirror.Xdr.Reader.{Bytes, Error}
use nfs_mamont_mirror.Rpc.Connection.{RpcCommand}

-- The capacity of the buffer is no part of its content.
pub record ResponseBuffer : Type 0 where
  pub buffer : Bytes
  pub has_content : Bool

-- `ResponseBuffer::with_capacity`
unfoldable pub with_capacity : ResponseBuffer
with_capacity = record { buffer = []; has_content = false }

unfoldable pub mark_has_content : ResponseBuffer → ResponseBuffer
mark_has_content b = record b { has_content = true }

unfoldable pub clear : ResponseBuffer → ResponseBuffer
clear b = record { buffer = []; has_content = false }

abbrev pub CommandResult : Type 0
CommandResult = Result Error (Option ResponseBuffer)

-- The task of `SocketMessageHandler::new`: what it sends on to the socket for each result.
unfoldable pub forward : List CommandResult → List (Result Error Bytes)
forward [] = []
forward (ok none ∷ results) = forward results
forward (ok (some b) ∷ results) = elim b.has_content [
  | true ↦ ok b.buffer ∷ forward results
  | false ↦ forward results
]
forward (err e ∷ results) = err e ∷ forward results

-- `AsyncCommandProcessor`: what it answers, the buffer it leaves, and the state after it.
abbrev pub Processor {ℓ} : Type ℓ → Type ℓ → Type ℓ
Processor C S = Bytes → ResponseBuffer → C → S → Result Error Bool × ResponseBuffer × S

-- The result of one round of the worker, and the buffer for the next.
abbrev pub outcome : Result Error Bool → ResponseBuffer → CommandResult × ResponseBuffer
outcome (ok true) b = (ok (some (mark_has_content b)), with_capacity)
outcome (ok false) b = (ok none, b)
outcome (err e) b = (err e, b)

abbrev pub reply : Result Error Bool → Bytes → List (Result Error Bytes)
reply (ok true) out = ok out ∷ []
reply (ok false) out = []
reply (err e) out = err e ∷ []

module _ {ℓ} {C S : Type ℓ} where
  -- The worker of `CommandQueue::new`. A command comes with whether its result can be sent: if
  -- the receiver is gone the worker stops.
  unfoldable pub worker :
      Processor C S → List (RpcCommand C × Bool) → ResponseBuffer → S → List CommandResult × S
  worker processor [] output_buffer s = ([], s)
  worker processor ((command, delivered) ∷ commands) output_buffer s =
      let (answer, b, s') = processor command.bytes (clear output_buffer) command.context s in
      let (result, next_buffer) = outcome answer b in
      let (results, final) = worker processor commands next_buffer s' in
      if delivered then (result ∷ results, final) else ([], s')

  -- What the commands answer when each one is run by itself, on an empty buffer.
  unfoldable pub replies : Processor C S → List (RpcCommand C) → S → List (Result Error Bytes) × S
  replies processor [] s = ([], s)
  replies processor (command ∷ commands) s =
      let (answer, b, s') = processor command.bytes with_capacity command.context s in
      let (rest, final) = replies processor commands s' in (reply answer b.buffer ++ rest, final)
