-- ===== src/Rpc/Connection.antt =====
-- src/protocol/rpc/wire.rs: `SocketMessageHandler`, which puts records together and submits them,
-- and the loop of src/tcp.rs that drives it. The command channel is the list of what was sent
-- through it; `closed` says that its receiver is gone. `C` is the type of `rpc::Context`.
pub mod Loop
pub mod Records
use nfs_mamont_mirror.Prelude.{
  ℕ, zero, suc, Bool, true, false, List, [], ◌∷◌, ◌++◌, length, Option, none, some,
}
use nfs_mamont_mirror.Prelude.Result.{Result, ok, err, ◌>>=◌}
use nfs_mamont_mirror.Xdr.Reader.{Bytes, Error, queue_closed}
use nfs_mamont_mirror.Rpc.Fragment.{read_fragment}

module _ {ℓ} (C : Type ℓ) where
  pub record RpcCommand : Type ℓ where
    pub bytes : Bytes
    pub context : C

  pub record CommandQueue : Type ℓ where
    pub sent : List RpcCommand
    pub closed : Bool

  pub record SocketMessageHandler : Type ℓ where
    pub cur_fragment : Bytes
    pub context : C
    pub command_queue : CommandQueue

module _ {ℓ} {C : Type ℓ} where
  -- `CommandQueue::submit_command`
  unfoldable pub submit_command : CommandQueue C → Bytes → C → Result Error (CommandQueue C)
  submit_command queue bytes context = elim queue.closed [
    | true ↦ err queue_closed
    | false ↦
        ok (record queue { sent = queue.sent ++ record { bytes = bytes; context = context } ∷ [] })
  ]

  finish_read : SocketMessageHandler C → Bool → Bytes → Result Error (SocketMessageHandler C)
  finish_read self false fragment = ok (record self { cur_fragment = fragment })
  finish_read self true fragment =
      submit_command self.command_queue fragment self.context >>= λ queue.
      ok (record self { cur_fragment = []; command_queue = queue })

  -- `SocketMessageHandler::read`, with what is left in the socket
  unfoldable pub read :
      SocketMessageHandler C → Bytes → Result Error (SocketMessageHandler C × Bytes)
  unfolding finish_read
  read self socket = read_fragment self.cur_fragment socket >>= λ ((is_last, fragment), rest).
      finish_read self is_last fragment >>= λ self'. ok (self', rest)

  -- The task that `process_socket` spawns: it reads until a read fails. The socket holds all that
  -- the peer ever sends; `none` means that the fuel ran out.
  unfoldable pub message_loop : ℕ → SocketMessageHandler C → Bytes → Option (SocketMessageHandler C)
  message_loop zero self socket = none
  message_loop (suc fuel) self socket = elim (read self socket) [
    | ok (self', rest) ↦ message_loop fuel self' rest
    | err e ↦ some self
  ]

  -- A read takes the four bytes of a header at least.
  unfoldable pub run : SocketMessageHandler C → Bytes → Option (SocketMessageHandler C)
  unfolding message_loop
  run self socket = message_loop (suc (length socket)) self socket
