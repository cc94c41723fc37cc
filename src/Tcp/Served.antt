-- ===== src/Tcp/Served.antt =====
-- src/tcp.rs and src/protocol/rpc/wire.rs: a connection from the client's bytes to the client's
-- answers.
use nfs_mamont_mirror.Prelude.{ℕ, ◌≡◌, refl, ◌∙◌, some, List, map}
use nfs_mamont_mirror.Prelude.Result.{ok}
use nfs_mamont_mirror.Xdr.Reader.{Bytes}
use nfs_mamont_mirror.Xdr.Order.{ByteOrder}
use nfs_mamont_mirror.Rpc.Context.{Context, World}
use nfs_mamont_mirror.Rpc.Connection.{SocketMessageHandler, run}
use nfs_mamont_mirror.Rpc.Connection.Records.{IsStream, command}
use nfs_mamont_mirror.Rpc.Queue.{with_capacity, forward, worker}
use nfs_mamont_mirror.Rpc.Queue.Order.{delivered}
use nfs_mamont_mirror.Rpc.Dispatch.{Readings}
use nfs_mamont_mirror.Rpc.Service.{new_handler, process_rpc_command, answers, worker-answers}
use nfs_mamont_mirror.Tcp.Socket.{Event, Connection, fresh, running, process_socket}
use nfs_mamont_mirror.Tcp.Traffic.{Exchange, process_socket-Exchange}

module _ {ℓ} {S : Type ℓ} ⦃order : ByteOrder⦄ (clock : ℕ → Readings) where
  -- A client's bytes, which are the records of some messages, arrive in pieces of any size, in any
  -- order with its replies, and no read or write fails. The replies, none of them empty, are what
  -- `handle_rpc` answers, without an error, to these messages one after the other, each in the
  -- world that the ones before it have left. Then the connection goes on; the reading task submits
  -- the messages, and the worker, run on what was submitted, sends on exactly these replies; and
  -- the client has been sent the records of the replies in their order, and nothing else.
  pub process_socket-answers :
      (context : Context S) (w : World S) {events : List Event} {received : Bytes}
      {replies messages : List Bytes}
      → Exchange events received replies
      → IsStream messages received
      → (answers clock (map (command context) messages) w 0).0 ≡ map ok replies
      → (c : Connection) × (process_socket fresh events ≡ some (running c))
        × IsStream replies c.sent
        × (self : SocketMessageHandler (Context S)) × (run (new_handler context) c.pipe ≡ some self)
        × ((forward
              (worker
                (process_rpc_command clock)
                (delivered self.command_queue.sent)
                with_capacity
                (w, 0)).0)
            ≡ map ok replies)
  process_socket-answers context w e stream answered =
      let (c, goes_on, sent, self, ended, submitted) =
        process_socket-Exchange e stream (new_handler context) refl refl in
      (
        c,
        goes_on,
        sent,
        self,
        ended,
        rw submitted ((worker-answers clock _ with_capacity w).0 ∙ answered),
      )
