-- ===== src/Tcp/Traffic.antt =====
-- src/tcp.rs: what passes through a connection in both directions, whatever the order of events.
use nfs_mamont_mirror.Prelude.{
  ◌≡◌, ◌<◌, refl, true, false, some, none, List, [], ◌∷◌, ◌++◌, append_assoc, append-nil, arith,
  map, length,
}
use nfs_mamont_mirror.Xdr.Reader.{Bytes, Error}
use nfs_mamont_mirror.Rpc.Fragment.{write_fragment}
use nfs_mamont_mirror.Rpc.Fragment.Write.{write_fragment-IsRecord}
use nfs_mamont_mirror.Rpc.Connection.{SocketMessageHandler, run}
use nfs_mamont_mirror.Rpc.Connection.Records.{IsStream, end, next, command, run-IsStream}
use nfs_mamont_mirror.Tcp.Socket.{
  Event, bytes, would_block, message, Connection, fresh, running, Return, done, socket_error,
  reply_error, unexpected_termination, read_failed, failed, terminated, on_event, process_socket,
}

-- An exchange, in the order in which its events come: what the client has sent, in pieces of any
-- size, and the messages that it is sent, which are not empty.
pub data Exchange : List Event → Bytes → List Bytes → Type 0 where
  over : Exchange [] [] []
  idle :
      {events : List Event} {received : Bytes} {replies : List Bytes}
      → Exchange events received replies
      → Exchange (would_block ∷ events) received replies
  arrived :
      (bs : Bytes) {events : List Event} {received : Bytes} {replies : List Bytes}
      → 0 < length bs
      → Exchange events received replies
      → Exchange (bytes bs ∷ events) (bs ++ received) replies
  replied :
      (msg : Bytes) {events : List Event} {received : Bytes} {replies : List Bytes}
      → 0 < length msg
      → Exchange events received replies
      → Exchange (message msg none ∷ events) received (msg ∷ replies)

message_sent :
    (c : Connection) (msg wire : Bytes)
    → write_fragment msg ≡ some wire
    → on_event c (message msg none) ≡ some (running (record c { sent = c.sent ++ wire }))
unfolding on_event
message_sent c msg wire e = rw e refl

bytes_arrived :
    (c : Connection) (bs : Bytes)
    → 0 < length bs
    → c.reader_alive ≡ true
    → on_event c (bytes bs) ≡ some (running (record c { pipe = c.pipe ++ bs }))
unfolding on_event
bytes_arrived c [] full h = absurd (omega arith)
bytes_arrived c (b ∷ bs) full h = rw h refl

nothing_arrived : (c : Connection) → on_event c would_block ≡ some (running c)
unfolding on_event
nothing_arrived c = refl

exchange_from :
    {events : List Event} {received : Bytes} {replies : List Bytes}
    → Exchange events received replies
    → (c : Connection) → c.reader_alive ≡ true
    → (wires : Bytes) × IsStream replies wires
      × (process_socket c events
          ≡ some (running (record c { pipe = c.pipe ++ received; sent = c.sent ++ wires })))
unfolding process_socket
exchange_from over c h = ([], end, rw (append-nil c.pipe, append-nil c.sent) refl)
exchange_from (idle e) c h =
    let (wires, s, k) = exchange_from e c h in (wires, s, rw (nothing_arrived c) k)
exchange_from (arrived bs {received} full e) c h =
    let (wires, s, k) = exchange_from e (record c { pipe = c.pipe ++ bs }) h in
    (wires, s, rw (bytes_arrived c bs full h, ← append_assoc c.pipe bs received) k)
exchange_from (replied msg full e) c h =
    let (wire, w, r) = write_fragment-IsRecord msg full in
    let (wires, s, k) = exchange_from e (record c { sent = c.sent ++ wire }) h in
    (wire ++ wires, next r s, rw (message_sent c msg wire w, ← append_assoc c.sent wire wires) k)

module _ {ℓ} {C : Type ℓ} where
  -- A client's bytes, which are the records of some messages, arrive in pieces of any size, in any
  -- order with messages for the client, none of them empty, and no read or write fails. Then the
  -- connection goes on, the client has been sent the records of its messages in their order and
  -- nothing else, and the reading task, on what has gone into its pipe, ends and has submitted
  -- exactly the messages of the client, in their order.
  pub process_socket-Exchange :
      {events : List Event} {received : Bytes} {replies messages : List Bytes}
      → Exchange events received replies
      → IsStream messages received
      → (self : SocketMessageHandler C) → self.cur_fragment ≡ []
      → self.command_queue.closed ≡ false
      → (c : Connection) × (process_socket fresh events ≡ some (running c))
        × IsStream replies c.sent
        × (self' : SocketMessageHandler C) × (run self c.pipe ≡ some self')
        × (self'.command_queue.sent
            ≡ self.command_queue.sent ++ map (command self.context) messages)
  process_socket-Exchange e stream self empty is_open =
      let (wires, s, k) = exchange_from e fresh refl in
      let (self', ended, submitted) = run-IsStream stream self empty is_open in
      (record { pipe = _; reader_alive = true; sent = wires }, k, s, self', ended, submitted)

-- What makes the loop return, and with what.
pub data Ends : Return → Event → Type 0 where
  by_client : Ends done (bytes [])
  by_socket : Ends socket_error read_failed
  by_reply : {e : Error} → Ends (reply_error e) (failed e)
  by_task : Ends unexpected_termination terminated
