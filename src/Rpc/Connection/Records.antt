-- ===== src/Rpc/Connection/Records.antt =====
-- src/protocol/rpc/wire.rs: records are put together and submitted in order.
use nfs_mamont_mirror.Prelude.{
  ◌≡◌, refl, sym, ap, true, false, some, List, [], ◌∷◌, ◌++◌, map, append_assoc, append-nil, arith,
  length, ◌∙◌, ◌<◌, ◌^◌,
}
use nfs_mamont_mirror.Prelude.Result.{ok, err}
use nfs_mamont_mirror.Xdr.Reader.{Bytes, unexpected_eof, read_exact}
use nfs_mamont_mirror.Rpc.Fragment.{read_fragment}
use nfs_mamont_mirror.Rpc.Fragment.Frames.{frame, read_fragment-frame, IsRecord, last, more}
use nfs_mamont_mirror.Rpc.Connection.{RpcCommand, SocketMessageHandler, submit_command, read, run}
use nfs_mamont_mirror.Rpc.Connection.Loop.{run_ok, run_err}

-- The records of a list of messages, one after the other.
pub data IsStream : List Bytes → Bytes → Type 0 where
  end : IsStream [] []
  next :
      {message wire : Bytes} {messages : List Bytes} {wires : Bytes}
      → IsRecord message wire
      → IsStream messages wires
      → IsStream (message ∷ messages) (wire ++ wires)

module _ {ℓ} {C : Type ℓ} where
  abbrev with_fragment : SocketMessageHandler C → Bytes → SocketMessageHandler C
  with_fragment self bytes = record self { cur_fragment = bytes }

  -- The handler after it has submitted a message.
  abbrev pub submitted : SocketMessageHandler C → Bytes → SocketMessageHandler C
  submitted self message = record self {
    cur_fragment = [];
    command_queue = record {
      sent = self.command_queue.sent ++ record { bytes = message; context = self.context } ∷ [];
      closed = self.command_queue.closed;
    };
  }

  read-more :
      (self : SocketMessageHandler C) (bytes rest : Bytes)
      → length bytes < 2 ^ 31
      → read self (frame false bytes ++ rest)
        ≡ ok (with_fragment self (self.cur_fragment ++ bytes), rest)
  unfolding read
  read-more self bytes rest h = rw (read_fragment-frame self.cur_fragment false bytes rest h)

  read-last :
      (self : SocketMessageHandler C) (bytes rest : Bytes)
      → length bytes < 2 ^ 31
      → self.command_queue.closed ≡ false
      → read self (frame true bytes ++ rest)
        ≡ ok (submitted self (self.cur_fragment ++ bytes), rest)
  unfolding read submit_command
  read-last self bytes rest h is_open =
      rw (read_fragment-frame self.cur_fragment true bytes rest h) (ground arith)

  run-record :
      {message wire : Bytes}
      → IsRecord message wire
      → (self : SocketMessageHandler C) (rest : Bytes) → self.command_queue.closed ≡ false
      → run self (wire ++ rest) ≡ run (submitted self (self.cur_fragment ++ message)) rest
  run-record (last bytes h) self rest is_open =
      run_ok self _ _ rest (read-last self bytes rest h is_open)
  run-record (more bytes {message} {wire} h r) self rest is_open =
      let next = with_fragment self (self.cur_fragment ++ bytes) in
      rw (append_assoc (frame false bytes) wire rest) (
        run_ok self next _ (wire ++ rest) (read-more self bytes (wire ++ rest) h)
        ∙ run-record r next rest is_open
        ∙ ap (λ m. run (submitted self m) rest) (append_assoc self.cur_fragment bytes message))

  read_eof : (self : SocketMessageHandler C) → read self [] ≡ err unexpected_eof
  unfolding read read_fragment read_exact
  read_eof self = refl

  abbrev pub command : C → Bytes → RpcCommand C
  command context message = record { bytes = message; context = context }

  -- However the client has cut its messages into fragments, the reading task submits exactly these
  -- messages, in the order in which they were sent, and stops when the stream ends.
  pub run-IsStream :
      {messages : List Bytes} {wires : Bytes}
      → IsStream messages wires
      → (self : SocketMessageHandler C) → self.cur_fragment ≡ []
      → self.command_queue.closed ≡ false
      → (self' : SocketMessageHandler C) × (run self wires ≡ some self')
        × (self'.command_queue.sent
            ≡ self.command_queue.sent ++ map (command self.context) messages)
  run-IsStream end self empty is_open =
      (self, run_err self [] unexpected_eof (read_eof self), sym (append-nil _))
  run-IsStream (next {message} {wire} {messages} {wires} r s) self empty is_open =
      let (self', done, sent) = run-IsStream s (submitted self message) refl is_open in
      (
        self',
        run-record r self wires is_open
            ∙ ap (λ m. run (submitted self (m ++ message)) wires) empty
            ∙ done,
        sent
            ∙ append_assoc self.command_queue.sent (command self.context message ∷ [])
                (map (command self.context) messages),
      )
