-- ===== src/Tcp/Socket.antt =====
-- src/tcp.rs: the select loop of `process_socket`. What it waits for comes as a list of events, in
-- whatever order.
use nfs_mamont_mirror.Prelude.{
  ℕ, Bool, true, false, Option, none, some, List, [], ◌∷◌, ◌++◌, take, if◌then◌else◌,
}
use nfs_mamont_mirror.Xdr.Reader.{Bytes, Error}
use nfs_mamont_mirror.Rpc.Fragment.{write_fragment}

pub data Event : Type 0 where
  -- `try_read`: `Ok(n)` with the bytes it has read, `WouldBlock`, or another error
  bytes : Bytes → Event
  would_block : Event
  read_failed : Event
  -- `recv`: a message and whether the socket fails after some bytes of it, an error, or `None`
  message : Bytes → Option ℕ → Event
  failed : Error → Event
  terminated : Event
  -- The reading task has ended, and with it the other half of the pipe.
  reader_ended : Event

-- Why the loop has returned: `Ok(())`, or one of the three errors.
pub data Return : Type 0 where
  done socket_error unexpected_termination : Return
  reply_error : Error → Return

-- What has gone into the pipe to the message handler, and out to the client.
pub record Connection : Type 0 where
  pub pipe : Bytes
  pub reader_alive : Bool
  pub sent : Bytes

abbrev pub fresh : Connection
fresh = record { pipe = []; reader_alive = true; sent = [] }

pub data State : Type 0 where
  running : Connection → State
  returned : Return → Connection → State

-- `socksend.write_all`, whose error is dropped
abbrev pub into_pipe : Connection → Bytes → Connection
into_pipe c bs = record c { pipe = if c.reader_alive then c.pipe ++ bs else c.pipe }

-- The bytes that a write with this outcome has sent.
abbrev pub accepted : Option ℕ → Bytes → Bytes
accepted none wire = wire
accepted (some n) wire = take n wire

-- `write_fragment` on the socket, whose error is only logged; `none` for its fuel
abbrev pub out_to_client : Connection → Option ℕ → Option Bytes → Option State
out_to_client c failure none = none
out_to_client c failure (some wire) =
    some (running (record c { sent = c.sent ++ accepted failure wire }))

unfoldable pub on_event : Connection → Event → Option State
on_event c (bytes []) = some (returned done c)
on_event c (bytes (b ∷ bs)) = some (running (into_pipe c (b ∷ bs)))
on_event c would_block = some (running c)
on_event c read_failed = some (returned socket_error c)
on_event c (message msg failure) = out_to_client c failure (write_fragment msg)
on_event c (failed e) = some (returned (reply_error e) c)
on_event c terminated = some (returned unexpected_termination c)
on_event c reader_ended = some (running (record c { reader_alive = false }))

abbrev pub continue : (Connection → Option State) → Option State → Option State
continue next none = none
continue next (some (returned r c)) = some (returned r c)
continue next (some (running c)) = next c

unfoldable pub process_socket : Connection → List Event → Option State
process_socket c [] = some (running c)
process_socket c (event ∷ events) = continue (λ c'. process_socket c' events) (on_event c event)
