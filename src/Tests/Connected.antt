-- ===== src/Tests/Connected.antt =====
-- A connection on which a client calls NULL, and sends the call a second time.
use nfs_mamont_mirror.Prelude.{
  ℕ, ◌+◌, ◌≡◌, refl, none, some, true, List, [], ◌∷◌, ◌++◌, map, arith, length,
}
use nfs_mamont_mirror.Prelude.Result.{Result, ok, err}
use nfs_mamont_mirror.Xdr.Reader.{Bytes, Error, unexpected_eof}
use nfs_mamont_mirror.Rpc.Context.{Context}
use nfs_mamont_mirror.Rpc.Connection.{SocketMessageHandler, run}
use nfs_mamont_mirror.Rpc.Connection.Records.{IsStream, end, next, command}
use nfs_mamont_mirror.Rpc.Fragment.Frames.{frame, last}
use nfs_mamont_mirror.Rpc.Queue.{with_capacity, forward, worker}
use nfs_mamont_mirror.Rpc.Queue.Order.{delivered}
use nfs_mamont_mirror.Rpc.Dispatch.{Readings}
use nfs_mamont_mirror.Rpc.Service.{new_handler, process_rpc_command, answers}
use nfs_mamont_mirror.Tests.{order, program, client, start, words}
use nfs_mamont_mirror.Tcp.Socket.{Event, bytes, message, Connection, fresh, running, process_socket}
use nfs_mamont_mirror.Tcp.Traffic.{Exchange, over, arrived, replied}
use nfs_mamont_mirror.Tcp.Served.{process_socket-answers}
use nfs_mamont_mirror.WriteCounter.{
  Write, WriteCounter, counting, write_each, into_inner, bytes_written, counting-write_each,
}

abbrev null_call : Bytes
null_call = words (7 ∷ 0 ∷ 2 ∷ 100003 ∷ 3 ∷ 0 ∷ 0 ∷ 0 ∷ 0 ∷ 0 ∷ [])

abbrev answer : Bytes
answer = words (7 ∷ 1 ∷ 0 ∷ 0 ∷ 0 ∷ 0 ∷ [])

abbrev clock : ℕ → Readings
clock n = record { received = 100 + n; finished = 110 + n }

abbrev record_of : Bytes
record_of = frame true null_call

length-null_call : length null_call ≡ 40
length-null_call = unfold program in refl

length-record_of : length record_of ≡ 44
length-record_of = unfold program in refl

length-answer : length answer ≡ 24
length-answer = unfold program in refl

calls_IsStream : IsStream (null_call ∷ null_call ∷ []) (record_of ++ (record_of ++ []))
calls_IsStream =
    next (last null_call (omega (arith, length-null_call)))
      (next (last null_call (omega (arith, length-null_call))) end)

abbrev events : List Event
events = bytes record_of ∷ message answer none ∷ bytes record_of ∷ []

exchanged : Exchange events (record_of ++ (record_of ++ [])) (answer ∷ [])
exchanged = arrived record_of (omega (arith, length-record_of)) (
    replied answer (omega (arith, length-answer))
      (arrived record_of (omega (arith, length-record_of)) over))

one_answer :
    (answers clock (map (command client) (null_call ∷ null_call ∷ [])) start 0).0
    ≡ map ok (answer ∷ [])
one_answer = unfold program in refl

process_socket-answers_example :
    (c : Connection) × (process_socket fresh events ≡ some (running c))
    × IsStream (answer ∷ []) c.sent
    × (self : SocketMessageHandler (Context ℕ)) × (run (new_handler client) c.pipe ≡ some self)
    × ((forward
          (worker
            (process_rpc_command clock)
            (delivered self.command_queue.sent)
            with_capacity
            (start, 0)).0)
        ≡ map ok (answer ∷ []))
process_socket-answers_example =
    process_socket-answers clock client start exchanged calls_IsStream one_answer

-- A writer that takes the first byte it is given, and nothing after it.
abbrev take_one : Bytes → Bytes → Result Error ℕ × Bytes
take_one (b ∷ buf) [] = (ok 1, b ∷ [])
take_one buf w = (err unexpected_eof, w)

abbrev narrow : Write Error Bytes
narrow = record { write = take_one; flush = λ w. (ok tt, w) }

abbrev part : Bytes
part = 5 ∷ 6 ∷ []

abbrev near_full : WriteCounter Bytes
near_full = record { inner = []; count = 18446744073709551615 }

counting-write_each_example :
    let (results, left) = write_each (counting narrow) (part ∷ part ∷ []) near_full in
    (results ≡ ok 1 ∷ err unexpected_eof ∷ [])
    × (into_inner left ≡ 5 ∷ [])
    × (bytes_written left ≡ 0)
unfolding counting
counting-write_each_example = counting-write_each narrow (part ∷ part ∷ []) near_full (omega arith)
