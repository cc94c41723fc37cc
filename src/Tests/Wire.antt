-- ===== src/Tests/Wire.antt =====
-- Messages, fragments, the connection and the queue, on concrete bytes.
use nfs_mamont_mirror.Prelude.{
  ℕ, zero, suc, ◌≡◌, refl, true, false, some, none, List, [], ◌∷◌, ◌++◌, arith,
}
use nfs_mamont_mirror.Prelude.Result.{ok, err}
use nfs_mamont_mirror.Xdr.Reader.{Bytes, invalid_data}
use nfs_mamont_mirror.Xdr.Basic.{vec_u8, string}
use nfs_mamont_mirror.Xdr.RoundTrip.{RoundTrips}
use nfs_mamont_mirror.Xdr.Rpc.{RpcMsg, RpcBody, rpc_msg_codec}
use nfs_mamont_mirror.Xdr.Rpc.RoundTrip.{rpc_msg-RoundTrips}
use nfs_mamont_mirror.Xdr.Portmap.{Pmaplist, entry, nothing, just}
use nfs_mamont_mirror.Xdr.Nfs3.Enums.{nf3_dir}
use nfs_mamont_mirror.Xdr.Nfs3.{NfsTime3, Fattr3, Sattr3, SetAtime, SetMtime}
use nfs_mamont_mirror.Rpc.Fragment.{write_fragment}
use nfs_mamont_mirror.Rpc.Fragment.Frames.{frame, IsRecord, last, more}
use nfs_mamont_mirror.Rpc.Fragment.Write.{write_fragment-IsRecord}
use nfs_mamont_mirror.Rpc.Connection.{RpcCommand, SocketMessageHandler, run}
use nfs_mamont_mirror.Rpc.Connection.Loop.{run_total}
use nfs_mamont_mirror.Rpc.Connection.Records.{IsStream, end, next, command}
use nfs_mamont_mirror.Rpc.Queue.{with_capacity, Processor, forward, worker, replies}
use nfs_mamont_mirror.Rpc.Queue.Order.{delivered, forward-worker}
use nfs_mamont_mirror.Tests.{order, program, call_of, words}

-- A call of NFS version 3 as a client sends it.
abbrev null_call : RpcMsg
null_call = record { xid = 7; body = RpcBody.call (call_of 2 100003 3) }

written_call :
    rpc_msg_codec.serialize null_call ≡ ok (words (7 ∷ 0 ∷ 2 ∷ 100003 ∷ 3 ∷ 0 ∷ 0 ∷ 0 ∷ 0 ∷ 0 ∷ []))
unfolding program
written_call = refl

-- Three bytes take a whole word, and the padding is zero.
padded : vec_u8.serialize (1 ∷ 2 ∷ 3 ∷ []) ≡ ok (0 ∷ 0 ∷ 0 ∷ 3 ∷ 1 ∷ 2 ∷ 3 ∷ 0 ∷ [])
unfolding program
padded = refl

-- A string that is not ASCII is refused.
not_ascii : string.deserialize (0 ∷ 0 ∷ 0 ∷ 1 ∷ 200 ∷ 0 ∷ 0 ∷ 0 ∷ []) ≡ err invalid_data
unfolding program
not_ascii = refl

rpc_msg-RoundTrips_example : RoundTrips rpc_msg_codec null_call
rpc_msg-RoundTrips_example = rpc_msg-RoundTrips null_call (omega arith)

abbrev mappings : Pmaplist
mappings =
    entry (record { prog = 100003; vers = 3; prot = 6; port = 2049 })
      (just (entry (record { prog = 100005; vers = 3; prot = 17; port = 635 }) nothing))

abbrev noon : NfsTime3
noon = record { seconds = 43200; nseconds = 5 }

abbrev directory : Fattr3
directory = record {
  ftype = nf3_dir;
  mode = 493;
  nlink = 2;
  uid = 507;
  gid = 508;
  size = 4096;
  used = 4096;
  rdev = record { specdata1 = 0; specdata2 = 0 };
  fsid = 1;
  fileid = 2;
  atime = noon;
  mtime = noon;
  ctime = noon;
}

abbrev truncation : Sattr3
truncation = record {
  mode = none;
  uid = some 507;
  gid = none;
  size = some 0;
  atime = SetAtime.set_to_client_time noon;
  mtime = SetMtime.set_to_server_time;
}

abbrev part : Bytes
part = 1 ∷ 2 ∷ 3 ∷ []

abbrev remainder : Bytes
remainder = 4 ∷ 5 ∷ []

write_fragment-IsRecord_example :
    (wire : Bytes) × (write_fragment part ≡ some wire) × IsRecord part wire
write_fragment-IsRecord_example = write_fragment-IsRecord part (omega arith)

abbrev idle : SocketMessageHandler ℕ
idle = record {
  cur_fragment = [];
  context = 9;
  command_queue = record { sent = []; closed = false };
}

-- A message in two fragments, and then one in a single fragment.
abbrev stream : Bytes
stream = (frame false part ++ frame true remainder) ++ (frame true part ++ [])

stream-IsStream : IsStream ((part ++ remainder) ∷ part ∷ []) stream
stream-IsStream =
    next (more part (omega arith) (last remainder (omega arith)))
      (next (last part (omega arith)) end)

run_total_example : (self' : SocketMessageHandler ℕ) × (run idle stream ≡ some self')
run_total_example = run_total idle stream

-- Odd contexts are answered, even ones not, and 0 fails after it has written; the state counts.
abbrev echo : Processor ℕ ℕ
echo bytes b zero s = (err invalid_data, record b { buffer = b.buffer ++ bytes }, suc s)
echo bytes b (suc zero) s = (ok true, record b { buffer = b.buffer ++ bytes }, suc s)
echo bytes b (suc (suc n)) s = (ok false, b, suc s)

abbrev three_commands : List (RpcCommand ℕ)
three_commands = command 0 part ∷ command 1 remainder ∷ command 2 part ∷ []

forward-worker_example :
    (forward (worker echo (delivered three_commands) with_capacity 0).0
      ≡ (replies echo three_commands 0).0)
    × ((worker echo (delivered three_commands) with_capacity 0).1
        ≡ (replies echo three_commands 0).1)
forward-worker_example = forward-worker echo three_commands with_capacity 0

answers_in_order : (replies echo three_commands 0).0 ≡ err invalid_data ∷ ok remainder ∷ []
unfolding replies with_capacity
answers_in_order = refl
