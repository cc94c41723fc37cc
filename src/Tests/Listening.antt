-- ===== src/Tests/Listening.antt =====
-- A network on which the first address is taken, and a connection over it.
use nfs_mamont_mirror.Prelude.{
  ℕ, suc, ◌≡◌, refl, none, some, List, [], ◌∷◌, arith, ◌==◌, if◌then◌else◌, false,
}
use nfs_mamont_mirror.Prelude.Result.{ok, err}
use nfs_mamont_mirror.Prelude.Endian.{to_be_bytes}
use nfs_mamont_mirror.Xdr.Reader.{Bytes, queue_closed}
use nfs_mamont_mirror.Vfs.{slash}
use nfs_mamont_mirror.Rpc.Connection.{SocketMessageHandler}
use nfs_mamont_mirror.Rpc.Connection.Records.{IsStream, end, next}
use nfs_mamont_mirror.Rpc.Fragment.Frames.{last}
use nfs_mamont_mirror.Tests.{small}
use nfs_mamont_mirror.Tcp.{
  Net, NfsTcpListener, os, ip_port, auto, generate_host_ip, bind, handle_forever,
}
use nfs_mamont_mirror.Tcp.Binding.{refused, free, result_of, bind-auto}
use nfs_mamont_mirror.Tcp.Socket.{
  Event, bytes, message, failed, would_block, reader_ended, Connection,
}
use nfs_mamont_mirror.Tcp.Traffic.{Exchange, over, idle, arrived, replied}

-- The world counts the calls; a socket is a number, and the second client is gone at once.
abbrev busy : Net ℕ Bytes ℕ
busy = record {
  listen = λ address w. (if w == 0 then err (os 98) else ok address, suc w);
  local_ip = λ l. l;
  local_port = λ l. 2049;
  accept = λ l w. (ok w, suc w);
  peer_addr = λ socket. if socket == 4 then err (os 107) else ok (socket ∷ []);
}

abbrev second : Bytes
second = ip_port (generate_host_ip 2) 2049

bind-auto_example : bind busy (ip_port auto 2049) small 0 ≡ (result_of busy small (some second), 2)
bind-auto_example = bind-auto busy 2049 small (omega arith) (refused refl (free refl))

abbrev exported : NfsTcpListener Bytes ℕ
exported = record {
  listener = second;
  port = 2049;
  arcfs = small;
  mount_signal = false;
  export_name = slash ∷ [];
}

-- The listener takes one client, and then returns because the second is gone.
one_client : (handle_forever busy 9 exported 3).1 ≡ some (os 107)
unfolding handle_forever
one_client = refl

abbrev question : Bytes
question = 1 ∷ 2 ∷ []

abbrev events : List Event
events =
    bytes (128 ∷ 0 ∷ []) ∷ message (7 ∷ []) none ∷ would_block ∷ bytes (0 ∷ 2 ∷ 1 ∷ 2 ∷ []) ∷ []

abbrev handler : SocketMessageHandler ℕ
handler = record {
  cur_fragment = [];
  context = 9;
  command_queue = record { sent = []; closed = false };
}

asked : IsStream (question ∷ []) (128 ∷ 0 ∷ 0 ∷ 2 ∷ 1 ∷ 2 ∷ [])
unfolding to_be_bytes
asked = next (last question (omega arith)) end

exchanged : Exchange events (128 ∷ 0 ∷ 0 ∷ 2 ∷ 1 ∷ 2 ∷ []) ((7 ∷ []) ∷ [])
exchanged =
    arrived (128 ∷ 0 ∷ []) (omega arith)
      (replied (7 ∷ []) (omega arith) (idle (arrived (0 ∷ 2 ∷ 1 ∷ 2 ∷ []) (omega arith) over)))

-- A write that fails, and then the end of the client.
abbrev last_events : List Event
last_events =
    message (7 ∷ []) (some 2) ∷ reader_ended ∷ bytes question ∷ bytes [] ∷ failed queue_closed ∷ []

abbrev cut : Connection
cut = record { pipe = []; reader_alive = false; sent = 128 ∷ 0 ∷ [] }
