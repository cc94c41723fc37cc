-- ===== src/Tests/Service.antt =====
-- The tracker, the port mapper, the mount protocol and the file handles, on concrete requests.
use nfs_mamont_mirror.Prelude.{
  map, ℕ, ◌≡◌, ◌↔◌, ◌%◌, ◌^◌, ◌≤◌, refl, true, false, List, [], ◌∷◌, ◌++◌, replicate, arith,
}
use nfs_mamont_mirror.Prelude.Result.{ok, err}
use nfs_mamont_mirror.Xdr.Reader.{Bytes}
use nfs_mamont_mirror.Xdr.Basic.{u32, vec_u8}
use nfs_mamont_mirror.Xdr.Rpc.{make_success_reply}
use nfs_mamont_mirror.Xdr.Portmap.{Mapping, mapping_codec}
use nfs_mamont_mirror.Xdr.Nfs3.Enums.{nfs3err_badhandle, nfs3err_noent}
use nfs_mamont_mirror.Xdr.Nfs3.{NfsFh3}
use nfs_mamont_mirror.Xdr.Nfs3.RoundTrip.{IsU64}
use nfs_mamont_mirror.Vfs.{NfsFileSystem, slash, id_to_fh, fh_to_id, path_to_id}
use nfs_mamont_mirror.Vfs.Handle.{fh_to_id_iff}
use nfs_mamont_mirror.Vfs.Path.{IsName, path_of, follow, path_to_id-path_of}
use nfs_mamont_mirror.Rpc.Tracker.{TransactionTracker, in_progress, completed, is_retransmission}
use nfs_mamont_mirror.Rpc.Tracker.Retention as Retention
use nfs_mamont_mirror.Rpc.Tracker.Retention.{IsHeld, is_retransmission_iff}
use nfs_mamont_mirror.Rpc.Tracker.Trace.{Event, request, processed, executions, executions-le_one}
use nfs_mamont_mirror.Rpc.Context.{send_signal}
use nfs_mamont_mirror.Portmap.{
  PortmapTable, key_of, to_mapping, dump_list, pmapproc_dump, pmapproc_getport, pmapproc_setport,
  handle_portmap,
}
use nfs_mamont_mirror.Portmap.Table as Table
use nfs_mamont_mirror.Portmap.Table.{old_or, get_port-set_port, get_port-unset_port}
use nfs_mamont_mirror.Portmap.Procedures.{Answers, getport-setport}
use nfs_mamont_mirror.Portmap.Dump.{mappings, next_codec, pmapproc_dump_read}
use nfs_mamont_mirror.Portmap.Dispatch.{Handled, handle_portmap_replies}
use nfs_mamont_mirror.Mount.{mounted, mountproc3_mnt}
use nfs_mamont_mirror.Mount.Root.{MountAnswer, mountproc3_mnt-root}
use nfs_mamont_mirror.Tests.{order, program, export, bin, small, client, start, call_of, words}

abbrev home : Bytes
home = 1 ∷ 2 ∷ []

abbrev away : Bytes
away = 9 ∷ []

-- Request 7 of `home` was completed at time 100.
abbrev served : TransactionTracker
served = record { retention_period = 60; transactions = ((7, home), completed 100) ∷ [] }

abbrev serving : TransactionTracker
serving = record { retention_period = 60; transactions = ((7, home), in_progress) ∷ [] }

served_once : Retention.IsValid served
unfolding program
served_once = (refl, tt)

serving_once : Retention.IsValid serving
unfolding program
serving_once = (refl, tt)

is_retransmission_iff_example :
    ((is_retransmission 150 served 7 home).0 ≡ true) ↔ IsHeld 150 served (7, home)
is_retransmission_iff_example = is_retransmission_iff 150 served 7 home served_once

held_then_dropped :
    ((is_retransmission 160 served 7 home).0 ≡ true)
    × ((is_retransmission 161 served 7 home).0 ≡ false)
    × ((is_retransmission 160 served 7 away).0 ≡ false)
unfolding program
held_then_dropped = (refl, refl, refl)

abbrev burst : List Event
burst = request 110 7 away ∷ request 112 7 away ∷ processed 120 7 away ∷ request 130 7 away ∷ []

executions-le_one_example : executions (7, away) burst served ≤ 1
executions-le_one_example =
    executions-le_one (7, away) burst served 140 served_once
      (omega arith, (omega arith, (omega arith, (omega arith, tt))))

abbrev nfs_tcp : Mapping
nfs_tcp = record { prog = 100003; vers = 3; prot = 6; port = 67585 }

abbrev nfs_udp : Mapping
nfs_udp = record { prog = 100003; vers = 3; prot = 17; port = 111 }

abbrev table : PortmapTable
table = (key_of nfs_udp, 111) ∷ []

table-IsValid : Table.IsValid table
unfolding program
table-IsValid = record { distinct = (refl, tt); ports = (omega arith, tt) }

abbrev two_entries : PortmapTable
two_entries = (key_of nfs_udp, 111) ∷ (key_of nfs_tcp, 2049) ∷ []

pmapproc_dump_read_example :
    Answers next_codec
      (make_success_reply 7)
      (dump_list two_entries)
      (pmapproc_dump 7 two_entries).0
    × ((pmapproc_dump 7 two_entries).1 ≡ two_entries)
    × (mappings (dump_list two_entries) ≡ map to_mapping two_entries)
pmapproc_dump_read_example = pmapproc_dump_read 7 two_entries (omega arith) (
  (omega arith, omega arith, omega arith, omega arith),
  ((omega arith, omega arith, omega arith, omega arith), tt),
)

abbrev set_bytes : Bytes
set_bytes = words (100003 ∷ 3 ∷ 6 ∷ 67585 ∷ [])

set_reads : mapping_codec.deserialize set_bytes ≡ ok (nfs_tcp, [])
unfolding program
set_reads = refl

-- The port 67585 does not fit 16 bits, and the client is told 2049.
getport-setport_example :
    Answers u32
      (make_success_reply 8)
      (67585 % 2 ^ 16)
      (pmapproc_getport 8 set_bytes (pmapproc_setport 7 set_bytes table).1).0
getport-setport_example =
    getport-setport 7 8 set_bytes set_bytes [] [] nfs_tcp nfs_tcp table (omega arith) table-IsValid
      set_reads set_reads refl (unfold program in refl)

handle_portmap_replies_example :
    Handled 7 set_bytes table (handle_portmap 7 (call_of 2 100000 2) set_bytes table)
handle_portmap_replies_example =
    handle_portmap_replies 7 (call_of 2 100000 2) set_bytes table (omega arith)

-- A handle of generation 77 for the file 2.
abbrev handle_of_bin : NfsFh3
handle_of_bin = record {
  bytes = 77 ∷ 0 ∷ 0 ∷ 0 ∷ 0 ∷ 0 ∷ 0 ∷ 0 ∷ 2 ∷ 0 ∷ 0 ∷ 0 ∷ 0 ∷ 0 ∷ 0 ∷ 0 ∷ [];
}

fh_to_id_iff_example :
    (fh_to_id small handle_of_bin ≡ ok 2) ↔ (IsU64 2 × (handle_of_bin ≡ id_to_fh small 2))
fh_to_id_iff_example = fh_to_id_iff small handle_of_bin 2 (omega arith) (ground arith)

short_handle : fh_to_id small (record { bytes = 77 ∷ [] }) ≡ err nfs3err_badhandle
unfolding program
short_handle = refl

abbrev restarted : NfsFileSystem ℕ
restarted = record small { generation = 78 }

bin-IsName : IsName bin
bin-IsName = (λ e. cc e, (ground arith, (ground arith, (ground arith, tt))))

path_to_id-path_of_example :
    path_to_id small (path_of (bin ∷ bin ∷ [])) 0 ≡ follow small (bin ∷ bin ∷ []) 1 0
path_to_id-path_of_example =
    path_to_id-path_of small (bin ∷ bin ∷ []) (bin-IsName, (bin-IsName, tt)) 0

-- `//bin/` is the same path as `/bin`; there is no `/bin/bin`.
paths :
    (path_to_id small (47 ∷ 47 ∷ 98 ∷ 105 ∷ 110 ∷ 47 ∷ []) 0 ≡ (ok 2, 0))
    × (path_to_id small (path_of (bin ∷ bin ∷ [])) 0 ≡ (err nfs3err_noent, 0))
unfolding program path_of
paths = (refl, refl)

abbrev mount_bytes : Bytes
mount_bytes = words (8 ∷ []) ++ export ++ 47 ∷ []

mount_reads : vec_u8.deserialize mount_bytes ≡ ok (export ++ replicate 1 slash, [])
unfolding program
mount_reads = refl

mountproc3_mnt-root_example :
    MountAnswer 7 (mounted client 1) (mountproc3_mnt 7 mount_bytes client start).0
    × ((mountproc3_mnt 7 mount_bytes client start).1 ≡ send_signal client true start)
mountproc3_mnt-root_example =
    mountproc3_mnt-root 7 mount_bytes [] 1 client start (omega arith) (unfold program in refl)
      mount_reads
