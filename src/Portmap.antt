-- ===== src/Portmap.antt =====
-- src/protocol/nfs/portmap: the port mapper's table and its procedures. A procedure is given what
-- is left of the input and the table, and returns what it writes and the new table.
pub mod Table
pub mod Procedures
pub mod Dispatch
pub mod Dump
use nfs_mamont_mirror.Prelude.{
  ℕ, ◌%◌, ◌^◌, ◌≡◌, ◌↔◌, Bool, true, false, ◌&&◌, ◌||◌, Option, none, some, List, [], ◌∷◌, ◌==◌,
  if◌then◌else◌, arith, map, foldl, reverse,
}
use nfs_mamont_mirror.Prelude.Result.{Result, ok, err}
use nfs_mamont_mirror.Prelude.Table.{Eq, lookup, insert, remove}
use nfs_mamont_mirror.Xdr.Reader.{Bytes, Error, Writer, ◌⨾◌, Codec}
use nfs_mamont_mirror.Xdr.Order.{ByteOrder}
use nfs_mamont_mirror.Xdr.Basic.{u32, bool, find_variant}
use nfs_mamont_mirror.Xdr.Rpc.{
  CallBody, rpc_msg_codec, make_success_reply, prog_mismatch_reply_message,
  proc_unavail_reply_message,
}
use nfs_mamont_mirror.Xdr.Portmap as Messages
use nfs_mamont_mirror.Xdr.Portmap.{
  Mapping, Pmaplist, entry, Next, nothing, just, mapping_codec, serialize_next, ipproto_tcp,
  ipproto_udp, PortmapProgram, portmap_program_number, portmap_programs,
}

pub record PortmapKey : Type 0 where
  pub prog : ℕ
  pub vers : ℕ
  pub prot : ℕ

abbrev pub same_key : PortmapKey → PortmapKey → Bool
same_key a b = a.prog == b.prog && (a.vers == b.vers && a.prot == b.prot)

pub same_key_iff : (a b : PortmapKey) → (same_key a b ≡ true) ↔ (a ≡ b)
same_key_iff a b = ground arith

instance abbrev pub portmap_key_eq : Eq PortmapKey
portmap_key_eq = record { beq = same_key; beq_iff = same_key_iff }

abbrev pub PortmapTable : Type 0
PortmapTable = List (PortmapKey × ℕ)

-- `PortmapKey { prog: mapping.prog, vers: mapping.vers, prot: mapping.prot }`
abbrev pub key_of : Mapping → PortmapKey
key_of m = record { prog = m.prog; vers = m.vers; prot = m.prot }

abbrev pub key_with : Mapping → ℕ → PortmapKey
key_with m prot = record { prog = m.prog; vers = m.vers; prot = prot }

unfoldable pub get_port : PortmapTable → PortmapKey → Option ℕ
get_port table entry' = lookup entry' table

-- The part of `pmapproc_setport` under the lock; `mapping.port as u16` drops the high bits.
abbrev set_absent : Mapping → PortmapTable → Option ℕ → Bool × PortmapTable
set_absent m table none = (true, insert (key_of m) (m.port % 2 ^ 16) table)
set_absent m table (some _) = (false, table)

unfoldable pub set_port : Mapping → PortmapTable → Bool × PortmapTable
set_port m table = set_absent m table (lookup (key_of m) table)

abbrev pub is_some : Option ℕ → Bool
is_some none = false
is_some (some _) = true

-- The part of `pmapproc_unsetport` under the lock.
unfoldable pub unset_port : Mapping → PortmapTable → Bool × PortmapTable
unset_port m table =
    let tcp_removed = is_some (lookup (key_with m ipproto_tcp) table) in
    let table' = remove (key_with m ipproto_tcp) table in
    let udp_removed = is_some (lookup (key_with m ipproto_udp) table') in
    (tcp_removed || udp_removed, remove (key_with m ipproto_udp) table')

-- `|(entry, port)| mapping { prog: entry.prog, vers: entry.vers, .. }`
abbrev pub to_mapping : PortmapKey × ℕ → Mapping
to_mapping (k, port) = record { prog = k.prog; vers = k.vers; prot = k.prot; port = port }

-- `list_head = Some(pmaplist { map: *map, next: Box::from(list_head) })`
abbrev pub pushed : Next → Mapping → Next
pushed list_head map = just (entry map list_head)

-- The list of `pmapproc_dump`, which is put together from its end.
unfoldable pub dump_list : PortmapTable → Next
dump_list table = let entries = map to_mapping table in foldl pushed nothing (reverse entries)

abbrev port_or_zero : Option ℕ → ℕ
port_or_zero none = 0
port_or_zero (some port) = port

-- What a handler does with its arguments: an error of `deserialize` ends it, and changes nothing.
abbrev pub with_args {ℓ κ} :
    {A : Type ℓ} {S : Type κ} → Result Error (A × Bytes) → S → (A → Writer × S) → Writer × S
with_args (ok (a, rest)) s f = f a
with_args (err e) s f = (err e, s)

module _ ⦃order : ByteOrder⦄ where
  unfoldable pub pmapproc_null : ℕ → Writer
  pmapproc_null xid = rpc_msg_codec.serialize (make_success_reply xid)

  unfoldable pub pmapproc_getport : ℕ → Bytes → PortmapTable → Writer × PortmapTable
  pmapproc_getport xid read table = with_args (mapping_codec.deserialize read) table λ m.
      let result = port_or_zero (get_port table (key_of m)) in
      (rpc_msg_codec.serialize (make_success_reply xid) ⨾ u32.serialize result, table)

  unfoldable pub pmapproc_setport : ℕ → Bytes → PortmapTable → Writer × PortmapTable
  pmapproc_setport xid read table = with_args (mapping_codec.deserialize read) table λ m.
      let (result, table') = set_port m table in
      (rpc_msg_codec.serialize (make_success_reply xid) ⨾ bool.serialize result, table')

  unfoldable pub pmapproc_unsetport : ℕ → Bytes → PortmapTable → Writer × PortmapTable
  pmapproc_unsetport xid read table = with_args (mapping_codec.deserialize read) table λ m.
      let (result, table') = unset_port m table in
      (rpc_msg_codec.serialize (make_success_reply xid) ⨾ bool.serialize result, table')

  -- `sent.serialize` for a list, `0_u32.serialize` for none
  abbrev serialize_dump : Next → Writer
  serialize_dump nothing = u32.serialize 0
  serialize_dump (just p) = serialize_next (just p)

  unfoldable pub pmapproc_dump : ℕ → PortmapTable → Writer × PortmapTable
  pmapproc_dump xid table =
      (rpc_msg_codec.serialize (make_success_reply xid) ⨾ serialize_dump (dump_list table), table)

  abbrev run_program : Option PortmapProgram → ℕ → Bytes → PortmapTable → Writer × PortmapTable
  run_program (some PortmapProgram.pmapproc_null) xid input table = (pmapproc_null xid, table)
  run_program (some PortmapProgram.pmapproc_getport) xid input table =
      pmapproc_getport xid input table
  run_program (some PortmapProgram.pmapproc_set) xid input table = pmapproc_setport xid input table
  run_program (some PortmapProgram.pmapproc_dump) xid input table = pmapproc_dump xid table
  run_program (some PortmapProgram.pmapproc_unset) xid input table =
      pmapproc_unsetport xid input table
  run_program _ xid input table = (rpc_msg_codec.serialize (proc_unavail_reply_message xid), table)

  -- A number that names no program is `INVALID`, and falls to the last branch as `CALLIT` does.
  unfoldable pub handle_portmap : ℕ → CallBody → Bytes → PortmapTable → Writer × PortmapTable
  handle_portmap xid call input table =
      if call.vers == Messages.version
      then run_program (find_variant portmap_program_number portmap_programs call.proc) xid input
          table
      else (rpc_msg_codec.serialize (prog_mismatch_reply_message xid Messages.version), table)
