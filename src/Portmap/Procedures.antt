-- ===== src/Portmap/Procedures.antt =====
-- src/protocol/nfs/portmap: what a client reads in the answers.
use nfs_mamont_mirror.Prelude.{ℕ, ◌%◌, ◌^◌, ◌≡◌, refl, none, [], ◌++◌, arith, append-nil}
use nfs_mamont_mirror.Prelude.Result.{ok}
use nfs_mamont_mirror.Xdr.Reader.{Bytes, Writer, ◌⨾◌, Codec}
use nfs_mamont_mirror.Xdr.Order.{ByteOrder}
use nfs_mamont_mirror.Xdr.Basic.{u32, bool}
use nfs_mamont_mirror.Xdr.RoundTrip.{RoundTrips, u32-RoundTrips, bool-RoundTrips}
use nfs_mamont_mirror.Xdr.Rpc.{RpcMsg, rpc_msg_codec, make_success_reply}
use nfs_mamont_mirror.Xdr.Rpc.Fields.{IsU32}
use nfs_mamont_mirror.Xdr.Rpc.RoundTrip.{RpcMsgFits, rpc_msg-RoundTrips}
use nfs_mamont_mirror.Xdr.Portmap.{Mapping, mapping_codec}
use nfs_mamont_mirror.Portmap.{
  PortmapTable, key_of, get_port, port_or_zero, set_port, unset_port, pmapproc_getport,
  pmapproc_setport, pmapproc_unsetport, same_key_iff,
}
use nfs_mamont_mirror.Portmap.Table.{IsValid, port_or_zero-lt, get_port-set_port, set_port-IsValid}

module _ ⦃order : ByteOrder⦄ where
  -- The bytes are an RPC message followed by one value of the codec, and nothing else.
  pub record Answers {ℓ} {A : Type ℓ} (c : Codec A) (msg : RpcMsg) (a : A) (out : Writer)
      : Type ℓ where
    pub bytes : Bytes
    pub tail : Bytes
    pub written : out ≡ ok bytes
    pub message : rpc_msg_codec.deserialize bytes ≡ ok (msg, tail)
    pub value : c.deserialize tail ≡ ok (a, [])

  pub answers {ℓ} :
      {A : Type ℓ} (c : Codec A) (msg : RpcMsg) (a : A)
      → RpcMsgFits msg
      → RoundTrips c a
      → Answers c msg a (rpc_msg_codec.serialize msg ⨾ c.serialize a)
  answers c msg a fits w =
      let m = rpc_msg-RoundTrips msg fits in
      record {
        bytes = m.bytes ++ w.bytes;
        tail = w.bytes;
        written = rw (m.written, w.written);
        message = m.reads w.bytes;
        value = rw append-nil at (w.reads []);
      }

  pub success-RpcMsgFits : (xid : ℕ) → IsU32 xid → RpcMsgFits (make_success_reply xid)
  unfolding make_success_reply
  success-RpcMsgFits xid h = omega arith

  -- GETPORT answers a success with the port of the program, and 0 if the table has none, and
  -- leaves the table as it is.
  pub pmapproc_getport_lem :
      (xid : ℕ) (read rest : Bytes) (m : Mapping) (table : PortmapTable)
      → IsU32 xid
      → IsValid table
      → mapping_codec.deserialize read ≡ ok (m, rest)
      → Answers u32
          (make_success_reply xid)
          (port_or_zero (get_port table (key_of m)))
          (pmapproc_getport xid read table).0
        × ((pmapproc_getport xid read table).1 ≡ table)
  unfolding pmapproc_getport
  pmapproc_getport_lem xid read rest m table h v e =
      let port = port_or_zero (get_port table (key_of m)) in
      let small = port_or_zero-lt table (key_of m) v.ports in
      rw e (
        answers u32 (make_success_reply xid) port (success-RpcMsgFits xid h)
            (u32-RoundTrips port (omega arith)),
        refl,
      )

  -- SET answers a success with the Boolean of `set_port`, and leaves the table of `set_port`.
  pub pmapproc_setport_lem :
      (xid : ℕ) (read rest : Bytes) (m : Mapping) (table : PortmapTable)
      → IsU32 xid
      → mapping_codec.deserialize read ≡ ok (m, rest)
      → Answers bool
          (make_success_reply xid)
          (set_port m table).0
          (pmapproc_setport xid read table).0
        × ((pmapproc_setport xid read table).1 ≡ (set_port m table).1)
  unfolding pmapproc_setport
  pmapproc_setport_lem xid read rest m table h e =
      let done = (set_port m table).0 in
      rw e (
        answers bool (make_success_reply xid) done (success-RpcMsgFits xid h)
            (bool-RoundTrips done),
        refl,
      )

  -- UNSET answers a success with the Boolean of `unset_port`, and leaves the table of it.
  pub pmapproc_unsetport_lem :
      (xid : ℕ) (read rest : Bytes) (m : Mapping) (table : PortmapTable)
      → IsU32 xid
      → mapping_codec.deserialize read ≡ ok (m, rest)
      → Answers bool
          (make_success_reply xid)
          (unset_port m table).0
          (pmapproc_unsetport xid read table).0
        × ((pmapproc_unsetport xid read table).1 ≡ (unset_port m table).1)
  unfolding pmapproc_unsetport
  pmapproc_unsetport_lem xid read rest m table h e =
      let done = (unset_port m table).0 in
      rw e (
        answers bool (make_success_reply xid) done (success-RpcMsgFits xid h)
            (bool-RoundTrips done),
        refl,
      )

  setport_table :
      (xid : ℕ) (read rest : Bytes) (m : Mapping) (table : PortmapTable)
      → mapping_codec.deserialize read ≡ ok (m, rest)
      → (pmapproc_setport xid read table).1 ≡ (set_port m table).1
  unfolding pmapproc_setport
  setport_table xid read rest m table e = rw e

  registered :
      (m q : Mapping) (table : PortmapTable)
      → key_of q ≡ key_of m
      → get_port table (key_of m) ≡ none
      → port_or_zero (get_port (set_port m table).1 (key_of q)) ≡ m.port % 2 ^ 16
  registered m q table same absent =
      ground (arith, (get_port-set_port m table (key_of q)).0, same_key_iff (key_of m) (key_of q))

  -- A client that registers a program nobody has registered, and then asks for it, is told the
  -- low 16 bits of the port that it gave; both requests are well-formed bytes.
  pub getport-setport :
      (xid yid : ℕ) (set_read get_read rest rest' : Bytes) (m q : Mapping) (table : PortmapTable)
      → IsU32 yid
      → IsValid table
      → mapping_codec.deserialize set_read ≡ ok (m, rest)
      → mapping_codec.deserialize get_read ≡ ok (q, rest')
      → key_of q ≡ key_of m
      → get_port table (key_of m) ≡ none
      → Answers u32
          (make_success_reply yid)
          (m.port % 2 ^ 16)
          (pmapproc_getport yid get_read (pmapproc_setport xid set_read table).1).0
  getport-setport xid yid set_read get_read rest rest' m q table h v e f same absent =
      let table' = (set_port m table).1 in
      let (answer, _) =
        pmapproc_getport_lem yid get_read rest' q table' h (set_port-IsValid m table v) f in
      rw (setport_table xid set_read rest m table e)
        (rw (registered m q table same absent) at answer)

  -- The bytes are an RPC message with this `xid`, and whatever result follows it.
  pub record Replies (xid : ℕ) (out : Writer) : Type 0 where
    pub bytes : Bytes
    pub tail : Bytes
    pub msg : RpcMsg
    pub written : out ≡ ok bytes
    pub message : rpc_msg_codec.deserialize bytes ≡ ok (msg, tail)
    pub same_xid : msg.xid ≡ xid

  pub replies :
      (msg : RpcMsg) (out : Writer) {tail : Bytes}
      → RpcMsgFits msg
      → out ≡ ok tail
      → Replies msg.xid (rpc_msg_codec.serialize msg ⨾ out)
  replies msg out {tail} fits e =
      let m = rpc_msg-RoundTrips msg fits in
      record {
        bytes = m.bytes ++ tail;
        tail = tail;
        msg = msg;
        written = rw (m.written, e);
        message = m.reads tail;
        same_xid = refl;
      }

  pub replies_alone :
      (msg : RpcMsg) → RpcMsgFits msg → Replies msg.xid (rpc_msg_codec.serialize msg)
  replies_alone msg fits =
      let m = rpc_msg-RoundTrips msg fits in
      record {
        bytes = m.bytes;
        tail = [];
        msg = msg;
        written = m.written;
        message = rw append-nil at (m.reads []);
        same_xid = refl;
      }
