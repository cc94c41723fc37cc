-- ===== src/Mount/Root.antt =====
-- src/protocol/nfs/mount/mnt.rs: mounting the export itself.
use nfs_mamont_mirror.Prelude.{
  ℕ, zero, suc, List, replicate, append_assoc, ◌≡◌, refl, ap, true, some, [], ◌∷◌, ◌++◌, length,
  length-append, append-nil, All, ==_refl, arith, Option-cases, inl, inr, Bool-cases,
}
use nfs_mamont_mirror.Prelude.Result.{ok}
use nfs_mamont_mirror.Prelude.Endian.{to_le_bytes, length-to_le_bytes}
use nfs_mamont_mirror.Xdr.Reader.{Bytes, ◌⨾◌, Writer}
use nfs_mamont_mirror.Xdr.Order.{ByteOrder}
use nfs_mamont_mirror.Xdr.Basic.{u32, vec_u8, vec, find_variant}
use nfs_mamont_mirror.Xdr.RoundTrip.{RoundTrips, RoundTrips-then, enum-RoundTrips, u32-RoundTrips}
use nfs_mamont_mirror.Xdr.RoundTrip.Composite.{vec_u8-RoundTrips, vec-RoundTrips}
use nfs_mamont_mirror.Xdr.Rpc.{rpc_msg_codec, make_success_reply}
use nfs_mamont_mirror.Xdr.Rpc.Fields.{IsU32}
use nfs_mamont_mirror.Xdr.Rpc.RoundTrip.{rpc_msg-RoundTrips}
use nfs_mamont_mirror.Xdr.Mount.{
  mnt3_ok, mountstat3_number, mountstat3s, mountstat3_codec, MountRes3Ok, mountres3_ok_codec,
}
use nfs_mamont_mirror.Vfs.{NfsFileSystem, slash, split, walk, path_to_id, id_to_fh}
use nfs_mamont_mirror.Rpc.Context.{Context, World, send_signal}
use nfs_mamont_mirror.Portmap.Procedures.{success-RpcMsgFits}
use nfs_mamont_mirror.Mount.{answer_status, path_below, mounted, mountproc3_mnt}
use nfs_mamont_mirror.Mount.Text.{
  is_utf8, from_utf8_or_default, strip_prefix, trim_start_matches, trim_end_matches, trim,
  trim_from, following, between,
}

strip_prefix-append : (text rest : Bytes) → strip_prefix text (text ++ rest) ≡ some rest
unfolding strip_prefix
strip_prefix-append [] rest = refl
strip_prefix-append (b ∷ text) rest = rw (==_refl b, strip_prefix) (strip_prefix-append text rest)

trim_slashes : (n : ℕ) → trim_start_matches slash (replicate n slash) ≡ []
unfolding trim_start_matches
trim_slashes zero = refl
trim_slashes (suc n) = trim_slashes n

root_path : (n : ℕ) → path_below (replicate n slash) ≡ slash ∷ []
unfolding path_below trim trim_from trim_end_matches
root_path n = rw (trim_slashes n)

slashes_utf8 : (n : ℕ) → is_utf8 [] (replicate n slash) ≡ true
unfolding is_utf8 following
slashes_utf8 zero = refl
slashes_utf8 (suc n) = slashes_utf8 n

is_utf8-append :
    (ranges : List (ℕ × ℕ)) (a b : Bytes)
    → is_utf8 ranges a ≡ true
    → is_utf8 [] b ≡ true
    → is_utf8 ranges (a ++ b) ≡ true
unfolding is_utf8
is_utf8-append [] [] b h k = k
is_utf8-append (r ∷ ranges) [] b h k = cc
is_utf8-append [] (c ∷ a) b h k = elim (Option-cases (following c)) [
  | inl e ↦ cc (rw (e, is_utf8) at h)
  | inr (ranges, e) ↦ rw (e, is_utf8) (is_utf8-append ranges a b (rw (e, is_utf8) at h) k)
]
is_utf8-append ((low, high) ∷ ranges) (c ∷ a) b h k = elim (Bool-cases (between low high c)) [
  | inl e ↦ rw e (is_utf8-append ranges a b (rw e at h) k)
  | inr e ↦ cc (rw e at h)
]

module _ {ℓ} {S : Type ℓ} (vfs : NfsFileSystem S) where
  path_to_id_root : (s : S) → path_to_id vfs (slash ∷ []) s ≡ (ok vfs.root_dir, s)
  unfolding path_to_id split walk
  path_to_id_root s = refl

  length-handle : (id : ℕ) → length (id_to_fh vfs id).bytes ≡ 16
  unfolding id_to_fh
  length-handle id = omega (
    arith,
    length-append (to_le_bytes 8 vfs.generation) (to_le_bytes 8 id),
    length-to_le_bytes 8 vfs.generation,
    length-to_le_bytes 8 id,
  )

module _ ⦃order : ByteOrder⦄ where
  status-RoundTrips : RoundTrips mountstat3_codec mnt3_ok
  unfolding mountstat3_codec find_variant
  status-RoundTrips = enum-RoundTrips mountstat3_number mountstat3s mnt3_ok (omega arith) refl

  mountres3_ok-RoundTrips :
      (v : MountRes3Ok)
      → IsU32 (length v.fhandle)
      → IsU32 (length v.auth_flavors)
      → All IsU32 v.auth_flavors
      → RoundTrips mountres3_ok_codec v
  unfolding mountres3_ok_codec
  mountres3_ok-RoundTrips v h k all =
      RoundTrips-then vec_u8 (vec u32) mountres3_ok_codec (vec_u8-RoundTrips v.fhandle h)
        (vec-RoundTrips u32 v.auth_flavors k (words v.auth_flavors all)) refl
        (λ src mid rest e f. rw (e, f))
    where
      words : (l : List ℕ) → All IsU32 l → All (RoundTrips u32) l
      words [] h = tt
      words (n ∷ l) h = (u32-RoundTrips n h.0, words l h.1)

  -- The bytes are a success, `MNT3_OK`, and the result, and nothing else.
  pub record MountAnswer (xid : ℕ) (res : MountRes3Ok) (out : Writer) : Type 0 where
    pub bytes : Bytes
    pub after_message : Bytes
    pub after_status : Bytes
    pub written : out ≡ ok bytes
    pub message : rpc_msg_codec.deserialize bytes ≡ ok (make_success_reply xid, after_message)
    pub status : mountstat3_codec.deserialize after_message ≡ ok (mnt3_ok, after_status)
    pub result : mountres3_ok_codec.deserialize after_status ≡ ok (res, [])

  mount_answer :
      (xid : ℕ) (res : MountRes3Ok)
      → IsU32 xid
      → RoundTrips mountres3_ok_codec res
      → MountAnswer xid res (answer_status xid mnt3_ok ⨾ mountres3_ok_codec.serialize res)
  mount_answer xid res h v =
      let m = rpc_msg-RoundTrips (make_success_reply xid) (success-RpcMsgFits xid h) in
      let s = status-RoundTrips in
      record {
        bytes = m.bytes ++ (s.bytes ++ v.bytes);
        after_message = s.bytes ++ v.bytes;
        after_status = v.bytes;
        written =
            rw (m.written, s.written, v.written) (ap ok (append_assoc m.bytes s.bytes v.bytes));
        message = m.reads (s.bytes ++ v.bytes);
        status = s.reads v.bytes;
        result = rw append-nil at (v.reads []);
      }

module _ {ℓ} {S : Type ℓ} ⦃order : ByteOrder⦄ where
  -- A client that mounts the export by its name, which is UTF-8 text, with any number of slashes
  -- after it, is answered a success and the handle of the root directory; the file system is left
  -- alone, and a mount is signalled if there is a channel.
  pub mountproc3_mnt-root :
      (xid : ℕ) (input rest : Bytes) (slashes : ℕ) (context : Context S) (w : World S)
      → IsU32 xid
      → is_utf8 [] context.export_name ≡ true
      → vec_u8.deserialize input ≡ ok (context.export_name ++ replicate slashes slash, rest)
      → MountAnswer xid
          (mounted context context.vfs.root_dir)
          (mountproc3_mnt xid input context w).0
        × ((mountproc3_mnt xid input context w).1 ≡ send_signal context true w)
  unfolding mountproc3_mnt from_utf8_or_default
  mountproc3_mnt-root xid input rest slashes context w h text e =
      let name = context.export_name in
      let whole = is_utf8-append [] name (replicate slashes slash) text (slashes_utf8 slashes) in
      let res = mounted context context.vfs.root_dir in
      let fits : IsU32 (length (mounted context context.vfs.root_dir).fhandle) =
        omega (arith, length-handle context.vfs context.vfs.root_dir) in
      rw
        (
          e,
          whole,
          strip_prefix-append name (replicate slashes slash),
          root_path slashes,
          path_to_id_root context.vfs w.fs,
        )
        (
          mount_answer xid res h
              (mountres3_ok-RoundTrips res fits (omega arith) (omega arith, (omega arith, tt))),
          refl,
        )
