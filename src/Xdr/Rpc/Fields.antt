-- ===== src/Xdr/Rpc/Fields.antt =====
-- src/protocol/xdr/rpc.rs: round trips of the parts of a message.
use nfs_mamont_mirror.Prelude.{
  ℕ, ◌^◌, ◌<◌, refl, List, [], ◌∷◌, ◌++◌, append_assoc, length, length-append, All, arith,
}
use nfs_mamont_mirror.Xdr.Order.{ByteOrder}
use nfs_mamont_mirror.Xdr.Basic.{u32, find_variant, vec_u8}
use nfs_mamont_mirror.Xdr.RoundTrip.{RoundTrips, u32-RoundTrips, enum-RoundTrips, RoundTrips-then}
use nfs_mamont_mirror.Xdr.RoundTrip.Composite.{vec_u8-RoundTrips, vec-RoundTrips}
use nfs_mamont_mirror.Xdr.Rpc.{
  AuthFlavor, auth_null, AuthStat, auth_badcred, AuthUnix, OpaqueAuth, MismatchInfo,
  auth_stat_codec, auth_flavor_codec, auth_unix_codec, opaque_auth_codec, mismatch_info_codec,
  CallBody, call_body_codec,
}

abbrev pub IsU32 : ℕ → Type 0
IsU32 n = n < 2 ^ 32

abbrev pub CallBodyFits : CallBody → Type 0
CallBodyFits v =
    IsU32 v.rpcvers
    × IsU32 v.prog
    × IsU32 v.vers
    × IsU32 v.proc
    × IsU32 (length v.cred.body)
    × IsU32 (length v.verf.body)

module _ ⦃order : ByteOrder⦄ where
  u32s-RoundTrips : (l : List ℕ) → All IsU32 l → All (RoundTrips u32) l
  u32s-RoundTrips [] h = tt
  u32s-RoundTrips (n ∷ l) h = (u32-RoundTrips n h.0, u32s-RoundTrips l h.1)

  pub auth_flavor-RoundTrips : (f : AuthFlavor) → RoundTrips auth_flavor_codec f
  unfolding auth_flavor_codec find_variant
  auth_flavor-RoundTrips auth_null = enum-RoundTrips _ _ auth_null (omega arith) refl
  auth_flavor-RoundTrips f = enum-RoundTrips _ _ f (omega arith) refl

  pub auth_unix-RoundTrips :
      (v : AuthUnix)
      → IsU32 v.stamp
      → IsU32 (length v.machinename)
      → IsU32 v.uid
      → IsU32 v.gid
      → IsU32 (length v.gids)
      → All IsU32 v.gids
      → RoundTrips auth_unix_codec v
  unfolding auth_unix_codec
  auth_unix-RoundTrips v h1 h2 h3 h4 h5 h6 =
      let stamp = u32-RoundTrips v.stamp h1 in
      let name = vec_u8-RoundTrips v.machinename h2 in
      let uid = u32-RoundTrips v.uid h3 in
      let gid = u32-RoundTrips v.gid h4 in
      let gids = vec-RoundTrips u32 v.gids h5 (u32s-RoundTrips v.gids h6) in
      record {
        bytes = stamp.bytes ++ (name.bytes ++ (uid.bytes ++ (gid.bytes ++ gids.bytes)));
        written = rw (stamp.written, name.written, uid.written, gid.written, gids.written);
        aligned = grind (arith, length-append);
        reads =
            λ rest. simp (append_assoc, stamp.reads, name.reads, uid.reads, gid.reads, gids.reads);
      }

  pub opaque_auth-RoundTrips :
      (v : OpaqueAuth) → IsU32 (length v.body) → RoundTrips opaque_auth_codec v
  unfolding opaque_auth_codec
  opaque_auth-RoundTrips v h =
      RoundTrips-then auth_flavor_codec vec_u8 opaque_auth_codec (auth_flavor-RoundTrips v.flavor)
        (vec_u8-RoundTrips v.body h) refl (λ src mid rest e f. rw (e, f))

  pub auth_stat-RoundTrips : (f : AuthStat) → RoundTrips auth_stat_codec f
  unfolding auth_stat_codec find_variant
  auth_stat-RoundTrips auth_badcred = enum-RoundTrips _ _ auth_badcred (omega arith) refl
  auth_stat-RoundTrips f = enum-RoundTrips _ _ f (omega arith) refl

  pub mismatch_info-RoundTrips :
      (v : MismatchInfo) → IsU32 v.low → IsU32 v.high → RoundTrips mismatch_info_codec v
  unfolding mismatch_info_codec
  mismatch_info-RoundTrips v hl hh =
      RoundTrips-then u32 u32 mismatch_info_codec (u32-RoundTrips v.low hl)
        (u32-RoundTrips v.high hh) refl (λ src mid rest e f. rw (e, f))

  pub call_body-RoundTrips : (v : CallBody) → CallBodyFits v → RoundTrips call_body_codec v
  unfolding call_body_codec
  call_body-RoundTrips v h =
      let rpcvers = u32-RoundTrips v.rpcvers h.0 in
      let prog = u32-RoundTrips v.prog h.1 in
      let vers = u32-RoundTrips v.vers h.2 in
      let proc = u32-RoundTrips v.proc h.3 in
      let cred = opaque_auth-RoundTrips v.cred h.4 in
      let verf = opaque_auth-RoundTrips v.verf h.5 in
      record {
        bytes =
            rpcvers.bytes
            ++ (prog.bytes ++ (vers.bytes ++ (proc.bytes ++ (cred.bytes ++ verf.bytes))));
        written =
            rw (
              rpcvers.written, prog.written, vers.written, proc.written, cred.written, verf.written,
            );
        aligned = grind (arith, length-append);
        reads = λ rest. simp (
          append_assoc, rpcvers.reads, prog.reads, vers.reads, proc.reads, cred.reads, verf.reads,
        );
      }
