-- ===== src/Tests/Dispatch.antt =====
-- Whole messages to the server.
use nfs_mamont_mirror.Prelude.{ℕ, ◌≡◌, refl, false, [], ◌∷◌, ◌⊎◌, arith}
use nfs_mamont_mirror.Prelude.Result.{ok, err}
use nfs_mamont_mirror.Xdr.Reader.{Bytes, unexpected_eof}
use nfs_mamont_mirror.Rpc.Dispatch.{Readings, handle_rpc}
use nfs_mamont_mirror.Rpc.Dispatch.AtMostOnce.{SameService, IsCall, handle_rpc-retransmission}
use nfs_mamont_mirror.Rpc.Dispatch.Guards.{Ran, handle_rpc_guarded}
use nfs_mamont_mirror.Tests.{order, program, client, start, call_of, words}

-- A CALL with the `xid` 7 and no credentials.
abbrev message : ℕ → ℕ → ℕ → Bytes
message rpcvers prog vers = words (7 ∷ 0 ∷ rpcvers ∷ prog ∷ vers ∷ 0 ∷ 0 ∷ 0 ∷ 0 ∷ 0 ∷ [])

abbrev nfs_call : Bytes
nfs_call = message 2 100003 3

abbrev at_100 : Readings
at_100 = record { received = 100; finished = 110 }

abbrev at_150 : Readings
at_150 = record { received = 150; finished = 151 }

nfs_IsCall : IsCall nfs_call client 7 (call_of 2 100003 3) [] client
nfs_IsCall = record {
  message = unfold program in refl;
  identity = unfold program in refl;
  version = refl;
}

handle_rpc-retransmission_example :
    ((handle_rpc at_150 nfs_call client (handle_rpc at_100 nfs_call client start).1).0
      ≡ ok (false, []))
    × SameService
        (handle_rpc at_150 nfs_call client (handle_rpc at_100 nfs_call client start).1).1
        (handle_rpc at_100 nfs_call client start).1
handle_rpc-retransmission_example =
    handle_rpc-retransmission at_100 at_150 nfs_call [] nfs_call [] 7 (call_of 2 100003 3)
      (call_of 2 100003 3) client client client client start tt nfs_IsCall nfs_IsCall refl
      (unfold program in refl) (omega arith)

handle_rpc_guarded_example :
    SameService (handle_rpc at_100 nfs_call client start).1 start ⊎ Ran at_100 nfs_call client start
handle_rpc_guarded_example = handle_rpc_guarded at_100 nfs_call client start

acl_IsCall : IsCall (message 2 100227 3) client 7 (call_of 2 100227 3) [] client
acl_IsCall = record {
  message = unfold program in refl;
  identity = unfold program in refl;
  version = refl;
}

-- A message that ends too early is an error, and changes nothing.
cut_short : handle_rpc at_100 (words (7 ∷ 0 ∷ [])) client start ≡ (err unexpected_eof, start)
unfolding program
cut_short = refl
