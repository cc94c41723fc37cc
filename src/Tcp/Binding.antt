-- ===== src/Tcp/Binding.antt =====
-- src/tcp.rs: `bind` on an address, and on `auto`, which takes the first host that is free.
use nfs_mamont_mirror.Prelude.{
  ℕ, zero, suc, ◌^◌, ◌<◌, ◌≡◌, ◌≢◌, refl, false, Option, some, none, List, [], ◌∷◌, ◌++◌, ==_iff,
  arith, map,
}
use nfs_mamont_mirror.Prelude.Result.{Result, ok, err}
use nfs_mamont_mirror.Xdr.Reader.{Bytes}
use nfs_mamont_mirror.Vfs.{NfsFileSystem}
use nfs_mamont_mirror.Rpc.Tracker.{same_bytes}
use nfs_mamont_mirror.Tcp.{
  Net, NfsTcpListener, IoError, cannot_bind_automatically, colon, split_once, auto, decimal,
  generate_host_ip, ip_port, bind_internal, bind_automatically, bind, listening,
}
use nfs_mamont_mirror.Tcp.Decimal.{parse_u16-decimal}

-- A text without a colon.
abbrev pub NoColon : Bytes → Type 0
NoColon [] = Unit
NoColon (c ∷ text) = (c ≢ colon) × NoColon text

split_once-colon :
    (before after : Bytes)
    → NoColon before
    → split_once (before ++ colon ∷ after) ≡ some (before, after)
unfolding split_once
split_once-colon [] after h = refl
split_once-colon (c ∷ before) after (h, k) =
    ground (arith, ==_iff c colon, split_once-colon before after k)

module _ {ℓ κ} {W : Type ℓ} {L K : Type κ} (net : Net W L K) where
  -- What comes of some addresses that are tried in turn: the first one that the operating system
  -- lets be bound, or nothing when it refuses them all; and what the world is after that.
  pub data FirstFree : List Bytes → W → Option L → W → Type (ℓ ⊔ κ) where
    all_refused : {w : W} → FirstFree [] w none w
    refused :
        {address : Bytes} {addresses : List Bytes} {w w' last : W} {e : IoError} {found : Option L}
        → net.listen address w ≡ (err e, w')
        → FirstFree addresses w' found last
        → FirstFree (address ∷ addresses) w found last
    free :
        {address : Bytes} {addresses : List Bytes} {w w' : W} {listener : L}
        → net.listen address w ≡ (ok listener, w')
        → FirstFree (address ∷ addresses) w (some listener) w'

-- The numbers from one on.
abbrev pub from : ℕ → ℕ → List ℕ
from first zero = []
from first (suc n) = first ∷ from (suc first) n

-- The addresses of the hosts with these numbers.
abbrev pub hosts : ℕ → List ℕ → List Bytes
hosts port = map (λ n. ip_port (generate_host_ip n) port)

module _ {ℓ κ ν} {W : Type ℓ} {L K : Type κ} {S : Type ν} (net : Net W L K) where
  abbrev pub result_of : NfsFileSystem S → Option L → Result IoError (NfsTcpListener L S)
  result_of fs none = err cannot_bind_automatically
  result_of fs (some listener) = listening net fs (ok listener)

  bind_automatically-FirstFree :
      (tries first port : ℕ) (fs : NfsFileSystem S) {w w' : W} {found : Option L}
      → FirstFree net (hosts port (from first tries)) w found w'
      → bind_automatically net tries first port fs w ≡ (result_of fs found, w')
  unfolding bind_automatically bind_internal
  bind_automatically-FirstFree zero first port fs all_refused = refl
  bind_automatically-FirstFree (suc tries) first port fs (refused h later) =
      rw h (bind_automatically-FirstFree tries (suc first) port fs later)
  bind_automatically-FirstFree (suc tries) first port fs (free h) = rw h refl

  -- `auto` with a port of 16 bits takes the first of the thirty-two hosts, in the order of their
  -- numbers, whose address with that port can be bound, and tries no other after it; when none can
  -- be bound, the answer is the error that says so.
  pub bind-auto :
      (port : ℕ) (fs : NfsFileSystem S) {w w' : W} {found : Option L}
      → port < 2 ^ 16
      → FirstFree net (hosts port (from 1 32)) w found w'
      → bind net (ip_port auto port) fs w ≡ (result_of fs found, w')
  unfolding bind split_once
  bind-auto port fs h tried =
      rw (parse_u16-decimal port h) (bind_automatically-FirstFree 32 1 port fs tried)

  -- An address that is an IP address without a colon, and a port, is bound as it stands.
  pub bind-address :
      (ip : Bytes) (port : ℕ) (fs : NfsFileSystem S) (w : W)
      → NoColon ip
      → same_bytes ip auto ≡ false
      → port < 2 ^ 16
      → bind net (ip_port ip port) fs w
        ≡ (listening net fs (net.listen (ip_port ip port) w).0, (net.listen (ip_port ip port) w).1)
  unfolding bind bind_internal
  bind-address ip port fs w plain other h =
      rw (split_once-colon ip (decimal port) plain, parse_u16-decimal port h, other) refl
