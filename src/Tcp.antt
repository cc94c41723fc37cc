-- ===== src/Tcp.antt =====
-- src/tcp.rs: the listener. The network is a parameter, a record of calls on a world `W` with
-- listeners `L` and sockets `K`. Text is its bytes.
pub mod Socket
pub mod Decimal
pub mod Export
pub mod Binding
pub mod Traffic
pub mod Served
use nfs_mamont_mirror.Prelude.{
  ℕ, zero, suc, ◌+◌, ◌-◌, ◌*◌, ◌/◌, ◌%◌, ◌^◌, Bool, true, false, ◌&&◌, not, Option, none, some,
  List, [], ◌∷◌, ◌++◌, ltb, leb, ◌==◌, if◌then◌else◌,
}
use nfs_mamont_mirror.Prelude.Result.{Result, ok, err}
use nfs_mamont_mirror.Xdr.Reader.{Bytes}
use nfs_mamont_mirror.Xdr.Rpc.{AuthUnix}
use nfs_mamont_mirror.Vfs.{NfsFileSystem, slash}
use nfs_mamont_mirror.Mount.Text.{trim_start_matches, trim_end_matches}
use nfs_mamont_mirror.Rpc.Tracker.{TransactionTracker, new, same_bytes}
use nfs_mamont_mirror.Rpc.Context.{Context, World}

-- `io::Error`: what the listener makes itself, and what the operating system gives.
pub data IoError : Type 0 where
  not_ip_port port_not_in_range cannot_bind_automatically : IoError
  os : ℕ → IoError

pub record Net {ℓ κ} (W : Type ℓ) (L K : Type κ) : Type (ℓ ⊔ κ) where
  -- `TcpListener::bind`
  pub listen : Bytes → W → Result IoError L × W
  -- `local_addr().unwrap()`, the address of a bound listener
  pub local_ip : L → Bytes
  pub local_port : L → ℕ
  pub accept : L → W → Result IoError K × W
  pub peer_addr : K → Result IoError Bytes

-- `Display` of a `u16`, which has five digits at most
abbrev pub digits : ℕ → ℕ → Bytes
digits zero n = []
digits (suc fuel) n =
    let rest = digits fuel (n / 10) in
    if ltb n 10 then (48 + n) ∷ [] else rest ++ (48 + n % 10) ∷ []

unfoldable pub decimal : ℕ → Bytes
decimal n = digits 5 n

abbrev pub is_digit : ℕ → Bool
is_digit c = leb 48 c && leb c 57

abbrev pub parse_digits : ℕ → Bytes → Option ℕ
parse_digits acc [] = some acc
parse_digits acc (c ∷ cs) =
    let next = acc * 10 + (c - 48) in
    let rest = parse_digits next cs in if is_digit c && ltb next (2 ^ 16) then rest else none

-- `parse::<u16>`, which takes a plus sign before the digits
unfoldable pub parse_u16 : Bytes → Option ℕ
parse_u16 [] = none
parse_u16 (c ∷ []) = parse_digits 0 (c ∷ [])
parse_u16 (c ∷ d ∷ cs) = if c == 43 then parse_digits 0 (d ∷ cs) else parse_digits 0 (c ∷ d ∷ cs)

abbrev pub colon : ℕ
colon = 58

abbrev pub in_front : ℕ → Option (Bytes × Bytes) → Option (Bytes × Bytes)
in_front c none = none
in_front c (some (before, after)) = some (c ∷ before, after)

-- `split_once(':')`
unfoldable pub split_once : Bytes → Option (Bytes × Bytes)
split_once [] = none
split_once (c ∷ cs) =
    let rest = split_once cs in if c == colon then some ([], cs) else in_front c rest

-- `127.88.`
abbrev pub host_prefix : Bytes
host_prefix = 49 ∷ 50 ∷ 55 ∷ 46 ∷ 56 ∷ 56 ∷ 46 ∷ []

unfoldable pub generate_host_ip : ℕ → Bytes
generate_host_ip hostnum =
    host_prefix ++ decimal (hostnum / 2 ^ 8 % 2 ^ 8) ++ 46 ∷ decimal (hostnum % 2 ^ 8)

-- `auto`
abbrev pub auto : Bytes
auto = 97 ∷ 117 ∷ 116 ∷ 111 ∷ []

-- The tracker and the port mapper's table, which connections share, are in the `World`.
pub record NfsTcpListener {ℓ κ} (L : Type κ) (S : Type ℓ) : Type (ℓ ⊔ κ) where
  pub listener : L
  pub port : ℕ
  pub arcfs : NfsFileSystem S
  pub mount_signal : Bool
  pub export_name : Bytes

-- Sixty seconds, in nanoseconds.
abbrev pub retention : ℕ
retention = 60 * 10 ^ 9

abbrev pub new_world {ℓ} : {S : Type ℓ} → S → World S
new_world s = record {
  fs = s;
  transaction_tracker = new retention;
  portmap_table = [];
  signals = [];
}

-- `auth_unix::default()`
abbrev pub no_auth : AuthUnix
no_auth = record { stamp = 0; machinename = []; uid = 0; gid = 0; gids = [] }

abbrev pub ip_port : Bytes → ℕ → Bytes
ip_port ip port = ip ++ colon ∷ decimal port

abbrev pub num_tries : ℕ
num_tries = 32

module _ {ℓ κ ν} {W : Type ℓ} {L K : Type κ} {S : Type ν} (net : Net W L K) where
  abbrev pub listening : NfsFileSystem S → Result IoError L → Result IoError (NfsTcpListener L S)
  listening fs (err e) = err e
  listening fs (ok listener) = ok record {
    listener = listener;
    port = net.local_port listener;
    arcfs = fs;
    mount_signal = false;
    export_name = slash ∷ [];
  }

  unfoldable pub bind_internal :
      Bytes → ℕ → NfsFileSystem S → W → Result IoError (NfsTcpListener L S) × W
  bind_internal ip port fs w =
      let (result, w') = net.listen (ip_port ip port) w in (listening fs result, w')

  abbrev pub or_next :
      (W → Result IoError (NfsTcpListener L S) × W)
      → Result IoError (NfsTcpListener L S) × W
      → Result IoError (NfsTcpListener L S) × W
  or_next next (ok self, w) = (ok self, w)
  or_next next (err e, w) = next w

  -- The loop over `tries` more host numbers, from `try_ip` on.
  unfoldable pub bind_automatically :
      ℕ → ℕ → ℕ → NfsFileSystem S → W → Result IoError (NfsTcpListener L S) × W
  bind_automatically zero try_ip port fs w = (err cannot_bind_automatically, w)
  bind_automatically (suc tries) try_ip port fs w =
      or_next (bind_automatically tries (suc try_ip) port fs)
        (bind_internal (generate_host_ip try_ip) port fs w)

  abbrev pub bind_port :
      Bytes → Option ℕ → NfsFileSystem S → W → Result IoError (NfsTcpListener L S) × W
  bind_port ip none fs w = (err port_not_in_range, w)
  bind_port ip (some port) fs w =
      if same_bytes ip auto
      then bind_automatically num_tries 1 port fs w
      else bind_internal ip port fs w

  abbrev pub bind_parts :
      Option (Bytes × Bytes) → NfsFileSystem S → W → Result IoError (NfsTcpListener L S) × W
  bind_parts none fs w = (err not_ip_port, w)
  bind_parts (some (ip, port)) fs w = bind_port ip (parse_u16 port) fs w

  unfoldable pub bind : Bytes → NfsFileSystem S → W → Result IoError (NfsTcpListener L S) × W
  bind ipstr fs w = bind_parts (split_once ipstr) fs w

  unfoldable pub with_export_name : NfsTcpListener L S → Bytes → NfsTcpListener L S
  with_export_name self export_name = record self {
    export_name = slash ∷ trim_start_matches slash (trim_end_matches slash export_name);
  }

  abbrev pub get_listen_port : NfsTcpListener L S → ℕ
  get_listen_port self = net.local_port self.listener

  abbrev pub get_listen_ip : NfsTcpListener L S → Bytes
  get_listen_ip self = net.local_ip self.listener

  abbrev pub set_mount_listener : NfsTcpListener L S → NfsTcpListener L S
  set_mount_listener self = record self { mount_signal = true }

  -- The context of one connection.
  abbrev pub context_of : NfsTcpListener L S → Bytes → Context S
  context_of self client_addr = record {
    local_port = self.port;
    client_addr = client_addr;
    auth = no_auth;
    vfs = self.arcfs;
    mount_signal = self.mount_signal;
    export_name = self.export_name;
  }

  abbrev pub accepted :
      NfsTcpListener L S → K → Result IoError Bytes → Result IoError (K × Context S)
  accepted self socket (err e) = err e
  accepted self socket (ok client_addr) = ok (socket, context_of self client_addr)

  abbrev pub taken : NfsTcpListener L S → Result IoError K × W → Result IoError (K × Context S) × W
  taken self (err e, w) = (err e, w)
  taken self (ok socket, w) = (accepted self socket (net.peer_addr socket), w)

  abbrev pub and_more :
      (W → List (K × Context S) × Option IoError × W)
      → Result IoError (K × Context S) × W
      → List (K × Context S) × Option IoError × W
  and_more rest (err e, w) = ([], some e, w)
  and_more rest (ok connection, w) = let (more, end, w') = rest w in (connection ∷ more, end, w')

  -- `handle_forever` for some rounds: the connections it has spawned a task for, and the error
  -- with which it has returned, if it has.
  unfoldable pub handle_forever :
      ℕ → NfsTcpListener L S → W → List (K × Context S) × Option IoError × W
  handle_forever zero self w = ([], none, w)
  handle_forever (suc rounds) self w =
      and_more (handle_forever rounds self) (taken self (net.accept self.listener w))
