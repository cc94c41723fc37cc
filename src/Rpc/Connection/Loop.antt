-- ===== src/Rpc/Connection/Loop.antt =====
-- src/protocol/rpc/wire.rs, src/tcp.rs: the reading task ends, one read at a time.
use nfs_mamont_mirror.Prelude.{
  ℕ, zero, suc, ◌+◌, ◌≤◌, ◌<◌, ◌≡◌, sym, ap, Bool, some, length, length-append, arith, inl, ◌∙◌,
  inr,
}
use nfs_mamont_mirror.Prelude.Result.{ok, err, >>=-eq-ok, Result-cases}
use nfs_mamont_mirror.Xdr.Reader.{Bytes, Error, read_exact, read_exact_parts}
use nfs_mamont_mirror.Rpc.Fragment.{read_fragment}
use nfs_mamont_mirror.Rpc.Connection.{SocketMessageHandler, finish_read, read, message_loop, run}

length-read_exact :
    (n : ℕ) (src : Bytes) {bs rest : Bytes}
    → read_exact n src ≡ ok (bs, rest)
    → length src ≡ n + length rest
length-read_exact n src {bs} {rest} h =
    let (e, k) = read_exact_parts n src h in omega (arith, ap length e, length-append bs rest)

read_fragment_shorter :
    (append_to src : Bytes) {r : Bool × Bytes} {rest : Bytes}
    → read_fragment append_to src ≡ ok (r, rest)
    → length rest + 4 ≤ length src
unfolding read_fragment
read_fragment_shorter append_to src {r} {rest} h =
    let ((header, mid), e1, k1) = >>=-eq-ok (read_exact 4 src) _ h in
    let ((bytes, left), e2, k2) = >>=-eq-ok (read_exact _ mid) _ k1 in
    let same : left ≡ rest = cc k2 in
    omega (arith, length-read_exact 4 src e1, length-read_exact _ mid e2, ap length same)

module _ {ℓ} {C : Type ℓ} where
  read_shorter :
      (self self' : SocketMessageHandler C) (socket rest : Bytes)
      → read self socket ≡ ok (self', rest)
      → length rest < length socket
  unfolding read
  read_shorter self self' socket rest h =
      let ((r, left), e1, k1) = >>=-eq-ok (read_fragment self.cur_fragment socket) _ h in
      let (s, e2, k2) = >>=-eq-ok (finish_read self r.0 r.1) _ k1 in
      let same : left ≡ rest = cc k2 in
      omega (arith, read_fragment_shorter self.cur_fragment socket e1, ap length same)

  message_loop_ok :
      (fuel : ℕ) (self self' : SocketMessageHandler C) (socket rest : Bytes)
      → read self socket ≡ ok (self', rest)
      → message_loop (suc fuel) self socket ≡ message_loop fuel self' rest
  unfolding message_loop
  message_loop_ok fuel self self' socket rest h = rw (h, message_loop)

  message_loop_err :
      (fuel : ℕ) (self : SocketMessageHandler C) (socket : Bytes) (e : Error)
      → read self socket ≡ err e
      → message_loop (suc fuel) self socket ≡ some self
  unfolding message_loop
  message_loop_err fuel self socket e h = rw (h, message_loop)

  message_loop_total :
      (fuel : ℕ) (self : SocketMessageHandler C) (socket : Bytes)
      → length socket < fuel
      → (self' : SocketMessageHandler C) × (message_loop fuel self socket ≡ some self')
  message_loop_total zero self socket h = absurd (omega arith)
  message_loop_total (suc fuel) self socket h = elim (Result-cases (read self socket)) [
    | inl ((next, rest), e) ↦
        let shorter = read_shorter self next socket rest e in
        let (self', done) = message_loop_total fuel next rest (omega arith) in
        (self', message_loop_ok fuel self next socket rest e ∙ done)
    | inr (x, e) ↦ (self, message_loop_err fuel self socket x e)
  ]

  message_loop_fuel :
      (fuel more : ℕ) (self : SocketMessageHandler C) (socket : Bytes)
      → length socket < fuel
      → length socket < more
      → message_loop fuel self socket ≡ message_loop more self socket
  message_loop_fuel zero more self socket h k = absurd (omega arith)
  message_loop_fuel (suc fuel) zero self socket h k = absurd (omega arith)
  message_loop_fuel (suc fuel) (suc more) self socket h k = elim (Result-cases (read self socket)) [
    | inl ((next, rest), e) ↦
        let shorter = read_shorter self next socket rest e in
        message_loop_ok fuel self next socket rest e
        ∙ message_loop_fuel fuel more next rest (omega arith) (omega arith)
        ∙ sym (message_loop_ok more self next socket rest e)
    | inr (x, e) ↦
        message_loop_err fuel self socket x e ∙ sym (message_loop_err more self socket x e)
  ]

  -- The reading task ends on every input.
  pub run_total :
      (self : SocketMessageHandler C) (socket : Bytes)
      → (self' : SocketMessageHandler C) × (run self socket ≡ some self')
  unfolding run
  run_total self socket = message_loop_total (suc (length socket)) self socket (omega arith)

  pub run_ok :
      (self self' : SocketMessageHandler C) (socket rest : Bytes)
      → read self socket ≡ ok (self', rest)
      → run self socket ≡ run self' rest
  unfolding run
  run_ok self self' socket rest h =
      let shorter = read_shorter self self' socket rest h in
      message_loop_ok (length socket) self self' socket rest h
      ∙ message_loop_fuel (length socket) (suc (length rest)) self' rest shorter (omega arith)

  pub run_err :
      (self : SocketMessageHandler C) (socket : Bytes) (e : Error)
      → read self socket ≡ err e
      → run self socket ≡ some self
  unfolding run
  run_err self socket e h = message_loop_err (length socket) self socket e h
