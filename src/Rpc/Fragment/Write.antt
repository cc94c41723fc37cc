-- ===== src/Rpc/Fragment/Write.antt =====
-- src/protocol/rpc/wire.rs: `write_fragment` ends, and sends a record.
use nfs_mamont_mirror.Prelude.{
  ℕ, zero, suc, ◌+◌, ◌-◌, ◌^◌, ◌≤◌, ◌<◌, min, ◌≡◌, refl, some, ◌++◌, append-nil, length, take, drop,
  leb, lt→ltb, le→ltb, length-take, length-drop, take-append-drop, take_all, drop-drop, subst,
  arith, Bool-cases, inl, inr, true, false, [], leb→le, leb→gt,
}
use nfs_mamont_mirror.Xdr.Reader.{Bytes}
use nfs_mamont_mirror.Rpc.Fragment.{max_fragment_size, prepend, write_fragment_loop, write_fragment}
use nfs_mamont_mirror.Rpc.Fragment.Frames.{frame, IsRecord, last, more}

-- The bytes of the fragment that starts at `offset`.
abbrev size_at : Bytes → ℕ → ℕ
size_at buf offset = min (length buf - offset) max_fragment_size

abbrev bytes_at : Bytes → ℕ → Bytes
bytes_at buf offset = take (size_at buf offset) (drop offset buf)

length-bytes_at : (buf : Bytes) (offset : ℕ) → length (bytes_at buf offset) ≡ size_at buf offset
length-bytes_at buf offset =
    omega (arith, length-take (size_at buf offset) (drop offset buf), length-drop offset buf)

loop_step :
    (fuel : ℕ) (buf : Bytes) (offset : ℕ)
    → offset < length buf
    → write_fragment_loop (suc fuel) buf offset
      ≡ prepend
          (frame (leb (length buf) (offset + size_at buf offset)) (bytes_at buf offset))
          (write_fragment_loop fuel buf (offset + size_at buf offset))
unfolding write_fragment_loop
loop_step fuel buf offset h = rw (lt→ltb offset (length buf) h, length-bytes_at buf offset)

loop_end :
    (fuel : ℕ) (buf : Bytes) (offset : ℕ)
    → length buf ≤ offset
    → write_fragment_loop (suc fuel) buf offset ≡ some []
unfolding write_fragment_loop
loop_end fuel buf offset h = rw (le→ltb offset (length buf) h)

write_fragment_loop-IsRecord :
    (fuel : ℕ) (buf : Bytes) (offset : ℕ)
    → offset < length buf
    → length buf - offset < fuel
    → (wire : Bytes) × (write_fragment_loop fuel buf offset ≡ some wire)
      × IsRecord (drop offset buf) wire
write_fragment_loop-IsRecord zero buf offset h k = absurd (omega arith)
write_fragment_loop-IsRecord (suc zero) buf offset h k = absurd (omega arith)
write_fragment_loop-IsRecord (suc (suc fuel)) buf offset h k =
    let size = size_at buf offset in
    let bytes = bytes_at buf offset in
    let small : length bytes < 2 ^ 31 = omega (arith, length-bytes_at buf offset) in
    elim (Bool-cases (leb (length buf) (offset + size))) [
      | inl done ↦ (
        frame true bytes,
        rw (
          loop_step (suc fuel) buf offset h,
          done,
          loop_end fuel buf (offset + size) (leb→le _ _ done),
          append-nil,
        ),
        subst (λ m. IsRecord m (frame true bytes)) (whole done) (last bytes small),
      )
      | inr left ↦
          let (wire, sent, rest) =
            write_fragment_loop-IsRecord (suc fuel) buf (offset + size) (leb→gt _ _ left)
              (omega arith) in
          (
            frame false bytes ++ wire,
            rw (loop_step (suc fuel) buf offset h, left, sent),
            subst (λ m. IsRecord m (frame false bytes ++ wire)) joined (more bytes small rest),
          )
    ]
  where
    whole :
        leb (length buf) (offset + size_at buf offset) ≡ true
        → bytes_at buf offset ≡ drop offset buf
    whole done = take_all _ _ (omega (arith, length-drop offset buf, leb→le _ _ done))

    joined : bytes_at buf offset ++ drop (offset + size_at buf offset) buf ≡ drop offset buf
    joined =
        rw (← drop-drop offset (size_at buf offset) buf)
          (take-append-drop (size_at buf offset) (drop offset buf))

-- On a message that is not empty `write_fragment` ends, and what it sends is a record of that
-- message in the sense of RFC 5531.
pub write_fragment-IsRecord :
    (buf : Bytes)
    → 0 < length buf
    → (wire : Bytes) × (write_fragment buf ≡ some wire) × IsRecord buf wire
unfolding write_fragment
write_fragment-IsRecord buf h =
    write_fragment_loop-IsRecord (suc (length buf)) buf 0 h (omega arith)

-- For an empty message nothing is sent.
pub write_fragment_empty : write_fragment [] ≡ some []
unfolding write_fragment write_fragment_loop
write_fragment_empty = refl
