-- ===== src/Prelude/Endian.antt =====
-- `to_le_bytes`, `from_le_bytes` and their big-endian forms, of the standard library's integers.
use mathlib.Core.List.{reverse_aux, reverse-reverse}
use native.Mathlib.Nat.{pow-suc}
use nfs_mamont_mirror.Prelude.{
  ℕ, zero, suc, ◌+◌, ◌*◌, ◌/◌, ◌%◌, ◌^◌, ◌<◌, ◌≡◌, refl, ap, ◌∙◌, List, [], ◌∷◌, reverse, length,
  All, arith,
}

-- The bytes of a `k`-byte word, least significant first.
unfoldable pub to_le_bytes : ℕ → ℕ → List ℕ
to_le_bytes zero n = []
to_le_bytes (suc k) n = (n % 256) ∷ to_le_bytes k (n / 256)

unfoldable pub from_le_bytes : List ℕ → ℕ
from_le_bytes [] = 0
from_le_bytes (b ∷ bs) = b + 256 * from_le_bytes bs

unfoldable pub to_be_bytes : ℕ → ℕ → List ℕ
unfolding to_le_bytes
to_be_bytes k n = reverse (to_le_bytes k n)

unfoldable pub from_be_bytes : List ℕ → ℕ
unfolding from_le_bytes
from_be_bytes bs = from_le_bytes (reverse bs)

pub length-to_le_bytes : (k n : ℕ) → length (to_le_bytes k n) ≡ k
unfolding to_le_bytes
length-to_le_bytes zero n = refl
length-to_le_bytes (suc k) n = ap suc (length-to_le_bytes k (n / 256))

pub from_le_bytes-to_le_bytes : (k n : ℕ) → n < 256 ^ k → from_le_bytes (to_le_bytes k n) ≡ n
unfolding to_le_bytes from_le_bytes
from_le_bytes-to_le_bytes zero n h = omega arith
from_le_bytes-to_le_bytes (suc k) n h =
    omega (arith, from_le_bytes-to_le_bytes k (n / 256) (quotient_lt k n h))
  where
    quotient_lt : (k n : ℕ) → n < 256 ^ suc k → n / 256 < 256 ^ k
    quotient_lt k n h = let h' = rw pow-suc at h in omega arith

length-reverse_aux : (bs cs : List ℕ) → length (reverse_aux bs cs) ≡ length bs + length cs
length-reverse_aux [] cs = omega arith
length-reverse_aux (b ∷ bs) cs = omega (arith, length-reverse_aux bs (b ∷ cs))

length-reverse : (bs : List ℕ) → length (reverse bs) ≡ length bs
length-reverse bs = omega (arith, length-reverse_aux bs [])

pub length-to_be_bytes : (k n : ℕ) → length (to_be_bytes k n) ≡ k
unfolding to_be_bytes
length-to_be_bytes k n = length-reverse (to_le_bytes k n) ∙ length-to_le_bytes k n

pub from_be_bytes-to_be_bytes : (k n : ℕ) → n < 256 ^ k → from_be_bytes (to_be_bytes k n) ≡ n
unfolding to_be_bytes from_be_bytes
from_be_bytes-to_be_bytes k n h =
    ap from_le_bytes (reverse-reverse (to_le_bytes k n)) ∙ from_le_bytes-to_le_bytes k n h

pub to_le_bytes-IsByte : (k n : ℕ) → All (λ b. b < 256) (to_le_bytes k n)
unfolding to_le_bytes
to_le_bytes-IsByte zero n = tt
to_le_bytes-IsByte (suc k) n = (omega arith, to_le_bytes-IsByte k (n / 256))

pub to_le_bytes-from_le_bytes :
    (bs : List ℕ) → All (λ b. b < 256) bs → to_le_bytes (length bs) (from_le_bytes bs) ≡ bs
unfolding to_le_bytes from_le_bytes
to_le_bytes-from_le_bytes [] h = refl
to_le_bytes-from_le_bytes (b ∷ bs) h =
    let (low, high) = split_byte b (from_le_bytes bs) h.0 in
    rw (low, high) (ap (◌∷◌ b) (to_le_bytes-from_le_bytes bs h.1))
  where
    split_byte : (b q : ℕ) → b < 256 → ((b + 256 * q) % 256 ≡ b) × ((b + 256 * q) / 256 ≡ q)
    split_byte b q h = (omega arith, omega arith)

pub from_le_bytes_lt : (bs : List ℕ) → All (λ b. b < 256) bs → from_le_bytes bs < 256 ^ length bs
unfolding from_le_bytes
from_le_bytes_lt [] h = omega arith
from_le_bytes_lt (b ∷ bs) h = let rest = from_le_bytes_lt bs h.1 in rw pow-suc (omega arith)
