-- ===== src/Prelude/Masks.antt =====
-- `bit_and` with a mask of low bits, and with one bit, as arithmetic at every width.
use Prim.Native.Nat.{bit_and, digits, bit_and-bitwise}
use native.Mathlib.Nat.{mul_comm, div-div-eq-div-mul, pow-suc}
use nfs_mamont_mirror.Prelude.{
  ℕ, zero, suc, ◌+◌, ◌-◌, ◌*◌, ◌/◌, ◌%◌, ◌^◌, ◌≤◌, ◌<◌, min, ◌≡◌, arith, ◌∙◌,
}

-- The digits of `a` that `mask` keeps, if `a` has no more than `rounds` of them.
abbrev masked : ℕ → ℕ → ℕ → ℕ
masked rounds a mask = digits (λ rest. zero) min rounds a mask

positive : (k : ℕ) → 0 < 2 ^ k
positive zero = omega arith
positive (suc k) = rw pow-suc (omega (arith, positive k))

low_digit : (a m : ℕ) → 0 < m → a % (2 * m) ≡ a / 2 % m * 2 + a % 2
low_digit a m h = grind arith

masked-ones : (rounds k a : ℕ) → a ≤ rounds → masked rounds a (2 ^ k - 1) ≡ a % 2 ^ k
masked-ones zero k zero h = let p = positive k in grind arith
masked-ones (suc rounds) k zero h = let p = positive k in grind arith
masked-ones zero k (suc a) h = absurd (omega arith)
masked-ones (suc rounds) zero (suc a) h =
    omega (arith, masked-ones rounds zero (suc a / 2) (omega arith))
masked-ones (suc rounds) (suc k) (suc a) h =
    let m : ℕ = 2 ^ k in
    let p : 0 < m = positive k in
    let half : (2 * m - 1) / 2 ≡ m - 1 = omega arith in
    let odd : (2 * m - 1) % 2 ≡ 1 = omega arith in
    let kept = masked-ones rounds k (suc a / 2) (omega arith) in
    rw (pow-suc, mul_comm m 2, half, odd, kept, low_digit (suc a) m p) (omega arith)

masked-one : (rounds k a : ℕ) → a ≤ rounds → masked rounds a (2 ^ k) ≡ a / 2 ^ k % 2 * 2 ^ k
masked-one zero k zero h = let p = positive k in grind arith
masked-one (suc rounds) k zero h = let p = positive k in grind arith
masked-one zero k (suc a) h = absurd (omega arith)
masked-one (suc rounds) zero (suc a) h =
    omega (arith, masked-ones rounds zero (suc a / 2) (omega arith))
masked-one (suc rounds) (suc k) (suc a) h =
    let m : ℕ = 2 ^ k in
    let half : 2 * m / 2 ≡ m = omega arith in
    let even : 2 * m % 2 ≡ 0 = omega arith in
    let kept = masked-one rounds k (suc a / 2) (omega arith) in
    rw (pow-suc, mul_comm m 2, half, even, kept, div-div-eq-div-mul (suc a) 2 m) (omega arith)

pub bit_and_mask : (k a : ℕ) → bit_and a (2 ^ k - 1) ≡ a % 2 ^ k
bit_and_mask k a = bit_and-bitwise a (2 ^ k - 1) ∙ masked-ones a k a (omega arith)

-- The bit of weight 2 ^ k.
pub bit_and_bit : (k a : ℕ) → bit_and a (2 ^ k) ≡ a / 2 ^ k % 2 * 2 ^ k
bit_and_bit k a = bit_and-bitwise a (2 ^ k) ∙ masked-one a k a (omega arith)

-- The lowest bit and one bit above it, in one mask.
masked-two :
    (rounds k a : ℕ)
    → a ≤ rounds
    → masked rounds a (2 ^ suc k + 1) ≡ a / 2 ^ suc k % 2 * 2 ^ suc k + a % 2
masked-two zero k zero h = let p = positive k in grind arith
masked-two (suc rounds) k zero h = let p = positive k in grind arith
masked-two zero k (suc a) h = absurd (omega arith)
masked-two (suc rounds) k (suc a) h =
    let m : ℕ = 2 ^ k in
    let half : (2 * m + 1) / 2 ≡ m = omega arith in
    let odd : (2 * m + 1) % 2 ≡ 1 = omega arith in
    let kept = masked-one rounds k (suc a / 2) (omega arith) in
    rw (pow-suc, mul_comm m 2, half, odd, kept, div-div-eq-div-mul (suc a) 2 m) (omega arith)

pub bit_and_two : (k a : ℕ) → bit_and a (2 ^ suc k + 1) ≡ a / 2 ^ suc k % 2 * 2 ^ suc k + a % 2
bit_and_two k a = bit_and-bitwise a (2 ^ suc k + 1) ∙ masked-two a k a (omega arith)
