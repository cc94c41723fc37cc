-- ===== src/Tcp/Decimal.antt =====
-- src/tcp.rs: a port is read back from its digits.
use nfs_mamont_mirror.Prelude.{
  ℕ, zero, suc, ◌+◌, ◌-◌, ◌*◌, ◌/◌, ◌%◌, ◌^◌, ◌≤◌, ◌<◌, ◌≡◌, ap, ◌∙◌, some, [], ◌∷◌, ◌++◌, leb,
  lt→ltb, le→ltb, arith, leb→le, leb→gt, Bool-cases, inl, inr,
}
use nfs_mamont_mirror.Xdr.Reader.{Bytes}
use nfs_mamont_mirror.Tcp.{digits, decimal, parse_digits, parse_u16}

parse_digits-append :
    (xs ys : Bytes) (acc m : ℕ)
    → parse_digits acc xs ≡ some m
    → parse_digits acc (xs ++ ys) ≡ parse_digits m ys
parse_digits-append [] ys acc m h = let same : acc ≡ m = cc h in rw same
parse_digits-append (c ∷ xs) ys acc m h =
    ground (arith, parse_digits-append xs ys (acc * 10 + (c - 48)) m)

parse_digit :
    (acc d : ℕ)
    → d < 10
    → acc * 10 + d < 2 ^ 16
    → parse_digits acc ((48 + d) ∷ []) ≡ some (acc * 10 + d)
parse_digit acc d h k = ground arith

digits_one : (fuel n : ℕ) → n < 10 → digits (suc fuel) n ≡ (48 + n) ∷ []
digits_one fuel n h = rw (lt→ltb n 10 h)

digits_more :
    (fuel n : ℕ) → 10 ≤ n → digits (suc fuel) n ≡ digits fuel (n / 10) ++ (48 + n % 10) ∷ []
digits_more fuel n h = rw (le→ltb n 10 h)

-- The digits are those of the tenth, and one more.
parse_digits-digits :
    (fuel n : ℕ) → n < 10 ^ fuel → n < 2 ^ 16 → parse_digits 0 (digits fuel n) ≡ some n
parse_digits-digits zero n h k = ap some (omega arith)
parse_digits-digits (suc fuel) n h k = elim (Bool-cases (leb 10 n)) [
  | inl e ↦ rw (digits_more fuel n (leb→le 10 n e)) (
      parse_digits-append (digits fuel (n / 10)) _ 0 (n / 10)
        (parse_digits-digits fuel (n / 10) (omega arith) (omega arith))
      ∙ parse_digit (n / 10) (n % 10) (omega arith) (omega arith)
      ∙ ap some (omega arith))
  | inr e ↦
      rw (digits_one fuel n (leb→gt 10 n e))
        (parse_digit 0 n (leb→gt 10 n e) (omega arith) ∙ ap some (omega arith))
]

first_digit : (fuel n : ℕ) → (d : ℕ) × (ds : Bytes) × (digits (suc fuel) n ≡ d ∷ ds) × (48 ≤ d)
first_digit zero n = elim (Bool-cases (leb 10 n)) [
  | inl e ↦ (48 + n % 10, [], digits_more zero n (leb→le 10 n e), omega arith)
  | inr e ↦ (48 + n, [], digits_one zero n (leb→gt 10 n e), omega arith)
]
first_digit (suc fuel) n = elim (Bool-cases (leb 10 n)) [
  | inl e ↦
      let (d, ds, same, h) = first_digit fuel (n / 10) in
      (d, ds ++ (48 + n % 10) ∷ [], rw (digits_more (suc fuel) n (leb→le 10 n e), same), h)
  | inr e ↦ (48 + n, [], digits_one (suc fuel) n (leb→gt 10 n e), omega arith)
]

no_sign :
    (text : Bytes) (d : ℕ) (ds : Bytes)
    → text ≡ d ∷ ds
    → 48 ≤ d
    → parse_u16 text ≡ parse_digits 0 text
unfolding parse_u16
no_sign text d [] e h = rw e
no_sign text d (c ∷ ds) e h = rw e (ground arith)

pub parse_u16-decimal : (n : ℕ) → n < 2 ^ 16 → parse_u16 (decimal n) ≡ some n
unfolding decimal
parse_u16-decimal n h =
    let (d, ds, e, k) = first_digit 4 n in
    no_sign (digits 5 n) d ds e k ∙ parse_digits-digits 5 n (omega arith) h
