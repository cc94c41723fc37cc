-- ===== src/Demo/Splice.antt =====
-- examples/demo_fs/fs.rs: the bytes of a file after WRITE, byte by byte.
use nfs_mamont_mirror.Prelude.{
  ◌^◌, ℕ, zero, suc, ◌+◌, ◌-◌, ◌≡◌, ◌≤◌, ◌<◌, refl, [], ◌∷◌, ◌++◌, Option, some, none, get_elem?,
  length, take, drop, replicate, ltb, if◌then◌else◌, arith, length-take, length-drop, length-append,
  length-replicate, ap, take-append, ◌∙◌, drop-append, sym, true, Bool-cases, inl, inr,
}
use nfs_mamont_mirror.Xdr.Reader.{Bytes}
use nfs_mamont_mirror.Demo.{DemoFs, ok}
use nfs_mamont_mirror.Demo.Contents.{with_length, splice, grow}

get_elem?-append :
    (xs ys : Bytes) (i : ℕ)
    → get_elem? (xs ++ ys) i
      ≡ (if ltb i (length xs) then get_elem? xs i else get_elem? ys (i - length xs))
get_elem?-append [] ys i = ground arith
get_elem?-append (x ∷ xs) ys zero = ground arith
get_elem?-append (x ∷ xs) ys (suc i) = ground (arith, get_elem?-append xs ys i)

get_elem?-take :
    (n : ℕ) (xs : Bytes) (i : ℕ)
    → get_elem? (take n xs) i ≡ (if ltb i n then get_elem? xs i else none)
get_elem?-take zero xs i = ground arith
get_elem?-take (suc n) [] i = ground arith
get_elem?-take (suc n) (x ∷ xs) zero = ground arith
get_elem?-take (suc n) (x ∷ xs) (suc i) = ground (arith, get_elem?-take n xs i)

get_elem?-drop : (n : ℕ) (xs : Bytes) (i : ℕ) → get_elem? (drop n xs) i ≡ get_elem? xs (n + i)
get_elem?-drop zero xs i = ap (get_elem? xs) (omega arith)
get_elem?-drop (suc n) [] i = refl
get_elem?-drop (suc n) (x ∷ xs) i =
    let same : suc (n + i) ≡ suc n + i = omega arith in
    get_elem?-drop n xs i ∙ ap (get_elem? (x ∷ xs)) same

get_elem?-replicate : (n a i : ℕ) → get_elem? (replicate n a) i ≡ (if ltb i n then some a else none)
get_elem?-replicate zero a i = ground arith
get_elem?-replicate (suc n) a zero = ground arith
get_elem?-replicate (suc n) a (suc i) = ground (arith, get_elem?-replicate n a i)

get_elem?-past : (xs : Bytes) (i : ℕ) → length xs ≤ i → get_elem? xs i ≡ none
get_elem?-past [] i h = refl
get_elem?-past (x ∷ xs) zero h = absurd (omega (arith, h))
get_elem?-past (x ∷ xs) (suc i) h = get_elem?-past xs i (omega (arith, h))

pub length-with_length : (n : ℕ) (old : Bytes) → length (with_length n old) ≡ n
unfolding with_length
length-with_length n old =
    let a = length-append (take n old) (replicate (n - length old) 0) in
    let b = length-take n old in let c = length-replicate {A = ℕ} (n - length old) 0 in omega arith

-- The file before the copy.
abbrev pub long_enough : ℕ → Bytes → Bytes
long_enough end old = if ltb (length old) end then with_length end old else old

-- What WRITE is to leave at a place: the new bytes in their range, zeros where the file had not
-- reached, and the old bytes elsewhere.
abbrev pub byte_after : ℕ → Bytes → Bytes → ℕ → Option ℕ
byte_after offset new old i =
    if ltb i offset
    then (if ltb i (length old) then get_elem? old i else some 0)
    else (if ltb i (offset + length new) then get_elem? new (i - offset) else get_elem? old i)

pub get_elem?-with_length :
    (n : ℕ) (old : Bytes) (i : ℕ)
    → get_elem? (with_length n old) i
      ≡ (if ltb i n then (if ltb i (length old) then get_elem? old i else some 0) else none)
unfolding with_length
get_elem?-with_length n old i =
    let a = get_elem?-append (take n old) (replicate (n - length old) 0) i in
    let b = length-take n old in
    let c = get_elem?-take n old i in
    let d = get_elem?-replicate (n - length old) 0 (i - length (take n old)) in
    let past = get_elem?-past old i in ground arith

-- A range that ends below 2 ^ 63 finds room.
pub grow-run :
    (end : ℕ) (bytes : Bytes)
    → end < 2 ^ 63
    → (s : DemoFs) → grow end bytes s ≡ (ok (long_enough end bytes), s)
unfolding grow
grow-run end bytes small s =
    let room : ltb end (2 ^ 63) ≡ true = ground arith in
    elim (Bool-cases (ltb (length bytes) end)) [ inl t ↦ rw (t, room) refl | inr f ↦ rw f refl ]

pub length-long_enough :
    (end : ℕ) (old : Bytes)
    → length (long_enough end old) ≡ (if ltb (length old) end then end else length old)
length-long_enough end old = ground (arith, length-with_length end old)

-- Up to the end of the range the file is the old one with zeros after it.
get_elem?-long_enough :
    (end : ℕ) (old : Bytes) (i : ℕ)
    → i < end
    → get_elem? (long_enough end old) i ≡ (if ltb i (length old) then get_elem? old i else some 0)
get_elem?-long_enough end old i h =
    ground (arith, get_elem?-with_length end old i, get_elem?-past old i)

get_elem?-after :
    (end : ℕ) (old : Bytes) (i : ℕ) → end ≤ i → get_elem? (long_enough end old) i ≡ get_elem? old i
get_elem?-after end old i h = ground (arith, get_elem?-with_length end old i, get_elem?-past old i)

-- The copy into a file that is long enough.
get_elem?-splice :
    (offset : ℕ) (new bytes : Bytes) (i : ℕ)
    → offset + length new ≤ length bytes
    → get_elem? (splice offset new bytes) i ≡ (
        if ltb i offset
        then get_elem? bytes i
        else (if ltb i (offset + length new)
            then get_elem? new (i - offset)
            else get_elem? bytes i))
unfolding splice
get_elem?-splice offset new bytes i fits =
    let end = offset + length new in
    let rest = new ++ drop end bytes in
    let b : length (take offset bytes) ≡ offset = omega (arith, length-take offset bytes) in
    let a = get_elem?-append (take offset bytes) rest i in
    let c = get_elem?-take offset bytes i in
    let d = get_elem?-append new (drop end bytes) (i - offset) in
    let f = get_elem?-drop end bytes (i - offset - length new) in
    let back : end ≤ i → get_elem? bytes (end + (i - offset - length new)) ≡ get_elem? bytes i =
      λ h. ap (get_elem? bytes) (omega arith) in
    ground (arith, rw b at a)

pub length-splice :
    (offset : ℕ) (new bytes : Bytes)
    → offset + length new ≤ length bytes
    → length (splice offset new bytes) ≡ length bytes
unfolding splice
length-splice offset new bytes fits =
    let end = offset + length new in
    let a = length-append (take offset bytes) (new ++ drop end bytes) in
    let b = length-append new (drop end bytes) in
    let c = length-take offset bytes in let d = length-drop end bytes in omega arith

-- What WRITE stores.
abbrev pub overwritten : ℕ → Bytes → Bytes → Bytes
overwritten offset new old = splice offset new (long_enough (offset + length new) old)

pub length-overwritten :
    (offset : ℕ) (new old : Bytes)
    → length (overwritten offset new old)
      ≡ (if ltb (length old) (offset + length new) then offset + length new else length old)
length-overwritten offset new old =
    let a = length-long_enough (offset + length new) old in
    let b = length-splice offset new (long_enough (offset + length new) old) in ground arith

pub get_elem?-overwritten :
    (offset : ℕ) (new old : Bytes) (i : ℕ)
    → get_elem? (overwritten offset new old) i ≡ byte_after offset new old i
get_elem?-overwritten offset new old i =
    let end = offset + length new in
    let a = length-long_enough end old in
    let b = get_elem?-splice offset new (long_enough end old) i in
    let c = get_elem?-long_enough end old i in let d = get_elem?-after end old i in ground arith

take-length : (n : ℕ) (xs ys : Bytes) → length xs ≡ n → take n (xs ++ ys) ≡ xs
take-length n xs ys h = rw (sym h) (take-append xs ys)

drop-length : (n : ℕ) (xs ys : Bytes) → length xs ≡ n → drop n (xs ++ ys) ≡ ys
drop-length n xs ys h = rw (sym h) (drop-append xs ys)

-- The range that was written, read back.
pub take-overwritten :
    (offset : ℕ) (new old : Bytes)
    → take (length new) (drop offset (overwritten offset new old)) ≡ new
unfolding splice
take-overwritten offset new old =
    let end = offset + length new in
    let long = long_enough end old in
    let more = length-long_enough end old in
    let a : length (take offset long) ≡ offset = ground (arith, length-take offset long) in
    rw (drop-length offset (take offset long) (new ++ drop end long) a)
      (take-append new (drop end long))
