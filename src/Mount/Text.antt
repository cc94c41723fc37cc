-- ===== src/Mount/Text.antt =====
-- What the mount procedures use of the standard library's `str`: text is its UTF-8 bytes.
use nfs_mamont_mirror.Prelude.{
  ℕ, zero, suc, Bool, true, false, ◌&&◌, ◌||◌, Option, none, some, List, [], ◌∷◌, reverse, ltb, leb,
  ◌==◌, if◌then◌else◌,
}
use nfs_mamont_mirror.Xdr.Reader.{Bytes}

abbrev tail_range : ℕ × ℕ
tail_range = (128, 191)

abbrev pub between : ℕ → ℕ → ℕ → Bool
between low high b = leb low b && leb b high

-- The bytes that must follow a first byte, each by its range; `none` for a byte that starts no
-- character.
unfoldable pub following : ℕ → Option (List (ℕ × ℕ))
following b =
    if ltb b 128
    then some []
    else if between 194 223 b
    then some (tail_range ∷ [])
    else if b == 224
    then some ((160, 191) ∷ tail_range ∷ [])
    else if b == 237
    then some ((128, 159) ∷ tail_range ∷ [])
    else if between 225 239 b
    then some (tail_range ∷ tail_range ∷ [])
    else if b == 240
    then some ((144, 191) ∷ tail_range ∷ tail_range ∷ [])
    else if between 241 243 b
    then some (tail_range ∷ tail_range ∷ tail_range ∷ [])
    else if b == 244
    then some ((128, 143) ∷ tail_range ∷ tail_range ∷ [])
    else none

unfoldable pub is_utf8 : List (ℕ × ℕ) → Bytes → Bool
is_utf8 [] [] = true
is_utf8 (range ∷ ranges) [] = false
is_utf8 [] (b ∷ bs) = elim (following b) [ none ↦ false | some ranges ↦ is_utf8 ranges bs ]
is_utf8 ((low, high) ∷ ranges) (b ∷ bs) = between low high b && is_utf8 ranges bs

-- `std::str::from_utf8(bytes).unwrap_or_default()`
unfoldable pub from_utf8_or_default : Bytes → Bytes
from_utf8_or_default bytes = if is_utf8 [] bytes then bytes else []

-- `strip_prefix`
unfoldable pub strip_prefix : Bytes → Bytes → Option Bytes
strip_prefix [] text = some text
strip_prefix (p ∷ prefix) [] = none
strip_prefix (p ∷ prefix) (b ∷ text) = elim (p == b) [
  | true ↦ strip_prefix prefix text
  | false ↦ none
]

-- `trim_start_matches` of one ASCII character
unfoldable pub trim_start_matches : ℕ → Bytes → Bytes
trim_start_matches c [] = []
trim_start_matches c (b ∷ text) = elim (b == c) [
  | true ↦ trim_start_matches c text
  | false ↦ b ∷ text
]

unfoldable pub trim_end_matches : ℕ → Bytes → Bytes
unfolding trim_start_matches
trim_end_matches c text = reverse (trim_start_matches c (reverse text))

-- The characters with the property `White_Space`, by the number of their bytes.
abbrev space_1 : ℕ → Bool
space_1 a = between 9 13 a || a == 32

-- U+0085 and U+00A0
abbrev space_2 : ℕ → ℕ → Bool
space_2 a b = a == 194 && (b == 133 || b == 160)

-- U+1680, U+2000 to U+200A, U+2028, U+2029, U+202F, U+205F and U+3000
abbrev space_3 : ℕ → ℕ → ℕ → Bool
space_3 a b c =
    a == 225 && (b == 154 && c == 128)
    || (a == 226 && (b == 128 && (between 128 138 c || (c == 168 || (c == 169 || c == 175)))))
    || (a == 226 && (b == 129 && c == 159))
    || (a == 227 && (b == 128 && c == 128))

-- How many bytes the space takes that the text starts with; 0 if it starts with none.
abbrev space_len : Bytes → ℕ
space_len [] = 0
space_len (a ∷ []) = if space_1 a then 1 else 0
space_len (a ∷ b ∷ []) = if space_1 a then 1 else if space_2 a b then 2 else 0
space_len (a ∷ b ∷ c ∷ _) =
    if space_1 a then 1 else if space_2 a b then 2 else if space_3 a b c then 3 else 0

-- The same, at the end of a text, given from its last byte on.
abbrev space_len_back : Bytes → ℕ
space_len_back [] = 0
space_len_back (a ∷ []) = if space_1 a then 1 else 0
space_len_back (b ∷ a ∷ []) = if space_1 b then 1 else if space_2 a b then 2 else 0
space_len_back (c ∷ b ∷ a ∷ _) =
    if space_1 c then 1 else if space_2 b c then 2 else if space_3 a b c then 3 else 0

-- `skipped` bytes of a space are still to be passed over.
unfoldable pub trim_from : (Bytes → ℕ) → ℕ → Bytes → Bytes
trim_from len skipped [] = []
trim_from len (suc skipped) (b ∷ text) = trim_from len skipped text
trim_from len zero (b ∷ text) = elim (len (b ∷ text)) [
  | zero ↦ b ∷ text
  | suc skipped ↦ trim_from len skipped text
]

-- `trim`
unfoldable pub trim : Bytes → Bytes
unfolding trim_from
trim text = reverse (trim_from space_len_back 0 (reverse (trim_from space_len 0 text)))
