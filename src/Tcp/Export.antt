-- ===== src/Tcp/Export.antt =====
-- src/tcp.rs: the name of the export, whatever slashes it is given with.
use nfs_mamont_mirror.Prelude.{
  ℕ, zero, suc, ◌≡◌, ◌≢◌, refl, ap, ◌∙◌, sym, [], ◌∷◌, ◌++◌, replicate, reverse, append-nil, ==_iff,
  arith,
}
use mathlib.Core.List.{reverse-append, reverse-reverse, reverse-cons}
use nfs_mamont_mirror.Xdr.Reader.{Bytes}
use nfs_mamont_mirror.Vfs.{slash}
use nfs_mamont_mirror.Mount.Text.{trim_start_matches, trim_end_matches}
use nfs_mamont_mirror.Tcp.{NfsTcpListener, Net, with_export_name}

-- A text does not begin with a slash.
abbrev pub IsBare : Bytes → Type 0
IsBare [] = Unit
IsBare (b ∷ text) = b ≢ slash

abbrev pub slashes : ℕ → Bytes
slashes n = replicate n slash

slashes_more : (n : ℕ) → slashes n ++ slash ∷ [] ≡ slash ∷ slashes n
slashes_more zero = refl
slashes_more (suc n) = ap (λ t. slash ∷ t) (slashes_more n)

reverse-slashes : (n : ℕ) → reverse (slashes n) ≡ slashes n
reverse-slashes zero = refl
reverse-slashes (suc n) =
    reverse-cons slash (slashes n) ∙ ap (λ t. t ++ slash ∷ []) (reverse-slashes n) ∙ slashes_more n

-- Slashes in front of a text are trimmed, and nothing of a bare text is.
trim_slashes :
    (n : ℕ) (text : Bytes) → IsBare text → trim_start_matches slash (slashes n ++ text) ≡ text
unfolding trim_start_matches
trim_slashes zero [] h = refl
trim_slashes zero (b ∷ text) h = ground (arith, ==_iff b slash)
trim_slashes (suc n) text h = trim_slashes n text h

IsBare-append : (text more : Bytes) → text ≢ [] → IsBare text → IsBare (text ++ more)
IsBare-append [] more h k = absurd (h refl)
IsBare-append (b ∷ text) more h k = k

-- Slashes behind a text that does not end with one.
trim_end_slashes :
    (text : Bytes) (m : ℕ)
    → IsBare (reverse text)
    → trim_end_matches slash (text ++ slashes m) ≡ text
unfolding trim_end_matches
trim_end_slashes text m h =
    rw (reverse-append text (slashes m), reverse-slashes m, trim_slashes m (reverse text) h)
      (reverse-reverse text)

only_slashes : (m n : ℕ) → trim_start_matches slash (slashes m ++ slashes n) ≡ []
unfolding trim_start_matches
only_slashes zero zero = refl
only_slashes zero (suc n) = only_slashes zero n
only_slashes (suc m) n = only_slashes m n

reverse_not_empty : (b : ℕ) (text : Bytes) → reverse (b ∷ text) ≢ []
reverse_not_empty b text e = let back = sym (reverse-reverse (b ∷ text)) ∙ ap reverse e in cc back

no_text : (n m : ℕ) → trim_end_matches slash (slashes n ++ slashes m) ≡ []
unfolding trim_end_matches
no_text n m =
    rw
      (
        reverse-append (slashes n) (slashes m),
        reverse-slashes n,
        reverse-slashes m,
        only_slashes m n,
      )
      refl

export_text :
    (n m : ℕ) (name : Bytes)
    → IsBare name
    → IsBare (reverse name)
    → trim_start_matches slash (trim_end_matches slash (slashes n ++ name ++ slashes m)) ≡ name
export_text n m [] h k = rw (append-nil (slashes n), no_text n m) (trim_slashes zero [] tt)
export_text n m (b ∷ name) h k =
    ap (trim_start_matches slash) (trim_end_slashes (slashes n ++ b ∷ name) m bare_end)
    ∙ trim_slashes n (b ∷ name) h
  where
    bare_end : IsBare (reverse (slashes n ++ b ∷ name))
    bare_end =
        rw (reverse-append (slashes n) (b ∷ name))
          (IsBare-append (reverse (b ∷ name)) (reverse (slashes n)) (reverse_not_empty b name) k)

module _ {ℓ κ ν} {W : Type ℓ} {L K : Type κ} {S : Type ν} (net : Net W L K) where
  -- A name that neither begins nor ends with a slash, given with any number of slashes before and
  -- behind it, becomes the name of the export after a single slash; nothing else of the listener
  -- changes.
  pub with_export_name-slashes :
      (self : NfsTcpListener L S) (name : Bytes) (n m : ℕ)
      → IsBare name
      → IsBare (reverse name)
      → with_export_name net self (slashes n ++ name ++ slashes m)
        ≡ record self { export_name = slash ∷ name }
  unfolding with_export_name
  with_export_name-slashes self name n m h k = rw (export_text n m name h k)
