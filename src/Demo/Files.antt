-- ===== src/Demo/Files.antt =====
-- examples/demo_fs/fs.rs: WRITE, and what READ finds after it through every link of the file.
use nfs_mamont_mirror.Prelude.{
  ℕ, zero, suc, ◌+◌, ◌^◌, ◌≡◌, ◌<◌, ◌==◌, Bool, true, false, refl, List, [], ◌∷◌, Option, some,
  none, get_elem?, modify, length, leb, if◌then◌else◌, arith, ap, Bool-cases, inl, inr, ltb, ==_iff,
  get_elem?-modify, sym, ◌∙◌, min, ◌-◌,
}
use mathlib.Core.Option
use nfs_mamont_mirror.Xdr.Reader.{Bytes}
use nfs_mamont_mirror.Demo.{FsEntry, file, directory, DemoFs, ok, get}
use nfs_mamont_mirror.Demo.Names.{getattr, block_at}
use nfs_mamont_mirror.Demo.Contents.{usize, shares, set_size, set_sizes, write, read}
use nfs_mamont_mirror.Demo.Splice.{
  length-long_enough, long_enough, overwritten, byte_after, get_elem?-overwritten,
  length-overwritten, take-overwritten, grow-run,
}
use nfs_mamont_mirror.Xdr.Nfs3.{Fattr3}

modify-modify :
    (k : ℕ) (a b : Bytes) (blocks : List Bytes)
    → modify k (λ x. b) (modify k (λ x. a) blocks) ≡ modify k (λ x. b) blocks
modify-modify k a b [] = refl
modify-modify zero a b (x ∷ blocks) = refl
modify-modify (suc k) a b (x ∷ blocks) = ap (◌∷◌ x) (modify-modify k a b blocks)

abbrev resized : ℕ → ℕ → FsEntry → FsEntry
resized block n e = if shares block e.contents then set_size n e else e

get_elem?-set_sizes :
    (block n : ℕ) (fs : List FsEntry) (k : ℕ)
    → get_elem? (set_sizes block n fs) k ≡ Option.map (resized block n) (get_elem? fs k)
unfolding set_sizes
get_elem?-set_sizes block n [] k = refl
get_elem?-set_sizes block n (e ∷ fs) zero = refl
get_elem?-set_sizes block n (e ∷ fs) (suc k) = get_elem?-set_sizes block n fs k

-- The place of the block of an entry that is a file.
abbrev pub block_of : Option FsEntry → Option ℕ
block_of none = none
block_of (some e) = elim e.contents [ file block ↦ some block | directory dir ↦ none ]

-- The bytes of the file at an entry.
abbrev pub block_bytes : List Bytes → Option ℕ → Option Bytes
block_bytes blocks none = none
block_bytes blocks (some b) = get_elem? blocks b

abbrev pub file_bytes : ℕ → DemoFs → Option Bytes
file_bytes id s = block_bytes s.blocks (block_of (get_elem? s.fs id))

abbrev pub byte_of : Option Bytes → ℕ → Option ℕ
byte_of none i = none
byte_of (some bytes) i = get_elem? bytes i

abbrev pub byte_at : ℕ → ℕ → DemoFs → Option ℕ
byte_at id i s = byte_of (file_bytes id s) i

abbrev pub same_block : ℕ → Option ℕ → Bool
same_block block none = false
same_block block (some b) = block == b

block_of-resized :
    (block n : ℕ) (o : Option FsEntry) → block_of (Option.map (resized block n) o) ≡ block_of o
block_of-resized block n none = refl
block_of-resized block n (some e) = at (shares block e.contents)
  where
    at : (b : Bool) → block_of (some (if b then set_size n e else e)) ≡ block_of (some e)
    at true = refl
    at false = refl

contents-resized : (block n : ℕ) (e : FsEntry) → (resized block n e).contents ≡ e.contents
contents-resized block n e = at (shares block e.contents)
  where
    at : (b : Bool) → (if b then set_size n e else e).contents ≡ e.contents
    at true = refl
    at false = refl

-- What becomes of the bytes of a file when a block is stored.
pub block_bytes-modify :
    (block : ℕ) (old new : Bytes) (blocks : List Bytes) (o : Option ℕ)
    → get_elem? blocks block ≡ some old
    → block_bytes (modify block (λ x. new) blocks) o
      ≡ (if same_block block o then some new else block_bytes blocks o)
block_bytes-modify block old new blocks none stored = refl
block_bytes-modify block old new blocks (some b) stored = elim (Bool-cases (block == b)) [
  | inl t ↦
      let same : block ≡ b = (==_iff block b).0 t in rw (get_elem?-modify, t, sym same, stored) refl
  | inr f ↦ rw (get_elem?-modify, f) refl
]

-- The state that a WRITE leaves.
abbrev written : ℕ → ℕ → Bytes → Bytes → DemoFs → DemoFs
written block offset new old s = record s {
  fs = set_sizes block (length (long_enough (offset + length new) old)) s.fs;
  blocks = modify block (λ x. overwritten offset new old) s.blocks;
}

module _ (id offset block : ℕ) (new old : Bytes) (e : FsEntry) (s : DemoFs)
    (free : s.poisoned ≡ false) (there : get_elem? s.fs id ≡ some e)
    (is_file : e.contents ≡ file block) (stored : get_elem? s.blocks block ≡ some old)
    (fits : offset + length new < 2 ^ 63) where
  write-run : write id offset new s ≡ (
    ok ((set_size (length (long_enough (offset + length new) old)) e).attr),
    written block offset new old s,
  )
  unfolding write get getattr block_at
  write-run =
      let end : usize (offset + length new) ≡ offset + length new = omega arith in
      let ordered : leb offset (offset + length new) ≡ true = ground arith in
      let room = grow-run (offset + length new) old fits in
      let twice =
        modify-modify block (long_enough (offset + length new) old) (overwritten offset new old)
          s.blocks in
      let self : (block == block) ≡ true = ground arith in
      rw
        (
          free, there, is_file, stored, end, room, ordered, twice, get_elem?-set_sizes, there,
          is_file, self,
        )
        refl

  written_bytes :
      (other : ℕ)
      → file_bytes other (written block offset new old s) ≡ (
          if same_block block (block_of (get_elem? s.fs other))
          then some (overwritten offset new old)
          else file_bytes other s)
  written_bytes other =
      let n = length (long_enough (offset + length new) old) in
      let a = ap block_of (get_elem?-set_sizes block n s.fs other) in
      let b = block_of-resized block n (get_elem? s.fs other) in
      rw (a ∙ b) (
        block_bytes-modify block old (overwritten offset new old) s.blocks
          (block_of (get_elem? s.fs other)) stored)

  -- A WRITE to a file, the end of whose range is below 2 ^ 63, with the mutex not poisoned: it
  -- answers a size that is the larger of the old one and the end of the range; and through every
  -- entry of that file, that is through all its hard links, the bytes are the new ones in the range,
  -- zeros where the file had not reached before the range, and the old ones elsewhere, while the
  -- bytes of all other files are as they were.
  pub write-bytes :
      (other i : ℕ)
      → ((a : Fattr3) × ((write id offset new s).0 ≡ ok a)
          × (a.size ≡ (
              if ltb (length old) (offset + length new) then offset + length new else length old)))
        × (byte_at other i (write id offset new s).1 ≡ (
            if same_block block (block_of (get_elem? s.fs other))
            then byte_after offset new old i
            else byte_at other i s))
  write-bytes other i =
      let size = length-long_enough (offset + length new) old in
      let state = written_bytes other in
      (
        (
          (set_size (length (long_enough (offset + length new) old)) e).attr,
          ap (λ x. x.0) write-run,
          size,
        ),
        rw (ap (λ x. x.1) write-run)
            (rw state (at (same_block block (block_of (get_elem? s.fs other))))),
      )
    where
      at :
          (b : Bool)
          → byte_of (if b then some (overwritten offset new old) else file_bytes other s) i
            ≡ (if b then byte_after offset new old i else byte_at other i s)
      at true = get_elem?-overwritten offset new old i
      at false = refl

  -- What was written at an offset is what a READ of as many bytes there answers, through any entry
  -- of the same file, with the flag for the end of the file set when the range ends with it. The
  -- end of the range is below 2 ^ 63 and the mutex not poisoned.
  pub write-read :
      (other : ℕ) (e' : FsEntry)
      → get_elem? s.fs other ≡ some e'
      → e'.contents ≡ file block
      → (read other offset (length new) (write id offset new s).1).0
        ≡ ok (new, leb (length old) (offset + length new))
  unfolding read get block_at
  write-read other e' there' is_file' =
      let run = ap (λ x. x.1) write-run in
      let n = length (long_enough (offset + length new) old) in
      let end : usize (offset + length new) ≡ offset + length new = omega arith in
      let entry = get_elem?-set_sizes block n s.fs other in
      let total = length-overwritten offset new old in
      let from : min offset (length (overwritten offset new old)) ≡ offset = ground arith in
      let to : min (offset + length new) (length (overwritten offset new old))
          ≡ offset + length new =
        ground arith in
      let ordered : leb offset (offset + length new) ≡ true = ground arith in
      let count : offset + length new - offset ≡ length new = omega arith in
      let last : leb (length (overwritten offset new old)) (offset + length new)
          ≡ leb (length old) (offset + length new) =
        ground arith in
      let self : (block == block) ≡ true = ground arith in
      rw
        (
          run,
          free,
          entry,
          there',
          contents-resized block n e',
          is_file',
          get_elem?-modify,
          self,
          stored,
          end,
          from,
          to,
          ordered,
          count,
          last,
          take-overwritten offset new old,
        )
        refl
