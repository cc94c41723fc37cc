-- ===== src/Demo/Resized.antt =====
-- examples/demo_fs/fs.rs: the bytes of a file after a SETATTR of its size, through all its links.
use nfs_mamont_mirror.Prelude.{
  ℕ, ◌^◌, ◌≡◌, ◌<◌, ◌==◌, Bool, true, false, refl, List, Option, some, none, get_elem?,
  get_elem?-modify, modify, length, ltb, if◌then◌else◌, arith,
}
use mathlib.Core.Option
use nfs_mamont_mirror.Xdr.Reader.{Bytes}
use nfs_mamont_mirror.Xdr.Nfs3.{Fattr3, Sattr3}
use nfs_mamont_mirror.Demo.{FsEntry, file, DemoFs, Duration, ok, get, now}
use nfs_mamont_mirror.Demo.Names.{block_at}
use nfs_mamont_mirror.Demo.Contents.{usize, with_length, updated, setattr}
use nfs_mamont_mirror.Demo.Splice.{get_elem?-with_length}
use nfs_mamont_mirror.Demo.Files.{
  block_of, block_bytes-modify, file_bytes, byte_of, byte_at, same_block,
}
use nfs_mamont_mirror.Demo.Faults.{new_atime-run, new_mtime-run}

abbrev with_attr : Fattr3 → FsEntry → FsEntry
with_attr attr e = record e { attr = attr }

block_of-modify :
    (id : ℕ) (attr : Fattr3) (fs : List FsEntry) (k : ℕ)
    → block_of (get_elem? (modify id (with_attr attr) fs) k) ≡ block_of (get_elem? fs k)
block_of-modify id attr fs k = rw get_elem?-modify (at (id == k) (get_elem? fs k))
  where
    at :
        (b : Bool) (o : Option FsEntry)
        → block_of (if b then Option.map (with_attr attr) o else o) ≡ block_of o
    at true none = refl
    at true (some e) = refl
    at false o = refl

-- The state that such a SETATTR leaves.
abbrev resized : ℕ → Fattr3 → ℕ → Bytes → ℕ → DemoFs → DemoFs
resized id attr block new n s = record s {
  fs = modify id (with_attr attr) s.fs;
  blocks = modify block (λ x. new) s.blocks;
  readings = n;
}

-- The byte at a place of a file that has been given a size.
abbrev pub byte_within : ℕ → Bytes → ℕ → Option ℕ
byte_within size old i =
    if ltb i size then (if ltb i (length old) then get_elem? old i else some 0) else none

module _ (clock : ℕ → Duration) (id size block : ℕ) (old : Bytes) (changes : Sattr3) (e : FsEntry)
    (s : DemoFs) (free : s.poisoned ≡ false) (there : get_elem? s.fs id ≡ some e)
    (is_file : e.contents ≡ file block) (stored : get_elem? s.blocks block ≡ some old)
    (is_size : changes.size ≡ some size) (fits : size < 2 ^ 63) where
  setattr-run :
      (attr : Fattr3) × (n : ℕ) × (setattr clock id changes s
        ≡ (ok attr, resized id attr block (with_length size old) n s))
      × (attr.size ≡ size)
  unfolding setattr get block_at now
  setattr-run =
      let s0 = record s { poisoned = false } in
      let (atime, n, first) = new_atime-run clock changes.atime e.attr.atime s0 in
      let (mtime, m, second) =
        new_mtime-run clock changes.mtime e.attr.mtime (record s0 { readings = n }) in
      let whole : usize size ≡ size = omega arith in
      let room : ltb size (2 ^ 63) ≡ true = ground arith in
      (
        updated changes atime mtime e.attr,
        m,
        rw (free, there, first, second, is_size, is_file, stored, whole, room) refl,
        rw is_size refl,
      )

  -- A SETATTR that gives a file a size below 2 ^ 63, with the mutex not poisoned, answers
  -- attributes of that size; and through every entry of that file, that is through all its hard
  -- links, the bytes are the old ones up to the size, then zeros up to it if the file was shorter,
  -- and nothing after it, while the bytes of all other files are as they were.
  pub setattr-bytes :
      (other i : ℕ)
      → (attr : Fattr3) × (s' : DemoFs) × (setattr clock id changes s ≡ (ok attr, s'))
        × (attr.size ≡ size)
        × (byte_at other i s' ≡ (
            if same_block block (block_of (get_elem? s.fs other))
            then byte_within size old i
            else byte_at other i s))
  setattr-bytes other i =
      let (attr, n, run, of_size) = setattr-run in
      let new = with_length size old in
      let same = block_of-modify id attr s.fs other in
      let bytes =
        block_bytes-modify block old new s.blocks (block_of (get_elem? s.fs other)) stored in
      (
        attr,
        resized id attr block new n s,
        run,
        of_size,
        rw (same, bytes) (at (same_block block (block_of (get_elem? s.fs other)))),
      )
    where
      at :
          (b : Bool)
          → byte_of (if b then some (with_length size old) else file_bytes other s) i
            ≡ (if b then byte_within size old i else byte_at other i s)
      at true = get_elem?-with_length size old i
      at false = refl
