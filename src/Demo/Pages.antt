-- ===== src/Demo/Pages.antt =====
-- examples/demo_fs/fs.rs: READDIR, page by page.
use nfs_mamont_mirror.Prelude.{
  take_all, take-append-drop, append_assoc, length-drop, ℕ, zero, suc, ◌+◌, ◌-◌, ◌≡◌, ◌≤◌, ◌==◌,
  max, ltb, leb, Bool-cases, inl, inr, true, false, refl, List, [], ◌∷◌, ◌++◌, Option, some, none,
  get_elem?, count, count-append, length, length-append, length-take, take, drop, drop-append,
  if◌then◌else◌, arith, sym, ap,
}
use mathlib.Core.Option
use nfs_mamont_mirror.Vfs.{DirEntry, ReadDirResult}
use nfs_mamont_mirror.Demo.{FsEntry, directory, DemoFs, Outcome, ok, err, panic, index, get}
use nfs_mamont_mirror.Demo.Names.{readdir_in, position, start_index, list_entries, readdir}
use nfs_mamont_mirror.Demo.Tree.{children}
use nfs_mamont_mirror.Demo.Invariant.{IsValid, child_of}

-- Each of the numbers is the place of an entry.
unfoldable pub There : List FsEntry → List ℕ → Type 0
There fs dir = (i : ℕ) → 1 ≤ count i dir → (e : FsEntry) × (get_elem? fs i ≡ some e)

pub Distinct : List ℕ → Type 0
Distinct dir = (i : ℕ) → count i dir ≤ 1

abbrev pub fileids : List DirEntry → List ℕ
fileids [] = []
fileids (e ∷ entries) = e.fileid ∷ fileids entries

length-fileids : (entries : List DirEntry) → length entries ≡ length (fileids entries)
length-fileids [] = refl
length-fileids (e ∷ entries) = ap suc (length-fileids entries)

pub There-tail : (fs : List FsEntry) (i : ℕ) (dir : List ℕ) → There fs (i ∷ dir) → There fs dir
unfolding There
There-tail fs i dir there j h = there j (ground arith)

take-nil : (n : ℕ) → take {A = ℕ} n [] ≡ []
take-nil zero = refl
take-nil (suc n) = refl

list_entries-run :
    (n k : ℕ) (dir : List ℕ) (s : DemoFs)
    → There s.fs dir
    → (entries : List DirEntry) × (list_entries n k dir s ≡ (ok entries, s))
      × (fileids entries ≡ take (max 1 (n - k)) dir)
unfolding list_entries index There
list_entries-run n k [] s there = ([], refl, sym (take-nil (max 1 (n - k))))
list_entries-run n k (i ∷ dir) s there =
    let (e, here) = there i (ground arith) in
    let (rest, run, ids) = list_entries-run n (k + 1) dir s (There-tail s.fs i dir there) in
    elim (Bool-cases (leb n (k + 1))) [
      | inl t ↦
          let one : max 1 (n - k) ≡ 1 = ground arith in
          (record { fileid = i; name = e.name; attr = e.attr } ∷ [], rw (here, t) refl, rw one refl)
      | inr f ↦
          let more : max 1 (n - k) ≡ suc (max 1 (n - (k + 1))) = ground arith in
          (
            record { fileid = i; name = e.name; attr = e.attr } ∷ rest,
            rw (here, f, run) refl,
            rw more (rw ids refl),
          )
    ]

-- The last of the numbers, if there is one.
abbrev pub last_or : ℕ → List ℕ → ℕ
last_or a [] = a
last_or a (x ∷ xs) = last_or x xs

last_or-count : (x : ℕ) (xs : List ℕ) → 1 ≤ count (last_or x xs) (x ∷ xs)
last_or-count x [] = ground arith
last_or-count x (y ∷ ys) = ground (arith, last_or-count y ys)

position-last :
    (x : ℕ) (xs rest : List ℕ)
    → Distinct ((x ∷ xs) ++ rest)
    → position (last_or x xs) ((x ∷ xs) ++ rest) ≡ some (length xs)
unfolding position Distinct
position-last x [] rest d = let self : (x == x) ≡ true = ground arith in rw self refl
position-last x (y ∷ ys) rest d =
    let c = last_or y ys in
    let here = last_or-count y ys in
    let whole = count-append c (y ∷ ys) rest in
    let once = d c in
    let tail = position-last y ys rest (λ j. let h = d j in ground arith) in
    let apart : (x == c) ≡ false = ground arith in rw (apart, tail) refl

last_or-there : (x : ℕ) (xs rest : List ℕ) → 1 ≤ count (last_or x xs) ((x ∷ xs) ++ rest)
last_or-there x xs rest =
    let here = last_or-count x xs in
    let whole = count-append (last_or x xs) (x ∷ xs) rest in omega arith

-- The place where a page begins, after the pages `before` it; 0 is no cookie of an entry.
start-run :
    (before rest : List ℕ) (s : DemoFs)
    → Distinct (before ++ rest)
    → count 0 (before ++ rest) ≡ 0
    → start_index (last_or 0 before) (before ++ rest) s ≡ (ok (length before), s)
start-run [] rest s d z = refl
start-run (x ∷ xs) rest s d z =
    let there = last_or-there x xs rest in
    let found = position-last x xs rest d in
    elim (Bool-cases (ltb 0 (last_or x xs))) [
      | inl t ↦ let next : length xs + 1 ≡ suc (length xs) = omega arith in rw (t, found, next) refl
      | inr f ↦
          let zero_there : last_or x xs ≡ 0 = ground arith in
          let counts = ap (λ c. count c ((x ∷ xs) ++ rest)) zero_there in
          absurd (omega (arith, z, there, counts))
    ]

readdir-there :
    (dirid after n : ℕ) (d : FsEntry) (s : DemoFs)
    → s.poisoned ≡ false
    → get_elem? s.fs dirid ≡ some d
    → readdir dirid after n s ≡ readdir_in after n d.contents s
unfolding readdir get
readdir-there dirid after n d s free there = rw (free, there) refl

-- One page, for a directory that has `before` and then `rest`.
readdir-run :
    (dirid n : ℕ) (before rest : List ℕ) (d : FsEntry) (s : DemoFs)
    → s.poisoned ≡ false
    → get_elem? s.fs dirid ≡ some d
    → d.contents ≡ directory (before ++ rest)
    → Distinct (before ++ rest)
    → There s.fs (before ++ rest)
    → count 0 (before ++ rest) ≡ 0
    → (r : ReadDirResult) × (readdir dirid (last_or 0 before) n s ≡ (ok r, s))
      × (fileids r.entries ≡ take (max 1 n) rest)
      × (r.end ≡ leb (length rest) (max 1 n))
unfolding There
readdir-run dirid n before rest d s free there is_dir distinct all z =
    let begin = start-run before rest s distinct z in
    let (entries, run, ids) =
      list_entries-run n 0 rest s
        (λ i h. let c = count-append i before rest in all i (omega arith)) in
    let whole : n - 0 ≡ n = omega arith in
    let ids' : fileids entries ≡ take (max 1 n) rest = rw whole at ids in
    let tail = drop-append before rest in
    let total = length-append before rest in
    let left : length (before ++ rest) - length before ≡ length rest = omega arith in
    let size = length-fileids entries in
    let cut = length-take (max 1 n) rest in
    let same : length (fileids entries) ≡ length (take (max 1 n) rest) = ap length ids' in
    (
      record { entries = entries; end = length entries == length rest },
      rw (readdir-there dirid (last_or 0 before) n d s free there, is_dir, begin, tail, run, left)
          refl,
      ids',
      ground arith,
    )

-- A client that reads a directory to its end: each page begins after the last entry of the one
-- before it, until one says that it is the last. `fuel` bounds the pages, and `sizes` are the lengths
-- that the client asks for, page by page.
abbrev more : Outcome ReadDirResult × DemoFs → (ℕ → Option (List ℕ)) → ℕ → Option (List ℕ)
more (ok r, s) next after =
    if r.end
    then some (fileids r.entries)
    else Option.map (λ ids. fileids r.entries ++ ids) (next (last_or after (fileids r.entries)))
more (err e, s) next after = none
more (panic, s) next after = none

unfoldable pub read_pages : ℕ → ℕ → ℕ → (ℕ → ℕ) → DemoFs → Option (List ℕ)
read_pages zero dirid after sizes s = none
read_pages (suc fuel) dirid after sizes s =
    more (readdir dirid after (sizes 0) s)
      (λ last. read_pages fuel dirid last (λ i. sizes (suc i)) s) after

last_or-append : (a : ℕ) (xs ys : List ℕ) → last_or a (xs ++ ys) ≡ last_or (last_or a xs) ys
last_or-append a [] ys = refl
last_or-append a (x ∷ xs) ys = last_or-append x xs ys

pages-run :
    (fuel dirid : ℕ) (sizes : ℕ → ℕ) (before rest : List ℕ) (d : FsEntry) (s : DemoFs)
    → s.poisoned ≡ false
    → get_elem? s.fs dirid ≡ some d
    → d.contents ≡ directory (before ++ rest)
    → Distinct (before ++ rest)
    → There s.fs (before ++ rest)
    → count 0 (before ++ rest) ≡ 0
    → length rest ≤ fuel
    → read_pages (suc fuel) dirid (last_or 0 before) sizes s ≡ some rest
unfolding read_pages
pages-run zero dirid sizes before rest d s free there is_dir distinct all z enough =
    let n = sizes 0 in
    let (r, run, ids, end) = readdir-run dirid n before rest d s free there is_dir distinct all z in
    let last : leb (length rest) (max 1 n) ≡ true = ground arith in
    rw (run, end, last, ids) (ap some (take_all (max 1 n) rest (omega arith)))
pages-run (suc fuel) dirid sizes before rest d s free there is_dir distinct all z enough =
    let n = sizes 0 in
    let (r, run, ids, end) = readdir-run dirid n before rest d s free there is_dir distinct all z in
    elim (Bool-cases (leb (length rest) (max 1 n))) [
      | inl t ↦ rw (run, end, t, ids) (ap some (take_all (max 1 n) rest (ground (arith, t))))
      | inr f ↦
          let m = max 1 n in
          let parts = take-append-drop m rest in
          let whole : before ++ rest ≡ (before ++ take m rest) ++ drop m rest =
            rw (append_assoc, parts) refl in
          let shorter = length-drop m rest in
          let next =
            pages-run fuel dirid (λ i. sizes (suc i)) (before ++ take m rest) (drop m rest) d s free
              there (rw whole at is_dir) (rw whole at distinct) (rw whole at all) (rw whole at z)
              (ground arith) in
          let next' = rw (last_or-append 0 before (take m rest)) at next in
          rw (run, end, f, ids, next', parts) refl
    ]

pub parent-listed :
    (d n : ℕ) (o : Option FsEntry)
    → n ≤ child_of d o
    → (n ≤ 1) × (1 ≤ n → (e : FsEntry) × (o ≡ some e))
parent-listed d n none h = (omega arith, λ k. absurd (omega (arith, h, k)))
parent-listed d n (some e) h = (ground arith, λ k. (e, refl))

-- A client reads a directory of valid entries page by page, with the mutex not poisoned, and asks
-- for pages of any lengths, even of length 0. If the special entry 0 is not among the children of
-- the directory, then it is through after at most one page more than there are children, and has
-- then been given the children of the directory, each once and in their order.
pub read_pages_complete :
    (dirid : ℕ) (sizes : ℕ → ℕ) (d : FsEntry) (dir : List ℕ) (s : DemoFs)
    → IsValid s
    → s.poisoned ≡ false
    → get_elem? s.fs dirid ≡ some d
    → d.contents ≡ directory dir
    → count 0 dir ≡ 0
    → (read_pages (suc (length dir)) dirid 0 sizes s ≡ some dir) × Distinct dir
unfolding children There Distinct
read_pages_complete dirid sizes d dir s v free there is_dir z =
    let lists : (i : ℕ) → count i dir ≤ child_of dirid (get_elem? s.fs i) =
      λ i. let once = v.once dirid i in rw (there, is_dir) at once in
    let distinct : Distinct dir =
      λ i. (parent-listed dirid (count i dir) (get_elem? s.fs i) (lists i)).0 in
    let all : There s.fs dir =
      λ i. (parent-listed dirid (count i dir) (get_elem? s.fs i) (lists i)).1 in
    (
      pages-run (length dir) dirid sizes [] dir d s free there is_dir distinct all z (omega arith),
      distinct,
    )
