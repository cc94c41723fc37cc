-- ===== src/Demo/Directory.antt =====
-- examples/demo_fs/fs.rs: MKDIR, and LOOKUP before and after it.
use nfs_mamont_mirror.Prelude.{
  ℕ, ◌+◌, ◌≡◌, ◌≤◌, ◌<◌, ◌==◌, ==_iff, Bool-cases, inl, inr, true, false, refl, List, [], ◌∷◌, ◌++◌,
  Option, some, none, get_elem?, modify, get_elem?-modify, get_elem?-push, get_elem?-lt,
  get_elem?-length, ◌%◌, ◌^◌, count, length, arith, ◌∙◌,
}
use mathlib.Core.Option
use nfs_mamont_mirror.Xdr.Reader.{Bytes}
use nfs_mamont_mirror.Xdr.Nfs3.{Fattr3, NfsTime3}
use nfs_mamont_mirror.Xdr.Nfs3.Enums.{nfs3err_noent}
use nfs_mamont_mirror.Mount.Text.{is_utf8}
use nfs_mamont_mirror.Rpc.Tracker.{same_bytes, same_bytes_iff}
use nfs_mamont_mirror.Demo.{
  FsEntry, directory, DemoFs, Duration, ok, err, get, index, text, now, attach, make_dir, set_mtime,
  push_child,
}
use nfs_mamont_mirror.Demo.Names.{is_named, find_named, dot, dot_dot, lookup}
use nfs_mamont_mirror.Demo.Tree.{directory_at, taken, children, add_dir, finish, mkdir}
use nfs_mamont_mirror.Demo.Invariant.{IsValid, child_of}

same_bytes_refl : (b : Bytes) → same_bytes b b ≡ true
same_bytes_refl b = (same_bytes_iff b b).1 refl

-- A change that keeps the names.
is_named-modify :
    (k i : ℕ) (f : FsEntry → FsEntry) (fs : List FsEntry) (name : Bytes)
    → ((e : FsEntry) → (f e).name ≡ e.name)
    → is_named name (get_elem? (modify k f fs) i) ≡ is_named name (get_elem? fs i)
is_named-modify k i f fs name keeps = elim (Bool-cases (k == i)) [
  | inl t ↦ rw (get_elem?-modify, t) (at (get_elem? fs i))
  | inr n ↦ rw (get_elem?-modify, n) refl
]
  where
    at : (o : Option FsEntry) → is_named name (Option.map f o) ≡ is_named name o
    at none = refl
    at (some e) = rw (keeps e) refl

find_named-same :
    (fs fs' : List FsEntry) (name : Bytes) (dir : List ℕ)
    → ((i : ℕ) → 1 ≤ count i dir → is_named name (get_elem? fs' i) ≡ is_named name (get_elem? fs i))
    → find_named fs' name dir ≡ find_named fs name dir
unfolding find_named
find_named-same fs fs' name [] same = refl
find_named-same fs fs' name (i ∷ dir) same =
    let rest = find_named-same fs fs' name dir (λ j h. same j (ground arith)) in
    rw (same i (ground arith), rest) refl

find_named-append :
    (fs : List FsEntry) (name : Bytes) (dir : List ℕ) (i : ℕ)
    → find_named fs name dir ≡ none
    → is_named name (get_elem? fs i) ≡ true
    → find_named fs name (dir ++ i ∷ []) ≡ some i
unfolding find_named
find_named-append fs name [] i gone named = rw named refl
find_named-append fs name (j ∷ dir) i gone named =
    elim (Bool-cases (is_named name (get_elem? fs j))) [
      | inl t ↦ absurd (cc (rw t at gone))
      | inr f ↦ rw f (find_named-append fs name dir i (rw f at gone) named)
    ]

-- The entries that MKDIR leaves.
abbrev new_dir : ℕ → Bytes → List FsEntry → FsEntry
new_dir dirid name fs = make_dir name (length fs) dirid []

unfoldable made : ℕ → Bytes → NfsTime3 → List FsEntry → List FsEntry
made dirid name t fs =
    modify dirid (set_mtime t)
      (modify dirid (push_child (length fs)) (fs ++ new_dir dirid name fs ∷ []))

module _ (clock : ℕ → Duration) (dirid : ℕ) (name : Bytes) (d : FsEntry) (dir : List ℕ) (s : DemoFs)
    (valid : IsValid s) (free : s.poisoned ≡ false) (there : get_elem? s.fs dirid ≡ some d)
    (is_dir : d.contents ≡ directory dir) (gone : find_named s.fs name dir ≡ none)
    (is_text : is_utf8 [] name ≡ true) (no_dot : same_bytes name dot ≡ false)
    (no_dots : same_bytes name dot_dot ≡ false) where
  old-lt : dirid < length s.fs
  old-lt = get_elem?-lt s.fs dirid there

  names-made :
      (t : NfsTime3) (i : ℕ)
      → is_named name (get_elem? (made dirid name t s.fs) i)
        ≡ is_named name (get_elem? (s.fs ++ new_dir dirid name s.fs ∷ []) i)
  unfolding made
  names-made t i =
      is_named-modify dirid i (set_mtime t)
        (modify dirid (push_child (length s.fs)) (s.fs ++ new_dir dirid name s.fs ∷ [])) name
        (λ e. refl)
      ∙ is_named-modify dirid i (push_child (length s.fs)) (s.fs ++ new_dir dirid name s.fs ∷ [])
          name (λ e. refl)

  new-made :
      (t : NfsTime3)
      → get_elem? (made dirid name t s.fs) (length s.fs) ≡ some (new_dir dirid name s.fs)
  unfolding made
  new-made t =
      let apart : (dirid == length s.fs) ≡ false = ground (arith, old-lt) in
      let self : (length s.fs == length s.fs) ≡ true = ground arith in
      rw (get_elem?-modify, apart, get_elem?-modify, apart, get_elem?-push, self) refl

  dir-made :
      (t : NfsTime3)
      → get_elem? (made dirid name t s.fs) dirid ≡ some (set_mtime t (push_child (length s.fs) d))
  unfolding made
  dir-made t =
      let self : (dirid == dirid) ≡ true = ground arith in
      let old : (dirid == length s.fs) ≡ false = ground (arith, old-lt) in
      rw (get_elem?-modify, self, get_elem?-modify, self, get_elem?-push, old, there) refl

  -- The old children are found, or not, as before.
  old_names :
      (t : NfsTime3) (i : ℕ)
      → 1 ≤ count i dir
      → is_named name (get_elem? (made dirid name t s.fs) i) ≡ is_named name (get_elem? s.fs i)
  unfolding children made
  old_names t i listed_there =
      let once = valid.once dirid i in
      let lists : count i (children s.fs dirid) ≡ count i dir = rw (there, is_dir) refl in
      let last : 1 ≤ child_of dirid (get_elem? s.fs i) = omega arith in
      elim (Bool-cases (i == length s.fs)) [
        | inl t' ↦
            let same : i ≡ length s.fs = (==_iff i (length s.fs)).0 t' in
            absurd (omega (arith, rw (same, get_elem?-length) at last))
        | inr f ↦ names-made t i ∙ rw (get_elem?-push, f) refl
      ]

  found-made :
      (t : NfsTime3)
      → find_named (made dirid name t s.fs) name (dir ++ length s.fs ∷ []) ≡ some (length s.fs)
  found-made t =
      find_named-append (made dirid name t s.fs) name dir (length s.fs)
        (find_named-same s.fs (made dirid name t s.fs) name dir (old_names t) ∙ gone)
        (rw (new-made t) (same_bytes_refl name))

  abbrev made_at : NfsTime3
  made_at = record {
    seconds = (clock s.readings).secs % 2 ^ 32;
    nseconds = (clock s.readings).nanos;
  }

  abbrev after : DemoFs
  after = record s { fs = made dirid name made_at s.fs; readings = s.readings + 1 }

  lookup-before : lookup dirid name s ≡ (err nfs3err_noent, s)
  unfolding lookup get
  lookup-before = rw (free, there, is_dir, no_dot, no_dots, gone) refl

  is_directory_there : directory_at s.fs dirid ≡ true
  is_directory_there = rw (there, is_dir) refl

  not_taken : taken s.fs dirid name ≡ false
  unfolding children
  not_taken = rw (there, is_dir, gone) refl

  mkdir-run : mkdir clock dirid name s ≡ (ok (length s.fs, (new_dir dirid name s.fs).attr), after)
  unfolding mkdir add_dir finish attach index now text children made
  mkdir-run =
      let old : (dirid == length s.fs) ≡ false = ground (arith, old-lt) in
      let last = new-made made_at in
      rw (free, is_directory_there, not_taken, is_text, get_elem?-push, old, there, last) refl

  lookup-after : lookup dirid name after ≡ (ok (length s.fs), after)
  unfolding lookup get
  lookup-after = rw (free, dir-made, is_dir, no_dot, no_dots, found-made) refl

  parent-after : lookup (length s.fs) dot_dot after ≡ (ok dirid, after)
  unfolding lookup get
  parent-after = rw (free, new-made) refl

  -- MKDIR in a directory that has no entry of that name, where the name is UTF-8 and neither `.` nor
  -- `..`, with valid entries and the mutex not poisoned: LOOKUP does not find the name before it;
  -- MKDIR returns a number that was free; after it LOOKUP finds just that number under the name, and
  -- finds the old directory from the new one under `..`.
  pub mkdir-lookup :
      (attr : Fattr3) × (s' : DemoFs) × (lookup dirid name s ≡ (err nfs3err_noent, s))
      × (mkdir clock dirid name s ≡ (ok (length s.fs, attr), s'))
      × (get_elem? s.fs (length s.fs) ≡ none)
      × (lookup dirid name s' ≡ (ok (length s.fs), s'))
      × (lookup (length s.fs) dot_dot s' ≡ (ok dirid, s'))
  mkdir-lookup = (
    (new_dir dirid name s.fs).attr,
    after,
    lookup-before,
    mkdir-run,
    get_elem?-length s.fs,
    lookup-after,
    parent-after,
  )
