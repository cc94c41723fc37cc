-- ===== src/Tests/Files.antt =====
-- Requests to the demo file system.
use nfs_mamont_mirror.Prelude.{
  subst, ℕ, ◌-◌, ◌^◌, ◌≡◌, ◌==◌, suc, refl, true, false, some, none, List, [], ◌∷◌, Option,
  get_elem?, count, if◌then◌else◌, length, ltb, leb, arith,
}
use nfs_mamont_mirror.Xdr.Reader.{Bytes}
use nfs_mamont_mirror.Xdr.Nfs3.{Fattr3, no_changes, Sattr3}
use nfs_mamont_mirror.Xdr.Nfs3.Enums.{nfs3err_noent}
use nfs_mamont_mirror.Mount.Text.{is_utf8, following}
use nfs_mamont_mirror.Demo.{
  FsEntry, DemoFs, Duration, ok, err, panic, default, make_file, make_dir, get, index, text, now,
  attach,
}
use nfs_mamont_mirror.Demo.Names.{
  find_named, lookup, getattr, readlink, block_at, position, list_entries, readdir, dot_dot,
}
use nfs_mamont_mirror.Demo.Contents.{
  with_length, grow, splice, set_sizes, write, read, setattr, commit,
}
use nfs_mamont_mirror.Demo.Tree.{
  more_links, children, add_file, add_dir, create, create_exclusive, finish, mkdir, symlink, mknod,
  link,
}
use nfs_mamont_mirror.Demo.Moves.{without, remove, rename}
use nfs_mamont_mirror.Demo.Session.{
  Request, request_mkdir, request_create, request_write, request_link, request_getattr,
  request_read, perform, after_all,
}
use nfs_mamont_mirror.Demo.Invariant.{IsValid}
use nfs_mamont_mirror.Demo.Invariant.Calls.{after_all-IsValid}
use nfs_mamont_mirror.Demo.Faults.{read_overflow-stops, stopped, setattr_overflow-stops}
use nfs_mamont_mirror.Demo.Splice.{byte_after}
use nfs_mamont_mirror.Demo.Files.{
  file_bytes, byte_at, same_block, block_of, write-bytes, write-read,
}
use nfs_mamont_mirror.Demo.Resized.{byte_within, setattr-bytes}
use nfs_mamont_mirror.Demo.Directory.{mkdir-lookup}
use nfs_mamont_mirror.Demo.Unlinked.{rename_same-lost, remove-unlinks}
use nfs_mamont_mirror.Demo.Pages.{read_pages, Distinct, read_pages_complete}
use nfs_mamont_mirror.Demo.Answers.{Answers}
use nfs_mamont_mirror.Demo.Answers.Requests.{AllFit, after_all-Answers}

files : Unit {0}
unfolding is_utf8 following get index text now attach find_named lookup getattr readlink block_at
    position list_entries readdir with_length grow splice set_sizes write read setattr commit
    children add_file add_dir create create_exclusive finish mkdir symlink mknod link without remove
    rename perform after_all read_pages AllFit
files = tt

-- A clock that is read once a second.
abbrev ticks : ℕ → Duration
ticks n = record { secs = n; nanos = 0 }

abbrev name_a : Bytes
name_a = 97 ∷ []

abbrev name_b : Bytes
name_b = 98 ∷ []

abbrev greeting : Bytes
greeting = 104 ∷ 105 ∷ []

-- The directory 2, `a`, and the file 3, `b`, beside it, which has the link 4 in `a`.
abbrev setup : List Request
setup =
    request_mkdir 1 name_a
    ∷ request_create 1 name_b no_changes
    ∷ request_write 3 0 greeting
    ∷ request_link 3 2 name_a
    ∷ []

abbrev filled : DemoFs
filled = record {
  fs =
      make_file [] 0 0 [] 0
      ∷ make_dir (47 ∷ []) 1 1 (2 ∷ 3 ∷ [])
      ∷ make_dir name_a 2 1 (4 ∷ [])
      ∷ more_links (make_file name_b 3 1 greeting 1)
      ∷ record (make_file name_b 3 1 greeting 1) { id = 4; name = name_a; parent = 2 }
      ∷ [];
  blocks = [] ∷ greeting ∷ [];
  poisoned = false;
  readings = 1;
}

filled_run : after_all ticks setup default ≡ filled
filled_run = unfold files in refl

abbrev entry_or : Option FsEntry → FsEntry
entry_or none = make_file [] 0 0 [] 0
entry_or (some e) = e

abbrev entry : ℕ → FsEntry
entry id = entry_or (get_elem? filled.fs id)

filled-IsValid : IsValid filled
filled-IsValid = subst IsValid filled_run (after_all-IsValid ticks setup)

after_all-IsValid_example : IsValid (after_all ticks setup default)
after_all-IsValid_example = after_all-IsValid ticks setup

after_all-Answers_example :
    Answers (perform ticks (request_read 4 1 5) (after_all ticks setup default))
after_all-Answers_example =
    after_all-Answers ticks setup (request_read 4 1 5)
      (unfold files in (refl, ((refl, omega arith), ((λ b h. omega arith), (tt, tt)))))
      (omega arith)

abbrev too_large : Sattr3
too_large = record no_changes { size = some (2 ^ 63) }

-- A READ of one byte at the last offset.
read_overflow-stops_example :
    (read 3 (2 ^ 64 - 1) 1 filled ≡ (panic, record filled { poisoned = true }))
    × (after_all ticks setup (read 3 (2 ^ 64 - 1) 1 filled).1 ≡ record filled { poisoned = true })
    × (perform ticks (request_getattr 1) (after_all ticks setup (read 3 (2 ^ 64 - 1) 1 filled).1)
        ≡ (panic, record filled { poisoned = true }))
read_overflow-stops_example =
    read_overflow-stops ticks setup (request_getattr 1) 3 (2 ^ 64 - 1) 1 1 greeting (entry 3) filled
      (unfold files in refl) (unfold files in refl) (unfold files in refl) (unfold files in refl)
      (omega arith) (omega arith) refl

-- A SETATTR of the size 2 ^ 63.
setattr_overflow-stops_example :
    (attr : Fattr3) × (n : ℕ) × (setattr ticks 3 too_large filled
      ≡ (panic, stopped 3 attr n filled))
    × (attr.size ≡ 2 ^ 63)
    × (after_all ticks setup (setattr ticks 3 too_large filled).1 ≡ stopped 3 attr n filled)
    × (perform ticks
          (request_getattr 1)
          (after_all ticks setup (setattr ticks 3 too_large filled).1)
        ≡ (panic, stopped 3 attr n filled))
setattr_overflow-stops_example =
    setattr_overflow-stops ticks setup (request_getattr 1) 3 (2 ^ 63) 1 greeting too_large (entry 3)
      filled (unfold files in refl) (unfold files in refl) (unfold files in refl)
      (unfold files in refl) refl (omega arith) (omega arith) refl

write-bytes_example :
    ((a : Fattr3) × ((write 3 4 (33 ∷ []) filled).0 ≡ ok a) × (a.size ≡ (if ltb 2 5 then 5 else 2)))
    × (byte_at 4 3 (write 3 4 (33 ∷ []) filled).1 ≡ (
        if same_block 1 (block_of (get_elem? filled.fs 4))
        then byte_after 4 (33 ∷ []) greeting 3
        else byte_at 4 3 filled))
write-bytes_example =
    write-bytes 3 4 1 (33 ∷ []) greeting (entry 3) filled (unfold files in refl)
      (unfold files in refl) (unfold files in refl) (unfold files in refl) (omega arith) 4 3

abbrev longer : Sattr3
longer = record no_changes { size = some 4 }

setattr-bytes_example :
    (attr : Fattr3) × (s' : DemoFs) × (setattr ticks 3 longer filled ≡ (ok attr, s'))
    × (attr.size ≡ 4)
    × (byte_at 4 3 s' ≡ (
        if same_block 1 (block_of (get_elem? filled.fs 4))
        then byte_within 4 greeting 3
        else byte_at 4 3 filled))
setattr-bytes_example =
    setattr-bytes ticks 3 4 1 greeting longer (entry 3) filled (unfold files in refl)
      (unfold files in refl) (unfold files in refl) (unfold files in refl) refl (omega arith) 4 3

write-read_example : (read 4 4 1 (write 3 4 (33 ∷ []) filled).1).0 ≡ ok (33 ∷ [], leb 2 5)
write-read_example =
    write-read 3 4 1 (33 ∷ []) greeting (entry 3) filled (unfold files in refl)
      (unfold files in refl) (unfold files in refl) (unfold files in refl) (omega arith) 4 (entry 4)
      (unfold files in refl) (unfold files in refl)

mkdir-lookup_example :
    (attr : Fattr3) × (s' : DemoFs) × (lookup 2 name_b filled ≡ (err nfs3err_noent, filled))
    × (mkdir ticks 2 name_b filled ≡ (ok (length filled.fs, attr), s'))
    × (get_elem? filled.fs (length filled.fs) ≡ none)
    × (lookup 2 name_b s' ≡ (ok (length filled.fs), s'))
    × (lookup (length filled.fs) dot_dot s' ≡ (ok 2, s'))
mkdir-lookup_example =
    mkdir-lookup ticks 2 name_b (entry 2) (4 ∷ []) filled filled-IsValid (unfold files in refl)
      (unfold files in refl) (unfold files in refl) (unfold files in refl) (unfold files in refl)
      refl refl

rename_same-lost_example :
    (s' : DemoFs) × (rename 1 name_b 1 name_b filled ≡ (ok tt, s'))
    × ((d' : ℕ) → count 3 (children s'.fs d') ≡ 0)
    × ((d' i : ℕ)
        → (3 == i) ≡ false
        → count i (children s'.fs d') ≡ count i (children filled.fs d'))
rename_same-lost_example =
    rename_same-lost 1 3 name_b (entry 1) (2 ∷ 3 ∷ []) filled filled-IsValid (unfold files in refl)
      (unfold files in refl) (unfold files in refl) (unfold files in refl)

remove-unlinks_example :
    (s' : DemoFs) × (remove 1 name_b filled ≡ (ok tt, s'))
    × ((d' : ℕ) → count 3 (children s'.fs d') ≡ 0)
    × ((d' i : ℕ)
        → (3 == i) ≡ false
        → count i (children s'.fs d') ≡ count i (children filled.fs d'))
    × ((i : ℕ) → (3 == i) ≡ false → file_bytes i s' ≡ file_bytes i filled)
remove-unlinks_example =
    remove-unlinks 1 3 1 name_b (entry 1) (entry 3) (2 ∷ 3 ∷ []) filled filled-IsValid
      (unfold files in refl) (unfold files in refl) (unfold files in refl) (unfold files in refl)
      (unfold files in refl) (unfold files in refl)

read_pages_complete_example :
    (read_pages (suc (length {A = ℕ} (2 ∷ 3 ∷ []))) 1 0 (λ i. 1 - i) filled ≡ some (2 ∷ 3 ∷ []))
    × Distinct (2 ∷ 3 ∷ [])
read_pages_complete_example =
    read_pages_complete 1 (λ i. 1 - i) (entry 1) (2 ∷ 3 ∷ []) filled filled-IsValid
      (unfold files in refl) (unfold files in refl) (unfold files in refl) refl
