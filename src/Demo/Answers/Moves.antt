-- ===== src/Demo/Answers/Moves.antt =====
-- examples/demo_fs/fs.rs: REMOVE and RENAME do not panic.
use nfs_mamont_mirror.Prelude.{
  ℕ, ◌≡◌, ◌<◌, ◌==◌, refl, Bool, true, false, Option, none, some, List, length, get_elem?-lt,
  if◌then◌else◌,
}
use nfs_mamont_mirror.Xdr.Reader.{Bytes}
use nfs_mamont_mirror.Xdr.Nfs3.Enums.{nfs3err_noent}
use nfs_mamont_mirror.Demo.{
  ◌>>◌, FsContents, file, directory, DemoFs, Action, and_then, assign, pure,
}
use nfs_mamont_mirror.Demo.Names.{find_named}
use nfs_mamont_mirror.Demo.Tree.{children}
use nfs_mamont_mirror.Demo.Moves.{
  remove_child, move_child, find_in, not_directory, drop_old, move_between, with_name, remove,
  rename,
}
use nfs_mamont_mirror.Demo.Invariant.{IsValid}
use nfs_mamont_mirror.Demo.Invariant.Moves.{found_parent}
use nfs_mamont_mirror.Demo.Answers.{
  Answers, lock-Answers, get-Answers, index-Answers, ok_or-Answers, directory-Answers,
}

find_in-Answers :
    {B : Type 0} (s : DemoFs) (free : s.poisoned ≡ false) (name : Bytes) (c : FsContents)
    (k : ℕ → Action B)
    → ((dir : List ℕ) (id : ℕ)
        → c ≡ directory dir
        → find_named s.fs name dir ≡ some id
        → Answers (k id s))
    → Answers (and_then (find_in name c s) k)
find_in-Answers s free name (file b) k next = free
find_in-Answers s free name (directory dir) k next =
    ok_or-Answers s free nfs3err_noent (find_named s.fs name dir) k λ id h. next dir id refl h

not_directory-Answers :
    {B : Type 0} (s : DemoFs) (free : s.poisoned ≡ false) (c : FsContents) (k : Unit {0} → Action B)
    → Answers (k tt s)
    → Answers (and_then (not_directory c s) k)
not_directory-Answers s free (file b) k next = next
not_directory-Answers s free (directory dir) k next = free

pub remove-Answers :
    (dirid : ℕ) (filename : Bytes) (s : DemoFs)
    → IsValid s
    → s.poisoned ≡ false
    → Answers (remove dirid filename s)
unfolding remove
remove-Answers dirid filename s v free = lock-Answers s free _ (
    get-Answers s free dirid _ λ d there.
      find_in-Answers s free filename d.contents _ λ dir id is_dir found.
        let (e, here, p) = found_parent s dirid id d filename dir v there is_dir found in
        index-Answers s free id _ (get_elem?-lt s.fs id here)
          λ f h. not_directory-Answers s free f.contents _ free)

drop_old-Answers :
    (from to id : ℕ) (name : Bytes) (old : Option ℕ) (s : DemoFs)
    → s.poisoned ≡ false
    → Answers
        (and_then (drop_old to old s) λ u. move_between from to id >> assign id (with_name name))
drop_old-Answers from to id name none s free = moved-Answers (from == to)
  where
    moved-Answers :
        (b : Bool)
        → Answers (
            and_then
              ((if b then pure tt else move_child from to id) s)
              λ u. assign id (with_name name))
    moved-Answers true = free
    moved-Answers false = free
drop_old-Answers from to id name (some n) s free = moved-Answers (from == to)
  where
    moved-Answers :
        (b : Bool)
        → Answers (
            and_then
              ((if b then pure tt else move_child from to id) (assign to (remove_child n) s).1)
              λ u. assign id (with_name name))
    moved-Answers true = free
    moved-Answers false = free

pub rename-Answers :
    (from_dirid : ℕ) (from_filename : Bytes) (to_dirid : ℕ) (to_filename : Bytes) (s : DemoFs)
    → s.poisoned ≡ false
    → from_dirid < length s.fs
    → Answers (rename from_dirid from_filename to_dirid to_filename s)
unfolding rename
rename-Answers from_dirid from_filename to_dirid to_filename s free h = lock-Answers s free _ (
    index-Answers s free from_dirid _ h λ from there.
      find_in-Answers s free from_filename from.contents _ λ dir id is_dir found.
        directory-Answers s free to_dirid _ λ h'.
          drop_old-Answers from_dirid to_dirid id to_filename
            (find_named s.fs to_filename (children s.fs to_dirid)) s free)
