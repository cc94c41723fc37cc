-- ===== src/Demo/Answers/Changes.antt =====
-- examples/demo_fs/fs.rs: WRITE, SETATTR and COMMIT do not panic.
use nfs_mamont_mirror.Prelude.{
  get_elem?, ltb, ℕ, ◌+◌, ◌^◌, ◌≡◌, ◌≤◌, ◌<◌, refl, leb, true, false, Option, none, some, length,
  arith,
}
use nfs_mamont_mirror.Xdr.Reader.{Bytes}
use nfs_mamont_mirror.Xdr.Nfs3.{NfsTime3, Sattr3, SetAtime, SetMtime}
use nfs_mamont_mirror.Demo.{FsContents, file, directory, DemoFs, Duration, Action, and_then, assign}
use nfs_mamont_mirror.Demo.Contents.{
  usize, file_of, write, new_atime, new_mtime, updated, resize_file, setattr, commit,
}
use nfs_mamont_mirror.Demo.Splice.{grow-run}
use nfs_mamont_mirror.Demo.Files.{block_of}
use nfs_mamont_mirror.Demo.Invariant.{IsValid, end_of}
use nfs_mamont_mirror.Demo.Answers.{
  Answers, lock-Answers, get-Answers, block_at-Answers, result-Answers, now-Answers,
}
use nfs_mamont_mirror.Demo.Answers.Queries.{getattr-Answers, block-lt}

file_of-Answers :
    {B : Type 0} (s : DemoFs) (free : s.poisoned ≡ false) (c : FsContents) (k : ℕ → Action B)
    → ((b : ℕ) → c ≡ file b → Answers (k b s))
    → Answers (and_then (file_of c s) k)
file_of-Answers s free (file b) k next = next b refl
file_of-Answers s free (directory dir) k next = free

pub write-Answers :
    (id offset : ℕ) (new : Bytes) (s : DemoFs)
    → IsValid s
    → s.poisoned ≡ false
    → ((b : ℕ) → block_of (get_elem? s.fs id) ≡ some b → offset + length new < 2 ^ 63)
    → Answers (write id offset new s)
unfolding write
write-Answers id offset new s v free fits = lock-Answers s free _ (
    get-Answers s free id _ λ e here. file_of-Answers s free e.contents _ λ b is_file.
      let bound = block-lt s id e v here in
      let stored : b < length s.blocks = omega (arith, rw is_file at bound) in
      let small = fits b (rw (here, is_file) refl) in
      block_at-Answers s free b _ stored λ bytes.
        let end : usize (offset + length new) ≡ offset + length new = omega arith in
        let ordered : leb offset (offset + length new) ≡ true = ground arith in
        let room = grow-run (offset + length new) bytes small s in
        rw (end, room, ordered) (getattr-Answers id _ free))

new_atime-Answers :
    {B : Type 0} (clock : ℕ → Duration) (how : SetAtime) (old : NfsTime3) (s : DemoFs)
    (free : s.poisoned ≡ false) (k : NfsTime3 → Action B)
    → ((t : NfsTime3) (n : ℕ) → Answers (k t (record s { readings = n })))
    → Answers (and_then (new_atime clock how old s) k)
new_atime-Answers clock SetAtime.dont_change old s free k next = next old s.readings
new_atime-Answers clock SetAtime.set_to_server_time old s free k next =
    now-Answers s free clock k next
new_atime-Answers clock (SetAtime.set_to_client_time c) old s free k next = next c s.readings

new_mtime-Answers :
    {B : Type 0} (clock : ℕ → Duration) (how : SetMtime) (old : NfsTime3) (s : DemoFs)
    (free : s.poisoned ≡ false) (k : NfsTime3 → Action B)
    → ((t : NfsTime3) (n : ℕ) → Answers (k t (record s { readings = n })))
    → Answers (and_then (new_mtime clock how old s) k)
new_mtime-Answers clock SetMtime.dont_change old s free k next = next old s.readings
new_mtime-Answers clock SetMtime.set_to_server_time old s free k next =
    now-Answers s free clock k next
new_mtime-Answers clock (SetMtime.set_to_client_time c) old s free k next = next c s.readings

resize_file-Answers :
    (size : Option ℕ) (contents : FsContents) (s : DemoFs)
    → s.poisoned ≡ false
    → end_of contents ≤ length s.blocks
    → ((n b : ℕ) → size ≡ some n → contents ≡ file b → n < 2 ^ 63)
    → Answers (resize_file size contents s)
resize_file-Answers none contents s free h fits = free
resize_file-Answers (some size) (directory dir) s free h fits = free
resize_file-Answers (some size) (file block) s free h fits =
    let small = fits size block refl refl in
    let room : ltb (usize size) (2 ^ 63) ≡ true = ground arith in
    block_at-Answers s free block _ (omega (arith, h)) λ bytes. rw room free

pub setattr-Answers :
    (clock : ℕ → Duration) (id : ℕ) (changes : Sattr3) (s : DemoFs)
    → IsValid s
    → s.poisoned ≡ false
    → ((n b : ℕ) → changes.size ≡ some n → block_of (get_elem? s.fs id) ≡ some b → n < 2 ^ 63)
    → Answers (setattr clock id changes s)
unfolding setattr
setattr-Answers clock id changes s v free fits = lock-Answers s free _ (
    get-Answers s free id _ λ entry here.
      new_atime-Answers clock changes.atime entry.attr.atime s free _ λ atime n.
        new_mtime-Answers clock changes.mtime entry.attr.mtime (record s { readings = n }) free _
          λ mtime m.
            let attr = updated changes atime mtime entry.attr in
            let s' = (assign id (λ e. record e { attr = attr }) (record s { readings = m })).1 in
            result-Answers (resize_file changes.size entry.contents s') _
              (resize_file-Answers changes.size entry.contents s' free (block-lt s id entry v here)
                λ n b is_size is_file. fits n b is_size (rw (here, is_file) refl))
              λ u s'' w. w)

pub commit-Answers :
    (clock : ℕ → Duration) (id offset len : ℕ) (s : DemoFs)
    → s.poisoned ≡ false
    → Answers (commit clock id offset len s)
unfolding commit
commit-Answers clock id offset len s free =
    lock-Answers s free _
      (get-Answers s free id _ λ entry here. now-Answers s free clock _ λ t n. free)
