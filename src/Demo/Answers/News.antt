-- ===== src/Demo/Answers/News.antt =====
-- examples/demo_fs/fs.rs: CREATE, MKDIR, SYMLINK, MKNOD and LINK do not panic.
use nfs_mamont_mirror.Prelude.{
  ℕ, ◌≡◌, ◌<◌, refl, true, false, [], ◌∷◌, ◌++◌, length, length-modify, arith,
}
use nfs_mamont_mirror.Xdr.Reader.{Bytes}
use nfs_mamont_mirror.Xdr.Nfs3.{Sattr3, Specdata3}
use nfs_mamont_mirror.Xdr.Nfs3.Enums.{
  Ftype3, nf3_reg, nf3_dir, nf3_blk, nf3_chr, nf3_lnk, nf3_sock, nf3_fifo,
}
use nfs_mamont_mirror.Mount.Text.{is_utf8}
use nfs_mamont_mirror.Demo.{
  set_mtime, attach, make_file, make_dir, get, text, FsEntry, FsContents, file, directory, DemoFs,
  Duration, Outcome, ok, err, panic, Action, and_then, assign, pure,
}
use nfs_mamont_mirror.Demo.Names.{getattr}
use nfs_mamont_mirror.Demo.Tree.{
  add_file, add_dir, finish, create, mkdir, symlink, with_ftype, add_node, mknod, file_only,
  more_links, link,
}
use nfs_mamont_mirror.Demo.Answers.{
  Answers, there_is, lock-Answers, get-Answers, index-Answers, text-Answers, now-Answers,
  directory-Answers, free-Answers, attach-Answers,
}

finish-Answers :
    (clock : ℕ → Duration) (dirid newid : ℕ) (s : DemoFs)
    → s.poisoned ≡ false
    → newid < length s.fs
    → Answers (finish clock dirid newid s)
unfolding finish
finish-Answers clock dirid newid s free h = now-Answers s free clock _ λ t n.
    index-Answers (assign dirid (set_mtime t) (record s { readings = n })).1 free newid _
      (rw length-modify h) λ e here. free

regroup :
    {A B C : Type 0} (r : Outcome A × DemoFs) (m : A → Action B) (k : B → Action C)
    → Answers (and_then r (λ a s. and_then (m a s) k))
    → Answers (and_then (and_then r m) k)
regroup (ok a, s) m k h = h
regroup (err e, s) m k h = h
regroup (panic, s) m k h = h

add_file-Answers :
    {B : Type 0} (change : FsEntry → FsEntry) (name : Bytes) (dirid : ℕ) (contents : Bytes)
    (s : DemoFs) (free : s.poisoned ≡ false) (k : ℕ → Action B)
    → dirid < length s.fs
    → ((n : ℕ) (s' : DemoFs) → s'.poisoned ≡ false → n < length s'.fs → Answers (k n s'))
    → Answers (and_then (add_file change name dirid contents s) k)
unfolding add_file
add_file-Answers change name dirid contents s free k h next =
    let s1 = record s { blocks = s.blocks ++ contents ∷ [] } in
    let e = change (make_file name (length s.fs) dirid contents (length s.blocks)) in
    regroup (attach e (length s.fs) dirid s1) (λ u. pure (length s.fs)) k
      (attach-Answers s1 free e (length s.fs) dirid _ h
        λ fs more. next (length s.fs) (record s1 { fs = fs }) free (omega (arith, more)))

add_dir-Answers :
    {B : Type 0} (change : FsEntry → FsEntry) (name : Bytes) (dirid : ℕ) (s : DemoFs)
    (free : s.poisoned ≡ false) (k : ℕ → Action B)
    → dirid < length s.fs
    → ((n : ℕ) (s' : DemoFs) → s'.poisoned ≡ false → n < length s'.fs → Answers (k n s'))
    → Answers (and_then (add_dir change name dirid s) k)
unfolding add_dir
add_dir-Answers change name dirid s free k h next =
    let e = change (make_dir name (length s.fs) dirid []) in
    regroup (attach e (length s.fs) dirid s) (λ u. pure (length s.fs)) k
      (attach-Answers s free e (length s.fs) dirid _ h
        λ fs more. next (length s.fs) (record s { fs = fs }) free (omega (arith, more)))

pub create-Answers :
    (dirid : ℕ) (filename : Bytes) (attr : Sattr3) (s : DemoFs)
    → s.poisoned ≡ false
    → is_utf8 [] filename ≡ true
    → dirid < length s.fs
    → Answers (create dirid filename attr s)
unfolding create getattr get
create-Answers dirid filename attr s free is_text h = lock-Answers s free _ (
    text-Answers s free filename _ is_text (
      add_file-Answers _ filename dirid [] s free _ h
        λ n s' free' there. let (e, here) = there_is s'.fs n there in rw (free', here) refl))

pub mkdir-Answers :
    (clock : ℕ → Duration) (dirid : ℕ) (dirname : Bytes) (s : DemoFs)
    → s.poisoned ≡ false
    → is_utf8 [] dirname ≡ true
    → Answers (mkdir clock dirid dirname s)
unfolding mkdir
mkdir-Answers clock dirid dirname s free is_text = lock-Answers s free _ (
    directory-Answers s free dirid _ λ h. free-Answers s free dirid dirname _ (
      text-Answers s free dirname _ is_text
        (add_dir-Answers _ dirname dirid s free _ h λ n. finish-Answers clock dirid n)))

pub symlink-Answers :
    (clock : ℕ → Duration) (dirid : ℕ) (linkname target : Bytes) (attr : Sattr3) (s : DemoFs)
    → s.poisoned ≡ false
    → is_utf8 [] linkname ≡ true
    → Answers (symlink clock dirid linkname target attr s)
unfolding symlink
symlink-Answers clock dirid linkname target attr s free is_text = lock-Answers s free _ (
    directory-Answers s free dirid _ λ h. text-Answers s free linkname _ is_text (
      add_file-Answers (with_ftype nf3_lnk) linkname dirid target s free _ h
        λ n. finish-Answers clock dirid n))

add_node-Answers :
    {B : Type 0} (ftype : Ftype3) (spec : Specdata3) (attrs : Sattr3) (name : Bytes) (dirid : ℕ)
    (s : DemoFs) (free : s.poisoned ≡ false) (k : ℕ → Action B)
    → is_utf8 [] name ≡ true
    → dirid < length s.fs
    → ((n : ℕ) (s' : DemoFs) → s'.poisoned ≡ false → n < length s'.fs → Answers (k n s'))
    → Answers (and_then (add_node ftype spec attrs name dirid s) k)
unfolding text
add_node-Answers nf3_reg spec attrs name dirid s free k is_text h next =
    rw is_text (add_file-Answers _ name dirid [] s free k h next)
add_node-Answers nf3_dir spec attrs name dirid s free k is_text h next =
    rw is_text (add_dir-Answers _ name dirid s free k h next)
add_node-Answers nf3_blk spec attrs name dirid s free k is_text h next =
    rw is_text (add_file-Answers _ name dirid [] s free k h next)
add_node-Answers nf3_chr spec attrs name dirid s free k is_text h next =
    rw is_text (add_file-Answers _ name dirid [] s free k h next)
add_node-Answers nf3_fifo spec attrs name dirid s free k is_text h next =
    rw is_text (add_file-Answers _ name dirid [] s free k h next)
add_node-Answers nf3_sock spec attrs name dirid s free k is_text h next =
    rw is_text (add_file-Answers _ name dirid [] s free k h next)
add_node-Answers nf3_lnk spec attrs name dirid s free k is_text h next = free

pub mknod-Answers :
    (clock : ℕ → Duration) (dirid : ℕ) (name : Bytes) (ftype : Ftype3) (spec : Specdata3)
    (attrs : Sattr3) (s : DemoFs)
    → s.poisoned ≡ false
    → is_utf8 [] name ≡ true
    → Answers (mknod clock dirid name ftype spec attrs s)
unfolding mknod
mknod-Answers clock dirid name ftype spec attrs s free is_text = lock-Answers s free _ (
    directory-Answers s free dirid _ λ h. free-Answers s free dirid name _ (
      add_node-Answers ftype spec attrs name dirid s free _ is_text h
        λ n. finish-Answers clock dirid n))

file_only-Answers :
    {B : Type 0} (s : DemoFs) (free : s.poisoned ≡ false) (c : FsContents) (k : Unit {0} → Action B)
    → Answers (k tt s)
    → Answers (and_then (file_only c s) k)
file_only-Answers s free (file b) k next = next
file_only-Answers s free (directory dir) k next = free

pub link-Answers :
    (file_id target_dir_id : ℕ) (link_name : Bytes) (s : DemoFs)
    → s.poisoned ≡ false
    → Answers (link file_id target_dir_id link_name s)
unfolding link
link-Answers file_id target_dir_id link_name s free = lock-Answers s free _ (
    get-Answers s free file_id _ λ source there. file_only-Answers s free source.contents _ (
      directory-Answers s free target_dir_id _ λ h. free-Answers s free target_dir_id link_name _ (
        attach-Answers s free _ (length s.fs) target_dir_id _ h λ fs more.
          index-Answers (assign file_id more_links (record s { fs = fs })).1 free (length s.fs) _
            (rw length-modify (omega (arith, more))) λ e here. free)))
