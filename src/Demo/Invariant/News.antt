-- ===== src/Demo/Invariant/News.antt =====
-- examples/demo_fs/fs.rs: the calls that make entries.
use nfs_mamont_mirror.Prelude.{
  ℕ, ◌≡◌, ◌≤◌, refl, true, some, [], ◌∷◌, ◌++◌, length, get_elem?, arith, Option-cases, inl,
  modify-none, length-append, inr,
}
use nfs_mamont_mirror.Xdr.Reader.{Bytes}
use nfs_mamont_mirror.Xdr.Nfs3.{NfsTime3, Sattr3, Specdata3}
use nfs_mamont_mirror.Xdr.Nfs3.Enums.{
  Ftype3, nf3_reg, nf3_dir, nf3_blk, nf3_chr, nf3_lnk, nf3_sock, nf3_fifo,
}
use nfs_mamont_mirror.Demo.{
  FsEntry, FsContents, file, directory, DemoFs, Duration, Action, and_then, index, set_mtime,
  attach, make_file, make_dir, push_child,
}
use nfs_mamont_mirror.Demo.Names.{getattr}
use nfs_mamont_mirror.Demo.Invariant.Queries.{getattr-IsValid}
use nfs_mamont_mirror.Demo.Tree.{
  add_file, add_dir, finish, create, mkdir, symlink, mknod, link, listed, file_only, more_links,
  with_ftype, add_node, unwrap,
}
use nfs_mamont_mirror.Demo.Invariant.{IsValid, Quiet, Quiet-IsValid, block_end}
use nfs_mamont_mirror.Demo.Invariant.Rules.{
  lock_then, directory_then, free_then, result_then, unwrap-IsValid, text_then, get_then,
  index_then, now_then, other-IsValid,
}
use nfs_mamont_mirror.Demo.Invariant.Attach.{more_blocks-IsValid, attached-IsValid}

-- What follows a new entry: it is pushed, and its directory lists it, or there is no such place.
attach_then :
    {B : Type 0} (s : DemoFs) (v : IsValid s) (e : FsEntry) (dirid : ℕ) (k : Unit {0} → Action B)
    → e.parent ≡ dirid
    → listed (some e) ≡ []
    → block_end (some e) ≤ length s.blocks
    → ((s' : DemoFs) → IsValid s' → IsValid (k tt s').1)
    → IsValid (and_then (attach e (length s.fs) dirid s) k).1
unfolding attach index
attach_then s v e dirid k p l b next =
    let w = attached-IsValid s e dirid p l b v in
    elim (Option-cases (get_elem? (s.fs ++ e ∷ []) dirid)) [
      | inl gone ↦ rw gone (
          other-IsValid (record s { fs = s.fs ++ e ∷ [] }) true s.readings
            (rw (modify-none dirid (push_child (length s.fs)) (s.fs ++ e ∷ []) gone) at w))
      | inr (d, there) ↦ rw there (next _ w)
    ]

add_file-IsValid :
    (change : FsEntry → FsEntry) (name : Bytes) (dirid : ℕ) (contents : Bytes) (s : DemoFs)
    → Quiet change
    → IsValid s
    → IsValid (add_file change name dirid contents s).1
unfolding add_file Quiet
add_file-IsValid change name dirid contents s q v =
    let e = make_file name (length s.fs) dirid contents (length s.blocks) in
    let more = length-append s.blocks (contents ∷ []) in
    attach_then (record s { blocks = s.blocks ++ contents ∷ [] }) (more_blocks-IsValid s contents v)
      (change e) dirid _ ((q e).0) (rw ((q e).1) refl) (rw ((q e).1) (omega arith)) λ s' w. w

add_dir-IsValid :
    (change : FsEntry → FsEntry) (name : Bytes) (dirid : ℕ) (s : DemoFs)
    → Quiet change
    → IsValid s
    → IsValid (add_dir change name dirid s).1
unfolding add_dir Quiet
add_dir-IsValid change name dirid s q v =
    let e = make_dir name (length s.fs) dirid [] in
    attach_then s v (change e) dirid _ ((q e).0) (rw ((q e).1) refl) (rw ((q e).1) (omega arith))
      λ s' w. w

same-Quiet : Quiet (λ e. e)
unfolding Quiet
same-Quiet e = (refl, refl)

set_mtime-Quiet : (t : NfsTime3) → Quiet (set_mtime t)
unfolding Quiet
set_mtime-Quiet t e = (refl, refl)

finish-IsValid :
    (clock : ℕ → Duration) (dirid newid : ℕ) (s : DemoFs)
    → IsValid s
    → IsValid (finish clock dirid newid s).1
unfolding finish
finish-IsValid clock dirid newid s v = now_then s v clock _ λ t n w.
    let x = Quiet-IsValid dirid (set_mtime t) _ (set_mtime-Quiet t) w in
    index_then _ x newid _ λ e h. x

pub create-IsValid :
    (dirid : ℕ) (filename : Bytes) (attr : Sattr3) (s : DemoFs)
    → IsValid s
    → IsValid (create dirid filename attr s).1
unfolding create
create-IsValid dirid filename attr s v = lock_then s v _ (
    text_then s v filename _ (
      result_then (add_file (λ e. e) filename dirid [] s) _
        (add_file-IsValid _ filename dirid [] s same-Quiet v)
        λ newid s' w.
          result_then (unwrap (getattr newid s')) _
            (unwrap-IsValid (getattr newid s') (getattr-IsValid newid s' w)) λ a s'' x. x))

pub mkdir-IsValid :
    (clock : ℕ → Duration) (dirid : ℕ) (dirname : Bytes) (s : DemoFs)
    → IsValid s
    → IsValid (mkdir clock dirid dirname s).1
unfolding mkdir
mkdir-IsValid clock dirid dirname s v = lock_then s v _ (
    directory_then s v dirid _ λ is_dir. free_then s v dirid dirname _ (
      text_then s v dirname _ (
        result_then (add_dir (λ e. e) dirname dirid s) _
          (add_dir-IsValid _ dirname dirid s same-Quiet v)
          λ newid. finish-IsValid clock dirid newid)))

pub symlink-IsValid :
    (clock : ℕ → Duration) (dirid : ℕ) (linkname target : Bytes) (attr : Sattr3) (s : DemoFs)
    → IsValid s
    → IsValid (symlink clock dirid linkname target attr s).1
unfolding symlink Quiet
symlink-IsValid clock dirid linkname target attr s v = lock_then s v _ (
    directory_then s v dirid _ λ is_dir. text_then s v linkname _ (
      result_then (add_file (with_ftype nf3_lnk) linkname dirid target s) _
        (add_file-IsValid (with_ftype nf3_lnk) linkname dirid target s (λ e. (refl, refl)) v)
        λ newid. finish-IsValid clock dirid newid))

add_node-IsValid :
    (ftype : Ftype3) (spec : Specdata3) (attrs : Sattr3) (name : Bytes) (dirid : ℕ) (s : DemoFs)
    → IsValid s
    → IsValid (add_node ftype spec attrs name dirid s).1
unfolding Quiet
add_node-IsValid nf3_reg spec attrs name dirid s v =
    text_then s v name _ (add_file-IsValid _ name dirid [] s (λ e. (refl, refl)) v)
add_node-IsValid nf3_dir spec attrs name dirid s v =
    text_then s v name _ (add_dir-IsValid _ name dirid s (λ e. (refl, refl)) v)
add_node-IsValid nf3_blk spec attrs name dirid s v =
    text_then s v name _ (add_file-IsValid _ name dirid [] s (λ e. (refl, refl)) v)
add_node-IsValid nf3_chr spec attrs name dirid s v =
    text_then s v name _ (add_file-IsValid _ name dirid [] s (λ e. (refl, refl)) v)
add_node-IsValid nf3_fifo spec attrs name dirid s v =
    text_then s v name _ (add_file-IsValid _ name dirid [] s (λ e. (refl, refl)) v)
add_node-IsValid nf3_sock spec attrs name dirid s v =
    text_then s v name _ (add_file-IsValid _ name dirid [] s (λ e. (refl, refl)) v)
add_node-IsValid nf3_lnk spec attrs name dirid s v = v

pub mknod-IsValid :
    (clock : ℕ → Duration) (dirid : ℕ) (name : Bytes) (ftype : Ftype3) (spec : Specdata3)
    (attrs : Sattr3) (s : DemoFs)
    → IsValid s
    → IsValid (mknod clock dirid name ftype spec attrs s).1
unfolding mknod
mknod-IsValid clock dirid name ftype spec attrs s v = lock_then s v _ (
    directory_then s v dirid _ λ is_dir. free_then s v dirid name _ (
      result_then (add_node ftype spec attrs name dirid s) _
        (add_node-IsValid ftype spec attrs name dirid s v)
        λ newid. finish-IsValid clock dirid newid))

more_links-Quiet : Quiet more_links
unfolding Quiet
more_links-Quiet e = (refl, refl)

file_only_then :
    {B : Type 0} (s : DemoFs) (v : IsValid s) (c : FsContents) (k : Unit {0} → Action B)
    → ((b : ℕ) → c ≡ file b → IsValid (k tt s).1)
    → IsValid (and_then (file_only c s) k).1
file_only_then s v (file b) k next = next b refl
file_only_then s v (directory dir) k next = v

pub link-IsValid :
    (file_id target_dir_id : ℕ) (link_name : Bytes) (s : DemoFs)
    → IsValid s
    → IsValid (link file_id target_dir_id link_name s).1
unfolding link
link-IsValid file_id target_dir_id link_name s v = lock_then s v _ (
    get_then s v file_id _ λ source there. file_only_then s v source.contents _ λ b is_file.
      directory_then s v target_dir_id _ λ is_dir. free_then s v target_dir_id link_name _ (
        let bound = v.stored file_id in
        attach_then s v _ target_dir_id _ refl (rw is_file refl) (rw there at bound) λ s' w.
          let x = Quiet-IsValid file_id more_links s' more_links-Quiet w in
          index_then _ x (length s.fs) _ λ e h. x))
