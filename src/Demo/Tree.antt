-- ===== src/Demo/Tree.antt =====
-- examples/demo_fs/fs.rs: CREATE, MKDIR, SYMLINK, MKNOD and LINK.
use nfs_mamont_mirror.Prelude.{
  ℕ, ◌+◌, ◌%◌, ◌^◌, not, Bool, true, false, Option, none, some, List, [], length, get_elem?,
}
use nfs_mamont_mirror.Xdr.Reader.{Bytes}
use nfs_mamont_mirror.Xdr.Nfs3.{Fattr3, Sattr3, Specdata3}
use nfs_mamont_mirror.Xdr.Nfs3.Enums.{
  Ftype3, nf3_reg, nf3_dir, nf3_blk, nf3_chr, nf3_lnk, nf3_sock, nf3_fifo, nfs3err_notsupp,
  nfs3err_notdir, nfs3err_isdir, nfs3err_exist,
}
use nfs_mamont_mirror.Demo.{
  FsEntry, FsContents, file, directory, DemoFs, Duration, make_file, make_dir, Action, Outcome, ok,
  err, panic, pure, fail, ◌>>=◌, ◌>>◌, lock, require, get, index, text, assign, set_mtime, now,
  new_block, attach,
}
use nfs_mamont_mirror.Demo.Names.{find_named, getattr}
use nfs_mamont_mirror.Demo.Contents.{or_old}

abbrev pub is_directory : FsContents → Bool
is_directory (file block) = false
is_directory (directory dir) = true

abbrev pub is_dir_entry : Option FsEntry → Bool
is_dir_entry none = false
is_dir_entry (some e) = is_directory e.contents

-- `fs.get(id as usize).is_some_and(|entry| matches!(entry.contents, FSContents::Directory(_)))`
abbrev pub directory_at : List FsEntry → ℕ → Bool
directory_at fs id = is_dir_entry (get_elem? fs id)

abbrev pub list_of : FsContents → List ℕ
list_of (file block) = []
list_of (directory dir) = dir

abbrev pub listed : Option FsEntry → List ℕ
listed none = []
listed (some e) = list_of e.contents

-- The list of a directory, and nothing where there is none.
unfoldable pub children : List FsEntry → ℕ → List ℕ
children fs id = listed (get_elem? fs id)

abbrev pub is_found : Option ℕ → Bool
is_found none = false
is_found (some i) = true

-- `dir.iter().any(|&id| fs.get(id as usize).is_some_and(|file| file.name[..] == name[..]))`
abbrev pub taken : List FsEntry → ℕ → Bytes → Bool
taken fs dirid name = is_found (find_named fs name (children fs dirid))

abbrev pub count_entries : Action ℕ
count_entries s = (ok (length s.fs), s)

-- `Option::unwrap` and `Result::unwrap`, with the mutex free.
abbrev pub unwrap : {A : Type 0} → Outcome A × DemoFs → Outcome A × DemoFs
unwrap (ok a, s) = (ok a, s)
unwrap (err e, s) = (panic, s)
unwrap (panic, s) = (panic, s)

-- A file with contents of its own, changed before it is pushed.
unfoldable pub add_file : (FsEntry → FsEntry) → Bytes → ℕ → Bytes → Action ℕ
add_file change name dirid contents = do
  newid ← count_entries
  block ← new_block contents
  attach (change (make_file name newid dirid contents block)) newid dirid
  pure newid

unfoldable pub add_dir : (FsEntry → FsEntry) → Bytes → ℕ → Action ℕ
add_dir change name dirid = do
  newid ← count_entries
  attach (change (make_dir name newid dirid [])) newid dirid
  pure newid

unfoldable pub create : ℕ → Bytes → Sattr3 → Action (ℕ × Fattr3)
create dirid filename attr = do
  lock
  text filename
  newid ← add_file (λ e. e) filename dirid []
  new_attr ← (λ s. unwrap (getattr newid s))
  pure (newid, new_attr)

unfoldable pub create_exclusive : ℕ → Bytes → Action ℕ
create_exclusive dirid filename = fail nfs3err_notsupp

abbrev pub in_directory : ℕ → Action (Unit {0})
in_directory dirid s = require (directory_at s.fs dirid) nfs3err_notdir s

abbrev pub unless_taken : ℕ → Bytes → Action (Unit {0})
unless_taken dirid name s = require (not (taken s.fs dirid name)) nfs3err_exist s

-- The directory's time of modification, and the answer.
unfoldable pub finish : (ℕ → Duration) → ℕ → ℕ → Action (ℕ × Fattr3)
finish clock dirid newid = do
  t ← now clock
  assign dirid (set_mtime t)
  entry ← index newid
  pure (newid, entry.attr)

unfoldable pub mkdir : (ℕ → Duration) → ℕ → Bytes → Action (ℕ × Fattr3)
mkdir clock dirid dirname = do
  lock
  in_directory dirid
  unless_taken dirid dirname
  text dirname
  newid ← add_dir (λ e. e) dirname dirid
  finish clock dirid newid

abbrev pub with_ftype : Ftype3 → FsEntry → FsEntry
with_ftype ftype e = record e { attr = record (e.attr) { ftype = ftype } }

unfoldable pub symlink : (ℕ → Duration) → ℕ → Bytes → Bytes → Sattr3 → Action (ℕ × Fattr3)
symlink clock dirid linkname target attr = do
  lock
  in_directory dirid
  text linkname
  newid ← add_file (with_ftype nf3_lnk) linkname dirid target
  finish clock dirid newid

-- `apply any additional attributes`
abbrev pub with_attrs : Sattr3 → FsEntry → FsEntry
with_attrs attrs e = record e {
  attr = record (e.attr) {
    mode = or_old attrs.mode e.attr.mode;
    uid = or_old attrs.uid e.attr.uid;
    gid = or_old attrs.gid e.attr.gid;
  };
}

abbrev pub with_device : Ftype3 → Specdata3 → FsEntry → FsEntry
with_device ftype spec e = record e { attr = record (e.attr) { ftype = ftype; rdev = spec } }

-- The match on the type of the node, and the push of what it makes.
abbrev pub add_node : Ftype3 → Specdata3 → Sattr3 → Bytes → ℕ → Action ℕ
add_node nf3_reg spec attrs name dirid = text name >> add_file (with_attrs attrs) name dirid []
add_node nf3_dir spec attrs name dirid = text name >> add_dir (with_attrs attrs) name dirid
add_node nf3_blk spec attrs name dirid =
    text name >> add_file (λ e. with_attrs attrs (with_device nf3_blk spec e)) name dirid []
add_node nf3_chr spec attrs name dirid =
    text name >> add_file (λ e. with_attrs attrs (with_device nf3_chr spec e)) name dirid []
add_node nf3_fifo spec attrs name dirid =
    text name >> add_file (λ e. with_attrs attrs (with_ftype nf3_fifo e)) name dirid []
add_node nf3_sock spec attrs name dirid =
    text name >> add_file (λ e. with_attrs attrs (with_ftype nf3_sock e)) name dirid []
add_node nf3_lnk spec attrs name dirid = fail nfs3err_notsupp

unfoldable pub mknod :
    (ℕ → Duration) → ℕ → Bytes → Ftype3 → Specdata3 → Sattr3 → Action (ℕ × Fattr3)
mknod clock dirid name ftype spec attrs = do
  lock
  in_directory dirid
  unless_taken dirid name
  newid ← add_node ftype spec attrs name dirid
  finish clock dirid newid

abbrev pub more_links : FsEntry → FsEntry
more_links e = record e { attr = record (e.attr) { nlink = (e.attr.nlink + 1) % 2 ^ 32 } }

abbrev pub file_only : FsContents → Action (Unit {0})
file_only (file block) = pure tt
file_only (directory dir) = fail nfs3err_isdir

-- The new entry has the attributes of the source, from before the count of its links.
unfoldable pub link : ℕ → ℕ → Bytes → Action Fattr3
link file_id target_dir_id link_name = do
  lock
  source ← get file_id
  file_only source.contents
  in_directory target_dir_id
  unless_taken target_dir_id link_name
  newid ← count_entries
  attach
      (record {
        id = newid;
        name = link_name;
        parent = target_dir_id;
        attr = source.attr;
        contents = source.contents;
      })
      newid target_dir_id
  assign file_id more_links
  entry ← index newid
  pure entry.attr
