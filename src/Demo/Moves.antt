-- ===== src/Demo/Moves.antt =====
-- examples/demo_fs/fs.rs: REMOVE (also RMDIR) and RENAME.
use nfs_mamont_mirror.Prelude.{ℕ, ◌==◌, Option, none, some, List, [], ◌∷◌, if◌then◌else◌}
use nfs_mamont_mirror.Xdr.Reader.{Bytes}
use nfs_mamont_mirror.Xdr.Nfs3.Enums.{nfs3err_noent, nfs3err_notdir, nfs3err_isdir}
use nfs_mamont_mirror.Demo.{
  FsEntry, FsContents, file, directory, Action, ok, pure, fail, ◌>>=◌, ◌>>◌, lock, ok_or, get,
  index, assign, new_block, push_child,
}
use nfs_mamont_mirror.Demo.Names.{find_named}
use nfs_mamont_mirror.Demo.Tree.{children, in_directory}

-- `dir.retain(|&x| x != id)`
unfoldable pub without : ℕ → List ℕ → List ℕ
without id [] = []
without id (i ∷ dir) = if i == id then without id dir else i ∷ without id dir

abbrev pub drop_child : ℕ → FsContents → FsContents
drop_child id (file block) = file block
drop_child id (directory dir) = directory (without id dir)

abbrev pub remove_child : ℕ → FsEntry → FsEntry
remove_child id e = record e { contents = drop_child id e.contents }

-- The first child with that name, of an entry that has to be a directory.
abbrev pub find_in : Bytes → FsContents → Action ℕ
find_in name (file block) = fail nfs3err_notdir
find_in name (directory dir) = λ s. ok_or nfs3err_noent (find_named s.fs name dir) s

abbrev pub not_directory : FsContents → Action (Unit {0})
not_directory (directory dir) = fail nfs3err_isdir
not_directory (file block) = pure tt

abbrev pub cleared : ℕ → FsEntry → FsEntry
cleared block e = record e { name = []; contents = file block }

unfoldable pub remove : ℕ → Bytes → Action (Unit {0})
remove dirid filename = do
  lock
  dir_entry ← get dirid
  file_id ← find_in filename dir_entry.contents
  removed ← index file_id
  not_directory removed.contents
  assign dirid (remove_child file_id)
  block ← new_block []
  assign file_id (cleared block)

abbrev pub drop_old : ℕ → Option ℕ → Action (Unit {0})
drop_old dirid none = pure tt
drop_old dirid (some id) = assign dirid (remove_child id)

abbrev pub move_child : ℕ → ℕ → ℕ → Action (Unit {0})
move_child from to id = do
  assign from (remove_child id)
  assign to (push_child id)
  assign id (λ e. record e { parent = to })

abbrev pub move_between : ℕ → ℕ → ℕ → Action (Unit {0})
move_between from to id = if from == to then pure tt else move_child from to id

abbrev pub with_name : Bytes → FsEntry → FsEntry
with_name name e = record e { name = name }

unfoldable pub rename : ℕ → Bytes → ℕ → Bytes → Action (Unit {0})
rename from_dirid from_filename to_dirid to_filename = do
  lock
  from ← index from_dirid
  file_id ← find_in from_filename from.contents
  in_directory to_dirid
  to_remove ← (λ s. (ok (find_named s.fs to_filename (children s.fs to_dirid)), s))
  drop_old to_dirid to_remove
  move_between from_dirid to_dirid file_id
  assign file_id (with_name to_filename)
