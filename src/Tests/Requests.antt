-- ===== src/Tests/Requests.antt =====
-- Requests to the mirror of a directory with one entry, on an operating system that allows all.
use nfs_mamont_mirror.Prelude.{
  ℕ, suc, ◌≡◌, refl, ap, Option, none, some, List, [], ◌∷◌, length, arith,
}
use nfs_mamont_mirror.FsUtil.{Os, DirItem, named, is_dir}
use nfs_mamont_mirror.Mirror.Map.{new}
use nfs_mamont_mirror.Mirror.Consistent.{Consistent}
use nfs_mamont_mirror.Mirror.Keeping.Refreshing.{Lists}
use nfs_mamont_mirror.Mirror.Session.{
  Request, request_readdir, request_mkdir, request_rename, request_remove, after_all,
  after_all-Consistent,
}
use nfs_mamont_mirror.Tests.Mirrored.{system, letters, bare, meta_of}

abbrev entry : DirItem
entry = named (98 ∷ []) (some (meta_of is_dir))

abbrev willing : Os ℕ
willing = record system {
  symlink_metadata = λ path w. (some (meta_of is_dir), suc w);
  create_dir = λ path w. (some tt, suc w);
  rename = λ old name w. (some tt, suc w);
  remove_dir = λ path w. (some tt, suc w);
  read_dir = λ path w. (some (entry ∷ []), suc w);
}

abbrev listed : Option (List DirItem) → ℕ
listed none = 0
listed (some items) = length items

one_entry : Lists 1 willing
one_entry path w listing h = omega (arith, ap listed h)

new_mirror : new willing letters 9 (47 ∷ []) 5 ≡ (some bare, 6)
unfolding new
new_mirror = refl

abbrev requests : List Request
requests =
    request_readdir 0 0 9
    ∷ request_mkdir 0 (99 ∷ [])
    ∷ request_rename 0 (99 ∷ []) 0 (98 ∷ [])
    ∷ request_remove 0 (98 ∷ [])
    ∷ []

after_all-Consistent_example : Consistent (after_all willing letters 9 requests (6, bare)).1
after_all-Consistent_example =
    after_all-Consistent willing letters 9 1 one_entry (47 ∷ []) 5 6 bare requests new_mirror
      (omega arith)
