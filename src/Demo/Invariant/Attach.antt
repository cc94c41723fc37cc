-- ===== src/Demo/Invariant/Attach.antt =====
-- examples/demo_fs: a new entry, and its place in a directory.
use nfs_mamont_mirror.Prelude.{
  ◌++◌, ℕ, ◌≡◌, ◌≤◌, ◌==◌, refl, Bool, true, false, Option, some, List, [], ◌∷◌, length, get_elem?,
  modify, if◌then◌else◌, count, arith, get_elem?-length, get_elem?-push, ◌<◌, length-append,
}
use nfs_mamont_mirror.Demo.{FsEntry, DemoFs, with_child, push_child}
use nfs_mamont_mirror.Demo.Tree.{directory_at, listed, children}
use nfs_mamont_mirror.Demo.Invariant.{IsValid, child_of, block_end, Alike-IsValid, Alike-refl}
use nfs_mamont_mirror.Demo.Invariant.Lists.{reshape-Kept, children-push, push-Reshapes}
use nfs_mamont_mirror.Xdr.Reader.{Bytes}

-- The entries with a new one at their end.
count-pushed :
    (fs : List FsEntry) (e : FsEntry) (d i : ℕ)
    → listed (some e) ≡ []
    → count i (children (fs ++ e ∷ []) d) ≤ count i (children fs d)
unfolding children
count-pushed fs e d i h = rw get_elem?-push (at (d == length fs))
  where
    at :
        (b : Bool)
        → count i (listed (if b then some e else get_elem? fs d))
          ≤ count i (listed (get_elem? fs d))
    at true = rw h (omega arith)
    at false = omega arith

nowhere : (s : DemoFs) (d : ℕ) → IsValid s → count (length s.fs) (children s.fs d) ≡ 0
nowhere s d v = let h = v.once d (length s.fs) in omega (arith, rw get_elem?-length at h)

-- What holds of the entry at a place, if it holds of the old one or of the new one there.
pushed_at :
    (P : Option FsEntry → ℕ) (fs : List FsEntry) (e : FsEntry) (i : ℕ)
    → P (get_elem? (fs ++ e ∷ []) i) ≡ (if i == length fs then P (some e) else P (get_elem? fs i))
pushed_at P fs e i = rw get_elem?-push (at (i == length fs))
  where
    at :
        (b : Bool)
        → P (if b then some e else get_elem? fs i) ≡ (if b then P (some e) else P (get_elem? fs i))
    at true = refl
    at false = refl

root-lt : (fs : List FsEntry) → directory_at fs 1 ≡ true → 1 < length fs
root-lt [] h = cc
root-lt (x ∷ []) h = cc
root-lt (x ∷ (y ∷ fs)) h = omega arith

pub attached-IsValid :
    (s : DemoFs) (e : FsEntry) (dirid : ℕ)
    → e.parent ≡ dirid
    → listed (some e) ≡ []
    → block_end (some e) ≤ length s.blocks
    → IsValid s
    → IsValid (record s { fs = modify dirid (push_child (length s.fs)) (s.fs ++ e ∷ []) })
attached-IsValid s e dirid p l b v = record {
  once = λ d i.
      let n = length s.fs in
      let kept = reshape-Kept dirid i (with_child n) (s.fs ++ e ∷ []) (push-Reshapes n) in
      let a = kept.same_parent d in
      let c = children-push dirid n d i (s.fs ++ e ∷ []) in
      let f = count-pushed s.fs e d i l in
      let old = v.once d i in
      let gone = nowhere s d v in let q = pushed_at (child_of d) s.fs e i in ground (arith);
  stored = λ k.
      let n = length s.fs in
      let kept = reshape-Kept dirid k (with_child n) (s.fs ++ e ∷ []) (push-Reshapes n) in
      let a = kept.same_block in
      let old = v.stored k in let q = pushed_at block_end s.fs e k in ground arith;
  rooted =
      let n = length s.fs in
      let kept = reshape-Kept dirid 1 (with_child n) (s.fs ++ e ∷ []) (push-Reshapes n) in
      let old : (1 == n) ≡ false = ground (arith, root-lt s.fs v.rooted) in
      rw (kept.same_kind, get_elem?-push, old) (v.rooted);
}

-- A new block, that no file has yet.
pub more_blocks-IsValid :
    (s : DemoFs) (bytes : Bytes)
    → IsValid s
    → IsValid (record s { blocks = s.blocks ++ bytes ∷ [] })
more_blocks-IsValid s bytes v =
    let more = length-append s.blocks (bytes ∷ []) in
    Alike-IsValid s (record s { blocks = s.blocks ++ bytes ∷ [] })
      (λ k. Alike-refl (get_elem? s.fs k)) (omega arith) v
