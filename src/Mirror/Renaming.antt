-- ===== src/Mirror/Renaming.antt =====
-- examples/mirror_fs/fs.rs: what REMOVE and RENAME do to the map.
use nfs_mamont_mirror.Prelude.{
  ℕ, ◌≡◌, ◌==◌, ==_iff, Bool-cases, inl, inr, Option-cases, true, refl, List, some, sym, ◌∙◌, false,
  none,
}
use nfs_mamont_mirror.Prelude.Table
use nfs_mamont_mirror.Prelude.Table.{lookup-insert, lookup-remove}
use nfs_mamont_mirror.Rpc.Tracker.{same_bytes, same_bytes_iff}
use nfs_mamont_mirror.Mirror.{FsEntry, FsMap, fileid_eq, symbols_eq, State, ok, SymbolTable}
use nfs_mamont_mirror.Mirror.Map.{change_entry}
use nfs_mamont_mirror.Mirror.Changes.{with_child, without_child, move_child, rename_entry}
use nfs_mamont_mirror.Mirror.Consistent.{
  Consistent, change_entry-Consistent, apart, insert-leads, some_injective, known_entry,
}
use nfs_mamont_mirror.FsUtil.{Os}

module _ {T : Type 0} where
  -- The map with an entry under another path.
  abbrev under : List ℕ → List ℕ → ℕ → FsEntry → FsMap T → FsMap T
  under from to id e map = record map {
    id_to_path = Table.insert id (record e { name = to }) map.id_to_path;
    path_to_id = Table.insert to id (Table.remove from map.path_to_id);
  }

  under-Consistent :
      (from to : List ℕ) (id : ℕ) (e : FsEntry) (map : FsMap T)
      → Table.lookup id map.id_to_path ≡ some e
      → e.name ≡ from
      → Consistent map
      → Consistent (under from to id e map)
  under-Consistent from to id e map here own c = record {
    leads = λ p j h. elim (Bool-cases (same_bytes to p)) [
      | inl t ↦
          let same : to ≡ p = (same_bytes_iff to p).0 t in
          let found : some id ≡ some j = rw (lookup-insert, t) at h in
          let there : (id == j) ≡ true = (==_iff id j).1 (some_injective found) in
          rw (lookup-insert, there) same
      | inr f ↦ elim (Bool-cases (same_bytes from p)) [
        | inl t ↦ absurd (cc (rw (lookup-insert, f, lookup-remove, t) at h))
        | inr g ↦
            let old = c.leads p j (rw (lookup-insert, f, lookup-remove, g) at h) in
            insert-leads map.id_to_path id j p (record e { name = to })
              (λ same.
                let here' : Table.lookup j map.id_to_path ≡ some e = rw same at here in
                absurd (apart from p g (sym own ∙ rw here' at old)))
              old
      ]
    ];
    fresh = λ j h.
        let old = c.fresh j h in
        elim (Bool-cases (id == j)) [
          | inl t ↦ let same : id ≡ j = (==_iff id j).0 t in absurd (cc (rw same at here, old))
          | inr n ↦ rw (lookup-insert, n) old
        ];
  }

module _ {W T : Type 0} (os : Os W) (table : SymbolTable T) (depth : ℕ) where
  move_child-Consistent :
      (from to id : ℕ) (map : FsMap T)
      → Consistent map
      → Consistent (move_child os table depth from to id map)
  move_child-Consistent from to id map c = elim (Bool-cases (to == from)) [
    | inl t ↦ rw t c
    | inr n ↦ rw n (
        change_entry-Consistent (with_child id) to _ (λ e. refl)
          (change_entry-Consistent (without_child id) from map (λ e. refl) c))
  ]

  change_entry_paths :
      (f : FsEntry → FsEntry) (k : ℕ) (map : FsMap T)
      → (change_entry f k map).path_to_id ≡ map.path_to_id
  change_entry_paths f k map = elim (Option-cases (Table.lookup k map.id_to_path)) [
    | inl gone ↦ rw gone refl
    | inr (e, here) ↦ rw here refl
  ]

  move_child_paths :
      (from to id : ℕ) (map : FsMap T)
      → (move_child os table depth from to id map).path_to_id ≡ map.path_to_id
  move_child_paths from to id map = elim (Bool-cases (to == from)) [
    | inl t ↦ rw t refl
    | inr n ↦
        rw n
          (change_entry_paths (with_child id) to _ ∙ change_entry_paths (without_child id) from map)
  ]

  -- What `rename_entry`, the part of RENAME on the map, does, for any operating system: when every
  -- path of the map leads to an entry of that name and no number still to be given out has one, it
  -- does not panic, leaves the world alone, and this is so afterwards. If the old path was known
  -- under a number and differs from the new one, then the new path has that number and the old one
  -- has none.
  pub rename_entry-Consistent :
      (from_dirid to_dirid : ℕ) (from to : List ℕ) (s : State W T)
      → Consistent s.1
      → (map : FsMap T) × (rename_entry os table depth from_dirid to_dirid from to s
          ≡ (ok tt, (s.0, map)))
        × Consistent map
        × ((id : ℕ)
            → Table.lookup from s.1.path_to_id ≡ some id
            → same_bytes to from ≡ false
            → (Table.lookup to map.path_to_id ≡ some id)
              × (Table.lookup from map.path_to_id ≡ none))
  unfolding rename_entry
  rename_entry-Consistent from_dirid to_dirid from to s c =
      elim (Option-cases (Table.lookup from s.1.path_to_id)) [
        | inl gone ↦ (s.1, rw gone refl, c, λ id h. absurd (cc (rw gone at h)))
        | inr (id, known) ↦
            let (e, here, own) = known_entry from id s.1 c known in
            let map = under from to id e s.1 in
            (
              move_child os table depth from_dirid to_dirid id map,
              rw (known, here) refl,
              move_child-Consistent from_dirid to_dirid id map
                  (under-Consistent from to id e s.1 here own c),
              λ id' known' other.
                  let same : some id ≡ some id' = sym known ∙ known' in
                  let differ : same_bytes from from ≡ true = (same_bytes_iff from from).1 refl in
                  let self : same_bytes to to ≡ true = (same_bytes_iff to to).1 refl in
                  (
                    rw (move_child_paths from_dirid to_dirid id map, lookup-insert, self) same,
                    rw
                        (
                          move_child_paths from_dirid to_dirid id map,
                          lookup-insert,
                          other,
                          lookup-remove,
                          differ,
                        )
                        refl,
                  ),
            )
      ]
