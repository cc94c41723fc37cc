-- ===== src/Mirror/Consistent.antt =====
-- examples/mirror_fs/fs_map.rs: every path of the map leads to an entry of that name. It is not said
-- that the name of each entry leads back to it: after a RENAME onto a name that the map knows, the
-- entry that was replaced is still there under its number.
use nfs_mamont_mirror.Prelude.{
  ℕ, ◌+◌, ◌≡◌, ◌≤◌, ◌<◌, ◌==◌, ==_iff, ◌%◌, ◌^◌, Bool, Bool-cases, Option-cases, inl, inr, true,
  false, refl, List, [], ◌∷◌, Option, some, none, if◌then◌else◌, arith, sym, ◌∙◌,
}
use nfs_mamont_mirror.Prelude.Table.{lookup, insert, lookup-insert, lookup-remove}
use nfs_mamont_mirror.Rpc.Tracker.{same_bytes, same_bytes_iff}
use nfs_mamont_mirror.FsUtil.{Metadata}
use nfs_mamont_mirror.Mirror.{FsEntry, FsMap, fileid_eq, symbols_eq}
use nfs_mamont_mirror.Mirror.Map.{
  change_entry, remove_entry, delete_each, delete_entry, create_at, create_entry,
}

-- The entry has that name.
abbrev pub Named : List ℕ → Option FsEntry → Type 0
Named path none = ⊥
Named path (some entry) = entry.name ≡ path

-- Every path leads to an entry of that name; numbers that are still to be given out have none.
pub record Consistent {T : Type 0} (map : FsMap T) : Type 0 where
  pub leads :
      (path : List ℕ) (id : ℕ)
      → lookup path map.path_to_id ≡ some id
      → Named path (lookup id map.id_to_path)
  pub fresh : (id : ℕ) → map.next_fileid ≤ id → lookup id map.id_to_path ≡ none

pub some_injective : {a b : ℕ} → some a ≡ some b → a ≡ b
some_injective h = cc

-- What is entered under a path and a number leaves all other paths to other entries.
pub insert-leads :
    (entries : List (ℕ × FsEntry)) (id j : ℕ) (path : List ℕ) (e : FsEntry)
    → (id ≡ j → e.name ≡ path)
    → Named path (lookup j entries)
    → Named path (lookup j (insert id e entries))
insert-leads entries id j path e own old = elim (Bool-cases (id == j)) [
  | inl t ↦ rw (lookup-insert, t) (own ((==_iff id j).0 t))
  | inr n ↦ rw (lookup-insert, n) old
]

insert-fresh :
    (entries : List (ℕ × FsEntry)) (id j : ℕ) (e : FsEntry)
    → id < j
    → lookup j entries ≡ none
    → lookup j (insert id e entries) ≡ none
insert-fresh entries id j e below old =
    let other : (id == j) ≡ false = ground arith in rw (lookup-insert, other) old

pub apart : (a b : List ℕ) → same_bytes a b ≡ false → a ≡ b → ⊥
apart a b n same = let t = (same_bytes_iff a b).1 same in cc

module _ {T : Type 0} where
  -- A change of an entry that keeps its name.
  pub change_entry-Consistent :
      (f : FsEntry → FsEntry) (k : ℕ) (map : FsMap T)
      → ((e : FsEntry) → (f e).name ≡ e.name)
      → Consistent map
      → Consistent (change_entry f k map)
  change_entry-Consistent f k map keeps c = elim (Option-cases (lookup k map.id_to_path)) [
    | inl gone ↦ rw gone c
    | inr (e, here) ↦ rw here (record {
      leads = λ path id h.
          let old = c.leads path id h in
          rw lookup-insert (
            named path id e (k == id)
              (λ t.
                let same : k ≡ id = (==_iff k id).0 t in
                let here' : lookup id map.id_to_path ≡ some e = rw (sym same) here in
                rw here' at old)
              old);
      fresh = λ id h.
          let old = c.fresh id h in
          elim (Bool-cases (k == id)) [
            | inl t ↦
                let same : k ≡ id = (==_iff k id).0 t in
                let here' : lookup id map.id_to_path ≡ some e = rw (sym same) here in
                absurd (cc (rw here' at old))
            | inr n ↦ rw (lookup-insert, n) old
          ];
    })
  ]
    where
      named :
          (path : List ℕ) (id : ℕ) (e : FsEntry) (b : Bool)
          → (b ≡ true → Named path (some e))
          → Named path (lookup id map.id_to_path)
          → Named path (if b then some (f e) else lookup id map.id_to_path)
      named path id e true own old = keeps e ∙ own refl
      named path id e false own old = old

  -- The entry of a path that the map knows.
  pub known_entry :
      (path : List ℕ) (id : ℕ) (map : FsMap T)
      → Consistent map
      → lookup path map.path_to_id ≡ some id
      → (e : FsEntry) × (lookup id map.id_to_path ≡ some e) × (e.name ≡ path)
  known_entry path id map c h = at (lookup id map.id_to_path) refl (c.leads path id h)
    where
      at :
          (o : Option FsEntry)
          → lookup id map.id_to_path ≡ o
          → Named path o
          → (e : FsEntry) × (lookup id map.id_to_path ≡ some e) × (e.name ≡ path)
      at none h n = absurd n
      at (some e) h n = (e, h, n)

  fresh_entry-Consistent :
      (path : List ℕ) (meta : Metadata) (map : FsMap T)
      → map.next_fileid + 1 < 2 ^ 64
      → Consistent map
      → Consistent (create_at path meta none map).1
  fresh_entry-Consistent path meta map room c =
      let n = map.next_fileid in
      let next : (n + 1) % 2 ^ 64 ≡ n + 1 = omega arith in
      record {
        leads = λ p j h. elim (Bool-cases (same_bytes path p)) [
          | inl t ↦
              let same : path ≡ p = (same_bytes_iff path p).0 t in
              let found : some n ≡ some j = rw (lookup-insert, t) at h in
              let here : (n == j) ≡ true = (==_iff n j).1 (some_injective found) in
              rw (lookup-insert, here) same
          | inr f ↦
              let old = c.leads p j (rw (lookup-insert, f) at h) in
              insert-leads map.id_to_path n j p _
                (λ same. absurd (rw (c.fresh j (omega arith)) at old)) old
        ];
        fresh = λ j h.
            insert-fresh map.id_to_path n j _ (omega (arith, rw next at h))
              (c.fresh j (omega (arith, rw next at h)));
      }

  pub create_entry-Consistent :
      (path : List ℕ) (meta : Metadata) (map : FsMap T)
      → map.next_fileid + 1 < 2 ^ 64
      → Consistent map
      → Consistent (create_entry path meta map).1
  unfolding create_entry
  create_entry-Consistent path meta map room c = elim (Option-cases (lookup path map.path_to_id)) [
    | inl gone ↦ rw gone (fresh_entry-Consistent path meta map room c)
    | inr (id, here) ↦ rw here (change_entry-Consistent _ id map (λ e. refl) c)
  ]

  -- An entry that goes, with the path of its name.
  pub dropped-Consistent :
      (id : ℕ) (e : FsEntry) (map : FsMap T)
      → lookup id map.id_to_path ≡ some e
      → Consistent map
      → Consistent (remove_entry id (some e) map)
  dropped-Consistent id e map here c = record {
    leads = λ p j h. elim (Bool-cases (same_bytes e.name p)) [
      | inl t ↦ absurd (cc (rw (lookup-remove, t) at h))
      | inr f ↦
          let old = c.leads p j (rw (lookup-remove, f) at h) in
          elim (Bool-cases (id == j)) [
            | inl t ↦
                let same : id ≡ j = (==_iff id j).0 t in
                let here' : lookup j map.id_to_path ≡ some e = rw same at here in
                absurd (apart e.name p f (rw here' at old))
            | inr n ↦ rw (lookup-remove, n) old
          ]
    ];
    fresh = λ j h.
        let old = c.fresh j h in
        elim (Bool-cases (id == j)) [
          | inl t ↦ rw (lookup-remove, t) refl
          | inr n ↦ rw (lookup-remove, n) old
        ];
  }

  delete_each-Consistent :
      (ids : List ℕ) (map : FsMap T) → Consistent map → Consistent (delete_each ids map)
  unfolding delete_each
  delete_each-Consistent [] map c = c
  delete_each-Consistent (id ∷ ids) map c = elim (Option-cases (lookup id map.id_to_path)) [
    | inl gone ↦ rw gone (delete_each-Consistent ids map c)
    | inr (e, here) ↦ rw here (delete_each-Consistent ids _ (dropped-Consistent id e map here c))
  ]

  pub delete_entry-Consistent :
      (depth id : ℕ) (map : FsMap T) → Consistent map → Consistent (delete_entry depth id map)
  unfolding delete_entry
  delete_entry-Consistent depth id map c = delete_each-Consistent _ map c
