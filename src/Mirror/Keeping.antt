-- ===== src/Mirror/Keeping.antt =====
-- examples/mirror_fs: what a call of the mirror file system keeps to, step by step. `Keeps n m a`
-- says that `a`, begun with a map whose paths lead to entries of their names and with at most the
-- numbers below `n` given out, leaves such a map, with at most the numbers below `m` given out,
-- whatever it returns.
pub mod Refreshing
pub mod Methods
pub mod Making
pub mod Moving
use nfs_mamont_mirror.Prelude.{
  ℕ, ◌+◌, ◌≤◌, ◌<◌, ◌^◌, ◌≡◌, refl, Bool, true, false, Option, none, some, if◌then◌else◌, arith,
  List,
}
use nfs_mamont_mirror.Prelude.Table.{lookup}
use nfs_mamont_mirror.Xdr.Reader.{Bytes}
use nfs_mamont_mirror.Xdr.Nfs3.Enums.{NfsStat3}
use nfs_mamont_mirror.FsUtil.{Io, Os, PathBuf}
use nfs_mamont_mirror.Mirror.{
  FsEntry, FsMap, SymbolTable, Outcome, ok, err, panic, Action, State, ◌>>=◌, and_then, pure, fail,
  ok_or, unwrap, ignore, ignored, try_io, io, require, change, find_entry, fileid_eq,
}
use nfs_mamont_mirror.Mirror.Map.{
  changed, change_entry, sym_to_path, intern, exists_no_traverse, names_of, find_child,
}
use nfs_mamont_mirror.Mirror.Consistent.{Consistent, change_entry-Consistent}

module _ {T : Type 0} where
  pub record Within (n : ℕ) (map : FsMap T) : Type 0 where
    pub consistent : Consistent map
    pub below : map.next_fileid ≤ n

  pub Within-weaken : {n m : ℕ} {map : FsMap T} → n ≤ m → Within n map → Within m map
  Within-weaken h v = record { consistent = v.consistent; below = omega (arith, v.below) }

  pub change_entry_next :
      (f : FsEntry → FsEntry) (id : ℕ) (map : FsMap T)
      → (change_entry f id map).next_fileid ≡ map.next_fileid
  change_entry_next f id map = at (lookup id map.id_to_path)
    where
      at : (o : Option FsEntry) → (changed f id o map).next_fileid ≡ map.next_fileid
      at none = refl
      at (some e) = refl

module _ {W T : Type 0} where
  pub record Keeps {A : Type 0} (n m : ℕ) (call : Action (State W T) A) : Type 0 where
    pub keeps : (s : State W T) → Within n s.1 → Within m (call s).1.1

  pub Keeps-weaken :
      {A : Type 0} {n m p : ℕ} (call : Action (State W T) A)
      → m ≤ p
      → Keeps n m call
      → Keeps n p call
  Keeps-weaken call h k = record { keeps = λ s v. Within-weaken h (k.keeps s v) }

  -- One step, and what follows it on every result.
  pub Keeps-then :
      {A B : Type 0} {n m p : ℕ}
      → m ≤ p
      → (first : Action (State W T) A) (next : A → Action (State W T) B) → Keeps n m first
      → ((a : A) → Keeps m p (next a))
      → Keeps n p (first >>= next)
  Keeps-then {A = A} {m = m} {p = p} h first next k l = record {
    keeps = λ s v. at (first s) (k.keeps s v);
  }
    where
      at : (r : Outcome A × State W T) → Within m r.1.1 → Within p (and_then r next).1.1
      at (ok a, s) w = (l a).keeps s w
      at (err e, s) w = Within-weaken h w
      at (panic, s) w = Within-weaken h w

  pub Keeps-seq :
      {A B : Type 0} {n : ℕ} (first : Action (State W T) A) (next : A → Action (State W T) B)
      → Keeps n n first
      → ((a : A) → Keeps n n (next a))
      → Keeps n n (first >>= next)
  Keeps-seq first next k l = Keeps-then (omega arith) first next k l

  pub pure-Keeps : {A : Type 0} {n : ℕ} (a : A) → Keeps n n (pure a)
  pure-Keeps a = record { keeps = λ s v. v }

  pub fail-Keeps : (A : Type 0) {n : ℕ} (e : NfsStat3) → Keeps {A = A} n n (fail e)
  fail-Keeps A e = record { keeps = λ s v. v }

  pub require-Keeps : {n : ℕ} (b : Bool) (e : NfsStat3) → Keeps n n (require b e)
  require-Keeps true e = record { keeps = λ s v. v }
  require-Keeps false e = record { keeps = λ s v. v }

  pub ok_or-Keeps : {A : Type 0} {n : ℕ} (e : NfsStat3) (o : Option A) → Keeps n n (ok_or e o)
  ok_or-Keeps e none = record { keeps = λ s v. v }
  ok_or-Keeps e (some a) = record { keeps = λ s v. v }

  -- What the map is asked for.
  pub found-Keeps :
      {A : Type 0} {n : ℕ} (e : NfsStat3) (find : FsMap T → Option A)
      → Keeps n n (λ s. ok_or e (find s.1) s)
  found-Keeps e find = record { keeps = λ s v. (ok_or-Keeps e (find s.1)).keeps s v }

  pub unwrap-Keeps : {A : Type 0} {n : ℕ} (o : Option A) → Keeps n n (unwrap o)
  unwrap-Keeps none = record { keeps = λ s v. v }
  unwrap-Keeps (some a) = record { keeps = λ s v. v }

  pub asked-Keeps :
      {A : Type 0} {n : ℕ} (find : FsMap T → Option A) → Keeps n n (λ s. unwrap (find s.1) s)
  asked-Keeps find = record { keeps = λ s v. (unwrap-Keeps (find s.1)).keeps s v }

  pub try_io-Keeps : {A : Type 0} {n : ℕ} (call : Io W A) → Keeps n n (try_io call)
  try_io-Keeps call = record { keeps = λ s v. v }

  pub io-Keeps : {A : Type 0} {n : ℕ} (e : NfsStat3) (call : Io W A) → Keeps n n (io e call)
  io-Keeps e call = record {
    keeps = λ s v. (ok_or-Keeps e (call s.0).0).keeps ((call s.0).1, s.1) v;
  }

  pub find_entry-Keeps : {n : ℕ} (id : ℕ) → Keeps n n (find_entry id)
  unfolding find_entry
  find_entry-Keeps id = found-Keeps _ λ map. lookup id map.id_to_path

  pub ignore-Keeps :
      {A : Type 0} {n m : ℕ} (call : Action (State W T) A)
      → Keeps n m call
      → Keeps n m (ignore call)
  ignore-Keeps {A = A} {n = n} {m = m} call k = record { keeps = λ s v. at (call s) (k.keeps s v) }
    where
      at : (r : Outcome A × State W T) → Within m r.1.1 → Within m (ignored r).1.1
      at (ok a, s) w = w
      at (err e, s) w = w
      at (panic, s) w = w

  pub if-Keeps :
      {A : Type 0} {n m : ℕ} (b : Bool) (this other : Action (State W T) A)
      → Keeps n m this
      → Keeps n m other
      → Keeps n m (if b then this else other)
  if-Keeps true this other k l = k
  if-Keeps false this other k l = l

  -- A change of an entry that keeps its name.
  pub change_entry-Keeps :
      {n : ℕ} (f : FsEntry → FsEntry) (id : ℕ)
      → ((e : FsEntry) → (f e).name ≡ e.name)
      → Keeps n n (change (change_entry f id))
  change_entry-Keeps f id same = record {
    keeps = λ s v. record {
      consistent = change_entry-Consistent f id s.1 same v.consistent;
      below = omega (arith, v.below, change_entry_next f id s.1);
    };
  }

module _ {W T : Type 0} (os : Os W) (table : SymbolTable T) (depth : ℕ) where
  pub intern-Keeps : {n : ℕ} (name : Bytes) → Keeps n n (intern os table depth name)
  intern-Keeps name = record {
    keeps = λ s v.
        let (sym, interned) = table.intern name s.1.interned in
        (unwrap-Keeps sym).keeps (s.0, record (s.1) { interned = interned })
          (record {
            consistent = record { leads = v.consistent.leads; fresh = v.consistent.fresh };
            below = v.below;
          });
  }

  pub sym_to_path-Keeps :
      {n : ℕ} (symlist : List ℕ) → Keeps n n (sym_to_path os table depth symlist)
  unfolding sym_to_path
  sym_to_path-Keeps symlist = record { keeps = λ s v. (unwrap-Keeps _).keeps s v }

  pub exists_no_traverse-Keeps :
      {n : ℕ} (path : PathBuf) → Keeps n n (exists_no_traverse os table depth path)
  exists_no_traverse-Keeps path = record { keeps = λ s v. v }
