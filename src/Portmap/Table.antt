-- ===== src/Portmap/Table.antt =====
-- src/protocol/nfs/portmap: the table as a map from programs to ports.
use nfs_mamont_mirror.Prelude.{
  ℕ, ◌%◌, ◌^◌, ◌<◌, ◌≡◌, ◌↔◌, true, ◌||◌, Option, none, some, [], ◌∷◌, All, if◌then◌else◌, arith,
}
use nfs_mamont_mirror.Prelude.Table.{
  lookup, insert, remove, Distinct, lookup-insert, lookup-remove, insert-Distinct, remove-Distinct,
}
use nfs_mamont_mirror.Xdr.Portmap.{Mapping, ipproto_tcp, ipproto_udp}
use nfs_mamont_mirror.Portmap.{
  PortmapKey, PortmapTable, portmap_key_eq, same_key, same_key_iff, key_of, key_with, get_port,
  set_absent, set_port, is_some, unset_port, port_or_zero,
}

abbrev IsPort : PortmapKey × ℕ → Type 0
IsPort e = e.1 < 2 ^ 16

-- No program is registered twice, and ports are 16-bit numbers.
pub record IsValid (table : PortmapTable) : Type 0 where
  pub distinct : Distinct table
  pub ports : All IsPort table

insert-ports :
    (k : PortmapKey) (p : ℕ) (t : PortmapTable)
    → p < 2 ^ 16
    → All IsPort t
    → All IsPort (insert k p t)
unfolding insert
insert-ports k p [] h a = (h, tt)
insert-ports k p ((j, w) ∷ t) h a = ground (arith, insert-ports k p t)

remove-ports : (k : PortmapKey) (t : PortmapTable) → All IsPort t → All IsPort (remove k t)
unfolding remove
remove-ports k [] a = tt
remove-ports k ((j, w) ∷ t) a = ground (arith, remove-ports k t)

set_absent-IsValid :
    (m : Mapping) (t : PortmapTable) (o : Option ℕ) → IsValid t → IsValid (set_absent m t o).1
set_absent-IsValid m t none v = record {
  distinct = insert-Distinct (key_of m) (m.port % 2 ^ 16) t v.distinct;
  ports = insert-ports (key_of m) (m.port % 2 ^ 16) t (omega arith) v.ports;
}
set_absent-IsValid m t (some p) v = v

pub set_port-IsValid : (m : Mapping) (t : PortmapTable) → IsValid t → IsValid (set_port m t).1
unfolding set_port
set_port-IsValid m t v = set_absent-IsValid m t (lookup (key_of m) t) v

pub unset_port-IsValid : (m : Mapping) (t : PortmapTable) → IsValid t → IsValid (unset_port m t).1
unfolding unset_port
unset_port-IsValid m t v = record {
  distinct = remove-Distinct _ _ (remove-Distinct (key_with m ipproto_tcp) t v.distinct);
  ports = remove-ports _ _ (remove-ports (key_with m ipproto_tcp) t v.ports);
}

-- The port of a program that SET found registered, or else the one that it registers.
abbrev pub old_or : Option ℕ → ℕ → ℕ
old_or none p = p
old_or (some q) p = q

-- After SET a lookup of the same program finds the port that was there before, and only if there
-- was none the low 16 bits of the new one; other programs keep theirs. The answer is `true`
-- exactly when the program was not registered.
pub get_port-set_port :
    (m : Mapping) (t : PortmapTable) (k : PortmapKey)
    → (get_port (set_port m t).1 k ≡ (
        if same_key (key_of m) k
        then some (old_or (get_port t (key_of m)) (m.port % 2 ^ 16))
        else get_port t k))
      × (((set_port m t).0 ≡ true) ↔ (get_port t (key_of m) ≡ none))
unfolding get_port set_port
get_port-set_port m t k = (
  ground (arith, same_key_iff (key_of m) k, lookup-insert (key_of m) k (m.port % 2 ^ 16) t),
  (λ h. ground arith, λ h. ground arith),
)

-- After UNSET no port is found for the program and version over TCP or UDP; the other entries are
-- kept, those of the same program over another protocol too. The answer is `true` exactly when
-- one of the two was registered.
pub get_port-unset_port :
    (m : Mapping) (t : PortmapTable) (k : PortmapKey)
    → (get_port (unset_port m t).1 k ≡ (
        if same_key (key_with m ipproto_tcp) k || same_key (key_with m ipproto_udp) k
        then none
        else get_port t k))
      × ((unset_port m t).0 ≡ (
          is_some (get_port t (key_with m ipproto_tcp))
          || is_some (get_port t (key_with m ipproto_udp))))
unfolding get_port unset_port
get_port-unset_port m t k = (simp lookup-remove (ground arith), simp lookup-remove (ground arith))

-- What GETPORT answers is a 16-bit port, or 0.
pub port_or_zero-lt :
    (t : PortmapTable) (k : PortmapKey) → All IsPort t → port_or_zero (get_port t k) < 2 ^ 16
unfolding get_port lookup
port_or_zero-lt [] k a = omega arith
port_or_zero-lt ((j, p) ∷ t) k a = ground (arith, port_or_zero-lt t k)
