-- ===== src/Rpc/Tracker/Retention.antt =====
-- src/protocol/rpc/transaction_tracker.rs: one call of the tracker, on every branch.
use nfs_mamont_mirror.Prelude.{
  ℕ, ◌+◌, ◌-◌, ◌≤◌, ◌≡◌, ◌↔◌, ◌⊎◌, inl, inr, true, false, Option, none, some, if◌then◌else◌, arith,
  Option-cases, Bool, ap,
}
use nfs_mamont_mirror.Prelude.Table.{
  lookup, Distinct, kept, lookup-insert, lookup-retain, insert-Distinct, retain-Distinct,
}
use nfs_mamont_mirror.Xdr.Reader.{Bytes}
use nfs_mamont_mirror.Rpc.Tracker.{
  TransactionState, in_progress, completed, Key, key_eq, same_key, same_key_iff, recent,
  Transactions, TransactionTracker, housekeeping, is_retransmission, mark_processed, complete,
  note_new,
}

-- No transaction is entered twice.
abbrev pub IsValid : TransactionTracker → Type 0
IsValid t = Distinct t.transactions

abbrev pub status : TransactionTracker → Key → Option TransactionState
status t key = lookup key t.transactions

-- A transaction that has not outlived its retention at time `now`.
abbrev pub IsHeld : ℕ → TransactionTracker → Key → Type 0
IsHeld now t key =
    (status t key ≡ some in_progress)
    ⊎ ((c : ℕ) × (status t key ≡ some (completed c)) × (now ≤ c + t.retention_period))

abbrev pub live : ℕ → TransactionTracker → Key → Option TransactionState
live now t key = kept (recent (now - t.retention_period)) (status t key)

housekeeping_lem :
    (now : ℕ) (t : TransactionTracker) (key : Key)
    → IsValid t
    → lookup key (housekeeping now t.transactions t.retention_period) ≡ live now t key
unfolding housekeeping
housekeeping_lem now t key v = lookup-retain _ key t.transactions v

-- What a request leaves of the entry of any key.
abbrev pub entered : Option TransactionState → Option TransactionState
entered none = some in_progress
entered (some s) = some s

pub status-is_retransmission :
    (now : ℕ) (t : TransactionTracker) (xid : ℕ) (addr : Bytes) (j : Key)
    → IsValid t
    → status (is_retransmission now t xid addr).1 j
      ≡ (if same_key (xid, addr) j then entered (live now t j) else live now t j)
unfolding is_retransmission
status-is_retransmission now t xid addr j v = ground (
  arith,
  housekeeping_lem now t j v,
  housekeeping_lem now t (xid, addr) v,
  same_key_iff (xid, addr) j,
  lookup-insert {K = Key} (xid, addr) j in_progress
      (housekeeping now t.transactions t.retention_period),
)

abbrev pub answered : Option TransactionState → Bool
answered none = false
answered (some _) = true

pub answer_lem :
    (now : ℕ) (t : TransactionTracker) (xid : ℕ) (addr : Bytes)
    → IsValid t
    → (is_retransmission now t xid addr).0 ≡ answered (live now t (xid, addr))
unfolding is_retransmission
answer_lem now t xid addr v = ground (arith, housekeeping_lem now t (xid, addr) v)

answered_iff :
    (now : ℕ) (t : TransactionTracker) (key : Key)
    → (answered (live now t key) ≡ true) ↔ IsHeld now t key
answered_iff now t key = (
  λ h. elim (Option-cases (status t key)) [
    | inl e ↦ cc (ap (λ o. answered (kept (recent (now - t.retention_period)) o)) e)
    | inr (in_progress, e) ↦ inl e
    | inr (completed c, e) ↦ inr (c, e, ground arith)
  ],
  λ h. ground arith,
)

-- A request is answered as a retransmission exactly when its transaction, by `xid` and client
-- address, is in progress, or was completed no longer ago than the retention period.
pub is_retransmission_iff :
    (now : ℕ) (t : TransactionTracker) (xid : ℕ) (addr : Bytes)
    → IsValid t
    → ((is_retransmission now t xid addr).0 ≡ true) ↔ IsHeld now t (xid, addr)
is_retransmission_iff now t xid addr v =
    rw (answer_lem now t xid addr v) (answered_iff now t (xid, addr))

abbrev pub kept_completed : ℕ → Option TransactionState → Option TransactionState
kept_completed now none = none
kept_completed now (some _) = some (completed now)

pub status-mark_processed :
    (now : ℕ) (t : TransactionTracker) (xid : ℕ) (addr : Bytes) (j : Key)
    → status (mark_processed now t xid addr) j
      ≡ (if same_key (xid, addr) j then kept_completed now (status t j) else status t j)
unfolding mark_processed
status-mark_processed now t xid addr j = ground (
  arith,
  same_key_iff (xid, addr) j,
  lookup-insert {K = Key} (xid, addr) j (completed now) t.transactions,
)

note_new-Distinct :
    (key : Key) (m : Transactions) (o : Option TransactionState)
    → Distinct m
    → Distinct (note_new key m o).1
note_new-Distinct key m none d = insert-Distinct key in_progress m d
note_new-Distinct key m (some _) d = d

complete-Distinct :
    (key : Key) (now : ℕ) (m : Transactions) (o : Option TransactionState)
    → Distinct m
    → Distinct (complete key now m o)
complete-Distinct key now m none d = d
complete-Distinct key now m (some _) d = insert-Distinct key (completed now) m d

pub is_retransmission-IsValid :
    (now : ℕ) (t : TransactionTracker) (xid : ℕ) (addr : Bytes)
    → IsValid t
    → IsValid (is_retransmission now t xid addr).1
unfolding is_retransmission housekeeping
is_retransmission-IsValid now t xid addr v =
    note_new-Distinct (xid, addr) _ _
      (retain-Distinct (recent (now - t.retention_period)) t.transactions v)

pub mark_processed-IsValid :
    (now : ℕ) (t : TransactionTracker) (xid : ℕ) (addr : Bytes)
    → IsValid t
    → IsValid (mark_processed now t xid addr)
unfolding mark_processed
mark_processed-IsValid now t xid addr v =
    complete-Distinct (xid, addr) now t.transactions (status t (xid, addr)) v
