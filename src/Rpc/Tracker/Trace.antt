-- ===== src/Rpc/Tracker/Trace.antt =====
-- src/protocol/rpc/transaction_tracker.rs: requests and completions of any number of
-- connections, which share one tracker behind a mutex, as one sequence of calls.
use nfs_mamont_mirror.Prelude.{
  ℕ, ◌+◌, ◌≤◌, ◌≡◌, refl, inl, inr, Bool, true, false, some, List, [], ◌∷◌, All, if◌then◌else◌, not,
  ◌&&◌, Bool-cases, arith, subst, sym,
}
use nfs_mamont_mirror.Xdr.Reader.{Bytes}
use nfs_mamont_mirror.Rpc.Tracker.{
  in_progress, Key, same_key, same_key_iff, TransactionTracker, is_retransmission, mark_processed,
}
use nfs_mamont_mirror.Rpc.Tracker.Retention.{
  IsValid, status, IsHeld, status-is_retransmission, is_retransmission_iff, status-mark_processed,
  is_retransmission-IsValid, mark_processed-IsValid, answer_lem,
}

-- A call of the tracker by a handler, with the time at which it reads the clock.
pub data Event : Type 0 where
  request processed : ℕ → ℕ → Bytes → Event

unfoldable pub step : Event → TransactionTracker → TransactionTracker
step (request now xid addr) t = (is_retransmission now t xid addr).1
step (processed now xid addr) t = mark_processed now t xid addr

-- Whether the event is a request of the transaction `key` that the tracker lets through.
unfoldable pub admits : Key → Event → TransactionTracker → Bool
admits key (request now xid addr) t =
    same_key (xid, addr) key && not (is_retransmission now t xid addr).0
admits key (processed now xid addr) t = false

-- How many requests of `key` are let through, and so executed.
unfoldable pub executions : Key → List Event → TransactionTracker → ℕ
executions key [] t = 0
executions key (e ∷ es) t = (if admits key e t then 1 else 0) + executions key es (step e t)

-- All events lie in the retention period that ends at `until`.
abbrev pub InWindow : ℕ → ℕ → Event → Type 0
InWindow until retention (request now xid addr) = (now ≤ until) × (until ≤ now + retention)
InWindow until retention (processed now xid addr) = (now ≤ until) × (until ≤ now + retention)

-- The event does not complete the transaction `key`.
abbrev pub Leaves : Key → Event → Type 0
Leaves key (request now xid addr) = Unit
Leaves key (processed now xid addr) = same_key (xid, addr) key ≡ false

step-IsValid : (e : Event) (t : TransactionTracker) → IsValid t → IsValid (step e t)
unfolding step
step-IsValid (request now xid addr) t v = is_retransmission-IsValid now t xid addr v
step-IsValid (processed now xid addr) t v = mark_processed-IsValid now t xid addr v

retention-step :
    (e : Event) (t : TransactionTracker) → (step e t).retention_period ≡ t.retention_period
unfolding step is_retransmission mark_processed
retention-step (request now xid addr) t = refl
retention-step (processed now xid addr) t = refl

pub retention-request :
    (now : ℕ) (t : TransactionTracker) (xid : ℕ) (addr : Bytes)
    → (is_retransmission now t xid addr).1.retention_period ≡ t.retention_period
unfolding is_retransmission
retention-request now t xid addr = refl

pub retention-processed :
    (now : ℕ) (t : TransactionTracker) (xid : ℕ) (addr : Bytes)
    → (mark_processed now t xid addr).retention_period ≡ t.retention_period
unfolding mark_processed
retention-processed now t xid addr = refl

step-IsHeld :
    (e : Event) (t : TransactionTracker) (key : Key) (until : ℕ)
    → IsValid t
    → InWindow until t.retention_period e
    → IsHeld until t key
    → IsHeld until (step e t) key
unfolding step
step-IsHeld (request now xid addr) t key until v w h = elim h [
  | inl e ↦ inl (ground (arith, status-is_retransmission now t xid addr key v))
  | inr (c, e, l) ↦ inr (
    c,
    ground (arith, status-is_retransmission now t xid addr key v),
    omega (arith, retention-request now t xid addr),
  )
]
step-IsHeld (processed now xid addr) t key until v w h =
    elim (Bool-cases (same_key (xid, addr) key)) [
      | inl same ↦ inr (
        now,
        ground (arith, status-mark_processed now t xid addr key),
        omega (arith, retention-processed now t xid addr),
      )
      | inr other ↦ elim h [
        | inl e ↦ inl (ground (arith, status-mark_processed now t xid addr key))
        | inr (c, e, l) ↦ inr (
          c,
          ground (arith, status-mark_processed now t xid addr key),
          omega (arith, retention-processed now t xid addr),
        )
      ]
    ]

admitted-IsHeld :
    (e : Event) (t : TransactionTracker) (key : Key) (until : ℕ)
    → IsValid t
    → admits key e t ≡ true
    → IsHeld until (step e t) key
unfolding step admits
admitted-IsHeld (request now xid addr) t key until v h = inl (
    ground (
      arith,
      answer_lem now t xid addr v,
      status-is_retransmission now t xid addr key v,
      same_key_iff (xid, addr) key,
    ))
admitted-IsHeld (processed now xid addr) t key until v h = cc

held_admits_none :
    (e : Event) (t : TransactionTracker) (key : Key) (until : ℕ)
    → IsValid t
    → InWindow until t.retention_period e
    → IsHeld until t key
    → admits key e t ≡ false
unfolding admits
held_admits_none (request now xid addr) t key until v w h =
    elim (Bool-cases (same_key (xid, addr) key)) [
      | inl same ↦
          let held =
            subst (IsHeld now t) (sym ((same_key_iff (xid, addr) key).0 same)) (earlier h) in
          ground (arith, (is_retransmission_iff now t xid addr v).1 held)
      | inr other ↦ rw other
    ]
  where
    earlier : IsHeld until t key → IsHeld now t key
    earlier (inl e) = inl e
    earlier (inr (c, e, l)) = inr (c, e, omega arith)
held_admits_none (processed now xid addr) t key until v w h = refl

held_executions :
    (key : Key) (es : List Event) (t : TransactionTracker) (until : ℕ)
    → IsValid t
    → All (InWindow until t.retention_period) es
    → IsHeld until t key
    → executions key es t ≡ 0
unfolding executions
held_executions key [] t until v w h = refl
held_executions key (e ∷ es) t until v w h = rw (held_admits_none e t key until v w.0 h) (
    omega (
      arith,
      held_executions key es (step e t) until (step-IsValid e t v) (rw (retention-step e t) w.1)
          (step-IsHeld e t key until v w.0 h),
    ))

-- Among calls of one tracker that all fall within one retention period, in whatever order the
-- connections make them, at most one request of a transaction is let through.
pub executions-le_one :
    (key : Key) (es : List Event) (t : TransactionTracker) (until : ℕ)
    → IsValid t
    → All (InWindow until t.retention_period) es
    → executions key es t ≤ 1
unfolding executions
executions-le_one key [] t until v w = omega arith
executions-le_one key (e ∷ es) t until v w =
    let v' = step-IsValid e t v in
    let w' = subst (λ r. All (InWindow until r) es) (sym (retention-step e t)) w.1 in
    elim (Bool-cases (admits key e t)) [
      | inl first ↦
          let none_after =
            held_executions key es (step e t) until v' w' (admitted-IsHeld e t key until v first) in
          rw first (omega (arith, none_after))
      | inr later ↦
          let rest = executions-le_one key es (step e t) until v' w' in
          rw later (omega (arith, rest))
    ]

step-in_progress :
    (e : Event) (t : TransactionTracker) (key : Key)
    → IsValid t
    → Leaves key e
    → status t key ≡ some in_progress
    → (status (step e t) key ≡ some in_progress) × (admits key e t ≡ false)
unfolding step admits
step-in_progress (request now xid addr) t key v l h = (
  ground (arith, status-is_retransmission now t xid addr key v),
  ground (arith, answer_lem now t xid addr v, same_key_iff (xid, addr) key),
)
step-in_progress (processed now xid addr) t key v l h =
    (ground (arith, status-mark_processed now t xid addr key), refl)

-- While a transaction is in progress no request of it is let through, however much time passes:
-- only its own completion ends that.
pub executions_in_progress :
    (key : Key) (es : List Event) (t : TransactionTracker)
    → IsValid t
    → All (Leaves key) es
    → status t key ≡ some in_progress
    → executions key es t ≡ 0
unfolding executions
executions_in_progress key [] t v l h = refl
executions_in_progress key (e ∷ es) t v l h =
    let (h', passed) = step-in_progress e t key v l.0 h in
    rw passed (omega (arith, executions_in_progress key es (step e t) (step-IsValid e t v) l.1 h'))
