-- ===== src/Rpc/Tracker.antt =====
-- src/protocol/rpc/transaction_tracker.rs. The client address is its bytes; a time is a number of
-- clock ticks since the epoch, and each call is handed the clock's value, which the source reads.
-- `SystemTime::now() - max_age` stops at 0 here: no time lies before the epoch.
pub mod Retention
pub mod Trace
use nfs_mamont_mirror.Prelude.{
  ℕ, ◌-◌, ◌≡◌, ◌↔◌, Bool, true, false, ◌&&◌, Option, none, some, List, [], ◌∷◌, leb, ◌==◌, arith,
}
use nfs_mamont_mirror.Prelude.Table.{Eq, lookup, insert, retain}
use nfs_mamont_mirror.Xdr.Reader.{Bytes}

pub data TransactionState : Type 0 where
  in_progress : TransactionState
  completed : ℕ → TransactionState

-- `(u32, String)`
abbrev pub Key : Type 0
Key = ℕ × Bytes

abbrev pub same_bytes : Bytes → Bytes → Bool
same_bytes [] [] = true
same_bytes (a ∷ as') (b ∷ bs) = a == b && same_bytes as' bs
same_bytes _ _ = false

pub same_bytes_iff : (a b : Bytes) → (same_bytes a b ≡ true) ↔ (a ≡ b)
same_bytes_iff [] [] = ground arith
same_bytes_iff [] (b ∷ bs) = ground arith
same_bytes_iff (a ∷ as') [] = ground arith
same_bytes_iff (a ∷ as') (b ∷ bs) = ground (arith, same_bytes_iff as' bs)

abbrev pub same_key : Key → Key → Bool
same_key k j = k.0 == j.0 && same_bytes k.1 j.1

pub same_key_iff : (k j : Key) → (same_key k j ≡ true) ↔ (k ≡ j)
same_key_iff k j = ground (arith, same_bytes_iff k.1 j.1)

instance abbrev pub key_eq : Eq Key
key_eq = record { beq = same_key; beq_iff = same_key_iff }

abbrev pub Transactions : Type 0
Transactions = List (Key × TransactionState)

pub record TransactionTracker : Type 0 where
  pub retention_period : ℕ
  pub transactions : Transactions

abbrev pub new : ℕ → TransactionTracker
new retention_period = record { retention_period = retention_period; transactions = [] }

-- The test of `housekeeping`: `completion_time >= cutoff`.
abbrev pub recent : ℕ → TransactionState → Bool
recent cutoff in_progress = true
recent cutoff (completed completion_time) = leb cutoff completion_time

unfoldable pub housekeeping : ℕ → Transactions → ℕ → Transactions
housekeeping now transactions max_age =
    let cutoff = now - max_age in retain (recent cutoff) transactions

-- `true` for a retransmission; a new transaction is entered as in progress.
abbrev pub note_new : Key → Transactions → Option TransactionState → Bool × Transactions
note_new key transactions none = (false, insert key in_progress transactions)
note_new key transactions (some _) = (true, transactions)

unfoldable pub is_retransmission : ℕ → TransactionTracker → ℕ → Bytes → Bool × TransactionTracker
is_retransmission now self xid client_addr =
    let key : Key = (xid, client_addr) in
    let transactions = housekeeping now self.transactions self.retention_period in
    let (seen, transactions') = note_new key transactions (lookup key transactions) in
    (seen, record self { transactions = transactions' })

abbrev pub complete : Key → ℕ → Transactions → Option TransactionState → Transactions
complete key completion_time transactions none = transactions
complete key completion_time transactions (some _) =
    insert key (completed completion_time) transactions

unfoldable pub mark_processed : ℕ → TransactionTracker → ℕ → Bytes → TransactionTracker
mark_processed now self xid client_addr =
    let key : Key = (xid, client_addr) in
    record self { transactions = complete key now self.transactions (lookup key self.transactions) }
