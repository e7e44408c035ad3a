-- ===== src/Recovery/Settle.antt =====
-- The loop over the crash victims of crates/storage/src/recovery/mod.rs, and the counters it starts from.
use flux_db.Common.{
  ℕ, ◌<◌, ◌≡◌, ◌≢◌, ◌^◌, ◌-◌, refl, ap, Bool, true, false, not, ◌&&◌, ◌||◌, Option, none, some,
  List, [], ◌∷◌, ◌==◌, arith, ◌∙◌, if◌then◌else◌, contains, contains-append, get, get-insert,
  Bool-cases, inl, inr,
}
use flux_db.Wal.Checkpoint.{CheckpointData}
use flux_db.Mvcc.State.{TransactionStatus, active, committed, aborted, TransactionManager}
use flux_db.Mvcc.Manager.{
  seed_clog_from_checkpoint, publish_vacuum_horizon, mark_aborted, notify_waiters, deactivate,
  log_status, is_committed, is_aborted,
}
use flux_db.Recovery.Outcomes.{outcome_or_aborted}
use flux_db.Recovery.Scan.{
  next_of, before_next, settle_victims, seeded, next_txn_of, next_page_of, candidates,
}

-- The outcome behind the loop over the candidates, of the one before it.
abbrev pub settled_outcome : Bool → Option TransactionStatus → Option TransactionStatus
settled_outcome false before = before
settled_outcome true before = outcome_or_aborted before

settled-twice :
    (a b : Bool) (o : Option TransactionStatus)
    → settled_outcome b (settled_outcome a o) ≡ settled_outcome (a || b) o
settled-twice false b o = refl
settled-twice true false o = refl
settled-twice true true none = refl
settled-twice true true (some active) = refl
settled-twice true true (some committed) = refl
settled-twice true true (some aborted) = refl

-- One candidate.
abbrev settle : ℕ → TransactionManager → TransactionManager
settle txn_id tm =
    if not (is_committed tm txn_id) && not (is_aborted tm txn_id)
    then mark_aborted txn_id tm
    else tm

settle_self :
    (id : ℕ) (tm : TransactionManager)
    → id ≢ 0
    → get id (settle id tm).clog ≡ outcome_or_aborted (get id tm.clog)
unfolding is_committed is_aborted mark_aborted notify_waiters deactivate log_status
settle_self id tm n = go (get id tm.clog) refl
  where
    go :
        (o : Option TransactionStatus)
        → get id tm.clog ≡ o
        → get id (settle id tm).clog ≡ outcome_or_aborted (get id tm.clog)
    go none e = ground (arith, get-insert id id aborted tm.clog)
    go (some active) e = ground (arith, get-insert id id aborted tm.clog)
    go (some committed) e = ground arith
    go (some aborted) e = ground arith

settle-status :
    (txn_id id : ℕ) (tm : TransactionManager)
    → id ≢ 0
    → get id (settle txn_id tm).clog ≡ settled_outcome (id == txn_id) (get id tm.clog)
unfolding is_committed is_aborted mark_aborted notify_waiters deactivate log_status
settle-status txn_id id tm n = elim (Bool-cases (id == txn_id)) [
  | inl e ↦
      let same : id ≡ txn_id = ground arith in
      rw (e, same) (settle_self txn_id tm (λ z. n (same ∙ z)))
  | inr e ↦ ground (arith, get-insert txn_id id aborted tm.clog)
]

settle-next :
    (txn_id : ℕ) (tm : TransactionManager) → (settle txn_id tm).next_txn_id ≡ tm.next_txn_id
unfolding is_committed is_aborted mark_aborted notify_waiters deactivate log_status
settle-next txn_id tm = ground arith

pub settle_victims-status :
    (ids : List ℕ) (id : ℕ) (tm : TransactionManager)
    → id ≢ 0
    → get id (settle_victims ids tm).clog ≡ settled_outcome (contains ids id) (get id tm.clog)
unfolding settle_victims
settle_victims-status [] id tm n = refl
settle_victims-status (txn_id ∷ ids) id tm n =
    settle_victims-status ids id (settle txn_id tm) n
    ∙ ap (settled_outcome (contains ids id)) (settle-status txn_id id tm n)
    ∙ settled-twice (id == txn_id) (contains ids id) (get id tm.clog)

pub settle_victims-next :
    (ids : List ℕ) (tm : TransactionManager) → (settle_victims ids tm).next_txn_id ≡ tm.next_txn_id
unfolding settle_victims
settle_victims-next [] tm = refl
settle_victims-next (txn_id ∷ ids) tm =
    settle_victims-next ids (settle txn_id tm) ∙ settle-next txn_id tm

-- The transactions that the checkpoint knows as in flight.
abbrev pub active_of : Option CheckpointData → List ℕ
active_of none = []
active_of (some ckpt) = ckpt.active_txns

-- The counters of a checkpoint keep to 64 bits.
abbrev pub InRange : Option CheckpointData → Type 0
InRange none = Unit
InRange (some ckpt) = (ckpt.next_txn_id < 2 ^ 64) × (ckpt.next_page_id < 2 ^ 64)

pub InRange-before :
    (ckpt : Option CheckpointData)
    → InRange ckpt
    → (before_next (next_txn_of ckpt) < 2 ^ 64 - 1) × (before_next (next_page_of ckpt) < 2 ^ 64 - 1)
InRange-before none range = (omega arith, omega arith)
InRange-before (some ckpt) range = (omega (arith, range), omega (arith, range))

pub next_of-above :
    (highest : ℕ) (o : Option ℕ) → highest < 2 ^ 64 - 1 → highest < next_of highest o
next_of-above highest none h = omega arith
next_of-above highest (some next) h = omega arith

pub seeded-next :
    (ckpt : Option CheckpointData) (tm : TransactionManager)
    → (seeded ckpt tm).next_txn_id ≡ tm.next_txn_id
unfolding seed_clog_from_checkpoint publish_vacuum_horizon
seeded-next none tm = refl
seeded-next (some ckpt) tm = refl

pub contains-candidates :
    (ckpt : Option CheckpointData) (seen : List ℕ) (id : ℕ)
    → contains (candidates ckpt seen) id ≡ (contains (active_of ckpt) id || contains seen id)
contains-candidates none seen id = refl
contains-candidates (some ckpt) seen id = contains-append ckpt.active_txns seen id
