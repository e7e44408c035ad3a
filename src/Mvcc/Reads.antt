-- ===== src/Mvcc/Reads.antt =====
-- Snapshot isolation: what a transaction sees, and when that is fixed.
use flux_db.Common.{ℕ, ◌+◌, ◌<◌, ◌≤◌, ◌^◌, ◌≡◌, ◌⊎◌, false, arith, inl, inr, leb, Bool-cases}
use flux_db.Mvcc.State.{TransactionManager, Snapshot}
use flux_db.Mvcc.Manager.{is_aborted, begin}
use flux_db.Mvcc.Invariant.{IsValid}
use flux_db.Mvcc.Visibility
use flux_db.Mvcc.Handle
use flux_db.Mvcc.Persist.{Reach-Kept}
use flux_db.Mvcc.Begin.{Taken, begin-Taken}
use flux_db.Mvcc.Steps.{Reach}

-- An outcome that no truncation of the CLOG can lose: the id is not below the vacuum horizon, or it
-- was not aborted when the snapshot was taken.
abbrev pub IsSettled : TransactionManager → TransactionManager → ℕ → Type 0
IsSettled tm₁ tm t = (tm.vacuum_horizon ≤ t) ⊎ (is_aborted tm₁ t ≡ false)

module _ (tm₁ tm : TransactionManager) (snap : Snapshot) (taken : Taken tm₁ snap)
    (r : Reach tm₁ tm) where
  -- A snapshot gives the same verdict on an id, whatever the other threads did since.
  is_committed-Reach :
      (t : ℕ)
      → IsSettled tm₁ tm t
      → Visibility.is_committed snap t tm ≡ Visibility.is_committed snap t tm₁
  unfolding Visibility.is_committed
  is_committed-Reach t h = elim (Bool-cases (leb snap.xmax t)) [
    | inl e ↦ ground arith
    | inr e ↦
        let kept = Reach-Kept r taken.valid t 0 (ground (arith, taken.bound)) in
        ground (arith, kept.outcome, taken.in_flight t)
  ]

  is_visible-Reach :
      (xmin xmax : ℕ)
      → IsSettled tm₁ tm xmin
      → IsSettled tm₁ tm xmax
      → Visibility.is_visible xmin xmax snap tm ≡ Visibility.is_visible xmin xmax snap tm₁
  unfolding Visibility.is_visible
  is_visible-Reach xmin xmax h g =
      ground (arith, is_committed-Reach xmin h, is_committed-Reach xmax g)

-- Reads are repeatable. Let `begin` run on a valid manager and let any steps of other threads
-- follow. Then the transaction sees a version exactly if it saw it at the start, provided that the
-- version's creator and its deleter are not aborted transactions below the vacuum horizon.
pub is_visible-repeatable :
    (tm₀ tm : TransactionManager) (now xmin xmax : ℕ)
    → IsValid tm₀
    → tm₀.next_txn_id + 1 < 2 ^ 64
    → Reach (begin now tm₀).0 tm
    → IsSettled (begin now tm₀).0 tm xmin
    → IsSettled (begin now tm₀).0 tm xmax
    → Handle.is_visible (begin now tm₀).1 xmin xmax tm
      ≡ Handle.is_visible (begin now tm₀).1 xmin xmax (begin now tm₀).0
unfolding Handle.is_visible
is_visible-repeatable tm₀ tm now xmin xmax v room r h g = ground (
  arith,
  is_visible-Reach (begin now tm₀).0 tm (begin now tm₀).1.snapshot (begin-Taken tm₀ v now room) r
      xmin xmax h g,
)
