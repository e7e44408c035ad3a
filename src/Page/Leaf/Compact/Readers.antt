-- ===== src/Page/Leaf/Compact/Readers.antt =====
-- Compaction, crates/storage/src/page/leaf.rs, under the horizon of the transaction manager,
-- crates/db-core/src/transaction_manager.rs: no reader that has begun loses a version it sees.
use flux_db.Common.{
  ℕ, ◌+◌, ◌^◌, ◌<◌, ◌≤◌, ◌≡◌, inl, inr, refl, true, false, some, List, [], ◌∷◌, ap, ◌∙◌,
  contains_key, if◌then◌else◌, Bool-cases,
}
use flux_db.Mvcc.State.{TransactionManager, Snapshot}
use flux_db.Mvcc.Manager.{read_snapshot, global_xmin}
use flux_db.Mvcc.Visibility as Visibility
use flux_db.Mvcc.Invariant.{IsValid}
use flux_db.Mvcc.Steps.{Reach}
use flux_db.Mvcc.Vacuum.{vacuumable-not-visible_reader}
use flux_db.Values.Keys.{Key}
use flux_db.Page.Bytes.{Page}
use flux_db.Page.FreeSpace.Scan.{IsBytes}
use flux_db.Page.Leaf.Mutate.{LeafRecord}
use flux_db.Page.Leaf.Valid.{entries, IsLeaf}
use flux_db.Page.Leaf.Compact.{compact}
use flux_db.Page.Leaf.Compact.Gather.{survivors, is_dead, dead_number, dead_chains, AllEncode}
use flux_db.Page.Leaf.Compact.Keeps.{compact-survivors}

-- The records that a snapshot sees, in order.
unfoldable pub visible : Snapshot → TransactionManager → List LeafRecord → List LeafRecord
unfolding Visibility.is_visible
visible snap tm [] = []
visible snap tm (r ∷ rest) =
    let others = visible snap tm rest in
    if Visibility.is_visible r.xmin r.xmax snap tm then r ∷ others else others

visible-survivors :
    (snap : Snapshot) (tm : TransactionManager) (horizon : ℕ)
    → ((r : LeafRecord)
        → is_dead horizon tm r ≡ true
        → Visibility.is_visible r.xmin r.xmax snap tm ≡ false)
    → (rs : List LeafRecord) → visible snap tm (survivors horizon tm rs) ≡ visible snap tm rs
unfolding visible survivors
visible-survivors snap tm horizon h [] = refl
visible-survivors snap tm horizon h (r ∷ rest) =
    let others = visible-survivors snap tm horizon h rest in
    elim (Bool-cases (is_dead horizon tm r)) [
      | inl e ↦ rw (e, h r e) others
      | inr e ↦ rw e (rw others refl)
    ]

-- Let `read_snapshot` run on a valid manager, let any steps of other threads follow, and let the
-- reader not have ended its read. Then the compaction of a leaf of bytes whose keys are encodings,
-- under a horizon that is not above the current `global_xmin`, succeeds and leaves a leaf in which
-- the reader sees the same records in the same order.
pub compact-visible {ℓ} :
    {A : Type ℓ} (key : Key A) (tm₀ tm : TransactionManager) (horizon page_id : ℕ) (page : Page)
    → IsValid tm₀
    → tm₀.next_reader_token + 1 < 2 ^ 64
    → Reach (read_snapshot tm₀).0 tm
    → contains_key (read_snapshot tm₀).2 tm.readers ≡ true
    → horizon ≤ global_xmin tm
    → IsLeaf page
    → IsBytes page
    → page_id < 2 ^ 64
    → AllEncode key (entries page)
    → (page' : Page) × (compact key horizon tm page_id page
        ≡ some
            (page', dead_number horizon tm (entries page), dead_chains horizon tm (entries page)))
      × IsLeaf page'
      × (visible (read_snapshot tm₀).1 tm (entries page')
          ≡ visible (read_snapshot tm₀).1 tm (entries page))
compact-visible key tm₀ tm horizon page_id page v room r reads le valid bytes small keys =
    let (page', done, leaf', held, _) =
      compact-survivors key horizon tm page_id page valid bytes small keys in
    let snap = (read_snapshot tm₀).1 in
    (
      page',
      done,
      leaf',
      ap (visible snap tm) held
          ∙ visible-survivors snap tm horizon
              (λ q dead.
                vacuumable-not-visible_reader tm₀ tm horizon q.xmin q.xmax v room r reads le dead)
              (entries page),
    )
