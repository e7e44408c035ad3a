-- ===== src/Recovery/Tests.antt =====
-- Runs of recovery.
use flux_db.Common.{
  ◌≢◌, ℕ, ◌<◌, ◌≤◌, ◌≡◌, ◌^◌, ◌-◌, refl, Option, none, some, [], ◌∷◌, replicate, length-replicate,
  arith, if_cases, ◌==◌, get, insert, remove, contains, ◌||◌, true,
}
use flux_db.Page.Bytes.{Page, read_le, write_le}
use flux_db.Page.Header.{page_lsn, set_lsn, set_half_dead}
use flux_db.Values.Keys.{le_key}
use flux_db.Values.Keys.Laws.{le_key-IsKey}
use flux_db.Wal.Error
use flux_db.Wal.Record.{mark_half_dead, unlink_page, commit, Block}
use flux_db.Wal.Reader.{WalRecord}
use flux_db.Mvcc.Manager
use flux_db.Mvcc.Manager.{mark_committed, mark_aborted}
use flux_db.Recovery.Apply.{redo_record, ◌>>=◌, then_some, Pages, put, apply_data}
use flux_db.Recovery.Scan.{
  Scan, scan, start_scan, checkpoint_of, redo_point_of, seeded, Recovered, recover,
}
use flux_db.Recovery.Passes.{not_found, Items, ok, read_superblock}
use flux_db.Recovery.Restart.{Reached, Survives}
use flux_db.Recovery.Advance.{AllLogged}
use flux_db.Recovery.Gate.{AllSized}
use flux_db.Recovery.Succeeds.{Replays}
use flux_db.Recovery.Rerun.{recover-Survives}
use flux_db.Recovery.Settle.{settled_outcome, active_of}
use flux_db.Recovery.Outcomes.{names, logged_outcome}
use flux_db.Recovery.Collects.{IdsBelow, touches}
use flux_db.Recovery.Replays.{apply_data-Logged}
use flux_db.Recovery.Logs.{left_unlinked}
use flux_db.Wal.Payloads.{left_payload}
use flux_db.Wal.Checkpoint.{CheckpointData}
use flux_db.Page.Overflow
use flux_db.Page.Leaf.Mutate.{open_mutator, set_rightlink}
use flux_db.Recovery.Victims.{recover-outcomes, recover-next_ids}

abbrev zeros : Page
zeros = replicate 4096 0

abbrev before : Pages (le_key 4)
before p = zeros

abbrev block_of : ℕ → Block
block_of page_id = record { page_id = page_id; blk_flags = 0; fpi = none; data_bytes = none }

-- Transactions 7 and 8 each mark a leaf half-dead, and 7 commits.
abbrev first : WalRecord
first = record {
  lsn = 5;
  rec_len = 40;
  entry_type = mark_half_dead;
  txn_id = 7;
  blocks = block_of 1 ∷ [];
  main_data = none;
}

abbrev second : WalRecord
second = record {
  lsn = 6;
  rec_len = 40;
  entry_type = mark_half_dead;
  txn_id = 8;
  blocks = block_of 2 ∷ [];
  main_data = none;
}

abbrev third : WalRecord
third = record {
  lsn = 7;
  rec_len = 28;
  entry_type = commit;
  txn_id = 7;
  blocks = [];
  main_data = none;
}

abbrev items : Items
items = Error.ok first ∷ Error.ok second ∷ Error.ok third ∷ []

abbrev after : Pages (le_key 4)
after =
    put (le_key 4) (put (le_key 4) before 1 (set_lsn (set_half_dead zeros) 5)) 2
      (set_lsn (set_half_dead zeros) 6)

abbrev left_behind : Recovered (le_key 4)
left_behind = record {
  pages = after;
  deleted = [];
  tm = record (mark_aborted 8 (mark_committed 7 Manager.new)) { next_txn_id = 9 };
  next_page_id = 3;
}

recovers : recover (le_key 4) not_found items before 1 Manager.new ≡ some (ok left_behind)
unfolding recover Manager.new get insert remove set_lsn set_half_dead page_lsn write_le read_le
recovers = refl

before_sized : AllSized (le_key 4) before
before_sized p = length-replicate {A = ℕ} 4096 0

items_logged : AllLogged items
items_logged = (
  record { lsn_bound = omega arith; images = (λ image e. ground arith, tt) },
  (
    record { lsn_bound = omega arith; images = (λ image e. ground arith, tt) },
    (record { lsn_bound = omega arith; images = tt }, tt),
  ),
)

-- Only page 2 has reached the disk.
abbrev crashed : Pages (le_key 4)
crashed = put (le_key 4) before 2 (set_lsn (set_half_dead zeros) 6)

abbrev start : Scan (le_key 4)
start = start_scan (le_key 4) none before Manager.new

abbrev last : Scan (le_key 4)
last = record {
  pages = after;
  deleted = [];
  tm = mark_committed 7 Manager.new;
  seen = 8 ∷ 7 ∷ [];
  max_txn = 8;
  max_page_id = 2;
}

scans : (redo_point : ℕ) → redo_point ≡ 0 → scan (le_key 4) redo_point items start ≡ some (ok last)
unfolding scan Manager.new get insert remove set_lsn set_half_dead page_lsn write_le read_le
scans redo_point e = rw e refl

crashed_survives : Survives (le_key 4) 0 items start crashed
unfolding scan
crashed_survives p =
    if_cases (λ page. Reached (le_key 4) 0 items start p page) (p == 2)
      (set_lsn (set_half_dead zeros) 6) zeros
      (λ e. record {
        front = items;
        rest = [];
        reached = last;
        splits = refl;
        scanned = scans 0 refl;
        at = rw e refl;
      })
      (λ e. record {
        front = [];
        rest = items;
        reached = start;
        splits = refl;
        scanned = refl;
        at = refl;
      })

fresh :
    (ckpt : Option CheckpointData)
    → checkpoint_of (read_superblock not_found) items ≡ ok ckpt
    → Survives
        (le_key 4)
        (redo_point_of ckpt)
        items
        (start_scan (le_key 4) ckpt before Manager.new)
        crashed
unfolding read_superblock
fresh none e = crashed_survives
fresh (some ckpt) e = ground arith

ids_below : IdsBelow (2 ^ 64 - 1) items
ids_below = (λ id h. ground arith, λ page_id h. ground arith)

recover-Survives_example :
    (r' : Recovered (le_key 4)) × (recover (le_key 4) not_found items crashed 4 Manager.new
      ≡ some (ok r'))
    × ((p : ℕ) → r'.pages p ≡ left_behind.pages p)
recover-Survives_example =
    recover-Survives (le_key 4) not_found items before crashed 1 4 Manager.new Manager.new
      left_behind recovers before_sized items_logged fresh

no_checkpoint : checkpoint_of (read_superblock not_found) items ≡ ok none
unfolding read_superblock
no_checkpoint = refl

items_replayed : Replays (le_key 4) (redo_point_of none) items before after
unfolding redo_record set_lsn set_half_dead page_lsn write_le read_le
items_replayed = (
  put (le_key 4) before 1 (set_lsn (set_half_dead zeros) 5),
  refl,
  (after, refl, (after, refl, refl)),
)

recover-outcomes_example :
    (r : Recovered (le_key 4)) × (recover (le_key 4) not_found items before 1 Manager.new
      ≡ some (ok r))
    × (r.pages ≡ after)
    × ((id : ℕ)
        → id ≢ 0
        → get id r.tm.clog
          ≡ settled_outcome
              (contains (active_of none) id || names id items)
              (logged_outcome id items (get id (seeded none Manager.new).clog)))
recover-outcomes_example =
    recover-outcomes (le_key 4) not_found items before after 1 Manager.new none no_checkpoint
      items_replayed

recover-next_ids_example :
    (r : Recovered (le_key 4)) × (recover (le_key 4) not_found items before 1 Manager.new
      ≡ some (ok r))
    × ((id : ℕ) → names id items ≡ true → id < r.tm.next_txn_id)
    × ((page_id : ℕ) → touches page_id items ≡ true → page_id < r.next_page_id)
    × (Manager.new.next_txn_id ≤ r.tm.next_txn_id)
    × (1 ≤ r.next_page_id)
recover-next_ids_example =
    recover-next_ids (le_key 4) not_found items before after 1 Manager.new none no_checkpoint
      items_replayed ids_below tt

apply_data-Logged_example :
    apply_data (le_key 4) unlink_page 0 (some (left_payload (some 9))) zeros
    ≡ (open_mutator zeros >>= λ m. some (Overflow.ok (set_rightlink m (then_some 9))))
apply_data-Logged_example =
    apply_data-Logged (le_key 4) (le_key-IsKey 4) unlink_page 0 (some (left_payload (some 9))) _
      (left_unlinked 0 (some 9) (omega arith)) zeros
