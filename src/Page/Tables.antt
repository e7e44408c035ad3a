-- ===== src/Page/Tables.antt =====
-- Laws of small numbers, tried on each of them. A law holds throughout a range if the table of its
-- answers, from the start of the range, holds no `false`.
use flux_db.Common.{ℕ, zero, suc, ◌+◌, ◌<◌, ◌≤◌, ◌≡◌, Bool, true, false, if◌then◌else◌, arith}

-- Whether `law` holds of the `count` numbers from `start` on.
unfoldable pub holds_from : ℕ → ℕ → (ℕ → Bool) → Bool
holds_from start zero law = true
holds_from start (suc count) law =
    let later = holds_from (suc start) count law in if law start then later else false

holds_from-at :
    (count start : ℕ) (law : ℕ → Bool) (k : ℕ)
    → holds_from start count law ≡ true
    → start ≤ k
    → k < start + count
    → law k ≡ true
unfolding holds_from
holds_from-at zero start law k table lo hi = absurd (omega arith)
holds_from-at (suc count) start law k table lo hi =
    ground (arith, holds_from-at count (suc start) law k)

abbrev pub holds_below : ℕ → (ℕ → Bool) → Bool
holds_below count law = holds_from 0 count law

pub holds_below-at :
    (count : ℕ) (law : ℕ → Bool) (k : ℕ) → holds_below count law ≡ true → k < count → law k ≡ true
holds_below-at count law k table hi = holds_from-at count 0 law k table (omega arith) (omega arith)
