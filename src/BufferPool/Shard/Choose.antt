-- ===== src/BufferPool/Shard/Choose.antt =====
-- The choice of a victim, free or swept.
use flux_db.Common.{ℕ, ◌<◌, ◌≡◌, true, false, List, [], ◌∷◌, get_or, arith, refl, contains}
use flux_db.BufferPool.Errors.{Result, ok, err, no_evictable_frames}
use flux_db.BufferPool.Replacer
use flux_db.BufferPool.Replacer.{ClockReplacer, victim}
use flux_db.BufferPool.Victim.{victim-IsValid, victim-Swept, Swept}
use flux_db.BufferPool.Shard.{ShardInner, meta, find_victim_frame_id}
use flux_db.BufferPool.Shard.Invariant.{IsValid, is_evictable, IsNodup}

-- A frame that may be given to a new page.
pub record IsVictim (n : ℕ) (i : ShardInner) (f : ℕ) : Type 0 where
  pub inside : f < n
  pub unpinned : (meta i f).pin_count ≡ 0
  pub unmarked : is_evictable i f ≡ false
  pub not_free : contains i.free_list f ≡ false

-- What the choice of a victim leaves: the metadata and the page table are as they were.
abbrev pub Chosen : ℕ → ShardInner → ShardInner × Result ℕ → Type 0
Chosen n i (i₁, ok f) =
    IsValid n i₁ × IsVictim n i₁ f × (i₁.metadata ≡ i.metadata) × (i₁.page_table ≡ i.page_table)
Chosen n i (i₁, err e) =
    IsValid n i₁
    × (e ≡ no_evictable_frames)
    × (i₁.metadata ≡ i.metadata)
    × (i₁.page_table ≡ i.page_table)

module _ (n : ℕ) (i : ShardInner) (v : IsValid n i) where
  -- Marks that only go away keep the shard valid.
  fewer_marks :
      (r : ClockReplacer)
      → Replacer.IsValid r
      → r.size ≡ i.replacer.size
      → ((g : ℕ) → get_or r.evictable g false ≡ true → is_evictable i g ≡ true)
      → IsValid n (record i { replacer = r })
  fewer_marks r w s sub = record {
    replacer = w;
    sizes = (omega (arith, v.sizes), v.sizes.1);
    mapped = v.mapped;
    owned = v.owned;
    idle = λ g e. v.idle g (sub g e);
    busy = v.busy;
    free = v.free;
    distinct = v.distinct;
  }

  victim-Chosen :
      (r : ClockReplacer) (res : Result ℕ)
      → Replacer.IsValid r
      → r.size ≡ i.replacer.size
      → Swept i.replacer.size i.replacer.evictable r.evictable res
      → Chosen n i (record i { replacer = r }, res)
  victim-Chosen r (ok f) w s (inside, was, gone, others) = (
    fewer_marks r w s (λ g e. ground (arith, others g)),
    record {
      inside = omega (arith, v.sizes);
      unpinned = (v.idle f was).0;
      unmarked = gone;
      not_free = ground (arith, v.idle f was, v.free f);
    },
    refl,
    refl,
  )
  victim-Chosen r (err e) w s (which, same) =
      (fewer_marks r w s (λ g e. ground arith), which, refl, refl)

module _ (n : ℕ) (i : ShardInner) (v : IsValid n i) where
  pop-Chosen :
      (f : ℕ) (rest : List ℕ)
      → i.free_list ≡ f ∷ rest
      → Chosen n i (record i { free_list = rest }, ok f)
  pop-Chosen f rest e =
      let nodup : IsNodup (f ∷ rest) = rw e at v.distinct in
      let first = v.free f (rw e (ground arith)) in
      (
        record {
          replacer = v.replacer;
          sizes = v.sizes;
          mapped = v.mapped;
          owned = v.owned;
          idle = v.idle;
          busy = v.busy;
          free = λ g h. v.free g (rw e (ground arith));
          distinct = nodup.1;
        },
        record {
          inside = first.0;
          unpinned = first.1.1;
          unmarked = ground (arith, v.idle f);
          not_free = nodup.0;
        },
        refl,
        refl,
      )

pub find_victim-Chosen :
    (n : ℕ) (i : ShardInner) → IsValid n i → Chosen n i (find_victim_frame_id i)
unfolding find_victim_frame_id
find_victim-Chosen n i v = go i.free_list refl
  where
    go : (l : List ℕ) → i.free_list ≡ l → Chosen n i (find_victim_frame_id i)
    go [] e =
        rw (e, find_victim_frame_id)
          (victim-Chosen n i v (victim i.replacer).0 (victim i.replacer).1
            (victim-IsValid i.replacer v.replacer).0 (victim-IsValid i.replacer v.replacer).1
            (victim-Swept i.replacer v.replacer))
    go (f ∷ rest) e = rw (e, find_victim_frame_id) (pop-Chosen n i v f rest e)
