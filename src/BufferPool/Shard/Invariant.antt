-- ===== src/BufferPool/Shard/Invariant.antt =====
-- The invariant of a shard.
use flux_db.Common.{
  ℕ, suc, ◌+◌, ◌&&◌, leb, ltb, length-replicate, replicate, ◌<◌, ◌≡◌, ◌≢◌, Bool, true, false, some,
  List, [], ◌∷◌, get_or, set, get, ◌==◌, if◌then◌else◌, length, length-set, contains, arith, refl,
  Bool-cases, inl, inr, get_or-set_self, get_or-set_ne,
}
use flux_db.BufferPool.Replacer
use flux_db.BufferPool.Replacer.{ClockReplacer, victim, pin-IsValid, unpin-IsValid}
use flux_db.BufferPool.Shard.{
  FrameMetadata, ShardInner, invalid_frame_id, blank, meta, set_meta, pin, unpin, new, frames_from,
}

abbrev pub is_evictable : ShardInner → ℕ → Bool
is_evictable i f = get_or i.replacer.evictable f false

-- A free frame holds nothing.
abbrev pub IsBlank : FrameMetadata → Type 0
IsBlank m =
    (m.page_id ≡ invalid_frame_id) × (m.pin_count ≡ 0) × (m.is_dirty ≡ false) × (m.loading ≡ false)

abbrev pub IsNodup : List ℕ → Type 0
IsNodup [] = Unit
IsNodup (x ∷ xs) = (contains xs x ≡ false) × IsNodup xs

-- A shard of `n` frames: the page table and the frames' page ids are inverse to one another, only
-- an unpinned frame that holds a loaded page is evictable, a frame being loaded is pinned, and the
-- free list holds blank frames, each once.
pub record IsValid (n : ℕ) (i : ShardInner) : Type 0 where
  pub replacer : Replacer.IsValid i.replacer
  pub sizes : (i.replacer.size ≡ n) × (length i.metadata ≡ n)
  pub mapped :
      (p f : ℕ)
      → get p i.page_table ≡ some f
      → (f < n) × ((meta i f).page_id ≡ p) × (p ≢ invalid_frame_id)
  pub owned :
      (f : ℕ) → (meta i f).page_id ≢ invalid_frame_id → get (meta i f).page_id i.page_table ≡ some f
  pub idle :
      (f : ℕ)
      → is_evictable i f ≡ true
      → ((meta i f).pin_count ≡ 0) × ((meta i f).page_id ≢ invalid_frame_id)
  pub busy : (f : ℕ) → (meta i f).loading ≡ true → 0 < (meta i f).pin_count
  pub free : (f : ℕ) → contains i.free_list f ≡ true → (f < n) × IsBlank (meta i f)
  pub distinct : IsNodup i.free_list

-- Reading a list after a write at an index in range.
pub get_or-set {ℓ} :
    {A : Type ℓ} (xs : List A) (i j : ℕ) (v d : A)
    → i < length xs
    → get_or (set xs i v) j d ≡ (if j == i then v else get_or xs j d)
get_or-set xs i j v d h = elim (Bool-cases (j == i)) [
  | inl e ↦ let same : j ≡ i = ground arith in rw (e, same) (get_or-set_self xs i v d h)
  | inr e ↦ rw e (get_or-set_ne xs i j v d (λ w. ground arith))
]

-- A write out of range changes nothing, so an unmarked bit reads false either way.
pub get_or-set-false :
    (xs : List Bool) (i j : ℕ)
    → get_or (set xs i false) j false ≡ (if j == i then false else get_or xs j false)
get_or-set-false [] i j = ground arith
get_or-set-false (x ∷ xs) ℕ.zero ℕ.zero = refl
get_or-set-false (x ∷ xs) ℕ.zero (suc j) = ground arith
get_or-set-false (x ∷ xs) (suc i) ℕ.zero = ground arith
get_or-set-false (x ∷ xs) (suc i) (suc j) = ground (arith, get_or-set-false xs i j)

module _ (n : ℕ) (i : ShardInner) (v : IsValid n i) where
  -- One frame's metadata changes, and neither its page nor whether it is free.
  pub set_meta-IsValid :
      (f : ℕ) (m : FrameMetadata)
      → f < n
      → m.page_id ≡ (meta i f).page_id
      → (is_evictable i f ≡ true → m.pin_count ≡ 0)
      → (m.loading ≡ true → 0 < m.pin_count)
      → (contains i.free_list f ≡ true → IsBlank m)
      → IsValid n (set_meta i f m)
  set_meta-IsValid f m h same calm load blanks =
      let inside : f < length i.metadata = omega (arith, v.sizes) in
      record {
        replacer = v.replacer;
        sizes = (v.sizes.0, omega (arith, v.sizes, length-set i.metadata f m));
        mapped = λ p g e. ground (arith, v.mapped p g e, get_or-set i.metadata f g m blank inside);
        owned = λ g e. ground (arith, v.owned g, get_or-set i.metadata f g m blank inside);
        idle = λ g e. ground (arith, v.idle g e, get_or-set i.metadata f g m blank inside);
        busy = λ g e. ground (arith, v.busy g, get_or-set i.metadata f g m blank inside);
        free = λ g e. ground (arith, v.free g e, get_or-set i.metadata f g m blank inside);
        distinct = v.distinct;
      }

  -- A frame leaves the candidates for eviction.
  pub pin-IsValid_lem : (f : ℕ) → IsValid n (pin i f)
  unfolding Replacer.pin
  pin-IsValid_lem f = record {
    replacer = pin-IsValid f i.replacer v.replacer;
    sizes = v.sizes;
    mapped = v.mapped;
    owned = v.owned;
    idle = λ g e. ground (arith, v.idle g, get_or-set-false i.replacer.evictable f g);
    busy = v.busy;
    free = v.free;
    distinct = v.distinct;
  }

  -- An unpinned frame that holds a page becomes a candidate.
  pub unpin-IsValid_lem :
      (f : ℕ)
      → f < n
      → (meta i f).pin_count ≡ 0
      → (meta i f).page_id ≢ invalid_frame_id
      → IsValid n (unpin i f)
  unfolding Replacer.unpin
  unpin-IsValid_lem f h p q = record {
    replacer = unpin-IsValid f i.replacer v.replacer;
    sizes = v.sizes;
    mapped = v.mapped;
    owned = v.owned;
    idle = λ g e. ground (
      arith,
      v.idle g,
      get_or-set i.replacer.evictable f g true false (omega (arith, v.sizes, v.replacer.evicts)),
    );
    busy = v.busy;
    free = v.free;
    distinct = v.distinct;
  }

contains-frames_from : (s n f : ℕ) → contains (frames_from s n) f ≡ (leb s f && ltb f (s + n))
unfolding frames_from
contains-frames_from s ℕ.zero f = ground arith
contains-frames_from s (suc n) f = ground (arith, contains-frames_from (suc s) n f)

frames_from-IsNodup : (s n : ℕ) → IsNodup (frames_from s n)
unfolding frames_from
frames_from-IsNodup s ℕ.zero = tt
frames_from-IsNodup s (suc n) =
    (ground (arith, contains-frames_from (suc s) n s), frames_from-IsNodup (suc s) n)

pub get_or-replicate {ℓ} : {A : Type ℓ} (n i : ℕ) (d : A) → get_or (replicate n d) i d ≡ d
get_or-replicate ℕ.zero i d = refl
get_or-replicate (suc n) ℕ.zero d = refl
get_or-replicate (suc n) (suc i) d = get_or-replicate n i d

-- A new shard is valid.
pub new-IsValid : (n : ℕ) → IsValid n (new n)
unfolding new Replacer.new get
new-IsValid n = record {
  replacer = Replacer.new-IsValid n;
  sizes = (refl, length-replicate n blank);
  mapped = λ p f e. absurd (ground arith);
  owned = λ f e. ground (arith, get_or-replicate n f blank);
  idle = λ f e. absurd (ground (arith, get_or-replicate n f false));
  busy = λ f e. absurd (ground (arith, get_or-replicate n f blank));
  free = λ f e. ground (arith, contains-frames_from 0 n f, get_or-replicate n f blank);
  distinct = frames_from-IsNodup 0 n;
}
