-- ===== src/BufferPool/Victim.antt =====
-- The clock sweep of `ClockReplacer::victim`: what it finds, and in how many rounds.
use flux_db.Common.{
  ℕ, zero, suc, ◌+◌, ◌-◌, ◌*◌, ◌%◌, ◌<◌, ◌≡◌, ◌≢◌, ◌⊎◌, inl, inr, Bool, true, false, List, get_or,
  set, length-set, get_or-set_self, get_or-set_ne, if◌then◌else◌, leb, refl, arith, Bool-cases, sym,
  ◌↔◌,
}
use mathlib.Core.Path.{subst}
use flux_db.BufferPool.Errors.{Result, ok, err, no_evictable_frames}
use flux_db.BufferPool.Replacer.{ClockReplacer, IsValid, advance, victim_loop, victim}

-- What a sweep over `n` frames promises of the marks before and after: the frame was evictable and
-- is not any more, and no other mark changed; or the sweep failed and changed no mark.
abbrev pub Swept : ℕ → List Bool → List Bool → Result ℕ → Type 0
Swept n es es' (ok f) =
    (f < n)
    × (get_or es f false ≡ true)
    × (get_or es' f false ≡ false)
    × ((g : ℕ) → g ≢ f → get_or es' g false ≡ get_or es g false)
Swept n es es' (err e) = (e ≡ no_evictable_frames) × (es' ≡ es)

advance-IsValid : (r : ClockReplacer) → IsValid r → IsValid (advance r)
unfolding advance
advance-IsValid r v = record {
  refs = ground (arith, length-set r.ref_bits r.hand false, v.refs);
  evicts = v.evicts;
  hand_in = λ h. omega arith;
}

-- How many rounds the hand is away from taking the evictable frame `f`.
cost : ClockReplacer → ℕ → ℕ
cost r f =
    (if leb r.hand f then f - r.hand else f + r.size - r.hand)
    + (if get_or r.ref_bits f false then r.size else 0)

next_hand : (h n : ℕ) → h < n → ((h + 1) % n) ≡ (if leb n (h + 1) then 0 else h + 1)
next_hand h n p = grind arith

-- One round either takes the frame under the hand or advances.
stays_or_takes :
    (r : ClockReplacer)
    → ((get_or r.evictable r.hand false ≡ false) ⊎ (get_or r.ref_bits r.hand false ≡ true))
      ⊎ (get_or r.evictable r.hand false ≡ true) × (get_or r.ref_bits r.hand false ≡ false)
stays_or_takes r = ground arith

victim_loop_stay :
    (k : ℕ) (r : ClockReplacer)
    → (get_or r.evictable r.hand false ≡ false) ⊎ (get_or r.ref_bits r.hand false ≡ true)
    → victim_loop (suc k) r ≡ victim_loop k (advance r)
unfolding victim_loop
victim_loop_stay k r (inl idle) = rw idle
victim_loop_stay k r (inr again) = elim (Bool-cases (get_or r.evictable r.hand false)) [
  | inl busy ↦ rw (busy, again)
  | inr idle ↦ rw idle
]

abbrev taken : ClockReplacer → ClockReplacer
taken r = record r {
  hand = (r.hand + 1) % r.size;
  ref_bits = set r.ref_bits r.hand false;
  evictable = set r.evictable r.hand false;
}

victim_loop_take :
    (k : ℕ) (r : ClockReplacer)
    → (get_or r.evictable r.hand false ≡ true) × (get_or r.ref_bits r.hand false ≡ false)
    → victim_loop (suc k) r ≡ (taken r, ok r.hand)
unfolding victim_loop
victim_loop_take k r (busy, done) = rw (busy, done)

victim_loop-Swept :
    (k : ℕ) (r : ClockReplacer)
    → IsValid r
    → 0 < r.size
    → Swept r.size r.evictable (victim_loop k r).0.evictable (victim_loop k r).1
unfolding advance
victim_loop-Swept zero r v p = unfold victim_loop in (refl, refl)
victim_loop-Swept (suc k) r v p = elim (stays_or_takes r) [
  | inl stays ↦
      rw (victim_loop_stay k r stays) (victim_loop-Swept k (advance r) (advance-IsValid r v) p)
  | inr takes ↦ rw (victim_loop_take k r takes) (
    v.hand_in p,
    takes.0,
    get_or-set_self r.evictable r.hand false false (omega (arith, v.hand_in p, v.evicts)),
    λ g n. get_or-set_ne r.evictable r.hand g false false (λ e. n (sym e)),
  )
]

-- Each round that takes no frame brings the hand one round nearer to every evictable frame.
cost-advance :
    (r : ClockReplacer) (f : ℕ)
    → IsValid r
    → f < r.size
    → get_or r.evictable f false ≡ true
    → (get_or r.evictable r.hand false ≡ false) ⊎ (get_or r.ref_bits r.hand false ≡ true)
    → cost (advance r) f + 1 ≡ cost r f
unfolding cost advance
cost-advance r f v h e stays = ground (
  arith,
  next_hand r.hand r.size,
  v.hand_in,
  v.refs,
  get_or-set_self r.ref_bits r.hand false false,
  get_or-set_ne r.ref_bits r.hand f false false,
)

-- With more rounds than the cost of some evictable frame, the loop finds a victim.
victim_loop_finds :
    (k : ℕ) (r : ClockReplacer) (f : ℕ)
    → IsValid r
    → f < r.size
    → get_or r.evictable f false ≡ true
    → cost r f < k
    → (g : ℕ) × ((victim_loop k r).1 ≡ ok g)
unfolding advance
victim_loop_finds zero r f v h e c = absurd (omega arith)
victim_loop_finds (suc k) r f v h e c = elim (stays_or_takes r) [
  | inl stays ↦ rw (victim_loop_stay k r stays) (
      victim_loop_finds k (advance r) f (advance-IsValid r v) h e
        (omega (arith, cost-advance r f v h e stays)))
  | inr takes ↦ (r.hand, rw (victim_loop_take k r takes))
]

taken-IsValid : (r : ClockReplacer) → IsValid r → IsValid (taken r)
taken-IsValid r v = record {
  refs = omega (arith, length-set r.ref_bits r.hand false, v.refs);
  evicts = omega (arith, length-set r.evictable r.hand false, v.evicts);
  hand_in = λ h. omega arith;
}

victim_loop-IsValid :
    (k : ℕ) (r : ClockReplacer)
    → IsValid r
    → IsValid (victim_loop k r).0 × ((victim_loop k r).0.size ≡ r.size)
unfolding advance
victim_loop-IsValid zero r v = unfold victim_loop in (v, refl)
victim_loop-IsValid (suc k) r v = elim (stays_or_takes r) [
  | inl stays ↦
      rw (victim_loop_stay k r stays) (victim_loop-IsValid k (advance r) (advance-IsValid r v))
  | inr takes ↦ rw (victim_loop_take k r takes) (taken-IsValid r v, refl)
]

pub victim-IsValid :
    (r : ClockReplacer) → IsValid r → IsValid (victim r).0 × ((victim r).0.size ≡ r.size)
unfolding victim
victim-IsValid r v = victim_loop-IsValid (2 * r.size) r v

cost-lt : (r : ClockReplacer) (f : ℕ) → IsValid r → f < r.size → cost r f < 2 * r.size
unfolding cost
cost-lt r f v h = ground (arith, v.hand_in)

-- On a valid replacer, `victim` takes a frame that was evictable, unmarks it and changes no other
-- mark, or fails with `NoEvictableFrames` and changes no mark.
pub victim-Swept :
    (r : ClockReplacer) → IsValid r → Swept r.size r.evictable (victim r).0.evictable (victim r).1
unfolding victim
victim-Swept r v = elim (Bool-cases (leb r.size 0)) [
  | inl empty ↦
      let none : 2 * r.size ≡ 0 = ground arith in rw none (unfold victim_loop in (refl, refl))
  | inr some ↦ victim_loop-Swept (2 * r.size) r v (ground arith)
]

-- On a valid replacer, `victim` succeeds exactly when some frame is evictable: two turns of the
-- clock are enough.
pub victim-ok_iff :
    (r : ClockReplacer)
    → IsValid r
    → ((g : ℕ) × ((victim r).1 ≡ ok g))
      ↔ ((f : ℕ) × (f < r.size) × (get_or r.evictable f false ≡ true))
victim-ok_iff r v = (
  λ found.
      let swept : Swept r.size r.evictable (victim r).0.evictable (ok found.0) =
        subst (Swept r.size r.evictable (victim r).0.evictable) found.1 (victim-Swept r v) in
      (found.0, swept.0, swept.1),
  λ e. unfold victim in victim_loop_finds (2 * r.size) r e.0 v e.1 e.2 (cost-lt r e.0 v e.1),
)
