-- ===== src/BufferPool/Replacer.antt =====
-- `ClockReplacer`, crates/storage/src/buffer_pool/replacer.rs. An index out of bounds is a panic in
-- the source; here it reads false and writes nothing, and `IsValid` rules it out.
use flux_db.Common.{
  ℕ, zero, suc, ◌+◌, ◌*◌, ◌%◌, ◌<◌, ◌≡◌, Bool, true, false, List, replicate, get_or, set, length,
  length-replicate, length-set, if◌then◌else◌, arith,
}
use flux_db.BufferPool.Errors.{Result, ok, err, no_evictable_frames}

pub record ClockReplacer : Type 0 where
  pub size : ℕ
  pub hand : ℕ
  pub ref_bits : List Bool
  pub evictable : List Bool

unfoldable pub new : ℕ → ClockReplacer
new size = record {
  size = size;
  hand = 0;
  ref_bits = replicate size false;
  evictable = replicate size false;
}

-- One round of the loop that finds no victim.
unfoldable pub advance : ClockReplacer → ClockReplacer
advance r =
    let hand = r.hand in
    record r {
      hand = (hand + 1) % r.size;
      ref_bits = if get_or r.evictable hand false then set r.ref_bits hand false else r.ref_bits;
    }

-- The `while` loop of `victim`, over the rounds left.
unfoldable pub victim_loop : ℕ → ClockReplacer → ClockReplacer × Result ℕ
victim_loop zero r = (r, err no_evictable_frames)
victim_loop (suc rounds) r =
    let rest = victim_loop rounds (advance r) in
    let found : ClockReplacer × Result ℕ = (
      record r {
        hand = (r.hand + 1) % r.size;
        ref_bits = set r.ref_bits r.hand false;
        evictable = set r.evictable r.hand false;
      },
      ok r.hand,
    ) in
    if get_or r.evictable r.hand false
    then (if get_or r.ref_bits r.hand false then rest else found)
    else rest

unfoldable pub victim : ClockReplacer → ClockReplacer × Result ℕ
unfolding victim_loop
victim r = victim_loop (2 * r.size) r

unfoldable pub unpin : ℕ → ClockReplacer → ClockReplacer
unpin local_id r = record r {
  evictable = set r.evictable local_id true;
  ref_bits = set r.ref_bits local_id true;
}

unfoldable pub pin : ℕ → ClockReplacer → ClockReplacer
pin local_id r = record r {
  evictable = set r.evictable local_id false;
  ref_bits = set r.ref_bits local_id false;
}

-- Every frame has its two bits, and the hand points at a frame unless there is none.
pub record IsValid (r : ClockReplacer) : Type 0 where
  pub refs : length r.ref_bits ≡ r.size
  pub evicts : length r.evictable ≡ r.size
  pub hand_in : 0 < r.size → r.hand < r.size

pub new-IsValid : (n : ℕ) → IsValid (new n)
unfolding new
new-IsValid n = record {
  refs = length-replicate n false;
  evicts = length-replicate n false;
  hand_in = λ h. h;
}

pub unpin-IsValid : (i : ℕ) (r : ClockReplacer) → IsValid r → IsValid (unpin i r)
unfolding unpin
unpin-IsValid i r v = record {
  refs = omega (arith, length-set r.ref_bits i true, v.refs);
  evicts = omega (arith, length-set r.evictable i true, v.evicts);
  hand_in = v.hand_in;
}

pub pin-IsValid : (i : ℕ) (r : ClockReplacer) → IsValid r → IsValid (pin i r)
unfolding pin
pin-IsValid i r v = record {
  refs = omega (arith, length-set r.ref_bits i false, v.refs);
  evicts = omega (arith, length-set r.evictable i false, v.evicts);
  hand_in = v.hand_in;
}
