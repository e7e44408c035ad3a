-- ===== src/Values/Varint.antt =====
-- `encode_usize_varint` and `decode_usize_varint` of crates/common/src/types.rs, on 64-bit machines.
use native.Mathlib.Nat.{pow-suc, pow-le-pow_right, mul-le-mul_right}
use flux_db.Common.{
  ℕ, zero, suc, ◌+◌, ◌*◌, ◌/◌, ◌%◌, ◌^◌, ◌<◌, ◌≤◌, ◌≡◌, true, false, Option, none, some, List, [],
  ◌∷◌, ◌++◌, ltb, ◌==◌, if◌then◌else◌, arith, refl, ap, ◌∙◌, Bool-cases, inl, inr,
}

-- The loop of `encode_usize_varint`, over the rounds left. `value & 0x7f` is the remainder by 128,
-- and `byte |= 0x80` adds a bit that is not set.
unfoldable pub encode_rounds : ℕ → ℕ → List ℕ
encode_rounds zero value = []
encode_rounds (suc rounds) value =
    let rest = encode_rounds rounds (value / 128) in
    if value / 128 == 0 then value % 128 ∷ [] else (value % 128 + 128) ∷ rest

-- Ten rounds of seven bits are more than a number of 64 bits has.
unfoldable pub encode_usize_varint : ℕ → List ℕ
unfolding encode_rounds
encode_usize_varint value = encode_rounds 10 value

-- The loop of `decode_usize_varint`. Moving the offset on is taking the rest of the data, an offset
-- at the end of the data is a panic, none, and so is the assertion. `|=` joins disjoint bits, and
-- `<<` drops those beyond the 64th.
unfoldable pub decode_at : ℕ → ℕ → List ℕ → Option (ℕ × List ℕ)
decode_at shift result [] = none
decode_at shift result (byte ∷ rest) =
    let joined = result + ((byte % 128) * 2 ^ shift) % 2 ^ 64 in
    let more = decode_at (shift + 7) joined rest in
    if ltb byte 128 then some (joined, rest) else if ltb (shift + 7) 64 then more else none

unfoldable pub decode_usize_varint : List ℕ → Option (ℕ × List ℕ)
unfolding decode_at
decode_usize_varint bytes = decode_at 0 0 bytes

-- One digit more: the rest of the number weighs 128 times as much.
digit : (v P : ℕ) → v % 128 * P + v / 128 * (P * 128) ≡ v * P
digit v P =
    let whole : v ≡ v % 128 + 128 * (v / 128) = omega arith in
    omega (arith, ap (λ (w : ℕ). w * P) whole)

-- A number with a digit to come leaves room for it in 64 bits.
room : (shift v : ℕ) → 128 ≤ v → v * 2 ^ shift < 2 ^ 64 → shift + 7 < 64
room shift v h small = elim (Bool-cases (ltb (shift + 7) 64)) [
  | inl e ↦ ground arith
  | inr e ↦
      let far : 2 ^ 57 ≤ 2 ^ shift = pow-le-pow_right (omega arith) {i = 57} (ground arith) in
      let big : 128 * 2 ^ shift ≤ v * 2 ^ shift = mul-le-mul_right (2 ^ shift) h in
      absurd (omega arith)
]

shifted : (shift : ℕ) → 2 ^ (shift + 7) ≡ 2 ^ shift * 128
shifted shift =
    let steps : shift + 7 ≡ suc (suc (suc (suc (suc (suc (suc shift)))))) = omega arith in
    rw steps (
      omega (
        arith,
        pow-suc 2 shift,
        pow-suc 2 (suc shift),
        pow-suc 2 (suc (suc shift)),
        pow-suc 2 (suc (suc (suc shift))),
        pow-suc 2 (suc (suc (suc (suc shift)))),
        pow-suc 2 (suc (suc (suc (suc (suc shift))))),
        pow-suc 2 (suc (suc (suc (suc (suc (suc shift)))))),
      ))

-- The last digit.
decode_at-encode_rounds_last :
    (rounds shift acc v : ℕ) (tail : List ℕ)
    → v < 128
    → v * 2 ^ shift < 2 ^ 64
    → decode_at shift acc (encode_rounds (suc rounds) v ++ tail) ≡ some (acc + v * 2 ^ shift, tail)
unfolding decode_at encode_rounds
decode_at-encode_rounds_last rounds shift acc v tail h small =
    let e : v / 128 == 0 ≡ true = ground arith in
    let low : v % 128 ≡ v = omega arith in
    let test : ltb v 128 ≡ true = ground arith in
    let kept : v * 2 ^ shift % 2 ^ 64 ≡ v * 2 ^ shift = omega arith in
    rw e (rw (low, low) (rw test (rw kept refl)))

-- A digit that is not the last.
decode_at-encode_rounds_more :
    (rounds shift acc v : ℕ) (tail : List ℕ)
    → 128 ≤ v
    → v * 2 ^ shift < 2 ^ 64
    → decode_at shift acc (encode_rounds (suc rounds) v ++ tail)
      ≡ decode_at (shift + 7) (acc + v % 128 * 2 ^ shift) (encode_rounds rounds (v / 128) ++ tail)
unfolding decode_at encode_rounds
decode_at-encode_rounds_more rounds shift acc v tail h small =
    let e : v / 128 == 0 ≡ false = ground arith in
    let low : (v % 128 + 128) % 128 ≡ v % 128 = omega arith in
    let test : ltb (v % 128 + 128) 128 ≡ false = ground arith in
    let next : ltb (shift + 7) 64 ≡ true = ground (arith, room shift v h small) in
    let kept : v % 128 * 2 ^ shift % 2 ^ 64 ≡ v % 128 * 2 ^ shift =
      omega (arith, digit v (2 ^ shift)) in
    rw e (rw test (rw next (rw low (rw kept refl))))

decode_at-encode_rounds :
    (rounds shift acc v : ℕ) (tail : List ℕ)
    → 7 * suc rounds + shift ≡ 70
    → v * 2 ^ shift < 2 ^ 64
    → decode_at shift acc (encode_rounds (suc rounds) v ++ tail) ≡ some (acc + v * 2 ^ shift, tail)
decode_at-encode_rounds zero shift acc v tail weight small =
    let here : shift ≡ 63 = omega arith in
    let few : v * 2 ^ 63 < 2 ^ 64 = rw here at small in
    decode_at-encode_rounds_last 0 shift acc v tail (omega arith) small
decode_at-encode_rounds (suc rounds) shift acc v tail weight small = elim (Bool-cases (ltb v 128)) [
  | inl e ↦ decode_at-encode_rounds_last (suc rounds) shift acc v tail (ground arith) small
  | inr e ↦
      let whole = digit v (2 ^ shift) in
      let step = shifted shift in
      let less : v / 128 * 2 ^ (shift + 7) < 2 ^ 64 = rw step (omega (arith, whole, small)) in
      decode_at-encode_rounds_more (suc rounds) shift acc v tail (ground arith) small
      ∙ decode_at-encode_rounds rounds (shift + 7) (acc + v % 128 * 2 ^ shift) (v / 128) tail
          (omega arith) less
      ∙ ap (λ (w : ℕ). some (w, tail)) (rw step (omega (arith, whole)))
]

-- A number of 64 bits survives its encoding, whatever follows it.
pub decode_usize_varint-encode_usize_varint :
    (v : ℕ) (tail : List ℕ)
    → v < 2 ^ 64
    → decode_usize_varint (encode_usize_varint v ++ tail) ≡ some (v, tail)
unfolding decode_usize_varint encode_usize_varint
decode_usize_varint-encode_usize_varint v tail h =
    decode_at-encode_rounds 9 0 0 v tail refl (omega arith)
    ∙ ap (λ (w : ℕ). some (w, tail)) (omega arith)
