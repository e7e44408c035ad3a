-- ===== src/Wal/Ring/Drain.antt =====
-- The circular buffer of crates/storage/src/wal.rs as a queue: copying out and consuming.
use flux_db.Common.{
  ℕ, ◌+◌, ◌-◌, ◌%◌, ◌<◌, ◌≤◌, ◌≡◌, refl, some, List, [], ◌∷◌, ◌++◌, map, length, length-append,
  get_or, arith, ◌∙◌, sym, ap, ltb, ◌==◌, false,
}
use flux_db.Wal.Ring.{
  WalBuffer, BufferedRecord, capacity, copy_from, copy_records, pop_prefix, consume_prefix,
}
use flux_db.Wal.Ring.Content.{
  flat, entry_of, NoneEmpty, place, place_cases, mod-place, place-place, Holds, get_or-append,
  get_or-append_more, flat-append, map-append,
}
use flux_db.Wal.Ring.CopyOut.{Lies, copy_out-Lies, place-zero}

place-lt : (cap p k : ℕ) → p < cap → k ≤ cap → place cap p k < cap
place-lt cap p k h b = let cases = place_cases cap p k in omega arith

copy_from-Lies :
    (bytes : List ℕ) (cursor : ℕ) (content : List (ℕ × List ℕ))
    → cursor < length bytes
    → length (flat content) ≤ length bytes
    → Lies bytes cursor (flat content)
    → copy_from bytes cursor (map entry_of content) ≡ some content
unfolding copy_from
copy_from-Lies bytes cursor [] c f h = refl
copy_from-Lies bytes cursor ((lsn, xs) ∷ rest) c f h =
    let total = length-append xs (flat rest) in
    let one =
      copy_out-Lies bytes (length xs) cursor xs c (omega arith) (omega arith)
        (λ k l. h k (omega arith) ∙ get_or-append xs (flat rest) k l) in
    let more =
      copy_from-Lies bytes (place (length bytes) cursor (length xs)) rest
        (place-lt (length bytes) cursor (length xs) c (omega arith)) (omega arith)
        (λ k l.
          ap (λ j. get_or bytes j 0)
            (place-place (length bytes) cursor (length xs) k c (omega arith))
          ∙ h (length xs + k) (omega arith)
          ∙ get_or-append_more xs (flat rest) k (length xs + k) refl) in
    rw (one, copy_from) (rw more refl)

-- What the buffer holds is what is copied out.
pub copy_records-Holds :
    (buf : WalBuffer) (content : List (ℕ × List ℕ))
    → Holds buf content
    → copy_records buf ≡ some content
unfolding copy_records
copy_records-Holds buf content h =
    rw h.entries_of (copy_from-Lies buf.bytes buf.read_pos content h.read_inside h.fits h.stored)

pop_none : (rs : List BufferedRecord) → pop_prefix 0 rs ≡ some rs
unfolding pop_prefix
pop_none [] = refl
pop_none (r ∷ rest) = refl

pop_prefix-flat :
    (front : List (ℕ × List ℕ)) (rs : List BufferedRecord)
    → NoneEmpty front
    → pop_prefix (length (flat front)) (map entry_of front ++ rs) ≡ some rs
unfolding pop_prefix
pop_prefix-flat [] rs n = pop_none rs
pop_prefix-flat ((lsn, xs) ∷ front) rs (one, n) =
    let total = length-append xs (flat front) in
    let some_left : (length (xs ++ flat front) == 0) ≡ false = ground arith in
    let inside : ltb (length (xs ++ flat front)) (length xs) ≡ false = ground arith in
    let left : length (xs ++ flat front) - length xs ≡ length (flat front) = omega arith in
    rw (some_left, inside) (rw left (pop_prefix-flat front rs n))

NoneEmpty-split :
    (front back : List (ℕ × List ℕ)) → NoneEmpty (front ++ back) → NoneEmpty front × NoneEmpty back
NoneEmpty-split [] back h = (tt, h)
NoneEmpty-split ((lsn, xs) ∷ front) back (one, h) =
    let (f, b) = NoneEmpty-split front back h in ((one, f), b)

module _ (buf : WalBuffer) (front back : List (ℕ × List ℕ)) (h : Holds buf (front ++ back)) where
  popped : pop_prefix (length (flat front)) buf.records ≡ some (map entry_of back)
  popped =
      rw (h.entries_of, map-append front back)
        (pop_prefix-flat front (map entry_of back) (NoneEmpty-split front back h.none_empty).0)

  lengths : length (flat (front ++ back)) ≡ length (flat front) + length (flat back)
  lengths =
      omega (arith, ap length (flat-append front back), length-append (flat front) (flat back))

  abbrev advanced : WalBuffer
  advanced = record buf {
    read_pos = (buf.read_pos + length (flat front)) % capacity buf;
    records = map entry_of back;
  }

  advanced-Holds : Holds advanced back
  advanced-Holds =
      let cap = capacity buf in
      let r = h.read_inside in
      let f = h.fits in
      let l = lengths in
      let at_front = mod-place cap buf.read_pos (length (flat front)) r (omega arith) in
      let inside = place-lt cap buf.read_pos (length (flat front)) r (omega arith) in
      record {
        read_inside = rw at_front inside;
        entries_of = refl;
        none_empty = (NoneEmpty-split front back h.none_empty).1;
        fits = omega arith;
        write_at = rw at_front (
            h.write_at
            ∙ ap (place cap buf.read_pos) l
            ∙ sym (
                place-place cap buf.read_pos (length (flat front)) (length (flat back)) r
                  (omega arith)));
        stored = λ k b. rw at_front (
            ap (λ j. get_or buf.bytes j 0)
              (place-place cap buf.read_pos (length (flat front)) k r (omega arith))
            ∙ h.stored (length (flat front) + k) (omega arith)
            ∙ ap (λ xs. get_or xs (length (flat front) + k) 0) (flat-append front back)
            ∙ get_or-append_more (flat front) (flat back) k (length (flat front) + k) refl);
      }

  abbrev reset : WalBuffer
  reset = record buf { read_pos = 0; write_pos = 0; records = [] }

  reset-Holds : Holds reset []
  reset-Holds =
      let r = h.read_inside in
      record {
        read_inside = omega arith;
        entries_of = refl;
        none_empty = tt;
        fits = omega arith;
        write_at = sym (place-zero buf.bytes 0 (omega arith));
        stored = λ k b. absurd (omega arith);
      }

-- Consuming what a prefix of the queue takes leaves the rest of the queue.
pub consume_prefix-Holds :
    (buf : WalBuffer) (front back : List (ℕ × List ℕ))
    → Holds buf (front ++ back)
    → (buf' : WalBuffer) × (consume_prefix buf (length (flat front)) ≡ some buf')
      × Holds buf' back
      × (capacity buf' ≡ capacity buf)
unfolding consume_prefix
consume_prefix-Holds buf front [] h = (
  reset buf front [] h,
  rw (popped buf front [] h, consume_prefix) refl,
  reset-Holds buf front [] h,
  refl,
)
consume_prefix-Holds buf front (one ∷ back) h = (
  advanced buf front (one ∷ back) h,
  rw (popped buf front (one ∷ back) h, consume_prefix) refl,
  advanced-Holds buf front (one ∷ back) h,
  refl,
)
