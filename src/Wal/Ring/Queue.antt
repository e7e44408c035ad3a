-- ===== src/Wal/Ring/Queue.antt =====
-- The circular buffer of crates/storage/src/wal.rs as a queue: pushing.
use Prim.Native.Nat.{min}
use flux_db.Common.{
  ℕ, ◌+◌, ◌-◌, ◌%◌, ◌<◌, ◌≤◌, ◌≡◌, inl, inr, refl, List, [], ◌∷◌, ◌++◌, map, length, length-append,
  get_or, take, drop, length-take, length-drop, arith, ◌∙◌, sym, ap, ltb, ltb→lt, Bool-cases, true,
  false, append-nil,
}
use flux_db.Page.Slices.{write_bytes, length-write_bytes, get_or-write_bytes}
use flux_db.Page.Frames.{get_or-write_bytes_self, get_or-slice}
use flux_db.Page.FreeSpace.Scan.{get_or-drop}
use flux_db.Wal.Error.{ok}
use flux_db.Wal.Ring.{
  WalBuffer, capacity, used_space, free_space, is_empty, copy_into_ring, push_record,
}
use flux_db.Wal.Ring.Content.{
  flat, entry_of, NoneEmpty, place, place_cases, mod-place, place-place, Holds, get_or-append,
  get_or-append_more, flat-append, map-append, NoneEmpty-append,
}

length-flat_pos :
    (content : List (ℕ × List ℕ))
    → NoneEmpty content
    → is_empty (map entry_of content) ≡ false
    → 0 < length (flat content)
length-flat_pos [] n e = ground arith
length-flat_pos ((lsn, bytes) ∷ rest) (one, n) e = omega (arith, length-append bytes (flat rest))

used_of_empty :
    (content : List (ℕ × List ℕ)) → is_empty (map entry_of content) ≡ true → flat content ≡ []
used_of_empty [] e = refl
used_of_empty (c ∷ rest) e = ground arith

module _ (buf : WalBuffer) (content : List (ℕ × List ℕ)) (h : Holds buf content) where
  pub used_space-flat : used_space buf ≡ length (flat content)
  unfolding used_space
  used_space-flat = elim (Bool-cases (is_empty (map entry_of content))) [
    | inl e ↦ rw (h.entries_of, e) (rw (used_of_empty content e) refl)
    | inr e ↦
        let some_bytes = length-flat_pos content h.none_empty e in
        let w = h.write_at in
        let f = h.fits in
        let r = h.read_inside in
        let cases = place_cases (capacity buf) buf.read_pos (length (flat content)) in
        rw (h.entries_of, e) (ground (arith, some_bytes, w, f, r, cases))
  ]

  module _ (lsn : ℕ) (rec : List ℕ) (some_bytes : 0 < length rec)
      (room : length (flat content) + length rec ≤ capacity buf) where
    abbrev first : ℕ
    first = min (length rec) (capacity buf - buf.write_pos)

    abbrev head_written : List ℕ
    head_written = write_bytes buf.bytes buf.write_pos (take first rec)

    abbrev pub pushed : WalBuffer
    pushed = record buf {
      bytes = write_bytes head_written 0 (drop first rec);
      write_pos = (buf.write_pos + length rec) % capacity buf;
      records = buf.records ++ (record { lsn = lsn; len = length rec }) ∷ [];
    }

    pub push_record_ok : push_record buf lsn rec ≡ ok pushed
    unfolding push_record free_space copy_into_ring
    push_record_ok =
        let small : ltb (capacity buf) (length rec) ≡ false = ground arith in
        let fits : ltb (capacity buf - used_space buf) (length rec) ≡ false =
          ground (arith, used_space-flat) in
        rw (small, fits) refl

    length-first : length (take first rec) ≡ first
    length-first = omega (arith, length-take first rec)

    rest_length : length (drop first rec) ≡ length rec - first
    rest_length = length-drop first rec

    head_length : length head_written ≡ capacity buf
    head_length = length-write_bytes (take first rec) buf.bytes buf.write_pos

    pub capacity-pushed : capacity pushed ≡ capacity buf
    capacity-pushed = length-write_bytes (drop first rec) head_written 0 ∙ head_length

    -- The old bytes stay.
    old_byte :
        (k : ℕ)
        → k < length (flat content)
        → get_or pushed.bytes (place (capacity buf) buf.read_pos k) 0 ≡ get_or (flat content) k 0
    old_byte k l =
        let j = place (capacity buf) buf.read_pos k in
        let old = place_cases (capacity buf) buf.read_pos k in
        let new = place_cases (capacity buf) buf.read_pos (length (flat content)) in
        let w = h.write_at in
        let r = h.read_inside in
        get_or-write_bytes (drop first rec) head_written 0 j (inr (omega (arith, rest_length)))
        ∙ get_or-write_bytes (take first rec) buf.bytes buf.write_pos j
            (omega (arith, length-first))
        ∙ h.stored k l

    -- The new ones lie behind them.
    new_byte :
        (i : ℕ)
        → i < length rec
        → get_or pushed.bytes (place (capacity buf) buf.write_pos i) 0 ≡ get_or rec i 0
    new_byte i l =
        let j = place (capacity buf) buf.write_pos i in
        let at_i = place_cases (capacity buf) buf.write_pos i in
        let new = place_cases (capacity buf) buf.read_pos (length (flat content)) in
        let w = h.write_at in
        let r = h.read_inside in
        elim (Bool-cases (ltb i first)) [
          | inl e ↦
              let before = ltb→lt i first e in
              get_or-write_bytes (drop first rec) head_written 0 j
                (inr (omega (arith, rest_length)))
              ∙ get_or-write_bytes_self (take first rec) buf.bytes buf.write_pos i j
                  (omega (arith, length-first)) (omega arith) (omega (arith, length-first))
              ∙ get_or-slice rec 0 first i i before (omega arith) (omega arith)
          | inr e ↦
              let past : first ≤ i = ground arith in
              let whole : first + (i - first) ≡ i = omega arith in
              get_or-write_bytes_self (drop first rec) head_written 0 (i - first) j
                (omega (arith, rest_length)) (omega arith) (omega (arith, rest_length, head_length))
              ∙ get_or-drop first (i - first) rec
              ∙ ap (λ n. get_or rec n 0) whole
        ]

    flat_pushed : flat (content ++ (lsn, rec) ∷ []) ≡ flat content ++ rec
    flat_pushed =
        flat-append content ((lsn, rec) ∷ []) ∙ ap (λ xs. flat content ++ xs) (append-nil rec)

    pub pushed-Holds : Holds pushed (content ++ (lsn, rec) ∷ [])
    pushed-Holds =
        let more : length (flat (content ++ (lsn, rec) ∷ [])) ≡ length (flat content) + length rec =
          omega (arith, ap length flat_pushed, length-append (flat content) rec) in
        let w = h.write_at in
        let r = h.read_inside in
        let f = h.fits in
        let end = place_cases (capacity buf) buf.read_pos (length (flat content)) in
        record {
          read_inside = omega (arith, capacity-pushed);
          entries_of =
              ap (λ rs. rs ++ (record { lsn = lsn; len = length rec }) ∷ []) h.entries_of
              ∙ sym (map-append content ((lsn, rec) ∷ []));
          none_empty = NoneEmpty-append content ((lsn, rec) ∷ []) h.none_empty (some_bytes, tt);
          fits = omega (arith, capacity-pushed, more);
          write_at =
              rw (capacity-pushed, more)
                (mod-place (capacity buf) buf.write_pos (length rec) (omega arith) (omega arith)
                  ∙ rw w (
                      place-place (capacity buf) buf.read_pos (length (flat content)) (length rec) r
                        room));
          stored = λ k l.
              rw (capacity-pushed, flat_pushed)
                (elim (Bool-cases (ltb k (length (flat content)))) [
                  | inl e ↦
                      let before = ltb→lt k (length (flat content)) e in
                      old_byte k before ∙ sym (get_or-append (flat content) rec k before)
                  | inr e ↦
                      let i = k - length (flat content) in
                      let past : k ≡ length (flat content) + i = ground arith in
                      let same : place (capacity buf) buf.read_pos k
                          ≡ place (capacity buf) buf.write_pos i =
                        ap (place (capacity buf) buf.read_pos) past
                        ∙ sym (
                            place-place (capacity buf) buf.read_pos (length (flat content)) i r
                              (omega (arith, more)))
                        ∙ ap (λ q. place (capacity buf) q i) (sym w) in
                      ap (λ j. get_or pushed.bytes j 0) same
                      ∙ new_byte i (omega (arith, more))
                      ∙ sym (get_or-append_more (flat content) rec i k past)
                ]);
        }
