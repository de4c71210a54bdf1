-- ===== src/Subprocess/Kept.antt =====
-- What a boundedWriter keeps of a stream: its first bytes or its last ones, however it was cut.
use pwnbridge.Prelude.{
  ℕ, zero, suc, ◌+◌, ◌-◌, ◌^◌, ◌%◌, ◌≤◌, ◌<◌, Bool, true, false, List, [], ◌∷◌, ◌++◌, some, length,
  drop, take, ◌≡◌, refl, sym, ap, ◌∙◌, arith, append_assoc, append-nil, drop_all, take_all, ltb,
  leb, ◌&&◌, ◌==◌, Bool-cases, length-append, length-take, take-append-drop, ◌⊎◌, inl, inr, tests,
}
use pwnbridge.Prelude.Text.{Bytes, concat}
use pwnbridge.Subprocess.{
  BoundedWriter, new_bounded_writer, tally, fill, fill_tail, ring_loop, bounded_write, write_all,
  over_limit, snapshot,
}
use pwnbridge.Subprocess.Ring.{last, unrolled, Full, ring_loop-Full}
use Prim.Native.Nat.{min}
use native.Mathlib.Nat.{mod-eq_of_lt}

-- A tail writer that is not full has all of the stream.
pub record Filling (w : BoundedWriter) (s : Bytes) : Type 0 where
  all_of : w.bytes ≡ s
  short : length s < w.limit
  start : w.next ≡ 0

-- The writer has what it keeps of this stream.
abbrev pub Kept : Bool → BoundedWriter → Bytes → Type 0
Kept true w s = Filling w s ⊎ Full w s
Kept false w s = w.bytes ≡ take w.limit s

pub record Holds (w : BoundedWriter) (limit : ℕ) (tail : Bool) (s : Bytes) : Type 0 where
  same_limit : w.limit ≡ limit
  same_tail : w.tail ≡ tail
  counted : w.total ≡ length s
  kept : Kept tail w s

-- A head writer that takes what it has room for.
take-fill : (n : ℕ) (s d : Bytes) → take n s ++ take (n - length (take n s)) d ≡ take n (s ++ d)
take-fill zero s d = refl
take-fill (suc n) [] d = let e : suc n - 0 ≡ suc n = omega arith in ap (λ k. take k d) e
take-fill (suc n) (c ∷ s) d =
    let e : suc n - suc (length (take n s)) ≡ n - length (take n s) = omega arith in
    rw e (ap (λ t. c ∷ t) (take-fill n s d))

counts :
    (w : BoundedWriter) (s d : Bytes)
    → w.total ≡ length s
    → length (s ++ d) < 2 ^ 63
    → (w.total + length d) % 2 ^ 64 ≡ length (s ++ d)
counts w s d h k = rw (h, sym (length-append s d)) (mod-eq_of_lt (omega arith))

-- A piece that does not fill the ring.
write_short :
    (w : BoundedWriter) (s d : Bytes)
    → w.tail ≡ true
    → Filling w s
    → length s + length d < w.limit
    → bounded_write w d ≡ some (record (tally w d) { bytes = s ++ d })
unfolding bounded_write fill_tail fill tally ring_loop
write_short w s d is_tail f h =
    let room : ltb (length s) w.limit ≡ true = ground (arith, f.short) in
    let short_of : (length (s ++ d) == w.limit) ≡ false =
      rw (length-append s d) (ground (arith, h)) in
    let whole : take (w.limit - length s) d ≡ d = take_all (w.limit - length s) d (omega arith) in
    let nothing : drop (w.limit - length s) d ≡ [] =
      drop_all (w.limit - length s) d (omega arith) in
    rw (is_tail, f.all_of, room, whole, short_of, nothing) refl

-- The ring, just filled.
abbrev filled_by : BoundedWriter → Bytes → Bytes → BoundedWriter
filled_by w s d = record (tally w d) { bytes = s ++ take (w.limit - length s) d; next = 0 }

write_long :
    (w : BoundedWriter) (s d : Bytes)
    → w.tail ≡ true
    → Filling w s
    → w.limit ≤ length s + length d
    → bounded_write w d
      ≡ ring_loop
          (length (drop (w.limit - length s) d))
          (filled_by w s d)
          (drop (w.limit - length s) d)
unfolding bounded_write fill_tail fill tally
write_long w s d is_tail f h =
    let room : ltb (length s) w.limit ≡ true = ground (arith, f.short) in
    let reached : (length (s ++ take (w.limit - length s) d) == w.limit) ≡ true =
      rw (length-append s (take (w.limit - length s) d), length-take (w.limit - length s) d)
        (ground (arith, h, f.short)) in
    rw (is_tail, f.all_of, room, reached) refl

filled_by-Full :
    (w : BoundedWriter) (s d : Bytes)
    → Filling w s
    → w.limit ≤ length s + length d
    → Full (filled_by w s d) (s ++ take (w.limit - length s) d)
unfolding tally
filled_by-Full w s d f h =
    let front = s ++ take (w.limit - length s) d in
    let just : length front ≡ w.limit =
      rw (length-append s (take (w.limit - length s) d), length-take (w.limit - length s) d)
        (omega (arith, f.short)) in
    let whole : length front - w.limit ≡ 0 = omega arith in
    record {
      full = just;
      long = omega arith;
      within = omega (arith, f.short);
      fresh = λ e. refl;
      held = rw whole (append-nil front);
    }

-- A ring that is full writes all of the piece.
write_ring :
    (w : BoundedWriter) (s d : Bytes)
    → w.tail ≡ true
    → Full w s
    → bounded_write w d ≡ ring_loop (length d) (tally w d) d
unfolding bounded_write fill_tail tally
write_ring w s d is_tail f =
    let no_room : ltb (length w.bytes) w.limit ≡ false = ground (arith, f.full) in
    rw (is_tail, no_room) refl

module _ (w : BoundedWriter) (limit : ℕ) (s d : Bytes) where
  -- The loop on a full ring, as a write that ends.
  looped :
      (ring : BoundedWriter) (front rest : Bytes)
      → Full ring front
      → front ++ rest ≡ s ++ d
      → ring.limit ≡ limit
      → ring.tail ≡ true
      → ring.total ≡ length (s ++ d)
      → bounded_write w d ≡ ring_loop (length rest) ring rest
      → (after : BoundedWriter) × (bounded_write w d ≡ some after) × Holds after limit true (s ++ d)
  looped ring front rest f joins same_limit is_tail counted e =
      let (after, ends, g, limit_eq, tail_eq, total_eq) =
        ring_loop-Full (length rest) ring front rest (omega arith) f in
      (
        after,
        e ∙ ends,
        record {
          same_limit = limit_eq ∙ same_limit;
          same_tail = tail_eq ∙ is_tail;
          counted = total_eq ∙ counted;
          kept = inr (rw joins at (g));
        },
      )

  write-Filling :
      length (s ++ d) < 2 ^ 63
      → Holds w limit true s
      → Filling w s
      → (after : BoundedWriter) × (bounded_write w d ≡ some after) × Holds after limit true (s ++ d)
  unfolding tally
  write-Filling k h f = elim (Bool-cases (ltb (length s + length d) w.limit)) [
    | inl short ↦ (
      record (tally w d) { bytes = s ++ d },
      write_short w s d h.same_tail f (omega (tests, short)),
      record {
        same_limit = h.same_limit;
        same_tail = h.same_tail;
        counted = counts w s d h.counted k;
        kept = inl (record {
          all_of = refl;
          short = rw (length-append s d) (omega (tests, short));
          start = f.start;
        });
      },
    )
    | inr long ↦
        let reaches : w.limit ≤ length s + length d = ground (arith, long) in
        looped (filled_by w s d) (s ++ take (w.limit - length s) d) (drop (w.limit - length s) d)
          (filled_by-Full w s d f reaches)
          (append_assoc s (take (w.limit - length s) d) (drop (w.limit - length s) d)
            ∙ ap (λ x. s ++ x) (take-append-drop (w.limit - length s) d))
          h.same_limit h.same_tail (counts w s d h.counted k)
          (write_long w s d h.same_tail f reaches)
  ]

  tally-Full : Full w s → Full (tally w d) s
  unfolding tally
  tally-Full f = record {
    full = f.full;
    long = f.long;
    within = f.within;
    fresh = f.fresh;
    held = f.held;
  }

-- A write ends, and the writer then holds what it keeps of the longer stream.
pub bounded_write-Holds :
    (w : BoundedWriter) (limit : ℕ) (tail : Bool) (s d : Bytes)
    → length (s ++ d) < 2 ^ 63
    → Holds w limit tail s
    → (after : BoundedWriter) × (bounded_write w d ≡ some after) × Holds after limit tail (s ++ d)
unfolding bounded_write tally fill
bounded_write-Holds w limit false s d k h = (
  fill (tally w d) d,
  (rw h.same_tail refl),
  record {
    same_limit = h.same_limit;
    same_tail = h.same_tail;
    counted = counts w s d h.counted k;
    kept = rw h.kept (take-fill w.limit s d);
  },
)
bounded_write-Holds w limit true s d k h = elim h.kept [
  | inl f ↦ write-Filling w limit s d k h f
  | inr f ↦
      looped w limit s d (tally w d) s d (tally-Full w limit s d f) refl h.same_limit h.same_tail
        (counts w s d h.counted k) (write_ring w s d h.same_tail f)
]

write_all-cons :
    (w after : BoundedWriter) (d : Bytes) (ds : List Bytes)
    → bounded_write w d ≡ some after
    → write_all w (d ∷ ds) ≡ write_all after ds
unfolding write_all
write_all-cons w after d ds h = rw (h, write_all) refl

pub write_all-Holds :
    (w : BoundedWriter) (limit : ℕ) (tail : Bool) (s : Bytes) (pieces : List Bytes)
    → length (s ++ concat pieces) < 2 ^ 63
    → Holds w limit tail s
    → (after : BoundedWriter) × (write_all w pieces ≡ some after)
      × Holds after limit tail (s ++ concat pieces)
unfolding write_all
write_all-Holds w limit tail s [] k h = (w, refl, rw (append-nil s) h)
write_all-Holds w limit tail s (d ∷ ds) k h =
    let together = append_assoc s d (concat ds) in
    let (middle, e, g) =
      bounded_write-Holds w limit tail s d
        (omega (
          arith,
          k,
          length-append s d,
          length-append s (d ++ concat ds),
          length-append d (concat ds),
        ))
        h in
    let (after, e', g') = write_all-Holds middle limit tail (s ++ d) ds (rw together k) g in
    (after, write_all-cons w middle d ds e ∙ e', rw together at (g'))

-- The part of a stream that such a writer keeps.
abbrev pub kept_part : ℕ → Bool → Bytes → Bytes
kept_part limit true s = last limit s
kept_part limit false s = take limit s

last_all : (limit : ℕ) (s : Bytes) → length s ≤ limit → last limit s ≡ s
last_all limit s h = let e : length s - limit ≡ 0 = omega arith in rw e refl

over-eq : (limit n : ℕ) → n < 2 ^ 63 → (ltb n (2 ^ 63) && ltb limit n) ≡ ltb limit n
over-eq limit n h = let e : ltb n (2 ^ 63) ≡ true = ground (arith, h) in rw e refl

snapshot_whole :
    (w : BoundedWriter) (s : Bytes)
    → length s < 2 ^ 63
    → w.tail ≡ true
    → w.total ≡ length s
    → w.bytes ≡ s
    → length s ≤ w.limit
    → snapshot w ≡ some (s, false)
unfolding snapshot over_limit
snapshot_whole w [] k is_tail counted all_of fits =
    let e : ltb w.limit 0 ≡ false = ground arith in
    let m : min 0 w.limit ≡ 0 = omega arith in rw (is_tail, counted, e, m) refl
snapshot_whole w (c ∷ s) k is_tail counted all_of fits =
    let e : ltb w.limit (suc (length s)) ≡ false = ground (arith, fits) in
    let m : min (suc (length s)) w.limit ≡ suc (length s) = omega (arith, fits) in
    let u : leb (2 ^ 63) (suc (length s)) ≡ false = ground (arith, k) in
    let z : (suc (length s) == 0) ≡ false = ground arith in
    rw
      (
        is_tail,
        counted,
        u,
        over-eq w.limit (suc (length s)) k,
        e,
        m,
        z,
        all_of,
        take_all (length s) s (omega arith),
      )
      refl

snapshot-Full :
    (w : BoundedWriter) (s : Bytes)
    → length s < 2 ^ 63
    → w.tail ≡ true
    → w.total ≡ length s
    → Full w s
    → snapshot w ≡ some (last w.limit s, ltb w.limit (length s))
unfolding snapshot over_limit
snapshot-Full w s k is_tail counted f =
    let u : leb (2 ^ 63) (length s) ≡ false = ground (arith, k) in
    elim (Bool-cases (ltb w.limit (length s))) [
      | inl over ↦ rw (is_tail, counted, u, over-eq w.limit (length s) k, over, f.held) refl
      | inr within ↦
          let exact : length s ≡ w.limit = ground (arith, within, f.long) in
          let all_of : w.bytes ≡ s =
            sym (append-nil w.bytes)
            ∙ sym (ap (λ n. unrolled n w.bytes) (f.fresh exact))
            ∙ f.held
            ∙ last_all w.limit s (omega (arith, exact)) in
          rw (last_all w.limit s (omega (arith, exact)), within)
            (snapshot_whole w s k is_tail counted all_of (omega (arith, exact)))
    ]

snapshot-Holds :
    (w : BoundedWriter) (limit : ℕ) (tail : Bool) (s : Bytes)
    → length s < 2 ^ 63
    → Holds w limit tail s
    → snapshot w ≡ some (kept_part limit tail s, ltb limit (length s))
unfolding snapshot over_limit
snapshot-Holds w limit false s k h =
    rw (h.same_tail, h.counted, over-eq w.limit (length s) k, h.kept, h.same_limit) refl
snapshot-Holds w limit true s k h = elim h.kept [
  | inl f ↦
      let e : ltb limit (length s) ≡ false = ground (arith, f.short, h.same_limit) in
      rw (last_all limit s (omega (arith, f.short, h.same_limit)), e)
        (snapshot_whole w s k h.same_tail h.counted f.all_of (omega (arith, f.short)))
  | inr f ↦ rw (sym h.same_limit) (snapshot-Full w s k h.same_tail h.counted f)
]

new-Kept : (limit : ℕ) (tail : Bool) → 0 < limit → Kept tail (new_bounded_writer limit tail) []
unfolding new_bounded_writer
new-Kept (suc limit) false h = refl
new-Kept limit true h = inl (record { all_of = refl; short = h; start = refl })
new-Kept zero false h = refl

-- A writer with a limit that is positive takes the pieces of a stream of less than 2 ^ 63 bytes:
-- each loop of a write ends, and then its snapshot is the first bytes of the stream, or the last
-- ones if it is a tail writer, as many as the limit and however the stream was cut, with the mark
-- that some are missing exactly when the stream is longer than the limit.
pub snapshot-write_all :
    (limit : ℕ) (tail : Bool) (pieces : List Bytes)
    → 0 < limit
    → length (concat pieces) < 2 ^ 63
    → (after : BoundedWriter) × (write_all (new_bounded_writer limit tail) pieces ≡ some after)
      × (snapshot after
          ≡ some (kept_part limit tail (concat pieces), ltb limit (length (concat pieces))))
unfolding new_bounded_writer
snapshot-write_all limit tail pieces pos k =
    let (after, e, g) =
      write_all-Holds (new_bounded_writer limit tail) limit tail [] pieces k (record {
        same_limit = refl;
        same_tail = refl;
        counted = refl;
        kept = new-Kept limit tail pos;
      }) in
    (after, e, snapshot-Holds after limit tail (concat pieces) k g)
