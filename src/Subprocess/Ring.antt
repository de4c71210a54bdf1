-- ===== src/Subprocess/Ring.antt =====
-- The ring of boundedWriter keeps the last bytes of all that was written, however it was cut.
use pwnbridge.Prelude.{
  ℕ, zero, suc, ◌+◌, ◌-◌, ◌%◌, ◌≤◌, ◌<◌, [], ◌∷◌, ◌++◌, some, length, drop, take, ◌≡◌, refl, sym,
  ap, ◌∙◌, arith, append_assoc, append-nil, drop-append, drop-append_ge, take-append_ge, drop-drop,
  drop_all, take_all, length-append, length-take, length-drop, take-append-drop, inl, inr,
}
use pwnbridge.Prelude.Text.{Bytes}
use pwnbridge.Subprocess.{BoundedWriter, overwrite, turn, ring_loop}
use Prim.Native.Nat.{min}
use native.Mathlib.Nat.{mod-eq_of_lt, mod_self, mod-lt, eq-or-lt_of_le}

-- The last `n` bytes.
abbrev pub last : ℕ → Bytes → Bytes
last n s = drop (length s - n) s

-- What the ring holds, from its oldest byte on.
abbrev pub unrolled : ℕ → Bytes → Bytes
unrolled next kept = drop next kept ++ take next kept

pub length-unrolled :
    (next : ℕ) (kept : Bytes) → next ≤ length kept → length (unrolled next kept) ≡ length kept
length-unrolled next kept h =
    rw (length-append (drop next kept) (take next kept))
      (omega (arith, length-drop next kept, length-take next kept))

pub length-overwrite :
    (kept : Bytes) (next : ℕ) (piece : Bytes)
    → next ≤ length kept
    → length (overwrite kept next piece) ≡ length kept
unfolding overwrite
length-overwrite kept next piece h =
    let w = min (length kept - next) (length piece) in
    rw
      (
        length-append (take next kept ++ take w piece) (drop (next + w) kept),
        length-append (take next kept) (take w piece),
      )
      (omega (arith, length-take next kept, length-take w piece, length-drop (next + w) kept))

drop-append_eq : (x y : Bytes) (n : ℕ) → length x ≡ n → drop n (x ++ y) ≡ y
drop-append_eq x y n h =
    let e : n - length x ≡ 0 = omega arith in rw (drop-append_ge x y n (omega arith), e) refl

take-append_eq : (x y : Bytes) (n : ℕ) → length x ≡ n → take n (x ++ y) ≡ x
take-append_eq x y n h =
    let e : n - length x ≡ 0 = omega arith in
    rw (take-append_ge x y n (omega arith), e) (append-nil x)

unrolled-append : (x y : Bytes) (n : ℕ) → length x ≡ n → unrolled n (x ++ y) ≡ y ++ x
unrolled-append x y n h = rw (drop-append_eq x y n h, take-append_eq x y n h) refl

-- A full turn is no turn.
unrolled_turn : (kept : Bytes) → unrolled 0 kept ≡ unrolled (length kept) kept
unrolled_turn kept =
    rw
      (
        append-nil kept,
        drop_all (length kept) kept (omega arith),
        take_all (length kept) kept (omega arith),
      )
      refl

-- A copy of bytes into the ring takes as many of its oldest ones away.
unrolled_copy :
    (kept : Bytes) (next m : ℕ) (d : Bytes)
    → length d ≡ m
    → next + m ≤ length kept
    → unrolled (next + m) (take next kept ++ d ++ drop (next + m) kept)
      ≡ drop m (unrolled next kept) ++ d
unrolled_copy kept next m d h k =
    let front : length (take next kept ++ d) ≡ next + m =
      rw (length-append (take next kept) d) (omega (arith, length-take next kept)) in
    rw
      (
        unrolled-append (take next kept ++ d) (drop (next + m) kept) (next + m) front,
        drop-append (take next kept) m (drop next kept) (omega (arith, length-drop next kept)),
        drop-drop m next kept,
      )
      (sym (append_assoc (drop (next + m) kept) (take next kept) d))

-- The bytes that one round of the loop copies.
abbrev pub written : BoundedWriter → Bytes → ℕ
written w piece = min (length w.bytes - w.next) (length piece)

turned : {limit : ℕ} (next : ℕ) → next ≡ limit → next % limit ≡ 0
turned {limit} next e = rw e (mod_self limit)

pub unrolled-turn :
    (w : BoundedWriter) (piece : Bytes)
    → length w.bytes ≡ w.limit
    → w.next < w.limit
    → unrolled (turn w piece).next (turn w piece).bytes
      ≡ drop (written w piece) (unrolled w.next w.bytes) ++ take (written w piece) piece
unfolding turn overwrite
unrolled-turn w piece h k =
    let m = written w piece in
    let copied =
      unrolled_copy w.bytes w.next m (take m piece) (omega (arith, length-take m piece))
        (omega arith) in
    elim (eq-or-lt_of_le {n = w.next + m} {m = w.limit} (omega arith)) [
      | inl full ↦
          let round_length : length (overwrite w.bytes w.next piece) ≡ w.next + m =
            length-overwrite w.bytes w.next piece (omega arith) ∙ h ∙ sym full in
          rw
            (turned (w.next + m) full, unrolled_turn (overwrite w.bytes w.next piece), round_length)
            copied
      | inr lt ↦ rw (mod-eq_of_lt lt) copied
    ]

-- The last bytes of a text, when bytes are put behind it.
pub last-append :
    (n : ℕ) (s d : Bytes)
    → n ≤ length s
    → length d ≤ n
    → last n (s ++ d) ≡ drop (length d) (last n s) ++ d
last-append n s d h k =
    let e : length (s ++ d) - n ≡ length s - n + length d = rw (length-append s d) (omega arith) in
    rw
      (
        e,
        drop-append d (length s - n + length d) s (omega arith),
        drop-drop (length d) (length s - n) s,
      )
      refl

-- The bytes that a ring of so many bytes has after all of these were written to it.
pub record Full (w : BoundedWriter) (s : Bytes) : Type 0 where
  pub full : length w.bytes ≡ w.limit
  pub long : w.limit ≤ length s
  pub within : w.next < w.limit
  pub fresh : length s ≡ w.limit → w.next ≡ 0
  pub held : unrolled w.next w.bytes ≡ last w.limit s

turn-Full :
    (w : BoundedWriter) (s piece : Bytes)
    → Full w s
    → 0 < written w piece
    → Full (turn w piece) (s ++ take (written w piece) piece)
unfolding turn
turn-Full w s piece f some_room =
    let m = written w piece in
    let cut : length (take m piece) ≡ m = omega (arith, length-take m piece) in
    record {
      full = length-overwrite w.bytes w.next piece (omega (arith, f.full, f.within)) ∙ f.full;
      long = rw (length-append s (take m piece)) (omega (arith, f.long));
      fresh = λ e. absurd (omega (arith, e, f.long, length-append s (take m piece)));
      within = mod-lt (w.next + m) (omega (arith, f.within));
      held =
          rw (last-append w.limit s (take m piece) f.long (omega (arith, f.full)), sym f.held, cut)
            (unrolled-turn w piece f.full f.within);
    }

-- The loop ends, and has written the piece.
pub ring_loop-Full :
    (fuel : ℕ) (w : BoundedWriter) (s piece : Bytes)
    → length piece ≤ fuel
    → Full w s
    → (after : BoundedWriter) × (ring_loop fuel w piece ≡ some after)
      × Full after (s ++ piece)
      × (after.limit ≡ w.limit)
      × (after.tail ≡ w.tail)
      × (after.total ≡ w.total)
unfolding ring_loop turn
ring_loop-Full zero w s [] h f = (w, refl, rw (append-nil s) f, refl, refl, refl)
ring_loop-Full (suc fuel) w s [] h f = (w, refl, rw (append-nil s) f, refl, refl, refl)
ring_loop-Full zero w s (c ∷ piece) h f = absurd (omega arith)
ring_loop-Full (suc fuel) w s (c ∷ piece) h f =
    let m = written w (c ∷ piece) in
    let some_room : 0 < m = omega (arith, f.full, f.within) in
    let (after, e, g, limit_eq, tail_eq, total_eq) =
      ring_loop-Full fuel (turn w (c ∷ piece)) (s ++ take m (c ∷ piece)) (drop m (c ∷ piece))
        (omega (arith, length-drop m (c ∷ piece))) (turn-Full w s (c ∷ piece) f some_room) in
    let all_of : s ++ take m (c ∷ piece) ++ drop m (c ∷ piece) ≡ s ++ (c ∷ piece) =
      append_assoc s (take m (c ∷ piece)) (drop m (c ∷ piece))
      ∙ ap (λ x. s ++ x) (take-append-drop m (c ∷ piece)) in
    (after, e, rw all_of at (g), limit_eq, tail_eq, total_eq)
