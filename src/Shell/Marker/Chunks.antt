-- ===== src/Shell/Marker/Chunks.antt =====
-- The parser does not depend on how reads cut the stream.
use pwnbridge.Prelude.{
  ℕ, suc, zero, ◌+◌, ◌≤◌, ◌<◌, true, false, List, [], ◌∷◌, ◌++◌, some, length, drop, take, ◌≡◌, ◌≢◌,
  ◌⊎◌, refl, arith, Bool-cases, Option-cases, inl, inr, append_assoc, append-nil, ap, ◌∙◌, sym,
  length-drop, drop-append, take-append,
}
use pwnbridge.Prelude.Int.{ℤ}
use pwnbridge.Prelude.Text.{concat, Bytes, has_prefix, has_prefix-append, index_byte, atoi}
use pwnbridge.Shell.Marker.{Event, MarkerParser, bel, feed, feed_all}
use pwnbridge.Shell.Marker.Reference.{
  tokens, Verdict, marker, plain, open_ended, verdict, reference, put, reference-marker,
  reference-plain, reference-open_ended, verdict-unended, verdict-bad_status, verdict-status,
}
use pwnbridge.Shell.Marker.Index.{has_prefix-length}
use pwnbridge.Shell.Marker.Refines.{feed-reference, tokens-append}

module _ (d : Bytes) where
  -- A mismatch stays one, whatever follows.
  mismatch-append :
      (s p : Bytes)
      → has_prefix s p ≡ false
      → has_prefix p s ≡ false
      → (has_prefix (s ++ d) p ≡ false) × (has_prefix p (s ++ d) ≡ false)
  unfolding has_prefix
  mismatch-append s [] h k = cc
  mismatch-append [] (y ∷ p) h k = cc
  mismatch-append (x ∷ s) (y ∷ p) h k = ground (arith, mismatch-append s p)

  index_byte-append :
      (s : Bytes) (b n : ℕ) → index_byte s b ≡ some n → index_byte (s ++ d) b ≡ some n
  unfolding index_byte
  index_byte-append [] b n h = cc
  index_byte-append (c ∷ s) b zero h = ground (arith, index_byte-append s b zero)
  index_byte-append (c ∷ s) b (suc n) h = ground (arith, index_byte-append s b n)

  index_byte-lt : (s : Bytes) (b n : ℕ) → index_byte s b ≡ some n → n < length s
  unfolding index_byte
  index_byte-lt [] b n h = cc
  index_byte-lt (c ∷ s) b zero h = omega arith
  index_byte-lt (c ∷ s) b (suc n) h = ground (arith, index_byte-lt s b n)

pub Verdict-cases :
    (v : Verdict) → (v ≡ open_ended) ⊎ (v ≡ plain) ⊎ ((st : ℤ) × (n : ℕ) × (v ≡ marker st n))
Verdict-cases (marker st n) = inr (inr (st, n, refl))
Verdict-cases plain = inr (inl refl)
Verdict-cases open_ended = inl refl

verdict_unmatched :
    (p s : Bytes) → has_prefix s p ≡ false → (verdict p s ≡ open_ended) ⊎ (verdict p s ≡ plain)
unfolding verdict
verdict_unmatched p s h = elim (Bool-cases (has_prefix p s)) [
  | inl c ↦ inl (rw (h, c))
  | inr o ↦ inr (rw (h, o))
]

verdict-append_unmatched :
    (p s d : Bytes)
    → verdict p s ≢ open_ended
    → has_prefix s p ≡ false
    → verdict p (s ++ d) ≡ verdict p s
unfolding verdict
verdict-append_unmatched p s d settled unmatched = elim (Bool-cases (has_prefix p s)) [
  | inl candidate ↦ absurd (settled (rw (unmatched, candidate)))
  | inr other ↦
      let (unmatched', other') = mismatch-append d s p unmatched other in
      rw (unmatched, other, unmatched', other')
]

-- What a verdict for a marker rests on.
pub verdict_inv :
    (p s : Bytes) (st : ℤ) (n : ℕ)
    → verdict p s ≡ marker st n
    → (k : ℕ) × (has_prefix s p ≡ true)
      × (index_byte (drop (length p) s) bel ≡ some k)
      × (atoi (take k (drop (length p) s)) ≡ some st)
      × (n ≡ k + length p)
verdict_inv p s st n h = elim (Bool-cases (has_prefix s p)) [
  | inl matched ↦ elim (Option-cases (index_byte (drop (length p) s) bel)) [
    | inl unended ↦ cc (verdict-unended p s matched unended)
    | inr (k, ended) ↦ elim (Option-cases (atoi (take k (drop (length p) s)))) [
      | inl bad ↦ cc (verdict-bad_status p s matched k ended bad)
      | inr (st', good) ↦
          let same = sym (verdict-status p s matched k ended st' good) ∙ h in
          (k, matched, ended, ground arith, ground arith)
    ]
  ]
  | inr unmatched ↦ ground (arith, verdict_unmatched p s unmatched)
]

-- A verdict that is reached is not changed by the bytes that follow.
verdict-append : (p s d : Bytes) → verdict p s ≢ open_ended → verdict p (s ++ d) ≡ verdict p s
verdict-append p s d settled = elim (Bool-cases (has_prefix s p)) [
  | inl matched ↦
      let fits : length p ≤ length s = has_prefix-length s p matched in
      let matched' = has_prefix-append s p d matched in
      elim (Option-cases (index_byte (drop (length p) s) bel)) [
        | inl unended ↦ absurd (settled (verdict-unended p s matched unended))
        | inr (n, ended) ↦
            let ended' : index_byte (drop (length p) (s ++ d)) bel ≡ some n =
              rw (drop-append d (length p) s fits)
                (index_byte-append d (drop (length p) s) bel n ended) in
            let same : take n (drop (length p) (s ++ d)) ≡ take n (drop (length p) s) =
              rw (drop-append d (length p) s fits) (
                take-append d n (drop (length p) s)
                  (omega (arith, index_byte-lt d (drop (length p) s) bel n ended))) in
            elim (Option-cases (atoi (take n (drop (length p) s)))) [
              | inl bad ↦
                  verdict-bad_status p (s ++ d) matched' n ended' (ap atoi same ∙ bad)
                  ∙ sym (verdict-bad_status p s matched n ended bad)
              | inr (st, good) ↦
                  verdict-status p (s ++ d) matched' n ended' st (ap atoi same ∙ good)
                  ∙ sym (verdict-status p s matched n ended st good)
            ]
      ]
  | inr unmatched ↦ verdict-append_unmatched p s d settled unmatched
]

-- A marker lies within the bytes that show it.
marker_fits : (p s : Bytes) (st : ℤ) (n : ℕ) → verdict p s ≡ marker st n → n < length s
marker_fits p s st n h =
    let (k, matched, ended, good, sum) = verdict_inv p s st n h in
    omega (arith, length-drop (length p) s, index_byte-lt [] (drop (length p) s) bel k ended)

pub reference-suc :
    (p : Bytes) (k c : ℕ) (s : Bytes) → reference p (suc k) (c ∷ s) ≡ reference p k s
unfolding reference
reference-suc p k c s = refl

-- Reading on from where a first part of the stream left off reads the whole stream.
reference-append :
    (p : Bytes) (k : ℕ) (s d : Bytes)
    → k ≤ length s
    → reference p k (s ++ d) ≡ put (reference p k s).0 (reference p 0 ((reference p k s).1 ++ d))
reference-append p zero [] d fits = unfold reference in refl
reference-append p (suc k) [] d fits = absurd (omega arith)
reference-append p (suc k) (c ∷ s) d fits =
    rw (reference-suc p k c (s ++ d), reference-suc p k c s)
      (reference-append p k s d (omega arith))
reference-append p zero (c ∷ s) d fits = elim (Verdict-cases (verdict p (c ∷ s))) [
  | inl waits ↦ rw (reference-open_ended p c s waits)
  | inr (inl data_byte) ↦
      let same : verdict p (c ∷ s ++ d) ≡ plain =
        verdict-append p (c ∷ s) d (λ e. cc) ∙ data_byte in
      rw (
        reference-plain p c (s ++ d) same,
        reference-plain p c s data_byte,
        reference-append p 0 s d (omega arith),
      )
  | inr (inr (st, n, found)) ↦
      let same : verdict p (c ∷ s ++ d) ≡ marker st n =
        verdict-append p (c ∷ s) d (λ e. cc) ∙ found in
      rw (
        reference-marker p c (s ++ d) st n same,
        reference-marker p c s st n found,
        reference-append p n s d (omega (arith, marker_fits p (c ∷ s) st n found)),
      )
]

-- What is left undecided stays undecided until more bytes come.
reference-rest :
    (p : Bytes) (k : ℕ) (s : Bytes) → reference p 0 (reference p k s).1 ≡ ([], (reference p k s).1)
reference-rest p zero [] = unfold reference in refl
reference-rest p (suc k) [] = unfold reference in refl
reference-rest p (suc k) (c ∷ s) = rw (reference-suc p k c s) (reference-rest p k s)
reference-rest p zero (c ∷ s) = elim (Verdict-cases (verdict p (c ∷ s))) [
  | inl waits ↦ rw (reference-open_ended p c s waits) (reference-open_ended p c s waits)
  | inr (inl data_byte) ↦ rw (reference-plain p c s data_byte) (reference-rest p 0 s)
  | inr (inr (st, n, found)) ↦ rw (reference-marker p c s st n found) (reference-rest p n s)
]

feed_all-reference :
    (m : MarkerParser) (ds : List Bytes)
    → 0 < length m.prefix
    → reference m.prefix 0 m.pending ≡ ([], m.pending)
    → (es : List Event) × (feed_all m ds
        ≡ some (es, record m { pending = (reference m.prefix 0 (m.pending ++ concat ds)).1 }))
      × (tokens es ≡ (reference m.prefix 0 (m.pending ++ concat ds)).0)
unfolding feed_all
feed_all-reference m [] pos_p quiet =
    ([], unfold feed_all in rw (append-nil, quiet), unfold tokens in rw (append-nil, quiet))
feed_all-reference m (d ∷ ds) pos_p quiet =
    let (es, returns, same) = feed-reference m d pos_p in
    let first = reference m.prefix 0 (m.pending ++ d) in
    let (fs, returns', same') =
      feed_all-reference (record m { pending = first.1 }) ds pos_p
        (reference-rest m.prefix 0 (m.pending ++ d)) in
    let whole : reference m.prefix 0 (m.pending ++ (d ++ concat ds))
        ≡ put first.0 (reference m.prefix 0 (first.1 ++ concat ds)) =
      rw (← append_assoc)
        (reference-append m.prefix 0 (m.pending ++ d) (concat ds) (omega arith)) in
    (
      es ++ fs,
      rw (whole, feed_all, returns, returns'),
      rw (whole, tokens-append es fs, same, same'),
    )

-- The reads of a session in any pieces: from a parser that holds no undecided bytes, every way to
-- cut the stream makes every `Feed` return, with the same tokens in all and the same bytes kept
-- as one `Feed` of the whole stream. The prefix must not be empty.
pub feed_all-concat :
    (m : MarkerParser) (ds : List Bytes)
    → 0 < length m.prefix
    → m.pending ≡ []
    → (es fs : List Event) × (m' : MarkerParser) × (feed_all m ds ≡ some (es, m'))
      × (feed m (concat ds) ≡ some (fs, m'))
      × (tokens es ≡ tokens fs)
feed_all-concat m ds pos_p empty =
    let quiet : reference m.prefix 0 m.pending ≡ ([], m.pending) =
      rw empty (unfold reference in refl) in
    let (es, returns, same) = feed_all-reference m ds pos_p quiet in
    let (fs, returns', same') = feed-reference m (concat ds) pos_p in
    (es, fs, _, returns, returns', same ∙ sym same')
