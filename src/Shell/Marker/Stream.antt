-- ===== src/Shell/Marker/Stream.antt =====
-- What the tokens of a stream stand for: nothing is lost, moved or made up.
use mathlib.Core.List.{map}
use pwnbridge.Prelude.{
  ℕ, suc, zero, ◌+◌, ◌<◌, true, List, [], ◌∷◌, ◌++◌, some, length, drop, take, ◌≡◌, ◌≢◌, refl,
  arith, inl, inr, ap, ◌∙◌, sym,
}
use pwnbridge.Prelude.Int.{ℤ}
use pwnbridge.Prelude.Text.{Bytes, Lacks, has_prefix_self, has_prefix, index_byte, atoi}
use pwnbridge.Shell.Marker.{Event, MarkerParser, bel, feed}
use pwnbridge.Shell.Marker.Reference.{
  Token, byte, prompt, tokens, marker, plain, verdict, reference, put, reference-marker,
  reference-plain, reference-open_ended, verdict-no_match, verdict-status, reference-skip,
}
use pwnbridge.Shell.Marker.Refines.{feed-reference}
use pwnbridge.Shell.Marker.Chunks.{verdict_inv, Verdict-cases, reference-suc}

-- `Decodes p s ts r`: the tokens, each put back to the bytes that it stands for, and the rest `r`
-- spell `s`. A prompt stands for the prefix, the text of its status and a BEL.
pub data Decodes (p : Bytes) : Bytes → List Token → Bytes → Type 0 where
  rest : (s : Bytes) → Decodes p s [] s
  byte_of :
      (c : ℕ) {s : Bytes} {ts : List Token} {r : Bytes}
      → Decodes p s ts r
      → Decodes p (c ∷ s) (byte c ∷ ts) r
  prompt_of :
      (ds : Bytes) (st : ℤ) {s whole : Bytes} {ts : List Token} {r : Bytes}
      → atoi ds ≡ some st
      → Lacks bel ds
      → whole ≡ p ++ (ds ++ bel ∷ s)
      → Decodes p s ts r
      → Decodes p whole (prompt st ∷ ts) r

has_prefix-split : (s p : Bytes) → has_prefix s p ≡ true → s ≡ p ++ drop (length p) s
unfolding has_prefix
has_prefix-split s [] h = refl
has_prefix-split [] (y ∷ p) h = cc
has_prefix-split (x ∷ s) (y ∷ p) h = ground (arith, has_prefix-split s p)

index_byte-split :
    (s : Bytes) (b n : ℕ)
    → index_byte s b ≡ some n
    → (s ≡ take n s ++ b ∷ drop (suc n) s) × Lacks b (take n s)
unfolding index_byte
index_byte-split [] b n h = cc
index_byte-split (c ∷ s) b zero h = ground arith
index_byte-split (c ∷ s) b (suc n) h = ground (arith, index_byte-split s b n)

drop-nil : (k : ℕ) → drop {A = ℕ} k [] ≡ []
drop-nil zero = refl
drop-nil (suc k) = refl

drop-drop : (k l : ℕ) (s : Bytes) → drop k (drop l s) ≡ drop (k + l) s
drop-drop k zero s = let e : k + zero ≡ k = omega arith in rw e
drop-drop k (suc l) [] = let e : k + suc l ≡ suc (k + l) = omega arith in rw e (drop-nil k)
drop-drop k (suc l) (c ∷ s) =
    let e : k + suc l ≡ suc (k + l) = omega arith in rw e (drop-drop k l s)

reference-Decodes :
    (p : Bytes) (k : ℕ) (s : Bytes) → Decodes p (drop k s) (reference p k s).0 (reference p k s).1
reference-Decodes p zero [] = unfold reference in rest []
reference-Decodes p (suc k) [] = unfold reference in rest []
reference-Decodes p (suc k) (c ∷ s) = rw (reference-suc p k c s) (reference-Decodes p k s)
reference-Decodes p zero (c ∷ s) = elim (Verdict-cases (verdict p (c ∷ s))) [
  | inl waits ↦ rw (reference-open_ended p c s waits) (rest (c ∷ s))
  | inr (inl data_byte) ↦ rw (reference-plain p c s data_byte) (byte_of c (reference-Decodes p 0 s))
  | inr (inr (st, n, found)) ↦
      let (k, matched, ended, good, sum) = verdict_inv p (c ∷ s) st n found in
      let (parts, clean) = index_byte-split (drop (length p) (c ∷ s)) bel k ended in
      let behind : drop (suc k) (drop (length p) (c ∷ s)) ≡ drop n s =
        drop-drop (suc k) (length p) (c ∷ s)
        ∙ (let e : suc k + length p ≡ suc n = omega arith in rw e) in
      rw (reference-marker p c s st n found) (
        prompt_of (take k (drop (length p) (c ∷ s))) st good clean
          (has_prefix-split (c ∷ s) p matched
            ∙ ap (λ x. p ++ x)
                (parts ∙ ap (λ x. take k (drop (length p) (c ∷ s)) ++ bel ∷ x) behind))
          (reference-Decodes p n s))
]

-- Nothing is lost, reordered or made up: the events of a `Feed`, with every prompt put back to a
-- marker of the same status, and the bytes that the parser keeps, spell exactly the bytes that it
-- held and was given. The prefix must not be empty.
pub feed-Decodes :
    (m : MarkerParser) (d : Bytes)
    → 0 < length m.prefix
    → (es : List Event) × (m' : MarkerParser) × (feed m d ≡ some (es, m'))
      × Decodes m.prefix (m.pending ++ d) (tokens es) m'.pending
feed-Decodes m d pos_p =
    let (es, returns, same) = feed-reference m d pos_p in
    (es, _, returns, rw same (reference-Decodes m.prefix 0 (m.pending ++ d)))

drop_past : (p x : Bytes) → drop (length p) (p ++ x) ≡ x
drop_past [] x = refl
drop_past (c ∷ p) x = drop_past p x

drop_through : (p : Bytes) (c : ℕ) (x : Bytes) → drop (suc (length p)) (p ++ c ∷ x) ≡ x
drop_through [] c x = refl
drop_through (d ∷ p) c x = drop_through p c x

take_whole : (p x : Bytes) → take (length p) (p ++ x) ≡ p
take_whole [] x = refl
take_whole (c ∷ p) x = ap (λ t. c ∷ t) (take_whole p x)

index_byte-Lacks :
    (b : ℕ) (ds x : Bytes) → Lacks b ds → index_byte (ds ++ b ∷ x) b ≡ some (length ds)
unfolding index_byte
index_byte-Lacks b [] x h = ground arith
index_byte-Lacks b (c ∷ ds) x (h, hs) = ground (arith, index_byte-Lacks b ds x hs)

verdict_other : (b : ℕ) (q : Bytes) (c : ℕ) (s : Bytes) → c ≢ b → verdict (b ∷ q) (c ∷ s) ≡ plain
unfolding has_prefix
verdict_other b q c s h = verdict-no_match (b ∷ q) c s (ground arith) (ground arith)

reference_text :
    (b : ℕ) (q text s : Bytes)
    → Lacks b text
    → reference (b ∷ q) 0 (text ++ s) ≡ put (map byte text) (reference (b ∷ q) 0 s)
reference_text b q [] s h = refl
reference_text b q (c ∷ text) s (h, hs) = rw (
  reference-plain (b ∷ q) c (text ++ s) (verdict_other b q c (text ++ s) h),
  reference_text b q text s hs,
)

reference_prompt :
    (b : ℕ) (q ds : Bytes) (st : ℤ) (post : Bytes)
    → atoi ds ≡ some st
    → Lacks bel ds
    → reference (b ∷ q) 0 ((b ∷ q) ++ (ds ++ bel ∷ post))
      ≡ put (prompt st ∷ []) (reference (b ∷ q) 0 post)
reference_prompt b q ds st post good clean =
    let p = b ∷ q in
    let t = q ++ (ds ++ bel ∷ post) in
    let n = length ds + length p in
    let after : drop (length p) (p ++ (ds ++ bel ∷ post)) ≡ ds ++ bel ∷ post = drop_past p _ in
    let found : verdict p (b ∷ t) ≡ marker st n =
      verdict-status p (b ∷ t) (has_prefix_self p (ds ++ bel ∷ post)) (length ds)
        (rw after (index_byte-Lacks bel ds post clean)) st
        (rw after (rw (take_whole ds (bel ∷ post)) good)) in
    let left : drop n t ≡ post =
      (let e : suc n ≡ suc (length ds) + length p = omega arith in ap (λ k. drop k (b ∷ t)) e)
      ∙ sym (drop-drop (suc (length ds)) (length p) (b ∷ t))
      ∙ ap (drop (suc (length ds))) after
      ∙ drop_through ds bel post in
    reference-marker p b t st n found ∙ rw (reference-skip p n t, left)

-- Every marker is seen: after text without the first byte of the prefix, a prefix, the text of a
-- status and a BEL give one prompt with that status, once the text has been passed on as data, and
-- what follows the BEL is read as if from the start. The parser must hold no undecided bytes, and
-- the status text no BEL.
pub feed_marker :
    (b : ℕ) (q text ds : Bytes) (st : ℤ) (post : Bytes)
    → Lacks b text
    → Lacks bel ds
    → atoi ds ≡ some st
    → (es fs : List Event) × (m' : MarkerParser) × (feed
          (record { prefix = b ∷ q; pending = [] })
          (text ++ ((b ∷ q) ++ (ds ++ bel ∷ post)))
        ≡ some (es, m'))
      × (feed (record { prefix = b ∷ q; pending = [] }) post ≡ some (fs, m'))
      × (tokens es ≡ map byte text ++ prompt st ∷ tokens fs)
feed_marker b q text ds st post no_start clean good =
    let m : MarkerParser = record { prefix = b ∷ q; pending = [] } in
    let s = text ++ ((b ∷ q) ++ (ds ++ bel ∷ post)) in
    let (es, returns, same) = feed-reference m s (omega arith) in
    let (fs, returns', same') = feed-reference m post (omega arith) in
    let whole = reference_text b q text ((b ∷ q) ++ (ds ++ bel ∷ post)) no_start in
    let tail = reference_prompt b q ds st post good clean in
    (es, fs, _, rw (whole, tail) at returns, returns', same ∙ rw (whole, tail, same'))
