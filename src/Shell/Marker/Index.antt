-- ===== src/Shell/Marker/Index.antt =====
-- What the searches of the parser find, against prefixes of the remaining bytes.
use Prim.Native.Nat.{min}
use native.Mathlib.Decide.{dec_le}
use pwnbridge.Prelude.{
  ℕ, suc, zero, ◌+◌, ◌-◌, ◌≤◌, true, false, [], ◌∷◌, none, some, if◌then◌else◌, length, drop, take,
  ◌≡◌, refl, arith, Bool-cases, inl, inr,
}
use pwnbridge.Prelude.Text.{Bytes, has_prefix, index, bytes_eq}
use pwnbridge.Shell.Marker.{longest_suffix, suffix_prefix}

pub has_prefix-length : (s p : Bytes) → has_prefix s p ≡ true → length p ≤ length s
unfolding has_prefix
has_prefix-length s [] h = omega arith
has_prefix-length [] (y ∷ p) h = cc
has_prefix-length (x ∷ s) (y ∷ p) h = ground (arith, has_prefix-length s p)

-- Two texts of which the longer begins with the shorter are equal where their lengths are.
pub has_prefix_swap :
    (s p : Bytes) → has_prefix p s ≡ true → length p ≤ length s → has_prefix s p ≡ true
unfolding has_prefix
has_prefix_swap s [] h l = refl
has_prefix_swap [] (y ∷ p) h l = absurd (omega arith)
has_prefix_swap (x ∷ s) (y ∷ p) h l = ground (arith, has_prefix_swap s p)

pub bytes_eq-take :
    (s p : Bytes) → length s ≤ length p → bytes_eq s (take (length s) p) ≡ has_prefix p s
unfolding has_prefix bytes_eq
bytes_eq-take [] p h = refl
bytes_eq-take (x ∷ s) [] h = absurd (omega arith)
bytes_eq-take (x ∷ s) (y ∷ p) h = ground (arith, bytes_eq-take s p)

pub index-length : (s p : Bytes) (i : ℕ) → index s p ≡ some i → length p + i ≤ length s
unfolding index
index-length [] p i h = ground (arith, has_prefix-length [] p)
index-length (c ∷ s) p i h = ground (arith, has_prefix-length (c ∷ s) p, index-length s p (i - 1))

pub index-has_prefix : (s p : Bytes) (i : ℕ) → index s p ≡ some i → has_prefix (drop i s) p ≡ true
unfolding index
index-has_prefix [] p zero h = ground arith
index-has_prefix [] p (suc i) h = ground arith
index-has_prefix (c ∷ s) p zero h = ground arith
index-has_prefix (c ∷ s) p (suc i) h = ground (arith, index-has_prefix s p i)

-- How many bytes at the end must be kept, since a marker may begin there.
unfoldable pub kept : Bytes → Bytes → ℕ
kept p [] = 0
kept p (c ∷ s) = if has_prefix p (c ∷ s) then suc (length s) else kept p s

drop-length :
    (n : ℕ) (s : Bytes) (c : ℕ)
    → n ≤ length s
    → drop (suc (length s) - n) (c ∷ s) ≡ drop (length s - n) s
drop-length n s c h = let e : suc (length s) - n ≡ suc (length s - n) = omega arith in rw e

longest_suffix-cons :
    (n : ℕ) (c : ℕ) (s p : Bytes) → n ≤ length s → longest_suffix n (c ∷ s) p ≡ longest_suffix n s p
unfolding longest_suffix
longest_suffix-cons zero c s p h = refl
longest_suffix-cons (suc n) c s p h =
    rw (drop-length (suc n) s c h, longest_suffix-cons n c s p (omega arith))

-- One more byte in front, where the whole text may be the candidate.
longest_suffix-whole :
    (c : ℕ) (s p : Bytes)
    → suc (length s) ≤ length p
    → longest_suffix (suc (length s)) (c ∷ s) p
      ≡ (if has_prefix p (c ∷ s) then suc (length s) else longest_suffix (length s) s p)
unfolding longest_suffix
longest_suffix-whole c s p h =
    let e : suc (length s) - suc (length s) ≡ 0 = omega arith in
    rw (e, bytes_eq-take (c ∷ s) p h, longest_suffix-cons (length s) c s p (omega arith))

pub index-cons_none :
    (c : ℕ) (s p : Bytes)
    → index (c ∷ s) p ≡ none
    → (has_prefix (c ∷ s) p ≡ false) × (index s p ≡ none)
unfolding index
index-cons_none c s p h = ground arith

suffix_prefix-cons_short :
    (c : ℕ) (s p : Bytes)
    → suc (length s) ≤ length p - 1
    → suffix_prefix (c ∷ s) p ≡ (if has_prefix p (c ∷ s) then suc (length s) else suffix_prefix s p)
unfolding suffix_prefix
suffix_prefix-cons_short c s p h =
    let e : min (length p - 1) (suc (length s)) ≡ suc (length s) = omega arith in
    let e' : min (length p - 1) (length s) ≡ length s = omega arith in
    rw (e, e', longest_suffix-whole c s p (omega arith))

suffix_prefix-cons_long :
    (c : ℕ) (s p : Bytes) → length p - 1 ≤ length s → suffix_prefix (c ∷ s) p ≡ suffix_prefix s p
unfolding suffix_prefix
suffix_prefix-cons_long c s p h =
    let e : min (length p - 1) (suc (length s)) ≡ length p - 1 = omega arith in
    let e' : min (length p - 1) (length s) ≡ length p - 1 = omega arith in
    rw (e, e', longest_suffix-cons (length p - 1) c s p h)

-- The search from the longest candidate down finds the longest suffix that begins the marker.
pub suffix_prefix-kept : (s p : Bytes) → index s p ≡ none → suffix_prefix s p ≡ kept p s
unfolding kept
suffix_prefix-kept [] p h =
    unfold suffix_prefix longest_suffix in let e : min (length p - 1) 0 ≡ 0 = omega arith in rw e
suffix_prefix-kept (c ∷ s) p h =
    let (no_match, later) = index-cons_none c s p h in
    let ih : suffix_prefix s p ≡ kept p s = suffix_prefix-kept s p later in
    elim (dec_le (suc (length s)) (length p - 1)) [
      | yes short ↦ rw (suffix_prefix-cons_short c s p short, ih)
      | no long ↦
          rw (suffix_prefix-cons_long c s p (omega arith))
            (ground (arith, has_prefix_swap (c ∷ s) p))
    ]

pub index-cons_suc :
    (c : ℕ) (s p : Bytes) (i : ℕ)
    → index (c ∷ s) p ≡ some (suc i)
    → (has_prefix (c ∷ s) p ≡ false) × (index s p ≡ some i)
unfolding index
index-cons_suc c s p i h = ground arith

-- In front of an occurrence there are too many bytes for them to begin a marker only.
pub too_long : (c : ℕ) (s p : Bytes) (i : ℕ) → index s p ≡ some i → has_prefix p (c ∷ s) ≡ false
too_long c s p i h = elim (Bool-cases (has_prefix p (c ∷ s))) [
  | inl t ↦ absurd (omega (arith, has_prefix-length p (c ∷ s) t, index-length s p i h))
  | inr f ↦ f
]

pub kept-le-length : (p s : Bytes) → kept p s ≤ length s
unfolding kept
kept-le-length p [] = omega arith
kept-le-length p (c ∷ s) = ground (arith, kept-le-length p s)
