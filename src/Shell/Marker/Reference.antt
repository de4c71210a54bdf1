-- ===== src/Shell/Marker/Reference.antt =====
-- A byte-at-a-time description of the marker stream, beside which `Feed` is judged.
use pwnbridge.Prelude.{
  ℕ, suc, zero, ◌+◌, true, false, List, [], ◌∷◌, ◌++◌, none, some, if◌then◌else◌, length, drop,
  take, ◌≡◌, refl,
}
use mathlib.Core.List.{map}
use pwnbridge.Prelude.Int.{ℤ}
use pwnbridge.Prelude.Text.{Bytes, has_prefix, index_byte, atoi}
use pwnbridge.Shell.Marker.{Event, bel}

-- What one event stands for, byte by byte: adjacent pieces of data are not told apart.
pub data Token : Type 0 where
  byte : ℕ → Token
  prompt : ℤ → Token

abbrev pub tokens_of : Event → List Token
tokens_of e = if e.prompt then prompt e.status ∷ [] else map byte e.bytes

unfoldable pub tokens : List Event → List Token
tokens [] = []
tokens (e ∷ es) = tokens_of e ++ tokens es

-- What the bytes at hand say about their first byte: it begins a marker with this status, of one
-- byte and this many more; it is plain data; or that is still open.
pub data Verdict : Type 0 where
  marker : ℤ → ℕ → Verdict
  plain : Verdict
  open_ended : Verdict

unfoldable pub verdict : Bytes → Bytes → Verdict
verdict prefix s =
    if has_prefix s prefix
    then elim (index_byte (drop (length prefix) s) bel) [
      | none ↦ open_ended
      | some n ↦ elim (atoi (take n (drop (length prefix) s))) [
        | none ↦ plain
        | some st ↦ marker st (n + length prefix)
      ]
    ]
    else if has_prefix prefix s
    then open_ended
    else plain

-- The tokens of a stream and its undecided rest. The number counts the bytes of a marker that are
-- still to be skipped.
unfoldable pub reference : Bytes → ℕ → Bytes → List Token × Bytes
reference prefix skip [] = ([], [])
reference prefix (suc k) (c ∷ s) = reference prefix k s
reference prefix zero (c ∷ s) = elim (verdict prefix (c ∷ s)) [
  | marker st n ↦ let (ts, rest) = reference prefix n s in (prompt st ∷ ts, rest)
  | plain ↦ let (ts, rest) = reference prefix 0 s in (byte c ∷ ts, rest)
  | open_ended ↦ ([], c ∷ s)
]

-- A result with tokens put in front of it.
abbrev pub put : List Token → List Token × Bytes → List Token × Bytes
put ts (us, rest) = (ts ++ us, rest)

module _ (p : Bytes) (c : ℕ) (s : Bytes) where
  pub reference-marker :
      (st : ℤ) (n : ℕ)
      → verdict p (c ∷ s) ≡ marker st n
      → reference p 0 (c ∷ s) ≡ put (prompt st ∷ []) (reference p n s)
  unfolding reference
  reference-marker st n h = rw (h, reference)

  pub reference-plain :
      verdict p (c ∷ s) ≡ plain → reference p 0 (c ∷ s) ≡ put (byte c ∷ []) (reference p 0 s)
  unfolding reference
  reference-plain h = rw (h, reference)

  pub reference-open_ended : verdict p (c ∷ s) ≡ open_ended → reference p 0 (c ∷ s) ≡ ([], c ∷ s)
  unfolding reference
  reference-open_ended h = rw (h, reference)

  pub verdict-no_match :
      has_prefix (c ∷ s) p ≡ false → has_prefix p (c ∷ s) ≡ false → verdict p (c ∷ s) ≡ plain
  unfolding verdict
  verdict-no_match h k = rw (h, k)

  pub verdict-candidate :
      has_prefix (c ∷ s) p ≡ false → has_prefix p (c ∷ s) ≡ true → verdict p (c ∷ s) ≡ open_ended
  unfolding verdict
  verdict-candidate h k = rw (h, k)

module _ (p s : Bytes) (matched : has_prefix s p ≡ true) where
  pub verdict-unended : index_byte (drop (length p) s) bel ≡ none → verdict p s ≡ open_ended
  unfolding verdict
  verdict-unended e = rw (matched, e)

  module _ (n : ℕ) (ended : index_byte (drop (length p) s) bel ≡ some n) where
    pub verdict-bad_status : atoi (take n (drop (length p) s)) ≡ none → verdict p s ≡ plain
    unfolding verdict
    verdict-bad_status e = rw (matched, ended, e)

    pub verdict-status :
        (st : ℤ)
        → atoi (take n (drop (length p) s)) ≡ some st
        → verdict p s ≡ marker st (n + length p)
    unfolding verdict
    verdict-status st e = rw (matched, ended, e)

pub reference-skip : (p : Bytes) (k : ℕ) (s : Bytes) → reference p k s ≡ reference p 0 (drop k s)
unfolding reference
reference-skip p zero s = refl
reference-skip p (suc k) [] = refl
reference-skip p (suc k) (c ∷ s) = reference-skip p k s
