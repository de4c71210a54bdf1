-- ===== src/Shell/Marker/Refines.antt =====
-- `Feed` against the reference: the same tokens, and the same bytes kept.
use mathlib.Core.List.{map, map-append}
use pwnbridge.Prelude.{
  ℕ, suc, zero, ◌+◌, ◌-◌, ◌≤◌, ◌<◌, true, List, [], ◌∷◌, ◌++◌, none, some, length, drop, take, ◌≡◌,
  refl, arith, Bool-cases, Option-cases, inl, inr, ap, ◌∙◌, ltb, append_assoc, append-nil,
  length-drop,
}
use pwnbridge.Prelude.Int.{ℤ}
use pwnbridge.Prelude.Text.{Bytes, has_prefix, index, index_byte, slice, atoi}
use pwnbridge.Shell.Marker.{
  Event, MarkerParser, bel, Round, stop, again, prompt_event, extend_last, append_data, read_status,
  round, feed_loop, feed,
}
use pwnbridge.Shell.Marker.Reference.{
  byte, tokens, reference, put, reference-marker, reference-plain, reference-open_ended,
  verdict-no_match, verdict-candidate, verdict-unended, verdict-bad_status, verdict-status,
  reference-skip,
}
use pwnbridge.Shell.Marker.Index.{
  has_prefix-length, index-length, index-has_prefix, kept, suffix_prefix-kept, index-cons_none,
  index-cons_suc, too_long, kept-le-length,
}

pub tokens-append : (es fs : List Event) → tokens (es ++ fs) ≡ tokens es ++ tokens fs
unfolding tokens
tokens-append [] fs = refl
tokens-append (e ∷ es) fs = rw (tokens-append es fs, append_assoc)

tokens-extend_last :
    (es : List Event) (d : Bytes) → tokens (extend_last es d) ≡ tokens es ++ map byte d
unfolding tokens extend_last
tokens-extend_last [] d = rw append-nil
tokens-extend_last (e ∷ []) d = elim (Bool-cases e.prompt) [
  | inl p ↦ rw (p, append-nil)
  | inr q ↦ rw (q, append-nil, append-nil, map-append)
]
tokens-extend_last (e ∷ e' ∷ es) d = rw (tokens-extend_last (e' ∷ es) d) (simp append_assoc)

-- Appending data adds its bytes to the tokens, whatever the last event is.
tokens-append_data :
    (es : List Event) (d : Bytes) → tokens (append_data es d) ≡ tokens es ++ map byte d
unfolding append_data
tokens-append_data es [] = rw append-nil
tokens-append_data es (c ∷ d) = tokens-extend_last es (c ∷ d)

-- Up to the first occurrence of the prefix all is plain data.
reference_found :
    (p s : Bytes) (i : ℕ)
    → index s p ≡ some i
    → reference p 0 s ≡ put (map byte (take i s)) (reference p 0 (drop i s))
reference_found p s zero h = refl
reference_found p [] (suc i) h = absurd (omega (arith, index-length [] p (suc i) h))
reference_found p (c ∷ s) (suc i) h =
    let (no_match, later) = index-cons_suc c s p i h in
    rw (
      reference-plain p c s (verdict-no_match p c s no_match (too_long c s p i later)),
      reference_found p s i later,
    )

-- With no occurrence all is plain data, but for the suffix that may begin a marker.
reference_absent :
    (p s : Bytes)
    → index s p ≡ none
    → reference p 0 s ≡ (map byte (take (length s - kept p s) s), drop (length s - kept p s) s)
unfolding kept
reference_absent p [] h = unfold reference in refl
reference_absent p (c ∷ s) h =
    let (no_match, later) = index-cons_none c s p h in
    elim (Bool-cases (has_prefix p (c ∷ s))) [
      | inl candidate ↦
          rw (candidate, reference-open_ended p c s (verdict-candidate p c s no_match candidate))
            (let e : suc (length s) - suc (length s) ≡ 0 = omega arith in rw e)
      | inr other ↦
          rw
            (
              other,
              reference-plain p c s (verdict-no_match p c s no_match other),
              reference_absent p s later,
            )
            (let e : suc (length s) - kept p s ≡ suc (length s - kept p s) =
                omega (arith, kept-le-length p s) in
              rw e)
    ]

module _ (p : Bytes) (es : List Event) (s : Bytes) where
  read_status_unended : index_byte (drop (length p) s) bel ≡ none → read_status p es s ≡ stop es s
  unfolding read_status
  read_status_unended e = rw (e, read_status)

  module _ (n : ℕ) (ended : index_byte (drop (length p) s) bel ≡ some n) where
    read_status_bad :
        atoi (take n (drop (length p) s)) ≡ none
        → read_status p es s ≡ again (append_data es (take 1 s)) (drop 1 s)
    unfolding read_status
    read_status_bad e =
        let k : n + length p - length p ≡ n = omega arith in
        rw (ended, read_status) (unfold slice in rw (k, e))

    read_status_good :
        (st : ℤ)
        → atoi (take n (drop (length p) s)) ≡ some st
        → read_status p es s ≡ again (es ++ prompt_event st ∷ []) (drop (suc (n + length p)) s)
    unfolding read_status
    read_status_good st e =
        let k : n + length p - length p ≡ n = omega arith in
        let l : n + length p + 1 ≡ suc (n + length p) = omega arith in
        rw (ended, read_status) (unfold slice in rw (k, e, l))

-- What one round of `Feed` owes to the reference.
abbrev Follows : Bytes → List Event → Bytes → Round → Type 0
Follows p es s (stop es' rest) =
    (tokens es' ≡ tokens es ++ (reference p 0 s).0) × (rest ≡ (reference p 0 s).1)
Follows p es s (again es' rest) =
    (length rest < length s)
    × (put (tokens es') (reference p 0 rest) ≡ put (tokens es) (reference p 0 s))

read_status-Follows :
    (p : Bytes) (es : List Event) (s : Bytes)
    → 0 < length p
    → has_prefix s p ≡ true
    → Follows p es s (read_status p es s)
read_status-Follows p es [] pos_p matched = absurd (omega (arith, has_prefix-length [] p matched))
read_status-Follows p es (c ∷ t) pos_p matched =
    elim (Option-cases (index_byte (drop (length p) (c ∷ t)) bel)) [
      | inl unended ↦
          rw
            (
              read_status_unended p es (c ∷ t) unended,
              reference-open_ended p c t (verdict-unended p (c ∷ t) matched unended),
            )
            (rw append-nil, refl)
      | inr (n, ended) ↦ elim (Option-cases (atoi (take n (drop (length p) (c ∷ t))))) [
        | inl bad ↦
            rw
              (
                read_status_bad p es (c ∷ t) n ended bad,
                reference-plain p c t (verdict-bad_status p (c ∷ t) matched n ended bad),
              )
              (omega arith, rw (tokens-append_data es (c ∷ [])) (rw append_assoc))
        | inr (st, good) ↦
            rw
              (
                read_status_good p es (c ∷ t) n ended st good,
                reference-marker p c t st (n + length p)
                    (verdict-status p (c ∷ t) matched n ended st good),
                reference-skip p (n + length p) t,
              )
              (
                omega (arith, length-drop (n + length p) t),
                rw (tokens-append es (prompt_event st ∷ []), append_assoc) (unfold tokens in refl),
              )
      ]
    ]

round_absent :
    (p : Bytes) (es : List Event) (s : Bytes)
    → index s p ≡ none
    → round p es s
      ≡ stop (append_data es (take (length s - kept p s) s)) (drop (length s - kept p s) s)
unfolding round
round_absent p es s absent =
    rw (absent, round)
      (rw (suffix_prefix-kept s p absent) (elim (Bool-cases (ltb 0 (length s - kept p s))) [
        | inl some_data ↦ rw some_data
        | inr no_data ↦
            let e : length s - kept p s ≡ 0 = ground arith in rw e (unfold append_data in refl)
      ]))

round_found :
    (p : Bytes) (es : List Event) (s : Bytes) (i : ℕ)
    → index s p ≡ some i
    → round p es s ≡ read_status p (append_data es (take i s)) (drop i s)
unfolding round
round_found p es s zero found = rw (found, round) (unfold append_data in refl)
round_found p es s (suc i) found =
    let e : ltb 0 (suc i) ≡ true = ground arith in rw (found, round) (rw e)

-- Data that is emitted first does not change what is owed for the rest.
Follows-emit :
    (p : Bytes) (es : List Event) (d s rest : Bytes) (r : Round)
    → reference p 0 s ≡ put (map byte d) (reference p 0 rest)
    → length rest ≤ length s
    → Follows p (append_data es d) rest r
    → Follows p es s r
Follows-emit p es d s rest (stop es' rest') e l (same, kept_rest) =
    (rw e (rw (← append_assoc) (same ∙ rw (tokens-append_data es d))), rw e kept_rest)
Follows-emit p es d s rest (again es' rest') e l (fewer, same) =
    (omega arith, same ∙ rw (e, tokens-append_data es d, append_assoc))

-- Each round keeps to the reference, and a round that goes on takes at least one byte.
round-Follows :
    (p : Bytes) (es : List Event) (s : Bytes) → 0 < length p → Follows p es s (round p es s)
round-Follows p es s pos_p = elim (Option-cases (index s p)) [
  | inl absent ↦
      rw (round_absent p es s absent, reference_absent p s absent)
        (tokens-append_data es (take (length s - kept p s) s), refl)
  | inr (i, found) ↦ rw (round_found p es s i found) (
      Follows-emit p es (take i s) s (drop i s) _ (reference_found p s i found)
        (omega (arith, length-drop i s))
        (read_status-Follows p (append_data es (take i s)) (drop i s) pos_p
          (index-has_prefix s p i found)))
]

feed_loop_step :
    (fuel : ℕ) (p : Bytes) (es : List Event) (s : Bytes) (r : Round)
    → Follows p es s r
    → ((es' : List Event) (rest : Bytes)
        → length rest < length s
        → (fs : List Event) × (feed_loop fuel p es' rest ≡ some (fs, (reference p 0 rest).1))
          × (tokens fs ≡ tokens es' ++ (reference p 0 rest).0))
    → round p es s ≡ r
    → (fs : List Event) × (feed_loop (suc fuel) p es s ≡ some (fs, (reference p 0 s).1))
      × (tokens fs ≡ tokens es ++ (reference p 0 s).0)
unfolding feed_loop
feed_loop_step fuel p es s (stop es' rest) (same, kept_rest) later e =
    (es', rw (feed_loop, e, kept_rest), same)
feed_loop_step fuel p es s (again es' rest) (fewer, same) later e =
    let (fs, returns, all) = later es' rest fewer in
    (
      fs,
      rw (feed_loop, e) (returns ∙ ap (λ x. some (fs, x)) (ap (λ x. x.1) same)),
      all ∙ ap (λ x. x.0) same,
    )

-- With more fuel than bytes the loop ends, and what it returns is the reference's.
pub feed_loop-reference :
    (fuel : ℕ) (p : Bytes) (es : List Event) (s : Bytes)
    → 0 < length p
    → length s < fuel
    → (fs : List Event) × (feed_loop fuel p es s ≡ some (fs, (reference p 0 s).1))
      × (tokens fs ≡ tokens es ++ (reference p 0 s).0)
feed_loop-reference zero p es s pos_p enough = absurd (omega arith)
feed_loop-reference (suc fuel) p es s pos_p enough =
    feed_loop_step fuel p es s (round p es s) (round-Follows p es s pos_p)
      (λ es' rest fewer. feed_loop-reference fuel p es' rest pos_p (omega arith)) refl

-- `Feed` returns for every input. Its events stand for exactly the tokens that the byte-at-a-time
-- reference reads from the pending bytes and the new ones, and it keeps exactly the bytes that the
-- reference leaves undecided; the prefix stays, and must not be empty.
pub feed-reference :
    (m : MarkerParser) (d : Bytes)
    → 0 < length m.prefix
    → (es : List Event) × (feed m d
        ≡ some (es, record m { pending = (reference m.prefix 0 (m.pending ++ d)).1 }))
      × (tokens es ≡ (reference m.prefix 0 (m.pending ++ d)).0)
unfolding feed
feed-reference m d pos_p =
    let (es, returns, same) =
      feed_loop-reference (suc (length (m.pending ++ d))) m.prefix [] (m.pending ++ d) pos_p
        (omega arith) in
    (es, rw (feed, returns), same ∙ (unfold tokens in refl))
