-- ===== src/Shell/Paste/History.antt =====
-- Over a whole stream: the tracker changes over only behind a complete delimiter.
use pwnbridge.Prelude.{
  ℕ, zero, suc, ◌+◌, ◌<◌, Bool, true, false, [], ◌∷◌, ◌++◌, ◌≡◌, ◌≢◌, ◌⊎◌, refl, arith, length,
  ◌==◌, Bool-cases, inl, inr, get_or, take, append_assoc, append-nil, sym, ap,
}
use pwnbridge.Prelude.Text.{Bytes}
use pwnbridge.Shell.Paste.{PasteTracker, esc, delimiter, paste_feed, paste_run, no_byte, idle}
use pwnbridge.Shell.Paste.Laws.{IsValid, paste_feed-IsValid, length-delimiter, delimiter_head}

-- The part of the delimiter that the tracker has seen.
abbrev seen : PasteTracker → Bytes
seen t = take t.matched (delimiter t.active)

-- The bytes end with what the tracker has seen.
abbrev Ends : Bytes → PasteTracker → Type 0
Ends s t = (pre : Bytes) × (s ≡ pre ++ seen t)

take-get_or : (s : Bytes) (m d : ℕ) → m < length s → take m s ++ get_or s m d ∷ [] ≡ take (suc m) s
take-get_or [] m d h = absurd (omega arith)
take-get_or (c ∷ s) zero d h = refl
take-get_or (c ∷ s) (suc m) d h = ap (λ x. c ∷ x) (take-get_or s m d (omega arith))

take_all : (s : Bytes) (m : ℕ) → m ≡ length s → take m s ≡ s
take_all [] zero h = refl
take_all [] (suc m) h = refl
take_all (c ∷ s) zero h = absurd (omega arith)
take_all (c ∷ s) (suc m) h = ap (λ x. c ∷ x) (take_all s m (omega arith))

-- The three things that a byte can do, with the state that each leads to.
paste_feed_cases :
    (t : PasteTracker) (value : ℕ)
    → IsValid t
    → ((paste_feed t value).0.matched ≡ 0)
      ⊎ ((value ≡ esc) × ((paste_feed t value).0 ≡ record { active = t.active; matched = 1 }))
      ⊎ ((value ≡ get_or (delimiter t.active) t.matched no_byte)
          × ((paste_feed t value).0 ≡ record { active = t.active; matched = suc t.matched }))
unfolding paste_feed
paste_feed_cases t value h =
    elim (Bool-cases (value == get_or (delimiter t.active) t.matched no_byte)) [
      | inl same ↦ elim (Bool-cases (t.matched + 1 == length (delimiter t.active))) [
        | inl done ↦ inl (rw (same, done))
        | inr more ↦
            let e : t.matched + 1 ≡ suc t.matched = omega arith in
            inr (inr (ground arith, rw (same, more, e)))
      ]
      | inr other ↦ elim (Bool-cases (value == get_or (delimiter t.active) 0 no_byte)) [
        | inl first ↦ inr (inl (ground (arith, delimiter_head t.active), rw (other, first)))
        | inr none_of_it ↦ inl (rw (other, none_of_it))
      ]
    ]

paste_feed_toggles :
    (t : PasteTracker) (value : ℕ)
    → (paste_feed t value).0.active ≢ t.active
    → (value ≡ get_or (delimiter t.active) t.matched no_byte)
      × (t.matched + 1 ≡ length (delimiter t.active))
unfolding paste_feed
paste_feed_toggles t value h =
    elim (Bool-cases (value == get_or (delimiter t.active) t.matched no_byte)) [
      | inl same ↦ elim (Bool-cases (t.matched + 1 == length (delimiter t.active))) [
        | inl done ↦ (ground arith, ground arith)
        | inr more ↦ absurd (h (rw (same, more)))
      ]
      | inr other ↦ absurd (h (rw other))
    ]

delimiter_first : (active : Bool) → take 1 (delimiter active) ≡ esc ∷ []
delimiter_first true = refl
delimiter_first false = refl

nothing_seen : (s : Bytes) (t : PasteTracker) → t.matched ≡ 0 → Ends s t
nothing_seen s t h = (s, rw h (sym (append-nil s)))

paste_feed-Ends :
    (s : Bytes) (t : PasteTracker) (value : ℕ)
    → IsValid t
    → Ends s t
    → Ends (s ++ value ∷ []) (paste_feed t value).0
paste_feed-Ends s t value h (pre, ends) = elim (paste_feed_cases t value h) [
  | inl none_of_it ↦ nothing_seen (s ++ value ∷ []) (paste_feed t value).0 none_of_it
  | inr (inl (first, next)) ↦ (s, rw (next, first, delimiter_first t.active))
  | inr (inr (same, next)) ↦ (
    pre,
    rw (
      next,
      ends,
      append_assoc,
      same,
      take-get_or (delimiter t.active) t.matched no_byte (rw length-delimiter h),
    ),
  )
]

paste_run-Ends :
    (r s : Bytes) (t : PasteTracker)
    → IsValid t
    → Ends s t
    → IsValid (paste_run t r).0 × Ends (s ++ r) (paste_run t r).0
unfolding paste_run
paste_run-Ends [] s t h ends = (h, rw append-nil ends)
paste_run-Ends (c ∷ r) s t h ends =
    let (h', ends') =
      paste_run-Ends r (s ++ c ∷ []) (paste_feed t c).0 (paste_feed-IsValid t c h)
        (paste_feed-Ends s t c h ends) in
    (h', rw append_assoc at ends')

-- A paste begins or ends only at the last byte of a complete delimiter: where a byte changes the
-- tracker over, after any stream read from its start, the stream with that byte ends with the
-- whole delimiter that the tracker was waiting for.
pub paste_run_toggle :
    (s : Bytes) (value : ℕ)
    → (paste_feed (paste_run idle s).0 value).0.active ≢ (paste_run idle s).0.active
    → (pre : Bytes) × (s ++ value ∷ [] ≡ pre ++ delimiter (paste_run idle s).0.active)
paste_run_toggle s value h =
    let t = (paste_run idle s).0 in
    let (valid, (pre, ends)) = paste_run-Ends s [] idle (omega arith) ([], refl) in
    let (same, done) = paste_feed_toggles t value h in
    let whole : take (suc t.matched) (delimiter t.active) ≡ delimiter t.active =
      take_all (delimiter t.active) (suc t.matched) (omega arith) in
    (
      pre,
      rw (
        same,
        ap (λ x. x ++ get_or (delimiter t.active) t.matched no_byte ∷ []) ends,
        append_assoc,
        take-get_or (delimiter t.active) t.matched no_byte (omega arith),
        whole,
      ),
    )
