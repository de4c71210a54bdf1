-- ===== src/Shell/Notice/Filtered.antt =====
-- What the filter takes out: occurrences of the notice with the line ends behind them, and nothing
-- else.
use pwnbridge.Prelude.{
  ℕ, Bool, true, false, [], ◌∷◌, ◌++◌, ◌==◌, ◌&&◌, ◌||◌, ◌≡◌, refl, arith, append_assoc, append-nil,
  ap, ◌∙◌, sym, Bool-cases, inl, inr, ◌⊎◌,
}
use pwnbridge.Prelude.Text.{Bytes, has_prefix, bytes_eq, bytes_eq_sound}
use pwnbridge.Shell.Paste.{cr, lf}
use pwnbridge.Shell.Notice.{
  new_exit_notice_filter, release, filter_byte, filter_loop, filter_write, filter_flush,
}

-- `Filtered n a s t`: `t` is `s` with some occurrences of `n` left out, each with some of the line
-- ends that follow it; `a` says whether `s` stands right behind an occurrence.
pub data Filtered (notice : Bytes) : Bool → Bytes → Bytes → Type 0 where
  done : (a : Bool) → Filtered notice a [] []
  keep :
      {a : Bool} (c : ℕ) {s t : Bytes}
      → Filtered notice false s t
      → Filtered notice a (c ∷ s) (c ∷ t)
  cut :
      {a : Bool} {s t whole : Bytes}
      → whole ≡ notice ++ s
      → Filtered notice true s t
      → Filtered notice a whole t
  line_end :
      (c : ℕ) {s t : Bytes}
      → (c ≡ cr) ⊎ (c ≡ lf)
      → Filtered notice true s t
      → Filtered notice true (c ∷ s) t

release_split : (notice p : Bytes) → (release notice p).0 ++ (release notice p).1 ≡ p
unfolding release
release_split notice [] = refl
release_split notice (c ∷ p) = elim (Bool-cases (has_prefix notice (c ∷ p))) [
  | inl fits ↦ rw (fits, release)
  | inr other ↦ rw (other, release) (ap (λ x. c ∷ x) (release_split notice p))
]

weaken_true :
    {notice : Bytes} {a : Bool} {s t : Bytes}
    → Filtered notice a s t
    → a ≡ false
    → Filtered notice true s t
weaken_true (done a) e = done true
weaken_true (keep c h) e = keep c h
weaken_true (cut e h) e' = cut e h
weaken_true (line_end c k h) e = cc

weaken :
    {notice : Bytes} {a : Bool} {s t : Bytes} → Filtered notice false s t → Filtered notice a s t
weaken {a = true} h = weaken_true h refl
weaken {a = false} h = h

keep_all :
    {notice : Bytes} {a : Bool} (w : Bytes) {s t : Bytes}
    → Filtered notice false s t
    → Filtered notice a (w ++ s) (w ++ t)
keep_all [] h = weaken h
keep_all (c ∷ w) h = keep c (keep_all w h)

keep_every : {notice : Bytes} {a : Bool} (w : Bytes) → Filtered notice a w w
keep_every {a = a} [] = done a
keep_every (c ∷ w) = keep c (keep_every w)

-- Nothing is pending while line ends are being dropped.
abbrev Steady : Bytes → Bool → Type 0
Steady pending after = after ≡ true → pending ≡ []

module _ (notice pending : Bytes) (after : Bool) (value : ℕ) where
  -- The three branches of a round.
  filter_byte_line_end :
      after ≡ true
      → (value == cr || value == lf) ≡ true
      → filter_byte notice pending after value ≡ (pending, true, [])
  unfolding filter_byte
  filter_byte_line_end h k = rw (h, k)

  module _ (text : (after && (value == cr || value == lf)) ≡ false) where
    filter_byte_notice :
        bytes_eq (release notice (pending ++ value ∷ [])).1 notice ≡ true
        → filter_byte notice pending after value
          ≡ ([], true, (release notice (pending ++ value ∷ [])).0)
    unfolding filter_byte
    filter_byte_notice h = rw (text, h)

    filter_byte_text :
        bytes_eq (release notice (pending ++ value ∷ [])).1 notice ≡ false
        → filter_byte notice pending after value ≡ (
          (release notice (pending ++ value ∷ [])).1,
          false,
          (release notice (pending ++ value ∷ [])).0,
        )
    unfolding filter_byte
    filter_byte_text h = rw (text, h)

-- What a round owes, whatever the rounds behind it do.
abbrev Sound : Bytes → Bytes → Bool → ℕ → Bytes × Bool × Bytes → Type 0
Sound notice pending after value (pending', after', written) =
    Steady pending' after'
    × ((s t : Bytes)
        → Filtered notice after' (pending' ++ s) t
        → Filtered notice after (pending ++ value ∷ s) (written ++ t))

released :
    (notice pending : Bytes) (value : ℕ) (s : Bytes)
    → pending ++ value ∷ s
      ≡ (release notice (pending ++ value ∷ [])).0
        ++ ((release notice (pending ++ value ∷ [])).1 ++ s)
released notice pending value s =
    sym (append_assoc pending (value ∷ []) s)
    ∙ ap (λ x. x ++ s) (sym (release_split notice (pending ++ value ∷ [])))
    ∙ append_assoc (release notice (pending ++ value ∷ [])).0
        (release notice (pending ++ value ∷ [])).1 s

newline_cases :
    (after : Bool) (value : ℕ)
    → (after && (value == cr || value == lf)) ≡ true
    → (after ≡ true) × ((value == cr || value == lf) ≡ true) × ((value ≡ cr) ⊎ (value ≡ lf))
newline_cases after value h = ground arith

filter_byte-Sound :
    (notice pending : Bytes) (after : Bool) (value : ℕ)
    → Steady pending after
    → Sound notice pending after value (filter_byte notice pending after value)
filter_byte-Sound notice pending after value steady =
    elim (Bool-cases (after && (value == cr || value == lf))) [
      | inl ends ↦
          let (on, newline, which) = newline_cases after value ends in
          rw (filter_byte_line_end notice pending after value on newline) (
            λ _. steady on,
            λ s t h. rw (steady on, on) (line_end value which (rw (steady on) at h)),
          )
      | inr text ↦ elim (Bool-cases (bytes_eq (release notice (pending ++ value ∷ [])).1 notice)) [
        | inl found ↦
            let same = bytes_eq_sound (release notice (pending ++ value ∷ [])).1 notice found in
            rw (filter_byte_notice notice pending after value text found) (
              λ _. refl,
              λ s t h. rw (released notice pending value s) (
                  keep_all (release notice (pending ++ value ∷ [])).0
                    (cut (ap (λ x. x ++ s) same) h)),
            )
        | inr other ↦ rw (filter_byte_text notice pending after value text other) (
          λ e. cc,
          λ s t h.
              rw (released notice pending value s)
                (keep_all (release notice (pending ++ value ∷ [])).0 h),
        )
      ]
    ]

filter_loop-Filtered :
    (notice pending : Bytes) (after : Bool) (d : Bytes)
    → Steady pending after
    → let (pending', after', written) = filter_loop notice pending after d in
      Filtered notice after (pending ++ d) (written ++ pending')
unfolding filter_loop
filter_loop-Filtered notice pending after [] steady = rw append-nil (keep_every pending)
filter_loop-Filtered notice pending after (value ∷ d) steady =
    let (steady', sound) = filter_byte-Sound notice pending after value steady in
    let (pending', after', written) = filter_byte notice pending after value in
    rw append_assoc (sound d _ (filter_loop-Filtered notice pending' after' d steady'))

-- The filter takes out nothing but occurrences of the notice and line ends right behind one: what it
-- writes over any output of the transport, with the bytes that the last `Flush` writes, is that
-- output with some such pieces left out.
pub filter_write-Filtered :
    (out notice d : Bytes)
    → (written : Bytes) × ((filter_flush (filter_write (new_exit_notice_filter out notice) d)).out
        ≡ out ++ written)
      × Filtered notice false d written
unfolding filter_flush filter_write new_exit_notice_filter
filter_write-Filtered out notice d =
    (_, append_assoc out _ _, filter_loop-Filtered notice [] false d (λ e. cc))
