-- ===== src/Shell/Controller/Accounts.antt =====
-- No byte of the input is lost.
use pwnbridge.Prelude.{
  ℕ, Bool, true, false, not, ◌||◌, ◌&&◌, [], ◌∷◌, ◌++◌, ◌==◌, ◌+◌, if◌then◌else◌, Option, none,
  some, ◌≡◌, refl, arith, ap, ◌∙◌, suc, Bool-cases, inl, inr, ◌⊎◌,
}
use pwnbridge.Prelude.Text.{Bytes}
use pwnbridge.Shell.Paste.{PasteTracker, paste_feed, cr, lf}
use pwnbridge.Shell.Controller.Lines.{IsLineEnd}
use pwnbridge.Shell.Controller.{
  InputController, Scan, whole, line, scan, scan_cons, submit, input_begin, input_end, input_after,
  input,
}

-- How often a byte stands in a text.
abbrev pub count : ℕ → Bytes → ℕ
count b [] = 0
count b (c ∷ s) = if c == b then suc (count b s) else count b s

count-append : (b : ℕ) (s t : Bytes) → count b (s ++ t) ≡ count b s + count b t
count-append b [] t = omega arith
count-append b (c ∷ s) t = ground (arith, count-append b s t)

abbrev Spelled : Scan → Bytes → Type 0
Spelled (whole t) d = Unit
Spelled (line t before v after) d = d ≡ before ++ v ∷ after

Spelled-cons : (c : ℕ) (r : Scan) (d : Bytes) → Spelled r d → Spelled (scan_cons c r) (c ∷ d)
Spelled-cons c (whole t) d h = tt
Spelled-cons c (line t before v after) d h = ap (λ x. c ∷ x) h

scan-Spelled : (t : PasteTracker) (d : Bytes) → Spelled (scan t d) d
unfolding scan
scan-Spelled t [] = tt
scan-Spelled t (c ∷ d) =
    let (t', flag) = paste_feed t c in
    elim (Bool-cases (flag || not (c == cr) && not (c == lf))) [
      | inl on ↦ rw on (Spelled-cons c (scan t' d) d (scan-Spelled t' d))
      | inr found ↦ rw found refl
    ]

-- The bytes that a controller has: written to the PTY, or held back.
abbrev pub total : ℕ → InputController → ℕ
total b c = count b c.pty + count b c.pending

-- What one line end counts for, if it is the byte that is counted.
abbrev pub line_end_count : ℕ → Option ℕ → ℕ
line_end_count b none = 0
line_end_count b (some v) = count b (v ∷ [])

-- The line end of what was found is a CR or an LF.
abbrev Ends : Scan → Type 0
Ends (whole t) = Unit
Ends (line t before v after) = IsLineEnd v

abbrev EndsLine : Option ℕ → Type 0
EndsLine none = Unit
EndsLine (some v) = IsLineEnd v

Ends-cons : (c : ℕ) (r : Scan) → Ends r → Ends (scan_cons c r)
Ends-cons c (whole t) h = tt
Ends-cons c (line t before v after) h = h

submit-total :
    (b : ℕ) (c : InputController) (d : Bytes) (r : Scan)
    → Spelled r d
    → total b (submit c d r).0 + line_end_count b (submit c d r).1 ≡ total b c + count b d
unfolding submit
submit-total b c d (whole t) h = omega (arith, count-append b c.pty d)
submit-total b c d (line t before v after) h = rw h (
    omega (
      arith,
      count-append b c.pty before,
      count-append b c.pending after,
      count-append b before (v ∷ after),
      count-append b (v ∷ []) after,
    ))

input_begin-total :
    (b : ℕ) (c : InputController) (d : Bytes)
    → total b (input_begin c d).0 + line_end_count b (input_begin c d).1 ≡ total b c + count b d
unfolding input_begin
input_begin-total b c d = elim (Bool-cases c.syncing) [
  | inl busy ↦ simp busy (omega (arith, count-append b c.pending d))
  | inr free ↦ elim (Bool-cases c.at_prompt) [
    | inl at ↦ simp (free, at) (submit-total b c d (scan c.paste d) (scan-Spelled c.paste d))
    | inr away ↦ simp (free, away) (omega (arith, count-append b c.pty d))
  ]
]

input_end-total :
    (b : ℕ) (c : InputController) (v : ℕ) (passed : Bool)
    → total b (input_end c v passed) ≡ (if passed then total b c + count b (v ∷ []) else total b c)
unfolding input_end
input_end-total b c v true = omega (arith, count-append b c.pty (v ∷ []))
input_end-total b c v false = refl

scan-IsLineEnd : (t : PasteTracker) (d : Bytes) → Ends (scan t d)
unfolding scan
scan-IsLineEnd t [] = tt
scan-IsLineEnd t (c ∷ d) =
    let (t', flag) = paste_feed t c in
    elim (Bool-cases (flag || not (c == cr) && not (c == lf))) [
      | inl on ↦ rw on (Ends-cons c (scan t' d) (scan-IsLineEnd t' d))
      | inr found ↦ rw found (ground arith)
    ]

submit-IsLineEnd : (c : InputController) (d : Bytes) (r : Scan) → Ends r → EndsLine (submit c d r).1
unfolding submit
submit-IsLineEnd c d (whole t) h = tt
submit-IsLineEnd c d (line t before v after) h = h

input_begin-IsLineEnd : (c : InputController) (d : Bytes) → EndsLine (input_begin c d).1
unfolding input_begin
input_begin-IsLineEnd c d = elim (Bool-cases c.syncing) [
  | inl busy ↦ simp busy tt
  | inr free ↦ elim (Bool-cases c.at_prompt) [
    | inl at ↦ simp (free, at) (submit-IsLineEnd c d (scan c.paste d) (scan-IsLineEnd c.paste d))
    | inr away ↦ simp (free, away) tt
  ]
]

input_after-kept :
    (b n : ℕ) (r : InputController × Option ℕ) (passed : Bool)
    → total b r.0 + line_end_count b r.1 ≡ n
    → EndsLine r.1
    → (total b (input_after r passed) ≡ n)
      ⊎ ((v : ℕ) × (r.1 ≡ some v)
          × IsLineEnd v
          × (passed ≡ false)
          × (total b (input_after r passed) + count b (v ∷ []) ≡ n))
input_after-kept b n (c, none) passed h ends = inl (omega arith)
input_after-kept b n (c, some v) true h ends = inl (input_end-total b c v true ∙ h)
input_after-kept b n (c, some v) false h ends =
    inr (v, refl, ends, refl, omega (arith, input_end-total b c v false))

-- Every byte of the input is accounted for, in every state of the controller: `Input` writes it to
-- the PTY or holds it back. It leaves out nothing, or else, when the barrier does not pass, the one
-- byte for which the barrier is called, a CR or an LF.
pub input-total :
    (b : ℕ) (c : InputController) (d : Bytes) (passed : Bool)
    → (total b (input c d passed) ≡ total b c + count b d)
      ⊎ ((v : ℕ) × ((input_begin c d).1 ≡ some v)
          × IsLineEnd v
          × (passed ≡ false)
          × (total b (input c d passed) + count b (v ∷ []) ≡ total b c + count b d))
unfolding input
input-total b c d passed =
    input_after-kept b (total b c + count b d) (input_begin c d) passed (input_begin-total b c d)
      (input_begin-IsLineEnd c d)
