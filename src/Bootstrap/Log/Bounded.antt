-- ===== src/Bootstrap/Log/Bounded.antt =====
-- Each write of a boundedLogWriter ends, and the log stays within its limit.
use pwnbridge.Prelude.{
  ℕ, zero, suc, ◌+◌, ◌-◌, ◌≤◌, ◌<◌, Bool, true, false, not, ◌&&◌, ◌||◌, [], ◌∷◌, ◌++◌, Option, none,
  some, ltb, leb, ◌==◌, length, drop, take, ◌≡◌, refl, ◌∙◌, arith, Bool-cases, Option-cases, inl,
  inr, length-append, length-take, length-drop, if-true, if-false,
}
use pwnbridge.Prelude.Text.{Bytes, codes}
use pwnbridge.Bootstrap.Log.{
  BoundedLogWriter, Written, bootstrap_log_truncated, failed, filled, ignored, log_write, write_cut,
  write_fitting, write_loop, write_mark, write_marked, write_whole,
}

-- A write that ends, and what it has left and logged at most.
pub record Within (w : BoundedLogWriter) (made : Written) : Type 0 where
  pub logged : length made.writer.target ≤ length w.target + w.remaining
  pub kept :
      made.problem ≡ none
      → length made.writer.target + made.writer.remaining ≤ length w.target + w.remaining

room_for_mark :
    (truncated : Bool) (remaining : ℕ)
    → (not truncated && ltb (length bootstrap_log_truncated) remaining) ≡ true
    → length bootstrap_log_truncated < remaining
room_for_mark true remaining h = cc
room_for_mark false remaining h = ground (arith, h)

module _ (answer : Bytes → Bytes → ℕ × Option Bytes) where
  -- The loop of writeAll ends, and writes at most the piece.
  write_loop_ends :
      (fuel : ℕ) (target piece : Bytes)
      → length piece ≤ fuel
      → (after : Bytes) × (problem : Option Bytes) × (write_loop answer fuel target piece
          ≡ some (after, problem))
        × (length after ≤ length target + length piece)
  unfolding write_loop
  write_loop_ends zero target [] h = (target, none, refl, omega arith)
  write_loop_ends (suc fuel) target [] h = (target, none, refl, omega arith)
  write_loop_ends zero target (c ∷ rest) h = absurd (omega arith)
  write_loop_ends (suc fuel) target (c ∷ rest) h =
      let n = (answer target (c ∷ rest)).0 in
      let reached = target ++ take n (c ∷ rest) in
      let grown : length reached ≤ length target + suc (length rest) =
        rw (length-append target (take n (c ∷ rest))) (omega (arith, length-take n (c ∷ rest))) in
      elim (Option-cases ((answer target (c ∷ rest)).1)) [
        | inr (text, e) ↦ (reached, some text, rw (write_loop, e) refl, grown)
        | inl e ↦ elim (Bool-cases (n == 0)) [
          | inl z ↦ (reached, some (codes "short write"), rw (write_loop, e, z) refl, grown)
          | inr z ↦
              let some_taken : 0 < n = ground (arith, z) in
              let (after, problem, ends, bound) =
                write_loop_ends fuel reached (drop n (c ∷ rest))
                  (omega (arith, h, length-drop n (c ∷ rest))) in
              (
                after,
                problem,
                rw (write_loop, e, z) ends,
                omega (
                  arith,
                  bound,
                  length-append target (take n (c ∷ rest)),
                  length-take n (c ∷ rest),
                  length-drop n (c ∷ rest),
                ),
              )
        ]
      ]

  write_whole_ends :
      (target piece : Bytes)
      → (after : Bytes) × (problem : Option Bytes) × (write_whole answer target piece
          ≡ some (after, problem))
        × (length after ≤ length target + length piece)
  unfolding write_whole
  write_whole_ends target piece = write_loop_ends (length piece) target piece (omega arith)

  Ends : BoundedLogWriter → Option Written → Type 0
  Ends w made = (out : Written) × (made ≡ some out) × Within w out

  write_cut-Ends : (w : BoundedLogWriter) (piece : Bytes) → Ends w (write_cut answer w piece)
  unfolding write_cut Ends
  write_cut-Ends w piece =
      let (after, problem, ends, bound) = write_whole_ends w.target (take w.remaining piece) in
      let short : length after ≤ length w.target + w.remaining =
        omega (arith, bound, length-take w.remaining piece) in
      elim (Option-cases problem) [
        | inr (text, e) ↦ (
          failed w after text,
          rw (write_cut, ends, e) refl,
          record { logged = short; kept = λ h. cc },
        )
        | inl e ↦ (
          filled w after piece w.truncated,
          rw (write_cut, ends, e) refl,
          record { logged = short; kept = λ h. omega (arith, short) },
        )
      ]

  write_mark-Ends :
      (w : BoundedLogWriter) (target piece : Bytes)
      → length target + length bootstrap_log_truncated ≤ length w.target + w.remaining
      → Ends w (write_mark answer w target piece)
  unfolding write_mark Ends
  write_mark-Ends w target piece fits =
      let (after, problem, ends, bound) = write_whole_ends target bootstrap_log_truncated in
      let short : length after ≤ length w.target + w.remaining = omega (arith, bound, fits) in
      elim (Option-cases problem) [
        | inr (text, e) ↦ (
          failed w after text,
          rw (write_mark, ends, e) refl,
          record { logged = short; kept = λ h. cc },
        )
        | inl e ↦ (
          filled w after piece true,
          rw (write_mark, ends, e) refl,
          record { logged = short; kept = λ h. omega (arith, short) },
        )
      ]

  write_marked-Ends :
      (w : BoundedLogWriter) (piece : Bytes)
      → length bootstrap_log_truncated < w.remaining
      → Ends w (write_marked answer w piece)
  unfolding write_marked Ends
  write_marked-Ends w piece room =
      let cut = w.remaining - length bootstrap_log_truncated in
      let (after, problem, ends, bound) = write_whole_ends w.target (take cut piece) in
      let fits : length after + length bootstrap_log_truncated ≤ length w.target + w.remaining =
        omega (arith, bound, length-take cut piece, room) in
      elim (Option-cases problem) [
        | inr (text, e) ↦ (
          failed w after text,
          rw (write_marked, ends, e) refl,
          record { logged = omega (arith, fits); kept = λ h. cc },
        )
        | inl e ↦
            let (out, made, within) = write_mark-Ends w after piece fits in
            (out, rw (write_marked, ends, e) made, within)
      ]

  write_fitting-Within :
      (w : BoundedLogWriter) (piece : Bytes)
      → length piece ≤ w.remaining
      → Within w (write_fitting answer w piece)
  unfolding write_fitting
  write_fitting-Within w piece fits =
      let n = (answer w.target piece).0 in
      let grown : length (w.target ++ take n piece) ≡ length w.target + length (take n piece) =
        length-append w.target (take n piece) in
      record {
        logged = omega (arith, grown, length-take n piece, fits);
        kept = λ h. omega (arith, grown, length-take n piece, fits);
      }

  -- A write to the log ends, whatever the file answers: the log grows by at most the bytes that
  -- remain, and if no error is reported, by at most as many bytes as the remaining ones are less by.
  pub log_write-Within :
      (w : BoundedLogWriter) (piece : Bytes)
      → (out : Written) × (log_write answer w piece ≡ some out) × Within w out
  unfolding log_write Ends
  log_write-Within w piece = elim (Bool-cases (length piece == 0 || w.remaining == 0)) [
    | inl e ↦ (
      ignored w piece,
      if-true (length piece == 0 || w.remaining == 0) _ _ e,
      record { logged = omega arith; kept = λ h. omega arith },
    )
    | inr e ↦
        let later = if-false (length piece == 0 || w.remaining == 0) _ _ e in
        elim (Bool-cases (leb (length piece) w.remaining)) [
          | inl fits ↦ (
            write_fitting answer w piece,
            later ∙ if-true (leb (length piece) w.remaining) _ _ fits,
            write_fitting-Within w piece (ground (arith, fits)),
          )
          | inr long ↦
              let cut_short = later ∙ if-false (leb (length piece) w.remaining) _ _ long in
              let guard = not w.truncated && ltb (length bootstrap_log_truncated) w.remaining in
              elim (Bool-cases guard) [
                | inl g ↦
                    let (out, made, within) =
                      write_marked-Ends w piece (room_for_mark w.truncated w.remaining g) in
                    (out, cut_short ∙ if-true guard _ _ g ∙ made, within)
                | inr g ↦
                    let (out, made, within) = write_cut-Ends w piece in
                    (out, cut_short ∙ if-false guard _ _ g ∙ made, within)
              ]
        ]
  ]
