-- ===== src/Subprocess/Capture/Complete.antt =====
-- Capture ends, and a command that it reports no error of has all of its output in the result.
use pwnbridge.Prelude.{
  ℕ, suc, ◌^◌, ◌<◌, Bool, true, false, ◌||◌, Option, none, some, ltb, length, take, ◌≡◌, refl,
  arith, take_all, Bool-cases, Option-cases, inl, inr,
}
use pwnbridge.Prelude.Int.{pos}
use pwnbridge.Prelude.Text.{concat}
use pwnbridge.Subprocess.Ring.{last}
use pwnbridge.Subprocess.Kept.{snapshot-write_all}
use pwnbridge.Subprocess.Capture.{
  CaptureResult, CaptureError, Command, Ended, capture, drained, end_error, with_wait_delay,
}

end_error-none :
    (limit : ℕ) (ended : Ended) (truncated : Bool)
    → end_error limit ended truncated ≡ none
    → (truncated ≡ false) × (ended.context_error ≡ none) × (ended.run_error ≡ none)
unfolding end_error
end_error-none limit ended truncated h = elim (Option-cases ended.context_error) [
  | inr (p, e) ↦ cc (rw (e, end_error) at (h))
  | inl e ↦ elim (Bool-cases truncated) [
    | inl t ↦ cc (rw (e, t, end_error) at (h))
    | inr f ↦ elim (Option-cases ended.run_error) [
      | inr (p, r) ↦ cc (rw (e, f, r, end_error) at (h))
      | inl r ↦ (f, e, r)
    ]
  ]
]

-- A capture of a command whose output is not configured, with limits that are positive, ends, if the
-- command writes less than 2 ^ 63 bytes to each stream: the result has the first bytes of stdout and
-- the last bytes of stderr, as many as the limits, and when there is no error, all of stdout, and
-- neither the command nor the context has failed.
pub capture_complete :
    (run : Command → Ended) (cmd : Command) (n m : ℕ)
    → cmd.has_stdout ≡ false
    → cmd.has_stderr ≡ false
    → length (concat (run (with_wait_delay cmd)).out) < 2 ^ 63
    → length (concat (run (with_wait_delay cmd)).errors) < 2 ^ 63
    → (r : CaptureResult) × (problem : Option CaptureError) × (capture run true
          (some cmd)
          (pos (suc n))
          (pos (suc m))
        ≡ some (r, problem))
      × (r.stdout ≡ take (suc n) (concat (run (with_wait_delay cmd)).out))
      × (r.stderr ≡ last (suc m) (concat (run (with_wait_delay cmd)).errors))
      × (problem ≡ none
          → (r.stdout ≡ concat (run (with_wait_delay cmd)).out)
            × (r.stdout_truncated ≡ false)
            × ((run (with_wait_delay cmd)).context_error ≡ none)
            × ((run (with_wait_delay cmd)).run_error ≡ none))
unfolding capture drained end_error
capture_complete run cmd n m no_out no_err short_out short_err =
    let ended = run (with_wait_delay cmd) in
    let (out, out_ends, out_kept) =
      snapshot-write_all (suc n) false ended.out (omega arith) short_out in
    let (errs, errs_end, errs_kept) =
      snapshot-write_all (suc m) true ended.errors (omega arith) short_err in
    let configured : (cmd.has_stdout || cmd.has_stderr) ≡ false = rw (no_out, no_err) refl in
    let r : CaptureResult = record {
      stdout = take (suc n) (concat ended.out);
      stderr = last (suc m) (concat ended.errors);
      stdout_truncated = ltb (suc n) (length (concat ended.out));
      stderr_truncated = ltb (suc m) (length (concat ended.errors));
    } in
    (
      r,
      end_error (suc n) ended r.stdout_truncated,
      rw (capture, configured, drained, out_ends, errs_end, out_kept, errs_kept) refl,
      refl,
      refl,
      λ quiet.
          let (whole, no_context, no_run) = end_error-none (suc n) ended r.stdout_truncated quiet in
          (take_all (suc n) (concat ended.out) (ground (arith, whole)), whole, no_context, no_run),
    )
