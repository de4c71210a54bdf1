-- ===== src/Subprocess/Tests.antt =====
-- Witnesses of the theorems on bounded output.
use pwnbridge.Prelude.{
  ◌+◌, ◌*◌, ◌≤◌, true, false, List, [], ◌∷◌, ◌++◌, Option, none, some, length, take, ltb, ◌≡◌, refl,
  arith,
}
use pwnbridge.Prelude.Int.{pos}
use pwnbridge.Prelude.Text.{Bytes, codes, concat}
use pwnbridge.Subprocess.{
  BoundedWriter, bounded_write, tally, fill, fill_tail, new_bounded_writer, over_limit, overwrite,
  ring_loop, snapshot, turn, write_all,
}
use pwnbridge.Subprocess.Ring.{last}
use pwnbridge.Subprocess.Kept.{kept_part, snapshot-write_all}
use pwnbridge.Subprocess.Capture.{
  CaptureError, CaptureResult, Command, Ended, capture, diagnostic, diagnostic_limit, no_result,
  with_wait_delay,
}
use pwnbridge.Subprocess.Capture.Complete.{capture_complete}
use pwnbridge.Subprocess.Capture.Diagnosed.{length-diagnostic}

abbrev pieces : List Bytes
pieces = codes "abc" ∷ codes "defgh" ∷ codes "ij" ∷ []

-- The last four bytes, of a stream of three pieces.
snapshot_tail :
    (elim (write_all (new_bounded_writer 4 true) pieces) [ none ↦ none | some w ↦ snapshot w ])
    ≡ some (codes "ghij", true)
unfolding write_all bounded_write new_bounded_writer tally fill fill_tail ring_loop turn overwrite
    snapshot over_limit
snapshot_tail = refl

snapshot-write_all_example :
    (after : BoundedWriter) × (write_all (new_bounded_writer 4 true) pieces ≡ some after)
    × (snapshot after ≡ some (kept_part 4 true (concat pieces), ltb 4 (length (concat pieces))))
snapshot-write_all_example = snapshot-write_all 4 true pieces (omega arith) (omega arith)

abbrev command : Command
command = record { has_stdout = false; has_stderr = false; wait_delay = pos 0 }

abbrev runs : Command → Ended
runs cmd = record {
  out = codes "{" ∷ codes "}" ∷ [];
  errors = pieces;
  run_error = none;
  context_error = none;
}

capture_complete_example :
    (r : CaptureResult) × (problem : Option CaptureError) × (capture runs true
        (some command)
        (pos 8)
        (pos 4)
      ≡ some (r, problem))
    × (r.stdout ≡ take 8 (concat (runs (with_wait_delay command)).out))
    × (r.stderr ≡ last 4 (concat (runs (with_wait_delay command)).errors))
    × (problem ≡ none
        → (r.stdout ≡ concat (runs (with_wait_delay command)).out)
          × (r.stdout_truncated ≡ false)
          × ((runs (with_wait_delay command)).context_error ≡ none)
          × ((runs (with_wait_delay command)).run_error ≡ none))
capture_complete_example = capture_complete runs command 7 3 refl refl (omega arith) (omega arith)

length-diagnostic_example :
    length (diagnostic (record no_result { stdout = 255 ∷ codes "a" ++ 254 ∷ [] }))
    ≤ 3 * diagnostic_limit + 19
length-diagnostic_example =
    length-diagnostic (record no_result { stdout = 255 ∷ codes "a" ++ 254 ∷ [] })
