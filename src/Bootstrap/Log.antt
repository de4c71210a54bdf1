-- ===== src/Bootstrap/Log.antt =====
-- internal/bootstrap/bootstrap.go: boundedLogWriter. What the file answers to a write, how many bytes it
-- has taken and an error, is an argument. A limit below 0 is 0: it is only tested for being positive.
use pwnbridge.Prelude.{
  ℕ, zero, suc, ◌+◌, ◌-◌, ◌*◌, ◌≤◌, Bool, true, false, not, ◌&&◌, ◌||◌, List, [], ◌∷◌, ◌++◌, Option,
  none, some, ltb, leb, ◌==◌, if◌then◌else◌, length, drop, take,
}
use pwnbridge.Prelude.Text.{Bytes, codes}
pub mod Bounded

abbrev pub max_bootstrap_log_bytes : ℕ
max_bootstrap_log_bytes = 16 * 1_048_576

abbrev pub bootstrap_log_truncated : Bytes
bootstrap_log_truncated = codes "\n=== bootstrap log truncated at 16 MiB ===\n"

-- `target` is what the file has.
pub record BoundedLogWriter : Type 0 where
  pub target : Bytes
  pub remaining : ℕ
  pub truncated : Bool

pub record Written : Type 0 where
  pub writer : BoundedLogWriter
  pub taken : ℕ
  pub problem : Option Bytes

-- A write that fails leaves the count of the remaining bytes as it is.
abbrev pub failed : BoundedLogWriter → Bytes → Bytes → Written
failed w target text = record {
  writer = record w { target = target };
  taken = 0;
  problem = some text;
}

-- The last bytes that fit have been written.
abbrev pub filled : BoundedLogWriter → Bytes → Bytes → Bool → Written
filled w target piece truncated = record {
  writer = record w { target = target; remaining = 0; truncated = truncated };
  taken = length piece;
  problem = none;
}

-- Nothing is written, and it is said that all was.
abbrev pub ignored : BoundedLogWriter → Bytes → Written
ignored w piece = record { writer = w; taken = length piece; problem = none }

module _ (answer : Bytes → Bytes → ℕ × Option Bytes) where
  -- The loop of writeAll, in at most so many rounds; `none` when these are not enough.
  unfoldable pub write_loop : ℕ → Bytes → Bytes → Option (Bytes × Option Bytes)
  write_loop fuel target [] = some (target, none)
  write_loop zero target (c ∷ rest) = none
  write_loop (suc fuel) target (c ∷ rest) =
      let (n, problem) = answer target (c ∷ rest) in
      let reached = target ++ take n (c ∷ rest) in
      let again = write_loop fuel reached (drop n (c ∷ rest)) in
      elim problem [
        | some text ↦ some (reached, some text)
        | none ↦ if n == 0 then some (reached, some (codes "short write")) else again
      ]

  -- A round without an error takes a byte at least, so the length is enough fuel.
  unfoldable pub write_whole : Bytes → Bytes → Option (Bytes × Option Bytes)
  write_whole target piece = write_loop (length piece) target piece

  -- The piece is cut to what remains, and with `truncated` nothing follows.
  unfoldable pub write_cut : BoundedLogWriter → Bytes → Option Written
  write_cut w piece = elim (write_whole w.target (take w.remaining piece)) [
    | none ↦ none
    | some (target, some text) ↦ some (failed w target text)
    | some (target, none) ↦ some (filled w target piece w.truncated)
  ]

  unfoldable pub write_mark : BoundedLogWriter → Bytes → Bytes → Option Written
  write_mark w target piece = elim (write_whole target bootstrap_log_truncated) [
    | none ↦ none
    | some (marked, some text) ↦ some (failed w marked text)
    | some (marked, none) ↦ some (filled w marked piece true)
  ]

  -- The piece is cut so that the mark fits behind it.
  unfoldable pub write_marked : BoundedLogWriter → Bytes → Option Written
  write_marked w piece =
      elim (write_whole w.target (take (w.remaining - length bootstrap_log_truncated) piece)) [
        | none ↦ none
        | some (target, some text) ↦ some (failed w target text)
        | some (target, none) ↦ write_mark w target piece
      ]

  unfoldable pub write_fitting : BoundedLogWriter → Bytes → Written
  write_fitting w piece =
      let (n, problem) = answer w.target piece in
      record {
        writer = record w { target = w.target ++ take n piece; remaining = w.remaining - n };
        taken = n;
        problem = problem;
      }

  unfoldable pub log_write : BoundedLogWriter → Bytes → Option Written
  log_write w piece =
      if length piece == 0 || w.remaining == 0
      then some (ignored w piece)
      else if leb (length piece) w.remaining
      then some (write_fitting w piece)
      else if not w.truncated && ltb (length bootstrap_log_truncated) w.remaining
      then write_marked w piece
      else write_cut w piece
