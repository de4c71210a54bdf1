-- ===== src/Subprocess/Capture.antt =====
-- internal/subprocess/subprocess.go: Capture, and the diagnostic made of what it has kept. What the
-- command writes and how it ends is an argument.
use pwnbridge.Prelude.{
  ℕ, zero, suc, ◌+◌, ◌-◌, ◌*◌, ◌^◌, Bool, true, false, not, ◌&&◌, ◌||◌, List, [], ◌∷◌, ◌++◌, Option,
  none, some, ltb, leb, ◌==◌, if◌then◌else◌, length, drop, take, get_or,
}
use pwnbridge.Prelude.Int.{ℤ, pos, negsuc}
use pwnbridge.Prelude.Text.{Bytes, codes}
use pwnbridge.Config.Names.{is_empty}
use pwnbridge.Recipe.Space.{trim_space}
use pwnbridge.Subprocess.{BoundedWriter, new_bounded_writer, write_all, snapshot}
pub mod Complete
pub mod Diagnosed

abbrev pub diagnostic_limit : ℕ
diagnostic_limit = 65_536

-- `time.Second`, in nanoseconds.
abbrev pub default_wait_delay : ℤ
default_wait_delay = pos 1_000_000_000

pub record CaptureResult : Type 0 where
  pub stdout : Bytes
  pub stderr : Bytes
  pub stdout_truncated : Bool
  pub stderr_truncated : Bool

abbrev pub no_result : CaptureResult
no_result = record { stdout = []; stderr = []; stdout_truncated = false; stderr_truncated = false }

-- A byte between two bounds, the bounds included.
abbrev between : ℕ → ℕ → ℕ → Bool
between lo hi c = leb lo c && leb c hi

abbrev continues : ℕ → Bool
continues c = between 0x80 0xbf c

-- No overlong form, and no surrogate.
abbrev second_of_three : ℕ → ℕ → Bool
second_of_three a b =
    (a == 0xe0 && between 0xa0 0xbf b)
    || (between 0xe1 0xec a && continues b)
    || (a == 0xed && between 0x80 0x9f b)
    || (between 0xee 0xef a && continues b)

-- At most U+10FFFF.
abbrev second_of_four : ℕ → ℕ → Bool
second_of_four a b =
    (a == 0xf0 && between 0x90 0xbf b)
    || (between 0xf1 0xf3 a && continues b)
    || (a == 0xf4 && between 0x80 0x8f b)

-- How many bytes the valid code point at the start of the text has; 0 when there is none. A byte that
-- is missing is read as 0, which is no part of a longer code point.
unfoldable pub rune_length : Bytes → ℕ
rune_length [] = 0
rune_length (a ∷ s) =
    let b = get_or s 0 0 in
    let c = get_or s 1 0 in
    let d = get_or s 2 0 in
    if ltb a 0x80
    then 1
    else if between 0xc2 0xdf a && continues b
    then 2
    else if second_of_three a b && continues c
    then 3
    else if second_of_four a b && continues c && continues d
    then 4
    else 0

-- U+FFFD in UTF-8.
abbrev pub replacement : Bytes
replacement = 0xef ∷ 0xbf ∷ 0xbd ∷ []

-- `strings.ToValidUTF8`: `skip` is how many bytes of a code point are left to copy, and `broken` that
-- the byte before was not part of one, so that a run of such bytes is replaced once.
unfoldable pub valid_loop : ℕ → Bool → Bytes → Bytes
valid_loop skip broken [] = []
valid_loop (suc skip) broken (c ∷ s) = c ∷ valid_loop skip false s
valid_loop zero broken (c ∷ s) =
    let kept = c ∷ valid_loop (rune_length (c ∷ s) - 1) false s in
    let rest = valid_loop zero true s in
    if rune_length (c ∷ s) == 0 then (if broken then rest else replacement ++ rest) else kept

unfoldable pub to_valid_utf8 : Bytes → Bytes
to_valid_utf8 s = valid_loop 0 false s

abbrev pub truncation_mark : Bytes
truncation_mark = codes "[output truncated]"

unfoldable pub combined : CaptureResult → Bytes
combined r =
    (if not (is_empty r.stdout) && not (is_empty r.stderr)
      then r.stdout ++ b'\n' ∷ []
      else r.stdout)
    ++ r.stderr

unfoldable pub diagnostic : CaptureResult → Bytes
diagnostic r =
    let all_of = combined r in
    let long = ltb diagnostic_limit (length all_of) in
    let shown = if long then drop (length all_of - diagnostic_limit) all_of else all_of in
    let detail = trim_space (to_valid_utf8 shown) in
    if r.stdout_truncated || r.stderr_truncated || long
    then (if is_empty detail then truncation_mark else truncation_mark ++ b'\n' ∷ [] ++ detail)
    else detail

-- `DiagnosticWriter.Diagnostic`, after these writes.
unfoldable pub writer_diagnostic : List Bytes → Option Bytes
writer_diagnostic pieces = elim (write_all (new_bounded_writer diagnostic_limit true) pieces) [
  | none ↦ none
  | some w ↦ elim (snapshot w) [
    | none ↦ none
    | some (kept, truncated) ↦
        some (diagnostic record no_result { stderr = kept; stderr_truncated = truncated })
  ]
]

pub record Command : Type 0 where
  pub has_stdout : Bool
  pub has_stderr : Bool
  pub wait_delay : ℤ

-- What the command has written to each stream when it ends, its error, and that of the context.
pub record Ended : Type 0 where
  pub out : List Bytes
  pub errors : List Bytes
  pub run_error : Option Bytes
  pub context_error : Option Bytes

pub data CaptureError : Type 0 where
  refused : Bytes → CaptureError
  context_ended : Bytes → CaptureError
  limit_exceeded : Option Bytes → ℕ → CaptureError
  run_failed : Bytes → CaptureError

-- `if cmd.WaitDelay == 0`
unfoldable pub with_wait_delay : Command → Command
with_wait_delay cmd = elim cmd.wait_delay [
  | pos zero ↦ record cmd { wait_delay = default_wait_delay }
  | pos (suc n) ↦ cmd
  | negsuc n ↦ cmd
]

-- The error of a command that has ended.
unfoldable pub end_error : ℕ → Ended → Bool → Option CaptureError
end_error limit ended truncated = elim ended.context_error [
  | some problem ↦ some (context_ended problem)
  | none ↦
      if truncated
      then some (limit_exceeded ended.run_error limit)
      else elim ended.run_error [ none ↦ none | some problem ↦ some (run_failed problem) ]
]

module _ (run : Command → Ended) where
  -- The streams drained into their writers; `none` if a write does not end, or a snapshot panics.
  unfoldable pub drained : Command → ℕ → ℕ → Option (CaptureResult × Option CaptureError)
  drained cmd out_limit err_limit =
      let ended = run (with_wait_delay cmd) in
      elim (write_all (new_bounded_writer out_limit false) ended.out) [
        | none ↦ none
        | some out ↦ elim (write_all (new_bounded_writer err_limit true) ended.errors) [
          | none ↦ none
          | some errs ↦ elim (snapshot out) [
            | none ↦ none
            | some (stdout, stdout_truncated) ↦ elim (snapshot errs) [
              | none ↦ none
              | some (stderr, stderr_truncated) ↦ some (
                record {
                  stdout = stdout;
                  stderr = stderr;
                  stdout_truncated = stdout_truncated;
                  stderr_truncated = stderr_truncated;
                },
                end_error out_limit ended stdout_truncated,
              )
            ]
          ]
        ]
      ]

  -- The context and the command may be nil.
  unfoldable pub capture :
      Bool → Option Command → ℤ → ℤ → Option (CaptureResult × Option CaptureError)
  capture false cmd out_limit err_limit =
      some (no_result, some (refused (codes "capture context is nil")))
  capture true none out_limit err_limit =
      some (no_result, some (refused (codes "capture command is nil")))
  capture true (some cmd) (pos (suc n)) (pos (suc m)) =
      if cmd.has_stdout || cmd.has_stderr
      then some (no_result, some (refused (codes "capture command output is already configured")))
      else drained cmd (suc n) (suc m)
  capture true (some cmd) out_limit err_limit =
      some (no_result, some (refused (codes "capture limits must be positive")))
