-- ===== src/Shell/Controller.antt =====
-- internal/shell/proxy.go: inputController, which holds a command line back until the workspace is
-- synchronized. Each locked region is one function. The PTY is the bytes written to it so far; the
-- answer of the barrier is the argument `passed`. The message about a blocked barrier is left out.
use pwnbridge.Prelude.{
  ℕ, Bool, true, false, not, ◌||◌, ◌&&◌, List, [], ◌∷◌, ◌++◌, ◌==◌, if◌then◌else◌, Option, none,
  some, ◌≡◌, refl,
}
use mathlib.Core.Option
use pwnbridge.Prelude.Text.{Bytes, codes}
use pwnbridge.Shell.Paste.{PasteTracker, paste_feed, cr, lf, idle}
use pwnbridge.Shell.Predictor.{EchoPredictor, predict}
pub mod Lines
pub mod Accounts
pub mod Pasting
mod Tests

pub record InputController : Type 0 where
  pub pty : Bytes
  pub at_prompt : Bool
  pub syncing : Bool
  pub pending : Bytes
  pub predictor : Option EchoPredictor
  pub paste : PasteTracker

-- What the loop of `Input` finds: no line end outside a paste, or the bytes before the first one,
-- the line end itself and the bytes behind it; with the paste tracker as it is left.
pub data Scan : Type 0 where
  whole : PasteTracker → Scan
  line : PasteTracker → Bytes → ℕ → Bytes → Scan

abbrev pub scan_cons : ℕ → Scan → Scan
scan_cons value (whole t) = whole t
scan_cons value (line t before v after) = line t (value ∷ before) v after

unfoldable pub scan : PasteTracker → Bytes → Scan
scan t [] = whole t
scan t (value ∷ s) =
    let (t', paste_byte) = paste_feed t value in
    if paste_byte || not (value == cr) && not (value == lf)
    then scan_cons value (scan t' s)
    else line t' [] value s

abbrev pub predict_some : Option EchoPredictor → Bytes → Option EchoPredictor
predict_some none d = none
predict_some (some p) d = some (predict p d)

-- What `Input` does with what it found at a prompt; `some v` if the barrier is called for the line
-- end `v`.
unfoldable pub submit : InputController → Bytes → Scan → InputController × Option ℕ
submit c d (whole t) =
    (record c { pty = c.pty ++ d; predictor = predict_some c.predictor d; paste = t }, none)
submit c d (line t before v after) = (
  record c {
    pty = c.pty ++ before;
    syncing = true;
    pending = c.pending ++ after;
    predictor = predict_some c.predictor before;
    paste = t;
  },
  some v,
)

-- `Input` up to the call of the barrier.
unfoldable pub input_begin : InputController → Bytes → InputController × Option ℕ
unfolding submit
input_begin c d =
    if c.syncing
    then (record c { pending = c.pending ++ d }, none)
    else if not c.at_prompt
    then (record c { pty = c.pty ++ d }, none)
    else submit c d (scan c.paste d)

-- `Input` behind the barrier.
unfoldable pub input_end : InputController → ℕ → Bool → InputController
input_end c v passed =
    if passed
    then record c { pty = c.pty ++ v ∷ []; syncing = false; at_prompt = false }
    else record c { syncing = false; at_prompt = true }

abbrev pub input_after : InputController × Option ℕ → Bool → InputController
input_after (c, none) passed = c
input_after (c, some v) passed = input_end c v passed

unfoldable pub input : InputController → Bytes → Bool → InputController
input c d passed = input_after (input_begin c d) passed

unfoldable pub begin_prompt : InputController → InputController
begin_prompt c = record c { syncing = true; at_prompt = false; paste = idle }

-- `Prompt`: the bytes that were held back are input again.
unfoldable pub prompt : InputController → Bool → InputController
prompt c passed = elim c.pending [
  | [] ↦ record c { syncing = false; at_prompt = true; pending = [] }
  | b ∷ bs ↦ input (record c { syncing = false; at_prompt = true; pending = [] }) (b ∷ bs) passed
]
