-- ===== src/Shell/Predictor.antt =====
-- internal/shell/proxy.go: echoPredictor, which shows typed text at once and takes the remote echo
-- of it out of the remote output. The writer is the bytes written so far; the lock makes each
-- method one step. `Write` returns the writer's error, which only its caller could see.
use pwnbridge.Prelude.{
  ℕ, suc, zero, ◌+◌, Bool, true, false, not, ◌||◌, ◌&&◌, List, [], ◌∷◌, ◌++◌, ◌==◌, leb,
  if◌then◌else◌, ◌≡◌, refl,
}
use pwnbridge.Prelude.Text.{Bytes, codes}
use pwnbridge.Shell.Paste.{PasteTracker, esc, paste_feed, idle}
pub mod Echo
pub mod Keys
pub mod Typing
mod Tests

pub record EchoPredictor : Type 0 where
  pub out : Bytes
  pub expected : Bytes
  pub escape : ℕ
  pub paste : PasteTracker

abbrev pub del : ℕ
del = 127

-- One round of the loop of `Predict`, behind the call of `paste.Feed`: the next escape state, and
-- whether the byte is shown.
unfoldable pub predict_byte : ℕ → Bool → ℕ → ℕ × Bool
predict_byte escape paste_byte value =
    if escape == 1
    then (if value == b'[' then 2 else 0, false)
    else if escape == 2
    then (if leb 64 value && leb value 126 then 0 else 2, false)
    else if value == esc
    then (1, false)
    else if paste_byte
    then (escape, false)
    else (escape, leb 32 value && not (value == del))

-- The loop of `Predict`: the escape state and the tracker behind it, and `local`.
unfoldable pub predict_loop : ℕ → PasteTracker → Bytes → ℕ × PasteTracker × Bytes
predict_loop escape paste [] = (escape, paste, [])
predict_loop escape paste (value ∷ s) =
    let (paste', paste_byte) = paste_feed paste value in
    let (escape', shown) = predict_byte escape paste_byte value in
    let (escape'', paste'', shown_later) = predict_loop escape' paste' s in
    (escape'', paste'', (if shown then value ∷ shown_later else shown_later))

unfoldable pub predict : EchoPredictor → Bytes → EchoPredictor
predict p d =
    let (escape, paste, shown) = predict_loop p.escape p.paste d in
    record { out = p.out ++ shown; expected = p.expected ++ shown; escape = escape; paste = paste }

-- The loop of `Write`: what is still expected, and `remote`.
unfoldable pub write_loop : Bytes → Bytes → Bytes × Bytes
write_loop expected [] = (expected, [])
write_loop [] (value ∷ s) = let (expected', remote) = write_loop [] s in (expected', value ∷ remote)
write_loop (e ∷ es) (value ∷ s) = elim (value == e) [
  | true ↦ write_loop es s
  | false ↦ let (expected', remote) = write_loop [] s in (expected', value ∷ remote)
]

unfoldable pub write : EchoPredictor → Bytes → EchoPredictor
write p d =
    let (expected, remote) = write_loop p.expected d in
    record p { out = p.out ++ remote; expected = expected }

unfoldable pub reset : EchoPredictor → EchoPredictor
reset p = record p { expected = []; escape = 0; paste = idle }
