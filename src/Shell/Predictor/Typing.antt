-- ===== src/Shell/Predictor/Typing.antt =====
-- The typed text: what `Predict` shows.
use pwnbridge.Prelude.{
  ℕ, List, Bool, true, false, [], ◌∷◌, ◌≡◌, refl, arith, append-nil, ◌∙◌, Bool-cases, inl, inr,
}
use pwnbridge.Prelude.Text.{Bytes, Lacks}
use pwnbridge.Shell.Paste.{PasteTracker, paste_feed}
use pwnbridge.Shell.Paste.Laws.{
  IsValid, tilde, paste_feed-IsValid, paste_feed_active, paste_feed_toggle,
}
use pwnbridge.Shell.Predictor.Keys.{IsPrintable}
use pwnbridge.Shell.Predictor.{EchoPredictor, predict_byte, predict_loop, predict}

predict_byte-IsPrintable :
    (escape : ℕ) (paste_byte : Bool) (value : ℕ)
    → (predict_byte escape paste_byte value).1 ≡ true
    → IsPrintable value × (paste_byte ≡ false)
unfolding predict_byte
predict_byte-IsPrintable escape paste_byte value h = ground arith

-- `Predict` on one piece of the typed bytes after another.
unfoldable pub predict_all : EchoPredictor → List Bytes → EchoPredictor
predict_all p [] = p
predict_all p (d ∷ ds) = predict_all (predict p d) ds

predict_loop_paste :
    (escape : ℕ) (paste : PasteTracker) (d : Bytes)
    → IsValid paste
    → paste.active ≡ true
    → Lacks tilde d
    → (predict_loop escape paste d).2 ≡ []
unfolding predict_loop
predict_loop_paste escape paste [] valid open_paste h = refl
predict_loop_paste escape paste (c ∷ d) valid open_paste (no_end, h) =
    let flag = paste_feed_active paste c open_paste in
    let still = paste_feed_toggle paste c valid no_end ∙ open_paste in
    let later =
      predict_loop_paste (predict_byte escape (paste_feed paste c).1 c).0 (paste_feed paste c).0 d
        (paste_feed-IsValid paste c valid) still h in
    elim (Bool-cases (predict_byte escape (paste_feed paste c).1 c).1) [
      | inl shown ↦ cc ((predict_byte-IsPrintable escape (paste_feed paste c).1 c shown).1, flag)
      | inr hidden ↦ rw hidden later
    ]

-- The text of a bracketed paste is left to the remote side: while a paste is open, bytes among
-- which no tilde can end it change neither the terminal nor the prediction. The tracker must have
-- matched less than a whole delimiter.
pub predict_paste :
    (p : EchoPredictor) (d : Bytes)
    → IsValid p.paste
    → p.paste.active ≡ true
    → Lacks tilde d
    → ((predict p d).out ≡ p.out) × ((predict p d).expected ≡ p.expected)
unfolding predict
predict_paste p d valid open_paste h =
    rw (predict_loop_paste p.escape p.paste d valid open_paste h)
      (append-nil p.out, append-nil p.expected)
