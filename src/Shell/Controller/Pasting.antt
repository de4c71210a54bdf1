-- ===== src/Shell/Controller/Pasting.antt =====
-- A bracketed paste at the prompt: one insertion, whatever lines it holds.
use pwnbridge.Prelude.{Bool, true, not, List, [], ◌∷◌, ◌++◌, Option, none, ◌≡◌, refl, arith, ◌∙◌}
use pwnbridge.Prelude.Text.{Bytes, Lacks}
use pwnbridge.Shell.Paste.{
  PasteTracker, paste_feed, paste_run, idle, bracketed_paste_begin, bracketed_paste_end, delimiter,
}
use pwnbridge.Shell.Paste.Laws.{
  IsValid, tilde, paste_feed-IsValid, paste_feed_active, paste_feed_toggle, paste_run-delimiter,
}
use pwnbridge.Shell.Predictor.{EchoPredictor}
use pwnbridge.Shell.Controller.{whole, scan, predict_some, input_begin, input}
use pwnbridge.Shell.Controller.Lines.{ready}

abbrev AllTrue : List Bool → Type 0
AllTrue [] = Unit
AllTrue (b ∷ bs) = (b ≡ true) × AllTrue bs

-- Bytes that are all part of a paste hold no line end for the scan.
scan_flagged :
    (t : PasteTracker) (s r : Bytes)
    → AllTrue (paste_run t s).1
    → scan (paste_run t s).0 r ≡ whole idle
    → scan t (s ++ r) ≡ whole idle
unfolding scan paste_run
scan_flagged t [] r h e = e
scan_flagged t (c ∷ s) r (flag, h) e = rw (flag, scan_flagged (paste_feed t c).0 s r h e)

body_flagged :
    (t : PasteTracker) (s : Bytes)
    → IsValid t
    → t.active ≡ true
    → Lacks tilde s
    → AllTrue (paste_run t s).1 × IsValid (paste_run t s).0 × ((paste_run t s).0.active ≡ true)
unfolding paste_run
body_flagged t [] valid open_paste h = (tt, valid, open_paste)
body_flagged t (c ∷ s) valid open_paste (no_end, h) =
    let (flags, valid', open') =
      body_flagged (paste_feed t c).0 s (paste_feed-IsValid t c valid)
        (paste_feed_toggle t c valid no_end ∙ open_paste) h in
    ((paste_feed_active t c open_paste, flags), valid', open')

six_true : AllTrue (true ∷ true ∷ true ∷ true ∷ true ∷ true ∷ [])
six_true = (refl, (refl, (refl, (refl, (refl, (refl, tt))))))

-- The delimiter that the tracker waits for holds no line end for the scan.
scan-delimiter :
    (t : PasteTracker) (r : Bytes)
    → IsValid t
    → scan (record { active = not t.active; matched = 0 }) r ≡ whole idle
    → scan t (delimiter t.active ++ r) ≡ whole idle
scan-delimiter t r valid h =
    scan_flagged t (delimiter t.active) r (rw (paste_run-delimiter t valid) six_true)
      (rw (paste_run-delimiter t valid) h)

-- A paste with its delimiters.
abbrev pub pasted : Bytes → Bytes
pasted body = bracketed_paste_begin ++ (body ++ (bracketed_paste_end ++ []))

opened : PasteTracker
opened = record { active = true; matched = 0 }

scan-pasted : (body : Bytes) → Lacks tilde body → scan idle (pasted body) ≡ whole idle
unfolding opened
scan-pasted body h =
    let (flags, valid, open_paste) = body_flagged opened body (omega arith) refl h in
    let t = (paste_run opened body).0 in
    let at_end : scan t (delimiter t.active ++ []) ≡ whole idle =
      scan-delimiter t [] valid (rw open_paste (unfold scan in refl)) in
    scan-delimiter idle (body ++ (bracketed_paste_end ++ [])) (omega arith)
      (scan_flagged opened body (bracketed_paste_end ++ []) flags (rw open_paste at at_end))

-- A bracketed paste is one insertion: at a prompt, a whole paste is written to the PTY as it comes,
-- whatever line ends its text holds; no barrier is called, nothing is held back, and the controller
-- is at the prompt and outside a paste as before. The text must hold no tilde, with which it could
-- end the paste.
pub input-pasted :
    (w q : Bytes) (p : Option EchoPredictor) (body : Bytes) (passed : Bool)
    → Lacks tilde body
    → (input_begin (ready w q p) (pasted body)
        ≡ (ready (w ++ pasted body) q (predict_some p (pasted body)), none))
      × (input (ready w q p) (pasted body) passed
          ≡ ready (w ++ pasted body) q (predict_some p (pasted body)))
unfolding input
input-pasted w q p body passed h =
    let e : input_begin (ready w q p) (pasted body)
        ≡ (ready (w ++ pasted body) q (predict_some p (pasted body)), none) =
      unfold input_begin in rw (scan-pasted body h) in
    (e, rw e)
