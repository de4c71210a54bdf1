-- ===== src/Shell/Controller/Lines.antt =====
-- Typed lines: what reaches the PTY before the barrier, behind it, and at the next prompts.
use pwnbridge.Prelude.{
  ℕ, Bool, true, false, List, [], ◌∷◌, ◌++◌, Option, none, some, ◌≡◌, ◌≢◌, ◌⊎◌, refl, arith,
  append_assoc, append-nil, ap, ◌∙◌, suc, zero, length,
}
use pwnbridge.Prelude.Text.{Bytes, All}
use pwnbridge.Shell.Paste.{paste_feed, cr, lf, esc, idle}
use pwnbridge.Shell.Predictor.{EchoPredictor}
use pwnbridge.Shell.Controller.{
  InputController, whole, line, scan, predict_some, input_begin, input_end, input, begin_prompt,
  prompt,
}

-- A byte of an ordinary typed line: no escape, and no line end.
abbrev pub IsTyped : ℕ → Type 0
IsTyped c = (c ≢ esc) × (c ≢ cr) × (c ≢ lf)

abbrev pub IsLineEnd : ℕ → Type 0
IsLineEnd c = (c ≡ cr) ⊎ (c ≡ lf)

paste_feed_typed : (c : ℕ) → c ≢ esc → paste_feed idle c ≡ (idle, false)
unfolding paste_feed
paste_feed_typed c h = ground arith

line_end-ne-esc : (v : ℕ) → IsLineEnd v → v ≢ esc
line_end-ne-esc v e = ground arith

scan_text : (text : Bytes) → All IsTyped text → scan idle text ≡ whole idle
unfolding scan
scan_text [] h = refl
scan_text (c ∷ text) ((not_esc, not_cr, not_lf), h) =
    rw (paste_feed_typed c not_esc, scan_text text h) (ground arith)

scan_line :
    (text : Bytes) (v : ℕ) (rest : Bytes)
    → All IsTyped text
    → IsLineEnd v
    → scan idle (text ++ v ∷ rest) ≡ line idle text v rest
unfolding scan
scan_line [] v rest h e = rw (paste_feed_typed v (line_end-ne-esc v e)) (ground arith)
scan_line (c ∷ text) v rest ((not_esc, not_cr, not_lf), h) e =
    rw (paste_feed_typed c not_esc, scan_line text v rest h e) (ground arith)

-- The states of a controller outside a paste, with what is written, held back and predicted: at a
-- prompt, while a barrier runs, and while a command runs.
abbrev pub ready : Bytes → Bytes → Option EchoPredictor → InputController
ready w q p = record {
  pty = w;
  at_prompt = true;
  syncing = false;
  pending = q;
  predictor = p;
  paste = idle;
}

abbrev pub held : Bytes → Bytes → Option EchoPredictor → InputController
held w q p = record {
  pty = w;
  at_prompt = true;
  syncing = true;
  pending = q;
  predictor = p;
  paste = idle;
}

abbrev pub running : Bytes → Bytes → Option EchoPredictor → InputController
running w q p = record {
  pty = w;
  at_prompt = false;
  syncing = false;
  pending = q;
  predictor = p;
  paste = idle;
}

module _ (w q : Bytes) (p : Option EchoPredictor) (text : Bytes) where
  -- At a prompt, outside a paste, bytes that hold no line end and no escape are written as they
  -- come, and call no barrier.
  pub input_text :
      (passed : Bool)
      → All IsTyped text
      → input (ready w q p) text passed ≡ ready (w ++ text) q (predict_some p text)
  unfolding input input_begin
  input_text passed h =
      let e : input_begin (ready w q p) text ≡ (ready (w ++ text) q (predict_some p text), none) =
        rw (scan_text text h) in
      rw (e, input)

  module _ (v : ℕ) (rest : Bytes) (typed : All IsTyped text) (line_end : IsLineEnd v) where
    input_begin_line :
        input_begin (ready w q p) (text ++ v ∷ rest)
        ≡ (held (w ++ text) (q ++ rest) (predict_some p text), some v)
    unfolding input_begin
    input_begin_line = rw (scan_line text v rest typed line_end)

    -- A typed line waits for the barrier. At a prompt, outside a paste, the text before the first
    -- line end is written at once, and the barrier is called; the line end is written only if the
    -- barrier passes, and then the command runs. If it does not, the line stays at the prompt
    -- without its end. Either way the bytes behind the line end are held back. The text holds no
    -- line end and no escape.
    pub input_line :
        (input_begin (ready w q p) (text ++ v ∷ rest)
          ≡ (held (w ++ text) (q ++ rest) (predict_some p text), some v))
        × (input (ready w q p) (text ++ v ∷ rest) true
            ≡ running (w ++ (text ++ v ∷ [])) (q ++ rest) (predict_some p text))
        × (input (ready w q p) (text ++ v ∷ rest) false
            ≡ ready (w ++ text) (q ++ rest) (predict_some p text))
    unfolding input input_end
    input_line = (
      input_begin_line,
      rw (input_begin_line, input) (rw append_assoc),
      rw (input_begin_line, input),
    )

-- One command: the prompt comes back, and the barrier of the next line passes.
unfoldable pub next_prompt : InputController → InputController
next_prompt c = prompt (begin_prompt c) true

unfoldable pub next_prompts : ℕ → InputController → InputController
next_prompts zero c = c
next_prompts (suc n) c = next_prompts n (next_prompt c)

abbrev pub lines : List (Bytes × ℕ) → Bytes
lines [] = []
lines ((text, v) ∷ ls) = text ++ v ∷ lines ls

abbrev pub AreLines : List (Bytes × ℕ) → Type 0
AreLines [] = Unit
AreLines ((text, v) ∷ ls) = All IsTyped text × IsLineEnd v × AreLines ls

next_prompt_line :
    (w text : Bytes) (v : ℕ) (rest : Bytes) (p : Option EchoPredictor)
    → All IsTyped text
    → IsLineEnd v
    → next_prompt (running w (text ++ v ∷ rest) p)
      ≡ running (w ++ (text ++ v ∷ [])) rest (predict_some p text)
unfolding next_prompt prompt begin_prompt
next_prompt_line w [] v rest p typed line_end = (input_line w [] p [] v rest typed line_end).1
next_prompt_line w (c ∷ text) v rest p typed line_end =
    (input_line w [] p (c ∷ text) v rest typed line_end).1

next_prompts-ahead :
    (ls : List (Bytes × ℕ)) (w rest : Bytes) (p : Option EchoPredictor)
    → AreLines ls
    → (q : Option EchoPredictor) × (next_prompts (length ls) (running w (lines ls ++ rest) p)
        ≡ running (w ++ lines ls) rest q)
unfolding next_prompts
next_prompts-ahead [] w rest p h = (p, rw append-nil refl)
next_prompts-ahead ((text, v) ∷ ls) w rest p (typed, line_end, h) =
    let (q, e) = next_prompts-ahead ls (w ++ (text ++ v ∷ [])) rest (predict_some p text) h in
    let split : (text ++ v ∷ lines ls) ++ rest ≡ text ++ v ∷ (lines ls ++ rest) =
      simp append_assoc in
    let joined : (w ++ (text ++ v ∷ [])) ++ lines ls ≡ w ++ (text ++ v ∷ lines ls) =
      simp append_assoc in
    (
      q,
      ap (next_prompts (suc (length ls))) (ap (λ x. running w x p) split)
          ∙ ap (next_prompts (length ls))
              (next_prompt_line w text v (lines ls ++ rest) p typed line_end)
          ∙ e
          ∙ ap (λ x. running x rest q) joined,
    )

prompt_blocked :
    (w text : Bytes) (v : ℕ) (rest : Bytes) (p : Option EchoPredictor)
    → All IsTyped text
    → IsLineEnd v
    → prompt (begin_prompt (running w (text ++ v ∷ rest) p)) false
      ≡ ready (w ++ text) rest (predict_some p text)
unfolding prompt begin_prompt
prompt_blocked w [] v rest p typed line_end = (input_line w [] p [] v rest typed line_end).2
prompt_blocked w (c ∷ text) v rest p typed line_end =
    (input_line w [] p (c ∷ text) v rest typed line_end).2

-- Lines typed ahead are executed one at each prompt, in order, each behind a barrier of its own.
-- After as many prompts with a passing barrier as there are lines `ls`, exactly these lines are
-- written, and all behind them is held back. Of the line that is then the first, the next prompt
-- writes the text and calls the barrier: if it passes, the line end is written too and no byte
-- behind it, and if it does not, the line end is left out. The lines hold no escape, and each has
-- one line end; what follows them is any bytes.
pub next_prompts-lines :
    (ls : List (Bytes × ℕ)) (w text : Bytes) (v : ℕ) (rest : Bytes) (p : Option EchoPredictor)
    → AreLines ls
    → All IsTyped text
    → IsLineEnd v
    → let c = next_prompts (length ls) (running w (lines ls ++ (text ++ v ∷ rest)) p) in
      ((c.pty ≡ w ++ lines ls) × (c.pending ≡ text ++ v ∷ rest))
      × (((prompt (begin_prompt c) true).pty ≡ (w ++ lines ls) ++ (text ++ v ∷ []))
          × ((prompt (begin_prompt c) true).pending ≡ rest))
      × (((prompt (begin_prompt c) false).pty ≡ (w ++ lines ls) ++ text)
          × ((prompt (begin_prompt c) false).pending ≡ rest))
unfolding next_prompt
next_prompts-lines ls w text v rest p h typed line_end =
    let (q, e) = next_prompts-ahead ls w (text ++ v ∷ rest) p h in
    let passed = next_prompt_line (w ++ lines ls) text v rest q typed line_end in
    let blocked = prompt_blocked (w ++ lines ls) text v rest q typed line_end in
    rw e (
      (refl, refl),
      (ap (λ c. c.pty) passed, ap (λ c. c.pending) passed),
      (ap (λ c. c.pty) blocked, ap (λ c. c.pending) blocked),
    )

-- A blocked line changes the order of the input. Where the barrier of a line does not pass, the
-- bytes behind its line end stay held back, and text that is typed next at the same prompt is
-- written before them. Neither text holds a line end or an escape, and nothing was held back
-- before.
pub input_blocked_order :
    (w : Bytes) (p : Option EchoPredictor) (text : Bytes) (v : ℕ) (rest later : Bytes)
    (passed : Bool)
    → All IsTyped text
    → IsLineEnd v
    → All IsTyped later
    → let c = input (input (ready w [] p) (text ++ v ∷ rest) false) later passed in
      (c.pty ≡ w ++ (text ++ later)) × (c.pending ≡ rest)
input_blocked_order w p text v rest later passed typed line_end typed_later =
    let (_, _, blocked) = input_line w [] p text v rest typed line_end in
    rw (blocked, input_text (w ++ text) rest (predict_some p text) later passed typed_later)
      (append_assoc w text later, refl)
