-- ===== src/Shell/Controller/Tests.antt =====
-- Witnesses of the theorems on the input controller.
use pwnbridge.Prelude.{
  ℕ, ◌+◌, true, false, List, [], ◌∷◌, ◌++◌, none, some, ◌≡◌, ◌⊎◌, inl, inr, refl, arith,
}
use pwnbridge.Prelude.Text.{Bytes, All, codes}
use pwnbridge.Shell.Paste.{cr, lf}
use pwnbridge.Shell.Controller.{begin_prompt, input, input_begin, predict_some, prompt}
use pwnbridge.Shell.Controller.Lines.{
  IsLineEnd, IsTyped, ready, held, running, input_line, next_prompts, lines, next_prompts-lines,
  input_blocked_order,
}
use pwnbridge.Shell.Controller.Accounts.{count, total, input-total}
use pwnbridge.Shell.Controller.Pasting.{pasted, input-pasted}

abbrev ls : Bytes
ls = codes "ls"

abbrev typed_first : List (Bytes × ℕ)
typed_first = (ls, cr) ∷ []

ls-IsTyped : All IsTyped ls
ls-IsTyped =
    ((omega arith, omega arith, omega arith), ((omega arith, omega arith, omega arith), tt))

id-IsTyped : All IsTyped (codes "id")
id-IsTyped =
    ((omega arith, omega arith, omega arith), ((omega arith, omega arith, omega arith), tt))

input_line_example :
    (input_begin (ready (codes "$ ") [] none) (ls ++ cr ∷ (codes "id"))
      ≡ (held ((codes "$ ") ++ ls) ([] ++ (codes "id")) (predict_some none ls), some cr))
    × (input (ready (codes "$ ") [] none) (ls ++ cr ∷ (codes "id")) true
        ≡ running ((codes "$ ") ++ (ls ++ cr ∷ [])) ([] ++ (codes "id")) (predict_some none ls))
    × (input (ready (codes "$ ") [] none) (ls ++ cr ∷ (codes "id")) false
        ≡ ready ((codes "$ ") ++ ls) ([] ++ (codes "id")) (predict_some none ls))
input_line_example = input_line (codes "$ ") [] none ls cr (codes "id") ls-IsTyped (inl refl)

next_prompts-lines_example :
    let c =
      next_prompts 1 (running [] (lines typed_first ++ (codes "id" ++ lf ∷ codes "x")) none) in
    ((c.pty ≡ [] ++ lines typed_first) × (c.pending ≡ codes "id" ++ lf ∷ codes "x"))
    × (((prompt (begin_prompt c) true).pty ≡ ([] ++ lines typed_first) ++ (codes "id" ++ lf ∷ []))
        × ((prompt (begin_prompt c) true).pending ≡ codes "x"))
    × (((prompt (begin_prompt c) false).pty ≡ ([] ++ lines typed_first) ++ codes "id")
        × ((prompt (begin_prompt c) false).pending ≡ codes "x"))
next_prompts-lines_example =
    next_prompts-lines typed_first [] (codes "id") lf (codes "x") none (ls-IsTyped, inl refl, tt)
      id-IsTyped (inr refl)

input-total_example :
    let d = ls ++ cr ∷ [] in
    let c = ready [] [] none in
    (total 108 (input c d false) ≡ total 108 c + count 108 d)
    ⊎ ((v : ℕ) × ((input_begin c d).1 ≡ some v)
        × IsLineEnd v
        × (false ≡ false)
        × (total 108 (input c d false) + count 108 (v ∷ []) ≡ total 108 c + count 108 d))
input-total_example = input-total 108 (ready [] [] none) (ls ++ cr ∷ []) false

input_blocked_order_example :
    let c = input (input (ready [] [] none) (ls ++ cr ∷ (codes "x")) false) (codes "id") true in
    (c.pty ≡ [] ++ (ls ++ (codes "id"))) × (c.pending ≡ (codes "x"))
input_blocked_order_example =
    input_blocked_order [] none ls cr (codes "x") (codes "id") true ls-IsTyped (inl refl) id-IsTyped

input-pasted_example :
    (input_begin (ready [] [] none) (pasted (ls ++ cr ∷ [])) ≡ (
      ready ([] ++ pasted (ls ++ cr ∷ [])) [] (predict_some none (pasted (ls ++ cr ∷ []))),
      none,
    ))
    × (input (ready [] [] none) (pasted (ls ++ cr ∷ [])) true
        ≡ ready ([] ++ pasted (ls ++ cr ∷ [])) [] (predict_some none (pasted (ls ++ cr ∷ []))))
input-pasted_example =
    input-pasted [] [] none (ls ++ cr ∷ []) true (omega arith, (omega arith, (omega arith, tt)))
