-- ===== src/Shell/Paste.antt =====
-- internal/shell/proxy.go: bracketedPasteTracker, which recognizes the delimiters of a bracketed
-- paste. Indexing a delimiter past its end would be a panic in Go; here it gives 256, which is no
-- byte, and the module Laws shows that it does not happen.
use pwnbridge.Prelude.{
  ℕ, suc, ◌+◌, Bool, true, false, ◌||◌, not, List, [], ◌∷◌, ◌==◌, ltb, if◌then◌else◌, length,
  get_or, ◌≡◌, refl,
}
use pwnbridge.Prelude.Text.{Bytes, codes}
pub mod Laws
pub mod History
mod Tests

pub record PasteTracker : Type 0 where
  pub active : Bool
  pub matched : ℕ  -- match

abbrev pub esc : ℕ
esc = 27

abbrev pub cr : ℕ
cr = 13

abbrev pub lf : ℕ
lf = 10

abbrev pub no_byte : ℕ
no_byte = 256

abbrev pub bracketed_paste_begin : Bytes
bracketed_paste_begin = esc ∷ codes "[200~"

abbrev pub bracketed_paste_end : Bytes
bracketed_paste_end = esc ∷ codes "[201~"

abbrev pub delimiter : Bool → Bytes
delimiter active = if active then bracketed_paste_end else bracketed_paste_begin

abbrev pub idle : PasteTracker
idle = record { active = false; matched = 0 }

unfoldable pub paste_feed : PasteTracker → ℕ → PasteTracker × Bool
paste_feed t value =
    if value == get_or (delimiter t.active) t.matched no_byte
    then (
      if t.matched + 1 == length (delimiter t.active)
          then record { active = not t.active; matched = 0 }
          else record t { matched = t.matched + 1 },
      true,
    )
    else let matched = if value == get_or (delimiter t.active) 0 no_byte then 1 else 0 in
      (record t { matched = matched }, t.active || t.active || ltb 0 matched)

-- The tracker after a run of bytes, and whether each of them was classified as part of a paste.
unfoldable pub paste_run : PasteTracker → Bytes → PasteTracker × List Bool
paste_run t [] = (t, [])
paste_run t (value ∷ s) =
    let (t', flag) = paste_feed t value in let (t'', flags) = paste_run t' s in (t'', flag ∷ flags)
