-- ===== src/Shell/Predictor/Keys.antt =====
-- The keys in typed bytes: which bytes `Predict` shows, and which belong to escape sequences.
use mathlib.Core.Path.{subst}
use pwnbridge.Prelude.{
  ℕ, ◌≤◌, ◌<◌, ◌⊎◌, ◌==◌, ◌&&◌, not, leb, sym, append_assoc, List, Bool, true, false, [], ◌∷◌, ◌++◌,
  ◌≡◌, ◌≢◌, refl, arith, append-nil, Bool-cases, inl, inr,
}
use pwnbridge.Prelude.Text.{Bytes}
use pwnbridge.Shell.Paste.{PasteTracker, esc, paste_feed}
use pwnbridge.Shell.Predictor.{predict_byte, predict_loop, del}

-- A byte that is shown: from 32 on, but not DEL. Bytes from 128 on are parts of UTF-8 text.
abbrev pub IsPrintable : ℕ → Type 0
IsPrintable c = (32 ≤ c) × (c ≢ del)

-- The typed bytes, each with whether the tracker puts it in a paste.
unfoldable pub marked : PasteTracker → Bytes → List (ℕ × Bool)
marked paste [] = []
marked paste (c ∷ d) = let (paste', flag) = paste_feed paste c in (c, flag) ∷ marked paste' d

-- The byte that ends an escape sequence behind `ESC [`.
abbrev pub IsFinal : ℕ → Type 0
IsFinal c = (64 ≤ c) × (c ≤ 126)

abbrev pub NoFinal : List (ℕ × Bool) → Type 0
NoFinal [] = Unit
NoFinal ((c, f) ∷ s) = ((c < 64) ⊎ (126 < c)) × NoFinal s

-- What is shown of marked bytes, by whole keys: of text outside a paste, the bytes themselves, but no
-- control byte and no DEL; of a paste, nothing but for an ESC, which begins a key everywhere; of an
-- ESC with a byte behind it, nothing; of an escape sequence up to its last byte, nothing; and of an
-- escape sequence that is not at its end, nothing either.
pub data Shows : List (ℕ × Bool) → Bytes → Type 0 where
  nothing : Shows [] []
  text :
      {s : List (ℕ × Bool)} {out : Bytes} (c : ℕ)
      → IsPrintable c
      → Shows s out
      → Shows ((c, false) ∷ s) (c ∷ out)
  control :
      {s : List (ℕ × Bool)} {out : Bytes} (c : ℕ) (f : Bool)
      → (c < 32) ⊎ (c ≡ del)
      → c ≢ esc
      → Shows s out
      → Shows ((c, f) ∷ s) out
  pasted :
      {s : List (ℕ × Bool)} {out : Bytes} (c : ℕ)
      → c ≢ esc
      → Shows s out
      → Shows ((c, true) ∷ s) out
  escaped :
      {s : List (ℕ × Bool)} {out : Bytes} (c : ℕ) (f g : Bool)
      → c ≢ b'['
      → Shows s out
      → Shows ((esc, f) ∷ (c, g) ∷ s) out
  sequence :
      {s : List (ℕ × Bool)} {out : Bytes} (parameters : List (ℕ × Bool)) (c : ℕ) (f g h : Bool)
      → NoFinal parameters
      → IsFinal c
      → Shows s out
      → Shows ((esc, f) ∷ (b'[', g) ∷ (parameters ++ (c, h) ∷ s)) out
  escape_open : (f : Bool) → Shows ((esc, f) ∷ []) []
  sequence_open :
      (parameters : List (ℕ × Bool)) (f g : Bool)
      → NoFinal parameters
      → Shows ((esc, f) ∷ (b'[', g) ∷ parameters) []

NoFinal-append :
    (s : List (ℕ × Bool)) (c : ℕ) (f : Bool)
    → NoFinal s
    → (c < 64) ⊎ (126 < c)
    → NoFinal (s ++ (c, f) ∷ [])
NoFinal-append [] c f h k = (k, tt)
NoFinal-append ((d, g) ∷ s) c f (h, hs) k = (h, NoFinal-append s c f hs k)

byte_escape : (f : Bool) (c : ℕ) → c ≡ esc → predict_byte 0 f c ≡ (1, false)
unfolding predict_byte
byte_escape f c h0 = ground arith

byte_pasted : (f : Bool) (c : ℕ) → (c == esc) ≡ false → f ≡ true → predict_byte 0 f c ≡ (0, false)
unfolding predict_byte
byte_pasted f c h0 h1 = ground arith

byte_text :
    (f : Bool) (c : ℕ)
    → (c == esc) ≡ false
    → f ≡ false
    → (leb 32 c && not (c == del)) ≡ true
    → predict_byte 0 f c ≡ (0, true)
unfolding predict_byte
byte_text f c h0 h1 h2 = ground arith

byte_control :
    (f : Bool) (c : ℕ)
    → (c == esc) ≡ false
    → f ≡ false
    → (leb 32 c && not (c == del)) ≡ false
    → predict_byte 0 f c ≡ (0, false)
unfolding predict_byte
byte_control f c h0 h1 h2 = ground arith

byte_bracket : (f : Bool) (c : ℕ) → c ≡ b'[' → predict_byte 1 f c ≡ (2, false)
unfolding predict_byte
byte_bracket f c h0 = ground arith

byte_behind : (f : Bool) (c : ℕ) → (c == b'[') ≡ false → predict_byte 1 f c ≡ (0, false)
unfolding predict_byte
byte_behind f c h0 = ground arith

byte_final : (f : Bool) (c : ℕ) → (leb 64 c && leb c 126) ≡ true → predict_byte 2 f c ≡ (0, false)
unfolding predict_byte
byte_final f c h0 = ground arith

byte_parameter :
    (f : Bool) (c : ℕ) → (leb 64 c && leb c 126) ≡ false → predict_byte 2 f c ≡ (2, false)
unfolding predict_byte
byte_parameter f c h0 = ground arith

step_hidden :
    (e n : ℕ) (paste : PasteTracker) (c : ℕ) (d : Bytes)
    → predict_byte e (paste_feed paste c).1 c ≡ (n, false)
    → (predict_loop e paste (c ∷ d)).2 ≡ (predict_loop n (paste_feed paste c).0 d).2
unfolding predict_loop
step_hidden e n paste c d h = rw h refl

step_shown :
    (e n : ℕ) (paste : PasteTracker) (c : ℕ) (d : Bytes)
    → predict_byte e (paste_feed paste c).1 c ≡ (n, true)
    → (predict_loop e paste (c ∷ d)).2 ≡ c ∷ (predict_loop n (paste_feed paste c).0 d).2
unfolding predict_loop
step_shown e n paste c d h = rw h refl

-- What is shown at the start of a key, behind an ESC, and inside an escape sequence.
abbrev pub ShownBy : PasteTracker → Bytes → Type 0
ShownBy paste d =
    Shows (marked paste d) (predict_loop 0 paste d).2
    × ((f : Bool) → Shows ((esc, f) ∷ marked paste d) (predict_loop 1 paste d).2)
    × ((seen : List (ℕ × Bool)) (f g : Bool)
        → NoFinal seen
        → Shows ((esc, f) ∷ (b'[', g) ∷ (seen ++ marked paste d)) (predict_loop 2 paste d).2)

module _ (paste : PasteTracker) (c : ℕ) (d : Bytes) where
  start_shown :
      ShownBy (paste_feed paste c).0 d
      → Shows (marked paste (c ∷ d)) (predict_loop 0 paste (c ∷ d)).2
  unfolding marked
  start_shown (start, behind, inside) =
      let flag = (paste_feed paste c).1 in
      elim (Bool-cases (c == esc)) [
        | inl e ↦
            let same : c ≡ esc = ground arith in
            rw (step_hidden 0 1 paste c d (byte_escape flag c same)) (
              subst
                (λ x.
                  Shows ((x, flag) ∷ marked (paste_feed paste c).0 d)
                    (predict_loop 1 (paste_feed paste c).0 d).2)
                (sym same) (behind flag))
        | inr no_esc ↦ elim (Bool-cases flag) [
          | inl on ↦
              rw (step_hidden 0 0 paste c d (byte_pasted flag c no_esc on), on)
                (pasted c (ground arith) start)
          | inr off ↦ elim (Bool-cases (leb 32 c && not (c == del))) [
            | inl plain ↦
                rw (step_shown 0 0 paste c d (byte_text flag c no_esc off plain), off)
                  (text c (ground arith) start)
            | inr odd ↦
                rw (step_hidden 0 0 paste c d (byte_control flag c no_esc off odd))
                  (control c flag (ground arith) (ground arith) start)
          ]
        ]
      ]

  behind_shown :
      ShownBy (paste_feed paste c).0 d
      → (f : Bool) → Shows ((esc, f) ∷ marked paste (c ∷ d)) (predict_loop 1 paste (c ∷ d)).2
  unfolding marked
  behind_shown (start, behind, inside) f = elim (Bool-cases (c == b'[')) [
    | inl e ↦
        let same : c ≡ b'[' = ground arith in
        rw (step_hidden 1 2 paste c d (byte_bracket (paste_feed paste c).1 c same)) (
          subst
            (λ x.
              Shows ((esc, f) ∷ (x, (paste_feed paste c).1) ∷ marked (paste_feed paste c).0 d)
                (predict_loop 2 (paste_feed paste c).0 d).2)
            (sym same) (inside [] f (paste_feed paste c).1 tt))
    | inr no_bracket ↦
        rw (step_hidden 1 0 paste c d (byte_behind (paste_feed paste c).1 c no_bracket))
          (escaped c f (paste_feed paste c).1 (ground arith) start)
  ]

  inside_shown :
      ShownBy (paste_feed paste c).0 d
      → (seen : List (ℕ × Bool)) (f g : Bool) → NoFinal seen
      → Shows
          ((esc, f) ∷ (b'[', g) ∷ (seen ++ marked paste (c ∷ d)))
          (predict_loop 2 paste (c ∷ d)).2
  unfolding marked
  inside_shown (start, behind, inside) seen f g h =
      let flag = (paste_feed paste c).1 in
      elim (Bool-cases (leb 64 c && leb c 126)) [
        | inl last ↦
            rw (step_hidden 2 0 paste c d (byte_final flag c last))
              (sequence seen c f g flag h (ground arith) start)
        | inr more ↦
            let longer =
              inside (seen ++ (c, flag) ∷ []) f g (NoFinal-append seen c flag h (ground arith)) in
            rw (step_hidden 2 2 paste c d (byte_parameter flag c more)) (
              subst
                (λ x. Shows ((esc, f) ∷ (b'[', g) ∷ x) (predict_loop 2 (paste_feed paste c).0 d).2)
                (append_assoc seen ((c, flag) ∷ []) (marked (paste_feed paste c).0 d)) longer)
      ]

pub shown_by : (paste : PasteTracker) (d : Bytes) → ShownBy paste d
unfolding marked predict_loop
shown_by paste [] =
    (nothing, (λ f. escape_open f), (λ seen f g h. rw append-nil (sequence_open seen f g h)))
shown_by paste (c ∷ d) =
    let later = shown_by (paste_feed paste c).0 d in
    (start_shown paste c d later, behind_shown paste c d later, inside_shown paste c d later)
