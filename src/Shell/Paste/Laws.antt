-- ===== src/Shell/Paste/Laws.antt =====
-- One byte at a time: the tracker never leaves its delimiter, classifies the end of a line by its
-- state alone, and finds every delimiter.
use pwnbridge.Prelude.{
  ℕ, zero, suc, ◌<◌, Bool, true, false, not, [], ◌∷◌, ◌≡◌, ◌≢◌, ◌⊎◌, refl, arith, length, drop, ◌∙◌,
  Bool-cases, inl, inr, get_or,
}
use pwnbridge.Shell.Paste.{PasteTracker, esc, cr, lf, delimiter, paste_feed, paste_run, no_byte}

-- The position stays within the delimiter, so that indexing it cannot fail.
abbrev pub IsValid : PasteTracker → Type 0
IsValid t = t.matched < 6

-- The count of matched bytes stays below the length of a delimiter, so the tracker never reads past
-- one.
pub paste_feed-IsValid : (t : PasteTracker) (value : ℕ) → IsValid t → IsValid (paste_feed t value).0
unfolding paste_feed
paste_feed-IsValid t value h = ground arith

-- No byte of a delimiter but its last is a tilde, none but its first an escape, and none ends a line.
abbrev pub tilde : ℕ
tilde = b'~'

pub delimiter_head : (active : Bool) → get_or (delimiter active) 0 no_byte ≡ esc
delimiter_head true = refl
delimiter_head false = refl

pub length-delimiter : (active : Bool) → length (delimiter active) ≡ 6
length-delimiter true = refl
length-delimiter false = refl

delimiter_bytes :
    (active : Bool) (m : ℕ)
    → m < 6
    → (get_or (delimiter active) m no_byte ≢ cr)
      × (get_or (delimiter active) m no_byte ≢ lf)
      × (get_or (delimiter active) m no_byte ≡ esc → m ≡ 0)
      × (get_or (delimiter active) m no_byte ≡ tilde → m ≡ 5)
delimiter_bytes true zero h = omega arith
delimiter_bytes true (suc zero) h = omega arith
delimiter_bytes true (suc (suc zero)) h = omega arith
delimiter_bytes true (suc (suc (suc zero))) h = omega arith
delimiter_bytes true (suc (suc (suc (suc zero)))) h = omega arith
delimiter_bytes true (suc (suc (suc (suc (suc zero))))) h = omega arith
delimiter_bytes true (suc (suc (suc (suc (suc (suc m)))))) h = absurd (omega arith)
delimiter_bytes false zero h = omega arith
delimiter_bytes false (suc zero) h = omega arith
delimiter_bytes false (suc (suc zero)) h = omega arith
delimiter_bytes false (suc (suc (suc zero))) h = omega arith
delimiter_bytes false (suc (suc (suc (suc zero)))) h = omega arith
delimiter_bytes false (suc (suc (suc (suc (suc zero))))) h = omega arith
delimiter_bytes false (suc (suc (suc (suc (suc (suc m)))))) h = absurd (omega arith)

-- The end of a line is part of a paste exactly if it lies between the delimiters. The tracker
-- must have matched less than a whole delimiter.
pub paste_feed_newline :
    (t : PasteTracker) (value : ℕ)
    → IsValid t
    → (value ≡ cr) ⊎ (value ≡ lf)
    → (paste_feed t value).1 ≡ t.active
unfolding paste_feed
paste_feed_newline t value h e =
    ground (arith, delimiter_bytes t.active t.matched h, delimiter_head t.active)

-- While a paste is open every byte is part of it.
pub paste_feed_active :
    (t : PasteTracker) (value : ℕ) → t.active ≡ true → (paste_feed t value).1 ≡ true
unfolding paste_feed
paste_feed_active t value h = ground arith

-- Only a tilde opens or closes a paste.
pub paste_feed_toggle :
    (t : PasteTracker) (value : ℕ)
    → IsValid t
    → value ≢ tilde
    → (paste_feed t value).0.active ≡ t.active
unfolding paste_feed
paste_feed_toggle t value h e =
    ground (arith, delimiter_bytes t.active t.matched h, length-delimiter t.active)

-- Wherever it stands, the tracker is at the second byte of its delimiter after an escape.
paste_feed-esc_at :
    (active : Bool) (m : ℕ)
    → m < 6
    → paste_feed (record { active = active; matched = m }) esc
      ≡ (record { active = active; matched = 1 }, true)
unfolding paste_feed
paste_feed-esc_at true zero h = refl
paste_feed-esc_at true (suc zero) h = refl
paste_feed-esc_at true (suc (suc zero)) h = refl
paste_feed-esc_at true (suc (suc (suc zero))) h = refl
paste_feed-esc_at true (suc (suc (suc (suc zero)))) h = refl
paste_feed-esc_at true (suc (suc (suc (suc (suc zero))))) h = refl
paste_feed-esc_at true (suc (suc (suc (suc (suc (suc m)))))) h = absurd (omega arith)
paste_feed-esc_at false zero h = refl
paste_feed-esc_at false (suc zero) h = refl
paste_feed-esc_at false (suc (suc zero)) h = refl
paste_feed-esc_at false (suc (suc (suc zero))) h = refl
paste_feed-esc_at false (suc (suc (suc (suc zero)))) h = refl
paste_feed-esc_at false (suc (suc (suc (suc (suc zero))))) h = refl
paste_feed-esc_at false (suc (suc (suc (suc (suc (suc m)))))) h = absurd (omega arith)

-- The rest of the delimiter, after its escape.
paste_run_after_esc :
    (active : Bool)
    → paste_run (record { active = active; matched = 1 }) (drop 1 (delimiter active))
      ≡ (record { active = not active; matched = 0 }, true ∷ true ∷ true ∷ true ∷ true ∷ [])
unfolding paste_run paste_feed
paste_run_after_esc true = refl
paste_run_after_esc false = refl

paste_run-delimiter_cons :
    (t : PasteTracker)
    → paste_run t (delimiter t.active) ≡ paste_run t (esc ∷ drop 1 (delimiter t.active))
paste_run-delimiter_cons t = elim (Bool-cases t.active) [ inl a ↦ rw a | inr n ↦ rw n ]

-- The delimiter that the tracker waits for is recognized from every state in which less than a
-- whole one is matched: the tracker changes over, and all bytes of the delimiter are classified
-- as part of the paste.
pub paste_run-delimiter :
    (t : PasteTracker)
    → IsValid t
    → paste_run t (delimiter t.active) ≡ (
      record { active = not t.active; matched = 0 },
      true ∷ true ∷ true ∷ true ∷ true ∷ true ∷ [],
    )
unfolding paste_run
paste_run-delimiter t h =
    paste_run-delimiter_cons t
    ∙ rw (paste_feed-esc_at t.active t.matched h, paste_run_after_esc t.active)
