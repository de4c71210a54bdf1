-- ===== src/Shell/Paste/Tests.antt =====
-- Witnesses of the theorems on the paste tracker.
use pwnbridge.Prelude.{true, false, [], ◌∷◌, ◌++◌, ◌≡◌, ◌≢◌}
use pwnbridge.Prelude.Text.{Bytes, codes}
use pwnbridge.Shell.Paste.{PasteTracker, idle, delimiter, paste_feed, paste_run}
use pwnbridge.Shell.Paste.History.{paste_run_toggle}

-- A tracker in a paste, three bytes into the closing delimiter.
abbrev pasting : PasteTracker
pasting = record { active = true; matched = 3 }

-- The bytes of the opening delimiter but its last.
abbrev nearly : Bytes
nearly = 27 ∷ codes "[200"

differs_from : true ≢ false
differs_from h = cc h

paste_run_toggle_example :
    (pre : Bytes) × (nearly ++ b'~' ∷ [] ≡ pre ++ delimiter (paste_run idle nearly).0.active)
unfolding paste_run paste_feed
paste_run_toggle_example = paste_run_toggle nearly b'~' differs_from
