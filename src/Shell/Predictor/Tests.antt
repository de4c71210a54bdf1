-- ===== src/Shell/Predictor/Tests.antt =====
-- Witnesses of the theorems on the echo predictor.
use pwnbridge.Prelude.{true, List, refl, [], ◌∷◌, ◌++◌, ◌==◌, if◌then◌else◌, length, drop, ◌≡◌}
use pwnbridge.Prelude.Text.{Bytes, codes}
use pwnbridge.Shell.Paste.{idle, paste_feed}
use pwnbridge.Shell.Predictor.{EchoPredictor, predict, predict_byte, predict_loop, write}
use pwnbridge.Shell.Predictor.Echo.{common, write_lem, write-predict}
use pwnbridge.Shell.Predictor.Typing.{predict_all}

-- A prediction of "ls", of which nothing has come back.
abbrev expecting : EchoPredictor
expecting = record { out = codes "$ ls"; expected = codes "ls"; escape = 0; paste = idle }

-- A predictor in a paste.
abbrev in_paste : EchoPredictor
in_paste = record {
  out = [];
  expected = [];
  escape = 0;
  paste = record { active = true; matched = 0 };
}

write_lem_example :
    ((write expecting (codes "la")).out
      ≡ expecting.out ++ drop (common expecting.expected (codes "la")) (codes "la"))
    × ((write expecting (codes "la")).expected ≡ (
        if common expecting.expected (codes "la") == length (codes "la")
        then drop (length (codes "la")) expecting.expected
        else []))
write_lem_example = write_lem expecting (codes "la")

write-predict_example :
    let shown = (predict_loop expecting.escape expecting.paste (codes " -l")).2 in
    ((write (predict expecting (codes " -l")) (expecting.expected ++ (shown ++ (codes "!")))).out
      ≡ expecting.out ++ (shown ++ (codes "!")))
    × ((write
          (predict expecting (codes " -l"))
          (expecting.expected ++ (shown ++ (codes "!")))).expected
        ≡ [])
write-predict_example = write-predict expecting (codes " -l") (codes "!")

-- A text with an arrow key, which is cut in its escape sequence.
abbrev pieces : List Bytes
pieces = (codes "a" ++ 27 ∷ []) ∷ codes "[Ab" ∷ []

arrow_hidden : (predict_all expecting pieces).expected ≡ codes "lsab"
unfolding predict_all predict predict_loop predict_byte paste_feed
arrow_hidden = refl
