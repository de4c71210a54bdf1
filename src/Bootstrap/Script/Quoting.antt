-- ===== src/Bootstrap/Script/Quoting.antt =====
-- The words of a command, as the shell reads them back.
use pwnbridge.Prelude.{
  ℕ, Bool, leb, ◌||◌, ◌&&◌, List, [], ◌∷◌, ◌++◌, Option, none, some, ◌==◌, if◌then◌else◌, ◌≡◌, refl,
  inl, inr, Bool-cases, arith, ap, ◌∙◌, append_assoc,
}
use pwnbridge.Prelude.Text.{Bytes}
use pwnbridge.Bootstrap.Script.{double, escape_single, shell_quote, single}

-- Where the shell stands: between words, in a word outside quotes, or inside quotes.
pub data Place : Type 0 where
  between outside inside_single inside_double : Place

-- A byte in front of the first word.
abbrev pub cons_first : ℕ → Option (List Bytes) → Option (List Bytes)
cons_first c none = none
cons_first c (some []) = none
cons_first c (some (w ∷ ws)) = some ((c ∷ w) ∷ ws)

abbrev pub new_word : Option (List Bytes) → Option (List Bytes)
new_word none = none
new_word (some ws) = some ([] ∷ ws)

-- A letter of a-z or a dash, which the shell takes as it is.
abbrev is_plain : ℕ → Bool
is_plain c = c == b'-' || (leb 97 c && leb c 122)

-- A POSIX shell's split into words with quote removal, without expansions: a double quote is read as
-- in text without dollars, backquotes and backslashes. Another byte outside quotes gives `none`, and
-- so does an unfinished quote. Behind the first byte of a word, the result begins with the rest of
-- that word.
unfoldable pub shell_words : Place → Bytes → Option (List Bytes)
shell_words between [] = some []
shell_words outside [] = some ([] ∷ [])
shell_words inside_single [] = none
shell_words inside_double [] = none
shell_words between (c ∷ s) =
    let next = shell_words between s in
    let plain = cons_first c (shell_words outside s) in
    let single_quoted = shell_words inside_single s in
    let double_quoted = shell_words inside_double s in
    if c == 32
    then next
    else if c == single
    then single_quoted
    else if c == double
    then double_quoted
    else if is_plain c
    then plain
    else none
shell_words outside (c ∷ s) =
    let next = shell_words between s in
    let plain = cons_first c (shell_words outside s) in
    let single_quoted = shell_words inside_single s in
    let double_quoted = shell_words inside_double s in
    if c == 32
    then new_word next
    else if c == single
    then single_quoted
    else if c == double
    then double_quoted
    else if is_plain c
    then plain
    else none
shell_words inside_single (c ∷ s) =
    let closed = shell_words outside s in
    let more = shell_words inside_single s in if c == single then closed else cons_first c more
shell_words inside_double (c ∷ s) =
    let closed = shell_words outside s in
    let more = shell_words inside_double s in if c == double then closed else cons_first c more

-- The bytes of an argument, in front of what follows its closing quote.
abbrev put_first : Bytes → Option (List Bytes) → Option (List Bytes)
put_first [] out = out
put_first (c ∷ s) out = cons_first c (put_first s out)

inside-escape_single :
    (s rest : Bytes)
    → shell_words inside_single (escape_single s ++ single ∷ rest)
      ≡ put_first s (shell_words outside rest)
unfolding shell_words escape_single
inside-escape_single [] rest = refl
inside-escape_single (c ∷ s) rest = elim (Bool-cases (c == single)) [
  | inl e ↦ let same : c ≡ single = ground arith in rw (e, inside-escape_single s rest, same) refl
  | inr e ↦ rw (e, e, inside-escape_single s rest) refl
]

put_first-some : (s : Bytes) (ws : List Bytes) → put_first s (some ([] ∷ ws)) ≡ some (s ∷ ws)
put_first-some [] ws = refl
put_first-some (c ∷ s) ws = rw (put_first-some s ws) refl

-- A quoted word and what follows it.
pub first_word :
    (x rest : Bytes) (ws : List Bytes)
    → shell_words outside rest ≡ some ([] ∷ ws)
    → shell_words between (shell_quote x ++ rest) ≡ some (x ∷ ws)
unfolding shell_words shell_quote
first_word x rest ws h =
    ap (shell_words inside_single) (append_assoc (escape_single x) (single ∷ []) rest)
    ∙ inside-escape_single x rest
    ∙ ap (put_first x) h
    ∙ put_first-some x ws

pub next_word :
    (s : Bytes) (ws : List Bytes)
    → shell_words between s ≡ some ws
    → shell_words outside (32 ∷ s) ≡ some ([] ∷ ws)
unfolding shell_words
next_word s ws h = ap new_word h
