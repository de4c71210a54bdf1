-- ===== src/Broker/Session/Quoting.antt =====
-- A quoted argument is one word for the shell, and the word is the argument.
use pwnbridge.Prelude.{
  ℕ, [], ◌∷◌, ◌++◌, Option, none, some, ◌==◌, if◌then◌else◌, ◌≡◌, refl, inl, inr, Bool-cases, arith,
}
use pwnbridge.Prelude.Text.{Bytes}
use pwnbridge.Broker.Session.{quote_mark, backslash, escape_quotes, shell_quote}

-- Where the shell stands in a word: outside quotes, inside single quotes, or behind a backslash.
pub data Place : Type 0 where
  outside inside escaped : Place

abbrev pub cons_some : ℕ → Option Bytes → Option Bytes
cons_some c none = none
cons_some c (some s) = some (c ∷ s)

-- The quote removal of a POSIX shell on one word that uses single quotes and backslashes. A byte
-- outside them could be special, and gives `none`; so does a word that is not finished.
unfoldable pub shell_word : Place → Bytes → Option Bytes
shell_word outside [] = some []
shell_word inside [] = none
shell_word escaped [] = none
shell_word outside (c ∷ s) =
    let quoted = shell_word inside s in
    let behind = shell_word escaped s in
    if c == quote_mark then quoted else if c == backslash then behind else none
shell_word inside (c ∷ s) =
    let closed = shell_word outside s in
    let more = shell_word inside s in if c == quote_mark then closed else cons_some c more
shell_word escaped (c ∷ s) = cons_some c (shell_word outside s)

inside-escape_quotes : (s : Bytes) → shell_word inside (escape_quotes s ++ quote_mark ∷ []) ≡ some s
unfolding shell_word escape_quotes
inside-escape_quotes [] = refl
inside-escape_quotes (c ∷ s) = elim (Bool-cases (c == quote_mark)) [
  | inl e ↦ let same : c ≡ quote_mark = ground arith in rw (e, inside-escape_quotes s, same) refl
  | inr e ↦ rw (e, e, inside-escape_quotes s) refl
]

-- The shell reads the quoted argument as exactly one word, whose bytes are the argument's, whatever
-- they are.
pub shell_word-shell_quote : (value : Bytes) → shell_word outside (shell_quote value) ≡ some value
unfolding shell_word shell_quote
shell_word-shell_quote value = inside-escape_quotes value
