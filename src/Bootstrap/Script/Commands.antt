-- ===== src/Bootstrap/Script/Commands.antt =====
-- The words of a rendered command, as the shell reads them back.
use mathlib.Core.List.{Perm, map}
use pwnbridge.Prelude.{
  Bool, true, false, not, ◌&&◌, List, [], ◌∷◌, ◌++◌, some, ◌==◌, if◌then◌else◌, length, ◌≡◌, refl,
  sym, ap, ◌∙◌, arith, append-nil, if-false, and-true, not-true,
}
use pwnbridge.Prelude.Map.{KeysDistinct, Map}
use pwnbridge.Prelude.Text.{Bytes, codes, bytes_eq, has_prefix}
use pwnbridge.Bootstrap.Steps.{Step}
use pwnbridge.Bootstrap.Script.{
  binding, installs_pwndbg, join_space, render_argument, render_command, shell_quote, sorted_keys,
  environment_words,
}
use pwnbridge.Recipe.Sort.Sorted.{Ascending}
use pwnbridge.Bootstrap.Script.Environment.{entries_of, entries-Ascending, entries-Perm, entry_of}
use pwnbridge.Bootstrap.Script.Quoting.{between, first_word, next_word, outside, shell_words}

-- The shell reads the text `r` as the word `w`, whatever word comes next.
abbrev Reads : Bytes → Bytes → Type 0
Reads r w =
    (rest : Bytes) (ws : List Bytes)
    → shell_words outside rest ≡ some ([] ∷ ws)
    → shell_words between (r ++ rest) ≡ some (w ∷ ws)

data Rendered : List Bytes → List Bytes → Type 0 where
  nothing : Rendered [] []
  word :
      {r w : Bytes} {rs ws : List Bytes} → Reads r w → Rendered rs ws → Rendered (r ∷ rs) (w ∷ ws)

Rendered-append :
    {rs ws rs2 ws2 : List Bytes}
    → Rendered rs ws
    → Rendered rs2 ws2
    → Rendered (rs ++ rs2) (ws ++ ws2)
Rendered-append nothing k = k
Rendered-append (word reads h) k = word reads (Rendered-append h k)

shell_words-Rendered :
    {rs ws : List Bytes} → Rendered rs ws → shell_words between (join_space rs) ≡ some ws
unfolding join_space shell_words
shell_words-Rendered nothing = refl
shell_words-Rendered {rs = r ∷ rs} (word reads nothing) =
    ap (shell_words between) (sym (append-nil r)) ∙ reads [] [] refl
shell_words-Rendered {rs = r ∷ q ∷ rs} {ws = w ∷ v ∷ ws} (word reads (word more h)) =
    let rest : shell_words between (join_space (q ∷ rs)) ≡ some (v ∷ ws) =
      shell_words-Rendered (word {r = q} {w = v} more h) in
    reads (32 ∷ join_space (q ∷ rs)) (v ∷ ws) (next_word (join_space (q ∷ rs)) (v ∷ ws) rest)

-- The word of an entry.
abbrev pub assignment : Bytes × Bytes → Bytes
assignment (key, value) = key ++ codes "=" ++ value

-- The words that give a command the environment, whose entries come as `entries`.
abbrev pub assignments : Map Bytes → Map Bytes → List Bytes
assignments [] entries = []
assignments (entry ∷ environment) entries = codes "env" ∷ map assignment entries

-- The words that run a command as root, when the step asks for it and the user is not root.
abbrev pub elevation : Bool → Bool → List Bytes
elevation true false = codes "sudo" ∷ codes "-n" ∷ []
elevation true true = []
elevation false root = []

sudo-Rendered :
    (sudo root : Bool)
    → Rendered
        (if sudo && not root then codes "sudo" ∷ codes "-n" ∷ [] else [])
        (elevation sudo root)
unfolding shell_words
sudo-Rendered false root = nothing
sudo-Rendered true true = nothing
sudo-Rendered true false = word (λ rest ws h. rw h refl) (word (λ rest ws h. rw h refl) nothing)

entries-Rendered :
    (environment : Map Bytes) (keys : List Bytes)
    → Rendered
        (map (λ key. shell_quote (binding environment key)) keys)
        (map assignment (map (entry_of environment) keys))
entries-Rendered environment [] = nothing
entries-Rendered environment (key ∷ keys) =
    word (first_word (binding environment key)) (entries-Rendered environment keys)

environment-Rendered :
    (environment : Map Bytes)
    → Rendered (environment_words environment) (assignments environment (entries_of environment))
unfolding shell_words
environment-Rendered [] = nothing
environment-Rendered (entry ∷ environment) =
    let some_entry : (length (entry ∷ environment) == 0) ≡ false = ground arith in
    rw some_entry (
      word (λ rest ws k. rw k refl)
        (entries-Rendered (entry ∷ environment) (sorted_keys (entry ∷ environment))))

-- No argument is a path below $HOME or the variable $USER, which the shell replaces.
unfoldable pub literal : List Bytes → Bool
literal [] = true
literal (value ∷ values) =
    not (has_prefix value (codes "$HOME/"))
    && (not (bytes_eq value (codes "$USER")) && literal values)

literal-Rendered :
    (argv : List Bytes) → literal argv ≡ true → Rendered (map render_argument argv) argv
unfolding literal render_argument
literal-Rendered [] h = nothing
literal-Rendered (x ∷ xs) h =
    let (home, rest) = and-true (not (has_prefix x (codes "$HOME/"))) _ h in
    let (user, others) = and-true (not (bytes_eq x (codes "$USER"))) _ rest in
    let quoted : render_argument x ≡ shell_quote x =
      if-false (has_prefix x (codes "$HOME/")) _ _ (not-true _ home)
      ∙ if-false (bytes_eq x (codes "$USER")) _ _ (not-true _ user) in
    word (rw quoted (first_word x)) (literal-Rendered xs others)

-- When a step is not one of the two with a script of their own, and none of its arguments is replaced
-- by the shell, the shell reads its rendered command as these words: `sudo -n` when the step asks for
-- root and the user is not root; `env` and a word `key=value` for each entry of its environment, in
-- the order of the keys, when it has one; and its arguments, whatever bytes these have. No key comes
-- twice in the environment.
pub shell_words-render_command :
    (step : Step) (root : Bool)
    → installs_pwndbg step.argv ≡ false
    → bytes_eq step.id (codes "pwntools-venv") ≡ false
    → literal step.argv ≡ true
    → KeysDistinct step.environment
    → (entries : Map Bytes) × Perm entries step.environment
      × Ascending (map (λ (key, value). key) entries)
      × (shell_words between (render_command step root)
          ≡ some (elevation step.sudo root ++ assignments step.environment entries ++ step.argv))
unfolding render_command
shell_words-render_command step root no_install no_venv plain distinct =
    let prefix =
      Rendered-append (sudo-Rendered step.sudo root) (environment-Rendered step.environment) in
    (
      entries_of step.environment,
      entries-Perm step.environment distinct,
      entries-Ascending step.environment,
      ap (shell_words between) (
            if-false (installs_pwndbg step.argv) _ _ no_install
            ∙ if-false (bytes_eq step.id (codes "pwntools-venv")) _ _ no_venv)
          ∙ shell_words-Rendered (Rendered-append prefix (literal-Rendered step.argv plain)),
    )
