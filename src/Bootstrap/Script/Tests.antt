-- ===== src/Bootstrap/Script/Tests.antt =====
-- Witness of the theorem on rendered commands, and the command of one step.
use mathlib.Core.List.{Perm, map}
use pwnbridge.Prelude.{[], ◌++◌, ◌∷◌, some, ◌≡◌, refl, true, false}
use pwnbridge.Prelude.Text.{Bytes, codes, bytes_eq, has_prefix}
use pwnbridge.Bootstrap.Script.{
  escape_single, join_space, render_argument, render_command, shell_quote, without_double,
}
use pwnbridge.Bootstrap.Script.Quoting.{between, shell_words}
use pwnbridge.Bootstrap.Script.Commands.{
  assignments, elevation, literal, shell_words-render_command,
}
use pwnbridge.Prelude.Map.{Map, map_lookup}
use pwnbridge.Recipe.Sort.{bytes_less, insert, sort_strings}
use pwnbridge.Recipe.Sort.Sorted.{Ascending}
use pwnbridge.Bootstrap.Steps.{Step, step_of}

abbrev pip : Step
pip =
    step_of (codes "pip") (codes "pwntools") (codes "Install")
      (codes "$HOME/bin/pip" ∷ codes "it's" ∷ []) false false

pip_command : render_command pip false ≡ codes "\"$HOME/bin/pip\" 'it'\"'\"'s'"
unfolding render_command render_argument has_prefix bytes_eq without_double shell_quote
    escape_single join_space
pip_command = refl

-- A step that needs root and has variables.
abbrev install : Step
install = record pip {
  argv = codes "apt-get" ∷ codes "it's" ∷ [];
  environment = (codes "MODE", codes "a b") ∷ (codes "LANG", codes "C") ∷ [];
  sudo = true;
}

install_command :
    render_command install false ≡ codes "sudo -n env 'LANG=C' 'MODE=a b' 'apt-get' 'it'\"'\"'s'"
unfolding render_command render_argument has_prefix bytes_eq without_double shell_quote
    escape_single join_space map_lookup sort_strings insert bytes_less
install_command = refl

shell_words-render_command_example :
    (entries : Map Bytes) × Perm entries install.environment
    × Ascending (map (λ (key, value). key) entries)
    × (shell_words between (render_command install false)
        ≡ some (elevation true false ++ assignments install.environment entries ++ install.argv))
unfolding literal bytes_eq has_prefix map_lookup
shell_words-render_command_example =
    shell_words-render_command install false refl refl refl (refl, (refl, tt))
