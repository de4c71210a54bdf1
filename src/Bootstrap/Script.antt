-- ===== src/Bootstrap/Script.antt =====
-- internal/bootstrap/bootstrap.go: the shell script of a plan.
use pwnbridge.Prelude.{
  ℕ, Bool, true, false, not, ◌&&◌, ◌||◌, List, [], ◌∷◌, ◌++◌, Option, none, some, ◌==◌,
  if◌then◌else◌, length, drop,
}
use mathlib.Core.List.{map}
use pwnbridge.Prelude.Map.{Map, map_lookup}
use pwnbridge.Prelude.Text.{Bytes, codes, bytes_eq, has_prefix}
use pwnbridge.Recipe.Sort.{sort_strings}
use pwnbridge.Bootstrap.Plan.{ResolvedPlan}
use pwnbridge.Bootstrap.Steps.{Step, has_sudo_steps, pwndbg_sha256, pwndbg_url, pwndbg_version}
pub mod Quoting
pub mod Environment
pub mod Commands
mod Tests

abbrev pub single : ℕ
single = 39

abbrev pub double : ℕ
double = 34

-- `strings.ReplaceAll(value, "'", "'\"'\"'")`
unfoldable pub escape_single : Bytes → Bytes
escape_single [] = []
escape_single (c ∷ s) =
    let rest = escape_single s in
    if c == single then single ∷ double ∷ single ∷ double ∷ single ∷ rest else c ∷ rest

unfoldable pub shell_quote : Bytes → Bytes
shell_quote value = single ∷ (escape_single value ++ single ∷ [])

-- `strings.ReplaceAll(value, "\"", "")`
unfoldable pub without_double : Bytes → Bytes
without_double [] = []
without_double (c ∷ s) = let rest = without_double s in if c == double then rest else c ∷ rest

unfoldable pub render_argument : Bytes → Bytes
render_argument value =
    if has_prefix value (codes "$HOME/")
    then codes "\"$HOME/" ++ without_double (drop 6 value) ++ double ∷ []
    else if bytes_eq value (codes "$USER")
    then codes "\"$USER\""
    else shell_quote value

-- `strings.Join(words, " ")`
unfoldable pub join_space : List Bytes → Bytes
join_space [] = []
join_space (x ∷ []) = x
join_space (x ∷ y ∷ ys) = x ++ 32 ∷ join_space (y ∷ ys)

-- `step.Environment[key]`
abbrev pub environment_value : Map Bytes → Bytes → Bytes
environment_value environment key = elim (map_lookup key environment) [
  | none ↦ []
  | some value ↦ value
]

-- `key+"="+step.Environment[key]`
abbrev pub binding : Map Bytes → Bytes → Bytes
binding environment key = key ++ codes "=" ++ environment_value environment key

unfoldable pub render_pwndbg_install : Bytes
render_pwndbg_install =
    codes "root=\"$HOME/.local/share/pwnbridge/pwndbg\"; dest=\"$root/"
    ++ pwndbg_version
    ++ codes
        "\"; if test -e \"$dest\" && test ! -x \"$dest/bin/pwndbg\"; then rm -rf \"$dest\"; fi; "
    ++ codes "if test ! -x \"$dest/bin/pwndbg\"; then mkdir -p \"$root\"; "
    ++ codes "tmp=$(mktemp -d \"$root/.install-"
    ++ pwndbg_version
    ++ codes ".XXXXXX\") || exit; archive=\"$tmp/pwndbg.tar.xz\"; "
    ++ codes "curl --proto '=https' --tlsv1.2 -fL --retry 3 -o \"$archive\" '"
    ++ pwndbg_url
    ++ codes "' && printf '%s  %s\\n' '"
    ++ pwndbg_sha256
    ++ codes "' \"$archive\" | sha256sum -c - && tar -xJf \"$archive\" -C \"$tmp\" && "
    ++ codes "test -x \"$tmp/pwndbg/bin/pwndbg\" && test ! -e \"$dest\" && "
    ++ codes "mv \"$tmp/pwndbg\" \"$dest\"; rc=$?; rm -rf \"$tmp\"; "
    ++ codes "test \"$rc\" = 0 || exit \"$rc\"; fi; ln -sfn '"
    ++ pwndbg_version
    ++ codes "' \"$root/current\"; envbin=\"$HOME/.local/share/pwnbridge/envs/pwn-v1/bin\"; "
    ++ codes "tmp=\"$envbin/.pwndbg.$$\"; printf '%s\\n' '#!/bin/sh' "
    ++ codes
        "'exec \"$HOME/.local/share/pwnbridge/pwndbg/current/bin/pwndbg\" -nx \"$@\"' > \"$tmp\" && "
    ++ codes "chmod 0755 \"$tmp\" && mv -f \"$tmp\" \"$envbin/pwndbg\""

abbrev pub installs_pwndbg : List Bytes → Bool
installs_pwndbg [] = false
installs_pwndbg (name ∷ _) = bytes_eq name (codes "pwnbridge-internal-pwndbg-install")

abbrev pub sudo_words : Step → Bool → List Bytes
sudo_words step root = if step.sudo && not root then codes "sudo" ∷ codes "-n" ∷ [] else []

abbrev pub sorted_keys : Map Bytes → List Bytes
sorted_keys environment = sort_strings (map (λ (key, value). key) environment)

abbrev pub environment_words : Map Bytes → List Bytes
environment_words environment =
    if length environment == 0
    then []
    else codes "env" ∷ map (λ key. shell_quote (binding environment key)) (sorted_keys environment)

unfoldable pub render_command : Step → Bool → Bytes
render_command step root =
    if installs_pwndbg step.argv
    then render_pwndbg_install
    else if bytes_eq step.id (codes "pwntools-venv")
    then codes "envroot=\"$HOME/.local/share/pwnbridge/envs/pwn-v1\"; "
      ++ codes "if test ! -x \"$envroot/bin/python\" || test ! -x \"$envroot/bin/pip\"; "
      ++ codes "then rm -rf \"$envroot\"; "
      ++ codes "python3 -m venv --system-site-packages \"$envroot\"; fi"
    else join_space (
        sudo_words step root ++ environment_words step.environment ++ map render_argument step.argv)

abbrev one_line_byte : ℕ → ℕ
one_line_byte c = if c == 9 || c == 10 || c == 13 then 32 else c

-- A printf of an event, with its fields behind tabs that printf makes.
unfoldable pub print_event : Bytes → Bytes → Bytes → Bytes
print_event event id description =
    codes "printf '__PWNBRIDGE_EVENT__"
    ++ event
    ++ codes "\\t"
    ++ id
    ++ codes "\\t"
    ++ description
    ++ codes "\\n'"

unfoldable pub render_step : Step → Bool → Bytes
render_step step root =
    let description = map one_line_byte step.description in
    print_event (codes "start") step.id description
    ++ codes "\nif "
    ++ render_command step root
    ++ codes "; then "
    ++ print_event (codes "done") step.id description
    ++ codes "; else rc=$?; "
    ++ print_event (codes "failed") step.id description
    ++ codes "; exit \"$rc\"; fi\n"

unfoldable pub render_steps : List Step → Bool → Bytes
render_steps [] root = []
render_steps (step ∷ steps) root = render_step step root ++ render_steps steps root

unfoldable pub render_script : ResolvedPlan → Bool → Bytes
render_script plan root =
    codes "set -u\numask 077\n"
    ++ (if not root && has_sudo_steps plan.steps
        then print_event (codes "auth") (codes "sudo") (codes "Authenticate sudo in this terminal")
          ++ codes "\nsudo -v || exit $?\n"
        else [])
    ++ render_steps plan.steps root
