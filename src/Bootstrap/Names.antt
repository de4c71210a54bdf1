-- ===== src/Bootstrap/Names.antt =====
-- internal/bootstrap/catalog.go: the names of package managers and components.
use pwnbridge.Prelude.{List, [], ◌∷◌, ◌++◌, ◌==◌, if◌then◌else◌}
use pwnbridge.Prelude.Text.{Bytes, codes}
use Prim.Native.Char.{code}
use Prim.Native.String.{String}

-- A list of words, written with one space between them.
abbrev pub words_onto : Bytes → String → List Bytes
words_onto word String.[] = word ∷ []
words_onto word (String.◌∷◌ c s) =
    let next = words_onto [] s in
    let longer = words_onto (word ++ code c ∷ []) s in
    if code c == b' ' then word ∷ next else longer

abbrev pub words : String → List Bytes
words s = words_onto [] s

abbrev pub manager_apt : Bytes
manager_apt = codes "apt"

abbrev pub manager_dnf : Bytes
manager_dnf = codes "dnf"

abbrev pub manager_yum : Bytes
manager_yum = codes "yum"

abbrev pub manager_pacman : Bytes
manager_pacman = codes "pacman"

abbrev pub manager_zypper : Bytes
manager_zypper = codes "zypper"

abbrev pub manager_apk : Bytes
manager_apk = codes "apk"

abbrev pub manager_xbps : Bytes
manager_xbps = codes "xbps"

abbrev pub manager_emerge : Bytes
manager_emerge = codes "emerge"

abbrev pub manager_nix : Bytes
manager_nix = codes "nix"

abbrev pub manager_unknown : Bytes
manager_unknown = codes "unknown"

abbrev pub component_core : Bytes
component_core = codes "core"

abbrev pub component_gdb : Bytes
component_gdb = codes "gdb"

abbrev pub component_python : Bytes
component_python = codes "python"

abbrev pub component_pwntools : Bytes
component_pwntools = codes "pwntools"

abbrev pub component_patching : Bytes
component_patching = codes "patching"

abbrev pub component_tracing : Bytes
component_tracing = codes "tracing"

abbrev pub component_pane_network : Bytes
component_pane_network = codes "pane-network"

abbrev pub component_mosh : Bytes
component_mosh = codes "mosh"

abbrev pub component_pwndbg : Bytes
component_pwndbg = codes "pwndbg"

abbrev pub component_podman : Bytes
component_podman = codes "podman"

abbrev pub component_docker : Bytes
component_docker = codes "docker"

abbrev pub component_order : List Bytes
component_order =
    component_core ∷ component_gdb ∷ component_python ∷ component_pwntools ∷ component_patching
    ∷ component_tracing ∷ component_pane_network ∷ component_mosh ∷ component_pwndbg
    ∷ component_podman ∷ component_docker ∷ []

abbrev pub mandatory_components : List Bytes
mandatory_components = component_core ∷ component_gdb ∷ component_python ∷ component_pwntools ∷ []
