-- ===== src/Bootstrap/Entries.antt =====
-- internal/bootstrap/catalog.go: the catalog of components.
use pwnbridge.Prelude.{Bool, true, false, List, [], ◌∷◌}
use pwnbridge.Prelude.Map.{Map}
use pwnbridge.Prelude.Text.{Bytes, codes}
use pwnbridge.Bootstrap.Names.{
  words, component_core, component_gdb, component_python, component_pwntools, component_patching,
  component_tracing, component_pane_network, component_mosh, component_pwndbg, component_podman,
  component_docker, manager_apt, manager_dnf, manager_yum, manager_pacman, manager_zypper,
  manager_apk, manager_xbps, manager_emerge, manager_nix,
}

pub record Component : Type 0 where
  pub id : Bytes
  pub name : Bytes
  pub mandatory : Bool
  pub dependencies : List Bytes
  pub tools : List Bytes
  pub packages : Map (List Bytes)
  pub network : Bool
  pub privileged : Bool
  pub alternative : Bytes

abbrev pub component :
    Bytes → Bytes → Bool → List Bytes → List Bytes → Map (List Bytes) → Bool → Component
component id name mandatory deps tools packages network = record {
  id = id;
  name = name;
  mandatory = mandatory;
  dependencies = deps;
  tools = tools;
  packages = packages;
  network = network;
  privileged = true;
  alternative = [];
}

abbrev packages_for : List Bytes → List Bytes → Map (List Bytes)
packages_for [] packages = []
packages_for (manager ∷ managers) packages = (manager, packages) ∷ packages_for managers packages

abbrev pub all_packages : Bytes → Map (List Bytes)
all_packages name = packages_for (words "apt dnf yum pacman zypper apk xbps emerge nix") (name ∷ [])

abbrev entry_core : Component
entry_core =
    component component_core (codes "Core toolchain") true []
      (words "bash cc cmake file readelf git curl xz")
      ((manager_apt, words "build-essential cmake file binutils git curl ca-certificates xz-utils")
        ∷ (manager_dnf, words "gcc gcc-c++ make cmake file binutils git curl ca-certificates xz")
        ∷ (manager_yum, words "gcc gcc-c++ make cmake file binutils git curl ca-certificates xz")
        ∷ (manager_pacman, words "base-devel cmake file binutils git curl ca-certificates xz")
        ∷ (manager_zypper, words "gcc gcc-c++ make cmake file binutils git curl ca-certificates xz")
        ∷ (manager_apk, words "build-base cmake file binutils git curl ca-certificates xz")
        ∷ (manager_xbps, words "base-devel cmake file binutils git curl ca-certificates xz")
        ∷ (
          manager_emerge,
          words
              "sys-devel/gcc dev-build/cmake sys-apps/file sys-devel/binutils dev-vcs/git net-misc/curl app-arch/xz-utils",
        )
        ∷ (manager_nix, words "gcc gnumake cmake file binutils git curl cacert xz")
        ∷ [])
      true

abbrev entry_gdb : Component
entry_gdb =
    component component_gdb (codes "GDB") true (words "core") (words "gdb gdbserver")
      ((manager_apt, words "gdb gdbserver gdb-multiarch libc6-dbg")
        ∷ (manager_dnf, words "gdb gdb-gdbserver")
        ∷ (manager_yum, words "gdb gdb-gdbserver")
        ∷ (manager_pacman, words "gdb")
        ∷ (manager_zypper, words "gdb gdbserver")
        ∷ (manager_apk, words "gdb")
        ∷ (manager_xbps, words "gdb")
        ∷ (manager_emerge, words "sys-devel/gdb")
        ∷ (manager_nix, words "gdb")
        ∷ [])
      true

abbrev entry_python : Component
entry_python =
    component component_python (codes "Python") true (words "core") (words "python3")
      ((manager_apt, words "python3 python3-dev python3-venv python3-pip libssl-dev libffi-dev")
        ∷ (manager_dnf, words "python3 python3-devel python3-pip openssl-devel libffi-devel")
        ∷ (manager_yum, words "python3 python3-devel python3-pip openssl-devel libffi-devel")
        ∷ (manager_pacman, words "python python-pip openssl libffi")
        ∷ (manager_zypper, words "python3 python3-devel python3-pip libopenssl-devel libffi-devel")
        ∷ (manager_apk, words "python3 python3-dev py3-pip py3-virtualenv openssl-dev libffi-dev")
        ∷ (manager_xbps, words "python3 python3-devel python3-pip openssl-devel libffi-devel")
        ∷ (
          manager_emerge,
          words
              "dev-lang/python dev-python/pip dev-python/virtualenv dev-libs/openssl dev-libs/libffi",
        )
        ∷ (manager_nix, words "python3 python3Packages.pip openssl libffi")
        ∷ [])
      true

abbrev entry_pwntools : Component
entry_pwntools = record {
  id = component_pwntools;
  name = codes "Pinned pwntools 4.15.0";
  mandatory = true;
  dependencies = words "python core";
  tools = [];
  packages = (manager_apt, words "python3-pwntools") ∷ [];
  network = true;
  privileged = false;
  alternative = [];
}

abbrev entry_patching : Component
entry_patching =
    component component_patching (codes "Patching and checksec") false (words "core")
      (words "patchelf checksec")
      ((manager_apt, words "patchelf checksec")
        ∷ (manager_dnf, words "patchelf checksec")
        ∷ (manager_yum, words "patchelf")
        ∷ (manager_pacman, words "patchelf checksec")
        ∷ (manager_zypper, words "patchelf checksec")
        ∷ (manager_apk, words "patchelf checksec")
        ∷ (manager_xbps, words "patchelf checksec")
        ∷ (manager_emerge, words "dev-util/patchelf sys-apps/checksec")
        ∷ (manager_nix, words "patchelf checksec")
        ∷ [])
      true

abbrev entry_tracing : Component
entry_tracing =
    component component_tracing (codes "Tracing") false [] (words "strace ltrace")
      ((manager_apt, words "strace ltrace")
        ∷ (manager_dnf, words "strace ltrace")
        ∷ (manager_yum, words "strace ltrace")
        ∷ (manager_pacman, words "strace ltrace")
        ∷ (manager_zypper, words "strace ltrace")
        ∷ (manager_apk, words "strace ltrace")
        ∷ (manager_xbps, words "strace ltrace")
        ∷ (manager_emerge, words "dev-debug/strace dev-debug/ltrace")
        ∷ (manager_nix, words "strace ltrace")
        ∷ [])
      true

abbrev entry_pane_network : Component
entry_pane_network =
    component component_pane_network (codes "Pane and network support") false []
      (words "tmux socat nc")
      ((manager_apt, words "tmux socat netcat-openbsd")
        ∷ (manager_dnf, words "tmux socat nmap-ncat")
        ∷ (manager_yum, words "tmux socat nmap-ncat")
        ∷ (manager_pacman, words "tmux socat openbsd-netcat")
        ∷ (manager_zypper, words "tmux socat netcat-openbsd")
        ∷ (manager_apk, words "tmux socat netcat-openbsd")
        ∷ (manager_xbps, words "tmux socat openbsd-netcat")
        ∷ (manager_emerge, words "app-misc/tmux net-misc/socat net-analyzer/openbsd-netcat")
        ∷ (manager_nix, words "tmux socat netcat-openbsd")
        ∷ [])
      true

abbrev entry_mosh : Component
entry_mosh =
    component component_mosh (codes "Mosh server") false [] (words "mosh-server")
      (all_packages (codes "mosh")) true

abbrev entry_pwndbg : Component
entry_pwndbg = record {
  id = component_pwndbg;
  name = codes "Pwndbg";
  mandatory = false;
  dependencies = words "gdb python";
  tools = [];
  packages = [];
  network = true;
  privileged = false;
  alternative = codes "use Pwndbg in a glibc-based container or install it manually";
}

abbrev entry_podman : Component
entry_podman =
    component component_podman (codes "Rootless Podman") false [] (words "podman")
      ((manager_apt, words "podman uidmap slirp4netns fuse-overlayfs")
        ∷ (manager_dnf, words "podman slirp4netns fuse-overlayfs")
        ∷ (manager_yum, words "podman slirp4netns fuse-overlayfs")
        ∷ (manager_pacman, words "podman slirp4netns fuse-overlayfs")
        ∷ (manager_zypper, words "podman slirp4netns fuse-overlayfs")
        ∷ (manager_apk, words "podman shadow-subids slirp4netns fuse-overlayfs")
        ∷ (manager_xbps, words "podman slirp4netns fuse-overlayfs")
        ∷ (manager_emerge, words "app-containers/podman net-misc/slirp4netns sys-fs/fuse-overlayfs")
        ∷ (manager_nix, words "podman slirp4netns fuse-overlayfs")
        ∷ [])
      true

abbrev entry_docker : Component
entry_docker =
    component component_docker (codes "Docker Engine") false [] (words "docker")
      ((manager_apt, words "docker.io")
        ∷ (manager_dnf, words "moby-engine")
        ∷ (manager_yum, words "docker")
        ∷ (manager_pacman, words "docker")
        ∷ (manager_zypper, words "docker")
        ∷ (manager_apk, words "docker")
        ∷ (manager_xbps, words "docker")
        ∷ (manager_emerge, words "app-containers/docker")
        ∷ (manager_nix, words "docker")
        ∷ [])
      true

abbrev pub catalog : Map Component
catalog =
    (component_core, entry_core)
    ∷ (component_gdb, entry_gdb)
    ∷ (component_python, entry_python)
    ∷ (component_pwntools, entry_pwntools)
    ∷ (component_patching, entry_patching)
    ∷ (component_tracing, entry_tracing)
    ∷ (component_pane_network, entry_pane_network)
    ∷ (component_mosh, entry_mosh)
    ∷ (component_pwndbg, entry_pwndbg)
    ∷ (component_podman, entry_podman)
    ∷ (component_docker, entry_docker)
    ∷ []
