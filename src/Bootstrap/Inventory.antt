-- ===== src/Bootstrap/Inventory.antt =====
-- internal/bootstrap/inventory.go: what is known of the remote host, read from the output of a probe
-- script, which is an argument.
use pwnbridge.Prelude.{
  ℕ, zero, suc, ◌+◌, ◌-◌, ◌*◌, ◌^◌, Bool, true, false, not, ◌&&◌, ◌||◌, List, [], ◌∷◌, ◌++◌, Option,
  none, some, ltb, leb, ◌==◌, if◌then◌else◌, length, drop,
}
use pwnbridge.Prelude.Map.{Map, map_lookup, map_insert}
use pwnbridge.Prelude.Result.{Result, ok, err}
use pwnbridge.Prelude.Text.{Bytes, codes, bytes_eq, has_prefix, is_digit}
use pwnbridge.Config.Names.{is_empty, is_upper, split}
use pwnbridge.Recipe.Space.{trim_space, cut}
use pwnbridge.Bootstrap.Names.{manager_unknown}
pub mod Granted

pub record Inventory : Type 0 where
  pub host : Bytes
  pub os : Bytes
  pub architecture : Bytes
  pub distro : Bytes
  pub distro_version : Bytes
  pub package_manager : Bytes
  pub libc : Bytes
  pub disk_available_kib : ℕ
  pub inodes_available : ℕ
  pub home_writable : Bool
  pub root : Bool
  pub sudo_available : Bool
  pub immutable : Bool
  pub service_manager : Bytes
  pub tools : Map Bool
  pub pwntools_version : Bytes
  pub pwndbg_version : Bytes
  pub ptrace_scope : Bytes

-- `Inventory{PackageManager: ManagerUnknown, Tools: map[string]bool{}}`
abbrev pub empty_inventory : Inventory
empty_inventory = record {
  host = [];
  os = [];
  architecture = [];
  distro = [];
  distro_version = [];
  package_manager = manager_unknown;
  libc = [];
  disk_available_kib = 0;
  inodes_available = 0;
  home_writable = false;
  root = false;
  sudo_available = false;
  immutable = false;
  service_manager = [];
  tools = [];
  pwntools_version = [];
  pwndbg_version = [];
  ptrace_scope = [];
}

-- `inventory.Tools[name]`
unfoldable pub has_tool : Inventory → Bytes → Bool
has_tool inventory name = elim (map_lookup name inventory.tools) [ none ↦ false | some b ↦ b ]

-- `strings.ToLower`, as far as its result has ASCII letters: U+0130 becomes `i`, and U+212A `k`. Other
-- letters outside ASCII stay as they are; what is read so is compared with ASCII words.
unfoldable pub to_lower : Bytes → Bytes
to_lower [] = []
to_lower (c ∷ []) = (if is_upper c then c + 32 else c) ∷ []
to_lower (c ∷ d ∷ []) =
    if c == 0xc4 && d == 0xb0
    then b'i' ∷ []
    else (if is_upper c then c + 32 else c) ∷ (if is_upper d then d + 32 else d) ∷ []
to_lower (c ∷ d ∷ e ∷ s) =
    let behind_two = to_lower (e ∷ s) in
    let behind_three = to_lower s in
    let rest = to_lower (d ∷ e ∷ s) in
    if c == 0xc4 && d == 0xb0
    then b'i' ∷ behind_two
    else if c == 0xe2 && d == 0x84 && e == 0xaa
    then b'k' ∷ behind_three
    else (if is_upper c then c + 32 else c) ∷ rest

unfoldable pub normalize_arch : Bytes → Bytes
normalize_arch value =
    let name = to_lower (trim_space value) in
    if bytes_eq name (codes "x86_64") || bytes_eq name (codes "amd64")
    then codes "amd64"
    else if bytes_eq name (codes "aarch64") || bytes_eq name (codes "arm64")
    then codes "arm64"
    else name

-- The value of `strconv.ParseUint(s, 10, 64)` when its error is ignored: 0 for what is no number, and
-- the greatest number as soon as the digits exceed it.
unfoldable pub uint_digits : ℕ → Bytes → ℕ
uint_digits n [] = n
uint_digits n (c ∷ s) =
    let rest = uint_digits (n * 10 + (c - b'0')) s in
    if not (is_digit c) then 0 else if leb (2 ^ 64) (n * 10 + (c - b'0')) then 2 ^ 64 - 1 else rest

-- A case of the switch on a line, tested in the order of the source.
pub data Rule : Type 0 where
  starting : Bytes → (Bytes → Inventory → Inventory) → Rule
  exact : Bytes → (Inventory → Inventory) → Rule

-- `value.Tools[name] = raw == "1"`, if the line has a value.
abbrev pub set_tool_value : Bytes → Option Bytes → Inventory → Inventory
set_tool_value name none inventory = inventory
set_tool_value name (some raw) inventory = record inventory {
  tools = map_insert name (bytes_eq raw (codes "1")) inventory.tools;
}

abbrev pub set_tool : Bytes → Inventory → Inventory
set_tool text inventory = let (name, value) = cut b'=' text in set_tool_value name value inventory

abbrev pub root_line : Bytes
root_line = codes "__PB_ROOT__1"

abbrev pub sudo_line : Bytes
sudo_line = codes "__PB_SUDO__1"

abbrev pub home_line : Bytes
home_line = codes "__PB_HOME_WRITABLE__1"

abbrev pub rules : List Rule
rules =
    starting (codes "__PB_HOST__") (λ s v. record v { host = s })
    ∷ starting (codes "__PB_OS__") (λ s v. record v { os = to_lower s })
    ∷ starting (codes "__PB_ARCH__") (λ s v. record v { architecture = normalize_arch s })
    ∷ starting (codes "__PB_DISTRO__") (λ s v. record v { distro = s })
    ∷ starting (codes "__PB_DISTRO_VERSION__") (λ s v. record v { distro_version = s })
    ∷ starting (codes "__PB_MANAGER__") (λ s v. record v { package_manager = s })
    ∷ starting (codes "__PB_LIBC__") (λ s v. record v { libc = s })
    ∷ starting (codes "__PB_SERVICE__") (λ s v. record v { service_manager = s })
    ∷ starting (codes "__PB_DISK__") (λ s v. record v { disk_available_kib = uint_digits 0 s })
    ∷ starting (codes "__PB_INODES__") (λ s v. record v { inodes_available = uint_digits 0 s })
    ∷ exact home_line (λ v. record v { home_writable = true })
    ∷ exact root_line (λ v. record v { root = true })
    ∷ exact sudo_line (λ v. record v { sudo_available = true })
    ∷ exact (codes "__PB_IMMUTABLE__1") (λ v. record v { immutable = true })
    ∷ starting (codes "__PB_TOOL__") set_tool
    ∷ starting (codes "__PB_PWNTOOLS__") (λ s v. record v { pwntools_version = s })
    ∷ starting (codes "__PB_PWNDBG__") (λ s v. record v { pwndbg_version = s })
    ∷ starting (codes "__PB_PTRACE__") (λ s v. record v { ptrace_scope = s })
    ∷ []

-- The first case that matches the line.
unfoldable pub apply_rules : List Rule → Bytes → Inventory → Inventory
apply_rules [] line inventory = inventory
apply_rules (starting p set_field ∷ rest) line inventory =
    let others = apply_rules rest line inventory in
    if has_prefix line p then set_field (drop (length p) line) inventory else others
apply_rules (exact text set_field ∷ rest) line inventory =
    let others = apply_rules rest line inventory in
    if bytes_eq line text then set_field inventory else others

unfoldable pub read_lines : List Bytes → Inventory → Inventory
read_lines [] inventory = inventory
read_lines (line ∷ lines) inventory =
    read_lines lines (apply_rules rules (trim_space line) inventory)

module _ (quote : Bytes → Bytes) where
  unfoldable pub inspect : Result Bytes Bytes → Result Bytes Inventory
  inspect (err problem) = err (codes "inspect remote host: " ++ problem)
  inspect (ok output) =
      let value = read_lines (split b'\n' output) empty_inventory in
      if is_empty value.os || is_empty value.architecture
      then err (codes "remote inventory was incomplete: " ++ quote output)
      else ok value
