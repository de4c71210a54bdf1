-- ===== src/Config/Names.antt =====
-- internal/config/config.go: the tests on names, arguments, ports and paths. A string is walked byte
-- by byte where the program walks it by code points: all tests are on ASCII, and a code point
-- outside ASCII and its bytes fail or pass them alike.
use pwnbridge.Prelude.{
  ℕ, zero, suc, ◌+◌, ◌-◌, ◌*◌, ◌/◌, ◌%◌, Bool, true, false, not, ◌&&◌, ◌||◌, List, [], ◌∷◌, ◌++◌,
  Option, none, some, ltb, leb, ◌==◌, if◌then◌else◌, length, drop, take, ◌≡◌, refl,
}
use pwnbridge.Prelude.Int.{ℤ, pos, negsuc}
use pwnbridge.Prelude.Text.{Bytes, codes, bytes_eq, has_prefix, atoi}
pub mod Paths

abbrev pub is_lower : ℕ → Bool
is_lower c = leb b'a' c && leb c b'z'

abbrev pub is_upper : ℕ → Bool
is_upper c = leb b'A' c && leb c b'Z'

abbrev pub is_decimal : ℕ → Bool
is_decimal c = leb b'0' c && leb c b'9'

abbrev pub all {ℓ} : {A : Type ℓ} → (A → Bool) → List A → Bool
all p [] = true
all p (c ∷ s) = p c && all p s

abbrev pub any {ℓ} : {A : Type ℓ} → (A → Bool) → List A → Bool
any p [] = false
any p (c ∷ s) = p c || any p s

abbrev pub is_empty : Bytes → Bool
is_empty [] = true
is_empty (c ∷ s) = false

unfoldable pub host_name_byte : ℕ → Bool
host_name_byte c = is_lower c || is_upper c || is_decimal c || c == b'-' || c == b'_' || c == b'.'

unfoldable pub valid_host_name : Bytes → Bool
unfolding host_name_byte
valid_host_name name =
    if is_empty name || ltb 64 (length name) then false else all host_name_byte name

unfoldable pub environment_first : ℕ → Bool
environment_first c = c == b'_' || is_upper c || is_lower c

unfoldable pub environment_later : ℕ → Bool
environment_later c = c == b'_' || is_upper c || is_lower c || is_decimal c

-- `for index, r := range name`
unfoldable pub environment_bytes : Bytes → Bool
unfolding environment_first environment_later
environment_bytes [] = true
environment_bytes (c ∷ name) = environment_first c && all environment_later name

unfoldable pub valid_environment_name : Bytes → Bool
unfolding environment_bytes
valid_environment_name name =
    if is_empty name || ltb 128 (length name) then false else environment_bytes name

unfoldable pub one_of : Bytes → List Bytes → Bool
one_of value [] = false
one_of value (candidate ∷ allowed) = bytes_eq value candidate || one_of value allowed

unfoldable pub custom_name_byte : ℕ → Bool
custom_name_byte c = is_lower c || is_upper c || is_decimal c || c == b'-' || c == b'_'

unfoldable pub valid_custom_name : Bytes → Bool
unfolding custom_name_byte
valid_custom_name name =
    if is_empty name || ltb 64 (length name) then false else all custom_name_byte name

unfoldable pub valid_terminal_provider : Bytes → Bytes → Bool
unfolding one_of valid_custom_name has_prefix bytes_eq
valid_terminal_provider value scope =
    if bytes_eq scope (codes "remote")
    then one_of value (
        codes "auto"
        ∷ codes "tmux"
        ∷ codes "zellij"
        ∷ codes "remote-tmux"
        ∷ codes "remote-zellij"
        ∷ [])
    else if one_of value (
        codes "auto"
        ∷ codes "zellij"
        ∷ codes "tmux"
        ∷ codes "wezterm"
        ∷ codes "kitty"
        ∷ codes "iterm2"
        ∷ codes "terminal-app"
        ∷ [])
    then true
    else if not (has_prefix value (codes "custom:"))
    then false
    else valid_custom_name (drop 7 value)

-- strings.HasSuffix(value, suffix), with strings.TrimSuffix(value, suffix) where it holds.
unfoldable pub trim_suffix : Bytes → Bytes → Option Bytes
unfolding bytes_eq
trim_suffix value suffix =
    let cut = length value - length suffix in
    if leb (length suffix) (length value) && bytes_eq (drop cut value) suffix
    then some (take cut value)
    else none

abbrev pub in_range : ℕ → ℕ → Option ℤ → Bool
in_range lo hi (some (pos n)) = leb lo n && leb n hi
in_range lo hi (some (negsuc n)) = false
in_range lo hi none = false

unfoldable pub valid_percent : Bytes → Bool
unfolding trim_suffix atoi
valid_percent value = elim (trim_suffix value (codes "%")) [
  | none ↦ false
  | some number ↦ in_range 1 99 (atoi number)
]

unfoldable pub unsafe_byte : ℕ → Bool
unsafe_byte c =
    c == 0 || ltb c 32 || c == 127 || c == b' ' || c == b'\t' || c == b'\n' || c == b'\r'

unfoldable pub unsafe_argument : Bytes → ℕ → Bool
unfolding unsafe_byte has_prefix
unsafe_argument value maximum =
    if is_empty value || ltb maximum (length value) || has_prefix value (codes "-")
    then true
    else any unsafe_byte value

-- strings.Split(value, ":"): the parts between the separators, at least one.
unfoldable pub split : ℕ → Bytes → List Bytes
split sep [] = [] ∷ []
split sep (c ∷ s) = elim (split sep s) [
  | [] ↦ []
  | part ∷ parts ↦ if c == sep then [] ∷ part ∷ parts else (c ∷ part) ∷ parts
]

-- strconv.Itoa of a number that is not negative. Five digits are enough below 100000.
unfoldable pub itoa_digits : ℕ → ℕ → Bytes → Bytes
itoa_digits zero n out = out
itoa_digits (suc fuel) n out =
    let rest = itoa_digits fuel (n / 10) ((b'0' + n % 10) ∷ out) in
    if ltb n 10 then (b'0' + n) ∷ out else rest

unfoldable pub itoa_port : ℕ → Bytes
unfolding itoa_digits
itoa_port n = itoa_digits 5 n []

-- One part of a port range: a port in its canonical decimal form.
unfoldable pub mosh_port : Bytes → Option ℕ
unfolding itoa_port bytes_eq atoi
mosh_port part = elim (atoi part) [
  | none ↦ none
  | some (negsuc n) ↦ none
  | some (pos n) ↦
      if ltb n 1 || ltb 65535 n || not (bytes_eq (itoa_port n) part) then none else some n
]

unfoldable pub mosh_ports : List Bytes → Bool
mosh_ports (a ∷ []) = elim (mosh_port a) [ none ↦ false | some n ↦ true ]
mosh_ports (a ∷ b ∷ []) = elim (mosh_port a) [
  | none ↦ false
  | some n ↦ elim (mosh_port b) [ none ↦ false | some m ↦ leb n m ]
]
mosh_ports _ = false

unfoldable pub valid_mosh_port : Bytes → Bool
unfolding mosh_ports split mosh_port
valid_mosh_port value = mosh_ports (split b':' value)
