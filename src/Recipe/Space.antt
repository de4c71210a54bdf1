-- ===== src/Recipe/Space.antt =====
-- strings.TrimSpace, unicode.IsControl and strings.Cut, on UTF-8.
use pwnbridge.Prelude.{
  ℕ, zero, suc, Bool, false, ◌||◌, ◌&&◌, List, [], ◌∷◌, Option, none, some, ltb, leb, ◌==◌,
  if◌then◌else◌, length, drop,
}
use pwnbridge.Prelude.Text.{Bytes, has_prefix}

-- The bytes of each white space character of Unicode.
abbrev pub spaces : List Bytes
spaces =
    (9 ∷ [])
    ∷ (10 ∷ [])
    ∷ (11 ∷ [])
    ∷ (12 ∷ [])
    ∷ (13 ∷ [])
    ∷ (32 ∷ [])
    ∷ (0xc2 ∷ 0x85 ∷ [])
    ∷ (0xc2 ∷ 0xa0 ∷ [])
    ∷ (0xe1 ∷ 0x9a ∷ 0x80 ∷ [])
    ∷ (0xe2 ∷ 0x80 ∷ 0x80 ∷ [])
    ∷ (0xe2 ∷ 0x80 ∷ 0x81 ∷ [])
    ∷ (0xe2 ∷ 0x80 ∷ 0x82 ∷ [])
    ∷ (0xe2 ∷ 0x80 ∷ 0x83 ∷ [])
    ∷ (0xe2 ∷ 0x80 ∷ 0x84 ∷ [])
    ∷ (0xe2 ∷ 0x80 ∷ 0x85 ∷ [])
    ∷ (0xe2 ∷ 0x80 ∷ 0x86 ∷ [])
    ∷ (0xe2 ∷ 0x80 ∷ 0x87 ∷ [])
    ∷ (0xe2 ∷ 0x80 ∷ 0x88 ∷ [])
    ∷ (0xe2 ∷ 0x80 ∷ 0x89 ∷ [])
    ∷ (0xe2 ∷ 0x80 ∷ 0x8a ∷ [])
    ∷ (0xe2 ∷ 0x80 ∷ 0xa8 ∷ [])
    ∷ (0xe2 ∷ 0x80 ∷ 0xa9 ∷ [])
    ∷ (0xe2 ∷ 0x80 ∷ 0xaf ∷ [])
    ∷ (0xe2 ∷ 0x81 ∷ 0x9f ∷ [])
    ∷ (0xe3 ∷ 0x80 ∷ 0x80 ∷ [])
    ∷ []

abbrev pub reverse_onto : Bytes → Bytes → Bytes
reverse_onto [] t = t
reverse_onto (c ∷ s) t = reverse_onto s (c ∷ t)

abbrev pub reverse_all : List Bytes → List Bytes
reverse_all [] = []
reverse_all (s ∷ ss) = reverse_onto s [] ∷ reverse_all ss

-- How many bytes the character of the list that the text starts with has; 0 if it has none.
unfoldable pub space_length : List Bytes → Bytes → ℕ
space_length [] s = 0
space_length (p ∷ ps) s = if has_prefix s p then length p else space_length ps s

-- Each round removes one character, so the length of the text is enough fuel.
unfoldable pub trim_left : ℕ → List Bytes → Bytes → Bytes
trim_left zero ps s = s
trim_left (suc fuel) ps s =
    let rest = trim_left fuel ps (drop (space_length ps s) s) in
    if space_length ps s == 0 then s else rest

unfoldable pub trim_space : Bytes → Bytes
trim_space s =
    let left = trim_left (length s) spaces s in
    reverse_onto (trim_left (length s) (reverse_all spaces) (reverse_onto left [])) []

-- A control character: U+0000 to U+001F, and U+007F to U+009F, the latter as 0xc2 and a byte.
unfoldable pub is_control : Bytes → Bool
is_control [] = false
is_control (c ∷ []) = ltb c 32 || c == 127
is_control (c ∷ d ∷ s) =
    ltb c 32 || c == 127 || (c == 0xc2 && leb 0x80 d && leb d 0x9f) || is_control (d ∷ s)

-- strings.Cut(s, sep) for a separator of one byte; `none` when it is not found.
unfoldable pub cut : ℕ → Bytes → Bytes × Option Bytes
cut sep [] = ([], none)
cut sep (c ∷ s) =
    let (before, after) = cut sep s in if c == sep then ([], some s) else (c ∷ before, after)
