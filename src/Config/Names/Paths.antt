-- ===== src/Config/Names/Paths.antt =====
-- internal/config/config.go: escapesParent and validRemoteWorkspaceRoot, over path.Clean.
use pwnbridge.Prelude.{
  ℕ, zero, suc, Bool, true, false, not, ◌&&◌, ◌||◌, List, [], ◌∷◌, ◌++◌, ltb, ◌==◌, if◌then◌else◌,
  length, drop, ◌≡◌, ◌≢◌, ◌⊎◌, inl, inr, refl, arith, Bool-cases, sym, ◌∙◌, ap,
}
use pwnbridge.Prelude.Text.{
  Bytes, codes, bytes_eq, bytes_eq_sound, bytes_eq_refl, has_prefix, has_prefix_self,
  has_prefix-append,
}
use pwnbridge.Config.Names.{any, is_empty, split}
pub mod Inside

abbrev pub dot : Bytes
dot = b'.' ∷ []

abbrev pub parent : Bytes
parent = b'.' ∷ b'.' ∷ []

abbrev pub slash : ℕ
slash = b'/'

-- One element of a path, onto the elements so far, the last one first.
unfoldable pub clean_part : Bool → List Bytes → Bytes → List Bytes
clean_part rooted [] part =
    if is_empty part || bytes_eq part dot
    then []
    else if bytes_eq part parent
    then if rooted then [] else parent ∷ []
    else part ∷ []
clean_part rooted (top ∷ stack) part =
    if is_empty part || bytes_eq part dot
    then top ∷ stack
    else if bytes_eq part parent
    then if bytes_eq top parent then parent ∷ top ∷ stack else stack
    else part ∷ top ∷ stack

unfoldable pub clean_parts : Bool → List Bytes → List Bytes → List Bytes
clean_parts rooted stack [] = stack
clean_parts rooted stack (part ∷ parts) = clean_parts rooted (clean_part rooted stack part) parts

-- The elements, the last one first, joined by slashes.
unfoldable pub render : List Bytes → Bytes
render [] = []
render (x ∷ []) = x
render (x ∷ y ∷ stack) = render (y ∷ stack) ++ slash ∷ x

unfoldable pub is_abs : Bytes → Bool
is_abs [] = false
is_abs (c ∷ s) = c == slash

-- The cleaned elements of a path, the last one first.
unfoldable pub elements : Bytes → List Bytes
elements value = clean_parts (is_abs value) [] (split slash value)

unfoldable pub path_clean : Bytes → Bytes
path_clean value =
    if is_abs value
    then slash ∷ render (elements value)
    else if is_empty (render (elements value))
    then dot
    else render (elements value)

abbrev pub parent_slash : Bytes
parent_slash = b'.' ∷ b'.' ∷ slash ∷ []

unfoldable pub escapes_parent : Bytes → Bool
escapes_parent value =
    bytes_eq (path_clean value) parent || has_prefix (path_clean value) parent_slash

unfoldable pub valid_home_path : Bytes → Bool
valid_home_path relative =
    not (bytes_eq relative dot)
    && not (bytes_eq relative parent)
    && not (has_prefix relative parent_slash)
    && not (is_abs relative)

unfoldable pub valid_remote_workspace_root : Bytes → Bool
unfolding valid_home_path
valid_remote_workspace_root value =
    if ltb 512 (length value) || any (λ c. c == b':') value
    then false
    else if any (λ c. c == 0 || ltb c 32 || c == 127) value
    then false
    else if has_prefix value (codes "~/")
    then valid_home_path (path_clean (drop 2 value))
    else is_abs (path_clean value) && not (bytes_eq (path_clean value) (slash ∷ []))
