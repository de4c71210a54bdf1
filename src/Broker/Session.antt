-- ===== src/Broker/Session.antt =====
-- internal/broker/broker.go: the session record on disk, the title of a pane, and the command line
-- that a pane gives to ssh. A title comes out of JSON, so it is UTF-8, in which a byte below 128 is a
-- character of its own.
use pwnbridge.Prelude.{
  ℕ, Bool, true, false, not, ◌&&◌, ◌||◌, List, [], ◌∷◌, ◌++◌, ltb, ◌==◌, if◌then◌else◌, length,
  take, drop,
}
use pwnbridge.Prelude.Int.{ℤ, pos, negsuc}
use pwnbridge.Prelude.Text.{Bytes, codes, bytes_eq, has_prefix}
use pwnbridge.Config.Layers.{ℤ_eq}
use pwnbridge.Config.Names.{is_empty, one_of}
use pwnbridge.Broker.{SessionRecord, valid_id}
pub mod Quoting

-- SaveSession, up to the write: the record that is written to the path.
unfoldable pub saved_session : Bytes → SessionRecord → SessionRecord
saved_session path s = record s {
  schema = pos 1;
  record_path = if is_empty s.record_path then path else s.record_path;
  lease_path = if is_empty s.lease_path then path ++ codes ".lease" else s.lease_path;
}

unfoldable pub valid_runtime : SessionRecord → Bool
valid_runtime s =
    if not (bytes_eq s.runtime.session_dir s.remote_session_dir) || is_empty s.runtime.workspace
    then false
    else if bytes_eq s.runtime.kind (codes "host")
    then true
    else if not (bytes_eq s.runtime.kind (codes "container"))
        || is_empty s.runtime.image
        || not (bytes_eq s.runtime.id (codes "pwnbridge-" ++ s.id))
    then false
    else is_empty s.runtime.engine
      || one_of s.runtime.engine (codes "auto" ∷ codes "docker" ∷ codes "podman" ∷ [])

abbrev positive : ℤ → Bool
positive (pos n) = ltb 0 n
positive (negsuc n) = false

-- The test of LoadSession on a record that was read. `base` is filepath.Base of the path.
unfoldable pub valid_session : Bytes → Bytes → SessionRecord → Bool
valid_session path base s =
    ℤ_eq s.schema (pos 1)
    && positive s.owner_pid
    && valid_id s.id
    && not (ltb (length s.token) 32)
    && bytes_eq base (s.id ++ codes ".json")
    && bytes_eq s.record_path path
    && bytes_eq s.lease_path (path ++ codes ".lease")
    && valid_runtime s

abbrev pub is_title_control : ℕ → Bool
is_title_control c = ltb c 32 || c == 127

unfoldable pub printable : Bytes → Bytes
printable [] = []
printable (c ∷ s) = let rest = printable s in if is_title_control c then rest else c ∷ rest

unfoldable pub safe_title : Bytes → Bytes
safe_title value =
    let short =
      if ltb 80 (length (printable value)) then take 80 (printable value) else printable value in
    if is_empty short then codes "pwntools GDB" else short

abbrev pub quote_mark : ℕ
quote_mark = 39

abbrev pub backslash : ℕ
backslash = 92

-- `strings.ReplaceAll(value, "'", "'\\''")`
unfoldable pub escape_quotes : Bytes → Bytes
escape_quotes [] = []
escape_quotes (c ∷ s) =
    let rest = escape_quotes s in
    if c == quote_mark then quote_mark ∷ backslash ∷ quote_mark ∷ quote_mark ∷ rest else c ∷ rest

unfoldable pub shell_quote : Bytes → Bytes
shell_quote value = quote_mark ∷ (escape_quotes value ++ quote_mark ∷ [])

unfoldable pub remote_agent_command : Bytes → Bytes → Bytes → Bytes
remote_agent_command path operation encoded =
    let resolved =
      if ltb 2 (length path) && bytes_eq (take 2 path) (codes "~/")
      then codes "\"$HOME\"/" ++ shell_quote (drop 2 path)
      else shell_quote path in
    codes "exec "
    ++ resolved
    ++ codes " "
    ++ shell_quote operation
    ++ codes " "
    ++ shell_quote encoded
