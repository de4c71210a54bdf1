-- ===== src/Broker.antt =====
-- internal/broker/broker.go: the table of debugger requests. Each handler is one step for each time
-- that it takes the lock; what it sends and closes are its effects. A peer and a pane's handle are
-- numbers, and a request carries a serial number where the source compares pointers. It stands in
-- the table under its id, and `next` is the serial number of the next one.
use pwnbridge.Prelude.{
  ℕ, zero, suc, ◌+◌, ◌-◌, Bool, true, false, not, ◌&&◌, ◌||◌, List, [], ◌∷◌, ◌++◌, Option, none,
  some, ltb, leb, ◌==◌, if◌then◌else◌, length,
}
use pwnbridge.Prelude.Int.{ℤ, pos, negsuc}
use pwnbridge.Prelude.Map.{Map, map_insert, map_lookup}
use pwnbridge.Prelude.Text.{Bytes, codes, bytes_eq}
use pwnbridge.Protocol.Message.{Message, RuntimeSpec, ExitPayload}
use pwnbridge.Config.Layers.{ℤ_eq}
use pwnbridge.Config.Names.{all, is_decimal, is_empty, is_lower, is_upper, one_of}
pub mod Table
pub mod Dispatch
pub mod Steps
pub mod Endings
pub mod Session
mod Tests

pub record SessionRecord : Type 0 where
  pub schema : ℤ
  pub owner_pid : ℤ
  pub id : Bytes
  pub token : Bytes
  pub local_socket : Bytes
  pub local_tcp : Bytes
  pub remote_socket : Bytes
  pub control_path : Bytes
  pub destination : Bytes
  pub agent_path : Bytes
  pub remote_session_dir : Bytes
  pub local_workspace : Bytes
  pub executable : Bytes
  pub record_path : Bytes
  pub lease_path : Bytes
  pub provider : Bytes
  pub placement : Bytes
  pub size : Bytes
  pub focus : Bool
  pub close_on_success : Bool
  pub hold_on_failure : Bool
  pub zellij_near_current_pane : Bool
  pub zellij_direction : Bytes
  pub zellij_floating : Bool
  pub tmux_direction : Bytes
  pub tmux_size : Bytes
  pub runtime : RuntimeSpec

pub record Request : Type 0 where
  pub serial : ℕ
  pub wrapper : ℕ
  pub pane : Option ℕ
  pub handle : Option ℕ

pub record Broker : Type 0 where
  pub session : SessionRecord
  pub requests : Map Request
  pub open_times : List ℕ
  pub next : ℕ

pub data Effect : Type 0 where
  sent : ℕ → Message → Effect
  closed : ℕ → Effect
  hung_up : ℕ → Effect

abbrev pub max_panes : ℕ
max_panes = 8

abbrev pub max_open_requests_per_minute : ℕ
max_open_requests_per_minute = 32

-- time.Minute, in nanoseconds.
abbrev pub minute : ℕ
minute = 60_000_000_000

abbrev pub protocol_version : ℤ
protocol_version = pos 4

unfoldable pub id_byte : ℕ → Bool
id_byte c = is_lower c || is_upper c || is_decimal c || c == b'-' || c == b'_'

unfoldable pub valid_id : Bytes → Bool
valid_id value = if ltb (length value) 8 || ltb 128 (length value) then false else all id_byte value

-- `none` is nil.
unfoldable pub validate_message : SessionRecord → Message → Option Bytes
validate_message s message =
    if not (ℤ_eq message.protocol protocol_version)
    then some (codes "broker protocol mismatch")
    else if not (bytes_eq message.token s.token)
    then some (codes "broker authentication failed")
    else if not (bytes_eq message.session_id s.id)
    then some (codes "broker session mismatch")
    else if not (is_empty message.request_id) && not (valid_id message.request_id)
    then some (codes "invalid request id")
    else none

abbrev pub map_delete {ℓ} : {V : Type ℓ} → Bytes → Map V → Map V
map_delete k [] = []
map_delete k ((j, v) ∷ m) =
    let rest = map_delete k m in if bytes_eq j k then rest else (j, v) ∷ rest

-- The times that are not more than a minute before `now`: the loop stops at the first of them.
unfoldable pub current_times : ℕ → List ℕ → List ℕ
current_times now [] = []
current_times now (t ∷ times) =
    let rest = current_times now times in if ltb (t + minute) now then rest else t ∷ times

-- Whether a request may be opened, and with which error it is refused. A refused request has its
-- time on the list too.
unfoldable pub admission : Broker → ℕ → Bytes → Option Bytes
admission b now id =
    if ltb max_open_requests_per_minute (suc (length (current_times now b.open_times)))
    then some (codes "debugger request rate limit reached")
    else if leb max_panes (length b.requests)
    then some (codes "debugger pane limit reached")
    else elim (map_lookup id b.requests) [
      | some r ↦ some (codes "duplicate debugger request")
      | none ↦ none
    ]

unfoldable pub broker_layout : SessionRecord → Bytes → Bytes × Bytes
broker_layout s name =
    let beside = one_of s.placement (codes "right" ∷ codes "down" ∷ []) in
    if bytes_eq name (codes "zellij")
    then (
      (if s.zellij_floating
          then codes "floating"
          else if beside
          then s.zellij_direction
          else s.placement),
      s.size,
    )
    else if bytes_eq name (codes "tmux")
    then (
      (if beside
          then if one_of s.tmux_direction (codes "vertical" ∷ codes "down" ∷ [])
            then codes "down"
            else codes "right"
          else s.placement),
      (if is_empty s.tmux_size then s.size else s.tmux_size),
    )
    else (s.placement, s.size)

-- The placement that the provider is asked for; `none` when it supports none that fits.
unfoldable pub placement_for : Bytes → List Bytes → Option Bytes
placement_for placement placements =
    if one_of placement placements then some placement else elim placements [
      | [] ↦ none
      | p ∷ more ↦ elim more [
        | [] ↦ if bytes_eq p (codes "window") then some (codes "window") else none
        | q ∷ others ↦ none
      ]
    ]

abbrev pub failure : Bytes → ExitPayload
failure text = record { exit_code = pos 1; error = text }

module _ (payload : ExitPayload → Bytes) (parse_exit : Bytes → Option ExitPayload) where
  unfoldable pub error_message : Message → Bytes → Message
  error_message request text = record {
    protocol = protocol_version;
    kind = codes "error";
    session_id = request.session_id;
    request_id = request.request_id;
    token = request.token;
    payload = payload (failure text);
  }

  -- A message of the session about a request.
  unfoldable pub answer : SessionRecord → Bytes → Bytes → Bytes → Message
  answer s kind id body = record {
    protocol = protocol_version;
    kind = kind;
    session_id = s.id;
    request_id = id;
    token = s.token;
    payload = body;
  }

  -- handleWrapper, up to the first time that it gives the lock back.
  unfoldable pub open_request : Broker → ℕ → ℕ → Message → Broker × List Effect
  open_request b now peer message = elim (admission b now message.request_id) [
    | some text ↦ (
      record b { open_times = current_times now b.open_times ++ now ∷ [] },
      sent peer (error_message message text) ∷ [],
    )
    | none ↦ (
      record b {
        open_times = current_times now b.open_times ++ now ∷ [];
        requests =
            map_insert message.request_id
              (record { serial = b.next; wrapper = peer; pane = none; handle = none }) b.requests;
        next = suc b.next;
      },
      [],
    )
  ]

  abbrev removed : Broker → Bytes → Broker
  removed b id = record b { requests = map_delete id b.requests }

  unfoldable pub fail : Broker → Bytes → Bytes → Broker × List Effect
  fail b id text = elim (map_lookup id b.requests) [
    | none ↦ (b, [])
    | some r ↦ (
      removed b id,
      sent r.wrapper (answer b.session (codes "error") id (payload (failure text))) ∷ [],
    )
  ]

  abbrev sent_some : Option ℕ → Message → List Effect
  sent_some none message = []
  sent_some (some peer) message = sent peer message ∷ []

  abbrev closed_some : Option ℕ → List Effect
  closed_some none = []
  closed_some (some h) = closed h ∷ []

  unfoldable pub cancel : Broker → Bytes → Bytes → Broker × List Effect
  cancel b id reason = elim (map_lookup id b.requests) [
    | none ↦ (b, [])
    | some r ↦
        let body = payload (record { exit_code = pos 0; error = reason }) in
        let message = answer b.session (codes "cancel") id body in
        (removed b id, sent r.wrapper message ∷ (sent_some r.pane message ++ closed_some r.handle))
  ]

  -- What a debugger has ended with. A payload that is absent or malformed counts as a failure.
  abbrev pub exit_of : Bytes → ExitPayload
  exit_of [] = failure (codes "invalid debugger exit payload")
  exit_of (c ∷ body) = elim (parse_exit (c ∷ body)) [
    | none ↦ failure (codes "invalid debugger exit payload")
    | some p ↦ p
  ]

  unfoldable pub closes : SessionRecord → ExitPayload → Bool
  closes s p =
      (ℤ_eq p.exit_code (pos 0) && s.close_on_success)
      || (not (ℤ_eq p.exit_code (pos 0)) && not s.hold_on_failure)

  unfoldable pub finish : Broker → Bytes → Message → Broker × List Effect
  finish b id message = elim (map_lookup id b.requests) [
    | none ↦ (b, [])
    | some r ↦
        let p = exit_of message.payload in
        (
          removed b id,
          sent r.wrapper (answer b.session (codes "exited") id (payload p))
              ∷ (if closes b.session p then closed_some r.handle else []),
        )
  ]

  -- The provider has opened a pane for the request with this serial number. A handle without an id
  -- is not kept for closing.
  unfoldable pub opened : Broker → Bytes → ℕ → ℕ → Bool → Broker × List Effect
  opened b id serial handle has_id = elim (map_lookup id b.requests) [
    | none ↦ (b, closed handle ∷ [])
    | some r ↦
        if r.serial == serial
        then (
          record b {
            requests =
                map_insert id (record r { handle = if has_id then some handle else none })
                  b.requests;
          },
          sent r.wrapper (answer b.session (codes "opened") id []) ∷ [],
        )
        else (b, closed handle ∷ [])
  ]

  -- handlePane, up to its loop.
  unfoldable pub pane_started : Broker → ℕ → Message → Broker × List Effect
  pane_started b peer message = elim (map_lookup message.request_id b.requests) [
    | none ↦ (b, sent peer (error_message message (codes "unknown debugger request")) ∷ [])
    | some r ↦ (
      record b {
        requests = map_insert message.request_id (record r { pane = some peer }) b.requests;
      },
      [],
    )
  ]

  -- A message on the connection of a wrapper or of a pane, in the loop that reads it: one that is
  -- not valid, or is about another request, is passed over. `none` is a read that failed.
  unfoldable pub wrapper_message : Broker → Bytes → Option Message → Broker × List Effect
  wrapper_message b id none = cancel b id (codes "pwntools parent disconnected")
  wrapper_message b id (some message) = elim (validate_message b.session message) [
    | some text ↦ (b, [])
    | none ↦
        if not (bytes_eq message.request_id id) || not (bytes_eq message.kind (codes "cancel"))
        then (b, [])
        else cancel b id (codes "pwntools parent cancelled debugger")
  ]

  unfoldable pub pane_message : Broker → Bytes → Option Message → Broker × List Effect
  pane_message b id none = cancel b id (codes "debugger pane disconnected")
  pane_message b id (some message) = elim (validate_message b.session message) [
    | some text ↦ (b, [])
    | none ↦
        if not (bytes_eq message.request_id id) || not (bytes_eq message.kind (codes "exited"))
        then (b, [])
        else finish b id message
  ]
