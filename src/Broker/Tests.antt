-- ===== src/Broker/Tests.antt =====
-- Witnesses of the theorems on the broker.
use pwnbridge.Prelude.{
  ◌≤◌, ◌<◌, true, false, [], ◌∷◌, ◌++◌, Option, none, some, length, ◌≡◌, ◌⊎◌, refl, arith,
}
use pwnbridge.Prelude.Int.{pos}
use pwnbridge.Prelude.Text.{Bytes, codes, bytes_eq}
use pwnbridge.Prelude.Map.{map_lookup}
use pwnbridge.Protocol.Message.{Message, ExitPayload}
use pwnbridge.Broker.{
  SessionRecord, Broker, Effect, Request, admission, max_panes, max_open_requests_per_minute,
  open_request, opened, finish, cancel, sent,
}
use pwnbridge.Broker.Session.{shell_quote}
use pwnbridge.Broker.Session.Quoting.{shell_word, outside, shell_word-shell_quote}
use pwnbridge.Broker.Dispatch.{absent, handle_first}
use pwnbridge.Broker.Dispatch.Tokens.{handle_first_unauthenticated}
use pwnbridge.Broker.Steps.{IsValid, opens, Step-IsValid}
use pwnbridge.Broker.Endings.{finish-once, open_request_lem, recent}

abbrev no_payload : ExitPayload → Bytes
no_payload p = p.error

abbrev no_exit : Bytes → Option ExitPayload
no_exit s = none

abbrev session : SessionRecord
session = record {
  schema = pos 1;
  owner_pid = pos 7;
  id = codes "sess-0001";
  token = codes "secret";
  local_socket = [];
  local_tcp = [];
  remote_socket = [];
  control_path = [];
  destination = [];
  agent_path = [];
  remote_session_dir = [];
  local_workspace = [];
  executable = [];
  record_path = [];
  lease_path = [];
  provider = codes "auto";
  placement = codes "right";
  size = codes "50%";
  focus = true;
  close_on_success = true;
  hold_on_failure = true;
  zellij_near_current_pane = true;
  zellij_direction = codes "right";
  zellij_floating = false;
  tmux_direction = codes "horizontal";
  tmux_size = codes "50%";
  runtime = record {
    kind = codes "host";
    engine = [];
    image = [];
    workdir = [];
    network = [];
    id = [];
    workspace = codes "/w";
    workspace_id = [];
    session_dir = [];
  };
}

-- A broker with one debugger in a pane.
abbrev busy : Broker
busy = record {
  session = session;
  requests =
      (codes "request-1", record { serial = 0; wrapper = 1; pane = some 2; handle = some 9 }) ∷ [];
  open_times = 5 ∷ [];
  next = 1;
}

abbrev message : Message
message = record {
  protocol = pos 4;
  kind = codes "open";
  session_id = codes "sess-0001";
  request_id = codes "request-2";
  token = codes "secret";
  payload = codes "x";
}

busy-IsValid : IsValid busy
unfolding map_lookup
busy-IsValid = (omega arith, (refl, tt))

Step-IsValid_example : IsValid ((open_request no_payload no_exit busy 7 3 message).0)
Step-IsValid_example =
    Step-IsValid no_payload no_exit busy (open_request no_payload no_exit busy 7 3 message).0
      (opens busy 7 3 message) busy-IsValid

finish-once_example :
    (finish no_payload no_exit
        (finish no_payload no_exit busy (codes "request-1") message).0
        (codes "request-1")
        message
      ≡ ((finish no_payload no_exit busy (codes "request-1") message).0, []))
    × (cancel no_payload no_exit
          (finish no_payload no_exit busy (codes "request-1") message).0
          (codes "request-1")
          (codes "gone")
        ≡ ((finish no_payload no_exit busy (codes "request-1") message).0, []))
    × (finish no_payload no_exit
          (cancel no_payload no_exit busy (codes "request-1") (codes "gone")).0
          (codes "request-1")
          message
        ≡ ((cancel no_payload no_exit busy (codes "request-1") (codes "gone")).0, []))
    × (cancel no_payload no_exit
          (cancel no_payload no_exit busy (codes "request-1") (codes "gone")).0
          (codes "request-1")
          (codes "lost")
        ≡ ((cancel no_payload no_exit busy (codes "request-1") (codes "gone")).0, []))
    × ((opened no_payload no_exit
          (cancel no_payload no_exit busy (codes "request-1") (codes "gone")).0
          (codes "request-1")
          0
          9
          true).1
        ≡ Effect.closed 9 ∷ [])
finish-once_example =
    finish-once no_payload no_exit busy (codes "request-1") (codes "gone") (codes "lost") message
      message 0 9 true

shell_word-shell_quote_example :
    shell_word outside (shell_quote (codes "it's")) ≡ some (codes "it's")
shell_word-shell_quote_example = shell_word-shell_quote (codes "it's")

open_request_lem_example :
    let out = open_request no_payload no_exit busy 7 3 message in
    (((admission busy 7 message.request_id ≡ none)
        × (out.1 ≡ [])
        × (map_lookup message.request_id busy.requests ≡ none)
        × (map_lookup message.request_id out.0.requests
            ≡ some (record { serial = busy.next; wrapper = 3; pane = none; handle = none }))
        × (length busy.requests < max_panes)
        × (recent 7 (busy.open_times ++ 7 ∷ []) ≤ max_open_requests_per_minute))
      ⊎ ((length out.1 ≡ 1)
          × (out.0.requests ≡ busy.requests)
          × ((max_open_requests_per_minute ≤ length busy.open_times)
              ⊎ (max_panes ≤ length busy.requests)
              ⊎ (r : Request) × (map_lookup message.request_id busy.requests ≡ some r))))
    × (recent 9 out.0.open_times ≡ recent 9 (busy.open_times ++ 7 ∷ []))
open_request_lem_example = open_request_lem no_payload no_exit busy 7 9 3 message (omega arith)

abbrev no_quotes : Bytes → Bytes
no_quotes s = s

-- A message that opens a debugger with a token that is not the session's.
abbrev forged : Message
forged = record message { token = codes "guess" }

forged_token : bytes_eq forged.token busy.session.token ≡ false
unfolding bytes_eq
forged_token = refl

handle_first_unauthenticated_example :
    (reply : Message) × (handle_first no_payload no_exit no_quotes busy 7 3 absent (some forged)
      ≡ (busy, sent 3 reply ∷ []))
    × (reply.token ≡ forged.token)
    × (reply.session_id ≡ forged.session_id)
handle_first_unauthenticated_example =
    handle_first_unauthenticated no_payload no_exit no_quotes busy 7 3 absent forged forged_token
