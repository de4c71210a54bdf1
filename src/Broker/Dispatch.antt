-- ===== src/Broker/Dispatch.antt =====
-- internal/broker/broker.go: `handle`, which answers the first message of a connection, and `close`,
-- as far as it is about requests.
-- `quote` is the `%q` of package fmt. The barrier is absent, or it passes, or it gives an error.
use pwnbridge.Prelude.{List, [], ◌∷◌, ◌++◌, Bool, true, false, ℕ, Option, none, some, if◌then◌else◌}
use pwnbridge.Prelude.Map.{Map}
use pwnbridge.Prelude.Text.{Bytes, codes, bytes_eq}
use pwnbridge.Protocol.Message.{Message, ExitPayload}
use pwnbridge.Broker.{
  Broker, Effect, Request, sent, closed, hung_up, answer, error_message, finish, open_request,
  pane_started, validate_message,
}
pub mod Tokens

pub data Barrier : Type 0 where
  absent passes : Barrier
  blocks : Bytes → Barrier

module _ (payload : ExitPayload → Bytes) (parse_exit : Bytes → Option ExitPayload)
    (quote : Bytes → Bytes) where
  unfoldable pub barrier_reply : Broker → ℕ → Message → Barrier → List Effect
  barrier_reply b peer first (blocks text) =
      sent peer (error_message payload parse_exit first (codes "shell sync barrier: " ++ text)) ∷ []
  barrier_reply b peer first absent =
      sent peer (answer payload parse_exit b.session (codes "barrier-ok") [] []) ∷ []
  barrier_reply b peer first passes =
      sent peer (answer payload parse_exit b.session (codes "barrier-ok") [] []) ∷ []

  -- The switch on the type of a message that is valid.
  unfoldable pub dispatch : Broker → ℕ → ℕ → Barrier → Message → Broker × List Effect
  dispatch b now peer barrier first =
      if bytes_eq first.kind (codes "ping")
      then (b, sent peer (answer payload parse_exit b.session (codes "pong") [] []) ∷ [])
      else if bytes_eq first.kind (codes "barrier")
      then (b, barrier_reply b peer first barrier)
      else if bytes_eq first.kind (codes "open")
      then open_request payload parse_exit b now peer first
      else if bytes_eq first.kind (codes "pane-started")
      then pane_started payload parse_exit b peer first
      else if bytes_eq first.kind (codes "exited")
      then finish payload parse_exit b first.request_id first
      else (
        b,
        sent peer (
              error_message payload parse_exit first
                (codes "unsupported broker message " ++ quote first.kind))
            ∷ [],
      )

  -- The first message of a connection; `none` is a read that failed.
  unfoldable pub handle_first : Broker → ℕ → ℕ → Barrier → Option Message → Broker × List Effect
  handle_first b now peer barrier none = (b, [])
  handle_first b now peer barrier (some first) = elim (validate_message b.session first) [
    | some text ↦ (b, sent peer (error_message payload parse_exit first text) ∷ [])
    | none ↦ dispatch b now peer barrier first
  ]

abbrev hung_up_some : Option ℕ → List Effect
hung_up_some none = []
hung_up_some (some peer) = hung_up peer ∷ []

unfoldable pub hang_up_all : Map Request → List Effect
hang_up_all [] = []
hang_up_all ((id, r) ∷ m) = hung_up r.wrapper ∷ (hung_up_some r.pane ++ hang_up_all m)

abbrev pub close_some : Option ℕ → List Effect
close_some none = []
close_some (some handle) = closed handle ∷ []

unfoldable pub close_requests : Map Request → List Effect
close_requests [] = []
close_requests ((id, r) ∷ m) = close_some r.handle ++ close_requests m

-- What `close` does to the requests: their connections end, and their panes are closed. The
-- listeners and the connections without a request, which it closes too, are left out.
unfoldable pub close : Broker → Broker × List Effect
close b = (record b { requests = [] }, hang_up_all b.requests ++ close_requests b.requests)
