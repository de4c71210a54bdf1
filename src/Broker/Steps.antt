-- ===== src/Broker/Steps.antt =====
-- The steps of the broker, and what holds after any of them.
use pwnbridge.Prelude.{
  ℕ, Bool, suc, ◌≤◌, ◌<◌, not, ◌||◌, ◌==◌, Option, none, some, ltb, leb, length, ◌≡◌, inl, inr,
  Bool-cases, Option-cases, arith,
}
use pwnbridge.Prelude.Map.{KeysDistinct, map_insert, map_lookup}
use pwnbridge.Prelude.Text.{Bytes, codes, bytes_eq}
use pwnbridge.Protocol.Message.{Message, ExitPayload}
use pwnbridge.Broker.{
  Request, Broker, admission, cancel, current_times, fail, finish, map_delete, max_panes,
  max_open_requests_per_minute, open_request, opened, pane_message, pane_started, wrapper_message,
  validate_message,
}
use pwnbridge.Broker.Dispatch.{Barrier, close, dispatch, handle_first}
use pwnbridge.Broker.Table.{
  KeysDistinct-delete, KeysDistinct-insert, length-delete, length-insert, length-insert_old,
}

-- There are at most eight requests, each with an id of its own.
abbrev pub IsValid : Broker → Type 0
IsValid b = (length b.requests ≤ max_panes) × KeysDistinct b.requests

module _ (payload : ExitPayload → Bytes) (parse_exit : Bytes → Option ExitPayload) where
  -- A step of the broker: any handler, at any time and with any message.
  pub data Step : Broker → Broker → Type 0 where
    opens :
        (b : Broker) (now peer : ℕ) (m : Message)
        → Step b (open_request payload parse_exit b now peer m).0
    opens_pane :
        (b : Broker) (id : Bytes) (serial handle : ℕ) (has_id : Bool)
        → Step b (opened payload parse_exit b id serial handle has_id).0
    starts :
        (b : Broker) (peer : ℕ) (m : Message) → Step b (pane_started payload parse_exit b peer m).0
    fails : (b : Broker) (id text : Bytes) → Step b (fail payload parse_exit b id text).0
    cancels : (b : Broker) (id reason : Bytes) → Step b (cancel payload parse_exit b id reason).0
    finishes : (b : Broker) (id : Bytes) (m : Message) → Step b (finish payload parse_exit b id m).0
    reads_wrapper :
        (b : Broker) (id : Bytes) (m : Option Message)
        → Step b (wrapper_message payload parse_exit b id m).0
    reads_pane :
        (b : Broker) (id : Bytes) (m : Option Message)
        → Step b (pane_message payload parse_exit b id m).0
    handles :
        (b : Broker) (quote : Bytes → Bytes) (now peer : ℕ) (barrier : Barrier) (m : Option Message)
        → Step b (handle_first payload parse_exit quote b now peer barrier m).0
    closes_all : (b : Broker) → Step b (close b).0

  delete-IsValid :
      (b : Broker) (id : Bytes)
      → IsValid b
      → IsValid (record b { requests = map_delete id b.requests })
  delete-IsValid b id (few, distinct) =
      (omega (arith, length-delete id b.requests), KeysDistinct-delete id b.requests distinct)

  replace-IsValid :
      (b : Broker) (id : Bytes) (r s : Request)
      → map_lookup id b.requests ≡ some r
      → IsValid b
      → IsValid (record b { requests = map_insert id s b.requests })
  replace-IsValid b id r s h (few, distinct) = (
    omega (arith, length-insert_old id s r b.requests h),
    KeysDistinct-insert id s b.requests distinct,
  )

  fail-IsValid :
      (b : Broker) (id text : Bytes) → IsValid b → IsValid (fail payload parse_exit b id text).0
  unfolding fail
  fail-IsValid b id text v = elim (Option-cases (map_lookup id b.requests)) [
    | inl e ↦ rw (e, fail) v
    | inr (r, e) ↦ rw (e, fail) (delete-IsValid b id v)
  ]

  cancel-IsValid :
      (b : Broker) (id text : Bytes) → IsValid b → IsValid (cancel payload parse_exit b id text).0
  unfolding cancel
  cancel-IsValid b id text v = elim (Option-cases (map_lookup id b.requests)) [
    | inl e ↦ rw (e, cancel) v
    | inr (r, e) ↦ rw (e, cancel) (delete-IsValid b id v)
  ]

  finish-IsValid :
      (b : Broker) (id : Bytes) (m : Message)
      → IsValid b
      → IsValid (finish payload parse_exit b id m).0
  unfolding finish
  finish-IsValid b id m v = elim (Option-cases (map_lookup id b.requests)) [
    | inl e ↦ rw (e, finish) v
    | inr (r, e) ↦ rw (e, finish) (delete-IsValid b id v)
  ]

  opened-IsValid :
      (b : Broker) (id : Bytes) (serial handle : ℕ) (has_id : Bool)
      → IsValid b
      → IsValid (opened payload parse_exit b id serial handle has_id).0
  unfolding opened
  opened-IsValid b id serial handle has_id v = elim (Option-cases (map_lookup id b.requests)) [
    | inl e ↦ rw (e, opened) v
    | inr (r, e) ↦ elim (Bool-cases (r.serial == serial)) [
      | inl k ↦ rw (e, k, opened) (replace-IsValid b id r _ e v)
      | inr k ↦ rw (e, k, opened) v
    ]
  ]

  pane_started-IsValid :
      (b : Broker) (peer : ℕ) (m : Message)
      → IsValid b
      → IsValid (pane_started payload parse_exit b peer m).0
  unfolding pane_started
  pane_started-IsValid b peer m v = elim (Option-cases (map_lookup m.request_id b.requests)) [
    | inl e ↦ rw (e, pane_started) v
    | inr (r, e) ↦ rw (e, pane_started) (replace-IsValid b m.request_id r _ e v)
  ]

  pub admission-few :
      (b : Broker) (now : ℕ) (id : Bytes)
      → admission b now id ≡ none
      → (length (current_times now b.open_times) < max_open_requests_per_minute)
        × (length b.requests < max_panes)
        × (map_lookup id b.requests ≡ none)
  unfolding admission
  admission-few b now id h =
      elim (Bool-cases
        (ltb max_open_requests_per_minute (suc (length (current_times now b.open_times))))) [
          | inl e ↦ cc (rw (e, admission) at h)
          | inr e ↦ elim (Bool-cases (leb max_panes (length b.requests))) [
            | inl k ↦ cc (rw (e, k, admission) at h)
            | inr k ↦ elim (Option-cases (map_lookup id b.requests)) [
              | inl l ↦ (ground arith, ground arith, l)
              | inr (r, l) ↦ cc (rw (e, k, l, admission) at h)
            ]
          ]
        ]

  open_request-IsValid :
      (b : Broker) (now peer : ℕ) (m : Message)
      → IsValid b
      → IsValid (open_request payload parse_exit b now peer m).0
  unfolding open_request
  open_request-IsValid b now peer m (few, distinct) =
      elim (Option-cases (admission b now m.request_id)) [
        | inl e ↦
            let (_, room, _) = admission-few b now m.request_id e in
            rw (e, open_request)
              (
                (omega (
                  arith,
                  length-insert m.request_id
                      (record { serial = b.next; wrapper = peer; pane = none; handle = none })
                      b.requests,
                )),
                KeysDistinct-insert m.request_id _ b.requests distinct,
              )
        | inr (text, e) ↦ rw (e, open_request) (few, distinct)
      ]

  wrapper_message-IsValid :
      (b : Broker) (id : Bytes) (m : Option Message)
      → IsValid b
      → IsValid (wrapper_message payload parse_exit b id m).0
  unfolding wrapper_message
  wrapper_message-IsValid b id none v = cancel-IsValid b id (codes "pwntools parent disconnected") v
  wrapper_message-IsValid b id (some m) v = elim (Option-cases (validate_message b.session m)) [
    | inr (text, e) ↦ rw (e, wrapper_message) v
    | inl e ↦
        elim (Bool-cases
          (not (bytes_eq m.request_id id) || not (bytes_eq m.kind (codes "cancel")))) [
            | inl k ↦ rw (e, k, wrapper_message) v
            | inr k ↦
                rw (e, k, wrapper_message)
                  (cancel-IsValid b id (codes "pwntools parent cancelled debugger") v)
          ]
  ]

  pane_message-IsValid :
      (b : Broker) (id : Bytes) (m : Option Message)
      → IsValid b
      → IsValid (pane_message payload parse_exit b id m).0
  unfolding pane_message
  pane_message-IsValid b id none v = cancel-IsValid b id (codes "debugger pane disconnected") v
  pane_message-IsValid b id (some m) v = elim (Option-cases (validate_message b.session m)) [
    | inr (text, e) ↦ rw (e, pane_message) v
    | inl e ↦
        elim (Bool-cases
          (not (bytes_eq m.request_id id) || not (bytes_eq m.kind (codes "exited")))) [
            | inl k ↦ rw (e, k, pane_message) v
            | inr k ↦ rw (e, k, pane_message) (finish-IsValid b id m v)
          ]
  ]

  dispatch-IsValid :
      (b : Broker) (quote : Bytes → Bytes) (now peer : ℕ) (barrier : Barrier) (m : Message)
      → IsValid b
      → IsValid (dispatch payload parse_exit quote b now peer barrier m).0
  unfolding dispatch
  dispatch-IsValid b quote now peer barrier m v =
      elim (Bool-cases (bytes_eq m.kind (codes "ping"))) [
        | inl e ↦ rw (e, dispatch) v
        | inr e ↦ elim (Bool-cases (bytes_eq m.kind (codes "barrier"))) [
          | inl k ↦ rw (e, k, dispatch) v
          | inr k ↦ elim (Bool-cases (bytes_eq m.kind (codes "open"))) [
            | inl l ↦ rw (e, k, l, dispatch) (open_request-IsValid b now peer m v)
            | inr l ↦ elim (Bool-cases (bytes_eq m.kind (codes "pane-started"))) [
              | inl n ↦ rw (e, k, l, n, dispatch) (pane_started-IsValid b peer m v)
              | inr n ↦ elim (Bool-cases (bytes_eq m.kind (codes "exited"))) [
                | inl o ↦ rw (e, k, l, n, o, dispatch) (finish-IsValid b m.request_id m v)
                | inr o ↦ rw (e, k, l, n, o, dispatch) v
              ]
            ]
          ]
        ]
      ]

  handle_first-IsValid :
      (b : Broker) (quote : Bytes → Bytes) (now peer : ℕ) (barrier : Barrier) (m : Option Message)
      → IsValid b
      → IsValid (handle_first payload parse_exit quote b now peer barrier m).0
  unfolding handle_first
  handle_first-IsValid b quote now peer barrier none v = v
  handle_first-IsValid b quote now peer barrier (some m) v =
      elim (Option-cases (validate_message b.session m)) [
        | inl e ↦ rw (e, handle_first) (dispatch-IsValid b quote now peer barrier m v)
        | inr (text, e) ↦ rw (e, handle_first) v
      ]

  close-IsValid : (b : Broker) → IsValid (close b).0
  unfolding close
  close-IsValid b = (omega arith, tt)

  -- Every step of the broker keeps its table valid: at most eight requests, each with an id of its
  -- own.
  pub Step-IsValid : (b c : Broker) → Step b c → IsValid b → IsValid c
  Step-IsValid b _ (opens _ now peer m) v = open_request-IsValid b now peer m v
  Step-IsValid b _ (opens_pane _ id serial handle has_id) v =
      opened-IsValid b id serial handle has_id v
  Step-IsValid b _ (starts _ peer m) v = pane_started-IsValid b peer m v
  Step-IsValid b _ (fails _ id text) v = fail-IsValid b id text v
  Step-IsValid b _ (cancels _ id reason) v = cancel-IsValid b id reason v
  Step-IsValid b _ (finishes _ id m) v = finish-IsValid b id m v
  Step-IsValid b _ (reads_wrapper _ id m) v = wrapper_message-IsValid b id m v
  Step-IsValid b _ (reads_pane _ id m) v = pane_message-IsValid b id m v
  Step-IsValid b _ (handles _ quote now peer barrier m) v =
      handle_first-IsValid b quote now peer barrier m v
  Step-IsValid b _ (closes_all _) v = close-IsValid b
