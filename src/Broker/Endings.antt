-- ===== src/Broker/Endings.antt =====
-- How a request is taken and how it ends.
use pwnbridge.Prelude.{
  ℕ, suc, ◌+◌, Bool, true, false, ltb, leb, if◌then◌else◌, Bool-cases, List, ◌++◌, ◌≤◌, ◌<◌, [],
  ◌∷◌, Option, none, some, length, ◌≡◌, ◌⊎◌, inl, inr, refl, Option-cases, arith,
}
use pwnbridge.Prelude.Map.{map_lookup}
use pwnbridge.Prelude.Text.{Bytes}
use pwnbridge.Protocol.Message.{Message, ExitPayload}
use pwnbridge.Broker.{
  Broker, Effect, Request, minute, admission, cancel, current_times, finish, max_panes,
  max_open_requests_per_minute, open_request, opened,
}
use pwnbridge.Broker.Steps.{admission-few}
use pwnbridge.Broker.Table.{lookup-delete, lookup-insert_self}

-- How many of the times are not more than a minute before `now`.
unfoldable pub recent : ℕ → List ℕ → ℕ
recent now [] = 0
recent now (t ∷ times) =
    let rest = recent now times in if leb now (t + minute) then suc rest else rest

recent-append :
    (now : ℕ) (times : List ℕ) (t : ℕ) → recent now (times ++ t ∷ []) ≤ suc (recent now times)
unfolding recent
recent-append now [] t = ground arith
recent-append now (u ∷ times) t = ground (arith, recent-append now times t)

old-unrecent :
    (now later t : ℕ) → now ≤ later → ltb (t + minute) now ≡ true → leb later (t + minute) ≡ false
old-unrecent now later t h old = ground arith

recent-all : (now : ℕ) (times : List ℕ) → recent now times ≤ length times
unfolding recent
recent-all now [] = omega arith
recent-all now (t ∷ times) = ground (arith, recent-all now times)

-- No recent time is dropped.
recent-length : (now : ℕ) (times : List ℕ) → recent now times ≤ length (current_times now times)
unfolding recent current_times
recent-length now [] = omega arith
recent-length now (t ∷ times) =
    let all = recent-all now times in
    let later = recent-length now times in
    elim (Bool-cases (ltb (t + minute) now)) [
      | inl old ↦ rw (old, old-unrecent now now t (omega arith) old) later
      | inr fresh ↦ rw fresh (ground arith)
    ]

current_times-length : (now : ℕ) (times : List ℕ) → length (current_times now times) ≤ length times
unfolding current_times
current_times-length now [] = omega arith
current_times-length now (t ∷ times) = ground (arith, current_times-length now times)

recent-recorded :
    (now later : ℕ) (times : List ℕ)
    → now ≤ later
    → recent later (current_times now times ++ now ∷ []) ≡ recent later (times ++ now ∷ [])
unfolding recent current_times
recent-recorded now later [] h = refl
recent-recorded now later (t ∷ times) h = elim (Bool-cases (ltb (t + minute) now)) [
  | inl old ↦ rw (old, old-unrecent now later t h old) (recent-recorded now later times h)
  | inr fresh ↦ rw fresh refl
]

admission-refused :
    (b : Broker) (now : ℕ) (id text : Bytes)
    → admission b now id ≡ some text
    → (max_open_requests_per_minute ≤ length b.open_times)
      ⊎ (max_panes ≤ length b.requests)
      ⊎ (r : Request) × (map_lookup id b.requests ≡ some r)
unfolding admission
admission-refused b now id text h =
    let short = current_times-length now b.open_times in
    elim (Bool-cases
      (ltb max_open_requests_per_minute (suc (length (current_times now b.open_times))))) [
        | inl e ↦ inl (ground arith)
        | inr e ↦ elim (Bool-cases (leb max_panes (length b.requests))) [
          | inl k ↦ inr (inl (ground arith))
          | inr k ↦ elim (Option-cases (map_lookup id b.requests)) [
            | inl l ↦ cc (rw (e, k, l, admission) at h)
            | inr (r, l) ↦ inr (inr (r, l))
          ]
        ]
      ]

module _ (payload : ExitPayload → Bytes) (parse_exit : Bytes → Option ExitPayload) where
  -- The id has no request.
  abbrev Settled : Broker → Bytes → Type 0
  Settled b id = map_lookup id b.requests ≡ none

  finish-Settled :
      (b : Broker) (id : Bytes) (m : Message) → Settled (finish payload parse_exit b id m).0 id
  unfolding finish
  finish-Settled b id m = elim (Option-cases (map_lookup id b.requests)) [
    | inl e ↦ rw (e, finish) e
    | inr (r, e) ↦ rw (e, finish) (lookup-delete id b.requests)
  ]

  cancel-Settled :
      (b : Broker) (id reason : Bytes) → Settled (cancel payload parse_exit b id reason).0 id
  unfolding cancel
  cancel-Settled b id reason = elim (Option-cases (map_lookup id b.requests)) [
    | inl e ↦ rw (e, cancel) e
    | inr (r, e) ↦ rw (e, cancel) (lookup-delete id b.requests)
  ]

  Settled-finish :
      (b : Broker) (id : Bytes) (m : Message)
      → Settled b id
      → finish payload parse_exit b id m ≡ (b, [])
  unfolding finish
  Settled-finish b id m h = rw (h, finish) refl

  Settled-cancel :
      (b : Broker) (id reason : Bytes)
      → Settled b id
      → cancel payload parse_exit b id reason ≡ (b, [])
  unfolding cancel
  Settled-cancel b id reason h = rw (h, cancel) refl

  -- A request ends once. After `finish`, and likewise after `cancel`, neither `finish` nor
  -- `cancel` changes, sends or closes anything for its id, and a pane that the provider opens
  -- after a `cancel` is closed.
  pub finish-once :
      (b : Broker) (id reason other : Bytes) (m n : Message) (serial handle : ℕ) (has_id : Bool)
      → (finish payload parse_exit (finish payload parse_exit b id m).0 id n
          ≡ ((finish payload parse_exit b id m).0, []))
        × (cancel payload parse_exit (finish payload parse_exit b id m).0 id reason
            ≡ ((finish payload parse_exit b id m).0, []))
        × (finish payload parse_exit (cancel payload parse_exit b id reason).0 id n
            ≡ ((cancel payload parse_exit b id reason).0, []))
        × (cancel payload parse_exit (cancel payload parse_exit b id reason).0 id other
            ≡ ((cancel payload parse_exit b id reason).0, []))
        × ((opened payload parse_exit
              (cancel payload parse_exit b id reason).0
              id
              serial
              handle
              has_id).1
            ≡ Effect.closed handle ∷ [])
  unfolding opened
  finish-once b id reason other m n serial handle has_id = (
    Settled-finish (finish payload parse_exit b id m).0 id n (finish-Settled b id m),
    Settled-cancel (finish payload parse_exit b id m).0 id reason (finish-Settled b id m),
    Settled-finish (cancel payload parse_exit b id reason).0 id n (cancel-Settled b id reason),
    Settled-cancel (cancel payload parse_exit b id reason).0 id other (cancel-Settled b id reason),
    rw (cancel-Settled b id reason, opened) refl,
  )

  -- A new request is either taken without an answer, or refused with one and the table left as it
  -- is. One that is taken is the request of its id, which had none, and there were less than eight
  -- others, and with it at most thirty-two requests opened or refused that are not more than a
  -- minute old. One that is refused meets thirty-two recorded times, or eight requests, or a request
  -- of its id. Either way its time is recorded, and at any later time the record holds as many
  -- times that are not more than a minute old as if no time had been dropped from it.
  pub open_request_lem :
      (b : Broker) (now later peer : ℕ) (m : Message)
      → now ≤ later
      → (((admission b now m.request_id ≡ none)
            × ((open_request payload parse_exit b now peer m).1 ≡ [])
            × (map_lookup m.request_id b.requests ≡ none)
            × (map_lookup m.request_id (open_request payload parse_exit b now peer m).0.requests
                ≡ some (record { serial = b.next; wrapper = peer; pane = none; handle = none }))
            × (length b.requests < max_panes)
            × (recent now (b.open_times ++ now ∷ []) ≤ max_open_requests_per_minute))
          ⊎ ((length (open_request payload parse_exit b now peer m).1 ≡ 1)
              × ((open_request payload parse_exit b now peer m).0.requests ≡ b.requests)
              × ((max_open_requests_per_minute ≤ length b.open_times)
                  ⊎ (max_panes ≤ length b.requests)
                  ⊎ (r : Request) × (map_lookup m.request_id b.requests ≡ some r))))
        × (recent later (open_request payload parse_exit b now peer m).0.open_times
            ≡ recent later (b.open_times ++ now ∷ []))
  unfolding open_request
  open_request_lem b now later peer m after = elim (Option-cases (admission b now m.request_id)) [
    | inl e ↦
        let (rate, room, fresh) = admission-few payload parse_exit b now m.request_id e in
        (
          inl (
            e,
            rw (e, open_request) refl,
            fresh,
            rw (e, open_request) (lookup-insert_self m.request_id _ b.requests),
            room,
            omega (arith, recent-append now b.open_times now, recent-length now b.open_times),
          ),
          rw (e, open_request) (recent-recorded now later b.open_times after),
        )
    | inr (text, e) ↦ (
      inr (
        rw (e, open_request) refl,
        rw (e, open_request) refl,
        admission-refused b now m.request_id text e,
      ),
      rw (e, open_request) (recent-recorded now later b.open_times after),
    )
  ]
