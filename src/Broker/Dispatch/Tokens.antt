-- ===== src/Broker/Dispatch/Tokens.antt =====
-- What a peer without the token of the session can do to the broker.
use pwnbridge.Prelude.{[], ◌∷◌, false, ℕ, Option, some, ◌≡◌, refl, inl, inr, Bool-cases}
use pwnbridge.Prelude.Text.{Bytes, codes, bytes_eq}
use pwnbridge.Protocol.Message.{Message, ExitPayload}
use pwnbridge.Config.Layers.{ℤ_eq}
use pwnbridge.Broker.{
  Broker, SessionRecord, protocol_version, sent, validate_message, error_message,
}
use pwnbridge.Broker.Dispatch.{Barrier, handle_first}

validate_wrong_token :
    (s : SessionRecord) (m : Message)
    → bytes_eq m.token s.token ≡ false
    → (text : Bytes) × (validate_message s m ≡ some text)
unfolding validate_message
validate_wrong_token s m h = elim (Bool-cases (ℤ_eq m.protocol protocol_version)) [
  | inl e ↦ (codes "broker authentication failed", rw (e, h, validate_message) refl)
  | inr e ↦ (codes "broker protocol mismatch", rw (e, validate_message) refl)
]

module _ (payload : ExitPayload → Bytes) (parse_exit : Bytes → Option ExitPayload)
    (quote : Bytes → Bytes) where
  -- A peer whose first message has another token than the session's changes nothing in the broker,
  -- whatever else the message says. It gets one answer, which carries the token and the session id
  -- that it sent itself.
  pub handle_first_unauthenticated :
      (b : Broker) (now peer : ℕ) (barrier : Barrier) (first : Message)
      → bytes_eq first.token b.session.token ≡ false
      → (reply : Message) × (handle_first payload parse_exit quote b now peer barrier (some first)
          ≡ (b, sent peer reply ∷ []))
        × (reply.token ≡ first.token)
        × (reply.session_id ≡ first.session_id)
  unfolding handle_first error_message
  handle_first_unauthenticated b now peer barrier first h =
      let (text, refused) = validate_wrong_token b.session first h in
      (error_message payload parse_exit first text, rw (refused, handle_first) refl, refl, refl)
