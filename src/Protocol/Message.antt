-- ===== src/Protocol/Message.antt =====
-- internal/protocol/protocol.go: the messages that the broker exchanges. The payload is the raw JSON
-- text; an empty one is an absent one.
use pwnbridge.Prelude.Int.{ℤ}
use pwnbridge.Prelude.Text.{Bytes}

pub record Message : Type 0 where
  pub protocol : ℤ
  pub kind : Bytes  -- Type
  pub session_id : Bytes
  pub request_id : Bytes
  pub token : Bytes
  pub payload : Bytes

pub record RuntimeSpec : Type 0 where
  pub kind : Bytes
  pub engine : Bytes
  pub image : Bytes
  pub workdir : Bytes
  pub network : Bytes
  pub id : Bytes
  pub workspace : Bytes
  pub workspace_id : Bytes
  pub session_dir : Bytes

pub record ExitPayload : Type 0 where
  pub exit_code : ℤ  -- Code
  pub error : Bytes

pub record OpenPayload : Type 0 where
  pub title : Bytes
