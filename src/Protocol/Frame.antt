-- ===== src/Protocol/Frame.antt =====
-- internal/protocol/protocol.go: Encode and Decode, a JSON text behind its length in four bytes,
-- and the strict reading of one JSON value. The JSON package is an argument: `marshal` is
-- json.Marshal, `read_value` and `read_any` are Decoder.Decode with unknown fields refused, into
-- the message's type and into any value. The reader is the list of the bytes still to come, and
-- the writer accepts all that it is given.
use pwnbridge.Prelude.{
  ℕ, suc, zero, ◌+◌, ◌*◌, ◌/◌, ◌%◌, ◌^◌, Bool, ◌||◌, List, [], ◌∷◌, ◌++◌, ◌==◌, ltb, if◌then◌else◌,
  Option, none, some, length, ◌≡◌,
}
use pwnbridge.Prelude.Result.{Result, ok, err, ◌>>=◌}
use pwnbridge.Prelude.Text.{Bytes}
pub mod Laws
mod Tests

pub data Error : Type 0 where
  marshal_failed frame_too_large short_read invalid_frame_size malformed trailing_data
        trailing_value :
      Error

-- What json.Decoder.Decode finds: a value with the bytes behind it, the end of the input, or a
-- syntax error, a value of another type or an unknown field.
pub data JsonRead {ℓ} (A : Type ℓ) : Type ℓ where
  value : A → Bytes → JsonRead A
  eof : JsonRead A
  bad : JsonRead A

pub record Json {ℓ} (V : Type ℓ) : Type ℓ where
  pub marshal : V → Option Bytes
  pub read_value : Bytes → JsonRead V
  pub read_any : Bytes → JsonRead (Unit {0})

abbrev pub max_frame : ℕ
max_frame = 2 ^ 20

-- binary.BigEndian.PutUint32 and Uint32.
unfoldable pub put_uint32 : ℕ → Bytes
put_uint32 n = n / 2 ^ 24 % 256 ∷ n / 2 ^ 16 % 256 ∷ n / 2 ^ 8 % 256 ∷ n % 256 ∷ []

unfoldable pub uint32 : Bytes → ℕ
uint32 (a ∷ b ∷ c ∷ d ∷ s) = a * 2 ^ 24 + b * 2 ^ 16 + c * 2 ^ 8 + d
uint32 s = 0

-- io.ReadFull: so many bytes and the rest, or an error if there are fewer.
unfoldable pub read_full : ℕ → Bytes → Result Error (Bytes × Bytes)
read_full zero s = ok ([], s)
read_full (suc n) [] = err short_read
read_full (suc n) (c ∷ s) = do (d, rest) ← read_full n s; ok (c ∷ d, rest)

module _ {ℓ} {V : Type ℓ} (j : Json V) where
  unfoldable pub decode_strict_json : Bytes → Result Error V
  decode_strict_json d = elim (j.read_value d) [
    | eof ↦ err malformed
    | bad ↦ err malformed
    | value v rest ↦ elim (j.read_any rest) [
      | eof ↦ ok v
      | bad ↦ err trailing_data
      | value _ _ ↦ err trailing_value
    ]
  ]

  unfoldable pub encode : V → Result Error Bytes
  encode v = elim (j.marshal v) [
    | none ↦ err marshal_failed
    | some d ↦
        if ltb max_frame (length d)
        then err frame_too_large
        else ok (put_uint32 (length d % 2 ^ 32) ++ d)
  ]

  -- `Decode` behind the reading of the size.
  unfoldable pub decode_body : ℕ → Bytes → Result Error (V × Bytes)
  decode_body n s =
      if n == 0 || ltb max_frame n
      then err invalid_frame_size
      else (do (d, rest) ← read_full n s; v ← decode_strict_json d; ok (v, rest))

  unfoldable pub decode : Bytes → Result Error (V × Bytes)
  decode s = do (size, rest) ← read_full 4 s; decode_body (uint32 size) rest

  -- ParsePayload: an absent payload gives the zero value.
  unfoldable pub parse_payload : V → Bytes → Result Error V
  parse_payload zero_value [] = ok zero_value
  parse_payload zero_value (c ∷ payload) = decode_strict_json (c ∷ payload)
