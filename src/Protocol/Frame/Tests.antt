-- ===== src/Protocol/Frame/Tests.antt =====
-- Witnesses of the theorems on frames, with values that are single bytes.
use pwnbridge.Prelude.{ℕ, ◌≤◌, ◌<◌, [], ◌∷◌, ◌++◌, some, length, take, ◌≡◌, refl, arith}
use pwnbridge.Prelude.Result.{ok, err}
use pwnbridge.Prelude.Text.{Bytes, All}
use pwnbridge.Protocol.Frame.{
  short_read, JsonRead, value, eof, Json, max_frame, put_uint32, decode_strict_json, encode, decode,
}
use pwnbridge.Protocol.Frame.Laws.{
  RoundTrips, IsByte, decode-encode, decode_sound, decode_truncated,
}

-- A value is a byte, and its text is that byte.
read_byte : Bytes → JsonRead ℕ
read_byte [] = eof
read_byte (c ∷ s) = value c s

read_something : Bytes → JsonRead (Unit {0})
read_something [] = eof
read_something (c ∷ s) = value tt s

abbrev byte_json : Json ℕ
byte_json = record {
  marshal = λ v. some (v ∷ []);
  read_value = read_byte;
  read_any = read_something;
}

byte_not_empty : (v : ℕ) (d : Bytes) → some (v ∷ []) ≡ some d → 0 < length d
byte_not_empty v [] h = cc h
byte_not_empty v (c ∷ d) h = omega arith

byte_reads_back : (v : ℕ) (d : Bytes) → some (v ∷ []) ≡ some d → read_byte d ≡ value v []
unfolding read_byte
byte_reads_back v [] h = cc h
byte_reads_back v (c ∷ d) h = cc h

byte_ends : read_something [] ≡ eof
unfolding read_something
byte_ends = refl

byte_json-RoundTrips : RoundTrips byte_json
byte_json-RoundTrips = record {
  not_empty = byte_not_empty;
  reads_back = byte_reads_back;
  ends = byte_ends;
}

abbrev frame : Bytes
frame = 0 ∷ 0 ∷ 0 ∷ 1 ∷ 65 ∷ []

encode_65 : encode byte_json 65 ≡ ok frame
unfolding encode put_uint32
encode_65 = refl

decode-frame : decode byte_json (frame ++ 66 ∷ []) ≡ ok (65, 66 ∷ [])
decode-frame = decode-encode byte_json byte_json-RoundTrips 65 frame (66 ∷ []) encode_65

frame_bytes : All IsByte (frame ++ 66 ∷ [])
frame_bytes =
    (omega arith, (omega arith, (omega arith, (omega arith, (omega arith, (omega arith, tt))))))

decode-encode_example : decode byte_json (frame ++ (66 ∷ [])) ≡ ok (65, (66 ∷ []))
decode-encode_example = decode-encode byte_json byte_json-RoundTrips 65 frame (66 ∷ []) encode_65

decode_sound_example :
    (d : Bytes) × ((frame ++ 66 ∷ []) ≡ put_uint32 (length d) ++ (d ++ (66 ∷ [])))
    × (0 < length d)
    × (length d ≤ max_frame)
    × (decode_strict_json byte_json d ≡ ok 65)
decode_sound_example =
    decode_sound byte_json (frame ++ 66 ∷ []) 65 (66 ∷ []) frame_bytes decode-frame

decode_truncated_example : decode byte_json (take 3 frame) ≡ err short_read
decode_truncated_example =
    decode_truncated byte_json byte_json-RoundTrips 65 frame 3 encode_65 (omega arith)
