-- ===== src/Shell/Marker.antt =====
-- internal/shell/marker.go: the parser that cuts a terminal's output into data and prompt markers.
-- A marker is the parser's prefix, a status in decimal and a BEL byte.
use pwnbridge.Prelude.{
  ℕ, suc, zero, ◌+◌, ◌-◌, Bool, true, false, List, [], ◌∷◌, ◌++◌, Option, none, some, ltb, ◌==◌,
  if◌then◌else◌, length, take, drop, ◌≡◌, refl,
}
use Prim.Native.Nat.{min}
use pwnbridge.Prelude.Int.{ℤ, pos}
use pwnbridge.Prelude.Text.{Bytes, codes, bytes_eq, slice, index, index_byte, atoi}
pub mod Reference
pub mod Index
pub mod Refines
pub mod Chunks
pub mod Stream
mod Tests

pub record Event : Type 0 where
  pub bytes : Bytes  -- Data
  pub prompt : Bool
  pub status : ℤ

pub record MarkerParser : Type 0 where
  pub prefix : Bytes
  pub pending : Bytes

abbrev pub data_event : Bytes → Event
data_event d = record { bytes = d; prompt = false; status = pos 0 }

abbrev pub prompt_event : ℤ → Event
prompt_event st = record { bytes = []; prompt = true; status = st }

abbrev pub bel : ℕ
bel = 7

unfoldable pub new_marker_parser : Bytes → MarkerParser
new_marker_parser nonce = record {
  prefix = 27 ∷ codes "]777;pwnbridge;" ++ nonce ++ codes ";prompt;";
  pending = [];
}

-- `for size := limit; size > 0; size--`
unfoldable pub longest_suffix : ℕ → Bytes → Bytes → ℕ
longest_suffix zero d prefix = 0
longest_suffix (suc n) d prefix =
    let smaller = longest_suffix n d prefix in
    if bytes_eq (drop (length d - suc n) d) (take (suc n) prefix) then suc n else smaller

unfoldable pub suffix_prefix : Bytes → Bytes → ℕ
unfolding longest_suffix
suffix_prefix d prefix = longest_suffix (min (length prefix - 1) (length d)) d prefix

-- What `appendData` does to a non-empty slice of events: the last one grows, if it is data.
unfoldable pub extend_last : List Event → Bytes → List Event
extend_last [] d = data_event d ∷ []
extend_last (e ∷ []) d =
    if e.prompt then e ∷ data_event d ∷ [] else record e { bytes = e.bytes ++ d } ∷ []
extend_last (e ∷ e' ∷ es) d = e ∷ extend_last (e' ∷ es) d

unfoldable pub append_data : List Event → Bytes → List Event
unfolding extend_last
append_data events [] = events
append_data events (c ∷ d) = extend_last events (c ∷ d)

-- One round of the loop of `Feed`: it breaks or goes on, with the events and the pending bytes.
pub data Round : Type 0 where
  stop : List Event → Bytes → Round
  again : List Event → Bytes → Round

unfoldable pub read_status : Bytes → List Event → Bytes → Round
read_status prefix events pending = elim (index_byte (drop (length prefix) pending) bel) [
  | none ↦ stop events pending
  | some offset ↦
      let end = offset + length prefix in
      elim (atoi (slice pending (length prefix) end)) [
        | none ↦ again (append_data events (take 1 pending)) (drop 1 pending)
        | some st ↦ again (events ++ prompt_event st ∷ []) (drop (end + 1) pending)
      ]
]

unfoldable pub round : Bytes → List Event → Bytes → Round
round prefix events pending = elim (index pending prefix) [
  | none ↦
      let emit = length pending - suffix_prefix pending prefix in
      if ltb 0 emit
      then stop (append_data events (take emit pending)) (drop emit pending)
      else stop events pending
  | some i ↦
      if ltb 0 i
      then read_status prefix (append_data events (take i pending)) (drop i pending)
      else read_status prefix events pending
]

-- The loop on fuel; `none` means that the fuel ran out.
unfoldable pub feed_loop : ℕ → Bytes → List Event → Bytes → Option (List Event × Bytes)
feed_loop zero prefix events pending = none
feed_loop (suc fuel) prefix events pending = elim (round prefix events pending) [
  | stop es rest ↦ some (es, rest)
  | again es rest ↦ feed_loop fuel prefix es rest
]

-- `Feed`. A round that goes on takes at least one pending byte.
unfoldable pub feed : MarkerParser → Bytes → Option (List Event × MarkerParser)
feed p d = elim (feed_loop (suc (length (p.pending ++ d))) p.prefix [] (p.pending ++ d)) [
  | none ↦ none
  | some (es, rest) ↦ some (es, record p { pending = rest })
]

unfoldable pub flush : MarkerParser → Bytes × MarkerParser
flush p = (p.pending, record p { pending = [] })

-- The reads of the output loop of `Proxy.Run`, one `Feed` for each, with all their events.
unfoldable pub feed_all : MarkerParser → List Bytes → Option (List Event × MarkerParser)
feed_all m [] = some ([], m)
feed_all m (d ∷ ds) = elim (feed m d) [
  | none ↦ none
  | some (es, m') ↦ elim (feed_all m' ds) [ none ↦ none | some (fs, m'') ↦ some (es ++ fs, m'') ]
]
