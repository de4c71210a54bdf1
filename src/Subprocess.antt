-- ===== src/Subprocess.antt =====
-- internal/subprocess/subprocess.go: output of a command that is drained in full and kept in part.
-- An int64 is its bit pattern. A limit is positive, as Capture and NewDiagnosticWriter see to.
use pwnbridge.Prelude.{
  ℕ, zero, suc, ◌+◌, ◌-◌, ◌^◌, ◌%◌, Bool, true, false, not, ◌&&◌, ◌||◌, List, [], ◌∷◌, ◌++◌, Option,
  none, some, ltb, leb, ◌==◌, if◌then◌else◌, length, drop, take,
}
use pwnbridge.Prelude.Text.{Bytes}
use Prim.Native.Nat.{min}
pub mod Ring
mod Tests
pub mod Kept
pub mod Capture

pub record BoundedWriter : Type 0 where
  bytes : Bytes
  limit : ℕ
  tail : Bool
  total : ℕ
  next : ℕ

unfoldable pub new_bounded_writer : ℕ → Bool → BoundedWriter
new_bounded_writer limit tail = record {
  bytes = [];
  limit = limit;
  tail = tail;
  total = 0;
  next = 0;
}

-- `w.total += int64(length)`
unfoldable pub tally : BoundedWriter → Bytes → BoundedWriter
tally w piece = record w { total = (w.total + length piece) % 2 ^ 64 }

-- `w.data = append(w.data, data[:remaining]...)`, with as many bytes as there is room for.
unfoldable pub fill : BoundedWriter → Bytes → BoundedWriter
fill w piece = record w { bytes = w.bytes ++ take (w.limit - length w.bytes) piece }

-- `copy(w.data[w.next:], data)`
unfoldable pub overwrite : Bytes → ℕ → Bytes → Bytes
overwrite kept next piece =
    let written = min (length kept - next) (length piece) in
    take next kept ++ take written piece ++ drop (next + written) kept

-- `w.next = (w.next + written) % w.limit`, behind the copy.
unfoldable pub turn : BoundedWriter → Bytes → BoundedWriter
turn w piece = record w {
  bytes = overwrite w.bytes w.next piece;
  next = (w.next + min (length w.bytes - w.next) (length piece)) % w.limit;
}

-- The loop of a tail writer, in at most so many rounds; `none` when these are not enough.
unfoldable pub ring_loop : ℕ → BoundedWriter → Bytes → Option BoundedWriter
ring_loop fuel w [] = some w
ring_loop zero w (c ∷ piece) = none
ring_loop (suc fuel) w (c ∷ piece) =
    ring_loop fuel (turn w (c ∷ piece))
      (drop (min (length w.bytes - w.next) (length (c ∷ piece))) (c ∷ piece))

-- `if remaining := w.limit - len(w.data); remaining > 0`, and what is left to write behind it.
unfoldable pub fill_tail : BoundedWriter → Bytes → BoundedWriter × Bytes
fill_tail w piece =
    let filled = fill w piece in
    if ltb (length w.bytes) w.limit
    then (
      (if length filled.bytes == w.limit then record filled { next = 0 } else filled),
      drop (w.limit - length w.bytes) piece,
    )
    else (w, piece)

-- A round takes a byte at least, so the length of the piece is enough fuel.
unfoldable pub bounded_write : BoundedWriter → Bytes → Option BoundedWriter
bounded_write w piece =
    if w.tail
    then (let (filled, rest) = fill_tail (tally w piece) piece in
        ring_loop (length rest) filled rest)
    else some (fill (tally w piece) piece)

-- `w.total > int64(w.limit)`
unfoldable pub over_limit : BoundedWriter → Bool
over_limit w = ltb w.total (2 ^ 63) && ltb w.limit w.total

-- `none` is the panic of a slice with a negative bound.
unfoldable pub snapshot : BoundedWriter → Option (Bytes × Bool)
snapshot w =
    if not w.tail
    then some (w.bytes, over_limit w)
    else if leb (2 ^ 63) w.total
    then none
    else if over_limit w
    then some (drop w.next w.bytes ++ take w.next w.bytes, true)
    else if min w.total w.limit == 0
    then some ([], false)
    else some (take (min w.total w.limit) w.bytes, false)

-- All writes of a stream, in their order.
unfoldable pub write_all : BoundedWriter → List Bytes → Option BoundedWriter
write_all w [] = some w
write_all w (piece ∷ pieces) = elim (bounded_write w piece) [
  | none ↦ none
  | some after ↦ write_all after pieces
]
