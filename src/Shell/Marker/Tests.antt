-- ===== src/Shell/Marker/Tests.antt =====
-- Runs of the marker parser, and the witnesses of its theorems.
use pwnbridge.Prelude.{List, [], ◌∷◌, ◌++◌, some, ◌≡◌, refl, arith}
use pwnbridge.Prelude.Int.{pos}
use pwnbridge.Prelude.Text.{
  concat, Bytes, codes, atoi, has_prefix, index, slice, index_byte, bytes_eq,
}
use mathlib.Core.List.{map}
use pwnbridge.Shell.Marker.{
  Event, MarkerParser, feed_all, bel, feed_loop, round, read_status, append_data, feed, data_event,
  prompt_event, suffix_prefix,
}
use pwnbridge.Shell.Marker.Reference.{verdict, reference, tokens, byte, prompt}
use pwnbridge.Shell.Marker.Refines.{feed-reference}
use pwnbridge.Shell.Marker.Chunks.{feed_all-concat}
use pwnbridge.Shell.Marker.Stream.{Decodes, feed-Decodes, feed_marker}

abbrev parser : MarkerParser
parser = record { prefix = codes "<p;"; pending = [] }

abbrev stream : Bytes
stream = codes "ab<p;12" ++ 7 ∷ codes "cd<p;x" ++ 7 ∷ codes "e<p"

feed-stream :
    feed parser stream
    ≡ some (
      data_event (codes "ab")
          ∷ prompt_event (pos 12)
          ∷ data_event (codes "cd<p;x" ++ 7 ∷ codes "e")
          ∷ [],
      record parser { pending = codes "<p" },
    )
unfolding feed feed_loop round read_status index index_byte slice append_data suffix_prefix atoi
    has_prefix bytes_eq
feed-stream = refl

reference-stream : (reference (codes "<p;") 0 stream).1 ≡ codes "<p"
unfolding reference verdict atoi has_prefix index_byte
reference-stream = refl

feed-reference_example :
    (es : List Event) × (feed parser stream
      ≡ some (
        es,
        record parser { pending = (reference parser.prefix 0 (parser.pending ++ stream)).1 },
      ))
    × (tokens es ≡ (reference parser.prefix 0 (parser.pending ++ stream)).0)
feed-reference_example = feed-reference parser stream (omega arith)

feed_all-concat_example :
    (es fs : List Event) × (m' : MarkerParser) × (feed_all parser
        (codes "a<p" ∷ codes ";4" ∷ (7 ∷ []) ∷ [])
      ≡ some (es, m'))
    × (feed parser (concat (codes "a<p" ∷ codes ";4" ∷ (7 ∷ []) ∷ [])) ≡ some (fs, m'))
    × (tokens es ≡ tokens fs)
feed_all-concat_example =
    feed_all-concat parser (codes "a<p" ∷ codes ";4" ∷ (7 ∷ []) ∷ []) (omega arith) refl

feed-Decodes_example :
    (es : List Event) × (m' : MarkerParser) × (feed parser stream ≡ some (es, m'))
    × Decodes parser.prefix (parser.pending ++ stream) (tokens es) m'.pending
feed-Decodes_example = feed-Decodes parser stream (omega arith)

status_text : atoi (codes "12") ≡ some (pos 12)
unfolding atoi
status_text = refl

feed_marker_example :
    (es fs : List Event) × (m' : MarkerParser) × (feed
        (record { prefix = b'<' ∷ (codes "p;"); pending = [] })
        ((codes "ab") ++ ((b'<' ∷ (codes "p;")) ++ ((codes "12") ++ bel ∷ (codes "cd"))))
      ≡ some (es, m'))
    × (feed (record { prefix = b'<' ∷ (codes "p;"); pending = [] }) (codes "cd") ≡ some (fs, m'))
    × (tokens es ≡ map byte (codes "ab") ++ prompt (pos 12) ∷ tokens fs)
feed_marker_example =
    feed_marker b'<' (codes "p;") (codes "ab") (codes "12") (pos 12) (codes "cd")
      (omega arith, (omega arith, tt)) (omega arith, (omega arith, tt)) status_text
