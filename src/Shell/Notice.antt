-- ===== src/Shell/Notice.antt =====
-- internal/shell/proxy.go: exitNoticeFilter, which takes the transport's exit banner, and the line
-- ends behind it, out of the output. The writer is the bytes written so far; `Run` ignores its
-- errors. Without a notice the program makes no filter.
use pwnbridge.Prelude.{
  ℕ, suc, zero, Bool, true, false, ◌||◌, ◌&&◌, List, [], ◌∷◌, ◌++◌, ◌==◌, if◌then◌else◌, ◌≡◌, refl,
}
use pwnbridge.Prelude.Text.{Bytes, codes, has_prefix, bytes_eq}
use pwnbridge.Shell.Paste.{cr, lf}
pub mod Filtered
pub mod Removed
mod Tests

pub record ExitNoticeFilter : Type 0 where
  pub out : Bytes
  pub notice : Bytes
  pub pending : Bytes
  pub after : Bool

unfoldable pub new_exit_notice_filter : Bytes → Bytes → ExitNoticeFilter
new_exit_notice_filter out notice = record {
  out = out;
  notice = notice;
  pending = [];
  after = false;
}

-- `for len(f.pending) > 0 && !bytes.HasPrefix(f.notice, f.pending)`: what is written, and the
-- pending bytes that are left.
unfoldable pub release : Bytes → Bytes → Bytes × Bytes
release notice [] = ([], [])
release notice (c ∷ pending) = elim (has_prefix notice (c ∷ pending)) [
  | true ↦ ([], c ∷ pending)
  | false ↦ let (written, rest) = release notice pending in (c ∷ written, rest)
]

-- One round of the loop of `Write`: `pending`, `after` and what is written.
unfoldable pub filter_byte : Bytes → Bytes → Bool → ℕ → Bytes × Bool × Bytes
filter_byte notice pending after value =
    if after && (value == cr || value == lf)
    then (pending, true, [])
    else let (written, rest) = release notice (pending ++ value ∷ []) in
      if bytes_eq rest notice then ([], true, written) else (rest, false, written)

unfoldable pub filter_loop : Bytes → Bytes → Bool → Bytes → Bytes × Bool × Bytes
filter_loop notice pending after [] = (pending, after, [])
filter_loop notice pending after (value ∷ d) =
    let (pending', after', written) = filter_byte notice pending after value in
    let (pending'', after'', written') = filter_loop notice pending' after' d in
    (pending'', after'', written ++ written')

unfoldable pub filter_write : ExitNoticeFilter → Bytes → ExitNoticeFilter
filter_write f d =
    let (pending, after, written) = filter_loop f.notice f.pending f.after d in
    record f { out = f.out ++ written; pending = pending; after = after }

unfoldable pub filter_flush : ExitNoticeFilter → ExitNoticeFilter
filter_flush f = record f { out = f.out ++ f.pending; pending = [] }
