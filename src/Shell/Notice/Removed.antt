-- ===== src/Shell/Notice/Removed.antt =====
-- What the filter is for: the notice and the line ends behind it are taken out.
use pwnbridge.Prelude.{
  ℕ, Bool, true, false, [], ◌∷◌, ◌++◌, ◌≡◌, ◌≢◌, refl, arith, append_assoc, append-nil, ap, ◌∙◌,
  sym, inl, inr, ◌⊎◌,
}
use pwnbridge.Prelude.Text.{Bytes, All, Lacks, has_prefix, has_prefix_self, bytes_eq, bytes_eq_refl}
use pwnbridge.Shell.Paste.{cr, lf}
use pwnbridge.Shell.Notice.{
  ExitNoticeFilter, new_exit_notice_filter, release, filter_byte, filter_loop, filter_write,
}

filter_loop-append :
    (notice pending : Bytes) (after : Bool) (a b : Bytes)
    → filter_loop notice pending after (a ++ b) ≡ (
        let (pending', after', written) = filter_loop notice pending after a in
        let (pending'', after'', written') = filter_loop notice pending' after' b in
        (pending'', after'', written ++ written'))
unfolding filter_loop
filter_loop-append notice pending after [] b = refl
filter_loop-append notice pending after (c ∷ a) b =
    let (pending', after', written) = filter_byte notice pending after c in
    rw (filter_loop-append notice pending' after' a b, append_assoc)

-- The output of the transport may be cut into writes in any way.
pub filter_write-append :
    (f : ExitNoticeFilter) (a b : Bytes)
    → filter_write f (a ++ b) ≡ filter_write (filter_write f a) b
unfolding filter_write
filter_write-append f a b = rw (filter_loop-append f.notice f.pending f.after a b, append_assoc)

-- `filter_loop` with something written before it.
abbrev put : Bytes → Bytes × Bool × Bytes → Bytes × Bool × Bytes
put w (pending, after, written) = (pending, after, w ++ written)

release_fits : (notice w : Bytes) → has_prefix notice w ≡ true → release notice w ≡ ([], w)
unfolding release
release_fits notice [] h = refl
release_fits notice (c ∷ w) h = rw (h, release)

too_short : (p : Bytes) (c d : ℕ) (r : Bytes) → bytes_eq (p ++ c ∷ []) (p ++ c ∷ d ∷ r) ≡ false
unfolding bytes_eq
too_short [] c d r = ground arith
too_short (b ∷ p) c d r = ground (arith, too_short p c d r)

filter_byte_more :
    (p : Bytes) (c d : ℕ) (r : Bytes)
    → filter_byte (p ++ c ∷ d ∷ r) p false c ≡ (p ++ c ∷ [], false, [])
unfolding filter_byte
filter_byte_more p c d r =
    let fits : has_prefix (p ++ c ∷ d ∷ r) (p ++ c ∷ []) ≡ true =
      rw append_assoc at (has_prefix_self (p ++ c ∷ []) (d ∷ r)) in
    rw (release_fits (p ++ c ∷ d ∷ r) (p ++ c ∷ []) fits, too_short p c d r)

filter_byte_last : (p : Bytes) (c : ℕ) → filter_byte (p ++ c ∷ []) p false c ≡ ([], true, [])
unfolding filter_byte
filter_byte_last p c =
    let fits : has_prefix (p ++ c ∷ []) (p ++ c ∷ []) ≡ true =
      rw append-nil at (has_prefix_self (p ++ c ∷ []) []) in
    rw (release_fits (p ++ c ∷ []) (p ++ c ∷ []) fits, bytes_eq_refl (p ++ c ∷ []))

-- The rest of the notice, byte by byte.
filter_loop_notice :
    (r p notice s : Bytes) (c : ℕ)
    → notice ≡ p ++ c ∷ r
    → filter_loop notice p false (c ∷ r ++ s) ≡ filter_loop notice [] true s
unfolding filter_loop
filter_loop_notice [] p notice s c e =
    rw (ap (λ n. filter_byte n p false c) e ∙ filter_byte_last p c)
filter_loop_notice (d ∷ r) p notice s c e =
    let later =
      filter_loop_notice r (p ++ c ∷ []) notice s d (e ∙ sym (append_assoc p (c ∷ []) (d ∷ r))) in
    rw (ap (λ n. filter_byte n p false c) e ∙ filter_byte_more p c d r) later

filter_byte_text :
    (b : ℕ) (q : Bytes) (c : ℕ) → c ≢ b → filter_byte (b ∷ q) [] false c ≡ ([], false, c ∷ [])
unfolding filter_byte release has_prefix bytes_eq
filter_byte_text b q c h = ground arith

filter_loop_text :
    (b : ℕ) (q text s : Bytes)
    → Lacks b text
    → filter_loop (b ∷ q) [] false (text ++ s) ≡ put text (filter_loop (b ∷ q) [] false s)
unfolding filter_loop
filter_loop_text b q [] s h = refl
filter_loop_text b q (c ∷ text) s (h, hs) =
    rw (filter_byte_text b q c h, filter_loop_text b q text s hs)

abbrev pub IsLineEnd : ℕ → Type 0
IsLineEnd c = (c ≡ cr) ⊎ (c ≡ lf)

filter_byte_end :
    (notice : Bytes) (c : ℕ) → IsLineEnd c → filter_byte notice [] true c ≡ ([], true, [])
unfolding filter_byte
filter_byte_end notice c (inl e) = rw e
filter_byte_end notice c (inr e) = rw e

filter_loop_ends :
    (notice ends s : Bytes)
    → All IsLineEnd ends
    → filter_loop notice [] true (ends ++ s) ≡ filter_loop notice [] true s
unfolding filter_loop
filter_loop_ends notice [] s h = refl
filter_loop_ends notice (c ∷ ends) s (h, hs) =
    rw (filter_byte_end notice c h, filter_loop_ends notice ends s hs)

-- The notice is taken out: behind text without its first byte, the notice and any line ends that
-- follow it leave no trace, and the filter goes on as it stands right behind a notice.
pub filter_write_notice :
    (out : Bytes) (b : ℕ) (q text ends more : Bytes)
    → Lacks b text
    → All IsLineEnd ends
    → filter_write (new_exit_notice_filter out (b ∷ q)) (text ++ ((b ∷ q) ++ (ends ++ more)))
      ≡ filter_write (record { out = out ++ text; notice = b ∷ q; pending = []; after = true }) more
unfolding filter_write new_exit_notice_filter
filter_write_notice out b q text ends more no_start line_ends = rw (
  filter_loop_text b q text ((b ∷ q) ++ (ends ++ more)) no_start,
  filter_loop_notice q [] (b ∷ q) (ends ++ more) b refl,
  filter_loop_ends (b ∷ q) ends more line_ends,
  append_assoc,
)
