-- ===== src/Shell/Notice/Tests.antt =====
-- Witnesses of the theorems on the notice filter.
use pwnbridge.Prelude.{true, false, [], ◌∷◌, ◌++◌, ◌≡◌, inl, refl, arith}
use pwnbridge.Prelude.Text.{Bytes, codes}
use pwnbridge.Shell.Notice.{new_exit_notice_filter, filter_write, filter_flush}
use pwnbridge.Shell.Notice.Filtered.{Filtered, filter_write-Filtered}
use pwnbridge.Shell.Notice.Removed.{filter_write_notice}

filter_write-Filtered_example :
    (written : Bytes) × ((filter_flush
        (filter_write (new_exit_notice_filter [] (codes "bye")) (codes "a bye"))).out
      ≡ [] ++ written)
    × Filtered (codes "bye") false (codes "a bye") written
filter_write-Filtered_example = filter_write-Filtered [] (codes "bye") (codes "a bye")

filter_write_notice_example :
    filter_write
      (new_exit_notice_filter [] (b'b' ∷ (codes "ye")))
      ((codes "a") ++ ((b'b' ∷ (codes "ye")) ++ ((13 ∷ []) ++ (codes "c"))))
    ≡ filter_write
        (record {
          out = [] ++ (codes "a");
          notice = b'b' ∷ (codes "ye");
          pending = [];
          after = true;
        })
        (codes "c")
filter_write_notice_example =
    filter_write_notice [] b'b' (codes "ye") (codes "a") (13 ∷ []) (codes "c") (omega arith, tt)
      (inl refl, tt)
