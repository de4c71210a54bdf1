-- ===== src/Shell/Predictor/Echo.antt =====
-- The remote echo: what `Write` shows, against the prediction.
use pwnbridge.Prelude.{
  ℕ, suc, [], ◌∷◌, ◌++◌, ◌==◌, if◌then◌else◌, ◌≡◌, refl, arith, length, drop, append_assoc,
  Bool-cases, inl, inr,
}
use pwnbridge.Prelude.Text.{Bytes}
use pwnbridge.Shell.Predictor.{EchoPredictor, write_loop, write, predict, predict_loop}

-- How many bytes two texts begin with alike.
unfoldable pub common : Bytes → Bytes → ℕ
common [] s = 0
common (e ∷ es) [] = 0
common (e ∷ es) (c ∷ s) = if c == e then suc (common es s) else 0

write_loop-nil : (s : Bytes) → write_loop [] s ≡ ([], s)
unfolding write_loop
write_loop-nil [] = refl
write_loop-nil (c ∷ s) = rw (write_loop-nil s)

-- What is expected behind a piece of output: the rest of the prediction, if all of the piece was
-- predicted, and nothing otherwise.
abbrev pub left : Bytes → Bytes → Bytes
left expected d = if common expected d == length d then drop (length d) expected else []

suc_eq : (a b : ℕ) → (suc a == suc b) ≡ (a == b)
suc_eq a b = ground arith

write_loop_lem :
    (expected d : Bytes) → write_loop expected d ≡ (left expected d, drop (common expected d) d)
unfolding write_loop common
write_loop_lem [] [] = refl
write_loop_lem (e ∷ es) [] = refl
write_loop_lem [] (c ∷ s) = rw (write_loop-nil s) (ground arith)
write_loop_lem (e ∷ es) (c ∷ s) = elim (Bool-cases (c == e)) [
  | inl same ↦ rw (same, write_loop) (rw (suc_eq (common es s) (length s)) (write_loop_lem es s))
  | inr other ↦ rw (other, write_loop) (rw (write_loop-nil s) (ground arith))
]

-- The remote output is authoritative: of each piece of it `Write` leaves out exactly the longest
-- beginning that agrees with the prediction, and shows the rest unchanged. The prediction goes on
-- only behind a piece that it covers, and is dropped at the first byte that differs.
pub write_lem :
    (p : EchoPredictor) (d : Bytes)
    → ((write p d).out ≡ p.out ++ drop (common p.expected d) d)
      × ((write p d).expected
          ≡ (if common p.expected d == length d then drop (length d) p.expected else []))
unfolding write
write_lem p d = rw (write_loop_lem p.expected d) (refl, refl)

write_loop-append :
    (expected a b : Bytes)
    → write_loop expected (a ++ b) ≡ (
      (write_loop (write_loop expected a).0 b).0,
      (write_loop expected a).1 ++ (write_loop (write_loop expected a).0 b).1,
    )
unfolding write_loop
write_loop-append expected [] b = refl
write_loop-append [] (c ∷ a) b = rw (write_loop-append [] a b)
write_loop-append (e ∷ es) (c ∷ a) b = elim (Bool-cases (c == e)) [
  | inl same ↦ rw (same, write_loop) (write_loop-append es a b)
  | inr other ↦ rw (other, write_loop) (rw (write_loop-append [] a b))
]

-- The reads of the remote output may be cut in any way.
pub write-append : (p : EchoPredictor) (a b : Bytes) → write p (a ++ b) ≡ write (write p a) b
unfolding write
write-append p a b = rw (write_loop-append p.expected a b, append_assoc)

common-append : (e s : Bytes) → common e (e ++ s) ≡ length e
unfolding common
common-append [] s = refl
common-append (c ∷ e) s = ground (arith, common-append e s)

write_loop_echo : (e s : Bytes) → write_loop e (e ++ s) ≡ ([], s)
unfolding write_loop
write_loop_echo [] s = write_loop-nil s
write_loop_echo (c ∷ e) s = ground (arith, write_loop_echo e s)

-- Nothing is shown twice and nothing is lost: where the remote side echoes all that is still
-- expected, then what `Predict` showed, and goes on with other output, the terminal shows what it
-- showed before, the typed text once, and the other output; and nothing is expected any more.
pub write-predict :
    (p : EchoPredictor) (typed more : Bytes)
    → let shown = (predict_loop p.escape p.paste typed).2 in
      ((write (predict p typed) (p.expected ++ (shown ++ more))).out ≡ p.out ++ (shown ++ more))
      × ((write (predict p typed) (p.expected ++ (shown ++ more))).expected ≡ [])
unfolding write predict
write-predict p typed more =
    let shown = (predict_loop p.escape p.paste typed).2 in
    rw (← append_assoc, write_loop_echo (p.expected ++ shown) more)
      (append_assoc p.out shown more, refl)
