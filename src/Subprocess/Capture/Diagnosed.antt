-- ===== src/Subprocess/Capture/Diagnosed.antt =====
-- The diagnostic that is made of captured output is bounded.
use pwnbridge.Prelude.{
  ℕ, zero, suc, ◌+◌, ◌-◌, ◌*◌, ◌≤◌, Bool, true, false, ◌||◌, List, [], ◌∷◌, ◌++◌, ltb, ◌==◌,
  if◌then◌else◌, length, drop, ◌≡◌, arith, Bool-cases, inl, inr, tests, length-drop,
}
use pwnbridge.Prelude.Text.{Bytes}
use pwnbridge.Config.Names.{is_empty}
use pwnbridge.Recipe.Space.{trim_space, trim_left, reverse_onto, reverse_all, spaces, space_length}
use pwnbridge.Subprocess.Capture.{
  CaptureResult, combined, diagnostic, diagnostic_limit, rune_length, to_valid_utf8,
  truncation_mark, valid_loop,
}

length-trim_left :
    (fuel : ℕ) (ps : List Bytes) (s : Bytes) → length (trim_left fuel ps s) ≤ length s
unfolding trim_left
length-trim_left zero ps s = omega arith
length-trim_left (suc fuel) ps s = elim (Bool-cases (space_length ps s == 0)) [
  | inl e ↦ rw e (omega arith)
  | inr e ↦ rw e (
      omega (
        arith,
        length-trim_left fuel ps (drop (space_length ps s) s),
        length-drop (space_length ps s) s,
      ))
]

length-reverse_onto : (s t : Bytes) → length (reverse_onto s t) ≡ length s + length t
length-reverse_onto [] t = omega arith
length-reverse_onto (c ∷ s) t = omega (arith, length-reverse_onto s (c ∷ t))

pub length-trim_space : (s : Bytes) → length (trim_space s) ≤ length s
unfolding trim_space
length-trim_space s =
    let left = trim_left (length s) spaces s in
    let back = reverse_onto left [] in
    let right = trim_left (length s) (reverse_all spaces) back in
    omega (
      arith,
      length-reverse_onto right [],
      length-trim_left (length s) (reverse_all spaces) back,
      length-reverse_onto left [],
      length-trim_left (length s) spaces s,
    )

length-valid_loop :
    (skip : ℕ) (broken : Bool) (s : Bytes) → length (valid_loop skip broken s) ≤ 3 * length s
unfolding valid_loop
length-valid_loop zero broken [] = omega arith
length-valid_loop (suc skip) broken [] = omega arith
length-valid_loop (suc skip) broken (c ∷ s) = omega (arith, length-valid_loop skip false s)
length-valid_loop zero broken (c ∷ s) = elim (Bool-cases (rune_length (c ∷ s) == 0)) [
  | inr e ↦ rw e (omega (arith, length-valid_loop (rune_length (c ∷ s) - 1) false s))
  | inl e ↦ elim (Bool-cases broken) [
    | inl b ↦ rw (e, b) (omega (arith, length-valid_loop zero true s))
    | inr b ↦ rw (e, b) (omega (arith, length-valid_loop zero true s))
  ]
]

-- The bytes that a diagnostic is made of.
shown-le :
    (s : Bytes)
    → length (if ltb diagnostic_limit (length s) then drop (length s - diagnostic_limit) s else s)
      ≤ diagnostic_limit
shown-le s = elim (Bool-cases (ltb diagnostic_limit (length s))) [
  | inl e ↦ rw e (omega (tests, e, length-drop (length s - diagnostic_limit) s))
  | inr e ↦ rw e (ground (arith, e))
]

marked-le :
    (marked empty : Bool) (detail : Bytes)
    → length (
        if marked
        then (if empty then truncation_mark else truncation_mark ++ 10 ∷ [] ++ detail)
        else detail)
      ≤ length detail + 19
marked-le true true detail = omega arith
marked-le true false detail = omega arith
marked-le false empty detail = omega arith

-- A diagnostic has at most three times the limit, and 19 bytes for the mark of truncated output: each
-- byte that is no part of a code point may become one of three bytes.
pub length-diagnostic : (r : CaptureResult) → length (diagnostic r) ≤ 3 * diagnostic_limit + 19
unfolding diagnostic to_valid_utf8
length-diagnostic r =
    let all_of = combined r in
    let long = ltb diagnostic_limit (length all_of) in
    let shown = if long then drop (length all_of - diagnostic_limit) all_of else all_of in
    let detail = trim_space (to_valid_utf8 shown) in
    omega (
      arith,
      marked-le (r.stdout_truncated || r.stderr_truncated || long) (is_empty detail) detail,
      length-trim_space (to_valid_utf8 shown),
      length-valid_loop 0 false shown,
      shown-le all_of,
    )
