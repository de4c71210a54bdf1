-- ===== src/Protocol/Frame/Laws.antt =====
-- Frames survive the way through a stream, and nothing else is taken for one.
use pwnbridge.Prelude.{
  ℕ, suc, zero, ◌+◌, ◌-◌, ◌/◌, ◌%◌, ◌^◌, ◌≤◌, ◌<◌, true, false, ◌||◌, [], ◌∷◌, ◌++◌, ◌==◌, ltb,
  none, some, length, take, ◌≡◌, inl, inr, refl, arith, Bool-cases, Option-cases, ap, append_assoc,
  ◌∙◌, sym, length-take,
}
use native.Mathlib.Decide.{dec_lt}
use pwnbridge.Prelude.Result.{ok, err, ◌>>=◌, >>=-eq-ok, ok-injective}
use pwnbridge.Prelude.Text.{Bytes, All}
use pwnbridge.Protocol.Frame.{
  short_read, invalid_frame_size, marshal_failed, frame_too_large, value, eof, Json, max_frame,
  put_uint32, uint32, read_full, decode_strict_json, encode, decode_body, decode,
}

-- What the program relies on in the JSON package: a marshalled value is not empty, is read back with
-- nothing behind it, and where nothing is left the reader says so.
pub record RoundTrips {ℓ} {V : Type ℓ} (j : Json V) : Type ℓ where
  pub not_empty : (v : V) (d : Bytes) → j.marshal v ≡ some d → 0 < length d
  pub reads_back : (v : V) (d : Bytes) → j.marshal v ≡ some d → j.read_value d ≡ value v []
  pub ends : j.read_any [] ≡ eof

abbrev pub IsByte : ℕ → Type 0
IsByte c = c < 256

size_in_range : (n m : ℕ) → n ≡ m → (m == 0 || ltb max_frame m) ≡ false → (0 < n) × (n ≤ max_frame)
size_in_range n m e h = ground arith

read_full-append : (d s : Bytes) → read_full (length d) (d ++ s) ≡ ok (d, s)
unfolding read_full
read_full-append [] s = refl
read_full-append (c ∷ d) s = rw (read_full-append d s)

read_full_short : (n : ℕ) (s : Bytes) → length s < n → read_full n s ≡ err short_read
unfolding read_full
read_full_short zero s h = absurd (omega arith)
read_full_short (suc n) [] h = refl
read_full_short (suc n) (c ∷ s) h = rw (read_full_short n s (omega arith))

read_full_sound :
    (n : ℕ) (s d rest : Bytes) → read_full n s ≡ ok (d, rest) → (s ≡ d ++ rest) × (length d ≡ n)
unfolding read_full
read_full_sound zero s d rest h = ground arith
read_full_sound (suc n) [] d rest h = cc
read_full_sound (suc n) (c ∷ s) d rest h =
    let ((d', rest'), e, same) = >>=-eq-ok (read_full n s) _ h in
    let (split, size) = read_full_sound n s d' rest' e in ground (arith, split, size)

take-put :
    (n : ℕ) (d : Bytes) (k : ℕ)
    → 4 ≤ k
    → take k (put_uint32 n ++ d) ≡ put_uint32 n ++ take (k - 4) d
unfolding put_uint32
take-put n d k h =
    let e : k ≡ suc (suc (suc (suc (k - 4)))) = omega arith in
    ap (λ m. take m (put_uint32 n ++ d)) e

All-append_left : (P : ℕ → Type 0) (s t : Bytes) → All P (s ++ t) → All P s
All-append_left P [] t h = tt
All-append_left P (c ∷ s) t (hc, h) = (hc, All-append_left P s t h)

uint32-put : (n : ℕ) → n ≤ max_frame → uint32 (put_uint32 n) ≡ n
unfolding uint32 put_uint32
uint32-put n h = omega arith

put-uint32 : (s : Bytes) → length s ≡ 4 → All IsByte s → put_uint32 (uint32 s) ≡ s
unfolding uint32 put_uint32
put-uint32 [] h b = absurd (omega arith)
put-uint32 (a ∷ []) h b = absurd (omega arith)
put-uint32 (a ∷ b ∷ []) h k = absurd (omega arith)
put-uint32 (a ∷ b ∷ c ∷ []) h k = absurd (omega arith)
put-uint32 (a ∷ b ∷ c ∷ d ∷ []) h (ha, (hb, (hc, (hd, _)))) =
    let n = uint32 (a ∷ b ∷ c ∷ d ∷ []) in
    let ea : n / 2 ^ 24 % 256 ≡ a = omega arith in
    let eb : n / 2 ^ 16 % 256 ≡ b = omega arith in
    let ec : n / 2 ^ 8 % 256 ≡ c = omega arith in
    let ed : n % 256 ≡ d = omega arith in λ i. ea i ∷ eb i ∷ ec i ∷ ed i ∷ []
put-uint32 (a ∷ b ∷ c ∷ d ∷ e ∷ s) h k = absurd (omega arith)

module _ {ℓ} {V : Type ℓ} (j : Json V) where
  encode_failed : (v : V) → j.marshal v ≡ none → encode j v ≡ err marshal_failed
  unfolding encode
  encode_failed v e = rw (e, encode)

  module _ (v : V) (d : Bytes) (e : j.marshal v ≡ some d) where
    encode_big : ltb max_frame (length d) ≡ true → encode j v ≡ err frame_too_large
    unfolding encode
    encode_big big = rw (e, encode) (rw big)

    encode_fits :
        ltb max_frame (length d) ≡ false → encode j v ≡ ok (put_uint32 (length d % 2 ^ 32) ++ d)
    unfolding encode
    encode_fits fits = rw (e, encode) (rw fits)

  -- What `Encode` writes, if it writes at all.
  encode_ok :
      (v : V) (f : Bytes)
      → encode j v ≡ ok f
      → (d : Bytes) × (j.marshal v ≡ some d)
        × (length d ≤ max_frame)
        × (f ≡ put_uint32 (length d) ++ d)
  unfolding encode
  encode_ok v f h = elim (Option-cases (j.marshal v)) [
    | inl failed ↦ cc (encode_failed v failed)
    | inr (d, e) ↦ elim (Bool-cases (ltb max_frame (length d))) [
      | inl big ↦ cc (encode_big v d e big)
      | inr fits ↦
          let small : length d % 2 ^ 32 ≡ length d = ground arith in
          let written : ok (put_uint32 (length d) ++ d) ≡ ok f =
            sym (encode_fits v d e fits ∙ ap (λ n. ok (put_uint32 n ++ d)) small) ∙ h in
          (d, e, ground arith, ground (arith, written))
    ]
  ]

  decode_strict_json_marshal :
      RoundTrips j → (v : V) (d : Bytes) → j.marshal v ≡ some d → decode_strict_json j d ≡ ok v
  unfolding decode_strict_json
  decode_strict_json_marshal laws v d h =
      rw (laws.reads_back v d h, decode_strict_json) (rw laws.ends)

  decode_put :
      (n : ℕ) (s : Bytes) → n ≤ max_frame → decode j (put_uint32 n ++ s) ≡ decode_body j n s
  unfolding decode read_full
  decode_put n s h = unfold put_uint32 in ap (λ m. decode_body j m s) (uint32-put n h)

  decode_body_refused :
      (n : ℕ) (s : Bytes)
      → (n == 0 || ltb max_frame n) ≡ true
      → decode_body j n s ≡ err invalid_frame_size
  unfolding decode_body
  decode_body_refused n s h = rw h

  decode_body_full :
      (d rest : Bytes)
      → 0 < length d
      → length d ≤ max_frame
      → decode_body j (length d) (d ++ rest) ≡ (decode_strict_json j d >>= λ v. ok (v, rest))
  unfolding decode_body
  decode_body_full d rest some_bytes fits =
      let good : (length d == 0 || ltb max_frame (length d)) ≡ false = ground arith in
      rw (good, read_full-append d rest)

  decode_body_short :
      (n : ℕ) (s : Bytes)
      → 0 < n
      → n ≤ max_frame
      → length s < n
      → decode_body j n s ≡ err short_read
  unfolding decode_body
  decode_body_short n s some_bytes fits less =
      let good : (n == 0 || ltb max_frame n) ≡ false = ground arith in
      rw (good, read_full_short n s less)

  decode_short : (s : Bytes) → length s < 4 → decode j s ≡ err short_read
  unfolding decode
  decode_short s h = rw (read_full_short 4 s h)

  -- A message that is written is read back, and the reader stands right behind it, whatever
  -- follows. The JSON codec must read back what it has written.
  pub decode-encode :
      RoundTrips j
      → (v : V) (f rest : Bytes) → encode j v ≡ ok f
      → decode j (f ++ rest) ≡ ok (v, rest)
  decode-encode laws v f rest h =
      let (d, e, fits, written) = encode_ok v f h in
      rw (
        written,
        append_assoc,
        decode_put (length d) (d ++ rest) fits,
        decode_body_full d rest (laws.not_empty v d e) fits,
        decode_strict_json_marshal laws v d e,
      )

  -- A frame that is cut short is an error of the reader, never another message. The JSON codec
  -- must read back what it has written.
  pub decode_truncated :
      RoundTrips j
      → (v : V) (f : Bytes) (k : ℕ) → encode j v ≡ ok f
      → k < length f
      → decode j (take k f) ≡ err short_read
  decode_truncated laws v f k h less =
      let (d, e, fits, written) = encode_ok v f h in
      let size : length f ≡ 4 + length d = rw written (unfold put_uint32 in omega arith) in
      elim (dec_lt k 4) [
        | yes in_header ↦ decode_short (take k f) (omega (arith, length-take k f))
        | no past ↦
            rw
              (
                written,
                take-put (length d) d k (omega arith),
                decode_put (length d) (take (k - 4) d) fits,
              )
              (decode_body_short (length d) (take (k - 4) d) (laws.not_empty v d e) fits
                (omega (arith, length-take (k - 4) d)))
      ]

  decode_body_ok :
      (n : ℕ) (s : Bytes) (r : V × Bytes)
      → decode_body j n s ≡ ok r
      → ((n == 0 || ltb max_frame n) ≡ false)
        × ((read_full n s >>= λ p. decode_strict_json j p.0 >>= λ v. ok (v, p.1)) ≡ ok r)
  unfolding decode_body
  decode_body_ok n s r h = elim (Bool-cases (n == 0 || ltb max_frame n)) [
    | inl refused ↦ cc (decode_body_refused n s refused)
    | inr good ↦ (good, rw good at h)
  ]

  -- Whatever is read as a message was a frame: a size between 1 and the limit, in four bytes, so
  -- many bytes that hold exactly one JSON value of the message's type, and the bytes still to
  -- come. The input must consist of bytes.
  pub decode_sound :
      (s : Bytes) (v : V) (rest : Bytes)
      → All IsByte s
      → decode j s ≡ ok (v, rest)
      → (d : Bytes) × (s ≡ put_uint32 (length d) ++ (d ++ rest))
        × (0 < length d)
        × (length d ≤ max_frame)
        × (decode_strict_json j d ≡ ok v)
  unfolding decode
  decode_sound s v rest bytes h =
      let ((size, s'), e, body) = >>=-eq-ok (read_full 4 s) _ h in
      let (split, four) = read_full_sound 4 s size s' e in
      let (good, full) = decode_body_ok (uint32 size) s' (v, rest) body in
      let ((d, rest'), e', strict) = >>=-eq-ok (read_full (uint32 size) s') _ full in
      let (split', count) = read_full_sound (uint32 size) s' d rest' e' in
      let (v', read, same) = >>=-eq-ok (decode_strict_json j d) _ strict in
      let header : put_uint32 (uint32 size) ≡ size =
        put-uint32 size four (All-append_left IsByte size s' (rw split at bytes)) in
      let in_range = size_in_range (length d) (uint32 size) count good in
      let pair = ok-injective (v', rest') (v, rest) same in
      (
        d,
        split
            ∙ ap (λ x. x ++ s') (sym header ∙ ap put_uint32 (sym count))
            ∙ ap (λ x. put_uint32 (length d) ++ x) (split' ∙ ap (λ x. d ++ x) (ap (λ x. x.1) pair)),
        in_range.0,
        in_range.1,
        read ∙ ap ok (ap (λ x. x.0) pair),
      )
