-- ===== src/Prelude/Text.antt =====
-- Go's strings and byte slices, as lists of byte values, with the functions of `bytes`, `strings`
-- and `strconv` that the program calls.
use Prim.Native.Char.{code}
use Prim.Native.String.{String}
use mathlib.Core.Option
use pwnbridge.Prelude.{
  ℕ, suc, ◌+◌, ◌-◌, ◌*◌, ◌^◌, ◌≡◌, ◌≢◌, refl, Bool, true, false, ◌&&◌, List, [], ◌∷◌, ◌++◌, Option,
  none, some, arith, ◌==◌, ltb, leb, if◌then◌else◌, take, drop, Bool-cases, inl, inr,
}
use pwnbridge.Prelude.Int.{ℤ, pos, negate}

abbrev pub Bytes : Type 0
Bytes = List ℕ

-- No byte of the text is `b`.
abbrev pub Lacks : ℕ → Bytes → Type 0
Lacks b [] = Unit
Lacks b (c ∷ s) = (c ≢ b) × Lacks b s

abbrev pub All : (ℕ → Type 0) → Bytes → Type 0
All P [] = Unit
All P (c ∷ s) = P c × All P s

-- The pieces of a stream, put together.
abbrev pub concat : List Bytes → Bytes
concat [] = []
concat (d ∷ ds) = d ++ concat ds

-- The code points of a literal: its bytes, when it is ASCII.
abbrev pub codes : String → Bytes
codes String.[] = []
codes (String.◌∷◌ c s) = code c ∷ codes s

-- `bytes.Equal`, and `==` on strings.
unfoldable pub bytes_eq : Bytes → Bytes → Bool
bytes_eq [] [] = true
bytes_eq [] (y ∷ ys) = false
bytes_eq (x ∷ xs) [] = false
bytes_eq (x ∷ xs) (y ∷ ys) = x == y && bytes_eq xs ys

pub bytes_eq_refl : (xs : Bytes) → bytes_eq xs xs ≡ true
unfolding bytes_eq
bytes_eq_refl [] = refl
bytes_eq_refl (x ∷ xs) = ground (arith, bytes_eq_refl xs)

pub bytes_eq_sound : (xs ys : Bytes) → bytes_eq xs ys ≡ true → xs ≡ ys
unfolding bytes_eq
bytes_eq_sound [] [] h = refl
bytes_eq_sound [] (y ∷ ys) h = ground arith
bytes_eq_sound (x ∷ xs) [] h = ground arith
bytes_eq_sound (x ∷ xs) (y ∷ ys) h = ground (arith, bytes_eq_sound xs ys)

-- `bytes.HasPrefix(s, p)` and `strings.HasPrefix(s, p)`.
pub bytes_eq-false_comm : (x y : Bytes) → bytes_eq x y ≡ false → bytes_eq y x ≡ false
bytes_eq-false_comm x y h = elim (Bool-cases (bytes_eq y x)) [
  | inl e ↦
      let same : bytes_eq x y ≡ true = rw (bytes_eq_sound y x e) (bytes_eq_refl x) in cc (h, same)
  | inr e ↦ e
]

unfoldable pub has_prefix : Bytes → Bytes → Bool
has_prefix s [] = true
has_prefix [] (y ∷ p) = false
has_prefix (x ∷ s) (y ∷ p) = x == y && has_prefix s p

pub has_prefix_self : (p x : Bytes) → has_prefix (p ++ x) p ≡ true
unfolding has_prefix
has_prefix_self [] x = refl
has_prefix_self (c ∷ p) x = ground (arith, has_prefix_self p x)

pub has_prefix-append : (s p d : Bytes) → has_prefix s p ≡ true → has_prefix (s ++ d) p ≡ true
unfolding has_prefix
has_prefix-append s [] d h = refl
has_prefix-append [] (y ∷ p) d h = cc
has_prefix-append (x ∷ s) (y ∷ p) d h = ground (arith, has_prefix-append s p d)

-- `s[lo:hi]`, for `lo <= hi <= len(s)`.
unfoldable pub slice : Bytes → ℕ → ℕ → Bytes
slice s lo hi = take (hi - lo) (drop lo s)

-- `bytes.IndexByte(s, b)`; `none` is -1.
unfoldable pub index_byte : Bytes → ℕ → Option ℕ
index_byte [] b = none
index_byte (c ∷ s) b = if c == b then some 0 else Option.map suc (index_byte s b)

-- `bytes.Index(s, p)`; `none` is -1.
unfoldable pub index : Bytes → Bytes → Option ℕ
index [] p = if has_prefix [] p then some 0 else none
index (c ∷ s) p = if has_prefix (c ∷ s) p then some 0 else Option.map suc (index s p)

unfoldable pub is_digit : ℕ → Bool
is_digit c = leb b'0' c && leb c b'9'

-- The number that decimal digits spell behind `n`; `none` at a byte that is no digit.
unfoldable pub decimal : ℕ → Bytes → Option ℕ
unfolding is_digit
decimal n [] = some n
decimal n (c ∷ s) = let rest = decimal (n * 10 + (c - b'0')) s in if is_digit c then rest else none

unfoldable pub unsigned : Bytes → Option ℕ
unfolding decimal
unsigned [] = none
unsigned (c ∷ s) = decimal 0 (c ∷ s)

-- `strconv.Atoi` on a 64-bit platform: an optional sign, digits, and the range of an int64.
unfoldable pub atoi : Bytes → Option ℤ
unfolding unsigned negate Option.bind
atoi [] = none
atoi (c ∷ s) =
    if c == b'-'
    then Option.bind (unsigned s) (λ n. if leb n (2 ^ 63) then some (negate n) else none)
    else Option.bind (if c == b'+' then unsigned s else unsigned (c ∷ s))
        (λ n. if ltb n (2 ^ 63) then some (pos n) else none)
