-- ===== src/Prelude/Lists.antt =====
-- Lists measured and indexed by native numbers, under the library's names.
use Prim.Native.Nat.{ℕ, zero, suc, ◌+◌, ◌-◌, ◌<◌, ◌≤◌, min}
use mathlib.Core.Path.{◌≡◌, refl, sym, ap, ◌∙◌}
use mathlib.Core.Logic.{◌≢◌}
use mathlib.Core.List.{List, [], ◌∷◌, ◌++◌, map}
use mathlib.Core.Option.{Option, none, some}
use native.Mathlib.Omega.{arith}

module _ {ℓ} {A : Type ℓ} where
  abbrev pub length : List A → ℕ
  length [] = 0
  length (x ∷ xs) = suc (length xs)

  abbrev pub get_elem? : List A → ℕ → Option A
  get_elem? [] i = none
  get_elem? (x ∷ xs) zero = some x
  get_elem? (x ∷ xs) (suc i) = get_elem? xs i

  -- A write out of bounds changes nothing.
  abbrev pub set : List A → ℕ → A → List A
  set [] i v = []
  set (x ∷ xs) zero v = v ∷ xs
  set (x ∷ xs) (suc i) v = x ∷ set xs i v

  pub length-append : (xs ys : List A) → length (xs ++ ys) ≡ length xs + length ys
  length-append [] ys = omega arith
  length-append (x ∷ xs) ys = omega (arith, length-append xs ys)

module _ {ℓ} {A : Type ℓ} where
  pub length-set : (xs : List A) (i : ℕ) (v : A) → length (set xs i v) ≡ length xs
  length-set [] i v = refl
  length-set (x ∷ xs) zero v = refl
  length-set (x ∷ xs) (suc i) v = ap suc (length-set xs i v)

  pub get_elem?-set_self :
      (xs : List A) (i : ℕ) (v : A) → i < length xs → get_elem? (set xs i v) i ≡ some v
  get_elem?-set_self [] i v h = elim h [ ]
  get_elem?-set_self (x ∷ xs) zero v h = refl
  get_elem?-set_self (x ∷ xs) (suc i) v h = get_elem?-set_self xs i v (omega arith)

  pub get_elem?-set_ne :
      (xs : List A) {i j : ℕ} (v : A) → i ≢ j → get_elem? (set xs i v) j ≡ get_elem? xs j
  get_elem?-set_ne [] v h = refl
  get_elem?-set_ne (x ∷ xs) {i = zero} {j = zero} v h = absurd (h refl)
  get_elem?-set_ne (x ∷ xs) {i = zero} {j = suc j} v h = refl
  get_elem?-set_ne (x ∷ xs) {i = suc i} {j = zero} v h = refl
  get_elem?-set_ne (x ∷ xs) {i = suc i} {j = suc j} v h = get_elem?-set_ne xs v (λ e. h (ap suc e))

module _ {ℓ} {A : Type ℓ} where
  abbrev pub get_or : List A → ℕ → A → A
  get_or [] i d = d
  get_or (x ∷ xs) zero d = x
  get_or (x ∷ xs) (suc i) d = get_or xs i d

  abbrev pub take : ℕ → List A → List A
  take zero xs = []
  take (suc n) [] = []
  take (suc n) (x ∷ xs) = x ∷ take n xs

  abbrev pub drop : ℕ → List A → List A
  drop zero xs = xs
  drop (suc n) [] = []
  drop (suc n) (x ∷ xs) = drop n xs

  abbrev pub replicate : ℕ → A → List A
  replicate zero a = []
  replicate (suc n) a = a ∷ replicate n a

  pub take-append-drop : (n : ℕ) (xs : List A) → take n xs ++ drop n xs ≡ xs
  take-append-drop zero xs = refl
  take-append-drop (suc n) [] = refl
  take-append-drop (suc n) (x ∷ xs) = rw (take-append-drop n xs)

  pub length-take : (n : ℕ) (xs : List A) → length (take n xs) ≡ min n (length xs)
  length-take zero xs = omega arith
  length-take (suc n) [] = omega arith
  length-take (suc n) (x ∷ xs) = omega (arith, length-take n xs)

  pub length-drop : (n : ℕ) (xs : List A) → length (drop n xs) ≡ length xs - n
  length-drop zero xs = omega arith
  length-drop (suc n) [] = omega arith
  length-drop (suc n) (x ∷ xs) = omega (arith, length-drop n xs)

  pub length-replicate : (n : ℕ) (a : A) → length (replicate n a) ≡ n
  length-replicate zero a = refl
  length-replicate (suc n) a = ap suc (length-replicate n a)

  pub length-map {κ} : {B : Type κ} (xs : List A) (f : A → B) → length (map f xs) ≡ length xs
  length-map [] f = refl
  length-map (x ∷ xs) f = ap suc (length-map xs f)

-- Cuts of a list that is put together.
module _ {ℓ} {A : Type ℓ} where
  pub drop-append :
      (d : List A) (n : ℕ) (s : List A) → n ≤ length s → drop n (s ++ d) ≡ drop n s ++ d
  drop-append d zero s h = refl
  drop-append d (suc n) [] h = absurd (omega arith)
  drop-append d (suc n) (c ∷ s) h = drop-append d n s (omega arith)

  pub take-append : (d : List A) (n : ℕ) (s : List A) → n ≤ length s → take n (s ++ d) ≡ take n s
  take-append d zero s h = refl
  take-append d (suc n) [] h = absurd (omega arith)
  take-append d (suc n) (c ∷ s) h = ap (λ t. c ∷ t) (take-append d n s (omega arith))

  -- A cut behind the first list.
  pub drop-append_ge :
      (s d : List A) (n : ℕ) → length s ≤ n → drop n (s ++ d) ≡ drop (n - length s) d
  drop-append_ge [] d n h = ap (λ k. drop k d) (omega arith)
  drop-append_ge (c ∷ s) d zero h = absurd (omega arith)
  drop-append_ge (c ∷ s) d (suc n) h =
      let e : suc n - suc (length s) ≡ n - length s = omega arith in
      rw e (drop-append_ge s d n (omega arith))

  pub take-append_ge :
      (s d : List A) (n : ℕ) → length s ≤ n → take n (s ++ d) ≡ s ++ take (n - length s) d
  take-append_ge [] d n h = ap (λ k. take k d) (omega arith)
  take-append_ge (c ∷ s) d zero h = absurd (omega arith)
  take-append_ge (c ∷ s) d (suc n) h =
      let e : suc n - suc (length s) ≡ n - length s = omega arith in
      rw e (ap (λ t. c ∷ t) (take-append_ge s d n (omega arith)))

  drop-nil : (n : ℕ) → drop {A = A} n [] ≡ []
  drop-nil zero = refl
  drop-nil (suc n) = refl

  pub drop-drop : (m n : ℕ) (s : List A) → drop m (drop n s) ≡ drop (n + m) s
  drop-drop m zero s = ap (λ k. drop k s) (omega arith)
  drop-drop m (suc n) [] = drop-nil m ∙ sym (drop-nil (suc n + m))
  drop-drop m (suc n) (c ∷ s) =
      let e : suc n + m ≡ suc (n + m) = omega arith in rw e (drop-drop m n s)

  pub drop_all : (n : ℕ) (s : List A) → length s ≤ n → drop n s ≡ []
  drop_all zero [] h = refl
  drop_all zero (c ∷ s) h = absurd (omega arith)
  drop_all (suc n) [] h = refl
  drop_all (suc n) (c ∷ s) h = drop_all n s (omega arith)

  pub take_all : (n : ℕ) (s : List A) → length s ≤ n → take n s ≡ s
  take_all zero [] h = refl
  take_all zero (c ∷ s) h = absurd (omega arith)
  take_all (suc n) [] h = refl
  take_all (suc n) (c ∷ s) h = ap (λ t. c ∷ t) (take_all n s (omega arith))
