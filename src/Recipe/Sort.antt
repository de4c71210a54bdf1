-- ===== src/Recipe/Sort.antt =====
-- Lists of problems: sort.Strings and strings.Join with "; ".
use pwnbridge.Prelude.{
  Bool, true, false, ◌||◌, ◌&&◌, List, [], ◌∷◌, ◌++◌, Option, none, some, ltb, ◌==◌, if◌then◌else◌,
  ◌≡◌, refl, ◌⊎◌, inl, inr,
}
use pwnbridge.Prelude.Text.{Bytes, codes}
pub mod Sorted

-- A test that must not hold, and the problem to report if it does.
abbrev pub Check : Type 0
Check = Bool × Bytes

-- `if bad { problems = append(problems, text) }`, for each test in turn.
unfoldable pub complaints : List Check → List Bytes
complaints [] = []
complaints ((bad, text) ∷ checks) =
    let rest = complaints checks in if bad then text ∷ rest else rest

-- A loop that makes its tests on each element.
abbrev pub checks_of {ℓ} : {A : Type ℓ} → (A → List Check) → List A → List Check
checks_of f [] = []
checks_of f (x ∷ xs) = f x ++ checks_of f xs

unfoldable pub bytes_less : Bytes → Bytes → Bool
bytes_less [] [] = false
bytes_less [] (y ∷ ys) = true
bytes_less (x ∷ xs) [] = false
bytes_less (x ∷ xs) (y ∷ ys) = ltb x y || (x == y && bytes_less xs ys)

unfoldable pub insert : Bytes → List Bytes → List Bytes
insert x [] = x ∷ []
insert x (y ∷ ys) = if bytes_less y x then y ∷ insert x ys else x ∷ y ∷ ys

unfoldable pub sort_strings : List Bytes → List Bytes
sort_strings [] = []
sort_strings (x ∷ xs) = insert x (sort_strings xs)

unfoldable pub join : List Bytes → Bytes
join [] = []
join (x ∷ []) = x
join (x ∷ y ∷ xs) = x ++ codes "; " ++ join (y ∷ xs)

-- The error that reports problems: `none` when there are none.
unfoldable pub joined : List Bytes → Option Bytes
joined [] = none
joined (x ∷ xs) = some (join (sort_strings (x ∷ xs)))

-- A report of no error was made of no problem.
pub joined-none : (xs : List Bytes) → joined xs ≡ none → xs ≡ []
unfolding joined
joined-none [] h = refl
joined-none (x ∷ xs) h = cc

-- None of the tests holds.
abbrev pub Quiet : List Check → Type 0
Quiet [] = Unit
Quiet ((bad, text) ∷ checks) = (bad ≡ false) × Quiet checks

pub complaints-Quiet : (checks : List Check) → complaints checks ≡ [] → Quiet checks
unfolding complaints
complaints-Quiet [] h = tt
complaints-Quiet ((true, text) ∷ checks) h = cc
complaints-Quiet ((false, text) ∷ checks) h = (refl, complaints-Quiet checks h)

-- When nothing is reported, no test held.
pub joined-Quiet : (checks : List Check) → joined (complaints checks) ≡ none → Quiet checks
joined-Quiet checks h = complaints-Quiet checks (joined-none (complaints checks) h)

pub Quiet-append : (xs ys : List Check) → Quiet (xs ++ ys) → Quiet xs × Quiet ys
Quiet-append [] ys h = (tt, h)
Quiet-append ((bad, text) ∷ xs) ys (h, hs) = let (k, l) = Quiet-append xs ys hs in ((h, k), l)

-- The entry is one of the list.
abbrev pub In : {A : Type 0} → A → List A → Type 0
In x [] = ⊥
In x (y ∷ ys) = (x ≡ y) ⊎ In x ys

pub Quiet-checks_of :
    {A : Type 0} (f : A → List Check) (xs : List A) (x : A)
    → Quiet (checks_of f xs)
    → In x xs
    → Quiet (f x)
Quiet-checks_of f [] x h m = absurd m
Quiet-checks_of f (y ∷ ys) x h (inl e) = rw e (Quiet-append (f y) (checks_of f ys) h).0
Quiet-checks_of f (y ∷ ys) x h (inr m) =
    Quiet-checks_of f ys x (Quiet-append (f y) (checks_of f ys) h).1 m
