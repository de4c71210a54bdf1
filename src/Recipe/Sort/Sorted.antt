-- ===== src/Recipe/Sort/Sorted.antt =====
-- What sort.Strings gives: the same strings, in order.
use mathlib.Core.List.{Perm}
use mathlib.Core.List.Perm
use pwnbridge.Prelude.{true, false, List, [], ◌∷◌, ◌≡◌, refl, inl, inr, Bool-cases, arith}
use pwnbridge.Prelude.Text.{Bytes}
use pwnbridge.Recipe.Sort.{bytes_less, insert, sort_strings}

-- No string of the list is less than the one before it.
abbrev pub Ascending : List Bytes → Type 0
Ascending [] = Unit
Ascending (x ∷ []) = Unit
Ascending (x ∷ y ∷ ys) = (bytes_less y x ≡ false) × Ascending (y ∷ ys)

bytes_less-asymm : (x y : Bytes) → bytes_less x y ≡ true → bytes_less y x ≡ false
unfolding bytes_less
bytes_less-asymm [] [] h = cc
bytes_less-asymm [] (y ∷ ys) h = refl
bytes_less-asymm (x ∷ xs) [] h = cc
bytes_less-asymm (x ∷ xs) (y ∷ ys) h = elim (Bool-cases (bytes_less xs ys)) [
  | inl less ↦ let back = bytes_less-asymm xs ys less in ground arith
  | inr more ↦ ground arith
]

insert-Ascending : (x : Bytes) (xs : List Bytes) → Ascending xs → Ascending (insert x xs)
unfolding insert
insert-Ascending x [] h = tt
insert-Ascending x (y ∷ []) h = elim (Bool-cases (bytes_less y x)) [
  | inl less ↦ rw less (bytes_less-asymm y x less, tt)
  | inr more ↦ rw more (more, tt)
]
insert-Ascending x (y ∷ z ∷ zs) (h, hs) =
    let later = insert-Ascending x (z ∷ zs) hs in
    elim (Bool-cases (bytes_less y x)) [
      | inl less ↦ elim (Bool-cases (bytes_less z x)) [
        | inl again ↦ rw (less, again) (h, (rw again at (later)))
        | inr stop ↦ rw (less, stop) (bytes_less-asymm y x less, (stop, hs))
      ]
      | inr more ↦ rw more (more, (h, hs))
    ]

pub sort_strings-Ascending : (xs : List Bytes) → Ascending (sort_strings xs)
unfolding sort_strings
sort_strings-Ascending [] = tt
sort_strings-Ascending (x ∷ xs) = insert-Ascending x (sort_strings xs) (sort_strings-Ascending xs)

Perm-insert : (x : Bytes) (xs : List Bytes) → Perm (insert x xs) (x ∷ xs)
unfolding insert
Perm-insert x [] = Perm.refl (x ∷ [])
Perm-insert x (y ∷ ys) = elim (Bool-cases (bytes_less y x)) [
  | inl less ↦ rw less (Perm.trans (Perm.cons y (Perm-insert x ys)) (Perm.swap x y ys))
  | inr more ↦ rw more (Perm.refl (x ∷ y ∷ ys))
]

pub Perm-sort_strings : (xs : List Bytes) → Perm (sort_strings xs) xs
unfolding sort_strings
Perm-sort_strings [] = Perm.refl []
Perm-sort_strings (x ∷ xs) =
    Perm.trans (Perm-insert x (sort_strings xs)) (Perm.cons x (Perm-sort_strings xs))
