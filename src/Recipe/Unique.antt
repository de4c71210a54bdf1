-- ===== src/Recipe/Unique.antt =====
-- stableUnique keeps each value once, and Normalize has nothing left to do on its own result.
use pwnbridge.Prelude.{
  Bool, true, false, not, ◌&&◌, ◌||◌, List, [], ◌∷◌, ◌≡◌, refl, inl, inr, Bool-cases, sym, ap, ◌∙◌,
}
use pwnbridge.Prelude.Text.{Bytes, bytes_eq, bytes_eq_refl, bytes_eq_sound}
use pwnbridge.Config.Types.{Recipe}
use pwnbridge.Config.Names.{one_of}
use pwnbridge.Recipe.{unique_from, stable_unique, normalize}

-- No value of the list comes again behind it.
abbrev pub Distinct : List Bytes → Type 0
Distinct [] = Unit
Distinct (x ∷ xs) = (one_of x xs ≡ false) × Distinct xs

pub one_of-cons :
    (v x : Bytes) (xs : List Bytes) → one_of v (x ∷ xs) ≡ (bytes_eq v x || one_of v xs)
unfolding one_of
one_of-cons v x xs = refl

one_of-eq : (v x : Bytes) (xs : List Bytes) → bytes_eq v x ≡ true → one_of v xs ≡ one_of x xs
one_of-eq v x xs h = ap (λ y. one_of y xs) (bytes_eq_sound v x h)

kept-eq :
    (same in_seen in_rest : Bool)
    → (same ≡ true → in_seen ≡ false)
    → (same || (not (same || in_seen) && in_rest)) ≡ (not in_seen && (same || in_rest))
kept-eq true true in_rest h = cc (h refl)
kept-eq true false in_rest h = refl
kept-eq false in_seen in_rest h = refl

skipped-eq :
    (same in_seen in_rest : Bool)
    → (same ≡ true → in_seen ≡ true)
    → (not in_seen && in_rest) ≡ (not in_seen && (same || in_rest))
skipped-eq true true in_rest h = refl
skipped-eq true false in_rest h = cc (h refl)
skipped-eq false in_seen in_rest h = refl

and_false : (b : Bool) → false ≡ (b && false)
and_false true = refl
and_false false = refl

one_of-unique_from :
    (v : Bytes) (seen values : List Bytes)
    → one_of v (unique_from seen values) ≡ (not (one_of v seen) && one_of v values)
unfolding unique_from one_of
one_of-unique_from v seen [] = and_false (not (one_of v seen))
one_of-unique_from v seen (x ∷ values) = elim (Bool-cases (one_of x seen)) [
  | inl old ↦
      rw (old, one_of-unique_from v seen values, one_of-cons v x values)
        (skipped-eq (bytes_eq v x) (one_of v seen) (one_of v values)
          (λ h. rw (one_of-eq v x seen h) old))
  | inr new ↦
      rw
        (
          new,
          one_of-cons v x (unique_from (x ∷ seen) values),
          one_of-unique_from v (x ∷ seen) values,
          one_of-cons v x seen,
          one_of-cons v x values,
        )
        (kept-eq (bytes_eq v x) (one_of v seen) (one_of v values)
          (λ h. rw (one_of-eq v x seen h) new))
]

unique_from-Distinct : (seen values : List Bytes) → Distinct (unique_from seen values)
unfolding unique_from
unique_from-Distinct seen [] = tt
unique_from-Distinct seen (x ∷ values) = elim (Bool-cases (one_of x seen)) [
  | inl old ↦ rw old (unique_from-Distinct seen values)
  | inr new ↦ rw new (
    (rw (one_of-unique_from x (x ∷ seen) values, one_of-cons x x seen, bytes_eq_refl x) refl),
    unique_from-Distinct (x ∷ seen) values,
  )
]

-- The list that stableUnique gives has each value once.
pub stable_unique-Distinct : (values : List Bytes) → Distinct (stable_unique values)
unfolding stable_unique
stable_unique-Distinct values = unique_from-Distinct [] values

-- The list that stableUnique gives has the values of the list that it was given, and no other.
pub one_of-stable_unique :
    (v : Bytes) (values : List Bytes) → one_of v (stable_unique values) ≡ one_of v values
unfolding stable_unique one_of
one_of-stable_unique v values = one_of-unique_from v [] values

-- None of the values is in the other list.
abbrev Apart : List Bytes → List Bytes → Type 0
Apart seen [] = Unit
Apart seen (x ∷ xs) = (one_of x seen ≡ false) × Apart seen xs

bytes_eq_comm : (x y : Bytes) → bytes_eq x y ≡ true → bytes_eq y x ≡ true
bytes_eq_comm x y h = rw (bytes_eq_sound x y h) (bytes_eq_refl y)

not_comm : (x y : Bytes) → bytes_eq x y ≡ false → bytes_eq y x ≡ false
not_comm x y h = elim (Bool-cases (bytes_eq y x)) [
  | inl e ↦ cc (h, bytes_eq_comm y x e)
  | inr e ↦ e
]

or-false : (a b : Bool) → (a || b) ≡ false → (a ≡ false) × (b ≡ false)
or-false true b h = cc
or-false false b h = (refl, h)

Apart-cons :
    (x : Bytes) (seen xs : List Bytes) → one_of x xs ≡ false → Apart seen xs → Apart (x ∷ seen) xs
Apart-cons x seen [] h k = tt
Apart-cons x seen (y ∷ xs) h (k, ks) =
    let (ne, rest) = or-false (bytes_eq x y) (one_of x xs) (sym (one_of-cons x y xs) ∙ h) in
    ((rw (one_of-cons y x seen, not_comm x y ne) k), Apart-cons x seen xs rest ks)

unique_from-Distinct_eq :
    (seen values : List Bytes)
    → Apart seen values
    → Distinct values
    → unique_from seen values ≡ values
unfolding unique_from
unique_from-Distinct_eq seen [] h d = refl
unique_from-Distinct_eq seen (x ∷ values) (h, hs) (d, ds) =
    rw (h, unique_from-Distinct_eq (x ∷ seen) values (Apart-cons x seen values d hs) ds) refl

Apart-nil : (values : List Bytes) → Apart [] values
unfolding one_of
Apart-nil [] = tt
Apart-nil (x ∷ xs) = (refl, Apart-nil xs)

stable_unique_idem :
    (values : List Bytes) → stable_unique (stable_unique values) ≡ stable_unique values
unfolding stable_unique
stable_unique_idem values =
    unique_from-Distinct_eq [] (unique_from [] values) (Apart-nil (unique_from [] values))
      (unique_from-Distinct [] values)

-- Normalize changes nothing on a recipe that it has made.
pub normalize_idem : (value : Recipe) → normalize (normalize value) ≡ normalize value
unfolding normalize
normalize_idem value =
    rw
      (
        stable_unique_idem value.components,
        stable_unique_idem value.system_packages,
        stable_unique_idem value.pip_packages,
      )
      refl
