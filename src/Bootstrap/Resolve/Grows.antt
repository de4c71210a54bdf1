-- ===== src/Bootstrap/Resolve/Grows.antt =====
-- How a round of ResolveRecipe changes the selection: names are added and none is lost.
use pwnbridge.Prelude.{
  ℕ, suc, ◌≤◌, ◌<◌, Bool, true, false, ◌||◌, List, [], ◌∷◌, if◌then◌else◌, length, ◌≡◌, refl, sym,
  ap, ◌∙◌, arith, ◌⊎◌, inl, inr, Bool-cases,
}
use pwnbridge.Prelude.Text.{Bytes, bytes_eq, bytes_eq_refl, bytes_eq_sound}
use pwnbridge.Config.Names.{one_of}
use pwnbridge.Recipe.Unique.{one_of-cons}
use pwnbridge.Bootstrap.Names.{component_order}
use pwnbridge.Bootstrap.Resolve.{Selection, add_dependency}

-- How many names of a list are not selected.
abbrev pub missing : List Bytes → List Bytes → ℕ
missing [] selected = 0
missing (x ∷ xs) selected = let n = missing xs selected in if one_of x selected then n else suc n

pub missing_le : (order s : List Bytes) → missing order s ≤ length order
missing_le [] s = omega arith
missing_le (x ∷ xs) s = elim (Bool-cases (one_of x s)) [
  | inl e ↦ rw e (omega (arith, missing_le xs s))
  | inr e ↦ rw e (omega (arith, missing_le xs s))
]

count_le :
    (same old : Bool) (n m : ℕ)
    → n ≤ m
    → (if same || old then n else suc n) ≤ (if old then m else suc m)
count_le true true n m h = h
count_le true false n m h = omega arith
count_le false true n m h = h
count_le false false n m h = omega arith

count_lt :
    (same old : Bool) (n m : ℕ)
    → n < m
    → (if same || old then n else suc n) < (if old then m else suc m)
count_lt true true n m h = h
count_lt true false n m h = omega arith
count_lt false true n m h = h
count_lt false false n m h = omega arith

missing-cons_le : (d : Bytes) (order s : List Bytes) → missing order (d ∷ s) ≤ missing order s
missing-cons_le d [] s = omega arith
missing-cons_le d (x ∷ xs) s = rw (one_of-cons x d s) (
    count_le (bytes_eq x d) (one_of x s) (missing xs (d ∷ s)) (missing xs s)
      (missing-cons_le d xs s))

missing-cons_lt :
    (d : Bytes) (order s : List Bytes)
    → one_of d order ≡ true
    → one_of d s ≡ false
    → missing order (d ∷ s) < missing order s
unfolding one_of
missing-cons_lt d [] s h k = cc
missing-cons_lt d (x ∷ xs) s h k = elim (Bool-cases (bytes_eq d x)) [
  | inl e ↦
      let same : d ≡ x = bytes_eq_sound d x e in
      let old : one_of x s ≡ false = rw same at (k) in
      let new : bytes_eq x d ≡ true = rw same (bytes_eq_refl x) in
      rw (old, new) (omega (arith, missing-cons_le d xs s))
  | inr e ↦
      count_lt (bytes_eq x d) (one_of x s) (missing xs (d ∷ s)) (missing xs s)
        (missing-cons_lt d xs s (rw e at (h)) k)
]

-- What a part of a round does to the state.
pub record Grows (r after : Selection) : Type 0 where
  pub fewer : missing component_order after.selected ≤ missing component_order r.selected
  pub progress :
      after.changed ≡ true
      → (r.changed ≡ true)
        ⊎ (missing component_order after.selected < missing component_order r.selected)
  pub keeps : (x : Bytes) → one_of x r.selected ≡ true → one_of x after.selected ≡ true
  pub still : after.changed ≡ false → after ≡ r

pub Grows-refl : (r : Selection) → Grows r r
Grows-refl r = record {
  fewer = omega arith;
  progress = λ h. inl h;
  keeps = λ x h. h;
  still = λ h. refl;
}

pub Grows-trans : (r s t : Selection) → Grows r s → Grows s t → Grows r t
Grows-trans r s t g h = record {
  fewer = omega (arith, g.fewer, h.fewer);
  progress = λ c. elim (h.progress c) [
    | inr lt ↦ inr (omega (arith, lt, g.fewer))
    | inl c' ↦ elim (g.progress c') [
      | inl c'' ↦ inl c''
      | inr lt ↦ inr (omega (arith, lt, h.fewer))
    ]
  ];
  keeps = λ x m. h.keeps x (g.keeps x m);
  still = λ c. let e = h.still c in e ∙ g.still (ap Selection.changed (sym e) ∙ c);
}

or_true : (b : Bool) → (b || true) ≡ true
or_true true = refl
or_true false = refl

pub add_dependency-Grows :
    (id d : Bytes) (r : Selection)
    → one_of d component_order ≡ true
    → Grows r (add_dependency id d r)
unfolding add_dependency
add_dependency-Grows id d r known = elim (Bool-cases (one_of d r.selected)) [
  | inl e ↦ rw e (Grows-refl r)
  | inr e ↦ rw e (record {
    fewer = missing-cons_le d component_order r.selected;
    progress = λ h. inr (missing-cons_lt d component_order r.selected known e);
    keeps = λ x m. rw (one_of-cons x d r.selected, m) (or_true (bytes_eq x d));
    still = λ h. cc;
  })
]
