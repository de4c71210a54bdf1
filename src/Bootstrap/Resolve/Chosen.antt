-- ===== src/Bootstrap/Resolve/Chosen.antt =====
-- The recipe that ResolveRecipe gives has what was asked for and nothing that was disabled.
use pwnbridge.Prelude.{
  Bool, true, false, not, ◌&&◌, ◌||◌, List, [], ◌∷◌, ◌≡◌, refl, sym, ap, ◌∙◌, inl, inr, Bool-cases,
}
use pwnbridge.Prelude.Result.{ok, ok-injective}
use pwnbridge.Prelude.Text.{Bytes, bytes_eq, bytes_eq_refl, bytes_eq_sound}
use pwnbridge.Config.Names.{one_of}
use pwnbridge.Recipe.Sort.{In}
use pwnbridge.Bootstrap.Catalog.{component_of, is_known}
use pwnbridge.Bootstrap.Resolve.{chosen, deselect, disable, select_all, select_known}

pub one_of-In : (x : Bytes) (xs : List Bytes) → In x xs → one_of x xs ≡ true
unfolding one_of
one_of-In x [] m = absurd m
one_of-In x (y ∷ ys) (inl e) = rw (e, bytes_eq_refl y) refl
one_of-In x (y ∷ ys) (inr m) = elim (Bool-cases (bytes_eq x y)) [
  | inl e ↦ rw e refl
  | inr e ↦ rw e (one_of-In x ys m)
]

or_swap : (a b c : Bool) → (a || (b || c)) ≡ ((b || a) || c)
or_swap true true c = refl
or_swap true false c = refl
or_swap false true c = refl
or_swap false false c = refl

pub and_false : (a : Bool) → (a && false) ≡ false
and_false true = refl
and_false false = refl

pub one_of-chosen :
    (x : Bytes) (s order : List Bytes) → one_of x (chosen s order) ≡ (one_of x order && one_of x s)
unfolding chosen one_of
one_of-chosen x s [] = refl
one_of-chosen x s (y ∷ order) = elim (Bool-cases (one_of y s)) [
  | inl k ↦ elim (Bool-cases (bytes_eq x y)) [
    | inl e ↦ rw (k, e, bytes_eq_sound x y e, k) refl
    | inr e ↦ rw (k, e) (one_of-chosen x s order)
  ]
  | inr k ↦ elim (Bool-cases (bytes_eq x y)) [
    | inl e ↦
        let outside : one_of x s ≡ false = rw (bytes_eq_sound x y e) k in
        rw (k, e, one_of-chosen x s order, outside) (and_false (one_of x order))
    | inr e ↦ rw (k, e) (one_of-chosen x s order)
  ]
]

pub one_of-select_all :
    (x : Bytes) (ids s : List Bytes) → one_of x (select_all ids s) ≡ (one_of x ids || one_of x s)
unfolding select_all one_of
one_of-select_all x [] s = refl
one_of-select_all x (id ∷ ids) s =
    rw (one_of-select_all x ids (id ∷ s)) (or_swap (one_of x ids) (bytes_eq x id) (one_of x s))

dropped : (a b : Bool) → (not a && b) ≡ (not a && (a || b))
dropped true b = refl
dropped false b = refl

left_in : (a b c : Bool) → (a ≡ true → b ≡ false) → (b || (not a && c)) ≡ (not a && (b || c))
left_in true true c h = cc (h refl)
left_in true false c h = refl
left_in false b c h = refl

one_of-deselect :
    (x id : Bytes) (s : List Bytes) → one_of x (deselect id s) ≡ (not (bytes_eq x id) && one_of x s)
unfolding deselect one_of
one_of-deselect x id [] = sym (and_false (not (bytes_eq x id)))
one_of-deselect x id (y ∷ s) = elim (Bool-cases (bytes_eq id y)) [
  | inl e ↦
      rw (e, one_of-deselect x id s, bytes_eq_sound id y e) (dropped (bytes_eq x y) (one_of x s))
  | inr e ↦
      rw (e, one_of-deselect x id s)
        (left_in (bytes_eq x id) (bytes_eq x y) (one_of x s) (λ h. rw (bytes_eq_sound x id h) e))
]

module _ (quote : Bytes → Bytes) where
  pub one_of-select_known :
      (x : Bytes) (ids s after : List Bytes)
      → select_known quote ids s ≡ ok after
      → one_of x after ≡ (one_of x ids || one_of x s)
  unfolding select_known one_of
  one_of-select_known x [] s after h = ap (one_of x) (sym (ok-injective s after h))
  one_of-select_known x (id ∷ ids) s after h = elim (Bool-cases (is_known id)) [
    | inr e ↦ cc (rw e at (h))
    | inl e ↦
        one_of-select_known x ids (id ∷ s) after (rw e at (h))
        ∙ or_swap (one_of x ids) (bytes_eq x id) (one_of x s)
  ]

  -- What a list of disabled names does to the disabled and to the selected ones.
  pub record Disabled (ids w s w' s' : List Bytes) : Type 0 where
    pub disabled : (x : Bytes) → one_of x w' ≡ (one_of x ids || one_of x w)
    pub left : (x : Bytes) → one_of x s' ≡ (not (one_of x ids) && one_of x s)
    pub optional : (x : Bytes) → one_of x ids ≡ true → (component_of x).mandatory ≡ false

  and_swap : (a b c : Bool) → (not a && (not b && c)) ≡ (not (b || a) && c)
  and_swap true true c = refl
  and_swap true false c = refl
  and_swap false true c = refl
  and_swap false false c = refl

  pub disable-Disabled :
      (ids w s w' s' : List Bytes) → disable quote ids w s ≡ ok (w', s') → Disabled ids w s w' s'
  unfolding disable one_of
  disable-Disabled [] w s w' s' h = record {
    disabled = λ x. ap (λ t. one_of x (t.0)) (sym (ok-injective (w, s) (w', s') h));
    left = λ x. ap (λ t. one_of x (t.1)) (sym (ok-injective (w, s) (w', s') h));
    optional = λ x m. cc;
  }
  disable-Disabled (id ∷ ids) w s w' s' h = elim (Bool-cases (is_known id)) [
    | inr e ↦ cc (rw e at (h))
    | inl e ↦ elim (Bool-cases (component_of id).mandatory) [
      | inl f ↦ cc (rw (e, f) at (h))
      | inr f ↦
          let d = disable-Disabled ids (id ∷ w) (deselect id s) w' s' (rw (e, f) at (h)) in
          record {
            disabled = λ x. d.disabled x ∙ or_swap (one_of x ids) (bytes_eq x id) (one_of x w);
            left = λ x.
                d.left x
                ∙ ap (λ b. not (one_of x ids) && b) (one_of-deselect x id s)
                ∙ and_swap (one_of x ids) (bytes_eq x id) (one_of x s);
            optional = λ x m. elim (Bool-cases (bytes_eq x id)) [
              | inl same ↦ rw (bytes_eq_sound x id same) f
              | inr other ↦ d.optional x (rw other at (m))
            ];
          }
    ]
  ]
