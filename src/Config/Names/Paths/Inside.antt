-- ===== src/Config/Names/Paths/Inside.antt =====
-- A path that does not escape has no element that leaves its directory.
use pwnbridge.Prelude.{
  Bool, true, false, ◌||◌, List, [], ◌∷◌, if◌then◌else◌, ◌≡◌, ◌≢◌, ◌⊎◌, inl, inr, refl, arith,
  Bool-cases, ap,
}
use pwnbridge.Prelude.Text.{
  Bytes, bytes_eq, bytes_eq_sound, bytes_eq_refl, has_prefix, has_prefix_self, has_prefix-append,
}
use pwnbridge.Config.Names.{is_empty, split}
use pwnbridge.Config.Names.Paths.{
  parent, parent_slash, slash, clean_part, clean_parts, render, is_abs, elements, path_clean,
  escapes_parent, dot,
}

-- No element is `..`.
abbrev pub NoParent : List Bytes → Type 0
NoParent [] = Unit
NoParent (x ∷ s) = (x ≢ parent) × NoParent s

-- The first element of the path is `..`.
abbrev StartsUp : List Bytes → Type 0
StartsUp [] = ⊥
StartsUp (x ∷ []) = x ≡ parent
StartsUp (x ∷ y ∷ s) = StartsUp (y ∷ s)

abbrev Shaped : List Bytes → Type 0
Shaped s = NoParent s ⊎ StartsUp s

ne_parent : (x : Bytes) → bytes_eq x parent ≡ false → x ≢ parent
ne_parent x h e = cc (bytes_eq_refl parent, ap (λ y. bytes_eq y parent) e)

Shaped-push : (x : Bytes) (s : List Bytes) → x ≢ parent → Shaped s → Shaped (x ∷ s)
Shaped-push x s h (inl none_up) = inl (h, none_up)
Shaped-push x [] h (inr up) = absurd up
Shaped-push x (y ∷ s) h (inr up) = inr up

Shaped-pop : (x : Bytes) (s : List Bytes) → x ≢ parent → Shaped (x ∷ s) → Shaped s
Shaped-pop x s h (inl none_up) = inl none_up.1
Shaped-pop x [] h (inr up) = absurd (h up)
Shaped-pop x (y ∷ s) h (inr up) = inr up

Shaped-up : (x : Bytes) (s : List Bytes) → x ≡ parent → Shaped (x ∷ s) → Shaped (parent ∷ x ∷ s)
Shaped-up x s h (inl none_up) = absurd (none_up.0 h)
Shaped-up x s h (inr up) = inr up

clean_part-Shaped :
    (rooted : Bool) (s : List Bytes) (part : Bytes) → Shaped s → Shaped (clean_part rooted s part)
unfolding clean_part
clean_part-Shaped rooted [] part h = elim (Bool-cases (is_empty part || bytes_eq part dot)) [
  | inl skip ↦ rw skip h
  | inr name ↦ elim (Bool-cases (bytes_eq part parent)) [
    | inl up ↦ rw (name, up) (root_or_up rooted)
    | inr plain ↦ rw (name, plain) (Shaped-push part [] (ne_parent part plain) h)
  ]
]
  where
    root_or_up : (r : Bool) → Shaped (if r then [] else parent ∷ [])
    root_or_up true = inl tt
    root_or_up false = inr refl
clean_part-Shaped rooted (top ∷ s) part h = elim (Bool-cases (is_empty part || bytes_eq part dot)) [
  | inl skip ↦ rw skip h
  | inr name ↦ elim (Bool-cases (bytes_eq part parent)) [
    | inl up ↦ elim (Bool-cases (bytes_eq top parent)) [
      | inl top_up ↦ rw (name, up, top_up) (Shaped-up top s (bytes_eq_sound top parent top_up) h)
      | inr top_name ↦ rw (name, up, top_name) (Shaped-pop top s (ne_parent top top_name) h)
    ]
    | inr plain ↦ rw (name, plain) (Shaped-push part (top ∷ s) (ne_parent part plain) h)
  ]
]

clean_parts-Shaped :
    (rooted : Bool) (s parts : List Bytes) → Shaped s → Shaped (clean_parts rooted s parts)
unfolding clean_parts
clean_parts-Shaped rooted s [] h = h
clean_parts-Shaped rooted s (part ∷ parts) h =
    clean_parts-Shaped rooted (clean_part rooted s part) parts (clean_part-Shaped rooted s part h)

-- A path that starts with `..` is `..`, or goes on with a slash.
render_up :
    (s : List Bytes)
    → StartsUp s
    → (render s ≡ parent) ⊎ (has_prefix (render s) parent_slash ≡ true)
unfolding render
render_up [] h = absurd h
render_up (x ∷ []) h = inl h
render_up (x ∷ y ∷ s) h = elim (render_up (y ∷ s) h) [
  | inl e ↦ inr (rw e (has_prefix_self parent_slash x))
  | inr p ↦ inr (has_prefix-append (render (y ∷ s)) parent_slash (slash ∷ x) p)
]

relative_clean :
    (value : Bytes)
    → is_abs value ≡ false
    → is_empty (render (elements value)) ≡ false
    → path_clean value ≡ render (elements value)
unfolding path_clean
relative_clean value h k = rw (h, k)

prefix_not_empty : (s : Bytes) → has_prefix s parent_slash ≡ true → is_empty s ≡ false
unfolding has_prefix
prefix_not_empty [] h = cc h
prefix_not_empty (x ∷ s) h = refl

up-escapes :
    (value : Bytes) → is_abs value ≡ false → StartsUp (elements value) → escapes_parent value ≡ true
unfolding escapes_parent bytes_eq
up-escapes value h up = elim (render_up (elements value) up) [
  | inl e ↦ rw (relative_clean value h (rw e), e) refl
  | inr p ↦
      rw (relative_clean value h (prefix_not_empty (render (elements value)) p), p) (ground arith)
]

-- A relative path that `escapesParent` lets pass stays inside the directory that it starts from:
-- none of its cleaned elements is `..`.
pub escapes_parent-NoParent :
    (value : Bytes)
    → is_abs value ≡ false
    → escapes_parent value ≡ false
    → NoParent (elements value)
unfolding elements
escapes_parent-NoParent value relative stays =
    elim (clean_parts-Shaped (is_abs value) [] (split slash value) (inl tt)) [
      | inl none_up ↦ none_up
      | inr up ↦ cc (up-escapes value relative up)
    ]
