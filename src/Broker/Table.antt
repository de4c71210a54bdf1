-- ===== src/Broker/Table.antt =====
-- The table of requests under insertion and deletion.
use pwnbridge.Prelude.{
  suc, ◌≤◌, false, [], ◌∷◌, none, some, length, ◌≡◌, inl, inr, refl, Bool-cases, arith, sym, ◌∙◌,
}
use pwnbridge.Prelude.Map.{KeysDistinct, Map, map_insert, map_lookup}
use pwnbridge.Prelude.Text.{Bytes, bytes_eq, bytes_eq_refl, bytes_eq_sound, bytes_eq-false_comm}
use pwnbridge.Broker.{map_delete}

module _ {V : Type 0} where
  pub lookup-delete : (k : Bytes) (m : Map V) → map_lookup k (map_delete k m) ≡ none
  unfolding map_lookup
  lookup-delete k [] = refl
  lookup-delete k ((j, v) ∷ m) = elim (Bool-cases (bytes_eq j k)) [
    | inl e ↦ rw e (lookup-delete k m)
    | inr e ↦ rw (e, e) (lookup-delete k m)
  ]

  pub lookup-delete_ne :
      (i k : Bytes) (m : Map V)
      → bytes_eq k i ≡ false
      → map_lookup i (map_delete k m) ≡ map_lookup i m
  unfolding map_lookup
  lookup-delete_ne i k [] h = refl
  lookup-delete_ne i k ((j, v) ∷ m) h = elim (Bool-cases (bytes_eq j k)) [
    | inl e ↦
        let other : bytes_eq j i ≡ false = rw (bytes_eq_sound j k e) h in
        rw (e, other) (lookup-delete_ne i k m h)
    | inr e ↦ elim (Bool-cases (bytes_eq j i)) [
      | inl here ↦ rw (e, here) refl
      | inr there ↦ rw (e, there) (lookup-delete_ne i k m h)
    ]
  ]

  delete-none :
      (i k : Bytes) (m : Map V) → map_lookup i m ≡ none → map_lookup i (map_delete k m) ≡ none
  delete-none i k m h = elim (Bool-cases (bytes_eq k i)) [
    | inl e ↦ rw (bytes_eq_sound k i e) (lookup-delete i m)
    | inr e ↦ lookup-delete_ne i k m e ∙ h
  ]

  pub KeysDistinct-delete : (k : Bytes) (m : Map V) → KeysDistinct m → KeysDistinct (map_delete k m)
  KeysDistinct-delete k [] h = tt
  KeysDistinct-delete k ((j, v) ∷ m) (h, hs) = elim (Bool-cases (bytes_eq j k)) [
    | inl e ↦ rw e (KeysDistinct-delete k m hs)
    | inr e ↦ rw e (delete-none j k m h, KeysDistinct-delete k m hs)
  ]

  pub length-delete : (k : Bytes) (m : Map V) → length (map_delete k m) ≤ length m
  length-delete k [] = omega arith
  length-delete k ((j, v) ∷ m) = elim (Bool-cases (bytes_eq j k)) [
    | inl e ↦ rw e (omega (arith, length-delete k m))
    | inr e ↦ rw e (omega (arith, length-delete k m))
  ]

  pub lookup-insert_self :
      (k : Bytes) (v : V) (m : Map V) → map_lookup k (map_insert k v m) ≡ some v
  unfolding map_lookup map_insert
  lookup-insert_self k v [] = rw (bytes_eq_refl k) refl
  lookup-insert_self k v ((j, w) ∷ m) = elim (Bool-cases (bytes_eq j k)) [
    | inl e ↦ rw (e, bytes_eq_refl k) refl
    | inr e ↦ rw (e, e) (lookup-insert_self k v m)
  ]

  pub lookup-insert_ne :
      (i k : Bytes) (v : V) (m : Map V)
      → bytes_eq k i ≡ false
      → map_lookup i (map_insert k v m) ≡ map_lookup i m
  unfolding map_lookup map_insert
  lookup-insert_ne i k v [] h = rw h refl
  lookup-insert_ne i k v ((j, w) ∷ m) h = elim (Bool-cases (bytes_eq j k)) [
    | inl e ↦
        let other : bytes_eq j i ≡ false = rw (bytes_eq_sound j k e) h in rw (e, h, other) refl
    | inr e ↦ elim (Bool-cases (bytes_eq j i)) [
      | inl here ↦ rw (e, here) refl
      | inr there ↦ rw (e, there) (lookup-insert_ne i k v m h)
    ]
  ]

  pub KeysDistinct-insert :
      (k : Bytes) (v : V) (m : Map V) → KeysDistinct m → KeysDistinct (map_insert k v m)
  unfolding map_insert map_lookup
  KeysDistinct-insert k v [] h = (refl, tt)
  KeysDistinct-insert k v ((j, w) ∷ m) (h, hs) = elim (Bool-cases (bytes_eq j k)) [
    | inl e ↦ rw e ((rw (sym (bytes_eq_sound j k e)) h), hs)
    | inr e ↦
        rw e
          (lookup-insert_ne j k v m (bytes_eq-false_comm j k e) ∙ h, KeysDistinct-insert k v m hs)
  ]

  pub length-insert_old :
      (k : Bytes) (v w : V) (m : Map V)
      → map_lookup k m ≡ some w
      → length (map_insert k v m) ≡ length m
  unfolding map_lookup map_insert
  length-insert_old k v w [] h = cc h
  length-insert_old k v w ((j, x) ∷ m) h = elim (Bool-cases (bytes_eq j k)) [
    | inl e ↦ rw e refl
    | inr e ↦ rw e (omega (arith, length-insert_old k v w m (rw e at h)))
  ]

  pub length-insert : (k : Bytes) (v : V) (m : Map V) → length (map_insert k v m) ≤ suc (length m)
  unfolding map_insert
  length-insert k v [] = omega arith
  length-insert k v ((j, x) ∷ m) = elim (Bool-cases (bytes_eq j k)) [
    | inl e ↦ rw e (omega arith)
    | inr e ↦ rw e (omega (arith, length-insert k v m))
  ]
