-- ===== src/Prelude/Result.antt =====
-- Errors as values, for functions that return an error.
use pwnbridge.Prelude.{◌≡◌, refl, ◌⊎◌, inl, inr}

-- What a Go function with a value and an error returns: one of the two.
pub data Result {ℓ κ} (E : Type ℓ) (A : Type κ) : Type (ℓ ⊔ κ) where
  err : E → Result E A
  ok : A → Result E A

-- `if err != nil { return err }` behind a call.
infixl 5 ◌>>=◌
abbrev pub ◌>>=◌ {ℓ κ μ} :
    {A : Type κ} {B : Type μ} {E : Type ℓ} → Result E A → (A → Result E B) → Result E B
err problem >>= next = err problem
ok value >>= next = next value

-- A chain of calls that gives a value: its first call gave one, and the rest went on from that.
pub >>=-eq-ok {ℓ κ μ} :
    {E : Type ℓ} {A : Type κ} {B : Type μ} (call : Result E A) (next : A → Result E B) {value : B}
    → call >>= next ≡ ok value
    → (given : A) × (call ≡ ok given) × (next given ≡ ok value)
>>=-eq-ok (err problem) next chain = cc
>>=-eq-ok (ok given) next chain = (given, refl, chain)

pub ok-injective {ℓ κ} :
    {E : Type ℓ} {A : Type κ} (a b : A) → ◌≡◌ {A = Result E A} (ok a) (ok b) → a ≡ b
ok-injective {E} {A} a b h = λ i. elim (h i) [ ok x ↦ x | err e ↦ a ]

pub Result-cases {ℓ κ} :
    {E : Type ℓ} {A : Type κ} (m : Result E A) → ((a : A) × (m ≡ ok a)) ⊎ ((x : E) × (m ≡ err x))
Result-cases (ok a) = inl (a, refl)
Result-cases (err x) = inr (x, refl)
