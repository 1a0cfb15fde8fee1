-- ===== src/Tasks/Outcome.antt =====
-- How kernel code ends: with a value, in Kernel::Panic, at a pointer to a deleted object, or not
-- within the rounds that a model's loop is given.
use nekosys.Base.{◌≡◌, ◌⊎◌, inl, inr, refl, Bool, true, false}

pub data Outcome {ℓ} (A : Type ℓ) : Type ℓ where
  ok : A → Outcome A
  panic : Outcome A
  dangling : Outcome A
  spinning : Outcome A

infixl 5 ◌>>=◌
abbrev pub ◌>>=◌ {ℓ κ} : {A : Type ℓ} {B : Type κ} → Outcome A → (A → Outcome B) → Outcome B
panic >>= next = panic
dangling >>= next = dangling
spinning >>= next = spinning
ok a >>= next = next a

-- Only a first part that ends with a value leads to one.
pub first_ok {ℓ κ} :
    {A : Type ℓ} {B : Type κ} {b : B} (next : A → Outcome B) (first : Outcome A)
    → (first >>= next) ≡ ok b
    → (a : A) × (next a ≡ ok b) × (first ≡ ok a)
first_ok next spinning e = cc
first_ok next dangling e = cc
first_ok next panic e = cc
first_ok next (ok a) e = (a, e, refl)

pub ok-injective {ℓ} : {A : Type ℓ} {a b : A} → ok a ≡ ok b → a ≡ b
ok-injective e = cc

pub Outcome-cases :
    (m : Outcome Bool)
    → (m ≡ ok true) ⊎ (m ≡ ok false) ⊎ (m ≡ panic) ⊎ (m ≡ dangling) ⊎ (m ≡ spinning)
Outcome-cases (ok true) = inl refl
Outcome-cases (ok false) = inr (inl refl)
Outcome-cases panic = inr (inr (inl refl))
Outcome-cases dangling = inr (inr (inr (inl refl)))
Outcome-cases spinning = inr (inr (inr (inr refl)))
