-- ===== src/Neko/Vector/Search.antt =====
-- libneko/include/nk/vector.h: IndexOf and Contains against a search of the sequence held.
use nekosys.Base.{
  ℕ, zero, suc, ◌+◌, ◌≤◌, ◌≡◌, refl, Bool, true, false, Option, none, some, List, [], ◌∷◌, arith,
  if◌then◌else◌, length, take, drop, drop-cons,
}
use nekosys.Neko.Vector.{Vector, index_loop, index_of, contains, IsValid, contents}

-- The place of the first element of a list that a test accepts, the list's places counted from `i`.
pub find_from {ℓ} : {A : Type ℓ} → (A → Bool) → ℕ → List A → Option ℕ
find_from p i [] = none
find_from p i (x ∷ xs) = if p x then some i else find_from p (suc i) xs

pub any {ℓ} : {A : Type ℓ} → (A → Bool) → List A → Bool
any p [] = false
any p (x ∷ xs) = if p x then true else any p xs

find_from-any {ℓ} :
    {A : Type ℓ} (p : A → Bool) (i : ℕ) (xs : List A)
    → (elim (find_from p i xs) [ none ↦ false | some j ↦ true ]) ≡ any p xs
unfolding find_from any
find_from-any p i [] = refl
find_from-any p i (x ∷ xs) = ground (arith, find_from-any p (suc i) xs)

module _ {ℓ} {A : Type ℓ} (fresh : A) (eq : A → A → Bool) where
  index_loop-find_from :
      (n i : ℕ) (a : List A) (value : A)
      → i + n ≤ length a
      → index_loop fresh eq n i a value ≡ find_from (λ x. eq x value) i (take n (drop i a))
  unfolding index_loop find_from
  index_loop-find_from zero i a value h = refl
  index_loop-find_from (suc n) i a value h =
      let e : i + 1 ≡ suc i = omega arith in
      rw (drop-cons fresh i a (omega arith), e)
        (rw (index_loop-find_from n (suc i) a value (omega arith)) refl)

  module _ {v : Vector A} (valid : IsValid v) (value : A) where
    -- `IndexOf` finds the place of the first element of the sequence that equals the value.
    pub index_of_first : index_of fresh eq v value ≡ find_from (λ x. eq x value) 0 (contents v)
    unfolding index_of
    index_of_first = index_loop-find_from v.size 0 v.buf value (omega arith)

    -- `Contains` says whether some element of the sequence equals the value.
    pub contains-any : contains fresh eq v value ≡ any (λ x. eq x value) (contents v)
    unfolding contains
    contains-any = rw (index_of_first, contains) (find_from-any _ 0 (contents v))
