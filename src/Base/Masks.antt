-- ===== src/Base/Masks.antt =====
-- `|` of a number whose last bits are 0 and a number that has no others.
use Prim.Native.Nat.{digits, bit_or, bit_or-bitwise, max}
use native.Mathlib.Nat.{two-pow-succ}
use nekosys.Base.{ℕ, zero, suc, ◌+◌, ◌*◌, ◌/◌, ◌%◌, ◌^◌, ◌≤◌, ◌<◌, ◌≡◌, refl, sym, ap, ◌∙◌, arith}

module _ (last : ℕ → ℕ) (digit : ℕ → ℕ → ℕ) where
  -- A count of digits to go that the first number's own serve.
  digits_enough : (n m a b : ℕ) → a ≤ n → a ≤ m → digits last digit n a b ≡ digits last digit m a b
  digits_enough zero zero a b p q = refl
  digits_enough zero (suc m) zero b p q = refl
  digits_enough zero (suc m) (suc a) b p q = absurd (omega arith)
  digits_enough (suc n) zero zero b p q = refl
  digits_enough (suc n) zero (suc a) b p q = absurd (omega arith)
  digits_enough (suc n) (suc m) zero b p q = refl
  digits_enough (suc n) (suc m) (suc a) b p q =
      let ih = digits_enough n m (suc a / 2) (b / 2) (omega arith) (omega arith) in
      ap (λ z. z * 2 + digit (suc a % 2) (b % 2)) ih

bit_or_zero : (b : ℕ) → bit_or 0 b ≡ b
bit_or_zero b = bit_or-bitwise 0 b

bit_or_step : (a b : ℕ) → bit_or a b ≡ bit_or (a / 2) (b / 2) * 2 + max (a % 2) (b % 2)
bit_or_step zero b = omega (arith, bit_or_zero b, bit_or_zero (b / 2))
bit_or_step (suc a) b =
    let enough =
      digits_enough (λ z. z) max a (suc a / 2) (suc a / 2) (b / 2) (omega arith) (omega arith) in
    omega (arith, bit_or-bitwise (suc a) b, bit_or-bitwise (suc a / 2) (b / 2), enough)

bit_or-zero_fuel : (n a : ℕ) → a ≤ n → bit_or a 0 ≡ a
bit_or-zero_fuel n zero h = bit_or_zero 0
bit_or-zero_fuel zero (suc a) h = absurd (omega arith)
bit_or-zero_fuel (suc n) (suc a) h =
    omega (arith, bit_or_step (suc a) 0, bit_or-zero_fuel n (suc a / 2) (omega arith))

bit_or-low : (n k f : ℕ) → f < 2 ^ n → bit_or (k * 2 ^ n) f ≡ k * 2 ^ n + f
bit_or-low zero k f h =
    let none_left : f ≡ 0 = omega arith in
    rw none_left (bit_or-zero_fuel (k * 2 ^ 0) (k * 2 ^ 0) (omega arith) ∙ omega arith)
bit_or-low (suc n) k f h =
    let twice : k * 2 ^ suc n ≡ 2 * (k * 2 ^ n) = rw (two-pow-succ n) (omega arith) in
    let half : f / 2 < 2 ^ n = omega (arith, two-pow-succ n) in
    let halved : k * 2 ^ suc n / 2 ≡ k * 2 ^ n = omega (arith, twice) in
    omega (
      arith,
      bit_or_step (k * 2 ^ suc n) f,
      ap (λ z. bit_or z (f / 2)) halved,
      bit_or-low n k (f / 2) half,
      twice,
    )

-- The flags of a page table entry beside a page's address.
pub bit_or-page : (a f : ℕ) → a % 4096 ≡ 0 → f < 4096 → bit_or a f ≡ a + f
bit_or-page a f aligned low =
    let whole : a ≡ a / 4096 * 2 ^ 12 = omega arith in
    ap (λ z. bit_or z f) whole
    ∙ bit_or-low 12 (a / 4096) f (omega arith)
    ∙ ap (λ z. z + f) (sym whole)
