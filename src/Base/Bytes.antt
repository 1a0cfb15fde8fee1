-- ===== src/Base/Bytes.antt =====
-- One bit of a byte: what setting and clearing a bit does to every bit of it.
use Prim.Native.Nat.{bit_and, bit_or}
use nekosys.Base.{
  ℕ, zero, suc, ◌-◌, ◌^◌, ◌<◌, ◌≡◌, refl, Bool, true, false, not, ◌&&◌, arith, ltb, ◌==◌,
  if◌then◌else◌,
}

-- (x & (1 << b)) == 0
abbrev pub bit_clear : ℕ → ℕ → Bool
bit_clear x b = bit_and x (2 ^ b) == 0

-- x | (1 << b)
abbrev pub with_bit : ℕ → ℕ → ℕ
with_bit x b = bit_or x (2 ^ b)

-- x & ~(1 << b), in a byte
abbrev pub without_bit : ℕ → ℕ → ℕ
without_bit x b = bit_and x (255 - 2 ^ b)

-- A test of the numbers 0, 1, ... below a bound.
every : ℕ → (ℕ → Bool) → Bool
every zero test = true
every (suc bound) test = if test 0 then every bound (λ k. test (suc k)) else false

every-at : (test : ℕ → Bool) (bound k : ℕ) → k < bound → every bound test ≡ true → test k ≡ true
unfolding every
every-at test zero k less e = absurd (omega arith)
every-at test (suc bound) zero less e = ground (arith, e)
every-at test (suc bound) (suc k) less e =
    every-at (λ i. test (suc i)) bound k (omega (arith, less)) (ground (arith, e))

abbrev same : Bool → Bool → Bool
same true b = b
same false b = not b

same-eq : (a b : Bool) → same a b ≡ true → a ≡ b
same-eq true true h = refl
same-eq true false h = cc
same-eq false true h = cc
same-eq false false h = refl

abbrev check : ℕ → ℕ → ℕ → Bool
check x b c =
    ltb (with_bit x b) 256
    && ltb (without_bit x b) 256
    && same (bit_clear (with_bit x b) c) (if c == b then false else bit_clear x c)
    && same (bit_clear (without_bit x b) c) (if c == b then true else bit_clear x c)

table : every 256 (λ x. every 8 (λ b. every 8 (check x b))) ≡ true
unfolding every
table = refl

checked : (x b c : ℕ) → x < 256 → b < 8 → c < 8 → check x b c ≡ true
checked x b c hx hb hc =
    let row = every-at (λ x'. every 8 (λ b'. every 8 (check x' b'))) 256 x hx table in
    every-at (check x b) 8 c hc (every-at (λ b'. every 8 (check x b')) 8 b hb row)

module _ (x b c : ℕ) (hx : x < 256) (hb : b < 8) (hc : c < 8) where
  pub bit_clear-with_bit : bit_clear (with_bit x b) c ≡ (if c == b then false else bit_clear x c)
  bit_clear-with_bit = same-eq _ _ (ground (arith, checked x b c hx hb hc))

  pub bit_clear-without_bit :
      bit_clear (without_bit x b) c ≡ (if c == b then true else bit_clear x c)
  bit_clear-without_bit = same-eq _ _ (ground (arith, checked x b c hx hb hc))

pub bytes-stay : (x b : ℕ) → x < 256 → b < 8 → (with_bit x b < 256) × (without_bit x b < 256)
bytes-stay x b hx hb = ground (arith, checked x b 0 hx hb (omega arith))
