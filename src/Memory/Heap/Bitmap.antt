-- ===== src/Memory/Heap/Bitmap.antt =====
-- kernel/memory/heap.cpp: is_free, set_free and their loops as a set of free units.
use nekosys.Base.{
  ℕ, zero, suc, ◌+◌, ◌-◌, ◌/◌, ◌%◌, ◌≤◌, ◌<◌, ◌≡◌, ◌≢◌, refl, ap, Bool, true, none, some, ltb, leb,
  ◌==◌, ◌&&◌, if◌then◌else◌, arith, Bool-cases, ==_iff, inl, inr,
}
use nekosys.Base.Words.{word, add32}
use nekosys.Base.Bytes.{bit_clear-with_bit, bit_clear-without_bit, bytes-stay}
use nekosys.Memory.Heap.{Heap, is_free, set_free, set_loop, run_loop, units_loop}

-- Every byte of the map is a byte.
abbrev pub IsBytes : Heap → Type 0
IsBytes h = (i : ℕ) → h.allocation_map i < 256

pub set_free-IsBytes : (h : Heap) (u : ℕ) (f : Bool) → IsBytes h → IsBytes (set_free h u f)
unfolding set_free
set_free-IsBytes h u f b i =
    ground (arith, b i, bytes-stay (h.allocation_map (u / 8)) (u % 8) (b (u / 8)) (omega arith))

pub is_free-set_free :
    (h : Heap) (u v : ℕ) (f : Bool)
    → IsBytes h
    → is_free (set_free h u f) v ≡ (if v == u then f else is_free h v)
unfolding is_free set_free
is_free-set_free h u v f b = elim (Bool-cases (v / 8 == u / 8)) [
  | inr other ↦ ground (arith, other, ap (λ n. n / 8) {x = v} {y = u})
  | inl same ↦
      let e : v / 8 ≡ u / 8 = (==_iff _ _).0 same in
      let byte = h.allocation_map (u / 8) in
      let set = bit_clear-with_bit byte (u % 8) (v % 8) (b (u / 8)) (omega arith) (omega arith) in
      let clr =
        bit_clear-without_bit byte (u % 8) (v % 8) (b (u / 8)) (omega arith) (omega arith) in
      rw e (elim (Bool-cases f) [
        | inl free ↦ ground (arith, free, e, clr)
        | inr used ↦ ground (arith, used, e, set)
      ])
]

-- All of the `n` units from `i` on are free.
abbrev pub Run : Heap → ℕ → ℕ → Type 0
Run h i n = (j : ℕ) → i ≤ j → j < i + n → is_free h j ≡ true

pub set_loop-IsBytes : (h : Heap) (u n i : ℕ) (f : Bool) → IsBytes h → IsBytes (set_loop h u n i f)
unfolding set_loop
set_loop-IsBytes h u zero i f b = b
set_loop-IsBytes h u (suc n) i f b =
    set_loop-IsBytes (set_free h (add32 u i) f) u n (i + 1) f (set_free-IsBytes h (add32 u i) f b)

pub is_free-set_loop :
    (h : Heap) (u n i v : ℕ) (f : Bool)
    → IsBytes h
    → u + i + n ≤ word
    → is_free (set_loop h u n i f) v
      ≡ (if leb (u + i) v && ltb v (u + i + n) then f else is_free h v)
unfolding set_loop
is_free-set_loop h u zero i v f b w = ground arith
is_free-set_loop h u (suc n) i v f b w = ground (
  arith,
  is_free-set_free h (add32 u i) v f b,
  is_free-set_loop (set_free h (add32 u i) f) u n (i + 1) v f (set_free-IsBytes h (add32 u i) f b)
      (omega arith),
)

-- The loop touches nothing but the map.
pub set_loop-same :
    (h : Heap) (u n i : ℕ) (f : Bool)
    → (set_loop h u n i f ≡ record h { allocation_map = (set_loop h u n i f).allocation_map })
unfolding set_loop set_free
set_loop-same h u zero i f = refl
set_loop-same h u (suc n) i f = set_loop-same (set_free h (add32 u i) f) u n (i + 1) f

module _ (h : Heap) where
  Run-cons : (j n : ℕ) → is_free h j ≡ true → Run h (j + 1) (n - 1) → Run h j n
  Run-cons j n free rest k lo hi = elim (Bool-cases (k == j)) [
    | inl here ↦ rw ((==_iff k j).0 here) free
    | inr later ↦
        let ne : k ≢ j = λ q. ground (arith, later, q) in
        rest k (omega (arith, ne)) (omega (arith, ne))
  ]

  run_loop_sound :
      (n j num units : ℕ)
      → num < units
      → run_loop h n j num units ≡ true
      → (units ≤ num + n) × Run h j (units - num)
  unfolding run_loop
  run_loop_sound zero j num units lt e = cc
  run_loop_sound (suc n) j num units lt e = elim (Bool-cases (is_free h j)) [
    | inr used ↦ ground (arith, used)
    | inl free ↦ elim (Bool-cases (num + 1 == units)) [
      | inl last ↦
          let all : units ≡ num + 1 = ground (arith, last) in
          (omega arith, λ k lo hi. let q : k ≡ j = omega arith in rw q free)
      | inr more ↦
          let ne : num + 1 ≢ units = λ q. ground (arith, more, q) in
          let rest =
            run_loop_sound n (j + 1) (num + 1) units (omega (arith, ne))
              (ground (arith, free, more)) in
          (
            omega (arith, rest.0),
            Run-cons j (units - num) free (λ k lo hi. rest.1 k (omega arith) (omega arith)),
          )
    ]
  ]

  run_loop_complete :
      (n j num units : ℕ)
      → num < units
      → units ≤ num + n
      → Run h j (units - num)
      → run_loop h n j num units ≡ true
  unfolding run_loop
  run_loop_complete zero j num units lt le r = absurd (omega arith)
  run_loop_complete (suc n) j num units lt le r =
      let free : is_free h j ≡ true = r j (omega arith) (omega arith) in
      elim (Bool-cases (num + 1 == units)) [
        | inl last ↦ ground (arith, free, last)
        | inr more ↦
            let ne : num + 1 ≢ units = λ q. ground (arith, more, q) in
            let rest =
              run_loop_complete n (j + 1) (num + 1) units (omega (arith, ne)) (omega (arith, ne))
                (λ k lo hi. r k (omega arith) (omega arith)) in
            ground (arith, free, more, rest)
      ]

  -- The first run of `units` free units that the outer loop comes to.
  pub units_loop-some :
      (units n i k : ℕ)
      → 0 < units
      → units_loop h n i units ≡ some k
      → (i ≤ k) × (k + units ≤ i + n) × Run h k units × ((j : ℕ) → i ≤ j → j < k → ¬ Run h j units)
  unfolding units_loop
  units_loop-some units zero i k pos e = cc
  units_loop-some units (suc n) i k pos e = elim (Bool-cases (run_loop h (suc n) i 0 units)) [
    | inl hit ↦
        let found = run_loop_sound (suc n) i 0 units pos hit in
        let free : is_free h i ≡ true = found.1 i (omega arith) (omega arith) in
        let here : i ≡ k = ground (arith, hit, free) in
        (
          omega arith,
          omega (arith, found.0),
          λ j lo hi. found.1 j (omega arith) (omega arith),
          λ j lo hi r. omega arith,
        )
    | inr miss ↦
        let rest = units_loop-some units n (i + 1) k pos (ground (arith, miss)) in
        (
          omega (arith, rest.0),
          omega (arith, rest.1),
          rest.2,
          λ j lo hi r. elim (Bool-cases (j == i)) [
            | inl now ↦
                let q : j ≡ i = (==_iff j i).0 now in
                let fits : units ≤ 0 + suc n = omega (arith, rest.0, rest.1) in
                cc (
                  run_loop_complete (suc n) i 0 units pos fits
                    (λ m a b. r m (omega arith) (omega arith)))
            | inr later ↦
                let ne : j ≢ i = λ q. ground (arith, later, q) in rest.3 j (omega (arith, ne)) hi r
          ],
        )
  ]

  pub units_loop-none :
      (units n i : ℕ)
      → 0 < units
      → units_loop h n i units ≡ none
      → (k : ℕ) → i ≤ k
      → k + units ≤ i + n
      → ¬ Run h k units
  unfolding units_loop
  units_loop-none units zero i pos e k lo hi r = omega arith
  units_loop-none units (suc n) i pos e k lo hi r =
      elim (Bool-cases (run_loop h (suc n) i 0 units)) [
        | inl hit ↦
            let free : is_free h i ≡ true =
              (run_loop_sound (suc n) i 0 units pos hit).1 i (omega arith) (omega arith) in
            ground (arith, hit, free)
        | inr miss ↦ elim (Bool-cases (k == i)) [
          | inl now ↦
              let q : k ≡ i = (==_iff k i).0 now in
              cc (
                run_loop_complete (suc n) i 0 units pos (omega arith)
                  (λ m a b. r m (omega arith) (omega arith)))
          | inr later ↦
              let ne : k ≢ i = λ q. ground (arith, later, q) in
              units_loop-none units n (i + 1) pos (ground (arith, miss)) k (omega (arith, ne))
                (omega arith) r
        ]
      ]
