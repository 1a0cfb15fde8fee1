-- ===== src/Tasks/Scheduler/Rotation.antt =====
-- kernel/tasks/scheduler.cpp: which thread FindNextThread picks.
use nekosys.Base.{
  ℕ, zero, suc, ◌+◌, ◌-◌, ◌%◌, ◌^◌, ◌<◌, ◌≡◌, ◌⊎◌, refl, sym, ap, ◌∙◌, inl, inr, Bool, true, false,
  some, List, [], ◌∷◌, arith, ltb, leb, if◌then◌else◌, length, get_elem?, Bool-cases, ltb→lt,
  ltb→le,
}
use nekosys.Base.Words.{word, add32}
use native.Mathlib.Nat.{mod-lt, mod-eq_of_lt, mod-add-mod, mod-eq-sub-mod, add-mod_right, add-zero}
use mathlib.Core.Option.{some-injective}
use nekosys.Tasks.Outcome.{Outcome, ok, spinning}
use nekosys.Tasks.Scheduler.{next_loop, find_next_thread, can_run}
use nekosys.Tasks.Thread.{Kernel}

-- How many rounds after the counter `ctr` the loop comes to the queue's place `i`.
abbrev pub wait : ℕ → ℕ → ℕ → ℕ
wait n ctr i = if leb (ctr % n) i then i - ctr % n else i + n - ctr % n

wait-lt : (n ctr i : ℕ) → i < n → wait n ctr i < n
wait-lt n ctr i h = ground (arith, mod-lt ctr {m = n})

add-wait : (n ctr i : ℕ) → i < n → (ctr + wait n ctr i) % n ≡ i
add-wait n ctr i h = sym (mod-add-mod ctr n (wait n ctr i)) ∙ elim (Bool-cases (leb (ctr % n) i)) [
  | inl le ↦
      let e : ctr % n + wait n ctr i ≡ i = ground (arith, le) in ap (λ k. k % n) e ∙ mod-eq_of_lt h
  | inr gt ↦
      let e : ctr % n + wait n ctr i ≡ i + n = ground (arith, gt, mod-lt ctr {m = n}) in
      ap (λ k. k % n) e ∙ add-mod_right i n ∙ mod-eq_of_lt h
]

-- Each round brings the loop one place nearer to every place but the one it is at.
wait-step :
    (n ctr d i : ℕ) → i < n → d < wait n ctr i → wait n (ctr + d + 1) i + d + 1 ≡ wait n ctr i
wait-step n ctr d i h l =
    let r : (ctr % n + (d + 1)) % n ≡ (ctr + d + 1) % n =
      mod-add-mod ctr n (d + 1) ∙ ap (λ k. k % n) (omega arith) in
    elim (Bool-cases (ltb (ctr % n + (d + 1)) n)) [
      | inl below ↦
          let m : (ctr + d + 1) % n ≡ ctr % n + (d + 1) = sym r ∙ mod-eq_of_lt (ltb→lt _ _ below) in
          ground (arith, m, l, below)
      | inr over ↦
          let small : ctr % n + (d + 1) - n < n =
            omega (arith, mod-lt ctr {m = n}, wait-lt n ctr i h, ltb→le _ _ over) in
          let m : (ctr + d + 1) % n ≡ ctr % n + (d + 1) - n =
            sym r ∙ mod-eq-sub-mod (ltb→le _ _ over) ∙ mod-eq_of_lt small in
          ground (arith, m, l, over)
    ]

get_elem?-some {ℓ} :
    {A : Type ℓ} (xs : List A) (i : ℕ) → i < length xs → (x : A) × (get_elem? xs i ≡ some x)
get_elem?-some [] i h = absurd (omega arith)
get_elem?-some (x ∷ xs) zero h = (x, refl)
get_elem?-some (x ∷ xs) (suc i) h = get_elem?-some xs i (omega arith)

get_elem?-lt {ℓ} :
    {A : Type ℓ} (xs : List A) (i : ℕ) {x : A} → get_elem? xs i ≡ some x → i < length xs
get_elem?-lt [] i e = cc
get_elem?-lt (x ∷ xs) zero e = omega arith
get_elem?-lt (x ∷ xs) (suc i) e = omega (arith, get_elem?-lt xs i e)

module _ (test : ℕ → Outcome Bool) (fit : ℕ → Bool) (queue : List ℕ) where
  -- Every thread of the queue can be tested, and `fit` says how the test ends.
  abbrev pub Decided : Type 0
  Decided = (i t : ℕ) → get_elem? queue i ≡ some t → test t ≡ ok (fit t)

  -- No thread that the loop comes to within `n` rounds passes the test.
  abbrev pub FailsFor : ℕ → ℕ → Type 0
  FailsFor ctr n =
      (d u : ℕ) → d < n → get_elem? queue ((ctr + d) % length queue) ≡ some u → fit u ≡ false

  FailsFor-suc :
      (ctr n x : ℕ)
      → get_elem? queue (ctr % length queue) ≡ some x
      → fit x ≡ false
      → FailsFor (ctr + 1) n
      → FailsFor ctr (suc n)
  FailsFor-suc ctr n x e f rest zero u h g =
      let c : get_elem? queue (ctr % length queue) ≡ some u = rw (add-zero ctr) at g in
      let same : x ≡ u = some-injective x u (sym e ∙ c) in rw (← same) f
  FailsFor-suc ctr n x e f rest (suc d) u h g =
      let c : ctr + suc d ≡ ctr + 1 + d = omega arith in rest d u (omega arith) (rw c at g)

  -- The thread that the loop comes to after `d` rounds, and that none before it passes the test.
  pub record PicksAfter (ctr d t : ℕ) : Type 0 where
    pub here : get_elem? queue ((ctr + d) % length queue) ≡ some t
    pub passes : fit t ≡ true
    pub before : FailsFor ctr d

  next_loop_cases :
      Decided
      → 0 < length queue
      → (fuel ctr : ℕ) → ctr + fuel < word
      → ((d t : ℕ) × (d < fuel)
          × PicksAfter ctr d t
          × (next_loop test queue fuel ctr ≡ ok (t, ctr + d + 1)))
        ⊎ ((next_loop test queue fuel ctr ≡ spinning) × FailsFor ctr fuel)
  unfolding next_loop
  next_loop_cases dec pos zero ctr w = inr (refl, λ d u h. absurd (omega arith))
  next_loop_cases dec pos (suc fuel) ctr w =
      let (x, e) = get_elem?-some queue (ctr % length queue) (mod-lt ctr pos) in
      let t = dec _ _ e in
      let inc : add32 ctr 1 ≡ ctr + 1 = omega arith in
      elim (Bool-cases (fit x)) [
        | inl yes' ↦ inl (
          0,
          x,
          omega arith,
          record {
            here = rw (add-zero ctr) e;
            passes = yes';
            before = λ d u h. absurd (omega arith);
          },
          ground (arith, e, t, yes', inc),
        )
        | inr no' ↦ elim (next_loop_cases dec pos fuel (ctr + 1) (omega arith)) [
          | inl (d, u, lt, picks, q) ↦ inl (
            suc d,
            u,
            omega arith,
            record {
              here = let c : ctr + suc d ≡ ctr + 1 + d = omega arith in rw c picks.here;
              passes = picks.passes;
              before = FailsFor-suc ctr d x e no' picks.before;
            },
            ground (arith, e, t, no', inc, q),
          )
          | inr (q, all) ↦
              inr (ground (arith, e, t, no', inc, q), FailsFor-suc ctr fuel x e no' all)
        ]
      ]

  next_loop_spins :
      Decided
      → 0 < length queue
      → ((t : ℕ) → fit t ≡ false)
      → (fuel ctr : ℕ) → next_loop test queue fuel ctr ≡ spinning
  unfolding next_loop
  next_loop_spins dec pos none_fits zero ctr = refl
  next_loop_spins dec pos none_fits (suc fuel) ctr =
      let (x, e) = get_elem?-some queue (ctr % length queue) (mod-lt ctr pos) in
      ground
        (arith, e, dec _ _ e, none_fits x, next_loop_spins dec pos none_fits fuel (add32 ctr 1))

module _ (k : Kernel) (fit : ℕ → Bool) (decided : Decided (can_run k) fit k.queue) where
  PicksAfter-nearer :
      (i tid d t : ℕ)
      → i < length k.queue
      → get_elem? k.queue ((k.ctr + wait (length k.queue) k.ctr i) % length k.queue) ≡ some tid
      → fit tid ≡ true
      → PicksAfter (can_run k) fit k.queue k.ctr d t
      → (t ≡ tid) ⊎ (wait (length k.queue) (k.ctr + d + 1) i < wait (length k.queue) k.ctr i)
  PicksAfter-nearer i tid d t inside there f picks =
      let n = length k.queue in
      let w = wait n k.ctr i in
      elim (Bool-cases (ltb d w)) [
        | inl sooner ↦ inr (omega (arith, wait-step n k.ctr d i inside (ltb→lt d w sooner)))
        | inr late ↦ elim (Bool-cases (ltb w d)) [
          | inl later ↦ cc (picks.before w tid (ltb→lt w d later) there)
          | inr now ↦
              let e : d ≡ w = omega (arith, ltb→le d w late, ltb→le w d now) in
              inl (some-injective t tid (sym picks.here ∙ (rw e there)))
        ]
      ]

  -- Where every thread of the queue can be tested, that is, where no test of CanRun goes through a
  -- pointer to a deleted object, and some place `i` of the queue holds a thread that can run,
  -- FindNextThread ends within one round of the queue. It picks the first thread that can run in cyclic order from the counter, leaves
  -- the counter behind it, and either picks the thread at `i` or comes nearer to it, so that no
  -- thread that can run is passed over more often than the queue is long. (The counter is an int:
  -- the theorem is about the rounds before it overflows.)
  pub find_next_thread_rotates :
      (i tid : ℕ)
      → k.ctr + length k.queue < 2 ^ 31
      → get_elem? k.queue i ≡ some tid
      → fit tid ≡ true
      → (d t : ℕ) × (d < length k.queue)
        × PicksAfter (can_run k) fit k.queue k.ctr d t
        × (find_next_thread k ≡ ok (t, record k { ctr = k.ctr + d + 1 }))
        × ((t ≡ tid) ⊎ (wait (length k.queue) (k.ctr + d + 1) i < wait (length k.queue) k.ctr i))
  unfolding find_next_thread
  find_next_thread_rotates i tid w e f =
      let n = length k.queue in
      let inside : i < n = get_elem?-lt k.queue i e in
      let there : get_elem? k.queue ((k.ctr + wait n k.ctr i) % n) ≡ some tid =
        rw (add-wait n k.ctr i inside) e in
      elim (next_loop_cases (can_run k) fit k.queue decided (omega arith) n k.ctr (omega arith)) [
        | inl (d, t, lt, picks, q) ↦ (
          d,
          t,
          lt,
          picks,
          rw (q, find_next_thread),
          PicksAfter-nearer i tid d t inside there f picks,
        )
        | inr (q, all) ↦ cc (all (wait n k.ctr i) tid (wait-lt n k.ctr i inside) there)
      ]

  -- If no thread can run, the loop of FindNextThread never ends: no number of rounds is enough.
  pub find_next_thread_hangs :
      0 < length k.queue
      → ((t : ℕ) → fit t ≡ false)
      → (rounds : ℕ) → next_loop (can_run k) k.queue rounds k.ctr ≡ spinning
  find_next_thread_hangs pos none_fits rounds =
      next_loop_spins (can_run k) fit k.queue decided pos none_fits rounds k.ctr
