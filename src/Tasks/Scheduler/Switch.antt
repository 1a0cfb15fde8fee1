-- ===== src/Tasks/Scheduler/Switch.antt =====
-- kernel/tasks/scheduler.cpp: what the timer interrupt leaves behind.
use nekosys.Base.{
  ℕ, zero, suc, ◌%◌, ◌≤◌, ◌≡◌, ◌≢◌, ◌⊎◌, refl, inl, inr, Bool, true, false, none, some, List, [],
  ◌∷◌, arith, ltb, ◌==◌, length, get_elem?, Bool-cases, Option-cases, ltb→le,
}
use mathlib.Core.Path.{subst}
use nekosys.Base.Words.{add32}
use nekosys.Tasks.Outcome.{Outcome, ok, first_ok, ok-injective, Outcome-cases}
use nekosys.Tasks.Thread.{
  Kernel, Thread, ThreadState, runnable, running, yielded, dead, deref, put, get_runtime,
}
use nekosys.Tasks.Blockers.{is_blocked}
use nekosys.Tasks.Scheduler.{
  can_run, next_loop, find_next_thread, remove_thread, context_switch, preempt_current,
  handle_interrupt,
}

-- The list holds `t` at some place.
abbrev pub In : ℕ → List ℕ → Type 0
In t xs = (i : ℕ) × (get_elem? xs i ≡ some t)

pub remove_thread-In : (xs : List ℕ) (u t : ℕ) → In t (remove_thread xs u) → In t xs
unfolding remove_thread
remove_thread-In [] u t (i, e) = cc
remove_thread-In (x ∷ xs) u t (i, e) = elim (Bool-cases (x == u)) [
  | inl hit ↦ (suc i, ground (arith, hit))
  | inr miss ↦ go (remove_thread-In xs u t) i (ground (arith, miss))
]
  where
    go :
        (In t (remove_thread xs u) → In t xs)
        → (i : ℕ) → get_elem? (x ∷ remove_thread xs u) i ≡ some t
        → In t (x ∷ xs)
    go rest zero e = (0, e)
    go rest (suc i) e = let (j, q) = rest (i, e) in (suc j, q)

deref-ok : (k : Kernel) (tid : ℕ) {t : Thread} → deref k tid ≡ ok t → k.store tid ≡ some t
unfolding deref
deref-ok k tid e = ground arith

next_loop-ok :
    (test : ℕ → Outcome Bool) (queue : List ℕ) (fuel ctr t c : ℕ)
    → next_loop test queue fuel ctr ≡ ok (t, c)
    → In t queue × (test t ≡ ok true)
unfolding next_loop
next_loop-ok test queue zero ctr t c e = cc
next_loop-ok test queue (suc fuel) ctr t c e =
    elim (Option-cases (get_elem? queue (ctr % length queue))) [
      | inl out ↦ ground (arith, out)
      | inr (x, at) ↦ elim (Outcome-cases (test x)) [
        | inl fits ↦
            let same : x ≡ t = ground (arith, at, fits) in
            ((ctr % length queue, rw same at at), rw same at fits)
        | inr (inl unfit) ↦
            next_loop-ok test queue fuel (add32 ctr 1) t c (ground (arith, at, unfit))
        | inr (inr (inl q)) ↦ ground (arith, at, q)
        | inr (inr (inr (inl q))) ↦ ground (arith, at, q)
        | inr (inr (inr (inr q))) ↦ ground (arith, at, q)
      ]
    ]

pub can_run-ok :
    (k : Kernel) (tid : ℕ)
    → can_run k tid ≡ ok true
    → (t : Thread) × (k.store tid ≡ some t)
      × (t.thread_state ≡ runnable)
      × (is_blocked k t ≡ ok false)
unfolding can_run deref
can_run-ok k tid e = ground arith

find_next_thread-ok :
    (k : Kernel) (r : ℕ × Kernel)
    → find_next_thread k ≡ ok r
    → In r.0 k.queue × (can_run k r.0 ≡ ok true) × (r.1 ≡ record k { ctr = r.1.ctr })
unfolding find_next_thread
find_next_thread-ok k r e =
    let (p, s, q) =
      first_ok {B = ℕ × Kernel} (λ (p : ℕ × ℕ). ok (p.0, record k { ctr = p.1 }))
        (next_loop (can_run k) k.queue (length k.queue) k.ctr) e in
    let (place, fits) = next_loop-ok (can_run k) k.queue (length k.queue) k.ctr p.0 p.1 q in
    subst
      (λ (z : ℕ × Kernel).
        In z.0 k.queue × (can_run k z.0 ≡ ok true) × (z.1 ≡ record k { ctr = z.1.ctr }))
      (ok-injective s) (place, fits, refl)

pub preempt_current-ok :
    (k : Kernel) {k' : Kernel}
    → preempt_current k ≡ ok k'
    → (new c : ℕ) × In new k.queue
      × (can_run k new ≡ ok true)
      × (context_switch (record k { ctr = c }) k.current new ≡ ok k')
unfolding preempt_current
preempt_current-ok k {k'} e = elim (Bool-cases (length k.queue == 0)) [
  | inl nothing ↦ ground (arith, nothing)
  | inr something ↦
      let (r, s, q) =
        first_ok (λ (r : ℕ × Kernel). context_switch r.1 k.current r.0) (find_next_thread k)
          (rw (something, preempt_current) at e) in
      let (place, fits, same) = find_next_thread-ok k r q in
      (r.0, r.1.ctr, place, fits, rw same at s)
]

-- The thread as ContextSwitch leaves it when it is chosen.
abbrev pub chosen : Kernel → Thread → Thread
chosen k t = record t { thread_state = running; current_slice_start = k.uptime; blocker = none }

-- A switch from `old` to the thread `t` at `new`.
pub record Switched (k : Kernel) (old new : ℕ) (t : Thread) (k' : Kernel) : Type 0 where
  pub now_current : k'.current ≡ new
  pub now_process : k'.current_process ≡ t.process
  pub stored : k'.store new ≡ some (chosen k t)
  pub same_queue : k'.queue ≡ k.queue
  pub same_processes : k'.process_threads ≡ k.process_threads
  pub buried : (o : Thread) → k.store old ≡ some o → o.thread_state ≡ dead → k'.store old ≡ none

pub context_switch-Switched :
    (k : Kernel) (old new : ℕ) (t : Thread) {k' : Kernel}
    → new ≢ old
    → k.store new ≡ some t
    → context_switch k old new ≡ ok k'
    → Switched k old new t k'
unfolding context_switch
context_switch-Switched k old new t {k'} ne s e = elim (Option-cases (k.store old)) [
  | inl gone ↦ ground (arith, gone)
  | inr (o, at) ↦ record {
    now_current = ground (arith, at);
    now_process = ground (arith, at);
    stored = ground (arith, at);
    same_queue = ground (arith, at);
    same_processes = ground (arith, at);
    buried = λ p q d. ground (arith, at);
  }
]

-- The state that HandleInterrupt preempts from.
abbrev pub requeued : Kernel → Thread → Kernel
requeued k t = put k k.current (some (record t { thread_state = runnable }))

abbrev pub unqueued : Kernel → Kernel
unqueued k = record k { queue = remove_thread k.queue k.current }

pub handle_interrupt-cases :
    (k : Kernel) (t : Thread) {k' : Kernel}
    → k.store k.current ≡ some t
    → handle_interrupt k ≡ ok k'
    → ((k' ≡ k) × (t.thread_state ≡ running) × (get_runtime k t ≤ 25))
      ⊎ ((t.thread_state ≡ dead) × (preempt_current (unqueued k) ≡ ok k'))
      ⊎ ((t.thread_state ≢ dead) × (preempt_current (requeued k t) ≡ ok k'))
unfolding handle_interrupt
handle_interrupt-cases k t {k'} s e = go t.thread_state refl
  where
    go :
        (st : ThreadState)
        → t.thread_state ≡ st
        → ((k' ≡ k) × (t.thread_state ≡ running) × (get_runtime k t ≤ 25))
          ⊎ ((t.thread_state ≡ dead) × (preempt_current (unqueued k) ≡ ok k'))
          ⊎ ((t.thread_state ≢ dead) × (preempt_current (requeued k t) ≡ ok k'))
    go dead q = inr (inl (q, ground (arith, s, q)))
    go running q = elim (Bool-cases (ltb 25 (get_runtime k t))) [
      | inl over ↦ inr (inr ((λ p. cc), ground (arith, s, q, over)))
      | inr within ↦ inl (ground (arith, s, q, within), q, ltb→le _ _ within)
    ]
    go runnable q = inr (inr ((λ p. cc), ground (arith, s, q)))
    go yielded q = inr (inr ((λ p. cc), ground (arith, s, q)))
