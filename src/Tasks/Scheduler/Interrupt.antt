-- ===== src/Tasks/Scheduler/Interrupt.antt =====
-- kernel/tasks/scheduler.cpp: the guarantees of HandleInterrupt, and what it does to waiting threads.
use nekosys.Base.{
  ℕ, ◌≤◌, ◌≡◌, ◌≢◌, ◌⊎◌, sym, ap, ◌∙◌, inl, inr, none, some, List, ◌∷◌, arith, ◌==◌, Bool-cases,
  ==_iff,
}
use mathlib.Core.Option.{some-injective}
use nekosys.Tasks.Outcome.{ok, dangling}
use nekosys.Tasks.Thread.{
  Kernel, Thread, runnable, running, dead, process_wait, thread_join, get_runtime,
}
use nekosys.Tasks.Blockers.{blocks}
use nekosys.Tasks.Scheduler.{remove_thread, context_switch, preempt_current, handle_interrupt}
use nekosys.Tasks.Scheduler.Switch.{
  In, remove_thread-In, can_run-ok, preempt_current-ok, chosen, context_switch-Switched, requeued,
  unqueued, handle_interrupt-cases,
}

-- The thread `u` that was runnable in `k` has been switched to.
pub record Resumed (k : Kernel) (u : Thread) (k' : Kernel) : Type 0 where
  pub was_stored : k.store k'.current ≡ some u
  pub was_runnable : u.thread_state ≡ runnable
  pub stored : k'.store k'.current ≡ some (chosen k u)
  pub its_process : k'.current_process ≡ u.process

context_switch_self :
    (k : Kernel) (old : ℕ) {k' : Kernel} → context_switch k old old ≡ ok k' → k' ≡ k
unfolding context_switch
context_switch_self k old e = ground arith

module _ (k : Kernel) (t : Thread) {k' : Kernel} (here : k.store k.current ≡ some t)
    (e : handle_interrupt k ≡ ok k') where
  dead_switches :
      t.thread_state ≡ dead
      → preempt_current (unqueued k) ≡ ok k'
      → In k'.current k.queue
        × (u : Thread) × Resumed k u k'
        × (k'.store k.current ≡ none)
        × (k'.current ≢ k.current)
        × (k'.queue ≡ remove_thread k.queue k.current)
        × (k'.process_threads ≡ k.process_threads)
  dead_switches d p =
      let (new, c, place, fits, s) = preempt_current-ok (unqueued k) p in
      let (u, at, r, _) = can_run-ok (unqueued k) new fits in
      let ne : new ≢ k.current =
        λ q. let same : u ≡ t = some-injective u t (sym at ∙ ap k.store q ∙ here) in cc in
      let sw = context_switch-Switched (record (unqueued k) { ctr = c }) k.current new u ne at s in
      (
        rw sw.now_current (remove_thread-In k.queue k.current new place),
        u,
        record {
          was_stored = rw sw.now_current at;
          was_runnable = r;
          stored = rw sw.now_current sw.stored;
          its_process = sw.now_process;
        },
        sw.buried t here d,
        rw sw.now_current ne,
        sw.same_queue,
        sw.same_processes,
      )

  live_switches :
      t.thread_state ≢ dead
      → preempt_current (requeued k t) ≡ ok k'
      → In k'.current k.queue
        × (((k'.current ≡ k.current)
              × (k'.store k'.current ≡ some (record t { thread_state = runnable })))
            ⊎ ((u : Thread) × Resumed k u k'))
  live_switches l p =
      let (new, c, place, fits, s) = preempt_current-ok (requeued k t) p in
      let (u, at, r, _) = can_run-ok (requeued k t) new fits in
      let k1 = record (requeued k t) { ctr = c } in
      elim (Bool-cases (new == k.current)) [
        | inl self ↦
            let q : new ≡ k.current = (==_iff new k.current).0 self in
            let same : k' ≡ k1 = context_switch_self k1 k.current (rw q at s) in
            (
              rw (same, ← q) place,
              inl (ap (λ (z : Kernel). z.current) same, rw same (ground arith)),
            )
        | inr other ↦
            let ne : new ≢ k.current = λ q. ground (arith, other, q) in
            let sw = context_switch-Switched k1 k.current new u ne at s in
            let before : k.store new ≡ some u = ground (arith, at, other) in
            (
              rw sw.now_current place,
              inr (
                u,
                record {
                  was_stored = rw sw.now_current before;
                  was_runnable = r;
                  stored = rw sw.now_current sw.stored;
                  its_process = sw.now_process;
                },
              ),
            )
      ]

  -- Where HandleInterrupt ends: either nothing changed, the current thread is running and has had
  -- at most 25 ms; or the current thread was not dead, was made runnable and stays the current one; or
  -- a thread of the queue that was runnable is current, running, without blocker, in a fresh time
  -- slice and in its own process.
  pub handle_interrupt_switches :
      ((k' ≡ k) × (t.thread_state ≡ running) × (get_runtime k t ≤ 25))
      ⊎ (In k'.current k.queue
          × (((t.thread_state ≢ dead)
                × (k'.current ≡ k.current)
                × (k'.store k'.current ≡ some (record t { thread_state = runnable })))
              ⊎ ((u : Thread) × Resumed k u k')))
  handle_interrupt_switches = elim (handle_interrupt-cases k t here e) [
    | inl kept ↦ inl kept
    | inr (inl (d, p)) ↦
        let (place, u, r, _, _, _, _) = dead_switches d p in inr (place, inr (u, r))
    | inr (inr (l, p)) ↦
        let (place, next) = live_switches l p in
        elim next [
          | inl (self, st) ↦ inr (place, inl (l, self, st))
          | inr (u, r) ↦ inr (place, inr (u, r))
        ]
  ]

  dead_outcome :
      t.thread_state ≡ dead
      → In k'.current k.queue
        × (u : Thread) × Resumed k u k'
        × (k'.store k.current ≡ none)
        × (k'.current ≢ k.current)
        × (k'.queue ≡ remove_thread k.queue k.current)
        × (k'.process_threads ≡ k.process_threads)
  dead_outcome d = elim (handle_interrupt-cases k t here e) [
    | inl (_, r, _) ↦ cc
    | inr (inl (_, p)) ↦ dead_switches d p
    | inr (inr (l, _)) ↦ absurd (l d)
  ]

  -- The deleted thread is still on its process's list: whoever waits for the process, and whoever
  -- joins the thread, follows a pointer to a deleted object when its blocker is asked next.
  pub handle_interrupt_leaves_dangling :
      (pid : ℕ) (ts : List ℕ)
      → t.thread_state ≡ dead
      → k.process_threads pid ≡ k.current ∷ ts
      → (blocks k' (process_wait pid) ≡ dangling) × (blocks k' (thread_join k.current) ≡ dangling)
  unfolding blocks
  handle_interrupt_leaves_dangling pid ts d q =
      let (_, _, _, gone, _, _, procs) = dead_outcome d in
      let list : k'.process_threads pid ≡ k.current ∷ ts = ap (λ f. f pid) procs ∙ q in
      ground (arith, gone, list)
