-- ===== src/Tasks/Scheduler/Tests.antt =====
-- kernel/tasks/scheduler.cpp: runs of the scheduler, and its theorems at a concrete kernel.
use nekosys.Base.{
  ℕ, zero, suc, ◌+◌, ◌≤◌, ◌<◌, ◌≡◌, ◌≢◌, ◌⊎◌, refl, Bool, false, Option, none, some, [], ◌∷◌, arith,
  ◌==◌, if◌then◌else◌,
}
use nekosys.Tasks.Outcome.{ok, ◌>>=◌}
use nekosys.Tasks.Thread.{
  Kernel, Thread, ThreadState, runnable, running, dead, ring0, ring3, Blocker, sleep, create_thread,
  get_runtime,
}
use nekosys.Tasks.Scheduler.{
  start, find_thread, can_run, find_next_thread, remove_thread, handle_interrupt, preempt_current,
  yield_thread, kill, sleep_thread,
}
use nekosys.Tasks.Scheduler.Rotation.{wait, Decided, PicksAfter, find_next_thread_rotates}
use nekosys.Tasks.Scheduler.Switch.{In}
use nekosys.Tasks.Scheduler.Interrupt.{Resumed, handle_interrupt_switches}

abbrev thread : ℕ → ThreadState → Option Blocker → Thread
thread id st b = record {
  id = id;
  ring = ring3;
  thread_state = st;
  process = id;
  blocker = b;
  current_slice_start = 0;
}

-- Threads 0 to 2: the current one in the given state, an idle one, and a sleeper.
abbrev kernel : ThreadState → Kernel
kernel st = record {
  store = λ i.
      if i == 0
      then some (thread 0 st none)
      else if i == 1
      then some (thread 1 runnable none)
      else if i == 2
      then some (thread 2 runnable (some (sleep 500)))
      else none;
  id_counter = 3;
  current = 0;
  current_process = 0;
  queue = 0 ∷ 2 ∷ 1 ∷ [];
  ctr = 1;
  uptime = 30;
  key_buffer = [];
  process_threads = λ p. p ∷ [];
  pipes = λ p. record { broken = false; receivers = [] };
}

-- What `can_run` answers there.
abbrev fits : ℕ → Bool
fits i = i == 1

decided : Decided (can_run (kernel dead)) fits (kernel dead).queue
unfolding can_run
decided zero t e = ground arith
decided (suc zero) t e = ground arith
decided (suc (suc zero)) t e = ground arith
decided (suc (suc (suc i))) t e = cc

-- All asleep: thread 0 is dead, thread 2 sleeps.
abbrev stuck : Kernel
stuck = record (kernel dead) { queue = 0 ∷ 2 ∷ [] }

abbrev nobody : ℕ → Bool
nobody i = false

stuck_decided : Decided (can_run stuck) nobody stuck.queue
unfolding can_run
stuck_decided zero t e = ground arith
stuck_decided (suc zero) t e = ground arith
stuck_decided (suc (suc i)) t e = cc

-- The sleeper at place 1 is passed over; thread 1 follows the dead thread 0.
switch_runs :
    ((handle_interrupt (kernel dead) >>= λ k. ok k.current) ≡ ok 1)
    × ((handle_interrupt (kernel dead) >>= λ k. ok k.queue) ≡ ok (2 ∷ 1 ∷ []))
    × ((yield_thread (kernel running) 0 >>= λ k. ok k.current) ≡ ok 1)
    × ((sleep_thread (kernel running) 0 5 >>= λ k. ok k.current) ≡ ok 1)
    × ((kill (kernel running) 1 >>= λ k. ok k.current) ≡ ok 0)
    × (find_thread (0 ∷ 2 ∷ []) 2 ≡ some 2)
    × ((start (kernel dead) 7).queue ≡ 0 ∷ 2 ∷ 1 ∷ 7 ∷ [])
    × ((create_thread (kernel dead) ring0 0).0 ≡ 3)
unfolding handle_interrupt preempt_current yield_thread kill sleep_thread remove_thread find_thread
    start create_thread get_runtime
switch_runs = (refl, refl, refl, refl, refl, refl, refl, refl)

find_next_thread_rotates_example :
    (d t : ℕ) × (d < 3)
    × PicksAfter (can_run (kernel dead)) fits (kernel dead).queue 1 d t
    × (find_next_thread (kernel dead) ≡ ok (t, record (kernel dead) { ctr = 1 + d + 1 }))
    × ((t ≡ 1) ⊎ (wait 3 (1 + d + 1) 2 < wait 3 1 2))
find_next_thread_rotates_example =
    find_next_thread_rotates (kernel dead) fits decided 2 1 (omega arith) refl refl

-- The kernel after the interrupt at which thread 0 is dead.
abbrev after : Kernel
after = elim (handle_interrupt (kernel dead)) [ ok k ↦ k | other ↦ stuck ]

interrupted : handle_interrupt (kernel dead) ≡ ok after
unfolding handle_interrupt preempt_current remove_thread get_runtime
interrupted = refl

handle_interrupt_switches_example :
    ((after ≡ kernel dead)
      × (ThreadState.dead ≡ running)
      × (get_runtime (kernel dead) (thread 0 dead none) ≤ 25))
    ⊎ (In after.current (0 ∷ 2 ∷ 1 ∷ [])
        × (((ThreadState.dead ≢ dead)
              × (after.current ≡ 0)
              × (after.store after.current ≡ some (thread 0 runnable none)))
            ⊎ ((u : Thread) × Resumed (kernel dead) u after)))
handle_interrupt_switches_example =
    handle_interrupt_switches (kernel dead) (thread 0 dead none) refl interrupted
