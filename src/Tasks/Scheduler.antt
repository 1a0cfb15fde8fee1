-- ===== src/Tasks/Scheduler.antt =====
-- kernel/tasks/scheduler.cpp, and the methods of Thread that call the scheduler.
mod Tests
pub mod Rotation
pub mod Switch
pub mod Interrupt
use nekosys.Base.{
  ℕ, zero, suc, ◌+◌, ◌%◌, ◌<◌, ◌≡◌, Bool, true, false, not, ◌||◌, ◌&&◌, Option, none, some, List,
  [], ◌∷◌, ◌++◌, ltb, ◌==◌, if◌then◌else◌, length, get_elem?,
}
use nekosys.Base.Words.{add32}
use nekosys.Tasks.Outcome.{Outcome, ok, panic, dangling, spinning, ◌>>=◌}
use nekosys.Tasks.Thread.{
  Kernel, Thread, ThreadState, runnable, running, yielded, dead, Blocker, is_dead, is_running,
  is_runnable, deref, put, set_state, get_runtime,
}
use nekosys.Tasks.Blockers.{is_blocked, sleep_blocker}

-- `Start`: the queue gets the thread at its end.
unfoldable pub start : Kernel → ℕ → Kernel
start k tid = record k { queue = k.queue ++ (tid ∷ []) }

-- `FindThread`; thread pointers are their ids, so what is found is whether the queue has one.
pub find_thread : List ℕ → ℕ → Option ℕ
find_thread [] tid = none
find_thread (t ∷ ts) tid = if t == tid then some t else find_thread ts tid

-- `CanRun`
unfoldable pub can_run : Kernel → ℕ → Outcome Bool
unfolding deref is_blocked
can_run k tid = do
  t ← deref k tid
  blocked ← is_blocked k t
  ok (if blocked then false else is_runnable t.thread_state)

-- The loop of FindNextThread for `fuel` rounds: the thread found and the counter after it.
pub next_loop : (ℕ → Outcome Bool) → List ℕ → ℕ → ℕ → Outcome (ℕ × ℕ)
next_loop test queue zero ctr = spinning
next_loop test queue (suc fuel) ctr = elim (get_elem? queue (ctr % length queue)) [
  | none ↦ dangling
  | some tid ↦
      let rest = next_loop test queue fuel (add32 ctr 1) in
      test tid >>= λ fit. if fit then ok (tid, add32 ctr 1) else rest
]

-- `FindNextThread`. One round of the queue is enough; see Scheduler/Rotation.antt.
unfoldable pub find_next_thread : Kernel → Outcome (ℕ × Kernel)
unfolding next_loop can_run
find_next_thread k =
    next_loop (can_run k) k.queue (length k.queue) k.ctr >>= λ r. ok (r.0, record k { ctr = r.1 })

-- The queue without its first entry `tid`.
pub remove_thread : List ℕ → ℕ → List ℕ
remove_thread [] tid = []
remove_thread (t ∷ ts) tid = if t == tid then ts else t ∷ remove_thread ts tid

-- `ContextSwitch`, up to the page directory, the task state segment and the stack pointers.
unfoldable pub context_switch : Kernel → ℕ → ℕ → Outcome Kernel
unfolding deref
context_switch k old new = if new == old then ok k else do
  t ← deref k new
  let t' = record t { thread_state = running; current_slice_start = k.uptime; blocker = none }
  let k' = record (put k new (some t')) { current = new; current_process = t.process }
  o ← deref k' old
  ok (if is_dead o.thread_state then put k' old none else k')

-- `PreemptCurrent`
unfoldable pub preempt_current : Kernel → Outcome Kernel
unfolding find_next_thread context_switch
preempt_current k =
    if length k.queue == 0
    then panic
    else find_next_thread k >>= λ r. context_switch r.1 k.current r.0

-- `HandleInterrupt`, which `Yield` calls too.
unfoldable pub handle_interrupt : Kernel → Outcome Kernel
unfolding set_state deref
handle_interrupt k = do
  t ← deref k k.current
  let requeued = set_state k k.current runnable >>= preempt_current
  let buried = preempt_current (record k { queue = remove_thread k.queue k.current })
  if not (is_running t.thread_state) || ltb 25 (get_runtime k t)
      then (if is_dead t.thread_state then buried else requeued)
      else ok k

-- Thread::Yield
unfoldable pub yield_thread : Kernel → ℕ → Outcome Kernel
unfolding handle_interrupt
yield_thread k tid = if tid == k.current then set_state k tid yielded >>= handle_interrupt else ok k

-- Thread::Kill
unfoldable pub kill : Kernel → ℕ → Outcome Kernel
unfolding handle_interrupt
kill k tid = set_state k tid dead >>= λ k'. if tid == k.current then handle_interrupt k' else ok k'

-- Thread::Block
unfoldable pub block : Kernel → ℕ → Blocker → Outcome Kernel
unfolding yield_thread
block k tid b = do
  t ← deref k tid
  yield_thread (put k tid (some (record t { blocker = some b }))) tid

-- Thread::Sleep
unfoldable pub sleep_thread : Kernel → ℕ → ℕ → Outcome Kernel
unfolding block sleep_blocker
sleep_thread k tid ms = block k tid (sleep_blocker k ms)
