-- ===== src/Tasks/Thread.antt =====
-- kernel/include/kernel/tasks/thread.h and kernel/tasks/thread.cpp: the thread objects, and the
-- kernel state that the task code reads and writes.
use nekosys.Base.{ℕ, Bool, true, false, Option, none, some, List, ◌==◌, if◌then◌else◌}
use nekosys.Base.Words.{add32, sub32}
use nekosys.Tasks.Outcome.{Outcome, ok, dangling, ◌>>=◌}

pub data ThreadState : Type 0 where
  runnable : ThreadState
  running : ThreadState
  yielded : ThreadState
  dead : ThreadState

pub data Ring : Type 0 where
  ring0 : Ring
  ring3 : Ring

-- The blocker classes with their fields. Objects are named by their ids, which are unique.
pub data Blocker : Type 0 where
  sleep : ℕ → Blocker
  process_wait : ℕ → Blocker
  keyboard : ℕ → Blocker
  pipe : ℕ → ℕ → Blocker
  thread_join : ℕ → Blocker

-- `process` is the pid of the thread's process.
pub record Thread : Type 0 where
  pub id : ℕ
  pub ring : Ring
  pub thread_state : ThreadState
  pub process : ℕ
  pub blocker : Option Blocker
  pub current_slice_start : ℕ

-- What the blockers read of a named pipe: whether it is broken, and its packets' receivers.
pub record PipeView : Type 0 where
  pub broken : Bool
  pub receivers : List ℕ

-- The kernel's objects: `store` holds the thread with each id, and `none` for one that was deleted
-- or not created; `queue` is Scheduler::threads, `process_threads` gives Process::threads by pid.
pub record Kernel : Type 0 where
  pub store : ℕ → Option Thread
  pub id_counter : ℕ
  pub current : ℕ
  pub current_process : ℕ
  pub queue : List ℕ
  pub ctr : ℕ
  pub uptime : ℕ
  pub key_buffer : List ℕ
  pub process_threads : ℕ → List ℕ
  pub pipes : ℕ → PipeView

abbrev pub is_dead : ThreadState → Bool
is_dead dead = true
is_dead _ = false

abbrev pub is_running : ThreadState → Bool
is_running running = true
is_running _ = false

abbrev pub is_runnable : ThreadState → Bool
is_runnable runnable = true
is_runnable _ = false

-- Following a pointer to a thread.
unfoldable pub deref : Kernel → ℕ → Outcome Thread
deref k tid = elim (k.store tid) [ none ↦ dangling | some t ↦ ok t ]

-- A write to the thread object with the id `tid`.
abbrev pub put : Kernel → ℕ → Option Thread → Kernel
put k tid t = record k { store = λ j. if j == tid then t else k.store j }

-- `SetState`
unfoldable pub set_state : Kernel → ℕ → ThreadState → Outcome Kernel
unfolding deref
set_state k tid s = do t ← deref k tid; ok (put k tid (some (record t { thread_state = s })))

-- `GetRuntime`
unfoldable pub get_runtime : Kernel → Thread → ℕ
get_runtime k t = sub32 k.uptime t.current_slice_start

-- The constructor, for a thread of the process `pid`: the stack and the page directory are not
-- modelled.
unfoldable pub create_thread : Kernel → Ring → ℕ → ℕ × Kernel
create_thread k ring pid =
    let tid = k.id_counter in
    let t : Thread = record {
      id = tid;
      ring = ring;
      thread_state = runnable;
      process = pid;
      blocker = none;
      current_slice_start = 0;
    } in
    (tid, record (put k tid (some t)) { id_counter = add32 tid 1 })
