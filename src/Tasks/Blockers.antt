-- ===== src/Tasks/Blockers.antt =====
-- kernel/tasks/blockers.cpp: what a blocked thread waits for.
use nekosys.Base.{ℕ, Bool, true, false, not, none, some, List, [], ◌∷◌, ltb, ◌==◌, if◌then◌else◌}
use nekosys.Base.Words.{add32}
use nekosys.Tasks.Outcome.{Outcome, ok, ◌>>=◌}
use nekosys.Tasks.Thread.{
  Kernel, Thread, Blocker, sleep, process_wait, keyboard, pipe, thread_join, is_dead, deref,
}

-- The constructor SleepThreadBlocker(timeout).
unfoldable pub sleep_blocker : Kernel → ℕ → Blocker
sleep_blocker k timeout = sleep (add32 k.uptime timeout)

-- nk::Vector::Contains on the keyboard's buffer and on the receivers of a pipe's packets.
unfoldable pub contains : List ℕ → ℕ → Bool
contains [] x = false
contains (y ∷ ys) x = if y == x then true else contains ys x

-- The loop of Process::IsRunning.
unfoldable pub any_alive : Kernel → List ℕ → Outcome Bool
any_alive k [] = ok false
any_alive k (t ∷ ts) =
    let rest = any_alive k ts in
    deref k t >>= λ th. if is_dead th.thread_state then rest else ok true

-- IsBlocked of each class.
unfoldable pub blocks : Kernel → Blocker → Outcome Bool
unfolding contains any_alive deref
blocks k (sleep time) = ok (ltb k.uptime time)
blocks k (process_wait pid) = any_alive k (k.process_threads pid)
blocks k (keyboard delim) = ok (not (contains k.key_buffer delim))
blocks k (pipe me id) =
    ok (if (k.pipes id).broken then false else not (contains (k.pipes id).receivers me))
blocks k (thread_join tid) = deref k tid >>= λ t. ok (not (is_dead t.thread_state))

-- Thread::IsBlocked
unfoldable pub is_blocked : Kernel → Thread → Outcome Bool
unfolding blocks
is_blocked k t = elim t.blocker [ none ↦ ok false | some b ↦ blocks k b ]
