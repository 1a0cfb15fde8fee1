-- ===== src/Processes/Exit.antt =====
-- kernel/tasks/process.cpp: what the end of a process leaves.
use nekosys.Base.{
  ℕ, ◌≡◌, ◌≢◌, refl, sym, ap, ◌∙◌, subst, true, false, none, some, List, [], ◌∷◌, ◌==◌,
  if◌then◌else◌, All, arith, Bool-cases, ◌⊎◌, inl, inr,
}
use nekosys.Tasks.Outcome.{ok}
use nekosys.Tasks.Thread.{Kernel, Thread, dead, set_state, put, deref, process_wait}
use nekosys.Tasks.Blockers.{any_alive, blocks, contains}
use nekosys.Files.Vfs.{VirtualFileSystem, read, close}
use nekosys.Files.Vfs.Handles.{IsValid, close_leaves_others}
use nekosys.Video.Framebuffer.{acquire_framebuffer}
use nekosys.Processes.{
  System, remove_pid, get_process, close_files, kill_threads, exit_state, on_process_died,
  put_process,
}

-- The thread object exists.
abbrev pub Exists : Kernel → ℕ → Type 0
Exists k t = (th : Thread) × (k.store t ≡ some th)

-- The thread object exists and is dead.
abbrev pub IsDead : Kernel → ℕ → Type 0
IsDead k t = (th : Thread) × (k.store t ≡ some th) × (th.thread_state ≡ dead)

set_state-dead :
    (k : Kernel) (t : ℕ)
    → Exists k t
    → (k' : Kernel) × (set_state k t dead ≡ ok k')
      × IsDead k' t
      × ((u : ℕ) → u ≢ t → k'.store u ≡ k.store u)
      × (k' ≡ record k { store = k'.store })
unfolding set_state deref
set_state-dead k t (th, e) = (
  put k t (some (record th { thread_state = dead })),
  rw (e, deref) refl,
  (
    record th { thread_state = dead },
    (let same : (t == t) ≡ true = ground arith in rw same refl),
    refl,
  ),
  λ u ne. (let other : (u == t) ≡ false = ground (arith, ne) in rw other refl),
  refl,
)

-- A thread object is the same, or it is dead now.
abbrev After : Kernel → Kernel → ℕ → Type 0
After k k' u = (k'.store u ≡ k.store u) ⊎ IsDead k' u

After-Exists : (k k' : Kernel) (u : ℕ) → After k k' u → Exists k u → Exists k' u
After-Exists k k' u (inl same) (th, e) = (th, same ∙ e)
After-Exists k k' u (inr (th, e, d)) _ = (th, e)

After-IsDead : (k k' : Kernel) (u : ℕ) → After k k' u → IsDead k u → IsDead k' u
After-IsDead k k' u (inl same) (th, e, d) = (th, same ∙ e, d)
After-IsDead k k' u (inr d) _ = d

After-trans : (k k1 k2 : Kernel) (u : ℕ) → After k k1 u → After k1 k2 u → After k k2 u
After-trans k k1 k2 u a (inr d) = inr d
After-trans k k1 k2 u (inl same) (inl same2) = inl (same2 ∙ same)
After-trans k k1 k2 u (inr (th, e, d)) (inl same2) = inr (th, same2 ∙ e, d)

set_state-After :
    (k k' : Kernel) (t : ℕ)
    → IsDead k' t
    → ((u : ℕ) → u ≢ t → k'.store u ≡ k.store u)
    → (u : ℕ) → After k k' u
set_state-After k k' t d others u = elim (Bool-cases (u == t)) [
  | inl e ↦ inr (let same : t ≡ u = ground (arith, e) in subst (λ z. IsDead k' z) same d)
  | inr e ↦ inl (others u (λ same. ground (arith, e, same)))
]

All-map : {P Q : ℕ → Type 0} → ((u : ℕ) → P u → Q u) → (ts : List ℕ) → All P ts → All Q ts
All-map f [] _ = tt
All-map f (t ∷ ts) (p, ps) = (f t p, All-map f ts ps)

contains-here : (t : ℕ) (ts : List ℕ) (u : ℕ) → contains (t ∷ ts) u ≡ false → u ≢ t
unfolding contains
contains-here t ts u c same = ground (arith, c, same)

contains-later : (t : ℕ) (ts : List ℕ) (u : ℕ) → contains (t ∷ ts) u ≡ false → contains ts u ≡ false
unfolding contains
contains-later t ts u c = ground (arith, c)

kill_threads_lem :
    (k : Kernel) (ts : List ℕ)
    → All (Exists k) ts
    → (k' : Kernel) × (kill_threads k ts ≡ ok k')
      × All (IsDead k') ts
      × ((u : ℕ) → contains ts u ≡ false → k'.store u ≡ k.store u)
      × ((u : ℕ) → After k k' u)
      × (k' ≡ record k { store = k'.store })
unfolding kill_threads contains
kill_threads_lem k [] _ = (k, refl, tt, λ u _. refl, λ u. inl refl, refl)
kill_threads_lem k (t ∷ ts) (e, es) =
    let (k1, run, d, others, same) = set_state-dead k t e in
    let after = set_state-After k k1 t d others in
    let (k2, run2, ds, others2, after2, same2) =
      kill_threads_lem k1 ts (All-map (λ u. After-Exists k k1 u (after u)) ts es) in
    (
      k2,
      rw run run2,
      (After-IsDead k1 k2 t (after2 t) d, ds),
      λ u c. others2 u (contains-later t ts u c) ∙ others u (contains-here t ts u c),
      λ u. After-trans k k1 k2 u (after u) (after2 u),
      same2 ∙ ap {A = Kernel} (λ z. record z { store = k2.store }) same,
    )

-- With all its threads dead, a process does not run: nothing that waits for it stays blocked.
any_alive-none : (k : Kernel) (ts : List ℕ) → All (IsDead k) ts → any_alive k ts ≡ ok false
unfolding any_alive deref
any_alive-none k [] _ = refl
any_alive-none k (t ∷ ts) ((th, e, d), ds) = rw (e, deref) (rw d (any_alive-none k ts ds))

abbrev pub Distinct : List ℕ → Type 0
Distinct [] = Unit
Distinct (p ∷ ps) = (contains ps p ≡ false) × Distinct ps

get_process-absent : (ps : List ℕ) (pid : ℕ) → contains ps pid ≡ false → get_process ps pid ≡ none
unfolding get_process
get_process-absent [] pid c = refl
get_process-absent (p ∷ ps) pid c =
    let other : (p == pid) ≡ false = ground (arith, contains-here p ps pid c) in
    rw other (get_process-absent ps pid (contains-later p ps pid c))

remove_pid-removes :
    (ps : List ℕ) (pid : ℕ) → Distinct ps → get_process (remove_pid ps pid) pid ≡ none
unfolding remove_pid get_process
remove_pid-removes [] pid d = refl
remove_pid-removes (p ∷ ps) pid (new, d) = elim (Bool-cases (p == pid)) [
  | inl here ↦
      let same : p ≡ pid = ground (arith, here) in
      rw here (get_process-absent ps pid (subst (λ z. contains ps z ≡ false) same new))
  | inr there ↦ rw there (rw there (remove_pid-removes ps pid d))
]

remove_pid-others :
    (ps : List ℕ) (pid other : ℕ)
    → other ≢ pid
    → get_process (remove_pid ps pid) other ≡ get_process ps other
unfolding remove_pid get_process
remove_pid-others [] pid other ne = refl
remove_pid-others (p ∷ ps) pid other ne = elim (Bool-cases (p == pid)) [
  | inl here ↦ let no : (p == other) ≡ false = ground (arith, here, ne) in rw (here, no) refl
  | inr there ↦
      rw there (ap (λ z. if p == other then some p else z) (remove_pid-others ps pid other ne))
]

close_files_keeps :
    (v : VirtualFileSystem) (fds : List ℕ)
    → IsValid v
    → (fd offset size : ℕ) (dst : List ℕ) → contains fds fd ≡ false
    → read (close_files v fds) fd offset size dst ≡ read v fd offset size dst
unfolding close_files
close_files_keeps v [] valid fd offset size dst c = refl
close_files_keeps v (f ∷ fds) valid fd offset size dst c =
    let (valid', same) = close_leaves_others v f valid in
    close_files_keeps (close v f) fds valid' fd offset size dst (contains-later f fds fd c)
    ∙ same fd offset size dst (contains-here f fds fd c)

-- The process table has no entry for the pid and the process object has the exit code; whoever
-- waits for the process is not blocked any more; the other processes' entries, their objects, the
-- threads that are not the process's and what its other handles read are as they were.
pub record Ended (s : System) (pid code : ℕ) (s' : System) : Type 0 where
  pub gone : get_process s'.processes pid ≡ none
  pub code_set : (s'.objects pid).exit_code ≡ code
  pub unblocks : blocks s'.kernel (process_wait pid) ≡ ok false
  pub others_stay :
      (other : ℕ) → other ≢ pid → get_process s'.processes other ≡ get_process s.processes other
  pub others_same : (other : ℕ) → other ≢ pid → s'.objects other ≡ s.objects other
  pub threads_same :
      (u : ℕ)
      → contains (s.kernel.process_threads pid) u ≡ false
      → s'.kernel.store u ≡ s.kernel.store u
  pub files_same :
      (fd offset size : ℕ) (dst : List ℕ)
      → contains (s.objects pid).open_files fd ≡ false
      → read s'.vfs fd offset size dst ≡ read s.vfs fd offset size dst

-- The state that Exit ends with, for the kernel state after the threads' deaths.
abbrev exited : System → ℕ → ℕ → Kernel → System
exited s pid code k =
    record (put_process (on_process_died s pid) pid (record (s.objects pid) { exit_code = code })) {
      vfs = close_files s.vfs (s.objects pid).open_files;
      kernel = k;
      video =
          if s.video.framebuffer_controller_proc == pid
          then acquire_framebuffer s.video 0
          else s.video;
    }

-- Where the process's threads exist, the process table holds no pid twice and the file handles have
-- ids that were given out, the end of a process runs to its last step: afterwards the table does not
-- have the pid, the process object has the exit code, a thread that waits for the process is not
-- blocked, and the other processes' entries, their objects, the threads that are not the process's
-- and what the other file handles read are as they were.
pub exit_state_ends :
    (s : System) (pid code : ℕ)
    → All (Exists s.kernel) (s.kernel.process_threads pid)
    → Distinct s.processes
    → IsValid s.vfs
    → (s' : System) × (exit_state s pid code ≡ ok s') × Ended s pid code s'
unfolding exit_state on_process_died blocks
exit_state_ends s pid code ex d valid =
    let (k, run, dead_now, others, _, same) =
      kill_threads_lem s.kernel (s.kernel.process_threads pid) ex in
    let here : (pid == pid) ≡ true = ground arith in
    (
      exited s pid code k,
      rw run refl,
      record {
        gone = remove_pid-removes s.processes pid d;
        code_set = rw here refl;
        unblocks =
            subst (λ z. any_alive k (z.process_threads pid) ≡ ok false) (sym same)
              (any_alive-none k (s.kernel.process_threads pid) dead_now);
        others_stay = remove_pid-others s.processes pid;
        others_same =
            λ other ne. (let no : (other == pid) ≡ false = ground (arith, ne) in rw no refl);
        threads_same = others;
        files_same = close_files_keeps s.vfs (s.objects pid).open_files valid;
      },
    )
