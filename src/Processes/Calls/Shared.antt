-- ===== src/Processes/Calls/Shared.antt =====
-- kernel/syscalls.cpp: shared buffers, from their creation to the end of the process that made them.
use nekosys.Base.{
  ℕ, ◌+◌, ◌*◌, ◌/◌, ◌≤◌, ◌<◌, ◌≡◌, refl, sym, ap, ◌∙◌, some, none, false, subst, [], ◌∷◌, ◌++◌,
  ◌==◌, arith, Bool-cases, inl, inr,
}
use mathlib.Core.Path.{fun_ext}
use nekosys.Base.Words.{word, add32}
use nekosys.Tasks.Outcome.{ok, first_ok, ok-injective}
use nekosys.Memory.PageManager.Continuous.{Continuous, alloc_continuous_marks}
use nekosys.Memory.PageManager.{PageManager, IsValid, page_size, alloc_continuous}
use nekosys.Pipes.{success, failure, enoent}
use nekosys.Processes.{
  System, Process, SharedBuffer, find_buffer, find_shbuf, get_process, remove_pid, put_process,
  exit_state, kill_threads, on_process_died, current_process,
}
use nekosys.Processes.Exit.{Distinct}
use nekosys.Processes.Calls.{sys_shbuf_create, sys_shbuf_map}
use nekosys.Processes.Calls.Lookup.{
  find_buffer-append, find_shbuf-Unused, Unused-find_shbuf, changed, changed_twice,
  find_shbuf-changed, Unused-remove_pid, Unused-at,
}

sys_shbuf_map_unknown :
    (s : System) (id : ℕ)
    → find_shbuf s.objects s.processes id ≡ none
    → sys_shbuf_map s id ≡ ok (failure enoent)
unfolding sys_shbuf_map
sys_shbuf_map_unknown s id e = rw (e, sys_shbuf_map) refl

success-injective {ℓ} : {A : Type ℓ} {a b : A} → success a ≡ success b → a ≡ b
success-injective e = cc

module _ (s : System) (size : ℕ) (r : ℕ × System) (made : sys_shbuf_create s size ≡ success r)
    (unused : find_shbuf s.objects s.processes s.shbuf_counter ≡ none) where
  pid : ℕ
  pid = s.kernel.current_process

  pages : ℕ
  pages = add32 size page_size / page_size

  buffer : SharedBuffer
  unfolding pages
  buffer = record {
    bufid = s.shbuf_counter;
    base_frame = (alloc_continuous s.machine.manager pages).0;
    num_pages = pages;
  }

  owner : Process
  unfolding buffer
  owner = record (current_process s) { shbufs = (current_process s).shbufs ++ (buffer ∷ []) }

  result : ℕ × System
  unfolding owner pages pid
  result = (
    s.shbuf_counter,
    record (put_process s s.kernel.current_process owner) {
      machine = record s.machine { manager = (alloc_continuous s.machine.manager pages).1 };
      shbuf_counter = add32 s.shbuf_counter 1;
    },
  )

  shape : r ≡ result
  unfolding sys_shbuf_create result owner buffer pages
  shape =
      elim (Bool-cases
        ((alloc_continuous s.machine.manager (add32 size page_size / page_size)).0 == 0)) [
          | inl full ↦ cc (rw full at made)
          | inr room ↦ sym (success-injective (rw room at made))
        ]

  result_id : r.0 ≡ s.shbuf_counter
  unfolding result
  result_id = ap (λ (z : ℕ × System). z.0) shape

  owner_has :
      get_process s.processes s.kernel.current_process ≡ some s.kernel.current_process
      → find_buffer owner.shbufs s.shbuf_counter ≡ some buffer
  unfolding owner buffer
  owner_has listed =
      find_buffer-append (current_process s).shbufs buffer s.shbuf_counter
        (Unused-at s.objects s.shbuf_counter s.kernel.current_process s.processes
          (find_shbuf-Unused s.objects s.shbuf_counter s.processes unused) listed)
        refl

  base_nonzero : ((alloc_continuous s.machine.manager pages).0 == 0) ≡ false
  unfolding sys_shbuf_create pages
  base_nonzero =
      elim (Bool-cases
        ((alloc_continuous s.machine.manager (add32 size page_size / page_size)).0 == 0)) [
          | inl full ↦ cc (rw full at made)
          | inr room ↦ room
        ]

  -- The frames of the buffer, in the state after the call.
  frames_taken :
      IsValid s.machine.manager
      → s.machine.manager.num_pages + 1048576 ≤ word
      → (i : ℕ) × Continuous s.machine.manager buffer.num_pages i buffer.base_frame
          r.1.machine.manager
  unfolding buffer result pages
  frames_taken valid small =
      let few : s.machine.manager.num_pages + pages ≤ word = omega (arith, small) in
      elim (alloc_continuous_marks valid pages few) [
        | inl (i, a, m', run, done) ↦
            let address : a ≡ buffer.base_frame = sym (ap (λ (z : ℕ × PageManager). z.0) run) in
            let after : m' ≡ r.1.machine.manager =
              sym (ap (λ (z : ℕ × PageManager). z.1) run)
              ∙ sym (ap (λ (z : ℕ × System). z.1.machine.manager) shape) in
            (
              i,
              subst (λ z. Continuous s.machine.manager pages i z r.1.machine.manager) address
                  (subst (λ z. Continuous s.machine.manager pages i a z) after done),
            )
        | inr (none_left, _) ↦
            let zero_base : (alloc_continuous s.machine.manager pages).0 ≡ 0 =
              ap (λ (z : ℕ × PageManager). z.0) none_left in
            absurd (ground (arith, zero_base, base_nonzero))
      ]

  -- Where the current process is in the table, the id was not in use and the frames of the page manager
  -- are in a valid state, and fewer than 2^32 - 2^20, a shared buffer that the current process has
  -- created is found by its id. Its pages are a run of frames from its base frame on that was unused
  -- before and is marked used now, with no other frame changed; and they are enough for the bytes
  -- asked for, where these are less than 4 GB - 4 KB. (A run can pass the last frame that is managed.)
  pub shbuf_create_finds :
      get_process s.processes s.kernel.current_process ≡ some s.kernel.current_process
      → IsValid s.machine.manager
      → s.machine.manager.num_pages + 1048576 ≤ word
      → (b : SharedBuffer) × (find_shbuf r.1.objects r.1.processes r.0 ≡ some b)
        × ((i : ℕ) × Continuous s.machine.manager b.num_pages i b.base_frame r.1.machine.manager)
        × (size + page_size < word → size ≤ b.num_pages * page_size)
  unfolding result buffer pages
  shbuf_create_finds listed valid small = (
    buffer,
    ap (λ (z : ℕ × System). find_shbuf z.1.objects z.1.processes z.0) shape
        ∙ find_shbuf-changed s.objects s.kernel.current_process s.shbuf_counter owner buffer
            s.processes (owner_has listed)
            (find_shbuf-Unused s.objects s.shbuf_counter s.processes unused) listed,
    frames_taken valid small,
    λ fits. omega (arith, fits),
  )

  buffer_gone :
      (code : ℕ) (s' : System)
      → Distinct s.processes
      → exit_state result.1 s.kernel.current_process code ≡ ok s'
      → find_shbuf s'.objects s'.processes s.shbuf_counter ≡ none
  unfolding exit_state on_process_died result
  buffer_gone code s' distinct ended =
      let pid = s.kernel.current_process in
      let (k, made', _) = first_ok _ (kill_threads s.kernel (s.kernel.process_threads pid)) ended in
      let last = record (changed s.objects pid owner pid) { exit_code = code } in
      let objects : s'.objects ≡ changed s.objects pid last =
        sym (ap (λ (z : System). z.objects) (ok-injective made'))
        ∙ fun_ext (λ j. changed_twice s.objects pid owner last j) in
      let table : s'.processes ≡ remove_pid s.processes pid =
        sym (ap (λ (z : System). z.processes) (ok-injective made')) in
      (λ i. find_shbuf (objects i) (table i) s.shbuf_counter)
      ∙ Unused-find_shbuf (changed s.objects pid last) s.shbuf_counter (remove_pid s.processes pid)
          (Unused-remove_pid s.objects pid s.shbuf_counter last s.processes
            (find_shbuf-Unused s.objects s.shbuf_counter s.processes unused) distinct)

  -- When that process has ended, nobody can map the buffer any more: its id is unknown.
  pub shbuf_create-exit :
      (code : ℕ) (s' : System)
      → Distinct s.processes
      → exit_state r.1 s.kernel.current_process code ≡ ok s'
      → sys_shbuf_map s' r.0 ≡ ok (failure enoent)
  shbuf_create-exit code s' distinct ended =
      let ended' : exit_state result.1 s.kernel.current_process code ≡ ok s' =
        ap (λ (z : ℕ × System). exit_state z.1 s.kernel.current_process code) (sym shape) ∙ ended in
      ap (sys_shbuf_map s') result_id
      ∙ sys_shbuf_map_unknown s' s.shbuf_counter (buffer_gone code s' distinct ended')
