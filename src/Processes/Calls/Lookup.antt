-- ===== src/Processes/Calls/Lookup.antt =====
-- kernel/tasks/processdir.cpp: which shared buffer an id finds when the table of processes changes.
use nekosys.Base.{
  ℕ, ◌≡◌, refl, ap, ◌∙◌, subst, true, false, some, none, List, [], ◌∷◌, ◌++◌, ◌==◌, if◌then◌else◌,
  arith, Bool-cases, Option-cases, inl, inr,
}
use nekosys.Tasks.Blockers.{contains}
use nekosys.Processes.{Process, SharedBuffer, find_buffer, find_shbuf, get_process, remove_pid}
use nekosys.Processes.Exit.{Distinct}

pub find_buffer-append :
    (bs : List SharedBuffer) (b : SharedBuffer) (id : ℕ)
    → find_buffer bs id ≡ none
    → b.bufid ≡ id
    → find_buffer (bs ++ (b ∷ [])) id ≡ some b
unfolding find_buffer
find_buffer-append [] b id e same = ground (arith, same)
find_buffer-append (c ∷ bs) b id e same = elim (Bool-cases (c.bufid == id)) [
  | inl here ↦ cc (rw (here, find_buffer) at e)
  | inr there ↦ rw there (find_buffer-append bs b id (rw (there, find_buffer) at e) same)
]

-- No process of the table has a buffer with the id.
abbrev pub Unused : (ℕ → Process) → ℕ → List ℕ → Type 0
Unused objects id [] = Unit
Unused objects id (p ∷ ps) = (find_buffer (objects p).shbufs id ≡ none) × Unused objects id ps

pub find_shbuf-Unused :
    (objects : ℕ → Process) (id : ℕ) (ps : List ℕ)
    → find_shbuf objects ps id ≡ none
    → Unused objects id ps
unfolding find_shbuf
find_shbuf-Unused objects id [] e = tt
find_shbuf-Unused objects id (p ∷ ps) e = elim (Option-cases (find_buffer (objects p).shbufs id)) [
  | inl none_here ↦ (none_here, find_shbuf-Unused objects id ps (rw (none_here, find_shbuf) at e))
  | inr (b, found) ↦ cc (rw (found, find_shbuf) at e)
]

pub Unused-find_shbuf :
    (objects : ℕ → Process) (id : ℕ) (ps : List ℕ)
    → Unused objects id ps
    → find_shbuf objects ps id ≡ none
unfolding find_shbuf
Unused-find_shbuf objects id [] u = refl
Unused-find_shbuf objects id (p ∷ ps) (here, u) =
    rw (here, find_shbuf) (Unused-find_shbuf objects id ps u)

module _ (objects : ℕ → Process) (id p : ℕ) (ps : List ℕ) where
  found_here :
      (b : SharedBuffer)
      → find_buffer (objects p).shbufs id ≡ some b
      → find_shbuf objects (p ∷ ps) id ≡ some b
  unfolding find_shbuf
  found_here b e = rw (e, find_shbuf) refl

  found_later :
      find_buffer (objects p).shbufs id ≡ none
      → find_shbuf objects (p ∷ ps) id ≡ find_shbuf objects ps id
  unfolding find_shbuf
  found_later e = rw (e, find_shbuf) refl

-- The objects with one of them changed.
abbrev pub changed : (ℕ → Process) → ℕ → Process → ℕ → Process
changed objects pid q j = if j == pid then q else objects j

changed_self :
    (objects : ℕ → Process) (pid : ℕ) (q : Process) (j : ℕ)
    → (j == pid) ≡ true
    → changed objects pid q j ≡ q
changed_self objects pid q j e = rw e refl

changed_ne :
    (objects : ℕ → Process) (pid : ℕ) (q : Process) (j : ℕ)
    → (j == pid) ≡ false
    → changed objects pid q j ≡ objects j
changed_ne objects pid q j e = rw e refl

pub changed_twice :
    (objects : ℕ → Process) (pid : ℕ) (p q : Process) (j : ℕ)
    → changed (changed objects pid p) pid q j ≡ changed objects pid q j
changed_twice objects pid p q j = elim (Bool-cases (j == pid)) [
  | inl at ↦ rw at refl
  | inr off ↦ rw off refl
]

module _ (objects : ℕ → Process) (pid id : ℕ) (q : Process) where
  pub find_shbuf-changed :
      (b : SharedBuffer) (ps : List ℕ)
      → find_buffer q.shbufs id ≡ some b
      → Unused objects id ps
      → get_process ps pid ≡ some pid
      → find_shbuf (changed objects pid q) ps id ≡ some b
  unfolding get_process
  find_shbuf-changed b [] has u e = cc
  find_shbuf-changed b (p ∷ ps) has (here, u) e = elim (Bool-cases (p == pid)) [
    | inl at ↦
        found_here (changed objects pid q) id p ps b
          (ap (λ (z : Process). find_buffer z.shbufs id) (changed_self objects pid q p at) ∙ has)
    | inr off ↦
        found_later (changed objects pid q) id p ps
          (ap (λ (z : Process). find_buffer z.shbufs id) (changed_ne objects pid q p off) ∙ here)
        ∙ find_shbuf-changed b ps has u (rw (off, get_process) at e)
  ]

  -- Without the changed process nothing of it is found.
  Unused-changed :
      (ps : List ℕ)
      → Unused objects id ps
      → contains ps pid ≡ false
      → Unused (changed objects pid q) id ps
  unfolding contains
  Unused-changed [] u c = tt
  Unused-changed (p ∷ ps) (here, u) c = elim (Bool-cases (p == pid)) [
    | inl at ↦ cc (rw (at, contains) at c)
    | inr off ↦ (
      ap (λ (z : Process). find_buffer z.shbufs id) (changed_ne objects pid q p off) ∙ here,
      Unused-changed ps u (rw (off, contains) at c),
    )
  ]

  pub Unused-remove_pid :
      (ps : List ℕ)
      → Unused objects id ps
      → Distinct ps
      → Unused (changed objects pid q) id (remove_pid ps pid)
  unfolding remove_pid
  Unused-remove_pid [] u d = tt
  Unused-remove_pid (p ∷ ps) (here, u) (new, d) = elim (Bool-cases (p == pid)) [
    | inl at ↦
        let same : p ≡ pid = ground (arith, at) in
        rw at (Unused-changed ps u (subst (λ z. contains ps z ≡ false) same new))
    | inr off ↦ rw off (
      ap (λ (z : Process). find_buffer z.shbufs id) (changed_ne objects pid q p off) ∙ here,
      Unused-remove_pid ps u d,
    )
  ]

pub Unused-at :
    (objects : ℕ → Process) (id pid : ℕ) (ps : List ℕ)
    → Unused objects id ps
    → get_process ps pid ≡ some pid
    → find_buffer (objects pid).shbufs id ≡ none
unfolding get_process
Unused-at objects id pid [] u e = cc
Unused-at objects id pid (p ∷ ps) (here, u) e = elim (Bool-cases (p == pid)) [
  | inl at ↦
      let same : p ≡ pid = ground (arith, at) in
      subst (λ z. find_buffer (objects z).shbufs id ≡ none) same here
  | inr off ↦ Unused-at objects id pid ps u (rw (off, get_process) at e)
]
