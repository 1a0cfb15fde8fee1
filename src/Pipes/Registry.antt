-- ===== src/Pipes/Registry.antt =====
-- kernel/namedpipe.cpp: the ids and names of the pipes.
use nekosys.Base.{
  ℕ, ◌+◌, ◌≤◌, ◌<◌, ◌≡◌, refl, subst, true, false, none, some, List, [], ◌∷◌, ◌++◌, ◌==◌, arith,
  Bool-cases, Option-cases, inl, inr,
}
use nekosys.Base.Words.{word}
use nekosys.Neko.Text.{Text, equals}
use nekosys.Neko.Text.Laws.{NoNul, equals_iff}
use nekosys.Pipes.{
  NamedPipe, PipeManager, find_named, new_pipe, find_or_create_pipe, find_id, find_pipe,
}

-- The ids of the pipes rise from above `lo` to at most `hi`.
abbrev pub Rising : ℕ → ℕ → List NamedPipe → Type 0
Rising lo hi [] = lo ≤ hi
Rising lo hi (p ∷ ps) = (lo < p.pipe_id) × Rising p.pipe_id hi ps

abbrev pub IsValid : PipeManager → Type 0
IsValid m = Rising 0 m.id_counter m.pipes

Rising-append :
    (lo hi : ℕ) (ps : List NamedPipe) (q : NamedPipe)
    → Rising lo hi ps
    → hi < q.pipe_id
    → Rising lo q.pipe_id (ps ++ (q ∷ []))
Rising-append lo hi [] q h above = (omega (arith, h, above), omega arith)
Rising-append lo hi (p ∷ ps) q h above = (h.0, Rising-append p.pipe_id hi ps q h.1 above)

Rising-le : (lo hi : ℕ) (ps : List NamedPipe) → Rising lo hi ps → lo ≤ hi
Rising-le lo hi [] h = h
Rising-le lo hi (p ∷ ps) h = omega (arith, h.0, Rising-le p.pipe_id hi ps h.1)

-- A pipe found by its name is the one found by its id, and has that name.
find_named-id :
    (lo hi : ℕ) (ps : List NamedPipe) (name : Text) (p : NamedPipe)
    → Rising lo hi ps
    → find_named ps name ≡ some p
    → (find_id ps p.pipe_id ≡ some p) × (lo < p.pipe_id) × (equals p.name name ≡ true)
unfolding find_named find_id
find_named-id lo hi [] name p h e = cc
find_named-id lo hi (r ∷ ps) name p h e = elim (Bool-cases (equals r.name name)) [
  | inl here ↦
      let q : r ≡ p = cc (rw (here, find_named) at e) in
      subst
        (λ z.
          (find_id (r ∷ ps) z.pipe_id ≡ some z) × (lo < z.pipe_id) × (equals z.name name ≡ true))
        q (ground arith, h.0, here)
  | inr there ↦
      let ih = find_named-id r.pipe_id hi ps name p h.1 (rw (there, find_named) at e) in
      let no : (r.pipe_id == p.pipe_id) ≡ false = ground (arith, ih.1) in
      (rw (no, find_id) ih.0, omega (arith, h.0, ih.1), ih.2)
]

find_id-append :
    (ps : List NamedPipe) (q p : NamedPipe) (id : ℕ)
    → find_id ps id ≡ some p
    → find_id (ps ++ (q ∷ [])) id ≡ some p
unfolding find_id
find_id-append [] q p id e = cc
find_id-append (r ∷ ps) q p id e = elim (Bool-cases (r.pipe_id == id)) [
  | inl here ↦ rw (here, find_id) (rw (here, find_id) at e)
  | inr there ↦ rw (there, find_id) (find_id-append ps q p id (rw (there, find_id) at e))
]

find_id-last :
    (lo hi : ℕ) (ps : List NamedPipe) (q : NamedPipe)
    → Rising lo hi ps
    → hi < q.pipe_id
    → find_id (ps ++ (q ∷ [])) q.pipe_id ≡ some q
unfolding find_id
find_id-last lo hi [] q h above = ground arith
find_id-last lo hi (r ∷ ps) q h above =
    let le = Rising-le r.pipe_id hi ps h.1 in
    let no : (r.pipe_id == q.pipe_id) ≡ false = ground (arith, le, above) in
    rw (no, find_id) (find_id-last r.pipe_id hi ps q h.1 above)

find_named-last :
    (ps : List NamedPipe) (q : NamedPipe) (name : Text)
    → find_named ps name ≡ none
    → equals q.name name ≡ true
    → find_named (ps ++ (q ∷ [])) name ≡ some q
unfolding find_named
find_named-last [] q name e same = rw same refl
find_named-last (r ∷ ps) q name e same = elim (Bool-cases (equals r.name name)) [
  | inl here ↦ cc (rw (here, find_named) at e)
  | inr there ↦
      rw (there, find_named) (find_named-last ps q name (rw (there, find_named) at e) same)
]

-- What opening a pipe gives: the pipe and the manager.
pub record Opened (them : ℕ) (m : PipeManager) (name : Text) (r : NamedPipe × PipeManager)
    : Type 0 where
  pub valid : IsValid r.1
  pub listed : find_pipe r.1 r.0.pipe_id ≡ some r.0
  pub named : equals r.0.name name ≡ true
  pub kept : (id : ℕ) (p : NamedPipe) → find_pipe m id ≡ some p → find_pipe r.1 id ≡ some p
  pub again : find_or_create_pipe them r.1 name ≡ r

-- Opening a pipe by a name without NUL gives a pipe of that name that its id finds, keeps the ids
-- in order and every other pipe findable, and a later opening by any process gives the same pipe.
pub find_or_create_pipe_opens :
    (me them : ℕ) (m : PipeManager) (name : Text)
    → IsValid m
    → m.id_counter + 1 < word
    → NoNul name
    → Opened them m name (find_or_create_pipe me m name)
unfolding find_or_create_pipe find_pipe new_pipe
find_or_create_pipe_opens me them m name valid room plain =
    elim (Option-cases (find_named m.pipes name)) [
      | inr (p, found) ↦
          let (byid, above, same) = find_named-id 0 m.id_counter m.pipes name p valid found in
          subst (Opened them m name) (rw (found, find_or_create_pipe) refl) (record {
            valid = valid;
            listed = byid;
            named = same;
            kept = λ id q e. e;
            again = rw (found, find_or_create_pipe) refl;
          })
      | inl missing ↦
          let q = new_pipe me m name in
          let next : q.pipe_id ≡ m.id_counter + 1 = omega (arith, room) in
          let same : equals name name ≡ true = (equals_iff name name plain).1 refl in
          let found = find_named-last m.pipes q name missing same in
          let made : (q, record { pipes = m.pipes ++ (q ∷ []); id_counter = q.pipe_id })
              ≡ find_or_create_pipe me m name =
            rw (missing, find_or_create_pipe) refl in
          subst (Opened them m name) made (record {
            valid = Rising-append 0 m.id_counter m.pipes q valid (omega (arith, next));
            listed = find_id-last 0 m.id_counter m.pipes q valid (omega (arith, next));
            named = same;
            kept = λ id p e. find_id-append m.pipes q p id e;
            again = rw (found, find_or_create_pipe) refl;
          })
    ]
