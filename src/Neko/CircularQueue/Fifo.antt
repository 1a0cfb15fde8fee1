-- ===== src/Neko/CircularQueue/Fifo.antt =====
-- libneko/include/nk/circularqueue.h: the queue as the list of what was put in and not taken out.
use nekosys.Base.{
  ℕ, zero, suc, ◌+◌, ◌%◌, ◌≤◌, ◌<◌, ◌≡◌, ◌≢◌, ◌⊎◌, refl, sym, ap, ◌∙◌, subst, true, false, Option,
  none, some, List, [], ◌∷◌, ◌++◌, length, set, get_elem?, if◌then◌else◌, ◌==◌, arith, Bool-cases,
  inl, inr, length-set,
}
use native.Mathlib.Nat.{mod-eq_of_lt, mod_self}
use nekosys.Neko.CircularQueue.{CircularQueue, is_empty, enqueue, dequeue}

abbrev pub step : ℕ → ℕ → ℕ
step size i = (i + 1) % size

step_cases :
    (size i : ℕ)
    → i < size
    → (((i + 1 ≡ size) × (step size i ≡ 0)) ⊎ ((i + 1 < size) × (step size i ≡ i + 1)))
step_cases size i h = elim (Bool-cases (i + 1 == size)) [
  | inl end ↦
      let e : i + 1 ≡ size = ground (arith, end) in inl (e, ap (λ z. z % size) e ∙ mod_self size)
  | inr more ↦ let lt : i + 1 < size = ground (arith, more, h) in inr (lt, mod-eq_of_lt lt)
]

step-lt : (size i : ℕ) → i < size → step size i < size
step-lt size i h = ground (arith, step_cases size i h)

step-inj : (size i j : ℕ) → i < size → j < size → step size i ≡ step size j → i ≡ j
step-inj size i j hi hj e = ground (arith, step_cases size i hi, step_cases size j hj, e)

-- Whether there is room, by where the ends lie.
abbrev Counted : ℕ → ℕ → ℕ → ℕ → Type 0
Counted size h t n =
    (0 < n) × (n ≤ size) × (((h ≤ t) × (h + n ≡ t + 1)) ⊎ ((t < h) × (h + n ≡ t + 1 + size)))

Counted-room :
    (size h t n : ℕ) → h < size → t < size → Counted size h t n → n < size → step size t ≢ h
Counted-room size h t n lh lt c room e = ground (arith, step_cases size t lt, c, room, e)

Counted-full :
    (size h t n : ℕ) → h < size → t < size → Counted size h t n → n ≡ size → h ≡ step size t
Counted-full size h t n lh lt c room = ground (arith, step_cases size t lt, c, room)

pair_eq : {a b c d : Option ℕ} → a ≡ c → b ≡ d → ◌≡◌ {A = Option ℕ × Option ℕ} (a, b) (c, d)
pair_eq p q = λ i. (p i, q i)

module _ {ℓ} {A : Type ℓ} where
  -- The entries of a buffer from an index to another, round the end.
  pub data Between (buffer : List A) (size : ℕ) (t : ℕ) : ℕ → List A → Type ℓ where
    one : (h : ℕ) (x : A) → h ≡ t → get_elem? buffer h ≡ some x → Between buffer size t h (x ∷ [])
    more :
        (h : ℕ) (x : A) (xs : List A)
        → h < size
        → h ≢ t
        → get_elem? buffer h ≡ some x
        → Between buffer size t (step size h) xs
        → Between buffer size t h (x ∷ xs)

  get_elem?-set_self :
      (xs : List A) (i : ℕ) (v : A) → i < length xs → get_elem? (set xs i v) i ≡ some v
  get_elem?-set_self [] i v h = absurd (omega arith)
  get_elem?-set_self (x ∷ xs) zero v h = refl
  get_elem?-set_self (x ∷ xs) (suc i) v h = get_elem?-set_self xs i v (omega arith)

  get_elem?-set_ne :
      (xs : List A) (i j : ℕ) (v : A) → j ≢ i → get_elem? (set xs i v) j ≡ get_elem? xs j
  get_elem?-set_ne [] i j v ne = refl
  get_elem?-set_ne (x ∷ xs) zero zero v ne = absurd (ne refl)
  get_elem?-set_ne (x ∷ xs) zero (suc j) v ne = refl
  get_elem?-set_ne (x ∷ xs) (suc i) zero v ne = refl
  get_elem?-set_ne (x ∷ xs) (suc i) (suc j) v ne = get_elem?-set_ne xs i j v (λ e. ne (ap suc e))

  -- How many there are, by where the ends lie.
  Between-length :
      (buffer : List A) (size t h : ℕ) (xs : List A)
      → Between buffer size t h xs
      → t < size
      → h < size
      → (0 < length xs)
        × (length xs ≤ size)
        × (((h ≤ t) × (h + length xs ≡ t + 1)) ⊎ ((t < h) × (h + length xs ≡ t + 1 + size)))
  Between-length buffer size t h xs (one _ x e look) lt lh = ground (arith, e)
  Between-length buffer size t h xs (more _ x ys _ ne look rest) lt lh =
      elim (step_cases size h lh) [
        | inl (end, wrap) ↦
            let ih =
              Between-length buffer size t (step size h) ys rest lt (omega (arith, wrap, lh)) in
            ground (arith, ih, end, wrap, ne)
        | inr (inside, next) ↦
            let ih =
              Between-length buffer size t (step size h) ys rest lt (omega (arith, next, inside)) in
            ground (arith, ih, inside, next, ne)
      ]

  -- Writing behind the end extends what lies between.
  Between-set :
      (buffer : List A) (size t h : ℕ) (xs : List A) (v : A)
      → Between buffer size t h xs
      → length buffer ≡ size
      → t < size
      → h < size
      → step size t ≢ h
      → Between (set buffer (step size t) v) size (step size t) h (xs ++ (v ∷ []))
  Between-set buffer size t h xs v (one _ x e look) len lt lh free =
      let e' : h ≡ t = e in
      more h x (v ∷ []) lh (λ q. free (sym q))
        (get_elem?-set_ne buffer (step size t) h v (λ q. free (sym q)) ∙ look)
        (one (step size h) v (ap (step size) e') (
          ap (λ z. get_elem? (set buffer (step size t) v) (step size z)) e'
          ∙ get_elem?-set_self buffer (step size t) v (rw len (step-lt size t lt))))
  Between-set buffer size t h xs v (more _ x ys _ ne look rest) len lt lh free =
      more h x (ys ++ (v ∷ [])) lh (λ q. free (sym q))
        (get_elem?-set_ne buffer (step size t) h v (λ q. free (sym q)) ∙ look)
        (Between-set buffer size t (step size h) ys v rest len lt (step-lt size h lh)
          (λ q. ne (sym (step-inj size t h lt lh q))))

  -- What a queue holds, oldest first.
  pub data Represents (q : CircularQueue A) : List A → Type ℓ where
    empty : q.head ≡ none → q.tail ≡ none → Represents q []
    full :
        (h t : ℕ) (xs : List A)
        → q.head ≡ some h
        → q.tail ≡ some t
        → h < q.size
        → t < q.size
        → Between q.buffer q.size t h xs
        → Represents q xs

  -- Between calls the buffer has the queue's size, which is not 0.
  pub record IsValid (q : CircularQueue A) : Type ℓ where
    pub allocated : length q.buffer ≡ q.size
    pub nonempty : 0 < q.size

  -- Putting in a value: behind all others while there is room; but into a full queue it throws
  -- away all that the queue held.
  pub enqueue_appends :
      (q : CircularQueue A) (xs : List A) (v : A)
      → IsValid q
      → Represents q xs
      → IsValid (enqueue q v)
        × (length xs < q.size → Represents (enqueue q v) (xs ++ (v ∷ [])))
        × (length xs ≡ q.size → Represents (enqueue q v) (v ∷ []))
  unfolding enqueue is_empty
  enqueue_appends q xs v valid (empty eh et) =
      let z : 0 < length q.buffer = omega (arith, valid.allocated, valid.nonempty) in
      let put : Represents (enqueue (record q { head = none; tail = none }) v) (v ∷ []) =
        full 0 0 (v ∷ []) refl refl valid.nonempty valid.nonempty
          (one 0 v refl (get_elem?-set_self q.buffer 0 v z)) in
      subst
        (λ (e : Option ℕ × Option ℕ).
          let r = enqueue (record q { head = e.0; tail = e.1 }) v in
          IsValid r × (0 < q.size → Represents r (v ∷ [])) × (0 ≡ q.size → Represents r (v ∷ [])))
        (pair_eq (sym eh) (sym et))
        (
          record {
            allocated = length-set q.buffer 0 v ∙ valid.allocated;
            nonempty = valid.nonempty;
          },
          λ room. put,
          λ none_left. put,
        )
  enqueue_appends q xs v valid (full h t _ eh et lh lt between) =
      let counted = Between-length q.buffer q.size t h xs between lt lh in
      let i = step q.size t in
      let inside = step-lt q.size t lt in
      subst
        (λ (e : Option ℕ × Option ℕ).
          let r = enqueue (record q { head = e.0; tail = e.1 }) v in
          IsValid r
          × (length xs < q.size → Represents r (xs ++ (v ∷ [])))
          × (length xs ≡ q.size → Represents r (v ∷ [])))
        (pair_eq (sym eh) (sym et))
        (
          record {
            allocated = length-set q.buffer i v ∙ valid.allocated;
            nonempty = valid.nonempty;
          },
          λ room. full h i (xs ++ (v ∷ [])) refl refl lh inside (
              Between-set q.buffer q.size t h xs v between valid.allocated lt lh
                (Counted-room q.size h t (length xs) lh lt counted room)),
          λ no_room.
              let e : h ≡ i = Counted-full q.size h t (length xs) lh lt counted no_room in
              full h i (v ∷ []) refl refl lh inside (
                one h v e (
                  ap (λ z. get_elem? (set q.buffer i v) z) e
                  ∙ get_elem?-set_self q.buffer i v (rw valid.allocated inside))),
        )

  dequeue-Between :
      (q : CircularQueue A) (h t : ℕ) (x : A) (xs : List A)
      → t < q.size
      → IsValid q
      → Between q.buffer q.size t h (x ∷ xs)
      → (q' : CircularQueue A) × (dequeue (record q { head = some h; tail = some t })
          ≡ some (x, q'))
        × IsValid q'
        × (q'.size ≡ q.size)
        × Represents q' xs
  unfolding dequeue
  dequeue-Between q h t x _ lt valid (one _ _ e look) =
      let end : (h == t) ≡ true = ground (arith, e) in
      (
        record q { head = none; tail = none },
        rw (look, end, dequeue) refl,
        record { allocated = valid.allocated; nonempty = valid.nonempty },
        refl,
        empty refl refl,
      )
  dequeue-Between q h t x xs lt valid (more _ _ _ lh ne look rest) =
      let on : (h == t) ≡ false = ground (arith, ne) in
      (
        record q { head = some (step q.size h); tail = some t },
        rw (look, on, dequeue) refl,
        record { allocated = valid.allocated; nonempty = valid.nonempty },
        refl,
        full (step q.size h) t xs refl refl (step-lt q.size h lh) lt rest,
      )

  -- Taking out a value gives the oldest one and leaves the others.
  pub dequeue_first :
      (q : CircularQueue A) (x : A) (xs : List A)
      → IsValid q
      → Represents q (x ∷ xs)
      → (q' : CircularQueue A) × (dequeue q ≡ some (x, q'))
        × IsValid q'
        × (q'.size ≡ q.size)
        × Represents q' xs
  dequeue_first q x xs valid (full h t _ eh et lh lt between) =
      subst
        (λ (e : Option ℕ × Option ℕ).
          (q' : CircularQueue A) × (dequeue (record q { head = e.0; tail = e.1 }) ≡ some (x, q'))
          × IsValid q'
          × (q'.size ≡ q.size)
          × Represents q' xs)
        (pair_eq (sym eh) (sym et)) (dequeue-Between q h t x xs lt valid between)

  pub is_empty-Represents :
      (q : CircularQueue A) (xs : List A)
      → Represents q xs
      → is_empty q ≡ (if length xs == 0 then true else false)
  unfolding is_empty
  is_empty-Represents q xs (empty eh et) = rw (eh, et) refl
  is_empty-Represents q xs (full h t _ eh et lh lt between) =
      let counted = Between-length q.buffer q.size t h xs between lt lh in
      let some_left : (length xs == 0) ≡ false = ground (arith, counted) in rw (eh, some_left) refl

  pub Represents-length :
      (q : CircularQueue A) (xs : List A) → Represents q xs → IsValid q → length xs ≤ q.size
  Represents-length q xs (empty eh et) valid = omega arith
  Represents-length q xs (full h t _ eh et lh lt between) valid =
      (Between-length q.buffer q.size t h xs between lt lh).1
