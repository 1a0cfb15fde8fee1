-- ===== src/Neko/Vector/Removal.antt =====
-- libneko/include/nk/vector.h: Remove and RemoveBlock against the sequence held.
use nekosys.Base.{
  ℕ, zero, suc, ◌+◌, ◌-◌, ◌≤◌, ◌<◌, ◌≡◌, refl, sym, ap, ◌∙◌, List, [], ◌∷◌, ◌++◌, arith, length,
  get_or, set, take, drop, erase_idx, length-set, drop-cons, take-take, drop-take,
}
use native.Mathlib.Nat.{zero-add}
use nekosys.Base.Words.{add32, sub32}
use nekosys.Neko.Vector.{Vector, shift_loop, move_loop, remove, remove_block, IsValid, contents}

module _ {ℓ} {A : Type ℓ} (fresh : A) where
  length-shift_loop : (n i : ℕ) (a : List A) → length (shift_loop fresh n i a) ≡ length a
  unfolding shift_loop
  length-shift_loop zero i a = refl
  length-shift_loop (suc n) i a =
      length-shift_loop n (i + 1) _ ∙ length-set a (i - 1) (get_or a i fresh)

  -- The loop does not touch what lies before its first write.
  shift_loop-cons :
      (n j : ℕ) (x : A) (a : List A)
      → shift_loop fresh n (suc (suc j)) (x ∷ a) ≡ x ∷ shift_loop fresh n (suc j) a
  unfolding shift_loop
  shift_loop-cons zero j x a = refl
  shift_loop-cons (suc n) j x a =
      ground (arith, shift_loop-cons n (suc j) x (set a j (get_or a (suc j) fresh)))

  take-shift_loop_one :
      (n : ℕ) (x : A) (a : List A) → n ≤ length a → take n (shift_loop fresh n 1 (x ∷ a)) ≡ take n a
  unfolding shift_loop
  take-shift_loop_one zero x a h = refl
  take-shift_loop_one (suc n) x [] h = absurd (omega arith)
  take-shift_loop_one (suc n) x (y ∷ a) h =
      rw (shift_loop-cons n 0 y (y ∷ a)) (ap (◌∷◌ y) (take-shift_loop_one n y a (omega arith)))

  take-shift_loop :
      (idx n m : ℕ) (a : List A)
      → m ≡ idx + n
      → m < length a
      → take m (shift_loop fresh n (suc idx) a) ≡ erase_idx (take (suc m) a) idx
  take-shift_loop idx n m [] e h = absurd (omega arith)
  take-shift_loop zero n m (x ∷ a) e h =
      let e' : m ≡ n = omega arith in rw e' (take-shift_loop_one n x a (omega arith))
  take-shift_loop (suc idx) n zero (x ∷ a) e h = absurd (omega arith)
  take-shift_loop (suc idx) n (suc m) (x ∷ a) e h =
      rw (shift_loop-cons n idx x a)
        (ap (◌∷◌ x) (take-shift_loop idx n m a (omega arith) (omega arith)))

  length-move_loop : (d n i : ℕ) (a : List A) → length (move_loop fresh d n i a) ≡ length a
  unfolding move_loop
  length-move_loop d zero i a = refl
  length-move_loop d (suc n) i a =
      length-move_loop d n (i + 1) _ ∙ length-set a i (get_or a (i + d) fresh)

  move_loop-cons :
      (d n i : ℕ) (x : A) (a : List A)
      → move_loop fresh d n (suc i) (x ∷ a) ≡ x ∷ move_loop fresh d n i a
  unfolding move_loop
  move_loop-cons d zero i x a = refl
  move_loop-cons d (suc n) i x a =
      ground (arith, move_loop-cons d n (suc i) x (set a i (get_or a (i + d) fresh)))

  take-move_loop_zero :
      (d n : ℕ) (a : List A)
      → d + n ≤ length a
      → take n (move_loop fresh d n 0 a) ≡ take n (drop d a)
  unfolding move_loop
  take-move_loop_zero d zero a h = refl
  take-move_loop_zero d (suc n) [] h = absurd (omega arith)
  take-move_loop_zero d (suc n) (x ∷ a) h =
      rw
        (
          zero-add d,
          drop-cons fresh d (x ∷ a) (omega arith),
          move_loop-cons d n 0 (get_or (x ∷ a) d fresh) a,
        )
        (ap (◌∷◌ (get_or (x ∷ a) d fresh)) (take-move_loop_zero d n a (omega arith)))

  take-move_loop :
      (d idx n m : ℕ) (a : List A)
      → m ≡ idx + n
      → d + m ≤ length a
      → take m (move_loop fresh d n idx a) ≡ take idx a ++ take n (drop (idx + d) a)
  take-move_loop d zero n m a e h =
      let e' : m ≡ n = omega arith in rw (e', zero-add) (take-move_loop_zero d n a (omega arith))
  take-move_loop d (suc idx) n zero a e h = absurd (omega arith)
  take-move_loop d (suc idx) n (suc m) [] e h = absurd (omega arith)
  take-move_loop d (suc idx) n (suc m) (x ∷ a) e h =
      let e' : suc idx + d ≡ suc (idx + d) = omega arith in
      rw (move_loop-cons d n idx x a, e')
        (ap (◌∷◌ x) (take-move_loop d idx n m a (omega arith) (omega arith)))

  module _ {v : Vector A} (valid : IsValid v) where
    -- `Remove` of an index in range erases exactly that element and keeps the vector valid.
    pub remove_erases :
        (idx : ℕ)
        → idx < v.size
        → IsValid (remove fresh v idx)
          × (contents (remove fresh v idx) ≡ erase_idx (contents v) idx)
    unfolding remove
    remove_erases idx h =
        let e1 : add32 idx 1 ≡ suc idx = omega arith in
        let e2 : sub32 v.size 1 ≡ v.size - 1 = omega arith in
        let e3 : v.size ≡ suc (v.size - 1) = omega arith in
        (
          record {
            allocated =
                length-shift_loop (v.size - add32 idx 1) (add32 idx 1) v.buf ∙ valid.allocated;
            size_fits = omega arith;
            capacity_fits = valid.capacity_fits;
          },
          rw (e1, e2)
              (take-shift_loop idx (v.size - suc idx) (v.size - 1) v.buf (omega arith) (omega arith)
                ∙ ap (λ n. erase_idx (take n v.buf) idx) (sym e3)),
        )

    -- `RemoveBlock` of a range inside the vector erases exactly that range and keeps the vector
    -- valid.
    pub remove_block_erases :
        (idx n : ℕ)
        → idx + n ≤ v.size
        → IsValid (remove_block fresh v idx n)
          × (contents (remove_block fresh v idx n)
              ≡ take idx (contents v) ++ drop (idx + n) (contents v))
    unfolding remove_block
    remove_block_erases idx n h =
        let e1 : sub32 v.size (add32 idx n) ≡ v.size - (idx + n) = omega arith in
        let e2 : sub32 v.size n ≡ v.size - n = omega arith in
        (
          record {
            allocated = length-move_loop n (sub32 v.size (add32 idx n)) idx v.buf ∙ valid.allocated;
            size_fits = omega arith;
            capacity_fits = valid.capacity_fits;
          },
          rw (e1, e2, drop-take, take-take idx v.size v.buf (omega arith))
              (take-move_loop n idx (v.size - (idx + n)) (v.size - n) v.buf (omega arith)
                (omega arith)),
        )
