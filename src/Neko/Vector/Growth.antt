-- ===== src/Neko/Vector/Growth.antt =====
-- libneko/include/nk/vector.h: EnsureCapacity, Add and Reserve against the sequence held.
use nekosys.Base.{
  ℕ, zero, suc, ◌+◌, ◌*◌, ◌%◌, ◌≤◌, ◌<◌, ◌≡◌, refl, sym, ap, ◌∙◌, List, [], ◌∷◌, ◌++◌, arith, ltb,
  inl, inr, Bool-cases, ltb→lt, ltb→le, length, get_or, set, take, drop, replicate, length-set,
  length-replicate, take-set_end, drop-cons, take-take, append_assoc, append-nil,
}
use nekosys.Base.Words.{word, add32}
use nekosys.Neko.Vector.{Vector, copy_loop, ensure_capacity, add, reserve, IsValid, contents}

module _ {ℓ} {A : Type ℓ} (fresh : A) where
  length-copy_loop :
      (n i : ℕ) (src dst : List A) → length (copy_loop fresh n i src dst) ≡ length dst
  unfolding copy_loop
  length-copy_loop zero i src dst = refl
  length-copy_loop (suc n) i src dst =
      length-copy_loop n (i + 1) src _ ∙ length-set dst i (get_or src i fresh)

  take-copy_loop :
      (n i m : ℕ) (src dst : List A)
      → i + n ≡ m
      → m ≤ length src
      → m ≤ length dst
      → take m (copy_loop fresh n i src dst) ≡ take i dst ++ take n (drop i src)
  unfolding copy_loop
  take-copy_loop zero i m src dst e hs hd = let e' : m ≡ i = omega arith in rw (e', append-nil)
  take-copy_loop (suc n) i m src dst e hs hd =
      let x = get_or src i fresh in
      let e' : i + 1 ≡ suc i = omega arith in
      rw
        (take-copy_loop n (i + 1) m src (set dst i x) (omega arith) hs
          (omega (arith, length-set dst i x)))
        (rw
          (
            e',
            take-set_end i dst x (omega arith),
            drop-cons fresh i src (omega arith),
            append_assoc,
          )
          refl)

  module _ {v : Vector A} (valid : IsValid v) where
    ensure_capacity-IsValid : (min : ℕ) → min * 2 < word → IsValid (ensure_capacity fresh v min)
    unfolding ensure_capacity
    ensure_capacity-IsValid min h =
        let n = (min * 2) % word in
        ground
          (arith, length-copy_loop v.size 0 v.buf (replicate n fresh), length-replicate n fresh)

    contents-ensure_capacity :
        (min : ℕ) → min * 2 < word → contents (ensure_capacity fresh v min) ≡ contents v
    unfolding ensure_capacity
    contents-ensure_capacity min h = elim (Bool-cases (ltb v.capacity min)) [
      | inl grow ↦
          let n = (min * 2) % word in
          rw grow (
            take-copy_loop v.size 0 v.size v.buf (replicate n fresh) (omega arith) (omega arith)
              (ground (arith, length-replicate n fresh)))
      | inr fits ↦ rw fits
    ]

    capacity-ensure_capacity :
        (min : ℕ)
        → min * 2 < word
        → (min ≤ (ensure_capacity fresh v min).capacity)
          × (v.capacity ≤ (ensure_capacity fresh v min).capacity)
          × ((ensure_capacity fresh v min).size ≡ v.size)
    unfolding ensure_capacity
    capacity-ensure_capacity min h = ground arith

    -- `Add` keeps the vector valid and puts the value at the end of its sequence, as long as twice
    -- the new size fits a size_t.
    pub add_appends :
        (x : A)
        → (v.size + 1) * 2 < word
        → IsValid (add fresh v x) × (contents (add fresh v x) ≡ contents v ++ (x ∷ []))
    unfolding add
    add_appends x h =
        let w = ensure_capacity fresh v (add32 v.size 1) in
        let ok : IsValid w = ensure_capacity-IsValid (add32 v.size 1) (omega arith) in
        let room = capacity-ensure_capacity (add32 v.size 1) (omega arith) in
        let same = contents-ensure_capacity (add32 v.size 1) (omega arith) in
        let e : add32 w.size 1 ≡ suc w.size = omega arith in
        (
          record {
            allocated = length-set w.buf w.size x ∙ ok.allocated;
            size_fits = omega arith;
            capacity_fits = ok.capacity_fits;
          },
          rw (e, take-set_end w.size w.buf x (omega arith)) (ap (λ c. c ++ (x ∷ [])) same),
        )

    -- `Reserve` keeps the sequence as a prefix and makes the size at least `min`.
    pub reserve_grows :
        (min : ℕ)
        → min * 2 < word
        → IsValid (reserve fresh v min)
          × (min ≤ (reserve fresh v min).size)
          × (take v.size (contents (reserve fresh v min)) ≡ contents v)
    unfolding reserve
    reserve_grows min h =
        let w = ensure_capacity fresh v min in
        let ok : IsValid w = ensure_capacity-IsValid min h in
        let room = capacity-ensure_capacity min h in
        let prefix : take v.size w.buf ≡ contents v =
          ap (λ n. take n w.buf) (sym room.2) ∙ contents-ensure_capacity min h in
        elim (Bool-cases (ltb w.size min)) [
          | inl grow ↦ rw grow (
            record {
              allocated = ok.allocated;
              size_fits = room.0;
              capacity_fits = ok.capacity_fits;
            },
            omega arith,
            take-take v.size min w.buf (omega (arith, ltb→lt w.size min)) ∙ prefix,
          )
          | inr fits ↦ rw fits (
            ok,
            omega (arith, ltb→le w.size min),
            take-take v.size w.size w.buf (omega arith) ∙ prefix,
          )
        ]
