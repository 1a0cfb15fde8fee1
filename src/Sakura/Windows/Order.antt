-- ===== src/Sakura/Windows/Order.antt =====
-- userland/sakura/Compositor.cpp: BringToFront on the order of the windows.
use nekosys.Base.{
  ℕ, ◌≡◌, ◌≢◌, refl, sym, ap, ◌∙◌, subst, false, Option, none, some, List, [], ◌∷◌, ◌++◌, ◌==◌,
  arith,
}
use nekosys.Tasks.Blockers.{contains}
use nekosys.Sakura.Windows.{
  WindowInfo, Compositor, put_window, put_in_front, cut_next, cut_prev, bring_to_front,
}
use nekosys.Sakura.Windows.Fronting.{self_eq, put_prev-next, own_next}
use nekosys.Sakura.Windows.Adding.{Linked, Distinct, IsList}

-- The windows that a loop over the `next` pointers visits.
abbrev pub Visits : (ℕ → WindowInfo) → Option ℕ → List ℕ → Type 0
Visits ws ptr [] = ptr ≡ none
Visits ws ptr (x ∷ xs) = (ptr ≡ some x) × Visits ws (ws x).next xs

-- Which links to the next window BringToFront changes.
record Moved (ws ws' : ℕ → WindowInfo) (w p h : ℕ) : Type 0 where
  at_p : (ws' p).next ≡ (ws w).next
  at_w : (ws' w).next ≡ some h
  others : (j : ℕ) → j ≢ w → j ≢ p → (ws' j).next ≡ (ws j).next

bring_to_front-Moved :
    (c : Compositor) (w p n h : ℕ)
    → (c.windows w).prev ≡ some p
    → (c.windows w).next ≡ some n
    → c.windows_head ≡ some h
    → p ≢ w
    → (c' : Compositor) × (bring_to_front c w ≡ some c')
      × (c'.windows_head ≡ some w)
      × Moved c.windows c'.windows w p h
unfolding bring_to_front cut_prev cut_next put_in_front
bring_to_front-Moved c w p n h linked follows e ne =
    let c1 = put_window c p (record (c.windows p) { next = (c.windows w).next }) in
    let c2 = put_window c1 n (record (c1.windows n) { prev = (c1.windows w).prev }) in
    let c3 = put_window c2 w (record (c2.windows w) { next = some h }) in
    let c4 = record (put_window c3 h (record (c3.windows h) { prev = some w })) {
      windows_head = some w;
    } in
    let front : put_in_front c2 w ≡ some c4 = rw e refl in
    let off : (p == w) ≡ false = ground (arith, ne) in
    (
      c4,
      ap (cut_prev c w) linked ∙ ap (cut_next c1 w) (own_next c w p ∙ follows) ∙ front,
      refl,
      record {
        at_p =
            put_prev-next c3 p h (some w) ∙ rw off (put_prev-next c1 p n _ ∙ rw (self_eq p) refl);
        at_w = put_prev-next c3 w h (some w) ∙ rw (self_eq w) refl;
        others = λ j ne_w ne_p.
            let j_w : (j == w) ≡ false = ground (arith, ne_w) in
            let j_p : (j == p) ≡ false = ground (arith, ne_p) in
            put_prev-next c3 j h (some w) ∙ rw j_w (put_prev-next c1 j n _ ∙ rw j_p refl);
      },
    )

contains-middle :
    (xs ys : List ℕ) (x y : ℕ)
    → contains (xs ++ (x ∷ ys)) y ≡ false
    → (x ≢ y) × (contains ys y ≡ false)
unfolding contains
contains-middle [] ys x y c = (λ same. ground (arith, c, same), ground (arith, c))
contains-middle (z ∷ zs) ys x y c = contains-middle zs ys x y (ground (arith, c))

module _ (ws ws' : ℕ → WindowInfo) (w p h : ℕ) (moved : Moved ws ws' w p h) where
  -- Where neither of the two windows is.
  Visits-others :
      (xs : List ℕ) (ptr : Option ℕ)
      → contains xs w ≡ false
      → contains xs p ≡ false
      → Visits ws ptr xs
      → Visits ws' ptr xs
  unfolding contains
  Visits-others [] ptr cw cp e = e
  Visits-others (x ∷ xs) ptr cw cp (e, v) =
      let same : (ws' x).next ≡ (ws x).next =
        moved.others x (λ s. ground (arith, cw, s)) (λ s. ground (arith, cp, s)) in
      (
        e,
        Visits-others xs (ws' x).next (ground (arith, cw)) (ground (arith, cp))
            (subst (λ z. Visits ws z xs) (sym same) v),
      )

  -- The list without `w`.
  Visits-Moved :
      (xs ys : List ℕ) (ptr : Option ℕ)
      → Distinct (xs ++ (p ∷ w ∷ ys))
      → Visits ws ptr (xs ++ (p ∷ w ∷ ys))
      → Visits ws' ptr (xs ++ (p ∷ ys))
  unfolding contains
  Visits-Moved [] ys ptr (new_p, (new_w, d)) (e, (_, v)) = (
    e,
    Visits-others ys (ws' p).next new_w (ground (arith, new_p))
        (subst (λ z. Visits ws z ys) (sym moved.at_p) v),
  )
  Visits-Moved (x ∷ xs) ys ptr (new, d) (e, v) =
      let (p_x, later) = contains-middle xs (w ∷ ys) p x new in
      let (w_x, _) = contains-middle [] ys w x later in
      let same : (ws' x).next ≡ (ws x).next =
        moved.others x (λ s. w_x (sym s)) (λ s. p_x (sym s)) in
      (
        e,
        Visits-Moved xs ys (ws' x).next d
            (subst (λ z. Visits ws z (xs ++ (p ∷ w ∷ ys))) (sym same) v),
      )

Visits-Linked :
    (ws : ℕ → WindowInfo) (prev ptr : Option ℕ) (xs : List ℕ)
    → Linked ws prev ptr xs
    → Visits ws ptr xs
Visits-Linked ws prev ptr [] e = e
Visits-Linked ws prev ptr (x ∷ xs) (e, _, l) = (e, Visits-Linked ws (some x) (ws x).next xs l)

-- The links of a window in the middle of a list.
Linked-middle :
    (ws : ℕ → WindowInfo) (prev ptr : Option ℕ) (xs ys : List ℕ) (p w n : ℕ)
    → Linked ws prev ptr (xs ++ (p ∷ w ∷ n ∷ ys))
    → ((ws w).prev ≡ some p) × ((ws w).next ≡ some n)
Linked-middle ws prev ptr [] ys p w n (_, _, (_, back, (next, _, _))) = (back, next)
Linked-middle ws prev ptr (x ∷ xs) ys p w n (_, _, l) =
    Linked-middle ws (some x) (ws x).next xs ys p w n l

Distinct-middle : (xs ys : List ℕ) (p w : ℕ) → Distinct (xs ++ (p ∷ w ∷ ys)) → p ≢ w
unfolding contains
Distinct-middle [] ys p w (new, _) = λ same. ground (arith, new, same)
Distinct-middle (x ∷ xs) ys p w (_, d) = Distinct-middle xs ys p w d

abbrev first : List ℕ → ℕ → ℕ
first [] p = p
first (x ∷ xs) p = x

first-Visits :
    (ws : ℕ → WindowInfo) (ptr : Option ℕ) (xs ys : List ℕ) (p : ℕ)
    → Visits ws ptr (xs ++ (p ∷ ys))
    → ptr ≡ some (first xs p)
first-Visits ws ptr [] ys p (e, _) = e
first-Visits ws ptr (x ∷ xs) ys p (e, _) = e

-- A window of a list, with a window before it and one behind it, is brought to the front: the loops
-- over the windows visit it first, and then the others in the order that they had.
pub bring_to_front_moves :
    (c : Compositor) (xs ys : List ℕ) (p w n : ℕ)
    → IsList c (xs ++ (p ∷ w ∷ n ∷ ys))
    → (c' : Compositor) × (bring_to_front c w ≡ some c')
      × Visits c'.windows c'.windows_head (w ∷ (xs ++ (p ∷ n ∷ ys)))
bring_to_front_moves c xs ys p w n v =
    let (back, next) = Linked-middle c.windows none c.windows_head xs ys p w n v.linked in
    let seen = Visits-Linked c.windows none c.windows_head (xs ++ (p ∷ w ∷ n ∷ ys)) v.linked in
    let h = first xs p in
    let head = first-Visits c.windows c.windows_head xs (w ∷ n ∷ ys) p seen in
    let (c', made, front, moved) =
      bring_to_front-Moved c w p n h back next head (Distinct-middle xs (n ∷ ys) p w v.distinct) in
    (
      c',
      made,
      (
        front,
        subst (λ z. Visits c'.windows z (xs ++ (p ∷ n ∷ ys))) (head ∙ sym moved.at_w)
            (Visits-Moved c.windows c'.windows w p h moved xs (n ∷ ys) c.windows_head v.distinct
              seen),
      ),
    )
