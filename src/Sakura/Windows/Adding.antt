-- ===== src/Sakura/Windows/Adding.antt =====
-- userland/sakura/Compositor.cpp: AddWindow, and the doubly linked list that it keeps.
use nekosys.Base.{
  ℕ, ◌≡◌, ◌≢◌, refl, sym, ap, ◌∙◌, subst, true, false, Option, none, some, List, [], ◌∷◌, ◌++◌,
  ◌==◌, arith,
}
use nekosys.Tasks.Blockers.{contains}
use nekosys.Sakura.Windows.{WindowInfo, Compositor, put_window, mark, window_rectangle, add_window}

-- The windows from a pointer on, with the window before them, are the list, linked both ways.
abbrev pub Linked : (ℕ → WindowInfo) → Option ℕ → Option ℕ → List ℕ → Type 0
Linked ws prev ptr [] = ptr ≡ none
Linked ws prev ptr (x ∷ xs) =
    (ptr ≡ some x) × ((ws x).prev ≡ prev) × Linked ws (some x) (ws x).next xs

abbrev pub last : ℕ → List ℕ → ℕ
last x [] = x
last x (y ∷ ys) = last y ys

abbrev pub last_of : List ℕ → Option ℕ
last_of [] = none
last_of (x ∷ xs) = some (last x xs)

abbrev pub Distinct : List ℕ → Type 0
Distinct [] = Unit
Distinct (x ∷ xs) = (contains xs x ≡ false) × Distinct xs

-- The compositor's windows are the list, from head to tail.
pub record IsList (c : Compositor) (xs : List ℕ) : Type 0 where
  pub linked : Linked c.windows none c.windows_head xs
  pub tail : c.windows_tail ≡ last_of xs
  pub distinct : Distinct xs

contains-last : (x : ℕ) (xs : List ℕ) (y : ℕ) → contains (x ∷ xs) y ≡ false → y ≢ last x xs
unfolding contains
contains-last x [] y c same = ground (arith, c, same)
contains-last x (z ∷ zs) y c same = contains-last z zs y (ground (arith, c)) same

-- The windows after `w` has been put behind `t`.
record Appended (ws ws' : ℕ → WindowInfo) (w t : ℕ) : Type 0 where
  others : (j : ℕ) → j ≢ w → j ≢ t → ws' j ≡ ws j
  prev_t : (ws' t).prev ≡ (ws t).prev
  next_t : (ws' t).next ≡ some w
  prev_w : (ws' w).prev ≡ some t
  next_w : (ws' w).next ≡ none

module _ (ws ws' : ℕ → WindowInfo) (w : ℕ) where
  Linked-Appended :
      (x : ℕ) (xs : List ℕ) (prev ptr : Option ℕ)
      → Appended ws ws' w (last x xs)
      → Distinct (x ∷ xs)
      → contains (x ∷ xs) w ≡ false
      → Linked ws prev ptr (x ∷ xs)
      → Linked ws' prev ptr ((x ∷ xs) ++ (w ∷ []))
  unfolding contains
  Linked-Appended x [] prev ptr a d c (e, p, n) = (e, a.prev_t ∙ p, (a.next_t, a.prev_w, a.next_w))
  Linked-Appended x (y ∷ ys) prev ptr a (new, d) c (e, p, l) =
      let other : x ≢ w = λ same. ground (arith, c, same) in
      let kept : ws' x ≡ ws x = a.others x other (contains-last y ys x new) in
      (
        e,
        ap (λ (i : WindowInfo). i.prev) kept ∙ p,
        Linked-Appended y ys (some x) (ws' x).next a d (ground (arith, c)) (
            subst (λ z. Linked ws (some x) z (y ∷ ys)) (sym (ap (λ (i : WindowInfo). i.next) kept))
              l),
      )

contains-append :
    (xs : List ℕ) (w x : ℕ) → contains xs x ≡ false → w ≢ x → contains (xs ++ (w ∷ [])) x ≡ false
unfolding contains
contains-append [] w x c ne = ground (arith, ne)
contains-append (y ∷ ys) w x c ne =
    let off : (y == x) ≡ false = ground (arith, c) in
    rw off (contains-append ys w x (ground (arith, c)) ne)

append-Distinct :
    (xs : List ℕ) (w : ℕ) → Distinct xs → contains xs w ≡ false → Distinct (xs ++ (w ∷ []))
unfolding contains
append-Distinct [] w d c = (refl, tt)
append-Distinct (x ∷ xs) w (new, d) c = (
  contains-append xs w x new (λ same. ground (arith, c, same)),
  append-Distinct xs w d (ground (arith, c)),
)

last-append : (x : ℕ) (xs : List ℕ) (w : ℕ) → last x (xs ++ (w ∷ [])) ≡ w
last-append x [] w = refl
last-append x (y ∷ ys) w = last-append y ys w

add_first :
    (c : Compositor) (w : ℕ)
    → IsList c []
    → (c.windows w).prev ≡ none
    → (c.windows w).next ≡ none
    → (c' : Compositor) × (add_window c w ≡ some c') × IsList c' (w ∷ [])
unfolding add_window contains
add_first c w v p n = (
  mark (record c { windows_head = some w; windows_tail = some w }) (window_rectangle (c.windows w)),
  rw v.tail (rw v.linked refl),
  record { linked = (refl, p, n); tail = refl; distinct = (refl, tt) },
)

add_later :
    (c : Compositor) (x : ℕ) (xs : List ℕ) (w : ℕ)
    → IsList c (x ∷ xs)
    → contains (x ∷ xs) w ≡ false
    → (c.windows w).next ≡ none
    → (c' : Compositor) × (add_window c w ≡ some c') × IsList c' ((x ∷ xs) ++ (w ∷ []))
unfolding add_window
add_later c x xs w v new n =
    let t = last x xs in
    let c1 = put_window c w (record (c.windows w) { prev = some t }) in
    let c2 = put_window c1 t (record (c1.windows t) { next = some w }) in
    let w_t : (w == t) ≡ false = ground (arith, contains-last x xs w new) in
    let t_w : (t == w) ≡ false = ground (arith, contains-last x xs w new) in
    let w_w : (w == w) ≡ true = ground arith in
    let t_t : (t == t) ≡ true = ground arith in
    (
      mark (record c2 { windows_tail = some w }) (window_rectangle (c2.windows w)),
      rw v.tail refl,
      record {
        linked =
            Linked-Appended c.windows c2.windows w x xs none c.windows_head
              (record {
                others = λ j ne_w ne_t.
                    let j_w : (j == w) ≡ false = ground (arith, ne_w) in
                    let j_t : (j == t) ≡ false = ground (arith, ne_t) in rw j_t (rw j_w refl);
                prev_t = rw t_t (rw t_w refl);
                next_t = rw t_t refl;
                prev_w = rw w_t (rw w_w refl);
                next_w = rw w_t (rw w_w n);
              })
              v.distinct new v.linked;
        tail = ap some (sym (last-append x xs w));
        distinct = append-Distinct (x ∷ xs) w v.distinct new;
      },
    )

-- Where the windows form a list, linked in both directions, adding a window that is not one of them
-- and has no links puts it at the end of the list.
pub add_window_appends :
    (c : Compositor) (xs : List ℕ) (w : ℕ)
    → IsList c xs
    → contains xs w ≡ false
    → (c.windows w).prev ≡ none
    → (c.windows w).next ≡ none
    → (c' : Compositor) × (add_window c w ≡ some c') × IsList c' (xs ++ (w ∷ []))
add_window_appends c [] w v new p n = add_first c w v p n
add_window_appends c (x ∷ xs) w v new p n = add_later c x xs w v new n
