-- ===== src/Sakura/Windows/Fronting.antt =====
-- userland/sakura/Compositor.cpp: BringToFront, as the loops over the windows see it.
use nekosys.Base.{
  ℕ, zero, suc, ◌≡◌, refl, sym, ap, ◌∙◌, true, false, Option, none, some, ◌==◌, arith, Bool-cases,
  inl, inr,
}
use nekosys.Sakura.Windows.{
  WindowInfo, Compositor, put_window, put_in_front, cut_next, cut_prev, bring_to_front, start_drag,
  end_drag, drag, control_window, controls_loop, handle_controls,
}

pub self_eq : (n : ℕ) → (n == n) ≡ true
self_eq n = ground arith

module _ (c : Compositor) (w : ℕ) where
  pub start_drag-next : (start_drag c.mouse (c.windows w)).next ≡ (c.windows w).next
  unfolding start_drag
  start_drag-next = ground arith

  pub end_drag-next : (i : WindowInfo) → (end_drag c.mouse i).next ≡ i.next
  unfolding end_drag
  end_drag-next i = ground arith

  pub control_window_own : ((control_window c w).windows w).next ≡ (c.windows w).next
  unfolding control_window drag
  control_window_own =
      elim (Bool-cases (end_drag c.mouse (start_drag c.mouse (c.windows w))).dragging) [
        | inl on ↦ rw (on, self_eq w) (end_drag-next _ ∙ start_drag-next)
        | inr off ↦ rw (off, self_eq w) (end_drag-next _ ∙ start_drag-next)
      ]

-- A window that is its own successor holds the loop for ever.
controls_loop-cycle :
    (fuel w : ℕ) (c : Compositor)
    → (c.windows w).next ≡ some w
    → controls_loop fuel c (some w) ≡ none
unfolding controls_loop
controls_loop-cycle zero w c e = refl
controls_loop-cycle (suc fuel) w c e =
    let same : ((control_window c w).windows w).next ≡ some w = control_window_own c w ∙ e in
    ap (controls_loop fuel (control_window c w)) same
    ∙ controls_loop-cycle fuel w (control_window c w) same

module _ (c : Compositor) (w a : ℕ) where
  -- A write of a link to a window `a`, seen at `w`.
  put_next-prev :
      (l : Option ℕ)
      → ((put_window c a (record (c.windows a) { next = l })).windows w).prev ≡ (c.windows w).prev
  put_next-prev l = elim (Bool-cases (w == a)) [
    | inl at ↦
        let same : w ≡ a = ground (arith, at) in rw at (ap (λ z. (c.windows z).prev) (sym same))
    | inr off ↦ rw off refl
  ]

  pub put_prev-next :
      (l : Option ℕ)
      → ((put_window c a (record (c.windows a) { prev = l })).windows w).next ≡ (c.windows w).next
  put_prev-next l = elim (Bool-cases (w == a)) [
    | inl at ↦
        let same : w ≡ a = ground (arith, at) in rw at (ap (λ z. (c.windows z).next) (sym same))
    | inr off ↦ rw off refl
  ]

  -- A write of the window's own link back leaves it.
  put_own-prev :
      ((put_window c a (record (c.windows a) { prev = (c.windows w).prev })).windows w).prev
      ≡ (c.windows w).prev
  put_own-prev = elim (Bool-cases (w == a)) [ inl at ↦ rw at refl | inr off ↦ rw off refl ]

-- The head and the links of a window that has been put in front of `h`.
record IsFront (c : Compositor) (w h : ℕ) : Type 0 where
  head : c.windows_head ≡ some w
  next : (c.windows w).next ≡ some h

put_in_front_lem :
    (c : Compositor) (w h : ℕ)
    → c.windows_head ≡ some h
    → (c' : Compositor) × (put_in_front c w ≡ some c')
      × IsFront c' w h
      × ((w == h) ≡ false → (c'.windows w).prev ≡ (c.windows w).prev)
unfolding put_in_front
put_in_front_lem c w h e =
    let c1 = put_window c w (record (c.windows w) { next = some h }) in
    (
      record (put_window c1 h (record (c1.windows h) { prev = some w })) { windows_head = some w },
      rw e refl,
      record { head = refl; next = put_prev-next c1 w h (some w) ∙ rw (self_eq w) refl },
      λ off. rw off (put_next-prev c w w (some h)),
    )

bring_to_front_lem :
    (c : Compositor) (w p n h : ℕ)
    → (c.windows w).prev ≡ some p
    → ((put_window c p (record (c.windows p) { next = (c.windows w).next })).windows w).next
      ≡ some n
    → c.windows_head ≡ some h
    → (c' : Compositor) × (bring_to_front c w ≡ some c')
      × IsFront c' w h
      × ((w == h) ≡ false → (c'.windows w).prev ≡ some p)
unfolding bring_to_front cut_prev cut_next
bring_to_front_lem c w p n h linked follows e =
    let c1 = put_window c p (record (c.windows p) { next = (c.windows w).next }) in
    let c2 = put_window c1 n (record (c1.windows n) { prev = (c1.windows w).prev }) in
    let (c', made, front, kept) = put_in_front_lem c2 w h e in
    (
      c',
      ap (cut_prev c w) linked ∙ ap (cut_next c1 w) follows ∙ made,
      front,
      λ off. kept off ∙ put_own-prev c1 w n ∙ put_next-prev c w p _ ∙ linked,
    )

pub own_next :
    (c : Compositor) (w p : ℕ)
    → ((put_window c p (record (c.windows p) { next = (c.windows w).next })).windows w).next
      ≡ (c.windows w).next
own_next c w p = elim (Bool-cases (w == p)) [ inl at ↦ rw at refl | inr off ↦ rw off refl ]

-- A window that is brought to the front from behind another one keeps its link back, as if it still
-- had one before it: bringing it there again makes it its own successor, and the loop over the
-- windows never ends.
pub bring_to_front_twice_hangs :
    (c : Compositor) (w p n h : ℕ)
    → (c.windows w).prev ≡ some p
    → (c.windows w).next ≡ some n
    → c.windows_head ≡ some h
    → (w == h) ≡ false
    → (c1 c2 : Compositor) × (bring_to_front c w ≡ some c1)
      × (bring_to_front c1 w ≡ some c2)
      × ((fuel : ℕ) → handle_controls fuel c2 ≡ none)
unfolding handle_controls
bring_to_front_twice_hangs c w p n h linked follows e off =
    let (c1, once, front, kept) =
      bring_to_front_lem c w p n h linked (own_next c w p ∙ follows) e in
    let (c2, twice, again, _) =
      bring_to_front_lem c1 w p h w (kept off) (own_next c1 w p ∙ front.next) front.head in
    (
      c1,
      c2,
      once,
      twice,
      λ fuel. ap (controls_loop fuel c2) again.head ∙ controls_loop-cycle fuel w c2 again.next,
    )

-- The last window cannot be brought to the front: BringToFront goes through its null pointer.
bring_to_front_last :
    (c : Compositor) (w p : ℕ)
    → (c.windows w).prev ≡ some p
    → (c.windows w).next ≡ none
    → bring_to_front c w ≡ none
unfolding bring_to_front cut_prev cut_next
bring_to_front_last c w p linked follows =
    let c1 = put_window c p (record (c.windows p) { next = (c.windows w).next }) in
    ap (cut_prev c w) linked ∙ ap (cut_next c1 w) (own_next c w p ∙ follows)
