-- ===== src/Sakura/Windows/Frames.antt =====
-- userland/sakura/Compositor.cpp: RenderFrame ends.
use nekosys.Base.{
  ℕ, suc, ◌≡◌, refl, sym, ap, ◌∙◌, subst, true, false, Option, some, List, [], ◌∷◌, ◌==◌, length,
  if◌then◌else◌, arith, ◌⊎◌, Bool, Bool-cases, inl, inr,
}
use nekosys.Devices.Mouse.{MousePacket}
use nekosys.Screen.{Rectangle, rectangle, get_rectangle, reset}
use nekosys.Sakura.Windows.{
  WindowInfo, Compositor, start_drag, end_drag, control_window, controls_loop, handle_controls,
  move_mouse, draw_loop, draw_frame, finish_frame, render_frame,
}
use nekosys.Sakura.Windows.Fronting.{control_window_own}
use nekosys.Sakura.Windows.Order.{Visits}

control_window-next :
    (c : Compositor) (w j : ℕ) → ((control_window c w).windows j).next ≡ (c.windows j).next
unfolding control_window
control_window-next c w j = elim (Bool-cases (j == w)) [
  | inl at ↦
      let same : j ≡ w = ground (arith, at) in
      subst (λ z. ((control_window c w).windows z).next ≡ (c.windows z).next) (sym same)
        (control_window_own c w)
  | inr off ↦ elim (Bool-cases (end_drag c.mouse (start_drag c.mouse (c.windows w))).dragging) [
    | inl on ↦ rw (on, off) refl
    | inr still ↦ rw (still, off) refl
  ]
]

-- Windows with the same links are visited in the same order.
Visits-links :
    (ws ws' : ℕ → WindowInfo) (ptr : Option ℕ) (xs : List ℕ)
    → ((j : ℕ) → (ws' j).next ≡ (ws j).next)
    → Visits ws ptr xs
    → Visits ws' ptr xs
Visits-links ws ws' ptr [] same e = e
Visits-links ws ws' ptr (x ∷ xs) same (e, v) =
    (e, Visits-links ws ws' (ws' x).next xs same (subst (λ z. Visits ws z xs) (sym (same x)) v))

control_window-head : (c : Compositor) (w : ℕ) → (control_window c w).windows_head ≡ c.windows_head
unfolding control_window
control_window-head c w =
    elim (Bool-cases (end_drag c.mouse (start_drag c.mouse (c.windows w))).dragging) [
      | inl on ↦ rw on refl
      | inr off ↦ rw off refl
    ]

-- The links between the windows, and the head of the list, are as before.
record SameLinks (c c' : Compositor) : Type 0 where
  links : (j : ℕ) → (c'.windows j).next ≡ (c.windows j).next
  head : c'.windows_head ≡ c.windows_head

controls_loop_ends :
    (c : Compositor) (ptr : Option ℕ) (xs : List ℕ)
    → Visits c.windows ptr xs
    → (c' : Compositor) × (controls_loop (suc (length xs)) c ptr ≡ some c') × SameLinks c c'
unfolding controls_loop
controls_loop_ends c ptr [] e =
    (c, ap (controls_loop 1 c) e, record { links = λ j. refl; head = refl })
controls_loop_ends c ptr (x ∷ xs) (e, v) =
    let c1 = control_window c x in
    let next = (c1.windows x).next in
    let later : Visits c1.windows next xs =
      Visits-links c.windows c1.windows next xs (control_window-next c x)
        (subst (λ z. Visits c.windows z xs) (sym (control_window-next c x x)) v) in
    let (c', ends, same) = controls_loop_ends c1 next xs later in
    (
      c',
      ap (controls_loop (suc (suc (length xs))) c) e ∙ ends,
      record {
        links = λ j. same.links j ∙ control_window-next c x j;
        head = same.head ∙ control_window-head c x;
      },
    )

draw_loop-Visits :
    (c : Compositor) (ptr : Option ℕ) (xs : List ℕ)
    → Visits c.windows ptr xs
    → draw_loop (suc (length xs)) c ptr ≡ some xs
unfolding draw_loop
draw_loop-Visits c ptr [] e = ap (draw_loop 1 c) e
draw_loop-Visits c ptr (x ∷ xs) (e, v) =
    ap (draw_loop (suc (suc (length xs))) c) e
    ∙ rw (draw_loop-Visits c (c.windows x).next xs v, draw_loop) refl

draw_frame-Visits :
    (c : Compositor) (xs : List ℕ)
    → Visits c.windows c.windows_head xs
    → (r : Rectangle) × (drawn : List ℕ) × (c' : Compositor) × (draw_frame (suc (length xs)) c
        ≡ some (r, drawn, c'))
      × (c'.dirty.invalidated ≡ false)
      × (((drawn ≡ xs) × (r ≡ get_rectangle c.dirty)) ⊎ ((drawn ≡ []) × (r ≡ rectangle 0 0 0 0)))
unfolding draw_frame reset
draw_frame-Visits c xs v = elim (Bool-cases c.dirty.invalidated) [
  | inl dirty ↦ (
    get_rectangle c.dirty,
    xs,
    record c { dirty = reset },
    rw (dirty, draw_loop-Visits c c.windows_head xs v, draw_frame) refl,
    refl,
    inl (refl, refl),
  )
  | inr clean ↦ (rectangle 0 0 0 0, [], c, simp (clean, draw_frame), clean, inr (refl, refl))
]

either_keeps :
    (b : Bool) (x y c : Compositor)
    → x.windows ≡ c.windows
    → x.windows_head ≡ c.windows_head
    → y.windows ≡ c.windows
    → y.windows_head ≡ c.windows_head
    → ((if b then x else y).windows ≡ c.windows)
      × ((if b then x else y).windows_head ≡ c.windows_head)
either_keeps true x y c xw xh yw yh = (xw, xh)
either_keeps false x y c xw xh yw yh = (yw, yh)

move_mouse_keeps :
    (c : Compositor) (packets : List MousePacket)
    → ((move_mouse c packets).windows ≡ c.windows)
      × ((move_mouse c packets).windows_head ≡ c.windows_head)
unfolding move_mouse
move_mouse_keeps c packets = either_keeps _ _ _ c refl refl refl refl

-- Where the `next` pointers visit a list of windows from the head on, and mouse_poll gives finitely many
-- packets before it has none, whatever packets these are, both loops over the windows end: a round for
-- each window and one more are enough. A frame draws all windows in the list's order, or nothing and
-- an empty rectangle, and leaves nothing dirty. (What is drawn of a window is not modelled.)
pub render_frame_ends :
    (c : Compositor) (xs : List ℕ) (packets : List MousePacket)
    → Visits c.windows c.windows_head xs
    → (r : Rectangle) × (drawn : List ℕ) × (c' : Compositor) × (render_frame
          (suc (length xs))
          c
          packets
        ≡ some (r, drawn, c'))
      × (c'.dirty.invalidated ≡ false)
      × ((drawn ≡ xs) ⊎ ((drawn ≡ []) × (r ≡ rectangle 0 0 0 0)))
unfolding render_frame handle_controls finish_frame
render_frame_ends c xs packets v =
    let moved = move_mouse c packets in
    let (windows, head) = move_mouse_keeps c packets in
    let seen : Visits moved.windows moved.windows_head xs =
      subst (λ z. Visits z moved.windows_head xs) (sym windows)
        (subst (λ z. Visits c.windows z xs) (sym head) v) in
    let (c1, ends, same) = controls_loop_ends moved moved.windows_head xs seen in
    let still : Visits c1.windows c1.windows_head xs =
      Visits-links moved.windows c1.windows c1.windows_head xs same.links
        (subst (λ z. Visits moved.windows z xs) (sym same.head) seen) in
    let (r, drawn, c', drew, clean, which) = draw_frame-Visits c1 xs still in
    (
      r,
      drawn,
      c',
      ap (finish_frame (suc (length xs))) ends ∙ drew,
      clean,
      elim which [ inl (all, _) ↦ inl all | inr nothing ↦ inr nothing ],
    )
