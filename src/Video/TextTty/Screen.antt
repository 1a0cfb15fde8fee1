-- ===== src/Video/TextTty/Screen.antt =====
-- kernel/video/texttty.cpp: where the terminal writes, and what scrolling does to the lines.
use nekosys.Base.{
  ℕ, zero, suc, ◌+◌, ◌-◌, ◌*◌, ◌≤◌, ◌<◌, ◌≡◌, refl, sym, ap, ◌∙◌, Bool, true, false, List, [], ◌∷◌,
  ◌||◌, ltb, ◌==◌, if◌then◌else◌, arith, Bool-cases, inl, inr,
}
use nekosys.Memory.PageManager.{update}
use nekosys.Video.TextTty.{
  TextTty, cell_word, set_cursor_pos, put_entry, copy_up, clear_line, scroll, advance, put_char,
  write,
}

pub record IsValid (t : TextTty) : Type 0 where
  pub column : t.cursor_x < t.width
  pub line : t.cursor_y < t.height

-- A cell of the screen lies in the buffer's first width * height words.
cell_inside : (x y w h : ℕ) → x < w → y < h → x + y * w < h * w
cell_inside x y w h p q = grind arith

module _ (width : ℕ) (pos : 0 < width) where
  copy_up-at :
      (b : ℕ → ℕ) (n i j : ℕ)
      → copy_up b width n i j
        ≡ (if ltb j i then b j else if ltb j (i + n) then b (j + width) else b j)
  unfolding copy_up
  copy_up-at b zero i j = ground arith
  copy_up-at b (suc n) i j = ground (
    arith,
    copy_up-at (update b i (b (i + width))) n (i + 1) j,
    pos,
    ap b {x = j} {y = i},
    ap (λ z. b (z + width)) {x = j} {y = i},
  )

-- Everything but the cells stays.
clear_line_keeps :
    (t : TextTty) (y n x : ℕ)
    → clear_line t y n x ≡ record t { buffer = (clear_line t y n x).buffer }
unfolding clear_line
clear_line_keeps t y zero x = refl
clear_line_keeps t y (suc n) x = clear_line_keeps (put_entry t b' ' t.current_color x y) y n (x + 1)

clear_line-at :
    (t : TextTty) (y n x j : ℕ)
    → (clear_line t y n x).buffer j ≡ (
        if ltb j (x + y * t.width)
        then t.buffer j
        else if ltb j (x + n + y * t.width)
        then cell_word b' ' t.current_color
        else t.buffer j)
unfolding clear_line put_entry
clear_line-at t y zero x j = ground arith
clear_line-at t y (suc n) x j =
    ground (arith, clear_line-at (put_entry t b' ' t.current_color x y) y n (x + 1) j)

module _ (t : TextTty) (v : IsValid t) where
  -- What scrolling does to each cell, with the cursor in the last line.
  scroll-at :
      t.cursor_y + 1 ≡ t.height
      → (j : ℕ)
      → (scroll t).buffer j ≡ (
          if ltb j (t.cursor_y * t.width)
          then t.buffer (j + t.width)
          else if ltb j (t.height * t.width)
          then cell_word b' ' t.current_color
          else t.buffer j)
  unfolding scroll
  scroll-at last j =
      let copied = record t { buffer = copy_up t.buffer t.width ((t.height - 1) * t.width) 0 } in
      let e : (t.height - 1) * t.width ≡ t.cursor_y * t.width =
        ap (λ z. z * t.width) (omega (arith, last)) in
      let h : t.height * t.width ≡ t.width + t.cursor_y * t.width =
        ap (λ z. z * t.width) (sym last) ∙ omega arith in
      ground (
        arith,
        clear_line-at copied t.cursor_y t.width 0 j,
        copy_up-at t.width (omega (arith, v.column)) t.buffer ((t.height - 1) * t.width) 0 j,
        e,
        h,
      )

  scroll_keeps : scroll t ≡ record t { buffer = (scroll t).buffer }
  unfolding scroll
  scroll_keeps =
      clear_line_keeps (record t { buffer = copy_up t.buffer t.width ((t.height - 1) * t.width) 0 })
        t.cursor_y t.width 0

  scroll_fields :
      ((scroll t).width ≡ t.width)
      × ((scroll t).height ≡ t.height)
      × ((scroll t).cursor_x ≡ t.cursor_x)
      × ((scroll t).cursor_y ≡ t.cursor_y)
  scroll_fields = (
    ap (λ (z : TextTty). z.width) scroll_keeps,
    ap (λ (z : TextTty). z.height) scroll_keeps,
    ap (λ (z : TextTty). z.cursor_x) scroll_keeps,
    ap (λ (z : TextTty). z.cursor_y) scroll_keeps,
  )

scroll_beyond :
    (t : TextTty) (v : IsValid t) (i : ℕ)
    → t.cursor_y + 1 ≡ t.height
    → t.height * t.width ≤ i
    → (scroll t).buffer i ≡ t.buffer i
scroll_beyond t v i last out =
    let h : t.height * t.width ≡ t.width + t.cursor_y * t.width =
      ap (λ z. z * t.width) (sym last) ∙ omega arith in
    ground (arith, scroll-at t v last i, h)

-- The screen keeps its size, the cursor is on it, and no word behind the screen is written.
pub record Stays (t t' : TextTty) : Type 0 where
  pub valid : IsValid t'
  pub width_kept : t'.width ≡ t.width
  pub height_kept : t'.height ≡ t.height
  pub beyond : (i : ℕ) → t.height * t.width ≤ i → t'.buffer i ≡ t.buffer i

Stays-trans : (a b c : TextTty) → Stays a b → Stays b c → Stays a c
Stays-trans a b c p q = record {
  valid = q.valid;
  width_kept = q.width_kept ∙ p.width_kept;
  height_kept = q.height_kept ∙ p.height_kept;
  beyond = λ i h.
      let same : b.height * b.width ≡ a.height * a.width = λ i. p.height_kept i * p.width_kept i in
      q.beyond i (omega (arith, h, same)) ∙ p.beyond i h;
}

put_entry-Stays :
    (t : TextTty) (c color x y : ℕ)
    → IsValid t
    → x < t.width
    → y < t.height
    → Stays t (put_entry t c color x y)
unfolding put_entry
put_entry-Stays t c color x y v hx hy = record {
  valid = record { column = v.column; line = v.line };
  width_kept = refl;
  height_kept = refl;
  beyond = λ i h. ground (arith, cell_inside x y t.width t.height hx hy, h);
}

advance-Stays : (t : TextTty) (newline : Bool) → IsValid t → Stays t (advance t newline)
unfolding advance set_cursor_pos
advance-Stays t newline v =
    let t0 = record t { cursor_x = 0 } in
    let v0 : IsValid t0 = record { column = omega (arith, v.column); line = v.line } in
    let (w, h, x, y) = scroll_fields t0 v0 in
    record {
      valid = record {
        column = ground (arith, w, x, v.column);
        line = ground (arith, h, y, v.line);
      };
      width_kept = ground (arith, w);
      height_kept = ground (arith, h);
      beyond = λ i out. ground (arith, scroll_beyond t0 v0 i, out);
    }

-- PutChar of any character keeps the cursor on the screen and the screen's size, and writes no word
-- behind the screen.
pub put_char-Stays : (t : TextTty) (c : ℕ) → IsValid t → Stays t (put_char t c)
unfolding put_char set_cursor_pos
put_char-Stays t c v = elim (Bool-cases (c == 8)) [
  | inl back ↦ elim (Bool-cases (ltb 0 t.cursor_x)) [
    | inl room ↦
        let erased = set_cursor_pos t (t.cursor_x - 1) t.cursor_y in
        let ve : IsValid erased = record { column = omega (arith, v.column); line = v.line } in
        let p =
          put_entry-Stays erased b' ' t.current_color (t.cursor_x - 1) t.cursor_y ve
            (omega (arith, v.column)) v.line in
        rw (back, room)
          (record {
            valid = p.valid;
            width_kept = p.width_kept;
            height_kept = p.height_kept;
            beyond = p.beyond;
          })
    | inr none_left ↦
        rw (back, none_left)
          (record { valid = v; width_kept = refl; height_kept = refl; beyond = λ i h. refl })
  ]
  | inr other ↦ elim (Bool-cases (c == 10 || c == 13)) [
    | inl newline ↦ rw (other, newline) (advance-Stays t true v)
    | inr printed ↦
        let p = put_entry-Stays t c t.current_color t.cursor_x t.cursor_y v v.column v.line in
        rw (other, printed)
          (Stays-trans t (put_entry t c t.current_color t.cursor_x t.cursor_y)
            (advance (put_entry t c t.current_color t.cursor_x t.cursor_y) false) p
            (advance-Stays (put_entry t c t.current_color t.cursor_x t.cursor_y) false p.valid))
  ]
]

-- Whatever is written, the terminal stays on its screen.
pub write-Stays : (t : TextTty) (cs : List ℕ) → IsValid t → Stays t (write t cs)
unfolding write
write-Stays t [] v = record {
  valid = v;
  width_kept = refl;
  height_kept = refl;
  beyond = λ i h. refl;
}
write-Stays t (c ∷ cs) v =
    let p = put_char-Stays t c v in
    Stays-trans t (put_char t c) (write (put_char t c) cs) p (write-Stays (put_char t c) cs p.valid)

-- A newline in the last line moves every line up by one, clears the last line and leaves the cursor
-- at its beginning.
pub put_char_scrolls :
    (t : TextTty)
    → IsValid t
    → t.cursor_y + 1 ≡ t.height
    → ((x y : ℕ)
        → x < t.width
        → y + 1 < t.height
        → (put_char t 10).buffer (x + y * t.width) ≡ t.buffer (x + (y + 1) * t.width))
      × ((x : ℕ)
          → x < t.width
          → (put_char t 10).buffer (x + t.cursor_y * t.width) ≡ cell_word b' ' t.current_color)
      × ((put_char t 10).cursor_x ≡ 0)
      × ((put_char t 10).cursor_y ≡ t.cursor_y)
unfolding put_char advance set_cursor_pos
put_char_scrolls t v last =
    let t0 = record t { cursor_x = 0 } in
    let v0 : IsValid t0 = record { column = omega (arith, v.column); line = v.line } in
    let (w, h, cx, cy) = scroll_fields t0 v0 in
    let size : t.height * t.width ≡ t.width + t.cursor_y * t.width =
      ap (λ z. z * t.width) (sym last) ∙ omega arith in
    (
      λ x y hx hy.
          let above = cell_inside x y t.width t.cursor_y hx (omega (arith, hy, last)) in
          let next : x + y * t.width + t.width ≡ x + (y + 1) * t.width = omega arith in
          ground (arith, scroll-at t0 v0 last (x + y * t.width), above, ap t.buffer next, last),
      λ x hx. ground (arith, scroll-at t0 v0 last (x + t.cursor_y * t.width), size, last, hx),
      ground (arith, cx, last),
      ground (arith, cy, last),
    )
