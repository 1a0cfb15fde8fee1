-- ===== src/Sakura/Windows.antt =====
-- userland/sakura/Compositor.cpp and WindowInfo.h: the list of windows, dragging, and which part of the
-- screen a frame draws again.
pub mod Fronting
pub mod Order
pub mod Frames
pub mod Adding
mod Tests
use nekosys.Base.{
  ℕ, zero, suc, Bool, true, false, not, ◌&&◌, ◌||◌, Option, none, some, List, [], ◌∷◌, leb, ltb,
  ◌==◌, if◌then◌else◌,
}
use nekosys.Base.Words.{add32, sub32}
use nekosys.Devices.Mouse.{MousePacket}
use nekosys.Screen.{Rectangle, rectangle, DirtyRegionManager, reset, mark_dirty, get_rectangle}
use nekosys.Sakura.Mouse.{Mouse, new_mouse, update, get_pos, to_word, is_button_down}

abbrev pub window_title_height : ℕ
window_title_height = 24

abbrev pub mouse_update_size : ℕ
mouse_update_size = 20

-- Places and sizes are ints, kept as words; `prev` and `next` are pointers.
pub record WindowInfo : Type 0 where
  pub x : ℕ
  pub y : ℕ
  pub width : ℕ
  pub height : ℕ
  pub prev : Option ℕ
  pub next : Option ℕ
  pub dragging : Bool
  pub offset_x : ℕ
  pub offset_y : ℕ

unfoldable pub window_rectangle : WindowInfo → Rectangle
unfolding rectangle
window_rectangle w = rectangle w.x w.y w.width (add32 w.height window_title_height)

unfoldable pub drag_rectangle : WindowInfo → Rectangle
unfolding rectangle
drag_rectangle w = rectangle w.x w.y w.width window_title_height

-- Rectangle::Intersects for a point.
unfoldable pub intersects_point : Rectangle → ℕ → ℕ → Bool
intersects_point r x y = leb r.x0 x && ltb r.y0 y && ltb x r.x1 && ltb y r.y1

-- The windows by their addresses.
pub record Compositor : Type 0 where
  pub windows : ℕ → WindowInfo
  pub windows_head : Option ℕ
  pub windows_tail : Option ℕ
  pub mouse : Mouse
  pub dirty : DirtyRegionManager

-- A write to a window.
abbrev pub put_window : Compositor → ℕ → WindowInfo → Compositor
put_window c w info = record c { windows = λ j. if j == w then info else c.windows j }

abbrev pub mark : Compositor → Rectangle → Compositor
mark c r = record c { dirty = mark_dirty c.dirty r }

-- The constructor, for the size of the framebuffer.
unfoldable pub new_compositor : (ℕ → WindowInfo) → ℕ → ℕ → ℕ → Compositor
unfolding new_mouse reset mark_dirty rectangle
new_compositor windows width height buttons = record {
  windows = windows;
  windows_head = none;
  windows_tail = none;
  mouse = new_mouse width height buttons;
  dirty = mark_dirty reset (rectangle 0 0 width height);
}

-- `none` is an access through a null pointer, here and below.
unfoldable pub add_window : Compositor → ℕ → Option Compositor
unfolding mark_dirty window_rectangle
add_window c w = elim c.windows_tail [
  | none ↦ elim c.windows_head [
    | none ↦ some (
        mark (record c { windows_head = some w; windows_tail = some w })
          (window_rectangle (c.windows w)))
    | some h ↦ none
  ]
  | some t ↦
      let c1 = put_window c w (record (c.windows w) { prev = some t }) in
      let c2 = put_window c1 t (record (c1.windows t) { next = some w }) in
      some (mark (record c2 { windows_tail = some w }) (window_rectangle (c2.windows w)))
]

-- The end of BringToFront: the window is put in front of the list.
unfoldable pub put_in_front : Compositor → ℕ → Option Compositor
put_in_front c w = elim c.windows_head [
  | none ↦ none
  | some h ↦
      let c1 = put_window c w (record (c.windows w) { next = some h }) in
      some (record (put_window c1 h (record (c1.windows h) { prev = some w })) {
        windows_head = some w;
      })
]

-- BringToFront from its two tests on: what follows the window, then what is before it.
unfoldable pub cut_next : Compositor → ℕ → Option ℕ → Option Compositor
unfolding put_in_front
cut_next c w none = none
cut_next c w (some n) =
    put_in_front (put_window c n (record (c.windows n) { prev = (c.windows w).prev })) w

unfoldable pub cut_prev : Compositor → ℕ → Option ℕ → Option Compositor
unfolding cut_next
cut_prev c w none = some c
cut_prev c w (some p) =
    let c1 = put_window c p (record (c.windows p) { next = (c.windows w).next }) in
    cut_next c1 w (c1.windows w).next

unfoldable pub bring_to_front : Compositor → ℕ → Option Compositor
unfolding cut_prev
bring_to_front c w = cut_prev c w (c.windows w).prev

-- One window of HandleControls: a drag starts, ends and goes on.
unfoldable pub start_drag : Mouse → WindowInfo → WindowInfo
unfolding is_button_down intersects_point drag_rectangle
start_drag m w =
    if is_button_down m 1
      && intersects_point (drag_rectangle w) (to_word m.pos_x) (to_word m.pos_y)
      && not w.dragging
    then record w {
      dragging = true;
      offset_x = sub32 (get_pos m.pos_x) w.x;
      offset_y = sub32 (get_pos m.pos_y) w.y;
    }
    else w

unfoldable pub end_drag : Mouse → WindowInfo → WindowInfo
unfolding is_button_down
end_drag m w = if w.dragging && not (is_button_down m 1) then record w { dragging = false } else w

unfoldable pub drag : Mouse → WindowInfo → WindowInfo
drag m w = record w {
  x = sub32 (to_word m.pos_x) w.offset_x;
  y = sub32 (to_word m.pos_y) w.offset_y;
}

unfoldable pub control_window : Compositor → ℕ → Compositor
unfolding start_drag end_drag drag window_rectangle mark_dirty
control_window c w =
    let info = end_drag c.mouse (start_drag c.mouse (c.windows w)) in
    let moved = drag c.mouse info in
    if info.dragging
    then mark (mark (put_window c w moved) (window_rectangle info)) (window_rectangle moved)
    else put_window c w info

-- The loop of HandleControls from a window on; `none` is a loop that has not ended.
unfoldable pub controls_loop : ℕ → Compositor → Option ℕ → Option Compositor
unfolding control_window
controls_loop zero c window = none
controls_loop (suc fuel) c none = some c
controls_loop (suc fuel) c (some w) =
    controls_loop fuel (control_window c w) ((control_window c w).windows w).next

unfoldable pub handle_controls : ℕ → Compositor → Option Compositor
unfolding controls_loop
handle_controls fuel c = controls_loop fuel c c.windows_head

-- RenderFrame without the drawing: the packets of the mouse, dragging, and the rectangle to draw.
unfoldable pub move_mouse : Compositor → List MousePacket → Compositor
unfolding update mark_dirty rectangle
move_mouse c packets =
    let old_x = get_pos c.mouse.pos_x in
    let old_y = get_pos c.mouse.pos_y in
    let m = update c.mouse packets in
    let c1 = record c { mouse = m } in
    if not (old_x == get_pos m.pos_x) || not (old_y == get_pos m.pos_y)
    then mark (mark c1 (rectangle old_x old_y mouse_update_size mouse_update_size))
        (rectangle (get_pos m.pos_x) (get_pos m.pos_y) mouse_update_size mouse_update_size)
    else c1

-- The loop of RenderFrame over the windows: the windows that it draws, in the order in which it does;
-- what it draws of each is left out.
unfoldable pub draw_loop : ℕ → Compositor → Option ℕ → Option (List ℕ)
draw_loop zero c window = none
draw_loop (suc fuel) c none = some []
draw_loop (suc fuel) c (some w) = elim (draw_loop fuel c (c.windows w).next) [
  | none ↦ none
  | some drawn ↦ some (w ∷ drawn)
]

-- What a frame draws, if anything is dirty: the rectangle, which is the mask of what is drawn, and the
-- windows.
unfoldable pub draw_frame : ℕ → Compositor → Option (Rectangle × List ℕ × Compositor)
unfolding draw_loop rectangle get_rectangle reset
draw_frame fuel c = elim c.dirty.invalidated [
  | false ↦ some (rectangle 0 0 0 0, [], c)
  | true ↦ elim (draw_loop fuel c c.windows_head) [
    | none ↦ none
    | some drawn ↦ some (get_rectangle c.dirty, drawn, record c { dirty = reset })
  ]
]

unfoldable pub finish_frame : ℕ → Option Compositor → Option (Rectangle × List ℕ × Compositor)
unfolding draw_frame
finish_frame fuel none = none
finish_frame fuel (some c) = draw_frame fuel c

-- RenderFrame, for the packets that mouse_poll gives before it has none.
unfoldable pub render_frame :
    ℕ → Compositor → List MousePacket → Option (Rectangle × List ℕ × Compositor)
unfolding move_mouse handle_controls finish_frame
render_frame fuel c packets = finish_frame fuel (handle_controls fuel (move_mouse c packets))
