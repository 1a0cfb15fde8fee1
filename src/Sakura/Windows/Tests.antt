-- ===== src/Sakura/Windows/Tests.antt =====
-- userland/sakura: the pointer and the list of windows at concrete values.
use nekosys.Base.{
  ◌⊎◌, ℕ, ◌≡◌, refl, true, false, none, some, Option, List, [], ◌∷◌, ◌==◌, if◌then◌else◌,
}
use nekosys.Base.Int.{pos, negsuc}
use nekosys.Tasks.Blockers.{contains}
use nekosys.Devices.Mouse.{MousePacket}
use nekosys.Screen.{reset}
use nekosys.Screen.{rectangle, Rectangle}
use nekosys.Sakura.Mouse.{Mouse, update, is_button_down}
use nekosys.Sakura.Windows.{
  WindowInfo, Compositor, add_window, bring_to_front, handle_controls, render_frame,
}
use nekosys.Sakura.Windows.Fronting.{bring_to_front_twice_hangs}
use nekosys.Sakura.Windows.Adding.{IsList, add_window_appends}
use nekosys.Sakura.Windows.Frames.{render_frame_ends}
use nekosys.Sakura.Windows.Order.{Visits, bring_to_front_moves}

abbrev pointer : Mouse
pointer = record { pos_x = pos 50; pos_y = pos 60; max_x = 100; max_y = 80; buttons = 0 }

-- A step to the left and up, out of the screen.
abbrev packet : MousePacket
packet = record { dx = negsuc 99; dy = pos 90; dwheel = pos 0; buttons = 2 }

pointer_run :
    ((update pointer (packet ∷ [])).pos_x ≡ pos 0)
    × ((update pointer (packet ∷ [])).pos_y ≡ pos 0)
    × (is_button_down (update pointer (packet ∷ [])) 1 ≡ true)
unfolding update is_button_down
pointer_run = (refl, refl, refl)

-- Three windows, 1, 2 and 3, and another one, 4, that is not in the list.
abbrev link : Option ℕ → Option ℕ → WindowInfo
link prev next = record {
  x = 10;
  y = 20;
  width = 30;
  height = 40;
  prev = prev;
  next = next;
  dragging = false;
  offset_x = 0;
  offset_y = 0;
}

abbrev three : Compositor
three = record {
  windows = λ w.
      if w == 1
      then link none (some 2)
      else if w == 2
      then link (some 1) (some 3)
      else if w == 3
      then link (some 2) none
      else link none none;
  windows_head = some 1;
  windows_tail = some 3;
  mouse = pointer;
  dirty = reset;
}

three-IsList : IsList three (1 ∷ 2 ∷ 3 ∷ [])
unfolding contains
three-IsList = record {
  linked = (refl, refl, (refl, refl, (refl, refl, refl)));
  tail = refl;
  distinct = (refl, (refl, (refl, tt)));
}

new_run : contains (1 ∷ 2 ∷ 3 ∷ []) 4 ≡ false
unfolding contains
new_run = refl

add_window_appends_example :
    (c' : Compositor) × (add_window three 4 ≡ some c') × IsList c' (1 ∷ 2 ∷ 3 ∷ 4 ∷ [])
add_window_appends_example =
    add_window_appends three (1 ∷ 2 ∷ 3 ∷ []) 4 three-IsList new_run refl refl

bring_to_front_moves_example :
    (c' : Compositor) × (bring_to_front three 2 ≡ some c')
    × Visits c'.windows c'.windows_head (2 ∷ 1 ∷ 3 ∷ [])
bring_to_front_moves_example = bring_to_front_moves three [] [] 1 2 3 three-IsList

bring_to_front_twice_hangs_example :
    (c1 c2 : Compositor) × (bring_to_front three 2 ≡ some c1)
    × (bring_to_front c1 2 ≡ some c2)
    × ((fuel : ℕ) → handle_controls fuel c2 ≡ none)
bring_to_front_twice_hangs_example = bring_to_front_twice_hangs three 2 1 3 1 refl refl refl refl

render_frame_ends_example :
    (r : Rectangle) × (drawn : List ℕ) × (c' : Compositor) × (render_frame 4 three
        (packet ∷ packet ∷ [])
      ≡ some (r, drawn, c'))
    × (c'.dirty.invalidated ≡ false)
    × ((drawn ≡ 1 ∷ 2 ∷ 3 ∷ []) ⊎ ((drawn ≡ []) × (r ≡ rectangle 0 0 0 0)))
render_frame_ends_example =
    render_frame_ends three (1 ∷ 2 ∷ 3 ∷ []) (packet ∷ packet ∷ []) (refl, (refl, (refl, refl)))
