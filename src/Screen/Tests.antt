-- ===== src/Screen/Tests.antt =====
-- Runs of rectangles and dirty regions, and the theorems at concrete rectangles.
use nekosys.Base.{◌≤◌, ◌≡◌, refl, true, arith}
use nekosys.Screen.{
  Rectangle, rectangle, intersects, intersection, DirtyRegionManager, reset, mark_dirty,
  get_rectangle,
}
use nekosys.Screen.Regions.{Within, Fits, mark_dirty_covers}

abbrev window : Rectangle
window = record { x0 = 10; y0 = 10; x1 = 30; y1 = 20 }

abbrev other : Rectangle
other = record { x0 = 20; y0 = 5; x1 = 40; y1 = 15 }

abbrev region : DirtyRegionManager
region = record { invalidated = true; x0 = 10; y0 = 10; x1 = 30; y1 = 20 }

screen_runs :
    (intersects window other ≡ true)
    × (intersection window other ≡ record { x0 = 20; y0 = 10; x1 = 30; y1 = 15 })
    × (mark_dirty reset window ≡ region)
    × (get_rectangle (mark_dirty region other) ≡ record { x0 = 10; y0 = 5; x1 = 40; y1 = 20 })
unfolding intersects intersection rectangle reset mark_dirty get_rectangle
screen_runs = (refl, refl, refl, refl)

window-Fits : Fits window
window-Fits = record { wide = omega arith; high = omega arith }

other-Fits : Fits other
other-Fits = record { wide = omega arith; high = omega arith }

mark_dirty_covers_example :
    (Within other 35 6 → Within (get_rectangle (mark_dirty region other)) 35 6)
    × (Within (get_rectangle region) 35 6
        → 10 ≤ 30
        → 10 ≤ 20
        → Within (get_rectangle (mark_dirty region other)) 35 6)
mark_dirty_covers_example = mark_dirty_covers region other 35 6 other-Fits window-Fits
