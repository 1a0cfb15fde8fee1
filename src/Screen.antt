-- ===== src/Screen.antt =====
-- libgfx/include/gfx/rectangle.h and userland/sakura/DirtyRegionManager.cpp.
pub mod Regions
mod Tests
use nekosys.Base.{ℕ, ◌+◌, ◌≤◌, ◌<◌, Bool, true, false, ◌&&◌, ltb, if◌then◌else◌}
use nekosys.Base.Words.{add32, sub32}

pub record Rectangle : Type 0 where
  pub x0 : ℕ
  pub y0 : ℕ
  pub x1 : ℕ
  pub y1 : ℕ

unfoldable pub rectangle : ℕ → ℕ → ℕ → ℕ → Rectangle
rectangle x y width height = record { x0 = x; y0 = y; x1 = add32 x width; y1 = add32 y height }

unfoldable pub intersects : Rectangle → Rectangle → Bool
intersects a b = ltb a.x0 b.x1 && ltb b.x0 a.x1 && ltb a.y0 b.y1 && ltb b.y0 a.y1

abbrev pub minimum : ℕ → ℕ → ℕ
minimum a b = if ltb a b then a else b

abbrev pub maximum : ℕ → ℕ → ℕ
maximum a b = if ltb b a then a else b

unfoldable pub intersection : Rectangle → Rectangle → Rectangle
unfolding rectangle
intersection a b =
    let x0 = maximum a.x0 b.x0 in
    let y0 = maximum a.y0 b.y0 in
    let x1 = minimum a.x1 b.x1 in
    let y1 = minimum a.y1 b.y1 in rectangle x0 y0 (sub32 x1 x0) (sub32 y1 y0)

-- The bounds are never negative, so that the ints are compared as they are.
pub record DirtyRegionManager : Type 0 where
  pub invalidated : Bool
  pub x0 : ℕ
  pub y0 : ℕ
  pub x1 : ℕ
  pub y1 : ℕ

unfoldable pub reset : DirtyRegionManager
reset = record { invalidated = false; x0 = 999999; y0 = 999999; x1 = 0; y1 = 0 }

unfoldable pub mark_dirty : DirtyRegionManager → Rectangle → DirtyRegionManager
mark_dirty d dirty = record {
  invalidated = true;
  x0 = if ltb dirty.x0 d.x0 then dirty.x0 else d.x0;
  y0 = if ltb dirty.y0 d.y0 then dirty.y0 else d.y0;
  x1 = if ltb d.x1 dirty.x1 then dirty.x1 else d.x1;
  y1 = if ltb d.y1 dirty.y1 then dirty.y1 else d.y1;
}

unfoldable pub get_rectangle : DirtyRegionManager → Rectangle
unfolding rectangle
get_rectangle d = rectangle d.x0 d.y0 (sub32 d.x1 d.x0) (sub32 d.y1 d.y0)
