-- ===== src/Screen/Regions.antt =====
-- Intersections and dirty regions as sets of points.
use nekosys.Base.{ℕ, ◌≤◌, ◌<◌, ◌≡◌, ◌↔◌, true, arith}
use nekosys.Base.Words.{word, add32, sub32}
use nekosys.Screen.{
  Rectangle, rectangle, intersects, intersection, DirtyRegionManager, mark_dirty, get_rectangle,
}

-- The point lies in the rectangle.
pub record Within (r : Rectangle) (x y : ℕ) : Type 0 where
  pub left : r.x0 ≤ x
  pub right : x < r.x1
  pub top : r.y0 ≤ y
  pub bottom : y < r.y1

-- The right and bottom bounds fit a word.
pub record Fits (r : Rectangle) : Type 0 where
  pub wide : r.x1 < word
  pub high : r.y1 < word

add32-sub32 : (a b : ℕ) → a ≤ b → b < word → add32 a (sub32 b a) ≡ b
add32-sub32 a b le lt = omega (arith, le, lt)

-- With bounds that fit a word, the rectangle of a region covers every point of what was marked last,
-- and, where its bounds were in order before, every point that it covered then.
pub mark_dirty_covers :
    (d : DirtyRegionManager) (dirty : Rectangle) (x y : ℕ)
    → Fits dirty
    → Fits (record { x0 = d.x0; y0 = d.y0; x1 = d.x1; y1 = d.y1 })
    → (Within dirty x y → Within (get_rectangle (mark_dirty d dirty)) x y)
      × (Within (get_rectangle d) x y
          → d.x0 ≤ d.x1
          → d.y0 ≤ d.y1
          → Within (get_rectangle (mark_dirty d dirty)) x y)
unfolding get_rectangle mark_dirty rectangle
mark_dirty_covers d dirty x y fits old = (
  λ w. record {
    left = ground (arith, w.left);
    right = ground (arith, w.left, w.right, fits.wide, old.wide);
    top = ground (arith, w.top);
    bottom = ground (arith, w.top, w.bottom, fits.high, old.high);
  },
  λ w wide high. record {
    left = ground (arith, w.left);
    right = ground (arith, w.left, w.right, fits.wide, old.wide, wide);
    top = ground (arith, w.top);
    bottom = ground (arith, w.top, w.bottom, fits.high, old.high, high);
  },
)

-- The intersection of two rectangles that are not empty, with bounds that fit a word, and that
-- intersect has exactly the points of both.
pub intersection_meets :
    (a b : Rectangle) (x y : ℕ)
    → Fits a
    → Fits b
    → a.x0 < a.x1
    → a.y0 < a.y1
    → b.x0 < b.x1
    → b.y0 < b.y1
    → intersects a b ≡ true
    → Within (intersection a b) x y ↔ (Within a x y × Within b x y)
unfolding intersects intersection rectangle
intersection_meets a b x y fa fb ax ay bx by e = (
  λ w. (
    record {
      left = ground (arith, w.left);
      right = ground (arith, e, w.right, fa.wide, fb.wide);
      top = ground (arith, w.top);
      bottom = ground (arith, e, w.bottom, fa.high, fb.high);
    },
    record {
      left = ground (arith, w.left);
      right = ground (arith, e, w.right, fa.wide, fb.wide);
      top = ground (arith, w.top);
      bottom = ground (arith, e, w.bottom, fa.high, fb.high);
    },
  ),
  λ (v, w). record {
    left = ground (arith, v.left, w.left);
    right = ground (arith, e, v.right, w.right, fa.wide, fb.wide);
    top = ground (arith, v.top, w.top);
    bottom = ground (arith, e, v.bottom, w.bottom, fa.high, fb.high);
  },
)
