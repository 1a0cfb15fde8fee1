-- ===== src/Sakura/Mouse/Bounds.antt =====
-- userland/sakura/Mouse.cpp: where the pointer can be.
use nekosys.Base.{ℕ, ◌-◌, ◌<◌, ◌≡◌, true, false, List, [], ◌∷◌, leb, arith, Bool-cases, inl, inr}
use nekosys.Base.Int.{ℤ, pos, negsuc}
use nekosys.Devices.Mouse.{MousePacket}
use nekosys.Sakura.Mouse.{Mouse, plus, opposite, not_negative, at_most, handle_mouse_packet, update}

-- A place on the screen.
pub data IsPlace (max : ℕ) : ℤ → Type 0 where
  place : (n : ℕ) → n < max → IsPlace max (pos n)

at_most-IsPlace : (max : ℕ) (z : ℤ) → 0 < max → IsPlace max (at_most max (not_negative z))
at_most-IsPlace max (pos n) h = elim (Bool-cases (leb max n)) [
  | inl beyond ↦
      let one : leb 1 max ≡ true = ground (arith, h) in
      rw beyond (rw one (place (max - 1) (omega arith)))
  | inr inside ↦ let lt : n < max = ground (arith, inside) in rw inside (place n lt)
]
at_most-IsPlace max (negsuc n) h =
    let some_room : leb max 0 ≡ false = ground (arith, h) in rw some_room (place 0 h)

pub record IsInside (m : Mouse) : Type 0 where
  pub x : IsPlace m.max_x m.pos_x
  pub y : IsPlace m.max_y m.pos_y

-- Whatever packets come, wherever the pointer was: with a screen that is not empty, and at least one
-- packet, the pointer is on the screen.
pub update-IsInside :
    (m : Mouse) (packet : MousePacket) (packets : List MousePacket)
    → 0 < m.max_x
    → 0 < m.max_y
    → IsInside (update m (packet ∷ packets))
unfolding update handle_mouse_packet
update-IsInside m packet [] hx hy = record {
  x = at_most-IsPlace m.max_x (plus m.pos_x packet.dx) hx;
  y = at_most-IsPlace m.max_y (plus m.pos_y (opposite packet.dy)) hy;
}
update-IsInside m packet (next ∷ packets) hx hy =
    update-IsInside (handle_mouse_packet m packet) next packets hx hy
