-- ===== src/Sakura/Mouse.antt =====
-- userland/sakura/Mouse.cpp: the pointer of the window system.
pub mod Bounds
use nekosys.Base.{
  ℕ, ◌+◌, ◌-◌, ◌/◌, ◌%◌, Bool, true, false, not, List, [], ◌∷◌, leb, ◌==◌, if◌then◌else◌,
}
use nekosys.Base.Int.{ℤ, pos, negsuc, sub_ℕ}
use nekosys.Base.Words.{word}
use nekosys.Devices.Mouse.{MousePacket}

pub record Mouse : Type 0 where
  pub pos_x : ℤ
  pub pos_y : ℤ
  pub max_x : ℕ
  pub max_y : ℕ
  pub buttons : ℕ

-- Sums and differences of ints that stay in their range.
abbrev pub plus : ℤ → ℤ → ℤ
plus (pos m) (pos n) = pos (m + n)
plus (pos m) (negsuc n) = sub_ℕ m (n + 1)
plus (negsuc m) (pos n) = sub_ℕ n (m + 1)
plus (negsuc m) (negsuc n) = negsuc (m + n + 1)

abbrev pub opposite : ℤ → ℤ
opposite (pos n) = sub_ℕ 0 n
opposite (negsuc n) = pos (n + 1)

abbrev pub not_negative : ℤ → ℤ
not_negative (pos n) = pos n
not_negative (negsuc n) = pos 0

-- `z > max - 1`, where the largest place is taken instead.
abbrev pub at_most : ℕ → ℤ → ℤ
at_most max (pos n) = if leb max n then sub_ℕ max 1 else pos n
at_most max (negsuc n) = negsuc n

-- An int as a word of 32 bits.
abbrev pub to_word : ℤ → ℕ
to_word (pos n) = n % word
to_word (negsuc n) = word - 1 - n % word

-- GetPosX and GetPosY give 16 bits.
abbrev pub get_pos : ℤ → ℕ
get_pos z = to_word z % 65536

-- The constructor, whose sizes are of 16 bits; `buttons` is not set there.
unfoldable pub new_mouse : ℕ → ℕ → ℕ → Mouse
new_mouse max_x max_y buttons = record {
  pos_x = pos (max_x % 65536 / 2);
  pos_y = pos (max_y % 65536 / 2);
  max_x = max_x % 65536;
  max_y = max_y % 65536;
  buttons = buttons;
}

unfoldable pub handle_mouse_packet : Mouse → MousePacket → Mouse
handle_mouse_packet m packet = record m {
  pos_x = at_most m.max_x (not_negative (plus m.pos_x packet.dx));
  pos_y = at_most m.max_y (not_negative (plus m.pos_y (opposite packet.dy)));
  buttons = packet.buttons % 65536;
}

-- Update, for the packets that mouse_poll gives before it has none.
unfoldable pub update : Mouse → List MousePacket → Mouse
unfolding handle_mouse_packet
update m [] = m
update m (packet ∷ packets) = update (handle_mouse_packet m packet) packets

-- IsButtonDown masks the buttons with themselves, whatever button is asked for.
unfoldable pub is_button_down : Mouse → ℕ → Bool
is_button_down m button = not (m.buttons == 0)
