-- ===== src/Devices/Keyboard/Tests.antt =====
-- kernel/device/keyboard.cpp: runs of the keyboard, and its theorem at a concrete buffer.
use nekosys.Base.{◌≡◌, refl, false, none, [], ◌∷◌}
use nekosys.Tasks.Thread.{Kernel}
use nekosys.Devices.Keyboard.{
  assigned, map_char, put_char, handle_scancode, index_of_char, read_until,
}

-- 'l', 'a', backspace, 's', Enter
abbrev typed : Kernel
typed = record {
  store = λ t. none;
  id_counter = 0;
  current = 0;
  current_process = 0;
  queue = [];
  ctr = 0;
  uptime = 0;
  key_buffer =
      handle_scancode
        (handle_scancode (handle_scancode (handle_scancode (handle_scancode [] 38) 30) 14) 31) 28;
  process_threads = λ p. [];
  pipes = λ p. record { broken = false; receivers = [] };
}

keyboard_runs :
    (typed.key_buffer ≡ b'l' ∷ b's' ∷ 10 ∷ [])
    × (handle_scancode [] 129 ≡ [])
    × (handle_scancode [] 14 ≡ 8 ∷ [])
    × (read_until typed.key_buffer 5 10 ≡ (b'l' ∷ b's' ∷ [], []))
    × (read_until typed.key_buffer 1 10 ≡ (b'l' ∷ [], b's' ∷ 10 ∷ []))
unfolding handle_scancode map_char assigned put_char read_until index_of_char
keyboard_runs = (refl, refl, refl, refl, refl)
