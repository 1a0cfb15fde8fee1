-- ===== src/Devices/Mouse.antt =====
-- kernel/device/mouse.cpp: the packets of the mouse, and their system call.
pub mod Packets
mod Tests
use nekosys.Base.{
  ℕ, ◌-◌, ◌%◌, Bool, true, false, not, ◌&&◌, ◌||◌, Option, none, some, List, [], ◌∷◌, ltb, ◌==◌,
  if◌then◌else◌, length, get_or,
}
use nekosys.Base.Bytes.{bit_clear}
use nekosys.Base.Int.{ℤ, pos, negsuc, sub_ℕ}
use nekosys.Neko.CircularQueue.{CircularQueue, enqueue, dequeue, is_empty}
use nekosys.Pipes.{Reply, success, failure}

pub record MousePacket : Type 0 where
  pub dx : ℤ
  pub dy : ℤ
  pub dwheel : ℤ
  pub buttons : ℕ

abbrev pub mouse_packet_num : ℕ
mouse_packet_num = 16

-- IS_BIT_SET
abbrev pub is_bit_set : ℕ → ℕ → Bool
is_bit_set value bit = not (bit_clear value bit)

-- A movement with its sign bit and the overflow bit, which the source tests for x in both places.
abbrev pub movement : ℕ → Bool → Bool → ℤ
movement v sign overflow =
    if overflow then pos 0 else if not (v == 0) && sign then sub_ℕ v 255 else pos v

unfoldable pub decode : ℕ → ℕ → ℕ → ℕ → MousePacket
decode status x y wheel =
    let overflow = is_bit_set status 6 || is_bit_set status 6 in
    record {
      dx = movement x (is_bit_set status 4) overflow;
      dy = movement y (is_bit_set status 5) overflow;
      dwheel = if wheel % 16 == 15 then negsuc 0 else pos (wheel % 16);
      buttons = status % 8;
    }

-- HandleInterrupt, for the bytes that the controller gives, and what the array of four holds before.
-- `none` is the write behind the array that a fifth byte is.
unfoldable pub handle_packet :
    CircularQueue MousePacket → List ℕ → (ℕ → ℕ) → Option (CircularQueue MousePacket)
unfolding decode
handle_packet queue bytes stale =
    if ltb 4 (length bytes)
    then none
    else if length bytes == 0
    then some queue
    else some (
        enqueue queue (
          decode (get_or bytes 0 (stale 0)) (get_or bytes 1 (stale 1)) (get_or bytes 2 (stale 2))
            (get_or bytes 3 (stale 3))))

-- `none` is a read out of the queue's buffer; the error is ENODATA.
unfoldable pub mouse_poll :
    CircularQueue MousePacket → Option (Option MousePacket × CircularQueue MousePacket)
mouse_poll queue =
    if is_empty queue
    then some (none, queue)
    else elim (dequeue queue) [ none ↦ none | some (p, queue') ↦ some (some p, queue') ]
