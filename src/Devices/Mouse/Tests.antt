-- ===== src/Devices/Mouse/Tests.antt =====
-- kernel/device/mouse.cpp: runs of the mouse, and its theorem at a concrete sequence of events.
use nekosys.Base.{ℕ, ◌≡◌, refl, none, some, [], ◌∷◌, arith, replicate}
use nekosys.Base.Int.{pos, negsuc}
use nekosys.Neko.CircularQueue.{CircularQueue}
use nekosys.Neko.CircularQueue.Fifo.{empty}
use nekosys.Devices.Mouse.{MousePacket, decode, mouse_packet_num}
use nekosys.Devices.Mouse.Packets.{interrupt, poll, run, run_list, run-run_list}

-- A movement by -1 in x, which comes with its sign bit as 255, is read as 0.
abbrev nudge : MousePacket
nudge = record { dx = pos 0; dy = pos 3; dwheel = negsuc 0; buttons = 1 }

decode_run : decode 0x11 255 3 15 ≡ nudge
unfolding decode
decode_run = refl

abbrev idle : CircularQueue MousePacket
idle = record { tail = none; head = none; size = mouse_packet_num; buffer = replicate 16 nudge }

abbrev zeros : ℕ → ℕ
zeros i = 0

run-run_list_example :
    run zeros idle (interrupt 0x11 (255 ∷ 3 ∷ 15 ∷ []) ∷ poll ∷ poll ∷ [])
    ≡ some (run_list zeros 16 [] (interrupt 0x11 (255 ∷ 3 ∷ 15 ∷ []) ∷ poll ∷ poll ∷ []))
run-run_list_example =
    run-run_list zeros idle [] (interrupt 0x11 (255 ∷ 3 ∷ 15 ∷ []) ∷ poll ∷ poll ∷ [])
      (record { allocated = refl; nonempty = omega arith }) (empty refl refl)
      (omega arith, (tt, (tt, tt)))

run_list_run :
    run_list zeros 16 [] (interrupt 0x11 (255 ∷ 3 ∷ 15 ∷ []) ∷ poll ∷ poll ∷ [])
    ≡ some nudge ∷ none ∷ []
unfolding run_list decode
run_list_run = refl
