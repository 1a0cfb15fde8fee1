-- ===== src/Pipes/Tests.antt =====
-- kernel/namedpipe.cpp and the system calls on pipes: runs, and the theorems at concrete pipes.
use nekosys.Base.{
  ℕ, ◌≡◌, ◌≢◌, ◌⊎◌, ◌==◌, refl, true, false, some, List, [], ◌∷◌, ◌++◌, if◌then◌else◌, arith,
}
use nekosys.Neko.Text.{Text, c_string, same_loop, equals_c, equals}
use nekosys.Pipes.{
  PipePacket, NamedPipe, PipeManager, success, failure, enoent, eperm, epipe, einval, ewtf,
  find_named, new_pipe, find_or_create_pipe, find_id, find_pipe, store_id, store_pipe, pipe_open,
  pipe_close, take_packet, Received, receive, pipe_recv, new_packet, pipe_send,
}
use nekosys.Pipes.Registry.{Opened, find_or_create_pipe_opens}
use nekosys.Pipes.Delivery.{
  Changed, Delivers, queue_for, pipe_send_queues, pipe_recv_queues, pipe_recv-pipe_close,
}

abbrev gui : Text
gui = b'g' ∷ b'u' ∷ b'i' ∷ []

-- To the owner, process 7, and to process 9.
abbrev to_owner : PipePacket
to_owner = record { src_process = 9; dst_process = 7; size = 3; data_bytes = 1 ∷ 2 ∷ 3 ∷ [] }

abbrev to_client : PipePacket
to_client = record { src_process = 7; dst_process = 9; size = 1; data_bytes = 4 ∷ [] }

abbrev gui_pipe : NamedPipe
gui_pipe = record {
  name = gui;
  pipe_id = 1;
  owner_process = 7;
  broken = false;
  packets = to_client ∷ to_owner ∷ [];
}

abbrev sample : PipeManager
sample = record { pipes = gui_pipe ∷ []; id_counter = 1 }

abbrev closed : PipeManager
closed = record { pipes = record gui_pipe { broken = true } ∷ []; id_counter = 1 }

pipe_runs :
    (pipe_open 9 sample gui ≡ (1, sample))
    × ((pipe_open 9 sample (b'g' ∷ [])).0 ≡ 2)
    × (pipe_recv 7 sample 1 2
        ≡ success (
          record { src = 9; size = 2; buffer = 1 ∷ 2 ∷ [] },
          record sample { pipes = record gui_pipe { packets = to_client ∷ [] } ∷ [] },
        ))
    × (pipe_recv 8 sample 1 2 ≡ failure ewtf)
    × (pipe_recv 8 sample 2 2 ≡ failure enoent)
    × (pipe_close 9 sample 1 ≡ failure eperm)
    × (pipe_close 7 sample 1 ≡ success closed)
    × (pipe_send 9 sample 1 0 16385 [] ≡ failure einval)
    × (pipe_send 9 sample 2 0 1 (5 ∷ []) ≡ failure enoent)
unfolding pipe_open find_or_create_pipe find_named equals equals_c same_loop c_string pipe_recv
    find_pipe find_id store_pipe store_id take_packet receive pipe_close pipe_send new_pipe
pipe_runs = (refl, refl, refl, refl, refl, refl, refl, refl, refl)

pipe_close_run : pipe_close 7 sample 1 ≡ success closed
unfolding pipe_close find_pipe find_id store_pipe store_id
pipe_close_run = refl

found : find_pipe sample 1 ≡ some gui_pipe
unfolding find_pipe find_id
found = refl

find_or_create_pipe_opens_example :
    Opened 9 sample (b'g' ∷ []) (find_or_create_pipe 7 sample (b'g' ∷ []))
find_or_create_pipe_opens_example =
    find_or_create_pipe_opens 7 9 sample (b'g' ∷ []) (omega arith, omega arith) (omega arith)
      (omega arith, tt)

pipe_send_queues_example :
    (m' : PipeManager) × (packets : List PipePacket) × (pipe_send 9 sample 1 0 2 (5 ∷ 6 ∷ [])
      ≡ success m')
    × Changed sample 1 gui_pipe m' packets
    × ((t : ℕ)
        → queue_for t packets ≡ (
            if 7 == t
            then queue_for t gui_pipe.packets ++ (new_packet 9 gui_pipe 0 2 (5 ∷ 6 ∷ []) ∷ [])
            else queue_for t gui_pipe.packets))
pipe_send_queues_example = pipe_send_queues 9 sample 1 0 2 (5 ∷ 6 ∷ []) gui_pipe found (omega arith)

pipe_recv_queues_example :
    ((p : PipePacket) × (r : Received) × (m' : PipeManager) × (packets : List PipePacket)
      × (pipe_recv 7 sample 1 2 ≡ success (r, m'))
      × Delivers p 2 r
      × Changed sample 1 gui_pipe m' packets
      × (queue_for 7 gui_pipe.packets ≡ p ∷ queue_for 7 packets)
      × ((t : ℕ) → t ≢ 7 → queue_for t packets ≡ queue_for t gui_pipe.packets))
    ⊎ ((pipe_recv 7 sample 1 2 ≡ failure ewtf) × (queue_for 7 gui_pipe.packets ≡ []))
pipe_recv_queues_example = pipe_recv_queues 7 sample 1 2 gui_pipe found refl

pipe_recv-pipe_close_example :
    (gui_pipe.owner_process ≡ 7)
    × (pipe_recv 9 closed 1 2 ≡ failure epipe)
    × ((other : ℕ) → other ≢ 1 → find_pipe closed other ≡ find_pipe sample other)
pipe_recv-pipe_close_example =
    pipe_recv-pipe_close 7 9 sample closed 1 2 gui_pipe found pipe_close_run
