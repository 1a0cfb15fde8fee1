-- ===== src/Neko/CircularQueue/Tests.antt =====
-- libneko/include/nk/circularqueue.h: runs of the queue, and its theorems at a concrete queue.
use nekosys.Base.{ℕ, ◌≡◌, refl, true, none, some, [], ◌∷◌, arith}
use nekosys.Neko.CircularQueue.{CircularQueue, new_queue, is_empty, enqueue, dequeue}
use nekosys.Neko.CircularQueue.Fifo.{IsValid, Represents, full, more, one}

-- 4 and 5, round the end of three places.
abbrev wrapped : CircularQueue ℕ
wrapped = record { tail = some 0; head = some 2; size = 3; buffer = 5 ∷ 0 ∷ 4 ∷ [] }

wrapped-IsValid : IsValid wrapped
wrapped-IsValid = record { allocated = refl; nonempty = omega arith }

wrapped-Represents : Represents wrapped (4 ∷ 5 ∷ [])
wrapped-Represents =
    full 2 0 (4 ∷ 5 ∷ []) refl refl (omega arith) (omega arith)
      (more 2 4 (5 ∷ []) (omega arith) (omega arith) refl (one 0 5 refl refl))

queue_runs :
    (is_empty {A = ℕ} (new_queue 3 0) ≡ true)
    × (enqueue {A = ℕ} (enqueue (new_queue 2 0) 7) 8
        ≡ record { tail = some 1; head = some 0; size = 2; buffer = 7 ∷ 8 ∷ [] })
    × (dequeue {A = ℕ} (enqueue (new_queue 2 0) 7)
        ≡ some (7, record { tail = none; head = none; size = 2; buffer = 7 ∷ 0 ∷ [] }))
    × (dequeue {A = ℕ} (new_queue 2 0) ≡ none)
unfolding new_queue is_empty enqueue dequeue
queue_runs = (refl, refl, refl, refl)
