-- ===== src/Devices/Mouse/Packets.antt =====
-- kernel/device/mouse.cpp: what polls give, whatever packets come in between.
use nekosys.Base.{
  ℕ, suc, ◌≤◌, ◌≡◌, All, refl, ap, ◌∙◌, false, Option, none, some, List, [], ◌∷◌, ◌++◌, ltb, ◌==◌,
  if◌then◌else◌, length, get_or, arith, Bool-cases, inl, inr,
}
use nekosys.Neko.CircularQueue.{CircularQueue, enqueue, dequeue}
use nekosys.Neko.CircularQueue.Fifo.{
  IsValid, Represents, enqueue_appends, dequeue_first, is_empty-Represents, Represents-length,
}
use nekosys.Devices.Mouse.{MousePacket, decode, handle_packet, mouse_poll}

-- An interrupt with at least one byte, or a poll.
pub data MouseEvent : Type 0 where
  interrupt : ℕ → List ℕ → MouseEvent
  poll : MouseEvent

-- No interrupt finds more than the four bytes that there is room for.
abbrev pub IsPacket : MouseEvent → Type 0
IsPacket (interrupt b bs) = length bs ≤ 3
IsPacket poll = Unit

-- What the polls of a sequence of events give; `none` is an access out of bounds.
unfoldable pub run :
    (ℕ → ℕ) → CircularQueue MousePacket → List MouseEvent → Option (List (Option MousePacket))
run stale queue [] = some []
run stale queue (interrupt b bs ∷ es) = elim (handle_packet queue (b ∷ bs) stale) [
  | none ↦ none
  | some queue' ↦ run stale queue' es
]
run stale queue (poll ∷ es) = elim (mouse_poll queue) [
  | none ↦ none
  | some (p, queue') ↦ elim (run stale queue' es) [ none ↦ none | some ps ↦ some (p ∷ ps) ]
]

-- A list that forgets everything when a packet comes while it holds `size` packets.
abbrev pub add_packet : ℕ → List MousePacket → MousePacket → List MousePacket
add_packet size ps p = if ltb (length ps) size then ps ++ (p ∷ []) else p ∷ []

abbrev pub packet_of : (ℕ → ℕ) → ℕ → List ℕ → MousePacket
packet_of stale b bs =
    decode b (get_or bs 0 (stale 1)) (get_or bs 1 (stale 2)) (get_or bs 2 (stale 3))

unfoldable pub run_list :
    (ℕ → ℕ) → ℕ → List MousePacket → List MouseEvent → List (Option MousePacket)
run_list stale size ps [] = []
run_list stale size ps (interrupt b bs ∷ es) =
    run_list stale size (add_packet size ps (packet_of stale b bs)) es
run_list stale size [] (poll ∷ es) = none ∷ run_list stale size [] es
run_list stale size (p ∷ ps) (poll ∷ es) = some p ∷ run_list stale size ps es

enqueue-Represents :
    (q : CircularQueue MousePacket) (ps : List MousePacket) (p : MousePacket)
    → IsValid q
    → Represents q ps
    → Represents (enqueue q p) (add_packet q.size ps p)
enqueue-Represents q ps p valid r =
    let (valid', room, no_room) = enqueue_appends q ps p valid r in
    let le = Represents-length q ps r valid in
    elim (Bool-cases (ltb (length ps) q.size)) [
      | inl yes_room ↦ rw yes_room (room (ground (arith, yes_room)))
      | inr not_room ↦ rw not_room (no_room (ground (arith, not_room, le)))
    ]

size-enqueue : (q : CircularQueue MousePacket) (p : MousePacket) → (enqueue q p).size ≡ q.size
unfolding enqueue
size-enqueue q p = refl

handle_packet-enqueue :
    (stale : ℕ → ℕ) (q : CircularQueue MousePacket) (b : ℕ) (bs : List ℕ)
    → length bs ≤ 3
    → handle_packet q (b ∷ bs) stale ≡ some (enqueue q (packet_of stale b bs))
unfolding handle_packet
handle_packet-enqueue stale q b bs few =
    let fits : ltb 4 (suc (length bs)) ≡ false = ground (arith, few) in
    let nonempty : (suc (length bs) == 0) ≡ false = ground arith in rw (fits, nonempty) refl

mouse_poll-nil : (q : CircularQueue MousePacket) → Represents q [] → mouse_poll q ≡ some (none, q)
unfolding mouse_poll
mouse_poll-nil q r = rw (is_empty-Represents q [] r) refl

mouse_poll-cons :
    (q q' : CircularQueue MousePacket) (p : MousePacket) (ps : List MousePacket)
    → Represents q (p ∷ ps)
    → dequeue q ≡ some (p, q')
    → mouse_poll q ≡ some (some p, q')
unfolding mouse_poll
mouse_poll-cons q q' p ps r e =
    let some_left : (suc (length ps) == 0) ≡ false = ground arith in
    rw (is_empty-Represents q (p ∷ ps) r, some_left, e) refl

-- Whatever sequence of polls and of interrupts with one to four bytes a mouse sees, the polls give the
-- packets in the order in which they came, and "no data" when none is left; but a packet that comes
-- when the queue is full makes the queue forget the packets that it holds. Nothing is read or written
-- out of bounds.
pub run-run_list :
    (stale : ℕ → ℕ) (q : CircularQueue MousePacket) (ps : List MousePacket) (es : List MouseEvent)
    → IsValid q
    → Represents q ps
    → All IsPacket es
    → run stale q es ≡ some (run_list stale q.size ps es)
unfolding run run_list
run-run_list stale q ps [] valid r _ = refl
run-run_list stale q ps (interrupt b bs ∷ es) valid r (few, all) =
    let p = packet_of stale b bs in
    rw (handle_packet-enqueue stale q b bs few, run)
      (run-run_list stale (enqueue q p) (add_packet q.size ps p) es
          (enqueue_appends q ps p valid r).0 (enqueue-Represents q ps p valid r) all
        ∙ ap (λ z. some (run_list stale z (add_packet q.size ps p) es)) (size-enqueue q p))
run-run_list stale q [] (poll ∷ es) valid r (_, all) =
    rw (mouse_poll-nil q r, run, run-run_list stale q [] es valid r all) refl
run-run_list stale q (p ∷ ps) (poll ∷ es) valid r (_, all) =
    let (q', e, valid', size, r') = dequeue_first q p ps valid r in
    let ih = run-run_list stale q' ps es valid' r' all in
    rw (mouse_poll-cons q q' p ps r e, run, ih)
      (ap (λ z. some (some p ∷ run_list stale z ps es)) size)
