-- ===== src/Pipes/Delivery.antt =====
-- kernel/syscalls.cpp: sending and receiving, as one queue of packets for each receiver.
use nekosys.Base.{
  ℕ, ◌≤◌, ◌≡◌, ◌≢◌, ◌⊎◌, refl, sym, ap, ap₂, ◌∙◌, subst, true, false, none, some, List, [], ◌∷◌,
  ◌++◌, ltb, ◌==◌, if◌then◌else◌, arith, Bool-cases, Option-cases, inl, inr, min, take, length,
  length-take,
}
use nekosys.Pipes.{
  PipePacket, NamedPipe, PipeManager, success, failure, epipe, ewtf, find_id, find_pipe, store_id,
  store_pipe, pipe_close, take_packet, Received, receive, pipe_recv, new_packet, pipe_send,
}

-- The packets for one receiver, oldest first.
abbrev pub queue_for : ℕ → List PipePacket → List PipePacket
queue_for t [] = []
queue_for t (p ∷ ps) = if p.dst_process == t then p ∷ queue_for t ps else queue_for t ps

abbrev pub tail : List PipePacket → List PipePacket
tail [] = []
tail (p ∷ ps) = ps

queue_for-append :
    (t : ℕ) (ps : List PipePacket) (p : PipePacket)
    → queue_for t (ps ++ (p ∷ []))
      ≡ (if p.dst_process == t then queue_for t ps ++ (p ∷ []) else queue_for t ps)
queue_for-append t [] p = refl
queue_for-append t (q ∷ ps) p = ground (arith, queue_for-append t ps p)

-- Writing through the pointer is seen by the next lookup, of that pipe alone.
pub find_id-store_id :
    (ps : List NamedPipe) (id other : ℕ) (p q : NamedPipe)
    → find_id ps id ≡ some p
    → q.pipe_id ≡ id
    → find_id (store_id ps id q) other ≡ (if other == id then some q else find_id ps other)
unfolding find_id store_id
find_id-store_id [] id other p q e same = cc
find_id-store_id (r ∷ ps) id other p q e same = elim (Bool-cases (r.pipe_id == id)) [
  | inl here ↦ ground (arith, here, same)
  | inr there ↦
      let ih = find_id-store_id ps id other p q (rw (there, find_id) at e) same in
      ground (arith, there, same, ih)
]

pub find_id-has :
    (ps : List NamedPipe) (id : ℕ) {p : NamedPipe} → find_id ps id ≡ some p → p.pipe_id ≡ id
unfolding find_id
find_id-has [] id e = cc
find_id-has (r ∷ ps) id {p} e = elim (Bool-cases (r.pipe_id == id)) [
  | inl here ↦
      let q : r ≡ p = cc (rw (here, find_id) at e) in
      ap (λ z. z.pipe_id) (sym q) ∙ ground (arith, here)
  | inr there ↦ find_id-has ps id (rw (there, find_id) at e)
]

-- Taking the receiver's packet takes the oldest one of its queue and leaves the other queues.
take_packet-queue :
    (me : ℕ) (ps : List PipePacket) (p : PipePacket) (rest : List PipePacket)
    → take_packet me ps ≡ some (p, rest)
    → (queue_for me ps ≡ p ∷ queue_for me rest)
      × ((t : ℕ) → t ≢ me → queue_for t rest ≡ queue_for t ps)
unfolding take_packet
take_packet-queue me [] p rest e = cc
take_packet-queue me (r ∷ ps) p rest e = elim (Bool-cases (r.dst_process == me)) [
  | inl here ↦
      let whole : some (r, ps) ≡ some (p, rest) = rw (here, take_packet) at e in
      let head : r ≡ p = cc whole in
      let tail : ps ≡ rest = cc whole in
      (
        rw here (ap₂ ◌∷◌ head (ap (queue_for me) tail)),
        λ t ne.
            let no : (r.dst_process == t) ≡ false = ground (arith, here, ne) in
            rw no (ap (queue_for t) (sym tail)),
      )
  | inr there ↦ elim (Option-cases (take_packet me ps)) [
    | inl nothing ↦ cc (rw (there, nothing, take_packet) at e)
    | inr ((q, qs), found) ↦
        let whole : some (q, r ∷ qs) ≡ some (p, rest) = rw (there, found, take_packet) at e in
        let ih = take_packet-queue me ps q qs found in
        let first : q ≡ p = cc whole in
        let others : r ∷ qs ≡ rest = cc whole in
        let skip : queue_for me (r ∷ qs) ≡ queue_for me qs = rw there refl in
        (
          rw there (ih.0 ∙ ap₂ ◌∷◌ first (sym skip ∙ ap (queue_for me) others)),
          λ t ne.
              ap (queue_for t) (sym others)
              ∙ ap (λ z. if r.dst_process == t then r ∷ z else z) (ih.1 t ne),
        )
  ]
]

take_packet-none : (me : ℕ) (ps : List PipePacket) → take_packet me ps ≡ none → queue_for me ps ≡ []
unfolding take_packet
take_packet-none me [] e = refl
take_packet-none me (r ∷ ps) e = elim (Bool-cases (r.dst_process == me)) [
  | inl here ↦ cc (rw (here, take_packet) at e)
  | inr there ↦ elim (Option-cases (take_packet me ps)) [
    | inl nothing ↦ rw there (take_packet-none me ps nothing)
    | inr ((q, qs), found) ↦ cc (rw (there, found, take_packet) at e)
  ]
]

-- How sending and receiving change the pipe `id`: only its packets, which become `packets`, and no
-- other pipe.
pub record Changed (m : PipeManager) (id : ℕ) (pipe : NamedPipe) (m' : PipeManager)
    (packets : List PipePacket) : Type 0 where
  pub here : find_pipe m' id ≡ some (record pipe { packets = packets })
  pub elsewhere : (other : ℕ) → other ≢ id → find_pipe m' other ≡ find_pipe m other

store_pipe-Changed :
    (m : PipeManager) (id : ℕ) (pipe : NamedPipe) (packets : List PipePacket)
    → find_pipe m id ≡ some pipe
    → Changed m id pipe (store_pipe m id (record pipe { packets = packets })) packets
unfolding store_pipe find_pipe
store_pipe-Changed m id pipe packets e =
    let look = λ (other : ℕ).
      find_id-store_id m.pipes id other pipe (record pipe { packets = packets }) e
        (find_id-has m.pipes id {p = pipe} e) in
    record {
      here = look id ∙ ground arith;
      elsewhere = λ other ne.
          let no : (other == id) ≡ false = ground (arith, ne) in look other ∙ rw no refl;
    }

-- Sending at most 16384 bytes on a known pipe succeeds, even on a broken one, and puts the packet at
-- the end of the queue of its receiver, the owner if none is named; the other receivers' queues and
-- the other pipes stay.
pub pipe_send_queues :
    (me : ℕ) (m : PipeManager) (id dst size : ℕ) (bytes : List ℕ) (pipe : NamedPipe)
    → find_pipe m id ≡ some pipe
    → size ≤ 16384
    → let p = new_packet me pipe dst size bytes in
      ((m' : PipeManager) × (packets : List PipePacket) × (pipe_send me m id dst size bytes
          ≡ success m')
        × Changed m id pipe m' packets
        × ((t : ℕ)
            → queue_for t packets ≡ (
                if (if dst == 0 then pipe.owner_process else dst) == t
                then queue_for t pipe.packets ++ (p ∷ [])
                else queue_for t pipe.packets)))
unfolding pipe_send new_packet
pipe_send_queues me m id dst size bytes pipe e small =
    let fits : ltb 16384 size ≡ false = ground (arith, small) in
    (
      _,
      _,
      rw (fits, e) refl,
      store_pipe-Changed m id pipe _ e,
      λ t. queue_for-append t pipe.packets (new_packet me pipe dst size bytes),
    )

-- What a receiver with room for `size` bytes gets of a packet: its sender, and its first bytes, no
-- more than the packet has or the room is for.
pub record Delivers (p : PipePacket) (size : ℕ) (r : Received) : Type 0 where
  pub sender : r.src ≡ p.src_process
  pub amount : r.size ≡ min size p.size
  pub bytes : r.buffer ≡ take (min size p.size) p.data_bytes
  pub room : length r.buffer ≤ size

receive-Delivers : (p : PipePacket) (size : ℕ) → Delivers p size (receive p size)
unfolding receive
receive-Delivers p size =
    let least : (if ltb size p.size then size else p.size) ≡ min size p.size = ground arith in
    record {
      sender = refl;
      amount = least;
      bytes = ap (λ n. take n p.data_bytes) least;
      room =
          let all = length-take (min size p.size) p.data_bytes in
          let shown = ap (λ n. length (take n p.data_bytes)) least in omega (arith, all, shown);
    }

-- Receiving on a pipe that is not broken takes the oldest packet for the receiver and gives its
-- sender and its first bytes, as many as it has and at most `size`, and leaves the other queues and
-- pipes; it fails with EWTF only if no packet for the receiver is there.
pub pipe_recv_queues :
    (me : ℕ) (m : PipeManager) (id size : ℕ) (pipe : NamedPipe)
    → find_pipe m id ≡ some pipe
    → pipe.broken ≡ false
    → ((p : PipePacket) × (r : Received) × (m' : PipeManager) × (packets : List PipePacket)
        × (pipe_recv me m id size ≡ success (r, m'))
        × Delivers p size r
        × Changed m id pipe m' packets
        × (queue_for me pipe.packets ≡ p ∷ queue_for me packets)
        × ((t : ℕ) → t ≢ me → queue_for t packets ≡ queue_for t pipe.packets))
      ⊎ ((pipe_recv me m id size ≡ failure ewtf) × (queue_for me pipe.packets ≡ []))
unfolding pipe_recv
pipe_recv_queues me m id size pipe e intact = elim (Option-cases (take_packet me pipe.packets)) [
  | inl nothing ↦
      inr (rw (e, intact, nothing, pipe_recv) refl, take_packet-none me pipe.packets nothing)
  | inr ((p, rest), found) ↦
      let (mine, others) = take_packet-queue me pipe.packets p rest found in
      inl (
        p,
        receive p size,
        _,
        rest,
        simp (e, intact, found, pipe_recv),
        receive-Delivers p size,
        store_pipe-Changed m id pipe rest e,
        mine,
        others,
      )
]

store_pipe-found :
    (m : PipeManager) (id other : ℕ) (pipe q : NamedPipe)
    → find_pipe m id ≡ some pipe
    → q.pipe_id ≡ pipe.pipe_id
    → find_pipe (store_pipe m id q) other ≡ (if other == id then some q else find_pipe m other)
unfolding store_pipe find_pipe
store_pipe-found m id other pipe q e same =
    find_id-store_id m.pipes id other pipe q e (same ∙ find_id-has m.pipes id {p = pipe} e)

-- When the owner of a pipe has closed it, receiving on it fails with EPIPE for every process,
-- whatever is queued, and the other pipes are as before.
pub pipe_recv-pipe_close :
    (me them : ℕ) (m m' : PipeManager) (id size : ℕ) (pipe : NamedPipe)
    → find_pipe m id ≡ some pipe
    → pipe_close me m id ≡ success m'
    → (pipe.owner_process ≡ me)
      × (pipe_recv them m' id size ≡ failure epipe)
      × ((other : ℕ) → other ≢ id → find_pipe m' other ≡ find_pipe m other)
unfolding pipe_close pipe_recv
pipe_recv-pipe_close me them m m' id size pipe e closed =
    elim (Bool-cases (pipe.owner_process == me)) [
      | inl own ↦
          let q : m' ≡ store_pipe m id (record pipe { broken = true }) =
            cc (rw (e, own, pipe_close) at closed) in
          let look = λ (other : ℕ).
            store_pipe-found m id other pipe (record pipe { broken = true }) e refl in
          let at : find_pipe (store_pipe m id (record pipe { broken = true })) id
              ≡ some (record pipe { broken = true }) =
            look id ∙ ground arith in
          subst
            (λ z.
              (pipe.owner_process ≡ me)
              × (pipe_recv them z id size ≡ failure epipe)
              × ((other : ℕ) → other ≢ id → find_pipe z other ≡ find_pipe m other))
            (sym q)
            (
              ground (arith, own),
              simp (at, pipe_recv),
              λ other ne.
                  let no : (other == id) ≡ false = ground (arith, ne) in look other ∙ rw no refl,
            )
      | inr stranger ↦ cc (rw (e, stranger, pipe_close) at closed)
    ]
