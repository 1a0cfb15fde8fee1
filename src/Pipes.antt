-- ===== src/Pipes.antt =====
-- kernel/namedpipe.cpp, and the system calls on pipes of kernel/syscalls.cpp.
pub mod Registry
pub mod Delivery
mod Tests
use nekosys.Base.{
  ℕ, ◌+◌, ◌≤◌, ◌<◌, ◌≡◌, ◌≢◌, Bool, true, false, not, Option, none, some, List, [], ◌∷◌, ◌++◌, ltb,
  ◌==◌, if◌then◌else◌, take, All,
}
use nekosys.Base.Words.{word, add32}
use nekosys.Neko.Text.{Text, equals}

-- The data is the `size` bytes copied from the sender.
pub record PipePacket : Type 0 where
  pub src_process : ℕ
  pub dst_process : ℕ
  pub size : ℕ
  pub data_bytes : List ℕ

pub record NamedPipe : Type 0 where
  pub name : Text
  pub pipe_id : ℕ
  pub owner_process : ℕ
  pub broken : Bool
  pub packets : List PipePacket

pub record PipeManager : Type 0 where
  pub pipes : List NamedPipe
  pub id_counter : ℕ

pub data Errno : Type 0 where
  enoent eperm epipe einval ewtf enomem esrch enotdir eacces : Errno

-- What a system call returns; a failure is the negated number of the error.
pub data Reply {ℓ} (A : Type ℓ) : Type ℓ where
  success : A → Reply A
  failure : Errno → Reply A

-- The loop of FindOrCreatePipe.
unfoldable pub find_named : List NamedPipe → Text → Option NamedPipe
find_named [] name = none
find_named (p ∷ ps) name =
    let rest = find_named ps name in if equals p.name name then some p else rest

unfoldable pub new_pipe : ℕ → PipeManager → Text → NamedPipe
new_pipe me m name = record {
  name = name;
  pipe_id = add32 m.id_counter 1;
  owner_process = me;
  broken = false;
  packets = [];
}

-- `me` is the id of the current process.
unfoldable pub find_or_create_pipe : ℕ → PipeManager → Text → NamedPipe × PipeManager
unfolding find_named new_pipe
find_or_create_pipe me m name = elim (find_named m.pipes name) [
  | some p ↦ (p, m)
  | none ↦
      let p = new_pipe me m name in
      (p, record { pipes = m.pipes ++ (p ∷ []); id_counter = add32 m.id_counter 1 })
]

unfoldable pub find_id : List NamedPipe → ℕ → Option NamedPipe
find_id [] id = none
find_id (p ∷ ps) id = let rest = find_id ps id in if p.pipe_id == id then some p else rest

unfoldable pub find_pipe : PipeManager → ℕ → Option NamedPipe
unfolding find_id
find_pipe m id = find_id m.pipes id

-- A write through the pointer that FindPipe gave.
unfoldable pub store_id : List NamedPipe → ℕ → NamedPipe → List NamedPipe
store_id [] id q = []
store_id (p ∷ ps) id q = let rest = store_id ps id q in if p.pipe_id == id then q ∷ ps else p ∷ rest

unfoldable pub store_pipe : PipeManager → ℕ → NamedPipe → PipeManager
unfolding store_id
store_pipe m id q = record m { pipes = store_id m.pipes id q }

unfoldable pub pipe_open : ℕ → PipeManager → Text → ℕ × PipeManager
unfolding find_or_create_pipe
pipe_open me m name = let r = find_or_create_pipe me m name in (r.0.pipe_id, r.1)

unfoldable pub pipe_close : ℕ → PipeManager → ℕ → Reply PipeManager
unfolding find_pipe store_pipe
pipe_close me m id = elim (find_pipe m id) [
  | none ↦ failure enoent
  | some p ↦
      if p.owner_process == me
      then success (store_pipe m id (record p { broken = true }))
      else failure eperm
]

-- The packet that PipeBlocker waits for, and the rest of the packets.
unfoldable pub take_packet : ℕ → List PipePacket → Option (PipePacket × List PipePacket)
take_packet me [] = none
take_packet me (p ∷ ps) =
    let rest = take_packet me ps in
    if p.dst_process == me
    then some (p, ps)
    else elim rest [ none ↦ none | some (q, qs) ↦ some (q, p ∷ qs) ]

-- What a receiver gets: the sender, the number of bytes, and the bytes.
pub record Received : Type 0 where
  pub src : ℕ
  pub size : ℕ
  pub buffer : List ℕ

unfoldable pub receive : PipePacket → ℕ → Received
receive p size =
    let n = if ltb size p.size then size else p.size in
    record { src = p.src_process; size = n; buffer = take n p.data_bytes }

-- In the state in which the wait of Block, if the pipe was found, has ended.
unfoldable pub pipe_recv : ℕ → PipeManager → ℕ → ℕ → Reply (Received × PipeManager)
unfolding find_pipe store_pipe take_packet receive
pipe_recv me m id size = elim (find_pipe m id) [
  | none ↦ failure enoent
  | some pipe ↦ if pipe.broken then failure epipe else elim (take_packet me pipe.packets) [
    | none ↦ failure ewtf
    | some (p, rest) ↦ success (receive p size, store_pipe m id (record pipe { packets = rest }))
  ]
]

unfoldable pub new_packet : ℕ → NamedPipe → ℕ → ℕ → List ℕ → PipePacket
new_packet me pipe dst size bytes = record {
  src_process = me;
  dst_process = if dst == 0 then pipe.owner_process else dst;
  size = size;
  data_bytes = take size bytes;
}

unfoldable pub pipe_send : ℕ → PipeManager → ℕ → ℕ → ℕ → List ℕ → Reply PipeManager
unfolding find_pipe store_pipe new_packet
pipe_send me m id dst size bytes =
    if ltb 16384 size then failure einval else elim (find_pipe m id) [
      | none ↦ failure enoent
      | some pipe ↦ success (
          store_pipe m id
            (record pipe { packets = pipe.packets ++ (new_packet me pipe dst size bytes ∷ []) }))
    ]
