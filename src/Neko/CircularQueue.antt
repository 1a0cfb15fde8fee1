-- ===== src/Neko/CircularQueue.antt =====
-- libneko/include/nk/circularqueue.h: nk::CircularQueue.
pub mod Fifo
mod Tests
use nekosys.Base.{
  ℕ, suc, ◌+◌, ◌%◌, Bool, true, false, Option, none, some, List, if◌then◌else◌, ◌==◌, replicate,
  set, get_elem?,
}

-- `none` is the index -1. The buffer's entries are of any type.
pub record CircularQueue {ℓ} (A : Type ℓ) : Type ℓ where
  pub tail : Option ℕ
  pub head : Option ℕ
  pub size : ℕ
  pub buffer : List A

abbrev pub is_none : Option ℕ → Bool
is_none none = true
is_none (some i) = false

-- (index + 1) % size
abbrev pub next_index : Option ℕ → ℕ → ℕ
next_index none size = 0 % size
next_index (some i) size = (i + 1) % size

abbrev pub same_index : Option ℕ → Option ℕ → Bool
same_index none none = true
same_index none (some j) = false
same_index (some i) none = false
same_index (some i) (some j) = i == j

module _ {ℓ} {A : Type ℓ} where
  -- The constructor, for what a fresh entry holds.
  unfoldable pub new_queue : ℕ → A → CircularQueue A
  new_queue size fresh = record {
    tail = none;
    head = none;
    size = size;
    buffer = replicate size fresh;
  }

  unfoldable pub is_empty : CircularQueue A → Bool
  is_empty q = if is_none q.head then is_none q.tail else false

  unfoldable pub enqueue : CircularQueue A → A → CircularQueue A
  unfolding is_empty
  enqueue q value =
      let empty = is_empty q in
      let tail : ℕ = if empty then 0 else next_index q.tail q.size in
      record q {
        head = if empty then some 0 else q.head;
        tail = some tail;
        buffer = set q.buffer tail value;
      }

  -- `none` is the read of the entry at -1, and out of the buffer.
  unfoldable pub dequeue : CircularQueue A → Option (A × CircularQueue A)
  dequeue q = elim q.head [
    | none ↦ none
    | some h ↦ elim (get_elem? q.buffer h) [
      | none ↦ none
      | some elem ↦ some (
        elem,
        if same_index q.head q.tail
            then record q { head = none; tail = none }
            else record q { head = some (next_index q.head q.size) },
      )
    ]
  ]
