-- ===== src/Neko/Vector.antt =====
-- libneko/include/nk/vector.h: nk::Vector over its buffer, its size and its capacity.
mod Tests
pub mod Growth
pub mod Removal
pub mod Search
use nekosys.Base.{
  ℕ, zero, suc, ◌+◌, ◌-◌, ◌*◌, ◌%◌, ◌≤◌, ◌<◌, ◌≡◌, Bool, true, false, Option, none, some, List, [],
  ltb, if◌then◌else◌, length, get_or, get_elem?, set, take, replicate,
}
use nekosys.Base.Words.{word, add32, sub32}

-- `buf` stands for what the source's `data` points to; a null pointer is the empty list.
pub record Vector {ℓ} (A : Type ℓ) : Type ℓ where
  pub buf : List A
  pub size : ℕ
  pub capacity : ℕ

module _ {ℓ} {A : Type ℓ} where
  unfoldable pub empty : Vector A
  empty = record { buf = []; size = 0; capacity = 0 }

  -- `At` and `operator[]`; `none` is a read outside the buffer.
  unfoldable pub at : Vector A → ℕ → Option A
  at v idx = get_elem? v.buf idx

  unfoldable pub clear : Vector A → Vector A
  clear v = record v { size = 0 }

-- `fresh` is what an element of `new T[n]` holds, and what a read outside the buffer yields.
module _ {ℓ} {A : Type ℓ} (fresh : A) where
  -- for (j = i; j < i + n; j++) dst[j] = src[j]
  copy_loop : ℕ → ℕ → List A → List A → List A
  copy_loop zero i src dst = dst
  copy_loop (suc n) i src dst = copy_loop n (i + 1) src (set dst i (get_or src i fresh))

  unfoldable pub ensure_capacity : Vector A → ℕ → Vector A
  unfolding copy_loop
  ensure_capacity v min =
      let new_capacity = (min * 2) % word in
      if ltb v.capacity min
      then record v {
        buf = copy_loop v.size 0 v.buf (replicate new_capacity fresh);
        capacity = new_capacity;
      }
      else v

  unfoldable pub add : Vector A → A → Vector A
  unfolding ensure_capacity
  add v obj =
      let w = ensure_capacity v (add32 v.size 1) in
      record w { buf = set w.buf w.size obj; size = add32 w.size 1 }

  -- for (j = i; j < i + n; j++) a[j - 1] = a[j]
  shift_loop : ℕ → ℕ → List A → List A
  shift_loop zero i a = a
  shift_loop (suc n) i a = shift_loop n (i + 1) (set a (i - 1) (get_or a i fresh))

  unfoldable pub remove : Vector A → ℕ → Vector A
  unfolding shift_loop
  remove v idx = record v {
    buf = shift_loop (v.size - add32 idx 1) (add32 idx 1) v.buf;
    size = sub32 v.size 1;
  }

  -- memcpy inside one buffer, element by element from the front:
  -- for (j = i; j < i + n; j++) a[j] = a[j + d]
  move_loop : ℕ → ℕ → ℕ → List A → List A
  move_loop d zero i a = a
  move_loop d (suc n) i a = move_loop d n (i + 1) (set a i (get_or a (i + d) fresh))

  unfoldable pub remove_block : Vector A → ℕ → ℕ → Vector A
  unfolding move_loop
  remove_block v idx n = record v {
    buf = move_loop n (sub32 v.size (add32 idx n)) idx v.buf;
    size = sub32 v.size n;
  }

  unfoldable pub reserve : Vector A → ℕ → Vector A
  unfolding ensure_capacity
  reserve v min =
      let w = ensure_capacity v min in if ltb w.size min then record w { size = min } else w

-- `==` of the element type is a parameter.
module _ {ℓ} {A : Type ℓ} (fresh : A) (eq : A → A → Bool) where
  index_loop : ℕ → ℕ → List A → A → Option ℕ
  index_loop zero i a value = none
  index_loop (suc n) i a value =
      let rest = index_loop n (i + 1) a value in
      if eq (get_or a i fresh) value then some i else rest

  -- `none` is the source's -1.
  unfoldable pub index_of : Vector A → A → Option ℕ
  unfolding index_loop
  index_of v value = index_loop v.size 0 v.buf value

  unfoldable pub contains : Vector A → A → Bool
  unfolding index_of
  contains v value = elim (index_of v value) [ none ↦ false | some i ↦ true ]

-- What the allocation of the buffer guarantees.
pub record IsValid {ℓ} {A : Type ℓ} (v : Vector A) : Type ℓ where
  pub allocated : length v.buf ≡ v.capacity
  pub size_fits : v.size ≤ v.capacity
  pub capacity_fits : v.capacity < word

-- The sequence that a vector stands for.
abbrev pub contents {ℓ} : {A : Type ℓ} → Vector A → List A
contents v = take v.size v.buf
