-- ===== src/Devices/Keyboard/Lines.antt =====
-- kernel/device/keyboard.cpp: reading lines, and the blocker that waits for one.
use nekosys.Base.{
  ℕ, zero, suc, ◌≤◌, ◌≡◌, ◌≢◌, ◌⊎◌, refl, sym, ap, ◌∙◌, true, false, none, some, List, [], ◌∷◌,
  ◌++◌, ltb, ◌==◌, if◌then◌else◌, length, take, drop, All, arith, Bool-cases, inl, inr, take-le,
}
use nekosys.Tasks.Outcome.{ok}
use nekosys.Tasks.Thread.{Kernel, keyboard}
use nekosys.Tasks.Blockers.{blocks, contains}
use nekosys.Devices.Keyboard.{index_of_char, drop_newline, read_until}

-- A line without newline.
abbrev pub IsLine : List ℕ → Type 0
IsLine = All (λ c. c ≢ 10)

index_of_char-line :
    (line rest : List ℕ) → IsLine line → index_of_char (line ++ (10 ∷ rest)) 10 ≡ some (length line)
unfolding index_of_char
index_of_char-line [] rest h = refl
index_of_char-line (c ∷ line) rest h =
    let other : (c == 10) ≡ false = ground (arith, h.0) in
    rw (other, index_of_char-line line rest h.1) refl

-- Cutting a line off, or a part of it.
cut_line :
    (line rest : List ℕ) (n : ℕ)
    → IsLine line
    → n ≤ length line
    → (take n (line ++ (10 ∷ rest)) ≡ take n line)
      × (drop_newline (drop n (line ++ (10 ∷ rest)))
          ≡ (if ltb n (length line) then drop n line ++ (10 ∷ rest) else rest))
cut_line [] rest zero h le = (refl, refl)
cut_line [] rest (suc n) h le = absurd (omega arith)
cut_line (c ∷ line) rest zero h le =
    let other : (c == 10) ≡ false = ground (arith, h.0) in
    let more : ltb 0 (suc (length line)) ≡ true = ground arith in (refl, rw (other, more) refl)
cut_line (c ∷ line) rest (suc n) h le =
    let ih = cut_line line rest n h.1 (omega (arith, le)) in (ap (◌∷◌ c) ih.0, ground (arith, ih.1))

-- What is left of the buffer after reading at most `n` characters of its first line.
abbrev pub left_over : List ℕ → List ℕ → ℕ → List ℕ
left_over line rest n = if ltb n (length line) then drop n line ++ (10 ∷ rest) else rest

read_until-line :
    (line rest : List ℕ) (n : ℕ)
    → IsLine line
    → read_until (line ++ (10 ∷ rest)) n 10 ≡ (take n line, left_over line rest n)
unfolding read_until
read_until-line line rest n h = elim (Bool-cases (ltb n (length line))) [
  | inl short ↦
      let (taken, left) = cut_line line rest n h (ground (arith, short)) in
      rw (index_of_char-line line rest h, short, read_until, taken)
        (ap (λ z. (take n line, z)) (left ∙ rw short refl))
  | inr long ↦
      let le : length line ≤ n = ground (arith, long) in
      let (taken, left) = cut_line line rest (length line) h (omega arith) in
      let self : ltb (length line) (length line) ≡ false = ground arith in
      let all : take (length line) line ≡ take n line =
        take-le (length line) line (omega arith) ∙ sym (take-le n line le) in
      rw (index_of_char-line line rest h, long, read_until, taken, all)
        (ap (λ z. (take n line, z)) (left ∙ rw self refl))
]

contains_split :
    (buf : List ℕ)
    → contains buf 10 ≡ true
    → (line rest : List ℕ) × IsLine line × (buf ≡ line ++ (10 ∷ rest))
unfolding contains
contains_split [] e = cc
contains_split (c ∷ buf) e = elim (Bool-cases (c == 10)) [
  | inl here ↦ let same : c ≡ 10 = ground (arith, here) in ([], buf, tt, ap (λ z. z ∷ buf) same)
  | inr other ↦
      let (line, rest, h, split) = contains_split buf (rw (other, contains) at e) in
      (c ∷ line, rest, ((ground (arith, other)), h), ap (◌∷◌ c) split)
]

index_of_char-none : (buf : List ℕ) → contains buf 10 ≡ false → index_of_char buf 10 ≡ none
unfolding contains index_of_char
index_of_char-none [] e = refl
index_of_char-none (c ∷ buf) e = elim (Bool-cases (c == 10)) [
  | inl here ↦ cc (rw (here, contains) at e)
  | inr other ↦ rw (other, index_of_char-none buf (rw (other, contains) at e)) refl
]

-- What a read of at most `n` characters finds: a first line, of which it takes the first `n`
-- characters, and the newline with them if it takes the whole line.
pub record FirstLine (buf : List ℕ) (n : ℕ) : Type 0 where
  pub line : List ℕ
  pub rest : List ℕ
  pub whole : IsLine line
  pub split : buf ≡ line ++ (10 ∷ rest)
  pub reads : read_until buf n 10 ≡ (take n line, left_over line rest n)

-- The blocker that waits for a line and the read behind it agree: as soon as the blocker lets a
-- thread go on, a read takes the first line of the keyboard's buffer or as much of it as there is
-- room for; as long as it holds the thread back, a read gives nothing and leaves the buffer.
pub readln_wakes :
    (k : Kernel) (n : ℕ)
    → ((blocks k (keyboard 10) ≡ ok false) × FirstLine k.key_buffer n)
      ⊎ ((blocks k (keyboard 10) ≡ ok true) × (read_until k.key_buffer n 10 ≡ ([], k.key_buffer)))
unfolding blocks read_until
readln_wakes k n = elim (Bool-cases (contains k.key_buffer 10)) [
  | inl some_line ↦
      let (line, rest, h, split) = contains_split k.key_buffer some_line in
      inl (
        rw some_line refl,
        record {
          line = line;
          rest = rest;
          whole = h;
          split = split;
          reads = ap (λ z. read_until z n 10) split ∙ read_until-line line rest n h;
        },
      )
  | inr no_line ↦
      inr (rw no_line refl, rw (index_of_char-none k.key_buffer no_line, read_until) refl)
]
