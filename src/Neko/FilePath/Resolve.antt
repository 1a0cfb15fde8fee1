-- ===== src/Neko/FilePath/Resolve.antt =====
-- libneko/include/nk/path.h: Resolve against the meaning of "." and "..".
use nekosys.Base.{
  ℕ, suc, ◌+◌, ◌-◌, ◌≤◌, ◌<◌, ◌≡◌, ◌≢◌, ◌↔◌, refl, ap, ◌∙◌, true, false, List, [], ◌∷◌, ◌++◌, ltb,
  ◌==◌, if◌then◌else◌, length, take, arith, Bool-cases, inl, inr, length-append,
}
use nekosys.Neko.Text.{Text, equals_c}
use nekosys.Neko.Text.Laws.{equals_c_iff}
use nekosys.Neko.FilePath.{FilePath, dot, dot_dot, remove_part, resolve_loop, resolve, IsValid}
use nekosys.Neko.FilePath.Print.{parse-to_string}

-- A list without its last entry.
abbrev pub init {ℓ} : {A : Type ℓ} → List A → List A
init [] = []
init (x ∷ []) = []
init (x ∷ y ∷ xs) = x ∷ init (y ∷ xs)

-- What a part does to the directory that one is in: "." stays, ".." goes up unless at the root, and
-- any other part, ".." at the root included, goes down.
pub data Goes : List Text → Text → List Text → Type 0 where
  stays : (at : List Text) (t : Text) → t ≡ dot → Goes at t at
  up : (at : List Text) (t : Text) → t ≡ dot_dot → at ≢ [] → Goes at t (init at)
  root : (at : List Text) (t : Text) → t ≡ dot_dot → at ≡ [] → Goes at t (at ++ (t ∷ []))
  down : (at : List Text) (t : Text) → t ≢ dot → t ≢ dot_dot → Goes at t (at ++ (t ∷ []))

-- Following the parts one by one.
pub data Follows : List Text → List Text → List Text → Type 0 where
  arrived : (at : List Text) → Follows at [] at
  step :
      (at mid to : List Text) (t : Text) (ts : List Text)
      → Goes at t mid
      → Follows mid ts to
      → Follows at (t ∷ ts) to

take-init : (xs : List Text) → 0 < length xs → take (length xs - 1) xs ≡ init xs
take-init [] h = absurd (omega arith)
take-init (x ∷ []) h = let e : 1 - 1 ≡ 0 = omega arith in ap (λ n. take n (x ∷ [])) e
take-init (x ∷ y ∷ xs) h =
    let e : length (x ∷ y ∷ xs) - 1 ≡ suc (length (y ∷ xs) - 1) = omega arith in
    ap (λ n. take n (x ∷ y ∷ xs)) e ∙ ap (◌∷◌ x) (take-init (y ∷ xs) (omega arith))

remove_part-init :
    (xs : List Text) (j : ℕ) → 0 < length xs → length xs ≤ j → remove_part xs j ≡ init xs
remove_part-init xs j h le =
    let out : ltb j (length xs) ≡ false = ground (arith, le) in rw out (take-init xs h)

length-init : (xs : List Text) → length (init xs) ≤ length xs
length-init [] = omega arith
length-init (x ∷ []) = omega arith
length-init (x ∷ y ∷ xs) = omega (arith, length-init (y ∷ xs))

not_nil : (xs : List Text) → 0 < length xs → xs ≢ []
not_nil xs h e = let z : length xs ≡ 0 = ap length e in omega (arith, z, h)

nil_of_empty : (xs : List Text) → ltb 0 (length xs) ≡ false → xs ≡ []
nil_of_empty [] h = refl
nil_of_empty (x ∷ xs) h = absurd (ground (arith, h))

is_dot : (t : Text) → (equals_c t dot ≡ true) ↔ (t ≡ dot)
is_dot t = equals_c_iff t dot (omega arith, tt)

is_dot_dot : (t : Text) → (equals_c t dot_dot ≡ true) ↔ (t ≡ dot_dot)
is_dot_dot t = equals_c_iff t dot_dot (omega arith, (omega arith, tt))

longer : (at : List Text) (t : Text) (j : ℕ) → length at ≤ j → length (at ++ (t ∷ [])) ≤ j + 1
longer at t j h = omega (arith, h, length-append at (t ∷ []))

resolve_loop-Follows :
    (ts at : List Text) (j : ℕ) → length at ≤ j → Follows at ts (resolve_loop ts at j)
unfolding resolve_loop
resolve_loop-Follows [] at j h = arrived at
resolve_loop-Follows (t ∷ ts) at j h = elim (Bool-cases (equals_c t dot)) [
  | inl skip ↦ rw skip (
      step at at _ t ts (stays at t ((is_dot t).0 skip))
        (resolve_loop-Follows ts at (j + 1) (omega (arith, h))))
  | inr named ↦ elim (Bool-cases (equals_c t dot_dot)) [
    | inl back ↦ elim (Bool-cases (ltb 0 (length at))) [
      | inl some_left ↦
          rw (named, back, some_left)
            (let pos : 0 < length at = ground (arith, some_left) in
              let gone = remove_part-init at j pos h in
              rw gone (
                step at (init at) _ t ts (up at t ((is_dot_dot t).0 back) (not_nil at pos))
                  (resolve_loop-Follows ts (init at) j (omega (arith, h, length-init at)))))
      | inr none_left ↦
          rw (named, back, none_left)
            (step at (at ++ (t ∷ [])) _ t ts
              (root at t ((is_dot_dot t).0 back) (nil_of_empty at none_left))
              (resolve_loop-Follows ts (at ++ (t ∷ [])) (j + 1) (longer at t j h)))
    ]
    | inr other ↦
        rw (named, other)
          (step at (at ++ (t ∷ [])) _ t ts
            (down at t (λ e. cc ((is_dot t).1 e, named)) (λ e. cc ((is_dot_dot t).1 e, other)))
            (resolve_loop-Follows ts (at ++ (t ∷ [])) (j + 1) (longer at t j h)))
  ]
]

-- The path that a relative path with at least one part resolves to is absolute, and its parts are where one arrives from the
-- base's parts by following the path's parts in order: "." stays, ".." leaves the last directory, and
-- any other part, as well as ".." at the root, enters a directory of that name.
pub resolve-Follows :
    (base path : FilePath)
    → 0 < length path.parts
    → path.is_absolute ≡ false
    → ((resolve base path).is_absolute ≡ true)
      × Follows base.parts path.parts (resolve base path).parts
unfolding resolve
resolve-Follows base path h rel =
    let some_parts : (length path.parts == 0) ≡ false = ground (arith, h) in
    rw (some_parts, rel)
      (refl, resolve_loop-Follows path.parts base.parts (length base.parts) (omega arith))

-- A path without parts, such as "/", resolves to the base, absolute or not, and an absolute path with
-- parts resolves to itself, with "." and ".." left in it, when the parts of both are names.
pub resolve_absolute :
    (base path : FilePath)
    → IsValid base
    → IsValid path
    → path.is_absolute ≡ true
    → resolve base path ≡ (if length path.parts == 0 then base else path)
unfolding resolve
resolve_absolute base path hb hp abs = elim (Bool-cases (length path.parts == 0)) [
  | inl bare ↦ rw bare (parse-to_string base hb)
  | inr named ↦ let same = parse-to_string path hp in rw (named, abs) (rw (← abs) same)
]
