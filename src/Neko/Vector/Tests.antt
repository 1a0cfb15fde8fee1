-- ===== src/Neko/Vector/Tests.antt =====
-- libneko/include/nk/vector.h: runs of the vector, and its theorems at concrete vectors.
use nekosys.Base.{ℕ, ◌+◌, ◌≤◌, ◌≡◌, refl, none, some, [], ◌∷◌, ◌++◌, arith, ◌==◌, take, drop}
use nekosys.Neko.Vector.{
  Vector, empty, add, remove, remove_block, reserve, index_of, contains, clear, at, IsValid,
  contents,
}
use nekosys.Neko.Vector.Growth.{add_appends, reserve_grows}
use nekosys.Neko.Vector.Removal.{remove_block_erases}
use nekosys.Neko.Vector.Search.{any, contains-any}

abbrev sample : Vector ℕ
sample = record { buf = 5 ∷ 7 ∷ 9 ∷ 0 ∷ []; size = 3; capacity = 4 }

sample-IsValid : IsValid sample
sample-IsValid = record { allocated = refl; size_fits = omega arith; capacity_fits = omega arith }

-- The buffer doubles at 1 and at 3 elements.
three_adds :
    add {A = ℕ} 0 (add 0 (add 0 empty 5) 7) 9
    ≡ record { buf = 5 ∷ 7 ∷ 9 ∷ 0 ∷ 0 ∷ 0 ∷ []; size = 3; capacity = 6 }
unfolding add empty
three_adds = refl

remove_last : contents (remove 0 sample 2) ≡ 5 ∷ 7 ∷ []
unfolding remove
remove_last = refl

lookups :
    (index_of 0 ◌==◌ sample 9 ≡ some 2)
    × (index_of 0 ◌==◌ sample 0 ≡ none)
    × (at sample 1 ≡ some 7)
    × ((clear sample).size ≡ 0)
unfolding index_of at clear
lookups = (refl, refl, refl, refl)

add_appends_example :
    IsValid (add 0 sample 4) × (contents (add 0 sample 4) ≡ (5 ∷ 7 ∷ 9 ∷ []) ++ (4 ∷ []))
add_appends_example = add_appends 0 sample-IsValid 4 (omega arith)

reserve_grows_example :
    IsValid (reserve 0 sample 6)
    × (6 ≤ (reserve 0 sample 6).size)
    × (take 3 (contents (reserve 0 sample 6)) ≡ 5 ∷ 7 ∷ 9 ∷ [])
reserve_grows_example = reserve_grows 0 sample-IsValid 6 (omega arith)

remove_block_erases_example :
    IsValid (remove_block 0 sample 0 2)
    × (contents (remove_block 0 sample 0 2)
        ≡ take 0 (5 ∷ 7 ∷ 9 ∷ []) ++ drop (0 + 2) (5 ∷ 7 ∷ 9 ∷ []))
remove_block_erases_example = remove_block_erases 0 sample-IsValid 0 2 (omega arith)

contains-any_example : contains 0 ◌==◌ sample 8 ≡ any (λ x. x == 8) (5 ∷ 7 ∷ 9 ∷ [])
contains-any_example = contains-any 0 ◌==◌ sample-IsValid 8
