-- ===== src/Elf/Coverage.antt =====
-- kernel/tasks/elfloader.cpp: where the pages end that MapNewZeroedPages maps.
use nekosys.Base.{ℕ, zero, suc, ◌+◌, ◌*◌, ◌<◌, ◌≡◌, refl, sym, ap, ◌∙◌, Option, none, some, arith}
use nekosys.Base.Words.{word, add32}
use nekosys.Memory.PageManager.{page_size}
use nekosys.Memory.Paging.{Machine, PageDirectory, new_page, map_page, ◌>>=◌}
use nekosys.Elf.Loader.{new_pages_loop}

pub some-injective : {A : Type 0} {a b : A} → some a ≡ some b → a ≡ b
some-injective e = cc

-- What a chain of fallible steps came from.
pub first_some :
    {A B : Type 0} (a : Option A) (next : A → Option B) (b : B)
    → (a >>= next) ≡ some b
    → (x : A) × (a ≡ some x) × (next x ≡ some b)
first_some none next b e = absurd cc
first_some (some x) next b e = (x, refl, e)

pub new_pages_loop-end :
    (d : PageDirectory) (m : Machine) (n a : ℕ) (r : ℕ × Machine)
    → a + n * page_size < word
    → new_pages_loop d m n a ≡ some r
    → r.0 ≡ a + n * page_size
unfolding new_pages_loop
new_pages_loop-end d m zero a r fits e =
    let same : (a, m) ≡ r = some-injective e in
    let first : a ≡ r.0 = ap (λ (z : ℕ × Machine). z.0) same in omega (arith, first)
new_pages_loop-end d m (suc n) a r fits e =
    let (x, _, e1) = first_some (new_page m) _ r e in
    let (s, _, e2) = first_some (map_page d x.1 x.0 a 6) _ r e1 in
    let next : add32 a page_size ≡ a + page_size = omega (arith, fits) in
    let e3 : new_pages_loop d s.1 n (a + page_size) ≡ some r =
      ap (new_pages_loop d s.1 n) (sym next) ∙ e2 in
    let end = new_pages_loop-end d s.1 n (a + page_size) r (omega (arith, fits)) e3 in
    omega (arith, end)
