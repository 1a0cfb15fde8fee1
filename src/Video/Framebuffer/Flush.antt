-- ===== src/Video/Framebuffer/Flush.antt =====
-- kernel/video/videomanager.cpp: which bytes FlushBlock brings to the screen.
use nekosys.Base.{
  ℕ, zero, suc, ◌+◌, ◌*◌, ◌%◌, ◌≤◌, ◌<◌, ◌≡◌, ◌⊎◌, refl, ap, ◌∙◌, Bool, true, false, ◌&&◌, ◌||◌,
  ltb, leb, if◌then◌else◌, arith, Bool-cases, inl, inr,
}
use nekosys.Base.Words.{word, add32}
use nekosys.Memory.PageManager.{update}
use nekosys.Video.Framebuffer.{
  VideoManager, copy_bytes, flush_rows, flush_block, set_pixel, get_pixel,
}

copy_bytes-at :
    (dst src : ℕ → ℕ) (n i j : ℕ)
    → i + n < word
    → copy_bytes dst src n i j ≡ (if leb i j && ltb j (i + n) then src j else dst j)
unfolding copy_bytes
copy_bytes-at dst src zero i j fits = ground arith
copy_bytes-at dst src (suc n) i j fits =
    let next : add32 i 1 ≡ i + 1 = omega (arith, fits) in
    let rest = copy_bytes-at (update dst i (src i)) src n (i + 1) j (omega (arith, fits)) in
    ap (λ z. copy_bytes (update dst i (src i)) src n z j) next
    ∙ ground (arith, rest, ap src {x = j} {y = i})

-- Offset `j` lies in one of the `h` rows of `w` bytes that begin `pitch` bytes apart.
abbrev pub InRows : ℕ → ℕ → ℕ → ℕ → ℕ → Type 0
InRows w pitch h offset j =
    (r : ℕ) × (r < h) × (offset + r * pitch ≤ j) × (j < offset + r * pitch + w)

in_rows : ℕ → ℕ → ℕ → ℕ → ℕ → Bool
in_rows w pitch zero offset j = false
in_rows w pitch (suc h) offset j =
    (leb offset j && ltb j (offset + w)) || in_rows w pitch h (offset + pitch) j

flush_rows-at :
    (front back : ℕ → ℕ) (w pitch h offset j : ℕ)
    → offset + h * pitch + w < word
    → flush_rows front back w pitch h offset j
      ≡ (if in_rows w pitch h offset j then back j else front j)
unfolding flush_rows in_rows
flush_rows-at front back w pitch zero offset j fits = refl
flush_rows-at front back w pitch (suc h) offset j fits =
    let next : add32 offset pitch ≡ offset + pitch = omega (arith, fits) in
    let shown = copy_bytes front back w offset in
    let rest = flush_rows-at shown back w pitch h (offset + pitch) j (omega (arith, fits)) in
    ap (λ z. flush_rows shown back w pitch h z j) next
    ∙ ground (arith, rest, copy_bytes-at front back w offset j (omega (arith, fits)))

in_rows-InRows :
    (w pitch h offset j : ℕ) → in_rows w pitch h offset j ≡ true → InRows w pitch h offset j
unfolding in_rows
in_rows-InRows w pitch zero offset j e = cc
in_rows-InRows w pitch (suc h) offset j e = elim (Bool-cases (leb offset j && ltb j (offset + w))) [
  | inl first ↦ (0, omega arith, ground (arith, first), ground (arith, first))
  | inr later ↦
      let (r, lt, lo, hi) =
        in_rows-InRows w pitch h (offset + pitch) j (rw (later, in_rows) at e) in
      (suc r, omega (arith, lt), omega (arith, lo), omega (arith, hi))
]

InRows-in_rows :
    (w pitch h offset j r : ℕ)
    → r < h
    → offset + r * pitch ≤ j
    → j < offset + r * pitch + w
    → in_rows w pitch h offset j ≡ true
unfolding in_rows
InRows-in_rows w pitch zero offset j r lt lo hi = absurd (omega arith)
InRows-in_rows w pitch (suc h) offset j zero lt lo hi = ground (arith, lo, hi)
InRows-in_rows w pitch (suc h) offset j (suc r) lt lo hi =
    let ih =
      InRows-in_rows w pitch h (offset + pitch) j r (omega (arith, lt)) (omega (arith, lo))
        (omega (arith, hi)) in
    ground (arith, ih)

-- Where the offsets of the block's rows, and of one row more, fit a word, FlushBlock shows exactly the
-- bytes of the block's rows: the screen has the back buffer's byte there, and what it had everywhere
-- else.
pub flush_block_shows :
    (vm : VideoManager) (x y w h j : ℕ)
    → y * vm.pitch + x * vm.pixel_stride + h * vm.pitch + w * vm.pixel_stride < word
    → (InRows (w * vm.pixel_stride) vm.pitch h (y * vm.pitch + x * vm.pixel_stride) j
        × ((flush_block vm x y w h).front j ≡ vm.back j))
      ⊎ ((¬ (InRows (w * vm.pixel_stride) vm.pitch h (y * vm.pitch + x * vm.pixel_stride) j))
          × ((flush_block vm x y w h).front j ≡ vm.front j))
unfolding flush_block
flush_block_shows vm x y w h j fits =
    let bytes = w * vm.pixel_stride in
    let start = y * vm.pitch + x * vm.pixel_stride in
    let whole : start % word ≡ start = omega (arith, fits) in
    let width : bytes % word ≡ bytes = omega (arith, fits) in
    let at =
      (λ i. flush_rows vm.front vm.back (width i) vm.pitch h (whole i) j)
      ∙ flush_rows-at vm.front vm.back bytes vm.pitch h start j fits in
    elim (Bool-cases (in_rows bytes vm.pitch h start j)) [
      | inl inside ↦ inl (in_rows-InRows bytes vm.pitch h start j inside, at ∙ rw inside refl)
      | inr outside ↦ inr (
        λ (r, lt, lo, hi). cc (InRows-in_rows bytes vm.pitch h start j r lt lo hi, outside),
        at ∙ rw outside refl,
      )
    ]

-- A pixel that is set is read back.
pub get_pixel-set_pixel :
    (vm : VideoManager) (x y px : ℕ) → px < word → get_pixel (set_pixel vm x y px) x y ≡ px
unfolding get_pixel set_pixel
get_pixel-set_pixel vm x y px h = ground (arith, h)
