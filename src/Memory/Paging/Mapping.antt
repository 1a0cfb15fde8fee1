-- ===== src/Memory/Paging/Mapping.antt =====
-- kernel/memory/pagedirectory.cpp: MapPage with paging on, through the directory's map of itself.
use nekosys.Base.{
  ℕ, ◌+◌, ◌-◌, ◌*◌, ◌/◌, ◌%◌, ◌<◌, ◌≡◌, ◌≢◌, refl, sym, ap, ◌∙◌, true, false, Option, none, some,
  ◌==◌, if◌then◌else◌, arith, Bool-cases, inl, inr,
}
use nekosys.Base.Words.{word, add32}
use nekosys.Base.Masks.{bit_or-page}
use nekosys.Memory.PageManager.{is_page_aligned, page_align_down, update}
use nekosys.Memory.Paging.{
  Machine, PageDirectory, page_tables_virtual_loc, page_dir_virtual_loc, frame_of, is_present,
  translate, load, store, get_page_table, table_entry, map_page,
}

-- Paging is on, and the last entry of the loaded directory is the directory itself.
pub record SelfMapped (m : Machine) : Type 0 where
  pub on : m.manager.paging_enabled ≡ true
  pub whole : m.loaded % 4096 ≡ 0
  pub self : frame_of (m.words (m.loaded + 4092)) ≡ m.loaded
  pub present : m.words (m.loaded + 4092) % 2 ≡ 1

-- The directory's entry for an address, and the place of the address's entry in a table.
abbrev pub entry_at : Machine → ℕ → ℕ
entry_at m idx = m.words (m.loaded + 4 * idx)

pub update_self : (f : ℕ → ℕ) (i v : ℕ) → update f i v i ≡ v
update_self f i v = ground arith

pub update_ne : (f : ℕ → ℕ) (i v j : ℕ) → j ≢ i → update f i v j ≡ f j
update_ne f i v j ne = ground arith

-- What the processor makes of a directory's entry and a table's entry.
abbrev pub walk : ℕ → ℕ → ℕ → Option ℕ
walk entry page low =
    if is_present entry
    then (if is_present page then some (frame_of page + low) else none)
    else none

pub translate-walk :
    (m : Machine) (addr : ℕ)
    → m.manager.paging_enabled ≡ true
    → translate m addr
      ≡ walk
          (entry_at m (addr / 4194304))
          (m.words (frame_of (entry_at m (addr / 4194304)) + 4 * (addr / 4096 % 1024)))
          (addr % 4096)
unfolding translate
translate-walk m addr on = rw on refl

pub walk-present :
    (entry page low : ℕ)
    → entry % 2 ≡ 1
    → page % 2 ≡ 1
    → walk entry page low ≡ some (frame_of page + low)
walk-present entry page low e p = ground (arith, e, p)

-- The directory's own entries and those of its tables are reached in the last 4 MB.
module _ (m : Machine) (v : SelfMapped m) (idx : ℕ) (inside : idx < 1024) where
  pub translate-directory :
      translate m (add32 page_dir_virtual_loc (4 * idx)) ≡ some (m.loaded + 4 * idx)
  translate-directory =
      let a : add32 page_dir_virtual_loc (4 * idx) ≡ page_dir_virtual_loc + 4 * idx = omega arith in
      let hi : (page_dir_virtual_loc + 4 * idx) / 4194304 ≡ 1023 = omega arith in
      let mid : (page_dir_virtual_loc + 4 * idx) / 4096 % 1024 ≡ 1023 = omega arith in
      let low : (page_dir_virtual_loc + 4 * idx) % 4096 ≡ 4 * idx = omega arith in
      let p : (m.words (m.loaded + 4092) % 2 == 1) ≡ true = ground (arith, v.present) in
      translate-walk m (add32 page_dir_virtual_loc (4 * idx)) v.on
      ∙ rw (a, hi, v.self, mid, low, p, v.self) refl

  pub translate-table :
      (p : ℕ)
      → p < 1024
      → entry_at m idx % 2 ≡ 1
      → translate m (add32 (add32 page_tables_virtual_loc (4096 * idx)) (4 * p))
        ≡ some (frame_of (entry_at m idx) + 4 * p)
  translate-table p small there =
      let start = page_tables_virtual_loc + 4096 * idx + 4 * p in
      let a : add32 (add32 page_tables_virtual_loc (4096 * idx)) (4 * p) ≡ start = omega arith in
      let hi : start / 4194304 ≡ 1023 = omega arith in
      let mid : start / 4096 % 1024 ≡ idx = omega arith in
      let low : start % 4096 ≡ 4 * p = omega arith in
      let q : (m.words (m.loaded + 4092) % 2 == 1) ≡ true = ground (arith, v.present) in
      let e : (m.words (m.loaded + 4 * idx) % 2 == 1) ≡ true = ground (arith, there) in
      translate-walk m (add32 (add32 page_tables_virtual_loc (4096 * idx)) (4 * p)) v.on
      ∙ rw (a, hi, v.self, mid, low, q, e) refl

  pub load-directory : load m (add32 page_dir_virtual_loc (4 * idx)) ≡ some (entry_at m idx)
  unfolding load
  load-directory = rw translate-directory refl

pub store-translate :
    (m : Machine) (addr p v : ℕ)
    → translate m addr ≡ some p
    → store m addr v ≡ some (record m { words = update m.words p v })
unfolding store
store-translate m addr p v e = rw e refl

-- The tables of different entries, and the directory as that of the last, are in different frames.
abbrev pub TablesApart : Machine → Type 0
TablesApart m =
    (i j : ℕ)
    → i < 1024
    → j < 1024
    → i ≢ j
    → entry_at m i % 2 ≡ 1
    → entry_at m j % 2 ≡ 1
    → frame_of (entry_at m i) ≢ frame_of (entry_at m j)

-- What MapPage promises.
pub record Mapped (m : Machine) (virtual physical : ℕ) (m' : Machine) : Type 0 where
  pub maps : (off : ℕ) → off < 4096 → translate m' (virtual + off) ≡ some (physical + off)
  pub others :
      (addr : ℕ) → addr < word → addr / 4096 ≢ virtual / 4096 → translate m' addr ≡ translate m addr
  pub self_mapped : SelfMapped m'

-- The place of an address's entry in its table, and the machine with an entry for a page there.
unfoldable pub place : Machine → ℕ → ℕ
place m virtual = frame_of (entry_at m (virtual / 4194304)) + 4 * (virtual / 4096 % 1024)

unfoldable pub written : Machine → ℕ → ℕ → ℕ → Machine
unfolding place
written m virtual physical flags = record m {
  words = update m.words (place m virtual) (physical + flags);
}

-- Writing the entry of a page into a table that is there.
module _ (m : Machine) (v : SelfMapped m) (apart : TablesApart m) (virtual physical flags : ℕ)
    (whole : virtual % 4096 ≡ 0) (low : virtual < page_tables_virtual_loc)
    (there : entry_at m (virtual / 4194304) % 2 ≡ 1) (phys_whole : physical % 4096 ≡ 0)
    (odd : flags % 2 ≡ 1) (small : flags < 4096) where
  pub entries_stay :
      (i : ℕ) → i < 1024 → entry_at (written m virtual physical flags) i ≡ entry_at m i
  unfolding written place
  entries_stay i inside =
      let other =
        apart (virtual / 4194304) 1023 (omega (arith, low)) (omega arith) (omega (arith, low)) there
          v.present in
      update_ne m.words (place m virtual) (physical + flags) (m.loaded + 4 * i)
        (omega (arith, v.whole, v.self, other, inside))

  written-page :
      (off : ℕ)
      → off < 4096
      → translate (written m virtual physical flags) (virtual + off) ≡ some (physical + off)
  unfolding written place
  written-page off inside =
      let i = virtual / 4194304 in
      let hi : (virtual + off) / 4194304 ≡ i = omega (arith, whole, inside) in
      let mid : (virtual + off) / 4096 % 1024 ≡ virtual / 4096 % 1024 =
        omega (arith, whole, inside) in
      let end : (virtual + off) % 4096 ≡ off = omega (arith, whole, inside) in
      let same = entries_stay i (omega (arith, low)) in
      let found : update m.words (place m virtual) (physical + flags) (place m virtual)
          ≡ physical + flags =
        update_self m.words (place m virtual) (physical + flags) in
      let out : frame_of (physical + flags) + off ≡ physical + off =
        omega (arith, phys_whole, small) in
      translate-walk (written m virtual physical flags) (virtual + off) v.on
      ∙ rw (hi, mid, end, same, found)
          (walk-present (entry_at m i) (physical + flags) off there (omega (arith, odd, phys_whole))
            ∙ ap some out)

  -- A walk to another page does not read the (place m virtual) that was (written m virtual physical flags).
  elsewhere :
      (addr : ℕ)
      → addr < word
      → addr / 4096 ≢ virtual / 4096
      → entry_at m (addr / 4194304) % 2 ≡ 1
      → frame_of (entry_at m (addr / 4194304)) + 4 * (addr / 4096 % 1024) ≢ place m virtual
  unfolding place
  elsewhere addr inside other present = elim (Bool-cases (addr / 4194304 == virtual / 4194304)) [
    | inl same ↦ λ clash.
        let e : addr / 4194304 ≡ virtual / 4194304 = ground (arith, same) in
        omega (arith, clash, ap (λ z. frame_of (entry_at m z)) e, e, other)
    | inr different ↦ λ clash.
        let ne : addr / 4194304 ≢ virtual / 4194304 = ground (arith, different) in
        let frames =
          apart (addr / 4194304) (virtual / 4194304) (omega (arith, inside)) (omega (arith, low)) ne
            present there in
        frames (omega (arith, clash))
  ]

  pub written-Mapped : Mapped m virtual physical (written m virtual physical flags)
  unfolding written
  written-Mapped = record {
    maps = written-page;
    others = λ addr inside other.
        let j = addr / 4194304 in
        let same = entries_stay j (omega (arith, inside)) in
        let page = 4 * (addr / 4096 % 1024) in
        translate-walk (written m virtual physical flags) addr v.on
        ∙ rw same (elim (Bool-cases (entry_at m j % 2 == 1)) [
          | inl present ↦
              let stays =
                update_ne m.words (place m virtual) (physical + flags)
                  (frame_of (entry_at m j) + page)
                  (elsewhere addr inside other (ground (arith, present))) in
              rw stays refl
          | inr absent ↦ rw absent refl
        ])
        ∙ sym (translate-walk m addr v.on);
    self_mapped =
        let same = entries_stay 1023 (omega arith) in
        record {
          on = v.on;
          whole = v.whole;
          self = ap frame_of same ∙ v.self;
          present = ap (λ z. z % 2) same ∙ v.present;
        };
  }

pub is_page_aligned-mod : (addr : ℕ) → addr % 4096 ≡ 0 → is_page_aligned addr ≡ true
unfolding is_page_aligned page_align_down
is_page_aligned-mod addr h = ground (arith, h)

-- The flags that MapPage writes.
unfoldable pub flags_of : ℕ → ℕ
flags_of permissions = (permissions - permissions % 2 + 1) % 4096

pub flags_of_bounds :
    (permissions : ℕ) → (flags_of permissions % 2 ≡ 1) × (flags_of permissions < 4096)
unfolding flags_of
flags_of_bounds permissions = (omega arith, omega arith)

table_entry-sum :
    (physical permissions : ℕ)
    → physical % 4096 ≡ 0
    → table_entry physical permissions ≡ physical + flags_of permissions
unfolding flags_of
table_entry-sum physical permissions whole =
    bit_or-page physical ((permissions - permissions % 2 + 1) % 4096) whole (omega arith)

-- The table that GetPageTable gives for an entry that is there.
pub get_page_table-present :
    (d : PageDirectory) (m : Machine) (idx : ℕ)
    → SelfMapped m
    → d.virt_directory_ptr ≡ page_dir_virtual_loc
    → idx < 1024
    → entry_at m idx % 2 ≡ 1
    → get_page_table d m idx ≡ some (add32 page_tables_virtual_loc (4096 * idx), m)
unfolding get_page_table
get_page_table-present d m idx v at inside there =
    let used : (entry_at m idx == 0) ≡ false = ground (arith, there) in
    rw (at, load-directory m v idx inside, v.on, used) refl

-- MapPage, where GetPageTable gives the address of a table that is there in `m1`.
pub map_page-table :
    (d : PageDirectory) (m m1 : Machine) (physical virtual permissions : ℕ)
    → SelfMapped m1
    → physical % 4096 ≡ 0
    → virtual % 4096 ≡ 0
    → virtual < page_tables_virtual_loc
    → entry_at m1 (virtual / 4194304) % 2 ≡ 1
    → get_page_table d m (virtual / 4194304)
      ≡ some (add32 page_tables_virtual_loc (4096 * (virtual / 4194304)), m1)
    → map_page d m physical virtual permissions
      ≡ some (true, written m1 virtual physical (flags_of permissions))
unfolding map_page written place store
map_page-table d m m1 physical virtual permissions v pw vw low there got =
    let hi : virtual / 4096 / 1024 ≡ virtual / 4194304 = omega arith in
    let reach =
      translate-table m1 v (virtual / 4194304) (omega (arith, low)) (virtual / 4096 % 1024)
        (omega arith) there in
    rw
      (
        is_page_aligned-mod physical pw,
        is_page_aligned-mod virtual vw,
        hi,
        got,
        reach,
        table_entry-sum physical permissions pw,
      )
      refl
