-- ===== src/Devices/Cmos.antt =====
-- kernel/device/cmos.cpp: the date of the real-time clock.
mod Tests
use nekosys.Base.{
  ℕ, ◌+◌, ◌*◌, ◌/◌, ◌%◌, ◌≤◌, ◌<◌, ◌≡◌, refl, ap, Bool, true, false, if◌then◌else◌, ◌==◌, arith,
  Bool-cases, inl, inr,
}
use nekosys.Base.Bytes.{bit_clear}

pub record DateTime : Type 0 where
  pub year : ℕ
  pub month : ℕ
  pub day : ℕ
  pub hour : ℕ
  pub minute : ℕ
  pub second : ℕ

-- BCD_TO_BIN of a byte
unfoldable pub bcd_to_bin : ℕ → ℕ
bcd_to_bin bcd = (bcd / 16 * 16) / 2 + (bcd / 16 * 16) / 8 + bcd % 16

abbrev pub convert : (ℕ → ℕ) → DateTime → DateTime
convert f d = record {
  year = f d.year;
  month = f d.month;
  day = f d.day;
  hour = f d.hour;
  minute = f d.minute;
  second = f d.second;
}

-- GetDate, for the registers of the clock.
unfoldable pub get_date : (ℕ → ℕ) → DateTime
unfolding bcd_to_bin
get_date register =
    let datetime : DateTime = record {
      year = register 0x09;
      month = register 0x08;
      day = register 0x07;
      hour = register 0x04;
      minute = register 0x02;
      second = register 0x00;
    } in
    if bit_clear (register 0x0b) 2 then convert bcd_to_bin datetime else datetime

-- A number of two digits in binary-coded decimal.
abbrev pub to_bcd : ℕ → ℕ
to_bcd n = n / 10 * 16 + n % 10

bcd_to_bin-to_bcd : (n : ℕ) → n < 100 → bcd_to_bin (to_bcd n) ≡ n
unfolding bcd_to_bin
bcd_to_bin-to_bcd n h = omega arith

-- All fields have two digits at most.
pub record IsShort (d : DateTime) : Type 0 where
  pub year : d.year < 100
  pub month : d.month < 100
  pub day : d.day < 100
  pub hour : d.hour < 100
  pub minute : d.minute < 100
  pub second : d.second < 100

-- The registers of a clock that shows a date, in the given coding of numbers.
abbrev pub registers : (ℕ → ℕ) → ℕ → DateTime → ℕ → ℕ
registers code format d i =
    if i == 0x09
    then code d.year
    else if i == 0x08
    then code d.month
    else if i == 0x07
    then code d.day
    else if i == 0x04
    then code d.hour
    else if i == 0x02
    then code d.minute
    else if i == 0x00
    then code d.second
    else format

-- The date that the clock shows is read back, from a clock that counts in binary-coded decimal, where
-- the numbers have two digits at most, as well as from one that counts in binary.
pub get_date_reads :
    (d : DateTime) (format : ℕ)
    → IsShort d
    → get_date (registers (if bit_clear format 2 then to_bcd else λ n. n) format d) ≡ d
unfolding get_date
get_date_reads d format s = elim (Bool-cases (bit_clear format 2)) [
  | inl bcd ↦ rw bcd (λ i. record {
    year = bcd_to_bin-to_bcd d.year s.year i;
    month = bcd_to_bin-to_bcd d.month s.month i;
    day = bcd_to_bin-to_bcd d.day s.day i;
    hour = bcd_to_bin-to_bcd d.hour s.hour i;
    minute = bcd_to_bin-to_bcd d.minute s.minute i;
    second = bcd_to_bin-to_bcd d.second s.second i;
  })
  | inr binary ↦ rw binary refl
]
