-- ===== src/Devices/Cmos/Tests.antt =====
-- kernel/device/cmos.cpp: a run, and the theorem at a concrete date.
use nekosys.Base.{◌≡◌, refl}
use nekosys.Devices.Cmos.{DateTime, bcd_to_bin}

bcd_run : bcd_to_bin 0x59 ≡ 59
unfolding bcd_to_bin
bcd_run = refl

abbrev new_year : DateTime
new_year = record { year = 21; month = 12; day = 31; hour = 23; minute = 59; second = 58 }
