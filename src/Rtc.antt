-- ===== src/Rtc.antt =====
-- src/modules/drivers/RTC.c: the clock, read through the two ports of the CMOS memory. `cmos` is what a
-- read of the data port returns after a register is selected.
pub mod Laws
use fantom_os.Base.{
  ℕ, zero, suc, ◌+◌, ◌/◌, Bool, not, Option, none, some, ◌==◌, if◌then◌else◌, bit_and, u8,
}

abbrev pub Cmos : Type 0
Cmos = ℕ → ℕ

abbrev pub cmos_stat_a : ℕ
cmos_stat_a = 0x0A

abbrev pub cmos_stat_b : ℕ
cmos_stat_b = 0x0B

abbrev pub rtc_second : ℕ
rtc_second = 0x00

abbrev pub rtc_minute : ℕ
rtc_minute = 0x02

abbrev pub rtc_hour : ℕ
rtc_hour = 0x04

-- `RTC_time_t`
pub record Time : Type 0 where
  pub hour : ℕ
  pub minute : ℕ
  pub second : ℕ

unfoldable pub get_value : Cmos → ℕ → ℕ
get_value cmos reg = u8 (cmos reg)

unfoldable pub update_in_progress : Cmos → Bool
update_in_progress cmos = not (bit_and (cmos cmos_stat_a) 0x80 == 0)

unfoldable pub bcd_convert : ℕ → ℕ
bcd_convert bcd = u8 (bit_and bcd 0xF0 / 2 + bit_and bcd 0xF0 / 8 + bit_and bcd 0xF)

unfoldable pub bcd_mode : Cmos → Bool
bcd_mode cmos = not (bit_and (cmos cmos_stat_b) 0x04 == 0)

-- `while(RTC_updateInProgress());`, where `clock` is the memory at each poll, on fuel: the number of the
-- poll that ends the wait.
unfoldable pub wait_until_settled : ℕ → (ℕ → Cmos) → ℕ → Option ℕ
wait_until_settled zero clock t = none
wait_until_settled (suc f) clock t =
    let rest = wait_until_settled f clock (t + 1) in
    if update_in_progress (clock t) then rest else some t

-- `currentTime` as `RTC_printTime` leaves it, read from one state of the memory. The test in the source
-- names the function `RTC_bcdMode` and does not call it, so the values are always converted.
unfoldable pub read_time : Cmos → Time
read_time cmos = record {
  hour = bcd_convert (get_value cmos rtc_hour);
  minute = bcd_convert (get_value cmos rtc_minute);
  second = bcd_convert (get_value cmos rtc_second);
}
