-- ===== src/Rtc/Laws.antt =====
-- The conversion from BCD, and the time read from a clock that counts in it.
use fantom_os.Base.{ℕ, ◌+◌, ◌*◌, ◌/◌, ◌%◌, ◌<◌, ◌≡◌, refl, true, arith, ◌==◌, ==_iff}
use fantom_os.Base.Bits.{every, every_at}
use fantom_os.Rtc.{Cmos, Time, rtc_second, rtc_minute, rtc_hour, get_value, bcd_convert, read_time}

converted : every (λ b. bcd_convert b == 10 * (b / 16) + b % 16) 256 ≡ true
unfolding every bcd_convert
converted = refl

-- two decimal digits, one in each half of the byte
abbrev pub bcd : ℕ → ℕ
bcd n = 16 * (n / 10) + n % 10

pub bcd_convert-bcd : (n : ℕ) → n < 100 → bcd_convert (bcd n) ≡ n
bcd_convert-bcd n h =
    let sum = (==_iff _ _).0 (
      every_at (λ b. bcd_convert b == 10 * (b / 16) + b % 16) 256 (bcd n) (omega arith)
        converted) in
    omega (arith, sum)

-- The registers hold a time in BCD.
pub record Shows (cmos : Cmos) (time : Time) : Type 0 where
  pub hour : (cmos rtc_hour ≡ bcd time.hour) × (time.hour < 100)
  pub minute : (cmos rtc_minute ≡ bcd time.minute) × (time.minute < 100)
  pub second : (cmos rtc_second ≡ bcd time.second) × (time.second < 100)

byte_of :
    (cmos : Cmos) (reg n : ℕ) → cmos reg ≡ bcd n → n < 100 → bcd_convert (get_value cmos reg) ≡ n
unfolding get_value
byte_of cmos reg n e h =
    let same : cmos reg % 256 ≡ bcd n = omega arith in rw same (bcd_convert-bcd n h)

pub read_time_lem : (cmos : Cmos) (time : Time) → Shows cmos time → read_time cmos ≡ time
unfolding read_time
read_time_lem cmos time s = rw (
  byte_of cmos rtc_hour time.hour s.hour.0 s.hour.1,
  byte_of cmos rtc_minute time.minute s.minute.0 s.minute.1,
  byte_of cmos rtc_second time.second s.second.0 s.second.1,
)
