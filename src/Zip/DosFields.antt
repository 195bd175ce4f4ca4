-- ===== src/Zip/DosFields.antt =====
-- The fields of a DOS date and time, unpacked again.
use collapsar.Base.{◌+◌, ◌/◌, ◌%◌, ◌^◌, ◌≤◌, ◌<◌, ◌≡◌, refl, true, arith}
use collapsar.Base.Int.{ℤ, pos, negsuc, pos_part, neg_part, ltb_ℤ, ◌≤ℤ◌}
use collapsar.Io.Disk.{Tm}
use collapsar.Zip.DosTime.{clamp_to_epoch, dos_t, dos_d, dos_time}

-- A DOS time and a DOS date are 16-bit values.
pub dos_time-lt : (tm : Tm) → ((dos_time tm).0 < 2 ^ 16) × ((dos_time tm).1 < 2 ^ 16)
unfolding dos_time
dos_time-lt tm = omega arith

-- What `localtime` promises of its result, for a year that the format can hold.
pub record InDosRange (tm : Tm) : Type 0 where
  pub from_1980 : pos 80 ≤ℤ tm.tm_year
  pub to_2107 : tm.tm_year ≤ℤ pos 207
  pub month : tm.tm_mon < 12
  pub day : tm.tm_mday ≤ 31
  pub hour : tm.tm_hour < 24
  pub minute : tm.tm_min < 60
  pub second : tm.tm_sec ≤ 60

not_clamped : (tm : Tm) → pos 80 ≤ℤ tm.tm_year → clamp_to_epoch tm ≡ tm
unfolding clamp_to_epoch
not_clamped tm h = ground arith

not_negative : (a : ℤ) → pos 80 ≤ℤ a → neg_part a ≡ 0
not_negative (pos n) h = refl
not_negative (negsuc n) h = absurd (omega arith)

-- For a calendar time from 1980 to 2107 the unpacked fields of the DOS time and date are the hour,
-- minute, half the second, year, month and day.
pub dos_time_fields :
    (tm : Tm)
    → InDosRange tm
    → let (t, d) = dos_time tm in
      (t / 2 ^ 11 ≡ tm.tm_hour)
      × (t / 2 ^ 5 % 2 ^ 6 ≡ tm.tm_min)
      × (t % 2 ^ 5 ≡ tm.tm_sec / 2)
      × (d / 2 ^ 9 + 80 ≡ pos_part tm.tm_year)
      × (d / 2 ^ 5 % 2 ^ 4 ≡ tm.tm_mon + 1)
      × (d % 2 ^ 5 ≡ tm.tm_mday)
unfolding dos_time
dos_time_fields tm r = rw (not_clamped tm r.from_1980) (
    unfold dos_t dos_d in
    (
      omega arith,
      omega arith,
      omega arith,
      omega (arith, not_negative tm.tm_year r.from_1980),
      omega arith,
      omega arith,
    ))

-- Before 1980 the stamp is the ZIP epoch, 1980-01-01 00:00:00.
pub dos_time_clamped : (tm : Tm) → ltb_ℤ tm.tm_year (pos 80) ≡ true → dos_time tm ≡ (0, 33)
unfolding dos_time
dos_time_clamped tm h = rw h
