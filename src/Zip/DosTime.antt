-- ===== src/Zip/DosTime.antt =====
-- `dos_time` and `sanitise_archive_name` of zip_writer.cpp. The fields of a DOS date and time are
-- masked to disjoint bits, so `|` between them is `+`.
use collapsar.Base.{ℕ, ◌+◌, ◌-◌, ◌*◌, ◌/◌, ◌%◌, ◌^◌, ◌||◌, Bytes, [], ◌∷◌, ◌==◌, if◌then◌else◌}
use collapsar.Base.Int.{pos, pos_part, ltb_ℤ}
use collapsar.Io.Disk.{Tm}

-- 1980-01-01 00:00:00, the ZIP epoch.
abbrev pub zip_epoch : Tm
zip_epoch = record {
  tm_year = pos 80;
  tm_mon = 0;
  tm_mday = 1;
  tm_hour = 0;
  tm_min = 0;
  tm_sec = 0;
}

-- `if (tm.tm_year + 1900 < 1980)`.
unfoldable pub clamp_to_epoch : Tm → Tm
clamp_to_epoch tm = if ltb_ℤ tm.tm_year (pos 80) then zip_epoch else tm

unfoldable pub dos_t : Tm → ℕ
dos_t tm = tm.tm_hour % 32 * 2 ^ 11 + tm.tm_min % 64 * 2 ^ 5 + tm.tm_sec / 2 % 32

-- After the clamp `tm_year + 1900 - 1980` is `tm_year - 80`, and not negative.
unfoldable pub dos_d : Tm → ℕ
dos_d tm = (pos_part tm.tm_year - 80) % 128 * 2 ^ 9 + (tm.tm_mon + 1) % 16 * 2 ^ 5 + tm.tm_mday % 32

unfoldable pub dos_time : Tm → ℕ × ℕ
unfolding clamp_to_epoch dos_t dos_d
dos_time tm = let clamped = clamp_to_epoch tm in (dos_t clamped, dos_d clamped)

unfoldable pub sanitise_archive_name : Bytes → Bytes
sanitise_archive_name [] = []
sanitise_archive_name (c ∷ rest) =
    if c == b'/' || c == b'\\' then sanitise_archive_name rest else c ∷ rest
