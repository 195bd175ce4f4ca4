-- ===== src/Runs/Archives.antt =====
-- Archives of two small files.
use collapsar.Base.{
  ◌≡◌, ◌^◌, ◌/◌, ◌%◌, ◌+◌, refl, inl, true, some, none, [], ◌++◌, arith, length, All,
}
use collapsar.Base.Int.{pos}
use collapsar.Zip.Entry.{needs_zip64, local_header, central_header}
use collapsar.Zip.Layout.{entries, archive, is_zip64}
use collapsar.Zip.Writer.{entry_for, classic_eocd, archive_is_zip64}
use collapsar.Zip.DosTime.{sanitise_archive_name}
use collapsar.Zip.DosTime.{dos_time, zip_epoch}
use collapsar.Zip.DosFields.{InDosRange, dos_time_fields, dos_time_clamped}
use collapsar.Zip.Reader.{read_central, read_archive}
use collapsar.Zip.Directory.{read_central_mixed}
use collapsar.Zip.Headers.{IsEncodable}
use collapsar.Zip.Directory.{IsUniform, central_record}
use collapsar.Zip.Locate.{local_record}
use collapsar.Zip.Archive.{items_of}
use collapsar.Zip.RoundTrip.{archive_of, read_archive-archive_of, IsPrepared}
use collapsar.Runs.{empty_disk, two_files, small_entry, large_entry}

small_entry-IsEncodable : IsEncodable small_entry
small_entry-IsEncodable = record {
  name_fits = omega arith;
  method_fits = omega arith;
  crc32_fits = omega arith;
  compressed_fits = omega arith;
  uncompressed_fits = omega arith;
  lfh_offset_fits = omega arith;
  mod_time_fits = omega arith;
  mod_date_fits = omega arith;
}

large_entry-IsEncodable : IsEncodable large_entry
large_entry-IsEncodable = record {
  name_fits = omega arith;
  method_fits = omega arith;
  crc32_fits = omega arith;
  compressed_fits = omega arith;
  uncompressed_fits = omega arith;
  lfh_offset_fits = omega arith;
  mod_time_fits = omega arith;
  mod_date_fits = omega arith;
}

large_entry-needs_zip64 : needs_zip64 large_entry ≡ true
unfolding needs_zip64
large_entry-needs_zip64 = refl

read_central_mixed_example : read_central (central_record large_entry ++ []) ≡ none
read_central_mixed_example =
    read_central_mixed large_entry [] large_entry-IsEncodable large_entry-needs_zip64
      (inl (omega arith))

length-two_files : length (archive_of empty_disk two_files) ≡ 182
unfolding archive_of archive is_zip64 archive_is_zip64 local_record local_header entry_for
    needs_zip64 central_record central_header sanitise_archive_name classic_eocd
length-two_files = refl

two_files-IsPrepared : All IsPrepared two_files
unfolding sanitise_archive_name
two_files-IsPrepared = (
  record {
    crc32_fits = omega arith;
    uncompressed_fits = omega arith;
    compressed_is = refl;
    name_fits = omega arith;
  },
  (
    record {
      crc32_fits = omega arith;
      uncompressed_fits = omega arith;
      compressed_is = refl;
      name_fits = omega arith;
    },
    tt,
  ),
)

two_files-IsUniform : All IsUniform (entries (items_of empty_disk 0 two_files))
unfolding archive_of local_record local_header entry_for needs_zip64 sanitise_archive_name
two_files-IsUniform =
    (inl (omega arith, omega arith, omega arith), (inl (omega arith, omega arith, omega arith), tt))

read_archive-archive_of_example :
    read_archive (archive_of empty_disk two_files) ≡ some (items_of empty_disk 0 two_files)
read_archive-archive_of_example =
    read_archive-archive_of empty_disk two_files two_files-IsPrepared two_files-IsUniform
      (omega (arith, length-two_files))

dos_time_clamped_example : dos_time (record zip_epoch { tm_year = pos 70 }) ≡ (0, 33)
dos_time_clamped_example = dos_time_clamped (record zip_epoch { tm_year = pos 70 }) refl

zip_epoch-InDosRange : InDosRange zip_epoch
zip_epoch-InDosRange = record {
  from_1980 = omega arith;
  to_2107 = omega arith;
  month = omega arith;
  day = omega arith;
  hour = omega arith;
  minute = omega arith;
  second = omega arith;
}

dos_time_fields_example :
    let (t, d) = dos_time zip_epoch in
    (t / 2 ^ 11 ≡ 0)
    × (t / 2 ^ 5 % 2 ^ 6 ≡ 0)
    × (t % 2 ^ 5 ≡ 0 / 2)
    × (d / 2 ^ 9 + 80 ≡ 80)
    × (d / 2 ^ 5 % 2 ^ 4 ≡ 0 + 1)
    × (d % 2 ^ 5 ≡ 1)
dos_time_fields_example = dos_time_fields zip_epoch zip_epoch-InDosRange
