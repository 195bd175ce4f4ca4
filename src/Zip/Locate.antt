-- ===== src/Zip/Locate.antt =====
-- What the reader finds outside the central directory entries: the stored bytes behind a local
-- header, and the directory through the end records.
use collapsar.Base.{
  ℕ, ◌+◌, ◌^◌, ◌-◌, ◌<◌, ◌≡◌, refl, ap, sym, ◌∙◌, Bool, true, false, Bytes, [], ◌++◌, some, arith,
  ◌==◌, if◌then◌else◌, length, drop, append_assoc, length-append,
}
use collapsar.Base.Slices.{take-append, drop-append}
use collapsar.Zip.Structures.{u32_max, u16_max}
use collapsar.Zip.Entry.{CentralEntry, needs_zip64, field32, local_header, local_extra}
use collapsar.Zip.Writer.{zip64_eocd, zip64_locator, classic_eocd}
use collapsar.Zip.Reader.{field, read_data, zip64_directory, find_directory}
use collapsar.Zip.Headers.{le16_mod, le64_lem}

-- What `write_local_header` writes.
unfoldable pub local_record : CentralEntry → Bytes
local_record e =
    local_header (needs_zip64 e) e ++ (e.name ++ (if needs_zip64 e then local_extra e else []))

local_name_len :
    (z : Bool) (e : CentralEntry) (rest : Bytes)
    → length e.name < 2 ^ 16
    → field 2 26 (local_header z e ++ rest) ≡ length e.name
unfolding local_header
local_name_len z e rest h = le16_mod (length e.name) h

local_extra_len :
    (z : Bool) (e : CentralEntry) (rest : Bytes)
    → field 2 28 (local_header z e ++ rest) ≡ length (if z then local_extra e else [])
unfolding local_header local_extra
local_extra_len true e rest = refl
local_extra_len false e rest = refl

local_behind :
    (z : Bool) (e : CentralEntry) (extra stored rest : Bytes)
    → drop
        (length e.name + length extra)
        (drop 30 (local_header z e ++ (e.name ++ (extra ++ (stored ++ rest)))))
      ≡ stored ++ rest
unfolding local_header
local_behind z e extra stored rest =
    ap (drop (length e.name + length extra)) (sym (append_assoc e.name extra (stored ++ rest)))
    ∙ drop-append (e.name ++ extra) (stored ++ rest) _ (sym (length-append e.name extra))

read_data_at :
    (z : Bool) (e : CentralEntry) (before stored rest : Bytes)
    → length e.name < 2 ^ 16
    → e.lfh_offset ≡ length before
    → e.compressed ≡ length stored
    → read_data
        (before
          ++ (local_header z e
              ++ (e.name ++ ((if z then local_extra e else []) ++ (stored ++ rest)))))
        e
      ≡ some stored
unfolding read_data
read_data_at z e before stored rest hn ho hc =
    rw
      (
        drop-append before _ e.lfh_offset ho,
        local_name_len z e (e.name ++ ((if z then local_extra e else []) ++ (stored ++ rest))) hn,
        local_extra_len z e (e.name ++ ((if z then local_extra e else []) ++ (stored ++ rest))),
        local_behind z e (if z then local_extra e else []) stored rest,
        take-append stored rest e.compressed hc,
      )
      (unfold local_header in refl)

-- The stored bytes of an entry with a name below 2^16 bytes, an offset that is that of its local
-- header and a size that is theirs, are found behind header, name and extra field.
pub read_data-local_record :
    (e : CentralEntry) (before stored rest : Bytes)
    → length e.name < 2 ^ 16
    → e.lfh_offset ≡ length before
    → e.compressed ≡ length stored
    → read_data (before ++ (local_record e ++ (stored ++ rest))) e ≡ some stored
unfolding local_record
read_data-local_record e before stored rest hn ho hc =
    rw
      (
        append_assoc (local_header (needs_zip64 e) e)
            (e.name ++ (if needs_zip64 e then local_extra e else [])) (stored ++ rest),
        append_assoc e.name (if needs_zip64 e then local_extra e else []) (stored ++ rest),
      )
      (read_data_at (needs_zip64 e) e before stored rest hn ho hc)

seek_end :
    (archive body tail : Bytes) (n : ℕ)
    → archive ≡ body ++ tail
    → length tail ≡ n
    → drop (length archive - n) archive ≡ tail
seek_end archive body tail n e h =
    rw e
      (drop-append body tail (length (body ++ tail) - n) (omega (arith, length-append body tail)))

eocd_count : (n s o : ℕ) → n < u16_max → field 2 10 (classic_eocd false n s o) ≡ n
unfolding classic_eocd
eocd_count n s o h = le16_mod n (omega arith)

eocd_size : (n s o : ℕ) → s < u32_max → field 4 12 (classic_eocd false n s o) ≡ s
unfolding classic_eocd
eocd_size n s o h = omega arith

eocd_offset : (n s o : ℕ) → o < u32_max → field 4 16 (classic_eocd false n s o) ≡ o
unfolding classic_eocd
eocd_offset n s o h = omega arith

lt→==_false : (a b : ℕ) → a < b → (a == b) ≡ false
lt→==_false a b h = ground arith

-- An end record without Zip64 leads a reader to the count and the offset of the directory, for a
-- count below 0xFFFF and a size and offset below 0xFFFFFFFF.
pub find_directory-classic :
    (body : Bytes) (count cd_size cd_offset : ℕ)
    → count < u16_max
    → cd_size < u32_max
    → cd_offset < u32_max
    → find_directory (body ++ classic_eocd false count cd_size cd_offset) ≡ some (count, cd_offset)
unfolding find_directory
find_directory-classic body count cd_size cd_offset hn hs ho =
    rw
      (
        seek_end _ body (classic_eocd false count cd_size cd_offset) 22 refl
            (unfold classic_eocd in refl),
        eocd_count count cd_size cd_offset hn,
        eocd_size count cd_size cd_offset hs,
        eocd_offset count cd_size cd_offset ho,
        lt→==_false count u16_max hn,
        lt→==_false cd_size u32_max hs,
        lt→==_false cd_offset u32_max ho,
      )
      (unfold classic_eocd in refl)

z64_count : (n s o : ℕ) (rest : Bytes) → n < 2 ^ 64 → field 8 32 (zip64_eocd n s o ++ rest) ≡ n
unfolding zip64_eocd
z64_count n s o rest h = le64_lem n h

z64_offset : (n s o : ℕ) (rest : Bytes) → o < 2 ^ 64 → field 8 48 (zip64_eocd n s o ++ rest) ≡ o
unfolding zip64_eocd
z64_offset n s o rest h = le64_lem o h

locator_offset : (z : ℕ) (rest : Bytes) → z < 2 ^ 64 → field 8 8 (zip64_locator z ++ rest) ≡ z
unfolding zip64_locator
locator_offset z rest h = le64_lem z h

module _ (body : Bytes) (count cd_size cd_offset : ℕ) where
  -- The three end records of a Zip64 archive.
  abbrev pub zip64_tail : Bytes
  zip64_tail =
      zip64_eocd count cd_size cd_offset
      ++ (zip64_locator (length body) ++ classic_eocd true count cd_size cd_offset)

  zip64_found :
      length body < 2 ^ 64
      → count < 2 ^ 64
      → cd_offset < 2 ^ 64
      → zip64_directory (body ++ zip64_tail) ≡ some (count, cd_offset)
  unfolding zip64_directory
  zip64_found hb hn ho =
      rw
        (
          seek_end _ (body ++ zip64_eocd count cd_size cd_offset)
              (zip64_locator (length body) ++ classic_eocd true count cd_size cd_offset) 42
              (sym (append_assoc body (zip64_eocd count cd_size cd_offset) _))
              (unfold zip64_locator classic_eocd in refl),
          locator_offset (length body) (classic_eocd true count cd_size cd_offset) hb,
          drop-append body zip64_tail (length body) refl,
          z64_count count cd_size cd_offset
              (zip64_locator (length body) ++ classic_eocd true count cd_size cd_offset) hn,
          z64_offset count cd_size cd_offset
              (zip64_locator (length body) ++ classic_eocd true count cd_size cd_offset) ho,
        )
        (unfold zip64_locator zip64_eocd in refl)

  -- The Zip64 end record, its locator and the end record lead a reader to the count and the offset
  -- of the directory, whatever the body in front, for values below 2^64.
  pub find_directory-zip64 :
      length body < 2 ^ 64
      → count < 2 ^ 64
      → cd_offset < 2 ^ 64
      → find_directory (body ++ zip64_tail) ≡ some (count, cd_offset)
  unfolding find_directory
  find_directory-zip64 hb hn ho =
      rw
        (
          seek_end (body ++ zip64_tail)
              (body ++ (zip64_eocd count cd_size cd_offset ++ zip64_locator (length body)))
              (classic_eocd true count cd_size cd_offset) 22 (simp append_assoc)
              (unfold classic_eocd in refl),
          zip64_found hb hn ho,
        )
        (unfold classic_eocd field32 in refl)
