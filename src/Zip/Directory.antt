-- ===== src/Zip/Directory.antt =====
-- One central directory entry, written and read back: when it can be read, and when it cannot.
use collapsar.Base.{
  ℕ, ◌+◌, ◌%◌, ◌^◌, ◌-◌, ◌≤◌, ◌<◌, ◌≡◌, refl, ◌∙◌, ◌⊎◌, inl, inr, Bool, true, false, ◌&&◌, Bytes,
  [], ◌++◌, some, none, arith, leb, if◌then◌else◌, length, take, replicate, le→leb, append-nil,
  append_assoc,
}
use collapsar.Base.Slices.{take-append, drop-append}
use collapsar.Zip.Bytes.{◌▷◌, put16, put64}
use collapsar.Zip.Structures.{u32_max, extra_id_zip64}
use collapsar.Zip.Entry.{CentralEntry, needs_zip64, field32, central_header, central_extra}
use collapsar.Zip.Writer.{extra_len}
use collapsar.Zip.Reader.{Fixed, extended, zip64_data, resolve, listed, read_variable, read_central}
use collapsar.Zip.Headers.{IsEncodable, fixed_of, fixed-central_header, le64_lem}

-- What `write_central_entry` writes.
unfoldable pub central_record : CentralEntry → Bytes
central_record e =
    central_header (needs_zip64 e) (extra_len e) e
    ++ (e.name ++ (if needs_zip64 e then central_extra e else []))

read_variable_lem :
    (f : Fixed) (name extra rest : Bytes)
    → f.name_len ≡ length name
    → f.extra_len ≡ length extra
    → f.comment_len ≡ 0
    → read_variable f (name ++ (extra ++ rest))
      ≡ listed f name rest (resolve f.usize f.csize f.offset (zip64_data extra))
unfolding read_variable
read_variable_lem f name extra rest hn he hc = rw (
  take-append name (extra ++ rest) f.name_len hn,
  drop-append name (extra ++ rest) f.name_len hn,
  take-append extra rest f.extra_len he,
  drop-append extra rest f.extra_len he,
  drop-append [] rest f.comment_len hc,
)

-- The reader on a header with an extra field `extra`.
read_header :
    (z : Bool) (e : CentralEntry) (extra rest : Bytes)
    → IsEncodable e
    → length extra < 2 ^ 16
    → read_central (central_header z (length extra) e ++ (e.name ++ (extra ++ rest)))
      ≡ listed (fixed_of z (length extra) e) e.name rest (
          resolve
            (field32 z e.uncompressed)
            (field32 z e.compressed)
            (field32 z e.lfh_offset)
            (zip64_data extra))
unfolding read_central central_header
read_header z e extra rest v h =
    rw (fixed-central_header z (length extra) e (e.name ++ (extra ++ rest)) v h)
      (read_variable_lem (fixed_of z (length extra) e) e.name extra rest refl refl refl)

-- The extra field by what overflows: uncompressed, compressed, offset.
extra_by : Bool → Bool → Bool → CentralEntry → Bytes
unfolding put16 put64
extra_by bu bc bo e =
    let store = λ (b : Bool) (v : ℕ) (p : Bytes × ℕ). if b then (put64 p.1 v p.0, p.1 + 8) else p in
    let p =
      store bo e.lfh_offset (store bc e.compressed (store bu e.uncompressed (replicate 28 0, 4))) in
    take p.1 (p.0 ▷ put16 0 extra_id_zip64 ▷ put16 2 ((p.1 - 4) % 2 ^ 16))

central_extra-extra_by :
    (e : CentralEntry)
    → central_extra e
      ≡ extra_by
          (leb u32_max e.uncompressed)
          (leb u32_max e.compressed)
          (leb u32_max e.lfh_offset)
          e
unfolding central_extra extra_by
central_extra-extra_by e = refl

-- Short of one of the three values the reader finds too few bytes.
resolve-extra_by :
    (bu bc bo : Bool) (e : CentralEntry)
    → bu && (bc && bo) ≡ false
    → resolve u32_max u32_max u32_max (zip64_data (extra_by bu bc bo e)) ≡ none
unfolding resolve zip64_data extra_by extended
resolve-extra_by true true true e h = cc
resolve-extra_by true true false e h = refl
resolve-extra_by true false true e h = refl
resolve-extra_by true false false e h = refl
resolve-extra_by false true true e h = refl
resolve-extra_by false true false e h = refl
resolve-extra_by false false true e h = refl
resolve-extra_by false false false e h = refl

length-extra_by : (bu bc bo : Bool) (e : CentralEntry) → length (extra_by bu bc bo e) < 2 ^ 16
unfolding extra_by
length-extra_by true true true e = omega arith
length-extra_by true true false e = omega arith
length-extra_by true false true e = omega arith
length-extra_by true false false e = omega arith
length-extra_by false true true e = omega arith
length-extra_by false true false e = omega arith
length-extra_by false false true e = omega arith
length-extra_by false false false e = omega arith

length-central_extra : (e : CentralEntry) → length (central_extra e) < 2 ^ 16
length-central_extra e = rw (central_extra-extra_by e) (length-extra_by _ _ _ e)

-- The reader on what `write_central_entry` writes, when the entry is in Zip64 form.
read_zip64 :
    (e : CentralEntry) (rest : Bytes)
    → IsEncodable e
    → needs_zip64 e ≡ true
    → read_central (central_record e ++ rest)
      ≡ listed
          (fixed_of true (length (central_extra e)) e)
          e.name
          rest
          (resolve u32_max u32_max u32_max (zip64_data (central_extra e)))
unfolding central_record extra_len
read_zip64 e rest v h =
    rw
      (
        h,
        append_assoc (central_header true (length (central_extra e)) e) (e.name ++ central_extra e)
            rest,
        append_assoc e.name (central_extra e) rest,
      )
      (read_header true e (central_extra e) rest v (length-central_extra e)
        ∙ (unfold field32 in refl))

-- Every size and offset overflows its 32-bit field, or none does.
abbrev pub IsUniform : CentralEntry → Type 0
IsUniform e =
    ((e.compressed < u32_max) × (e.uncompressed < u32_max) × (e.lfh_offset < u32_max))
    ⊎ ((u32_max ≤ e.compressed) × (u32_max ≤ e.uncompressed) × (u32_max ≤ e.lfh_offset))

resolve_all :
    (e : CentralEntry)
    → IsEncodable e
    → resolve u32_max u32_max u32_max (zip64_data (extra_by true true true e))
      ≡ some (e.uncompressed, e.compressed, e.lfh_offset)
unfolding resolve zip64_data extra_by extended put64
resolve_all e v = λ i. some (
  le64_lem e.uncompressed v.uncompressed_fits i,
  le64_lem e.compressed v.compressed_fits i,
  le64_lem e.lfh_offset v.lfh_offset_fits i,
)

-- The reader on what `write_central_entry` writes, when the entry is in the plain form.
read_plain :
    (e : CentralEntry) (rest : Bytes)
    → IsEncodable e
    → needs_zip64 e ≡ false
    → read_central (central_record e ++ rest)
      ≡ listed (fixed_of false 0 e) e.name rest (
          resolve
            (field32 false e.uncompressed)
            (field32 false e.compressed)
            (field32 false e.lfh_offset)
            (zip64_data []))
unfolding central_record extra_len
read_plain e rest v h =
    rw (h, append-nil e.name, append_assoc (central_header false 0 e) e.name rest)
      (read_header false e [] rest v (omega arith))

none_overflow :
    (e : CentralEntry)
    → e.compressed < u32_max
    → e.uncompressed < u32_max
    → e.lfh_offset < u32_max
    → needs_zip64 e ≡ false
unfolding needs_zip64
none_overflow e c u o = ground arith

all_overflow : (e : CentralEntry) → u32_max ≤ e.compressed → needs_zip64 e ≡ true
unfolding needs_zip64
all_overflow e c = ground arith

fits32 : (v : ℕ) → v < u32_max → v % 2 ^ 32 ≡ v
fits32 v h = omega arith

-- A central directory entry with values in the range of its fields, whose sizes and offset are all
-- or none of them at or above 0xFFFFFFFF, is read back, and what follows it is left.
pub read_central-central_record :
    (e : CentralEntry) (rest : Bytes)
    → IsEncodable e
    → IsUniform e
    → read_central (central_record e ++ rest) ≡ some (e, rest)
unfolding listed
read_central-central_record e rest v (inl (c, u, o)) =
    rw (read_plain e rest v (none_overflow e c u o)) (
      unfold resolve zip64_data field32 in
      λ i. some (
        record {
          name = e.name;
          method = e.method;
          crc32 = e.crc32;
          compressed = fits32 e.compressed c i;
          uncompressed = fits32 e.uncompressed u i;
          lfh_offset = fits32 e.lfh_offset o i;
          mod_time = e.mod_time;
          mod_date = e.mod_date;
        },
        rest,
      ))
read_central-central_record e rest v (inr (c, u, o)) = rw (
  read_zip64 e rest v (all_overflow e c),
  central_extra-extra_by e,
  le→leb _ _ c,
  le→leb _ _ u,
  le→leb _ _ o,
  resolve_all e v,
)

-- A central directory entry with values in the range of its fields that needs Zip64 but has a size
-- or an offset below 0xFFFFFFFF cannot be read: its fixed part holds three sentinels and its extra
-- field fewer than three values.
pub read_central_mixed :
    (e : CentralEntry) (rest : Bytes)
    → IsEncodable e
    → needs_zip64 e ≡ true
    → (e.compressed < u32_max) ⊎ ((e.uncompressed < u32_max) ⊎ (e.lfh_offset < u32_max))
    → read_central (central_record e ++ rest) ≡ none
unfolding listed
read_central_mixed e rest v h some_fit = rw (
  read_zip64 e rest v h,
  central_extra-extra_by e,
  resolve-extra_by (leb u32_max e.uncompressed) (leb u32_max e.compressed)
      (leb u32_max e.lfh_offset) e (ground arith),
)
