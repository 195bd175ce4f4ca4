-- ===== src/Pipeline/Checksum.antt =====
-- `assemble` against the bytes that the blocks stand for.
use collapsar.Base.{
  ℕ, suc, false, ◌+◌, ◌%◌, ◌^◌, ◌<◌, ◌≤◌, ◌≡◌, refl, sym, ◌∙◌, List, [], ◌∷◌, ◌++◌, Bytes, arith,
  ◌==◌, append-nil, append_assoc, subst, length, length-append,
}
use collapsar.Core.Blocks.{FileEntry, CompressedBlock, payloads}
use collapsar.Codec.Zlib.{Zlib, CrcLaws}
use collapsar.Codec.Crc32.{combine}
use collapsar.Codec.Widths.{to_off_lem}
use collapsar.Pipeline.Assemble.{Totals, stitch, stitch_all, assemble}

abbrev pub joined : List Bytes → Bytes
joined [] = []
joined (s ∷ ss) = s ++ joined ss

-- What a codec promises of a block: the CRC and the length of its source, which `z_off_t` can hold.
pub record IsBlockOf (z : Zlib) (source : Bytes) (b : CompressedBlock) : Type 0 where
  pub crc_is : b.crc32 ≡ z.crc32_z 0 source
  pub length_is : b.uncompressed ≡ length source
  pub fits_off : length source ≤ z.off_max

abbrev pub AreBlocksOf : Zlib → List Bytes → List CompressedBlock → Type 0
AreBlocksOf z [] [] = Unit
AreBlocksOf z (s ∷ ss) (b ∷ bs) = IsBlockOf z s b × AreBlocksOf z ss bs
AreBlocksOf z _ _ = ⊥

-- The sums of the blocks so far.
pub record Sums (z : Zlib) (seen : Bytes) (t : Totals) : Type 0 where
  pub crc_is : t.crc ≡ z.crc32_z 0 seen
  pub length_is : t.uncompressed ≡ length seen

later : (n : ℕ) → (suc n == 0) ≡ false
later n = ground arith

stitch-crc :
    (z : Zlib) (laws : CrcLaws z) (seen source : Bytes) (t : Totals) (b : CompressedBlock)
    → Sums z seen t
    → IsBlockOf z source b
    → (stitch z t b).crc ≡ z.crc32_z 0 (seen ++ source)
unfolding stitch combine
stitch-crc z laws [] source t b sums is = rw sums.length_is (is.crc_is)
stitch-crc z laws (x ∷ xs) source t b sums is =
    rw
      (
        sums.length_is,
        sums.crc_is,
        is.crc_is,
        is.length_is,
        later (length xs),
        to_off_lem z (length source) is.fits_off,
        laws.combines (x ∷ xs) source is.fits_off,
      )
      (omega (arith, laws.in_range 0 (x ∷ xs ++ source)))

stitch-length :
    (z : Zlib) (seen source : Bytes) (t : Totals) (b : CompressedBlock)
    → Sums z seen t
    → IsBlockOf z source b
    → length seen + length source < 2 ^ 64
    → (stitch z t b).uncompressed ≡ length (seen ++ source)
unfolding stitch
stitch-length z seen source t b sums is small =
    omega (arith, sums.length_is, is.length_is, length-append seen source)

stitch_all_lem :
    (z : Zlib) (laws : CrcLaws z) (seen : Bytes) (t : Totals) (sources : List Bytes)
    (blocks : List CompressedBlock)
    → Sums z seen t
    → AreBlocksOf z sources blocks
    → length (seen ++ joined sources) < 2 ^ 64
    → Sums z (seen ++ joined sources) (stitch_all z t blocks)
unfolding stitch_all
stitch_all_lem z laws seen t [] [] sums is small = rw append-nil sums
stitch_all_lem z laws seen t [] (b ∷ bs) sums is small = elim is [ ]
stitch_all_lem z laws seen t (s ∷ ss) [] sums is small = elim is [ ]
stitch_all_lem z laws seen t (s ∷ ss) (b ∷ bs) sums (is, iss) small =
    subst (λ xs. Sums z xs (stitch_all z (stitch z t b) bs)) (append_assoc seen s (joined ss))
      (stitch_all_lem z laws (seen ++ s) (stitch z t b) ss bs
        (record {
          crc_is = stitch-crc z laws seen s t b sums is;
          length_is = stitch-length z seen s t b sums is (omega (arith, one, two));
        })
        iss (rw (append_assoc seen s (joined ss)) small))
  where
    one : length (seen ++ joined (s ∷ ss)) ≡ length seen + length (s ++ joined ss)
    one = length-append seen (s ++ joined ss)

    two : length (s ++ joined ss) ≡ length s + length (joined ss)
    two = length-append s (joined ss)

compressed_step : (n m k : ℕ) → ((n % 2 ^ 64 + m) % 2 ^ 64 + k) % 2 ^ 64 ≡ (n + (m + k)) % 2 ^ 64
compressed_step n m k = omega arith

stitch_all-compressed :
    (z : Zlib) (t : Totals) (blocks : List CompressedBlock)
    → t.compressed < 2 ^ 64
    → (stitch_all z t blocks).compressed ≡ (t.compressed + length (payloads blocks)) % 2 ^ 64
unfolding stitch_all stitch
stitch_all-compressed z t [] h = omega arith
stitch_all-compressed z t (b ∷ bs) h =
    let ih = stitch_all-compressed z (stitch z t b) bs (omega arith) in
    omega (arith, ih, length-append b.bytes (payloads bs))

-- Given the laws of the CRC, a file assembled from blocks that stand for given sources, together
-- below 2^64 bytes, has the CRC and the length of the sources joined and the length of the stored
-- bytes modulo 2^64.
pub assemble_lem :
    (z : Zlib) (entry : FileEntry) (sources : List Bytes) (blocks : List CompressedBlock)
    → CrcLaws z
    → AreBlocksOf z sources blocks
    → length (joined sources) < 2 ^ 64
    → let file = assemble z entry blocks in
      (file.file_crc32 ≡ z.crc32_z 0 (joined sources))
      × (file.uncompressed ≡ length (joined sources))
      × (file.compressed ≡ length (payloads blocks) % 2 ^ 64)
unfolding assemble
assemble_lem z entry sources blocks laws are small =
    let start : Totals = record { crc = 0; uncompressed = 0; compressed = 0 } in
    let sums =
      stitch_all_lem z laws [] start sources blocks
        (record { crc_is = sym laws.of_nothing; length_is = refl }) are small in
    (sums.crc_is, sums.length_is, stitch_all-compressed z start blocks (omega arith) ∙ no_start)
  where
    no_start : (0 + length (payloads blocks)) % 2 ^ 64 ≡ length (payloads blocks) % 2 ^ 64
    no_start = omega arith
