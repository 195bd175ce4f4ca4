-- ===== src/Runs/Files.antt =====
-- A zlib that stores bytes without compressing them, and one file that goes through the CPU path with
-- it in two blocks. A stored byte has a 1 before it, and a stream ends with a 0. The checksum is a sum.
use collapsar.Base.{
  List, ℕ, zero, suc, ◌+◌, ◌*◌, ◌%◌, ◌^◌, ◌≡◌, refl, ap, subst, true, false, Option, none, some,
  Bytes, [], ◌∷◌, ◌++◌, arith, length, take, All,
}
use collapsar.Codec.Zlib.{Zlib, CrcLaws, DeflateLaws, Inflates, z_stream_end}
use collapsar.Core.Status.{ok}
use collapsar.Core.Options.{balanced}
use collapsar.Core.Blocks.{FileEntry, CompressedBlock, PreparedFile, payloads}
use collapsar.Codec.Factory.{CodecBundle}
use collapsar.Io.AsyncReader.{Host, submit, effective_block_bytes}
use collapsar.Io.Tiling.{pieces, pieces-submit, submit_wraps, IsInside, submit-IsInside}
use collapsar.Pipeline.Router.{cpu}
use collapsar.Pipeline.Stop.{Stop}
use collapsar.Pipeline.Task.{file_task}
use collapsar.Pipeline.CpuTask.{AreStreams, CpuServes, file_task_lem, inflate-file_task}
use collapsar.Runs.{entry_named}

abbrev sum : Bytes → ℕ
sum [] = 0
sum (x ∷ xs) = x + sum xs

sum-append : (xs ys : Bytes) → sum (xs ++ ys) ≡ sum xs + sum ys
sum-append [] ys = omega arith
sum-append (x ∷ xs) ys = omega (arith, sum-append xs ys)

abbrev store : Bytes → Bytes
store [] = 0 ∷ []
store (x ∷ xs) = 1 ∷ x ∷ store xs

abbrev pub storing : Zlib
storing = record {
  crc32_z = λ crc bytes. (crc + sum bytes) % 2 ^ 32;
  off_max = 2147483647;
  ulong_max = 4294967295;
  crc32_combine = λ a b n. (a + b) % 2 ^ 32;
  init_ok = λ level. true;
  bound = λ n. 2 * n + 1;
  deflate = λ level source room. (z_stream_end, store source);
}

pub storing-CrcLaws : CrcLaws storing
storing-CrcLaws = record {
  combines = λ a b h. omega (arith, sum-append a b);
  of_nothing = refl;
  in_range = λ crc a. omega arith;
  combined_in_range = λ a b n. omega arith;
}

pub storing-DeflateLaws : DeflateLaws storing
storing-DeflateLaws = record {
  ulong_wide = omega arith;
  starts = λ level h. refl;
  finishes = λ level source room h k. refl;
}

-- Adds a byte to what an inflater read.
abbrev and_byte : ℕ → Option (Bytes × Bytes) → Option (Bytes × Bytes)
and_byte x none = none
and_byte x (some (xs, rest)) = some (x ∷ xs, rest)

abbrev pub unstore : Bytes → Option (Bytes × Bytes)
unstore [] = none
unstore (zero ∷ rest) = some ([], rest)
unstore (suc n ∷ []) = none
unstore (suc n ∷ x ∷ rest) = and_byte x (unstore rest)

unstore-store : (source rest : Bytes) → unstore (store source ++ rest) ≡ some (source, rest)
unstore-store [] rest = refl
unstore-store (x ∷ xs) rest = rw (unstore-store xs rest)

pub storing-Inflates : Inflates storing unstore
storing-Inflates = record {
  finished = λ level source room out rest h.
      subst (λ bytes. unstore (bytes ++ rest) ≡ some (source, rest)) (ap (λ r. r.1) h)
        (unstore-store source rest);
}

abbrev pub five_bytes : Bytes
five_bytes = 1 ∷ 2 ∷ 3 ∷ 4 ∷ 5 ∷ []

abbrev pub one_file_host : Host
one_file_host = record {
  open_file = λ p. some five_bytes;
  allocates = λ n. true;
  has_cuda = false;
  cuda_message = [];
}

abbrev pub never : Stop
never = record {
  submitting = λ i. false;
  reading = λ i k. false;
  draining = λ i k. false;
  writing = λ i. false;
}

abbrev pub five_entry : FileEntry
five_entry = record (entry_named (b'a' ∷ [])) { size_bytes = 5 }

abbrev pub cpu_only : CodecBundle
cpu_only = record { cpu = balanced; gpu = none }

pub five-CpuServes :
    CpuServes storing one_file_host never (effective_block_bytes 4) 0 five_entry five_bytes
unfolding effective_block_bytes
five-CpuServes = record {
  crc_laws = storing-CrcLaws;
  deflate_laws = storing-DeflateLaws;
  gives = record { opens = refl; allocates = λ n h. refl; sized = refl };
  not_reading = λ k. refl;
  not_draining = λ k. refl;
  bounded = λ n h. omega arith;
  some_bytes = omega arith;
  below = omega arith;
  fits_off = omega arith;
  no_overflow = omega arith;
  few = omega arith;
}

pub five-CpuServes_8 :
    CpuServes storing one_file_host never (effective_block_bytes 8) 0 five_entry five_bytes
unfolding effective_block_bytes
five-CpuServes_8 = record {
  crc_laws = storing-CrcLaws;
  deflate_laws = storing-DeflateLaws;
  gives = record { opens = refl; allocates = λ n h. refl; sized = refl };
  not_reading = λ k. refl;
  not_draining = λ k. refl;
  bounded = λ n h. omega arith;
  some_bytes = omega arith;
  below = omega arith;
  fits_off = omega arith;
  no_overflow = omega arith;
  few = omega arith;
}

file_task_lem_example :
    (file : PreparedFile) × (file_task storing one_file_host never 4 cpu_only cpu 0 five_entry
      ≡ ok file)
    × (file.entry ≡ five_entry)
    × (file.file_crc32 ≡ 15)
    × (file.uncompressed ≡ 5)
    × (file.compressed ≡ length (payloads file.blocks) % 2 ^ 64)
file_task_lem_example =
    file_task_lem storing one_file_host never 4 0 five_entry five_bytes cpu_only five-CpuServes

pieces-submit_example : pieces five_bytes (submit 5 2) ≡ five_bytes
pieces-submit_example = pieces-submit five_bytes 2 (omega arith) (omega arith) (omega arith)

submit_wraps_example : submit 5 18446744073709551615 ≡ []
submit_wraps_example =
    submit_wraps 5 18446744073709551615 (omega arith) (omega arith) (omega arith) (omega arith)

submit-IsInside_example : All (IsInside 5 2) (submit 5 2)
submit-IsInside_example = submit-IsInside 5 2 (omega arith) (omega arith) (omega arith)

inflate-file_task_example :
    (file : PreparedFile) × (file_task storing one_file_host never 4 cpu_only cpu 0 five_entry
      ≡ ok file)
    × AreStreams unstore five_bytes (submit 5 (effective_block_bytes 4)) file.blocks
    × ((first : CompressedBlock) × (later : List CompressedBlock) × (file.blocks ≡ first ∷ later)
        × (unstore (payloads file.blocks)
            ≡ some (take (effective_block_bytes 4) five_bytes, payloads later)))
inflate-file_task_example =
    inflate-file_task storing one_file_host never 4 0 five_entry five_bytes cpu_only five-CpuServes
      unstore storing-Inflates
