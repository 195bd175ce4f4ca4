-- ===== src/Io/Disk.antt =====
-- `std::filesystem` and `localtime` as the writers use them: what the operating system answers. The
-- writers ignore the outcome of `create_directories`, so it shows only in whether the output opens.
use collapsar.Base.{ℕ, ◌≡◌, Bool, true, false, not, ◌&&◌, Option, none, some, [], ◌∷◌}
use collapsar.Base.Int.{ℤ}
use collapsar.Core.Blocks.{FilePath}
use collapsar.Io.Stream.{Stream}

-- The broken-down time of `localtime`; `tm_year` counts from 1900 and may be negative.
pub record Tm : Type 0 where
  pub tm_year : ℤ
  pub tm_mon : ℕ
  pub tm_mday : ℕ
  pub tm_hour : ℕ
  pub tm_min : ℕ
  pub tm_sec : ℕ

pub record Disk : Type 0 where
  pub exists : FilePath → Bool
  pub parent_path : FilePath → FilePath
  -- Whether a path opens for writing, given the directory that `create_directories` was asked for.
  pub openable : Option FilePath → FilePath → Bool
  pub capacity : ℕ
  pub flushes : Bool
  pub localtime : ℤ → Tm

-- The directory to create: none if the output has no parent.
unfoldable pub parent_to_create : Disk → FilePath → Option FilePath
parent_to_create disk path = elim (disk.parent_path path) [ [] ↦ none | c ∷ cs ↦ some (c ∷ cs) ]

-- `stream_.open(output_, std::ios::binary | std::ios::trunc)`.
unfoldable pub open_stream : Disk → FilePath → Stream
unfolding parent_to_create
open_stream disk path =
    let opens = disk.openable (parent_to_create disk path) path in
    record {
      contents = [];
      good = opens;
      is_open = opens;
      capacity = disk.capacity;
      flushes = disk.flushes;
    }

-- The output may be opened: it is new or may be overwritten, and it opens.
abbrev pub CanOpen : Disk → FilePath → Bool → Type 0
CanOpen disk output overwrite =
    (disk.exists output && not overwrite ≡ false)
    × (disk.openable (parent_to_create disk output) output ≡ true)
