-- ===== src/Io/Stream.antt =====
-- `std::ofstream` as the writers use it: bytes are appended in order, the first failure sets the
-- stream's bad bit for good, and a failing write leaves a prefix of its bytes. The device takes
-- `capacity` bytes; `flushes` says whether the final flush succeeds.
use collapsar.Base.{
  ℕ, ◌+◌, ◌-◌, ◌≤◌, ◌≡◌, Bool, true, false, [], ◌++◌, Bytes, arith, leb, if◌then◌else◌, length,
  take, le→leb,
}

pub record Stream : Type 0 where
  pub contents : Bytes
  pub good : Bool
  pub is_open : Bool
  pub capacity : ℕ
  pub flushes : Bool

-- A stream before `open`.
abbrev pub closed_stream : Stream
closed_stream = record {
  contents = [];
  good = true;
  is_open = false;
  capacity = 0;
  flushes = false;
}

-- `write`: nothing happens on a stream that is not good.
unfoldable pub write : Bytes → Stream → Stream
write bytes s =
    if s.good
    then if leb (length s.contents + length bytes) s.capacity
      then record s { contents = s.contents ++ bytes }
      else record s {
        contents = s.contents ++ take (s.capacity - length s.contents) bytes;
        good = false;
      }
    else s

unfoldable pub flush : Stream → Stream
flush s = if s.good then record s { good = s.flushes } else s

unfoldable pub close : Stream → Stream
close s = record s { is_open = false }

-- The stream after the bytes have gone out.
abbrev pub append : Bytes → Stream → Stream
append bytes s = record s { contents = s.contents ++ bytes }

-- There is room for so many more bytes.
abbrev pub Room : ℕ → Stream → Type 0
Room n s = (s.good ≡ true) × (length s.contents + n ≤ s.capacity)

pub write-append :
    (bytes : Bytes) (s : Stream) → Room (length bytes) s → write bytes s ≡ append bytes s
unfolding write
write-append bytes s (good, fits) = ground (arith, le→leb _ _ fits)

-- A stream that has failed ignores every write.
pub write_bad : (bytes : Bytes) (s : Stream) → s.good ≡ false → write bytes s ≡ s
unfolding write
write_bad bytes s bad = ground arith

-- A flush that succeeds changes nothing.
pub flush_same : (s : Stream) → s.good ≡ true → s.flushes ≡ true → flush s ≡ s
unfolding flush
flush_same s good flushes = ground arith
