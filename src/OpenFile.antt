-- ===== src/OpenFile.antt =====
-- filesys/open_file.cc: reading and writing the bytes of an open file, over the sectors of the disk.
-- `ReadSector` and `WriteSector` of filesys/synch_disk.cc are the transfers of the disk; that they wait
-- for its interrupt is left out. New buffers hold what is in `garbage`.
pub mod Sectors
pub mod Read
pub mod Buffer
pub mod Write
pub mod Examples
use so_ii.Base.{
  ℕ, zero, suc, ◌+◌, ◌-◌, ◌*◌, ◌/◌, ◌%◌, ◌^◌, ◌==◌, Bool, true, false, not, ◌&&◌, ◌||◌, List, [],
  length, ltb, leb, if◌then◌else◌, Run, ok, ◌>>=◌, ◌>>◌, assert,
}
use so_ii.Base.Memory.{memcpy, bytes_at, new_buffer}
use so_ii.FileHeader.{FileHeader, sector_size, byte_to_sector, file_length}
use so_ii.FileSystem.{OpenFile}
use so_ii.Disk.{read_sector, write_sector}

abbrev pub seek : OpenFile → ℕ → OpenFile
seek f position = record f { seek_position = position }

-- The loop that reads sectors `i` and following into the buffer, with the rounds that are left.
unfoldable pub read_sectors : ℕ → ℕ → ℕ → FileHeader → List (List ℕ) → List ℕ → Run (List ℕ)
read_sectors zero i first_sector h disk buf = ok buf
read_sectors (suc rounds) i first_sector h disk buf = do
  sector ← byte_to_sector h (i * sector_size)
  bytes ← read_sector disk sector
  buf' ← memcpy buf ((i - first_sector) * sector_size) bytes
  read_sectors rounds (i + 1) first_sector h disk buf'

-- The loop that writes them.
unfoldable pub write_sectors : ℕ → ℕ → ℕ → FileHeader → List (List ℕ) → List ℕ → Run (List (List ℕ))
write_sectors zero i first_sector h disk buf = ok disk
write_sectors (suc rounds) i first_sector h disk buf = do
  sector ← byte_to_sector h (i * sector_size)
  bytes ← bytes_at sector_size buf ((i - first_sector) * sector_size)
  disk' ← write_sector disk sector bytes
  write_sectors rounds (i + 1) first_sector h disk' buf

-- The number of bytes that are transferred, for a position in the file; `unsigned` arithmetic.
abbrev pub cut : ℕ → ℕ → ℕ → ℕ
cut file_length position num_bytes =
    if ltb file_length ((position + num_bytes) % 2 ^ 32) then file_length - position else num_bytes

abbrev pub last_sector_of : ℕ → ℕ → ℕ
last_sector_of position num_bytes = (position + num_bytes + (2 ^ 32 - 1)) % 2 ^ 32 / sector_size

-- The size of the buffer for the sectors, of which there are `1 + last - first` as an `unsigned`.
abbrev pub buffer_size : ℕ → ℕ → ℕ
buffer_size first_sector last_sector =
    (1 + last_sector + (2 ^ 32 - first_sector)) % 2 ^ 32 * sector_size % 2 ^ 32

module _ (garbage : ℕ → ℕ) (h : FileHeader) (disk : List (List ℕ)) where
  -- `ReadAt`, with the bytes that it puts into its buffer.
  unfoldable pub read_at_unchecked : ℕ → ℕ → Run (ℕ × List ℕ)
  read_at_unchecked num_bytes position = do
    let first_sector = position / sector_size
    let last_sector = last_sector_of position num_bytes
    let rounds = 1 + last_sector - first_sector
    buf ←
        read_sectors rounds first_sector first_sector h disk
          (new_buffer garbage (buffer_size first_sector last_sector))
    bytes ← bytes_at num_bytes buf (position - first_sector * sector_size)
    ok (num_bytes, bytes)

  unfoldable pub read_at : ℕ → ℕ → Run (ℕ × List ℕ)
  unfolding read_at_unchecked
  read_at num_bytes position = do
    assert (ltb 0 num_bytes)
    if leb (file_length h) position
        then ok (0, [])
        else read_at_unchecked (cut (file_length h) position num_bytes) position

  -- A sector of the buffer that is to be written in part is read first.
  abbrev pub read_part : Bool → ℕ → ℕ → List ℕ → Run (List ℕ)
  read_part false sector i buf = ok buf
  read_part true sector i buf = do
    (count, bytes) ← read_at sector_size (sector * sector_size)
    memcpy buf i bytes

  unfoldable pub write_at_unchecked : List ℕ → ℕ → ℕ → Run (ℕ × List (List ℕ))
  unfolding read_at
  write_at_unchecked from num_bytes position = do
    let first_sector = position / sector_size
    let last_sector = last_sector_of position num_bytes
    let rounds = 1 + last_sector - first_sector
    let is_first_aligned = position == first_sector * sector_size
    let is_last_aligned =
        (position + num_bytes) % 2 ^ 32 == (last_sector + 1) * sector_size % 2 ^ 32
    let buf = new_buffer garbage (buffer_size first_sector last_sector)
    buf₁ ← read_part (not is_first_aligned) first_sector 0 buf
    buf₂ ←
        read_part (not is_last_aligned && (not (first_sector == last_sector) || is_first_aligned))
          last_sector ((last_sector - first_sector) * sector_size) buf₁
    bytes ← bytes_at num_bytes from 0
    buf₃ ← memcpy buf₂ (position - first_sector * sector_size) bytes
    disk' ← write_sectors rounds first_sector first_sector h disk buf₃
    ok (num_bytes, disk')

  -- `WriteAt`, with the sectors of the disk after it.
  unfoldable pub write_at : List ℕ → ℕ → ℕ → Run (ℕ × List (List ℕ))
  unfolding write_at_unchecked
  write_at from num_bytes position = do
    assert (ltb 0 num_bytes)
    if leb (file_length h) position
        then ok (0, disk)
        else write_at_unchecked from (cut (file_length h) position num_bytes) position

module _ (garbage : ℕ → ℕ) where
  unfoldable pub read : OpenFile → List (List ℕ) → ℕ → Run (OpenFile × ℕ × List ℕ)
  read f disk num_bytes = do
    assert (ltb 0 num_bytes)
    (result, bytes) ← read_at garbage f.header disk num_bytes f.seek_position
    ok (seek f ((f.seek_position + result) % 2 ^ 32), result, bytes)

  unfoldable pub write : OpenFile → List (List ℕ) → List ℕ → ℕ → Run (OpenFile × ℕ × List (List ℕ))
  write f disk into num_bytes = do
    assert (ltb 0 num_bytes)
    (result, disk') ← write_at garbage f.header disk into num_bytes f.seek_position
    ok (seek f ((f.seek_position + result) % 2 ^ 32), result, disk')
