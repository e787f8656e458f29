-- ===== src/Disk.antt =====
-- machine/disk.cc: the simulated disk, whose sectors are lists of bytes, and the time that a request
-- takes. The Unix file that holds the sectors, with its magic number, is given by them.
pub mod Latency
mod Examples
use so_ii.Base.{
  ℕ, ◌+◌, ◌-◌, ◌*◌, ◌/◌, ◌%◌, ◌^◌, ◌==◌, Bool, true, false, not, ◌&&◌, List, ltb, if◌then◌else◌,
  Run, ok, ◌>>=◌, ◌>>◌, assert, read_at, write_at,
}
use so_ii.FileSystem.{num_sectors}
use so_ii.Interrupts.{Interrupt, disk_int, schedule}

abbrev pub sectors_per_track : ℕ
sectors_per_track = 32

abbrev pub rotation_time : ℕ
rotation_time = 500

abbrev pub seek_time : ℕ
seek_time = 500

-- `buffer_init` is an `int`, by its bits.
pub record Disk : Type 0 where
  pub sectors : List (List ℕ)
  pub last_sector : ℕ
  pub buffer_init : ℕ
  pub active : Bool

-- The transfers of a request.
abbrev pub read_sector : List (List ℕ) → ℕ → Run (List ℕ)
read_sector sectors sector_number = do
  assert (ltb sector_number num_sectors)
  read_at sectors sector_number

abbrev pub write_sector : List (List ℕ) → ℕ → List ℕ → Run (List (List ℕ))
write_sector sectors sector_number bytes = do
  assert (ltb sector_number num_sectors)
  write_at sectors sector_number bytes

abbrev pub diff : ℕ → ℕ → ℕ
diff a b = if ltb b a then a - b else b - a

-- The time of the seek, and then of the rotation to the start of a sector.
abbrev pub time_to_seek : ℕ → ℕ → ℕ → ℕ × ℕ
time_to_seek total_ticks last_sector new_sector =
    let seek =
      diff (new_sector / sectors_per_track) (last_sector / sectors_per_track) * seek_time in
    let over = (total_ticks + seek) % rotation_time in
    (seek, if ltb 0 over then rotation_time - over else 0)

-- `unsigned` arithmetic.
abbrev pub modulo_diff : ℕ → ℕ → ℕ
modulo_diff to from =
    (to % sectors_per_track + (2 ^ 32 - from % sectors_per_track) + sectors_per_track)
    % 2 ^ 32
    % sectors_per_track

-- An `int` from its bits, as an `unsigned long`.
unfoldable pub to_unsigned_long : ℕ → ℕ
to_unsigned_long x = if ltb x (2 ^ 31) then x else x + (2 ^ 64 - 2 ^ 32)

-- With the track buffer (no NOTRACKBUF).
unfoldable pub compute_latency : ℕ → Disk → ℕ → Bool → ℕ
compute_latency total_ticks d new_sector writing =
    let (seek, rotation) = time_to_seek total_ticks d.last_sector new_sector in
    let time_after = (total_ticks + seek + rotation) % 2 ^ 32 in
    let since = (time_after + (2 ^ 32 - d.buffer_init)) % 2 ^ 32 in
    let is_buffered =
      not writing
      && seek == 0
      && ltb (modulo_diff new_sector (to_unsigned_long d.buffer_init / rotation_time % 2 ^ 32))
          (since / rotation_time) in
    if is_buffered
    then rotation_time
    else seek
      + (rotation + modulo_diff new_sector (time_after / rotation_time) * rotation_time)
      + rotation_time

abbrev pub update_last : ℕ → Disk → ℕ → Disk
update_last total_ticks d new_sector =
    let (seek, rotate) = time_to_seek total_ticks d.last_sector new_sector in
    record d {
      buffer_init = if seek == 0 then d.buffer_init else (total_ticks + seek + rotate) % 2 ^ 32;
      last_sector = new_sector;
    }

module _ {H : Type 0} (disk_done : H) where
  -- The request ends with the interrupt that it schedules; the bytes are moved at once.
  unfoldable pub read_request : Interrupt H → Disk → ℕ → Run (Interrupt H × Disk × List ℕ)
  read_request s d sector_number = do
    let ticks = compute_latency s.stats.total_ticks d sector_number false
    assert (not d.active)
    bytes ← read_sector d.sectors sector_number
    let d' = record (update_last s.stats.total_ticks d sector_number) { active = true }
    let s' : Interrupt H = record s {
      stats = record s.stats { num_disk_reads = s.stats.num_disk_reads + 1 };
    }
    s'' ← schedule s' disk_done ticks disk_int
    ok (s'', d', bytes)

  unfoldable pub write_request : Interrupt H → Disk → ℕ → List ℕ → Run (Interrupt H × Disk)
  write_request s d sector_number bytes = do
    let ticks = compute_latency s.stats.total_ticks d sector_number true
    assert (not d.active)
    sectors ← write_sector d.sectors sector_number bytes
    let d' = record (update_last s.stats.total_ticks d sector_number) {
      active = true;
      sectors = sectors;
    }
    let s' : Interrupt H = record s {
      stats = record s.stats { num_disk_writes = s.stats.num_disk_writes + 1 };
    }
    s'' ← schedule s' disk_done ticks disk_int
    ok (s'', d')

-- `HandleInterrupt`, before it calls its handler.
abbrev pub handle_interrupt : Disk → Disk
handle_interrupt d = record d { active = false }
