-- ===== src/Disk/Latency.antt =====
-- The time of the requests of machine/disk.cc.
use so_ii.Base.{ℕ, ◌+◌, ◌*◌, ◌≤◌, ◌<◌, Bool, arith}
use so_ii.FileSystem.{num_sectors}
use so_ii.Disk.{Disk, rotation_time, seek_time, compute_latency}

-- The latency of a request for a sector of the disk, from a sector of the disk, is at least the time to
-- transfer a sector, so that `Schedule` takes it, and less than the times to seek past all the tracks
-- and to rotate past all the sectors of one, with the one in which the head arrives and its own.
pub compute_latency-bounds :
    (total_ticks : ℕ) (d : Disk) (new_sector : ℕ) (writing : Bool)
    → d.last_sector < num_sectors
    → new_sector < num_sectors
    → (rotation_time ≤ compute_latency total_ticks d new_sector writing)
      × (compute_latency total_ticks d new_sector writing
          < 31 * seek_time + rotation_time + 31 * rotation_time + rotation_time)
unfolding compute_latency
compute_latency-bounds total_ticks d new_sector writing h k = (ground arith, ground arith)
