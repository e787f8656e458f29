-- ===== src/Disk/Examples.antt =====
-- Examples of requests.
use so_ii.Base.{◌+◌, ◌*◌, ◌≤◌, ◌<◌, true, false, [], arith}
use so_ii.Disk.{Disk, rotation_time, seek_time, compute_latency}
use so_ii.Disk.Latency.{compute_latency-bounds}

abbrev disk : Disk
disk = record { sectors = []; last_sector = 40; buffer_init = 1500; active = false }

compute_latency-bounds_example :
    (rotation_time ≤ compute_latency 12345 disk 100 true)
    × (compute_latency 12345 disk 100 true
        < 31 * seek_time + rotation_time + 31 * rotation_time + rotation_time)
compute_latency-bounds_example =
    compute_latency-bounds 12345 disk 100 true (omega arith) (omega arith)
