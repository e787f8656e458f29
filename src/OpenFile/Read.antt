-- ===== src/OpenFile/Read.antt =====
-- `ReadAt` of filesys/open_file.cc.
use so_ii.Base.{
  ℕ, ◌+◌, ◌-◌, ◌*◌, ◌/◌, ◌^◌, ◌≤◌, ◌<◌, ◌≡◌, refl, ap, ◌∙◌, true, Bool-cases, inl, inr, List, [],
  length, get_or, min, ltb, leb, ok, arith,
}
use so_ii.Base.Memory.{new_buffer, length-new_buffer, bytes_at-Reads, is_within}
use so_ii.FileHeader.{FileHeader, sector_size, file_length}
use so_ii.OpenFile.{cut, last_sector_of, read_at_unchecked, read_at}
use so_ii.OpenFile.Sectors.{byte_in, IsFile, read_sectors-Fills, buffer_size_lem}

-- What `ReadAt` gives: as many bytes as the file has from the position on, but no more than were asked
-- for, and these are the bytes of the file.
pub record Gets (garbage : ℕ → ℕ) (h : FileHeader) (disk : List (List ℕ)) (num_bytes position : ℕ)
    : Type 0 where
  pub bytes : List ℕ
  pub runs : read_at garbage h disk num_bytes position ≡ ok (length bytes, bytes)
  pub count : length bytes ≡ min num_bytes (h.num_bytes - position)
  pub bytes_in : (j : ℕ) → j < length bytes → get_or bytes j 0 ≡ byte_in h disk (position + j)

covered :
    (n position j : ℕ)
    → 0 < n
    → j < n
    → position + n < 2 ^ 32
    → is_within
        ((position / sector_size - position / sector_size) * sector_size)
        ((1 + last_sector_of position n - position / sector_size) * sector_size)
        (position - position / sector_size * sector_size + j)
      ≡ true
covered n position j some less no_wrap = ground arith

back :
    (position j : ℕ)
    → position / sector_size * sector_size + (position - position / sector_size * sector_size + j)
      ≡ position + j
back position j = omega arith

module _ (garbage : ℕ → ℕ) (h : FileHeader) (disk : List (List ℕ)) (file : IsFile h disk) where
  unchecked :
      (n position : ℕ)
      → 0 < n
      → position + n ≤ h.num_bytes
      → position + n < 2 ^ 32
      → (bytes : List ℕ) × (read_at_unchecked garbage h disk n position ≡ ok (n, bytes))
        × (length bytes ≡ n)
        × ((j : ℕ) → j < n → get_or bytes j 0 ≡ byte_in h disk (position + j))
  unfolding read_at_unchecked
  unchecked n position some inside no_wrap =
      let first = position / sector_size in
      let rounds = 1 + last_sector_of position n - first in
      let f =
        read_sectors-Fills rounds first first h disk (new_buffer garbage (rounds * sector_size))
          file (omega arith) (omega (arith, file.enough))
          (omega (arith, length-new_buffer garbage (rounds * sector_size))) in
      let r =
        bytes_at-Reads n f.after (position - first * sector_size)
          (omega (arith, f.same_length, length-new_buffer garbage (rounds * sector_size))) in
      (
        r.bytes,
        rw
            (
              buffer_size_lem first (last_sector_of position n) (omega arith)
                  (omega (arith, file.enough, file.few)),
              f.runs,
              r.runs,
            )
            refl,
        r.same_length,
        λ j less.
            r.bytes_in j less
            ∙ f.bytes_in (position - first * sector_size + j)
            ∙ rw (covered n position j some less no_wrap) (ap (byte_in h disk) (back position j)),
      )

  -- `ReadAt` of some bytes of a file whose sectors are there and are enough, where the position and
  -- the number do not add up to more than an `unsigned`, trips no assertion: it gives the bytes of the
  -- file from the position on, as many as were asked for but no more than the file has.
  pub read_at-Gets :
      (n position : ℕ) → 0 < n → position + n < 2 ^ 32 → Gets garbage h disk n position
  unfolding read_at file_length
  read_at-Gets n position some no_wrap = elim (Bool-cases (leb h.num_bytes position)) [
    | inl past ↦ record {
      bytes = [];
      runs = rw (asked n some, past) refl;
      count = ground arith;
      bytes_in = λ j less. absurd (omega arith);
    }
    | inr within ↦
        let (bytes, run, same, each) =
          unchecked (cut h.num_bytes position n) position (ground arith) (ground arith)
            (ground arith) in
        record {
          bytes = bytes;
          runs = rw (asked n some, within, same) run;
          count = same ∙ ground arith;
          bytes_in = λ j less. each j (omega (arith, same));
        }
  ]
    where
      asked : (k : ℕ) → 0 < k → ltb 0 k ≡ true
      asked k h = ground arith
