-- ===== src/OpenFile/Write.antt =====
-- `WriteAt` of filesys/open_file.cc.
use so_ii.Base.{
  ℕ, ◌+◌, ◌-◌, ◌*◌, ◌/◌, ◌%◌, ◌^◌, ◌≤◌, ◌<◌, ◌≡◌, ◌≢◌, refl, ap, ◌∙◌, true, false, Bool-cases, inl,
  inr, List, length, get_or, min, ltb, leb, ok, arith,
}
use so_ii.Base.Memory.{is_within}
use so_ii.FileHeader.{FileHeader, sector_size, file_length}
use so_ii.OpenFile.{cut, last_sector_of, write_at_unchecked, write_at}
use so_ii.OpenFile.Sectors.{
  byte_in, sector_of, sector_in, IsFile, Stores, write_sectors-Stores, buffer_size_lem,
}
use so_ii.OpenFile.Buffer.{byte_after, buffered}

-- What `WriteAt` does: it puts as many of the bytes into the file as the file has room for from the
-- position on, but no more than it is given, changes no other byte of the file and no other sector.
pub record Puts (garbage : ℕ → ℕ) (h : FileHeader) (disk : List (List ℕ)) (from : List ℕ)
    (num_bytes position : ℕ) : Type 0 where
  pub after : List (List ℕ)
  pub runs :
      write_at garbage h disk from num_bytes position
      ≡ ok (min num_bytes (h.num_bytes - position), after)
  pub file : IsFile h after
  pub bytes_in :
      (p : ℕ)
      → p < h.num_bytes
      → byte_in h after p
        ≡ byte_after h disk from (min num_bytes (h.num_bytes - position)) position p
  pub others :
      (s : ℕ)
      → ((i : ℕ) → i < h.num_sectors → sector_of h i ≢ s)
      → sector_in after s ≡ sector_in disk s

module _ (garbage : ℕ → ℕ) (h : FileHeader) (disk : List (List ℕ)) (file : IsFile h disk) where
  -- After the sectors of the buffer are written, each byte of the file is what it is to become.
  written :
      (from buf : List ℕ) (n position rounds p : ℕ)
      → 0 < n
      → position + n ≤ h.num_bytes
      → h.num_bytes ≤ 30 * sector_size
      → rounds ≡ 1 + last_sector_of position n - position / sector_size
      → (s : Stores rounds (position / sector_size) (position / sector_size) h disk buf)
      → ((k : ℕ)
          → k < rounds * sector_size
          → position / sector_size * sector_size + k < h.num_bytes
          → get_or buf k 0
            ≡ byte_after h disk from n position (position / sector_size * sector_size + k))
      → p < h.num_bytes
      → byte_in h s.after p ≡ byte_after h disk from n position p
  written from buf n position rounds p some inside small e s filled less =
      elim (Bool-cases (is_within (position / sector_size) rounds (p / sector_size))) [
        | inl there ↦
            s.bytes_in (p / sector_size) (p % sector_size) (ground arith) (ground arith)
              (omega arith)
            ∙ filled ((p / sector_size - position / sector_size) * sector_size + p % sector_size)
                (ground arith) (ground arith)
            ∙ ap (byte_after h disk from n position) (ground arith)
        | inr other ↦
            ap (λ xs. get_or xs (p % sector_size) 0)
              (s.others (sector_of h (p / sector_size)) (λ j above below same.
                apart j above below other (
                  file.distinct j (p / sector_size) (omega (arith, file.enough))
                    (omega (arith, file.enough)) same)))
            ∙ rw (outside other) refl
      ]
    where
      apart :
          (j : ℕ)
          → position / sector_size ≤ j
          → j < position / sector_size + rounds
          → is_within (position / sector_size) rounds (p / sector_size) ≡ false
          → j ≡ p / sector_size
          → ⊥
      apart j above below other same = ground arith

      outside :
          is_within (position / sector_size) rounds (p / sector_size) ≡ false
          → is_within position n p ≡ false
      outside other = ground arith

  unchecked :
      (from : List ℕ) (n position : ℕ)
      → 0 < n
      → n ≤ length from
      → position + n ≤ h.num_bytes
      → (after : List (List ℕ)) × (write_at_unchecked garbage h disk from n position
          ≡ ok (n, after))
        × IsFile h after
        × ((p : ℕ) → p < h.num_bytes → byte_in h after p ≡ byte_after h disk from n position p)
        × ((s : ℕ)
            → ((i : ℕ) → i < h.num_sectors → sector_of h i ≢ s)
            → sector_in after s ≡ sector_in disk s)
  unfolding write_at_unchecked
  unchecked from n position some have inside =
      let first = position / sector_size in
      let rounds = 1 + last_sector_of position n - first in
      let small : h.num_bytes ≤ 30 * sector_size = omega (arith, file.enough, file.few) in
      let b = buffered garbage h disk file from n position some have inside in
      let s =
        write_sectors-Stores rounds first first h disk b.buf₃ file (omega arith)
          (omega (arith, file.enough)) (omega (arith, b.same_length)) in
      (
        s.after,
        rw
            (
              buffer_size_lem first (last_sector_of position n) (omega arith) (omega arith),
              b.runs₁,
              b.runs₂,
              b.runs,
              b.runs₃,
              s.runs,
            )
            refl,
        s.file,
        λ p less.
            written from b.buf₃ n position rounds p some inside small refl s
              (λ k k_less within. b.bytes_in k (omega (arith, b.same_length, k_less)) within) less,
        λ t apart. s.others t (λ j above below. apart j (omega (arith, file.enough))),
      )

  -- `WriteAt` of some bytes, all of which are in the caller's buffer, to a file whose sectors are
  -- there, are different and are enough, where the position and the number do not add up to more
  -- than an `unsigned`, trips no assertion: it puts the bytes into the file from the position on, as
  -- many as were given but no more than the file has room for, and changes no other byte of the
  -- file and no sector of another one.
  pub write_at-Puts :
      (from : List ℕ) (n position : ℕ)
      → 0 < n
      → n ≤ length from
      → position + n < 2 ^ 32
      → Puts garbage h disk from n position
  unfolding write_at file_length
  write_at-Puts from n position some have no_wrap = elim (Bool-cases (leb h.num_bytes position)) [
    | inl past ↦ record {
      after = disk;
      runs = rw (asked n some, past) (ap (λ k. ok (k, disk)) (ground arith));
      file = file;
      bytes_in = λ p less. ground arith;
      others = λ s apart. refl;
    }
    | inr within ↦
        let (after, run, file', bytes_in, others) =
          unchecked from (cut h.num_bytes position n) position (ground arith) (ground arith)
            (ground arith) in
        let same : cut h.num_bytes position n ≡ min n (h.num_bytes - position) = ground arith in
        record {
          after = after;
          runs = rw (asked n some, within) (run ∙ ap (λ k. ok (k, after)) same);
          file = file';
          bytes_in = λ p less. bytes_in p less ∙ ap (λ k. byte_after h disk from k position p) same;
          others = others;
        }
  ]
    where
      asked : (k : ℕ) → 0 < k → ltb 0 k ≡ true
      asked k h = ground arith
