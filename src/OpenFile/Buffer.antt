-- ===== src/OpenFile/Buffer.antt =====
-- The buffer of `WriteAt` of filesys/open_file.cc, before it is written back.
use so_ii.Base.{
  ℕ, ◌+◌, ◌-◌, ◌*◌, ◌/◌, ◌%◌, ◌^◌, ◌≤◌, ◌<◌, ◌==◌, ◌≡◌, ◌⊎◌, refl, ap, ◌∙◌, Bool, true, false, not,
  ◌&&◌, ◌||◌, Bool-cases, inl, inr, List, length, get_or, ltb, if◌then◌else◌, ok, arith,
}
use so_ii.Base.Memory.{
  memcpy, new_buffer, length-new_buffer, bytes_at, Copies, memcpy-Copies, Reads, bytes_at-Reads,
  is_within,
}
use so_ii.FileHeader.{FileHeader, sector_size}
use so_ii.OpenFile.{last_sector_of, read_part}
use so_ii.OpenFile.Sectors.{byte_in, IsFile}
use so_ii.OpenFile.Read.{read_at-Gets}

-- What is in the buffer after a read of a sector that is asked for, or not.
record Prepares (garbage : ℕ → ℕ) (h : FileHeader) (disk : List (List ℕ)) (asked : Bool)
    (sector i : ℕ) (buf : List ℕ) : Type 0 where
  after : List ℕ
  runs : read_part garbage h disk asked sector i buf ≡ ok after
  same_length : length after ≡ length buf
  bytes_in :
      (k : ℕ)
      → asked ≡ true
      → k < sector_size
      → sector * sector_size + k < h.num_bytes
      → get_or after (i + k) 0 ≡ byte_in h disk (sector * sector_size + k)
  kept : (k : ℕ) → (k < i) ⊎ (asked ≡ false) → get_or after k 0 ≡ get_or buf k 0

from_zero : (k : ℕ) → k ≡ 0 + k
from_zero k = omega arith

split_sum : (k m : ℕ) → m ≤ k → k ≡ m + (k - m)
split_sum k m h = omega arith

within_here : (i n k : ℕ) → k < n → is_within i n (i + k) ≡ true
within_here i n k less = ground arith

below : (i n k : ℕ) → (k < i) ⊎ (true ≡ false) → is_within i n k ≡ false
below i n k (inl less) = ground arith
below i n k (inr e) = absurd (ground arith)

-- The two tests for a partial sector.
abbrev pub is_first_partial : ℕ → Bool
is_first_partial position = not (position == position / sector_size * sector_size)

abbrev pub is_last_partial : ℕ → ℕ → Bool
is_last_partial n position =
    let last = last_sector_of position n in
    not ((position + n) % 2 ^ 32 == (last + 1) * sector_size % 2 ^ 32)
    && (not (position / sector_size == last) || position == position / sector_size * sector_size)

-- What the bytes of the file are to become.
abbrev pub byte_after : FileHeader → List (List ℕ) → List ℕ → (n position p : ℕ) → ℕ
byte_after h disk from n position p =
    if is_within position n p then get_or from (p - position) 0 else byte_in h disk p

module _ (garbage : ℕ → ℕ) (h : FileHeader) (disk : List (List ℕ)) (file : IsFile h disk) where
  read_part-Prepares :
      (asked : Bool) (sector i : ℕ) (buf : List ℕ)
      → sector < h.num_sectors
      → i + sector_size ≤ length buf
      → Prepares garbage h disk asked sector i buf
  read_part-Prepares false sector i buf less room = record {
    after = buf;
    runs = refl;
    same_length = refl;
    bytes_in = λ k e. absurd (ground (arith, e));
    kept = λ k e. refl;
  }
  read_part-Prepares true sector i buf less room =
      let g =
        read_at-Gets garbage h disk file sector_size (sector * sector_size) (omega arith)
          (omega (arith, file.few)) in
      let c = memcpy-Copies buf i g.bytes (omega (arith, g.count)) in
      record {
        after = c.after;
        runs = rw (g.runs, c.runs) refl;
        same_length = c.same_length;
        bytes_in = λ k e small inside.
            c.bytes_in (i + k)
            ∙ rw (within_here i (length g.bytes) k (omega (arith, g.count))) (
                ap (λ q. get_or g.bytes q 0) (omega arith) ∙ g.bytes_in k (omega (arith, g.count)));
        kept = λ k e. c.bytes_in k ∙ rw (below i (length g.bytes) k e) refl;
      }

  module _ (n position : ℕ) (buf : List ℕ)
      (p₁ : Prepares garbage h disk (is_first_partial position) (position / sector_size) 0 buf)
      (p₂ : Prepares garbage h disk
        (is_last_partial n position)
        (last_sector_of position n)
        ((last_sector_of position n - position / sector_size) * sector_size)
        p₁.after) where
    -- A byte of the first sector that only the first read has put in.
    from_first :
        (k : ℕ)
        → is_first_partial position ≡ true
        → k < sector_size
        → position / sector_size * sector_size + k < h.num_bytes
        → (k < (last_sector_of position n - position / sector_size) * sector_size)
          ⊎ (is_last_partial n position ≡ false)
        → get_or p₂.after k 0 ≡ byte_in h disk (position / sector_size * sector_size + k)
    from_first k partial less within untouched =
        p₂.kept k untouched
        ∙ ap (λ q. get_or p₁.after q 0) (from_zero k)
        ∙ p₁.bytes_in k partial less within

    -- A byte of the last sector.
    from_last :
        (k : ℕ)
        → is_last_partial n position ≡ true
        → (last_sector_of position n - position / sector_size) * sector_size ≤ k
        → k < (last_sector_of position n - position / sector_size) * sector_size + sector_size
        → position / sector_size ≤ last_sector_of position n
        → position / sector_size * sector_size + k < h.num_bytes
        → get_or p₂.after k 0 ≡ byte_in h disk (position / sector_size * sector_size + k)
    from_last k partial above less order within =
        let before = (last_sector_of position n - position / sector_size) * sector_size in
        ap (λ q. get_or p₂.after q 0) (split_sum k before above)
        ∙ p₂.bytes_in (k - before) partial (omega arith) (omega arith)
        ∙ ap (byte_in h disk) (omega arith)

    -- A byte that is not to be written.
    untouched :
        (k : ℕ)
        → 0 < n
        → position + n ≤ h.num_bytes
        → h.num_bytes ≤ 30 * sector_size
        → k < (1 + last_sector_of position n - position / sector_size) * sector_size
        → position / sector_size * sector_size + k < h.num_bytes
        → is_within (position - position / sector_size * sector_size) n k ≡ false
        → get_or p₂.after k 0 ≡ byte_in h disk (position / sector_size * sector_size + k)
    untouched k some inside small less within outside =
        elim (Bool-cases (ltb k (position - position / sector_size * sector_size))) [
          | inl before ↦ from_first k (ground arith) (ground arith) within (ground arith)
          | inr after ↦ elim (Bool-cases (is_last_partial n position)) [
            | inl partial ↦ from_last k partial (ground arith) (ground arith) (omega arith) within
            | inr whole ↦ from_first k (ground arith) (ground arith) within (inr whole)
          ]
        ]

  -- The copy of the new bytes into the buffer.
  module _ (from : List ℕ) (n position : ℕ) (buf₂ : List ℕ) (r : Reads n from 0)
      (c : Copies buf₂ (position - position / sector_size * sector_size) r.bytes) where
    copied :
        (k : ℕ)
        → (is_within (position - position / sector_size * sector_size) n k ≡ false
            → get_or buf₂ k 0 ≡ byte_in h disk (position / sector_size * sector_size + k))
        → get_or c.after k 0
          ≡ byte_after h disk from n position (position / sector_size * sector_size + k)
    copied k old =
        elim (Bool-cases (is_within (position - position / sector_size * sector_size) n k)) [
          | inl new ↦
              c.bytes_in k
              ∙ rw (r.same_length, new, same_test new)
                  (r.bytes_in (k - (position - position / sector_size * sector_size)) (ground arith)
                    ∙ ap (λ q. get_or from q 0) (ground arith))
          | inr kept ↦ c.bytes_in k ∙ rw (r.same_length, kept, other_test kept) (old kept)
        ]
      where
        same_test :
            is_within (position - position / sector_size * sector_size) n k ≡ true
            → is_within position n (position / sector_size * sector_size + k) ≡ true
        same_test e = ground arith

        other_test :
            is_within (position - position / sector_size * sector_size) n k ≡ false
            → is_within position n (position / sector_size * sector_size + k) ≡ false
        other_test e = ground arith

  -- The buffer that is written back holds what the bytes of its sectors are to become, as far as the
  -- file goes.
  pub record Buffered (from : List ℕ) (n position : ℕ) : Type 0 where
    pub buf₁ : List ℕ
    pub buf₂ : List ℕ
    pub bytes : List ℕ
    pub buf₃ : List ℕ
    pub runs₁ :
        read_part garbage h disk (is_first_partial position) (position / sector_size) 0 (
          new_buffer garbage
            ((1 + last_sector_of position n - position / sector_size) * sector_size))
        ≡ ok buf₁
    pub runs₂ :
        read_part garbage h disk
          (is_last_partial n position)
          (last_sector_of position n)
          ((last_sector_of position n - position / sector_size) * sector_size)
          buf₁
        ≡ ok buf₂
    pub runs : bytes_at n from 0 ≡ ok bytes
    pub runs₃ : memcpy buf₂ (position - position / sector_size * sector_size) bytes ≡ ok buf₃
    pub same_length :
        length buf₃ ≡ (1 + last_sector_of position n - position / sector_size) * sector_size
    pub bytes_in :
        (k : ℕ)
        → k < length buf₃
        → position / sector_size * sector_size + k < h.num_bytes
        → get_or buf₃ k 0
          ≡ byte_after h disk from n position (position / sector_size * sector_size + k)

  pub buffered :
      (from : List ℕ) (n position : ℕ)
      → 0 < n
      → n ≤ length from
      → position + n ≤ h.num_bytes
      → Buffered from n position
  buffered from n position some have inside =
      let first = position / sector_size in
      let last = last_sector_of position n in
      let size = (1 + last - first) * sector_size in
      let full = length-new_buffer garbage size in
      let small : h.num_bytes ≤ 30 * sector_size = omega (arith, file.enough, file.few) in
      let p₁ =
        read_part-Prepares (is_first_partial position) first 0 (new_buffer garbage size)
          (omega (arith, file.enough)) (omega (arith, full)) in
      let p₂ =
        read_part-Prepares (is_last_partial n position) last ((last - first) * sector_size) p₁.after
          (omega (arith, file.enough)) (omega (arith, full, p₁.same_length)) in
      let r = bytes_at-Reads n from 0 (omega arith) in
      let c =
        memcpy-Copies p₂.after (position - first * sector_size) r.bytes
          (omega (arith, full, p₁.same_length, p₂.same_length, r.same_length)) in
      record {
        buf₁ = p₁.after;
        buf₂ = p₂.after;
        bytes = r.bytes;
        buf₃ = c.after;
        runs₁ = p₁.runs;
        runs₂ = p₂.runs;
        runs = r.runs;
        runs₃ = c.runs;
        same_length = omega (arith, c.same_length, p₂.same_length, p₁.same_length, full);
        bytes_in = λ k less within. copied from n position p₂.after r c k (
            untouched n position (new_buffer garbage size) p₁ p₂ k some inside small
              (omega (arith, less, c.same_length, p₂.same_length, p₁.same_length, full)) within);
      }
