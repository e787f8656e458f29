-- ===== src/OpenFile/Sectors.antt =====
-- The sectors of a file, and the loops of filesys/open_file.cc over them.
use mathlib.Core.Path.{subst}
use so_ii.Base.{
  ==_refl, Bool-cases, inl, inr, ℕ, zero, suc, ◌+◌, ◌-◌, ◌*◌, ◌/◌, ◌%◌, ◌≤◌, ◌<◌, ◌==◌, ◌≡◌, ◌≢◌,
  refl, ap, ◌∙◌, Bool, true, false, List, [], length, get_or, set, length-set, get_or-set, ltb,
  if◌then◌else◌, ok, read_at, read_at-get_or, write_at-set, arith,
}
use so_ii.Base.Memory.{memcpy-Copies, bytes_at-Reads, is_within}
use so_ii.FileHeader.{FileHeader, sector_size, num_direct, byte_to_sector}
use so_ii.FileSystem.{num_sectors}
use so_ii.Disk.{read_sector, write_sector}
use so_ii.OpenFile.{buffer_size, read_sectors, write_sectors}

abbrev pub sector_of : FileHeader → ℕ → ℕ
sector_of h i = get_or h.data_sectors i 0

abbrev pub sector_in : List (List ℕ) → ℕ → List ℕ
sector_in disk s = get_or disk s []

-- The byte of a file at a position.
abbrev pub byte_in : FileHeader → List (List ℕ) → ℕ → ℕ
byte_in h disk p = get_or (sector_in disk (sector_of h (p / sector_size))) (p % sector_size) 0

-- A disk of whole sectors, and a header whose sectors are there, are different, and are enough.
pub record IsFile (h : FileHeader) (disk : List (List ℕ)) : Type 0 where
  pub full : length disk ≡ num_sectors
  pub whole : (s : ℕ) → s < num_sectors → length (sector_in disk s) ≡ sector_size
  pub few : h.num_sectors ≤ num_direct
  pub listed : h.num_sectors ≤ length h.data_sectors
  pub enough : h.num_bytes ≤ h.num_sectors * sector_size
  pub inside : (i : ℕ) → i < h.num_sectors → sector_of h i < num_sectors
  pub distinct :
      (i j : ℕ) → i < h.num_sectors → j < h.num_sectors → sector_of h i ≡ sector_of h j → i ≡ j

div_back : (i : ℕ) → i * sector_size / sector_size ≡ i
div_back i = omega arith

inside_test : (s : ℕ) → s < num_sectors → ltb s num_sectors ≡ true
inside_test s less = ground arith

apart_test : (s t : ℕ) → s ≢ t → (s == t) ≡ false
apart_test s t apart = ground arith

same_index : (i j : ℕ) → (i == j) ≡ true → i ≡ j
same_index i j e = ground arith

if_other : (s t : ℕ) (xs ys : List ℕ) → s ≢ t → (if s == t then xs else ys) ≡ ys
if_other s t xs ys apart = rw (apart_test s t apart) refl

length_if :
    (b : Bool) (xs ys : List ℕ)
    → length (if b then xs else ys) ≡ (if b then length xs else length ys)
length_if true xs ys = refl
length_if false xs ys = refl

module _ (h : FileHeader) (disk : List (List ℕ)) (file : IsFile h disk) where
  byte_to_sector-sector_of :
      (i : ℕ) → i < h.num_sectors → byte_to_sector h (i * sector_size) ≡ ok (sector_of h i)
  unfolding byte_to_sector
  byte_to_sector-sector_of i less =
      ap (read_at h.data_sectors) (div_back i)
      ∙ read_at-get_or h.data_sectors i 0 (omega (arith, file.listed))

  read_sector-sector_in : (s : ℕ) → s < num_sectors → read_sector disk s ≡ ok (sector_in disk s)
  read_sector-sector_in s less =
      rw (inside_test s less, read_at-get_or disk s [] (omega (arith, file.full))) refl

  write_sector-set :
      (s : ℕ) (bytes : List ℕ) → s < num_sectors → write_sector disk s bytes ≡ ok (set disk s bytes)
  write_sector-set s bytes less =
      rw (inside_test s less, write_at-set disk s bytes (omega (arith, file.full))) refl

  -- A whole sector that is written leaves a disk of whole sectors.
  pub set-IsFile :
      (s : ℕ) (bytes : List ℕ)
      → s < num_sectors
      → length bytes ≡ sector_size
      → IsFile h (set disk s bytes)
  set-IsFile s bytes less size = record {
    full = length-set disk s bytes ∙ file.full;
    whole = λ t t_less. ground (
      arith,
      file.whole t t_less,
      ap (length {A = ℕ}) (get_or-set disk s t bytes [] (omega (arith, file.full))),
      length_if (s == t) bytes (sector_in disk t),
    );
    few = file.few;
    listed = file.listed;
    enough = file.enough;
    inside = file.inside;
    distinct = file.distinct;
  }

-- The bytes of a file in one of its sectors.
byte_in-sector :
    (h : FileHeader) (disk : List (List ℕ)) (first i k : ℕ)
    → first ≤ i
    → is_within ((i - first) * sector_size) sector_size k ≡ true
    → byte_in h disk (first * sector_size + k)
      ≡ get_or (sector_in disk (sector_of h i)) (k - (i - first) * sector_size) 0
byte_in-sector h disk first i k le within = rw (here, there) refl
  where
    here : (first * sector_size + k) / sector_size ≡ i
    here = ground arith

    there : (first * sector_size + k) % sector_size ≡ k - (i - first) * sector_size
    there = ground arith

-- The loop of `ReadAt` fills its part of the buffer with the bytes of the file.
pub record Fills (rounds i first : ℕ) (h : FileHeader) (disk : List (List ℕ)) (buf : List ℕ)
    : Type 0 where
  pub after : List ℕ
  pub runs : read_sectors rounds i first h disk buf ≡ ok after
  pub same_length : length after ≡ length buf
  pub bytes_in :
      (k : ℕ)
      → get_or after k 0 ≡ (
          if is_within ((i - first) * sector_size) (rounds * sector_size) k
          then byte_in h disk (first * sector_size + k)
          else get_or buf k 0)

pub read_sectors-Fills :
    (rounds i first : ℕ) (h : FileHeader) (disk : List (List ℕ)) (buf : List ℕ)
    → IsFile h disk
    → first ≤ i
    → i + rounds ≤ h.num_sectors
    → (i + rounds - first) * sector_size ≤ length buf
    → Fills rounds i first h disk buf
unfolding read_sectors
read_sectors-Fills zero i first h disk buf file le listed room = record {
  after = buf;
  runs = refl;
  same_length = refl;
  bytes_in = λ k. ground arith;
}
read_sectors-Fills (suc rounds) i first h disk buf file le listed room =
    let s = sector_of h i in
    let less : s < num_sectors = file.inside i (omega arith) in
    let size = file.whole s less in
    let c =
      memcpy-Copies buf ((i - first) * sector_size) (sector_in disk s) (omega (arith, size)) in
    let r =
      read_sectors-Fills rounds (i + 1) first h disk c.after file (omega arith) (omega arith)
        (omega (arith, c.same_length)) in
    record {
      after = r.after;
      runs =
          rw
            (
              byte_to_sector-sector_of h disk file i (omega arith),
              read_sector-sector_in h disk file s less,
              c.runs,
            )
            r.runs;
      same_length = r.same_length ∙ c.same_length;
      bytes_in =
          λ k. ground (arith, r.bytes_in k, c.bytes_in k, size, byte_in-sector h disk first i k le);
    }

-- The loop of `WriteAt` moves its part of the buffer to the sectors, and changes no other sector.
pub record Stores (rounds i first : ℕ) (h : FileHeader) (disk : List (List ℕ)) (buf : List ℕ)
    : Type 0 where
  pub after : List (List ℕ)
  pub runs : write_sectors rounds i first h disk buf ≡ ok after
  pub file : IsFile h after
  pub bytes_in :
      (j o : ℕ)
      → i ≤ j
      → j < i + rounds
      → o < sector_size
      → get_or (sector_in after (sector_of h j)) o 0 ≡ get_or buf ((j - first) * sector_size + o) 0
  pub others :
      (s : ℕ)
      → ((j : ℕ) → i ≤ j → j < i + rounds → sector_of h j ≢ s)
      → sector_in after s ≡ sector_in disk s

pub write_sectors-Stores :
    (rounds i first : ℕ) (h : FileHeader) (disk : List (List ℕ)) (buf : List ℕ)
    → IsFile h disk
    → first ≤ i
    → i + rounds ≤ h.num_sectors
    → (i + rounds - first) * sector_size ≤ length buf
    → Stores rounds i first h disk buf
unfolding write_sectors
write_sectors-Stores zero i first h disk buf file le listed room = record {
  after = disk;
  runs = refl;
  file = file;
  bytes_in = λ j o from to less. absurd (omega arith);
  others = λ s h. refl;
}
write_sectors-Stores (suc rounds) i first h disk buf file le listed room =
    let s = sector_of h i in
    let less : s < num_sectors = file.inside i (omega arith) in
    let b = bytes_at-Reads sector_size buf ((i - first) * sector_size) (omega arith) in
    let file₁ = set-IsFile h disk file s b.bytes less b.same_length in
    let r =
      write_sectors-Stores rounds (i + 1) first h (set disk s b.bytes) buf file₁ (omega arith)
        (omega arith) (omega arith) in
    record {
      after = r.after;
      runs =
          rw
            (
              byte_to_sector-sector_of h disk file i (omega arith),
              b.runs,
              write_sector-set h disk file s b.bytes less,
            )
            r.runs;
      file = r.file;
      bytes_in = λ j o from to o_less. elim (Bool-cases (i == j)) [
        | inl here ↦
            subst
              (λ j.
                get_or (sector_in r.after (sector_of h j)) o 0
                ≡ get_or buf ((j - first) * sector_size + o) 0)
              (same_index i j here)
              (ap (λ xs. get_or xs o 0) (own r.after b.bytes r.others) ∙ b.bytes_in o o_less)
        | inr later ↦ r.bytes_in j o (ground arith) (omega arith) o_less
      ];
      others = λ t apart.
          r.others t (λ j from to. apart j (omega arith) (omega arith))
          ∙ get_or-set disk s t b.bytes [] (omega (arith, file.full))
          ∙ if_other s t b.bytes (sector_in disk t) (apart i (omega arith) (omega arith));
    }
  where
    own :
        (after : List (List ℕ)) (bytes : List ℕ)
        → ((t : ℕ)
            → ((j : ℕ) → i + 1 ≤ j → j < i + 1 + rounds → sector_of h j ≢ t)
            → sector_in after t ≡ sector_in (set disk (sector_of h i) bytes) t)
        → sector_in after (sector_of h i) ≡ bytes
    own after bytes others =
        others (sector_of h i)
          (λ j from to e. omega (arith, file.distinct j i (omega arith) (omega arith) e))
        ∙ get_or-set disk (sector_of h i) (sector_of h i) bytes []
            (omega (arith, file.full, file.inside i (omega arith)))
        ∙ rw (==_refl (sector_of h i)) refl

-- The buffer has room for just the sectors from one to another.
pub buffer_size_lem :
    (first last : ℕ)
    → first ≤ last
    → last < 30
    → buffer_size first last ≡ (1 + last - first) * sector_size
buffer_size_lem first last order small = omega arith
