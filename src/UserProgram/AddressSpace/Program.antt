-- ===== src/UserProgram/AddressSpace/Program.antt =====
-- The file of a program, and what userprog/executable.cc reads of it.
use so_ii.Base.{
  ℕ, ◌+◌, ◌-◌, ◌*◌, ◌%◌, ◌^◌, ◌≤◌, ◌<◌, ◌≡◌, ◌⊎◌, refl, ap, ◌∙◌, true, List, [], ◌∷◌, length,
  get_or, ltb, ok, arith,
}
use so_ii.Base.Memory.{new_buffer, length-new_buffer, memcpy-Copies, is_within}
use so_ii.Bitmap.{div_round_up}
use so_ii.FileHeader.{FileHeader}
use so_ii.FileSystem.{OpenFile}
use so_ii.Mmu.{page_size}
use so_ii.OpenFile.Sectors.{IsFile, byte_in}
use so_ii.OpenFile.Read.{read_at-Gets}
use so_ii.UserProgram.Executable.{
  NoffSegment, NoffHeader, noff_magic_number, sizeof_header, word_at, header_of, new_executable,
  read_block,
}
use so_ii.UserProgram.AddressSpace.{user_stack_size}

-- The header in the bytes of a file.
abbrev pub noff_in : FileHeader → List (List ℕ) → NoffHeader
noff_in h disk = header_of (byte_in h disk)

abbrev pub pages_of : NoffHeader → ℕ
pages_of n =
    div_round_up (n.code.size + n.init_data.size + n.uninit_data.size + user_stack_size) page_size

-- A block that lies in the file, and in the pages of the program.
pub record IsBlock (h : FileHeader) (num_pages : ℕ) (segment : NoffSegment) : Type 0 where
  pub in_file : segment.in_file_addr + segment.size ≤ h.num_bytes
  pub in_pages : segment.virtual_addr + segment.size ≤ num_pages * page_size

-- A file with a good header, whose blocks are there and do not overlap in the memory.
pub record IsProgram (h : FileHeader) (disk : List (List ℕ)) : Type 0 where
  pub file : IsFile h disk
  pub long : sizeof_header ≤ h.num_bytes
  pub magic : (noff_in h disk).noff_magic ≡ noff_magic_number
  pub no_wrap :
      (noff_in h disk).code.size
        + (noff_in h disk).init_data.size
        + (noff_in h disk).uninit_data.size
        + user_stack_size
      < 2 ^ 32
  pub code : IsBlock h (pages_of (noff_in h disk)) (noff_in h disk).code
  pub init_data : IsBlock h (pages_of (noff_in h disk)) (noff_in h disk).init_data
  pub apart :
      ((noff_in h disk).code.virtual_addr + (noff_in h disk).code.size
        ≤ (noff_in h disk).init_data.virtual_addr)
      ⊎ ((noff_in h disk).init_data.virtual_addr + (noff_in h disk).init_data.size
          ≤ (noff_in h disk).code.virtual_addr)

module _ (f g : ℕ → ℕ) (agree : (k : ℕ) → k < sizeof_header → f k ≡ g k) where
  word_at-agree : (i : ℕ) → i + 4 ≤ sizeof_header → word_at f i ≡ word_at g i
  unfolding word_at
  word_at-agree i h = omega (arith, agree i, agree (i + 1), agree (i + 2), agree (i + 3))

  header_of-agree : header_of f ≡ header_of g
  header_of-agree =
      rw
        (
          word_at-agree 0 (omega arith),
          word_at-agree 4 (omega arith),
          word_at-agree 8 (omega arith),
          word_at-agree 12 (omega arith),
          word_at-agree 16 (omega arith),
          word_at-agree 20 (omega arith),
          word_at-agree 24 (omega arith),
          word_at-agree 28 (omega arith),
          word_at-agree 32 (omega arith),
          word_at-agree 36 (omega arith),
        )
        refl

one_byte : (xs : List ℕ) → length xs ≡ 1 → xs ≡ get_or xs 0 0 ∷ []
one_byte [] e = absurd (omega arith)
one_byte (x ∷ []) e = refl
one_byte (x ∷ y ∷ xs) e = absurd (omega arith)

module _ (garbage : ℕ → ℕ) (disk : List (List ℕ)) where
  -- The header of a program is read from its file.
  pub new_executable-noff_in :
      (f : OpenFile)
      → IsProgram f.header disk
      → new_executable garbage disk f ≡ ok (record { file = f; header = noff_in f.header disk })
  unfolding new_executable
  new_executable-noff_in f p =
      let g =
        read_at-Gets garbage f.header disk p.file sizeof_header 0 (omega arith) (omega arith) in
      let c =
        memcpy-Copies (new_buffer garbage sizeof_header) 0 g.bytes
          (omega (arith, g.count, length-new_buffer garbage sizeof_header)) in
      rw (g.runs, c.runs)
        (ap (λ n. ok (record { file = f; header = n }))
          (header_of-agree (λ i. get_or c.after i 0) (byte_in f.header disk)
            (λ k less.
              c.bytes_in k
              ∙ rw (copied (length g.bytes) k (omega (arith, g.count, p.long))) (
                  g.bytes_in (k - 0) (omega (arith, g.count, p.long))
                  ∙ ap (byte_in f.header disk) (omega arith)))))
    where
      copied : (n k : ℕ) → k < n → is_within 0 n k ≡ true
      copied n k h = ground arith

  -- A byte of a block is read from the file.
  pub read_block-byte_in :
      (f : OpenFile) (num_pages : ℕ) (segment : NoffSegment) (k : ℕ)
      → IsFile f.header disk
      → IsBlock f.header num_pages segment
      → k < segment.size
      → read_block garbage disk f segment 1 k
        ≡ ok (1, byte_in f.header disk (segment.in_file_addr + k) ∷ [])
  read_block-byte_in f num_pages segment k file block less =
      let small : f.header.num_bytes < 2 ^ 31 = omega (arith, file.few, file.enough) in
      let same : (segment.in_file_addr + k) % 2 ^ 32 ≡ segment.in_file_addr + k =
        omega (arith, block.in_file) in
      let g =
        read_at-Gets garbage f.header disk file 1 (segment.in_file_addr + k) (omega arith)
          (omega (arith, block.in_file)) in
      let one : length g.bytes ≡ 1 = g.count ∙ ground (arith, block.in_file) in
      rw (before less, same)
        (g.runs
          ∙ ap (λ n. ok (n, g.bytes)) one
          ∙ ap (λ xs. ok (1, xs))
              (one_byte g.bytes one
                ∙ ap (λ b. b ∷ [])
                    (g.bytes_in 0 (omega (arith, one)) ∙ ap (byte_in f.header disk) (omega arith))))
    where
      before : k < segment.size → ltb k segment.size ≡ true
      before h = ground arith
