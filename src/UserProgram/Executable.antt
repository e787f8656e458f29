-- ===== src/UserProgram/Executable.antt =====
-- userprog/executable.cc and bin/noff.h: the header of a program's file, and its blocks. The host is
-- little-endian, so that `WordToHost` of machine/endianness.cc is the identity.
use so_ii.Base.{
  ℕ, ◌+◌, ◌*◌, ◌%◌, ◌^◌, ◌==◌, Bool, not, ◌&&◌, List, ltb, if◌then◌else◌, Run, ok, ◌>>=◌, ◌>>◌,
  assert, get_or,
}
use so_ii.Base.Memory.{memcpy, new_buffer}
use so_ii.FileSystem.{OpenFile}
use so_ii.OpenFile.{read_at}

pub record NoffSegment : Type 0 where
  pub virtual_addr : ℕ
  pub in_file_addr : ℕ
  pub size : ℕ

pub record NoffHeader : Type 0 where
  pub noff_magic : ℕ
  pub code : NoffSegment
  pub init_data : NoffSegment
  pub uninit_data : NoffSegment

pub record Executable : Type 0 where
  pub file : OpenFile
  pub header : NoffHeader

abbrev pub noff_magic_number : ℕ
noff_magic_number = 12246957

abbrev pub sizeof_header : ℕ
sizeof_header = 40

-- The word at an index of some bytes, which are given by a function.
unfoldable pub word_at : (ℕ → ℕ) → ℕ → ℕ
word_at raw i = raw i + 256 * raw (i + 1) + 65536 * raw (i + 2) + 16777216 * raw (i + 3)

abbrev pub segment_at : (ℕ → ℕ) → ℕ → NoffSegment
segment_at raw i = record {
  virtual_addr = word_at raw i;
  in_file_addr = word_at raw (i + 4);
  size = word_at raw (i + 8);
}

abbrev pub header_of : (ℕ → ℕ) → NoffHeader
header_of raw = record {
  noff_magic = word_at raw 0;
  code = segment_at raw 4;
  init_data = segment_at raw 16;
  uninit_data = segment_at raw 28;
}

abbrev pub word_to_host : ℕ → ℕ
word_to_host word = word

abbrev pub swap_segment : NoffSegment → NoffSegment
swap_segment s = record {
  size = word_to_host s.size;
  virtual_addr = word_to_host s.virtual_addr;
  in_file_addr = word_to_host s.in_file_addr;
}

abbrev pub swap_header : NoffHeader → NoffHeader
swap_header h = record {
  noff_magic = word_to_host h.noff_magic;
  code = swap_segment h.code;
  init_data = swap_segment h.init_data;
  uninit_data = swap_segment h.uninit_data;
}

abbrev pub check_magic : Executable → Executable × Bool
check_magic exe =
    let is_foreign =
      not (exe.header.noff_magic == noff_magic_number)
      && word_to_host exe.header.noff_magic == noff_magic_number in
    let exe' = if is_foreign then record exe { header = swap_header exe.header } else exe in
    (exe', exe'.header.noff_magic == noff_magic_number)

abbrev pub get_size : Executable → ℕ
get_size exe =
    (exe.header.code.size + exe.header.init_data.size + exe.header.uninit_data.size) % 2 ^ 32

-- What is read from the disk; new memory holds what is in `garbage`.
module _ (garbage : ℕ → ℕ) (disk : List (List ℕ)) where
  unfoldable pub new_executable : OpenFile → Run Executable
  new_executable new_file = do
    (_, bytes) ← read_at garbage new_file.header disk sizeof_header 0
    raw ← memcpy (new_buffer garbage sizeof_header) 0 bytes
    ok (record { file = new_file; header = header_of (λ i. get_or raw i 0) })

  -- `ReadCodeBlock` and `ReadDataBlock`, with the bytes that they put into `dest`.
  abbrev pub read_block : OpenFile → NoffSegment → ℕ → ℕ → Run (ℕ × List ℕ)
  read_block file segment size offset = do
    assert (not (size == 0))
    assert (ltb offset segment.size)
    read_at garbage file.header disk size ((segment.in_file_addr + offset) % 2 ^ 32)

  abbrev pub read_code_block : Executable → ℕ → ℕ → Run (ℕ × List ℕ)
  read_code_block exe size offset = read_block exe.file exe.header.code size offset

  abbrev pub read_data_block : Executable → ℕ → ℕ → Run (ℕ × List ℕ)
  read_data_block exe size offset = read_block exe.file exe.header.init_data size offset
