-- ===== src/UserProgram/Transfer.antt =====
-- userprog/transfer.cc: buffers and strings that the kernel reads from the memory of a user program and
-- writes to it. A buffer is the list of its bytes.
use so_ii.Base.{
  ℕ, zero, suc, ◌%◌, ◌^◌, ◌==◌, Bool, true, false, not, ◌&&◌, Option, none, some, List, [], ◌∷◌,
  ltb, if◌then◌else◌, Run, ok, fault, assertion, out_of_bounds, ◌>>=◌, ◌>>◌, assert,
}
use so_ii.Mmu.{sign_extend}
use so_ii.Processor
use so_ii.Processor.{Machine, Handlers}
use so_ii.Processor.Words.{add32}

-- The assertions around `ReadMem` and `WriteMem`.
abbrev pub read_checked : Machine × Option ℕ → Run (Machine × ℕ)
read_checked (m, none) = fault assertion
read_checked (m, some temp) = ok (m, temp % 2 ^ 8)

abbrev pub write_checked : Machine × Bool → Run Machine
write_checked (m, false) = fault assertion
write_checked (m, true) = ok m

-- Neither '\0' nor '\n'.
abbrev pub check_end_string : ℕ → Bool
check_end_string out_string = not (out_string == 0) && not (out_string == 10)

module _ (handlers : Handlers) where
  abbrev pub read_byte : Machine → ℕ → Run (Machine × ℕ)
  read_byte m user_address = Processor.read_mem handlers m user_address 1 >>= read_checked

  -- A `char` is passed on as an `int`.
  abbrev pub write_byte : Machine → ℕ → ℕ → Run Machine
  write_byte m user_address byte =
      Processor.write_mem handlers m user_address 1 (sign_extend byte) >>= write_checked

  -- The loop of `ReadBufferFromUser`, with the rounds that are left.
  unfoldable pub read_buffer_from : ℕ → Machine → ℕ → Run (Machine × List ℕ)
  read_buffer_from zero m user_address = ok (m, [])
  read_buffer_from (suc rounds) m user_address = do
    (m₁, byte) ← read_byte m user_address
    (m₂, bytes) ← read_buffer_from rounds m₁ (add32 user_address 1)
    ok (m₂, byte ∷ bytes)

  unfoldable pub read_buffer_from_user : Machine → ℕ → ℕ → Run (Machine × List ℕ)
  read_buffer_from_user m user_address byte_count = do
    assert (not (user_address == 0))
    assert (not (byte_count == 0))
    read_buffer_from byte_count m user_address

  -- The loop of `ReadStringFromUser`; the result says whether the last byte ends a string.
  unfoldable pub read_string_from : ℕ → Machine → ℕ → Run (Machine × List ℕ × Bool)
  read_string_from zero m user_address = ok (m, [], false)
  read_string_from (suc rounds) m user_address =
      let rest = read_string_from rounds in
      do
        (m₁, byte) ← read_byte m user_address
        let more : Run (Machine × List ℕ × Bool) = (do
          (m₂, bytes, ended) ← rest m₁ (add32 user_address 1)
          ok (m₂, byte ∷ bytes, ended))
        if check_end_string byte && ltb 0 rounds
            then more
            else ok (m₁, byte ∷ [], not (check_end_string byte))

  unfoldable pub read_string_from_user : Machine → ℕ → ℕ → Run (Machine × List ℕ × Bool)
  read_string_from_user m user_address max_byte_count = do
    assert (not (user_address == 0))
    assert (not (max_byte_count == 0))
    read_string_from max_byte_count m user_address

  -- The loop of `WriteBufferToUser`, over what is left of the buffer.
  unfoldable pub write_buffer_from : ℕ → Machine → ℕ → List ℕ → Run Machine
  write_buffer_from zero m user_address buffer = ok m
  write_buffer_from (suc rounds) m user_address [] = fault out_of_bounds
  write_buffer_from (suc rounds) m user_address (byte ∷ bytes) = do
    m₁ ← write_byte m user_address byte
    write_buffer_from rounds m₁ (add32 user_address 1) bytes

  unfoldable pub write_buffer_to_user : Machine → List ℕ → ℕ → ℕ → Run Machine
  write_buffer_to_user m buffer user_address byte_count = do
    assert (not (user_address == 0))
    assert (not (byte_count == 0))
    write_buffer_from byte_count m user_address buffer

  -- The loop of `WriteStringToUser`: the test is on the byte after the one that was written.
  abbrev pub is_last : List ℕ → Run Bool
  is_last [] = fault out_of_bounds
  is_last (byte ∷ bytes) = ok (byte == 0)

  unfoldable pub write_string_from : Machine → ℕ → List ℕ → Run Machine
  write_string_from m user_address [] = fault out_of_bounds
  write_string_from m user_address (byte ∷ bytes) =
      let rest : Machine → Run Machine = λ m₁. write_string_from m₁ (add32 user_address 1) bytes in
      do m₁ ← write_byte m user_address byte; last ← is_last bytes; if last then ok m₁ else rest m₁

  -- A null pointer is `none`.
  abbrev pub write_unless_null : Machine → Option (List ℕ) → ℕ → Run Machine
  write_unless_null m none user_address = ok m
  write_unless_null m (some string) user_address = write_string_from m user_address string

  unfoldable pub write_string_to_user : Machine → Option (List ℕ) → ℕ → Run Machine
  write_string_to_user m string user_address = do
    assert (not (user_address == 0))
    write_unless_null m string user_address
