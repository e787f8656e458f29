-- ===== src/UserProgram/Syscalls/Errors.antt =====
-- `SC_WRITE` of userprog/exception.cc with a string that is longer than its buffer.
use so_ii.Base.{
  inl, inr, Bool-cases, ℕ, zero, suc, ◌+◌, ◌^◌, ◌≤◌, ◌<◌, ◌==◌, ◌≡◌, refl, Bool, true, false, ◌||◌,
  List, [], ◌∷◌, length, length-set, set, ltb, ok, fault, out_of_bounds, write_at, write_at-set,
  arith,
}
use so_ii.Base.Memory.{memcpy, new_buffer, length-new_buffer}
use so_ii.FileHeader.{FileHeader}
use so_ii.Processor.{Machine, Handlers, read_register}
use so_ii.UserProgram.Transfer.{read_string_from_user}
use so_ii.UserProgram.Syscalls.{Kernel, sys_write}

write_at-outside :
    (buffer : List ℕ) (i byte : ℕ)
    → length buffer ≤ i
    → write_at buffer i byte ≡ fault out_of_bounds
write_at-outside [] i byte h = refl
write_at-outside (x ∷ buffer) zero byte h = absurd (omega arith)
write_at-outside (x ∷ buffer) (suc i) byte h =
    rw (write_at-outside buffer i byte (omega arith)) refl

-- A copy that does not fit leaves the buffer.
memcpy-outside :
    (buffer : List ℕ) (i : ℕ) (bytes : List ℕ)
    → i ≤ length buffer
    → length buffer < i + length bytes
    → memcpy buffer i bytes ≡ fault out_of_bounds
unfolding memcpy
memcpy-outside buffer i [] h k = absurd (omega arith)
memcpy-outside buffer i (byte ∷ bytes) h k = elim (Bool-cases (ltb i (length buffer))) [
  | inl inside ↦ rw (write_at-set buffer i byte (ground arith)) (
      memcpy-outside (set buffer i byte) (i + 1) bytes (ground (arith, length-set buffer i byte))
        (omega (arith, length-set buffer i byte)))
  | inr past ↦ rw (write_at-outside buffer i byte (ground arith)) refl
]

module _ (handlers : Handlers) (garbage : ℕ → ℕ) (fresh : FileHeader) where
  -- In a call of `SC_WRITE` with an address other than null and a positive size: if
  -- `ReadStringFromUser`, with its limit of 100 bytes, reads more bytes of the program's string than
  -- that size, whether the string ends in them or not, the kernel writes past the end of its buffer.
  pub sys_write_overruns :
      (s : Kernel) (buffer_addr size file_id : ℕ) (m : Machine) (bytes : List ℕ) (ended : Bool)
      → read_register s.machine 4 ≡ ok buffer_addr
      → read_register s.machine 5 ≡ ok size
      → read_register s.machine 6 ≡ ok file_id
      → 0 < buffer_addr
      → 0 < size
      → size < 2 ^ 31
      → read_string_from_user handlers s.machine buffer_addr 100 ≡ ok (m, bytes, ended)
      → size < length bytes
      → sys_write handlers garbage fresh s ≡ fault out_of_bounds
  unfolding sys_write
  sys_write_overruns s buffer_addr size file_id m bytes ended first second third address some_bytes
        is_int string long =
      rw
        (
          first,
          second,
          third,
          size_test is_int,
          no_error address some_bytes,
          string,
          memcpy-outside (new_buffer garbage size) 0 bytes (omega arith)
              (omega (arith, length-new_buffer garbage size)),
        )
        refl
    where
      size_test : size < 2 ^ 31 → ltb size (2 ^ 31) ≡ true
      size_test h = ground arith

      no_error : 0 < buffer_addr → 0 < size → (buffer_addr == 0 || size == 0) ≡ false
      no_error h k = ground arith
