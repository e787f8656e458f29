-- ===== src/UserProgram/Syscalls/Delivers.antt =====
-- What `SC_READ` of userprog/exception.cc leaves in the memory of the program, from an open file.
use so_ii.Base.{
  ℕ, ◌+◌, ◌-◌, ◌%◌, ◌^◌, ◌<◌, ◌==◌, ◌≡◌, ◌≢◌, refl, sym, ap, ◌∙◌, false, List, length, get_or, set,
  min, ok, write_at-set, arith,
}
use mathlib.Core.Path.{subst}
use so_ii.FileHeader.{FileHeader}
use so_ii.FileSystem.{OpenFile}
use so_ii.Mmu.{Mmu}
use so_ii.Mmu.Translate.{frame}
use so_ii.OpenFile.{seek}
use so_ii.OpenFile.Sectors.{IsFile, byte_in}
use so_ii.Processor.{Machine, Handlers, num_total_regs, write_register}
use so_ii.UserProgram.Transfer.{write_buffer_from, write_buffer_to_user}
use so_ii.UserProgram.Stores.{IsWritable, write_buffer_from-Stores}
use so_ii.UserProgram.Syscalls.{Kernel, sys_read}
use so_ii.UserProgram.Syscalls.Transfers.{Asks, with_file, sys_read-byte_in}

-- The number of bytes that a read gives.
abbrev pub available : OpenFile → ℕ → ℕ
available file size = min size (file.header.num_bytes - file.seek_position)

pub record Delivers (handlers : Handlers) (garbage : ℕ → ℕ) (fresh : FileHeader) (s : Kernel)
    (size file_id : ℕ) (file : OpenFile) (place : ℕ → ℕ) : Type 0 where
  pub after : Mmu
  pub runs :
      sys_read handlers garbage fresh s
      ≡ ok (
          with_file s file_id
            (seek file (file.seek_position + available file size))
            (record s.machine { registers = set s.machine.registers 2 0; mmu = after }))
  pub frames : (vpn : ℕ) → frame after vpn ≡ frame s.machine.mmu vpn
  pub bytes_in :
      (k : ℕ)
      → k < available file size
      → get_or after.main_memory (place k) 0
        ≡ byte_in file.header s.sectors (file.seek_position + k) % 256
  pub others :
      (q : ℕ)
      → ((k : ℕ) → k < available file size → place k ≢ q)
      → get_or after.main_memory q 0 ≡ get_or s.machine.mmu.main_memory q 0

module _ (handlers : Handlers) (m : Machine) (addr : ℕ) (bytes : List ℕ) (place : ℕ → ℕ)
    (address : 0 < addr) (some : 0 < length bytes) where
  write_buffer_to_user-write_buffer_from :
      write_buffer_to_user handlers m bytes addr (length bytes)
      ≡ write_buffer_from handlers (length bytes) m addr bytes
  unfolding write_buffer_to_user
  write_buffer_to_user-write_buffer_from = rw (not_null, not_empty) refl
    where
      not_null : (addr == 0) ≡ false
      not_null = ground (arith, address)

      not_empty : (length bytes == 0) ≡ false
      not_empty = ground (arith, some)

result_run :
    (m : Machine)
    → length m.registers ≡ num_total_regs
    → write_register m 2 0 ≡ ok (record m { registers = set m.registers 2 0 })
unfolding write_register
result_run m full = rw (write_at-set m.registers 2 0 (omega (arith, full))) refl

-- `SC_READ` of an open file that is not at its end, into a buffer of the program whose addresses can
-- be written and lie at different places of the memory, for as many bytes as were asked for but no
-- more than the file has: it trips no assertion, puts these bytes of the file at the places of the
-- buffer, cut to 8 bits, and changes no other byte of the memory and no translation; it moves the
-- file on by their number, and puts 0 in register 2, and not their number. The position and the
-- number that was asked for do not add up to more than an `unsigned`.
pub sys_read-Delivers :
    (handlers : Handlers) (garbage : ℕ → ℕ) (fresh : FileHeader) (s : Kernel)
    (buffer_addr size file_id : ℕ) (file : OpenFile) (place : ℕ → ℕ)
    → Asks s buffer_addr size file_id file
    → IsFile file.header s.sectors
    → file.seek_position < file.header.num_bytes
    → file.seek_position + size < 2 ^ 32
    → IsWritable s.machine.mmu buffer_addr (available file size) place
    → length s.machine.registers ≡ num_total_regs
    → Delivers handlers garbage fresh s size file_id file place
sys_read-Delivers handlers garbage fresh s buffer_addr size file_id file place asks is_file within
      no_wrap writable full =
    let (bytes, count, each, run) =
      sys_read-byte_in handlers garbage fresh s buffer_addr size file_id file asks is_file within
        no_wrap in
    let some : 0 < length bytes = omega (arith, count, asks.some_bytes, within) in
    let stores =
      write_buffer_from-Stores handlers bytes s.machine buffer_addr place
        (subst (λ n. IsWritable s.machine.mmu buffer_addr n place) (sym count) writable) in
    let m : Machine = record s.machine { mmu = stores.after } in
    record {
      after = stores.after;
      runs =
          run
          ∙ rw
              (
                write_buffer_to_user-write_buffer_from handlers s.machine buffer_addr bytes place
                    asks.not_null some,
                stores.runs,
                result_run m full,
              )
              (ap
                (λ n. ok (
                  with_file s file_id (seek file (file.seek_position + n))
                    (record m { registers = set s.machine.registers 2 0 })))
                count);
      frames = stores.frames;
      bytes_in = λ k less.
          stores.bytes_in k (omega (arith, count, less))
          ∙ ap (λ b. b % 256) (each k (omega (arith, count, less)));
      others = λ q apart. stores.others q (λ k less. apart k (omega (arith, count, less)));
    }
