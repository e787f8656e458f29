-- ===== src/UserProgram.antt =====
-- The kernel's side of user programs, under userprog.
pub mod Transfer
pub mod Strings
pub mod Stores
pub mod Executable
pub mod AddressSpace
pub mod Exception
pub mod Kernel
pub mod Syscalls
mod Examples
