-- ===== src/Lib.antt =====
-- Verification of the Nachos operating system of this repository (nachos-unr22a/code).
--
-- Nachos is a teaching kernel over a simulated machine. Its file system keeps a bitmap of free
-- sectors, a directory of names and one header per file on a simulated disk; user programs reach
-- the memory of the machine through a page table or a TLB; lists and tables carry the kernel's
-- queues and open files; a simulator
-- of a MIPS processor runs the programs. The parts that are modelled, each with the code that it is about:
--
--   Base        shared names, numbers and bits, lists, and the outcome of C++ code (`Run`):
--               a value, a failed ASSERT (lib/assert.cc), an access outside of an array, or another
--               operation that C++ leaves undefined; code that is `Safe` has none of the accesses
--   CString     the string functions of C that the directory and the check of the disk call
--   Bitmap      lib/bitmap.cc, and the divisions of lib/utility.hh
--   LinkedList  lib/list.hh
--   Table       lib/table.hh
--   FileHeader  filesys/file_header.cc
--   Directory   filesys/directory.cc
--   FileSystem  filesys/file_system.cc: formatting, Create, Open and Remove; the check of the disk
--               is in FileSystem/Check
--   Mmu         machine/mmu.cc
--   Processor   machine/machine.cc, machine/mips_sim.cc, machine/instruction.cc and the tables of
--               machine/encoding.cc
--   Threads     threads/scheduler.cc, and the priority of a thread from threads/thread.cc
--   Synchronization
--               threads/semaphore.cc and threads/lock.cc, with the steps of threads in Steps
--   Interrupts  machine/interrupt.cc
--   Disk        machine/disk.cc: the sectors, and the time of the requests
--   OpenFile    filesys/open_file.cc, over the transfers of sectors of filesys/synch_disk.cc
--   UserProgram userprog/transfer.cc in Transfer, and what it leaves in the memory in Stores;
--               userprog/executable.cc in Executable; userprog/address_space.cc in AddressSpace;
--               the handlers of userprog/exception.cc and the first registers of a program in
--               Exception; its system calls on files, with the open files of threads/thread.cc, in
--               Syscalls
--
-- The paths are those under nachos-unr22a/code. The functions keep their names in lower case
-- (`FindIndex` is `find_index`); a loop is a function of its own, and its name ends in `_from` or
-- says what it goes over.
--
-- State is passed on explicitly. A method takes the fields of its object and returns the new ones
-- with its result. The file system is seen through the typed contents of the disk: the bitmap and
-- the table in the two files that stay open, and the header in each sector; the bytes in which
-- they are stored are not modelled. An open file reads and writes the sectors as lists of bytes;
-- that a header lists enough sectors, all different, is `IsFile`. Fresh memory, which C++ leaves
-- unset, is an argument, so that the theorems hold whatever it contains. An `unsigned` is a
-- number; an `int` that is returned as a sector is its 32-bit pattern, with -1 as `minus_one`; the
-- keys and the size of a list are integers, without their overflow.
--
-- Loops run on the rounds that the code's own bound gives: the number of bits, of sectors or of
-- entries. The loop of `Table::Remove` has no such bound, and gets one round more than there are
-- freed indices, each of which it takes away.
--
-- The free map, directory and headers interact through `FileSystem`: `IsConsistent` says that the
-- free map marks just the sectors in use and that no sector is used twice, and the calls keep it.
--
-- The processor reaches the memory through `Mmu`, and the kernel through the handlers that the
-- kernel has registered. The handlers are a parameter of the processor; its safety is stated for
-- handlers that keep the machine well-formed; the kernel's own are in UserProgram/Exception.
-- Registers hold 32-bit patterns. Sums and shifts of
-- `int` wrap around, and a division that leaves the range of `int` is a fault, `undefined`.
--
-- A system call sees the file system through its typed contents and the files through the bytes of
-- their sectors; the console is a stream of characters and the list of those that it was sent. An
-- open file stands in the table of the thread itself, as no other pointer to it is kept.
--
-- A program is loaded from an open file: `IsProgram` says that its file has a good header and
-- blocks that fit its pages and do not overlap. The bitmap of frames, the memory and the sectors
-- are arguments.
--
-- Threads that use a lock take their steps in any order: a round of the loop of `P` and the whole of
-- `V` are one step each, since interrupts are off in them; which thread runs is left open, so that every
-- order of the scheduler is among the sequences of steps. The lending of a priority in `Acquire` is one step.
--
-- The loop of `OneTick` runs on one round more than there are interrupts due. `Schedule` is that of the
-- builds with DFS_TICKS_FIX.
--
-- Not modelled: the switch between threads, conditions and channels, the console, the timer and
-- the network of the simulated machine, the Unix file of the disk, that a request waits for the
-- disk, the arguments of user programs, the system calls Halt, Exit, Exec, Join and Ps, and all
-- that only prints.
pub mod Base
pub mod LinkedList
pub mod Table
pub mod CString
pub mod Bitmap
pub mod FileHeader
pub mod Directory
pub mod FileSystem
pub mod Mmu
pub mod Processor
pub mod Threads
pub mod Synchronization
pub mod Interrupts
pub mod Disk
pub mod OpenFile
pub mod UserProgram
