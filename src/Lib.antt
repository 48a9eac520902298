-- ===== src/Lib.antt =====
-- RonaldinhOS: a kernel, a CPU, a memory and interfaces, four processes that simulate an operating
-- system and talk over sockets.
--
-- The parts, and the files that model them:
--
-- * Memory (memoria/src/paginacion.c). State is the page tables, the bitmap of the frames and the main
--   memory, and the searches for free frames; Allocate is pageCreate and saveInPage; Resize is resize
--   and playingGod; Access is getFrame, ocupyPhysicalAddress and leer_a_partir_de_direccion. Frames,
--   Tables, Saved, Saving, Consistent, Grown, Reduced, Resized, Outcomes, Difference, PageCount, Negative,
--   Layout, Transfer and RoundTrip hold the proofs. InstructionFile is appetiteForInstruction of
--   memoria/src/utils_memory.c, with fgets, on fuel, the bytes of the file. Server is operate of
--   memoria/src/memory.c, one request after the other, with the bytes of a file as a parameter, and Served
--   has proofs on it. The bit array of the commons library is the interface Bitarray of
--   Common/Bits, with one instance.
-- * Cpu. Tlb is cpu/src/MMU.c, with the memory's answer to a request for a frame as a parameter;
--   Registers is SET, SUM, SUB and JNZ of cpu/src/operations.c; TwoPages is the cut of four bytes over
--   two pages, and Moves MOV_IN and MOV_OUT with the messages to the memory; Names has the names of the
--   instructions and IoTexts the texts of those of the interfaces; Instructions is
--   executeOperations, every instruction of it; Cycle is executeInstrucions and the interrupts of
--   cpu/src/main.c. What surrounds the CPU, the answers of the memory and of the kernel, the clock and
--   the heap, is a parameter. Replaced, Translation, Arithmetic, Steady, Sound, Carried, Written, Rounds
--   and Interrupts hold the proofs.
-- * Kernel (kernel/src/main.c). State is the queues, the semaphores as their counts, and the resources;
--   Queues is the moves of a process between queues; Resources is WAIT, SIGNAL and liberarRecursos;
--   Steps is the answers to the CPU, to the interfaces and to the console; Events is the threads as one
--   sequence of events. Each wait of a planner thread is a step, and the state says for which semaphore it
--   waits next, since it keeps what the ones before gave it. Balanced, Released, Planned, Progress,
--   Reported, Safe, Pids, Whereabouts, OnePlace, Ended, Killed and Instances hold the proofs.
--   Console is kernel/src/interactive_console.c: every command, and scripts, on fuel for the depth to which
--   scripts call scripts; Typed holds its proofs. IoFunction is ioFunction; Delivered proves what of the
--   CPU's texts reaches an interface.
-- * Utils (utils/src/utils.c). Words is getNextWord, with its buffer of 50 bytes; Split is splitString;
--   Numbers is getValue and the decimal texts; Binary is the binary texts.
-- * Fs (entradasalida/src/utils_io.c). Blocks has fsWrite and fsRead on the mapped blocks, of a file that
--   exists, and the block counts; Bitwise follows the bits; Contents has what a file holds. Relocate is
--   canRelocate, on fuel, one more than the bits of the bitmap, and FirstFree what it finds. Files has the
--   metadata, the open files and the bitmap as one state, with fsCreate and fsDelete; Truncate is
--   fsTruncate, canRelocateAtTheEnd, realocate and compaction, with the order of list_sort and readdir
--   as a parameter. Directory is the abstract view, from names to sizes, with the three commands it
--   promises. Owned, Kept and Life hold the proofs on the bitmap, Names, Sized and Refined those on the
--   view. The pointer of a file counts bits, as there. Positions below 2^31 are meant, where `int` holds
--   them.
--
-- * Wire (utils/src/serialization.c, utils/src/utils.c, utils/src/IOFUNCTIONS.c, utils/src/pcb.c).
--   Buffer is the streams and the packages, as bytes at a socket; OpCodes the operation codes; Requests,
--   Interfaces, FsMessages and ControlBlock the messages, each with the functions of its size, its
--   writer, its reader, its sender and its receiver; Texts the packages of a text or of values. Fields,
--   Format, the files that end in Format or Formats, Messages, RoundTrip and TextsRoundTrip hold the
--   proofs. What `malloc` leaves in a stream is any memory; a read or write past a stream is `none`.
--
-- A crash, a null pointer that is read or a copy of a negative length, is `none`, or `crashes` in the
-- kernel; a thread that waits for a semaphore is `waits`. The locks make the rest of an event
-- one step; the waits of changeMultiprogramming are one step too, made when they can all end. The loops
-- of the memory over the bytes left are on fuel, one more than the bytes: each round takes a page.
-- Numbers are natural: pids, addresses and the lengths of reads and writes are not negative on the paths
-- of the servers. The size of a resize, and of a stream that is received, is the 32 bits of an `int`: from
-- 2^31 on it is below 0.
-- `ceil` of a float is exact for the sizes below 2^24. Addresses past the end of the main memory are
-- not told apart. Times of the TLB are below 2^31 microseconds, where `int` and `long` agree.
--
-- Not modelled: sockets, logs, files, the measure of time, the dispatch of
-- the requests in the interfaces, and the log of an executed instruction.
pub mod Common
pub mod Memory
pub mod Cpu
pub mod Kernel
pub mod Utils
pub mod Fs
pub mod Wire
