-- ===== src/Lib.antt =====
-- BimbleOS, a 32-bit kernel for one processor: its memory management, its descriptor tables, its
-- disk reads, files, file system, strings and paths, its keyboard, its screen, its tasks and
-- processes, its interrupts and its system calls.
--
-- The parts and their files:
--   * Memory: src/memory/memory.c, which fills, compares and copies bytes. Memory is a function from
--     addresses to bytes.
--   * Heap: src/memory/heap/heap.c, a table with one byte for each block of 4096 bytes. Its tree
--     describes a table by a list of chunks, which are free blocks and allocations. Heap/Kernel is
--     src/memory/heap/kheap.c, the kernel's one heap of 100 MB, and the clearing of its memory.
--     Heap/Allocator is that heap for the parts whose state contains it.
--   * Paging: src/memory/paging/paging.c, over the page directories and tables in memory.
--     Paging/Create makes, frees and switches page directories.
--   * Disk: src/disk/disk.c and src/disk/streamer.c, a stream of bytes over sectors of 512 bytes. What
--     a read of a sector gives is a parameter; Disk/Ports has the read, over the ports of a drive, of which
--     what they do is a parameter; a read of the data port gives a word of 16 bits.
--   * Str: src/string/string.c. A C string is the list of its characters up to its 0.
--   * PathParser: src/fs/pparser.c, which uses Str, with the allocations that it makes, over the same
--     record Allocator of Heap/Allocator as File.
--   * File: src/fs/file.c, the table of descriptors, over a record for the functions of a file system
--     and over the kernel's heap, as the record Allocator of Heap/Allocator says; it opens paths that PathParser has parsed, and looks for the disk of Disk.
--   * Elf: src/loader/format/elf.c and elfloader.c, the checks of an ELF image in memory and the bounds
--     of its segments. Elf/Load is elf_load, over File and a record for the kernel's memory, which
--     Elf/Disk takes from the mounted FAT16 disk.
--   * Fat16: src/fs/fat/fat16.c, the file system that File opens: its header, directories, names, chain
--     of clusters as the code looks them up, and descriptors, over Disk's streams and the kernel's heap. Fat16/Clusters reads along
--     a chain, Fat16/Volume mounts a disk, Fat16/Items finds items and follows paths, Fat16/Files is the
--     record of functions for File. An object of the heap is a value beside the bytes of memory.
--   * Keyboard: src/keyboard/keyboard.c and src/keyboard/classic.c, with the buffer that
--     src/task/process.h puts into a process, and the list of keyboards. Keyboard/Interrupt is the handler of the
--     keyboard's interrupt, which Idt's callbacks hold, over Process/System.
--   * Common: names of the library, lists indexed by native numbers, bits, 32-bit words, and the error
--     codes of src/status.h.
--   * Gdt: src/gdt/gdt.c, the encoding of segment descriptors.
--   * Idt: src/idt/idt.c, the descriptors of interrupts, their callbacks and the table of system calls.
--     Idt/Handlers has the handlers of interrupts, of the clock and of system calls, over any state
--     that has the tasks' space as a part, as the record HasSpace says.
--   * Task: src/task/task.c, the list of tasks and the order in which they run. Task/Space is the part
--     that needs page directories and the kernel's heap: switches, new and freed tasks, and the reads
--     of a task's stack and strings under its own page directory.
--   * Process: src/task/process.c, the slots of processes, the memory that a process allocates with
--     kzalloc and maps with paging_map_to, in Process/Mapping the pages of its image and stack, and
--     in Process/Arguments the arguments it is given. Process/System is the state that processes,
--     tasks, files and the screen share; its record HasKernel finds the kernel's memory in the state
--     of the file systems. Process/Loading starts a process from a file, over File and Elf/Load;
--     Process/Ending ends one, and has the handler of exceptions of src/idt/idt.c.
--   * Isr80h: src/isr80h, the system calls, which Idt's table holds, over Process/System.
--   * Stdlib: src/programs/stdlib/src, the library of the programs: decimal texts, printf, strtok, the
--     parsing of commands and the reading of lines. Keys and allocations come from system calls, and
--     are given.
--   * Terminal: the screen of src/kernel.c. The cursor is one position in the video memory.
--
-- A function has the name it has in C. State is an argument and part of the result; a negative status
-- is an error of Common/Status, NULL is 0 or `none`. Addresses and `uint32_t` are numbers below 2 ^ 32,
-- a negative `int` is its bit pattern, and arithmetic that can wrap is add32, sub32 or mul32. A handler
-- ends in a value of Flow: its result, the registers of the task that goes on where the code jumps to
-- a task, or `halt`, for a panic and for what follows from a pointer that the code does not check.
-- What a pointer holds that the code reads before setting it is an argument `uninitialised`.
--
-- Loops run on the rounds they have left. Eight have fuel: diskstreamer_read calls itself with fewer
-- bytes left, so a fuel above the count of the bytes is enough, from any position; parse_parts takes at least a character
-- off the path in each round but the last, so the path's length and one more is enough;
-- fat16_read_internal_from_stream reads at least a byte in each round but the last, so one more than
-- the count is enough; the count of a directory's items reads 32 bytes a round, and 2 ^ 26 + 1 rounds are
-- enough for a listing that ends below position 2 ^ 31; where the endless loop of the code has
-- not ended by then, the model gives `none`; an `int` has at
-- most 10 digits, of 12 rounds; a command of at most 1024 characters has fewer words than
-- bimbleos_parse_command has rounds; disk_read_sector waits for its drive, and takes as many rounds as
-- the drive can take; and the system call that starts a command follows a list of
-- arguments that a program has linked, which can be a cycle: its rounds are an argument, and the model
-- halts where they run out.
--
-- Not modelled: the assembly files, with the loads of the registers of pages, segments and
-- descriptor tables and the jump to a task; page faults; kernel_main, which calls the other parts once,
-- and panic, an endless loop; the writes to ports, among them the acknowledgement of interrupts;
-- pathparser_free, which nothing calls; the task state segment, which the processor reads; the program library's calls of the system, and the
-- programs, endless loops over them.
pub mod Common
pub mod Disk
pub mod Elf
pub mod Fat16
pub mod File
pub mod Gdt
pub mod Heap
pub mod Idt
pub mod Isr80h
pub mod Keyboard
pub mod Memory
pub mod Paging
pub mod PathParser
pub mod Process
pub mod Stdlib
pub mod Str
pub mod Task
pub mod Terminal
