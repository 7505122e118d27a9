-- ===== src/Lib.antt =====
-- A verification library for a small 32-bit operating system: its FAT32 driver with the directory
-- listings and content searches, its paging, its processes and its scheduler, its screen, keyboard and
-- clock, its descriptor tables, its interrupts and system calls, and parts of its shell.
--
-- The driver (src/fat32.c) keeps one `driver_state`: the allocation map and a directory table as
-- buffers of the disk. Its requests come from the shell through system calls and from process
-- creation. The searches walk the directories with the driver's `read`. Process creation
-- (src/process.c) takes a page directory from src/paging.c and reads the executable with the driver.
-- All of them are reached by interrupts: `main_interrupt_handler` (src/interrupt.c) hands a key to the
-- keyboard, a tick to the scheduler, and a system call to the part that serves it. The shell
-- (src/user-shell.c) is a user program that lives on these calls.
--
-- Files and the code they model:
--   Prelude          shared names, Boolean tests, slices of lists, the C integers
--   Bytes            src/stdlib/string.c on lists of bytes
--   Search           the two string searches of src/fat32.c; Search/Match says what an occurrence is
--   Fat32/Disk       blocks and clusters: src/external-inserter.c and src/fat32.c
--   Fat32/Layout     the packed structures of src/header/filesystem/fat32.h as bytes
--   Fat32/Driver     `driver_state`, requests, loading and storing of tables and of the map
--   Fat32/Directory  the operations on directories that move and look up
--   Fat32/Files      `read`, `write` and `delete`
--   Fat32/Format     creating and loading the file system
--   Traverse         listings, the path search and the content searches of src/fat32.c
--   Paging           src/paging.c
--   Process          src/process.c
--   Scheduler        src/scheduler.c
--   Clock            `read_rtc` of src/clock.c; Clock/Calendar counts the hours of the calendar
--   Decimal          numbers as text: `int_to_str` of src/process.c, `str_to_int` of src/user-shell.c
--   Framebuffer      src/framebuffer.c and `scroll_up`; Framebuffer/Paper is what a user expects to see
--   Keyboard         src/keyboard.c
--   Interrupt        src/interrupt.c; Interrupt/Steps has the machines that interrupts lead to
--   Descriptors      src/gdt.c and src/idt.c
--   Shell            `cd`, paths and the text functions of src/user-shell.c; Shell/Resolve has where
--                    a path leads to
--   Examples and the files whose names end so   concrete states
--
-- State is passed explicitly: `driver_state` and the disk are the record DriverState, the statics of
-- paging are the record Paging, those of processes the record Kernel, and all that an interrupt may
-- change the record Machine. A disk is a function from block address to block. A `uint32_t` is a
-- natural number with its wrap-around written out.
--
-- Memory: what a pointer of a system call points to stands beside the registers, and what is written
-- through it is the call's reply. The kernel does not check these pointers. Interrupt/Steps therefore
-- lets each call change the machine further than its reply says, and asks of these changes that they
-- do not reach the process list, its counters and the paging. The bytes behind the literal "root",
-- which its 8-byte copy reads, are the argument Behind. The content of a file is read into a list that
-- holds whole clusters; the C buffers of the searches have only the file's size, and what the read
-- writes past their end is not modelled. Otherwise an operation that would index an array of its own
-- out of range, or follow a chain that does not end, has the result `none`: `cd` on a long argument, on
-- a full prompt or on a prompt without a slash, resolving a path too long for its buffer, and a
-- creation without a free slot, whose read has succeeded.
--
-- Bounds: a chain is followed for 512 clusters, the size of the map, since a chain without a cycle is
-- no longer. The content searches recurse on 11 levels, which is the bound in the code. The
-- Boyer-Moore search makes at most one round for each position of the text, and a prefix of length k
-- falls back at most k times. The 32-bit numbers have at most 10 digits. A path has fewer slashes than
-- characters, so the loop over it ends. The clock is read until two readings agree, which need not
-- happen; its fuel is the number of readings. The loop that scrolls has the row as its fuel, since each
-- round lowers it.
--
-- Not modelled: the ATA driver, port input and output, the hardware cursor, the PICs and the boot code,
-- which are device access or assembly; the scheduler's timer and its jump into a process, for the same
-- reason; the user's memory, beyond what the pointers of a call point to; the shell's file commands and
-- its input loop.
pub mod Prelude
pub mod Bytes
pub mod Search
pub mod Fat32
pub mod Traverse
pub mod WriteExamples
pub mod SearchExamples
pub mod Paging
pub mod Process
pub mod Scheduler
pub mod Clock
pub mod Decimal
pub mod Framebuffer
pub mod Keyboard
pub mod Interrupt
pub mod Descriptors
pub mod Shell
pub mod Examples
pub mod KernelExamples
pub mod SystemExamples
pub mod InterruptExamples
pub mod ShellExamples
