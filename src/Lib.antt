-- ===== src/Lib.antt =====
-- GaOS (Gallium), a small x86_64 kernel in C under kernel/src: a model of its allocator of physical
-- pages and of blocks, its page tables, its task scheduler, its virtual file system with the
-- initial ramdisk and the devices, its loader of executables, its system calls on file descriptors
-- and processes, and the C library routines that these use.
--
-- The parts call one another as in the kernel. A system call (kernel/src/syscalls) finds the node
-- of a descriptor in the caller's task (kernel/src/schedulers/task/round_robin) and hands it to the
-- virtual file system (kernel/src/filesystem/vfs.c), which calls the file system behind the node,
-- such as the archive in kernel/src/filesystem/ustar.c. Memory comes from
-- kernel/src/memory/physical. All of them use kernel/src/misc/libc.c.
--
-- Base          Boolean tests on numbers, list access, integers and the bits of a word
-- Libc          kernel/src/misc/libc.c: `memcpy`, `memmove`, `memset`, `memcmp`, `strlen`, `strncmp`,
--               `strrev`, `num_to_string`, each a function of the same name on a memory from addresses
--               to bytes or on a text; Integers has `min` of libc.h, Format the formats of the printk
--               family
-- PageAllocator kernel/src/memory/physical/page_allocator.c: `Pool` is `page_allocator_pool_t`,
--               `search_pool`, `take_range` and `allocate_from` are the loops of `page_allocate`;
--               Bitmap and Search are about the bits and the loops, Pools about the invariant
-- PageTables    kernel/src/arch/x86_64/page_table_manager: entries, the step to the next layer, `map` and
--               `translate_to_physical`, Range has `map_range`; Tree has the invariant, Steps the step,
--               RoundTrip puts all together, Walks and Frame are about the addresses not mapped,
--               Pages about the low bits of an address
-- Scheduler     kernel/src/schedulers/task/round_robin: `Task`, `TaskQueue` and `Context` are the
--               structs; Queue gives the list that a queue stands for, Choice what `reschedule` runs,
--               Lookup the searches over all cores, Create a new task, which
--               Created is about, with Cores and Appended on the queues of all cores
-- BlockAllocator
--               kernel/src/memory/physical/block_allocator.c: headers by their addresses on two lists;
--               Reuse is about freeing and allocating again
-- Filesystem    kernel/src/filesystem: Vfs has the mount points and the dispatch of vfs.c, Paths its path
--               routines, Ustar the archive of ustar.c, with `ustar_dup` and
--               `ustar_close` in Copies, Node and Errors what they share
-- Syscalls      kernel/src/syscalls: `sys_open`, `sys_close`, `sys_read`, `sys_write`, `sys_lseek` and
--               the loop over descriptors of `sys_fork`, in Fork the rest of it: `walk_layer` is one of
--               its four nested loops, and in Processes `sys_exit` and `sys_waitpid`
-- Devices       kernel/src/devices/manager.c and console.c: the tree of devices by `child` and `next`,
--               `create_from` is the loop of `device_create_at`, `open_from` that of `devfs_open`; Ops has
--               the callbacks of devfs, ByType the search by type, Registry what is registered
-- Serial        kernel/src/devices/serial/uart16550/uart.c on an interface of the ports; Port has what is
--               relied on of the 16550, Crlf is about what is sent
-- Logger        kernel/src/misc/logger.c: a line of the log, which Line is about
-- Context       kernel/src/arch/x86_64/context/context.c: GS_BASE and KERNEL_GS_BASE; Refine gives the
--               processor that they stand for
-- Interrupts    kernel/src/arch/x86_64/idt/idt.c: Gates is about the vectors, Stack about the page fault
--               that grows a stack, Fatal about the other exceptions
-- Timers        kernel/src/arch/x86_64/timers/hpet.c and tsc.c on an interface of the registers; Waits is about
--               the loop that waits, HpetSleep and TscSleep about the sleeps, Calibration about `arch_tsc_init`
-- Framebuffer   kernel/src/devices/framebuffer: the cursor, the plotting of text, the device; Inside is about
--               the memory that is written
-- Acpi          kernel/src/acpi/acpi.c: the search for a table, which Search is about, and the devices
-- Elf           kernel/src/executables/elf.c: the header, which Header is about, and the pages of segments,
--               which Segments is about
-- Lock          kernel/src/lock/spinlock.c: the atomic accesses of cores as steps, Exclusion about them
-- Io            kernel/src/io/queue.c: adding a transfer, and a pass of the executor over all; Order is about
--               the list
-- Clock         kernel/src/clock: the choice of the timers, which Finest is about
--
-- Words of 64 bits are natural numbers with the wrap-around written out where a sum or difference
-- may leave the range. Memory and pointers to objects are functions from addresses, with 0 for
-- `nullptr`; a fault or a panic is a value. A section under a spinlock is one step.
--
-- Loops over a known number of rounds recurse on that number. The others have fuel: `strlen` and
-- `strrev` need one round more than the length of the text, `num_to_string` one more than the bits
-- of the value, the walk over an archive one more than its headers, `vfs_sanatise_path` one more
-- than the bytes of the path, the choice of a task one more than the tasks that it passes over, and
-- a walk over a path of devices one more than the bytes of the path, the walk over the parents of a
-- task more than its identifier when parents have lower ones, a wait for the serial port the
-- reads within which its transmitter is empty, a sleep the ticks that are worth the time asked for,
-- the loop of `sys_open` two rounds, the second on a grown table, which has a page of free slots if
-- memory behind the old one did not count as part of it.
--
-- Not modelled: what is written in assembly or talks to hardware (processor set-up, the timer of the
-- local interrupt controller), the boot protocol, tracing, and so far the
-- vector registers of a task and the task that the loader of executables starts. The callbacks of a file
-- system, what memory holds before it is cleared, what the boot loader gives, and whether an address
-- belongs to the caller are parameters.
pub mod Base
pub mod Libc
pub mod PageAllocator
pub mod PageTables
pub mod Scheduler
pub mod Filesystem
pub mod Syscalls
pub mod Lock
pub mod Io
pub mod Devices
pub mod Clock
pub mod Acpi
pub mod BlockAllocator
pub mod Context
pub mod Elf
pub mod Framebuffer
pub mod Interrupts
pub mod Logger
pub mod Serial
pub mod Timers
