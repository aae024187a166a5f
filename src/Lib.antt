-- ===== src/Lib.antt =====
-- HVOS, a kernel for x86-64 in C: its components, modelled from the source, and what makes them
-- correct.
--
-- Parts and files. Paths are from the root of the repository; `src/kernel` holds the kernel.
-- - Common: the words of 8 to 64 bits as numbers with their wrap-around written out, arrays as
--   lists, loops over a range, and Boolean tests.
-- - Mem.Bitmap: src/kernel/mem/bitmap.c, one bit for each page frame, set where it is in use.
-- - Mem.Pmm: src/kernel/mem/pmm.c, the allocator of page frames over that bitmap. `pmm_alloc`,
--   `pmm_alloc_n`, `pmm_free` and `pmm_init` have the names of the source; the state is the
--   record `Pmm` of the three globals. An address is a number, 0 for NULL.
-- - Mem.Boot: `init_bitmap` of src/kernel/mem/mem.c, which sets the same bitmap up at boot.
-- - Mem.Paging: page tables, `map_page` and `create_new_pml4` of src/kernel/mem/mem.c. Tables come
--   from the frame allocator. Walk says what the processor finds for an address, with the rights
--   that all four levels give.
-- - Mem.Heap: src/kernel/mem/kmalloc.c and heap.c, the heap over the frame allocator and `map_page`.
--   Chain says that blocks lie one behind the other, Cut is the search and the cut of a block.
-- - Mem.Pages: `sys_alloc_pages` of src/kernel/syscall.c, over the frame allocator and `map_page`.
-- - Mem.User: the check that system calls make of the addresses they are passed.
-- - Fs.Ramfs: src/kernel/fs/ramfs.c, the bytes of a file in memory, as `read` and `write` see them.
-- - Intr.Gdt, Intr.Idt: src/kernel/gdt.c, src/kernel/intr/idt.c and intr.c, the descriptors of segments and
--   interrupts, which the processor reads; handlers are addresses given as arguments.
-- - Sched: src/kernel/multitasking/scheduler.c and algorithm/cfs.c, the scheduler of one core. `Cpu`
--   is `cpu_task_list_t` with the store of threads and what a switch writes. Pick is the choice of
--   the next thread, Dispatch the switch, Events the calls in any order, Sleep the sleeping queue,
--   Notify the thread that a wake-up chooses.
-- - Acpi: src/kernel/acpi.c, the walks over the table of cores and interrupts; mapping goes by
--   Mem.Paging.
-- - Sync: src/sync.c, the spin lock and the lock that holds back interrupts, as steps of any number of
--   cores on one word. Exclusion has the invariant of the word.
-- - Fs.Path: the paths of src/kernel/fs/vfs.c. Parts has a path's components, Split its division.
-- - Fs.Vfs: the rest of vfs.c with the directories of ramfs.c, as a tree of entries and inodes in a
--   store. Nodes (Tree, Same) says what a path leads to, Lookup and Create are the calls, Grow is a new
--   child, Calls the calls in any order, with Opened for what was created.
-- - Fs.Tar: src/kernel/fs/tar.c, the boot archive, which is unpacked by way of Fs.Vfs and Fs.Ramfs.
-- - Elf: src/kernel/elf.c, the loading of a program: its pages come from the frame allocator, are mapped
--   by `map_page`, and their bytes stand in `Machine`. Page, Segment and Image follow the loops, Space is the
--   new top table, Load the whole. Start is `create_elf_process`, which adds the stacks and the process.
-- - Linked: src/kernel/data/list.c, over a store of nodes. Chain says what a list is, Change and Remove
--   are the operations that write, Search the ones that read.
-- - Proc: src/kernel/multitasking/process.c and thread.c with `sys_exit` and `sys_waitpid`, over Sched.
--   Core has what the scheduler keeps, Exit an exit, Steps starts, waits and exits in any order.
-- - Fs.Descriptors: `sys_open` of src/kernel/syscall.c, over `vfs_lookup`, and in Io `sys_read` and
--   `sys_write`, over Fs.Ramfs and Drivers.Console.
-- - Drivers.Video: src/video.c, the console on the frame buffer. Pixels is about rectangles, Bounds
--   about writes outside of the frame buffer, Console about characters.
-- - Drivers.Keyboard: src/kernel/drivers/keyboard.c, the handler of the keyboard's interrupt and
--   the ring of characters that the console reads.
-- - Drivers.Console: src/kernel/drivers/console.c, the console as a file over Keyboard, Video and Sched.
--   Readers is about threads that read while keys are typed, Wakes about what one read leaves behind.
-- - Time.Rtc: src/kernel/time/rtc.c, the clock chip and the conversion of dates.
-- The files named Examples hold witnesses and tests.
--
-- Fuel. The rounds of `pmm_alloc_n` are an argument, as nothing in the source bounds its inner loop,
-- and so is what lies behind the bitmap; its theorem says how many rounds are enough. The doubling
-- of a file's buffer takes as many rounds as bytes are wanted, as each adds at least one.
-- `vfs_lookup` takes as many rounds as the path has characters and one more, as each token takes a
-- character off; `ramfs_from_tar` one for each 512 bytes of the archive and one more;
-- `acpi_parse_apic` one for each byte of the table. The walks along a list take as many rounds as it
-- counts nodes, and one more.
--
-- `schedule` returns at once where its second argument is 1, and `kernel_yield` does not set that
-- argument, so it is an argument of each step here.
--
-- Not modelled: printing, large pages, the assembly stubs, the wait for the clock's update flag, the
-- flush of the translation cache, and the locks around each operation, which is one step here. The
-- boot loader's memory map, the byte of the keyboard port and the clock's registers are arguments.
pub mod Acpi
pub mod Common
pub mod Drivers
pub mod Elf
pub mod Fs
pub mod Intr
pub mod Linked
pub mod Mem
pub mod Proc
pub mod Sched
pub mod Sync
pub mod Time
