-- ===== src/Lib.antt =====
-- A model of the Horizon microkernel, a kernel for 32-bit x86 in C, and theorems about it.
--
-- The kernel keeps a control block for each process, with the blocks of its threads and an array of
-- messages. The scheduler links the blocks of the active threads into a circular list and switches
-- between them on the timer's interrupt. Threads send messages to ports, 32-bit names with version
-- numbers; each thread has a queue of them, a list through its process's array. Slots, PIDs and
-- pages are handed out by bitmaps and by stacks of bitmaps.
--
-- Files and sources (paths from the repository's root):
--   Util/Addr      kernel/util/addr.h: addr_align, addr_align_next, addr_to_index, index_to_addr
--   Util/Bitmap    kernel/util/bitmap.h and bitmap.c: bitmap_set to bitmap_find_and_set
--   Util/Bmstack   kernel/util/bmstack.h and bmstack.c: bmstack_init to bmstack_find_and_set
--   State          kernel/core/multitask/thread.h and process.h, kernel/core/ipc/message.h, and the
--                  static variables: State/Data holds the records, State/Monad the commands
--   Multitask/Table      process_get and thread_get of kernel/core/multitask
--   Multitask/Task       kernel/arch/i586/sw/task.c: task_switch, task_preserve
--   Multitask/Scheduler  kernel/core/multitask/scheduler.c: scheduler_add to timer_tick
--   Ipc/Port       kernel/core/ipc/port.c: port_from_uid, port_to_uid, port_compare
--   Ipc/Message    kernel/core/ipc/message.c: message_add, message_remove, message_peek,
--                  message_find
--   Multitask/Thread     kernel/core/multitask/thread.c: thread_kill
--   System/Control       kernel/core/system/control: syscall_wait, syscall_yield
--   System/Message       kernel/core/system/message: internal_ksend, syscall_peek
--   System/Process       kernel/core/system/process: syscall_release
--   Virtual/Physical     kernel/core/memory/physical.c: physical_alloc to physical_release
--   Virtual/Paging       kernel/arch/i586/sw/paging.c: paging_map, paging_unmap, paging_mapping_get,
--                  paging_is_mapped; Paging/Dir has paging_dir_create and paging_dir_destroy
--   Virtual/Region       kernel/core/memory/region.c: region_init to region_idmap_invalidate
--   Virtual/Range        kernel/core/memory/virtual.c: virtual_map, virtual_unmap,
--                  virtual_is_mapped, virtual_share
--   Libh/Memory    lib/libh/src/string: memcpy, memmove, memset, memcmp
--   Libh/Text      lib/libh/src/string: strlen to strncpy
--   Libh/Malloc    lib/libh/src/malloc: malloc, free, realloc
--   Libh/Format    lib/libh/src/stdio/vprintf.c, with the macros of ctype.h
--   User/Fat       user/fatfs-all/fat.c: fat_read and what it calls
--   User/Vfs       user/vfsd-all: node.c, and mount_add and file_open of main.c
--   Tests          a small kernel, and the theorems on it
-- The folder of a file holds the lemmas about it, in files named for what they prove. Prelude holds
-- the lists, the bits of a machine word and the outcomes that the others share.
--
-- How the code is read. A function that changes the state is a command, a function from the kernel
-- state to an outcome: a value with the new state, a halt, where a dassert fails (the kernel is
-- built with _DEBUG, so a dassert halts), or a fault, where the null pointer is dereferenced.
-- Pointers to control blocks are their indices or none; memory behind an array is part of the
-- array's function, so that reads past the end are seen. Words have 32 bits, and arithmetic on them
-- wraps as written. A uint16_t or int16_t is its bit pattern. The bit fields of a UID and of a
-- port are quotients and remainders of the raw value.
--
-- A page directory or table is a page of entries; the kernel reads and writes it through the window
-- of paging_map_temp, so that each theorem also says that the window was at the right page. The window
-- moves by writes to two entries in a table of the kernel; the fields `frame` of these two are kept apart
-- from the pages, so that the theorems leave the two pages of the window themselves aside.
--
-- Bounds and fuel. A loop of the kernel that can go on for ever in C is that of message_find: it runs
-- on fuel, gives none when that is used up, and 1026 rounds are enough while the queues are lists of
-- slots, of which a process has 1024. In the library, the search for the end of a text needs one round
-- more than the text has chars, malloc one more than the heap has blocks, and vprintf one more than
-- the format has chars. fat_read needs one round more than there are bytes to read, and the search for
-- a cluster one more than the offset. The other loops count down the number of rounds that they have
-- left; a number of 32 bits has at most 32 digits. A loop over a range of pages needs one round more
-- than the range has pages, and the search along a path one more than the path has components.
--
-- Not modelled: virtual_alloc of kernel/core/memory/virtual.c, the TLB, the creation of
-- threads and processes, the other system calls, services, interrupt controllers and other devices,
-- boot code, the stubs of the system calls, and the other programs in user mode. The kernel runs one
-- processor with interrupts off, so every command is atomic.
pub mod Prelude
pub mod Util
pub mod State
pub mod Multitask
pub mod Ipc
pub mod System
pub mod Libh
pub mod User
pub mod Virtual
pub mod Tests
