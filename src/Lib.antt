-- ===== src/Lib.antt =====
-- FantomOS, a small kernel for the x86: memory, lists, processes, files and the screen.
--
-- A pointer is a 32-bit number, and arithmetic on it wraps at 2 ^ 32. State that the C code keeps in
-- globals is passed explicitly. What the source allocates with calloc and gives back with free
-- (Doug Lea's malloc, which the kernel carries along) is a parameter: an address, with the laws of
-- NodeHeap/Alloc. Inline assembly is modelled by the registers that it sets.
--
--   Base: native numbers, Boolean tests, words, lists, and bits of a byte (Base/Bits).
--   Memory: bytes by address; memcpy and memset of src/core/debug/Common.c.
--   Bitmap, Stack: src/core/data_structs, in byte memory. A stack refines a list, the top first.
--   Multiboot, PhysMemInit: the boot loader's tables, as lists, and the part of the start that both
--     page allocators share. The walk over an entry runs on fuel; 2 ^ 20 + 1 rounds are enough for a
--     32-bit counter that grows by a page, if it does not wrap.
--   PhysMemBitmap, PhysMemHybrid: the two page allocators of src/modules (physmem_bitmap and
--     physmem_hybrid). A panic of the kernel is a result of its own.
--   NodeHeap, LinkedList: src/modules/data_structs/LinkedList.c on a heap of nodes, where an access
--     through NULL or to a cell without a node is a fault. Searches get one round more than nodes.
--   Task, Scheduler, Process: control blocks, the queue (src/modules/processes/Scheduler_RR.c) and
--     the switch (src/modules/processes/Process.c). The loop that looks for a process to run never ends
--     if none may run; it gets as many rounds as there are processes, since a round shows each
--     process once. The timer and the switches call it; the kernel's state is a record.
--   Process/Spawn: the creation of processes in Process.c, with User_switchTo of
--     src/modules/userspace/User.c, on the virtual memory, the files and the queue together. What goes
--     into a page frame, parts of a file and registers, is noted in a list.
--   Tar, Vfs, RamDisk: src/modules/ramdisk and src/modules/vfs. The walk over an archive runs on fuel,
--     one round for each file, and a name's copy one for each byte. VFS_getFileAtIndex reads the nodes
--     of a list as devices; the lists of files that it finds there are an argument.
--   Vga: src/modules/drivers/VGA.c, with the cells of the frame buffer and the port writes.
--   Interrupts, Pic: src/modules/interrupts/IDT.c and src/core/drivers/PIC.c. The stubs of the assembly
--     code and the handlers are addresses; a dispatch is the list of what it calls and writes.
--   VirtMem: src/modules/virtmem_paging. Page frames hold 1024 entries each; VirtMem/Machine walks the
--     directory in force as the processor does, so the kernel reads and writes a directory only through
--     the window that it maps. A page fault and a panic are none; the pages that the allocator will
--     return are a list.
--   HeapMem: src/modules/heapmem_sbrk/HeapMem_SBRK.c on the virtual memory.
--   Gdt, Rtc, Keyboard, Serial, Ps2, Pit: segments, clock, keys and the other ports. What a device shows
--     is a sequence, one item for each read; waiting loops end with it or with their own limit.
--   Debug: src/core/debug/Debug.c. A conversion gets 32 rounds, enough for 32 bits in base 2.
--   Syscall: src/modules/userspace/Syscall.c with the wrappers of src/ramdisk/libs/syscall.c, over a
--     kernel whose functions are a parameter. A `char` is signed, as the compiler for this machine has
--     it; where a program holds one it is a byte.
--   UserLib, Shell: src/ramdisk/libs/string.c and stdio.c, and src/ramdisk/apps/shell.c. The searches of
--     strings get more rounds than characters.
--   Kernel: src/core/boot/Kernel.c, over the start of each module.
--
-- Each component's module holds its definitions, its child modules what is proved of them, and the
-- child Examples runs of the theorems at concrete states.
--
-- Not modelled: the copy of a file's record, the wait for a key, the handlers
-- of faults, which print and panic, the flush of translations, and the endless loops of the programs.
-- malloc.c is another project's allocator. src/packages holds a second copy of the same code.
pub mod Base
pub mod Memory
pub mod Bitmap
pub mod Stack
pub mod Multiboot
pub mod PhysMemBitmap
pub mod PhysMemInit
pub mod PhysMemHybrid
pub mod NodeHeap
pub mod LinkedList
pub mod Task
pub mod Scheduler
pub mod Process
pub mod Tar
pub mod Vfs
pub mod RamDisk
pub mod Vga
pub mod Pic
pub mod Interrupts
pub mod Gdt
pub mod Rtc
pub mod Keyboard
pub mod Serial
pub mod Ps2
pub mod Pit
pub mod VirtMem
pub mod Debug
pub mod Syscall
pub mod UserLib
pub mod Kernel
pub mod HeapMem
pub mod Shell
