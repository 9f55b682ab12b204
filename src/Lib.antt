-- ===== src/Lib.antt =====
-- A verification library for the flan kernel, a kernel for x86-64 in C that the Limine protocol
-- boots. Paths are from the repository's root.
--
-- The parts. Every component of the kernel takes a spinlock (src/lib/lock.c). The physical memory
-- manager (src/memory/pmm.c) hands out page frames; the other allocators stand on it. The virtual
-- memory manager (src/memory/vmm.c) and the heap (src/memory/kheap.c) take frames from it; vectors
-- and the files of tmpfs live in the heap. The library (src/lib) has memory and string functions, a
-- hash map and vectors. The scheduler (src/proc/sched.c) keeps its threads in a ring. The virtual
-- file system (src/fs/vfs.c) keeps a tree of nodes, whose files tmpfs holds; the archive of the boot
-- loader (src/fs/initramfs.c) fills it, the system calls read from it, and the ELF loader
-- (src/lib/elf.c) makes pages of a program from it, for which src/proc/sched.c makes a first stack.
--
-- The files.
--   Base: shared names, Boolean tests, lists that native numbers measure (Base/Lists), what a call
--     comes to (Base/Results), machine words (Base/Words), masks (Base/Bits), `int` (Base/Int).
--   Lock: src/lib/lock.c. Lock/Spin is one core against an arbitrary lock word, Lock/Exclusion any
--     number of cores as a step relation.
--   Mem: `memset`, `memcpy` and `memcmp` of src/lib/str.c, over memory as a function from address
--     to byte. Mem/Word has words of 64 bits in it.
--   Str: the string functions of src/lib/str.c. Str/Names has paths as values, Str/Token what
--     `strtok` does in memory.
--   Hashmap: src/lib/hashmap.c. Hashmap/Chain is about one chain, Hashmap/Lookup and Hashmap/Update
--     about the table as a map, Hashmap/Remove about `hashmap_remove`.
--   Pmm: src/memory/pmm.c and the macros of src/lib/stddef.h. Pmm/Byte and Pmm/Bitmap read the
--     bitmap as a set of frames, Pmm/Malloc, Pmm/Free and Pmm/Calloc are the allocator,
--     Pmm/MemoryMap, Pmm/Highest, Pmm/Holder and Pmm/Init the start from the boot protocol's memory
--     map: its entries, the end of the highest, the one that holds the bitmap, and all together.
--   Vmm: src/memory/vmm.c, page tables of four levels in byte memory. Vmm/Index is about the index
--     at a level, Vmm/Tree says what a tree of tables is, Vmm/Descend and Vmm/Walk go down through
--     it and add tables, Vmm/Map is about mapping and unmapping.
--   Kheap: src/memory/kheap.c, the free blocks as a list. Kheap/Fit is about the allocation,
--     Kheap/Release about the merging of blocks.
--   Vector: src/lib/vector.c. Vector/Element is one item's bytes, Vector/Push and Vector/Shift are
--     the operations, Vector/Locking the early returns.
--   Tmpfs: reads and writes of src/fs/tmpfs.c.
--   Vfs: the nodes and paths of src/fs/vfs.c. Vfs/Calls is the rest of it, with the nodes of
--     src/fs/tmpfs.c and src/fs/ext2fs.c. Vfs/Paths is about how a path is taken apart, Vfs/Resolve
--     and Vfs/Stops about what it leads to, Vfs/LastName about its last name, Vfs/Create about new
--     files, Vfs/Grown and Vfs/Writes about what new entries and writes leave as it was.
--   Syscalls: src/sys/syscalls/syscalls.c and the descriptors of src/fs/vfs.c. Syscalls/Slots is
--     about the vector of open files, Syscalls/Opening about `syscall_openat`, Syscalls/Reading about
--     `syscall_seek` and `syscall_read`.
--   Sched: the run queue and the switch of src/proc/sched.c. Sched/Ring reads the links of threads
--     as a ring, Sched/Enqueue, Sched/Dequeue and Sched/Pick are the operations on it.
--   Spawn: the making of processes and threads in src/proc/sched.c. Spawn/Words is about words that
--     are put on a stack, Spawn/Strings about the loops over a program's strings, Spawn/Layout about
--     its whole first stack.
--   Stdio: `printf` of src/lib/stdio.c; Stdio/Formats is about formats and what they print.
--   Elf: src/lib/elf.c; Elf/Checks is about a program's header and what comes from it.
--   Initramfs: src/fs/initramfs.c; Initramfs/Octal is about the numbers in an archive's
--     headers.
--   Gdt: src/memory/gdt/gdt.c. Idt: src/sys/idt/idt.c.
--   Ioapic: src/dev/apic/ioapic.c, with the entries of the MADT that it reads.
--   Acpi: src/acpi/acpi.c and src/acpi/tables/madt.c; Acpi/Entries is about the MADT.
--   A file named Tests applies the results at concrete data.
--
-- Conventions. A definition has the name of the C function, and takes and answers the state that
-- the function reads and changes. `Outcome` is what a call comes to: `halt` is a failed `assert`,
-- `fault` an access that C leaves undefined. A pointer is a number, 0 the null pointer. Arithmetic
-- of 64 bits wraps as written in Base/Words. A loop is recursion on the rounds that are left. The
-- fuel of `spin` is the 10000001 attempts that the C loop makes before its `assert`; that of
-- `strlen` is what an `int` counts, and that of `strchr` ends with the address space. The fuel of
-- `kheap_alloc` is the times it may call itself, that of `next_from` the threads that the ring has,
-- that of `madt_from` the bytes of the table, that of `reduce_node` the mounts and links that it
-- follows, and that of `initramfs_init` the headers of the archive; a longer archive is `fault`.
--
-- Not modelled: inline assembly, devices, and the calls of printf in the other parts. What the boot
-- protocol answers, such as `HHDM_OFFSET` and the number of a usable entry, is an argument of what
-- uses it. `kheap_realloc` is an argument of the vectors and of
-- tmpfs; Vector/Tests gives the vectors that of Kheap. The names of nodes stand by value, where the
-- kernel keeps the pointers that it is given: what is said of paths is said of runs in which those
-- strings stay as they are. Constants of the C library's
-- headers are constructors, arguments or tests; the places of the fields of an ELF file are those
-- of the format. `invlpg`, `lidt`, `lgdt`, `ltr` and the load of `cr3` are left out;
-- `pagemap->top` is an argument where the code reads it.
pub mod Base
pub mod Lock
pub mod Mem
pub mod Str
pub mod Hashmap
pub mod Pmm
pub mod Vmm
pub mod Vector
pub mod Sched
pub mod Kheap
pub mod Tmpfs
pub mod Gdt
pub mod Idt
pub mod Ioapic
pub mod Acpi
pub mod Vfs
pub mod Syscalls
pub mod Spawn
pub mod Stdio
pub mod Elf
pub mod Initramfs
