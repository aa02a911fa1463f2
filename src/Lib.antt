-- ===== src/Lib.antt =====
-- FrostyOS: a kernel for x86-64, and models of the parts that carry its own logic.
--
-- The kernel takes physical pages from the memory manager, keeps the open files of each process in a
-- table of descriptors, reaches files and terminals through the descriptors, runs threads from the
-- lists of a processor by nice level, and orders them by semaphores. The heap takes its memory in
-- sections, and each address space has its regions in two search trees, over lists of nodes. What is
-- modelled:
--
--   Prelude         shared names; lists measured by native numbers; 64-bit words, whose wrap-around
--                   is written out; `Outcome`, for routines with assertions and pointer loops.
--   Bitmap          kernel/lib/src/DataStructures/Bitmap.cpp: `put` is Set, `get` is Get.
--   Pmm             kernel/src/Memory/PMM.cpp with PagingUtil.cpp. The state is a record of the fields
--                   of the class and of the memory that holds the nodes of the free list. Boot has
--                   Init, Take has AllocatePage and AllocatePages, Give has FreePage and FreePages,
--                   Check has Verify. Region is the specification, a sorted list of regions; Seg and
--                   Valid say that the memory represents it; Free, Allocate, Booted and Verified relate
--                   the routines to it, Ownership speaks of single addresses, and Faults is about the
--                   two ends of FreePages that lose a page count.
--   AvlTree         kernel/lib/include/DataStructures/AVLTree.hpp over the macros of tree.h, which are
--                   FreeBSD's: the records RawTree and RawOrder have them with what they document as
--                   laws, and Assoc is an implementation by a list. Near is about FindNodeOrLower.
--   FdManager       kernel/src/fs/FDManager.cpp over Bitmap and AvlTree. Table has the invariant and
--                   Allocate, Uses the other operations, Forked has Fork.
--   FileDescriptor  kernel/src/fs/FileDescriptor.cpp. Vnodes and terminals are the record Devices.
--   Semaphore       kernel/src/Scheduling/Semaphore.cpp and Mutex.hpp. Steps has the interleavings of
--                   many threads, cut where the spinlock is given back.
--   ThreadList      kernel/src/Scheduling/ThreadList.cpp, the queue of a semaphore among others. The
--                   links lie in the threads; Chain says which list they represent, Push is about
--                   pushBack and popFront, Remove about remove, Walk and Visit about Enumerate.
--   LinkedList      kernel/lib/src/DataStructures/LinkedList.cpp over a heap of nodes: Search is about
--                   the loops that only read, Insert and Delete relate the others to a list of words.
--                   Simple and Rear have the two classes of LinkedList.hpp.
--   VmRegions       kernel/src/Memory/VMRegionAllocator.cpp over two trees of AvlTree. Pool is about the
--                   lists of free regions and the routines of LinkedList.cpp on them, Nodes about the
--                   pointers to nodes and SplitAPTNode. Take and Place have the two AllocatePages, Give
--                   has FreePages, Copy the rest. Sound says when the two trees are in step; Marks,
--                   Taken and Best are about AllocatePages, Fresh about Init, and Listed, Merge, Freed
--                   and Return about FreePages.
--   Heap            kernel/src/Memory/Heap.cpp. Take has Allocate, Give has Free, Wrappers has krealloc
--                   and the like. The headers of blocks are a function of the address, and a section
--                   has the list of its free blocks. Balance is about the counters, Fit about the
--                   search, and Order and Insert about the list.
--   HashMap         kernel/lib/include/DataStructures/HashMap.hpp, which calls the tree.
--   Elf             kernel/src/Exec/ELF.cpp: PrepareELFStack, with the list of all that it writes.
--   Futex           kernel/src/SystemCalls/Futex.cpp: the queue of an address (Waking) and the counts
--                   of references to it (Counting). Call has sys_futex, which composes them.
--   Scheduler       kernel/src/Scheduling/Scheduler.cpp. Select is the loop over the nice levels, Pick
--                   has PickNext and StealThreadFromOther, Queue has pushBack with its assertion and
--                   what makes a thread ready, Timer has TimerTick, Yield has Yield and SleepCurrentThread, Processors the lists of processors
--                   and processes. Chosen is about the loop, Conserved about PickNext, Digits and
--                   Starvation about the run counts, SeenTo, Awake and Preempt about the tick, Asleep
--                   about SleepCurrentThread.
--   Stdio           kernel/lib/src/stdio.cpp. Number prints numbers; Modes, Spec and Format are the
--                   state machine of vfprintf, Buffer is snputc and vsnprintf. Reading and RoundTrip
--                   read numbers back; an int that overflows wraps; Ends, Printed and Bounded are about the loop and the buffer.
--   Clib            kernel/lib/src/util.c, string.c and stdlib.c: Memory, Strings and Numbers have the
--                   routines, Moved is about memmove, Compared about strings, Scaled about numbers.
--   Vfs             kernel/src/fs/VFS.cpp: VFS_LookupPath, over vnodes with the Lookup of
--                   kernel/src/fs/TempFS/TempFS.cpp. Relations says where a path
--                   leads, Resolved and Paths relate the two.
--
-- The loops of Pmm walk the free list on fuel: one more than the free pages. Each node has a page at
-- least, so this is enough in a valid state, as the theorems that give a result show; running out is
-- the outcome `diverged`. The loops of LinkedList run on fuel too, one for each node, which its theorems
-- show to be enough. So do the loops over strings, one for each byte with the last, over the segments
-- of a path, and the rounds of vfprintf for one character, of which four are enough. All other loops
-- are bounded as in the source.
--
-- In Scheduler and Futex an access through a null pointer or behind an array is `assert_failed`, like a
-- failed assertion.
--
-- Not modelled: the locks inside a routine that holds them throughout; the assembly, the page tables
-- and the interrupt controllers; the switch between threads, the virtual memory manager, the contents
-- of files, the loading of ELF files, the pool of list nodes and the other system calls; the vendored
-- tree.h, which is a parameter; graphics and terminals, which are output.
pub mod Prelude
pub mod Bitmap
pub mod Pmm
pub mod Scheduler
pub mod Stdio
pub mod Clib
pub mod Vfs
pub mod AvlTree
pub mod FdManager
pub mod FileDescriptor
pub mod Semaphore
pub mod ThreadList
pub mod LinkedList
pub mod HashMap
pub mod Elf
pub mod VmRegions
pub mod Futex
pub mod Heap
