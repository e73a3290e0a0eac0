-- ===== src/Lib.antt =====
-- The kernel of juntos: threads with an alarm clock, their synchronisation, and the library under
-- them, as functions on explicit state.
--
-- Parts and files.
--   threads/thread.c, threads/synch.c, devices/timer.c and threads/interrupt.c share one state, the
--   record Kernel of Threads/State: the pages that hold a struct thread (a thread is named by the
--   address of its page), ready_list, sleep_list, destruction_req, the semaphores by their address,
--   the interrupt flag and the counters. A list of threads is the list of their names. Threads/Sched
--   is thread.c's scheduler, Threads/Sleep its sleep list with timer.c's handler, Threads/Synch is
--   synch.c, Threads/Yield has yielding and exiting with do_schedule (), Threads/Create is
--   thread_create (), idle () and the code that a thread goes on with, Threads/Interrupt is
--   intr_disable () and its kin. Threads/Invariant has the well-formed states, IsValid, and the
--   scheduler's effect on them; Threads/Alarm, Threads/Timer, Threads/Semaphore and
--   Threads/RoundRobin have what the operations do, and Threads/System what holds of the threads
--   under any sequence of them.
--
-- How the code is read.
--   A function that may fail is an Option: none is a failed ASSERT, a panic, or undefined behaviour.
--   NDEBUG and USERPROG are not set. A call of schedule () returns to another thread: what the
--   caller does behind it is a Frame, pushed on the caller's stack, and run_frame of Threads/Create
--   is the code of each frame. An int64_t is an integer, and a sum that leaves its range is
--   undefined; an unsigned int wraps around. page t is some exactly where is_thread () holds of t;
--   the magic number, the overflow of a stack and the registers are left out. palloc_get_page () is
--   an argument of thread_create (). The pages of dead threads are freed where do_schedule () does
--   it, with palloc_free_page () on the state of the threads: the lock of the kernel pool, and the
--   bits of its used_map. An element that would be pushed to the lock's waiters while it stands on
--   ready_list is none, as the lists are no lists behind it. The word in front of an empty list's
--   tail is the tail's own address, sleep_tail. The counters of statistics do not wrap. No function
--   of Threads needs fuel: every loop runs over a list. A tick is taken to lie below the address of
--   sleep_list's tail, and a running tick counter not to overflow; the theorems have these as
--   hypotheses.
--
-- Lists. LinkedList is lib/kernel/list.c: LinkedList/Elem has the fields of the elements in memory and
-- the steps between them, LinkedList/Ops the operations and LinkedList/Sort those of list_sort () and
-- list_unique (), LinkedList/Chain the shape of a list in memory, IsList. A loop runs on fuel, one round
-- for each element and one for the end. The comparison is a function of the two elements, with its aux.
-- LinkedList/Spec and LinkedList/Runs have what the operations do to the sequence of the elements, with
-- Walk, Merge, Passes and Sorted between them and the sort in memory; Threads uses the sequences.
--
-- Strings. Strings is lib/string.c: Strings/Block has the functions on blocks of bytes, Strings/Str
-- those on strings, over a memory that has a byte at each address. A string's functions run on fuel,
-- one round for each character and one for the null byte; the set of strspn () and its kin has fuel of
-- its own, and so has that of strtok_r (), in Strings/Token. Strings/Defs has the strings in memory.
--
-- Bitmaps. Bitmap is lib/kernel/bitmap.c: Bitmap/Defs has the operations over 64-bit elements, Single
-- one bit, Range a range of them, Scan the searches, File bitmaps in files. A bitmap is read from outside
-- as its bits.
--
-- Pages. Pages is threads/palloc.c over the bitmaps, with the macros of include/threads/vaddr.h:
-- Pages/Defs has getting and freeing, Pages/Boot the pools made of the memory map, which is the list of
-- its entries. A pool's lock is whether it is held: a call runs to its end alone, and a lock that is
-- held is none. The loop over the pools in populate_pools () has three rounds: the kernel pool, the user
-- pool behind it, and none. The bytes of the pages are a memory as in Strings; a bitmap's own storage is
-- not part of it.
--
-- Hash tables. Hash is lib/kernel/hash.c: Hash/Defs has the operations, over buckets as the sequences of
-- their elements, Table the well-formed tables, Move and Rehash the elements that rehash () moves, Elems,
-- Laws and Remove what the operations do to the set of the elements, Iterate the iterators, Fnv the
-- hashes of bytes. An element is named by its address; hash and less are functions with their aux; what
-- malloc () answers is an argument. The loop that rounds a number of buckets down to a power of two has
-- the number itself as fuel, since each round makes it smaller; an iterator's loop has the buckets that
-- are left.
--
-- Random numbers. Random is lib/random.c, the RC4 state with the bytes that it writes to a memory as in
-- Strings.
--
-- Sorting and searching. Stdlib is lib/stdlib.c, over the elements of an array by their index: Heap and
-- Sift are heapify (), Build and Sorted sort (), Search binary_search (). A round of heapify () goes down
-- the tree, so that there are at most as many as elements, and one more; a round of binary_search ()
-- makes the range smaller. atoi () has fuel for every character.
--
-- Not modelled: the devices' port I/O, the boot code and the assembly, the console and the formatted
-- output, the page tables, the block allocator of threads/malloc.c, the interrupt queue and the file
-- system.

pub mod Bitmap
pub mod Hash
pub mod LinkedList
pub mod Pages
pub mod Prelude
pub mod Random
pub mod Stdlib
pub mod Strings
pub mod Threads
