-- ===== src/Lib.antt =====
-- A verification library for the exercises in operating systems of this repository.
--
-- The programs stand by themselves. Six are modelled.
--
-- hw5/mem.c, a heap allocator (Allocator, with its parts below it):
--   Allocator/State: `Node` is `struct A_Block`, `Head` the struct at `global_head`, `Globals` the global
--     variables and the heap, which gives for each address the header that is read there. A command takes
--     the globals and is done, faults (an access through NULL or outside the region) or runs out of fuel.
--   Allocator/Blocks: `round_to`, `get_block_size`, `get_real_block_size`, `get_header`, `is_valid_addr`.
--   Allocator/Init: `Mem_Init` and `Mem_delete_all`. The length that is mapped depends on one of three
--     macros (`Estimate`). What `mmap`, `munmap` and `getpagesize` return are arguments.
--   Allocator/Alloc: `Mem_Alloc`, cut into its search (`choose`), the placing (`place`) and the last
--     statements (`hand_out`). Allocator/Coalesce: `my_coalesce`, `coalesce_all`. Allocator/Free: `Mem_Free`.
--   Allocator/Facts: lemmas about the operations, one at a time.
--   Allocator/Arena: a region as requests alone make it, blocks one behind another below a free block at
--     the top. Its children follow such a region through `Mem_Init` (Start), the search (Choose), the
--     placing (Grant), a request (Step), a list of requests (Session) and a release (Release); Layout
--     says that its blocks are apart.
--   Allocator/Cached and Allocator/Merging: the cached blocks, and merging.
--   Allocator/Once: series of calls of `Mem_Init`. Allocator/Twice: a block that is freed twice.
--   Allocator/Runs and Allocator/CacheRuns: runs, and the theorems at concrete regions.
-- Pointers are natural numbers and NULL is 0. `long` is unbounded and `int` (the arguments of `round_to`,
-- and two locals of `Mem_Alloc`) wraps at 2 ^ 31. A fresh page is zeros. The payloads are not modelled:
-- the program never reads them, save for a pointer handed to `Mem_Free`, whose header is read from the
-- same heap. Every loop over a list has a round for each byte of the region. That is enough where the
-- headers of the list lie in the region and differ, a header having 32 bytes, and the theorems that
-- a command is done say so.
--
-- hw3/baboon39.c and hw3/baboon40.c, baboons on a rope (Baboons):
--   Baboons/Process: `fly_Baboons_Fly` as a step relation, one access to a semaphore or to shared memory
--     at a time; a load and its store are two steps. `Version` tells the two programs apart.
--   Baboons/System: `main`, any number of baboons in any order, with any directions.
--   Baboons/Crowd: sums over the processes. Baboons/Invariant: what every step keeps.
--   Baboons/Safety, Baboons/Progress, Baboons/Ending: what follows. Baboons/Runs: a concrete run.
-- The sleeps, the printing and the mapping of shared memory change nothing that is modelled.
--
-- hw6/defrag.c, a defragmenter (Defrag):
--   Defrag/Image: the buffers as functions from addresses, which count words of four bytes, the structs of
--     hw6/defrag.h by the words of their fields, and `memcpy` from the input to the output. An access
--     outside a buffer has no result.
--   Defrag/Copy: `main` from the loop over the inodes to the last `memcpy`. The loops over the blocks of
--     pointers have one shape and are one function, given what is below them. `defrag` is the whole.
--   Defrag/Blocks: one block. Defrag/Forest: the trees of blocks below a row of pointers, as the input has
--     them (`In`) and as the output has them (`Out`). Defrag/Trees and Defrag/Moving: a loop over a row of
--     pointers moves the trees below it. Defrag/Files, Defrag/Rows and Defrag/Levels: the rows
--     of pointers of one inode.
--     Defrag/Disks and Defrag/Inodes: the loop over the inodes. Defrag/Whole and Defrag/Program: the whole.
--   Defrag/Tail: the free list. Defrag/End: all that follows the loop over the inodes.
--   Defrag/Runs: runs, and the theorems at concrete images.
-- The size of a block is taken to be a multiple of four bytes, so that all accesses are to whole words. A
-- negative offset or block number is an access outside. No sum overflows an `int`, the size of the image
-- being one. The loops recurse on the number of their rounds. `swap_offset` and `data_offset` are read
-- once for the loop over the free blocks, which lie behind the superblock.
--
-- hw4/userthread.cpp and hw4/userthread_aging.cpp, user-level threads (Threads):
--   Threads/State: `Thread` is `myThread`, `Library` the static variables of hw4/util.h. A thread is named
--     by its id wherever the code has a pointer to it, since ids differ and threads stay in the list
--     until the library ends. `Platform` is what the code takes from the language: `double` and the order
--     in which a priority queue gives its entries. `Inputs` is what the system returns in one call.
--   Threads/Queues: the functions `choose_next_thread_*`. Threads/Times: the times and the estimates.
--     Threads/Setup: `thread_libinit`, `thread_libterminate` and what they call. Threads/Scheduler:
--     `my_scheduler`, a definition for each branch. Threads/Calls: `thread_create`, `thread_yield`,
--     `thread_join`, `thread_wrapper`, `sigalarm_handler`. Threads/Session: lists of calls, while no
--     timer runs.
--   Threads/Places: how often an id stands in the queues, and what each branch does to that.
--     Threads/Sound: the invariant, through every call, from `thread_libinit` to `thread_libterminate`.
--   Threads/RoundRobin: FIFO as a queue of ids, the refinement (Refine, Promise) and turns (Fair).
--   Threads/Lottery: the draw among three priorities. Threads/Estimates: the estimate of SJF.
--   Threads/Dropped and Threads/Refusals: threads that get lost, and calls that fail.
--   Threads/Least: a priority queue as a list. Threads/Runs: runs, and the theorems at concrete states.
-- A switch of contexts ends a call with the next to run (`Control`): a thread, or `main`, whose context
-- `thread_libinit` has saved. The signal mask is what `sigprocmask` sets; the masks that contexts carry are
-- not modelled. Numbers of threads do not overflow, and a negative argument of `thread_join` names no
-- thread, as 0 does. Times are integers without bounds. The handler of the alarm is modelled as a call like
-- the others; runs with alarms are not, since one may come at any place of `thread_create`, which does not
-- block it. A list of calls is a run under _FIFO or _SJF in a process whose timer was never started
-- (`timer_armed`).
--
-- hw2/shell_hist.c, a shell with a history (Shell):
--   Shell/History: `Entry` is `histCommand`, `History` the global variables. A node and the two buffers of a
--     line have numbers, since several nodes may share the buffers; what `free` is called for is listed.
--     The nodes between the sentinels are a list; the loops over it stop at a node without arguments.
--   Shell/Free: `destroyNode`, `clearList`. Shell/Parse: the buffers of a line and of its arguments, which
--     grow, `checkHist` and `isBeginWith`. Shell/Command: what `main` does with a line, `callChild`.
--   Shell/Reading, Shell/Keeping, Shell/Clear: what is proved of these. Shell/Runs: runs, and the theorems at
--     concrete histories.
-- The words that `strtok` finds, `atoi` and whether `fork` succeeds are arguments. A write outside a buffer
-- has no result, nor has a length that no `int` holds, nor `popFront` of an empty list, which frees a sentinel. A read of a
-- line that is freed gives its words still. `numHist` does not wrap. `clearList` has a round for each node.
--
-- hw2/matrix.c, a matrix product with threads (Matrix):
--   Matrix/Pool: threads named by a row and a column, the order in which they run as a list of names, and
--     the joins. Matrix/Program: `assignNumber`, `multiply` and `maxRowSum` step by step, and the phases of
--     `main`: `assign_all`, `multiply_all`, `sum_all`, each from the creation of its threads to its joins.
--   Matrix/Keeping: what every step keeps. Matrix/Product, Matrix/Tallying, Matrix/Raising: what holds in
--     every order. Matrix/InTurn, Matrix/Stages, Matrix/Sequence: one thread after another. Matrix/Race: the read in front
--     of the lock. Matrix/Runs: tests, and the theorems at concrete matrices.
-- N is a parameter. A thread may run from the start of its phase, which allows more orders than creating
-- one thread after another does. The entries are digits and sums of their products, far below 2 ^ 31 for
-- N = 7, so `int` has no bounds here. `MAX_ROW_SUM -= sum` is one step, since only the holder of the lock
-- writes. A call of pthread_create or pthread_join does not fail.
--
-- Base holds the names that all modules share, Boolean tests, lists, sums and integers.
--
-- Not modelled: hw2/shell.c, an earlier shell; hw4/util.cpp,
-- a draft of the functions of hw4/userthread.cpp; hw5/util.c, a draft that is not built; `Mem_Dump`, which prints; the
-- programs that test the libraries.
pub mod Base
pub mod Allocator
pub mod Baboons
pub mod Defrag
pub mod Threads
pub mod Matrix
pub mod Shell
