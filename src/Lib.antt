-- ===== src/Lib.antt =====
-- Verification of the programs of this repository, the six designs of an operating-systems course.
-- Each design is a program of its own; they share no state.
--
-- The files and the code:
-- * Page models the table of chunks of one page, which two allocators share: `struct mm`, the search
--   and split in `alloc`, the search in `dealloc`, `find_next` and `merge_chunk`. Page/Spec is the
--   abstract allocator, a list of blocks in the order of their addresses; Page/Invariant says when a
--   table is well formed and what blocks it stands for.
-- * Alloc is 설계 5/project#5-code/alloc.c, one page of chunks of a multiple of 8 bytes.
-- * Ealloc is 설계 5/project#5-code/ealloc.c, up to four pages of chunks of a multiple of 256 bytes.
-- * MasterWorker is 설계 4/1/master-worker.c: a critical section is a step of one thread, and a run is
--   any order of steps.
-- * Proc is 설계 3번/xv6/proc.c: the process table with `fork`, `exit`, `wait`, `sleep`, `wakeup`,
--   `kill`, the scheduler with priorities, and the system calls `get_num_proc`, `get_max_pid`,
--   `get_proc_info`, `set_prio` and `get_prio` that the project added; Proc/Boot starts it and runs it,
--   and Proc/Sizes follows the sizes of processes through `growproc` and through `exec` of exec.c, with the
--   sizes that `allocuvm` and `deallocuvm` of vm.c return.
-- * Ssufs is 설계 6: ssufs-disk.c (Ssufs.antt) and ssufs-ops.c (Ssufs/Ops). A buffer for a superblock or
--   an inode that is read, changed and written back is the part of the disk itself.
-- * Shell is 설계 2번/ssu_shell.c: the tokenizer and the split of a line into commands, without a result
--   when they do not fit their arrays;
--   Shell/Batch is the loop of `main` over the lines of a script.
-- * Ps is 설계 2번/ssu_ps.c: the options, the columns, and which processes are printed.
-- * Ps/Lines lays out the lines there that have no shares of processor and memory in them, and
--   Ps/Columns says where their columns stand.
-- * Ps/Cmdline is the part of `scan_proc` there that makes one string of the arguments of a process.
-- * Semaphore is 설계 4/3/SSU_Sem.c: each statement that touches the semaphore is a step of one
--   thread, and the update of the key is two steps, a read and a write.
-- * RwLock is 설계 4/2: rw_lock-w-test.c (RwLock/WriterFirst) and rw_lock-r-test.c
--   (RwLock/ReaderFirst), over a lock of the thread library that is a parameter with its laws;
--   RwLock/Holders counts who has that lock, and RwLock/Elements is rw_lock.c.
-- * Log is 설계 3번/xv6/log.c, with `bwrite` of bio.c: the transactions of the file system of xv6.
--   Log/Replay says what blocks a disk with a log stands for; Log/Commit and Log/Recover follow the
--   writes of a commit and of a recovery, and Log/Runs is the log in use by several calls. The disk
--   carries out as many writes as `power` says, and the theorems hold for every such number.
-- * Pipe is 설계 3번/xv6/pipe.c, where a call is cut into steps at its sleeps.
-- * Kalloc is 설계 3번/xv6/kalloc.c: Kalloc/FreeList reads the links of the free pages as a list, and
--   Kalloc/Runs follows the pages through allocations and frees.
-- * Bio is 설계 3번/xv6/bio.c with sleeplock.c: Bio/Ring reads the links of the buffers as a list, Bio/Lru
--   says what bget does in terms of that list, Bio/Uses lets any number of threads use buffers, and
--   Bio/Coherence and Bio/Release hold their invariant. A block of a device other than 0 is meant, as
--   the zeroed buffers are all of block 0 of device 0. A reference count does not reach 2 ^ 32.
-- * Syscall is 설계 3번/xv6/syscall.c and sysproc.c: the arguments of a system call are fetched from
--   the memory of the process (Syscall/Pointers, Syscall/Stores), and Syscall/Dispatch calls the
--   functions of Proc; Syscall/Safe is about one call, and Syscall/Booted about a booted system.
-- * Printf is 설계 3번/xv6/printf.c, with `printint` and `cprintf` of console.c and `atoi` of ulib.c.
--   The digits of a word are taken in 32 rounds, which is enough as the base is 2 or more.
-- * Console is the input in 설계 3번/xv6/console.c: Console/Cells reads the ring as the bytes handed over and
--   the line behind them, Console/Edit and Console/Typing follow the characters from the keyboard, and
--   Console/Taking, Console/Lines and Console/RoundTrip what consoleread makes of them.
-- * String is 설계 3번/xv6/string.c over a memory of bytes; `strlen` runs on rounds, as many as the
--   buffer has bytes.
-- * Base holds what these share: the names of the libraries, Boolean tests, lists and search loops.
--
-- Numbers are natural numbers. An index of -1 is `none`; an `int` that can be negative in a result is
-- an integer. Sizes are not negative, and no sum in the modelled code reaches 2 ^ 31, as sizes are at
-- most a page and indices at most a table; the counters of a pipe, the sizes of a process, `nextpid`, the
-- indices of the console and the words of system calls and of printf wrap around as they do in the code.
-- That `nextpid` stays an int is a condition of the theorems about pids.
-- The loops over a linked list run on fuel, one round for each slot of the table and two more; as a
-- well-formed list has no slot twice, this is enough, and the theorems state that a result is given.
--
-- Not modelled: what mmap, memory allocation and files do (their results are arguments), the context
-- switch of the scheduler, output to a device, the bytes of the blocks of the cache, the page tables of
-- vm.c (only the sizes that its functions return), the calls on files of sysfile.c and fs.c, which are
-- arguments of the dispatch, and the rest of the code of MIT xv6, on which 설계 3번 builds.
pub mod Base
pub mod Page
pub mod Alloc
pub mod Ealloc
pub mod MasterWorker
pub mod Proc
pub mod Ssufs
pub mod Shell
pub mod Ps
pub mod Semaphore
pub mod RwLock
pub mod Log
pub mod Pipe
pub mod String
pub mod Kalloc
pub mod Syscall
pub mod Bio
pub mod Printf
pub mod Console
