-- ===== src/Lib.antt =====
-- The kernel threads, mutexes and processes of this xv6, the tournament tree built on them, the file system
-- from the buffer cache to the system calls on directories, page tables and address spaces, the console, the
-- shell's parser, and the parts of the kernel and of the user library that they stand on.
--
-- How the program is put together. A process (proc.h) has a table of threads; the process table of
-- proc.c and its spinlock are shared by all CPUs. A thread gives up the CPU in sched, mostly from sleep, and
-- another thread's wakeup makes it runnable again. The calls of kthread.h make threads, end and join them, and
-- handle mutexes, which live in a table of their own (mtable), each with a spinlock. tournament_tree.c
-- runs in user space and uses the mutex calls only. The system calls reach them through syscall.c and
-- sysproc.c. fs.c keeps files, directories and the map of free blocks in disk blocks, which it reads through
-- bio.c's cache of buffers and writes through log.c, which makes the writes of a system call on
-- files one transaction; file.c and sysfile.c stand on it. vm.c takes pages from kalloc.c for page tables and for
-- the memory of processes. console.c edits what the keyboard gives into lines, which a read of the console takes.
--
-- Which file models what:
--   Base, Base/*        shared names, lists over native numbers, the C int
--   Kernel, Kernel/*    proc.h, kthread.h, param.h: the tables of proc.c as one record, `Kernel`;
--                       the monad `M`; acquire and release as one CPU sees them
--   Kalloc              kalloc.c: kfree, kalloc, freerange
--   Sched, Sched/*      proc.c: sched, sleep, yield, wakeup, kill, the scheduler's choice
--   Mutex, Mutex/*      proc.c: kthread_mutex_alloc, _dealloc, _lock, _unlock
--   Proc, Proc/*        proc.c: allocproc, allocthread, growproc, fork
--   Exit, Exit/*        proc.c: exit, exitThread, kthread_exit
--   Wait, Wait/*        proc.c: wait
--   Kthread, Kthread/*  proc.c: kthread_create, kthread_id, kthread_join
--   Spinlock, and its   spinlock.c: the lock word, pushcli and popcli; Spinlock/Sleep: sleeplock.c
--   children
--   Tournament, and     tournament_tree.c
--   its children
--   Strings, Strings/*  string.c
--   Grep, Grep/*        grep.c: match, matchhere, matchstar
--   Pipe, Pipe/*        pipe.c
--   Log, Log/*          log.c
--   Bio, Bio/*          bio.c: bget, bread, bwrite, brelse; memide.c: iderw
--   Fs, Fs/*            fs.c: Bitmap has balloc and bfree; Inodes has ialloc, iget, ilock, iput, itrunc;
--                       Content has bmap, readi, writei; Directory has dirlookup, dirlink; Paths has
--                       skipelem and namex; Bytes has the fields of a block; Calls has namei and the calls
--                       on links and directories of sysfile.c; Files has fileread, filewrite and
--                       filestat of file.c
--   Vm, Vm/*            vm.c: Monad has physical memory, kalloc and kfree; Walk has walkpgdir and mappages;
--                       Spaces has setupkvm, allocuvm, deallocuvm, copyuvm, freevm; Copyout has uva2ka and
--                       copyout
--   Console, Console/*  console.c: consoleintr, consoleread; Screen has cgaputc
--   Sh, Sh/*            sh.c: gettoken, peek and the parser
--   Ulib, Ulib/*        ulib.c: strings, atoi; printf.c: printint
--   Syscall, Syscall/*  syscall.c: argint, argptr, argstr; sysproc.c;
--                       Syscall/Files: descriptors in sysfile.c, filealloc in file.c
--   Tests, Tests/*      the theorems at concrete inputs
-- Definitions have the names of the functions of the source; a helper is a part of the function it
-- stands before.
--
-- How the kernel is modelled. A function of proc.c is a function on `Kernel` that returns a value and the
-- new state (`ret`), gives up the CPU (`switched`), or panics (`panicked`, also for a null pointer that is
-- followed). Between two switches one CPU runs, and what the other CPUs do is seen only through the
-- locks: the tables change under their locks alone. What a thread does once it is switched to again is a
-- definition of its own whose name ends in _resume, so that any steps of others may come in between.
-- The list `held` is the spinlocks of the CPU; its length is ncli. A pointer to a thread is a pair of
-- indices. A read of `tid` through a null thread pointer yields the word `null_tid`, since the first page
-- of the user's memory is mapped there. The table sizes are those of the lists, so that a theorem holds
-- for tables of any size.
-- The waiting loop of exit is one pass at a time: while other threads are left, the pass ends as
-- if a timer interrupt had come (`switched`), and `exit_resume` makes the next one.
-- The calls on mutexes are cut where they let go of mtable.lock: what a call does to an entry with the entry's
-- mutexLock held (lock_loop, open_section, clear_section, unlock_section) is one step of Mutex/Steps, between which calls of
-- other CPUs may come. The test that kthread_mutex_dealloc makes before it has that lock can be out of date by then;
-- Mutex/Races and Mutex/Waiters are about kthread_mutex_dealloc in the middle of other calls.
-- acquire and release on several CPUs, with one access to the lock word at a time, are the step relation
-- of Spinlock/Exclusion.
--
-- How the disk is modelled. In Bio a block's content is one value; the buffers are the list from the most
-- recently used one on, and a call that has to wait for a buffer's lock ends as `waits`. What a caller of
-- bread sees of a block, whatever is cached, is `view` of Bio/View. Fs stands on that view: a block is a
-- function from offsets to bytes, a log_write changes it, and a sequence of bread, change, log_write and
-- brelse is one step. The locks of inodes are `locked`, and the process that runs is the one that holds
-- them; an ilock of a locked inode ends as `waits`. A short of an inode is its bit pattern. Reference counts
-- of inodes are natural numbers that do not wrap. writei_loop writes as many bytes as it is given, and readi
-- returns its bytes, since where they lie in memory is the caller's.
--
-- Open files. The calls of sysfile.c stand behind their arguments, with the path as its bytes, and begin_op and
-- end_op around each make it one transaction; so does each round of the loop of filewrite. Its count of bytes is the
-- length of what is written.
--
-- How memory is modelled. A page is its frame, the number of the page in physical memory, and P2V of it is a frame as
-- well, so that a pointer to an entry of a page table is a frame and an index. A free page keeps its content,
-- since kfree's junk and the links of the free list are overwritten before anything reads them. A pointer that walkpgdir
-- leaves null ends as a panic of its own where the source follows it.
--
-- How the console is modelled. A character is what getc gives; the echo and the wakeups of a reader are recorded.
-- consoleintr takes the characters one by one to the last, and a read that has to wait ends as `sleeps`, from where the
-- same loop goes on. The screen is the cursor and the text memory.
--
-- How the parser is modelled. The text has no NUL; the parser's functions take the rest of the text and return a
-- result and what is left. A panic of the shell is `refused`.
--
-- Bounds and fuel. Counters of pipes and addresses of system calls wrap at 2 ^ 32 as written out; ids
-- and handles (nextpid, nexttid, nextmid) are natural numbers that are taken not to wrap. The climb of
-- trnmnt_tree_acquire and the recursion of release run on fuel; a fuel of at least the depth of the
-- tree is enough, as the results on them have it. The `int` of atoi is
-- its word of 32 bits, which wraps. freerange runs on the number of pages of its range.
--
-- The loops of readi and writei have fuel for a round for each byte, balloc for each block of the map,
-- the parser 4 * length + 4, and each is enough, as the results on them have it. namex has fuel for
-- each byte of its path, since each element takes one.
--
-- kill_line has fuel for the whole ring, mappages and the loops over pages for each page of the range, copyout for
-- each byte, filewrite for each byte, and the search of a directory for each entry and two more.
--
-- Taken as parameters: copyuvm, allocuvm, deallocuvm and freevm of vm.c in Proc, Exit and Wait, and the ends of a
-- pipe in fileread and filewrite. The read and write functions
-- of devices (devsw) in readi and writei. Proc and Exit keep only the reference counts of file.c and
-- fs.c. The contents of trap frames are eax, esp and eip; the other registers go together.
--
-- Not modelled: in sysfile.c sys_read, sys_write, sys_fstat, sys_pipe, sys_exec and the descriptor that sys_open gives;
-- readsb and iinit; in vm.c seginit, kvmalloc, switchkvm, switchuvm, which load registers, and loaduvm; exec; in
-- console.c the formats of cprintf, consolewrite and the registers of the screen and the serial line; other devices,
-- traps and start-up; the commands that the shell runs and the user programs; malloc, the formats of printf; the lock
-- around the free list of kalloc.c and the fill of pages; the wakeups between the ends of a pipe; procdump, forkret,
-- userinit; interrupt flags in sched.
pub mod Base
pub mod Kernel
pub mod Kalloc
pub mod Sched
pub mod Mutex
pub mod Proc
pub mod Exit
pub mod Wait
pub mod Kthread
pub mod Tournament
pub mod Spinlock
pub mod Strings
pub mod Grep
pub mod Pipe
pub mod Log
pub mod Syscall
pub mod Ulib
pub mod Bio
pub mod Console
pub mod Fs
pub mod Vm
pub mod Sh
pub mod Tests
