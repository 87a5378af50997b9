-- ===== src/Lib.antt =====
-- A verification library for the Xinu kernel under xinu/.
--
-- The program. Xinu is an operating system for one processor. Its kernel keeps a table of processes
-- and one table of queue nodes, `queuetab`, in which the ready list, the sleep queue and a queue for
-- each semaphore are threaded by index. System calls disable interrupts, change the tables, and call
-- `resched`, which switches to the first process of the ready list. Semaphores, messages and delays
-- all end in `ready` and `resched`. Memory is given out from lists of free blocks.
--
-- The files.
-- - Base: names, tests, tables, lists and 32-bit words. A word is its bit pattern, a number below 2
--   ^ 32; `signed_lt` and `signed_le` compare as int32, `add32` and `sub32` wrap.
-- - Process: include/process.h of xinu/. Queue: xinu/system/queue.c, getitem.c, insert.c, insertd.c
--   and newqueue.c, an operation for each function, on the record `QTab` of the three columns of
--   `queuetab`. Queue/Table says that a table holds a family of lists, and Queue/Refine,
--   Queue/Delta and Queue/Order say what the operations do to that family.
-- - Kernel: the global variables in one record. An operation takes the record and returns its
--   result and the new record.
-- - Sched: xinu/system/resched.c, ready.c, resume.c, suspend.c, yield.c, getprio.c and chprio.c.
--   `ctxsw` is assembly: a switch is the change of `currpid`. Sched/Invariant has the invariant of
--   the tables, Sched/MakeReady, Sched/Switch, Sched/Ready, Sched/Keep, Sched/Block, Sched/Suspend
--   and Sched/Deferral that the operations keep it, Sched/Frame what they leave, Sched/Priority the
--   policy.
-- - Semaphore: xinu/system/wait.c, signal.c, signaln.c, semcreate.c, semdelete.c, semreset.c and
--   semcount.c; Semaphore/Balance and Semaphore/Running have that counts and queues agree,
--   Semaphore/Deferred and Semaphore/Reset are about the calls that release several processes,
--   Semaphore/Create about the search for a free entry.
-- - Clock: xinu/system/sleep.c, unsleep.c, wakeup.c and clkhandler.c; Clock/Unsleep and Clock/Leave
--   are about `unsleep`, Clock/Sleep about going to sleep, Clock/Wake, Clock/Tick, Clock/First
--   and Clock/Due about the interrupt. Message: xinu/system/send.c, receive.c, recvclr.c and
--   recvtime.c; a call that waits is cut at its `resched`. Message/Deliver and Message/Invariant are about `send`, Message/Wait
--   about the calls that wait.
-- - Lifetime: xinu/system/create.c, vcreate.c and kill.c; `kill` is cut at its `send`, at which the
--   parent may run. Lifetime/Spawn and Lifetime/End are about the tables, Lifetime/Space is about the
--   address space of a new process. The close functions of the drivers, which `kill` reaches through
--   the device switch, are a parameter.
-- - Paging: xinu/include/paging.h, xinu/system/paging.c, vmalloc.c and `free_virtual_mem` of
--   freemem.c. A directory or a table is 1024 words of memory; a bit field of a word is a group of
--   its binary digits. Paging/Words is about the loops over one page, Paging/Build about the loop
--   over tables, Paging/Space about the addresses that the hardware translates, Paging/Release
--   about `vmalloc` and `free_virtual_mem`.
-- - Fault: xinu/system/pagefault_handler.c; Fault/Outcome and Fault/Running have its theorems. The
--   address that was accessed, in the register cr2, is an argument.
-- - Boot: the memory and the tables of `sysinit` of xinu/system/initialize.c, and
--   xinu/system/clkinit.c. Boot/Tables is about its loops, Boot/Fresh and Boot/Space about the state
--   that it leaves.
-- - System: the calls of the running process, the clock interrupt and page faults as steps, and what
--   holds in every state that they reach.
-- - Memory: xinu/system/getmem.c, freemem.c, getstk.c and meminit.c. A list of `struct memblk` is
--   the list of its blocks; three routines that differ only in the list they name share a body.
-- - Port: xinu/include/ports.h and xinu/system/ptinit.c, ptcreate.c, ptsend.c, ptrecv.c, ptclear.c,
--   ptreset.c, ptdelete.c and ptcount.c; the calls that wait are cut there. Port/Nodes says what
--   lists the nodes form, Port/Join, Port/Leave, Port/Clear and Port/Start what the operations do
--   to them, Port/Fifo that a port is a queue. `_ptclear` may switch to other processes while the
--   port is in limbo, when it disposes of a message and when it resets or deletes a semaphore. The
--   function that disposes of a message is a parameter on the kernel's tables and the ports, which
--   takes in what runs until it returns; what runs until the caller of `semreset` or `semdelete` is
--   current again is the parameter `others`.
-- - Pool: xinu/include/bufpool.h and xinu/system/bufinit.c, mkbufpool.c, getbuf.c and freebuf.c;
--   `getbuf` is cut at its `wait`. Pool/Buffers says what lists the buffers form and what `getbuf`
--   and `freebuf` do to them, Pool/Make, Pool/Create and Pool/Outcome are about `mkbufpool`.
-- - Strings: the string and memory routines of xinu/lib/, on a memory of bytes.
-- - Shell: xinu/shell/lexan.c. Shell/Bounds is about its end and its arrays, Shell/Strings about the
--   strings in them, Shell/Words about lines of words.
-- - Net: `ipcksum` of xinu/net/ip.c, `icmp_cksum` of icmp.c, and dot2ip.c. Net/Checksum is about the
--   checksum of a header, Net/Dotted about addresses in dotted decimal.
-- - Date: xinu/system/ascdate.c up to its call of `sprintf`.
-- - Tests: the theorems at concrete states.
--
-- Fuel. The loop of `insert` and that of `insertd` run on as many rounds as the table has nodes,
-- which is more than a queue holds (Queue/Refine and Queue/Delta use this), and so do those of
-- `wakeup` and `semreset`; `newsem`, `newpid` and the loops of `sysinit` have their own bounds; the
-- loop of `semdelete` runs one round more than the count is below zero (Semaphore/Deferred shows
-- that this is enough), that of `_ptclear` PT_MSGS rounds (Port/Clear asks for no more messages);
-- the years of a date end within 137 rounds, since 137 years are more than 2 ^ 32 seconds; the
-- loop of `lexan` runs at most once for each of SHELL_MAXTOK tokens and once more (Shell/Bounds). The
-- string routines take their fuel as an argument and return `none` where it runs out; their
-- theorems ask for more fuel than the string is long.
--
-- Not modelled: assembly, the contents of stacks, devices, the protocols of the network, the commands
-- of the shell, formatted output, and generated code. `kprintf` traces are left out.
pub mod Base
pub mod Process
pub mod Queue
pub mod Kernel
pub mod Sched
pub mod Semaphore
pub mod Clock
pub mod Lifetime
pub mod Fault
pub mod Boot
pub mod System
pub mod Message
pub mod Memory
pub mod Paging
pub mod Port
pub mod Pool
pub mod Strings
pub mod Shell
pub mod Net
pub mod Date
pub mod Tests
