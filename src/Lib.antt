-- ===== src/Lib.antt =====
-- omb, a small message-passing kernel for the AM335x, and its first process.
--
-- Parts and files. Paths are from the repository's root.
--   Libc            lib/libc/util.c: memcpy, memset
--   Board/Timer     am335x/kern/timer.c: the registers of the timer and of the watchdog
--   Board/Uart      am335x/kern/uart.c: putc, puts, debug, panic; Output is about what they send
--   Board/Intc      am335x/kern/trap.c: the interrupt controller, the handlers, trap
--   Space           am335x/kern/mem.c: imap, l2_map, space_map, space_find, space_unmap;
--                   Entry is about single entries, Mapping about a page that is mapped,
--                   Sections about the kernel's table, Init models init_memory,
--                   whose table Init/Table describes
--   Kern/Links      kern/proc.c: the linked lists; Seg and Splice hold lemmas, Laws is about
--                   adding, Take and Remove about removing
--   Kern/State      kern/head.h, include/c.h: struct proc and the static variables
--   Kern/Proc       kern/proc.c: next_proc, schedule, proc_new, proc_list_add, proc_list_remove;
--                   Choice and Schedule are about scheduling, Create about new processes,
--                   Waiting about the waiting lists
--   Kern/Sys        kern/sys.c: ksend, krecv, kreply, kreply_recv and the system calls, and
--                   systick_handler, proc_start and init_proc0; Running is about which process is
--                   marked as running, Queueing about ksend, Rendezvous about the exchange of a
--                   message and its reply, Accept about sys_addr_accept, its Moving and Moves
--                   about the pages it hands over, Fair about the system tick; Sound says when
--                   the kernel's lists are in order, its
--                   Schedule, Asleep, Send, Taken, Receive, Reply, Create and Calls are
--                   about single operations, and Steps about all that can be reached
--   Text            lib/libstring/string.c, lib/libstring/conv.c: strlen, strncmp, strcmp,
--                   strlcpy, vsnprintf, strtol; Compare, Copy, Number and Parse are about
--                   them, Write and Format about vsnprintf
--   Text/Scan       lib/libstring/scanf.c: vsscanf, sscanf; Back and Trip are about reading back
--                   what is printed
--   Text/Token      lib/libstring/string.c: strtok; Cutting is about it
--   Proc0           am335x/proc0/main.c: the lists of free memory and of devices, and the
--                   answers to requests; SetUp models the set-up and the processes it creates, Main
--                   the requests and main; Ram is about get_ram, Add about addr_add, Requests
--                   about requests of memory; Ledger counts how often an address is free, its
--                   children follow the count through each operation, Once through main,
--                   Kernel from the regions of Space/Init on
--   Server          am335x/base/uart/main.c: the process of the serial port; Port compares its
--                   driver with the kernel's, Serving is about what it prints and which
--                   system calls it makes, Together about its offer, the
--                   answer of process 0 and what the kernel does with both
--   Base            shared lists, families, tests and bit operations
--   Tests           the theorems at concrete inputs
--
-- How the parts interact. A process calls the kernel through `syscall`; the kernel's parts work
-- on one record, `Kernel`, which holds the table of processes, the list of all, the waiting
-- lists, the message pages, the memory with the translation tables, and the timer. `schedule`
-- saves where the running process goes on, as a `Label`, and switches; `resume` continues the
-- process that was switched to at its label, as goto_label does. A run of the kernel is a
-- sequence of system calls, of such continuations and of system ticks. A user program is a machine
-- over system calls, that goes from the result of one to the next;
-- `main` of process 0 takes the messages that it receives as a list, and gives the answers.
--
-- Bounds and fuel. A pointer into a static array is an index, nil is `none`. Registers have 32
-- bits, and where they wrap the remainder is written out. A C loop that may not end runs on
-- fuel and gives `none`, or the outcome `hangs`, when it runs out: 513 for the list of all
-- processes and 2049 for a waiting list, one more than the arrays have elements; 1030 for
-- next_proc, which goes round a list of at most 512 once; 4097 for imap, as the table has 4096
-- entries; 2^20 + 1 for sys_addr_accept, as there are 2^20 pages. The string functions, those of
-- the serial port and those of process 0 take their fuel as an argument, and the theorems say how
-- much is enough.
--
-- Interrupts are off in the kernel and there is one processor (am335x/kern/vectors.S), so a `cas`
-- finds what was read before it; the loops that retry it are modelled all the same.
--
-- Not modelled: assembly (labels, vectors, system call stubs), where the kernel calls debug, the
-- registers of devices without a driver, and the tools that build the boot image: bintoarray reads
-- and prints through the host's C library, and mkuboot is a copy of OpenBSD's.
pub mod Base
pub mod Libc
pub mod Board
pub mod Space
pub mod Kern
pub mod Text
pub mod Proc0
pub mod Server
pub mod Tests
