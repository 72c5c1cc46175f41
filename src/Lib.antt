-- ===== src/Lib.antt =====
-- Verification of DarOS, a small kernel for x86-64 in C, with its C library.
--
-- The parts, and where they are modelled. Paths are from the repository's root; a function of the source
-- `fooBar` is `foo_bar` here.
--
-- Malloc: src/lib/malloc.c, the allocator of the kernel's heap and of each process's. The map, two bits a
-- block of 128 bytes, is a function from the number of an entry to its value: entry `e` is bits `2 (e % 32)`
-- of quadword `e / 32`. `Malloc` has init_heap, heapUsed, heapSize, malloc and free; `Malloc.Palloc` has
-- palloc, `Malloc.Realloc` dorealloc, realloc, reallocz and mallocz, over a memory of quadwords. The other
-- modules below `Malloc` are proofs: `Runs` and `Fit` of the search, `Free` and `Used` of malloc, `Shrink` of
-- realloc, `Init` and `Overrun` of the region's bounds.
--
-- Strings: src/lib/strings.c and strings.h. `Strings.Digits` has the digits in decimal and hexadecimal and
-- dstoui; `Strings.Format` M_vsprintf, a byte of the format at a time, and M_sprintf; `Strings.Compare`
-- strlen, strcmp, M_sappend and M_scopy. Proofs: `Decimal`, `Hex`, `Room` and `Bounds` of the buffer,
-- `Printing`.
--
-- LinkedList: src/lib/list.c over a store of nodes. `LinkedList` has its operations; `Chain` says which nodes
-- a list goes through and `Contents` what it holds; `Push`, `Append`, `Pop`, `Unlink`, `Remove` and `Reject`
-- are the proofs of one operation each. `Walk` has the steps from node to node and the loops that call a
-- function on each item; `Each` is the proof about those loops, `Circle` about going round, `Once` about an
-- item that is in the list once, `Find` about the search.
--
-- Queue: the work queue and the buffer of the keyboard of src/kernel/interrupt.c (INITQ, INC_Q_PT, pop, push).
-- `Fifo` and `Grow` are the proofs against a first-in-first-out sequence.
--
-- Ints: no_ints, ints_okay_once_on and ints_okay of src/kernel/interrupt.h. `Nesting` is the proof about
-- sections of code between them.
--
-- Idt: set_handler of src/kernel/interrupt.c, which writes an entry of the interrupt descriptor table, against
-- how the processor reads one; `Table` has the table that init_interrupts fills, `Last` and `Vectors` the
-- proof of which handler each vector gets.
--
-- Proc: the processes of src/kernel/interrupt.c. `Proc` has the types, with the memory as bytes; `Proc.Memory`
-- reading and writing it, `Proc.Start` mapProcMem and startProc, `Proc.Table` procByPid, createProc and
-- startSh, `Proc.Wake` killProc, gotLine and what the console asks for, `Proc.Calls` int0x80_syscall, the end
-- of a fault and of irq0_pit, and the choice of waitloop. `Proc.Turns` goes on for a sequence of ticks, and
-- `Proc.Steps` is the step relation: the system calls, faults, ticks, lines and choices, each with its
-- conditions on new addresses. Proofs: `Words` of the memory; `Frame` of the stack that startProc makes and
-- `Lines` of a line that is read; `Ready`, `Blocked`, `Robin`, `Follows`, `Sane`, `Made`, `Answers`, `Cases`
-- and `Runs` of the list of runnable processes; `Lookup`, `Pids` and `Forget` of the table of pids.
--
-- Callbacks: src/kernel/periodic_callback.c, and what irq0_pit of src/kernel/interrupt.c does at a tick.
-- `Table` has the proofs about the table, `Ticks` those about the ticks.
--
-- Boot: kernel_entry of src/kernel/kernel_entry.c, up to the heap. `Choice` is the proof about the region,
-- `Stack` about what is put into it.
--
-- Acpi: src/kernel/acpi.c, over the memory as bytes. `Search` is the proof.
--
-- Log: src/kernel/log.c, over the list and the console. `Lines` is the proof.
--
-- Userspace: src/userspace/sh.c, sys.c and app.c, what of them is not assembly or printing. `Reading` takes a
-- line from gotLine to the program's string, `Numbers` is about the loop of app.c.
--
-- Clock: src/kernel/rtc.c. `Clock` has sync_rtc_seconds, on one reading of the registers, and get_rtc_time.
-- `Registers`, `TwelveHours` and `Time` are the proofs.
--
-- Keyboard: src/kernel/keyboard.c. `Keyboard.Layout` has the tables of its two switches, `Keyboard.Scan`
-- keyScanned and the listeners, `Keyboard.Command` kbd_cmd, `Keyboard.Work` the way of a byte to it in
-- src/kernel/interrupt.c: irq1_kbd, process_keys and the rounds of waitloop over its queue of work. Proofs:
-- `Matched` and `Delivery` of that way, `Modifiers`, `Typeable`, `Untypeable`, and `Typing`, which goes on to
-- the console.
--
-- Console: src/kernel/console.c. `Console.Term` has a terminal and the loops within its buffer,
-- `Console.Screen` the screen, the cursor and scrolling, `Console.Print` printing and the terminals,
-- `Console.Keys` the editing keys, M_readline and gotInput, `Console.Status` the status bar, of which
-- `StatusBar` is the proof. `Console.Line` is the specification: a line as a zipper at the cursor. The proofs
-- go from the loops (`Loops`, `Cells`, `Insert`, `Cut`, `Words`) over the operations (`Handler`, `Deletes`,
-- `Moves`, `Typing`, `Readline`) to sequences of keys (`Refine`).
--
-- How they interact: the keyboard calls gotInput of the console, which the module Keyboard.Typing composes;
-- the console asks the processes for a shell and gives them lines, which it records as calls and
-- `Proc.Wake.console_does` answers, after each operation of the console that a system call or the end of a
-- process comes to. A process's heap and the kernel's, of which Boot gives the place, are Malloc's; a tick
-- pushes work on a queue of Queue; the status bar takes its texts from Strings.Format and registers its two
-- callbacks. The allocator serves all others, which do not model it again: a list takes a new node's address
-- as an argument, and a terminal's page is there or not.
--
-- Numbers are natural numbers; where a sum or difference of 64 bits can wrap, `add64` and `sub64` say so.
-- Addresses and offsets are bounded by the memory, so that their sums do not wrap.
--
-- Fuel: a loop whose counter is bounded by its guard takes the number of its rounds. `search_quads` takes the
-- quadwords of the map, since its index grows in each round; `free_from` and `scan` one more than the entries
-- of the map, and give `none` or `lost` if no end of a block comes within those, where the source reads on;
-- `palloc_loop` the pages below its first index, and one; `remove_matching` and `get_node` the nodes of the
-- list. The loops over the list of runnable processes and the buckets of pids take the list's count, which the
-- invariants `Ready` and `Entries` bound from below by the number of nodes; `string_at` the bytes of a page;
-- `scan` the addresses of an area; `fib_loop` as many rounds as its bound, since the number that it tests
-- grows in each.
--
-- Turning interrupts off and on around an operation is not part of the other models: each operation is one
-- step there. Not modelled: startTty, what trap handlers print, and the order of the set-up at boot; ports,
-- devices and assembly; the boot loader, linker scripts and build. Memory that is freed and given out again is
-- not followed: a new address is fresh where a theorem says so.
pub mod Base
pub mod Queue
pub mod LinkedList
pub mod Malloc
pub mod Strings
pub mod Ints
pub mod Idt
pub mod Clock
pub mod Keyboard
pub mod Console
pub mod Proc
pub mod Callbacks
pub mod Boot
pub mod Acpi
pub mod Log
pub mod Userspace
