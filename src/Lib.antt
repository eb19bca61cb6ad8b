-- ===== src/Lib.antt =====
-- Multicore-RTOS: a small operating system for the two cores of the RP2040, in C.
--
-- The program's parts, and the files that model them:
--
-- * os/heap.c, os/heap.h and next_pow2 of lib/utils.h: the buddy allocator. Heap.antt has `malloc`
--   with one function per round of its loop; Heap/Release, Heap/Stats and Heap/Calloc have `free`,
--   `heap_stats` and `calloc`. Heap/Buddy is the abstract heap, a binary tree of free and used blocks
--   with first fit, and the relation between it and heap_tree. Heap/Runs, Under, Descend, Alloc and
--   Refine follow the loop through the tree; Heap/Size is about the size of a block, Heap/Blocks about
--   the blocks of an abstract heap, Heap/Clients about what a caller may rely on. Below Heap/Release,
--   Rounds and Seek follow the loop of `find_ptr`, Climb the way up of `free`, Given and Undo are about
--   the abstract heap without a block, Outcome and Clients about `free` as a whole. Below Heap/Stats,
--   Totals, Bytes, Count and Sum are the same for `heap_stats`. Heap/Requests has sequences of calls,
--   Heap/Cases a heap of the tests.
-- * os/schedule.c and os/schedule.h: the threads. Sched.antt has the TCBs in a store by address,
--   the circular list of each priority level and `schedule`; Sched/Wait has blocking, sleeping
--   and ending, Sched/Create the creation of threads, the start of a core and the statistics.
--   Sched/Links is about circular lists, Sched/Ready states the invariant of a level, and Ring,
--   Enqueue, Dequeue, Change, Level, Pick, Take, PutBack, Choice and Schedule follow the calls.
--   Sched/Line is about lists that end at NULL; Waiting, Blocking and Sleeping are about the
--   threads that wait in one, Sched/Wake about the alarm of the next one, Sched/Report about the
--   statistics. Sched/Consistent states what holds of the kernel and its two cores between two
--   calls. Apart, Join and Leave are about all levels when a thread comes to one or goes;
--   Rethread, Depart, Vacate, Retire, Finish and Kept are what Sched/Block and Sched/Doze, on
--   `sched_block` and `sleep` as whole calls, share; Rejoin is the same for Sched/Unpark and
--   Sched/Awake, on `sched_unblock` and `unsleep`. Sched/Refuse is about the errors of
--   `add_thread`, Sched/Turn about the threads of a level that take turns, Sched/Still about the lists
--   of waiting threads while `schedule` runs. Sched/Cases has the kernels of the tests.
-- * os/interrupts.c, the handlers: Context.antt has the context switch of `pendSV_handler` and
--   `systick_handler`, with the saved registers in Context/Frame, a thread that leaves a core and
--   comes back in Context/Resume, the ticks of both cores in Context/Preempt, runs of whole
--   calls in Context/Runs, and the ticks after which a thread gets its core in Context/Turns. Boot.antt
--   has the loops of `reset_handler` and the handlers of the timer and of the port, Boot/Vectors the
--   vector table with the numbers of the interrupts of inc/rp2040.h.
-- * os/semaphore.c, os/semaphore.h and hw/hwctrl.h: Sema.antt, over the scheduler's state, with a
--   round of each wait in Sema/Waits and the signals in Sema/Signals.
-- * os/ipc.c and os/ipc.h: Spsc.antt has FIFO32_t and FIFO8_t, Spsc/Window and Spsc/Queue their
--   elements as a queue, Spsc/Interleave a producer and a consumer that run at the same time.
--   Mpmc.antt has FIFO_t, Mpmc/Deliver and Mpmc/Overrun what becomes of its elements, Mpmc/Bytes
--   the elements of one byte.
--   Launch.antt has the mailbox between the cores, with `init_scheduler` and `core1_entry` of
--   os/schedule.c, which start core 1 over it, in Launch/Wake.
-- * os/periodic.c and os/periodic.h: Periodic.antt, the background tasks. Periodic/Splice is about a
--   place in the circular list, Periodic/Turns and Alarm about the task that is due, Periodic/Added
--   about a new one.
-- * hw/uart.c, the port: Uart.antt has the interrupts and the output, Uart/Input the line editor.
--   Uart/Order and Uart/Sends are about the order of what goes out, Uart/Receive about what comes
--   in, Uart/Editor and Uart/Entered about the line and the memory.
-- * os/interpreter.c, the commands: Interp.antt has the hash of a command's name, with Interp/Xor
--   and Interp/Hash; Interp/Session has a round of the loop, over the line editor, the scheduler, the
--   timer and the heap, and Interp/Answers what it answers.
-- * hw/gpio.c and hw/gpio.h, with init_subsystem of hw/sys.c: Gpio.antt, on the registers by address;
--   Gpio/Stores is about the stores to their aliases, Gpio/SetUp about init_gpio.
-- * hw/timer.c and hw/timer.h: Timer.antt, with the uptime in Timer/Uptime.
-- * Base.antt holds what these share: Boolean tests and `if`, lengths, the update of a function.
--
-- The parts meet in the records: the scheduler's Kernel holds a Heap, from which `add_thread` takes
-- its memory and to which `kill` returns it, and a Timer, which `sleep` and `unsleep` arm. A
-- semaphore's list of blocked threads is in the Kernel as well. The port holds two FIFO_t. Context works
-- on the Kernel, whose words of memory have the stacks.
--
-- Numbers are natural numbers, with the wrap of a machine word written out. Pointers are 32-bit
-- addresses. A register of the hardware that the code reads, such as the clock or the number of the
-- core, is an argument. A call runs from its lock to its unlock while no other core is there, and its lock
-- is free when it takes it, so that the loop of `lock` ends at once; behind a call that has left its lock
-- taken, which Sched/Refuse shows of `add_thread`, the next one would spin for ever. Only
-- Spsc/Interleave looks at the accesses of two cores one by one.
--
-- Loops run on fuel, and answer `none` where it ends. The loop of `malloc` has 2^13 rounds of fuel:
-- a walk through the tree of 2^11 - 1 nodes enters a node at most four times. A walk through a list of
-- threads has one round more than there were threads. The bytes of the heap are taken to lie at an
-- address above NULL and to end before BRANCH_NODE. The loops over the sections .data and .bss have
-- one round more than there are bytes. The loop that wakes core 1 has as many rounds as its theorem
-- says are enough for a core 1 that answers.
--
-- Not modelled: an interrupt of a call by the other core or by a handler, but in Spsc/Interleave;
-- drivers that only write configuration registers, the waits for the chip to set a flag, the fault
-- handler, what core 1 does before core1_entry, the jump to a core's first thread, the demonstration
-- programs, the boot loader and the rest of the register map; memory barriers; a task's body. The C
-- library's strtok, sscanf and snprintf are parameters of the interpreter, whose string literals are
-- only named.
pub mod Base
pub mod Heap
pub mod Spsc
pub mod Timer
pub mod Sched
pub mod Sema
pub mod Periodic
pub mod Mpmc
pub mod Context
pub mod Uart
pub mod Interp
pub mod Launch
pub mod Boot
pub mod Gpio
