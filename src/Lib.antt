-- ===== src/Lib.antt =====
-- The programs of an operating systems course, in C: a simulation of paged memory
-- (project4/memory.c), three versions of a command prompt (project1/mc0.c, mc1.c and mc2.c, the
-- last one with background tasks), a monitor for a bathroom shared by two genders
-- (project3/bathroom.c), and two kernel modules that redirect system calls
-- (project2/part1/part1.c and project2/part2/kernMod/kernsysinfo.c). The programs do not call one
-- another, but for procAncestry.c, which makes the system call of kernsysinfo.c.
--
-- Memory/ models project4/memory.c. Memory/State has its globals as the record Machine, the swap
-- file included as its bytes, and a program as a function from a machine to a Run: a value and
-- the machine after it, or fault (an access outside an array, or a null token read through), hang
-- (a loop that never ends) or out_of_fuel. Each message that the program prints is an Event in
-- `out`. Memory/Text has what the program uses of stdio, strtok and atoi, Memory/Frames findfree,
-- robin and the loop that divides an address by the page size, Memory/Swap pageToFile,
-- pageFromFile and swaptomem, Memory/Paging findpte, convert, loadPageTable, loadPage,
-- removePageTable and removePage, Memory/Evict freespace, Memory/Commands store, map, load and
-- command, and Memory/Console main: what it sets up, and its loop. A function keeps its C name in
-- snake case. An unsigned char is a number below 256, with the conversion written out where the
-- source assigns an int; an int that can be negative is in ℤ. Memory/Runs evaluates main on
-- project4/test1.txt and test3.txt. Memory/Sound says what it is for a machine to be sound: the
-- arrays have the sizes of their declarations, the bytes, the flags and the round robin counter
-- are in range. The modules named Sound and MapSound follow it through each component.
-- Memory/Virtual is the abstract memory that store and load stand for: a byte for each process
-- and address, with no frames and no tables. Memory/Virtual/Console writes maps, and its accesses
-- after them, as the input of main. The buffer that pageFromFile fills is on the stack of its
-- caller: a write behind it is counted in `overruns`, and is no fault.
--
-- Commander/Queue models the background queue of project1/mc2.c, and Commander/Shell its prompt:
-- mainprocess and the loop of main, round by round, where a record Input has what comes from
-- outside in a round, and a list of Action has what is seen from outside; Shell/Session is main
-- as a whole. Commander/Children has the child processes around these rounds: those that run and
-- those that have ended, with fork, wait and waitpid as POSIX documents them. Commander/Version0
-- and Commander/Version1 model project1/mc0.c and mc1.c on the same inputs, and Version1/Agrees
-- relates the storage of mc1.c to that of mc2.c. Commander/Menu has the menus of the three
-- versions, and Commander/Report the statistics that their run prints.
--
-- Bathroom/Monitor models what a thread of project3/bathroom.c does while it holds the lock:
-- Enter up to its end or its wait, Enter after the wait, and Leave. Bathroom/System has the
-- threads that are inside, wait, or were woken, and each such piece of code as a step; a wait may
-- end without a signal, as POSIX allows. A write outside one of the two arrays is counted in
-- `overruns`. Bathroom/Threads models Individual and main of project3/bathroomsim.c: each thread
-- with its place in the loop, the rounds that it has left and the times that it collects
-- (Bathroom/Simulation), and a schedule, a list of turns, that says which thread runs next, what
-- it measures, and which wait ends without a signal; Threads/Refines relates it to
-- Bathroom/System, and Threads/Rounds has the rounds that a schedule gives to a thread.
-- Bathroom/Timers has the timers of Enter and Leave, Bathroom/Statistics Finalize, and
-- Bathroom/Rand generateStandardRand. The operations of double and of math.h, and the numbers
-- from drand48, are parameters.
--
-- Kernel/ models project2. Kernel/Search has find_sys_call_table, Kernel/Control the write
-- protection, Kernel/Calls the handlers of part1.c, and Kernel/Part1 and Kernel/Part2 the loading
-- and unloading of the two modules. Kernel/Ancestry has the system call of kernsysinfo.c that
-- lists the children, siblings and ancestors of a process, and Kernel/ProcAncestry the program
-- project2/part2/procAncestry/procAncestry.c that makes it and prints the answer. The words of
-- memory, the numbers of the calls, the original handlers, the addresses and whether kmalloc gives a block are parameters, as
-- they come from the kernel.
--
-- Fuel: the loops that look for a line, split a line into tokens and read the input get one round
-- more than there are characters, and each round uses at least one up. freespace has
-- eviction_fuel = 16 rounds for each of its loops: a round of the first loop evicts a page or
-- breaks where the counter has come round, and of the second one evicts or meets the page that
-- the call has evicted already. Fuel that did not last would give out_of_fuel, a result of its
-- own. search has its rounds as an argument.
--
-- Not modelled: usleep, the wording of the output and the reading of the arguments of the
-- simulation, what the child of a background command does, the release of memory, and the test
-- programs. An int of the simulation and of its statistics, and the count of lines of the swap
-- file, are not bounded. In mc2.c the lines that a case reads are there, fork succeeds, and two
-- things are left out: the zero that is written one byte behind the buffer of a command's line,
-- and that no null pointer ends the words of a command where execvp takes them.
pub mod Prelude
pub mod Memory
pub mod Commander
pub mod Bathroom
pub mod Kernel
