-- ===== src/Lib.antt =====
-- The ARM simulator of arm_simulator-1.4: an ARMv5 processor with its registers, its memory and its
-- exceptions, the debugger's packets that inspect and run it, and the programs and outputs around it.
--
-- The parts and their files; the source files are those of arm_simulator-1.4/. A part's definitions
-- stand in the file of its name, or in the children of it that the table lists; the other children
-- hold proofs.
--   Util              util.h, util.c: bit fields, shifts, rotations, on words below 2 ^ 32
--   Memory            memory.c: a block of bytes with its size and its byte order
--   Constants         arm_constants.h: numbers of modes, exceptions, flags and registers, with
--                     Constants/Names (arm_constants.c: their names)
--   Registers         registers.c: 37 registers and the table that finds them by mode and number
--   Core              arm_core.c: the processor; its accesses and the fetch, with Core/Print
--                     (arm_print_state)
--   Exception         arm_exception.c, and arm_create of arm_core.c, which raises a reset;
--                     Exception/Manual is the manual's table of the exceptions
--   DataProcessing    arm_data_processing.c, with DataProcessing/Flags (getCarryFlag,
--                     getOverflowFlag) and DataProcessing/Operand (getShifterOperand)
--   BranchOther       arm_branch_other.c: B, BL, SWI, MRS, MSR
--   LoadStore         arm_load_store.c, with LoadStore/Addressing (condition_passed and the
--                     addressing modes) and LoadStore/Transfer (executeInstr_*)
--   Instruction       arm_instruction.c: the condition table, the choice of a decoder, arm_step
--   Gdb               gdb_protocol.c: Gdb/State (the state, and what is sent), Gdb/Words (words in
--                     packets), Gdb/Handlers and Gdb/Run (the handlers), Gdb/Packet (the table and
--                     the analysis of a packet), Gdb/Traced (the handlers that switch the trace off
--                     around what they do to the registers), and Gdb/Text (the C library's text
--                     functions)
--   Simulator         arm_simulator.c: the options, the start, and the events of its threads
--   Trace             trace.c: the switches, the file, the stack of locations, and the lines that are
--                     printed, with Trace/Accesses (the accesses of arm_core.c with their trace calls,
--                     and trace_location.h) and Trace/Print (trace_arm_state, and arm_print_state with
--                     the traces of its reads); Trace/Client describes code that uses the accesses,
--                     with locations nested in the arguments of others, and Trace/Functions has
--                     the functions of arm_branch_other.c as such code
--   Scanner           scanner.l: the rules that cut what the debugger sends, and what each does;
--                     Scanner/Grammar is the description of their patterns
--   Debug             debug.c: the sorted array of files whose messages are printed
--   Sender            send_irq.c: the number that the sender of interrupts sends
--   MemoryTest        memory_test.c: the test program of the memory
--   Invariant         what all instructions keep, one rule for each way to build a command
--   Base              names and lemmas that all parts share, and how a C function ends
--   Samples           one instance of every theorem below
--
-- How the parts interact: arm_step fetches a word through the processor, tests its condition, gives
-- it to the decoder of its class, and raises the number that the decoder returns as an exception.
-- Every decoder changes the processor only through the accesses of Core, and those change the
-- registers and the memory only through the accesses of Registers and Memory.
--
-- The accesses print a trace of themselves. The instructions are modelled over the accesses of Core,
-- which have no trace calls; Trace/Accesses has the same accesses with their trace calls and with the
-- location that the macros put around each call, and Trace/Functions the functions of
-- arm_branch_other.c over these. arm_data_processing.c, arm_load_store.c, arm_exception.c and
-- arm_instruction.c stand without their traces. The debugger's own accesses of the
-- registers are made with the trace disabled; Gdb/Traced has their handlers with these calls.
--
-- The debugger and the sender of interrupts reach the processor from two threads that take turns by a
-- lock, so what they do is a sequence of events. A packet of the debugger is checked against its
-- checksum and acknowledged, and its first letter chooses a handler, which reads and writes the
-- processor through the accesses of Core, and the memory, which it shares with the processor. The
-- scanner finds the packets in the text of a connection, and drops the characters between them.
--
-- How the code is modelled. A function of the source keeps its name, in lower case with underscores.
-- One that takes an arm_core is a command, from the state of the processor to an outcome with the
-- state after it. An outcome is a normal return, undefined behaviour (an access outside an array, or
-- a read of a variable that was never set), exit(0), or an assert that fails. A result of -1 from an
-- access of memory is none. A word is a number below 2 ^ 32 and every operation wraps as the source
-- does; a negative int is its two's complement. A pointer argument that a function only sets is part
-- of its result. The byte and register arrays are functions of the index, with the bounds checked
-- where the source indexes them. What malloc leaves in a block is an argument of the definition.
--
-- A handler of the debugger is an action, from the state of the protocol to an outcome; what is written
-- to the socket is collected in a list. A pointer into a text is the list of the bytes from it to the
-- end of the array. sscanf, atoi, index, isspace and sprintf are modelled for the formats that the code
-- uses; a number that does not fit, and a variable that sscanf does not set and that is read, is
-- undefined behaviour. A line that is printed is its format with its values.
--
-- Bounds and fuel. Loops with a fixed number of rounds recurse on the rounds that are left. The loop
-- of nb_set_bits runs on fuel 17, a round for each of the 16 bits and one to see that none is left.
-- cont of the debugger waits for a breakpoint, which may never come: it is given a number of rounds and
-- tells whether they were enough. The loops over the bytes of a word in a packet have five tests at
-- most, the search for a file one round for each name and one to leave, and the search for an
-- exception's name 256, of which the eighth leaves, since there are seven names.
-- C leaves a shift by 32 or more undefined; the shifts by a computed count read the lowest five bits
-- of the count, as the instructions of the x86 executables in the repository do.
-- The scanner is given a bound on the tokens of a text; one for each character is enough.
--
-- Not modelled: sockets, the creation of threads, and the usage text of arm_simulator.c; debug
-- messages; the generated scanner.c and config.h; and csapp.c, a copy of third-party code. free leaves
-- no state of the processor, and is left out. The byte order of the host, is_big_endian of util.c, is an
-- argument where it matters. The scanner that flex generates is taken to match as flex documents it: the
-- longest match, and of two equally long ones the first rule; a newline that no rule matches is printed.
-- A write to the socket, Rio_writen of csapp.c, is recorded and taken to succeed; after the command to
-- kill, which shuts the socket down for writing, it fails and ends the program. The trace of the state
-- that step and cont make after each instruction, trace_arm_state, is in Trace/Print, and not in
-- Gdb/Run, which stands over Core as the instructions do.
pub mod Base
pub mod Util
pub mod Memory
pub mod Constants
pub mod Registers
pub mod Core
pub mod Exception
pub mod DataProcessing
pub mod BranchOther
pub mod LoadStore
pub mod Instruction
pub mod Gdb
pub mod Scanner
pub mod Simulator
pub mod Trace
pub mod Debug
pub mod Sender
pub mod MemoryTest
pub mod Invariant
pub mod Samples
