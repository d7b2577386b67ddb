-- ===== src/Lib.antt =====
-- iosdbg is a debugger for processes on iOS. It keeps the state of the process that it is
-- attached to, the debuggee, with lists of its threads, its breakpoints and its watchpoints.
-- Commands change these lists and the debug registers of the threads; the exceptions that the
-- kernel delivers are looked up in them.
--
-- Base holds what all files share. Base.Int has the signed integers over the numbers that the
-- decision procedures read, and Buffer the blocks of memory that `realloc` and `memmove` change.
--
-- The containers: LinkedList is source/linkedlist.c, on a heap of nodes that is a partial
-- function from addresses; LinkedList.Items says on sequences what it promises, and Breakpoint
-- and Watchpoint are modelled over those sequences. Stack is source/stack.c, Queue
-- source/queue.c and Array source/array.c, each with its block of slots; an access outside the
-- block is a fault, `none`.
--
-- Debuggee holds the state: `struct debuggee` of source/debuggee.h, the structures of
-- source/thread.h, source/breakpoint.h and source/watchpoint.h, and the calls of the kernel as a
-- record `Kernel` over a type `W` of its states, which is a parameter everywhere. Thread is the
-- part of source/thread.c that searches the threads, moves the focus and edits the debug
-- registers, with Thread.Update for the update of the list; Thread.Registers.HasRegisters says
-- what the kernel documents of the debug registers. Memory is the part of source/memutils.c that
-- reads and writes the memory of the debuggee. Breakpoint is source/breakpoint.c, its changes to
-- the list in Breakpoint.State; Breakpoint.Inv has the invariant, Breakpoint.Reach the operations
-- as steps, and Breakpoint.Written.HasMemory what the kernel documents of the memory. Watchpoint
-- is source/watchpoint.c, with Watchpoint.Inv and Watchpoint.Reach, and Branch is
-- source/disas/branch.c. Strext is the part of source/strext.c
-- that edits and searches strings, Expr the part of source/expr.c that reads the characters of
-- an expression, Expr.Multiply what it puts into one, and Expr.Evaluate its evaluator over two
-- stacks of Stack, on the integers of Base.Arith. Convvar is source/convvar.c, the variables of
-- the user. Sigsupport is source/sigsupport.c. Exception is source/exception.c: what the
-- debugger does on a signal, a watchpoint, a breakpoint or a software step, with the operations
-- of Breakpoint and Watchpoint. Samples holds a kernel and a debuggee for the files named Tests.
--
-- A function of the source keeps its name, but for `find_thread_from_ID`,
-- `find_thread_from_TID`, `CFSwapInt32`, `CFSwapInt64` and `_array_remove`, which are
-- `find_thread_from_id`, `find_thread_from_tid`, `cf_swap_int32`, `cf_swap_int64` and
-- `array_remove_idx`. A function that changes a state takes it as an argument and returns the
-- new one; an error text is a value of `Error`, and a text for the user is left out or a value
-- of `Warning`.
--
-- Bounds. The loops of LinkedList take a number of rounds, and one more than the nodes is
-- enough. The loop of `read_memory_at_location` has `len + 1` rounds: each reads at least one
-- byte of a range that is served. The loops of `find_end_of_operand` and `add_mults` have one
-- more round than the string characters, and so has that of `evaluate`, whose loops over the
-- operators have two more. Addresses, lengths and capacities wrap at 2 ^ 64 where the source
-- computes with them; an `int` of Stack and Queue that leaves its range is a fault. Ids
-- and hit counts are not bounded.
--
-- Not modelled: the locks, and the freeing of memory, but for that of variables in Convvar;
-- `malloc` and `realloc` succeed, and `malloc` gives the address that is passed in. The thread
-- and neon states, the formatting of strings, the disassembler, the commands, the values of
-- variables in an expression, the printing of variables, the messages of the exception server
-- and the texts that describe an exception, the symbols and the terminal are not part of this
-- development.
pub mod Base
pub mod Buffer
pub mod LinkedList
pub mod Stack
pub mod Queue
pub mod Array
pub mod Debuggee
pub mod Thread
pub mod Memory
pub mod Breakpoint
pub mod Branch
pub mod Watchpoint
pub mod Strext
pub mod Expr
pub mod Convvar
pub mod Sigsupport
pub mod Exception
pub mod Samples
