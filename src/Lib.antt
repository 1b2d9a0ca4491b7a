-- ===== src/Lib.antt =====
-- Katara: a compiler from a small language to x86-64, by way of an intermediate representation (ir).
--
-- The source text goes through the scanner (src/lang/processors/scanner) to the parser and the type
-- checker; positions in it are kept by the file set (src/common/positions). Integers and Booleans of the
-- language and of the ir, constant folding and the interpreter compute with src/common/atomics. The
-- last steps find which values of the ir live together (src/ir/analyzers), give them registers by colouring
-- their interference graph (src/ir/info), write instructions (src/x86_64/instrs), whose operands are encoded by
-- src/x86_64/ops.cc, and patch the addresses of functions and blocks into them (src/x86_64/machine_code).
--
-- Files of this library:
-- - Prelude: names of the libraries, decisions on lists of bytes, integers over the native numbers, and
--   `Result`, the outcome of a C++ function: a value, a call of `fail`, an exception, or undefined
--   behaviour.
-- - Atomics (src/common/atomics): IntType and Ops are the enumerations, Cpp the rules of C++ for integer
--   promotion, the usual arithmetic conversions and overflow, Int and Compute the functions of
--   `Int` (here `AtomicInt`), `Bool` and the free functions on them. CastLaws, Conversions,
--   Arithmetic, Comparison, Overflow, Shifts and Names hold the theorems, Tests the runs.
-- - Positions (src/common/positions): File is `File` with its table of line starts, FileSet is
--   `FileSet`; Lines holds the theorems on line numbers.
-- - Scanner (src/lang/processors/scanner and src/lang/representation/tokens): Token is the enumeration
--   with its numbers, Loops the loops over bytes, Next the function `Scanner::Next` and Words the table
--   of keywords; Scanned, Progress and Tokens hold the theorems.
-- - X86 (src/x86_64/ops.h and ops.cc): Ops are the operands, Encode their encodings, Address the
--   processor's reading of them, which is the specification; Bits has the bit operations as
--   arithmetic, and Addressing, MemOperands, Registers and Equality the theorems.
-- - Interpreter (src/ir/interpreter/heap.h and heap.cc): Heap is the heap with its sanitizer, Ranges has
--   the laws of overlapping ranges, Freeing, RawBytes and Storing the theorems. The bytes of the
--   machine's memory are a function from addresses, and the address that `malloc` of the C library returns is an
--   argument of `malloc`, since it is no code of this repository; addresses and the ends of ranges are
--   taken to be within `int64_t`.
-- - Interference (src/ir/info/interference_graph.h and .cc, src/ir/analyzers/interference_graph_colorer.cc): Sets
--   are the sets of numbers, Graph is `InterferenceGraph`, Colors the colours and the colouring; Refines has
--   the abstract view of the graph, Built the graphs that its operations build, Pigeons the argument that
--   a colour is found, Proper the theorem on the colouring. The order in which a hash table gives its
--   elements is left open: the colouring takes it as an argument.
-- - Instrs (src/x86_64/instrs, src/x86_64/machine_code/linker.cc, src/common/data): Encoder is `InstrEncoder`, with
--   its pointers as indices into the code; Data, Stack, Arithmetic, Products and Control are the instructions, Linker the data
--   views and the linker. Operand and Sized say what the processor reads, Lists, Writing, Written and Prefixes follow
--   the bytes of an instruction; Single, Linking, Patches and Jumps hold the theorems. A `DataView` is the address
--   of its first byte and its size. The bytes that a view held before are an argument of the encoder.
-- - Liveness (src/ir/info/block_live_ranges.cc and func_live_ranges.cc, src/ir/analyzers/live_range_analyzer.cc and
--   interference_graph_builder.cc, with what they read of src/ir/representation): Code are functions and
--   blocks, Ranges, Analyzer and Builder the code; Live says which values are live where, Edges, Updates,
--   Operations, Walks, Apart and Registers hold the theorems. An instruction in a range is its index in its block.
--   Operands are the operands of colours (src/x86_64/ir_translator/register_allocator.cc).
--   Growth, Flow, Visit, Queue and Drain follow the loop over the queue, Known, Uses, Backwards, Phis and Start the loop
--   before it; Complete says which values are live along the paths of a function, and Allocation has the theorems on
--   all steps together. `steps_for` counts the values that a block can still get and the blocks in the queue. The order
--   in which the queue, a hash table, gives its blocks is left open: it is an argument, `pick`.
-- - Ir (src/ir/representation, src/ir/check/checker.cc, src/ir/interpreter): Types and Instrs are types, values, constants and
--   instructions, Issues, Checks, Calls and Blocks the checker, with its issues as a list; Execution, Memory, Machine and
--   Steps the interpreter. An outcome `wrong_class` is a cast of a constant to a class that it does not have, which the
--   code does not test. Evaluation, Soundness, HeapSoundness, Reports, Checked and CallSoundness say that checked code
--   keeps types, Shape and Phis what the checker accepts, Loading that memory keeps values. The state of the C library's
--   `malloc` is an argument. Types are the atomic ones, since those of the language are lowered before a program runs.
--
-- An `Int` holds a C++ integer of one of eight types; the model is the type and the value, and
-- `IsValid` says that the type holds it. Every other width is written out. The loops of the
-- scanner run on the number of bytes left, which bounds them since each round takes one byte; no
-- other function needs fuel but the loop over the queue of blocks in Liveness/Analyzer, for which
-- `steps_for` of Liveness/Complete is enough, and `run` of Ir/Steps, which makes so many steps of a program as it is
-- given, since a program need not end. A write through a null
-- pointer, which the encoder of operands leaves to its callers to avoid, is undefined in the
-- model.
--
-- Not modelled: the parser, the type checker, changes, dominators and serialization of the ir, the checks of the
-- definitions and uses of a function, the debugger, the translation of the ir, but for
-- the operands of colours, to instructions, their decoder, and all
-- that reads or writes files or prints.
pub mod Prelude
pub mod Atomics
pub mod Positions
pub mod Scanner
pub mod X86
pub mod Interpreter
pub mod Interference
pub mod Instrs
pub mod Liveness
pub mod Ir
