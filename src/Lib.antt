-- ===== src/Lib.antt =====
-- toywasm, a WebAssembly interpreter in C: what its core relies on, as definitions translated from
-- the source.
--
-- The program reads a module in the binary format (lib/module.c, with lib/decode.c and lib/leb128.c),
-- validates each function body while it reads it (lib/expr.c, lib/insn.c and lib/validation.c), builds
-- an instance (lib/instance.c), and runs the code in place (lib/exec.c, lib/insn.c), where the
-- instructions on memories and tables go through lib/exec_insn_subr.c. lib/module_writer.c writes a
-- module back. On top of these are the WASI functions (libwasi), a dynamic linker (libdyld) and the
-- command line (cli).
--
-- The files:
--
-- - Prelude and its children: shared names, Boolean tests, lists measured by native numbers, bits of
--   native numbers, integers, and the errno values and results of the C functions.
-- - Leb128: lib/leb128.c, function by function. A pointer and its end are the list of the bytes in
--   between; the `_nocheck` readers fault where the list ends. Leb128/Grammar states uN and sN of the
--   binary format, to which the readers are compared. Leb128/Write has write_leb_u32 of
--   lib/module_writer.c, whose loop has fuel for the five groups that 32 bits can take.
-- - Decode: lib/decode.c, the readers of bytes and vectors. Decode/Progress states that they go forward
--   and write inside of what they have allocated.
-- - Types: lib/valtype.h, the functions on value types of lib/type.c and lib/cell.c, and the structures
--   of lib/type.h for function types, limits and imports. Types/Lookup has the types that an
--   instruction names (lib/type.c, lib/insn.c), and Types/Lookup/Typed states what makes a module
--   loaded: type indexes in bounds, and types made of value types.
--   Types/Lookup/Blocktypes says what a block type stands for.
-- - Loader: lib/module.c, the readers of types, and in Loader/Names and Loader/Sections the names and
--   the sections of types, imports, functions, tables and memories, which leave a loaded module.
--   Loader/Names/Encoded states the encoding of UTF-8, with which the check of names is compared there and
--   in Loader/Names/Encoded/Inverse.
-- - Validation: lib/validation.c, the stack of operands and the stack of control frames, as steps on a
--   context (`struct validation_context`, with the parts of `ei` that they change). Validation/Invariant
--   states when a context is valid: the frames cut the operand stack into segments, and `ncells` counts
--   the cells of the reachable ones. Validation/Safe states what holds of a step's success and that it
--   is no fault. Validation/Operands, Pushes and Control go through the operations. Validation/Slots and
--   Fills are about the jump table: each open frame has slots of its own there, which are not filled.
--   Validation/Sound puts these together to the context between two instructions: valid, with at most
--   2^28 operands, value types in the frames, the slots open, and the function's frame as the outermost.
-- - Insn: the VALIDATING branches of lib/insn_impl_control.h, with the bytes behind the opcode as the
--   pointer `p`; they are the clients of Validation, Decode and Types/Lookup. Insn/Blocks, Ends,
--   Branches and Calls show that each keeps a sound context. Insn/Opcodes and Insn/Expr are lib/expr.c:
--   the tables of opcodes, and the loop over the instructions, with fuel for one step for each byte.
-- - Insn/Operations: the VALIDATING branches of lib/insn_impl_base.h and of the macros of lib/insn_op.h,
--   for operands, variables, tables and memories. Insn/Bulk has those of lib/insn_impl_fc.h, and
--   Insn/Immediates what follows an opcode (lib/insn_macros.h, read_memarg of lib/insn.c) and lib/bitmap.c.
--   Insn/Numeric says of which macro each instruction on numbers is. Insn/Lists has the tables of the
--   opcodes (lib/insn_list_base.h, lib/insn_list_fc.h).
-- - Insn/Annotations: record_type_annotation of lib/validation.c, and find_type_annotation of lib/exec.c,
--   which looks up what it has noted. Validation/Quiet and Insn/Quiet follow the annotations and the
--   bitmap of references through the other operations; Insn/Steady and Carried put this together with
--   the sound context to what each instruction of a table keeps.
-- - Memory: the linear memories of lib/exec_insn_subr.c (memory_getptr2, memory_init,
--   memory_grow_impl), table_access, and resize_array of lib/util.c. The bytes of a memory are a
--   function of the address.
-- - Idalloc: lib/idalloc.c, the allocator of thread identifiers, whose slots Idalloc/Slots goes through.
--   Idalloc/Sets reads an allocator as the set of the identifiers in use.
-- - Timeutil: lib/timeutil.c, on a host with a signed 64-bit time_t, with what the clocks say as
--   parameters. Timeutil/Sums reads times as nanoseconds; Timeutil/Clocks has the conversions.
-- - Endian: lib/endian.c, for a host of either byte order; Endian/Decode and Endian/Encode.
--
-- Where a file is named Tests, it has runs at concrete inputs.
--
-- Choices. Numbers are natural numbers, and the wrap-around of a 32-bit or 64-bit operation is written
-- out. An assertion that fails, an access outside the memory that the caller gave, and an undefined
-- shift are the result `fault`. One assertion is told apart: valtype_cellsize (lib/cell.c) has no case for
-- `exnref` without exception handling, though is_valtype accepts it, so a module that names `exnref` can
-- make `xassert(false)` there end the program. That end is the outcome `xassert`, which stands among the
-- errors in the statements, and a statement that no other assertion fails names it. The configuration is the default one on a host with 64-bit pointers:
-- small cells, SIMD, neither exception handling nor threads. What realloc answers is a parameter (a
-- function of the size, for each vector in `Env`, and `Realloc` for memories). What is assumed of it is
-- a hypothesis, `IsModest`: no vector of more than 2^28 value types (1 GiB) is granted. The spare elements
-- of a vector are not modelled: a vector of 2^31 elements or more, for which the doubled size would wrap
-- around, does not arise. On a failure only the errno is kept, since the caller gives the context up.
--
-- There is one memory (its index is a zero byte), and the proposals for extended constant expressions,
-- exceptions and threads are off. The table of the vector instructions is an argument of the reader of
-- expressions, with what it must keep as a hypothesis: a sound context, notes in front of the pointer,
-- the bitmap of references, and no byte in front of where it began.
--
-- Not modelled: the sections of globals, exports, elements, code and data, the validators of the vector
-- instructions, the execution of the single instructions, instances, threads and scheduling, WASI, the
-- dynamic linker and the command line. The set-up of the locals of a function, which are a list in
-- `Code`, and the freeing of memory are left out.
pub mod Prelude
pub mod Decode
pub mod Endian
pub mod Idalloc
pub mod Insn
pub mod Leb128
pub mod Loader
pub mod Memory
pub mod Timeutil
pub mod Types
pub mod Validation
