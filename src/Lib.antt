-- ===== src/Lib.antt =====
-- mini-asm: a compiler backend. A module of SSA functions (include/ir.h) is read from text
-- (src/ir/ir_parse.c) or built by calls (src/ir/ir_builder.c), optimized (src/backend/opt.c), given
-- registers (src/backend/regalloc.c) and printed as assembly for one of five targets (src/targets).
--
-- Base holds the shared helpers: tests on numbers, lists with native indices, C's `int` and `int64_t`,
-- bitwise operations.
-- Ir models include/ir.h. Ir.Meaning says what the integer opcodes compute on 64-bit registers and when
-- registers solve the equations of a function; Ir.Regs which registers a function reads and defines.
-- Ir.Build models src/ir/ir.c and Ir.FpTable src/ir/ir_fpimm.c.
-- Builder models src/ir/ir_builder.c: Layout the struct layout (type_size_align, ir_type_struct), Named the
-- named types, State the values, the builder and the steps that the operations share, Arith, Memory and
-- Control the operations that append an instruction, Alias the placeholders (ir_value_placeholder,
-- ir_value_define, resolve_vreg, ir_builder_finalize). Builder.Call has the calls of include/ir_builder.h
-- as data, Builder.Ssa counts what a history of calls defines. A type is its address, and 0 is NULL; a step is `none`
-- where the code reads through NULL.
-- Parse models src/ir/ir_parse.c: State the stream, the words and the writes to the module, Names the tables of
-- mnemonics and of named types and registers, Types the types and their declarations, Operand the operands
-- and the string literals, Instrs and Others the branches for instructions, Run functions, blocks and the
-- loop of `parse`. Parse.Halts shows that it comes to an end, Symbols and Literal are about the named registers
-- and the literals. A fault is an error value: a write through NULL, a buffer that was not filled, a read before
-- an array. `strtod` is a parameter.
-- Opt models src/backend/opt.c: Common (func_maxv, has_side_effect), Fold (ir_constfold_func), Dce
-- (ir_dce_func), Alias (algebraic_simplify, phi_simplify, fold_self_icmp, common_subexpr_elim,
-- collaps_ext_chains, local_load_elim, copy_propagate_func), Strength (strength_reduce), DeadBlocks
-- (dead_block_elim; Edges has the branches between blocks and their paths) and Run (ir_optimize_func, ir_optimize).
-- Regalloc models src/backend/regalloc.c: Targets (the register pools and names), Intervals
-- (compute_intervals; Uses, Inputs and Loops have what each pass covers), Scan (the loop of regalloc_run_internal) and Run (the sort, the answer `reg_of`,
-- regalloc_run, regalloc_run_target). The call sites hand a target as `Option`, for `g_target`.
-- Backend models src/backend/backend.c with the descriptions of the targets (Dispatch; the emitters are parameters)
-- and parts of src/targets/x86_64/isel.c: the stack frame (Frame: vreg_off, count_maxv, assign_allocas and the sums
-- of x86_64_emit), the operands, the copies for phis and the saved registers (Moves). A place is a register of the
-- pool or the slot of a virtual register; SCRATCH1, %r10, is not in the pool.
-- Tests holds sample functions, runs of the passes, and the theorems at concrete inputs.
--
-- State. The C code changes a function in place; each pass here returns the new function. The table
-- `alias` is a list of cells that the passes hand on in the order of the code.
-- Bounds and fuel. ir_constfold_func makes at most 16 passes, as in the code. ir_dce_func loops until a
-- round changes nothing; its fuel is one more than the number of instructions, each of which can be
-- removed once. The block search pops each block at most once, so its fuel is the number of blocks.
-- alias_grow doubles at most once more than the register's number. The loops of the parser read a byte in each
-- round, so their fuel is the number of bytes left and one more.
-- is_pow2_u64 shifts a 64-bit word at most 64 times.
-- Arithmetic. An `int64_t` is an integer; folding works on `int` immediates, on which the sums and
-- products of the code do not overflow. A cast writes its wrap-around out.
-- Meaning. The values of floats, addresses and conversions are parameters of the meaning (`rest`,
-- `slot`).
-- Not modelled: the allocation of memory, the text output, the printer, the verifier and the command
-- line tool; the instructions that the back ends print, but for the copies above; `regalloc_dump`.
pub mod Base
pub mod Ir
pub mod Opt
pub mod Builder
pub mod Regalloc
pub mod Parse
pub mod Backend
pub mod Tests
