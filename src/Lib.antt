-- ===== src/Lib.antt =====
-- The Merak compiler: contracts with refinement types, checked against their specifications and
-- compiled to EVM bytecode. A source file is parsed to a tree (parser/, ast/); names are resolved and
-- types checked (symbols/, analyzer/); the tree is brought to SSA form (ir/); refinements are inferred
-- and solved over it (analyzer/src/refinements/); the code generator lowers it to stack slots, plans
-- the stack of each block and emits bytecode (codegen/).
--
-- Files and the code they model:
--   Prelude: numbers, lists, integers, maps and partial results that the parts share. `HashMap` is an
--     association list, a function that can panic answers `none` or the outcome `panic`.
--   Ast: ast/src/. Node has node_id.rs and meta.rs; Types, Statement and
--     Contract have types.rs, statement.rs, contract.rs and function.rs; Predicate has the data of
--     predicate.rs, Operations its `negate`, `contains_old` and `free_variables`, Substitute its two
--     substitutions; Operator and Expression have expression.rs, Conversion its `to_predicate` and `to_refinement_expr`. Meaning
--     and Truth say what a predicate and a condition mean in a state of integer variables; arithmetic
--     and uninterpreted functions are arguments of that meaning.
--   Evm: codegen/src/evm/. Opcode has opcodes.rs, Builder has bytecode.rs: its state is the record
--     BytecodeBuilder, its methods are functions from builder to builder, and a method that can fail
--     answers an outcome. Bytes are numbers below 256; `usize` and `u64` values wrap where they are
--     written out with their width.
--   Lowering: the stack slots of codegen/src/lowering/mod.rs and the memory frame of
--     codegen/src/codegen/instructions.rs.
--   Codegen: codegen/src/codegen/stack_shuffler.rs. Machine is the part of the EVM that its
--     operations need: a stack of values and a memory of slots. Codegen.Instructions has instructions.rs,
--     functions.rs and storage_ops.rs of that directory, Codegen.Terminators has terminators.rs.
--   Codegen.Analysis: codegen/src/analysis/. StackDepth has stack_depth.rs, Allocator stack_allocator.rs
--     with its greedy coloring, Liveness the sets of a block and the intervals of liveness.rs.
--   Ir.Ssa: ir/src/ssa_ir.rs, the SSA instructions, the control flow graph of a function and the methods
--     that build it; Mirrored says which graphs they build.
--   Analyzer.Storage: analyzer/src/storage.rs. CallGraph finds the functions that call outside, States has
--     `compute_storage_states`, Insertion `insert_fold_unfold_instructions`, Validation the checks that follow
--     and `analyze_storage_contract`. A change of a graph answers the graph; a set is a list.
--   Symbols.Id, Ir, Layout: what names a symbol, the operands, terminators and blocks of ir/src/ssa_ir.rs,
--     and the storage layout, as the lowered form needs them.
--   Lowering.Instruction, Lowering.Execution: the lowered form of a function, and what it does: a run
--     from block to block over a register file and a world, for any meaning of its operators and calls.
--   Opt: codegen/src/opt/. Pipeline has mod.rs, DeadCode has lowered/dead_code.rs.
--   Symbols.Table: symbols/src/symbol_table.rs. The record SymbolTable is passed from method to method;
--     Valid and Scoping say which tables the methods make, and what a closed scope gives back.
--   Analyzer.Resolve: analyzer/src/lib.rs. The state is the table with the list of errors so far, and
--     `none` is a panic; Declare has functions, Files contracts, interfaces and files. Analyze has
--     `analyze`, name resolution and then type checking.
--   Analyzer.Typecheck: analyzer/src/typechecker.rs. The table is passed on; the place of the statement
--     and the expected return type, which the checker keeps in cells, are arguments. Typing has the
--     typing rules that inference is measured against.
--   Errors: errors/src/lib.rs, without the texts of messages.
--   Tests: runs of the definitions at concrete inputs.
--
-- The shuffler hands its operations to the builder, and the builder takes its opcodes from Opcode; the
-- conversion of expressions ends in the predicates that the substitutions and the negation work on. The
-- type checker reads the symbols that name resolution connected to the nodes of the tree, the storage
-- analysis the modifiers and types of the table and the edges of a graph. Instructions takes the places of
-- slots from the allocator and labels from the builder, Terminators also plans from the shuffler.
--
-- Bounds: `run_to_fixed_point` runs on a number of rounds, and one more than the function has
-- instructions is enough for dead instruction elimination. `run_from` runs a bounded number of blocks,
-- since a program may loop; what is shown of it holds for every bound. The search for a free color takes
-- one step more than there are colors in use. The worklists over the blocks of a graph take one round
-- more than the graph has edges, since a block pushes its successors once; the search for external calls
-- goes two deeper than there are functions, since it enters each once. All other loops are over a list or a number that shrinks.
--
-- Not modelled: printing (it carries no state); the parser, which a grammar generates; the SMT solver
-- and the Keccak hash, third-party packages; and, so far, refinement inference and
-- solving, SSA construction, dominance and loops, lowering, the worklist of the liveness analysis, and
-- the driver of the code generator with its dispatcher.
pub mod Prelude
pub mod Evm
pub mod Lowering
pub mod Codegen
pub mod Tests
pub mod Ast
pub mod Symbols
pub mod Ir
pub mod Layout
pub mod Opt
pub mod Errors
pub mod Analyzer
