-- ===== src/Tests/Opt.antt =====
-- codegen/src/opt/ at concrete inputs: the function of the source's tests, which returns slot 0.
use merak.Prelude.{ℕ, suc, ◌+◌, ◌*◌, Bool, true, ◌≡◌, refl, List, [], ◌∷◌, Option, none, some}
use merak.Prelude.Int.{pos}
use merak.Symbols.Id.{named}
use merak.Ast.Operator.{BinaryOperator}
use merak.Ir.Operand.{int, location, constant}
use merak.Ir.Terminator.{return}
use merak.Lowering.Instruction.{
  LoweredInstruction, binary_op, storage_store, load_constant, LoweredCfg,
}
use merak.Lowering.Execution.{Machine, returned, run_from}
use merak.Opt.Pipeline.{run_to_fixed_point}
use merak.Opt.DeadCode.{run, dead_instruction_elimination}
use merak.Opt.DeadCode.Meaning.{run_from-run}
use merak.Opt.DeadCode.FixedPoint.{
  count, IsCleaned, run_to_fixed_point-dead_instruction_elimination,
}

abbrev make_cfg : List LoweredInstruction → LoweredCfg
make_cfg insts = record {
  name = "test";
  function_id = named "test" 0;
  blocks =
      (
        0,
        record {
          id = 0;
          instructions = insts;
          terminator = return (some (location 0));
          predecessors = [];
          successors = [];
          loop_invariants = none;
          loop_variants = none;
        },
      )
      ∷ [];
  entry = 0;
  register_map = [];
  storage_layout = record { slots = []; next_slot = 0 };
  register_types = [];
  parameters = [];
  frame_base = 0x80;
  is_external = true;
}

-- Slot 2 is read only by the instruction for slot 1, which is read by none: two rounds drop both.
abbrev dead_chain : LoweredCfg
dead_chain = make_cfg (
    load_constant 2 (int (pos 42))
    ∷ binary_op 1 BinaryOperator.add (location 2) (location 2)
    ∷ load_constant 0 (int (pos 10))
    ∷ storage_store 0 (constant (int (pos 99)))
    ∷ [])

abbrev cleaned : LoweredCfg
cleaned = make_cfg (load_constant 0 (int (pos 10)) ∷ storage_store 0 (constant (int (pos 99))) ∷ [])

two_rounds : run_to_fixed_point 5 (dead_instruction_elimination ∷ []) dead_chain ≡ some cleaned
unfolding run_to_fixed_point
two_rounds = refl

-- Every value is a number and the world is the word last stored.
abbrev word_machine : Machine ℕ ℕ
word_machine = record {
  binary = λ op a b. a + b;
  unary = λ op a. a;
  value_of = λ c. 10;
  is_nonzero = λ v. true;
  load = λ slot w. w;
  store = λ slot v w. v;
  invoke = λ target args w. (0, w);
}

run_from-run_example :
    run_from word_machine (run dead_chain).0.blocks 3 0 (λ s. 0) 7
    ≡ run_from word_machine dead_chain.blocks 3 0 (λ s. 0) 7
run_from-run_example = run_from-run word_machine dead_chain 3 (λ s. 0) 7

value_returned : run_from word_machine dead_chain.blocks 3 0 (λ s. 0) 7 ≡ returned (some 10) 10
unfolding run_from merak.Prelude.Map.get
value_returned = refl

run_to_fixed_point-dead_instruction_elimination_example :
    (out : LoweredCfg) × (run_to_fixed_point
        (suc (count dead_chain.blocks))
        (dead_instruction_elimination ∷ [])
        dead_chain
      ≡ some out)
    × IsCleaned dead_chain out
run_to_fixed_point-dead_instruction_elimination_example =
    run_to_fixed_point-dead_instruction_elimination dead_chain
