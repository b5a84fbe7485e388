-- ===== src/Ir/Ssa.antt =====
-- ir/src/ssa_ir.rs: the SSA instructions, the control flow graph of a function, and the methods that build
-- it. The caches of the graph, and its dominance and loops, which are computed from it, have no field.
pub mod Mirrored
use merak.Prelude.{
  ℕ, ◌+◌, ◌-◌, String, Bool, true, false, Option, none, some, List, [], ◌∷◌, ◌++◌, nat_eq,
  if◌then◌else◌, ◌==◌,
}
use merak.Prelude.Map.{Map, get, insert}
use merak.Ast.Node.{SourceRef}
use merak.Ast.Operator.{BinaryOperator, UnaryOperator}
use merak.Ast.Predicate.{Predicate}
use merak.Ast.Types.{BaseType}
use merak.Ast.Statement.{StateVar, StateConst}
use merak.Symbols.Id.{SymbolId}
use merak.Ir.Operand.{Register, Operand, CallTarget}
use merak.Ir.Terminator.{BlockId, Terminator, branch, jump, return, unreachable, BasicBlock}

abbrev pub SsaOperand : Type 0
SsaOperand = Operand Register

pub data AssertKind : Type 0 where
  user_assert : AssertKind

pub data SsaInstruction : Type 0 where
  copy : Register → SsaOperand → SourceRef → SsaInstruction
  phi : Register → List (BlockId × Register) → SsaInstruction
  binary_op : Register → BinaryOperator → SsaOperand → SsaOperand → SourceRef → SsaInstruction
  unary_op : Register → UnaryOperator → SsaOperand → SourceRef → SsaInstruction
  storage_load : Register → SymbolId → SourceRef → SsaInstruction
  storage_store : SymbolId → SsaOperand → SourceRef → SsaInstruction
  call : Option Register → CallTarget → List SsaOperand → SourceRef → SsaInstruction
  unfold_var fold_var : SymbolId → SourceRef → SsaInstruction
  assert : SsaOperand → AssertKind → SourceRef → SsaInstruction

abbrev pub dest_register : SsaInstruction → Option Register
dest_register (copy dest source sr) = some dest
dest_register (phi dest sources) = some dest
dest_register (binary_op dest op l r sr) = some dest
dest_register (unary_op dest op e sr) = some dest
dest_register (storage_load dest var sr) = some dest
dest_register (call dest target args sr) = dest
dest_register (storage_store var value sr) = none
dest_register (fold_var var sr) = none
dest_register (unfold_var var sr) = none
dest_register (assert condition kind sr) = none

abbrev pub ssa_operands : SsaInstruction → List SsaOperand
ssa_operands (copy dest source sr) = source ∷ []
ssa_operands (binary_op dest op l r sr) = l ∷ r ∷ []
ssa_operands (unary_op dest op e sr) = e ∷ []
ssa_operands (storage_store var value sr) = value ∷ []
ssa_operands (call dest target args sr) = args
ssa_operands (assert condition kind sr) = condition ∷ []
ssa_operands (phi dest sources) = []
ssa_operands (storage_load dest var sr) = []
ssa_operands (unfold_var var sr) = []
ssa_operands (fold_var var sr) = []

abbrev pub is_verification_only : SsaInstruction → Bool
is_verification_only (phi dest sources) = true
is_verification_only (unfold_var var sr) = true
is_verification_only (fold_var var sr) = true
is_verification_only (assert condition kind sr) = true
is_verification_only inst = false

abbrev pub ssa_has_side_effects : SsaInstruction → Bool
ssa_has_side_effects (storage_store var value sr) = true
ssa_has_side_effects (call dest target args sr) = true
ssa_has_side_effects inst = false

-- `Terminator::successors`
abbrev pub terminator_successors : Terminator SsaOperand → List BlockId
terminator_successors (jump target) = target ∷ []
terminator_successors (branch condition then_block else_block) = then_block ∷ else_block ∷ []
terminator_successors (return value) = []
terminator_successors unreachable = []

abbrev pub SsaBlock : Type 0
SsaBlock = BasicBlock SsaInstruction SsaOperand

pub record SsaCfg : Type 0 where
  pub name : String
  pub function_id : SymbolId
  pub blocks : Map BlockId SsaBlock
  pub entry : BlockId
  pub next_id : ℕ
  pub parameters : List SymbolId
  pub requires : List Predicate
  pub ensures : List Predicate
  pub local_temps : Map SymbolId BaseType

pub record SsaContract : Type 0 where
  pub name : String
  pub variables : List StateVar
  pub constants : List StateConst
  pub constructor : Option SsaCfg
  pub functions : List SsaCfg

-- `SsaCfg::new`
abbrev pub new_cfg : String → SymbolId → SsaCfg
new_cfg name function_id = record {
  name = name;
  function_id = function_id;
  blocks = [];
  entry = 0;
  next_id = 0;
  parameters = [];
  requires = [];
  ensures = [];
  local_temps = [];
}

abbrev pub empty_block : BlockId → SsaBlock
empty_block id = record {
  id = id;
  instructions = [];
  terminator = unreachable;
  predecessors = [];
  successors = [];
  loop_invariants = none;
  loop_variants = none;
}

unfoldable pub new_block : SsaCfg → BlockId × SsaCfg
new_block cfg = (
  cfg.next_id,
  record cfg {
    next_id = cfg.next_id + 1;
    blocks = insert cfg.next_id (empty_block cfg.next_id) cfg.blocks;
  },
)

-- `if let Some(block) = self.blocks.get_mut(..)`: the write where the block is there.
abbrev pub write_block :
    Option SsaBlock → BlockId → (SsaBlock → SsaBlock) → Map BlockId SsaBlock → Map BlockId SsaBlock
write_block none id change blocks = blocks
write_block (some block) id change blocks = insert id (change block) blocks

unfoldable pub change_block :
    BlockId → (SsaBlock → SsaBlock) → Map BlockId SsaBlock → Map BlockId SsaBlock
change_block id change blocks = write_block (get id blocks) id change blocks

abbrev pub push_instruction : SsaInstruction → SsaBlock → SsaBlock
push_instruction instruction block = record block {
  instructions = block.instructions ++ instruction ∷ [];
}

abbrev pub put_terminator : Terminator SsaOperand → SsaBlock → SsaBlock
put_terminator terminator block = record block { terminator = terminator }

unfoldable pub add_instruction_at : BlockId → SsaInstruction → SsaCfg → SsaCfg
unfolding change_block
add_instruction_at id instruction cfg = record cfg {
  blocks = change_block id (push_instruction instruction) cfg.blocks;
}

unfoldable pub add_terminator_at : BlockId → Terminator SsaOperand → SsaCfg → SsaCfg
unfolding change_block
add_terminator_at id terminator cfg = record cfg {
  blocks = change_block id (put_terminator terminator) cfg.blocks;
}

-- The block made last; before the first the subtraction panics.
unfoldable add_instruction : SsaInstruction → SsaCfg → Option SsaCfg
unfolding add_instruction_at
add_instruction instruction cfg =
    if cfg.next_id == 0 then none else some (add_instruction_at (cfg.next_id - 1) instruction cfg)

unfoldable add_terminator : Terminator SsaOperand → SsaCfg → Option SsaCfg
unfolding add_terminator_at
add_terminator terminator cfg =
    if cfg.next_id == 0 then none else some (add_terminator_at (cfg.next_id - 1) terminator cfg)

abbrev pub contains_block : BlockId → List BlockId → Bool
contains_block id [] = false
contains_block id (x ∷ ids) = if x == id then true else contains_block id ids

abbrev pub push_new : BlockId → List BlockId → List BlockId
push_new id ids = if contains_block id ids then ids else ids ++ id ∷ []

abbrev pub add_successor : BlockId → SsaBlock → SsaBlock
add_successor id block = record block { successors = push_new id block.successors }

abbrev pub add_predecessor : BlockId → SsaBlock → SsaBlock
add_predecessor id block = record block { predecessors = push_new id block.predecessors }

unfoldable pub add_edge : BlockId → BlockId → SsaCfg → SsaCfg
unfolding change_block
add_edge from to cfg = record cfg {
  blocks = change_block to (add_predecessor from) (change_block from (add_successor to) cfg.blocks);
}

unfoldable pub add_param : SymbolId → SsaCfg → SsaCfg
add_param id cfg = record cfg { parameters = cfg.parameters ++ id ∷ [] }

abbrev pub returns : Terminator SsaOperand → Bool
returns (return value) = true
returns terminator = false

unfoldable pub exit_blocks : List (BlockId × SsaBlock) → List BlockId
exit_blocks [] = []
exit_blocks ((id, block) ∷ blocks) =
    let rest = exit_blocks blocks in if returns block.terminator then id ∷ rest else rest
