-- ===== src/Errors.antt =====
-- errors/src/lib.rs: the errors of the compiler's phases. The texts of messages are left out, those of
-- the types and operators that they print too; names, numbers and places are kept.
use merak.Prelude.{ℕ, String}
use merak.Ast.Node.{SourceRef}

pub data MerakError : Type 0 where
  parse_error semantic_error internal_error name_resolution constraint_solving_failed : MerakError
  invalid_path not_found : String → MerakError
  duplicate_states_declaration duplicate_states_definition : String → SourceRef → MerakError
  undefined_variable undefined_function : String → SourceRef → MerakError
  variable_already_declared constant_redefinition function_redefinition :
      String → SourceRef → MerakError
  type_mismatch base_type_mismatch incompatible_types invalid_operator_for_type :
      SourceRef → MerakError
  arity_mismatch : String → ℕ → ℕ → SourceRef → MerakError
  return_value_in_void_function missing_return_statement : SourceRef → MerakError
  loop_invariant_entry_violation loop_invariant_preservation_violation : SourceRef → MerakError
  postcondition_violation loop_variant_not_decreasing loop_variant_not_bounded :
      SourceRef → MerakError
  storage_access_after_external_call : String → SourceRef → SourceRef → MerakError
  write_to_immutable : String → SourceRef → MerakError
  old_invalid_use : SourceRef → MerakError
  not_callable : String → SourceRef → MerakError
  member_call_on_non_contract : SourceRef → MerakError
  undefined_method : String → String → SourceRef → MerakError
