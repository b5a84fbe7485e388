-- ===== src/Ast/Types.antt =====
-- ast/src/types.rs: base types and refined types. A `Vec` of types is the list type of the block.
use merak.Prelude.{String, Bool, true}
use merak.Ast.Node.{SourceRef, unknown}
use merak.Ast.Predicate.{Predicate, truth}

mutual
  pub data BaseType : Type 0 where
    int address bool string : BaseType
    tuple : Types → BaseType
    function : String → Types → RefinedType → BaseType
    contract : String → BaseType

  -- `Type`: the base, the binder, the constraint, whether it was written, and where.
  pub data RefinedType : Type 0 where
    refined : BaseType → String → Predicate → Bool → SourceRef → RefinedType

  pub data Types : Type 0 where
    nil : Types
    cons : RefinedType → Types → Types

abbrev pub base : RefinedType → BaseType
base (refined b x p e sr) = b

abbrev pub binder : RefinedType → String
binder (refined b x p e sr) = x

abbrev pub constraint : RefinedType → Predicate
constraint (refined b x p e sr) = p

abbrev pub type_source_ref : RefinedType → SourceRef
type_source_ref (refined b x p e sr) = sr

-- `Type::empty_tuple`
abbrev pub empty_tuple : String → RefinedType
empty_tuple x = refined (tuple nil) x (truth 0 unknown) true unknown
