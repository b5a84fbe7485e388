-- ===== src/Analyzer/Resolve/Declare.antt =====
-- analyzer/src/lib.rs: the declarations of functions, interfaces, contracts and programs. `HashSet`s of
-- names and of modifiers are lists.
use merak.Prelude.{
  String, Bool, true, false, ◌&&◌, ◌||◌, Option, none, some, List, [], ◌∷◌, ◌++◌, if◌then◌else◌,
  set, string_eq,
}
use merak.Prelude.Partial.{◌>>=◌}
use merak.Prelude.Outcome.{Outcome, ok, err, panic}
use merak.Ast.Node.{NodeId, SourceRef}
use merak.Ast.Predicate.{Predicate}
use merak.Ast.Predicate.Operations.{contains_old, source_ref, free_variables}
use merak.Ast.Predicate.Substitute.{substitute_vars}
use merak.Ast.Types.{RefinedType, refined, binder, constraint, empty_tuple}
use merak.Ast.Contract.{
  Param, Visibility, internal, entrypoint, Modifier, payable, guarded, reentrant, checked, Function,
}
use merak.Errors.{MerakError, semantic_error, old_invalid_use}
use merak.Symbols.Id.{SymbolId, as_usize}
use merak.Symbols.Table.Key.{value}
use merak.Symbols.Table.{QualifiedName, SymbolKind, SymbolTable, lookup, get_symbol, add_symbol}
use merak.Analyzer.Resolve.{
  Progress, report, add_or_report, in_path, leave_scope, enter_scope, collect_and_resolve_block,
}

abbrev pub same_modifier : Modifier → Modifier → Bool
same_modifier payable payable = true
same_modifier guarded guarded = true
same_modifier reentrant reentrant = true
same_modifier checked checked = true
same_modifier m n = false

abbrev pub contains_modifier : List Modifier → Modifier → Bool
contains_modifier [] m = false
contains_modifier (n ∷ ms) m = same_modifier n m || contains_modifier ms m

abbrev pub is_internal : Visibility → Bool
is_internal internal = true
is_internal v = false

-- The loop of rule 3, with the modifiers seen, and the choice of the one that is left.
abbrev pub one_modifier : List Modifier → List Modifier → Outcome MerakError Modifier
one_modifier [] [] = ok checked
one_modifier [] (m ∷ []) = ok m
one_modifier [] (m ∷ n ∷ seen) = err semantic_error
one_modifier (m ∷ ms) seen =
    if contains_modifier seen m then err semantic_error else one_modifier ms (m ∷ seen)

unfoldable pub validate_modifiers : Function → Outcome MerakError Modifier
validate_modifiers f =
    let has_guarded = contains_modifier f.modifiers guarded in
    let has_reentrant = contains_modifier f.modifiers reentrant in
    let is_hidden = is_internal f.visibility in
    if has_guarded && has_reentrant
    then err semantic_error
    else if is_hidden && has_guarded
    then err semantic_error
    else if is_hidden && has_reentrant
    then err semantic_error
    else one_modifier f.modifiers []

abbrev pub contains_name : List String → String → Bool
contains_name [] x = false
contains_name (y ∷ ys) x = if string_eq.same y x then true else contains_name ys x

-- The members of a `HashSet` built from a list.
abbrev pub distinct : List String → List String
distinct [] = []
distinct (x ∷ xs) = let rest = distinct xs in if contains_name rest x then rest else x ∷ rest

-- The variables that no scope declares, `__self` aside.
unfoldable pub undeclared : SymbolTable → List String → Option (List String)
undeclared t [] = some []
undeclared t (x ∷ xs) = do
  rest ← undeclared t xs
  found ← lookup x value t
  some (if string_eq.same x "__self" then rest else elim found [ some id ↦ rest | none ↦ x ∷ rest ])

abbrev pub rebind : String → String → RefinedType → RefinedType
rebind x new_binder (refined b y p e sr) =
    refined b new_binder (substitute_vars ((x, "__self") ∷ []) p) e sr

abbrev pub bind_undeclared : RefinedType → List String → Outcome MerakError RefinedType
bind_undeclared ty [] = ok ty
bind_undeclared ty (x ∷ []) = ok (rebind x (binder ty) ty)
bind_undeclared ty (x ∷ y ∷ xs) = err semantic_error

unfoldable pub normalize_return_type_binder :
    RefinedType → SymbolTable → Outcome MerakError RefinedType
unfolding undeclared
normalize_return_type_binder ty t =
    if string_eq.same (binder ty) "__self"
    then elim (undeclared t (distinct (free_variables (constraint ty)))) [
      | none ↦ panic
      | some names ↦ bind_undeclared ty names
    ]
    else ok (rebind (binder ty) "__self" ty)

abbrev pub with_return_type : RefinedType → SymbolKind → SymbolKind
with_return_type ty (SymbolKind.function v m ps es rs old) = SymbolKind.function v m ps es rs ty
with_return_type ty (SymbolKind.entrypoint m ps es rs old) = SymbolKind.entrypoint m ps es rs ty
with_return_type ty kind = kind

-- The writes through `get_symbol_mut`.
unfoldable pub set_return_type : RefinedType → SymbolId → SymbolTable → Option SymbolTable
set_return_type ty id t = do
  info ← get_symbol id t
  some (record t {
    symbol_arena =
        set t.symbol_arena (as_usize id)
          (record info { kind = with_return_type ty info.kind; ty = some ty });
  })

abbrev pub check_requires : List Predicate → Progress → Progress
check_requires [] s = s
check_requires (p ∷ ps) s =
    check_requires ps (if contains_old p then report (old_invalid_use (source_ref p)) s else s)

abbrev pub or_unit : Option RefinedType → RefinedType
or_unit (some ty) = ty
or_unit none = empty_tuple "__self"

abbrev pub kind_of : Function → Modifier → Visibility → SymbolKind
kind_of f reentrancy entrypoint =
    SymbolKind.entrypoint reentrancy f.params f.ensures f.requires (or_unit f.return_type)
kind_of f reentrancy v =
    SymbolKind.function v reentrancy f.params f.ensures f.requires (or_unit f.return_type)

-- `old` in the type of a declaration is reported at the declaration.
abbrev pub check_old_at : RefinedType → SourceRef → Progress → Progress
check_old_at ty sr s = if contains_old (constraint ty) then report (old_invalid_use sr) s else s

unfoldable pub add_parameters : List String → List Param → Progress → Option Progress
unfolding add_or_report
add_parameters path [] s = some s
add_parameters path (param ∷ params) s = do
  added ←
      add_or_report param.id (in_path path param.name) SymbolKind.parameter (some param.ty)
        (check_old_at param.ty param.source_ref s)
  add_parameters path params added

-- The symbol of a function, if it could be added.
unfoldable pub add_function :
    NodeId
    → QualifiedName
    → SymbolKind
    → Option RefinedType
    → Progress
    → Option (Option SymbolId × Progress)
add_function node name kind ty (t, errors) = elim (add_symbol node name kind ty t) [
  | ok (id, u) ↦ some (some id, (u, errors))
  | err e ↦ some (none, (t, errors ++ e ∷ []))
  | panic ↦ none
]

unfoldable pub normalize_return : Option SymbolId → Option RefinedType → Progress → Option Progress
unfolding normalize_return_type_binder set_return_type
normalize_return none ty s = some s
normalize_return (some id) none s = some s
normalize_return (some id) (some ty) (t, errors) = elim (normalize_return_type_binder ty t) [
  | ok normalized ↦ set_return_type normalized id t >>= λ u. some (u, errors)
  | err e ↦ some (t, errors ++ e ∷ [])
  | panic ↦ none
]

unfoldable pub declare_function : Function → String → Modifier → Progress → Option Progress
unfolding add_function add_parameters normalize_return
declare_function f contract_name reentrancy s = do
  let path = contract_name ∷ f.name ∷ []
  let name : QualifiedName = record { parts = path }
  (id, declared) ← add_function f.id name (kind_of f reentrancy f.visibility) f.return_type s
  inner ← add_parameters path f.params (enter_scope declared)
  body ← collect_and_resolve_block path f.body inner
  normalized ← normalize_return id f.return_type body
  leave_scope normalized

unfoldable pub collect_and_resolve_function : Function → String → Progress → Option Progress
unfolding declare_function validate_modifiers
collect_and_resolve_function f contract_name s =
    let checked_s = check_requires f.requires s in
    elim (validate_modifiers f) [
      | ok reentrancy ↦ declare_function f contract_name reentrancy checked_s
      | err e ↦ some (report e checked_s)
      | panic ↦ none
    ]
