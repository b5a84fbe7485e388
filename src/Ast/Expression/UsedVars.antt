-- ===== src/Ast/Expression/UsedVars.antt =====
-- ast/src/expression.rs: `get_used_vars` and the names that `substitute_vars` looks up.
use merak.Prelude.{String, ◌≡◌, refl, some, All, All-left, All-right, string_eq, ap}
use merak.Prelude.Map.{Map, get}
use merak.Ast.Expression.{
  Expression, literal, identifier, binary_op, unary_op, grouped, function_call, member_call,
  Arguments, nil, cons, substitute_identifiers, map_identifiers, substitute_vars,
  map_substitute_vars, get_used_vars, all_used_vars,
}
use merak.Ast.Expression.Renaming.{rename-get}

abbrev pub IsMapped : Map String String → String → Type 0
IsMapped m x = (y : String) × (get x m ≡ some y)

module _ (m : Map String String) where
  mutual
    unfolding substitute_vars substitute_identifiers get_used_vars

    substitute_vars-some :
        (e : Expression)
        → All (IsMapped m) (get_used_vars e)
        → substitute_vars m e ≡ some (substitute_identifiers m e)
    substitute_vars-some (literal lit i sr) h = refl
    substitute_vars-some (identifier x i sr) h =
        rw (h.0.1) (ap (λ y. some (identifier y i sr)) (rename-get m x h.0.0 h.0.1))
    substitute_vars-some (binary_op l op r i sr) h =
        let left =
          substitute_vars-some l (All-left (IsMapped m) (get_used_vars l) (get_used_vars r) h) in
        let right =
          substitute_vars-some r (All-right (IsMapped m) (get_used_vars l) (get_used_vars r) h) in
        rw (left, right)
    substitute_vars-some (unary_op op e i sr) h = rw (substitute_vars-some e h)
    substitute_vars-some (grouped e i sr) h = rw (substitute_vars-some e h)
    substitute_vars-some (function_call f args i sr) h = rw (map_substitute_vars-some args h.1)
    substitute_vars-some (member_call e f args i sr) h = rw (
        map_substitute_vars-some args
          (All-right (IsMapped m) (get_used_vars e) (all_used_vars args) h))

    map_substitute_vars-some :
        (es : Arguments)
        → All (IsMapped m) (all_used_vars es)
        → map_substitute_vars m es ≡ some (map_identifiers m es)
    map_substitute_vars-some nil h = refl
    map_substitute_vars-some (cons e es) h =
        let first =
          substitute_vars-some e (All-left (IsMapped m) (get_used_vars e) (all_used_vars es) h) in
        let rest =
          map_substitute_vars-some es
            (All-right (IsMapped m) (get_used_vars e) (all_used_vars es) h) in
        rw (first, rest)

-- Where every used variable of an expression is mapped, the renaming does not panic, and its result is
-- that of the renaming that leaves unmapped names alone.
pub substitute_vars-get_used_vars :
    (m : Map String String) (e : Expression)
    → All (IsMapped m) (get_used_vars e)
    → substitute_vars m e ≡ some (substitute_identifiers m e)
substitute_vars-get_used_vars m e h = substitute_vars-some m e h
