-- ===== src/Analyzer/Storage/Insertion/Cleanup.antt =====
-- analyzer/src/storage.rs: the folds at the end of a block, over locations whose keys are distinct.
use merak.Prelude.{
  false, Bool-cases, ◌≡◌, refl, sym, ap, ◌∙◌, inl, inr, arith, none, some, List, [], ◌∷◌,
}
use mathlib.Core.Path.{subst}
use mathlib.Core.Option.{some-injective}
use merak.Prelude.Map.{Map, get, insert, get-insert}
use merak.Prelude.Partial.{◌>>=◌, >>=-eq-some}
use merak.Ast.Node.{NodeId}
use merak.Ast.Statement.{StateVar, StateConst}
use merak.Symbols.Id.{SymbolId, same_id, same_id_refl, same_id_sound, symbol_eq}
use merak.Symbols.Table.{SymbolTable, get_symbol_by_node_id, get_symbol_id_by_node_id}
use merak.Ir.Ssa.{SsaContract}
use merak.Analyzer.Storage.{
  StorageMutability, mutable, immutable, StorageLocation, StorageLocationSet, location_of_symbol,
  add_location, add_variable_locations, add_constant_locations, from_contract, StorageState,
  is_unfolded, fold_loc,
}
use merak.Analyzer.Storage.CallGraph.{CallGraphAnalysis}
use merak.Analyzer.Storage.Insertion.{cleanup}
use merak.Analyzer.Storage.Insertion.Discipline.{
  monitor, erase_folds, Disciplined, contains_id-fold_loc,
}

abbrev pub HasDistinctKeys : Map SymbolId StorageLocation → Type 0
HasDistinctKeys [] = Unit
HasDistinctKeys ((v, location) ∷ locations) = (get v locations ≡ none) × HasDistinctKeys locations

insert-none :
    (k w : SymbolId) (x : StorageLocation) (m : Map SymbolId StorageLocation)
    → same_id k w ≡ false
    → get w m ≡ none
    → get w (insert k x m) ≡ none
insert-none k w x m other gone = get-insert k w x m ∙ rw (other, gone) refl

insert-HasDistinctKeys :
    (k : SymbolId) (x : StorageLocation) (m : Map SymbolId StorageLocation)
    → HasDistinctKeys m
    → HasDistinctKeys (insert k x m)
unfolding insert get
insert-HasDistinctKeys k x [] h = (refl, tt)
insert-HasDistinctKeys k x ((j, y) ∷ m) (gone, h) = elim (Bool-cases (same_id j k)) [
  | inl here ↦ rw here (ap (λ z. get z m) (sym (same_id_sound j k here)) ∙ gone, h)
  | inr there ↦
      let other : same_id k j ≡ false = same_id_flip k j there in
      rw there (insert-none k j x m other gone, insert-HasDistinctKeys k x m h)
]
  where
    same_id_flip : (a b : SymbolId) → same_id b a ≡ false → same_id a b ≡ false
    same_id_flip a b h = elim (Bool-cases (same_id a b)) [
      | inl equal ↦
          absurd
            (ground (arith, ap (λ c. same_id c a) (sym (same_id_sound a b equal)) ∙ same_id_refl a))
      | inr other ↦ other
    ]

add_location-HasDistinctKeys :
    (kind : StorageMutability) (node : NodeId) (t : SymbolTable)
    (m after : Map SymbolId StorageLocation)
    → HasDistinctKeys m
    → add_location kind node t m ≡ some after
    → HasDistinctKeys after
unfolding add_location
add_location-HasDistinctKeys kind node t m after h done =
    let ((id, location), at, last) =
      >>=-eq-some
        (location_of_symbol kind (get_symbol_id_by_node_id node t) (get_symbol_by_node_id node t))
        (λ (id, location). some (insert id location m)) done in
    subst HasDistinctKeys (some-injective (insert id location m) after last)
      (insert-HasDistinctKeys id location m h)

add_variable_locations-HasDistinctKeys :
    (vs : List StateVar) (t : SymbolTable) (m after : Map SymbolId StorageLocation)
    → HasDistinctKeys m
    → add_variable_locations vs t m ≡ some after
    → HasDistinctKeys after
unfolding add_variable_locations
add_variable_locations-HasDistinctKeys [] t m after h done =
    subst HasDistinctKeys (some-injective m after done) h
add_variable_locations-HasDistinctKeys (v ∷ vs) t m after h done =
    let (more, at, last) =
      >>=-eq-some (add_location mutable v.id t m) (add_variable_locations vs t) done in
    add_variable_locations-HasDistinctKeys vs t more after
      (add_location-HasDistinctKeys mutable v.id t m more h at) last

add_constant_locations-HasDistinctKeys :
    (cs : List StateConst) (t : SymbolTable) (m after : Map SymbolId StorageLocation)
    → HasDistinctKeys m
    → add_constant_locations cs t m ≡ some after
    → HasDistinctKeys after
unfolding add_constant_locations
add_constant_locations-HasDistinctKeys [] t m after h done =
    subst HasDistinctKeys (some-injective m after done) h
add_constant_locations-HasDistinctKeys (c ∷ cs) t m after h done =
    let (more, at, last) =
      >>=-eq-some (add_location immutable c.id t m) (add_constant_locations cs t) done in
    add_constant_locations-HasDistinctKeys cs t more after
      (add_location-HasDistinctKeys immutable c.id t m more h at) last

pub from_contract-HasDistinctKeys :
    (contract : SsaContract) (t : SymbolTable) (set : StorageLocationSet)
    → from_contract contract t ≡ some set
    → HasDistinctKeys set.locations
unfolding from_contract
from_contract-HasDistinctKeys contract t set done =
    let (variables, first, more) =
      >>=-eq-some (add_variable_locations contract.variables t [])
        (λ vs. add_constant_locations contract.constants t vs >>= λ all.
          some (record { locations = all }))
        done in
    let (all, second, last) =
      >>=-eq-some (add_constant_locations contract.constants t variables)
        (λ all. some (record { locations = all })) more in
    subst (λ r. HasDistinctKeys r.locations) (some-injective (record { locations = all }) set last)
      (add_constant_locations-HasDistinctKeys contract.constants t variables all
        (add_variable_locations-HasDistinctKeys contract.variables t [] variables tt first) second)

-- A variable stays folded while there are only the folds at the end.
cleanup-keeps :
    (locations : Map SymbolId StorageLocation) (w : SymbolId) (s r : StorageState)
    → is_unfolded w r ≡ false
    → is_unfolded w (monitor (cleanup locations s) r) ≡ false
unfolding cleanup
cleanup-keeps [] w s r h = h
cleanup-keeps ((v, location) ∷ locations) w s r h = elim (Bool-cases (is_unfolded v s)) [
  | inl there ↦ rw there (cleanup-keeps locations w s (fold_loc v r) (folded_after v))
  | inr gone ↦ rw gone (cleanup-keeps locations w s r h)
]
  where
    folded_after : (v : SymbolId) → is_unfolded w (fold_loc v r) ≡ false
    folded_after v = contains_id-fold_loc w v r ∙ ground (arith, h)

-- Two states agree on the variables that have a location.
abbrev pub AgreeOn : Map SymbolId StorageLocation → StorageState → StorageState → Type 0
AgreeOn locations s r =
    (w : SymbolId) (x : StorageLocation)
    → get w locations ≡ some x
    → is_unfolded w r ≡ is_unfolded w s

AgreeOn-tail :
    (v : SymbolId) (location : StorageLocation) (locations : Map SymbolId StorageLocation)
    (s r : StorageState)
    → get v locations ≡ none
    → AgreeOn ((v, location) ∷ locations) s r
    → AgreeOn locations s r × AgreeOn locations s (fold_loc v r)
unfolding get
AgreeOn-tail v location locations s r gone agree = (
  λ w x at. on_rest w x at,
  λ w x at. (contains_id-fold_loc w v r ∙ rw (differs w x at) refl) ∙ on_rest w x at,
)
  where
    differs : (w : SymbolId) (x : StorageLocation) → get w locations ≡ some x → same_id v w ≡ false
    differs w x at = elim (Bool-cases (same_id v w)) [
      | inl same ↦
          absurd
            (ground (arith, sym (ap (λ z. get z locations) (same_id_sound v w same)) ∙ gone, at))
      | inr other ↦ other
    ]

    on_rest :
        (w : SymbolId) (x : StorageLocation)
        → get w locations ≡ some x
        → is_unfolded w r ≡ is_unfolded w s
    on_rest w x at = agree w x (rw (differs w x at) at)

abbrev pub AllFoldedAt : Map SymbolId StorageLocation → StorageState → Type 0
AllFoldedAt locations s =
    (w : SymbolId) (x : StorageLocation) → get w locations ≡ some x → is_unfolded w s ≡ false

module _ (set : StorageLocationSet) (t : SymbolTable) (graph : CallGraphAnalysis) where
  pub cleanup-Disciplined :
      (locations : Map SymbolId StorageLocation) (s r : StorageState)
      → HasDistinctKeys locations
      → AgreeOn locations s r
      → Disciplined set t graph (cleanup locations s) r
  unfolding cleanup get
  cleanup-Disciplined [] s r h agree = tt
  cleanup-Disciplined ((v, location) ∷ locations) s r (gone, h) agree =
      let (same, folded) = AgreeOn-tail v location locations s r gone agree in
      elim (Bool-cases (is_unfolded v s)) [
        | inl there ↦ rw there (
          agree v location (rw (same_id_refl v) refl) ∙ there,
          cleanup-Disciplined locations s (fold_loc v r) h folded,
        )
        | inr away ↦ rw away (cleanup-Disciplined locations s r h same)
      ]

pub cleanup-AllFoldedAt :
    (locations : Map SymbolId StorageLocation) (s r : StorageState)
    → HasDistinctKeys locations
    → AgreeOn locations s r
    → AllFoldedAt locations (monitor (cleanup locations s) r)
unfolding cleanup get
cleanup-AllFoldedAt [] s r h agree w x at = absurd (cc)
cleanup-AllFoldedAt ((v, location) ∷ locations) s r (gone, h) agree w x at =
    let (same, folded) = AgreeOn-tail v location locations s r gone agree in
    elim (Bool-cases (same_id v w)) [
      | inl here ↦
          ap (λ z. is_unfolded z (monitor (cleanup ((v, location) ∷ locations) s) r))
            (sym (same_id_sound v w here))
          ∙ first
      | inr there ↦
          let later : get w locations ≡ some x = ground (arith, at, there) in
          elim (Bool-cases (is_unfolded v s)) [
            | inl holds ↦
                rw holds (cleanup-AllFoldedAt locations s (fold_loc v r) h folded w x later)
            | inr away ↦ rw away (cleanup-AllFoldedAt locations s r h same w x later)
          ]
    ]
  where
    first : is_unfolded v (monitor (cleanup ((v, location) ∷ locations) s) r) ≡ false
    first = elim (Bool-cases (is_unfolded v s)) [
      | inl holds ↦ rw holds (
          cleanup-keeps locations v s (fold_loc v r)
            (contains_id-fold_loc v v r ∙ rw (same_id_refl v) refl))
      | inr away ↦
          rw away
            (cleanup-keeps locations v s r (agree v location (rw (same_id_refl v) refl) ∙ away))
    ]

pub erase_folds-cleanup :
    (locations : Map SymbolId StorageLocation) (s : StorageState)
    → erase_folds (cleanup locations s) ≡ []
unfolding cleanup
erase_folds-cleanup [] s = refl
erase_folds-cleanup ((v, location) ∷ locations) s = elim (Bool-cases (is_unfolded v s)) [
  | inl there ↦ rw there (erase_folds-cleanup locations s)
  | inr gone ↦ rw gone (erase_folds-cleanup locations s)
]
