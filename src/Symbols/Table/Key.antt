-- ===== src/Symbols/Table/Key.antt =====
-- symbols/src/symbol_table.rs: the keys of a scope, a name in a namespace.
use merak.Prelude.{String, Bool, true, false, ◌&&◌, ◌≡◌, refl, ap, sym, ◌∙◌, arith, Eq, string_eq}

pub data SymbolNamespace : Type 0 where
  value callable type_space : SymbolNamespace

-- The derived `PartialEq`.
abbrev pub same_space : SymbolNamespace → SymbolNamespace → Bool
same_space value value = true
same_space callable callable = true
same_space type_space type_space = true
same_space a b = false

abbrev pub same_key : String × SymbolNamespace → String × SymbolNamespace → Bool
same_key (m, a) (n, b) = string_eq.same m n && same_space a b

pub same_space_sound : (a b : SymbolNamespace) → same_space a b ≡ true → a ≡ b
same_space_sound value value h = refl
same_space_sound callable callable h = refl
same_space_sound type_space type_space h = refl
same_space_sound value callable h = absurd (cc)
same_space_sound value type_space h = absurd (cc)
same_space_sound callable value h = absurd (cc)
same_space_sound callable type_space h = absurd (cc)
same_space_sound type_space value h = absurd (cc)
same_space_sound type_space callable h = absurd (cc)

pub same_space_refl : (a : SymbolNamespace) → same_space a a ≡ true
same_space_refl value = refl
same_space_refl callable = refl
same_space_refl type_space = refl

pub same_key_sound : (j k : String × SymbolNamespace) → same_key j k ≡ true → j ≡ k
same_key_sound (m, a) (n, b) h = ground (arith, string_eq.same_iff m n, same_space_sound a b)

pub same_key_refl : (k : String × SymbolNamespace) → same_key k k ≡ true
same_key_refl (n, a) = ground (arith, string_eq.same_iff n n, same_space_refl a)

instance abbrev pub key_eq : Eq (String × SymbolNamespace)
key_eq = record {
  same = same_key;
  same_iff = λ j k. (same_key_sound j k, λ e. ap (same_key j) (sym e) ∙ same_key_refl j);
}
