-- ===== src/Symbols/Id.antt =====
-- symbols/src/symbol_table.rs: what names a symbol.
use merak.Prelude.{
  ℕ, String, Bool, true, false, ◌&&◌, ◌==◌, ◌≡◌, ap, sym, ◌∙◌, arith, Eq, string_eq,
}

pub data SymbolId : Type 0 where
  named : String → ℕ → SymbolId
  temp : ℕ → SymbolId

-- `SymbolId::synthetic_temp`
abbrev pub synthetic_temp : ℕ → SymbolId
synthetic_temp id = temp id

abbrev pub is_temp : SymbolId → Bool
is_temp (named name i) = false
is_temp (temp i) = true

abbrev pub as_usize : SymbolId → ℕ
as_usize (named name i) = i
as_usize (temp i) = i

-- The derived `PartialEq`.
abbrev pub same_id : SymbolId → SymbolId → Bool
same_id (named n i) (named o j) = string_eq.same n o && i == j
same_id (temp i) (temp j) = i == j
same_id a b = false

pub same_id_sound : (a b : SymbolId) → same_id a b ≡ true → a ≡ b
same_id_sound (named n i) (named o j) h = ground (arith, string_eq.same_iff n o)
same_id_sound (temp i) (temp j) h = ground arith
same_id_sound (named n i) (temp j) h = absurd (cc)
same_id_sound (temp i) (named n j) h = absurd (cc)

pub same_id_refl : (a : SymbolId) → same_id a a ≡ true
same_id_refl (named n i) = ground (arith, string_eq.same_iff n n)
same_id_refl (temp i) = ground arith

instance abbrev pub symbol_eq : Eq SymbolId
symbol_eq = record {
  same = same_id;
  same_iff = λ a b. (same_id_sound a b, λ e. ap (same_id a) (sym e) ∙ same_id_refl a);
}
