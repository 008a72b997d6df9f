-- ===== src/Plists.antt =====
-- src/plists.c: property lists. `plist_of` is what plist_structure binds to a symbol, if anything.
-- `accessible` stands for rep_special_variable_accessible_p, and `equal` for rep_value_cmp(...) == 0.
-- The loops have no poll: they are on fuel.
pub mod Properties
use librep.Prelude.{
  ℕ, zero, suc, ◌≡◌, refl, Bool, true, false, ◌||◌, ◌&&◌, not, Option, none, some, if◌then◌else◌,
  ◌==◌,
}
use librep.Value.{
  Addr, Value, nil, symbol, cons, is_symbol, eq, bad_arg, void_value, Result, ok, err,
}
use librep.Heap.{Store, set_car_of, make_cons}

pub record Plists : Type 0 where
  pub store : Store
  pub plist_of : Addr → Option Value

abbrev pub define_plist : Plists → Addr → Value → Plists
define_plist p a v = record p { plist_of = λ b. if b == a then some v else p.plist_of b }

-- A symbol as the key of `Fstructure_ref`, or the error of `rep_DECLARE1(sym, rep_SYMBOLP)`.
abbrev pub symbol_of : Value → Option Addr
symbol_of (symbol a) = some a
symbol_of _ = none

abbrev pub plist_or_nil : Option Value → Value
plist_or_nil none = nil
plist_or_nil (some v) = v

module _ (accessible : Value → Bool) where
  -- `Fsetplist`
  pub setplist : Plists → Value → Value → Result Value × Plists
  setplist p sym prop = elim (symbol_of sym) [
    | none ↦ (err (bad_arg sym 1), p)
    | some a ↦
        if accessible sym then (ok prop, define_plist p a prop) else (err (void_value sym), p)
  ]

  -- `Fsymbol_plist`
  pub symbol_plist : Plists → Value → Result Value
  symbol_plist p sym = elim (symbol_of sym) [
    | none ↦ err (bad_arg sym 1)
    | some a ↦ if accessible sym then ok (plist_or_nil (p.plist_of a)) else err (void_value sym)
  ]

-- The test of the loops: a cons whose cdr is a cons. They are the cells of a property and its value.
unfoldable pub second_cell : Addr → Value → Option (Addr × Addr)
second_cell a (cons b) = some (a, b)
second_cell a _ = none

unfoldable pub two_cells : Store → Value → Option (Addr × Addr)
unfolding second_cell
two_cells s (cons a) = second_cell a (s.cdr a)
two_cells s _ = none

-- One round of the loops: the list ends, the property is found, or the search goes on.
abbrev pub property_step :
    (Addr → Bool) → (Addr → Option (Option Addr)) → Option (Addr × Addr) → Option (Option Addr)
property_step hit rest none = some none
property_step hit rest (some (a, b)) = if hit a then some (some b) else rest b

module _ (equal : Store → Value → Value → Bool) where
  pub is_property : Store → Value → Value → Bool
  unfolding eq
  is_property s key prop = eq key prop || (not (is_symbol prop) && equal s key prop)

  -- The cell of the value of a property. No answer where the list is longer than the fuel.
  pub find_property : ℕ → Store → Value → Value → Option (Option Addr)
  unfolding two_cells is_property
  find_property zero s prop plist = none
  find_property (suc n) s prop plist =
      property_step (λ a. is_property s (s.car a) prop) (λ b. find_property n s prop (s.cdr b))
        (two_cells s plist)

  -- `Fget`
  pub value_found : Store → Option Addr → Value
  value_found s none = nil
  value_found s (some b) = s.car b

  pub get_result : Store → Option (Option Addr) → Option (Result Value)
  unfolding value_found
  get_result s none = none
  get_result s (some found) = some (ok (value_found s found))

  pub get : ℕ → Plists → Value → Value → Option (Result Value)
  unfolding find_property get_result
  get n p sym prop = elim (symbol_of sym) [
    | none ↦ some (err (bad_arg sym 1))
    | some a ↦ get_result p.store (find_property n p.store prop (plist_or_nil (p.plist_of a)))
  ]

  -- `Fstructure_define(plist_structure, sym, Fcons(prop, Fcons(val, old)))`
  pub add_property : Plists → Addr → Value → Value → Value → Plists
  add_property p a prop val old =
      let (d, s) = make_cons p.store val old in
      let (c, t) = make_cons s prop (cons d) in define_plist (record p { store = t }) a (cons c)

  pub put_found : Plists → Addr → Value → Value → Value → Option Addr → Plists
  unfolding add_property
  put_found p a prop val old none = add_property p a prop val old
  put_found p a prop val old (some b) = record p { store = set_car_of p.store b val }

  -- `Fput`
  module _ (accessible : Value → Bool) where
    pub put : ℕ → Plists → Value → Value → Value → Option (Result Value × Plists)
    unfolding find_property put_found
    put n p sym prop val = elim (symbol_of sym) [
      | none ↦ some (err (bad_arg sym 1), p)
      | some a ↦
          let old = plist_or_nil (p.plist_of a) in
          if accessible sym
          then (elim (find_property n p.store prop old) [
            | none ↦ none
            | some found ↦ some (ok val, put_found p a prop val old found)
          ])
          else some (err (void_value sym), p)
    ]
