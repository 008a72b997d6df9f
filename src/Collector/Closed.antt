-- ===== src/Collector/Closed.antt =====
-- A test that a list of cells is closed.
use librep.Prelude.{
  ◌≡◌, ap, refl, Bool-cases, inl, inr, Bool, true, false, ◌&&◌, ◌||◌, not, List, [], ◌∷◌, arith,
}
use librep.Value.{Value, null, nil, undefined, fixnum, symbol, cons, object, eq_iff, is_int}
use librep.Collector.{Cell, symbol_cell, Memory, content}
use librep.Collector.Marking.{fields, has_value, is_cell, Reach, here, next}
use librep.Collector.Fuel.{IsClosed}

abbrev all_held : List Value → List Value → Bool
all_held [] us = true
all_held (w ∷ ws) us = (not (is_cell w) || has_value w us) && all_held ws us

abbrev is_linked : Cell → Bool
is_linked (symbol_cell _ link) = not (is_int link)
is_linked _ = true

-- The cells `vs` refer to cells of `us` only.
abbrev pub lead_into : Memory → List Value → List Value → Bool
lead_into m [] us = true
lead_into m (v ∷ vs) us =
    all_held (fields (content m v)) us && is_linked (content m v) && lead_into m vs us

all_held-has :
    (ws us : List Value) (w : Value)
    → all_held ws us ≡ true
    → has_value w ws ≡ true
    → is_cell w ≡ true
    → has_value w us ≡ true
all_held-has [] us w a i c = absurd (ground arith)
all_held-has (x ∷ ws) us w a i c = ground (arith, all_held-has ws us w, eq_iff w x)

lead_into-fields :
    (m : Memory) (vs us : List Value) (u : Value)
    → lead_into m vs us ≡ true
    → has_value u vs ≡ true
    → (all_held (fields (content m u)) us && is_linked (content m u)) ≡ true
lead_into-fields m [] us u t i = absurd (ground arith)
lead_into-fields m (v ∷ vs) us u t i = ground (arith, lead_into-fields m vs us u, eq_iff u v)

pub lead_into-IsClosed : (m : Memory) (us : List Value) → lead_into m us us ≡ true → IsClosed m us
lead_into-IsClosed m us t = record {
  holds = λ u w i j c.
      all_held-has (fields (content m u)) us w (ground (arith, lead_into-fields m us us u t i)) j c;
  linked = λ u name x i e.
      let test = lead_into-fields m us us u t i in
      let bad : is_linked (content m u) ≡ false = ap is_linked e in absurd (ground arith);
}

-- A value that is no pointer has no fields.
fields-no_cell :
    (m : Memory) (u w : Value) → is_cell u ≡ false → has_value w (fields (content m u)) ≡ false
unfolding content
fields-no_cell m null w h = refl
fields-no_cell m (fixnum _) w h = refl
fields-no_cell m nil w h = absurd (ground arith)
fields-no_cell m undefined w h = absurd (ground arith)
fields-no_cell m (symbol a) w h = absurd (ground arith)
fields-no_cell m (cons a) w h = absurd (ground arith)
fields-no_cell m (object t a) w h = absurd (ground arith)

-- What a value of a closed list leads to is on the list.
pub Reach-held :
    (m : Memory) (us : List Value)
    → IsClosed m us
    → {v w : Value} → (is_cell v ≡ true → has_value v us ≡ true)
    → Reach m v w
    → is_cell w ≡ true
    → has_value w us ≡ true
Reach-held m us closed i here c = i c
Reach-held m us closed i (next {u} {w} r j) c = elim (Bool-cases (is_cell u)) [
  | inl p ↦ closed.holds u w (Reach-held m us closed i r p) j c
  | inr p ↦ absurd (ground (arith, fields-no_cell m u w p))
]
