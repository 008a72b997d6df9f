-- ===== src/Fluids/Binding.antt =====
-- The bindings of a special environment, and what fluid-ref finds among them.
use librep.Prelude.{
  ℕ, zero, suc, ◌<◌, ◌≡◌, refl, true, some, List, [], ◌∷◌, arith, length, ◌∙◌, if◌then◌else◌,
  Bool-cases, inl, inr,
}
use librep.Value.{Addr, Value, nil, cons, is_cons, eq, ok}
use librep.Heap.{Store}
use librep.Heap.Alloc.{live, Extends}
use librep.Lists.Access.{car, cdr}
use librep.Fluids.{Env, search_environment, binding_or_global, fluid_ref}

-- From `v` live cells lead through the bindings `ps`, pairs of a fluid and a value, to `w`.
abbrev pub Binds : Store → List Addr → Value → List (Value × Value) → Value → Type 0
Binds s fs v [] w = v ≡ w
Binds s fs v ((k, x) ∷ ps) w =
    (a : Addr) × (b : Addr) × (v ≡ cons a)
    × (live s fs a ≡ true)
    × (live s fs b ≡ true)
    × (s.car a ≡ cons b)
    × (s.car b ≡ k)
    × (s.cdr b ≡ x)
    × Binds s fs (s.cdr a) ps w

pub Binds-Extends :
    (s : Store) (fs : List Addr) (t : Store) (gs : List Addr) (v : Value)
    (ps : List (Value × Value)) (w : Value)
    → Extends s fs t gs
    → Binds s fs v ps w
    → Binds t gs v ps w
Binds-Extends s fs t gs v [] w e b = b
Binds-Extends s fs t gs v ((k, x) ∷ ps) w e (a, b, eq_v, la, lb, ca, cb, db, rest) = (
  a,
  b,
  eq_v,
  e.lives a la,
  e.lives b lb,
  e.car a la ∙ ca,
  e.car b lb ∙ cb,
  e.cdr b lb ∙ db,
  rw (e.cdr a la) (Binds-Extends s fs t gs (s.cdr a) ps w e rest),
)

-- The value of the first binding of a key.
abbrev pub innermost : Value → Value → List (Value × Value) → Value
innermost key global [] = global
innermost key global ((k, x) ∷ ps) = if eq k key then x else innermost key global ps

search-innermost :
    (s : Store) (fs : List Addr) (f : Value) (v : Value) (ps : List (Value × Value)) (n : ℕ)
    → Binds s fs v ps nil
    → length ps < n
    → (p : Value) × (search_environment n s f v ≡ some p)
      × (binding_or_global s f p ≡ innermost f (cdr s f) ps)
unfolding search_environment eq car
search-innermost s fs f v [] zero b lt = absurd (omega arith)
search-innermost s fs f v [] (suc n) b lt = rw b (nil, refl, refl)
search-innermost s fs f v ((k, x) ∷ ps) zero b lt = absurd (omega arith)
search-innermost s fs f v ((k, x) ∷ ps) (suc n) (a, b, eq_v, la, lb, ca, cb, db, rest) lt =
    elim (Bool-cases (eq k f)) [
      | inl q ↦ rw (eq_v, ca, cb, q) (cons b, refl, db)
      | inr q ↦ rw (eq_v, ca, cb, q) (search-innermost s fs f (s.cdr a) ps n rest (omega arith))
    ]

module _ (e : Env) (fs : List Addr) (f : Value) (ps : List (Value × Value)) (n : ℕ) where
  -- `fluid-ref` in an environment with the bindings `ps`: the value of the first of them that is for
  -- the fluid, or the fluid's own value if there is none. Fuel for one round more than bindings is
  -- enough.
  pub fluid_ref-innermost :
      is_cons f ≡ true
      → Binds e.store fs e.special_env ps nil
      → length ps < n
      → fluid_ref n e f ≡ some (ok (innermost f (cdr e.store f) ps))
  unfolding fluid_ref
  fluid_ref-innermost is b lt =
      let (p, found, value) = search-innermost e.store fs f e.special_env ps n b lt in
      rw (is, found, value) refl
