-- ===== src/Fluids/Symbols/Unwinding.antt =====
-- The bindings of a frame are taken away by their number.
use librep.Prelude.{ℕ, ◌+◌, ◌≡◌, refl, true, List, [], ◌∷◌, arith, length, ◌∙◌}
use librep.Value.{Addr, Value, Result, ok, err}
use librep.Heap.{Store}
use librep.Heap.Alloc.{IsValid}
use librep.Lists.Access.{cdr}
use librep.Fluids.{push_binding}
use librep.Fluids.Binding.{Binds}
use librep.Fluids.Scope.{push_binding-Pushed}
use librep.Fluids.Symbols.{Bound, bind_special, drop_cells, unbind_symbols}

drop_cells-Binds :
    (s : Store) (fs : List Addr) (v : Value) (ps : List (Value × Value)) (w : Value)
    → Binds s fs v ps w
    → drop_cells (length ps) s v ≡ w
unfolding drop_cells cdr
drop_cells-Binds s fs v [] w b = b
drop_cells-Binds s fs v ((k, x) ∷ ps) w (a, b, e, la, lb, ca, cb, db, rest) =
    rw e (drop_cells-Binds s fs (s.cdr a) ps w rest)

-- The bindings that a frame makes one after the other, of accessible variables.
pub then_bind : List (Value × Value) → Result Bound → Result Bound
unfolding bind_special
then_bind ps (err e) = err e
then_bind [] (ok b) = ok b
then_bind ((f, v) ∷ ps) (ok b) = then_bind ps (bind_special true b f v)

-- A frame with `k` bindings, which unwinds to `old`.
record Unwinds (k : ℕ) (old : Value) (r : Result Bound) : Type 0 where
  frame : Bound
  result : r ≡ ok frame
  count : frame.spec_bindings ≡ k
  restored : (unbind_symbols frame).env.special_env ≡ old

then_bind-Unwinds :
    (ps qs : List (Value × Value)) (b : Bound) (fs : List Addr) (old : Value)
    → IsValid b.env.store fs
    → Binds b.env.store fs b.env.special_env qs old
    → b.spec_bindings ≡ length qs
    → Unwinds (length qs + length ps) old (then_bind ps (ok b))
unfolding then_bind bind_special unbind_symbols
then_bind-Unwinds [] qs b fs old valid binds e = record {
  frame = b;
  result = refl;
  count = omega arith;
  restored = rw e (drop_cells-Binds b.env.store fs b.env.special_env qs old binds);
}
then_bind-Unwinds ((f, v) ∷ ps) qs b fs old valid binds e =
    let k = push_binding-Pushed b.env fs f v qs old valid binds in
    let b' : Bound = record b {
      env = push_binding b.env f v;
      spec_bindings = b.spec_bindings + 1;
    } in
    let ih = then_bind-Unwinds ps ((f, v) ∷ qs) b' k.free_cells old k.valid k.binds (omega arith) in
    record {
      frame = ih.frame;
      result = ih.result;
      count = ih.count ∙ omega arith;
      restored = ih.restored;
    }

-- A frame without special bindings that binds any accessible variables succeeds and counts them, and
-- `rep_unbind_symbols` puts the special environment back as it was before the first.
-- The free list of the store is valid.
pub unbind_symbols-then_bind :
    (ps : List (Value × Value)) (b : Bound) (fs : List Addr)
    → IsValid b.env.store fs
    → b.spec_bindings ≡ 0
    → (frame : Bound) × (then_bind ps (ok b) ≡ ok frame)
      × (frame.spec_bindings ≡ length ps)
      × ((unbind_symbols frame).env.special_env ≡ b.env.special_env)
unbind_symbols-then_bind ps b fs valid e =
    let u = then_bind-Unwinds ps [] b fs b.env.special_env valid refl e in
    (u.frame, u.result, u.count ∙ omega arith, u.restored)
