-- ===== src/Fluids/Scope.antt =====
-- with-fluids runs its function in an environment with the new bindings, and takes them away again.
use librep.Prelude.{
  ℕ, zero, suc, ◌-◌, ◌*◌, ◌≤◌, ◌≡◌, refl, ap, true, false, some, List, [], ◌∷◌, arith, length, ◌∙◌,
  has, ◌==◌,
}
use mathlib.Core.Path.{subst}
use librep.Value.{Addr, Value, cons, is_cons, is_list, Result}
use librep.Loop.{again, leave, no_rest}
use librep.Loop.Rounds.{poll_loop-leave, poll_loop-again}
use librep.Heap.{make_cons}
use librep.Heap.Chain.{Chain, Chain-agree}
use librep.Heap.Alloc.{IsValid, Live, Extends, Extends-trans, Extends-refl, make_cons_lem}
use librep.Lists.Access.{cdr}
use librep.Lists.Index.{list_length}
use librep.Lists.Index.Positions.{list_length_lem}
use librep.Fluids.{Env, push_binding, bind_step, bind_loop, bound, stopped, in_scope, with_fluids}
use librep.Fluids.Binding.{Binds, Binds-Extends}

-- A new binding in front of those that there are.
pub record Pushed (e : Env) (fs : List Addr) (f v : Value) (ps : List (Value × Value)) (w : Value)
    (e' : Env) : Type 0 where
  pub free_cells : List Addr
  pub valid : IsValid e'.store free_cells
  pub kept : Extends e.store fs e'.store free_cells
  pub binds : Binds e'.store free_cells e'.special_env ((f, v) ∷ ps) w

pub push_binding-Pushed :
    (e : Env) (fs : List Addr) (f v : Value) (ps : List (Value × Value)) (w : Value)
    → IsValid e.store fs
    → Binds e.store fs e.special_env ps w
    → Pushed e fs f v ps w (push_binding e f v)
unfolding push_binding
push_binding-Pushed e fs f v ps w valid b =
    let (gs, m) = make_cons_lem e.store f v fs valid in
    let pair = (make_cons e.store f v).0 in
    let s = (make_cons e.store f v).1 in
    let (hs, k) = make_cons_lem s (cons pair) e.special_env gs m.valid in
    let cell = (make_cons s (cons pair) e.special_env).0 in
    let t = (make_cons s (cons pair) e.special_env).1 in
    let all = Extends-trans e.store fs s gs t hs m.kept k.kept in
    record {
      free_cells = hs;
      valid = k.valid;
      kept = all;
      binds = (
        cell,
        pair,
        refl,
        k.new,
        k.kept.lives pair m.new,
        k.car,
        k.kept.car pair m.new ∙ m.car,
        k.kept.cdr pair m.new ∙ m.cdr,
        rw k.cdr (Binds-Extends e.store fs t hs e.special_env ps w all b),
      );
    }

-- The bindings of the cars of `cs` to those of `ds`, the last first, before `ps`.
abbrev pub bindings_onto :
    (m : Addr → Value) → List Addr → List Addr → List (Value × Value) → List (Value × Value)
bindings_onto m [] ds ps = ps
bindings_onto m (c ∷ cs) [] ps = ps
bindings_onto m (c ∷ cs) (d ∷ ds) ps = bindings_onto m cs ds ((m c, m d) ∷ ps)

bindings_onto-agree :
    (m m' : Addr → Value) (cs ds : List Addr) (ps : List (Value × Value))
    → ((a : Addr) → has a cs ≡ true → m' a ≡ m a)
    → ((a : Addr) → has a ds ≡ true → m' a ≡ m a)
    → bindings_onto m' cs ds ps ≡ bindings_onto m cs ds ps
bindings_onto-agree m m' [] ds ps h k = refl
bindings_onto-agree m m' (c ∷ cs) [] ps h k = refl
bindings_onto-agree m m' (c ∷ cs) (d ∷ ds) ps h k =
    rw (h c (ground arith), k d (ground arith))
      (bindings_onto-agree m m' cs ds ((m c, m d) ∷ ps) (λ a i. h a (ground arith))
        (λ a i. k a (ground arith)))

bind_step-end : (f v : Value) (e : Env) → is_cons f ≡ false → bind_step (f, v, e) ≡ leave (bound e)
unfolding bind_step
bind_step-end f v e h = ground arith

bind_step-next :
    (c d : Addr) (e : Env)
    → is_cons (e.store.car c) ≡ true
    → (let e' = push_binding e (e.store.car c) (e.store.car d) in
        bind_step (cons c, cons d, e) ≡ again (e'.store.cdr c, e'.store.cdr d, e'))
unfolding bind_step cdr
bind_step-next c d e h = rw h refl

-- The environment in which the function runs.
pub record Inner (e : Env) (fs : List Addr) (ps : List (Value × Value)) (w : Value) (i : Env)
    : Type 0 where
  pub free_cells : List Addr
  pub valid : IsValid i.store free_cells
  pub kept : Extends e.store fs i.store free_cells
  pub binds : Binds i.store free_cells i.special_env ps w

module _ (z w : Value) (ends : is_cons z ≡ false) (ends' : is_cons w ≡ false) where
  bind_loop-Inner :
      (n : ℕ) (e : Env) (fs : List Addr) (f v old : Value) (cs ds : List Addr)
      (ps : List (Value × Value))
      → IsValid e.store fs
      → Chain e.store.cdr f cs z
      → Chain e.store.cdr v ds w
      → Live e.store fs cs
      → Live e.store fs ds
      → length cs ≡ length ds
      → ((c : Addr) → has c cs ≡ true → is_cons (e.store.car c) ≡ true)
      → length cs ≤ n
      → Binds e.store fs e.special_env ps old
      → (i : Env) × (bind_loop n (f, v, e) ≡ bound i)
        × Inner e fs (bindings_onto e.store.car cs ds ps) old i
  unfolding bind_loop
  bind_loop-Inner n e fs f v old [] [] ps valid ch ch' ls ls' same all le b = (
    e,
    rw ch (
        ap (λ r. r.0)
          (poll_loop-leave bind_step no_rest (λ (f, v, e). stopped e) n (z, v, e) (bound e)
            (bind_step-end z v e ends))),
    record { free_cells = fs; valid = valid; kept = Extends-refl e.store fs; binds = b },
  )
  bind_loop-Inner n e fs f v old [] (d ∷ ds) ps valid ch ch' ls ls' same all le b =
      absurd (omega arith)
  bind_loop-Inner n e fs f v old (c ∷ cs) [] ps valid ch ch' ls ls' same all le b =
      absurd (omega arith)
  bind_loop-Inner zero e fs f v old (c ∷ cs) (d ∷ ds) ps valid ch ch' ls ls' same all le b =
      absurd (omega arith)
  bind_loop-Inner (suc n) e fs f v old (c ∷ cs) (d ∷ ds) ps valid ch ch' ls ls' same all le b =
      let e' = push_binding e (e.store.car c) (e.store.car d) in
      let k = push_binding-Pushed e fs (e.store.car c) (e.store.car d) ps old valid b in
      let (i, run, inner) =
        bind_loop-Inner n e' k.free_cells (e'.store.cdr c) (e'.store.cdr d) old cs ds
          ((e.store.car c, e.store.car d) ∷ ps) k.valid
          (rw (k.kept.cdr c (ls c (ground arith))) (
            Chain-agree e.store.cdr e'.store.cdr (e.store.cdr c) cs z
              (λ a h. k.kept.cdr a (ls a (ground arith))) ch.1))
          (rw (k.kept.cdr d (ls' d (ground arith))) (
            Chain-agree e.store.cdr e'.store.cdr (e.store.cdr d) ds w
              (λ a h. k.kept.cdr a (ls' a (ground arith))) ch'.1))
          (λ a h. k.kept.lives a (ls a (ground arith)))
          (λ a h. k.kept.lives a (ls' a (ground arith))) (omega arith)
          (λ a h. rw (k.kept.car a (ls a (ground arith))) (all a (ground arith))) (omega arith)
          k.binds in
      (
        i,
        rw (ch.0, ch'.0)
            (ap (λ r. r.0)
                (poll_loop-again bind_step no_rest (λ (f, v, e). stopped e) n (cons c, cons d, e)
                  (e'.store.cdr c, e'.store.cdr d, e')
                  (bind_step-next c d e (all c (ground arith))))
              ∙ run),
        record {
          free_cells = inner.free_cells;
          valid = inner.valid;
          kept =
              Extends-trans e.store fs e'.store k.free_cells i.store inner.free_cells k.kept
                inner.kept;
          binds =
              subst (λ qs. Binds i.store inner.free_cells i.special_env qs old)
                (bindings_onto-agree e.store.car e'.store.car cs ds
                  ((e.store.car c, e.store.car d) ∷ ps) (λ a h. k.kept.car a (ls a (ground arith)))
                  (λ a h. k.kept.car a (ls' a (ground arith))))
                inner.binds;
        },
      )

-- The call ran in such an environment, and only the old bindings are left behind it.
pub record Scoped (call : Env → Result Value × Env) (e : Env) (fs : List Addr)
    (ps : List (Value × Value)) (out : Result Value × Env) : Type 0 where
  pub inner : Env
  pub runs_in : Inner e fs ps e.special_env inner
  pub result : out ≡ ((call inner).0, record (call inner).1 { special_env = e.special_env })

module _ (call : Env → Result Value × Env) (e : Env) (fs : List Addr) (f v z w : Value)
    (cs ds : List Addr) (ends : is_cons z ≡ false) (ends' : is_cons w ≡ false) where
  -- `with-fluids` of two lists of live cells `cs` and `ds`, as many of each and all cars of `cs` fluids,
  -- with three polls for each pair: the function runs in an environment with a binding for each pair,
  -- the last one first, before the old bindings, and no live cell is changed. Whatever the function
  -- does, its result is the result, and the old bindings are in force again.
  -- The free list of the store is valid.
  pub with_fluids-Scoped :
      (n : ℕ)
      → IsValid e.store fs
      → is_list f ≡ true
      → is_list v ≡ true
      → Chain e.store.cdr f cs z
      → Chain e.store.cdr v ds w
      → Live e.store fs cs
      → Live e.store fs ds
      → length cs ≡ length ds
      → ((c : Addr) → has c cs ≡ true → is_cons (e.store.car c) ≡ true)
      → 3 * length cs ≤ n
      → Scoped call e fs (bindings_onto e.store.car cs ds []) (with_fluids call n e f v)
  unfolding with_fluids in_scope
  with_fluids-Scoped n valid is is' ch ch' ls ls' same all le =
      let (i, run, inner) =
        bind_loop-Inner z w ends ends' (n - length cs - length ds) e fs f v e.special_env cs ds []
          valid ch ch' ls ls' same all (omega arith) refl in
      let first : list_length n e.store f ≡ some (length cs) =
        list_length_lem e.store z ends n f cs ch ∙ ground arith in
      let second : list_length (n - length cs) e.store v ≡ some (length ds) =
        list_length_lem e.store w ends' (n - length cs) v ds ch' ∙ ground arith in
      let equal : (length cs == length ds) ≡ true = ground arith in
      record { inner = i; runs_in = inner; result = rw (is, is', first, second, equal, run) refl }
