-- ===== src/Fluids.antt =====
-- src/fluids.c and the search of the special environment in src/variables.c. The environment is a list
-- of pairs in the store. `call` stands for rep_call_lisp0. The search has no poll: it is on fuel.
pub mod Binding
pub mod Scope
pub mod Symbols
use librep.Prelude.{
  ℕ, zero, suc, ◌-◌, Bool, true, false, ◌||◌, not, Option, none, some, ◌==◌, if◌then◌else◌,
}
use librep.Value.{
  Value, nil, undefined, symbol, cons, is_cons, is_list, eq, bad_arg, interrupt, Result, ok, err,
}
use librep.Loop.{Round, leave, again, poll_loop, no_rest}
use librep.Heap.{Store, set_cdr_of, make_cons}
use librep.Lists.Access.{cons_of, car, cdr}
use librep.Lists.Index.{list_length}

-- `special_env` is `rep_special_env`.
pub record Env : Type 0 where
  pub store : Store
  pub special_env : Value

-- `Qfluid`
abbrev pub fluid : Value
fluid = symbol 1

-- `Fmake_fluid`
pub make_fluid : Store → Value → Value × Store
make_fluid s value = cons_of s fluid value

-- `search_environment`; no result where the list is longer than the fuel or is no list of pairs
pub search_environment : ℕ → Store → Value → Value → Option Value
search_environment zero s key env = none
search_environment (suc n) s key nil = some nil
search_environment (suc n) s key (cons a) =
    let rest = search_environment n s key (s.cdr a) in
    if eq (car s (s.car a)) key then some (s.car a) else rest
search_environment (suc n) s key v = none

-- `Ffluid`
abbrev pub binding_or_global : Store → Value → Value → Value
binding_or_global s f (cons b) = s.cdr b
binding_or_global s f v = cdr s f

pub fluid_ref : ℕ → Env → Value → Option (Result Value)
unfolding search_environment
fluid_ref n e f =
    if is_cons f
    then (elim (search_environment n e.store f e.special_env) [
      | none ↦ none
      | some p ↦ some (ok (binding_or_global e.store f p))
    ])
    else some (err (bad_arg f 1))

-- `Ffluid_set`
abbrev pub write_cdr : Store → Value → Value → Store
write_cdr s (cons b) v = set_cdr_of s b v
write_cdr s p v = s

pub fluid_set : ℕ → Env → Value → Value → Option (Result Value × Env)
unfolding search_environment
fluid_set n e f v =
    if is_cons f
    then (elim (search_environment n e.store f e.special_env) [
      | none ↦ none
      | some p ↦
          some (ok undefined, record e { store = write_cdr e.store (if is_cons p then p else f) v })
    ])
    else some (err (bad_arg f 1), e)

-- What ends the loop of `Fwith_fluids`: all is bound, or the call fails.
pub data Bindings : Type 0 where
  bound : Env → Bindings
  refused : Value → Env → Bindings
  stopped : Env → Bindings

-- `rep_special_env = Fcons(Fcons(f, v), rep_special_env)`
pub push_binding : Env → Value → Value → Env
push_binding e f v =
    let (pair, s) = make_cons e.store f v in
    let (cell, t) = make_cons s (cons pair) e.special_env in
    record { store = t; special_env = cons cell }

pub bind_step : Value × Value × Env → Round (Value × Value × Env) Bindings
unfolding push_binding
bind_step (cons a, cons b, e) =
    let f = e.store.car a in
    let e' = push_binding e f (e.store.car b) in
    if is_cons f
    then again (cdr e'.store (cons a), cdr e'.store (cons b), e')
    else leave (refused f e)
bind_step (_, _, e) = leave (bound e)

pub bind_loop : ℕ → Value × Value × Env → Bindings
unfolding bind_step poll_loop
bind_loop n b = (poll_loop bind_step no_rest (λ (f, v, e). stopped e) n b).0

-- The rest of `Fwith_fluids`. A refused fluid leaves the bindings that were made before it.
pub in_scope : (Env → Result Value × Env) → Value → Bindings → Result Value × Env
in_scope call old (bound e) = let (r, e') = call e in (r, record e' { special_env = old })
in_scope call old (refused f e) = (err (bad_arg f 1), e)
in_scope call old (stopped e) = (err interrupt, record e { special_env = old })

abbrev pub same_length : Option ℕ → Option ℕ → Bool
same_length (some a) (some b) = a == b
same_length a b = false

abbrev pub polls_left : ℕ → Option ℕ → ℕ
polls_left n none = 0
polls_left n (some len) = n - len

-- `Fwith_fluids`
pub with_fluids : (Env → Result Value × Env) → ℕ → Env → Value → Value → Result Value × Env
unfolding bind_loop in_scope
with_fluids call n e fluids values =
    let fluids_len = list_length n e.store fluids in
    let m = polls_left n fluids_len in
    let values_len = list_length m e.store values in
    if not (is_list fluids)
    then (err (bad_arg fluids 1), e)
    else if not (is_list values)
    then (err (bad_arg values 2), e)
    else if same_length fluids_len values_len
    then in_scope call e.special_env (bind_loop (polls_left m values_len) (fluids, values, e))
    else (err (bad_arg values 2), e)
