-- ===== src/Fluids/Symbols.antt =====
-- src/variables.c: the special variables that a structure may access, and the bindings of a frame.
pub mod Unwinding
use librep.Prelude.{ℕ, zero, suc, ◌+◌, ◌≡◌, refl, Bool, true, false, not, ◌==◌, if◌then◌else◌}
use librep.Value.{Addr, Value, nil, cons, truth, eq, Error, void_value, Result, ok, err}
use librep.Loop.{Round, leave, again, poll_loop, no_rest}
use librep.Heap.{Store}
use librep.Heap.Alloc.{IsValid, live, Extends}
use librep.Lists.Access.{cdr}
use librep.Fluids.{Env, push_binding}

-- What `check_special_variable` returns: -1, 1 or 0.
pub data Access : Type 0 where
  unrestricted : Access
  listed : Access
  refused : Access

pub access_step : Store → Value → Value → Round Value Access
access_step s sym (cons a) = if eq (s.car a) sym then leave listed else again (s.cdr a)
access_step s sym env = leave refused

-- `check_special_variable`; `env` are the special variables of the current structure
pub check_special_variable : ℕ → Store → Value → Value → Access
unfolding access_step poll_loop
check_special_variable n s env sym =
    if eq env truth
    then unrestricted
    else (poll_loop (access_step s sym) no_rest (λ _. refused) n env).0

abbrev pub is_accessible : Access → Bool
is_accessible refused = false
is_accessible _ = true

-- `rep_special_variable_accessible_p`
pub special_variable_accessible_p : ℕ → Store → Value → Value → Bool
unfolding check_special_variable
special_variable_accessible_p n s env sym = is_accessible (check_special_variable n s env sym)

-- The lexical environment, and the numbers of bindings that a frame counts.
pub record Bound : Type 0 where
  pub env : Env
  pub lexical : Value
  pub lex_bindings : ℕ
  pub spec_bindings : ℕ

-- `rep_bind_special` of an accessible variable, or the error for another
pub bind_special : Bool → Bound → Value → Value → Result Bound
bind_special accessible b sym value =
    if accessible
    then ok (record b { env = push_binding b.env sym value; spec_bindings = b.spec_bindings + 1 })
    else err (void_value sym)

-- `list_tail`
pub drop_cells : ℕ → Store → Value → Value
drop_cells zero s l = l
drop_cells (suc k) s l = drop_cells k s (cdr s l)

-- `rep_unbind_symbols` of a frame that is not empty
pub unbind_symbols : Bound → Bound
unfolding drop_cells
unbind_symbols b =
    let s = b.env.store in
    record b {
      env = record b.env { special_env = drop_cells b.spec_bindings s b.env.special_env };
      lexical = drop_cells b.lex_bindings s b.lexical;
      lex_bindings = 0;
      spec_bindings = 0;
    }
