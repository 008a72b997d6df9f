-- ===== src/Tests/Fluids.antt =====
-- Fluids bound in the memory.
use librep.Prelude.{length, ◌≡◌, refl, List, [], ◌∷◌, arith, true, has, ◌==◌, Bool-cases, inl, inr}
use librep.Value.{Addr, Value, nil, symbol, cons, is_cons, Result, ok, err, thrown}
use librep.Fluids.{Env, with_fluids}
use librep.Fluids.Scope.{Scoped, bindings_onto, with_fluids-Scoped}
use librep.Fluids.Symbols.{Bound, unbind_symbols}
use librep.Fluids.Symbols.Unwinding.{then_bind, unbind_symbols-then_bind}
use librep.Tests.Memory.{num, memory, spare, pairs, memory-IsValid, pairs-Chain, pairs-Live}

abbrev env : Env
env = record { store = memory; special_env = cons 9 }

abbrev values : List Addr
values = 1 ∷ 2 ∷ []

-- A function that binds a fluid, and fails.
abbrev failing_call : Env → Result Value × Env
failing_call e = (err thrown, record e { special_env = cons 3 })

pairs-fluids : (c : Addr) → has c pairs ≡ true → is_cons (memory.car c) ≡ true
pairs-fluids c h = elim (Bool-cases (c == 3)) [
  | inl e ↦ let p : c ≡ 3 = ground arith in rw p refl
  | inr e ↦ let p : c ≡ 4 = ground arith in rw p refl
]

with_fluids-Scoped_example :
    Scoped failing_call env spare
      (bindings_onto memory.car pairs values [])
      (with_fluids failing_call 6 env (cons 3) (cons 1))
with_fluids-Scoped_example =
    with_fluids-Scoped failing_call env spare (cons 3) (cons 1) nil nil pairs values refl refl 6
      memory-IsValid refl refl pairs-Chain (refl, (refl, refl)) pairs-Live (λ a h. ground arith)
      refl pairs-fluids (omega arith)

-- A frame that has made no binding yet.
abbrev empty_frame : Bound
empty_frame = record { env = env; lexical = nil; lex_bindings = 0; spec_bindings = 0 }

abbrev two_bindings : List (Value × Value)
two_bindings = (symbol 5, num 1) ∷ (symbol 6, num 2) ∷ []

unbind_symbols-then_bind_example :
    (frame : Bound) × (then_bind two_bindings (ok empty_frame) ≡ ok frame)
    × (frame.spec_bindings ≡ length two_bindings)
    × ((unbind_symbols frame).env.special_env ≡ empty_frame.env.special_env)
unbind_symbols-then_bind_example =
    unbind_symbols-then_bind two_bindings empty_frame spare memory-IsValid refl
