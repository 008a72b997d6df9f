-- ===== src/Symbols/Chains.antt =====
-- Chains of symbols.
use librep.Prelude.{
  ℕ, zero, suc, ◌≤◌, ◌≡◌, refl, Bool, true, false, List, [], ◌∷◌, arith, if◌then◌else◌, has, length,
}
use librep.Value.{Addr, Value, nil, symbol, is_symbol}
use librep.Symbols.{Symbols, find_in}

-- From `v` the links `next` lead through the symbols `cs`, up to a value that is no symbol.
abbrev pub Linked : (Addr → Value) → Value → List Addr → Type 0
Linked next v [] = is_symbol v ≡ false
Linked next v (a ∷ cs) = (v ≡ symbol a) × Linked next (next a) cs

pub Linked-agree :
    (next next' : Addr → Value) (v : Value) (cs : List Addr)
    → ((a : Addr) → has a cs ≡ true → next' a ≡ next a)
    → Linked next v cs
    → Linked next' v cs
Linked-agree next next' v [] same h = h
Linked-agree next next' v (a ∷ cs) same (e, h) = (
  e,
  rw (same a (ground arith)) (Linked-agree next next' (next a) cs (λ b i. same b (ground arith)) h),
)

-- The first symbol of a chain whose name passes a test, or `()`.
abbrev pub first_named : (List ℕ → Bool) → (Addr → List ℕ) → List Addr → Value
first_named same name [] = nil
first_named same name (a ∷ cs) = if same (name a) then symbol a else first_named same name cs

find_in-end :
    (n : ℕ) (same : List ℕ → Bool) (s : Symbols) (v : Value)
    → is_symbol v ≡ false
    → find_in n same s v ≡ nil
unfolding find_in
find_in-end zero same s v h = refl
find_in-end (suc n) same s v h = ground arith

find_in-more :
    (n : ℕ) (same : List ℕ → Bool) (s : Symbols) (a : Addr) (r : Value)
    → find_in n same s (s.next a) ≡ r
    → find_in (suc n) same s (symbol a) ≡ (if same (s.name a) then symbol a else r)
unfolding find_in
find_in-more n same s a r h = rw h refl

-- The search finds the first symbol; the fuel is the length of the chain.
pub find_in-first_named :
    (n : ℕ) (same : List ℕ → Bool) (s : Symbols) (v : Value) (cs : List Addr)
    → Linked s.next v cs
    → length cs ≤ n
    → find_in n same s v ≡ first_named same s.name cs
find_in-first_named n same s v [] h f = find_in-end n same s v h
find_in-first_named zero same s v (a ∷ cs) h f = absurd (ground arith)
find_in-first_named (suc n) same s v (a ∷ cs) (e, h) f = rw e (
    find_in-more n same s a (first_named same s.name cs)
      (find_in-first_named n same s (s.next a) cs h (ground arith)))
