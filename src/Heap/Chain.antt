-- ===== src/Heap/Chain.antt =====
-- Lists of Lisp as chains of cons cells: the addresses that the cdrs lead through.
use librep.Prelude.{◌≡◌, refl, true, false, List, [], ◌∷◌, ◌++◌, arith, has, Distinct, has-append}
use librep.Value.{Addr, Value, cons}
use librep.Heap.{update}

-- From `v` the cdrs `m` lead through the cells `cs` to the value `w`.
abbrev pub Chain : (Addr → Value) → Value → List Addr → Value → Type 0
Chain m v [] w = v ≡ w
Chain m v (a ∷ cs) w = (v ≡ cons a) × Chain m (m a) cs w

module _ (m : Addr → Value) where
  -- Two functions that agree on the cells of a chain have it alike.
  pub Chain-agree :
      (m' : Addr → Value) (v : Value) (cs : List Addr) (w : Value)
      → ((a : Addr) → has a cs ≡ true → m' a ≡ m a)
      → Chain m v cs w
      → Chain m' v cs w
  Chain-agree m' v [] w same c = c
  Chain-agree m' v (a ∷ cs) w same (e, c) =
      (e, rw (same a (ground arith)) (Chain-agree m' (m a) cs w (λ b h. same b (ground arith)) c))

  pub Chain-update :
      (v : Value) (cs : List Addr) (w : Value) (b : Addr) (x : Value)
      → has b cs ≡ false
      → Chain m v cs w
      → Chain (update m b x) v cs w
  Chain-update v cs w b x out c = Chain-agree (update m b x) v cs w (λ a h. ground arith) c

  pub Chain-append :
      (v u w : Value) (cs bs : List Addr) → Chain m v cs u → Chain m u bs w → Chain m v (cs ++ bs) w
  Chain-append v u w [] bs c d = rw c d
  Chain-append v u w (a ∷ cs) bs (e, c) d = (e, Chain-append (m a) u w cs bs c d)

-- Distinct lists with nothing in common, one behind the other.
pub Distinct-snoc :
    (cs : List Addr) (a : Addr) → Distinct cs → has a cs ≡ false → Distinct (cs ++ a ∷ [])
Distinct-snoc [] a d out = (refl, tt)
Distinct-snoc (b ∷ bs) a (o, d) out =
    (ground (arith, has-append b bs (a ∷ [])), Distinct-snoc bs a d (ground arith))

-- Every cdr of the cells `cs` leads to one of them: a list without an end.
abbrev pub Circular : (Addr → Value) → List Addr → Type 0
Circular m cs = (c : Addr) → has c cs ≡ true → (d : Addr) × (m c ≡ cons d) × (has d cs ≡ true)
