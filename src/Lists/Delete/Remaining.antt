-- ===== src/Lists/Delete/Remaining.antt =====
-- What is left of a list after delete-if! and delete-if-not!.
use librep.Prelude.{
  ℕ, zero, suc, ◌≤◌, ◌≡◌, ap, Bool, true, false, not, List, [], ◌∷◌, ◌++◌, arith, length, Distinct,
  keep, if◌then◌else◌, ◌∙◌, Bool-cases, inl, inr,
}
use mathlib.Core.List.{append_assoc, append-nil}
use librep.Value.{Addr, Value, cons, is_nil, is_cons, is_list, interrupt, Result, ok, err}
use librep.Loop.{leave, again, poll_loop}
use librep.Loop.Rounds.{poll_loop-leave, poll_loop-again}
use librep.Heap.{Store}
use librep.Heap.Chain.{Chain}
use librep.Heap.Tail.{Out, read_last, write_last, move_to}
use librep.Lists.Copy.{start}
use librep.Lists.Delete.{
  delete_call, delete_at, delete_step, delete_rest_at, delete_rest, delete_by, delete_if,
  delete_if_not,
}
use librep.Lists.Delete.Editing.{
  Remains, Editing, Editing-start, Editing-end, Editing-unlink, Editing-pass,
}

-- A predicate that answers without touching the store.
module _ (call : Store → Value → List Value → Result Value × Store) (drop : Value → Bool)
    (pred : Value) (g : Value → Value)
    (pure : (t : Store) (x : Value) → call t pred (x ∷ []) ≡ (ok (g x), t)) (s : Store)
    (cs : List Addr) (w : Value) (ends : is_cons w ≡ false) where
  delete_loop : ℕ → Out × Bool → Result Value × Store
  delete_loop n state =
      (poll_loop (delete_step call drop pred) (delete_rest call drop pred)
        (λ (o, hit). (err interrupt, o.store)) n state).0

  delete_at-end :
      (o : Out) (v : Value)
      → is_cons v ≡ false
      → delete_at call drop pred o v ≡ leave (ok o.value, o.store)
  unfolding delete_at
  delete_at-end o v h = ground arith

  delete_loop-end :
      (n : ℕ) (o : Out) (b : Bool) → read_last o ≡ w → delete_loop n (o, b) ≡ (ok o.value, o.store)
  unfolding delete_loop delete_step
  delete_loop-end n o b e =
      ap (λ r. r.0)
        (poll_loop-leave (delete_step call drop pred) (delete_rest call drop pred)
          (λ (o, hit). (err interrupt, o.store)) n (o, b) (ok o.value, o.store)
          (ap (delete_at call drop pred o) e ∙ delete_at-end o w ends))

  delete_loop-cons :
      (n : ℕ) (o : Out) (b : Bool) (c : Addr) (k : Bool)
      → read_last o ≡ cons c
      → drop (g (o.store.car c)) ≡ k
      → delete_loop (suc n) (o, b)
        ≡ delete_loop n (if k then write_last o (o.store.cdr c) else move_to o c, k)
  unfolding delete_loop delete_step delete_at delete_call delete_rest delete_rest_at
  delete_loop-cons n o b c k e h =
      ap (λ r. r.0)
        (poll_loop-again (delete_step call drop pred) (delete_rest call drop pred)
            (λ (o, hit). (err interrupt, o.store)) n (o, b) (o, k)
            (ap (delete_at call drop pred o) e
              ∙ ap (delete_call call drop pred o) (pure o.store (o.store.car c))
              ∙ ap (λ x. again (o, x)) h)
          ∙ ap
              (λ st.
                poll_loop (delete_step call drop pred) (delete_rest call drop pred)
                  (λ (o, hit). (err interrupt, o.store)) n st)
              (ap (delete_rest_at call drop pred o k) e))

  delete_loop-Remains :
      (n : ℕ) (o : Out) (b : Bool) (ds rs : List Addr)
      → Editing s cs w o ds rs
      → length rs ≤ n
      → Remains s cs (ds ++ keep (λ c. not (drop (g (s.car c)))) rs) w (delete_loop n (o, b))
  delete_loop-Remains n o b ds [] e le =
      rw (append-nil ds, delete_loop-end n o b e.rest) (Editing-end s cs w o ds e)
  delete_loop-Remains zero o b ds (c ∷ rs) e le = absurd (omega arith)
  delete_loop-Remains (suc n) o b ds (c ∷ rs) e le =
      let test : drop (g (o.store.car c)) ≡ drop (g (s.car c)) = ap (λ m. drop (g (m c))) e.cars in
      elim (Bool-cases (drop (g (s.car c)))) [
        | inl h ↦
            rw (delete_loop-cons n o b c true e.rest.0 (test ∙ h), h)
              (delete_loop-Remains n (write_last o (o.store.cdr c)) true ds rs
                (Editing-unlink s cs w o ds c rs e) (omega arith))
        | inr h ↦
            rw
              (
                delete_loop-cons n o b c false e.rest.0 (test ∙ h),
                h,
                ← append_assoc ds (c ∷ []) (keep (λ c. not (drop (g (s.car c)))) rs),
              )
              (delete_loop-Remains n (move_to o c) false (ds ++ c ∷ []) rs
                (Editing-pass s cs w o ds c rs e) (omega arith))
      ]

  delete_by-Remains :
      (n : ℕ) (l : Value)
      → is_list l ≡ true
      → Chain s.cdr l cs w
      → Distinct cs
      → length cs ≤ n
      → Remains s cs (keep (λ c. not (drop (g (s.car c)))) cs) w (delete_by call drop pred n s l)
  unfolding delete_by delete_loop
  delete_by-Remains n l is ch d le =
      rw is (delete_loop-Remains n (start l s) false [] cs (Editing-start s cs w l ch d) le)

-- `delete-if!` and `delete-if-not!` of a list of the distinct cells `cs`, with a poll for each and a
-- predicate that answers `g x` and leaves the store alone: the cells for whose cars it answers nil,
-- or does not, lead in order to what ended the list. No car is written, and no cdr outside the list.
pub delete_if-Remains :
    (call : Store → Value → List Value → Result Value × Store) (pred : Value) (g : Value → Value)
    → ((t : Store) (x : Value) → call t pred (x ∷ []) ≡ (ok (g x), t))
    → (s : Store) (cs : List Addr) (w l : Value) (n : ℕ) → is_cons w ≡ false
    → is_list l ≡ true
    → Chain s.cdr l cs w
    → Distinct cs
    → length cs ≤ n
    → Remains s cs (keep (λ c. not (not (is_nil (g (s.car c))))) cs) w (delete_if call n s pred l)
      × Remains s cs (keep (λ c. not (is_nil (g (s.car c)))) cs) w (delete_if_not call n s pred l)
unfolding delete_if delete_if_not
delete_if-Remains call pred g pure s cs w l n ends is ch d le = (
  delete_by-Remains call (λ x. not (is_nil x)) pred g pure s cs w ends n l is ch d le,
  delete_by-Remains call is_nil pred g pure s cs w ends n l is ch d le,
)
