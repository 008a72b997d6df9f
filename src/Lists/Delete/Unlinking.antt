-- ===== src/Lists/Delete/Unlinking.antt =====
-- What is left of a list after delete! and delq!.
use librep.Prelude.{
  ℕ, zero, suc, ◌≤◌, ◌≡◌, ap, Bool, true, false, not, List, [], ◌∷◌, ◌++◌, arith, length, has,
  Distinct, keep, if◌then◌else◌, ◌∙◌, Bool-cases, inl, inr,
}
use mathlib.Core.List.{append_assoc, append-nil}
use librep.Value.{Addr, Value, cons, eq, is_cons, is_list, interrupt, Result, ok, err}
use librep.Loop.{leave, again, poll_loop, no_rest}
use librep.Loop.Rounds.{poll_loop-leave, poll_loop-again}
use librep.Heap.{Store}
use librep.Heap.Chain.{Chain}
use librep.Heap.Tail.{Out, read_last, write_last, move_to}
use librep.Lists.Copy.{start}
use librep.Lists.Delete.{unlink_at, unlink_step, unlink, delete, delq}
use librep.Lists.Delete.Editing.{
  Remains, Editing, Editing-start, Editing-end, Editing-unlink, Editing-pass,
}

module _ (hit : Store → Addr → Bool) (s : Store) (cs : List Addr) (w : Value)
    (ends : is_cons w ≡ false) (p : Addr → Bool)
    (stable : (t : Store)
      → t.car ≡ s.car
      → ((a : Addr) → has a cs ≡ false → t.cdr a ≡ s.cdr a)
      → (c : Addr) → has c cs ≡ true
      → hit t c ≡ p c) where
  unlink_loop : ℕ → Out → Result Value × Store
  unlink_loop n o = (poll_loop (unlink_step hit) no_rest (λ o. (err interrupt, o.store)) n o).0

  unlink_at-end :
      (o : Out) (v : Value) → is_cons v ≡ false → unlink_at hit o v ≡ leave (ok o.value, o.store)
  unfolding unlink_at
  unlink_at-end o v h = ground arith

  unlink_loop-end : (n : ℕ) (o : Out) → read_last o ≡ w → unlink_loop n o ≡ (ok o.value, o.store)
  unfolding unlink_loop unlink_step
  unlink_loop-end n o e =
      ap (λ r. r.0)
        (poll_loop-leave (unlink_step hit) no_rest (λ o. (err interrupt, o.store)) n o
          (ok o.value, o.store) (ap (unlink_at hit o) e ∙ unlink_at-end o w ends))

  unlink_loop-cons :
      (n : ℕ) (o : Out) (c : Addr) (b : Bool)
      → read_last o ≡ cons c
      → hit o.store c ≡ b
      → unlink_loop (suc n) o
        ≡ unlink_loop n (if b then write_last o (o.store.cdr c) else move_to o c)
  unfolding unlink_loop unlink_step unlink_at
  unlink_loop-cons n o c b e h =
      ap (λ r. r.0)
        (poll_loop-again (unlink_step hit) no_rest (λ o. (err interrupt, o.store)) n o
          (if b then write_last o (o.store.cdr c) else move_to o c)
          (ap (unlink_at hit o) e
            ∙ ap (λ x. again (if x then write_last o (o.store.cdr c) else move_to o c)) h))

  unlink_loop-Remains :
      (n : ℕ) (o : Out) (ds rs : List Addr)
      → Editing s cs w o ds rs
      → length rs ≤ n
      → Remains s cs (ds ++ keep (λ c. not (p c)) rs) w (unlink_loop n o)
  unlink_loop-Remains n o ds [] e le =
      rw (append-nil ds, unlink_loop-end n o e.rest) (Editing-end s cs w o ds e)
  unlink_loop-Remains zero o ds (c ∷ rs) e le = absurd (omega arith)
  unlink_loop-Remains (suc n) o ds (c ∷ rs) e le =
      let test = stable o.store e.cars e.others c (e.inside c (ground arith)) in
      elim (Bool-cases (p c)) [
        | inl h ↦
            rw (unlink_loop-cons n o c true e.rest.0 (test ∙ h), h)
              (unlink_loop-Remains n (write_last o (o.store.cdr c)) ds rs
                (Editing-unlink s cs w o ds c rs e) (omega arith))
        | inr h ↦
            rw
              (
                unlink_loop-cons n o c false e.rest.0 (test ∙ h),
                h,
                ← append_assoc ds (c ∷ []) (keep (λ c. not (p c)) rs),
              )
              (unlink_loop-Remains n (move_to o c) (ds ++ c ∷ []) rs
                (Editing-pass s cs w o ds c rs e) (omega arith))
      ]

  unlink-Remains :
      (n : ℕ) (l : Value)
      → is_list l ≡ true
      → Chain s.cdr l cs w
      → Distinct cs
      → length cs ≤ n
      → Remains s cs (keep (λ c. not (p c)) cs) w (unlink n hit s l)
  unfolding unlink unlink_loop
  unlink-Remains n l is ch d le =
      rw is (unlink_loop-Remains n (start l s) [] cs (Editing-start s cs w l ch d) le)

module _ (s : Store) (cs : List Addr) (w : Value) (ends : is_cons w ≡ false) (n : ℕ) (l : Value)
    (is : is_list l ≡ true) (ch : Chain s.cdr l cs w) (d : Distinct cs) (le : length cs ≤ n) where
  -- `delq!` of a list of the distinct cells `cs`, with a poll for each: the cells whose car is not
  -- `elt` lead in order to what ended the list; no car is written, and no cdr outside the list.
  pub delq-Remains :
      (elt : Value) → Remains s cs (keep (λ c. not (eq elt (s.car c))) cs) w (delq n s elt l)
  unfolding delq
  delq-Remains elt =
      unlink-Remains (λ t c. eq elt (t.car c)) s cs w ends (λ c. eq elt (s.car c))
        (λ t e o c h. ap (λ m. eq elt (m c)) e) n l is ch d le

  -- `delete!` likewise, by an equality whose answers about the elements the changed cdrs of the list
  -- do not change.
  pub delete-Remains :
      (equal : Store → Value → Value → Bool) (elt : Value)
      → ((t : Store)
          → t.car ≡ s.car
          → ((a : Addr) → has a cs ≡ false → t.cdr a ≡ s.cdr a)
          → (c : Addr) → has c cs ≡ true
          → equal t elt (s.car c) ≡ equal s elt (s.car c))
      → Remains s cs (keep (λ c. not (equal s elt (s.car c))) cs) w (delete equal n s elt l)
  unfolding delete
  delete-Remains equal elt stable =
      unlink-Remains (λ t c. equal t elt (t.car c)) s cs w ends (λ c. equal s elt (s.car c))
        (λ t e o c h. ap (λ m. equal t elt (m c)) e ∙ stable t e o c h) n l is ch d le
