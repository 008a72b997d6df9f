-- ===== src/Lists/Delete/Editing.antt =====
-- A list from which cells are unlinked one after the other.
use librep.Prelude.{
  ◌≡◌, refl, true, false, List, [], ◌∷◌, ◌++◌, arith, has, Distinct, ◌||◌, ◌∙◌, has-append,
  Bool-cases, inl, inr,
}
use librep.Value.{Addr, Value, Result, ok}
use librep.Heap.{Store}
use librep.Heap.Chain.{Chain, Chain-agree}
use librep.Heap.Tail.{Out, read_last, write_last, move_to}
use librep.Heap.Tail.Linked.{
  Linked, Linked-start, Linked-write, Linked-move, read-write_last, write_at-same, write_at-car,
}
use librep.Lists.Copy.{start}

-- The cells `ks` of the list `cs` lead on to `w`; no car has been written, and no cdr outside the list.
pub record Remains (s : Store) (cs ks : List Addr) (w : Value) (out : Result Value × Store)
    : Type 0 where
  pub value : Value
  pub result : out.0 ≡ ok value
  pub chain : Chain out.1.cdr value ks w
  pub cars : out.1.car ≡ s.car
  pub others : (a : Addr) → has a cs ≡ false → out.1.cdr a ≡ s.cdr a

-- What the loops keep: the kept cells `ds` lead up to the place that holds the rest `rs` of the list.
pub record Editing (s : Store) (cs : List Addr) (w : Value) (o : Out) (ds rs : List Addr)
    : Type 0 where
  pub linked : Linked o ds
  pub rest : Chain o.store.cdr (read_last o) rs w
  pub distinct : Distinct rs
  pub apart : (a : Addr) → has a rs ≡ true → has a ds ≡ false
  pub inside : (a : Addr) → (has a ds || has a rs) ≡ true → has a cs ≡ true
  pub cars : o.store.car ≡ s.car
  pub others : (a : Addr) → has a cs ≡ false → o.store.cdr a ≡ s.cdr a

module _ (s : Store) (cs : List Addr) (w : Value) where
  pub Editing-start :
      (l : Value) → Chain s.cdr l cs w → Distinct cs → Editing s cs w (start l s) [] cs
  Editing-start l ch d = record {
    linked = Linked-start l s;
    rest = ch;
    distinct = d;
    apart = λ a h. refl;
    inside = λ a h. h;
    cars = refl;
    others = λ a h. refl;
  }

  pub Editing-end :
      (o : Out) (ds : List Addr) → Editing s cs w o ds [] → Remains s cs ds w (ok o.value, o.store)
  Editing-end o ds e = record {
    value = o.value;
    result = refl;
    chain = rw e.rest at e.linked.now;
    cars = e.cars;
    others = e.others;
  }

  -- `*ptr = rep_CDR(cell)`
  pub Editing-unlink :
      (o : Out) (ds : List Addr) (c : Addr) (rs : List Addr)
      → Editing s cs w o ds (c ∷ rs)
      → Editing s cs w (write_last o (o.store.cdr c)) ds rs
  Editing-unlink o ds c rs e =
      let v = o.store.cdr c in
      let o2 : Out = write_last o v in
      let same : (b : Addr) → has b ds ≡ false → o2.store.cdr b ≡ o.store.cdr b =
        λ b h. write_at-same o.last o.value o.store ds v b e.linked.within h in
      record {
        linked = Linked-write o ds v e.linked;
        rest = rw (read-write_last o v) (
            Chain-agree o.store.cdr o2.store.cdr v rs w (λ b h. same b (e.apart b (ground arith)))
              e.rest.1);
        distinct = e.distinct.1;
        apart = λ a h. e.apart a (ground arith);
        inside = λ a h. e.inside a (ground arith);
        cars = write_at-car o.last o.value o.store v ∙ e.cars;
        others = λ a h. elim (Bool-cases (has a ds)) [
          | inl k ↦ absurd (ground (arith, e.inside a))
          | inr k ↦ same a k ∙ e.others a h
        ];
      }

  -- `ptr = &rep_CDR(cell)`
  pub Editing-pass :
      (o : Out) (ds : List Addr) (c : Addr) (rs : List Addr)
      → Editing s cs w o ds (c ∷ rs)
      → Editing s cs w (move_to o c) (ds ++ c ∷ []) rs
  Editing-pass o ds c rs e = record {
    linked = Linked-move o ds c e.rest.0 (e.apart c (ground arith)) e.linked;
    rest = e.rest.1;
    distinct = e.distinct.1;
    apart = λ a h. ground (arith, has-append a ds (c ∷ []), e.apart a (ground arith), e.distinct.0);
    inside = λ a h. e.inside a (ground (arith, has-append a ds (c ∷ [])));
    cars = e.cars;
    others = e.others;
  }
