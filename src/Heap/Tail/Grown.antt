-- ===== src/Heap/Tail/Grown.antt =====
-- Lists that are built from new cells through the pointer to the last cdr.
use librep.Prelude.{
  ◌≡◌, refl, ap, true, false, List, [], ◌∷◌, ◌++◌, map, arith, ◌==◌, has, has-append, Bool-cases,
  inl, inr, map-agree, Distinct, map-snoc, ◌∙◌,
}
use mathlib.Core.Path.{ap₂}
use librep.Value.{Addr, Value, cons, nil, Result, ok}
use librep.Heap.{Store, make_cons}
use librep.Heap.Chain.{Chain, Chain-agree}
use librep.Heap.Alloc.{
  IsValid, live, Live, Extends, Extends-refl, Extends-trans, make_cons_lem, IsValid-write,
}
use librep.Heap.Tail.{Place, local, cdr_of, Out, read_last, write_last, move_to, emit}
use librep.Heap.Tail.Linked.{
  Linked, Linked-start, Linked-move, Linked-write, Linked-frame, read-write_last, write_at-car,
  write_at-same,
}

-- From the store `s` a list of the new cells `cs` with the elements `xs` has been built.
pub record Grown (s : Store) (fs : List Addr) (o : Out) (gs : List Addr) (xs : List Value)
    (cs : List Addr) : Type 0 where
  pub valid : IsValid o.store gs
  pub kept : Extends s fs o.store gs
  pub fresh : (a : Addr) → has a cs ≡ true → live s fs a ≡ false
  pub new : Live o.store gs cs
  pub elements : map o.store.car cs ≡ xs
  pub linked : Linked o cs

-- `r` is a list of new cells with the elements `xs` before `w`; what was live has not changed.
pub record NewList (s : Store) (fs : List Addr) (xs : List Value) (w r : Value) (t : Store)
    : Type 0 where
  pub free_cells : List Addr
  pub cells : List Addr
  pub valid : IsValid t free_cells
  pub kept : Extends s fs t free_cells
  pub fresh : (a : Addr) → has a cells ≡ true → live s fs a ≡ false
  pub new : Live t free_cells cells
  pub elements : map t.car cells ≡ xs
  pub chain : Chain t.cdr r cells w
  pub distinct : Distinct cells

write_at-live :
    (p : Place) (x : Value) (s : Store) (v : Value) (gs : List Addr) (a : Addr)
    → live (write_last (record { value = x; last = p; store = s }) v).store gs a ≡ live s gs a
write_at-live local x s v gs a = refl
write_at-live (cdr_of b) x s v gs a = refl

pub write_last-live :
    (o : Out) (v : Value) (gs : List Addr) (a : Addr)
    → live (write_last o v).store gs a ≡ live o.store gs a
write_last-live o v gs a = write_at-live o.last o.value o.store v gs a

module _ (s : Store) (fs : List Addr) where
  pub Grown-start :
      (v : Value)
      → IsValid s fs
      → Grown s fs (record { value = v; last = local; store = s }) fs [] []
  Grown-start v valid = record {
    valid = valid;
    kept = Extends-refl s fs;
    fresh = λ a. cc;
    new = λ a. cc;
    elements = refl;
    linked = Linked-start v s;
  }

  write_at-Grown :
      (p : Place) (x : Value) (t : Store) (gs : List Addr) (xs : List Value) (cs : List Addr)
      (v : Value)
      → Grown s fs (record { value = x; last = p; store = t }) gs xs cs
      → Grown s fs (write_last (record { value = x; last = p; store = t }) v) gs xs cs
  write_at-Grown local x t gs xs cs v g = record {
    valid = g.valid;
    kept = g.kept;
    fresh = g.fresh;
    new = g.new;
    elements = g.elements;
    linked = Linked-write (record { value = x; last = local; store = t }) cs v g.linked;
  }
  write_at-Grown (cdr_of b) x t gs xs cs v g = record {
    valid = IsValid-write t gs b v (g.new b g.linked.within) g.valid;
    kept = record {
      lives = g.kept.lives;
      car = g.kept.car;
      cdr = λ a h. ground (arith, g.kept.cdr a, g.fresh b g.linked.within);
    };
    fresh = g.fresh;
    new = g.new;
    elements = g.elements;
    linked = Linked-write (record { value = x; last = cdr_of b; store = t }) cs v g.linked;
  }

  -- `*last = v`
  pub Grown-write :
      (o : Out) (gs : List Addr) (xs : List Value) (cs : List Addr) (v : Value)
      → Grown s fs o gs xs cs
      → Grown s fs (write_last o v) gs xs cs
  Grown-write o gs xs cs v g = write_at-Grown o.last o.value o.store gs xs cs v g

  -- a store that keeps the live cells
  pub Grown-extend :
      (o : Out) (gs : List Addr) (xs : List Value) (cs : List Addr) (t : Store) (hs : List Addr)
      → IsValid t hs
      → Extends o.store gs t hs
      → Grown s fs o gs xs cs
      → Grown s fs (record o { store = t }) hs xs cs
  Grown-extend o gs xs cs t hs valid e g = record {
    valid = valid;
    kept = Extends-trans s fs o.store gs t hs g.kept e;
    fresh = g.fresh;
    new = λ a h. e.lives a (g.new a h);
    elements = map-agree t.car o.store.car cs (λ a h. e.car a (g.new a h)) ∙ g.elements;
    linked = Linked-frame o t cs (λ a h. e.cdr a (g.new a h)) g.linked;
  }

  -- `last = rep_CDRLOC(cell)`
  pub Grown-move :
      (o : Out) (gs : List Addr) (xs : List Value) (cs : List Addr) (c : Addr)
      → read_last o ≡ cons c
      → has c cs ≡ false
      → live s fs c ≡ false
      → live o.store gs c ≡ true
      → Grown s fs o gs xs cs
      → Grown s fs (move_to o c) gs (xs ++ o.store.car c ∷ []) (cs ++ c ∷ [])
  Grown-move o gs xs cs c e out old new g = record {
    valid = g.valid;
    kept = g.kept;
    fresh = λ a h. elim (Bool-cases (a == c)) [
      | inl same ↦ ground arith
      | inr other ↦ g.fresh a (ground (arith, has-append a cs (c ∷ [])))
    ];
    new = λ a h. elim (Bool-cases (a == c)) [
      | inl same ↦ ground arith
      | inr other ↦ g.new a (ground (arith, has-append a cs (c ∷ [])))
    ];
    elements = map-snoc o.store.car cs c ∙ ap (λ ys. ys ++ o.store.car c ∷ []) g.elements;
    linked = Linked-move o cs c e out g.linked;
  }

  -- The list is closed with `*last = w`.
  pub Grown-close :
      (o : Out) (gs : List Addr) (xs : List Value) (cs : List Addr) (w : Value)
      → Grown s fs o gs xs cs
      → NewList s fs xs w (write_last o w).value (write_last o w).store
  Grown-close o gs xs cs w g =
      let h = Grown-write o gs xs cs w g in
      record {
        free_cells = gs;
        cells = cs;
        valid = h.valid;
        kept = h.kept;
        fresh = h.fresh;
        new = h.new;
        elements = h.elements;
        chain = rw (read-write_last o w) at h.linked.now;
        distinct = h.linked.distinct;
      }

  -- `emit` adds one new cell with the given element.
  pub Grown-emit :
      (o : Out) (gs : List Addr) (xs : List Value) (cs : List Addr) (x : Value)
      → Grown s fs o gs xs cs
      → (hs : List Addr) × (c : Addr) × Grown s fs (emit o x) hs (xs ++ x ∷ []) (cs ++ c ∷ [])
  unfolding emit
  Grown-emit o gs xs cs x g =
      let c = (make_cons o.store x nil).0 in
      let t = (make_cons o.store x nil).1 in
      let (hs, k) = make_cons_lem o.store x nil gs g.valid in
      let o1 : Out = record o { store = t } in
      let o2 : Out = write_last o1 (cons c) in
      let g1 = Grown-extend o gs xs cs t hs k.valid k.kept g in
      let g2 = Grown-write o1 hs xs cs (cons c) g1 in
      let out : has c cs ≡ false = elim (Bool-cases (has c cs)) [
        | inl h ↦ ground (arith, g.new c h, k.fresh)
        | inr h ↦ h
      ] in
      let old : live s fs c ≡ false = elim (Bool-cases (live s fs c)) [
        | inl h ↦ ground (arith, g.kept.lives c h, k.fresh)
        | inr h ↦ h
      ] in
      let alive : live o2.store hs c ≡ true = rw (write_last-live o1 (cons c) hs c) k.new in
      let e : o2.store.car c ≡ x = rw (write_at-car o1.last o1.value o1.store (cons c)) k.car in
      (hs, c, rw e at (Grown-move o2 hs xs cs c (read-write_last o1 (cons c)) out old alive g2))

  -- Behind the new cell the list ends in nil.
  pub read_last-emit :
      (o : Out) (gs : List Addr) (xs : List Value) (cs : List Addr) (x : Value)
      → Grown s fs o gs xs cs
      → read_last (emit o x) ≡ nil
  unfolding emit
  read_last-emit o gs xs cs x g =
      let c = (make_cons o.store x nil).0 in
      let t = (make_cons o.store x nil).1 in
      let (hs, k) = make_cons_lem o.store x nil gs g.valid in
      let out : has c cs ≡ false = elim (Bool-cases (has c cs)) [
        | inl h ↦ ground (arith, g.new c h, k.fresh)
        | inr h ↦ h
      ] in
      write_at-same o.last o.value t cs (cons c) c g.linked.within out ∙ k.cdr

  -- A list that ends in nil as it stands.
  pub Grown-done :
      (o : Out) (gs : List Addr) (xs : List Value) (cs : List Addr)
      → Grown s fs o gs xs cs
      → read_last o ≡ nil
      → NewList s fs xs nil o.value o.store
  Grown-done o gs xs cs g e = record {
    free_cells = gs;
    cells = cs;
    valid = g.valid;
    kept = g.kept;
    fresh = g.fresh;
    new = g.new;
    elements = g.elements;
    chain = rw e at g.linked.now;
    distinct = g.linked.distinct;
  }

-- A subr returns a list of new cells with the elements `xs` before `w`.
pub record Returns (s : Store) (fs : List Addr) (xs : List Value) (w : Value)
    (out : Result Value × Store) : Type 0 where
  pub value : Value
  pub result : out.0 ≡ ok value
  pub list : NewList s fs xs w value out.1

module _ (s : Store) (fs : List Addr) where
  pub NewList-nil : (w : Value) → IsValid s fs → NewList s fs [] w w s
  NewList-nil w valid = record {
    free_cells = fs;
    cells = [];
    valid = valid;
    kept = Extends-refl s fs;
    fresh = λ a. cc;
    new = λ a. cc;
    elements = refl;
    chain = refl;
    distinct = tt;
  }

  -- One more cell in front.
  pub NewList-cons :
      (xs : List Value) (w r : Value) (t : Store) (x : Value)
      → NewList s fs xs w r t
      → NewList s fs (x ∷ xs) w (cons (make_cons t x r).0) (make_cons t x r).1
  NewList-cons xs w r t x l =
      let c = (make_cons t x r).0 in
      let t' = (make_cons t x r).1 in
      let (hs, k) = make_cons_lem t x r l.free_cells l.valid in
      record {
        free_cells = hs;
        cells = c ∷ l.cells;
        valid = k.valid;
        kept = Extends-trans s fs t l.free_cells t' hs l.kept k.kept;
        fresh = λ a h. elim (Bool-cases (a == c)) [
          | inl same ↦ elim (Bool-cases (live s fs c)) [
            | inl old ↦ ground (arith, l.kept.lives c old, k.fresh)
            | inr new ↦ ground arith
          ]
          | inr other ↦ l.fresh a (ground arith)
        ];
        new = λ a h. elim (Bool-cases (a == c)) [
          | inl same ↦ ground (arith, k.new)
          | inr other ↦ k.kept.lives a (l.new a (ground arith))
        ];
        elements =
            ap₂ (λ y ys. y ∷ ys) k.car
              (map-agree t'.car t.car l.cells (λ a h. k.kept.car a (l.new a h)) ∙ l.elements);
        chain = (
          refl,
          rw k.cdr (Chain-agree t.cdr t'.cdr r l.cells w (λ a h. k.kept.cdr a (l.new a h)) l.chain),
        );
        distinct = (
          elim (Bool-cases (has c l.cells)) [
            | inl h ↦ ground (arith, l.new c h, k.fresh)
            | inr h ↦ h
          ],
          l.distinct,
        );
      }
