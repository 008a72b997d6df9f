-- ===== src/Guardians/Running.antt =====
-- The loop over all guardians.
use librep.Prelude.{
  ℕ, ◌≤◌, ◌≡◌, refl, ◌∙◌, Bool, true, false, ◌||◌, not, List, [], ◌∷◌, arith, ◌==◌, Bool-cases, inl,
  inr, has, Distinct, keep, length, map, turned_onto,
}
use librep.Value.{Addr, Value, nil, cons, eq, eq_self}
use librep.Heap.{Store}
use librep.Heap.Chain.{Chain, Chain-agree}
use librep.Collector.Marking.{has_value}
use librep.Guardians.{Guardian, Scan, Pass, at_head, scan_guardian, scan_guardians}
use librep.Guardians.Scanning.{SameBlocks, scan_cells-Scanned}

-- The cells of a guardian's two lists.
pub record Cells : Type 0 where
  pub open_cells : List Addr
  pub lost_cells : List Addr

abbrev pub in_cells : Addr → Cells → Bool
in_cells a c = has a c.open_cells || has a c.lost_cells

abbrev pub in_any : Addr → List Cells → Bool
in_any a [] = false
in_any a (c ∷ cs) = in_cells a c || in_any a cs

-- The two lists of one guardian: apart, without an object that is a cell of the first.
pub record Guarding (s : Store) (g : Guardian) (c : Cells) : Type 0 where
  pub list : Chain s.cdr g.accessible c.open_cells nil
  pub lost : Chain s.cdr g.inaccessible c.lost_cells nil
  pub distinct : Distinct c.open_cells
  pub apart : (a : Addr) → has a c.open_cells ≡ true → has a c.lost_cells ≡ false
  pub objects :
      (a b : Addr)
      → has a c.open_cells ≡ true
      → has b c.open_cells ≡ true
      → eq (s.car a) (cons b) ≡ false

-- No two guardians share a cell.
abbrev pub AllGuarding : Store → List Guardian → List Cells → Type 0
AllGuarding s [] [] = Unit
AllGuarding s [] (c ∷ cs) = ⊥
AllGuarding s (g ∷ gs) [] = ⊥
AllGuarding s (g ∷ gs) (c ∷ cs) =
    Guarding s g c
    × (((a : Addr) → in_cells a c ≡ true → in_any a cs ≡ false) × AllGuarding s gs cs)

-- One guardian after the loop: in front of its lost objects are those whose marks were missing, last first.
pub record Split (p : Pass) (g : Guardian) (c : Cells) (h : Guardian) (q : Pass) : Type 0 where
  pub guarding :
      Chain q.store.cdr h.accessible (keep (λ a. p.marks (p.store.car a)) c.open_cells) nil
      × Chain q.store.cdr h.inaccessible
          (turned_onto (keep (λ a. not (p.marks (p.store.car a))) c.open_cells) c.lost_cells)
          nil
  pub cars : q.store.car ≡ p.store.car
  pub blocks : SameBlocks p.store q.store
  pub cdrs : (a : Addr) → has a c.open_cells ≡ false → q.store.cdr a ≡ p.store.cdr a
  pub marks : (w : Value) → q.marks w ≡ (p.marks w || has_value w (map cons c.open_cells))
  pub changed :
      q.changed
      ≡ turned_onto
          (map p.store.car (keep (λ a. not (p.marks (p.store.car a))) c.open_cells))
          p.changed

-- The loop over one guardian splits its accessible list, in order, by the marks of the objects: those
-- with a mark stay, the others go in front of the inaccessible list, and are to be marked. The lists
-- end, have no cell in common, and hold no object that is a cell of the first; the fuel is its length.
pub scan_guardian-Split :
    (n : ℕ) (p : Pass) (g : Guardian) (c : Cells)
    → Guarding p.store g c
    → length c.open_cells ≤ n
    → Split p g c (scan_guardian n p g).0 (scan_guardian n p g).1
unfolding scan_guardian
scan_guardian-Split n p g c h f =
    let s : Scan = record {
      store = p.store;
      marks = p.marks;
      accessible = g.accessible;
      inaccessible = g.inaccessible;
      changed = p.changed;
    } in
    let r =
      scan_cells-Scanned p.marks n s at_head c.open_cells c.lost_cells
        (record {
          list = h.list;
          others = h.lost;
          distinct = h.distinct;
          apart = h.apart;
          place = λ a i. refl;
          objects = h.objects;
          marks = λ a i. refl;
        })
        f in
    record {
      guarding = (r.list, r.lost);
      cars = r.cars;
      blocks = r.blocks;
      cdrs = λ a o. r.cdrs a o refl;
      marks = r.marks;
      changed = r.changed;
    }

has_value-turned_onto :
    (v : Value) (xs ys : List Value)
    → has_value v (turned_onto xs ys) ≡ (has_value v xs || has_value v ys)
has_value-turned_onto v [] ys = refl
has_value-turned_onto v (x ∷ xs) ys = has_value-turned_onto v xs (x ∷ ys) ∙ ground arith

-- The objects of the cells that a test chooses.
has_value-keep :
    (car : Addr → Value) (test : Addr → Bool) (cs : List Addr) (a : Addr)
    → has a cs ≡ true
    → test a ≡ true
    → has_value (car a) (map car (keep test cs)) ≡ true
has_value-keep car test (c ∷ cs) a i h = elim (Bool-cases (a == c)) [
  | inl e ↦
      let same : a ≡ c = ground arith in
      let chosen : test c ≡ true = rw (← same) h in
      rw (chosen, same) (ground (arith, eq_self (car c)))
  | inr n ↦
      let rest = has_value-keep car test cs a (ground arith) h in
      elim (Bool-cases (test c)) [ inl k ↦ rw k (ground arith) | inr k ↦ rw k rest ]
]
has_value-keep car test [] a i h = absurd (ground arith)

abbrev pub open_in : Addr → List Cells → Bool
open_in a [] = false
open_in a (c ∷ cs) = has a c.open_cells || open_in a cs

Guarding-agree :
    (s t : Store) (g : Guardian) (c : Cells)
    → t.car ≡ s.car
    → ((a : Addr) → in_cells a c ≡ true → t.cdr a ≡ s.cdr a)
    → Guarding s g c
    → Guarding t g c
Guarding-agree s t g c cars cdrs h = record {
  list =
      Chain-agree s.cdr t.cdr g.accessible c.open_cells nil (λ a i. cdrs a (ground arith)) h.list;
  lost =
      Chain-agree s.cdr t.cdr g.inaccessible c.lost_cells nil (λ a i. cdrs a (ground arith)) h.lost;
  distinct = h.distinct;
  apart = h.apart;
  objects = λ a b i j. rw cars (h.objects a b i j);
}

AllGuarding-agree :
    (s t : Store) (gs : List Guardian) (cs : List Cells)
    → t.car ≡ s.car
    → ((a : Addr) → in_any a cs ≡ true → t.cdr a ≡ s.cdr a)
    → AllGuarding s gs cs
    → AllGuarding t gs cs
AllGuarding-agree s t [] [] cars cdrs h = tt
AllGuarding-agree s t [] (c ∷ cs) cars cdrs h = h
AllGuarding-agree s t (g ∷ gs) [] cars cdrs h = h
AllGuarding-agree s t (g ∷ gs) (c ∷ cs) cars cdrs (h, (apart, hs)) = (
  Guarding-agree s t g c cars (λ a i. cdrs a (ground arith)) h,
  (apart, AllGuarding-agree s t gs cs cars (λ a i. cdrs a (ground arith)) hs),
)

-- All guardians after the loop: every guarded object has a mark, or is to be marked. Only the cells of
-- accessible lists have new marks or new cdrs.
pub record Passed (p : Pass) (cs : List Cells) (q : Pass) : Type 0 where
  pub cars : q.store.car ≡ p.store.car
  pub blocks : SameBlocks p.store q.store
  pub cdrs : (a : Addr) → open_in a cs ≡ false → q.store.cdr a ≡ p.store.cdr a
  pub grows : (w : Value) → p.marks w ≡ true → q.marks w ≡ true
  pub infrastructure : (a : Addr) → open_in a cs ≡ true → q.marks (cons a) ≡ true
  pub pending : (v : Value) → has_value v p.changed ≡ true → has_value v q.changed ≡ true
  pub objects :
      (a : Addr)
      → open_in a cs ≡ true
      → (q.marks (p.store.car a) || has_value (p.store.car a) q.changed) ≡ true

has_value-cons :
    (a : Addr) (cs : List Addr) → has a cs ≡ true → has_value (cons a) (map cons cs) ≡ true
unfolding eq
has_value-cons a (c ∷ cs) i = ground (arith, has_value-cons a cs)
has_value-cons a [] i = absurd (ground arith)

Split-Passed :
    (p q : Pass) (g h : Guardian) (c : Cells) (cs : List Cells) (r : Pass)
    → Split p g c h q
    → Passed q cs r
    → Passed p (c ∷ cs) r
Split-Passed p q g h c cs r s t =
    let missing : Addr → Bool = λ b. not (p.marks (p.store.car b)) in
    record {
      cars = t.cars ∙ s.cars;
      blocks = (t.blocks.0 ∙ s.blocks.0, t.blocks.1 ∙ s.blocks.1);
      cdrs = λ a o. t.cdrs a (ground arith) ∙ s.cdrs a (ground arith);
      grows = λ w i. t.grows w (s.marks w ∙ ground arith);
      infrastructure = λ a i. elim (Bool-cases (open_in a cs)) [
        | inl e ↦ t.infrastructure a e
        | inr e ↦
            t.grows (cons a) (s.marks (cons a) ∙ ground (arith, has_value-cons a c.open_cells))
      ];
      pending = λ v i. t.pending v (
          rw s.changed (
            ground (
              arith,
              has_value-turned_onto v (map p.store.car (keep missing c.open_cells)) p.changed,
            )));
      objects = λ a i. elim (Bool-cases (open_in a cs)) [
        | inl e ↦ rw s.cars at (t.objects a e)
        | inr e ↦ elim (Bool-cases (p.marks (p.store.car a))) [
          | inl alive ↦
              let m = t.grows (p.store.car a) (s.marks (p.store.car a) ∙ ground arith) in
              ground arith
          | inr dead ↦
              let chosen =
                has_value-keep p.store.car missing c.open_cells a (ground arith) (ground arith) in
              let m = t.pending (p.store.car a) (
                rw s.changed (
                  ground (
                    arith,
                    chosen,
                    has_value-turned_onto (p.store.car a)
                        (map p.store.car (keep missing c.open_cells)) p.changed,
                  ))) in
              ground arith
        ]
      ];
    }

abbrev pub Fits : ℕ → List Cells → Type 0
Fits n [] = Unit
Fits n (c ∷ cs) = (length c.open_cells ≤ n) × Fits n cs

pub scan_guardians-Passed :
    (n : ℕ) (p : Pass) (gs : List Guardian) (cs : List Cells)
    → AllGuarding p.store gs cs
    → Fits n cs
    → Passed p cs (scan_guardians n p gs).1
unfolding scan_guardians
scan_guardians-Passed n p [] [] h f = record {
  cars = refl;
  blocks = (refl, refl);
  cdrs = λ a o. refl;
  grows = λ w i. i;
  infrastructure = λ a i. absurd (ground arith);
  pending = λ v i. i;
  objects = λ a i. absurd (ground arith);
}
scan_guardians-Passed n p [] (c ∷ cs) h f = absurd h
scan_guardians-Passed n p (g ∷ gs) [] h f = absurd h
scan_guardians-Passed n p (g ∷ gs) (c ∷ cs) (h, (apart, hs)) (f, fs) =
    let s = scan_guardian-Split n p g c h f in
    let q = (scan_guardian n p g).1 in
    let kept =
      AllGuarding-agree p.store q.store gs cs s.cars (λ a i. s.cdrs a (ground (arith, apart a)))
        hs in
    Split-Passed p q g _ c cs _ s (scan_guardians-Passed n q gs cs kept fs)
