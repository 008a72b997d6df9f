-- ===== src/Guardians/Scanning.antt =====
-- The loop over a guardian's accessible objects: those without a mark go over to the inaccessible ones.
use librep.Prelude.{
  ℕ, zero, suc, ◌≤◌, ◌≡◌, refl, sym, ◌∙◌, Bool, true, false, ◌||◌, not, List, [], ◌∷◌, arith,
  if◌then◌else◌, ◌==◌, Bool-cases, inl, inr, has, Distinct, keep, length, map, turned_onto,
}
use librep.Value.{Addr, Value, nil, cons, eq}
use librep.Heap.{Store}
use librep.Heap.Chain.{Chain, Chain-agree}
use librep.Collector.{Marks, set_mark}
use librep.Collector.Marking.{has_value}
use librep.Guardians.{Scan, Link, at_head, at_cdr, read_link, move_cell, scan_cell, scan_cells}

-- The place `ptr` is not the cdr of the cell `a`.
abbrev pub off : Link → Addr → Bool
off at_head a = true
off (at_cdr b) a = not (a == b)

-- The same blocks of cells.
abbrev pub SameBlocks : Store → Store → Type 0
SameBlocks s t = (t.blocks ≡ s.blocks) × (t.allocated ≡ s.allocated)

abbrev is_cdr : Link → Bool
is_cdr at_head = false
is_cdr (at_cdr _) = true

-- The loop has passed the cells `cs`; `k` tells which of their objects had marks.
pub record Scanned (k : Marks) (s : Scan) (ptr : Link) (cs is : List Addr) (t : Scan) : Type 0 where
  pub list : Chain t.store.cdr (read_link t ptr) (keep (λ c. k (s.store.car c)) cs) nil
  pub lost :
      Chain t.store.cdr t.inaccessible (turned_onto (keep (λ c. not (k (s.store.car c))) cs) is) nil
  pub cars : t.store.car ≡ s.store.car
  pub blocks : SameBlocks s.store t.store
  pub cdrs : (a : Addr) → has a cs ≡ false → off ptr a ≡ true → t.store.cdr a ≡ s.store.cdr a
  pub head : is_cdr ptr ≡ true → t.accessible ≡ s.accessible
  pub marks : (w : Value) → t.marks w ≡ (s.marks w || has_value w (map cons cs))
  pub changed :
      t.changed ≡ turned_onto (map s.store.car (keep (λ c. not (k (s.store.car c))) cs)) s.changed

-- What the loop needs: two lists apart from each other, and objects that are not cells of the list.
pub record Scannable (k : Marks) (s : Scan) (ptr : Link) (cs is : List Addr) : Type 0 where
  pub list : Chain s.store.cdr (read_link s ptr) cs nil
  pub others : Chain s.store.cdr s.inaccessible is nil
  pub distinct : Distinct cs
  pub apart : (a : Addr) → has a cs ≡ true → has a is ≡ false
  pub place : (a : Addr) → (has a cs || has a is) ≡ true → off ptr a ≡ true
  pub objects :
      (c d : Addr) → has c cs ≡ true → has d cs ≡ true → eq (s.store.car c) (cons d) ≡ false
  pub marks : (c : Addr) → has c cs ≡ true → s.marks (s.store.car c) ≡ k (s.store.car c)

-- A cell that goes over, by the place that holds it.
move_cell-cdr :
    (s : Scan) (ptr : Link) (c a : Addr)
    → off ptr a ≡ true
    → (move_cell s ptr c).store.cdr a ≡ (if a == c then s.inaccessible else s.store.cdr a)
unfolding move_cell
move_cell-cdr s at_head c a o = refl
move_cell-cdr s (at_cdr b) c a o = ground arith

read_link-move_cell :
    (s : Scan) (ptr : Link) (c : Addr)
    → off ptr c ≡ true
    → read_link (move_cell s ptr c) ptr ≡ s.store.cdr c
unfolding move_cell
read_link-move_cell s at_head c o = refl
read_link-move_cell s (at_cdr b) c o = ground arith

move_cell-car : (s : Scan) (ptr : Link) (c : Addr) → (move_cell s ptr c).store.car ≡ s.store.car
unfolding move_cell
move_cell-car s at_head c = refl
move_cell-car s (at_cdr b) c = refl

move_cell-blocks : (s : Scan) (ptr : Link) (c : Addr) → SameBlocks s.store (move_cell s ptr c).store
unfolding move_cell
move_cell-blocks s at_head c = (refl, refl)
move_cell-blocks s (at_cdr b) c = (refl, refl)

move_cell-accessible :
    (s : Scan) (ptr : Link) (c : Addr)
    → is_cdr ptr ≡ true
    → (move_cell s ptr c).accessible ≡ s.accessible
unfolding move_cell
move_cell-accessible s (at_cdr b) c h = refl
move_cell-accessible s at_head c h = absurd (ground arith)

read_link-same :
    (s t : Scan) (ptr : Link) (cs : List Addr)
    → ((a : Addr) → has a cs ≡ true → off ptr a ≡ true)
    → t.accessible ≡ s.accessible
    → ((a : Addr) → has a cs ≡ false → t.store.cdr a ≡ s.store.cdr a)
    → read_link t ptr ≡ read_link s ptr
read_link-same s t at_head cs place head cdrs = head
read_link-same s t (at_cdr b) cs place head cdrs = cdrs b (ground (arith, place b))

module _ (k : Marks) (s : Scan) (ptr : Link) (c : Addr) (cs is : List Addr)
    (h : Scannable k s ptr (c ∷ cs) is) where
  kept_cell : Scan
  kept_cell = record s { marks = set_mark (cons c) s.marks }

  kept_cell-Scannable : Scannable k kept_cell (at_cdr c) cs is
  unfolding kept_cell
  kept_cell-Scannable = record {
    list = h.list.1;
    others = h.others;
    distinct = h.distinct.1;
    apart = λ a i. h.apart a (ground arith);
    place = λ a i. ground (arith, h.distinct.0, h.apart c);
    objects = λ d e i j. h.objects d e (ground arith) (ground arith);
    marks = λ d i. ground (arith, h.objects d c, h.marks d);
  }

  -- The cdrs of the cells of the two lists, but for `c`.
  move_cell-kept :
      (a : Addr) → (has a cs || has a is) ≡ true → (move_cell s ptr c).store.cdr a ≡ s.store.cdr a
  move_cell-kept a i =
      let other : (a == c) ≡ false = ground (arith, h.distinct.0, h.apart c) in
      move_cell-cdr s ptr c a (h.place a (ground arith)) ∙ rw other refl

  move_cell-Scannable : Scannable k (move_cell s ptr c) ptr cs (c ∷ is)
  move_cell-Scannable =
      let on = h.place c (ground arith) in
      let m = (move_cell s ptr c).store.cdr in
      let moved : m c ≡ s.inaccessible = move_cell-cdr s ptr c c on ∙ ground arith in
      record {
        list = rw (read_link-move_cell s ptr c on) (
            Chain-agree s.store.cdr m (s.store.cdr c) cs nil
              (λ a i. move_cell-kept a (ground arith)) h.list.1);
        others = (
          unfold move_cell in refl,
          rw moved (
              Chain-agree s.store.cdr m s.inaccessible is nil
                (λ a i. move_cell-kept a (ground arith)) h.others),
        );
        distinct = h.distinct.1;
        apart = λ a i. ground (arith, h.distinct.0, h.apart a);
        place = λ a i. h.place a (ground arith);
        objects =
            λ d e i j. rw (move_cell-car s ptr c) (h.objects d e (ground arith) (ground arith));
        marks = λ d i.
            rw (move_cell-car s ptr c)
              (unfold move_cell in ground (arith, h.objects d c, h.marks d));
      }

  -- The rest of the loop, behind a cell that stays in the list
  kept_cell-Scanned :
      (t : Scan)
      → s.marks (s.store.car c) ≡ true
      → Scanned k kept_cell (at_cdr c) cs is t
      → Scanned k s ptr (c ∷ cs) is t
  unfolding kept_cell
  kept_cell-Scanned t alive r =
      let on = h.place c (ground arith) in
      let known : k (s.store.car c) ≡ true = sym (h.marks c (ground arith)) ∙ alive in
      record {
        list = rw known (here, r.list);
        lost = rw known r.lost;
        cars = r.cars;
        blocks = r.blocks;
        cdrs = λ a o p. r.cdrs a (ground arith) (ground arith);
        head = λ i. r.head refl;
        marks = λ w. r.marks w ∙ ground arith;
        changed = rw known r.changed;
      }
    where
      here : read_link t ptr ≡ cons c
      here =
          read_link-same s t ptr (c ∷ cs) (λ a i. h.place a (ground arith)) (r.head refl)
            (λ a o. r.cdrs a (ground arith) (ground arith))
          ∙ h.list.0

  -- The rest of the loop, behind a cell that goes over
  move_cell-Scanned :
      (t : Scan)
      → s.marks (s.store.car c) ≡ false
      → Scanned k (move_cell s ptr c) ptr cs (c ∷ is) t
      → Scanned k s ptr (c ∷ cs) is t
  move_cell-Scanned t dead r =
      let known : k (s.store.car c) ≡ false = sym (h.marks c (ground arith)) ∙ dead in
      let e = move_cell-car s ptr c in
      record {
        list = rw known (rw e at r.list);
        lost = rw known (rw e at r.lost);
        cars = r.cars ∙ e;
        blocks =
            (r.blocks.0 ∙ (move_cell-blocks s ptr c).0, r.blocks.1 ∙ (move_cell-blocks s ptr c).1);
        cdrs = λ a o p. r.cdrs a (ground arith) p ∙ move_cell-cdr s ptr c a p ∙ ground arith;
        head = λ i. r.head i ∙ move_cell-accessible s ptr c i;
        marks = λ w. r.marks w ∙ unfold move_cell in ground arith;
        changed = rw known (unfold move_cell in (rw e at r.changed));
      }

scan_cells-empty : (s : Scan) (ptr : Link) (n : ℕ) → read_link s ptr ≡ nil → scan_cells n s ptr ≡ s
unfolding scan_cells
scan_cells-empty s ptr zero e = refl
scan_cells-empty s ptr (suc n) e = rw (scan_cells, e) refl

scan_cells-kept :
    (s : Scan) (ptr : Link) (c : Addr) (n : ℕ)
    → read_link s ptr ≡ cons c
    → s.marks (s.store.car c) ≡ true
    → scan_cells (suc n) s ptr
      ≡ scan_cells n (record s { marks = set_mark (cons c) s.marks }) (at_cdr c)
unfolding scan_cells scan_cell
scan_cells-kept s ptr c n e m = rw (scan_cells, e, scan_cell, m) refl

scan_cells-moved :
    (s : Scan) (ptr : Link) (c : Addr) (n : ℕ)
    → read_link s ptr ≡ cons c
    → s.marks (s.store.car c) ≡ false
    → scan_cells (suc n) s ptr ≡ scan_cells n (move_cell s ptr c) ptr
unfolding scan_cells scan_cell
scan_cells-moved s ptr c n e m = rw (scan_cells, e, scan_cell, m) refl

pub scan_cells-Scanned :
    (k : Marks) (n : ℕ) (s : Scan) (ptr : Link) (cs is : List Addr)
    → Scannable k s ptr cs is
    → length cs ≤ n
    → Scanned k s ptr cs is (scan_cells n s ptr)
unfolding kept_cell
scan_cells-Scanned k n s ptr [] is h f = rw (scan_cells-empty s ptr n h.list) (record {
  list = h.list;
  lost = h.others;
  cars = refl;
  blocks = (refl, refl);
  cdrs = λ a o p. refl;
  head = λ i. refl;
  marks = λ w. ground arith;
  changed = refl;
})
scan_cells-Scanned k zero s ptr (c ∷ cs) is h f = absurd (ground arith)
scan_cells-Scanned k (suc n) s ptr (c ∷ cs) is h f = elim (Bool-cases (s.marks (s.store.car c))) [
  | inl alive ↦ rw (scan_cells-kept s ptr c n h.list.0 alive) (
      kept_cell-Scanned k s ptr c cs is h _ alive (
        scan_cells-Scanned k n _ (at_cdr c) cs is (kept_cell-Scannable k s ptr c cs is h)
          (ground arith)))
  | inr dead ↦ rw (scan_cells-moved s ptr c n h.list.0 dead) (
      move_cell-Scanned k s ptr c cs is h _ dead (
        scan_cells-Scanned k n _ ptr cs (c ∷ is) (move_cell-Scannable k s ptr c cs is h)
          (ground arith)))
]
