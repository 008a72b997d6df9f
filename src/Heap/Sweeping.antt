-- ===== src/Heap/Sweeping.antt =====
-- The sweep of the cons cells frees exactly the cells without a mark.
use librep.Prelude.{
  ℕ, zero, suc, ◌+◌, ◌≡◌, refl, ap, sym, Bool, true, false, ◌&&◌, ◌||◌, not, List, [], ◌∷◌, ◌++◌,
  arith, ◌==◌, if◌then◌else◌, has, Distinct, Bool-cases, inl, inr, ◌∙◌, leb, ltb,
}
use mathlib.Core.List.{append-nil}
use librep.Value.{Addr, Value, null, cons}
use librep.Heap.{
  Store, update, cons_per_block, Sweep, sweep_cell, sweep_cells, sweep_blocks, cons_sweep,
}
use librep.Heap.Chain.{Chain, Chain-update}
use librep.Heap.Alloc.{IsValid, Below, cells_from, has-cells_from, Distinct-cells_from}

-- The sweep of cells in a given order.
sweep_all : List Addr → Sweep → Sweep
sweep_all [] w = w
sweep_all (c ∷ cs) w = sweep_all cs (sweep_cell w c)

sweep_all-append :
    (cs ds : List Addr) (w : Sweep) → sweep_all (cs ++ ds) w ≡ sweep_all ds (sweep_all cs w)
unfolding sweep_all
sweep_all-append [] ds w = refl
sweep_all-append (c ∷ cs) ds w = sweep_all-append cs ds (sweep_cell w c)

-- The cells of the blocks, in the order of the block list.
pub block_cells : List Addr → List Addr
block_cells [] = []
block_cells (b ∷ bs) = cells_from cons_per_block b ++ block_cells bs

-- The cells of one block are distinct, and below the end of the block.
pub block_cells-one :
    (b : Addr) → Distinct (block_cells (b ∷ [])) × Below (b + cons_per_block) (block_cells (b ∷ []))
unfolding block_cells
block_cells-one b =
    let e = append-nil (cells_from cons_per_block b) in
    (
      rw e (Distinct-cells_from cons_per_block b),
      rw e (λ a h. ground (arith, has-cells_from cons_per_block b a)),
    )

pub has-block_cells :
    (b a : Addr) → has a (block_cells (b ∷ [])) ≡ (leb b a && ltb a (b + cons_per_block))
unfolding block_cells
has-block_cells b a =
    ap (has a) (append-nil (cells_from cons_per_block b)) ∙ has-cells_from cons_per_block b a

sweep_cells-all : (k a : ℕ) (w : Sweep) → sweep_cells k a w ≡ sweep_all (cells_from k a) w
unfolding sweep_cells sweep_all cells_from
sweep_cells-all zero a w = refl
sweep_cells-all (suc k) a w = sweep_cells-all k (a + 1) (sweep_cell w a)

sweep_blocks-all : (bs : List Addr) (w : Sweep) → sweep_blocks bs w ≡ sweep_all (block_cells bs) w
unfolding sweep_blocks block_cells sweep_all
sweep_blocks-all [] w = refl
sweep_blocks-all (b ∷ bs) w =
    ap (sweep_blocks bs) (sweep_cells-all cons_per_block b w)
    ∙ sweep_blocks-all bs (sweep_all (cells_from cons_per_block b) w)
    ∙ sym (sweep_all-append (cells_from cons_per_block b) (block_cells bs) w)

abbrev pub count_marked : (Addr → Bool) → List Addr → ℕ
count_marked m [] = 0
count_marked m (c ∷ cs) = (if m c then 1 else 0) + count_marked m cs

-- The free list behind the sweep of the cells `cs`.
unfoldable pub freed : (Addr → Bool) → List Addr → List Addr → List Addr
freed m [] fs = fs
freed m (c ∷ cs) fs = freed m cs (if m c then fs else c ∷ fs)

pub has-freed :
    (m : Addr → Bool) (cs fs : List Addr) (a : Addr)
    → has a (freed m cs fs) ≡ ((has a cs && not (m a)) || has a fs)
unfolding freed
has-freed m [] fs a = refl
has-freed m (c ∷ cs) fs a = elim (Bool-cases (a == c)) [
  | inl e ↦ ground (arith, has-freed m cs (if m c then fs else c ∷ fs) a)
  | inr e ↦ ground (arith, has-freed m cs (if m c then fs else c ∷ fs) a)
]

record Swept (w : Sweep) (cs fs : List Addr) (m : Addr → Bool) (v : Sweep) : Type 0 where
  chain : Chain v.cdr v.free (freed m cs fs) null
  distinct : Distinct (freed m cs fs)
  kept : (a : Addr) → (has a cs && not (m a)) ≡ false → v.cdr a ≡ w.cdr a
  used : v.used ≡ w.used + count_marked m cs
  cleared : (a : Addr) → v.marked a ≡ (w.marked a && not (has a cs))

sweep_cell-marked :
    (w : Sweep) (c : Addr)
    → w.marked c ≡ true
    → sweep_cell w c
      ≡ record w { marked = λ b. if b == c then false else w.marked b; used = w.used + 1 }
unfolding sweep_cell
sweep_cell-marked w c h = rw (h, sweep_cell)

sweep_cell-unmarked :
    (w : Sweep) (c : Addr)
    → w.marked c ≡ false
    → sweep_cell w c ≡ record w { cdr = update w.cdr c w.free; free = cons c }
unfolding sweep_cell
sweep_cell-unmarked w c h = rw (h, sweep_cell)

update_self : (m : Addr → Value) (a : Addr) (v : Value) → update m a v a ≡ v
update_self m a v = ground arith

sweep_all-Swept :
    (m : Addr → Bool) (cs fs : List Addr) (w : Sweep)
    → Chain w.cdr w.free fs null
    → Distinct fs
    → Distinct cs
    → ((a : Addr) → has a cs ≡ true → has a fs ≡ false)
    → ((a : Addr) → has a cs ≡ true → w.marked a ≡ m a)
    → Swept w cs fs m (sweep_all cs w)
unfolding sweep_all freed
sweep_all-Swept m [] fs w ch df dc apart same = record {
  chain = ch;
  distinct = df;
  kept = λ a h. refl;
  used = omega arith;
  cleared = λ a. ground arith;
}
sweep_all-Swept m (c ∷ cs) fs w ch df (out, dc) apart same = elim (Bool-cases (m c)) [
  | inl h ↦
      let v : Sweep = record w {
        marked = λ b. if b == c then false else w.marked b;
        used = w.used + 1;
      } in
      let ih =
        sweep_all-Swept m cs fs v ch df dc (λ a k. apart a (ground arith))
          (λ a k. ground (arith, same a (ground arith))) in
      rw (sweep_cell-marked w c (same c (ground arith) ∙ h)) (record {
        chain = rw h ih.chain;
        distinct = rw h ih.distinct;
        kept = λ a k. ih.kept a (ground arith);
        used = rw h (omega (arith, ih.used));
        cleared = λ a. ground (arith, ih.cleared a);
      })
  | inr h ↦
      let v : Sweep = record w { cdr = update w.cdr c w.free; free = cons c } in
      let ih =
        sweep_all-Swept m cs (c ∷ fs) v
          (
            refl,
            rw (update_self w.cdr c w.free)
                (Chain-update w.cdr w.free fs null c w.free (apart c (ground arith)) ch),
          )
          (apart c (ground arith), df) dc (λ a k. ground (arith, apart a (ground arith)))
          (λ a k. same a (ground arith)) in
      rw (sweep_cell-unmarked w c (same c (ground arith) ∙ h)) (record {
        chain = rw h ih.chain;
        distinct = rw h ih.distinct;
        kept = λ a k. ground (arith, ih.kept a);
        used = rw h (omega (arith, ih.used));
        cleared = λ a. ground (arith, ih.cleared a, same c (ground arith));
      })
]

-- The sweep of a store whose blocks hold distinct cells, all below the allocated ones, leaves a valid
-- free list of exactly their unmarked cells. It keeps every car, and the cdr of every other cell, it
-- counts the marked cells as used, and it clears their marks.
pub cons_sweep-IsValid :
    (s : Store) (marked : Addr → Bool)
    → Distinct (block_cells s.blocks)
    → Below s.allocated (block_cells s.blocks)
    → (fs : List Addr) × IsValid (cons_sweep s marked).0 fs
      × ((a : Addr) → has a fs ≡ (has a (block_cells s.blocks) && not (marked a)))
      × ((cons_sweep s marked).0.car ≡ s.car)
      × ((a : Addr) → has a fs ≡ false → (cons_sweep s marked).0.cdr a ≡ s.cdr a)
      × ((cons_sweep s marked).0.used ≡ count_marked marked (block_cells s.blocks))
      × ((a : Addr) → (cons_sweep s marked).1 a ≡ (marked a && not (has a (block_cells s.blocks))))
unfolding cons_sweep
cons_sweep-IsValid s marked d below =
    let w : Sweep = record { cdr = s.cdr; marked = marked; free = null; used = 0 } in
    let cs = block_cells s.blocks in
    let fs = freed marked cs [] in
    let k = sweep_all-Swept marked cs [] w refl tt d (λ a h. refl) (λ a h. refl) in
    let held : (a : Addr) → has a fs ≡ (has a cs && not (marked a)) =
      λ a. has-freed marked cs [] a ∙ ground arith in
    rw (sweep_blocks-all s.blocks w) (
      fs,
      record {
        chain = k.chain;
        distinct = k.distinct;
        below = λ a h. below a (ground (arith, held a));
      },
      held,
      refl,
      (λ a h. k.kept a (sym (held a) ∙ h)),
      k.used ∙ omega arith,
      k.cleared,
    )
