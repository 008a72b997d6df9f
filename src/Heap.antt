-- ===== src/Heap.antt =====
-- src/lists.c: cons cells, their blocks, and the free list.
-- A cell is named by a number: the blocks are numbered in the order in which they are allocated, and
-- cell `i` of a block follows cell `i - 1`. The free list is threaded through the cdrs, as in the code.
pub mod Chain
pub mod Alloc
pub mod Sweeping
pub mod Tail
use librep.Prelude.{
  ℕ, zero, suc, ◌+◌, ◌-◌, ◌≡◌, Bool, true, false, List, [], ◌∷◌, ◌==◌, if◌then◌else◌, not, ◌*◌,
}
use librep.Value.{Addr, Value, null, cons, nil}

-- `CONS_PER_BLOCK`
abbrev pub cons_per_block : ℕ
cons_per_block = 1022

-- `sizeof(rep_cons)` on a 64-bit machine
abbrev pub sizeof_cons : ℕ
sizeof_cons = 16

-- `blocks` are the first cells of the blocks of `cons_block_list`; `free` is `cons_free_list`.
pub record Store : Type 0 where
  pub car : Addr → Value
  pub cdr : Addr → Value
  pub free : Value
  pub blocks : List Addr
  pub allocated : ℕ
  pub used : ℕ
  pub data_after_gc : ℕ

abbrev pub update : (Addr → Value) → Addr → Value → Addr → Value
update m a v b = if b == a then v else m b

-- `rep_CAR(a) = v` and `rep_CDR(a) = v`
abbrev pub set_car_of : Store → Addr → Value → Store
set_car_of s a v = record s { car = update s.car a v }

abbrev pub set_cdr_of : Store → Addr → Value → Store
set_cdr_of s a v = record s { cdr = update s.cdr a v }

-- `cb->cons[i].cdr = rep_VAL(&cb->cons[i + 1])`, for `k` cells from `a` on
pub link_cells : ℕ → Addr → (Addr → Value) → Addr → Value
link_cells zero a m = m
link_cells (suc k) a m = link_cells k (a + 1) (update m a (cons (a + 1)))

-- `refill_free_list`: the cell that is returned is not linked into the free list
pub refill_free_list : Store → Addr × Store
unfolding link_cells
refill_free_list s =
    let base = s.allocated in
    let linked = link_cells (cons_per_block - 2) (base + 1) s.cdr in
    (
      base,
      record s {
        cdr = update linked (base + (cons_per_block - 1)) null;
        free = cons (base + 1);
        blocks = base ∷ s.blocks;
        allocated = base + cons_per_block;
      },
    )

-- The cell that `Fcons` takes, and the store without it.
pub take_from : Value → Store → Addr × Store
unfolding refill_free_list
take_from (cons c) s = (c, record s { free = s.cdr c })
take_from _ s = refill_free_list s

pub take_cell : Store → Addr × Store
unfolding take_from
take_cell s = take_from s.free s

-- `Fcons`
pub make_cons : Store → Value → Value → Addr × Store
unfolding take_cell
make_cons s x y =
    let (c, s') = take_cell s in
    (
      c,
      record s' {
        car = update s'.car c x;
        cdr = update s'.cdr c y;
        used = s'.used + 1;
        data_after_gc = s'.data_after_gc + sizeof_cons;
      },
    )

-- `rep_cons_free`
pub free_cons : Store → Addr → Store
free_cons s c = record s { cdr = update s.cdr c s.free; free = cons c; used = s.used - 1 }

-- The sweep of `k` cells from `a` on: an unmarked cell goes to the front of the free list, a marked
-- one loses its mark and is counted.
pub record Sweep : Type 0 where
  pub cdr : Addr → Value
  pub marked : Addr → Bool
  pub free : Value
  pub used : ℕ

pub sweep_cell : Sweep → Addr → Sweep
sweep_cell w a =
    if w.marked a
    then record w { marked = λ b. if b == a then false else w.marked b; used = w.used + 1 }
    else record w { cdr = update w.cdr a w.free; free = cons a }

pub sweep_cells : ℕ → Addr → Sweep → Sweep
unfolding sweep_cell
sweep_cells zero a w = w
sweep_cells (suc k) a w = sweep_cells k (a + 1) (sweep_cell w a)

pub sweep_blocks : List Addr → Sweep → Sweep
unfolding sweep_cells
sweep_blocks [] w = w
sweep_blocks (b ∷ bs) w = sweep_blocks bs (sweep_cells cons_per_block b w)

-- `rep_cons_sweep`, with the mark bits of the cells before and after it
pub cons_sweep : Store → (Addr → Bool) → Store × (Addr → Bool)
unfolding sweep_blocks
cons_sweep s marked =
    let w =
      sweep_blocks s.blocks (record { cdr = s.cdr; marked = marked; free = null; used = 0 }) in
    (record s { cdr = w.cdr; free = w.free; used = w.used }, w.marked)
