-- ===== src/Heap/Alloc.antt =====
-- The allocator's invariant, and what a new cons cell leaves alone.
use librep.Prelude.{
  ℕ, zero, suc, ◌+◌, ◌≤◌, ◌<◌, ◌≡◌, refl, Bool, true, false, ◌&&◌, not, List, [], ◌∷◌, arith,
  if◌then◌else◌, leb, ltb, has, Distinct, ◌∙◌, sym,
}
use mathlib.Core.Path.{subst}
use librep.Value.{Addr, Value, null, cons}
use librep.Heap.{
  Store, update, link_cells, refill_free_list, take_from, take_cell, make_cons, set_cdr_of,
  sizeof_cons,
}
use librep.Heap.Chain.{Chain, Chain-update}

abbrev pub Below : ℕ → List Addr → Type 0
Below n cs = (a : Addr) → has a cs ≡ true → a < n

-- The free list leads through the distinct cells `fs` of the blocks, and ends.
pub record IsValid (s : Store) (fs : List Addr) : Type 0 where
  pub chain : Chain s.cdr s.free fs null
  pub distinct : Distinct fs
  pub below : Below s.allocated fs

-- A cell of a block that is not free.
abbrev pub live : Store → List Addr → Addr → Bool
live s fs a = not (has a fs) && ltb a s.allocated

abbrev pub Live : Store → List Addr → List Addr → Type 0
Live s fs cs = (a : Addr) → has a cs ≡ true → live s fs a ≡ true

-- The live cells of `s` are live cells of `s'` with the same content.
pub record Extends (s : Store) (fs : List Addr) (s' : Store) (fs' : List Addr) : Type 0 where
  pub lives : (a : Addr) → live s fs a ≡ true → live s' fs' a ≡ true
  pub car : (a : Addr) → live s fs a ≡ true → s'.car a ≡ s.car a
  pub cdr : (a : Addr) → live s fs a ≡ true → s'.cdr a ≡ s.cdr a

pub Extends-refl : (s : Store) (fs : List Addr) → Extends s fs s fs
Extends-refl s fs = record { lives = λ a h. h; car = λ a h. refl; cdr = λ a h. refl }

-- The cells from `a` on.
unfoldable pub cells_from : ℕ → Addr → List Addr
cells_from zero a = []
cells_from (suc k) a = a ∷ cells_from k (a + 1)

pub has-cells_from : (k a b : ℕ) → has b (cells_from k a) ≡ (leb a b && ltb b (a + k))
unfolding cells_from
has-cells_from zero a b = ground arith
has-cells_from (suc k) a b = ground (arith, has-cells_from k (a + 1) b)

pub Distinct-cells_from : (k a : ℕ) → Distinct (cells_from k a)
unfolding cells_from
Distinct-cells_from zero a = tt
Distinct-cells_from (suc k) a =
    (ground (arith, has-cells_from k (a + 1) a), Distinct-cells_from k (a + 1))

link_cells-eq :
    (k a : ℕ) (m : Addr → Value) (b : Addr)
    → link_cells k a m b ≡ (if leb a b && ltb b (a + k) then cons (b + 1) else m b)
unfolding link_cells
link_cells-eq zero a m b = ground arith
link_cells-eq (suc k) a m b = ground (arith, link_cells-eq k (a + 1) (update m a (cons (a + 1))) b)

Chain-cells_from :
    (m : Addr → Value) (k a : ℕ)
    → ((b : Addr) → a ≤ b → b < a + k → m b ≡ cons (b + 1))
    → m (a + k) ≡ null
    → Chain m (cons a) (cells_from (suc k) a) null
unfolding cells_from
Chain-cells_from m zero a h e = (refl, ground arith)
Chain-cells_from m (suc k) a h e = (
  refl,
  rw (h a (omega arith) (omega arith))
      (Chain-cells_from m k (a + 1) (λ b p q. h b (omega arith) (omega arith)) (ground arith)),
)

pub Extends-trans :
    (s : Store) (fs : List Addr) (s' : Store) (fs' : List Addr) (t : Store) (gs : List Addr)
    → Extends s fs s' fs'
    → Extends s' fs' t gs
    → Extends s fs t gs
Extends-trans s fs s' fs' t gs e f = record {
  lives = λ a h. f.lives a (e.lives a h);
  car = λ a h. f.car a (e.lives a h) ∙ e.car a h;
  cdr = λ a h. f.cdr a (e.lives a h) ∙ e.cdr a h;
}

-- A cell taken from the free list: it was not live, and no live cell changes.
pub record Taken (s : Store) (fs : List Addr) (c : Addr) (s' : Store) (fs' : List Addr)
    : Type 0 where
  pub valid : IsValid s' fs'
  pub fresh : live s fs c ≡ false
  pub new : live s' fs' c ≡ true
  pub kept : Extends s fs s' fs'

module _ (m : Addr → Value) (k base : ℕ) where
  -- The cdrs after a refill.
  refilled : Addr → Value
  refilled = update (link_cells k (base + 1) m) (base + (k + 1)) null

  refilled-inner : (b : Addr) → base < b → b < base + (k + 1) → refilled b ≡ cons (b + 1)
  unfolding refilled
  refilled-inner b p q = ground (arith, link_cells-eq k (base + 1) m b)

  refilled-below : (b : Addr) → b < base → refilled b ≡ m b
  unfolding refilled
  refilled-below b p = ground (arith, link_cells-eq k (base + 1) m b)

  refilled-Chain : Chain refilled (cons (base + 1)) (cells_from (suc k) (base + 1)) null
  refilled-Chain =
      Chain-cells_from refilled k (base + 1) (λ b p q. refilled-inner b (omega arith) (omega arith))
        (last (base + 1 + k) (omega arith))
    where
      last : (b : Addr) → b ≡ base + (k + 1) → refilled b ≡ null
      last b e = unfold refilled in ground arith

module _ (s : Store) where
  refill-Taken :
      IsValid s []
      → Taken s [] (refill_free_list s).0 (refill_free_list s).1 (cells_from 1021 (s.allocated + 1))
  unfolding refill_free_list refilled
  refill-Taken v = record {
    valid = record {
      chain = refilled-Chain s.cdr 1020 s.allocated;
      distinct = Distinct-cells_from 1021 (s.allocated + 1);
      below = λ a h. ground (arith, has-cells_from 1021 (s.allocated + 1) a);
    };
    fresh = ground arith;
    new = ground (arith, has-cells_from 1021 (s.allocated + 1) s.allocated);
    kept = record {
      lives = λ a h. ground (arith, has-cells_from 1021 (s.allocated + 1) a);
      car = λ a h. refl;
      cdr = λ a h. refilled-below s.cdr 1020 s.allocated a (ground arith);
    };
  }

  pop-Taken :
      (f : Addr) (fs : List Addr)
      → IsValid s (f ∷ fs)
      → Taken s (f ∷ fs) f (record s { free = s.cdr f }) fs
  pop-Taken f fs v = record {
    valid = record {
      chain = v.chain.1;
      distinct = v.distinct.1;
      below = λ a h. v.below a (ground arith);
    };
    fresh = ground arith;
    new = ground (arith, v.below f (ground arith), v.distinct.0);
    kept = record { lives = λ a h. ground arith; car = λ a h. refl; cdr = λ a h. refl };
  }

  pub take_cell_lem :
      (fs : List Addr)
      → IsValid s fs
      → (fs' : List Addr) × Taken s fs (take_cell s).0 (take_cell s).1 fs'
  unfolding take_cell take_from
  take_cell_lem [] v =
      subst (λ u. (fs' : List Addr) × Taken s [] (take_from u s).0 (take_from u s).1 fs')
        (sym v.chain) (cells_from 1021 (s.allocated + 1), refill-Taken v)
  take_cell_lem (f ∷ fs) v =
      subst (λ u. (fs' : List Addr) × Taken s (f ∷ fs) (take_from u s).0 (take_from u s).1 fs')
        (sym v.chain.0) (fs, pop-Taken f fs v)

-- A new cons cell, and its content.
pub record Made (s : Store) (fs : List Addr) (x y : Value) (c : Addr) (s' : Store) (fs' : List Addr)
    : Type 0 where
  pub valid : IsValid s' fs'
  pub fresh : live s fs c ≡ false
  pub new : live s' fs' c ≡ true
  pub kept : Extends s fs s' fs'
  pub car : s'.car c ≡ x
  pub cdr : s'.cdr c ≡ y

-- Writes to live cells leave the free list as it is.
pub IsValid-write :
    (s : Store) (fs : List Addr) (c : Addr) (x : Value)
    → live s fs c ≡ true
    → IsValid s fs
    → IsValid (set_cdr_of s c x) fs
IsValid-write s fs c x h v = record {
  chain = Chain-update s.cdr s.free fs null c x (ground arith) v.chain;
  distinct = v.distinct;
  below = v.below;
}

module _ (s : Store) (x y : Value) where
  Taken-Made :
      (fs : List Addr) (c : Addr) (t : Store) (fs' : List Addr)
      → Taken s fs c t fs'
      → Made s fs x y c
          (record t {
            car = update t.car c x;
            cdr = update t.cdr c y;
            used = t.used + 1;
            data_after_gc = t.data_after_gc + sizeof_cons;
          })
          fs'
  Taken-Made fs c t fs' k = record {
    valid = record {
      chain = Chain-update t.cdr t.free fs' null c y (ground arith) k.valid.chain;
      distinct = k.valid.distinct;
      below = k.valid.below;
    };
    fresh = k.fresh;
    new = k.new;
    kept = record {
      lives = k.kept.lives;
      car = λ a h. ground (arith, k.kept.car a, k.fresh);
      cdr = λ a h. ground (arith, k.kept.cdr a, k.fresh);
    };
    car = ground arith;
    cdr = ground arith;
  }

  -- `Fcons` returns a cell that was free, with the given content; no live cell changes.
  -- The free list of the store is valid.
  pub make_cons_lem :
      (fs : List Addr)
      → IsValid s fs
      → (fs' : List Addr) × Made s fs x y (make_cons s x y).0 (make_cons s x y).1 fs'
  unfolding make_cons
  make_cons_lem fs v =
      let (fs', k) = take_cell_lem s fs v in
      (fs', Taken-Made fs (take_cell s).0 (take_cell s).1 fs' k)
