-- ===== src/Lists/Reverse/Elements.antt =====
-- reverse builds a new list with the elements in the other order; reverse! turns the cells round.
use librep.Prelude.{
  ℕ, zero, suc, ◌≤◌, ◌≡◌, refl, true, false, List, [], ◌∷◌, map, arith, length, has, Distinct, ◌∙◌,
}
use mathlib.Core.List
use mathlib.Core.Path.{subst}
use mathlib.Core.List.{reverse_aux}
use librep.Value.{Addr, Value, nil, cons, is_cons, is_list, Result, ok}
use librep.Loop.{poll_loop, no_rest}
use librep.Heap.{Store, make_cons, set_cdr_of, update}
use librep.Heap.Chain.{Chain, Chain-update}
use librep.Heap.Alloc.{IsValid, live, Live, IsValid-write}
use librep.Heap.Tail.Grown.{NewList, NewList-nil, NewList-cons, Returns}
use librep.Lists.Reverse.{reverse, reverse_step, stop_turn, nreverse, nreverse_step}

reverse_loop : ℕ → Value → Value → Store → Result Value × Store
reverse_loop n head ret s = (poll_loop reverse_step no_rest stop_turn n (head, ret, s)).0

reverse_loop-end :
    (n : ℕ) (v ret : Value) (s : Store) → is_cons v ≡ false → reverse_loop n v ret s ≡ (ok ret, s)
unfolding reverse_loop reverse_step poll_loop
reverse_loop-end zero v ret s h = ground arith
reverse_loop-end (suc n) v ret s h = ground arith

reverse_loop-cons :
    (n : ℕ) (c : Addr) (ret : Value) (s : Store)
    → reverse_loop (suc n) (cons c) ret s
      ≡ reverse_loop n
          ((make_cons s (s.car c) ret).1.cdr c)
          (cons (make_cons s (s.car c) ret).0)
          (make_cons s (s.car c) ret).1
unfolding reverse_loop reverse_step poll_loop
reverse_loop-cons n c ret s = refl

module _ (s : Store) (fs : List Addr) (w : Value) (ends : is_cons w ≡ false) where
  reverse_loop-Returns :
      (n : ℕ) (l : Value) (cs : List Addr) (ret : Value) (t : Store) (ys : List Value)
      → NewList s fs ys nil ret t
      → Chain s.cdr l cs w
      → ((a : Addr) → has a cs ≡ true → live s fs a ≡ true)
      → length cs ≤ n
      → Returns s fs (reverse_aux (map s.car cs) ys) nil (reverse_loop n l ret t)
  reverse_loop-Returns n l [] ret t ys r ch lives le =
      rw (ch, reverse_loop-end n w ret t ends) (record { value = ret; result = refl; list = r })
  reverse_loop-Returns zero l (c ∷ cs) ret t ys r ch lives le = absurd (omega arith)
  reverse_loop-Returns (suc n) l (c ∷ cs) ret t ys r (e, ch) lives le =
      let t' = (make_cons t (t.car c) ret).1 in
      let r' = NewList-cons s fs ys nil ret t (t.car c) r in
      let there = lives c (ground arith) in
      rw (e, reverse_loop-cons n c ret t, r'.kept.cdr c there)
        (reverse_loop-Returns n (s.cdr c) cs (cons (make_cons t (t.car c) ret).0) t' (s.car c ∷ ys)
          (subst (λ x. NewList s fs (x ∷ ys) nil (cons (make_cons t (t.car c) ret).0) t')
            (r.kept.car c there) r')
          ch (λ a h. lives a (ground arith)) (omega arith))

  -- `reverse` of a list of the live cells `cs`, with a poll for each: a list of new cells with their
  -- cars in reverse order, ending in nil; no live cell is changed. What ends the list is dropped.
  -- The free list of the store is valid.
  pub reverse-Returns :
      (n : ℕ) (l : Value) (cs : List Addr)
      → IsValid s fs
      → is_list l ≡ true
      → Chain s.cdr l cs w
      → Live s fs cs
      → length cs ≤ n
      → Returns s fs (List.reverse (map s.car cs)) nil (reverse n s l)
  unfolding reverse reverse_loop
  reverse-Returns n l cs valid is ch lives le =
      rw is (reverse_loop-Returns n l cs nil s [] (NewList-nil s fs nil valid) ch lives le)

nreverse_loop : ℕ → Value → Value → Store → Result Value × Store
nreverse_loop n head ret s = (poll_loop nreverse_step no_rest stop_turn n (head, ret, s)).0

nreverse_loop-end :
    (n : ℕ) (v ret : Value) (s : Store) → is_cons v ≡ false → nreverse_loop n v ret s ≡ (ok ret, s)
unfolding nreverse_loop nreverse_step poll_loop
nreverse_loop-end zero v ret s h = ground arith
nreverse_loop-end (suc n) v ret s h = ground arith

nreverse_loop-cons :
    (n : ℕ) (c : Addr) (ret : Value) (s : Store)
    → nreverse_loop (suc n) (cons c) ret s ≡ nreverse_loop n (s.cdr c) (cons c) (set_cdr_of s c ret)
unfolding nreverse_loop nreverse_step poll_loop
nreverse_loop-cons n c ret s = refl

update_self : (m : Addr → Value) (a : Addr) (v : Value) → update m a v a ≡ v
update_self m a v = ground arith

-- The cells `cs` have been turned round onto the cells `rs`; nothing else has changed.
pub record Turned (s : Store) (fs cs rs : List Addr) (out : Result Value × Store) : Type 0 where
  pub value : Value
  pub result : out.0 ≡ ok value
  pub chain : Chain out.1.cdr value (reverse_aux cs rs) nil
  pub cars : out.1.car ≡ s.car
  pub others : (a : Addr) → has a cs ≡ false → out.1.cdr a ≡ s.cdr a
  pub valid : IsValid out.1 fs

module _ (fs : List Addr) (w : Value) (ends : is_cons w ≡ false) where
  nreverse_loop-Turned :
      (n : ℕ) (l : Value) (cs : List Addr) (ret : Value) (rs : List Addr) (s : Store)
      → IsValid s fs
      → Chain s.cdr l cs w
      → Live s fs cs
      → Distinct cs
      → Chain s.cdr ret rs nil
      → ((a : Addr) → has a cs ≡ true → has a rs ≡ false)
      → length cs ≤ n
      → Turned s fs cs rs (nreverse_loop n l ret s)
  nreverse_loop-Turned n l [] ret rs s valid ch lives d back apart le =
      rw (ch, nreverse_loop-end n w ret s ends)
        (record {
          value = ret;
          result = refl;
          chain = back;
          cars = refl;
          others = λ a h. refl;
          valid = valid;
        })
  nreverse_loop-Turned zero l (c ∷ cs) ret rs s valid ch lives d back apart le =
      absurd (omega arith)
  nreverse_loop-Turned (suc n) l (c ∷ cs) ret rs s valid (e, ch) lives (out, d) back apart le =
      let t = set_cdr_of s c ret in
      let ih =
        nreverse_loop-Turned n (s.cdr c) cs (cons c) (c ∷ rs) t
          (IsValid-write s fs c ret (lives c (ground arith)) valid)
          (Chain-update s.cdr (s.cdr c) cs w c ret out ch) (λ a h. lives a (ground arith)) d
          (
            refl,
            rw (update_self s.cdr c ret)
                (Chain-update s.cdr ret rs nil c ret (apart c (ground arith)) back),
          )
          (λ a h. ground (arith, apart a (ground arith))) (omega arith) in
      rw (e, nreverse_loop-cons n c ret s)
        (record {
          value = ih.value;
          result = ih.result;
          chain = ih.chain;
          cars = ih.cars;
          others = λ a h. ih.others a (ground arith) ∙ ground arith;
          valid = ih.valid;
        })

-- `reverse!` of a list of distinct live cells `cs`, with a poll for each: the same cells in reverse
-- order, ending in nil. No car is written, and no cdr but theirs.
-- The free list of the store is valid.
pub nreverse-Turned :
    (fs : List Addr) (w : Value) (n : ℕ) (l : Value) (cs : List Addr) (s : Store)
    → is_cons w ≡ false
    → IsValid s fs
    → is_list l ≡ true
    → Chain s.cdr l cs w
    → Live s fs cs
    → Distinct cs
    → length cs ≤ n
    → Turned s fs cs [] (nreverse n s l)
unfolding nreverse nreverse_loop
nreverse-Turned fs w n nil [] s ends valid is ch lives d le = record {
  value = nil;
  result = refl;
  chain = refl;
  cars = refl;
  others = λ a h. refl;
  valid = valid;
}
nreverse-Turned fs w n (cons c) cs s ends valid is ch lives d le =
    nreverse_loop-Turned fs w ends n (cons c) cs nil [] s valid ch lives d refl (λ a h. refl) le
nreverse-Turned fs w n nil (c ∷ cs) s ends valid is ch lives d le = cc
nreverse-Turned fs w n _ cs s ends valid is ch lives d le = cc
