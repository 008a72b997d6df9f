-- ===== src/Lists/Copy/Concatenation.antt =====
-- append builds new cells for all its arguments but the last.
use librep.Prelude.{
  ℕ, ◌+◌, ◌-◌, ◌*◌, ◌≤◌, ◌≡◌, refl, ap, sym, true, false, Option, some, List, [], ◌∷◌, ◌++◌, map,
  arith, length, has, Distinct, ◌∙◌, has-append, Bool-cases, inl, inr, map-agree, length-map,
}
use mathlib.Core.List.{append_assoc, append-nil}
use mathlib.Core.Path.{subst}
use librep.Value.{Addr, Value, nil, is_cons, is_list, ok}
use librep.Heap.{Store}
use librep.Heap.Chain.{Chain, Chain-agree}
use librep.Heap.Alloc.{IsValid, live, Live}
use librep.Heap.Tail.{Out, read_last, write_last, move_to}
use librep.Heap.Tail.Linked.{read-write_last, write_at-same, write_at-car}
use librep.Heap.Tail.Grown.{
  Grown, Grown-start, Grown-extend, Grown-write, Grown-close, Grown-move, NewList, Returns,
  write_last-live,
}
use librep.Lists.Copy.{start, copy_list, attach, append_loop, append}
use librep.Lists.Copy.Copying.{copy_list-Copied, past, past-same, to_end-past}

-- A list of live cells, and what ends it.
pub record IsListOf (s : Store) (fs : List Addr) (v : Value) (cs : List Addr) : Type 0 where
  pub end : Value
  pub ends : is_cons end ≡ false
  pub is : is_list v ≡ true
  pub chain : Chain s.cdr v cs end
  pub lives : Live s fs cs

-- The arguments: lists of the cells `css`, and the value `l` behind them.
abbrev pub Arguments : Store → List Addr → List Value → List (List Addr) → Value → Type 0
Arguments s fs (v ∷ []) [] l = v ≡ l
Arguments s fs (v ∷ w ∷ ws) (cs ∷ css) l = IsListOf s fs v cs × Arguments s fs (w ∷ ws) css l
Arguments s fs _ _ l = ⊥

abbrev pub all_cars : Store → List (List Addr) → List Value
all_cars s [] = []
all_cars s (cs ∷ css) = map s.car cs ++ all_cars s css

abbrev pub total : List (List Addr) → ℕ
total [] = 0
total (cs ∷ css) = length cs + total css

-- What the walk over new cells that hang from the pointer adds to the list.
module _ (s : Store) (fs : List Addr) where
  Grown-past :
      (o : Out) (gs : List Addr) (xs : List Value) (cs : List Addr) (v : Value) (ds : List Addr)
      (w : Value)
      → Grown s fs o gs xs cs
      → read_last o ≡ v
      → Chain o.store.cdr v ds w
      → Distinct ds
      → ((a : Addr) → has a ds ≡ true → has a cs ≡ false)
      → ((a : Addr) → has a ds ≡ true → live s fs a ≡ false)
      → ((a : Addr) → has a ds ≡ true → live o.store gs a ≡ true)
      → Grown s fs (past o ds) gs (xs ++ map o.store.car ds) (cs ++ ds)
  Grown-past o gs xs cs v [] w g at ch d apart fresh new = rw (append-nil xs, append-nil cs) g
  Grown-past o gs xs cs v (c ∷ ds) w g at (e, ch) (out, d) apart fresh new =
      let g' =
        Grown-move s fs o gs xs cs c (at ∙ e) (apart c (ground arith)) (fresh c (ground arith))
          (new c (ground arith)) g in
      let ih =
        Grown-past (move_to o c) gs (xs ++ o.store.car c ∷ []) (cs ++ c ∷ []) (o.store.cdr c) ds w
          g' refl ch d (λ a h. ground (arith, has-append a cs (c ∷ []), apart a (ground arith)))
          (λ a h. fresh a (ground arith)) (λ a h. new a (ground arith)) in
      rw (append_assoc xs (o.store.car c ∷ []) (map o.store.car ds), append_assoc cs (c ∷ []) ds) at
        ih

  -- A copied list is attached: `*res_end = copy`, and the walk to its end.
  record Attached (o : Out) (k : ℕ) (xs : List Value) (r : Option Out × ℕ) : Type 0 where
    out : Out
    free_cells : List Addr
    cells : List Addr
    grown : Grown s fs out free_cells xs cells
    result : r ≡ (some out, k)

  disjoint :
      (o : Out) (gs : List Addr) (xs : List Value) (cs : List Addr) (ys : List Value) (w r : Value)
      (t : Store)
      → Grown s fs o gs xs cs
      → (l : NewList o.store gs ys w r t) → (a : Addr) → has a l.cells ≡ true
      → has a cs ≡ false
  disjoint o gs xs cs ys w r t g l a h = elim (Bool-cases (has a cs)) [
    | inl both ↦ ground (arith, g.new a both, l.fresh a h)
    | inr out ↦ out
  ]

  attach-Attached :
      (o : Out) (gs : List Addr) (xs : List Value) (cs : List Addr) (ys : List Value) (w r : Value)
      (t : Store) (n : ℕ)
      → Grown s fs o gs xs cs
      → (l : NewList o.store gs ys w r t) → is_cons w ≡ false
      → length l.cells ≤ n
      → Attached o (n - length l.cells) (xs ++ ys) (attach n (record o { store = t }) r)
  unfolding attach
  attach-Attached o gs xs cs ys w r t n g l ends le =
      let o1 : Out = record o { store = t } in
      let o2 : Out = write_last o1 r in
      let g1 = Grown-extend s fs o gs xs cs t l.free_cells l.valid l.kept g in
      let g2 = Grown-write s fs o1 l.free_cells xs cs r g1 in
      let apart = disjoint o gs xs cs ys w r t g l in
      let ch =
        Chain-agree t.cdr o2.store.cdr r l.cells w
          (λ a h. write_at-same o.last o.value t cs r a g1.linked.within (apart a h)) l.chain in
      let at = read-write_last o1 r in
      record {
        out = past o2 l.cells;
        free_cells = l.free_cells;
        cells = cs ++ l.cells;
        grown =
            subst (λ zs. Grown s fs (past o2 l.cells) l.free_cells (xs ++ zs) (cs ++ l.cells))
              (rw (write_at-car o.last o.value t r) l.elements)
              (Grown-past o2 l.free_cells xs cs r l.cells w g2 at ch l.distinct apart
                (λ a h. elim (Bool-cases (live s fs a)) [
                  | inl old ↦ ground (arith, g.kept.lives a old, l.fresh a h)
                  | inr new ↦ new
                ])
                (λ a h. rw (write_last-live o1 r l.free_cells a) (l.new a h)));
        result = to_end-past n o2 r l.cells w ends at ch le;
      }

append_loop-more :
    (n i : ℕ) (o : Out) (v u : Value) (us : List Value) (r : Value) (t : Store) (k m : ℕ) (o' : Out)
    → is_list v ≡ true
    → copy_list n o.store v ≡ (r, t, false, k)
    → attach k (record o { store = t }) r ≡ (some o', m)
    → append_loop n i o (v ∷ u ∷ us) ≡ append_loop m (i + 1) o' (u ∷ us)
unfolding append_loop
append_loop-more n i o v u us r t k m o' is copy att =
    rw (is, copy, att, append_loop) (rw (copy, att))

append_loop-last :
    (n i : ℕ) (o : Out) (v : Value) (m : ℕ) (o' : Out)
    → attach n o v ≡ (some o', m)
    → append_loop n i o (v ∷ []) ≡ (ok o'.value, o'.store)
unfolding append_loop
append_loop-last n i o v m o' att = rw (att, append_loop)

module _ (s : Store) (fs : List Addr) (l : Value) (ls : List Addr) (w : Value)
    (ends : is_cons w ≡ false) (last : Chain s.cdr l ls w) (lives : Live s fs ls) where
  -- The last argument is shared.
  append_loop-shared :
      (n i : ℕ) (o : Out) (gs : List Addr) (xs : List Value) (ds : List Addr)
      → Grown s fs o gs xs ds
      → length ls ≤ n
      → Returns s fs xs l (append_loop n i o (l ∷ []))
  unfolding attach
  append_loop-shared n i o gs xs ds g le =
      let o2 : Out = write_last o l in
      let same : (a : Addr) → has a ls ≡ true → o2.store.cdr a ≡ s.cdr a = λ a h.
        write_at-same o.last o.value o.store ds l a g.linked.within (unshared o gs xs ds g a h)
        ∙ g.kept.cdr a (lives a h) in
      let walk =
        to_end-past n o2 l ls w ends (read-write_last o l)
          (Chain-agree s.cdr o2.store.cdr l ls w same last) le in
      let (e, f) = past-same o2 ls in
      rw (append_loop-last n i o l (n - length ls) (past o2 ls) walk) (record {
        value = o2.value;
        result = ap ok e;
        list = rw f (Grown-close s fs o gs xs ds l g);
      })
    where
      unshared :
          (o : Out) (gs : List Addr) (xs : List Value) (ds : List Addr)
          → Grown s fs o gs xs ds
          → (a : Addr) → has a ls ≡ true
          → has a ds ≡ false
      unshared o gs xs ds g a h = elim (Bool-cases (has a ds)) [
        | inl both ↦ ground (arith, lives a h, g.fresh a both)
        | inr out ↦ out
      ]

  append_loop-Returns :
      (argv : List Value) (css : List (List Addr)) (n i : ℕ) (o : Out) (gs : List Addr)
      (xs : List Value) (ds : List Addr)
      → Grown s fs o gs xs ds
      → Arguments s fs argv css l
      → 2 * total css + length ls ≤ n
      → Returns s fs (xs ++ all_cars s css) l (append_loop n i o argv)
  append_loop-Returns [] css n i o gs xs ds g a le = absurd a
  append_loop-Returns (v ∷ []) [] n i o gs xs ds g a le =
      rw (append-nil xs, a) (append_loop-shared n i o gs xs ds g (omega arith))
  append_loop-Returns (v ∷ []) (cs ∷ css) n i o gs xs ds g a le = absurd a
  append_loop-Returns (v ∷ u ∷ us) [] n i o gs xs ds g a le = absurd a
  append_loop-Returns (v ∷ u ∷ us) (cs ∷ css) n i o gs xs ds g (a, more) le =
      let there : (b : Addr) → has b cs ≡ true → live o.store gs b ≡ true =
        λ b h. g.kept.lives b (a.lives b h) in
      let c =
        copy_list-Copied o.store gs a.end n v cs a.ends g.valid
          (Chain-agree s.cdr o.store.cdr v cs a.end (λ b h. g.kept.cdr b (a.lives b h)) a.chain)
          there (omega arith) in
      let size : length c.list.cells ≡ length cs =
        sym (length-map c.list.cells c.store.car)
        ∙ ap length c.list.elements
        ∙ length-map cs o.store.car in
      let t =
        attach-Attached s fs o gs xs ds (map o.store.car cs) a.end c.value c.store (n - length cs) g
          c.list a.ends (omega arith) in
      let k = n - length cs - length c.list.cells in
      let ih =
        append_loop-Returns (u ∷ us) css k (i + 1) t.out t.free_cells (xs ++ map o.store.car cs)
          t.cells t.grown more (omega arith) in
      let elements : ((xs ++ map o.store.car cs) ++ all_cars s css)
          ≡ (xs ++ (map s.car cs ++ all_cars s css)) =
        append_assoc xs (map o.store.car cs) (all_cars s css)
        ∙ ap (λ ys. xs ++ (ys ++ all_cars s css))
            (map-agree o.store.car s.car cs (λ b h. g.kept.car b (a.lives b h))) in
      rw
        (append_loop-more n i o v u us c.value c.store (n - length cs) k t.out a.is c.result
          t.result)
        (rw elements at ih)

  -- `append` of lists of the live cells `css` and of `l` behind them, with two polls for each cell of
  -- `css` and one for each of `l`: the cars of all `css` in new cells, which end in `l` itself.
  -- The free list of the store is valid.
  pub append-Returns :
      (argv : List Value) (css : List (List Addr)) (n : ℕ)
      → IsValid s fs
      → Arguments s fs argv css l
      → 2 * total css + length ls ≤ n
      → Returns s fs (all_cars s css) l (append n s argv)
  unfolding append
  append-Returns argv css n valid a le =
      append_loop-Returns argv css n 0 (start nil s) fs [] [] (Grown-start s fs nil valid) a le
