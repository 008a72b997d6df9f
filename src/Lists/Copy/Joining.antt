-- ===== src/Lists/Copy/Joining.antt =====
-- append! links the cells that there are.
use librep.Prelude.{
  ℕ, ◌+◌, ◌-◌, ◌≤◌, ◌≡◌, refl, ap, true, false, some, List, [], ◌∷◌, ◌++◌, arith, length, has,
  Distinct, Distinct-append, length-append, ◌∙◌, has-append,
}
use mathlib.Core.List.{append_assoc, append-nil}
use librep.Value.{Addr, Value, nil, is_cons, is_list, Result, ok}
use librep.Heap.{Store}
use librep.Heap.Chain.{Chain, Chain-agree}
use librep.Heap.Tail.{Out, read_last, write_last, move_to}
use librep.Heap.Tail.Linked.{
  Linked, Linked-start, Linked-write, Linked-move, read-write_last, write_at-same, write_at-car,
}
use librep.Lists.Copy.{start, attach, nconc_loop, nconc}
use librep.Lists.Copy.Copying.{past, past-same, to_end-past}

abbrev pub flat : List (List Addr) → List Addr
flat [] = []
flat (cs ∷ css) = cs ++ flat css

-- The arguments of `append!`: lists of the cells `css`, and the value `l` behind them.
abbrev pub Links : (Addr → Value) → List Value → List (List Addr) → Value → Type 0
Links m (v ∷ []) [] l = v ≡ l
Links m (v ∷ w ∷ ws) (cs ∷ css) l =
    (is_list v ≡ true)
    × ((e : Value) × Chain m v cs e × (is_cons e ≡ false))
    × Links m (w ∷ ws) css l
Links m _ _ l = ⊥

Links-agree :
    (m m' : Addr → Value) (argv : List Value) (css : List (List Addr)) (l : Value)
    → ((a : Addr) → has a (flat css) ≡ true → m' a ≡ m a)
    → Links m argv css l
    → Links m' argv css l
Links-agree m m' [] css l same h = h
Links-agree m m' (v ∷ []) [] l same h = h
Links-agree m m' (v ∷ []) (cs ∷ css) l same h = h
Links-agree m m' (v ∷ w ∷ ws) [] l same h = h
Links-agree m m' (v ∷ w ∷ ws) (cs ∷ css) l same (is, (e, ch, ends), more) = (
  is,
  (
    e,
    Chain-agree m m' v cs e (λ a h. same a (ground (arith, has-append a cs (flat css)))) ch,
    ends,
  ),
  Links-agree m m' (w ∷ ws) css l (λ a h. same a (ground (arith, has-append a cs (flat css)))) more,
)

Linked-past :
    (o : Out) (cs : List Addr) (v : Value) (ds : List Addr) (w : Value)
    → Linked o cs
    → read_last o ≡ v
    → Chain o.store.cdr v ds w
    → Distinct ds
    → ((a : Addr) → has a ds ≡ true → has a cs ≡ false)
    → Linked (past o ds) (cs ++ ds)
Linked-past o cs v [] w l at ch d apart = rw (append-nil cs) l
Linked-past o cs v (c ∷ ds) w l at (e, ch) (out, d) apart = rw (append_assoc cs (c ∷ []) ds) at (
    Linked-past (move_to o c) (cs ++ c ∷ []) (o.store.cdr c) ds w
      (Linked-move o cs c (at ∙ e) (apart c (ground arith)) l) refl ch d
      (λ a h. ground (arith, has-append a cs (c ∷ []), apart a (ground arith))))

nconc_loop-more :
    (n i : ℕ) (o : Out) (v u : Value) (us : List Value) (m : ℕ) (o' : Out)
    → is_list v ≡ true
    → attach n o v ≡ (some o', m)
    → nconc_loop n i o (v ∷ u ∷ us) ≡ nconc_loop m (i + 1) o' (u ∷ us)
unfolding nconc_loop
nconc_loop-more n i o v u us m o' is att = rw (is, att, nconc_loop) (rw att)

nconc_loop-last :
    (n i : ℕ) (o : Out) (v : Value) (m : ℕ) (o' : Out)
    → attach n o v ≡ (some o', m)
    → nconc_loop n i o (v ∷ []) ≡ (ok o'.value, o'.store)
unfolding nconc_loop
nconc_loop-last n i o v m o' att = rw (att, nconc_loop)

-- The cells `cs` lead to `l`; no other cdr and no car has been written.
pub record Joined (s : Store) (cs : List Addr) (l : Value) (out : Result Value × Store)
    : Type 0 where
  pub value : Value
  pub result : out.0 ≡ ok value
  pub chain : Chain out.1.cdr value cs l
  pub cars : out.1.car ≡ s.car
  pub others : (a : Addr) → has a cs ≡ false → out.1.cdr a ≡ s.cdr a

module _ (l w : Value) (ls : List Addr) (ends : is_cons w ≡ false) where
  write_last-Joined :
      (o : Out) (ds : List Addr)
      → Linked o ds
      → Joined o.store ds l (ok (write_last o l).value, (write_last o l).store)
  write_last-Joined o ds k = record {
    value = (write_last o l).value;
    result = refl;
    chain = k.later l;
    cars = write_at-car o.last o.value o.store l;
    others = λ a h. write_at-same o.last o.value o.store ds l a k.within h;
  }

  nconc_loop-Joined :
      (argv : List Value) (css : List (List Addr)) (n i : ℕ) (o : Out) (ds : List Addr)
      → Linked o ds
      → Links o.store.cdr argv css l
      → Chain o.store.cdr l ls w
      → Distinct (flat css)
      → ((a : Addr) → has a (flat css) ≡ true → has a ds ≡ false)
      → ((a : Addr) → has a ls ≡ true → (has a ds ≡ false) × (has a (flat css) ≡ false))
      → length (flat css) + length ls ≤ n
      → Joined o.store (ds ++ flat css) l (nconc_loop n i o argv)
  unfolding attach
  nconc_loop-Joined [] css n i o ds k a last d apart away le = absurd a
  nconc_loop-Joined (v ∷ []) [] n i o ds k a last d apart away le =
      let o2 : Out = write_last o l in
      let walk =
        to_end-past n o2 l ls w ends (read-write_last o l)
          (Chain-agree o.store.cdr o2.store.cdr l ls w
            (λ b h. write_at-same o.last o.value o.store ds l b k.within (away b h).0) last)
          (omega arith) in
      let (e, f) = past-same o2 ls in
      rw (a, append-nil ds, nconc_loop-last n i o l (n - length ls) (past o2 ls) walk, e, f)
        (write_last-Joined o ds k)
  nconc_loop-Joined (v ∷ []) (cs ∷ css) n i o ds k a last d apart away le = absurd a
  nconc_loop-Joined (v ∷ u ∷ us) [] n i o ds k a last d apart away le = absurd a
  nconc_loop-Joined (v ∷ u ∷ us) (cs ∷ css) n i o ds k (is, (e, ch, fin), more) last d apart away
        le =
      let (dc, df, split) = Distinct-append cs (flat css) d in
      let o2 : Out = write_last o v in
      let at = read-write_last o v in
      let same : (b : Addr) → has b ds ≡ false → o2.store.cdr b ≡ o.store.cdr b =
        λ b h. write_at-same o.last o.value o.store ds v b k.within h in
      let ch2 =
        Chain-agree o.store.cdr o2.store.cdr v cs e
          (λ b h. same b (apart b (ground (arith, has-append b cs (flat css))))) ch in
      let k2 =
        Linked-past o2 ds v cs e (Linked-write o ds v k) at ch2 dc
          (λ b h. apart b (ground (arith, has-append b cs (flat css)))) in
      let (ev, es) = past-same o2 cs in
      let cdrs : (b : Addr) → has b ds ≡ false → (past o2 cs).store.cdr b ≡ o.store.cdr b =
        λ b h. rw es (same b h) in
      let ih =
        nconc_loop-Joined (u ∷ us) css (n - length cs) (i + 1) (past o2 cs) (ds ++ cs) k2
          (Links-agree o.store.cdr (past o2 cs).store.cdr (u ∷ us) css l
            (λ b h. cdrs b (apart b (ground (arith, has-append b cs (flat css))))) more)
          (Chain-agree o.store.cdr (past o2 cs).store.cdr l ls w (λ b h. cdrs b (away b h).0) last)
          df
          (λ b h. ground (
            arith,
            has-append b ds cs,
            has-append b cs (flat css),
            apart b (ground (arith, has-append b cs (flat css))),
            split b,
          ))
          (λ b h. (
            ground
                (arith, has-append b ds cs, has-append b cs (flat css), (away b h).0, (away b h).1),
            ground (arith, has-append b cs (flat css), (away b h).1),
          ))
          (omega (arith, length-append {0} cs (flat css))) in
      rw
        (nconc_loop-more n i o v u us (n - length cs) (past o2 cs) is
          (to_end-past n o2 v cs e fin at ch2 (omega (arith, length-append {0} cs (flat css)))))
        (record {
          value = ih.value;
          result = ih.result;
          chain = rw (append_assoc ds cs (flat css)) at ih.chain;
          cars = ih.cars ∙ ap (λ (t : Store). t.car) es ∙ write_at-car o.last o.value o.store v;
          others = λ b h.
              ih.others b (rw (append_assoc ds cs (flat css)) h)
              ∙ cdrs b (ground (arith, has-append b ds (cs ++ flat css)));
        })

  -- `append!` of lists of the cells `css`, all distinct, and of `l` behind them, a list of other cells,
  -- with a poll for each cell: the same cells lead in order to `l`. No car is written, and no cdr but
  -- theirs.
  pub nconc-Joined :
      (argv : List Value) (css : List (List Addr)) (n : ℕ) (s : Store)
      → Links s.cdr argv css l
      → Chain s.cdr l ls w
      → Distinct (flat css)
      → ((a : Addr) → has a ls ≡ true → has a (flat css) ≡ false)
      → length (flat css) + length ls ≤ n
      → Joined s (flat css) l (nconc n s argv)
  unfolding nconc
  nconc-Joined argv css n s a last d away le =
      nconc_loop-Joined argv css n 0 (start nil s) [] (Linked-start nil s) a last d (λ b h. refl)
        (λ b h. (refl, away b h)) le
