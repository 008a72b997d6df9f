-- ===== src/Collector/Reachable.antt =====
-- The mark phase marks the cells that the roots lead to.
use librep.Prelude.{
  ℕ, ◌≤◌, ◌≡◌, refl, true, false, ◌&&◌, not, List, [], ◌∷◌, ◌++◌, arith, Bool-cases, inl, inr,
}
use librep.Value.{Value, null, nil, undefined, fixnum, symbol, cons, object, eq, eq_iff}
use librep.Collector.{
  Cell, Memory, content, Marks, no_marks, Frame, Roots, mark_val, mark_vals, mark_n_roots,
  mark_frames, mark_value, mark_roots,
}
use librep.Collector.Marking.{
  fields, has_value, is_static, is_cell, covered, Reach, here, next, Marked,
}
use librep.Collector.Growth.{mark_vals-static}
use librep.Collector.Fuel.{unmarked, IsClosed, mark_vals-Marked, mark_value-MarksValue}

abbrev pub concat : List (List Value) → List Value
concat [] = []
concat (vs ∷ vss) = vs ++ concat vss

abbrev pub frame_values : Frame → List Value
frame_values f = f.fun ∷ f.args ∷ f.current_form ∷ f.saved_env ∷ f.saved_structure ∷ []

abbrev pub frames_values : List Frame → List Value
frames_values [] = []
frames_values (f ∷ fs) = frame_values f ++ frames_values fs

-- Every value that the collector starts from.
abbrev pub root_values : Roots → List Value
root_values r =
    r.static_roots
    ++ r.gc_roots
    ++ concat r.gc_n_roots
    ++ r.type_roots
    ++ frames_values r.call_stack

mark_vals-append :
    (go : Value → Marks → Marks) (us vs : List Value) (k : Marks)
    → mark_vals go (us ++ vs) k ≡ mark_vals go vs (mark_vals go us k)
unfolding mark_vals
mark_vals-append go [] vs k = refl
mark_vals-append go (u ∷ us) vs k = mark_vals-append go us vs (mark_val go u k)

mark_n_roots-vals :
    (go : Value → Marks → Marks) (vss : List (List Value)) (k : Marks)
    → mark_n_roots go vss k ≡ mark_vals go (concat vss) k
unfolding mark_n_roots mark_vals
mark_n_roots-vals go [] k = refl
mark_n_roots-vals go (vs ∷ vss) k =
    rw (mark_vals-append go vs (concat vss) k) (mark_n_roots-vals go vss (mark_vals go vs k))

mark_frames-vals :
    (go : Value → Marks → Marks) (fs : List Frame) (k : Marks)
    → mark_frames go fs k ≡ mark_vals go (frames_values fs) k
unfolding mark_frames mark_vals
mark_frames-vals go [] k = refl
mark_frames-vals go (f ∷ fs) k =
    rw (mark_vals-append go (frame_values f) (frames_values fs) k)
      (mark_frames-vals go fs (mark_vals go (frame_values f) k))

mark_roots-vals :
    (m : Memory) (n : ℕ) (r : Roots)
    → mark_roots m n r ≡ mark_vals (mark_value m n) (root_values r) no_marks
unfolding mark_roots
mark_roots-vals m n r =
    let go = mark_value m n in simp (mark_vals-append, mark_n_roots-vals, mark_frames-vals)

module _ (m : Memory) (us : List Value) (closed : IsClosed m us) where
  pub mark_roots-Marked :
      (r : Roots) (n : ℕ)
      → ((v : Value)
          → has_value v (root_values r) ≡ true
          → is_cell v ≡ true
          → has_value v us ≡ true)
      → unmarked no_marks us ≤ n
      → Marked m no_marks (root_values r) (mark_roots m n r)
  unfolding eq
  mark_roots-Marked r n held fuel = rw (mark_roots-vals m n r) (
      mark_vals-Marked m us closed (mark_value m n) n (mark_value-MarksValue m us closed n)
        (root_values r) no_marks held (fuel, (refl, refl)))

no_fields : (c : Cell) (w : Value) → is_static c ≡ true → has_value w (fields c) ≡ false
no_fields c w h = ground arith

module _ (m : Memory) (k : Marks) (w : Value) where
  covered-static :
      (c : Cell) → is_static c ≡ true → has_value w (fields c) ≡ true → covered m k w ≡ true
  covered-static c h i = absurd (ground (arith, no_fields c w h))

  -- A field of a static value.
  covered-old :
      (u : Value)
      → (k nil ≡ true) × (k undefined ≡ true)
      → covered m k u ≡ true
      → (k u && not (no_marks u)) ≡ false
      → has_value w (fields (content m u)) ≡ true
      → covered m k w ≡ true
  unfolding content eq
  covered-old null s c o i = absurd (ground arith)
  covered-old nil (s, _) c o i =
      let e : w ≡ nil = (eq_iff w nil).0 (ground arith) in rw e (ground arith)
  covered-old undefined (_, s) c o i =
      let e : w ≡ undefined = (eq_iff w undefined).0 (ground arith) in rw e (ground arith)
  covered-old (fixnum _) s c o i = absurd (ground arith)
  covered-old (symbol a) s c o i = covered-static (m.cell (symbol a)) (ground arith) i
  covered-old (cons a) s c o i = absurd (ground arith)
  covered-old (object t a) s c o i = covered-static (m.cell (object t a)) (ground arith) i

-- What is reached from a covered value is covered, if only the static data had a mark before.
module _ (m : Memory) (vs : List Value) (k : Marks) (d : Marked m no_marks vs k) where
  covered-field :
      (u w : Value)
      → covered m k u ≡ true
      → has_value w (fields (content m u)) ≡ true
      → covered m k w ≡ true
  unfolding eq
  covered-field u w c i = elim (Bool-cases (k u && not (no_marks u))) [
    | inl new ↦ d.closes u w (ground arith) (ground arith) i
    | inr old ↦ covered-old m k w u (d.grows nil refl, d.grows undefined refl) c old i
  ]

  covered-along : {v w : Value} → Reach m v w → covered m k v ≡ true → covered m k w ≡ true
  covered-along here c = c
  covered-along {v} (next {u} {w} r i) c = covered-field u w (covered-along r c) i

  pub covered-Reach : {v w : Value} → Reach m v w → has_value v vs ≡ true → covered m k w ≡ true
  covered-Reach r i = covered-along r (d.covers _ i)

-- What is marked is what the roots lead to.
pub record Exact (m : Memory) (vs : List Value) (k : Marks) : Type 0 where
  pub all : (v w : Value) → has_value v vs ≡ true → Reach m v w → covered m k w ≡ true
  pub only :
      (w : Value)
      → k w ≡ true
      → no_marks w ≡ false
      → (v : Value) × (has_value v vs ≡ true) × Reach m v w

-- The mark phase marks exactly what the roots lead to: every cell that can be reached from a root is
-- marked, or static; and every cell with a mark can be reached from a root, or is one of the two
-- static data. The cells `us` are closed under the fields of their members and hold the roots, no
-- symbol is linked to a fixnum, and the fuel is at least the number of unmarked cells.
pub mark_roots-Exact :
    (m : Memory) (us : List Value) (r : Roots) (n : ℕ)
    → IsClosed m us
    → ((v : Value) → has_value v (root_values r) ≡ true → is_cell v ≡ true → has_value v us ≡ true)
    → unmarked no_marks us ≤ n
    → Exact m (root_values r) (mark_roots m n r)
mark_roots-Exact m us r n closed held fuel =
    let d = mark_roots-Marked m us closed r n held fuel in
    record {
      all = λ v w i reach. covered-Reach m (root_values r) (mark_roots m n r) d reach i;
      only = d.sound;
    }

-- The mark phase never marks a static cell, that is, a subr or a static string.
pub mark_roots-static :
    (m : Memory) (r : Roots) (n : ℕ) (s : Value)
    → is_static (content m s) ≡ true
    → no_marks s ≡ false
    → mark_roots m n r s ≡ false
mark_roots-static m r n s e o =
    rw (mark_roots-vals m n r) (mark_vals-static m n s (root_values r) no_marks e o)
