-- ===== src/WeakRefs/Scanning.antt =====
-- The weak references after a collection.
use librep.Prelude.{
  ℕ, ◌≡◌, refl, Bool, true, false, ◌||◌, ◌∙◌, sym, ap, ◌++◌, List, [], ◌∷◌, map, arith, keep, All,
  turned_onto, Bool-cases, inl, inr,
}
use mathlib.Core.List.{append_assoc}
use librep.Value.{nil, object, is_int}
use librep.Collector.{Memory, content, Marks, Roots, no_marks, mark_roots}
use librep.Collector.Marking.{is_static}
use librep.Collector.Reachable.{mark_roots-static}
use librep.WeakRefs.{Weak, weak_type, cleared, scan_weak_refs}

-- A weak reference whose own tuple has a mark.
abbrev pub is_kept : Marks → Weak → Bool
is_kept k w = k (object weak_type w.self)

-- What a weak reference holds that leads to a cell with a mark, to a fixnum, or to neither.
pub record Updated (k : Marks) (w w' : Weak) : Type 0 where
  pub self : w'.self ≡ w.self
  pub live : k w.ref ≡ true → w'.ref ≡ w.ref
  pub number : is_int w.ref ≡ true → w'.ref ≡ w.ref
  pub dead : is_int w.ref ≡ false → k w.ref ≡ false → w'.ref ≡ nil

-- The lists have the same length, and their members are related one by one.
abbrev pub AllUpdated : Marks → List Weak → List Weak → Type 0
AllUpdated k [] [] = Unit {0}
AllUpdated k (w ∷ ws) (v ∷ vs) = Updated k w v × AllUpdated k ws vs
AllUpdated k _ _ = ⊥

reference_after : Marks → Weak → Weak
reference_after k w = record w { ref = cleared k w.ref }

reference_after-Updated : (k : Marks) (w : Weak) → Updated k w (reference_after k w)
unfolding reference_after
reference_after-Updated k w = record {
  self = refl;
  live = λ h. ground arith;
  number = λ h. ground arith;
  dead = λ i h. ground arith;
}

scan_weak_refs-turned :
    (k : Marks) (ws kept : List Weak)
    → scan_weak_refs k ws kept ≡ turned_onto (map (reference_after k) (keep (is_kept k) ws)) kept
unfolding scan_weak_refs reference_after
scan_weak_refs-turned k [] kept = refl
scan_weak_refs-turned k (w ∷ ws) kept = elim (Bool-cases (is_kept k w)) [
  | inl e ↦ rw e (scan_weak_refs-turned k ws (reference_after k w ∷ kept))
  | inr e ↦ rw e (scan_weak_refs-turned k ws kept)
]

map-AllUpdated : (k : Marks) (ws : List Weak) → AllUpdated k ws (map (reference_after k) ws)
map-AllUpdated k [] = tt
map-AllUpdated k (w ∷ ws) = (reference_after-Updated k w, map-AllUpdated k ws)

-- No weak reference of the list leads to a cell without a mark.
abbrev pub Holds : Marks → Weak → Type 0
Holds k w = (is_int w.ref || k w.ref) ≡ true

Updated-Holds : (k : Marks) (w w' : Weak) → k nil ≡ true → Updated k w w' → Holds k w'
Updated-Holds k w w' n u = elim (Bool-cases (is_int w.ref)) [
  | inl e ↦ rw (u.number e) (ground arith)
  | inr e ↦ elim (Bool-cases (k w.ref)) [
    | inl m ↦ rw (u.live m) (ground arith)
    | inr m ↦ rw (u.dead e m) (ground arith)
  ]
]

AllUpdated-Holds :
    (k : Marks) (ws vs : List Weak) → k nil ≡ true → AllUpdated k ws vs → All (Holds k) vs
AllUpdated-Holds k [] [] n h = tt
AllUpdated-Holds k (w ∷ ws) (v ∷ vs) n (u, h) =
    (Updated-Holds k w v n u, AllUpdated-Holds k ws vs n h)
AllUpdated-Holds k [] (v ∷ vs) n h = absurd h
AllUpdated-Holds k (w ∷ ws) [] n h = absurd h

-- After the scan the list holds the weak references with a mark, last first. Each leads to the object
-- that it led to, if that has a mark or is a fixnum, and to `()` if it is a cell without a mark. So none
-- leads to a cell without a mark. `()` has a mark.
pub scan_weak_refs_lem :
    (k : Marks) (ws : List Weak)
    → k nil ≡ true
    → (vs : List Weak) × (scan_weak_refs k ws [] ≡ turned_onto vs [])
      × AllUpdated k (keep (is_kept k) ws) vs
      × All (Holds k) vs
scan_weak_refs_lem k ws n =
    let kept = keep (is_kept k) ws in
    let vs = map (reference_after k) kept in
    let h = map-AllUpdated k kept in
    (vs, scan_weak_refs-turned k ws [], h, AllUpdated-Holds k kept vs n h)

scan_weak_refs-append :
    (k : Marks) (ws vs kept : List Weak)
    → scan_weak_refs k (ws ++ vs) kept ≡ scan_weak_refs k vs (scan_weak_refs k ws kept)
unfolding scan_weak_refs
scan_weak_refs-append k [] vs kept = refl
scan_weak_refs-append k (w ∷ ws) vs kept = scan_weak_refs-append k ws vs _

scan_weak_refs-onto :
    (k : Marks) (ws kept : List Weak) → scan_weak_refs k ws kept ≡ scan_weak_refs k ws [] ++ kept
unfolding scan_weak_refs
scan_weak_refs-onto k [] kept = refl
scan_weak_refs-onto k (w ∷ ws) kept = elim (Bool-cases (is_kept k w)) [
  | inl e ↦
      let w' = record w { ref = cleared k w.ref } in
      rw e (
        scan_weak_refs-onto k ws (w' ∷ kept)
        ∙ sym (append_assoc (scan_weak_refs k ws []) (w' ∷ []) kept)
        ∙ ap (λ vs. vs ++ kept) (sym (scan_weak_refs-onto k ws (w' ∷ []))))
  | inr e ↦ rw e (scan_weak_refs-onto k ws kept)
]

scan_weak_refs-dead :
    (k : Marks) (before after : List Weak) (w : Weak)
    → is_kept k w ≡ true
    → is_int w.ref ≡ false
    → k w.ref ≡ false
    → scan_weak_refs k (before ++ w ∷ after) []
      ≡ scan_weak_refs k after []
        ++ record { self = w.self; ref = nil } ∷ scan_weak_refs k before []
unfolding scan_weak_refs
scan_weak_refs-dead k before after w e i h =
    let step : scan_weak_refs k (w ∷ after) (scan_weak_refs k before [])
        ≡ scan_weak_refs k after
            (record { self = w.self; ref = nil } ∷ scan_weak_refs k before []) =
      rw (e, i, h) refl in
    scan_weak_refs-append k before (w ∷ after) [] ∙ step ∙ scan_weak_refs-onto k after _

-- The mark phase marks no subr and no static string, so a weak reference to one, whose own tuple has a
-- mark, stays on the list and leads to `()` after the scan. The object had no mark before.
pub scan_weak_refs-static :
    (m : Memory) (r : Roots) (n : ℕ) (before after : List Weak) (w : Weak)
    → is_static (content m w.ref) ≡ true
    → no_marks w.ref ≡ false
    → is_int w.ref ≡ false
    → is_kept (mark_roots m n r) w ≡ true
    → scan_weak_refs (mark_roots m n r) (before ++ w ∷ after) []
      ≡ scan_weak_refs (mark_roots m n r) after []
        ++ record { self = w.self; ref = nil } ∷ scan_weak_refs (mark_roots m n r) before []
scan_weak_refs-static m r n before after w e o i h =
    scan_weak_refs-dead (mark_roots m n r) before after w h i (mark_roots-static m r n w.ref e o)
