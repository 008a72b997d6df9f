-- ===== src/Vectors/Contents.antt =====
-- The elements of a vector after a write, and on the way to a list and back.
use librep.Prelude.{
  ℕ, zero, suc, ◌≤◌, ◌≡◌, refl, ap, sym, true, false, ◌&&◌, not, some, List, [], ◌∷◌, ◌++◌, map,
  arith, length, get_elem?, ltb, ◌==◌, if◌then◌else◌, ◌∙◌, length-map,
}
use mathlib.Core.List.{append-nil, append_assoc}
use librep.Prelude.Int.{pos}
use librep.Value.{
  Addr, Value, nil, undefined, fixnum, object, is_list, bad_arg, thrown, Result, ok, err,
}
use librep.Heap.{Store}
use librep.Heap.Chain.{Chain}
use librep.Heap.Alloc.{IsValid}
use librep.Heap.Tail.{Out, read_last, emit}
use librep.Heap.Tail.Grown.{Grown, Grown-start, Grown-emit, Grown-done, read_last-emit, NewList}
use librep.Lists.Access.{car, cdr}
use librep.Lists.Copy.{start}
use librep.Lists.Index.{list_length}
use librep.Lists.Index.Positions.{list_length_lem}
use librep.Vectors.{
  Vector, Vectors, vector_type, new_vector, set_element, element_at, vector_ref, write_element,
  vector_set, list_elements, list_to_vector, emit_all, vector_to_list,
}

get_elem?-set_element :
    (xs : List Value) (i j : ℕ) (x : Value)
    → get_elem? (set_element xs i x) j
      ≡ (if ltb i (length xs) && j == i then some x else get_elem? xs j)
unfolding set_element
get_elem?-set_element [] i j x = ground arith
get_elem?-set_element (y ∷ ys) zero zero x = ground arith
get_elem?-set_element (y ∷ ys) zero (suc j) x = ground arith
get_elem?-set_element (y ∷ ys) (suc i) zero x = ground arith
get_elem?-set_element (y ∷ ys) (suc i) (suc j) x = get_elem?-set_element ys i j x ∙ ground arith

module _ (s : Store) (fs : List Addr) where
  emit_all-NewList :
      (ys : List Value) (o : Out) (gs : List Addr) (xs : List Value) (cs : List Addr)
      → Grown s fs o gs xs cs
      → read_last o ≡ nil
      → NewList s fs (xs ++ ys) nil (emit_all o ys).value (emit_all o ys).store
  unfolding emit_all
  emit_all-NewList [] o gs xs cs g e = rw (append-nil xs) (Grown-done s fs o gs xs cs g e)
  emit_all-NewList (y ∷ ys) o gs xs cs g e =
      let (hs, c, k) = Grown-emit s fs o gs xs cs y g in
      let ih =
        emit_all-NewList ys (emit o y) hs (xs ++ y ∷ []) (cs ++ c ∷ []) k
          (read_last-emit s fs o gs xs cs y g) in
      rw (append_assoc xs (y ∷ []) ys) at ih

list_elements-map :
    (s : Store) (l w : Value) (cs : List Addr)
    → Chain s.cdr l cs w
    → list_elements (length cs) s l ≡ map s.car cs
unfolding list_elements car cdr
list_elements-map s l w [] ch = refl
list_elements-map s l w (c ∷ cs) (e, ch) = rw (e, list_elements-map s (s.cdr c) w cs ch) refl

Chain-is_list :
    (m : Addr → Value) (l : Value) (cs : List Addr) → Chain m l cs nil → is_list l ≡ true
Chain-is_list m l [] ch = rw ch refl
Chain-is_list m l (c ∷ cs) (e, ch) = rw e refl

module _ (s : Store) (fs : List Addr) (vs : Vectors) (a : Addr) (n : ℕ) where
  -- `vector->list` of a vector gives a list of new cells with its elements, no live cell is changed, and
  -- `list->vector` of it, with a poll for each, a new vector with the same elements.
  -- The free list of the store is valid.
  pub vector_to_list-list_to_vector :
      IsValid s fs
      → length (vs.vector_at a).contents ≤ n
      → (l : Value) × (t : Store) × (vector_to_list s vs (object vector_type a) ≡ (ok l, t))
        × NewList s fs (vs.vector_at a).contents nil l t
        × (list_to_vector n t vs l
            ≡ (ok (object vector_type vs.made), (new_vector vs (vs.vector_at a).contents).1))
  unfolding vector_to_list list_to_vector new_vector
  vector_to_list-list_to_vector valid le =
      let xs = (vs.vector_at a).contents in
      let o = emit_all (start nil s) xs in
      let new = emit_all-NewList s fs xs (start nil s) fs [] [] (Grown-start s fs nil valid) refl in
      let counted : length new.cells ≡ length xs =
        sym (length-map new.cells o.store.car) ∙ ap length new.elements in
      let len : list_length n o.store o.value ≡ some (length new.cells) =
        list_length_lem o.store nil refl n o.value new.cells new.chain ∙ ground arith in
      (
        o.value,
        o.store,
        refl,
        new,
        rw
            (
              Chain-is_list o.store.cdr o.value new.cells new.chain,
              len,
              list_elements-map o.store o.value nil new.cells new.chain,
              new.elements,
            )
            refl,
      )

-- What `vector-set!` returns.
abbrev pub set_result : Vector → Value → ℕ → Result Value
set_result v idx i =
    if v.immutable
    then err thrown
    else if ltb i (length v.contents)
    then ok undefined
    else err (bad_arg idx 2)

-- `vector-set!` on a vector with an index that is no negative fixnum, and `vector-ref` after it: the
-- written element is found at its index if the vector may be written and is long enough, and every
-- other element is the same, as are all other vectors; the result tells the three cases apart.
pub vector_set-vector_ref :
    (vs : Vectors) (a i j : ℕ) (x : Value)
    → ((vector_set vs (object vector_type a) (fixnum (pos i)) x).0
        ≡ set_result (vs.vector_at a) (fixnum (pos i)) i)
      × (vector_ref
            (vector_set vs (object vector_type a) (fixnum (pos i)) x).1
            (object vector_type a)
            (fixnum (pos j))
          ≡ (if not (vs.vector_at a).immutable && ltb i (length (vs.vector_at a).contents) && j == i
              then ok x
              else vector_ref vs (object vector_type a) (fixnum (pos j))))
      × ((b : Addr)
          → (b == a) ≡ false
          → (vector_set vs (object vector_type a) (fixnum (pos i)) x).1.vector_at b
            ≡ vs.vector_at b)
unfolding vector_set vector_ref write_element element_at
vector_set-vector_ref vs a i j x = (
  ground arith,
  ground (arith, get_elem?-set_element (vs.vector_at a).contents i j x),
  λ b h. ground arith,
)
