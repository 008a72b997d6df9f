-- ===== src/Compare/Trees.antt =====
-- equal? on finite trees of cons cells.
use librep.Prelude.{
  ℕ, zero, suc, ◌≡◌, refl, ap, sym, Bool, true, false, ◌||◌, ◌&&◌, Option, none, some, arith, ◌==◌,
  ◌∙◌, Bool-cases, inl, inr,
}
use mathlib.Core.Option
use mathlib.Core.Path.{subst}
use librep.Prelude.Int.{ℤ}
use librep.Value.{Addr, Value, null, fixnum, cons, is_cons, of_bool, eq, eq_iff}
use librep.Heap.{Store}
use librep.Compare.{low_bits, is_zero, or_else, type_cmp, value_cmp, equal}
use librep.Compare.Fixnums.{int_cmp-zero}

pub data Tree : Type 0 where
  leaf : Value → Tree
  node : Tree → Tree → Tree

-- The cells from `v` on are the tree.
abbrev pub Reads : Store → Value → Tree → Type 0
Reads s v (leaf x) = (v ≡ x) × (is_cons x ≡ false)
Reads s v (node l r) = (a : Addr) × (v ≡ cons a) × Reads s (s.car a) l × Reads s (s.cdr a) r

-- The tree is not deeper than `n`.
abbrev pub Fits : ℕ → Tree → Type 0
Fits zero t = ⊥
Fits (suc n) (leaf x) = Unit
Fits (suc n) (node l r) = Fits n l × Fits n r

map-of_bool :
    (o : Option ℤ) (b : Bool)
    → Option.map is_zero o ≡ some b
    → Option.map (λ r. of_bool (is_zero r)) o ≡ some (of_bool b)
map-of_bool none b e = ground arith
map-of_bool (some x) b e = ap (Option.map of_bool) e

module _ (other : Value → Value → ℤ) where
  -- Fixnums are told apart by their low 32 bits, other leaves as their type does.
  abbrev pub alike : Value → Value → Bool
  alike null w = false
  alike v null = false
  alike (fixnum a) (fixnum b) = low_bits a == low_bits b
  alike v w = is_zero (other v w)

  abbrev pub same_tree : Tree → Tree → Bool
  same_tree (leaf v) (leaf w) = eq v w || alike v w
  same_tree (node l r) (node m q) = same_tree l m && same_tree r q
  same_tree t u = false

  module _ (s : Store) (differs : (v : Value) (b : Addr) → is_zero (other v (cons b)) ≡ false) where
    same-read : (v : Value) (t u : Tree) → Reads s v t → Reads s v u → same_tree t u ≡ true
    same-read v (leaf x) (leaf y) (e, h) (f, k) =
        let g : eq x y ≡ true = (eq_iff x y).1 (sym e ∙ f) in rw g refl
    same-read v (leaf x) (node m q) (e, h) (a, f, i, j) =
        let p : x ≡ cons a = sym e ∙ f in ground arith
    same-read v (node l r) (leaf y) (a, e, i, j) (f, k) =
        let p : y ≡ cons a = sym f ∙ e in ground arith
    same-read v (node l r) (node m q) (a, e, i, j) (b, f, k, o) =
        let p : cons a ≡ cons b = sym e ∙ f in
        let c : a ≡ b = ground arith in
        rw
          (
            same-read (s.car a) l m i (subst (λ x. Reads s (s.car x) m) (sym c) k),
            same-read (s.cdr a) r q j (subst (λ x. Reads s (s.cdr x) q) (sym c) o),
          )
          refl

    or_else-zero :
        (x y : Option ℤ) (p q : Bool)
        → Option.map is_zero x ≡ some p
        → Option.map is_zero y ≡ some q
        → Option.map is_zero (or_else x y) ≡ some (p && q)
    unfolding or_else
    or_else-zero x y p q e f = ground arith

    leaves-alike :
        (cmp : Value → Value → Option ℤ) (x y : Value)
        → is_cons x ≡ false
        → is_cons y ≡ false
        → Option.map is_zero (type_cmp other cmp s x y) ≡ some (alike x y)
    unfolding type_cmp
    leaves-alike cmp null y h k = refl
    leaves-alike cmp (fixnum a) (fixnum b) h k = ap some (int_cmp-zero a b)
    leaves-alike cmp x y h k = ground arith

    leaf-node :
        (cmp : Value → Value → Option ℤ) (x : Value) (b : Addr)
        → is_cons x ≡ false
        → Option.map is_zero (type_cmp other cmp s x (cons b)) ≡ some false
    unfolding type_cmp
    leaf-node cmp x b h = ground (arith, differs x b)

    node-leaf :
        (cmp : Value → Value → Option ℤ) (a : Addr) (y : Value)
        → is_cons y ≡ false
        → Option.map is_zero (type_cmp other cmp s (cons a) y) ≡ some false
    unfolding type_cmp
    node-leaf cmp a y h = ground arith

    module _ (cmp : Value → Value → Option ℤ) where
      -- `cmp` tells the trees that are not deeper than `n` apart.
      abbrev Decides : ℕ → Type 0
      Decides n =
          (v w : Value) (t u : Tree)
          → Reads s v t
          → Reads s w u
          → Fits n t
          → Option.map is_zero (cmp v w) ≡ some (same_tree t u)

      type_cmp-same :
          (n : ℕ)
          → Decides n
          → (v w : Value) (t u : Tree) → eq v w ≡ false
          → Reads s v t
          → Reads s w u
          → Fits (suc n) t
          → Option.map is_zero (type_cmp other cmp s v w) ≡ some (same_tree t u)
      type_cmp-same n d v w (leaf x) (leaf y) ne (e, h) (f, k) fits =
          let g : eq x y ≡ false = rw (sym e, sym f) ne in rw (e, f, g) (leaves-alike cmp x y h k)
      type_cmp-same n d v w (leaf x) (node m q) ne (e, h) (b, f, i, j) fits =
          rw (e, f) (leaf-node cmp x b h)
      type_cmp-same n d v w (node l r) (leaf y) ne (a, e, i, j) (f, k) fits =
          rw (e, f) (node-leaf cmp a y k)
      type_cmp-same n d v w (node l r) (node m q) ne (a, e, i, j) (b, f, g, k) fits =
          rw (e, f)
            (unfold type_cmp in
              or_else-zero (cmp (s.car a) (s.car b)) (cmp (s.cdr a) (s.cdr b)) (same_tree l m)
                (same_tree r q) (d (s.car a) (s.car b) l m i g fits.0)
                (d (s.cdr a) (s.cdr b) r q j k fits.1))

    value_cmp-same : (n : ℕ) → Decides (value_cmp other n s) n
    unfolding value_cmp
    value_cmp-same zero v w t u i j fits = elim fits [ ]
    value_cmp-same (suc n) v w t u i j fits = elim (Bool-cases (eq v w)) [
      | inl e ↦
          rw e (
            ap some (sym (same-read v t u i (subst (λ x. Reads s x u) (sym ((eq_iff v w).0 e)) j))))
      | inr e ↦ rw e (type_cmp-same (value_cmp other n s) n (value_cmp-same n) v w t u e i j fits)
    ]

    -- `equal?` of two trees of cells, with recursion as deep as the first of them: they have the same
    -- shape, and the leaves at the same places are identical or alike. Fixnums are alike that agree in
    -- their low 32 bits.
    -- No other type takes a cons to be equal to one of its cells.
    pub equal-same_tree :
        (n : ℕ) (v w : Value) (t u : Tree)
        → Reads s v t
        → Reads s w u
        → Fits n t
        → equal other n s v w ≡ some (of_bool (same_tree t u))
    unfolding equal
    equal-same_tree n v w t u i j fits =
        map-of_bool (value_cmp other n s v w) (same_tree t u) (value_cmp-same n v w t u i j fits)
