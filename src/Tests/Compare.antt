-- ===== src/Tests/Compare.antt =====
-- Comparisons of fixnums, and of the pairs of the memory.
use librep.Prelude.{◌≡◌, refl, Bool, false, not, some, List, [], ◌∷◌, map, arith}
use librep.Prelude.Int.{ℤ, pos, negsuc, ltb_ℤ}
use librep.Value.{Value, fixnum, cons, of_bool, eq_ℤ, ok}
use librep.Compare.{equal, num_eq, less, greater, less_eq, greater_eq}
use librep.Compare.Fixnums.{ordered, comparisons-ordered}
use librep.Compare.Trees.{Tree, leaf, node, same_tree, equal-same_tree}
use librep.Tests.Memory.{num, memory}

-- Compare functions and number cells of other types.
abbrev other : Value → Value → ℤ
other v w = pos 1

abbrev no_number : Value → Bool
no_number v = false

abbrev pair : Value → Value → Tree
pair v w = node (leaf v) (leaf w)

equal-same_tree_example :
    equal other 2 memory (cons 6) (cons 7)
    ≡ some (of_bool (same_tree other (pair (num 1) (num 7)) (pair (num 2) (num 8))))
equal-same_tree_example =
    equal-same_tree other memory (λ v b. refl) 2 (cons 6) (cons 7) (pair (num 1) (num 7))
      (pair (num 2) (num 8)) (6, refl, (refl, refl), (refl, refl))
      (7, refl, (refl, refl), (refl, refl)) (tt, tt)

abbrev numbers : List Value
numbers = map fixnum (negsuc 4 ∷ pos 2 ∷ pos 2 ∷ [])

comparisons-ordered_example :
    (num_eq other no_number other 1 memory numbers
      ≡ some (ok (of_bool (ordered eq_ℤ (negsuc 4) (pos 2 ∷ pos 2 ∷ [])))))
    × (less other no_number other 1 memory numbers
        ≡ some (ok (of_bool (ordered ltb_ℤ (negsuc 4) (pos 2 ∷ pos 2 ∷ [])))))
    × (greater other no_number other 1 memory numbers
        ≡ some (ok (of_bool (ordered (λ x y. ltb_ℤ y x) (negsuc 4) (pos 2 ∷ pos 2 ∷ [])))))
    × (less_eq other no_number other 1 memory numbers
        ≡ some (ok (of_bool (ordered (λ x y. not (ltb_ℤ y x)) (negsuc 4) (pos 2 ∷ pos 2 ∷ [])))))
    × (greater_eq other no_number other 1 memory numbers
        ≡ some (ok (of_bool (ordered (λ x y. not (ltb_ℤ x y)) (negsuc 4) (pos 2 ∷ pos 2 ∷ [])))))
comparisons-ordered_example =
    comparisons-ordered other no_number other (λ a. refl) 0 memory (negsuc 4) (pos 2) (pos 2 ∷ [])
      ((omega arith, omega arith), ((omega arith, omega arith), tt))
