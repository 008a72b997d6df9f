-- ===== src/Tests/Plists.antt =====
-- A symbol with the property list (p 2 3), whose last element is no property.
use librep.Prelude.{◌≡◌, refl, Bool, true, false, none, some, [], ◌∷◌, arith, ◌==◌, if◌then◌else◌}
use librep.Value.{Value, symbol, cons, ok}
use librep.Heap.{Store, set_car_of}
use librep.Heap.Alloc.{IsValid}
use librep.Plists.{Plists, get, put, second_cell, two_cells}
use librep.Plists.Properties.{put-get}
use librep.Tests.Memory.{num, memory, spare}

abbrev store : Store
store = set_car_of memory 0 (symbol 5)

store-IsValid : IsValid store spare
store-IsValid = record { chain = (refl, refl); distinct = (refl, tt); below = λ a h. ground arith }

abbrev plists : Plists
plists = record { store = store; plist_of = λ a. if a == 7 then some (cons 0) else none }

abbrev no_equal : Store → Value → Value → Bool
no_equal s v w = false

abbrev all_accessible : Value → Bool
all_accessible v = true

list_read : two_cells store (cons 0) ≡ some (0, 1)
unfolding two_cells second_cell
list_read = refl

list_ends : two_cells store (cons 2) ≡ none
unfolding two_cells second_cell
list_ends = refl

put-get_example :
    (p' : Plists) × (put no_equal all_accessible 2 plists (symbol 7) (symbol 5) (num 9)
      ≡ some (ok (num 9), p'))
    × (get no_equal 2 p' (symbol 7) (symbol 5) ≡ some (ok (num 9)))
put-get_example =
    put-get no_equal (symbol 5) refl all_accessible plists 7 (num 9) ((0, 1) ∷ []) 2 spare
      store-IsValid refl (list_read, list_ends) (λ b h. ground arith) (omega arith)
