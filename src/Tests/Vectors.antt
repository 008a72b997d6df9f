-- ===== src/Tests/Vectors.antt =====
-- A vector of three elements.
use librep.Prelude.{◌≡◌, false, [], ◌∷◌, arith}
use librep.Value.{Value, nil, object, ok}
use librep.Heap.{Store}
use librep.Heap.Tail.Grown.{NewList}
use librep.Vectors.{Vector, Vectors, vector_type, new_vector, list_to_vector, vector_to_list}
use librep.Vectors.Contents.{vector_to_list-list_to_vector}
use librep.Tests.Memory.{num, memory, spare, memory-IsValid}

abbrev three : Vector
three = record { contents = num 4 ∷ num 5 ∷ num 6 ∷ []; immutable = false }

abbrev vectors : Vectors
vectors = record { vector_at = λ a. three; made = 1 }

vector_to_list-list_to_vector_example :
    (l : Value) × (t : Store) × (vector_to_list memory vectors (object vector_type 0) ≡ (ok l, t))
    × NewList memory spare three.contents nil l t
    × (list_to_vector 3 t vectors l
        ≡ (ok (object vector_type vectors.made), (new_vector vectors three.contents).1))
vector_to_list-list_to_vector_example =
    vector_to_list-list_to_vector memory spare vectors 0 3 memory-IsValid (omega arith)
