-- ===== src/Tests/Symbols.antt =====
-- An obarray with one bucket, which holds `t` and `ab`.
use librep.Prelude.{
  Bool-cases, inl, inr, ℕ, ◌≡◌, refl, false, List, [], ◌∷◌, arith, ◌==◌, if◌then◌else◌,
}
use librep.Value.{Addr, null, nil, undefined, symbol, eq, ok}
use librep.Vectors.{Vectors}
use librep.Symbols.{Symbols, intern, unintern}
use librep.Symbols.Interning.{IsObarray}
use librep.Symbols.Joining.{OneEach}
use librep.Symbols.Finding.{Interned, intern-Interned}
use librep.Symbols.Removing.{removed, unintern-IsObarray}

abbrev text_t : List ℕ
text_t = 116 ∷ []

abbrev text_abc : List ℕ
text_abc = 97 ∷ 98 ∷ 99 ∷ []

abbrev text_ab : List ℕ
text_ab = 97 ∷ 98 ∷ []

abbrev table : Vectors
table = record { vector_at = λ a. record { contents = symbol 0 ∷ []; immutable = false }; made = 2 }

abbrev symbols : Symbols
symbols = record {
  next = λ a. if a == 0 then symbol 1 else undefined;
  name = λ a. if a == 0 then text_t else text_ab;
  keyword = λ a. false;
  debug = λ a. false;
  made = 2;
  vectors = table;
  obarray = 0;
  keyword_obarray = 1;
}

abbrev chains : ℕ → List Addr
chains h = 0 ∷ 1 ∷ []

symbols-IsObarray : IsObarray symbols 0 chains
unfolding eq
symbols-IsObarray = record {
  linked = λ h i. let first : h ≡ 0 = omega arith in rw first (refl, (refl, refl));
  distinct = λ h i. (refl, (refl, tt));
  placed = λ h a i m. omega arith;
  made = λ h a i m. ground arith;
  ended = λ h i. let first : h ≡ 0 = omega arith in rw first refl;
}

symbols-OneEach : OneEach symbols 0 chains
symbols-OneEach h i a b p q x y e = elim (Bool-cases (a == 0)) [
  | inl az ↦ elim (Bool-cases (b == 0)) [
    | inl bz ↦ ground arith
    | inr bo ↦ absurd (ground (arith, rw (az, bo) at e))
  ]
  | inr ao ↦ elim (Bool-cases (b == 0)) [
    | inl bz ↦ absurd (ground (arith, rw (ao, bz) at e))
    | inr bo ↦ ground arith
  ]
]

intern-Interned_example : Interned 2 symbols text_abc nil (intern 2 symbols text_abc nil)
intern-Interned_example =
    intern-Interned 2 symbols text_abc nil chains symbols-IsObarray (omega arith)
      (λ h i. omega arith) symbols-OneEach

unintern-IsObarray_example :
    let (r, t) = unintern 2 symbols (symbol 0) nil in
    (r ≡ ok (symbol 0)) × IsObarray t 0 (removed symbols 0 0 chains) × (t.next 0 ≡ null)
unintern-IsObarray_example =
    unintern-IsObarray 2 symbols 0 nil chains symbols-IsObarray (omega arith) (λ h i. omega arith)
