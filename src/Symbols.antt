-- ===== src/Symbols.antt =====
-- src/symbols.c: symbols, and the obarrays that hold them by name.
-- A name is the bytes of an immutable string. Symbols are named in the order in which they are made.
pub mod Chains
pub mod Interning
pub mod Joining
pub mod Finding
pub mod Turning
pub mod Removing
use librep.Prelude.{
  ℕ, zero, suc, ◌+◌, ◌*◌, ◌%◌, ◌^◌, Bool, true, false, ◌&&◌, ◌||◌, not, List, [], ◌∷◌, ◌++◌, Option,
  none, some, length, get_or, if◌then◌else◌, ◌==◌,
}
use librep.Value.{
  Addr, Value, null, nil, undefined, symbol, fixnum, object, eq, is_nil, is_symbol, of_bool, Result,
  ok, err, bad_arg, thrown,
}
use librep.Vectors.{Vector, Vectors, vector_type, only_vector, put_vector, set_element, make_vector}

-- `next` and `name` are the fields of rep_symbol, `keyword` and `debug` two of its flags.
pub record Symbols : Type 0 where
  pub next : Addr → Value
  pub name : Addr → List ℕ
  pub keyword : Addr → Bool
  pub debug : Addr → Bool
  pub made : ℕ
  pub vectors : Vectors
  pub obarray : Addr
  pub keyword_obarray : Addr

-- `string_hash`, on words of 64 bits
pub hash_bytes : ℕ → List ℕ → ℕ
hash_bytes value [] = value
hash_bytes value (c ∷ cs) = hash_bytes ((value * 33 + c) % 2 ^ 64) cs

abbrev pub string_hash : List ℕ → ℕ
string_hash cs = hash_bytes 5381 cs

-- The bytes in front of the first that is 0.
abbrev pub c_text : List ℕ → List ℕ
c_text [] = []
c_text (c ∷ cs) = if c == 0 then [] else c ∷ c_text cs

abbrev pub same_bytes : List ℕ → List ℕ → Bool
same_bytes [] [] = true
same_bytes [] (y ∷ ys) = false
same_bytes (x ∷ xs) [] = false
same_bytes (x ∷ xs) (y ∷ ys) = x == y && same_bytes xs ys

-- `strcmp (a, b) == 0`
abbrev pub same_text : List ℕ → List ℕ → Bool
same_text a b = same_bytes (c_text a) (c_text b)

-- `if (!rep_VECTORP(ob)) ob = rep_obarray`
abbrev pub chosen : Symbols → Value → Addr
chosen s ob = elim (only_vector ob) [ none ↦ s.obarray | some a ↦ a ]

abbrev pub buckets : Symbols → Addr → List Value
buckets s ob = (s.vectors.vector_at ob).contents

abbrev pub bucket : Symbols → Addr → ℕ → Value
bucket s ob h = get_or (buckets s ob) h null

-- `rep_VECT(ob)->array[h] = v`
pub set_bucket : Symbols → Addr → ℕ → Value → Symbols
set_bucket s ob h v =
    let old = s.vectors.vector_at ob in
    record s {
      vectors = put_vector s.vectors ob (record old { contents = set_element old.contents h v });
    }

abbrev pub set_next : Symbols → Addr → Value → Symbols
set_next s a v = record s { next = λ b. if b == a then v else s.next b }

-- `symbol_name_hash (name) % vsize`
abbrev pub place : List ℕ → ℕ → ℕ
place name size = string_hash name % size

-- `Fmake_symbol`
pub make_symbol : Symbols → List ℕ → Addr × Symbols
make_symbol s name = (
  s.made,
  record s {
    next = λ b. if b == s.made then null else s.next b;
    name = λ b. if b == s.made then name else s.name b;
    keyword = λ b. if b == s.made then false else s.keyword b;
    debug = λ b. if b == s.made then false else s.debug b;
    made = s.made + 1;
  },
)

-- `Fsymbol_name`: the bytes of the name
pub symbol_name : Symbols → Value → Result (List ℕ)
symbol_name s (symbol a) = ok (s.name a)
symbol_name s v = err (bad_arg v 1)

-- `Fsymbolp`, `Fkeywordp`
pub symbolp : Value → Value
symbolp v = of_bool (is_symbol v)

pub keywordp : Symbols → Value → Value
keywordp s (symbol a) = of_bool (s.keyword a)
keywordp s _ = nil

-- `Fmake_obarray`
pub make_obarray : Symbols → Value → Result Value × Symbols
make_obarray s (fixnum i) =
    let (r, vs) = make_vector s.vectors (fixnum i) undefined in (r, record s { vectors = vs })
make_obarray s v = (err (bad_arg v 1), s)

-- The loop over a chain, on fuel; `same` compares a name with the one that is looked for.
pub find_in : ℕ → (List ℕ → Bool) → Symbols → Value → Value
find_in zero same s v = nil
find_in (suc n) same s (symbol a) =
    let rest = find_in n same s (s.next a) in if same (s.name a) then symbol a else rest
find_in (suc n) same s v = nil

-- `Ffind_symbol`
pub find_symbol : ℕ → Symbols → List ℕ → Value → Result Value
unfolding hash_bytes find_in
find_symbol n s name ob =
    let o = chosen s ob in
    let size = length (buckets s o) in
    if size == 0
    then err (bad_arg (object vector_type o) 2)
    else ok (find_in n (same_text name) s (bucket s o (place name size)))

-- The symbol goes to the front of the chain of its name.
pub link_symbol : Symbols → Addr → Addr → Symbols
unfolding set_bucket hash_bytes
link_symbol s a o =
    let h = place (s.name a) (length (buckets s o)) in
    set_bucket (set_next s a (bucket s o h)) o h (symbol a)

-- `Fintern_symbol`: a symbol whose next is not 0 is in some obarray
pub intern_symbol : Symbols → Value → Value → Result Value × Symbols
unfolding link_symbol
intern_symbol s (symbol a) ob =
    let o = chosen s ob in
    if not (eq (s.next a) null)
    then (err thrown, s)
    else if length (buckets s o) == 0
    then (err (bad_arg (object vector_type o) 2), s)
    else (ok (symbol a), link_symbol s a o)
intern_symbol s v ob = (err (bad_arg v 1), s)

-- A new symbol, unless one was found.
pub intern_found : Symbols → List ℕ → Value → Result Value → Result Value × Symbols
unfolding make_symbol intern_symbol
intern_found s name ob (ok nil) = let (a, s') = make_symbol s name in intern_symbol s' (symbol a) ob
intern_found s name ob (ok v) = (ok v, s)
intern_found s name ob (err e) = (err e, s)

-- `Fintern`
pub intern : ℕ → Symbols → List ℕ → Value → Result Value × Symbols
unfolding find_symbol intern_found
intern n s name ob = intern_found s name ob (find_symbol n s name ob)

-- `rep_intern_symbol`: the names are compared with their lengths
pub rep_intern_symbol : ℕ → Symbols → List ℕ → Addr → Result Value × Symbols
unfolding find_in intern_found
rep_intern_symbol n s name o =
    intern_found s name (object vector_type o)
      (ok (find_in n (same_bytes name) s (bucket s o (place name (length (buckets s o))))))

-- `rep_SYM(key)->car |= rep_SF_KEYWORD`
pub flag_keyword : Result Value × Symbols → Result Value × Symbols
flag_keyword (ok (symbol k), s) =
    (ok (symbol k), record s { keyword = λ b. if b == k then true else s.keyword b })
flag_keyword r = r

-- `Fmake_keyword`: `#:` and the name
pub make_keyword : ℕ → Symbols → Value → Result Value × Symbols
unfolding intern flag_keyword
make_keyword n s (symbol a) =
    if s.keyword a
    then (err (bad_arg (symbol a) 1), s)
    else flag_keyword (intern n s (35 ∷ 58 ∷ s.name a) (object vector_type s.keyword_obarray))
make_keyword n s v = (err (bad_arg v 1), s)

-- The loop of `Funintern`: all symbols but one go back to the bucket, from the front.
pub unintern_loop : ℕ → Addr → Addr → ℕ → Symbols → Value → Symbols
unfolding set_bucket
unintern_loop zero sym o h s v = s
unintern_loop (suc n) sym o h s (symbol a) =
    let s' = if a == sym then s else set_bucket (set_next s a (bucket s o h)) o h (symbol a) in
    unintern_loop n sym o h s' (s.next a)
unintern_loop (suc n) sym o h s v = s

-- `Funintern`
pub unintern : ℕ → Symbols → Value → Value → Result Value × Symbols
unfolding unintern_loop hash_bytes
unintern n s (symbol a) ob =
    let o = chosen s ob in
    let size = length (buckets s o) in
    if size == 0
    then (err (bad_arg (object vector_type o) 2), s)
    else let h = place (s.name a) size in
      let t = unintern_loop n a o h (set_bucket s o h undefined) (bucket s o h) in
      (ok (symbol a), set_next t a null)
unintern n s v ob = (err (bad_arg v 1), s)

-- `Ftrace` and `Funtrace`
pub set_debug : Bool → Symbols → Value → Result Value × Symbols
set_debug on s (symbol a) =
    (ok (symbol a), record s { debug = λ b. if b == a then on else s.debug b })
set_debug on s v = (err (bad_arg v 1), s)
