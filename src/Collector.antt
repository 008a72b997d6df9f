-- ===== src/Collector.antt =====
-- src/gc.c: the mark phase of the garbage collector.
-- The marks are a function of the cells. A cell's content is what the mark phase reads of it.
pub mod Marking
pub mod Fuel
pub mod Closed
pub mod Growth
pub mod Reachable
use librep.Prelude.{
  ℕ, zero, suc, Bool, true, false, ◌&&◌, ◌||◌, not, List, [], ◌∷◌, ◌++◌, if◌then◌else◌,
}
use librep.Value.{
  Addr, Value, null, nil, undefined, fixnum, symbol, cons, object, eq, is_int, is_nil,
}
use librep.Heap.{Store}

-- The values in a cell. `typed_cell` is a cell of a type that has its own mark function, with the
-- values that this function marks, in order. The flag of a string tells that it is static.
pub data Cell : Type 0 where
  pair : Value → Value → Cell
  typed_cell : List Value → Cell
  vector_cell : List Value → Cell
  symbol_cell : (name next : Value) → Cell
  string_cell : Bool → Cell
  number_cell : Cell
  closure_cell : (name env structure fun : Value) → Cell
  char_cell : Value → Cell
  subr_cell : Cell

pub record Memory : Type 0 where
  pub store : Store
  pub cell : Value → Cell

-- The two static data cells hold themselves; a word that is no pointer has no content.
unfoldable pub content : Memory → Value → Cell
content m (cons a) = pair (m.store.car a) (m.store.cdr a)
content m nil = typed_cell (nil ∷ nil ∷ [])
content m undefined = typed_cell (undefined ∷ undefined ∷ [])
content m null = number_cell
content m (fixnum _) = number_cell
content m (symbol a) = m.cell (symbol a)
content m (object t a) = m.cell (object t a)

abbrev pub Marks : Type 0
Marks = Value → Bool

-- The static data are always marked.
abbrev pub no_marks : Marks
no_marks v = eq v nil || eq v undefined

abbrev pub is_null : Value → Bool
is_null null = true
is_null _ = false

abbrev pub is_void : Value → Bool
is_void undefined = true
is_void _ = false

-- `rep_GC_SET_CONS`, `rep_GC_SET_CELL`
abbrev pub set_mark : Value → Marks → Marks
set_mark v k w = eq w v || k w

-- `rep_MARKVAL`, with `rep_mark_value` as `go`
pub mark_val : (Value → Marks → Marks) → Value → Marks → Marks
mark_val go v k = if not (is_null v) && not (is_int v) && not (k v) then go v k else k

pub mark_vals : (Value → Marks → Marks) → List Value → Marks → Marks
unfolding mark_val
mark_vals go [] k = k
mark_vals go (v ∷ vs) k = mark_vals go vs (mark_val go v k)

-- `goto again` from a symbol: the test also leaves out the void value
pub mark_next : (Value → Marks → Marks) → Value → Marks → Marks
mark_next go v k = if not (is_null v) && not (is_void v) && not (k v) then go v k else k

-- `goto again` from a char, with no test for a fixnum
pub mark_char : (Value → Marks → Marks) → Value → Marks → Marks
mark_char go v k = if not (is_null v) && not (k v) then go v k else k

-- A pair whose cdr is `()` goes on with its car, any other with its cdr.
pub mark_pair : (Value → Marks → Marks) → (x y : Value) → Marks → Marks
unfolding mark_val
mark_pair go x y k = if is_nil y then mark_val go x k else mark_val go y (mark_val go x k)

-- One cell of the given content
pub mark_cell : (Value → Marks → Marks) → Cell → Value → Marks → Marks
unfolding mark_vals mark_next mark_char mark_pair
mark_cell go (pair x y) v k = mark_pair go x y (set_mark v k)
mark_cell go (typed_cell vs) v k = mark_vals go vs (set_mark v k)
mark_cell go (vector_cell vs) v k = mark_vals go vs (set_mark v k)
mark_cell go (symbol_cell name next) v k = mark_next go next (mark_val go name (set_mark v k))
mark_cell go (string_cell static) v k = if static then k else set_mark v k
mark_cell go number_cell v k = set_mark v k
mark_cell go (closure_cell name env structure fun) v k =
    mark_val go fun (mark_vals go (name ∷ env ∷ structure ∷ []) (set_mark v k))
mark_cell go (char_cell next) v k = mark_char go next (set_mark v k)
mark_cell go subr_cell v k = k

-- `rep_mark_value`, on fuel: `goto again` is a call at the end
pub mark_value : Memory → ℕ → Value → Marks → Marks
unfolding mark_cell content
mark_value m zero v k = k
mark_value m (suc n) v k = if is_int v then k else mark_cell (mark_value m n) (content m v) v k

-- A frame of `rep_call_stack`
pub record Frame : Type 0 where
  pub fun : Value
  pub args : Value
  pub current_form : Value
  pub saved_env : Value
  pub saved_structure : Value

-- What the collector starts from. `type_roots` are the values that the types, the regular
-- expressions, the origins and the loaded files mark.
pub record Roots : Type 0 where
  pub static_roots : List Value
  pub gc_roots : List Value
  pub gc_n_roots : List (List Value)
  pub type_roots : List Value
  pub call_stack : List Frame

pub mark_n_roots : (Value → Marks → Marks) → List (List Value) → Marks → Marks
unfolding mark_vals
mark_n_roots go [] k = k
mark_n_roots go (vs ∷ vss) k = mark_n_roots go vss (mark_vals go vs k)

pub mark_frames : (Value → Marks → Marks) → List Frame → Marks → Marks
unfolding mark_val
mark_frames go [] k = k
mark_frames go (f ∷ fs) k = mark_frames go fs (
    mark_val go f.saved_structure (
      mark_val go f.saved_env
        (mark_val go f.current_form (mark_val go f.args (mark_val go f.fun k)))))

-- The first half of `Fgarbage_collect`
pub mark_roots : Memory → ℕ → Roots → Marks
unfolding mark_value mark_vals mark_n_roots mark_frames
mark_roots m n r =
    let go = mark_value m n in
    let k = mark_vals go r.static_roots no_marks in
    let k = mark_n_roots go r.gc_n_roots (mark_vals go r.gc_roots k) in
    mark_frames go r.call_stack (mark_vals go r.type_roots k)
