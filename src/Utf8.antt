-- ===== src/Utf8.antt =====
-- src/utf8-utils.c and src/utf8-utils.h: code points as numbers, and their encoding in bytes.
-- A buffer is the list of its bytes. `x & 0x3f` is `x % 64`; `|` always joins bits that do not
-- overlap here, and is `+`. A code point of six bytes has 31 bits, so no shift of a uint32_t wraps.
pub mod Roundtrip
pub mod Sizes
use librep.Prelude.{
  ℕ, zero, suc, ◌+◌, ◌-◌, ◌*◌, ◌/◌, ◌%◌, ◌^◌, Bool, true, false, Option, none, some, List, [], ◌∷◌,
  ◌++◌, length, drop, get_or, ltb, leb, ◌==◌, if◌then◌else◌,
}

-- `utf8_table`
abbrev pub utf8_table : List ℕ
utf8_table =
    2 ∷ 2 ∷ 2 ∷ 2 ∷ 2 ∷ 2 ∷ 2 ∷ 2 ∷ 2 ∷ 2 ∷ 2 ∷ 2 ∷ 2 ∷ 2 ∷ 2 ∷ 2 ∷ 2 ∷ 2 ∷ 2 ∷ 2 ∷ 2 ∷ 2 ∷ 2 ∷ 2
    ∷ 2 ∷ 2 ∷ 2 ∷ 2 ∷ 2 ∷ 2 ∷ 2 ∷ 2 ∷ 3 ∷ 3 ∷ 3 ∷ 3 ∷ 3 ∷ 3 ∷ 3 ∷ 3 ∷ 3 ∷ 3 ∷ 3 ∷ 3 ∷ 3 ∷ 3 ∷ 3 ∷ 3
    ∷ 4 ∷ 4 ∷ 4 ∷ 4 ∷ 4 ∷ 4 ∷ 4 ∷ 4 ∷ 5 ∷ 5 ∷ 5 ∷ 5 ∷ 6 ∷ 6 ∷ 1 ∷ 1 ∷ []

-- `utf8_table[i]`
pub table_at : ℕ → ℕ
table_at i = get_or utf8_table i 0

pub utf8_code_point_size : ℕ → ℕ
utf8_code_point_size c = if ltb c 0xc0 then 1 else table_at (c - 0xc0)

-- The loop of `utf8_string_size`, on at most as many rounds as there are bytes: the count, and whether
-- `remaining` fell below 0.
pub string_size_loop : ℕ → List ℕ → ℕ → ℕ × Bool
string_size_loop zero bs count = (count, false)
string_size_loop (suc f) [] count = (count, false)
string_size_loop (suc f) (c ∷ cs) count =
    let l = utf8_code_point_size c in
    let rest = string_size_loop f (drop l (c ∷ cs)) (count + 1) in
    if ltb (length (c ∷ cs)) l then (count + 1, true) else rest

pub utf8_string_size : List ℕ → ℕ
unfolding string_size_loop
utf8_string_size bs =
    let (count, incomplete) = string_size_loop (length bs) bs 0 in
    if incomplete then count - 1 else count

-- The loop of `utf8_skip_characters`: the count that is left, and the offset of `ptr`.
pub skip_loop : ℕ → List ℕ → ℕ → ℕ → ℕ × ℕ
skip_loop zero bs count offset = (count, offset)
skip_loop (suc f) [] count offset = (count, offset)
skip_loop (suc f) (c ∷ cs) zero offset = (zero, offset)
skip_loop (suc f) (c ∷ cs) (suc k) offset =
    let l = utf8_code_point_size c in skip_loop f (drop l (c ∷ cs)) k (offset + l)

-- The offset of the pointer that is returned; `none` is NULL.
pub utf8_skip_characters : List ℕ → ℕ → Option ℕ
unfolding skip_loop
utf8_skip_characters bs count =
    let (left, offset) = skip_loop (length bs) bs count 0 in if left == 0 then some offset else none

-- `for (i = 1; i < l; i++) c = (c << 6) | (src[i] & 0x3f);` for `k` rounds
pub join_bytes : ℕ → ℕ → List ℕ → ℕ
join_bytes zero c bs = c
join_bytes (suc k) c [] = c
join_bytes (suc k) c (b ∷ bs) = join_bytes k (c * 64 + b % 64) bs

-- The loop of `utf8_to_utf32`. `c & ~(0xff << (7 - l))` of a byte is its low `7 - l` bits.
pub to_utf32_loop : ℕ → List ℕ → List ℕ
unfolding join_bytes
to_utf32_loop zero bs = []
to_utf32_loop (suc f) [] = []
to_utf32_loop (suc f) (c ∷ cs) =
    let l = utf8_code_point_size c in
    let rest = to_utf32_loop f (drop l (c ∷ cs)) in
    if ltb c 0xc0
    then c ∷ rest
    else if ltb (length (c ∷ cs)) l
    then []
    else join_bytes (l - 1) (c % 2 ^ (7 - l)) cs ∷ rest

pub utf8_to_utf32 : List ℕ → List ℕ
unfolding to_utf32_loop
utf8_to_utf32 bs = to_utf32_loop (length bs) bs

-- `size += c >= k`
abbrev pub more_from : ℕ → ℕ → ℕ
more_from k c = if leb k c then 1 else 0

pub utf32_to_utf8_size_1 : ℕ → ℕ
utf32_to_utf8_size_1 c =
    let size = 1 + more_from 0x80 c + more_from 0x800 c + more_from 0x10000 c in
    if ltb c 0x200000 then size else 0

pub utf32_to_utf8_size : List ℕ → ℕ
unfolding utf32_to_utf8_size_1
utf32_to_utf8_size [] = 0
utf32_to_utf8_size (c ∷ cs) = utf32_to_utf8_size_1 c + utf32_to_utf8_size cs

-- `(u & 0x3f) | 0x80`
abbrev pub trailing : ℕ → ℕ
trailing u = u % 64 + 0x80

-- `inline_utf32_to_utf8_1`: the bytes that it writes, whose number it returns.
pub utf32_to_utf8_1 : ℕ → List ℕ
utf32_to_utf8_1 c =
    if ltb c 0x80
    then c ∷ []
    else if leb 0x200000 c
    then []
    else let four = leb 0x10000 c in
      let three = leb 0x800 c in
      let u = if four then c / 64 else c in
      let v = if three then u / 64 else u in
      let tag = 0xc0 + (if four then 0x10 else 0) + (if three then 0x20 else 0) in
      (v / 64 + tag)
      ∷ trailing v
      ∷ ((if three then trailing u ∷ [] else []) ++ (if four then trailing c ∷ [] else []))

pub utf32_to_utf8 : List ℕ → List ℕ
unfolding utf32_to_utf8_1
utf32_to_utf8 [] = []
utf32_to_utf8 (c ∷ cs) = utf32_to_utf8_1 c ++ utf32_to_utf8 cs
