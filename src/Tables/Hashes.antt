-- ===== src/Tables/Hashes.antt =====
-- src/tables.c (TRUNC, hash_string, eq-hash) and src/pointer-hash.h: the hash functions, on 64-bit
-- words with their wrap-around. `char` is signed or not as the compiler has it: `char_word` is the word
-- that a byte is converted to.
use librep.Prelude.{
  ℕ, ◌+◌, ◌-◌, ◌*◌, ◌/◌, ◌%◌, ◌^◌, ◌<◌, ◌≡◌, refl, ap, List, [], ◌∷◌, ◌++◌, arith, if◌then◌else◌,
  ◌==◌,
}
use Prim.Native.Nat.{bit_xor}

abbrev pub word_mod : ℕ
word_mod = 2 ^ 64

-- `TRUNC`: `rep_VALUE_INT_SHIFT + 1` is 3
pub trunc : ℕ → ℕ
trunc x = (x * 8 % 2 ^ 64) / 8

-- `hash_string`: the loop over the bytes up to the first that is 0
module _ (char_word : ℕ → ℕ) where
  pub hash_loop : ℕ → List ℕ → ℕ
  hash_loop value [] = value
  hash_loop value (c ∷ cs) =
      let rest = hash_loop ((value * 33 + char_word c) % 2 ^ 64) cs in
      if c == 0 then value else rest

  pub hash_string : List ℕ → ℕ
  unfolding hash_loop trunc
  hash_string cs = trunc (hash_loop 5381 cs)

-- `~v`
abbrev pub complement : ℕ → ℕ
complement v = 2 ^ 64 - 1 - v

abbrev pub shl64 : ℕ → ℕ → ℕ
shl64 v k = v * 2 ^ k % 2 ^ 64

abbrev pub add64 : ℕ → ℕ → ℕ
add64 v w = (v + w) % 2 ^ 64

-- `pointer_hash` on a machine with 64-bit words
pub pointer_hash : ℕ → ℕ
pointer_hash v0 =
    let v1 = add64 v0 (complement (shl64 v0 32)) in
    let v2 = bit_xor v1 (v1 / 2 ^ 22) in
    let v3 = add64 v2 (complement (shl64 v2 13)) in
    let v4 = bit_xor v3 (v3 / 2 ^ 8) in
    let v5 = add64 v4 (shl64 v4 3) in
    let v6 = bit_xor v5 (v5 / 2 ^ 15) in
    let v7 = add64 v6 (complement (shl64 v6 27)) in bit_xor v7 (v7 / 2 ^ 31)

-- `Feq_hash` of the word of a value
pub eq_hash : ℕ → ℕ
unfolding pointer_hash trunc
eq_hash word = trunc (pointer_hash word)

trunc-lt : (x : ℕ) → trunc x < 2 ^ 61
unfolding trunc
trunc-lt x = omega arith

-- The hashes of texts and of words are fixnums that are not negative: they are below 2 ^ 61, and the
-- least fixnum too large is 2 ^ 61.
pub hashes_bounds :
    (char_word : ℕ → ℕ) (text : List ℕ) (word : ℕ)
    → (hash_string char_word text < 2 ^ 61) × (eq_hash word < 2 ^ 61)
unfolding hash_string eq_hash
hashes_bounds char_word text word =
    (trunc-lt (hash_loop char_word 5381 text), trunc-lt (pointer_hash word))

hash_loop-nul :
    (char_word : ℕ → ℕ) (value : ℕ) (text rest : List ℕ)
    → hash_loop char_word value (text ++ 0 ∷ rest) ≡ hash_loop char_word value (text ++ 0 ∷ [])
unfolding hash_loop
hash_loop-nul char_word value [] rest = refl
hash_loop-nul char_word value (c ∷ cs) rest =
    ap (λ r. if c == 0 then value else r)
      (hash_loop-nul char_word ((value * 33 + char_word c) % 2 ^ 64) cs rest)

-- What stands behind the first NUL byte does not count.
pub hash_string-nul :
    (char_word : ℕ → ℕ) (text rest : List ℕ)
    → hash_string char_word (text ++ 0 ∷ rest) ≡ hash_string char_word (text ++ 0 ∷ [])
unfolding hash_string
hash_string-nul char_word text rest = ap trunc (hash_loop-nul char_word 5381 text rest)
