-- ===== src/Utf8/Roundtrip.antt =====
-- Decoding what has been encoded.
use librep.Prelude.{
  ℕ, zero, suc, ◌+◌, ◌-◌, ◌*◌, ◌/◌, ◌%◌, ◌≤◌, ◌<◌, ◌≡◌, refl, ap, true, List, [], ◌∷◌, ◌++◌, length,
  ◌==◌, holds_from, holds_from-at, ==_iff, arith, ◌∙◌, All, length-append,
}
use native.Mathlib.Decide.{dec_lt}
use librep.Utf8.{
  table_at, utf8_code_point_size, to_utf32_loop, utf8_to_utf32, join_bytes, utf32_to_utf8_1,
  utf32_to_utf8,
}

table-two : holds_from (λ i. table_at i == 2) 0 32 ≡ true
unfolding holds_from table_at
table-two = refl

table-three : holds_from (λ i. table_at (i + 32) == 3) 0 16 ≡ true
unfolding holds_from table_at
table-three = refl

table-four : holds_from (λ i. table_at (i + 48) == 4) 0 8 ≡ true
unfolding holds_from table_at
table-four = refl

add_sub_back : (u k : ℕ) → u + k - k ≡ u
add_sub_back u k = omega arith

-- The size that the first byte tells.
pub size-one : (c : ℕ) → c < 0xc0 → utf8_code_point_size c ≡ 1
unfolding utf8_code_point_size
size-one c h = ground arith

pub size-two : (u : ℕ) → u < 32 → utf8_code_point_size (u + 0xc0) ≡ 2
unfolding utf8_code_point_size
size-two u h = ground (
  arith,
  ap table_at (add_sub_back u 0xc0),
  (==_iff (table_at u) 2).0 (holds_from-at (λ i. table_at i == 2) 0 32 u table-two (omega arith) h),
)

pub size-three : (u : ℕ) → u < 16 → utf8_code_point_size (u + 0xe0) ≡ 3
unfolding utf8_code_point_size
size-three u h = ground (
  arith,
  ap table_at (three u),
  (==_iff (table_at (u + 32)) 3).0
      (holds_from-at (λ i. table_at (i + 32) == 3) 0 16 u table-three (omega arith) h),
)
  where
    three : (u : ℕ) → u + 0xe0 - 0xc0 ≡ u + 32
    three u = omega arith

pub size-four : (u : ℕ) → u < 8 → utf8_code_point_size (u + 0xf0) ≡ 4
unfolding utf8_code_point_size
size-four u h = ground (
  arith,
  ap table_at (four u),
  (==_iff (table_at (u + 48)) 4).0
      (holds_from-at (λ i. table_at (i + 48) == 4) 0 8 u table-four (omega arith) h),
)
  where
    four : (u : ℕ) → u + 0xf0 - 0xc0 ≡ u + 48
    four u = omega arith

-- The forms of an encoded code point.
pub encode-one : (c : ℕ) → c < 0x80 → utf32_to_utf8_1 c ≡ c ∷ []
unfolding utf32_to_utf8_1
encode-one c h = ground arith

pub encode-two :
    (c : ℕ) → 0x80 ≤ c → c < 0x800 → utf32_to_utf8_1 c ≡ (c / 64 + 0xc0) ∷ (c % 64 + 0x80) ∷ []
unfolding utf32_to_utf8_1
encode-two c h k = ground arith

pub encode-three :
    (c : ℕ)
    → 0x800 ≤ c
    → c < 0x10000
    → utf32_to_utf8_1 c ≡ (c / 4096 + 0xe0) ∷ (c / 64 % 64 + 0x80) ∷ (c % 64 + 0x80) ∷ []
unfolding utf32_to_utf8_1
encode-three c h k = ground arith

pub encode-four :
    (c : ℕ)
    → 0x10000 ≤ c
    → c < 0x200000
    → utf32_to_utf8_1 c
      ≡ (c / 262144 + 0xf0) ∷ (c / 4096 % 64 + 0x80) ∷ (c / 64 % 64 + 0x80) ∷ (c % 64 + 0x80) ∷ []
unfolding utf32_to_utf8_1
encode-four c h k = ground arith

abbrev pub IsCodePoint : ℕ → Type 0
IsCodePoint c = c < 0x200000

decode-one :
    (f c : ℕ) (rest : List ℕ)
    → c < 0x80
    → to_utf32_loop (suc f) (c ∷ rest) ≡ c ∷ to_utf32_loop f rest
unfolding to_utf32_loop
decode-one f c rest h = rw (size-one c (omega arith)) (ground arith)

decode-two :
    (f u b : ℕ) (rest : List ℕ)
    → u < 32
    → to_utf32_loop (suc f) ((u + 0xc0) ∷ (b % 64 + 0x80) ∷ rest)
      ≡ (u * 64 + b % 64) ∷ to_utf32_loop f rest
unfolding to_utf32_loop join_bytes
decode-two f u b rest h = rw (size-two u h) (ground arith)

decode-three :
    (f u b c : ℕ) (rest : List ℕ)
    → u < 16
    → to_utf32_loop (suc f) ((u + 0xe0) ∷ (b % 64 + 0x80) ∷ (c % 64 + 0x80) ∷ rest)
      ≡ ((u * 64 + b % 64) * 64 + c % 64) ∷ to_utf32_loop f rest
unfolding to_utf32_loop join_bytes
decode-three f u b c rest h = rw (size-three u h) (ground arith)

decode-four :
    (f u a b c : ℕ) (rest : List ℕ)
    → u < 8
    → to_utf32_loop
        (suc f)
        ((u + 0xf0) ∷ (a % 64 + 0x80) ∷ (b % 64 + 0x80) ∷ (c % 64 + 0x80) ∷ rest)
      ≡ (((u * 64 + a % 64) * 64 + b % 64) * 64 + c % 64) ∷ to_utf32_loop f rest
unfolding to_utf32_loop join_bytes
decode-four f u a b c rest h = rw (size-four u h) (ground arith)

-- Where a code point's encoding has one, two, three or four bytes.
pub data Width (c : ℕ) : Type 0 where
  one : c < 0x80 → Width c
  two : 0x80 ≤ c → c < 0x800 → Width c
  three : 0x800 ≤ c → c < 0x10000 → Width c
  four : 0x10000 ≤ c → c < 0x200000 → Width c

pub width : (c : ℕ) → IsCodePoint c → Width c
width c h = elim (dec_lt c 0x80) [
  | yes p ↦ one p
  | no p ↦ elim (dec_lt c 0x800) [
    | yes q ↦ two (omega arith) q
    | no q ↦ elim (dec_lt c 0x10000) [ yes r ↦ three (omega arith) r | no r ↦ four (omega arith) h ]
  ]
]

decode-encode :
    (f c : ℕ) (rest : List ℕ)
    → Width c
    → to_utf32_loop (suc f) (utf32_to_utf8_1 c ++ rest) ≡ c ∷ to_utf32_loop f rest
decode-encode f c rest (one h) = rw (encode-one c h) (decode-one f c rest h)
decode-encode f c rest (two h k) =
    rw (encode-two c h k) (
      decode-two f (c / 64) c rest (omega arith) ∙ ap (λ d. d ∷ to_utf32_loop f rest) (omega arith))
decode-encode f c rest (three h k) = rw (encode-three c h k) (
    decode-three f (c / 4096) (c / 64) c rest (omega arith)
    ∙ ap (λ d. d ∷ to_utf32_loop f rest) (omega arith))
decode-encode f c rest (four h k) = rw (encode-four c h k) (
    decode-four f (c / 262144) (c / 4096) (c / 64) c rest (omega arith)
    ∙ ap (λ d. d ∷ to_utf32_loop f rest) (omega arith))

pub length-encode : (c : ℕ) → Width c → 1 ≤ length (utf32_to_utf8_1 c)
length-encode c (one h) = rw (encode-one c h) (omega arith)
length-encode c (two h k) = rw (encode-two c h k) (omega arith)
length-encode c (three h k) = rw (encode-three c h k) (omega arith)
length-encode c (four h k) = rw (encode-four c h k) (omega arith)

decode_loop-encode :
    (f : ℕ) (cs : List ℕ)
    → All IsCodePoint cs
    → length (utf32_to_utf8 cs) ≤ f
    → to_utf32_loop f (utf32_to_utf8 cs) ≡ cs
unfolding utf32_to_utf8
decode_loop-encode zero [] h le = unfold to_utf32_loop in refl
decode_loop-encode (suc f) [] h le = unfold to_utf32_loop in refl
decode_loop-encode zero (c ∷ cs) (p, h) le = absurd (
    omega (
      arith,
      length-append {0} (utf32_to_utf8_1 c) (utf32_to_utf8 cs),
      length-encode c (width c p),
    ))
decode_loop-encode (suc f) (c ∷ cs) (p, h) le =
    decode-encode f c (utf32_to_utf8 cs) (width c p)
    ∙ ap (λ ds. c ∷ ds)
        (decode_loop-encode f cs h (
          omega (
            arith,
            length-append {0} (utf32_to_utf8_1 c) (utf32_to_utf8 cs),
            length-encode c (width c p),
          )))

-- Decoding the encoding of any code points below 0x200000 gives them back.
pub utf8_to_utf32-utf32_to_utf8 :
    (cs : List ℕ) → All IsCodePoint cs → utf8_to_utf32 (utf32_to_utf8 cs) ≡ cs
unfolding utf8_to_utf32
utf8_to_utf32-utf32_to_utf8 cs h = decode_loop-encode (length (utf32_to_utf8 cs)) cs h (omega arith)
