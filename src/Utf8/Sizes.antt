-- ===== src/Utf8/Sizes.antt =====
-- Counting and skipping the characters of encoded text, and the room that an encoding takes.
use librep.Prelude.{
  ℕ, zero, suc, ◌+◌, ◌-◌, ◌≤◌, ◌/◌, ◌%◌, ◌≡◌, refl, ap, false, none, some, List, [], ◌∷◌, ◌++◌,
  length, drop, take, ltb, leb, if◌then◌else◌, arith, ◌∙◌, All, length-append,
}
use mathlib.Core.Path.{ap₂}
use librep.Utf8.{
  utf8_code_point_size, string_size_loop, utf8_string_size, skip_loop, utf8_skip_characters,
  utf32_to_utf8_size_1, utf32_to_utf8_size, utf32_to_utf8_1, utf32_to_utf8,
}
use librep.Utf8.Roundtrip.{
  IsCodePoint, Width, one, two, three, four, width, size-one, size-two, size-three, size-four,
  encode-one, encode-two, encode-three, encode-four, length-encode,
}

-- The first byte of an encoding tells its length, and `utf32_to_utf8_size_1` its length too.
record Leads (c : ℕ) (rest : List ℕ) : Type 0 where
  first : ℕ
  others : List ℕ
  bytes : utf32_to_utf8_1 c ≡ first ∷ others
  size : utf8_code_point_size first ≡ length (first ∷ others)

leads : (c : ℕ) (rest : List ℕ) → Width c → Leads c rest
leads c rest (one h) = record {
  first = c;
  others = [];
  bytes = encode-one c h;
  size = size-one c (omega arith);
}
leads c rest (two h k) = record {
  first = c / 64 + 0xc0;
  others = (c % 64 + 0x80) ∷ [];
  bytes = encode-two c h k;
  size = size-two (c / 64) (omega arith);
}
leads c rest (three h k) = record {
  first = c / 4096 + 0xe0;
  others = (c / 64 % 64 + 0x80) ∷ (c % 64 + 0x80) ∷ [];
  bytes = encode-three c h k;
  size = size-three (c / 4096) (omega arith);
}
leads c rest (four h k) = record {
  first = c / 262144 + 0xf0;
  others = (c / 4096 % 64 + 0x80) ∷ (c / 64 % 64 + 0x80) ∷ (c % 64 + 0x80) ∷ [];
  bytes = encode-four c h k;
  size = size-four (c / 262144) (omega arith);
}

drop-length-append {ℓ} : {A : Type ℓ} (xs ys : List A) → drop (length xs) (xs ++ ys) ≡ ys
drop-length-append [] ys = refl
drop-length-append (x ∷ xs) ys = drop-length-append xs ys

not_short : (b : ℕ) (bs rest : List ℕ) → ltb (length (b ∷ (bs ++ rest))) (length (b ∷ bs)) ≡ false
not_short b bs rest = ground (arith, length-append {0} bs rest)

size_first :
    (f b : ℕ) (bs rest : List ℕ) (count : ℕ)
    → utf8_code_point_size b ≡ length (b ∷ bs)
    → string_size_loop (suc f) (b ∷ (bs ++ rest)) count ≡ string_size_loop f rest (count + 1)
unfolding string_size_loop
size_first f b bs rest count e =
    rw (e, not_short b bs rest)
      (ap (λ r. string_size_loop f r (count + 1)) (drop-length-append bs rest))

skip_first :
    (f b : ℕ) (bs rest : List ℕ) (k offset : ℕ)
    → utf8_code_point_size b ≡ length (b ∷ bs)
    → skip_loop (suc f) (b ∷ (bs ++ rest)) (suc k) offset
      ≡ skip_loop f rest k (offset + length (b ∷ bs))
unfolding skip_loop
skip_first f b bs rest k offset e =
    rw e (ap (λ r. skip_loop f r k (offset + length (b ∷ bs))) (drop-length-append bs rest))

size_step :
    (f c count : ℕ) (rest : List ℕ)
    → IsCodePoint c
    → string_size_loop (suc f) (utf32_to_utf8_1 c ++ rest) count
      ≡ string_size_loop f rest (count + 1)
size_step f c count rest h =
    let l = leads c rest (width c h) in rw l.bytes (size_first f l.first l.others rest count l.size)

skip_step :
    (f c k offset : ℕ) (rest : List ℕ)
    → IsCodePoint c
    → skip_loop (suc f) (utf32_to_utf8_1 c ++ rest) (suc k) offset
      ≡ skip_loop f rest k (offset + length (utf32_to_utf8_1 c))
skip_step f c k offset rest h =
    let l = leads c rest (width c h) in
    rw l.bytes (skip_first f l.first l.others rest k offset l.size)

module _ (c : ℕ) (cs : List ℕ) (p : IsCodePoint c) where
  shorter : (f : ℕ) → length (utf32_to_utf8 (c ∷ cs)) ≤ suc f → length (utf32_to_utf8 cs) ≤ f
  unfolding utf32_to_utf8
  shorter f le =
      omega (
        arith,
        length-append {0} (utf32_to_utf8_1 c) (utf32_to_utf8 cs),
        length-encode c (width c p),
      )

  not_empty : length (utf32_to_utf8 (c ∷ cs)) ≤ 0 → ⊥
  unfolding utf32_to_utf8
  not_empty le =
      omega (
        arith,
        length-append {0} (utf32_to_utf8_1 c) (utf32_to_utf8 cs),
        length-encode c (width c p),
      )

size_loop-encode :
    (f : ℕ) (cs : List ℕ) (count : ℕ)
    → All IsCodePoint cs
    → length (utf32_to_utf8 cs) ≤ f
    → string_size_loop f (utf32_to_utf8 cs) count ≡ (count + length cs, false)
unfolding utf32_to_utf8
size_loop-encode zero [] count h le = unfold string_size_loop in ap (λ k. (k, false)) (omega arith)
size_loop-encode (suc f) [] count h le =
    unfold string_size_loop in ap (λ k. (k, false)) (omega arith)
size_loop-encode zero (c ∷ cs) count (p, h) le = absurd (not_empty c cs p le)
size_loop-encode (suc f) (c ∷ cs) count (p, h) le =
    size_step f c count (utf32_to_utf8 cs) p
    ∙ size_loop-encode f cs (count + 1) h (shorter c cs p f le)
    ∙ ap (λ k. (k, false)) (omega arith)

-- `utf8_string_size` of the encoding of code points below 0x200000 is their number.
pub utf8_string_size-encode :
    (cs : List ℕ) → All IsCodePoint cs → utf8_string_size (utf32_to_utf8 cs) ≡ length cs
unfolding utf8_string_size
utf8_string_size-encode cs h =
    rw (size_loop-encode (length (utf32_to_utf8 cs)) cs 0 h (omega arith)) (omega arith)

skip_zero : (f : ℕ) (bs : List ℕ) (offset : ℕ) → skip_loop f bs 0 offset ≡ (0, offset)
unfolding skip_loop
skip_zero zero bs offset = refl
skip_zero (suc f) [] offset = refl
skip_zero (suc f) (b ∷ bs) offset = refl

skip_end : (f k offset : ℕ) → skip_loop f [] k offset ≡ (k, offset)
unfolding skip_loop
skip_end zero k offset = refl
skip_end (suc f) k offset = refl

skip_nothing_left :
    (f k offset : ℕ)
    → skip_loop f [] k offset ≡ (k - 0, offset + length (utf32_to_utf8 (take k [])))
unfolding utf32_to_utf8
skip_nothing_left f zero offset =
    skip_end f 0 offset ∙ ap₂ (λ x y. (x, y)) (omega arith) (omega arith)
skip_nothing_left f (suc k) offset =
    skip_end f (suc k) offset ∙ ap₂ (λ x y. (x, y)) (omega arith) (omega arith)

-- What skipping leaves of the count, and where it stops, past the encoding of the code points.
skip_loop-encode :
    (f : ℕ) (cs : List ℕ) (k offset : ℕ)
    → All IsCodePoint cs
    → length (utf32_to_utf8 cs) ≤ f
    → skip_loop f (utf32_to_utf8 cs) k offset
      ≡ (k - length cs, offset + length (utf32_to_utf8 (take k cs)))
unfolding utf32_to_utf8
skip_loop-encode zero [] k offset h le = skip_nothing_left zero k offset
skip_loop-encode (suc f) [] k offset h le = skip_nothing_left (suc f) k offset
skip_loop-encode zero (c ∷ cs) k offset (p, h) le = absurd (not_empty c cs p le)
skip_loop-encode (suc f) (c ∷ cs) zero offset (p, h) le =
    skip_zero (suc f) (utf32_to_utf8_1 c ++ utf32_to_utf8 cs) offset
    ∙ ap₂ (λ x y. (x, y)) (omega arith) (omega arith)
skip_loop-encode (suc f) (c ∷ cs) (suc k) offset (p, h) le =
    skip_step f c k offset (utf32_to_utf8 cs) p
    ∙ skip_loop-encode f cs k (offset + length (utf32_to_utf8_1 c)) h (shorter c cs p f le)
    ∙ ap₂ (λ x y. (x, y)) (omega arith)
        (omega (arith, length-append {0} (utf32_to_utf8_1 c) (utf32_to_utf8 (take k cs))))

-- `utf8_skip_characters` of a count within the encoded text stops behind that many characters; a
-- greater count gives NULL.
pub utf8_skip_characters-encode :
    (cs : List ℕ) (k : ℕ)
    → All IsCodePoint cs
    → utf8_skip_characters (utf32_to_utf8 cs) k
      ≡ (if leb k (length cs) then some (length (utf32_to_utf8 (take k cs))) else none)
unfolding utf8_skip_characters
utf8_skip_characters-encode cs k h =
    rw (skip_loop-encode (length (utf32_to_utf8 cs)) cs k 0 h (omega arith)) (ground arith)

-- For any code point the size that is reserved is the number of bytes that are written.
pub size_1-length : (c : ℕ) → utf32_to_utf8_size_1 c ≡ length (utf32_to_utf8_1 c)
unfolding utf32_to_utf8_size_1 utf32_to_utf8_1
size_1-length c = ground arith

-- `utf32_to_utf8` writes exactly the bytes for which `utf32_to_utf8_size` makes room, for any
-- code points.
pub utf32_to_utf8_size-length : (cs : List ℕ) → utf32_to_utf8_size cs ≡ length (utf32_to_utf8 cs)
unfolding utf32_to_utf8_size utf32_to_utf8
utf32_to_utf8_size-length [] = refl
utf32_to_utf8_size-length (c ∷ cs) = omega (
  arith,
  length-append {0} (utf32_to_utf8_1 c) (utf32_to_utf8 cs),
  size_1-length c,
  utf32_to_utf8_size-length cs,
)
