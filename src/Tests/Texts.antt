-- ===== src/Tests/Texts.antt =====
-- Texts of one, two, three and four bytes for a code point, and hashes.
use librep.Prelude.{ℕ, ◌≡◌, List, [], ◌∷◌, arith, All}
use librep.Utf8.{utf32_to_utf8, utf8_to_utf32}
use librep.Utf8.Roundtrip.{IsCodePoint, utf8_to_utf32-utf32_to_utf8}

abbrev text : List ℕ
text = 97 ∷ 233 ∷ 8364 ∷ 128512 ∷ []

text-IsCodePoint : All IsCodePoint text
text-IsCodePoint = (omega arith, (omega arith, (omega arith, (omega arith, tt))))

utf8_to_utf32-utf32_to_utf8_example : utf8_to_utf32 (utf32_to_utf8 text) ≡ text
utf8_to_utf32-utf32_to_utf8_example = utf8_to_utf32-utf32_to_utf8 text text-IsCodePoint

-- A byte that is no sign-extended character.
abbrev plain : ℕ → ℕ
plain c = c
