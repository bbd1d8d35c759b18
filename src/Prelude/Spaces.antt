-- ===== src/Prelude/Spaces.antt =====
-- What the program uses of Go's packages strings and unicode/utf8, on texts as lists of bytes.
use mathlib.Core.List.{List, [], ◌∷◌, ◌++◌, reverse}
use crowdshield.Prelude.{
  false, zero, ◌||◌, ◌&&◌, exists, leb, ◌==◌, ◌-◌, true, Bool, suc, if◌then◌else◌, ℕ, Text,
}

-- The bytes of the space character that a text starts with, and 0 if it starts with none.
abbrev is_ascii_space : ℕ → Bool
is_ascii_space c = c == 32 || (leb 9 c && leb c 13)

-- U+0085 and U+00A0.
abbrev is_space_2 : ℕ → ℕ → Bool
is_space_2 a b = a == 0xc2 && (b == 0x85 || b == 0xa0)

-- U+1680, U+2000 to U+200A, U+2028, U+2029, U+202F, U+205F and U+3000.
abbrev is_space_3 : ℕ → ℕ → ℕ → Bool
is_space_3 a b c =
    (a == 0xe1 && b == 0x9a && c == 0x80)
    || (a == 0xe2
        && b == 0x80
        && ((leb 0x80 c && leb c 0x8a) || c == 0xa8 || c == 0xa9 || c == 0xaf))
    || (a == 0xe2 && b == 0x81 && c == 0x9f)
    || (a == 0xe3 && b == 0x80 && c == 0x80)

unfoldable pub space_width : Text → ℕ
space_width [] = 0
space_width (a ∷ []) = if is_ascii_space a then 1 else 0
space_width (a ∷ b ∷ []) = if is_ascii_space a then 1 else if is_space_2 a b then 2 else 0
space_width (a ∷ b ∷ c ∷ s) =
    if is_ascii_space a then 1 else if is_space_2 a b then 2 else if is_space_3 a b c then 3 else 0

-- The same at the end of a text, whose bytes are given from the end.
unfoldable pub space_width_back : Text → ℕ
space_width_back [] = 0
space_width_back (a ∷ []) = if is_ascii_space a then 1 else 0
space_width_back (b ∷ a ∷ []) = if is_ascii_space b then 1 else if is_space_2 a b then 2 else 0
space_width_back (c ∷ b ∷ a ∷ s) =
    if is_ascii_space c then 1 else if is_space_2 b c then 2 else if is_space_3 a b c then 3 else 0

-- Without the spaces at the start; `skip` more bytes belong to one.
unfoldable pub trim_by : (Text → ℕ) → ℕ → Text → Text
trim_by width skip [] = []
trim_by width (suc skip) (c ∷ s) = trim_by width skip s
trim_by width zero (c ∷ s) =
    let rest = trim_by width (width (c ∷ s) - 1) s in if width (c ∷ s) == 0 then c ∷ s else rest

-- `strings.TrimSpace`
unfoldable pub trim_space : Text → Text
unfolding trim_by space_width space_width_back
trim_space s = reverse (trim_by space_width_back 0 (reverse (trim_by space_width 0 s)))

-- The field that has been read, if it has a byte.
abbrev flush : Text → List Text → List Text
flush [] rest = rest
flush (c ∷ s) rest = (c ∷ s) ∷ rest

unfoldable pub fields_from : ℕ → Text → Text → List Text
unfolding space_width
fields_from skip field [] = flush field []
fields_from (suc skip) field (c ∷ s) = fields_from skip field s
fields_from zero field (c ∷ s) =
    let w = space_width (c ∷ s) in
    let rest = fields_from (w - 1) (if w == 0 then field ++ c ∷ [] else []) s in
    if w == 0 then rest else flush field rest

-- `strings.Fields`
unfoldable pub fields : Text → List Text
unfolding fields_from
fields s = fields_from 0 [] s

-- How many bytes follow the first one of a character, and the range of the next.
abbrev followers : ℕ → ℕ
followers c = if leb c 0x7f then 0 else if leb c 0xdf then 1 else if leb c 0xef then 2 else 3

abbrev next_low : ℕ → ℕ
next_low c = if c == 0xe0 then 0xa0 else if c == 0xf0 then 0x90 else 0x80

abbrev next_high : ℕ → ℕ
next_high c = if c == 0xed then 0x9f else if c == 0xf4 then 0x8f else 0xbf

abbrev is_first : ℕ → Bool
is_first c = leb c 0x7f || (leb 0xc2 c && leb c 0xf4)

unfoldable pub utf8_from : ℕ → ℕ → ℕ → Text → Bool
utf8_from zero low high [] = true
utf8_from (suc n) low high [] = false
utf8_from zero low high (c ∷ s) = is_first c && utf8_from (followers c) (next_low c) (next_high c) s
utf8_from (suc n) low high (c ∷ s) = leb low c && leb c high && utf8_from n 0x80 0xbf s

-- `utf8.ValidString`
unfoldable pub utf8_valid : Text → Bool
unfolding utf8_from
utf8_valid s = utf8_from 0 0 0 s

-- `strings.Contains` of one byte.
abbrev pub has_byte : ℕ → Text → Bool
has_byte b s = exists (λ c. c == b) s
