-- ===== src/Text.antt =====
-- Texts as their code points, with what the source uses of JavaScript's strings and expressions.
use hayasend.Base.{
  ℕ, ◌+◌, Bool, true, ◌&&◌, ◌||◌, List, [], ◌∷◌, ◌++◌, leb, ltb, nat_beq, if◌then◌else◌, any,
}

abbrev pub Text : Type 0
Text = List ℕ

-- The white space of `\s` and of `trim`.
unfoldable pub is_white : ℕ → Bool
is_white c =
    (leb 9 c && leb c 13)
    || nat_beq c 32
    || nat_beq c 160
    || nat_beq c 5760
    || (leb 8192 c && leb c 8202)
    || nat_beq c 8232
    || nat_beq c 8233
    || nat_beq c 8239
    || nat_beq c 8287
    || nat_beq c 12288
    || nat_beq c 65279

unfoldable pub skip_white : List ℕ → List ℕ
skip_white [] = []
skip_white (c ∷ cs) = let rest = skip_white cs in if is_white c then rest else c ∷ cs

-- Whether all that is left is white, or is the `$` of the expression after it.
unfoldable pub all_white : List ℕ → Bool
all_white [] = true
all_white (c ∷ cs) = is_white c && all_white cs

unfoldable pub trim_end : List ℕ → List ℕ
trim_end [] = []
trim_end (c ∷ cs) = let rest = trim_end cs in if all_white (c ∷ cs) then [] else c ∷ rest

unfoldable pub trim : List ℕ → List ℕ
trim cs = trim_end (skip_white cs)

-- value.length, in UTF-16 units
unfoldable pub utf16_length : Text → ℕ
utf16_length [] = 0
utf16_length (c ∷ cs) = (if ltb c 65536 then 1 else 2) + utf16_length cs

-- utf8ByteLength(value)
unfoldable pub utf8_width : ℕ → ℕ
utf8_width c = if ltb c 128 then 1 else if ltb c 2048 then 2 else if ltb c 65536 then 3 else 4

unfoldable pub utf8_byte_length : Text → ℕ
utf8_byte_length [] = 0
utf8_byte_length (c ∷ cs) = utf8_width c + utf8_byte_length cs

-- value.replaceAll(character, replacement)
unfoldable pub replace_all : ℕ → Text → Text → Text
replace_all c by [] = []
replace_all c by (d ∷ ds) =
    let rest = replace_all c by ds in if nat_beq d c then by ++ rest else d ∷ rest

-- /[\r\n]/
unfoldable pub is_line_break : ℕ → Bool
is_line_break c = nat_beq c 13 || nat_beq c 10

unfoldable pub has_line_break : Text → Bool
has_line_break t = any is_line_break t
