-- ===== src/Templates/Placeholders.antt =====
-- services/template-service.ts: VARIABLE_PATTERN, `{{{\s*([A-Za-z0-9_]{1,50})\s*}}}`, over a text.
use hayasend.Base.{
  ℕ, zero, suc, ◌-◌, Bool, ◌&&◌, ◌||◌, List, [], ◌∷◌, Option, none, some, leb, ltb, nat_beq,
  if◌then◌else◌, length,
}
use hayasend.Text.{Text, skip_white}

-- [A-Za-z0-9_]
unfoldable pub is_key_char : ℕ → Bool
is_key_char c =
    (leb b'A' c && leb c b'Z')
    || (leb b'a' c && leb c b'z')
    || (leb b'0' c && leb c b'9')
    || nat_beq c b'_'

-- The key characters at the front, and the rest.
unfoldable pub span_key : Text → Text × Text
span_key [] = ([], [])
span_key (c ∷ cs) =
    let (key, rest) = span_key cs in if is_key_char c then (c ∷ key, rest) else ([], c ∷ cs)

-- `}}}` and what follows
unfoldable pub closed : Text → Option Text
closed (a ∷ b ∷ c ∷ rest) =
    if nat_beq a b'}' && nat_beq b b'}' && nat_beq c b'}' then some rest else none
closed _ = none

-- A key of one to fifty characters, before white space and `}}}`; a longer run of key characters
-- does not match, since what follows the fiftieth is none of these.
unfoldable pub keyed : Text × Text → Option (Text × Text)
keyed (key, rest) =
    if ltb 0 (length key) && leb (length key) 50
    then elim (closed (skip_white rest)) [ none ↦ none | some after ↦ some (key, after) ]
    else none

-- The match at the front of a text: its key, and what follows it.
unfoldable pub placeholder_at : Text → Option (Text × Text)
placeholder_at (a ∷ b ∷ c ∷ rest) =
    if nat_beq a b'{' && nat_beq b b'{' && nat_beq c b'{'
    then keyed (span_key (skip_white rest))
    else none
placeholder_at _ = none

pub data Segment : Type 0 where
  literal : ℕ → Segment
  placeholder : Text → Segment

-- The matches from left to right, and the characters between them; `skip` counts the characters of a
-- match that are still to pass over.
unfoldable pub segments_from : ℕ → Text → List Segment
segments_from skip [] = []
segments_from (suc skip) (c ∷ cs) = segments_from skip cs
segments_from zero (c ∷ cs) = elim (placeholder_at (c ∷ cs)) [
  | none ↦ Segment.literal c ∷ segments_from 0 cs
  | some (key, rest) ↦ Segment.placeholder key ∷ segments_from (length cs - length rest) cs
]

unfoldable pub segments : Text → List Segment
segments t = segments_from 0 t

-- The keys of a text's placeholders.
unfoldable pub segment_keys : List Segment → List Text
segment_keys [] = []
segment_keys (Segment.literal c ∷ rest) = segment_keys rest
segment_keys (Segment.placeholder key ∷ rest) = key ∷ segment_keys rest
