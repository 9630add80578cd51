-- ===== src/Model/Formats.antt =====
-- core/delivery-model.ts: the regular expressions of the identifiers, over code points.
use Prim.Native.Char.{code}
use hayasend.Base.{
  ℕ, String, Bool, true, false, not, ◌&&◌, ◌||◌, List, [], ◌∷◌, Option, none, some, leb, nat_beq,
  if◌then◌else◌, length, all,
}

abbrev pub codes : String → List ℕ
codes String.[] = []
codes (String.◌∷◌ c s) = code c ∷ codes s

within : ℕ → ℕ → ℕ → Bool
within lo hi c = leb lo c && leb c hi

digit : ℕ → Bool
unfolding within
digit = within b'0' b'9'

lower : ℕ → Bool
unfolding within
lower = within b'a' b'z'

alphanumeric : ℕ → Bool
unfolding digit lower
alphanumeric c = digit c || lower c || within b'A' b'Z' c

dash : ℕ → Bool
dash c = nat_beq c b'-'

-- [A-Za-z0-9_-]
unfoldable pub id_char : ℕ → Bool
unfolding alphanumeric dash
id_char c = alphanumeric c || nat_beq c b'_' || dash c

-- ^[class]{lo,hi}$
run : (ℕ → Bool) → ℕ → ℕ → List ℕ → Bool
run class lo hi s = all class s && leb lo (length s) && leb (length s) hi

-- What stands behind a prefix.
after : List ℕ → List ℕ → Option (List ℕ)
after [] s = some s
after (c ∷ cs) [] = none
after (c ∷ cs) (d ∷ s) = let rest = after cs s in if nat_beq c d then rest else none

prefixed : String → (List ℕ → Bool) → String → Bool
unfolding after
prefixed head test s = elim (after (codes head) (codes s)) [ none ↦ false | some rest ↦ test rest ]

-- The pieces between the occurrences of a character.
split_at : ℕ → List ℕ → List (List ℕ)
split_at c [] = [] ∷ []
split_at c (d ∷ s) =
    let rest = split_at c s in
    if nat_beq c d then [] ∷ rest else elim rest [ [] ↦ [] | piece ∷ more ↦ (d ∷ piece) ∷ more ]

-- 0|[1-9]\d*
numeric : List ℕ → Bool
unfolding digit
numeric [] = false
numeric (c ∷ cs) = if nat_beq c b'0' then nat_beq (length cs) 0 else digit c && all digit cs

-- The dot-separated core of a version, and what follows its first dash.
before_dash : List ℕ → List ℕ
unfolding dash
before_dash [] = []
before_dash (c ∷ s) = let rest = before_dash s in if dash c then [] else c ∷ rest

behind_dash : List ℕ → Option (List ℕ)
unfolding dash
behind_dash [] = none
behind_dash (c ∷ s) = let rest = behind_dash s in if dash c then some s else rest

core_version : List (List ℕ) → Bool
unfolding numeric
core_version (a ∷ b ∷ c ∷ []) = numeric a && numeric b && numeric c
core_version _ = false

pre_release : Option (List ℕ) → Bool
unfolding alphanumeric dash
pre_release none = true
pre_release (some s) = leb 1 (length s) && all (λ c. alphanumeric c || nat_beq c b'.' || dash c) s

unfoldable pub semantic_version : String → Bool
unfolding core_version pre_release split_at before_dash behind_dash
semantic_version s =
    core_version (split_at b'.' (before_dash (codes s))) && pre_release (behind_dash (codes s))

-- ^[a-z][a-z0-9-]{1,63}$
provider_tail : List ℕ → Bool
unfolding run digit lower dash
provider_tail [] = false
provider_tail (c ∷ s) = lower c && run (λ d. lower d || digit d || dash d) 1 63 s

unfoldable pub provider_name : String → Bool
unfolding provider_tail
provider_name s = provider_tail (codes s)

unfoldable pub sha256 : String → Bool
unfolding run digit within
sha256 s = run (λ c. within b'a' b'f' c || digit c) 64 64 (codes s)

unfoldable pub message_id : String → Bool
unfolding prefixed run id_char
message_id = prefixed "email_" (run id_char 16 128)

unfoldable pub recipient_id : String → Bool
unfolding prefixed run id_char
recipient_id = prefixed "rcpt_" (run id_char 22 128)

unfoldable pub attempt_id : String → Bool
unfolding prefixed run id_char
attempt_id = prefixed "attempt_" (run id_char 22 128)

-- ^[\x21-\x3F\x41-\x7E]+$, 1 to 512 characters
unfoldable pub provider_opaque_id : String → Bool
unfolding run within
provider_opaque_id s = run (λ c. within 0x21 0x3F c || within 0x41 0x7E c) 1 512 (codes s)

unfoldable pub provider_message_id : String → Bool
unfolding run within
provider_message_id s = run (within 0x21 0x7E) 1 512 (codes s)

-- `.` of a regular expression: no line terminator
dot : ℕ → Bool
dot c = not (nat_beq c 10 || nat_beq c 13 || nat_beq c 0x2028 || nat_beq c 0x2029)

-- A non-empty run without a colon, the colon, and the rest.
through_colon : List ℕ → Option (List ℕ)
unfolding after
through_colon [] = none
through_colon (c ∷ s) = let rest = through_colon s in if nat_beq c b':' then some s else rest

segment_then : (List ℕ → Bool) → List ℕ → Bool
unfolding through_colon
segment_then test [] = false
segment_then test (c ∷ s) =
    if nat_beq c b':'
    then false
    else elim (through_colon s) [ none ↦ false | some rest ↦ test rest ]

event_tail : List ℕ → Bool
unfolding after dot
event_tail s = elim (after (codes "id:") s) [
  | some v ↦ leb 1 (length v) && all dot v
  | none ↦ elim (after (codes "digest:") s) [
    | some v ↦ leb 1 (length v) && all dot v
    | none ↦ false
  ]
]

-- ^provider-event:v1:[^:]+:(?:id|digest):.+$, at most 2048 characters
unfoldable pub provider_event_identity : String → Bool
unfolding prefixed segment_then event_tail
provider_event_identity s =
    prefixed "provider-event:v1:" (segment_then event_tail) s && leb (length (codes s)) 2048

-- [a-z][a-z0-9-]+:[0-9]+
job_format : List ℕ → Bool
unfolding lower digit dash
job_format [] = false
job_format (c ∷ name) =
    lower c && leb 1 (length name) && all (λ d. lower d || digit d || dash d) name

job_and_number : List (List ℕ) → Bool
unfolding job_format
job_and_number (name ∷ number ∷ []) = job_format name && leb 1 (length number) && all digit number
job_and_number _ = false

outbox_tail : List ℕ → Bool
unfolding split_at job_and_number
outbox_tail s = job_and_number (split_at b':' s)

-- ^outbox:v1:[^:]+:[a-z][a-z0-9-]+:[0-9]+$, at most 512 characters
unfoldable pub outbox_identity : String → Bool
unfolding prefixed segment_then outbox_tail
outbox_identity s = prefixed "outbox:v1:" (segment_then outbox_tail) s && leb (length (codes s)) 512
