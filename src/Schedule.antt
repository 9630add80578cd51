-- ===== src/Schedule.antt =====
-- core/schedule.ts: the time at which an email is to be sent, and the delays of the queue.
pub mod Laws
use hayasend.Base.{
  ℕ, zero, suc, ◌+◌, ◌-◌, ◌*◌, ◌/◌, String, Bool, true, false, not, ◌&&◌, ◌||◌, List, [], ◌∷◌,
  Option, none, some, Result, ok, err, ◌>>=◌, ltb, leb, nat_beq, if◌then◌else◌, nat_eq, list_eq,
  includes, schedule_not_a_time, schedule_in_the_past, schedule_too_late,
}
use hayasend.Platform.{Platform, max_date}
use hayasend.Model.Formats.{codes}
use hayasend.Text.{is_white, skip_white, trim}
use hayasend.Store.Pages.{truthy}

unfoldable pub is_digit : ℕ → Bool
is_digit c = leb b'0' c && leb c b'9'

-- Under the flag `i`, without the flag `u`, only ASCII letters change their case.
unfoldable pub to_lower : ℕ → ℕ
to_lower c = if leb b'A' c && leb c b'Z' then c + 32 else c

-- What `Number` gives for the digits at the front, and the rest.
unfoldable pub digits_from : ℕ → List ℕ → ℕ × List ℕ
digits_from n [] = (n, [])
digits_from n (c ∷ cs) =
    let rest = digits_from (n * 10 + (c - b'0')) cs in if is_digit c then rest else (n, c ∷ cs)

unfoldable pub lower_all : List ℕ → List ℕ
lower_all [] = []
lower_all (c ∷ cs) = to_lower c ∷ lower_all cs

-- The milliseconds of a unit of time.
unfoldable pub unit_ms : List ℕ → Option ℕ
unit_ms unit =
    if includes (codes "minute" ∷ codes "minutes" ∷ codes "min" ∷ []) unit
    then some 60000
    else if includes (codes "hour" ∷ codes "hours" ∷ []) unit
    then some 3600000
    else if includes (codes "day" ∷ codes "days" ∷ []) unit
    then some 86400000
    else none

-- `\s*`, the unit, and the end
unfoldable pub with_unit : ℕ × List ℕ → Option ℕ
with_unit (amount, rest) = elim (unit_ms (lower_all (skip_white rest))) [
  | none ↦ none
  | some multiplier ↦ some (amount * multiplier)
]

-- `(\d+)` and what follows
unfoldable pub amount_ms : List ℕ → Option ℕ
amount_ms [] = none
amount_ms (c ∷ cs) = if is_digit c then with_unit (digits_from 0 (c ∷ cs)) else none

-- `^in\s+` and what follows
unfoldable pub relative_ms : List ℕ → Option ℕ
relative_ms (i ∷ n ∷ c ∷ cs) =
    if nat_beq (to_lower i) b'i' && nat_beq (to_lower n) b'n' && is_white c
    then amount_ms (skip_white cs)
    else none
relative_ms _ = none

-- new Date(t), which is not a time past the last date
unfoldable pub date_at : ℕ → Option ℕ
date_at t = if leb t max_date then some t else none

-- The time that a text names: relative to `now`, or a date.
unfoldable pub named_time : Platform → String → ℕ → Option ℕ → Option ℕ
named_time p value now none = p.date_parse value
named_time p value now (some ms) = date_at (now + ms)

unfoldable pub max_schedule_ms : ℕ
max_schedule_ms = 30 * 86400000

unfoldable pub checked_time : Platform → ℕ → Option ℕ → Result String
checked_time p now none = err schedule_not_a_time
checked_time p now (some t) =
    if leb t now
    then err schedule_in_the_past
    else if ltb (now + max_schedule_ms) t
    then err schedule_too_late
    else ok (p.iso_string t)

-- `now` is in milliseconds.
unfoldable pub parse_scheduled_at : Platform → Option String → ℕ → Result (Option String)
parse_scheduled_at p none now = ok none
parse_scheduled_at p (some value) now =
    checked_time p now (named_time p value now (relative_ms (trim (codes value)))) >>= λ at.
    ok (some at)

-- Math.max(0, Math.ceil((t - now) / 1_000)); `none` is NaN.
unfoldable pub seconds_to : Option ℕ → ℕ → Option ℕ
seconds_to none now = none
seconds_to (some t) now = some ((t - now + 999) / 1000)

unfoldable pub seconds_until_given : Platform → Option String → ℕ → Option ℕ
seconds_until_given p none now = some 0
seconds_until_given p (some at) now = seconds_to (p.date_parse at) now

unfoldable pub seconds_until : Platform → Option String → ℕ → Option ℕ
seconds_until p scheduled_at now = seconds_until_given p (truthy scheduled_at) now

-- Math.min(900, seconds)
unfoldable pub at_most_900 : Option ℕ → Option ℕ
at_most_900 none = none
at_most_900 (some n) = some (if ltb n 900 then n else 900)

unfoldable pub delay_seconds_until : Platform → Option String → ℕ → Option ℕ
delay_seconds_until p scheduled_at now = at_most_900 (seconds_until p scheduled_at now)
