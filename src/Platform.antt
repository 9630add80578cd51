-- ===== src/Platform.antt =====
-- What the source takes from its runtime and from zod, and does not implement: `Date`,
-- `localeCompare`, and the formats `z.iso.datetime({ offset: true })` and `z.email()`. Times are
-- milliseconds since 1970.
use hayasend.Base.{
  ℕ, ◌≡◌, ◌<◌, String, Bool, true, Option, none, some, Result, ok, err, invalid_time, ltb, leb,
  if◌then◌else◌,
}

pub record Platform : Type 0 where
  -- Date.parse; `none` stands for NaN
  pub date_parse : String → Option ℕ
  -- new Date(t).toISOString() of a valid date
  pub iso_string : ℕ → String
  pub is_datetime : String → Bool
  pub is_email : String → Bool
  -- a.localeCompare(b) <= 0, in the locale of the host
  pub locale_le : String → String → Bool

-- The end of the year 9999, past which `toISOString` writes a sign and six digits.
unfoldable pub year_10000 : ℕ
year_10000 = 253402300800000

-- The documented behaviour that some theorems use.
pub record IsLawful (p : Platform) : Type 0 where
  pub parse-iso_string : (t : ℕ) → t < year_10000 → p.date_parse (p.iso_string t) ≡ some t
  pub datetime-iso_string : (t : ℕ) → t < year_10000 → p.is_datetime (p.iso_string t) ≡ true

-- The last instant of a JavaScript date.
unfoldable pub max_date : ℕ
max_date = 8640000000000000

module _ (p : Platform) where
  -- Date.parse(a) < Date.parse(b): false where one is NaN.
  unfoldable pub before : String → String → Bool
  before a b = elim (p.date_parse a) [
    | none ↦ Bool.false
    | some s ↦ elim (p.date_parse b) [ none ↦ Bool.false | some t ↦ ltb s t ]
  ]

  -- new Date(text).toISOString(), which throws a RangeError on an invalid date.
  unfoldable pub to_iso : String → Result String
  to_iso a = elim (p.date_parse a) [ none ↦ err invalid_time | some t ↦ ok (p.iso_string t) ]

  -- new Date(t).toISOString(), which throws a RangeError past the last date.
  unfoldable pub iso_of : ℕ → Result String
  unfolding max_date
  iso_of t = if leb t max_date then ok (p.iso_string t) else err invalid_time

  -- Date.parse(text) <= now: false on NaN.
  unfoldable pub not_after : String → ℕ → Bool
  not_after a now = elim (p.date_parse a) [ none ↦ Bool.false | some t ↦ leb t now ]
