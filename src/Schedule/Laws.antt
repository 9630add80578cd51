-- ===== src/Schedule/Laws.antt =====
-- What is accepted lies in the future and within thirty days, and the delays reach it.
use hayasend.Base.{
  ℕ, ◌+◌, ◌-◌, ◌*◌, ◌/◌, ◌<◌, ◌≤◌, ◌≡◌, ◌≢◌, refl, sym, ap, ◌∙◌, String, Option, none, some, ok,
  ltb, if◌then◌else◌, arith, ok_inj, some_inj, err-ne-ok, none-ne-some, >>=-eq-ok,
}
use hayasend.Platform.{Platform, IsLawful, year_10000}
use hayasend.Store.Pages.Laws.{truthy_of_ne}
use hayasend.Schedule.{
  parse_scheduled_at, checked_time, max_schedule_ms, seconds_until, seconds_until_given, seconds_to,
  delay_seconds_until, at_most_900,
}

checked_window :
    (p : Platform) (now : ℕ) (o : Option ℕ) (at : String)
    → checked_time p now o ≡ ok at
    → (t : ℕ) × (now < t) × (t ≤ now + 2592000000) × (at ≡ p.iso_string t) × (o ≡ some t)
unfolding checked_time max_schedule_ms
checked_window p now none at h = absurd (err-ne-ok h)
checked_window p now (some t) at h = (t, ground arith, ground arith, ground arith, refl)

seconds_reach :
    (t now : ℕ)
    → now < t
    → t ≤ now + 2592000000
    → (0 < (t - now + 999) / 1000)
      × ((t - now + 999) / 1000 ≤ 2592000)
      × (t ≤ now + (t - now + 999) / 1000 * 1000)
      × (now + (t - now + 999) / 1000 * 1000 < t + 1000)
seconds_reach t now h k = (omega arith, omega arith, omega arith, omega arith)

-- On a lawful platform and before the year 10000, an accepted schedule names a time after `now` and
-- at most thirty days later; the seconds until then are positive, end at this time or less than a
-- second after it, and the delay of the queue is their minimum with 900.
pub scheduled_within_window :
    (p : Platform) (value : Option String) (now : ℕ) (at : String)
    → IsLawful p
    → now + 2592000000 < year_10000
    → at ≢ ""
    → parse_scheduled_at p value now ≡ ok (some at)
    → (t seconds : ℕ) × (p.date_parse at ≡ some t)
      × (now < t)
      × (t ≤ now + 2592000000)
      × (seconds_until p (some at) now ≡ some seconds)
      × (0 < seconds)
      × (t ≤ now + seconds * 1000)
      × (now + seconds * 1000 < t + 1000)
      × (delay_seconds_until p (some at) now ≡ some (if ltb seconds 900 then seconds else 900))
unfolding parse_scheduled_at seconds_until seconds_until_given seconds_to delay_seconds_until
    at_most_900
scheduled_within_window p none now at lawful early given h = absurd (none-ne-some (ok_inj h))
scheduled_within_window p (some value) now at lawful early given h =
    let (at', made, same) = >>=-eq-ok (checked_time p now _) _ h in
    let (t, later, within, iso, _) = checked_window p now _ at' made in
    let is : at ≡ p.iso_string t = sym (some_inj (ok_inj same)) ∙ iso in
    let time : p.date_parse at ≡ some t =
      ap p.date_parse is ∙ lawful.parse-iso_string t (omega arith) in
    let (positive, bounded, reaches, close) = seconds_reach t now later within in
    (
      t,
      (t - now + 999) / 1000,
      time,
      later,
      within,
      rw (truthy_of_ne at given, time) refl,
      positive,
      reaches,
      close,
      rw (truthy_of_ne at given, time) refl,
    )
