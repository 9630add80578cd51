-- ===== src/Tests/Jobs.antt =====
-- Envelopes and schedules at small inputs.
use hayasend.Base.{ℕ, ◌+◌, ◌*◌, ◌≤◌, ◌<◌, ◌≡◌, refl, some, ok, arith, ltb, if◌then◌else◌}
use text.Mathlib.TextEquality.{eq_iff}
use hayasend.Platform.{iso_of, max_date, year_10000}
use hayasend.Jobs.{
  Job, JobRuntime, create_job_envelope, parse_job_envelope, envelope_of, json_of_job,
  max_job_id_bytes, max_job_envelope_bytes,
}
use hayasend.Jobs.Laws.{parse-create_job_envelope}
use hayasend.Model.Formats.{codes}
use hayasend.Text.{is_white, skip_white, all_white, trim_end, trim}
use hayasend.Schedule.{
  parse_scheduled_at, checked_time, named_time, relative_ms, amount_ms, with_unit, unit_ms,
  digits_from, lower_all, to_lower, is_digit, max_schedule_ms, seconds_until, delay_seconds_until,
}
use hayasend.Schedule.Laws.{scheduled_within_window}
use hayasend.Tests.Samples.{test_platform, test_platform-IsLawful}

abbrev test_runtime : JobRuntime
test_runtime = record {
  request_hash = λ job. "hash";
  stringify = λ value. "{}";
  utf8_length = λ s. 2;
}

abbrev test_job : Job
test_job = Job.send_email "email_1" (some "outbox_1")

parse-create_job_envelope_example :
    parse_job_envelope test_platform test_runtime
      (envelope_of test_platform test_runtime (json_of_job test_job) "III")
    ≡ ok (envelope_of test_platform test_runtime (json_of_job test_job) "III")
unfolding create_job_envelope iso_of max_date max_job_id_bytes max_job_envelope_bytes year_10000
parse-create_job_envelope_example =
    parse-create_job_envelope test_platform test_runtime test_job 3
      (envelope_of test_platform test_runtime (json_of_job test_job) "III") test_platform-IsLawful
      (omega arith) refl

-- `in 2 minutes` is read as 120,000 milliseconds.
two_minutes : relative_ms (trim (codes " In 2 minutes ")) ≡ some 120000
unfolding relative_ms trim trim_end skip_white all_white is_white amount_ms with_unit unit_ms
    digits_from lower_all to_lower is_digit
two_minutes = refl

scheduled_within_window_example :
    (t seconds : ℕ) × (test_platform.date_parse "IIII" ≡ some t)
    × (2 < t)
    × (t ≤ 2 + 2592000000)
    × (seconds_until test_platform (some "IIII") 2 ≡ some seconds)
    × (0 < seconds)
    × (t ≤ 2 + seconds * 1000)
    × (2 + seconds * 1000 < t + 1000)
    × (delay_seconds_until test_platform (some "IIII") 2
        ≡ some (if ltb seconds 900 then seconds else 900))
unfolding parse_scheduled_at checked_time named_time relative_ms trim trim_end skip_white all_white
    is_white max_schedule_ms year_10000 to_lower
scheduled_within_window_example =
    scheduled_within_window test_platform (some "IIII") 2 "IIII" test_platform-IsLawful
      (omega arith) (λ e. ground (arith, eq_iff "IIII" "")) refl
