-- ===== src/Jobs/Laws.antt =====
-- An envelope that was made is read back, and what is read is a job under its own identifier.
use hayasend.Base.{
  ℕ, ◌<◌, ◌≡◌, refl, sym, ap, ◌∙◌, String, Bool, true, false, not, ◌&&◌, Option, none, some, ok,
  ltb, option_eq, string_eq, beq_refl, beq→eq, and_true, not-false, refuse_if-eq-ok, >>=-eq-ok,
  ok_inj, arith, leb, Bool-cases, inl, inr, err-ne-ok, subst, true-ne-false, not_an_object,
  not_a_job, message_too_long,
}
use hayasend.Platform.{Platform, IsLawful, year_10000, max_date, iso_of}
use hayasend.Json.{
  Json, property, is_object, field_of, text_of, equals_text, is_text, is_optional_text,
  is_object_property,
}
use hayasend.Jobs.{
  Job, JobRuntime, json_of_job, is_job, job_identity, envelope_of, create_job_envelope,
  optional_field, json_of_event, parse_job_envelope, is_envelope, is_short_text, is_time_text,
  is_envelope_job, max_job_id_bytes, max_job_envelope_bytes,
}

json_of_job-is_job : (job : Job) → is_job (json_of_job job) ≡ true
unfolding is_job json_of_job property field_of is_object equals_text is_text is_optional_text
    is_object_property optional_field json_of_event
json_of_job-is_job (Job.send_email email_id none) = refl
json_of_job-is_job (Job.send_email email_id (some job_id)) = refl
json_of_job-is_job (Job.reconcile_outbox none) = refl
json_of_job-is_job (Job.reconcile_outbox (some outbox_id)) = refl
json_of_job-is_job (Job.publish_received_email email_id) = refl
json_of_job-is_job (Job.deliver_webhook webhook_id none event) = refl
json_of_job-is_job (Job.deliver_webhook webhook_id (some delivery_id) event) = refl

iso_of-eq : (p : Platform) (now : ℕ) {at : String} → iso_of p now ≡ ok at → p.iso_string now ≡ at
unfolding iso_of
iso_of-eq p now h = elim (Bool-cases (leb now max_date)) [
  | inl t ↦ ok_inj (rw t at h)
  | inr f ↦ absurd (err-ne-ok (rw f at h))
]

last_true : (a b c d : Bool) → (a && b && c && d) ≡ true → d ≡ true
last_true a b c d h = ground arith

module _ (p : Platform) (rt : JobRuntime) where
  envelope-is_envelope :
      (job : Json) (at : String) (t : ℕ)
      → is_job job ≡ true
      → ltb max_job_id_bytes (rt.utf8_length (job_identity p rt job)) ≡ false
      → p.date_parse at ≡ some t
      → is_envelope p rt (envelope_of p rt job at) ≡ true
  unfolding is_envelope envelope_of is_short_text is_time_text is_envelope_job property field_of
      text_of equals_text
  envelope-is_envelope job at t is short time =
      rw (short, time, is, beq_refl (job_identity p rt job)) refl

  envelope-is_object : (job : Json) (at : String) → is_object (envelope_of p rt job at) ≡ true
  unfolding envelope_of is_object
  envelope-is_object job at = refl

  parse_accepts :
      (e : Json)
      → is_object e ≡ true
      → is_envelope p rt e ≡ true
      → ltb max_job_envelope_bytes (rt.utf8_length (rt.stringify e)) ≡ false
      → parse_job_envelope p rt e ≡ ok e
  unfolding parse_job_envelope
  parse_accepts e object valid small = rw (object, valid, small) refl

  -- An envelope that was made before the year 10000 is read back as it was sent.
  pub parse-create_job_envelope :
      (job : Job) (now : ℕ) (envelope : Json)
      → IsLawful p
      → now < year_10000
      → create_job_envelope p rt job now ≡ ok envelope
      → parse_job_envelope p rt envelope ≡ ok envelope
  unfolding create_job_envelope parse_job_envelope
  parse-create_job_envelope job now envelope lawful early made =
      let (at, iso, rest) = >>=-eq-ok (iso_of p now) _ made in
      let (short, rest') = refuse_if-eq-ok _ _ _ rest in
      let (small, is) = refuse_if-eq-ok _ _ _ rest' in
      let time : p.date_parse at ≡ some now =
        ap p.date_parse (sym (iso_of-eq p now iso)) ∙ lawful.parse-iso_string now early in
      let valid : is_envelope p rt (envelope_of p rt (json_of_job job) at) ≡ true =
        envelope-is_envelope (json_of_job job) at now (json_of_job-is_job job) short time in
      let same : envelope_of p rt (json_of_job job) at ≡ envelope = ok_inj is in
      subst (λ e. parse_job_envelope p rt e ≡ ok e) same
        (parse_accepts _ (envelope-is_object (json_of_job job) at) valid small)

  job_of_envelope :
      (job : Option Json) (id : Option String)
      → is_envelope_job p rt job id ≡ true
      → (j : Json) × (job ≡ some j) × (is_job j ≡ true) × (id ≡ some (job_identity p rt j))
  unfolding is_envelope_job
  job_of_envelope none id h = absurd (true-ne-false (sym h))
  job_of_envelope (some j) id h =
      let (is, same) = and_true _ _ h in (j, refl, is, beq→eq id (some (job_identity p rt j)) same)

  parse_parts :
      (value envelope : Json)
      → parse_job_envelope p rt value ≡ ok envelope
      → (is_envelope p rt value ≡ true)
        × (ltb max_job_envelope_bytes (rt.utf8_length (rt.stringify value)) ≡ false)
        × (value ≡ envelope)
  unfolding parse_job_envelope
  parse_parts value envelope h =
      let (_, rest) = refuse_if-eq-ok (not (is_object value)) not_an_object _ h in
      let (valid, rest') = refuse_if-eq-ok (not (is_envelope p rt value)) not_a_job _ rest in
      let (small, is) =
        refuse_if-eq-ok (ltb max_job_envelope_bytes (rt.utf8_length (rt.stringify value)))
          message_too_long _ rest' in
      (not-false _ valid, small, ok_inj is)

  -- What is read is the value itself, not longer than a message may be; it holds a job, and its
  -- identifier is the deterministic one of this job.
  pub parse_job_envelope_sound :
      (value envelope : Json)
      → parse_job_envelope p rt value ≡ ok envelope
      → (job : Json) × (envelope ≡ value)
        × (property "job" envelope ≡ some job)
        × (is_job job ≡ true)
        × (text_of (property "id" envelope) ≡ some (job_identity p rt job))
        × (ltb max_job_envelope_bytes (rt.utf8_length (rt.stringify envelope)) ≡ false)
  unfolding is_envelope
  parse_job_envelope_sound value envelope h =
      let (valid, small, same) = parse_parts value envelope h in
      let (job, at, is, id) = job_of_envelope _ _ (
        last_true (equals_text (property "schema_version" value) "1.0.0")
          (is_short_text p rt (text_of (property "id" value)))
          (is_time_text p rt (text_of (property "created_at" value))) _ valid) in
      subst
        (λ e.
          (j : Json) × (e ≡ value)
          × (property "job" e ≡ some j)
          × (is_job j ≡ true)
          × (text_of (property "id" e) ≡ some (job_identity p rt j))
          × (ltb max_job_envelope_bytes (rt.utf8_length (rt.stringify e)) ≡ false))
        same (job, refl, at, is, id, small)
