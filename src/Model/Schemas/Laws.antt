-- ===== src/Model/Schemas/Laws.antt =====
-- A record that parses is the record that was given, and it is valid; a valid record parses.
use hayasend.Base.{◌≡◌, refl, Bool, true, false, ok, err, schema_error, if◌then◌else◌}
use hayasend.Platform.{Platform}
use hayasend.Model.Records.{
  DeliveryMessageRecord, RecipientRecord, DeliveryAttemptRecord, ProviderEventRecord,
  OutboxItemRecord,
}
use hayasend.Model.Schemas.{
  message_valid, parse_message, recipient_valid, parse_recipient, attempt_valid, parse_attempt,
  event_valid, parse_event, outbox_valid, parse_outbox,
}

module _ {ℓ} {A : Type ℓ} where
  checked :
      (b : Bool) (a : A) {a' : A}
      → (if b then ok a else err schema_error) ≡ ok a'
      → (b ≡ true) × (a ≡ a')
  checked true a h = (refl, cc)
  checked false a h = (cc, cc)

module _ (p : Platform) where
  pub parse_message-eq-ok :
      (m : DeliveryMessageRecord) {m' : DeliveryMessageRecord}
      → parse_message p m ≡ ok m'
      → (message_valid p m ≡ true) × (m ≡ m')
  unfolding parse_message
  parse_message-eq-ok m h = checked (message_valid p m) m h

  pub parse_message_of_valid :
      (m : DeliveryMessageRecord) → message_valid p m ≡ true → parse_message p m ≡ ok m
  unfolding parse_message
  parse_message_of_valid m h = rw h

  pub parse_recipient-eq-ok :
      (r : RecipientRecord) {r' : RecipientRecord}
      → parse_recipient p r ≡ ok r'
      → (recipient_valid p r ≡ true) × (r ≡ r')
  unfolding parse_recipient
  parse_recipient-eq-ok r h = checked (recipient_valid p r) r h

  pub parse_recipient_of_valid :
      (r : RecipientRecord) → recipient_valid p r ≡ true → parse_recipient p r ≡ ok r
  unfolding parse_recipient
  parse_recipient_of_valid r h = rw h

  pub parse_attempt-eq-ok :
      (a : DeliveryAttemptRecord) {a' : DeliveryAttemptRecord}
      → parse_attempt p a ≡ ok a'
      → (attempt_valid p a ≡ true) × (a ≡ a')
  unfolding parse_attempt
  parse_attempt-eq-ok a h = checked (attempt_valid p a) a h

  pub parse_attempt_of_valid :
      (a : DeliveryAttemptRecord) → attempt_valid p a ≡ true → parse_attempt p a ≡ ok a
  unfolding parse_attempt
  parse_attempt_of_valid a h = rw h

  pub parse_event-eq-ok :
      (e : ProviderEventRecord) {e' : ProviderEventRecord}
      → parse_event p e ≡ ok e'
      → (event_valid p e ≡ true) × (e ≡ e')
  unfolding parse_event
  parse_event-eq-ok e h = checked (event_valid p e) e h

  pub parse_outbox-eq-ok :
      (o : OutboxItemRecord) {o' : OutboxItemRecord}
      → parse_outbox p o ≡ ok o'
      → (outbox_valid p o ≡ true) × (o ≡ o')
  unfolding parse_outbox
  parse_outbox-eq-ok o h = checked (outbox_valid p o) o h

  pub parse_outbox_of_valid :
      (o : OutboxItemRecord) → outbox_valid p o ≡ true → parse_outbox p o ≡ ok o
  unfolding parse_outbox
  parse_outbox_of_valid o h = rw h

  pub parse_event_of_valid :
      (e : ProviderEventRecord) → event_valid p e ≡ true → parse_event p e ≡ ok e
  unfolding parse_event
  parse_event_of_valid e h = rw h
