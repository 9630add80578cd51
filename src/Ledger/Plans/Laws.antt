-- ===== src/Ledger/Plans/Laws.antt =====
-- What a finished plan looks like, and that it is a ledger again.
use hayasend.Base.{
  ◌≡◌, sym, ap, ap₂, subst, ◌∙◌, String, Bool, true, List, [], ◌∷◌, map, ok, >>=-eq-ok,
  traverse-cons-eq-ok, All, Bool-cases, inl, inr, if◌then◌else◌, filter_by, string_eq, nat_eq,
  ok_inj,
}
use hayasend.Platform.{Platform}
use hayasend.Model.Status.{RecipientStatus, MessageStatus}
use hayasend.Model.Records.{
  EmailRecord, DeliveryMessageRecord, RecipientRecord, DeliveryAttemptRecord,
}
use hayasend.Model.Schemas.{message_valid, recipient_valid, parse_recipient}
use hayasend.Model.Schemas.Laws.{parse_message-eq-ok, parse_recipient-eq-ok}
use hayasend.Ledger.Status.{aggregate, derive_delivery_message_status}
use hayasend.Ledger.State.{DeliveryLedgerState, DeliveryLedgerPlan, ids, statuses, update_message}
use hayasend.Ledger.Invariant.{IsLedger}
use hayasend.Ledger.Plans.{update_recipients, finish_plan}

-- The recipients of a plan: those that it picks are changed.
abbrev pub updated :
    (RecipientRecord → Bool)
    → (RecipientRecord → RecipientRecord)
    → List RecipientRecord
    → List RecipientRecord
updated picked change = map (λ r. if picked r then change r else r)

abbrev pub updated_message :
    DeliveryMessageRecord → List RecipientRecord → String → DeliveryMessageRecord
updated_message m rs timestamp = record m {
  status = aggregate (statuses rs);
  updated_at = timestamp;
}

derive-eq-ok :
    (xs : List RecipientStatus) {s : MessageStatus}
    → derive_delivery_message_status xs ≡ ok s
    → s ≡ aggregate xs
unfolding derive_delivery_message_status
derive-eq-ok [] h = cc
derive-eq-ok (x ∷ xs) h = sym (ok_inj h)

update_message-eq-ok :
    (p : Platform) (m : DeliveryMessageRecord) (rs : List RecipientRecord) (timestamp : String)
    {m' : DeliveryMessageRecord}
    → update_message p m rs timestamp ≡ ok m'
    → (m' ≡ updated_message m rs timestamp)
      × (message_valid p (updated_message m rs timestamp) ≡ true)
unfolding update_message
update_message-eq-ok p m rs timestamp h =
    let (s, es, h1) = >>=-eq-ok (derive_delivery_message_status (statuses rs)) _ h in
    let (valid, same) = parse_message-eq-ok p _ h1 in
    let e = derive-eq-ok (statuses rs) es in
    (
      sym same ∙ ap (λ x. record m { status = x; updated_at = timestamp }) e,
      subst (λ x. message_valid p (record m { status = x; updated_at = timestamp }) ≡ true) e valid,
    )

module _ (p : Platform) (picked : RecipientRecord → Bool)
    (change : RecipientRecord → RecipientRecord) where
  pick :
      (r : RecipientRecord) {r' : RecipientRecord}
      → recipient_valid p r ≡ true
      → (if picked r then parse_recipient p (change r) else ok r) ≡ ok r'
      → (r' ≡ (if picked r then change r else r)) × (recipient_valid p r' ≡ true)
  pick r v h = elim (Bool-cases (picked r)) [
    | inl yes_picked ↦
        let (w, same) = parse_recipient-eq-ok p (change r) (rw yes_picked at h) in
        (rw yes_picked (sym same), subst (λ x. recipient_valid p x ≡ true) same w)
    | inr not_picked ↦
        let same = ok_inj (rw not_picked at h) in
        (rw not_picked (sym same), subst (λ x. recipient_valid p x ≡ true) same v)
  ]

  update_recipients-eq-ok :
      (rs : List RecipientRecord) {ys : List RecipientRecord}
      → All (λ r. recipient_valid p r ≡ true) rs
      → update_recipients p picked change rs ≡ ok ys
      → (ys ≡ updated picked change rs) × All (λ r. recipient_valid p r ≡ true) ys
  unfolding update_recipients
  update_recipients-eq-ok [] v h =
      (sym (ok_inj h), subst (All (λ r. recipient_valid p r ≡ true)) (ok_inj h) tt)
  update_recipients-eq-ok (r ∷ rs) {ys} v h =
      let (y, zs, e, e', same) = traverse-cons-eq-ok _ r rs h in
      let (here, w) = pick r v.0 e in
      let (rest, ws) = update_recipients-eq-ok rs v.1 e' in
      (same ∙ ap₂ ◌∷◌ here rest, subst (All (λ r. recipient_valid p r ≡ true)) (sym same) (w, ws))

  abbrev plan_of :
      DeliveryLedgerState
      → (EmailRecord → DeliveryMessageRecord → List RecipientRecord → EmailRecord)
      → List DeliveryAttemptRecord
      → DeliveryMessageRecord
      → List RecipientRecord
      → DeliveryLedgerPlan
  plan_of st email_of attempts m rs = record {
    state = record {
      email = email_of st.email m rs;
      message = m;
      recipients = rs;
      attempts = attempts;
    };
    changed_recipient_ids = ids (filter_by picked st.recipients);
  }

  -- The outcome of a plan in full, and the validity of its records.
  pub finish_plan-eq-ok :
      (st : DeliveryLedgerState) (timestamp : String)
      (email_of : EmailRecord → DeliveryMessageRecord → List RecipientRecord → EmailRecord)
      (attempts : List DeliveryAttemptRecord) {plan : DeliveryLedgerPlan}
      → IsLedger p st
      → finish_plan p st picked change timestamp email_of attempts ≡ ok plan
      → let rs = updated picked change st.recipients in
        let m = updated_message st.message rs timestamp in
        (plan ≡ record {
          state = record {
            email = email_of st.email m rs;
            message = m;
            recipients = rs;
            attempts = attempts;
          };
          changed_recipient_ids = ids (filter_by picked st.recipients);
        })
        × (message_valid p m ≡ true)
        × All (λ r. recipient_valid p r ≡ true) rs
  unfolding finish_plan
  finish_plan-eq-ok st timestamp email_of attempts v h =
      let (rs, ers, h1) = >>=-eq-ok (update_recipients p picked change st.recipients) _ h in
      let (m, em, h2) = >>=-eq-ok (update_message p st.message rs timestamp) _ h1 in
      let (same_rs, valid_rs) = update_recipients-eq-ok st.recipients v.recipients_ok ers in
      let (same_m, valid_m) = update_message-eq-ok p st.message rs timestamp em in
      (
        sym (ok_inj h2)
            ∙ ap₂ (plan_of st email_of attempts)
                (same_m ∙ ap (λ x. updated_message st.message x timestamp) same_rs) same_rs,
        subst (λ x. message_valid p (updated_message st.message x timestamp) ≡ true) same_rs
            valid_m,
        subst (All (λ r. recipient_valid p r ≡ true)) same_rs valid_rs,
      )
