-- ===== src/Ledger/Plans/Keeps.antt =====
-- Every plan gives a ledger that passes the check again.
use hayasend.Base.{
  ◌≡◌, refl, sym, ap, ap₂, subst, ◌∙◌, String, Bool, true, List, [], ◌∷◌, map, ok, All, All-map,
  Bool-cases, inl, inr, unique, string_eq, nat_eq,
}
use hayasend.Platform.{Platform}
use hayasend.Model.Records.{
  EmailRecord, DeliveryMessageRecord, RecipientRecord, DeliveryAttemptRecord,
}
use hayasend.Model.Schemas.{attempt_valid}
use hayasend.Ledger.State.{DeliveryLedgerState, DeliveryLedgerPlan, ids, attempt_fits}
use hayasend.Ledger.Invariant.{IsLedger}
use hayasend.Ledger.Plans.{finish_plan}
use hayasend.Ledger.Plans.Laws.{updated, updated_message, finish_plan-eq-ok}

-- What the attempts of a ledger satisfy.
pub record AreAttempts (p : Platform) (m : DeliveryMessageRecord)
    (attempts : List DeliveryAttemptRecord) : Type 0 where
  pub attempts_ok : All (λ a. attempt_valid p a ≡ true) attempts
  pub attempt_ids : unique (map (λ a. a.id) attempts) ≡ true
  pub sequences : unique (map (λ a. a.sequence) attempts) ≡ true
  pub fit : All (λ a. attempt_fits m m.recipient_ids a ≡ true) attempts

pub IsLedger-AreAttempts :
    (p : Platform) (st : DeliveryLedgerState) → IsLedger p st → AreAttempts p st.message st.attempts
IsLedger-AreAttempts p st v = record {
  attempts_ok = v.attempts_ok;
  attempt_ids = v.attempt_ids;
  sequences = v.sequences;
  fit = v.fit;
}

attempt_fits-updated :
    (m : DeliveryMessageRecord) (rs : List RecipientRecord) (timestamp : String)
    (known : List String) (a : DeliveryAttemptRecord)
    → attempt_fits m known a ≡ true
    → attempt_fits (updated_message m rs timestamp) known a ≡ true
unfolding attempt_fits
attempt_fits-updated m rs timestamp known a h = h

module _ (picked : RecipientRecord → Bool) (change : RecipientRecord → RecipientRecord)
    (keeps : (r : RecipientRecord) → (change r).id ≡ r.id)
    (keeps_owner : (r : RecipientRecord) → (change r).message_id ≡ r.message_id) where
  pub ids-updated : (rs : List RecipientRecord) → ids (updated picked change rs) ≡ ids rs
  ids-updated [] = refl
  ids-updated (r ∷ rs) = elim (Bool-cases (picked r)) [
    | inl e ↦ rw e (ap₂ ◌∷◌ (keeps r) (ids-updated rs))
    | inr e ↦ rw e (ap (◌∷◌ r.id) (ids-updated rs))
  ]

  owned-updated :
      (id : String) (rs : List RecipientRecord)
      → All (λ r. r.message_id ≡ id) rs
      → All (λ r. r.message_id ≡ id) (updated picked change rs)
  owned-updated id [] h = tt
  owned-updated id (r ∷ rs) h = elim (Bool-cases (picked r)) [
    | inl e ↦ rw e (keeps_owner r ∙ h.0, owned-updated id rs h.1)
    | inr e ↦ rw e (h.0, owned-updated id rs h.1)
  ]

  module _ (p : Platform) (st : DeliveryLedgerState) (timestamp : String)
      (email_of : EmailRecord → DeliveryMessageRecord → List RecipientRecord → EmailRecord)
      (keeps_email : (e : EmailRecord) (m : DeliveryMessageRecord) (rs : List RecipientRecord)
        → (email_of e m rs).id ≡ e.id) where
    pub finish_plan-IsLedger :
        (attempts : List DeliveryAttemptRecord) {plan : DeliveryLedgerPlan}
        → IsLedger p st
        → AreAttempts p st.message attempts
        → finish_plan p st picked change timestamp email_of attempts ≡ ok plan
        → IsLedger p plan.state
    finish_plan-IsLedger attempts {plan} v good h =
        let rs = updated picked change st.recipients in
        let m = updated_message st.message rs timestamp in
        let (same, valid_m, valid_rs) =
          finish_plan-eq-ok p picked change st timestamp email_of attempts v h in
        subst (λ (x : DeliveryLedgerPlan). IsLedger p x.state) (sym same)
          (record {
            message_ok = valid_m;
            recipients_ok = valid_rs;
            attempts_ok = good.attempts_ok;
            same_id = keeps_email st.email m rs ∙ v.same_id;
            ordered = ids-updated st.recipients ∙ v.ordered;
            owned = owned-updated st.message.id st.recipients v.owned;
            attempt_ids = good.attempt_ids;
            sequences = good.sequences;
            fit =
                All-map
                  (λ a. attempt_fits-updated st.message rs timestamp st.message.recipient_ids a)
                  attempts good.fit;
          })
