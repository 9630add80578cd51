-- ===== src/Commit/Laws.antt =====
-- What a validated commit satisfies, and that this is all that validation asks for.
use hayasend.Base.{
  ℕ, ◌≡◌, refl, sym, subst, ◌∙◌, true, not, ok, >>=-eq-ok, refuse_if-eq-ok, ok_inj, traverse,
  traverse-All, traverse_of_All, traverse_same, All, not-false, not_dispatchable, message_mismatch,
  claim_mismatch, recipients_mismatch, recipients_repeated, outbox_mismatch,
}
use hayasend.Platform.{Platform}
use hayasend.Model.Schemas.{
  message_valid, parse_message, recipient_valid, parse_recipient, outbox_valid, parse_outbox,
}
use hayasend.Model.Schemas.Laws.{
  parse_message-eq-ok, parse_message_of_valid, parse_recipient-eq-ok, parse_recipient_of_valid,
  parse_outbox-eq-ok, parse_outbox_of_valid,
}
use hayasend.Commit.{
  DeliveryCommit, dispatchable, email_matches, claim_matches, recipients_match, recipients_distinct,
  outbox_matches, validate_delivery_commit,
}

-- The records of a commit are valid and agree with each other.
pub record IsCommit (p : Platform) (v : DeliveryCommit) : Type 0 where
  pub message_ok : message_valid p v.message ≡ true
  pub recipients_ok : All (λ r. recipient_valid p r ≡ true) v.recipients
  pub outbox_ok : outbox_valid p v.outbox ≡ true
  pub status : dispatchable v.email.status ≡ true
  pub email : email_matches v.email v.message ≡ true
  pub recipients : recipients_match v.email v.message v.recipients ≡ true
  pub distinct : recipients_distinct v.recipients ≡ true
  pub outbox : outbox_matches v.email v.message v.outbox ≡ true

module _ (p : Platform) (v : DeliveryCommit) (now : ℕ) where
  -- A commit passes validation unchanged, and only with a claim that has not expired.
  pub validate_delivery_commit-eq-ok :
      {v' : DeliveryCommit}
      → validate_delivery_commit p v now ≡ ok v'
      → (v ≡ v') × (IsCommit p v × (claim_matches v.email now v.idempotency ≡ true))
  unfolding validate_delivery_commit
  validate_delivery_commit-eq-ok h =
      let (m, e1, h1) = >>=-eq-ok (parse_message p v.message) _ h in
      let (rs, e2, h2) = >>=-eq-ok (traverse (parse_recipient p) v.recipients) _ h1 in
      let (o, e3, h3) = >>=-eq-ok (parse_outbox p v.outbox) _ h2 in
      let (m_ok, m_is) = parse_message-eq-ok p v.message e1 in
      let (o_ok, o_is) = parse_outbox-eq-ok p v.outbox e3 in
      let rs_is =
        traverse_same (parse_recipient p) (λ r r' e. (parse_recipient-eq-ok p r e).1) v.recipients
          rs e2 in
      let (g1, k1) = refuse_if-eq-ok (not (dispatchable v.email.status)) not_dispatchable _ h3 in
      let (g2, k2) = refuse_if-eq-ok (not (email_matches v.email m)) message_mismatch _ k1 in
      let (g3, k3) =
        refuse_if-eq-ok (not (claim_matches v.email now v.idempotency)) claim_mismatch _ k2 in
      let (g4, k4) =
        refuse_if-eq-ok (not (recipients_match v.email m rs)) recipients_mismatch _ k3 in
      let (g5, k5) = refuse_if-eq-ok (not (recipients_distinct rs)) recipients_repeated _ k4 in
      let (g6, k6) = refuse_if-eq-ok (not (outbox_matches v.email m o)) outbox_mismatch _ k5 in
      (
        (λ i. record {
          email = v.email;
          message = m_is i;
          recipients = rs_is i;
          outbox = o_is i;
          idempotency = v.idempotency;
        })
            ∙ ok_inj k6,
        (
          record {
            message_ok = m_ok;
            recipients_ok = subst (All (λ r. recipient_valid p r ≡ true)) (sym rs_is) (
                traverse-All (parse_recipient p) (λ r. recipient_valid p r ≡ true)
                  (λ r r' e.
                    let (valid, same) = parse_recipient-eq-ok p r e in
                    subst (λ x. recipient_valid p x ≡ true) same valid)
                  v.recipients rs e2);
            outbox_ok = o_ok;
            status = not-false _ g1;
            email = subst (λ m. email_matches v.email m ≡ true) (sym m_is) (not-false _ g2);
            recipients =
                subst (λ rs. recipients_match v.email v.message rs ≡ true) (sym rs_is)
                  (subst (λ m. recipients_match v.email m rs ≡ true) (sym m_is) (not-false _ g4));
            distinct = subst (λ rs. recipients_distinct rs ≡ true) (sym rs_is) (not-false _ g5);
            outbox =
                subst (λ o. outbox_matches v.email v.message o ≡ true) (sym o_is)
                  (subst (λ m. outbox_matches v.email m o ≡ true) (sym m_is) (not-false _ g6));
          },
          not-false _ g3,
        ),
      )

  pub validate_delivery_commit_of_IsCommit :
      IsCommit p v
      → claim_matches v.email now v.idempotency ≡ true
      → validate_delivery_commit p v now ≡ ok v
  unfolding validate_delivery_commit
  validate_delivery_commit_of_IsCommit c h =
      rw
        (
          parse_message_of_valid p v.message c.message_ok,
          traverse_of_All (parse_recipient p) (λ r. recipient_valid p r ≡ true)
              (parse_recipient_of_valid p) v.recipients c.recipients_ok,
          parse_outbox_of_valid p v.outbox c.outbox_ok,
          c.status,
          c.email,
          h,
          c.recipients,
          c.distinct,
          c.outbox,
        )
        refl
