-- ===== src/Ledger/Invariant.antt =====
-- What `assertLedgerState` establishes: the records are valid and belong to one message. A ledger
-- that has this form passes the check unchanged.
use hayasend.Base.{
  suc, ◌≤◌, ◌≡◌, refl, sym, ap, subst, ◌∙◌, String, true, not, List, [], ◌∷◌, map, ok, arith,
  traverse, traverse-All, traverse_of_All, traverse_same, >>=-eq-ok, refuse_if-eq-ok, ◌==◌, length,
  all, All, All-of_all, all_of_All, includes, unique, and_true, and_intro, not-false, beq→eq,
  all-includes_self, all-includes-pigeonhole, ok_inj, string_eq, nat_eq, ledger_mismatch,
}
use hayasend.Platform.{Platform}
use hayasend.Model.Records.{
  EmailRecord, provider_reference_eq, DeliveryMessageRecord, RecipientRecord, DeliveryAttemptRecord,
}
use hayasend.Model.Schemas.{
  message_format, updated_at_valid, message_valid, recipient_valid, attempt_valid, parse_message,
  parse_recipient, parse_attempt,
}
use hayasend.Model.Schemas.Laws.{
  parse_message-eq-ok, parse_message_of_valid, parse_recipient-eq-ok, parse_recipient_of_valid,
  parse_attempt-eq-ok, parse_attempt_of_valid,
}
use hayasend.Ledger.State.{
  DeliveryLedgerState, ids, attempt_fits, belongs_together, in_message_order, assert_ledger_state,
}
use hayasend.Ledger.Order.{ids-in_message_order, in_message_order-All, in_message_order_self}

pub record IsLedger (p : Platform) (st : DeliveryLedgerState) : Type 0 where
  pub message_ok : message_valid p st.message ≡ true
  pub recipients_ok : All (λ r. recipient_valid p r ≡ true) st.recipients
  pub attempts_ok : All (λ a. attempt_valid p a ≡ true) st.attempts
  pub same_id : st.email.id ≡ st.message.id
  pub ordered : ids st.recipients ≡ st.message.recipient_ids
  pub owned : All (λ r. r.message_id ≡ st.message.id) st.recipients
  pub attempt_ids : unique (map (λ a. a.id) st.attempts) ≡ true
  pub sequences : unique (map (λ a. a.sequence) st.attempts) ≡ true
  pub fit : All (λ a. attempt_fits st.message st.message.recipient_ids a ≡ true) st.attempts

length-ids : (rs : List RecipientRecord) → length (ids rs) ≡ length rs
length-ids [] = refl
length-ids (r ∷ rs) = ap suc (length-ids rs)

-- An attempt fits a message by either list of known identifiers.
attempt_fits_known :
    (m : DeliveryMessageRecord) (known : List String) (a : DeliveryAttemptRecord)
    → unique m.recipient_ids ≡ true
    → all (includes known) m.recipient_ids ≡ true
    → length known ≤ length m.recipient_ids
    → attempt_fits m known a ≡ true
    → attempt_fits m m.recipient_ids a ≡ true
unfolding attempt_fits
attempt_fits_known m known a u h n k =
    let (id, rest) = and_true (a.message_id == m.id) _ k in
    let (provider, covered) = and_true (a.provider == m.provider) _ rest in
    and_intro id (
      and_intro provider
        (all-includes-pigeonhole m.recipient_ids known a.recipient_ids u h n covered))

-- The parts of the check's condition.
belongs_together_parts :
    (email : EmailRecord) (m : DeliveryMessageRecord) (rs : List RecipientRecord)
    (attempts : List DeliveryAttemptRecord)
    → belongs_together email m rs attempts ≡ true
    → ((email.id == m.id) ≡ true)
      × ((length rs == length m.recipient_ids) ≡ true)
      × (all (includes (ids rs)) m.recipient_ids ≡ true)
      × (all (λ r. r.message_id == m.id) rs ≡ true)
      × (unique (map (λ a. a.id) attempts) ≡ true)
      × (unique (map (λ a. a.sequence) attempts) ≡ true)
      × (all (attempt_fits m (ids rs)) attempts ≡ true)
unfolding belongs_together
belongs_together_parts email m rs attempts h = ground arith

module _ (p : Platform) where
  pub message_valid-unique :
      (m : DeliveryMessageRecord) → message_valid p m ≡ true → unique m.recipient_ids ≡ true
  unfolding message_valid
  message_valid-unique m h =
      (and_true (message_format p m) _
        (and_true _ (updated_at_valid p m.created_at m.updated_at) h).0).1

  -- From records that belong together to a ledger in the message's order.
  together-IsLedger :
      (email : EmailRecord) (m : DeliveryMessageRecord) (rs : List RecipientRecord)
      (attempts : List DeliveryAttemptRecord)
      → message_valid p m ≡ true
      → All (λ r. recipient_valid p r ≡ true) rs
      → All (λ a. attempt_valid p a ≡ true) attempts
      → belongs_together email m rs attempts ≡ true
      → IsLedger p (record {
        email = email;
        message = m;
        recipients = in_message_order m.recipient_ids rs;
        attempts = attempts;
      })
  together-IsLedger email m rs attempts vm vr va h =
      let (id, count, known, owned, ua, us, fit) = belongs_together_parts email m rs attempts h in
      record {
        message_ok = vm;
        recipients_ok = in_message_order-All _ m.recipient_ids rs vr;
        attempts_ok = va;
        same_id = beq→eq email.id m.id id;
        ordered = ids-in_message_order m.recipient_ids rs known;
        owned =
            in_message_order-All _ m.recipient_ids rs
              (All-of_all _ (λ r. r.message_id == m.id) (λ r. beq→eq r.message_id m.id) rs owned);
        attempt_ids = ua;
        sequences = us;
        fit =
            All-of_all _ (attempt_fits m (ids rs))
              (λ a.
                attempt_fits_known m (ids rs) a (message_valid-unique m vm) known
                  (omega (arith, length-ids rs, beq→eq (length rs) (length m.recipient_ids) count)))
              attempts fit;
      }

  -- What the check returns is a ledger.
  pub assert_ledger_state_sound :
      (st : DeliveryLedgerState) {st' : DeliveryLedgerState}
      → assert_ledger_state p st ≡ ok st'
      → IsLedger p st'
  unfolding assert_ledger_state
  assert_ledger_state_sound st h =
      let (m, em, h1) = >>=-eq-ok (parse_message p st.message) _ h in
      let (rs, ers, h2) = >>=-eq-ok (traverse (parse_recipient p) st.recipients) _ h1 in
      let (attempts, eas, h3) = >>=-eq-ok (traverse (parse_attempt p) st.attempts) _ h2 in
      let (nb, h4) =
        refuse_if-eq-ok (not (belongs_together st.email m rs attempts)) ledger_mismatch _ h3 in
      let (vm, same) = parse_message-eq-ok p st.message em in
      subst (IsLedger p) (ok_inj h4) (
        together-IsLedger st.email m rs attempts (subst (λ x. message_valid p x ≡ true) same vm)
          (traverse-All (parse_recipient p) (λ r. recipient_valid p r ≡ true)
            (λ r r' e.
              let (v, k) = parse_recipient-eq-ok p r e in
              subst (λ x. recipient_valid p x ≡ true) k v)
            st.recipients rs ers)
          (traverse-All (parse_attempt p) (λ a. attempt_valid p a ≡ true)
            (λ a a' e.
              let (v, k) = parse_attempt-eq-ok p a e in subst (λ x. attempt_valid p x ≡ true) k v)
            st.attempts attempts eas)
          (not-false _ nb))

  IsLedger-together :
      (st : DeliveryLedgerState)
      → IsLedger p st
      → belongs_together st.email st.message st.recipients st.attempts ≡ true
  unfolding belongs_together
  IsLedger-together st v = ground (
    arith,
    (string_eq.beq_iff st.email.id st.message.id).1 v.same_id,
    length-ids st.recipients,
    ap length v.ordered,
    known,
    all_of_All (λ r. r.message_id ≡ st.message.id) (λ r. r.message_id == st.message.id)
        (λ r e. (string_eq.beq_iff r.message_id st.message.id).1 e) st.recipients v.owned,
    v.attempt_ids,
    v.sequences,
    fit,
  )
    where
      known : all (includes (ids st.recipients)) st.message.recipient_ids ≡ true
      known = rw v.ordered (all-includes_self st.message.recipient_ids)

      fit : all (attempt_fits st.message (ids st.recipients)) st.attempts ≡ true
      fit = rw v.ordered (
          all_of_All _ (attempt_fits st.message st.message.recipient_ids) (λ a e. e) st.attempts
            v.fit)

  -- A ledger passes the check unchanged.
  pub assert_ledger_state_complete :
      (st : DeliveryLedgerState) → IsLedger p st → assert_ledger_state p st ≡ ok st
  unfolding assert_ledger_state
  assert_ledger_state_complete st v =
      rw
        (
          parse_message_of_valid p st.message v.message_ok,
          traverse_of_All (parse_recipient p) _ (parse_recipient_of_valid p) st.recipients
              v.recipients_ok,
          traverse_of_All (parse_attempt p) _ (parse_attempt_of_valid p) st.attempts v.attempts_ok,
          IsLedger-together st v,
        )
        (ap (λ rs. ok (record st { recipients = rs })) in_place)
    where
      in_place : in_message_order st.message.recipient_ids st.recipients ≡ st.recipients
      in_place = rw (← v.ordered) (
          in_message_order_self st.recipients
            (rw v.ordered (message_valid-unique st.message v.message_ok)))

  -- The check changes neither the message nor the attempts, and only reorders the recipients.
  pub assert_ledger_state_keeps :
      (st : DeliveryLedgerState) {st' : DeliveryLedgerState}
      → assert_ledger_state p st ≡ ok st'
      → (st' ≡ record st { recipients = in_message_order st.message.recipient_ids st.recipients })
  unfolding assert_ledger_state
  assert_ledger_state_keeps st h =
      let (m, em, h1) = >>=-eq-ok (parse_message p st.message) _ h in
      let (rs, ers, h2) = >>=-eq-ok (traverse (parse_recipient p) st.recipients) _ h1 in
      let (attempts, eas, h3) = >>=-eq-ok (traverse (parse_attempt p) st.attempts) _ h2 in
      let (_, h4) =
        refuse_if-eq-ok (not (belongs_together st.email m rs attempts)) ledger_mismatch _ h3 in
      let same_m = (parse_message-eq-ok p st.message em).1 in
      let same_rs =
        traverse_same (parse_recipient p) (λ r r' e. (parse_recipient-eq-ok p r e).1) st.recipients
          rs ers in
      let same_as =
        traverse_same (parse_attempt p) (λ a a' e. (parse_attempt-eq-ok p a e).1) st.attempts
          attempts eas in
      sym (ok_inj h4) ∙ λ i. record {
        email = st.email;
        message = sym same_m i;
        recipients = in_message_order (sym same_m i).recipient_ids (sym same_rs i);
        attempts = sym same_as i;
      }
