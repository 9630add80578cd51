-- ===== src/Ledger/Life/Exclusive.antt =====
-- The invariant of a ledger's submissions, and what the check and an update do to it.
use hayasend.Base.{
  suc, ◌≤◌, ◌≡◌, refl, sym, ap, subst, Bool, true, false, not, ◌||◌, List, [], ◌∷◌, some, ok, arith,
  inl, inr, length, All, All-map, all, includes, Bool-cases, ◌==◌, string_eq, option_eq, leb,
  leb_iff,
}
use hayasend.Platform.{Platform}
use hayasend.Model.Status.{AttemptStatus, RecipientStatus, attempt_status_eq, recipient_status_eq}
use hayasend.Model.Records.{DeliveryMessageRecord, RecipientRecord, DeliveryAttemptRecord}
use hayasend.Model.Schemas.{message_valid, message_format}
use hayasend.Ledger.State.{DeliveryLedgerState, ids, assert_ledger_state}
use hayasend.Ledger.Order.{in_message_order-All}
use hayasend.Ledger.Invariant.{IsLedger, assert_ledger_state_keeps}
use hayasend.Ledger.Plans.Laws.{updated}
use hayasend.Ledger.Life.Submissions.{live_count}

-- Being sent by an attempt.
abbrev pub SentBy : DeliveryAttemptRecord → RecipientRecord → Type 0
SentBy a r = ((r.status == RecipientStatus.sending) ≡ true) × (r.latest_attempt_id ≡ some a.id)

-- Past submission: neither queued nor being sent.
abbrev pub passed : RecipientRecord → Bool
passed r = not (r.status == RecipientStatus.queued || r.status == RecipientStatus.sending)

pub record IsExclusive (st : DeliveryLedgerState) : Type 0 where
  pub covers : All (λ a. all (includes a.recipient_ids) st.message.recipient_ids ≡ true) st.attempts
  pub one : live_count st.attempts ≤ 1
  pub submitting :
      All
        (λ a. (a.status == AttemptStatus.submitting) ≡ true → All (SentBy a) st.recipients)
        st.attempts
  pub accepted :
      All
        (λ a.
          (a.status == AttemptStatus.accepted) ≡ true → All (λ r. passed r ≡ true) st.recipients)
        st.attempts

pub reordered-IsExclusive :
    (st : DeliveryLedgerState) (recipients : List RecipientRecord)
    → ((P : RecipientRecord → Type 0) → All P st.recipients → All P recipients)
    → IsExclusive st
    → IsExclusive (record st { recipients = recipients })
reordered-IsExclusive st recipients keep x = record {
  covers = x.covers;
  one = x.one;
  submitting = All-map (λ a f e. keep (SentBy a) (f e)) st.attempts x.submitting;
  accepted = All-map (λ a f e. keep (λ r. passed r ≡ true) (f e)) st.attempts x.accepted;
}

pub checked-IsExclusive :
    (p : Platform) (st : DeliveryLedgerState) {st' : DeliveryLedgerState}
    → assert_ledger_state p st ≡ ok st'
    → IsExclusive st
    → IsExclusive st'
checked-IsExclusive p st h x = subst IsExclusive (sym (assert_ledger_state_keeps p st h)) (
    reordered-IsExclusive st _ (λ P. in_message_order-All P st.message.recipient_ids st.recipients)
      x)

-- A fact about each changed recipient, from facts about the recipients before.
pub updated-All :
    (picked : RecipientRecord → Bool) (change : RecipientRecord → RecipientRecord)
    {P Q : RecipientRecord → Type 0}
    → ((r : RecipientRecord) → P r → picked r ≡ true → Q (change r))
    → ((r : RecipientRecord) → P r → picked r ≡ false → Q r)
    → (rs : List RecipientRecord) → All P rs
    → All Q (updated picked change rs)
updated-All picked change f g [] h = tt
updated-All picked change f g (r ∷ rs) h = elim (Bool-cases (picked r)) [
  | inl e ↦ rw e (f r h.0 e, updated-All picked change f g rs h.1)
  | inr e ↦ rw e (g r h.0 e, updated-All picked change f g rs h.1)
]

-- Two predicates that exclude each other do not both hold of all of some recipients.
pub All-clash :
    {P Q : RecipientRecord → Type 0} (rs : List RecipientRecord)
    → 1 ≤ length rs
    → ((r : RecipientRecord) → P r → Q r → ⊥)
    → All P rs
    → All Q rs
    → ⊥
All-clash [] n f h k = absurd (omega arith)
All-clash (r ∷ rs) n f h k = f r h.0 k.0

module _ (p : Platform) where
  has_recipients :
      (m : DeliveryMessageRecord) → message_valid p m ≡ true → leb 1 (length m.recipient_ids) ≡ true
  unfolding message_valid message_format
  has_recipients m h = ground arith

  length-ids : (rs : List RecipientRecord) → length (ids rs) ≡ length rs
  length-ids [] = refl
  length-ids (r ∷ rs) = ap suc (length-ids rs)

  pub ledger_has_recipients : (st : DeliveryLedgerState) → IsLedger p st → 1 ≤ length st.recipients
  ledger_has_recipients st v = omega (
    arith,
    length-ids st.recipients,
    ap length v.ordered,
    (leb_iff 1 (length st.message.recipient_ids)).0 (has_recipients st.message v.message_ok),
  )
