-- ===== src/Ledger/Status/Severity.antt =====
-- Safety outcomes are sticky: a bounce, a complaint or a suppression is never forgotten.
use hayasend.Base.{
  ℕ, ◌≤◌, ◌<◌, ◌≢◌, beq_ne, nat_beq, ◌⊎◌, ◌≡◌, refl, sym, ap, ◌∙◌, true, false, not, ◌&&◌, ◌||◌,
  List, [], ◌∷◌, arith, leb, ◌==◌, beq→eq, includes, and_true, Bool-cases, inl, inr,
}
use hayasend.Model.Status.{RecipientStatus, EventType, recipient_status_eq, event_type_eq}
use hayasend.Ledger.Status.Table.{every, every_sound}
use hayasend.Ledger.Status.Events.{receive}
use hayasend.Ledger.Status.{transition_recipient_status}

-- How bad, or how far along, a status is.
abbrev pub severity : RecipientStatus → ℕ
severity RecipientStatus.queued = 0
severity RecipientStatus.sending = 1
severity RecipientStatus.accepted = 2
severity RecipientStatus.delivery_delayed = 3
severity RecipientStatus.failed = 4
severity RecipientStatus.rejected = 5
severity RecipientStatus.delivered = 6
severity RecipientStatus.opened = 7
severity RecipientStatus.clicked = 8
severity RecipientStatus.bounced = 9
severity RecipientStatus.canceled = 10
severity RecipientStatus.complained = 11
severity RecipientStatus.suppressed = 12

severity_table :
    every (λ s e f.
      leb (severity s) (severity (transition_recipient_status s e))
      && (not (nat_beq (severity s) (severity (transition_recipient_status s e)))
          || s == transition_recipient_status s e))
    ≡ true
unfolding every transition_recipient_status
severity_table = refl

-- An event leaves a status as it is or moves it strictly up, so no status is ever met twice.
pub severity-transition :
    (s : RecipientStatus) (e : EventType)
    → (transition_recipient_status s e ≡ s)
      ⊎ (severity s < severity (transition_recipient_status s e))
severity-transition s e =
    let (up, same) =
      and_true (leb (severity s) (severity (transition_recipient_status s e))) _
        (every_sound _ severity_table s e e) in
    elim (Bool-cases (s == transition_recipient_status s e)) [
      | inl k ↦ inl (sym (beq→eq s (transition_recipient_status s e) k))
      | inr k ↦ inr (ground arith)
    ]

pub severity-receive :
    (s : RecipientStatus) (es : List EventType) → severity s ≤ severity (receive s es)
severity-receive s [] = omega arith
severity-receive s (e ∷ es) = elim (severity-transition s e) [
  | inl k ↦ rw k (severity-receive s es)
  | inr k ↦ omega (arith, severity-receive (transition_recipient_status s e) es)
]

suppressed_table :
    every (λ s e f.
      s == RecipientStatus.suppressed
      || not (transition_recipient_status s e == RecipientStatus.suppressed))
    ≡ true
unfolding every transition_recipient_status
suppressed_table = refl

complained-transition :
    (e : EventType)
    → transition_recipient_status RecipientStatus.complained e ≡ RecipientStatus.complained
unfolding transition_recipient_status
complained-transition EventType.accepted = refl
complained-transition _ = refl

transition-complained :
    (s : RecipientStatus)
    → (s == RecipientStatus.suppressed) ≡ false
    → transition_recipient_status s EventType.complained ≡ RecipientStatus.complained
unfolding transition_recipient_status
transition-complained s h = rw h

receive-complained :
    (es : List EventType) → receive RecipientStatus.complained es ≡ RecipientStatus.complained
receive-complained [] = refl
receive-complained (e ∷ es) =
    ap (λ s. receive s es) (complained-transition e) ∙ receive-complained es

not_suppressed-transition :
    (s : RecipientStatus) (e : EventType)
    → (s == RecipientStatus.suppressed) ≡ false
    → (transition_recipient_status s e == RecipientStatus.suppressed) ≡ false
not_suppressed-transition s e h = ground (arith, every_sound _ suppressed_table s e e)

complaint_prevails :
    (s : RecipientStatus) (es : List EventType)
    → (s == RecipientStatus.suppressed) ≡ false
    → includes es EventType.complained ≡ true
    → receive s es ≡ RecipientStatus.complained
complaint_prevails s [] h k = cc
complaint_prevails s (e ∷ es) h k = elim (Bool-cases (e == EventType.complained)) [
  | inl same ↦
      ap (λ x. receive (transition_recipient_status s x) es) (beq→eq e EventType.complained same)
      ∙ ap (λ x. receive x es) (transition-complained s h)
      ∙ receive-complained es
  | inr other ↦
      complaint_prevails (transition_recipient_status s e) es (not_suppressed-transition s e h)
        (rw other at k)
]

-- A complaint is never lost: a recipient that is not suppressed ends up complained if one of the
-- events is a complaint, whatever its place among them.
pub receive_complaint :
    (s : RecipientStatus) (es : List EventType)
    → s ≢ RecipientStatus.suppressed
    → includes es EventType.complained ≡ true
    → receive s es ≡ RecipientStatus.complained
receive_complaint s es h k = complaint_prevails s es (beq_ne s RecipientStatus.suppressed h) k
