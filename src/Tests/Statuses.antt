-- ===== src/Tests/Statuses.antt =====
-- Events on one recipient, and the statuses that follow from several.
use mathlib.Core.List.{Perm, Permᴰ}
use hayasend.Base.{
  ◌<◌, ◌≡◌, ◌≢◌, ◌⊎◌, ◌↔◌, refl, true, false, List, [], ◌∷◌, ◌++◌, any, all, includes, length, ok,
}
use hayasend.Model.Status.{
  RecipientStatus, MessageStatus, EventType, recipient_status_eq, event_type_eq,
}
use hayasend.Ledger.Status.{
  transition_recipient_status, aggregate, derive_delivery_message_status,
  derive_public_email_status, delivery_positive,
}
use hayasend.Ledger.Status.Events.{receive, receive-perm, receive-replay, transition_comm}
use hayasend.Ledger.Status.Severity.{severity, severity-transition, receive_complaint}
use hayasend.Ledger.Status.Aggregates.{
  refused, public_delivery_honest, delivered_iff, derived_statuses-perm,
}

abbrev swapped {ℓ} : {A : Type ℓ} (a b : A) → Perm (a ∷ b ∷ []) (b ∷ a ∷ [])
swapped a b = ∣ Permᴰ.swap refl refl ∣₁

receive-perm_example :
    receive RecipientStatus.accepted (EventType.opened ∷ EventType.delivered ∷ [])
    ≡ receive RecipientStatus.accepted (EventType.delivered ∷ EventType.opened ∷ [])
receive-perm_example =
    receive-perm RecipientStatus.accepted (EventType.opened ∷ EventType.delivered ∷ [])
      (EventType.delivered ∷ EventType.opened ∷ []) (swapped EventType.opened EventType.delivered)
      refl

receive-replay_example :
    receive RecipientStatus.accepted
      ((EventType.delivered ∷ EventType.bounced ∷ []) ++ EventType.delivered ∷ [])
    ≡ receive RecipientStatus.accepted (EventType.delivered ∷ EventType.bounced ∷ [])
receive-replay_example =
    receive-replay RecipientStatus.accepted EventType.delivered (EventType.bounced ∷ [])

transition_comm_example :
    transition_recipient_status
      (transition_recipient_status RecipientStatus.accepted EventType.complained)
      EventType.bounced
    ≡ transition_recipient_status
        (transition_recipient_status RecipientStatus.accepted EventType.bounced)
        EventType.complained
transition_comm_example =
    transition_comm RecipientStatus.accepted EventType.complained EventType.bounced refl

severity-transition_example :
    (transition_recipient_status RecipientStatus.delivered EventType.bounced
      ≡ RecipientStatus.delivered)
    ⊎ (severity RecipientStatus.delivered
        < severity (transition_recipient_status RecipientStatus.delivered EventType.bounced))
severity-transition_example = severity-transition RecipientStatus.delivered EventType.bounced

sending-ne-suppressed : RecipientStatus.sending ≢ RecipientStatus.suppressed
sending-ne-suppressed h = cc

receive_complaint_example :
    receive RecipientStatus.sending
      (EventType.delivered ∷ EventType.complained ∷ EventType.bounced ∷ [])
    ≡ RecipientStatus.complained
receive_complaint_example =
    receive_complaint RecipientStatus.sending
      (EventType.delivered ∷ EventType.complained ∷ EventType.bounced ∷ []) sending-ne-suppressed
      refl

abbrev two_reached : List RecipientStatus
two_reached = RecipientStatus.opened ∷ RecipientStatus.delivered ∷ []

public_delivery_honest_example :
    (any (includes delivery_positive) two_reached ≡ true) × (any refused two_reached ≡ false)
unfolding aggregate derive_public_email_status
public_delivery_honest_example = public_delivery_honest two_reached refl

delivered_iff_example :
    (derive_delivery_message_status two_reached ≡ ok MessageStatus.delivered)
    ↔ ((0 < length two_reached) × (all (includes delivery_positive) two_reached ≡ true))
delivered_iff_example = delivered_iff two_reached

derived_statuses-perm_example :
    (aggregate two_reached ≡ aggregate (RecipientStatus.delivered ∷ RecipientStatus.opened ∷ []))
    × (derive_public_email_status (aggregate two_reached) two_reached
        ≡ derive_public_email_status
            (aggregate (RecipientStatus.delivered ∷ RecipientStatus.opened ∷ []))
            (RecipientStatus.delivered ∷ RecipientStatus.opened ∷ []))
derived_statuses-perm_example =
    derived_statuses-perm two_reached (RecipientStatus.delivered ∷ RecipientStatus.opened ∷ [])
      (swapped RecipientStatus.opened RecipientStatus.delivered)
