-- ===== src/Ledger/Status.antt =====
-- core/recipient-ledger.ts: what a provider event makes of a recipient's status, and the status
-- that a message and its public email take from their recipients.
pub mod Table
pub mod Events
pub mod Severity
pub mod Aggregates
use hayasend.Base.{
  ℕ, String, Bool, true, false, ◌&&◌, ◌||◌, List, [], ◌∷◌, map, Option, none, some, Result, ok, err,
  no_recipients, ltb, nat_beq, if◌then◌else◌, ◌==◌, length, any, all, includes, filter_by,
}
use hayasend.Model.Status.{
  RecipientStatus, MessageStatus, EventType, EmailStatus, recipient_status_eq, event_type_eq,
  message_status_eq,
}

-- DELIVERY_POSITIVE
abbrev pub delivery_positive : List RecipientStatus
delivery_positive =
    RecipientStatus.delivered ∷ RecipientStatus.opened ∷ RecipientStatus.clicked ∷ []

-- DELIVERY_NEGATIVE
abbrev pub delivery_negative : List RecipientStatus
delivery_negative = RecipientStatus.bounced ∷ RecipientStatus.rejected ∷ RecipientStatus.failed ∷ []

-- ENGAGEMENT_RANK: a partial map.
unfoldable pub engagement_rank : RecipientStatus → Option ℕ
engagement_rank RecipientStatus.queued = some 0
engagement_rank RecipientStatus.sending = some 1
engagement_rank RecipientStatus.accepted = some 2
engagement_rank RecipientStatus.delivery_delayed = some 3
engagement_rank RecipientStatus.delivered = some 4
engagement_rank RecipientStatus.opened = some 5
engagement_rank RecipientStatus.clicked = some 6
engagement_rank _ = none

-- EVENT_TARGET
unfoldable pub event_target : EventType → RecipientStatus
event_target EventType.accepted = RecipientStatus.accepted
event_target EventType.delivered = RecipientStatus.delivered
event_target EventType.delayed = RecipientStatus.delivery_delayed
event_target EventType.bounced = RecipientStatus.bounced
event_target EventType.complained = RecipientStatus.complained
event_target EventType.rejected = RecipientStatus.rejected
event_target EventType.opened = RecipientStatus.opened
event_target EventType.clicked = RecipientStatus.clicked
event_target EventType.failed = RecipientStatus.failed

-- The higher of two ranks; a status without a rank stays.
advance : RecipientStatus → RecipientStatus → Option ℕ → Option ℕ → RecipientStatus
advance current target (some r) (some t) = if ltb r t then target else current
advance current target _ _ = current

unfoldable pub transition_recipient_status : RecipientStatus → EventType → RecipientStatus
unfolding engagement_rank event_target advance
transition_recipient_status current event =
    if current == RecipientStatus.suppressed
    then current
    else if event == EventType.complained
    then RecipientStatus.complained
    else if current == RecipientStatus.complained || current == RecipientStatus.canceled
    then current
    else if event == EventType.bounced
    then RecipientStatus.bounced
    else if current == RecipientStatus.bounced
    then current
    else if event == EventType.rejected
    then (if includes delivery_positive current then current else RecipientStatus.rejected)
    else if current == RecipientStatus.rejected
    then current
    else if event == EventType.failed
    then (if includes delivery_positive current then current else RecipientStatus.failed)
    else if current == RecipientStatus.failed
    then current
    else advance current (event_target event) (engagement_rank current)
        (engagement_rank (event_target event))

-- The chain of tests of `deriveDeliveryMessageStatus`, over the list of statuses.
unfoldable pub aggregate : List RecipientStatus → MessageStatus
aggregate statuses =
    let positive = length (filter_by (includes delivery_positive) statuses) in
    if includes statuses RecipientStatus.suppressed
    then MessageStatus.suppressed
    else if includes statuses RecipientStatus.complained
    then MessageStatus.complained
    else if ltb 0 positive
    then (if nat_beq positive (length statuses)
        then MessageStatus.delivered
        else MessageStatus.partially_delivered)
    else if includes statuses RecipientStatus.bounced
    then MessageStatus.bounced
    else if any (includes delivery_negative) statuses
    then MessageStatus.failed
    else if all (λ s. s == RecipientStatus.canceled) statuses
    then MessageStatus.canceled
    else if includes statuses RecipientStatus.delivery_delayed
    then MessageStatus.delivery_delayed
    else if includes statuses RecipientStatus.accepted
    then MessageStatus.accepted
    else if includes statuses RecipientStatus.sending
    then MessageStatus.sending
    else MessageStatus.queued

-- deriveDeliveryMessageStatus, given the recipients' statuses.
unfoldable pub derive_delivery_message_status : List RecipientStatus → Result MessageStatus
unfolding aggregate
derive_delivery_message_status [] = err no_recipients
derive_delivery_message_status (s ∷ statuses) = ok (aggregate (s ∷ statuses))

-- The message statuses that are public statuses too.
same_status : MessageStatus → EmailStatus
same_status MessageStatus.queued = EmailStatus.queued
same_status MessageStatus.scheduled = EmailStatus.scheduled
same_status MessageStatus.sending = EmailStatus.sending
same_status MessageStatus.accepted = EmailStatus.sent
same_status MessageStatus.partially_delivered = EmailStatus.delivered
same_status MessageStatus.delivered = EmailStatus.delivered
same_status MessageStatus.delivery_delayed = EmailStatus.delivery_delayed
same_status MessageStatus.bounced = EmailStatus.bounced
same_status MessageStatus.complained = EmailStatus.complained
same_status MessageStatus.failed = EmailStatus.failed
same_status MessageStatus.canceled = EmailStatus.canceled
same_status MessageStatus.suppressed = EmailStatus.suppressed

-- derivePublicEmailStatus, given the recipients' statuses.
unfoldable pub derive_public_email_status : MessageStatus → List RecipientStatus → EmailStatus
unfolding same_status
derive_public_email_status message statuses =
    if message == MessageStatus.accepted
    then EmailStatus.sent
    else if message == MessageStatus.partially_delivered
    then (if includes statuses RecipientStatus.bounced
        then EmailStatus.bounced
        else if any (includes (RecipientStatus.rejected ∷ RecipientStatus.failed ∷ [])) statuses
        then EmailStatus.failed
        else EmailStatus.delivered)
    else if message == MessageStatus.delivered
    then (if includes statuses RecipientStatus.clicked
        then EmailStatus.clicked
        else if includes statuses RecipientStatus.opened
        then EmailStatus.opened
        else EmailStatus.delivered)
    else same_status message
