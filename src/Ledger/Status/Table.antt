-- ===== src/Ledger/Status/Table.antt =====
-- Proofs by evaluation over every status and every pair of events.
use hayasend.Base.{
  ◌≡◌, refl, Bool, true, List, [], ◌∷◌, arith, ◌==◌, beq→eq, all, includes, and_true, Bool-cases,
  inl, inr, Eq,
}
use hayasend.Model.Status.{RecipientStatus, EventType, recipient_status_eq, event_type_eq}

abbrev pub all_statuses : List RecipientStatus
all_statuses =
    RecipientStatus.queued ∷ RecipientStatus.sending ∷ RecipientStatus.accepted
    ∷ RecipientStatus.delivery_delayed ∷ RecipientStatus.delivered ∷ RecipientStatus.opened
    ∷ RecipientStatus.clicked ∷ RecipientStatus.bounced ∷ RecipientStatus.complained
    ∷ RecipientStatus.rejected ∷ RecipientStatus.failed ∷ RecipientStatus.suppressed
    ∷ RecipientStatus.canceled ∷ []

abbrev pub all_events : List EventType
all_events =
    EventType.accepted ∷ EventType.delivered ∷ EventType.delayed ∷ EventType.bounced
    ∷ EventType.complained ∷ EventType.rejected ∷ EventType.opened ∷ EventType.clicked
    ∷ EventType.failed ∷ []

status_listed : (s : RecipientStatus) → includes all_statuses s ≡ true
status_listed RecipientStatus.queued = refl
status_listed _ = refl

event_listed : (e : EventType) → includes all_events e ≡ true
event_listed EventType.accepted = refl
event_listed _ = refl

-- A test that passes on a list passes on each value that the list includes.
pub all-includes {ℓ} :
    {A : Type ℓ} ⦃e : Eq A⦄ (p : A → Bool) (xs : List A) (a : A)
    → all p xs ≡ true
    → includes xs a ≡ true
    → p a ≡ true
all-includes p [] a h k = cc
all-includes p (x ∷ xs) a h k =
    let (here, later) = and_true (p x) (all p xs) h in
    elim (Bool-cases (x == a)) [
      | inl e ↦ rw (← beq→eq x a e) here
      | inr e ↦ all-includes p xs a later (ground arith)
    ]

unfoldable pub every : (RecipientStatus → EventType → EventType → Bool) → Bool
every p = all (λ s. all (λ e. all (λ f. p s e f) all_events) all_events) all_statuses

pub every_sound :
    (p : RecipientStatus → EventType → EventType → Bool)
    → every p ≡ true
    → (s : RecipientStatus) (e f : EventType) → p s e f ≡ true
unfolding every
every_sound p h s e f =
    all-includes (λ f. p s e f) all_events f
      (all-includes (λ e. all (λ f. p s e f) all_events) all_events e
        (all-includes (λ s. all (λ e. all (λ f. p s e f) all_events) all_events) all_statuses s h
          (status_listed s))
        (event_listed e))
      (event_listed f)
