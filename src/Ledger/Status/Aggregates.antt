-- ===== src/Ledger/Status/Aggregates.antt =====
-- What a message's status and its public email's status say of the recipients.
use mathlib.Core.List.{Perm, Permᴰ}
use mathlib.Core.Logic.{∥∥₁_elim}
use hayasend.Base.{
  ◌≤◌, ◌<◌, ◌≡◌, refl, ap, ◌∙◌, ◌↔◌, ◌⊎◌, inl, inr, Bool, true, false, List, [], ◌∷◌, ok, arith,
  ◌==◌, length, any, all, includes, filter_by, any-perm, all-perm, includes-perm, includes-any,
  length-filter_by-perm, length-perm, Bool-cases, beq→eq,
}
use hayasend.Model.Status.{
  RecipientStatus, MessageStatus, EmailStatus, recipient_status_eq, message_status_eq,
  email_status_eq,
}
use hayasend.Ledger.Status.{
  delivery_positive, delivery_negative, aggregate, derive_delivery_message_status,
  derive_public_email_status,
}

IsSet-message_status : IsSet MessageStatus
IsSet-message_status = hlevel

IsSet-email_status : IsSet EmailStatus
IsSet-email_status = hlevel

aggregate-permᴰ : {xs ys : List RecipientStatus} → Permᴰ xs ys → aggregate xs ≡ aggregate ys
unfolding aggregate
aggregate-permᴰ p = simp (
  includes-perm RecipientStatus.suppressed p,
  includes-perm RecipientStatus.complained p,
  includes-perm RecipientStatus.bounced p,
  includes-perm RecipientStatus.delivery_delayed p,
  includes-perm RecipientStatus.accepted p,
  includes-perm RecipientStatus.sending p,
  length-filter_by-perm (includes delivery_positive) p,
  length-perm p,
  any-perm (includes delivery_negative) p,
  all-perm (λ s. s == RecipientStatus.canceled) p,
)

public-permᴰ :
    (m : MessageStatus) {xs ys : List RecipientStatus}
    → Permᴰ xs ys
    → derive_public_email_status m xs ≡ derive_public_email_status m ys
unfolding derive_public_email_status
public-permᴰ m p = simp (
  includes-perm RecipientStatus.bounced p,
  includes-perm RecipientStatus.clicked p,
  includes-perm RecipientStatus.opened p,
  any-perm (includes (RecipientStatus.rejected ∷ RecipientStatus.failed ∷ [])) p,
)

-- The order of the recipients counts neither for the message nor for the public email.
pub derived_statuses-perm :
    (xs ys : List RecipientStatus)
    → Perm xs ys
    → (aggregate xs ≡ aggregate ys)
      × (derive_public_email_status (aggregate xs) xs
          ≡ derive_public_email_status (aggregate ys) ys)
derived_statuses-perm xs ys p = (
  ∥∥₁_elim p (IsSet-message_status _ _) (λ d. aggregate-permᴰ d),
  ∥∥₁_elim p (IsSet-email_status _ _) (λ d.
      ap (λ m. derive_public_email_status m xs) (aggregate-permᴰ d)
      ∙ public-permᴰ (aggregate ys) d),
)

module _ (q : RecipientStatus → Bool) where
  length-filter_by-le : (xs : List RecipientStatus) → length (filter_by q xs) ≤ length xs
  length-filter_by-le [] = omega arith
  length-filter_by-le (x ∷ xs) = ground (arith, length-filter_by-le xs)

  all_of_length :
      (xs : List RecipientStatus) → length (filter_by q xs) ≡ length xs → all q xs ≡ true
  all_of_length [] h = refl
  all_of_length (x ∷ xs) h = ground (arith, all_of_length xs, length-filter_by-le xs)

  length_of_all :
      (xs : List RecipientStatus) → all q xs ≡ true → length (filter_by q xs) ≡ length xs
  length_of_all [] h = refl
  length_of_all (x ∷ xs) h = ground (arith, length_of_all xs)

  pos_of_any : (xs : List RecipientStatus) → 0 < length (filter_by q xs) → any q xs ≡ true
  pos_of_any [] h = absurd (omega arith)
  pos_of_any (x ∷ xs) h = ground (arith, pos_of_any xs)

  -- A test that excludes `q` fails on all of a list on which `q` holds throughout.
  any_excluded :
      (r : RecipientStatus → Bool)
      → ((s : RecipientStatus) → q s ≡ true → r s ≡ false)
      → (xs : List RecipientStatus) → all q xs ≡ true
      → any r xs ≡ false
  any_excluded r apart [] h = refl
  any_excluded r apart (x ∷ xs) h = ground (arith, apart x, any_excluded r apart xs)

abbrev positive : RecipientStatus → Bool
positive = includes delivery_positive

-- The statuses that speak against a delivery.
abbrev pub refused : RecipientStatus → Bool
refused = includes (
    RecipientStatus.bounced ∷ RecipientStatus.complained ∷ RecipientStatus.rejected
    ∷ RecipientStatus.failed ∷ RecipientStatus.suppressed ∷ [])

refused_of_positive : (s : RecipientStatus) → positive s ≡ true → refused s ≡ false
refused_of_positive RecipientStatus.delivered h = refl
refused_of_positive RecipientStatus.opened h = refl
refused_of_positive RecipientStatus.clicked h = refl
refused_of_positive _ h = cc

refused_parts :
    (xs : List RecipientStatus)
    → includes xs RecipientStatus.suppressed ≡ false
    → includes xs RecipientStatus.complained ≡ false
    → includes xs RecipientStatus.bounced ≡ false
    → any (includes (RecipientStatus.rejected ∷ RecipientStatus.failed ∷ [])) xs ≡ false
    → any refused xs ≡ false
refused_parts [] a b c d = refl
refused_parts (RecipientStatus.queued ∷ xs) a b c d = refused_parts xs a b c d
refused_parts (RecipientStatus.suppressed ∷ xs) a b c d = cc
refused_parts (RecipientStatus.complained ∷ xs) a b c d = cc
refused_parts (RecipientStatus.bounced ∷ xs) a b c d = cc
refused_parts (RecipientStatus.rejected ∷ xs) a b c d = cc
refused_parts (RecipientStatus.failed ∷ xs) a b c d = cc
refused_parts (_ ∷ xs) a b c d = refused_parts xs a b c d

delivered_of_aggregate :
    (xs : List RecipientStatus) → aggregate xs ≡ MessageStatus.delivered → all positive xs ≡ true
unfolding aggregate
delivered_of_aggregate xs h = ground (arith, all_of_length positive xs)

excluded :
    (s : RecipientStatus)
    → positive s ≡ false
    → (xs : List RecipientStatus) → all positive xs ≡ true
    → includes xs s ≡ false
excluded s h xs k =
    includes-any xs s
    ∙ any_excluded positive (λ x. x == s)
        (λ x p. elim (Bool-cases (x == s)) [
          | inl e ↦ absurd (clash x p (beq→eq x s e))
          | inr e ↦ e
        ])
        xs k
  where
    clash : (x : RecipientStatus) → positive x ≡ true → x ≡ s → ⊥
    clash x p e = cc (ap positive e)

aggregate_of_delivered :
    (xs : List RecipientStatus)
    → 0 < length xs
    → all positive xs ≡ true
    → aggregate xs ≡ MessageStatus.delivered
unfolding aggregate
aggregate_of_delivered xs n h = ground (
  arith,
  excluded RecipientStatus.suppressed refl xs h,
  excluded RecipientStatus.complained refl xs h,
  length_of_all positive xs h,
)

-- A message is delivered exactly when it has recipients and each of them has been reached.
pub delivered_iff :
    (xs : List RecipientStatus)
    → (derive_delivery_message_status xs ≡ ok MessageStatus.delivered)
      ↔ ((0 < length xs) × (all (includes delivery_positive) xs ≡ true))
unfolding derive_delivery_message_status
delivered_iff [] = (λ h. cc, λ h. absurd (omega arith))
delivered_iff (x ∷ xs) = (
  λ h. (omega arith, delivered_of_aggregate (x ∷ xs) (cc)),
  λ h. ap ok (aggregate_of_delivered (x ∷ xs) h.0 h.1),
)

abbrev pub public_positive : EmailStatus → Bool
public_positive = includes (EmailStatus.delivered ∷ EmailStatus.opened ∷ EmailStatus.clicked ∷ [])

public_delivery :
    (m : MessageStatus) (xs : List RecipientStatus)
    → public_positive (derive_public_email_status m xs) ≡ true
    → (m ≡ MessageStatus.delivered)
      ⊎ ((m ≡ MessageStatus.partially_delivered)
          × (includes xs RecipientStatus.bounced ≡ false)
          × (any (includes (RecipientStatus.rejected ∷ RecipientStatus.failed ∷ [])) xs ≡ false))
unfolding derive_public_email_status
public_delivery MessageStatus.partially_delivered xs h = inr (ground arith)
public_delivery MessageStatus.delivered xs h = inl refl
public_delivery MessageStatus.queued xs h = cc
public_delivery _ xs h = cc

partially_of_aggregate :
    (xs : List RecipientStatus)
    → aggregate xs ≡ MessageStatus.partially_delivered
    → (includes xs RecipientStatus.suppressed ≡ false)
      × (includes xs RecipientStatus.complained ≡ false)
      × (any positive xs ≡ true)
unfolding aggregate
partially_of_aggregate xs h = ground (arith, pos_of_any positive xs)

delivered_has_positive :
    (xs : List RecipientStatus) → aggregate xs ≡ MessageStatus.delivered → any positive xs ≡ true
unfolding aggregate
delivered_has_positive xs h = ground (arith, pos_of_any positive xs)

-- Where the public email reads delivered, opened or clicked, some recipient has been reached and
-- none has bounced, complained, been rejected, failed or been suppressed.
pub public_delivery_honest :
    (xs : List RecipientStatus)
    → public_positive (derive_public_email_status (aggregate xs) xs) ≡ true
    → (any (includes delivery_positive) xs ≡ true) × (any refused xs ≡ false)
public_delivery_honest xs h = elim (public_delivery (aggregate xs) xs h) [
  | inl e ↦ (
    delivered_has_positive xs e,
    any_excluded positive refused refused_of_positive xs (delivered_of_aggregate xs e),
  )
  | inr (e, b, r) ↦
      let (su, co, pos) = partially_of_aggregate xs e in (pos, refused_parts xs su co b r)
]
