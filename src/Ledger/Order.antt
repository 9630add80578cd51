-- ===== src/Ledger/Order.antt =====
-- core/recipient-ledger.ts: the recipients of a ledger in the order of the message.
use hayasend.Base.{
  ◌≡◌, refl, ap, ap₂, subst, String, true, false, List, [], ◌∷◌, none, some, arith, ◌==◌, all, All,
  includes, unique, unique-cons, and_true, beq→eq, beq_refl, Bool-cases, Option-cases, inl, inr,
  string_eq, nat_eq, All-of, or_false, beq_ne,
}
use hayasend.Model.Records.{provider_reference_eq, RecipientRecord}
use hayasend.Ledger.State.{or_else-none, ids, recipient_by_id, in_message_order}

-- What is found is in the list, under its identifier.
pub recipient_by_id_sound :
    (P : RecipientRecord → Type 0) (id : String) (rs : List RecipientRecord) (r : RecipientRecord)
    → All P rs
    → recipient_by_id id rs ≡ some r
    → P r × (r.id ≡ id)
unfolding recipient_by_id
recipient_by_id_sound P id [] r h e = cc
recipient_by_id_sound P id (x ∷ xs) r h e = elim (Option-cases (recipient_by_id id xs)) [
  | inr (y, found) ↦
      let same : y ≡ r = ground arith in
      subst (λ z. P z × (z.id ≡ id)) same (recipient_by_id_sound P id xs y h.1 found)
  | inl missing ↦ elim (Bool-cases (x.id == id)) [
    | inl here ↦
        let same : x ≡ r = ground arith in
        subst (λ z. P z × (z.id ≡ id)) same (h.0, beq→eq x.id id here)
    | inr other ↦ absurd (ground arith)
  ]
]

pub recipient_by_id_found :
    (id : String) (rs : List RecipientRecord)
    → includes (ids rs) id ≡ true
    → (r : RecipientRecord) × (recipient_by_id id rs ≡ some r)
unfolding recipient_by_id
recipient_by_id_found id [] h = cc
recipient_by_id_found id (r ∷ rs) h = elim (Option-cases (recipient_by_id id rs)) [
  | inr (x, e) ↦ (x, rw e)
  | inl e ↦ elim (Bool-cases (r.id == id)) [
    | inl here ↦ (r, rw (e, here))
    | inr other ↦ let (x, k) = recipient_by_id_found id rs (ground arith) in absurd (cc)
  ]
]

pub recipient_by_id_missing :
    (id : String) (rs : List RecipientRecord)
    → includes (ids rs) id ≡ false
    → recipient_by_id id rs ≡ none
unfolding recipient_by_id
recipient_by_id_missing id [] h = refl
recipient_by_id_missing id (r ∷ rs) h = ground (arith, recipient_by_id_missing id rs)

-- Where every identifier is known, the reordered recipients have exactly those identifiers.
pub ids-in_message_order :
    (xs : List String) (rs : List RecipientRecord)
    → all (includes (ids rs)) xs ≡ true
    → ids (in_message_order xs rs) ≡ xs
unfolding in_message_order
ids-in_message_order [] rs h = refl
ids-in_message_order (id ∷ more) rs h =
    let (known, rest) = and_true (includes (ids rs) id) _ h in
    let (r, found) = recipient_by_id_found id rs known in
    let (_, same) = recipient_by_id_sound (λ _. Unit {0}) id rs r (All-of (λ _. tt) rs) found in
    rw found (ap₂ ◌∷◌ same (ids-in_message_order more rs rest))

pub in_message_order-All :
    (P : RecipientRecord → Type 0) (xs : List String) (rs : List RecipientRecord)
    → All P rs
    → All P (in_message_order xs rs)
unfolding in_message_order
in_message_order-All P [] rs h = tt
in_message_order-All P (id ∷ more) rs h = elim (Option-cases (recipient_by_id id rs)) [
  | inl e ↦ rw e (in_message_order-All P more rs h)
  | inr (r, e) ↦ rw e ((recipient_by_id_sound P id rs r h e).0, in_message_order-All P more rs h)
]

-- A recipient that no identifier names may be put in front.
pub in_message_order-cons :
    (xs : List String) (r : RecipientRecord) (rs : List RecipientRecord)
    → includes xs r.id ≡ false
    → in_message_order xs (r ∷ rs) ≡ in_message_order xs rs
unfolding in_message_order recipient_by_id
in_message_order-cons [] r rs h = refl
in_message_order-cons (id ∷ more) r rs h =
    let (other, rest) = or_false (id == r.id) (includes more r.id) h in
    let miss : (r.id == id) ≡ false = beq_ne r.id id (λ e. not_both (rw e at other)) in
    rw (miss, or_else-none (recipient_by_id id rs), in_message_order-cons more r rs rest)
  where
    not_both : (id == id) ≡ false → ⊥
    not_both e = cc (beq_refl id)

-- Recipients that stand in the message's order stay as they are.
pub in_message_order_self :
    (rs : List RecipientRecord) → unique (ids rs) ≡ true → in_message_order (ids rs) rs ≡ rs
unfolding in_message_order recipient_by_id
in_message_order_self [] h = refl
in_message_order_self (r ∷ rs) h =
    let (fresh, rest) = unique-cons r.id (ids rs) h in
    rw
      (
        recipient_by_id_missing r.id rs fresh,
        beq_refl r.id,
        in_message_order-cons (ids rs) r rs fresh,
      )
      (ap (◌∷◌ r) (in_message_order_self rs rest))
