-- ===== src/Store/Deliveries/Stored.antt =====
-- The staged writes of a commit, read back.
use hayasend.Base.{
  ℕ, suc, ◌+◌, ◌≡◌, refl, sym, ap, subst, ◌∙◌, String, true, false, List, [], ◌∷◌, some, ok,
  >>=-eq-ok, refuse_if-eq-ok, ok_inj, ◌==◌, string_eq, nat_eq, option_eq, beq→eq, and_true,
  Bool-cases, inl, inr, length, all, includes, arith, recipient_in_use, true-ne-false,
}
use hayasend.Base.Assoc.{Assoc, get, has, put, get-put, get-put_same}
use hayasend.Platform.{Platform}
use hayasend.Model.Formats.{outbox_identity}
use hayasend.Model.Records.{RecipientRecord, OutboxItemRecord}
use hayasend.Model.Schemas.{outbox_valid, outbox_format}
use hayasend.Ledger.State.{ids, or_else, recipient_by_id, in_message_order}
use hayasend.Ledger.Order.{recipient_by_id_found}
use hayasend.Commit.{IdempotencyClaim, DeliveryCommit, email_matches, recipients_match}
use hayasend.Commit.Laws.{IsCommit}
use hayasend.Store.State.{
  IdempotencyEntry, MemoryStore, CommitEntity, commit, Hook, after_delivery_mutation,
}
use hayasend.Store.Deliveries.{
  all_present, outbox_of, stage_recipients, stage_claim, stage_commit, entry_of,
}

-- What stands under an identifier after the loop over the recipients.
stage_recipients-get :
    (hook : Hook) (n : ℕ) (rs : List RecipientRecord) (m : Assoc RecipientRecord)
    {m' : Assoc RecipientRecord}
    → stage_recipients hook n rs m ≡ ok m'
    → (id : String) → get id m' ≡ or_else (recipient_by_id id rs) (get id m)
unfolding stage_recipients recipient_by_id
stage_recipients-get hook n [] m h id = ap (get id) (sym (ok_inj h))
stage_recipients-get hook n (r ∷ rs) m h id =
    let (_, h1) = refuse_if-eq-ok (has r.id m) recipient_in_use _ h in
    let (_, _, h2) =
      >>=-eq-ok (after_delivery_mutation hook (n + 2) (commit (CommitEntity.recipient n))) _ h1 in
    ground (arith, stage_recipients-get hook (suc n) rs (put r.id r m) h2 id, get-put r.id id r m)

all_present-cons {ℓ} :
    {V : Type ℓ} (id : String) (more : List String) (m : Assoc V) {v : V} {vs : List V}
    → get id m ≡ some v
    → all_present more m ≡ some vs
    → all_present (id ∷ more) m ≡ some (v ∷ vs)
unfolding all_present
all_present-cons id more m h k = ground arith

in_message_order-found :
    (id : String) (more : List String) (rs : List RecipientRecord) {r : RecipientRecord}
    → recipient_by_id id rs ≡ some r
    → in_message_order (id ∷ more) rs ≡ r ∷ in_message_order more rs
unfolding in_message_order
in_message_order-found id more rs h = ground arith

-- Recipients that the staged map has are read back in the order of the message.
pub all_present_staged :
    (xs : List String) (rs : List RecipientRecord) (m m' : Assoc RecipientRecord)
    → all (includes (ids rs)) xs ≡ true
    → ((id : String) → get id m' ≡ or_else (recipient_by_id id rs) (get id m))
    → all_present xs m' ≡ some (in_message_order xs rs)
unfolding all_present in_message_order
all_present_staged [] rs m m' h k = refl
all_present_staged (id ∷ more) rs m m' h k =
    let (known, rest) = and_true (includes (ids rs) id) (all (includes (ids rs)) more) h in
    let (r, found) = recipient_by_id_found id rs known in
    let here : get id m' ≡ some r = k id ∙ rw found refl in
    all_present-cons id more m' here (all_present_staged more rs m m' rest k)
    ∙ ap some (sym (in_message_order-found id more rs found))

-- An outbox identity is not empty.
empty_not_identity : outbox_identity "" ≡ false
unfolding outbox_identity
empty_not_identity = refl

identity_not_empty : (id : String) → outbox_identity id ≡ true → (id == "") ≡ false
identity_not_empty id h = elim (Bool-cases (id == "")) [
  | inl e ↦
      absurd (true-ne-false (sym h ∙ ap outbox_identity (beq→eq id "" e) ∙ empty_not_identity))
  | inr e ↦ e
]

outbox_id_there :
    (p : Platform) (o : OutboxItemRecord) → outbox_valid p o ≡ true → outbox_identity o.id ≡ true
unfolding outbox_valid outbox_format
outbox_id_there p o h = ground arith

outbox_of-found :
    (id : String) (s : MemoryStore) {oid : String} {o : OutboxItemRecord}
    → get id s.outbox_by_message ≡ some oid
    → (oid == "") ≡ false
    → get oid s.outbox_items ≡ some o
    → outbox_of id s ≡ some o
unfolding outbox_of
outbox_of-found id s h k l = ground arith

stage_claim-get :
    (hook : Hook) (n : ℕ) (id : String) (c : IdempotencyClaim) (m : Assoc IdempotencyEntry)
    {claims : Assoc IdempotencyEntry × ℕ}
    → stage_claim hook n id (some c) m ≡ ok claims
    → get c.key_hash claims.0 ≡ some (entry_of c id)
unfolding stage_claim
stage_claim-get hook n id c m h =
    let (_, _, h1) =
      >>=-eq-ok (after_delivery_mutation hook n (commit CommitEntity.idempotency)) _ h in
    subst (λ (x : Assoc IdempotencyEntry × ℕ). get c.key_hash x.0 ≡ some (entry_of c id))
      (ok_inj h1) (get-put_same c.key_hash c.key_hash (entry_of c id) m refl)

-- The recipients of a commit in the order of its message.
abbrev pub ordered : DeliveryCommit → List RecipientRecord
ordered v = in_message_order v.message.recipient_ids v.recipients

-- A delivery that a read of the store gives back whole.
pub record IsStored (v : DeliveryCommit) (s : MemoryStore) : Type 0 where
  pub email : get v.email.id s.emails ≡ some v.email
  pub message : get v.email.id s.delivery_messages ≡ some v.message
  pub outbox : outbox_of v.email.id s ≡ some v.outbox
  pub recipients : all_present v.message.recipient_ids s.delivery_recipients ≡ some (ordered v)
  pub claim :
      (c : IdempotencyClaim)
      → v.idempotency ≡ some c
      → get c.key_hash s.idempotency
        ≡ some (record {
          key_hash = c.key_hash;
          request_hash = c.request_hash;
          expires_at = c.expires_at;
          email_id = v.email.id;
        })

module _ (p : Platform) (v : DeliveryCommit) (c : IsCommit p v) where
  IsCommit-known : all (includes (ids v.recipients)) v.message.recipient_ids ≡ true
  unfolding recipients_match
  IsCommit-known = ground (arith, c.recipients)

  IsCommit-same_id : v.email.id ≡ v.message.id
  unfolding email_matches
  IsCommit-same_id = beq→eq v.email.id v.message.id (ground (arith, c.email))

pub stage_commit-IsStored :
    (p : Platform) (hook : Hook) (v : DeliveryCommit) (s : MemoryStore) {staged : MemoryStore × ℕ}
    → IsCommit p v
    → stage_commit hook v s ≡ ok staged
    → IsStored v staged.0
unfolding stage_commit entry_of
stage_commit-IsStored p hook v s c h =
    let (_, _, h1) = >>=-eq-ok (after_delivery_mutation hook 0 (commit CommitEntity.email)) _ h in
    let (_, _, h2) =
      >>=-eq-ok (after_delivery_mutation hook 1 (commit CommitEntity.message)) _ h1 in
    let (rs, looped, h3) =
      >>=-eq-ok (stage_recipients hook 0 v.recipients s.delivery_recipients) _ h2 in
    let (claims, claimed, h4) =
      >>=-eq-ok (stage_claim hook (length v.recipients + 2) v.email.id v.idempotency s.idempotency)
        _ h3 in
    let (_, _, h5) =
      >>=-eq-ok (after_delivery_mutation hook claims.1 (commit CommitEntity.outbox)) _ h4 in
    let same_id = IsCommit-same_id p v c in
    subst (λ (t : MemoryStore × ℕ). IsStored v t.0) (ok_inj h5)
      (record {
        email = get-put_same v.email.id v.email.id v.email s.emails refl;
        message = get-put_same v.message.id v.email.id v.message s.delivery_messages (sym same_id);
        outbox =
            outbox_of-found v.email.id _
              (get-put_same v.message.id v.email.id v.outbox.id s.outbox_by_message (sym same_id))
              (identity_not_empty v.outbox.id (outbox_id_there p v.outbox c.outbox_ok))
              (get-put_same v.outbox.id v.outbox.id v.outbox s.outbox_items refl);
        claim = λ x e. stage_claim-get hook (length v.recipients + 2) v.email.id x s.idempotency (
            subst
              (λ o.
                stage_claim hook (length v.recipients + 2) v.email.id o s.idempotency ≡ ok claims)
              e claimed);
        recipients =
            all_present_staged v.message.recipient_ids v.recipients s.delivery_recipients rs
              (IsCommit-known p v c)
              (stage_recipients-get hook 0 v.recipients s.delivery_recipients looped);
      })
