-- ===== src/Store/Deliveries/Commits.antt =====
-- A commit in the store: all of it or nothing, and a retry of it gives it back.
use hayasend.Base.{
  ℕ, ◌≡◌, refl, sym, ap, subst, ◌∙◌, String, Bool, true, false, not, Option, none, some, Result, ok,
  refuse_if, require-eq-ok, identity_in_use, key_reused, records_unavailable, leb, >>=-eq-ok,
  refuse_if-eq-ok, ok_inj, ◌==◌, string_eq, nat_eq, option_eq, beq_refl, inl, inr, ◌⊎◌, find, arith,
  true-ne-false,
}
use hayasend.Base.Assoc.{Assoc, get, values}
use hayasend.Platform.{Platform}
use hayasend.Model.Records.{EmailRecord}
use hayasend.Commit.{IdempotencyClaim, DeliveryCommit}
use hayasend.Commit.Laws.{IsCommit}
use hayasend.Store.State.{IdempotencyEntry, MemoryStore, commit_swap, Hook, after_delivery_mutation}
use hayasend.Store.Deliveries.{
  DeliveryCommitResult, claim_of_entry, delivery_result, stage_commit, entry_of,
}
use hayasend.Commit.{claim_matches, validate_delivery_commit}
use hayasend.Commit.Laws.{validate_delivery_commit-eq-ok, validate_delivery_commit_of_IsCommit}
use hayasend.Store.State.{and_then, and_then-either, and_then-eq-ok}
use hayasend.Store.Deliveries.{
  live_claim, replay_commit, identity_taken, swap_commit, commit_new, commit_claimed, commit_valid,
  commit_delivery,
}
use hayasend.Store.Deliveries.Stored.{IsStored, ordered, stage_commit-IsStored}

-- What a read gives of a delivery that the store has whole.
abbrev pub read_back : DeliveryCommit → Bool → MemoryStore → DeliveryCommitResult
read_back v replayed s = record {
  delivery = record v {
    recipients = ordered v;
    idempotency = claim_of_entry (find (λ e. e.email_id == v.email.id) (values s.idempotency));
  };
  replayed = replayed;
}

pub IsStored-delivery_result :
    (v : DeliveryCommit) (replayed : Bool) (s : MemoryStore)
    → IsStored v s
    → delivery_result v.email.id replayed s ≡ some (read_back v replayed s)
unfolding delivery_result
IsStored-delivery_result v replayed s h = ground (arith, h.email, h.message, h.outbox, h.recipients)

-- What can be seen of a commit in a store that stood before it.
abbrev Seen : DeliveryCommit → MemoryStore → MemoryStore → Type 0
Seen v s t =
    (t ≡ s) ⊎ (IsStored v t × (delivery_result v.email.id false t ≡ some (read_back v false t)))

commit_new-Seen :
    (p : Platform) (hook : Hook) (v : DeliveryCommit) (s : MemoryStore)
    → IsCommit p v
    → Seen v s (commit_new hook v s).1
unfolding commit_new swap_commit
commit_new-Seen p hook v s c =
    and_then-either (Seen v s) (refuse_if (identity_taken v s) identity_in_use, s) _ (inl refl)
      (λ _ _.
        and_then-either (Seen v s) (stage_commit hook v s, s) _ (inl refl)
          (λ staged e.
            let stored : IsStored v staged.0 = stage_commit-IsStored p hook v s c e in
            inr (stored, IsStored-delivery_result v false staged.0 stored)))

commit_claimed-Seen :
    (p : Platform) (hook : Hook) (v : DeliveryCommit)
    (claim : Option (IdempotencyClaim × IdempotencyEntry)) (s : MemoryStore)
    → IsCommit p v
    → Seen v s (commit_claimed hook v claim s).1
unfolding commit_claimed
commit_claimed-Seen p hook v none s c = commit_new-Seen p hook v s c
commit_claimed-Seen p hook v (some (k, e)) s c = inl refl

-- Nothing else can be seen of a commit, whatever it ends with and wherever the hook throws: the
-- store is as it was, or it has the given email and message, all the recipients, the outbox item under
-- the message, and the claim with its expiry under its key, where one was given; and a read gives this
-- delivery, its recipients in the message's order.
pub commit_is_all_or_nothing :
    (p : Platform) (hook : Hook) (input : DeliveryCommit) (now : ℕ) (s : MemoryStore)
    → let after = commit_delivery p hook input now s in
      (after.1 ≡ s)
      ⊎ (IsStored input after.1
          × (delivery_result input.email.id false after.1 ≡ some (read_back input false after.1)))
unfolding commit_delivery commit_valid
commit_is_all_or_nothing p hook input now s =
    and_then-either (Seen input s) (validate_delivery_commit p input now, s) _ (inl refl)
      (λ v e.
        let (same, (c, _)) = validate_delivery_commit-eq-ok p input now e in
        subst (λ x. Seen input s (commit_valid hook now x s).1) same
          (commit_claimed-Seen p hook input _ s c))

swapped :
    (p : Platform) (hook : Hook) (v : DeliveryCommit) (s : MemoryStore) {r : DeliveryCommitResult}
    → IsCommit p v
    → (commit_new hook v s).0 ≡ ok r
    → (r.delivery ≡ v) × IsStored v (commit_new hook v s).1
unfolding commit_new swap_commit
swapped p hook v s c h =
    let (_, _, h1, e1) = and_then-eq-ok (refuse_if (identity_taken v s) identity_in_use, s) _ h in
    let (staged, e, h2, e2) = and_then-eq-ok (stage_commit hook v s, s) _ h1 in
    let (_, _, h3) = >>=-eq-ok (after_delivery_mutation hook staged.1 commit_swap) _ h2 in
    (
      ap (λ (x : DeliveryCommitResult). x.delivery) (sym (ok_inj h3)),
      subst (IsStored v) (sym (e1 ∙ e2)) (stage_commit-IsStored p hook v s c e),
    )

replayed-delivery_result :
    (id : String) (replayed : Bool) (s : MemoryStore) {r : DeliveryCommitResult}
    → delivery_result id replayed s ≡ some r
    → r.replayed ≡ replayed
unfolding delivery_result
replayed-delivery_result id replayed s h = ground arith

replayed-replay_commit :
    (c : IdempotencyClaim) (e : IdempotencyEntry) (s : MemoryStore) {r : DeliveryCommitResult}
    → replay_commit c e s ≡ ok r
    → r.replayed ≡ true
unfolding replay_commit
replayed-replay_commit c e s h =
    let (_, h1) = refuse_if-eq-ok (not (e.request_hash == c.request_hash)) key_reused _ h in
    replayed-delivery_result e.email_id true s (require-eq-ok _ records_unavailable h1)

fresh_claimed :
    (p : Platform) (hook : Hook) (v : DeliveryCommit)
    (claim : Option (IdempotencyClaim × IdempotencyEntry)) (s : MemoryStore)
    {r : DeliveryCommitResult}
    → IsCommit p v
    → (commit_claimed hook v claim s).0 ≡ ok r
    → r.replayed ≡ false
    → (r.delivery ≡ v) × IsStored v (commit_claimed hook v claim s).1
unfolding commit_claimed
fresh_claimed p hook v none s c h new = swapped p hook v s c h
fresh_claimed p hook v (some (k, e)) s c h new =
    absurd (true-ne-false (sym (replayed-replay_commit k e s h) ∙ new))

-- A new commit that succeeds returns its input and is stored whole.
fresh-IsCommit :
    (p : Platform) (hook : Hook) (input : DeliveryCommit) (now : ℕ) (s : MemoryStore)
    {r : DeliveryCommitResult}
    → (commit_delivery p hook input now s).0 ≡ ok r
    → r.replayed ≡ false
    → (r.delivery ≡ input)
      × (IsCommit p input
          × ((claim_matches input.email now input.idempotency ≡ true)
              × IsStored input (commit_delivery p hook input now s).1))
unfolding commit_delivery commit_valid
fresh-IsCommit p hook input now s {r} h new =
    let (v, e, h1, e1) = and_then-eq-ok (validate_delivery_commit p input now, s) _ h in
    let (same, (c, claim)) = validate_delivery_commit-eq-ok p input now e in
    let (delivered, stored) =
      fresh_claimed p hook input _ s c
        (subst (λ x. (commit_valid hook now x s).0 ≡ ok r) (sym same) h1) new in
    (
      delivered,
      (
        c,
        (
          claim,
          subst (IsStored input) (sym e1)
              (subst (λ x. IsStored input (commit_valid hook now x s).1) same stored),
        ),
      ),
    )

live_claim_stored :
    (claim : IdempotencyClaim) (id : String) (later : ℕ) (m : Assoc IdempotencyEntry)
    → get claim.key_hash m ≡ some (entry_of claim id)
    → leb claim.expires_at later ≡ false
    → live_claim (some claim) later m ≡ some (claim, entry_of claim id)
unfolding live_claim entry_of
live_claim_stored claim id later m h live = ground (arith, h, live)

replay_commit_stored :
    (v : DeliveryCommit) (claim : IdempotencyClaim) (s : MemoryStore)
    → IsStored v s
    → replay_commit claim (entry_of claim v.email.id) s ≡ ok (read_back v true s)
unfolding replay_commit entry_of
replay_commit_stored v claim s h =
    rw (beq_refl claim.request_hash, IsStored-delivery_result v true s h) refl

still_matches :
    (email : EmailRecord) (claim : IdempotencyClaim) (now later : ℕ)
    → claim_matches email now (some claim) ≡ true
    → leb claim.expires_at later ≡ false
    → claim_matches email later (some claim) ≡ true
unfolding claim_matches
still_matches email claim now later h live = ground (arith, h, live)

replay_stored :
    (p : Platform) (hook : Hook) (v : DeliveryCommit) (claim : IdempotencyClaim) (later : ℕ)
    (s : MemoryStore)
    → v.idempotency ≡ some claim
    → leb claim.expires_at later ≡ false
    → IsCommit p v
    → claim_matches v.email later v.idempotency ≡ true
    → IsStored v s
    → commit_delivery p hook v later s ≡ (ok (read_back v true s), s)
unfolding commit_delivery commit_valid commit_claimed and_then entry_of
replay_stored p hook v claim later s with_claim live c matches stored =
    ap (λ x. and_then (x, s) (commit_valid hook later))
      (validate_delivery_commit_of_IsCommit p v later c matches)
    ∙ ap (λ x. commit_claimed hook v x s)
        (ap (λ x. live_claim x later s.idempotency) with_claim
          ∙ live_claim_stored claim v.email.id later s.idempotency (stored.claim claim with_claim)
              live)
    ∙ ap (λ (x : Result DeliveryCommitResult). (x, s)) (replay_commit_stored v claim s stored)

-- A retry of a commit is safe: after a new commit under a key has succeeded, the same commit under
-- the same key, at any time before the claim expires and with any hook, changes nothing, and
-- returns the delivery that the first one stored, marked as replayed.
pub retry_replays_the_commit :
    (p : Platform) (hook hook' : Hook) (input : DeliveryCommit) (claim : IdempotencyClaim)
    (now later : ℕ) (s : MemoryStore) {r : DeliveryCommitResult}
    → input.idempotency ≡ some claim
    → leb claim.expires_at later ≡ false
    → (commit_delivery p hook input now s).0 ≡ ok r
    → r.replayed ≡ false
    → let after = (commit_delivery p hook input now s).1 in
      commit_delivery p hook' input later after ≡ (ok (read_back input true after), after)
retry_replays_the_commit p hook hook' input claim now later s with_claim live h new =
    let after = (commit_delivery p hook input now s).1 in
    let (_, (c, (matches, stored))) = fresh-IsCommit p hook input now s h new in
    replay_stored p hook' input claim later after with_claim live c
      (subst (λ x. claim_matches input.email later x ≡ true) (sym with_claim)
        (still_matches input.email claim now later
          (subst (λ x. claim_matches input.email now x ≡ true) with_claim matches) live))
      stored
