-- ===== src/ApiKeys/Revocation.antt =====
-- services/api-key-service.ts: a key that is revoked stays so, whatever other keys are made or
-- revoked later.
use hayasend.Base.{
  ℕ, suc, ◌≡◌, ◌≢◌, refl, sym, ap, ◌∙◌, String, Bool, true, false, ◌⊎◌, inl, inr, Option, none,
  some, Result, ok, err, if◌then◌else◌, is_some, err-ne-ok, ok_inj, not_found, ◌>>=◌, true-ne-false,
  invalid_time, require, unauthorized, subst,
}
use hayasend.Base.Assoc.{get, get-put_same, get-put_ne, text_cases}
use hayasend.Platform.{Platform, iso_of}
use hayasend.Store.State.{and_then, and_then-keeps, and_then-either, and_then-eq-ok}
use hayasend.Store.Pages.{truthy}
use hayasend.Store.Pages.Laws.{truthy_of_ne}
use hayasend.Catalog.Records.{ApiKeyRecord}
use hayasend.Catalog.State.{CatalogStore}
use hayasend.Catalog.Items.{create_api_key, get_api_key, update_api_key, updated_in}
use hayasend.ApiKeys.{
  PublicApiKey, Environment, World, CreateApiKeyInput, scoped_key, public_api_key, key_refused,
  authenticate_key, authenticate, token_of, checked_expiry, key_record, store_key, make_key, create,
  revoked, revoke_at, revoke,
}
use hayasend.ApiKeys.Laws.{scoped_lem}

-- The calls that write keys, in any order: a new key has another identifier than `id`.
pub data Calls (p : Platform) (env : Environment) (id : String) : World → World → Type 0 where
  done : {w : World} → Calls p env id w w
  creates :
      (input : CreateApiKeyInput) (now later : ℕ) {w w' : World}
      → env.create_key_id w.minted ≢ id
      → Calls p env id (create p env input now later w).1 w'
      → Calls p env id w w'
  revokes :
      (other : String) (now : ℕ) {w w' : World}
      → Calls p env id (revoke p env other now w).1 w'
      → Calls p env id w w'

pub IsRevoked : String → CatalogStore → Type 0
IsRevoked id s =
    (r : ApiKeyRecord) × (at : String) × (get_api_key id s ≡ some r)
    × (truthy r.revoked_at ≡ some at)

named_of :
    (valid : Bool) (t at : String)
    → t ≢ ""
    → (if valid then ok t else err invalid_time) ≡ ok at
    → at ≢ ""
named_of true t at given h = subst (λ s. s ≢ "") (ok_inj h) given
named_of false t at given h = absurd (err-ne-ok h)

iso_of-given :
    (p : Platform) (now : ℕ) (at : String) → p.iso_string now ≢ "" → iso_of p now ≡ ok at → at ≢ ""
unfolding iso_of
iso_of-given p now at given h = named_of _ (p.iso_string now) at given h

module _ (p : Platform) (env : Environment) where
  revoked_is_refused :
      (id token : String) (now : ℕ) (s : CatalogStore)
      → scoped_key token ≡ some id
      → IsRevoked id s
      → authenticate p env token now s ≡ err unauthorized
  unfolding authenticate_key key_refused IsRevoked
  revoked_is_refused id token now s form (r, at, found, ended) =
      scoped_lem p env token id now s form
      ∙ ap (authenticate_key p env token now) found
      ∙ rw ended refl

  create_api_key-IsRevoked :
      (id : String) (r : ApiKeyRecord) (s : CatalogStore)
      → r.id ≢ id
      → IsRevoked id s
      → IsRevoked id (create_api_key r s)
  unfolding IsRevoked create_api_key get_api_key
  create_api_key-IsRevoked id r s other (k, at, found, ended) =
      (k, at, get-put_ne r.id id r s.api_keys other ∙ found, ended)

  store_key-IsRevoked :
      (id : String) (r : ApiKeyRecord) (token : String) (w : World)
      → r.id ≢ id
      → IsRevoked id w.store
      → IsRevoked id (store_key p env r token w).1.store
  unfolding store_key
  store_key-IsRevoked id r token w other h = create_api_key-IsRevoked id r w.store other h

  make_key-IsRevoked :
      (id : String) (input : CreateApiKeyInput) (expires_at : Option String) (later : ℕ) (w : World)
      → env.create_key_id w.minted ≢ id
      → IsRevoked id w.store
      → IsRevoked id (make_key p env input expires_at later w).1.store
  unfolding make_key key_record
  make_key-IsRevoked id input expires_at later w other h =
      and_then-keeps (λ v. IsRevoked id v.store)
        (iso_of p later, record w { minted = suc w.minted }) _ h
        (λ at v k.
          store_key-IsRevoked id
            (key_record p env input (env.create_key_id w.minted)
              (token_of (env.create_key_id w.minted) (env.create_random_token w.minted)) expires_at
              at)
            _ v other k)

  create-IsRevoked :
      (id : String) (input : CreateApiKeyInput) (now later : ℕ) (w : World)
      → env.create_key_id w.minted ≢ id
      → IsRevoked id w.store
      → IsRevoked id (create p env input now later w).1.store
  unfolding create and_then
  create-IsRevoked id input now later w other h = checked (checked_expiry p input.expires_at now)
    where
      checked :
          (e : Result (Option String))
          → IsRevoked id
              (and_then (e, w) (λ expires_at w'. make_key p env input expires_at later w')).1.store
      checked (err e) = h
      checked (ok e) = make_key-IsRevoked id input e later w other h

  -- What a revocation writes.
  updated_in-IsRevoked :
      (id other at : String) (found : Option ApiKeyRecord) (s : CatalogStore)
      → at ≢ ""
      → get other s.api_keys ≡ found
      → (IsRevoked id s ⊎ ((other ≡ id) × is_some found ≡ true))
      → IsRevoked id
          (record s { api_keys = (updated_in other (revoked p env at) found s.api_keys).1 })
  unfolding updated_in IsRevoked revoked get_api_key
  updated_in-IsRevoked id other at none s given is (inl h) = h
  updated_in-IsRevoked id other at none s given is (inr (_, h)) = absurd (true-ne-false (sym h))
  updated_in-IsRevoked id other at (some k) s given is (inr (same, _)) =
      (revoked p env at k, at, get-put_same other id _ s.api_keys same, truthy_of_ne at given)
  updated_in-IsRevoked id other at (some k) s given is (inl (r, before, found, ended)) =
      elim (text_cases other id) [
        | inl same ↦
            (revoked p env at k, at, get-put_same other id _ s.api_keys same, truthy_of_ne at given)
        | inr differs ↦ (r, before, get-put_ne other id _ s.api_keys differs ∙ found, ended)
      ]

  revoke_at-IsRevoked :
      (id other at : String) (w : World)
      → at ≢ ""
      → (IsRevoked id w.store ⊎ ((other ≡ id) × is_some (get other w.store.api_keys) ≡ true))
      → IsRevoked id (revoke_at p env other at w).1.store
  unfolding revoke_at update_api_key
  revoke_at-IsRevoked id other at w given h =
      updated_in-IsRevoked id other at (get other w.store.api_keys) w.store given refl h

  revoke-IsRevoked :
      (id other : String) (now : ℕ) (w : World)
      → p.iso_string now ≢ ""
      → IsRevoked id w.store
      → IsRevoked id (revoke p env other now w).1.store
  unfolding revoke
  revoke-IsRevoked id other now w given h =
      and_then-either (λ v. IsRevoked id v.store) (iso_of p now, w) _ h
        λ at is. revoke_at-IsRevoked id other at w (iso_of-given p now at given is) (inl h)

  revoke_at_found :
      (id at : String) (w : World) {k : PublicApiKey}
      → (revoke_at p env id at w).0 ≡ ok k
      → is_some (get id w.store.api_keys) ≡ true
  unfolding revoke_at update_api_key updated_in
  revoke_at_found id at w {k} h = found_some (get id w.store.api_keys) h
    where
      found_some :
          (found : Option ApiKeyRecord)
          → (require (updated_in id (revoked p env at) found w.store.api_keys).0 not_found >>= λ r.
              ok (public_api_key r))
            ≡ ok k
          → is_some found ≡ true
      found_some none told = absurd (err-ne-ok told)
      found_some (some r) told = refl

  Calls-IsRevoked :
      (id : String) {w w' : World}
      → ((t : ℕ) → p.iso_string t ≢ "")
      → Calls p env id w w'
      → IsRevoked id w.store
      → IsRevoked id w'.store
  Calls-IsRevoked id dated Calls.done h = h
  Calls-IsRevoked id dated (Calls.creates input now later {w} other rest) h =
      Calls-IsRevoked id dated rest (create-IsRevoked id input now later w other h)
  Calls-IsRevoked id dated (Calls.revokes other now {w} rest) h =
      Calls-IsRevoked id dated rest (revoke-IsRevoked id other now w (dated now) h)

  -- A revocation that succeeds is permanent: whatever other keys are made and revoked after it, no
  -- token with this identifier is accepted, at no time; where no new key has this identifier and a
  -- time is never written as the empty text.
  pub revocation_is_permanent :
      (id token : String) (now later : ℕ) (w w' : World) (k : PublicApiKey)
      → ((t : ℕ) → p.iso_string t ≢ "")
      → scoped_key token ≡ some id
      → (revoke p env id now w).0 ≡ ok k
      → Calls p env id (revoke p env id now w).1 w'
      → authenticate p env token later w'.store ≡ err unauthorized
  unfolding revoke
  revocation_is_permanent id token now later w w' k dated form h calls =
      let (at, is, told, after) = and_then-eq-ok (iso_of p now, w) _ h in
      revoked_is_refused id token later w'.store form (
        Calls-IsRevoked id dated calls (
          subst (λ (v : World). IsRevoked id v.store) (sym after)
            (revoke_at-IsRevoked id id at w (iso_of-given p now at (dated now) is)
              (inr (refl, revoke_at_found id at w told)))))
