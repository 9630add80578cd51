-- ===== src/ApiKeys/Creation.antt =====
-- services/api-key-service.ts: the key that `create` makes is one that `authenticate` accepts.
use hayasend.Base.{
  ℕ, suc, ◌≡◌, refl, sym, ap, ◌∙◌, String, false, Option, none, some, Result, ok, err, err-ne-ok,
  ok_inj, as_set, string_eq, subst,
}
use hayasend.Base.Assoc.{get-put_same}
use hayasend.Platform.{Platform, iso_of}
use hayasend.Secrets.Laws.{secrets_equal_self}
use hayasend.Store.State.{and_then, and_then-eq-ok}
use hayasend.Store.Pages.{truthy}
use hayasend.Catalog.Enums.{api_scope_eq}
use hayasend.Catalog.Records.{ApiKeyRecord}
use hayasend.Catalog.State.{CatalogStore}
use hayasend.Catalog.Items.{create_api_key, get_api_key}
use hayasend.ApiKeys.{
  AuthenticatedPrincipal, Environment, World, CreateApiKeyInput, CreatedApiKey, scoped_key,
  public_api_key, is_over, principal_of, token_of, checked_expiry, key_refused, authenticate_key,
  authenticate, key_record, store_key, make_key, create,
}
use hayasend.ApiKeys.Laws.{scoped_lem}

module _ (p : Platform) (env : Environment) where
  abbrev pub granted : CreateApiKeyInput → String → AuthenticatedPrincipal
  granted input id = record {
    id = id;
    name = input.name;
    scopes = as_set input.scopes;
    bootstrap = false;
  }

  key_accepted :
      (token : String) (at : ℕ) (r : ApiKeyRecord)
      → truthy r.revoked_at ≡ none
      → r.key_hash ≡ env.sha256 token
      → is_over p (truthy r.expires_at) at ≡ false
      → authenticate_key p env token at (some r) ≡ ok (principal_of r)
  unfolding authenticate_key key_refused
  key_accepted token at r alive hash current =
      rw (alive, current, hash, secrets_equal_self (env.utf8_bytes (env.sha256 token))) refl

  record_opens :
      (token id : String) (at : ℕ) (r : ApiKeyRecord) (s : CatalogStore)
      → scoped_key token ≡ some id
      → id ≡ r.id
      → truthy r.revoked_at ≡ none
      → r.key_hash ≡ env.sha256 token
      → is_over p (truthy r.expires_at) at ≡ false
      → authenticate p env token at (create_api_key r s) ≡ ok (principal_of r)
  unfolding get_api_key create_api_key
  record_opens token id at r s form here alive hash current =
      scoped_lem p env token id at (create_api_key r s) form
      ∙ ap (authenticate_key p env token at) (get-put_same r.id id r s.api_keys (sym here))
      ∙ key_accepted token at r alive hash current

  stored_opens :
      (input : CreateApiKeyInput) (expires_at : Option String) (at : ℕ) (token id : String)
      (iso : Result String) (w : World) (made : CreatedApiKey)
      → scoped_key token ≡ some id
      → (and_then
          (iso, w)
          (λ t w'. store_key p env (key_record p env input id token expires_at t) token w')).0
        ≡ ok made
      → is_over p (truthy made.api_key.expires_at) at ≡ false
      → authenticate p env made.token at
          (and_then
            (iso, w)
            (λ t w'.
              store_key p env (key_record p env input id token expires_at t) token w')).1.store
        ≡ ok (granted input id)
  unfolding and_then store_key key_record principal_of public_api_key truthy
  stored_opens input expires_at at token id (err e) w made form h current = absurd (err-ne-ok h)
  stored_opens input expires_at at token id (ok t) w made form h current =
      let r : ApiKeyRecord = key_record p env input id token expires_at t in
      subst
        (λ (m : CreatedApiKey).
          is_over p (truthy m.api_key.expires_at) at ≡ false
          → authenticate p env m.token at (create_api_key r w.store) ≡ ok (granted input id))
        (ok_inj h) (record_opens token id at r w.store form refl refl refl) current

  made_opens :
      (input : CreateApiKeyInput) (expires_at : Option String) (later at : ℕ) (w : World)
      (made : CreatedApiKey)
      → scoped_key (token_of (env.create_key_id w.minted) (env.create_random_token w.minted))
        ≡ some (env.create_key_id w.minted)
      → (make_key p env input expires_at later w).0 ≡ ok made
      → is_over p (truthy made.api_key.expires_at) at ≡ false
      → authenticate p env made.token at (make_key p env input expires_at later w).1.store
        ≡ ok (granted input (env.create_key_id w.minted))
  unfolding make_key
  made_opens input expires_at later at w made form h current =
      let id : String = env.create_key_id w.minted in
      let token : String = token_of id (env.create_random_token w.minted) in
      stored_opens input expires_at at token id (iso_of p later)
        (record w { minted = suc w.minted }) made form h current

  -- A key that was made opens what was asked for, from then on until it is over: where its token has
  -- the form of a scoped key, `authenticate` gives its identifier, its name and its scopes, each once.
  pub created_key_authenticates :
      (input : CreateApiKeyInput) (now later at : ℕ) (w : World) (made : CreatedApiKey)
      → scoped_key (token_of (env.create_key_id w.minted) (env.create_random_token w.minted))
        ≡ some (env.create_key_id w.minted)
      → (create p env input now later w).0 ≡ ok made
      → is_over p (truthy made.api_key.expires_at) at ≡ false
      → authenticate p env made.token at (create p env input now later w).1.store
        ≡ ok (granted input (env.create_key_id w.minted))
  unfolding create
  created_key_authenticates input now later at w made form h current =
      let (expires_at, _, given, after) =
        and_then-eq-ok (checked_expiry p input.expires_at now, w)
          (λ e w'. make_key p env input e later w') h in
      subst
        (λ v.
          authenticate p env made.token at v.store
          ≡ ok (granted input (env.create_key_id w.minted)))
        (sym after) (made_opens input expires_at later at w made form given current)
