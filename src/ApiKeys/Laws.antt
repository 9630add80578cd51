-- ===== src/ApiKeys/Laws.antt =====
-- What a key opens: the key that is stored, until it ends or is revoked.
use hayasend.Base.{
  ℕ, ◌<◌, ◌≡◌, refl, sym, String, Bool, true, false, not, ◌||◌, ◌⊎◌, inl, inr, Option, none, some,
  Result, ok, err, All, length, or_false, not-false, if◌then◌else◌, is_some, err-ne-ok, ok_inj,
  true-ne-false, unauthorized, string_eq,
}
use Prim.Native.Nat.{◌^◌}
use hayasend.Platform.{Platform}
use hayasend.Secrets.{secrets_equal}
use hayasend.Secrets.Laws.{IsByte, secrets_equal_iff}
use hayasend.Store.Pages.{truthy}
use hayasend.Catalog.Enums.{api_scope_eq}
use hayasend.Catalog.Records.{ApiKeyRecord}
use hayasend.Catalog.State.{CatalogStore}
use hayasend.Catalog.Items.{get_api_key}
use hayasend.ApiKeys.{
  AuthenticatedPrincipal, Environment, scoped_key, is_over, principal_of, bootstrap_principal,
  key_refused, authenticate_key, authenticate_bootstrap, authenticate,
}

not_refused :
    (refused : Bool) {a who : AuthenticatedPrincipal}
    → (if refused then err unauthorized else ok a) ≡ ok who
    → (refused ≡ false) × (who ≡ a)
not_refused true h = absurd (err-ne-ok h)
not_refused false h = (refl, sym (ok_inj h))

not_refused_else :
    (refused : Bool) {r : Result AuthenticatedPrincipal} {who : AuthenticatedPrincipal}
    → (if refused then err unauthorized else r) ≡ ok who
    → (refused ≡ false) × (r ≡ ok who)
not_refused_else true h = absurd (err-ne-ok h)
not_refused_else false h = (refl, h)

when_equal :
    (same : Bool) {a who : AuthenticatedPrincipal}
    → (if same then ok a else err unauthorized) ≡ ok who
    → (same ≡ true) × (who ≡ a)
when_equal true h = (refl, sym (ok_inj h))
when_equal false h = absurd (err-ne-ok h)

module _ (p : Platform) (env : Environment) where
  -- A text of bytes, whose number has at most 32 bits.
  abbrev pub IsShort : String → Type 0
  IsShort s = All IsByte (env.utf8_bytes s) × (length (env.utf8_bytes s) < 2 ^ 32)

  same_secret :
      (a b : String)
      → IsShort a
      → IsShort b
      → secrets_equal (env.utf8_bytes a) (env.utf8_bytes b) ≡ true
      → env.utf8_bytes a ≡ env.utf8_bytes b
  same_secret a b ka kb h =
      (secrets_equal_iff (env.utf8_bytes a) (env.utf8_bytes b) ka.0 kb.0 ka.1 kb.1).0 h

  -- What a scoped key that is accepted shows of the record under its identifier.
  abbrev pub Opens : String → ℕ → CatalogStore → AuthenticatedPrincipal → Type 0
  Opens token now s who =
      (id : String) × (r : ApiKeyRecord) × (scoped_key token ≡ some id)
      × (get_api_key id s ≡ some r)
      × (truthy r.revoked_at ≡ none)
      × (is_over p (truthy r.expires_at) now ≡ false)
      × (env.utf8_bytes r.key_hash ≡ env.utf8_bytes (env.sha256 token))
      × (who ≡ principal_of r)

  is_some-false : {A : Type 0} (o : Option A) → is_some o ≡ false → o ≡ none
  is_some-false none h = refl
  is_some-false (some a) h = absurd (true-ne-false h)

  key_opens :
      (token : String) (now : ℕ) (r : ApiKeyRecord) (who : AuthenticatedPrincipal)
      → IsShort r.key_hash
      → IsShort (env.sha256 token)
      → authenticate_key p env token now (some r) ≡ ok who
      → (truthy r.revoked_at ≡ none)
        × (is_over p (truthy r.expires_at) now ≡ false)
        × (env.utf8_bytes r.key_hash ≡ env.utf8_bytes (env.sha256 token))
        × (who ≡ principal_of r)
  unfolding authenticate_key key_refused
  key_opens token now r who kr kt h =
      let (accepted, is) = not_refused (key_refused p env token now r) h in
      let over : Bool = is_over p (truthy r.expires_at) now in
      let differs : Bool =
        not (secrets_equal (env.utf8_bytes r.key_hash) (env.utf8_bytes (env.sha256 token))) in
      let (first, same) = or_false (is_some (truthy r.revoked_at) || over) differs accepted in
      let (alive, current) = or_false (is_some (truthy r.revoked_at)) over first in
      (
        is_some-false _ alive,
        current,
        same_secret r.key_hash (env.sha256 token) kr kt (not-false _ same),
        is,
      )

  found-Opens :
      (token : String) (now : ℕ) (s : CatalogStore) (id : String) (found : Option ApiKeyRecord)
      (who : AuthenticatedPrincipal)
      → scoped_key token ≡ some id
      → get_api_key id s ≡ found
      → ((r : ApiKeyRecord) → found ≡ some r → IsShort r.key_hash)
      → IsShort (env.sha256 token)
      → authenticate_key p env token now found ≡ ok who
      → Opens token now s who
  unfolding authenticate_key
  found-Opens token now s id none who at is short kt h = absurd (err-ne-ok h)
  found-Opens token now s id (some r) who at is short kt h =
      let (alive, current, same, who_is) = key_opens token now r who (short r refl) kt h in
      (id, r, at, is, alive, current, same, who_is)

  bootstrap_opens :
      (token : String) (who : AuthenticatedPrincipal)
      → IsShort token
      → IsShort env.bootstrap_key
      → authenticate_bootstrap p env token ≡ ok who
      → (env.utf8_bytes token ≡ env.utf8_bytes env.bootstrap_key) × (who ≡ bootstrap_principal)
  unfolding authenticate_bootstrap
  bootstrap_opens token who kt kb h =
      let (_, is) = not_refused_else _ h in
      let (same, who_is) = when_equal _ is in
      (same_secret token env.bootstrap_key kt kb same, who_is)

  -- What `authenticate` accepts, where the secrets that it compares are texts of bytes of a common
  -- size, opens exactly what was granted: either the token is the bootstrap key, or its hash is that of
  -- the key stored under the identifier in it, which is not revoked and not over, and the principal
  -- has the scopes of this key and no others.
  pub authenticate_grants :
      (token : String) (now : ℕ) (s : CatalogStore) (who : AuthenticatedPrincipal)
      → IsShort token
      → IsShort env.bootstrap_key
      → IsShort (env.sha256 token)
      → ((id : String) (r : ApiKeyRecord) → get_api_key id s ≡ some r → IsShort r.key_hash)
      → authenticate p env token now s ≡ ok who
      → Opens token now s who
        ⊎ ((scoped_key token ≡ none)
            × (env.utf8_bytes token ≡ env.utf8_bytes env.bootstrap_key)
            × (who ≡ bootstrap_principal))
  unfolding authenticate
  authenticate_grants token now s who kt kb kh short h = go (scoped_key token) refl h
    where
      go :
          (found : Option String)
          → scoped_key token ≡ found
          → elim found [
            | some id ↦ authenticate_key p env token now (get_api_key id s)
            | none ↦ authenticate_bootstrap p env token
          ]
            ≡ ok who
          → Opens token now s who
            ⊎ ((scoped_key token ≡ none)
                × (env.utf8_bytes token ≡ env.utf8_bytes env.bootstrap_key)
                × (who ≡ bootstrap_principal))
      go none at h =
          let (same, who_is) = bootstrap_opens token who kt kb h in inr (at, same, who_is)
      go (some id) at h =
          inl (found-Opens token now s id (get_api_key id s) who at refl (short id) kh h)

  pub scoped_lem :
      (token id : String) (at : ℕ) (s : CatalogStore)
      → scoped_key token ≡ some id
      → authenticate p env token at s ≡ authenticate_key p env token at (get_api_key id s)
  unfolding authenticate
  scoped_lem token id at s form = rw (authenticate, form) refl
