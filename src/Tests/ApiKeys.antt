-- ===== src/Tests/ApiKeys.antt =====
-- Keys at small inputs: one is made, opens its scopes, and is revoked.
use hayasend.Base.{
  ◌<◌, ◌≡◌, refl, String, Bool, true, false, [], ◌∷◌, none, some, ok, err, arith, unauthorized, ◌⊎◌,
  length, all, ltb, All-of_all, some_inj, none-ne-some, subst, if◌then◌else◌, ◌==◌, string_eq,
}
use text.Mathlib.TextEquality.{eq_iff}
use hayasend.Model.Formats.{codes, id_char}
use mathlib.Core.Option.{bind}
use hayasend.Platform.{iso_of, max_date}
use hayasend.Store.State.{and_then}
use hayasend.Secrets.Laws.{IsByte}
use hayasend.Store.Pages.{truthy}
use hayasend.Catalog.Enums.{ApiScope}
use hayasend.Catalog.Records.{ApiKeyRecord}
use hayasend.Catalog.State.{CatalogStore}
use hayasend.Catalog.Items.{get_api_key, create_api_key, update_api_key, updated_in}
use hayasend.Base.Assoc.{get, put}
use Prim.Native.Nat.{◌^◌}
use hayasend.ApiKeys.{
  AuthenticatedPrincipal, Environment, World, CreateApiKeyInput, CreatedApiKey, scoped_key,
  token_of, authenticate, create, revoke, bootstrap_principal, is_over, behind, run_of, with_char,
  is_hex, at_end, iso_expiry, key_prefix, public_api_key, revoked, revoke_at, checked_expiry,
  make_key, store_key, key_record,
}
use hayasend.ApiKeys.Laws.{authenticate_grants, IsShort, Opens}
use hayasend.ApiKeys.Creation.{created_key_authenticates, granted}
use hayasend.ApiKeys.Revocation.{Calls, revocation_is_permanent}
use hayasend.Tests.Webhooks.{lasting}

abbrev key_environment : Environment
key_environment = record {
  create_key_id = λ n. "key_0123456789abcdef0123456789abcdef";
  create_random_token = λ n. "abcdefghijklmnopqrstuvwxyzABCDEFGHIJKLMNOPQ";
  sha256 = λ s. s;
  utf8_bytes = codes;
  bootstrap_key = "boot";
}

abbrev no_keys : CatalogStore
no_keys = record {
  attachment_uploads = [];
  received_emails = [];
  received_claims = [];
  domains = [];
  webhooks = [];
  webhook_deliveries = [];
  api_keys = [];
  suppressions = [];
}

abbrev key_world : World
key_world = record { store = no_keys; minted = 0 }

abbrev key_input : CreateApiKeyInput
key_input = record {
  name = "shop";
  scopes = ApiScope.emails_send ∷ ApiScope.emails_send ∷ ApiScope.emails_read ∷ [];
  expires_at = none;
}

abbrev test_key_id : String
test_key_id = "key_0123456789abcdef0123456789abcdef"

abbrev test_token : String
test_token =
    "re_hs_key_0123456789abcdef0123456789abcdef.abcdefghijklmnopqrstuvwxyzABCDEFGHIJKLMNOPQ"

token_form : scoped_key test_token ≡ some test_key_id
unfolding scoped_key behind run_of with_char is_hex at_end bind id_char
token_form = refl

-- A short identifier and a legacy token are not of the form.
form_test : scoped_key "re_hs_key_01.abc" ≡ none
unfolding scoped_key behind run_of with_char is_hex at_end bind id_char
form_test = refl

abbrev made_key : CreatedApiKey
made_key = record {
  api_key = record {
    id = test_key_id;
    name = "shop";
    prefix = "re_hs_key_0123456789…";
    scopes = ApiScope.emails_send ∷ ApiScope.emails_read ∷ [];
    created_at = "I";
    expires_at = none;
    revoked_at = none;
  };
  token = test_token;
}

made_run : (create lasting key_environment key_input 5 5 key_world).0 ≡ ok made_key
unfolding create checked_expiry iso_expiry is_over truthy make_key store_key key_record key_prefix
    token_of public_api_key and_then iso_of max_date
made_run = refl

abbrev after_creation : World
after_creation = (create lasting key_environment key_input 5 5 key_world).1

created_key_authenticates_example :
    authenticate lasting key_environment test_token 9 after_creation.store
    ≡ ok (granted lasting key_environment key_input test_key_id)
unfolding token_of is_over truthy
created_key_authenticates_example =
    created_key_authenticates lasting key_environment key_input 5 5 9 key_world made_key token_form
      made_run refl

short :
    (s : String)
    → all (λ c. ltb c 256) (codes s) ≡ true
    → length (codes s) < 2 ^ 32
    → IsShort lasting key_environment s
short s h n = (All-of_all IsByte (λ c. ltb c 256) (λ c k. ground arith) (codes s) h, n)

abbrev shop : AuthenticatedPrincipal
shop = granted lasting key_environment key_input test_key_id

found-IsShort :
    (found : Bool) (r s : ApiKeyRecord)
    → (if found then some r else none) ≡ some s
    → IsShort lasting key_environment r.key_hash
    → IsShort lasting key_environment s.key_hash
found-IsShort true r s h k = subst (λ x. IsShort lasting key_environment x.key_hash) (some_inj h) k
found-IsShort false r s h k = absurd (none-ne-some h)

stored_keys-IsShort :
    (id : String) (r : ApiKeyRecord)
    → get_api_key id after_creation.store ≡ some r
    → IsShort lasting key_environment r.key_hash
unfolding create checked_expiry iso_expiry is_over truthy make_key store_key key_record key_prefix
    token_of and_then iso_of max_date create_api_key get_api_key get put
stored_keys-IsShort id r h =
    found-IsShort (test_key_id == id) _ r h (short test_token refl (omega arith))

opened : authenticate lasting key_environment test_token 9 after_creation.store ≡ ok shop
unfolding token_of is_over truthy
opened =
    created_key_authenticates lasting key_environment key_input 5 5 9 key_world made_key token_form
      made_run refl

authenticate_grants_example :
    Opens lasting key_environment test_token 9 after_creation.store shop
    ⊎ ((scoped_key test_token ≡ none)
        × (codes test_token ≡ codes "boot")
        × (shop ≡ bootstrap_principal))
authenticate_grants_example =
    authenticate_grants lasting key_environment test_token 9 after_creation.store shop
      (short test_token refl (omega arith)) (short "boot" refl (omega arith))
      (short test_token refl (omega arith)) stored_keys-IsShort opened

revoked_run :
    (revoke lasting key_environment test_key_id 6 after_creation).0
    ≡ ok (record made_key.api_key { revoked_at = some "I" })
unfolding create checked_expiry iso_expiry is_over truthy make_key store_key key_record key_prefix
    token_of public_api_key and_then iso_of max_date revoke revoke_at update_api_key updated_in
    revoked get put create_api_key
revoked_run = refl

abbrev after_revocation : World
after_revocation = (revoke lasting key_environment test_key_id 6 after_creation).1

revocation_is_permanent_example :
    authenticate lasting key_environment test_token 9
      (revoke lasting key_environment "key_other" 7 after_revocation).1.store
    ≡ err unauthorized
revocation_is_permanent_example =
    revocation_is_permanent lasting key_environment test_key_id test_token 6 9 after_creation
      (revoke lasting key_environment "key_other" 7 after_revocation).1
      (record made_key.api_key { revoked_at = some "I" }) (λ t e. ground (arith, eq_iff "I" ""))
      token_form revoked_run (Calls.revokes "key_other" 7 Calls.done)
