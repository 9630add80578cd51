-- ===== src/ApiKeys.antt =====
-- services/api-key-service.ts: API keys, over the in-memory store. Hashes, random texts and the bytes
-- of a text in UTF-8 are the runtime's.
pub mod Laws
pub mod Creation
pub mod Revocation
use hayasend.Base.{
  ℕ, zero, suc, String, Bool, true, false, not, ◌&&◌, ◌||◌, List, [], ◌∷◌, Option, none, some,
  Result, ok, err, ◌>>=◌, ◌>>◌, refuse_if, require, if◌then◌else◌, any, map, nat_beq, leb, as_set,
  is_some, validation_error, not_found, unauthorized,
}
use Prim.Native.String
use mathlib.Core.Option.{bind}
use Prim.Native.Char.{Char, code}
use hayasend.Model.Formats.{codes, id_char}
use hayasend.Platform.{Platform, to_iso, iso_of, not_after}
use hayasend.Secrets.{secrets_equal}
use hayasend.Store.State.{and_then}
use hayasend.Store.Pages.{Page, truthy}
use hayasend.Catalog.Enums.{ApiScope, api_scope_eq}
use hayasend.Catalog.Records.{ApiKeyRecord}
use hayasend.Catalog.State.{CatalogStore}
use hayasend.Catalog.Items.{create_api_key, get_api_key, update_api_key, list_api_keys}

pub record AuthenticatedPrincipal : Type 0 where
  pub id : String
  pub name : String
  pub scopes : List ApiScope
  pub bootstrap : Bool

pub record PublicApiKey : Type 0 where
  pub id : String
  pub name : String
  pub prefix : String
  pub scopes : List ApiScope
  pub created_at : String
  pub expires_at : Option String
  pub revoked_at : Option String

pub record Environment : Type 0 where
  -- what the n-th call gives: createId("key") and createRandomToken()
  pub create_key_id : ℕ → String
  pub create_random_token : ℕ → String
  pub sha256 : String → String
  pub utf8_bytes : String → List ℕ
  pub bootstrap_key : String

-- The store, and how many keys were made.
pub record World : Type 0 where
  pub store : CatalogStore
  pub minted : ℕ

abbrev pub Outcome {ℓ} : Type ℓ → Type ℓ
Outcome A = Result A × World

-- What stands behind a prefix.
unfoldable pub behind : String → String → Option String
behind String.[] s = some s
behind (String.◌∷◌ c cs) String.[] = none
behind (String.◌∷◌ c cs) (String.◌∷◌ d s) =
    let rest = behind cs s in if nat_beq (code c) (code d) then rest else none

unfoldable pub with_char : Char → Option (String × String) → Option (String × String)
with_char c none = none
with_char c (some (run, rest)) = some (String.◌∷◌ c run, rest)

-- `[class]{n}` at the front, and the rest
unfoldable pub run_of : (ℕ → Bool) → ℕ → String → Option (String × String)
run_of class zero s = some (String.[], s)
run_of class (suc n) String.[] = none
run_of class (suc n) (String.◌∷◌ c s) =
    let rest = run_of class n s in if class (code c) then with_char c rest else none

unfoldable pub is_hex : ℕ → Bool
is_hex c = (leb b'a' c && leb c b'f') || (leb b'0' c && leb c b'9')

unfoldable pub at_end : String × String → Option String
at_end (run, String.[]) = some run
at_end (run, String.◌∷◌ c s) = none

-- ^re_hs_(key_[a-f0-9]{32})\.[A-Za-z0-9_-]{43}$, and the identifier in it
unfoldable pub scoped_key : String → Option String
scoped_key token = bind (behind "re_hs_" token) λ rest. bind (behind "key_" rest) λ digits.
    bind (run_of is_hex 32 digits) λ (id, tail). bind (behind "." tail) λ secret.
      bind (run_of id_char 43 secret)
        λ read. bind (at_end read) λ whole. some (String.◌++◌ "key_" id)

unfoldable pub public_api_key : ApiKeyRecord → PublicApiKey
public_api_key r = record {
  id = r.id;
  name = r.name;
  prefix = r.prefix;
  scopes = r.scopes;
  created_at = r.created_at;
  expires_at = r.expires_at;
  revoked_at = r.revoked_at;
}

-- date && new Date(date).getTime() <= now
unfoldable pub is_over : Platform → Option String → ℕ → Bool
is_over p none now = false
is_over p (some at) now = not_after p at now

unfoldable pub principal_of : ApiKeyRecord → AuthenticatedPrincipal
principal_of r = record { id = r.id; name = r.name; scopes = r.scopes; bootstrap = false }

unfoldable pub bootstrap_principal : AuthenticatedPrincipal
bootstrap_principal = record {
  id = "bootstrap";
  name = "Bootstrap administrator";
  scopes = ApiScope.everything ∷ [];
  bootstrap = true;
}

-- `${token.slice(0, 20)}…`, of an ASCII token
unfoldable pub key_prefix : String → String
key_prefix token = String.◌++◌ (String.slice token 0 20) "…"

-- `re_hs_${id}.${secret}`
unfoldable pub token_of : String → String → String
token_of id secret = String.◌++◌ "re_hs_" (String.◌++◌ id (String.◌++◌ "." secret))

pub record CreateApiKeyInput : Type 0 where
  pub name : String
  pub scopes : List ApiScope
  pub expires_at : Option String

pub record CreatedApiKey : Type 0 where
  pub api_key : PublicApiKey
  pub token : String

-- expires_at ? new Date(expires_at).toISOString() : undefined
unfoldable pub iso_expiry : Platform → Option String → Result (Option String)
iso_expiry p none = ok none
iso_expiry p (some at) = to_iso p at >>= λ iso. ok (some iso)

unfoldable pub checked_expiry : Platform → Option String → ℕ → Result (Option String)
checked_expiry p expires_at now = do
  iso ← iso_expiry p (truthy expires_at)
  refuse_if (is_over p (truthy iso) now) validation_error
  ok (truthy iso)

module _ (p : Platform) (env : Environment) where
  unfoldable pub key_refused : String → ℕ → ApiKeyRecord → Bool
  key_refused token now r =
      is_some (truthy r.revoked_at)
      || is_over p (truthy r.expires_at) now
      || not (secrets_equal (env.utf8_bytes r.key_hash) (env.utf8_bytes (env.sha256 token)))

  unfoldable pub authenticate_key : String → ℕ → Option ApiKeyRecord → Result AuthenticatedPrincipal
  authenticate_key token now none = err unauthorized
  authenticate_key token now (some r) =
      if key_refused token now r then err unauthorized else ok (principal_of r)

  unfoldable pub authenticate_bootstrap : String → Result AuthenticatedPrincipal
  authenticate_bootstrap token =
      if is_some (behind "re_hs_" token) && any (nat_beq b'.') (codes token)
      then err unauthorized
      else if secrets_equal (env.utf8_bytes token) (env.utf8_bytes env.bootstrap_key)
      then ok bootstrap_principal
      else err unauthorized

  -- `now` is Date.now().
  unfoldable pub authenticate : String → ℕ → CatalogStore → Result AuthenticatedPrincipal
  authenticate token now s = elim (scoped_key token) [
    | some id ↦ authenticate_key token now (get_api_key id s)
    | none ↦ authenticate_bootstrap token
  ]

  unfoldable pub key_record :
      CreateApiKeyInput → String → String → Option String → String → ApiKeyRecord
  key_record input id token expires_at at = record {
    id = id;
    name = input.name;
    prefix = key_prefix token;
    key_hash = env.sha256 token;
    scopes = as_set input.scopes;
    created_at = at;
    expires_at = expires_at;
    revoked_at = none;
  }

  unfoldable pub store_key : ApiKeyRecord → String → World → Outcome CreatedApiKey
  store_key r token w = (
    ok (record { api_key = public_api_key r; token = token }),
    record w { store = create_api_key r w.store },
  )

  unfoldable pub make_key : CreateApiKeyInput → Option String → ℕ → World → Outcome CreatedApiKey
  make_key input expires_at later w =
      let id : String = env.create_key_id w.minted in
      let token : String = token_of id (env.create_random_token w.minted) in
      and_then (iso_of p later, record w { minted = suc w.minted })
        λ at w'. store_key (key_record input id token expires_at at) token w'

  -- `now` and `later` are its two readings of the clock.
  unfoldable pub create : CreateApiKeyInput → ℕ → ℕ → World → Outcome CreatedApiKey
  create input now later w =
      and_then (checked_expiry p input.expires_at now, w)
        λ expires_at w'. make_key input expires_at later w'

  unfoldable pub list : ℕ → Option String → World → Result (Page PublicApiKey)
  list limit cursor w = list_api_keys p limit cursor w.store >>= λ page. ok (record {
    entries = map public_api_key page.entries;
    has_more = page.has_more;
    next_cursor = page.next_cursor;
  })

  unfoldable pub get : String → World → Result PublicApiKey
  get id w = require (get_api_key id w.store) not_found >>= λ r. ok (public_api_key r)

  unfoldable pub revoked : String → ApiKeyRecord → ApiKeyRecord
  revoked at r = record r { revoked_at = some at }

  unfoldable pub revoke_at : String → String → World → Outcome PublicApiKey
  revoke_at id at w =
      let (r, s) = update_api_key id (revoked at) w.store in
      (require r not_found >>= λ k. ok (public_api_key k), record w { store = s })

  unfoldable pub revoke : String → ℕ → World → Outcome PublicApiKey
  revoke id now w = and_then (iso_of p now, w) λ at w'. revoke_at id at w'
