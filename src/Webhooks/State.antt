-- ===== src/Webhooks/State.antt =====
-- services/webhook-service.ts: what the service works on, and what it is given: clocks, identifiers,
-- the queue, the HTTP client and the address rules of its options.
use hayasend.Base.{ℕ, suc, String, Bool, List, Option, Result}
use hayasend.Platform.{Platform, iso_of}
use hayasend.Jobs.{Job}
use hayasend.Catalog.Records.{WebhookEvent}
use hayasend.Catalog.State.{CatalogStore}

-- What the service reads of a URL; `length` is that of its text.
pub record Url : Type 0 where
  pub href : String
  pub length : ℕ
  pub protocol : String
  pub username : String
  pub password : String
  pub hash : String

pub record HttpRequest : Type 0 where
  pub url : String
  pub delivery_id : String
  pub timestamp : String
  pub signature : String
  pub body : String

-- What the HTTP client does: it throws, with the message that `safeFailureMessage` makes of the
-- error, or it gives a response with `ok` and `status`.
pub data HttpAnswer : Type 0 where
  thrown : String → HttpAnswer
  response : Bool → ℕ → HttpAnswer

pub record World : Type 0 where
  pub catalog : CatalogStore
  -- how often a clock was read, and how many identifiers were made
  pub readings : ℕ
  pub minted : ℕ
  -- what the queue has taken and the requests that were made, in order
  pub jobs : List Job
  pub requests : List HttpRequest

pub record Environment : Type 0 where
  -- the n-th reading of a clock: `this.now()`, `new Date()` and `Date.now()`
  pub clock : ℕ → ℕ
  pub create_id : String → ℕ → String
  pub create_webhook_secret : ℕ → String
  -- new URL(text), which may throw
  pub parse_url : String → Option Url
  -- validateEndpoint, which throws where this is false
  pub validate_endpoint : Url → Bool
  -- queue.enqueue(job): the message of `safeFailureMessage` where it throws
  pub enqueue : ℕ → Job → Option String
  pub http_fetch : ℕ → HttpRequest → HttpAnswer
  pub sign_webhook : String → String → String → String → String
  -- JSON.stringify(event)
  pub event_json : WebhookEvent → String
  -- String(Math.floor(ms / 1_000)), of NaN too
  pub seconds_text : Option ℕ → String
  -- `HTTP ${status}`
  pub status_text : ℕ → String

abbrev pub Outcome {ℓ} : Type ℓ → Type ℓ
Outcome A = Result A × World

module _ (env : Environment) where
  unfoldable pub read_clock : World → ℕ × World
  read_clock w = (env.clock w.readings, record w { readings = suc w.readings })

  unfoldable pub mint_id : String → World → String × World
  mint_id prefix w = (env.create_id prefix w.minted, record w { minted = suc w.minted })

  unfoldable pub mint_secret : World → String × World
  mint_secret w = (env.create_webhook_secret w.minted, record w { minted = suc w.minted })

  -- The time of a clock as an ISO text.
  unfoldable pub iso_now : Platform → World → Outcome String
  iso_now p w = let (now, w') = read_clock w in (iso_of p now, w')
