-- ===== src/Suppressions.antt =====
-- services/suppression-service.ts: suppressed addresses, over the in-memory store. The hash of an
-- address and `toLowerCase` are the runtime's.
pub mod Laws
use hayasend.Base.{
  ℕ, zero, suc, ◌≡◌, refl, sym, ap, ◌∙◌, String, Bool, true, false, not, ◌&&◌, ◌||◌, List, [], ◌∷◌,
  Option, none, some, Result, ok, err, ◌>>=◌, ◌>>◌, refuse_if, require, traverse, if◌then◌else◌,
  all, any, nat_beq, nat_eq, list_eq, as_set, validation_error, not_found, ok_inj, err-ne-ok,
  >>=-eq-ok, ◌<◌,
}
use hayasend.Model.Formats.{codes}
use hayasend.Platform.{Platform, iso_of}
use hayasend.Text.{Text, is_white, trim}
use hayasend.Store.Pages.{Page, truthy}
use hayasend.Store.State.{and_then}
use hayasend.Catalog.Records.{SuppressionReason, SuppressionRecord}
use hayasend.Catalog.State.{CatalogStore}
use hayasend.Catalog.Items.{put_suppression, get_suppression, delete_suppression, list_suppressions}

-- A string of the service is the text of its code points where it is read by an expression.
pub record Environment : Type 0 where
  pub sha256 : Text → String
  pub to_lower_case : Text → Text
  pub string_of : Text → String

-- [^<>\s]
unfoldable pub in_angle : ℕ → Bool
in_angle c = not (nat_beq c b'<' || nat_beq c b'>' || is_white c)

-- What stands in front of the `>` that ends a text, if all of it may stand between angles.
unfoldable pub closed_by_angle : Text → Option Text
closed_by_angle [] = none
closed_by_angle (c ∷ []) = if nat_beq c b'>' then some [] else none
closed_by_angle (c ∷ d ∷ cs) =
    let rest = closed_by_angle (d ∷ cs) in
    if in_angle c then elim rest [ none ↦ none | some t ↦ some (c ∷ t) ] else none

-- Whether a character, which is not the first, has another behind it: `+c[...]+` after the first.
unfoldable pub inner : ℕ → Text → Bool
inner c [] = false
inner c (d ∷ []) = false
inner c (d ∷ e ∷ cs) = nat_beq c d || inner c (e ∷ cs)

unfoldable pub inner_of : ℕ → Text → Bool
inner_of c [] = false
inner_of c (d ∷ cs) = inner c cs

-- /<([^<>\s]+@[^<>\s]+)>$/.exec(value)?.[1]
unfoldable pub angle_address : Text → Option Text
angle_address [] = none
angle_address (c ∷ cs) =
    let rest = angle_address cs in
    if nat_beq c b'<'
    then elim (closed_by_angle cs) [
      | none ↦ rest
      | some t ↦ if inner_of b'@' t then some t else rest
    ]
    else rest

-- What stands behind the first `@`.
unfoldable pub behind_at : Text → Option Text
behind_at [] = none
behind_at (c ∷ cs) = let rest = behind_at cs in if nat_beq c b'@' then some cs else rest

-- ^[^@\s]+@[^@\s]+\.[^@\s]+$
unfoldable pub is_mailbox : Text → Bool
is_mailbox t = elim (behind_at t) [
  | none ↦ false
  | some domain ↦
      inner_of b'@' t
      && all (λ c. not (is_white c)) t
      && all (λ c. not (nat_beq c b'@')) domain
      && inner_of b'.' domain
]

unfoldable pub or_text : Option Text → Text → Text
or_text none t = t
or_text (some a) t = a

pub record PutSuppressionInput : Type 0 where
  pub email : Text
  pub reason : SuppressionReason
  pub source_email_id : Option String
  pub detail : Option String

module _ (p : Platform) (env : Environment) where
  unfoldable pub normalize_mailbox : Text → Result Text
  normalize_mailbox value =
      let normalized : Text =
        env.to_lower_case (or_text (angle_address (trim value)) (trim value)) in
      refuse_if (not (is_mailbox normalized)) validation_error >> ok normalized

  -- existing?.created_at ?? now
  unfoldable pub first_created : Option SuppressionRecord → String → String
  first_created none now = now
  first_created (some existing) now = existing.created_at

  unfoldable pub suppression_record :
      PutSuppressionInput → Text → Option SuppressionRecord → String → SuppressionRecord
  suppression_record input email existing now = record {
    id = env.sha256 email;
    email = env.string_of email;
    reason = input.reason;
    created_at = first_created existing now;
    updated_at = now;
    source_email_id = truthy input.source_email_id;
    detail = truthy input.detail;
  }

  unfoldable pub put_normalized :
      PutSuppressionInput → Text → String → CatalogStore → Result SuppressionRecord × CatalogStore
  put_normalized input email now s =
      let r : SuppressionRecord =
        suppression_record input email (get_suppression (env.sha256 email) s) now in
      (ok r, put_suppression r s)

  unfoldable pub put :
      PutSuppressionInput → ℕ → CatalogStore → Result SuppressionRecord × CatalogStore
  put input now s =
      and_then (normalize_mailbox input.email, s)
        λ email s1. and_then (iso_of p now, s1) λ at s2. put_normalized input email at s2

  unfoldable pub get : Text → CatalogStore → Result SuppressionRecord
  get email s = normalize_mailbox email >>= λ normalized.
      require (get_suppression (env.sha256 normalized) s) not_found

  unfoldable pub stored_each : CatalogStore → List Text → List SuppressionRecord
  stored_each s [] = []
  stored_each s (email ∷ emails) =
      let rest = stored_each s emails in
      elim (get_suppression (env.sha256 email) s) [ none ↦ rest | some r ↦ r ∷ rest ]

  unfoldable pub find_suppressed : List Text → CatalogStore → Result (List SuppressionRecord)
  find_suppressed addresses s =
      traverse normalize_mailbox addresses >>= λ normalized. ok (stored_each s (as_set normalized))

  unfoldable pub list : ℕ → Option String → CatalogStore → Result (Page SuppressionRecord)
  list limit cursor s = list_suppressions p limit cursor s

  unfoldable pub deleted : Bool × CatalogStore → Result (Unit {0}) × CatalogStore
  deleted (found, s) = (refuse_if (not found) not_found, s)

  unfoldable pub delete : Text → CatalogStore → Result (Unit {0}) × CatalogStore
  delete email s =
      and_then (normalize_mailbox email, s)
        λ normalized s'. deleted (delete_suppression (env.sha256 normalized) s')
