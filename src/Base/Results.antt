-- ===== src/Base/Results.antt =====
-- What a call of the source gives: a value, or the error that it throws.
use mathlib.Core.Path.{◌≡◌, refl}
use mathlib.Core.Bool.{Bool, true, false}
use mathlib.Core.Option.{Option, none, some}
use mathlib.Core.List.{List, [], ◌∷◌}

-- One constructor for each `throw`, and for what the schemas and the hook of the store throw.
pub data Error : Type 0 where
  schema_error invalid_time : Error
  ledger_mismatch attempt_mismatch not_queued attempt_not_active attempt_not_owner : Error
  event_not_correlated submission_active no_recipients : Error
  invalid_current_time not_dispatchable message_mismatch claim_mismatch : Error
  recipients_mismatch recipients_repeated outbox_mismatch : Error
  key_reused email_unavailable records_unavailable identity_in_use recipient_in_use : Error
  attempt_in_use attempt_missing completed_differently event_in_use : Error
  invalid_owner invalid_lease_seconds invalid_limit limit_too_large : Error
  invalid_cursor hook_error : Error
  owner_not_opaque lease_not_positive batch_out_of_range interval_not_positive : Error
  alias_in_use : Error
  job_id_too_long message_too_long not_an_object not_a_job : Error
  schedule_not_a_time schedule_in_the_past schedule_too_late : Error
  validation_error not_found unauthorized wrong_endpoint id_collision : Error
  conflict precondition_failed enqueue_failed request_failed refused_with_status : Error

pub data Result {κ} (T : Type κ) : Type κ where
  ok : T → Result T
  err : Error → Result T

infixl 5 ◌>>=◌ ◌>>◌
abbrev pub ◌>>=◌ {ι κ} :
    {S : Type ι} {T : Type κ} (first : Result S) (next : S → Result T) → Result T
(err problem) >>= next = err problem
(ok value) >>= next = next value

abbrev pub ◌>>◌ {κ} : {T : Type κ} (first : Result (Unit {0})) (second : Result T) → Result T
first >> second = first >>= λ _. second

-- `if (bad) throw`
abbrev pub refuse_if : Bool → Error → Result (Unit {0})
refuse_if true e = err e
refuse_if false e = ok tt

abbrev pub require {ℓ} : {A : Type ℓ} → Option A → Error → Result A
require none e = err e
require (some a) e = ok a

-- `xs.map(f)` where `f` may throw.
abbrev pub traverse {ℓ κ} : {A : Type ℓ} {B : Type κ} → (A → Result B) → List A → Result (List B)
traverse f [] = ok []
traverse f (x ∷ xs) = f x >>= λ y. traverse f xs >>= λ ys. ok (y ∷ ys)

pub >>=-eq-ok {ι κ} :
    {S : Type ι} {T : Type κ} (first : Result S) (next : S → Result T) {result : T}
    → (first >>= next) ≡ ok result
    → (value : S) × (first ≡ ok value) × (next value ≡ ok result)
>>=-eq-ok (err problem) next same = cc
>>=-eq-ok (ok value) next same = (value, refl, same)

pub refuse_if-eq-ok {ℓ} :
    {B : Type ℓ} (c : Bool) (e : Error) (k : Result B) {b : B}
    → (refuse_if c e >> k) ≡ ok b
    → (c ≡ false) × (k ≡ ok b)
refuse_if-eq-ok true e k h = (cc, cc)
refuse_if-eq-ok false e k h = (refl, h)

pub require-eq-ok {ℓ} :
    {A : Type ℓ} (o : Option A) (e : Error) {a : A} → require o e ≡ ok a → o ≡ some a
require-eq-ok none e h = cc
require-eq-ok (some a) e h = cc

pub ok_inj {ℓ} : {A : Type ℓ} {a b : A} → ok a ≡ ok b → a ≡ b
ok_inj h = cc

pub err-ne-ok {ℓ} : {A : Type ℓ} {e : Error} {a : A} → err e ≡ ok a → ⊥
err-ne-ok h = cc
