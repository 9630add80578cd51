-- ===== src/Webhooks/Publish/Rounds.antt =====
-- services/webhook-service.ts: one round of `publishData`, a page of the endpoints.
use hayasend.Base.{
  ℕ, ◌+◌, ◌≡◌, refl, sym, ap, ◌∙◌, String, List, [], ◌∷◌, ◌++◌, map, Option, none, Result, ok, err,
  inl, inr, Bool-cases, take, filter_by, err-ne-ok, ok_inj,
}
use hayasend.Base.Slices.{drop, drop-drop, take-drop}
use hayasend.Platform.{Platform}
use hayasend.Store.State.{and_then-keeps, and_then-eq-ok}
use hayasend.Store.Pages.{Page, truthy}
use hayasend.Catalog.Enums.{WebhookEventType}
use hayasend.Catalog.Records.{WebhookEvent, WebhookEndpoint, WebhookDeliveryRecord}
use hayasend.Webhooks.State.{World, Environment, Outcome}
use hayasend.Webhooks.Deliveries.{enqueue_delivery}
use hayasend.Webhooks.Publish.Queueing.{
  job_targets, append_assoc, append_nil, enqueue_delivery-webhooks, enqueue_delivery-job_targets,
}
use hayasend.Webhooks.Publish.{subscribed, first_error, enqueue_each, publish_page}

first_error-ok {ℓ κ} :
    {A : Type ℓ} {B : Type κ} (a : Result A) (later : Result B) {b : B}
    → first_error a later ≡ ok b
    → ((x : A) × (a ≡ ok x)) × (later ≡ ok b)
unfolding first_error
first_error-ok (err e) later h = absurd (err-ne-ok h)
first_error-ok (ok a) later h = ((a, refl), h)

unfoldable pub picked : WebhookEventType → List WebhookEndpoint → List String
picked kind rs = map (λ r. r.id) (filter_by (subscribed kind) rs)

picked-append :
    (kind : WebhookEventType) (xs ys : List WebhookEndpoint)
    → picked kind (xs ++ ys) ≡ picked kind xs ++ picked kind ys
unfolding picked
picked-append kind [] ys = refl
picked-append kind (x ∷ xs) ys = elim (Bool-cases (subscribed kind x)) [
  | inl t ↦ rw t (ap (λ r. x.id ∷ r) (picked-append kind xs ys))
  | inr f ↦ rw f (picked-append kind xs ys)
]

-- A page and what follows it.
pub picked_page :
    (kind : WebhookEventType) (o n : ℕ) (sorted : List WebhookEndpoint) (before : List String)
    → (before ++ picked kind (take n (drop o sorted))) ++ picked kind (drop (o + n) sorted)
      ≡ before ++ picked kind (drop o sorted)
picked_page kind o n sorted before =
    append_assoc before _ _
    ∙ ap (λ l. before ++ l)
        (ap (λ l. picked kind (take n (drop o sorted)) ++ picked kind l)
            (sym (drop-drop o n sorted))
          ∙ sym (picked-append kind (take n (drop o sorted)) (drop n (drop o sorted)))
          ∙ ap (picked kind) (take-drop n (drop o sorted)))

module _ (p : Platform) (env : Environment) (days : ℕ) where
  enqueue_each_lem :
      (event : WebhookEvent) (rs : List WebhookEndpoint) (w : World)
      → let out = enqueue_each p env days event rs w in
        (out.1.catalog.webhooks ≡ w.catalog.webhooks)
        × (out.0 ≡ ok tt → job_targets out.1.jobs ≡ job_targets w.jobs ++ map (λ r. r.id) rs)
  unfolding enqueue_each
  enqueue_each_lem event [] w = (refl, λ _. sym (append_nil (job_targets w.jobs)))
  enqueue_each_lem event (r ∷ rs) w =
      let first : Outcome WebhookDeliveryRecord = enqueue_delivery p env days r.id event none w in
      let (kept, told) = enqueue_each_lem event rs first.1 in
      (
        kept ∙ enqueue_delivery-webhooks p env days r.id event none w,
        λ h.
            let (done, rest) =
              first_error-ok first.0 (enqueue_each p env days event rs first.1).0 h in
            told rest
            ∙ ap (λ l. l ++ map (λ x. x.id) rs)
                (enqueue_delivery-job_targets p env days r.id event none w done.0 done.1)
            ∙ append_assoc (job_targets w.jobs) (r.id ∷ []) (map (λ x. x.id) rs),
      )

  pub publish_page_lem :
      (event : WebhookEvent) (page : Page WebhookEndpoint) (w : World)
      → let out = publish_page p env days event (ok page) w in
        (out.1.catalog.webhooks ≡ w.catalog.webhooks)
        × ((next : Option String)
            → out.0 ≡ ok next
            → (next ≡ truthy page.next_cursor)
              × (job_targets out.1.jobs
                  ≡ job_targets w.jobs
                    ++ map (λ r. r.id) (filter_by (subscribed event.kind) page.entries)))
  unfolding publish_page
  publish_page_lem event page w =
      let rs : List WebhookEndpoint = filter_by (subscribed event.kind) page.entries in
      let (kept, told) = enqueue_each_lem event rs w in
      (
        and_then-keeps (λ v. v.catalog.webhooks ≡ w.catalog.webhooks)
            (enqueue_each p env days event rs w) _ kept (λ _ v h. h),
        λ next h.
            let (done, first, is, state) =
              and_then-eq-ok (enqueue_each p env days event rs w) _ h in
            (sym (ok_inj is), ap (λ (v : World). job_targets v.jobs) state ∙ told first),
      )
