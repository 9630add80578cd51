-- ===== src/Webhooks/Publish/Laws.antt =====
-- Publishing ends, and every subscribed endpoint is given the event once, in the order of the list.
use hayasend.Base.{
  ℕ, zero, suc, ◌+◌, ◌<◌, ◌≤◌, ◌≡◌, ◌≢◌, refl, sym, ap, ◌∙◌, String, List, ◌++◌, map, Option, none,
  some, Result, ok, err, inl, inr, leb, Bool-cases, arith, length, All, filter_by, sort, length-map,
  length-sort, err-ne-ok, some_inj, none-ne-some, sort-All, subst,
}
use hayasend.Base.Slices.{drop}
use hayasend.Base.Assoc.{Assoc, values}
use hayasend.Base.Assoc.Keyed.{IsKeyed, AreApart, IsKeyed-AreApart, sort-AreApart}
use hayasend.Platform.{Platform, iso_of}
use hayasend.Store.Pages.{
  Page, truthy, page_offset, given_offset, page_at, page_from_map, newer_first,
}
use hayasend.Store.Pages.Laws.{page_at_more, page_at_last, page_at-entries}
use hayasend.Catalog.Enums.{WebhookEventType}
use hayasend.Catalog.Records.{WebhookEvent, WebhookEventData, WebhookEndpoint}
use hayasend.Catalog.Items.{list_webhooks}
use hayasend.Webhooks.State.{World, Environment, Outcome, iso_now, read_clock}
use hayasend.Webhooks.Publish.Queueing.{job_targets}
use hayasend.Webhooks.Publish.{
  subscribed, publish_page, after_page, publish_pages, publish_data, publish_stamped,
}
use hayasend.Webhooks.Publish.Rounds.{picked, picked_page, publish_page_lem}

module _ (p : Platform) (env : Environment) (days : ℕ) where
  -- A loop that ends, keeps the endpoints, and without an error has queued for the given ones.
  abbrev Reaches : Option (Outcome (Unit {0})) → Assoc WebhookEndpoint → List String → Type 0
  Reaches ended endpoints targets =
      (out : Outcome (Unit {0})) × (ended ≡ some out)
      × (out.1.catalog.webhooks ≡ endpoints)
      × (out.0 ≡ ok tt → job_targets out.1.jobs ≡ targets)

  after_page-Reaches :
      (further : String → World → Option (Outcome (Unit {0}))) (r : Result (Option String))
      (w : World) (endpoints : Assoc WebhookEndpoint) (targets : List String)
      → w.catalog.webhooks ≡ endpoints
      → (r ≡ ok none → job_targets w.jobs ≡ targets)
      → ((c : String) → r ≡ ok (some c) → Reaches (further c w) endpoints targets)
      → Reaches (after_page p env days further (r, w)) endpoints targets
  unfolding after_page
  after_page-Reaches further (err e) w endpoints targets kept done more =
      ((err e, w), refl, kept, λ h. absurd (err-ne-ok h))
  after_page-Reaches further (ok none) w endpoints targets kept done more =
      ((ok tt, w), refl, kept, λ _. done refl)
  after_page-Reaches further (ok (some c)) w endpoints targets kept done more = more c refl

  sorted_endpoints : World → List WebhookEndpoint
  sorted_endpoints w =
      sort (newer_first (λ r. r.id) p (λ r. r.created_at)) (values w.catalog.webhooks)

  list_webhooks_lem :
      (cursor : Option String) (w : World) (o : ℕ)
      → page_offset (λ (r : WebhookEndpoint). r.id) cursor (sorted_endpoints w) ≡ ok o
      → list_webhooks p 100 cursor w.catalog ≡ ok (page_at (λ r. r.id) o 100 (sorted_endpoints w))
  unfolding list_webhooks page_from_map sorted_endpoints
  list_webhooks_lem cursor w o h = rw h refl

  -- The round that starts at `o`, given what the further rounds reach.
  publish_round :
      (further : String → World → Option (Outcome (Unit {0}))) (o : ℕ) (event : WebhookEvent)
      (w : World) (sorted : List WebhookEndpoint)
      → AreApart (λ (r : WebhookEndpoint). r.id) sorted
      → All (λ (r : WebhookEndpoint). r.id ≢ "") sorted
      → o ≤ length sorted
      → ((c : String) (v : World)
          → o + 100 < length sorted
          → page_offset (λ (r : WebhookEndpoint). r.id) (some c) sorted ≡ ok (o + 100)
          → v.catalog.webhooks ≡ w.catalog.webhooks
          → Reaches
              (further c v)
              w.catalog.webhooks
              (job_targets v.jobs ++ picked event.kind (drop (o + 100) sorted)))
      → Reaches
          (after_page p env days further
            (publish_page p env days event (ok (page_at (λ r. r.id) o 100 sorted)) w))
          w.catalog.webhooks
          (job_targets w.jobs ++ picked event.kind (drop o sorted))
  unfolding truthy picked
  publish_round further o event w sorted apart named within onwards =
      let page : Page WebhookEndpoint = page_at (λ r. r.id) o 100 sorted in
      let out : Outcome (Option String) = publish_page p env days event (ok page) w in
      let (kept, told) = publish_page_lem p env days event page w in
      elim (Bool-cases (leb (length sorted) (o + 100))) [
        | inl t ↦
            let (final, shown) =
              page_at_last (λ (r : WebhookEndpoint). r.id) o 100 sorted within (ground arith) in
            after_page-Reaches further out.0 out.1 w.catalog.webhooks _ kept
              (λ h. (told none h).1 ∙ ap (λ l. job_targets w.jobs ++ picked event.kind l) shown)
              (λ c h. absurd (none-ne-some (ap truthy (sym final) ∙ sym (told (some c) h).0)))
        | inr f ↦
            let early : o + 100 < length sorted = ground arith in
            let (c', next, given, at) =
              page_at_more (λ (r : WebhookEndpoint). r.id) o 99 sorted apart named early in
            after_page-Reaches further out.0 out.1 w.catalog.webhooks _ kept
              (λ h. absurd (none-ne-some ((told none h).0 ∙ ap truthy next ∙ given)))
              (λ c h.
                let is : c' ≡ c =
                  some_inj (sym given ∙ ap truthy (sym next) ∙ sym (told (some c) h).0) in
                subst (λ l. Reaches (further c out.1) w.catalog.webhooks l)
                  (ap (λ l. l ++ picked event.kind (drop (o + 100) sorted))
                      ((told (some c) h).1
                        ∙ ap (λ l. job_targets w.jobs ++ picked event.kind l)
                            (page_at-entries (λ (r : WebhookEndpoint). r.id) o 100 sorted))
                    ∙ picked_page event.kind o 100 sorted (job_targets w.jobs))
                  (onwards c out.1 early
                    (ap (λ k. page_offset (λ (r : WebhookEndpoint). r.id) (some k) sorted) (sym is)
                      ∙ at)
                    kept))
      ]

  publish_pages-Reaches :
      (fuel o : ℕ) (event : WebhookEvent) (cursor : Option String) (w : World)
      (sorted : List WebhookEndpoint)
      → sorted_endpoints w ≡ sorted
      → AreApart (λ (r : WebhookEndpoint). r.id) sorted
      → All (λ (r : WebhookEndpoint). r.id ≢ "") sorted
      → page_offset (λ (r : WebhookEndpoint). r.id) cursor sorted ≡ ok o
      → o ≤ length sorted
      → length sorted < o + fuel
      → Reaches
          (publish_pages p env days fuel event cursor w)
          w.catalog.webhooks
          (job_targets w.jobs ++ picked event.kind (drop o sorted))
  unfolding publish_pages sorted_endpoints
  publish_pages-Reaches zero o event cursor w sorted is apart named at within enough =
      absurd (omega arith)
  publish_pages-Reaches (suc fuel) o event cursor w sorted is apart named at within enough =
      subst
        (λ l.
          Reaches
            (after_page p env days (λ next v. publish_pages p env days fuel event (some next) v)
              (publish_page p env days event l w))
            w.catalog.webhooks (job_targets w.jobs ++ picked event.kind (drop o sorted)))
        (sym (
          list_webhooks_lem cursor w o (ap (page_offset _ cursor) is ∙ at)
          ∙ ap (λ l. ok (page_at (λ r. r.id) o 100 l)) is))
        (publish_round (λ next v. publish_pages p env days fuel event (some next) v) o event w
          sorted apart named within
          λ c v early found kept.
            subst
              (λ W.
                Reaches (publish_pages p env days fuel event (some c) v) W
                  (job_targets v.jobs ++ picked event.kind (drop (o + 100) sorted)))
              kept
              (publish_pages-Reaches fuel (o + 100) event (some c) v sorted
                (ap (λ W. sort (newer_first (λ r. r.id) p (λ r. r.created_at)) (values W)) kept
                  ∙ is)
                apart named found (omega arith) (omega arith)))

-- `publishData` ends, on a store that keeps each endpoint under its own identifier, none of them
-- empty. It leaves the endpoints as they were, and without an error it has queued one delivery for
-- each enabled endpoint with this event, in the order of the list, whatever the number of pages.
pub publish_data_reaches_endpoints :
    (p : Platform) (env : Environment) (days : ℕ) (kind : WebhookEventType)
    (contents : WebhookEventData) (w : World)
    → IsKeyed (λ r. r.id) w.catalog.webhooks
    → All (λ (r : WebhookEndpoint). r.id ≢ "") (values w.catalog.webhooks)
    → (out : Outcome (Unit {0})) × (publish_data p env days kind contents w ≡ some out)
      × (out.1.catalog.webhooks ≡ w.catalog.webhooks)
      × (out.0 ≡ ok tt
          → job_targets out.1.jobs
            ≡ job_targets w.jobs
              ++ map
                  (λ r. r.id)
                  (filter_by (subscribed kind) (
                    sort
                      (newer_first (λ r. r.id) p (λ r. r.created_at))
                      (values w.catalog.webhooks))))
unfolding publish_data publish_stamped iso_now read_clock picked sorted_endpoints page_offset
    given_offset truthy
publish_data_reaches_endpoints p env days kind contents w keyed named =
    stamped (iso_of p (env.clock w.readings))
  where
    w1 : World
    w1 = record w { readings = suc w.readings }

    sorted : List WebhookEndpoint
    sorted = sort (newer_first (λ r. r.id) p (λ r. r.created_at)) (values w.catalog.webhooks)

    count : length sorted ≡ length w.catalog.webhooks
    count = length-sort _ (values w.catalog.webhooks) ∙ length-map _ w.catalog.webhooks

    stamped :
        (at : Result String)
        → (out : Outcome (Unit {0})) × (publish_stamped p env days kind contents (at, w1)
            ≡ some out)
          × (out.1.catalog.webhooks ≡ w.catalog.webhooks)
          × (out.0 ≡ ok tt → job_targets out.1.jobs ≡ job_targets w.jobs ++ picked kind sorted)
    stamped (err e) = ((err e, w1), refl, refl, λ h. absurd (err-ne-ok h))
    stamped (ok at) =
        publish_pages-Reaches p env days (suc (length w.catalog.webhooks)) 0
          (record { kind = kind; created_at = at; contents = contents }) none w1 sorted refl
          (sort-AreApart (λ r. r.id) _ _ (IsKeyed-AreApart (λ r. r.id) w.catalog.webhooks keyed))
          (sort-All _ _ (values w.catalog.webhooks) named) refl (omega arith) (omega (arith, count))
