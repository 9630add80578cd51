-- ===== src/Catalog/Templates/Lists.antt =====
-- adapters/memory-store.ts: the pages of templates, forwards and backwards, and of a template's versions.
use hayasend.Base.{
  ℕ, ◌+◌, ◌-◌, ◌/◌, String, Bool, true, false, List, [], ◌∷◌, Option, none, some, ltb,
  if◌then◌else◌, ◌==◌, string_eq, length, take, sort, filter_by,
}
use hayasend.Base.Assoc.{values}
use hayasend.Base.Slices.{drop, last, find_index}
use hayasend.Platform.{Platform}
use hayasend.Store.Pages.{Page, truthy}
use hayasend.Catalog.Records.{TemplateRecord, TemplatePublicationRecord}
use hayasend.Catalog.State.{TemplateStore}
use hayasend.Catalog.Templates.{versions_of, newer_publication}

pub data Direction : Type 0 where
  after before : Direction

-- `data[0]`
unfoldable pub first {ℓ} : {A : Type ℓ} → List A → Option A
first [] = none
first (x ∷ xs) = some x

-- Where the page starts, and where it ends; `none` is the index -1.
unfoldable pub list_start : Direction → ℕ → Option ℕ → ℕ
list_start Direction.before limit none = 0
list_start Direction.before limit (some i) = i - limit
list_start Direction.after limit none = 0
list_start Direction.after limit (some i) = i + 1

unfoldable pub list_end : Direction → ℕ → ℕ → Option ℕ → ℕ
list_end Direction.before limit offset (some i) = i
list_end Direction.before limit offset none = offset + limit
list_end Direction.after limit offset index = offset + limit

unfoldable pub list_more : Direction → ℕ → ℕ → ℕ → Bool
list_more Direction.before offset shown total = ltb 0 offset
list_more Direction.after offset shown total = ltb (offset + shown) total

unfoldable pub list_edge {ℓ} : {A : Type ℓ} → Direction → List A → Option A
list_edge Direction.before shown = first shown
list_edge Direction.after shown = last shown

-- A page with a cursor where there is more and something is shown.
unfoldable pub page_of {ℓ} : {T : Type ℓ} → (T → String) → List T → Bool → Option T → Page T
page_of id shown more none = record { entries = shown; has_more = false; next_cursor = none }
page_of id shown more (some edge) =
    if more
    then record { entries = shown; has_more = true; next_cursor = some (id edge) }
    else record { entries = shown; has_more = false; next_cursor = none }

unfoldable pub template_index : Option String → List TemplateRecord → Option ℕ
template_index none sorted = none
template_index (some c) sorted = find_index (λ r. r.id == c) sorted

unfoldable pub sorted_templates : Platform → TemplateStore → List TemplateRecord
sorted_templates p s =
    sort (λ left right. p.locale_le right.created_at left.created_at) (values s.templates)

unfoldable pub template_slice : Direction → ℕ → Option ℕ → List TemplateRecord → Page TemplateRecord
template_slice direction limit index sorted =
    let offset = list_start direction limit index in
    let shown : List TemplateRecord =
      take (list_end direction limit offset index - offset) (drop offset sorted) in
    page_of (λ r. r.id) shown (list_more direction offset (length shown) (length sorted))
      (list_edge direction shown)

unfoldable pub list_templates :
    Platform → ℕ → Option String → Direction → TemplateStore → Page TemplateRecord
list_templates p limit cursor direction s =
    let sorted = sorted_templates p s in
    template_slice direction limit (template_index (truthy cursor) sorted) sorted

-- Math.floor(Date.parse(expires_at) / 1_000) > nowEpochSeconds, false on NaN
unfoldable pub lives_past : Option ℕ → ℕ → Bool
lives_past none now_seconds = false
lives_past (some t) now_seconds = ltb now_seconds (t / 1000)

-- The versions after the cursor's; all of them where it is not found.
unfoldable pub versions_after :
    Option TemplatePublicationRecord
    → List TemplatePublicationRecord
    → List TemplatePublicationRecord
versions_after none versions = versions
versions_after (some c) versions = elim (find_index (λ v. v.id == c.id) versions) [
  | none ↦ versions
  | some i ↦ drop (i + 1) versions
]

unfoldable pub eligible_versions :
    Platform
    → String
    → Option TemplatePublicationRecord
    → ℕ
    → TemplateStore
    → List TemplatePublicationRecord
eligible_versions p template_id cursor now_seconds s =
    filter_by (λ v. lives_past (p.date_parse v.expires_at) now_seconds)
      (versions_after cursor (sort (newer_publication p) (values (versions_of template_id s))))

unfoldable pub list_template_versions :
    Platform
    → String
    → ℕ
    → Option TemplatePublicationRecord
    → ℕ
    → TemplateStore
    → Page TemplatePublicationRecord
list_template_versions p template_id limit cursor now_seconds s =
    let eligible = eligible_versions p template_id cursor now_seconds s in
    let shown : List TemplatePublicationRecord = take limit eligible in
    page_of (λ v. v.id) shown (ltb limit (length eligible)) (last shown)
