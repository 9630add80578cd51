-- ===== src/Catalog/Templates.antt =====
-- adapters/memory-store.ts: templates, the aliases of their drafts and of their publications, and the
-- history of publications.
pub mod Index
pub mod Retained
pub mod History
pub mod Lists
pub mod Laws
use hayasend.Base.{
  ℕ, ◌+◌, ◌-◌, ◌/◌, String, Bool, true, false, not, ◌&&◌, ◌||◌, List, [], ◌∷◌, ◌++◌, Option, none,
  some, Result, ok, err, alias_in_use, if◌then◌else◌, ◌==◌, string_eq, nat_eq, option_eq, ltb,
  is_some, length, take, find, sort, filter_by,
}
use hayasend.Base.Assoc.{Assoc, get, has, put, remove, values}
use hayasend.Base.Slices.{drop, last, find_index}
use hayasend.Platform.{Platform}
use hayasend.Store.Pages.{Page, truthy, locale_le_then}
use hayasend.Catalog.Records.{TemplateVersion, TemplateRecord, TemplatePublicationRecord}
use hayasend.Catalog.State.{TemplateStore}

-- `record.published?.alias`
abbrev pub published_alias : TemplateRecord → Option String
published_alias r = elim r.published [ none ↦ none | some v ↦ v.alias ]

abbrev pub draft_alias : TemplateRecord → Option String
draft_alias r = r.draft.alias

-- `map.get(alias)`, where there is an alias
unfoldable pub alias_owner : Option String → Assoc String → Option String
alias_owner none m = none
alias_owner (some a) m = get a m

unfoldable pub put_alias : Option String → String → Assoc String → Assoc String
put_alias none id m = m
put_alias (some a) id m = put a id m

-- The previous alias goes unless it is the next one.
unfoldable pub drop_alias : Option String → Option String → Assoc String → Assoc String
drop_alias none next m = m
drop_alias (some a) next m = if option_eq.beq (some a) next then m else remove a m

unfoldable pub create_template : TemplateRecord → TemplateStore → Result (Unit {0}) × TemplateStore
create_template r s =
    if has r.id s.templates || is_some (alias_owner r.draft.alias s.template_aliases)
    then (err alias_in_use, s)
    else (
      ok tt,
      record s {
        templates = put r.id r s.templates;
        template_aliases = put_alias r.draft.alias r.id s.template_aliases;
      },
    )

-- `id ? templates.get(id) : undefined`
unfoldable pub template_at : Option String → TemplateStore → Option TemplateRecord
template_at none s = none
template_at (some id) s = get id s.templates

unfoldable pub get_template : String → TemplateStore → Option TemplateRecord
get_template identifier s =
    template_at
      (truthy
        (if has identifier s.templates then some identifier else get identifier s.template_aliases))
      s

-- `a ?? b`
unfoldable pub or_else {ℓ} : {A : Type ℓ} → Option A → Option A → Option A
or_else none b = b
or_else (some a) b = some a

-- The template of a draft's alias, unless it is published under another one.
unfoldable pub draft_candidate : String → Option TemplateRecord → Option TemplateRecord
draft_candidate identifier none = none
draft_candidate identifier (some r) =
    if not (is_some r.published) || published_alias r == some identifier then some r else none

unfoldable pub get_published_template : String → TemplateStore → Option TemplateRecord
get_published_template identifier s =
    let id : Option String =
      if has identifier s.templates
      then some identifier
      else get identifier s.published_template_aliases in
    or_else
      (or_else (template_at (truthy id) s)
        (draft_candidate identifier (template_at (truthy (get identifier s.template_aliases)) s)))
      (find (λ r. published_alias r == some identifier) (values s.templates))

-- Whether another template has the alias.
unfoldable pub owned_by_other : Option String → String → Bool
owned_by_other none id = false
owned_by_other (some owner) id = not (owner == id)

-- `current && current.revision === expectedRevision`
unfoldable pub at_revision : Option TemplateRecord → ℕ → Bool
at_revision none expected = false
at_revision (some current) expected = current.revision == expected

unfoldable pub replaced_template : TemplateRecord → Option String → TemplateStore → TemplateStore
replaced_template r previous s = record s {
  template_aliases =
      put_alias r.draft.alias r.id (drop_alias previous r.draft.alias s.template_aliases);
  templates = put r.id r s.templates;
}

unfoldable pub replace_template :
    TemplateRecord → Option String → ℕ → TemplateStore → Result Bool × TemplateStore
replace_template r previous expected s =
    if not (at_revision (get r.id s.templates) expected)
    then (ok false, s)
    else if owned_by_other (alias_owner r.draft.alias s.template_aliases) r.id
    then (err alias_in_use, s)
    else (ok true, replaced_template r previous s)

unfoldable pub or_empty : Option (Assoc TemplatePublicationRecord) → Assoc TemplatePublicationRecord
or_empty none = []
or_empty (some m) = m

unfoldable pub versions_of : String → TemplateStore → Assoc TemplatePublicationRecord
versions_of id s = or_empty (get id s.template_versions)

-- The comparison of `sort`: the newer first.
unfoldable pub newer_publication :
    Platform → TemplatePublicationRecord → TemplatePublicationRecord → Bool
newer_publication p left right =
    locale_le_then p right.published_at left.published_at right.id left.id

-- versions.clear(), and `set` for each that is retained
unfoldable pub version_map :
    List TemplatePublicationRecord
    → Assoc TemplatePublicationRecord
    → Assoc TemplatePublicationRecord
version_map [] m = m
version_map (v ∷ vs) m = version_map vs (put v.id v m)

unfoldable pub retained_versions :
    Platform
    → TemplatePublicationRecord
    → ℕ
    → Assoc TemplatePublicationRecord
    → List TemplatePublicationRecord
retained_versions p publication limit versions =
    take limit (sort (newer_publication p) (values versions ++ publication ∷ []))

unfoldable pub published_template :
    Platform
    → TemplateRecord
    → TemplatePublicationRecord
    → Option String
    → ℕ
    → TemplateStore
    → TemplateStore
published_template p r publication previous limit s = record s {
  template_versions =
      put r.id (version_map (retained_versions p publication limit (versions_of r.id s)) [])
        s.template_versions;
  published_template_aliases =
      put_alias (published_alias r) r.id
        (drop_alias previous (published_alias r) s.published_template_aliases);
  templates = put r.id r s.templates;
}

unfoldable pub publish_template :
    Platform
    → TemplateRecord
    → TemplatePublicationRecord
    → Option String
    → ℕ
    → ℕ
    → TemplateStore
    → Result Bool × TemplateStore
publish_template p r publication previous expected limit s =
    if not (at_revision (get r.id s.templates) expected)
      || not (publication.template_id == r.id)
      || not (publication.id == publication.version.id)
      || has publication.id (versions_of r.id s)
    then (ok false, s)
    else if owned_by_other (alias_owner (published_alias r) s.published_template_aliases) r.id
    then (err alias_in_use, s)
    else (ok true, published_template p r publication previous limit s)

unfoldable pub get_template_version :
    String → String → TemplateStore → Option TemplatePublicationRecord
get_template_version template_id version_id s = get version_id (versions_of template_id s)

unfoldable pub remove_alias : Option String → Assoc String → Assoc String
remove_alias none m = m
remove_alias (some a) m = remove a m

unfoldable pub deleted_template : TemplateRecord → String → TemplateStore → TemplateStore
deleted_template current id s = record s {
  templates = remove id s.templates;
  template_aliases = remove_alias current.draft.alias s.template_aliases;
  published_template_aliases = remove_alias (published_alias current) s.published_template_aliases;
  template_versions = remove id s.template_versions;
}

unfoldable pub delete_current :
    Option TemplateRecord → String → ℕ → TemplateStore → Bool × TemplateStore
delete_current none id expected s = (false, s)
delete_current (some current) id expected s =
    if current.revision == expected then (true, deleted_template current id s) else (false, s)

unfoldable pub delete_template : String → ℕ → TemplateStore → Bool × TemplateStore
delete_template id expected s = delete_current (get id s.templates) id expected s
