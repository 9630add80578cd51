-- ===== src/Tests/Catalog.antt =====
-- Templates of the store at small inputs.
use hayasend.Base.{
  ℕ, ◌≤◌, ◌≡◌, ◌≢◌, refl, String, true, false, [], ◌∷◌, Option, none, some, ok, arith, length, List,
  ◌++◌, All, ◌⊎◌,
}
use mathlib.Core.List.{Permᴰ}
use hayasend.Base.Assoc.{get, values}
use hayasend.Base.Assoc.Keyed.{IsKeyed}
use hayasend.Catalog.Records.{
  TemplateVersion, TemplateRecord, TemplatePublicationRecord, TemplatePublicationSource,
}
use hayasend.Catalog.State.{TemplateStore}
use hayasend.Catalog.Templates.{
  create_template, replace_template, publish_template, delete_template, versions_of, at_revision,
  owned_by_other, alias_owner, or_empty,
}
use hayasend.Catalog.Templates.Laws.{
  IsIndexed, TemplateStep, TemplateHistory, template_aliases_lead, one_writer_wins,
}
use hayasend.Catalog.Templates.History.{publish_template_history}
use hayasend.Tests.Samples.{test_platform, test_platform-Orders}

abbrev pub test_version : Option String → TemplateVersion
test_version alias = record {
  id = "tmplv_1";
  name = "Welcome";
  html = "<p>{{{ NAME }}}</p>";
  text = none;
  alias = alias;
  sender = none;
  subject = none;
  reply_to = none;
  variables = [];
  created_at = "I";
  source_version_id = none;
}

abbrev pub test_template : ℕ → TemplateRecord
test_template revision = record {
  id = "tmpl_1";
  created_at = "I";
  updated_at = "I";
  revision = revision;
  draft = test_version (some "welcome");
  published = none;
  published_at = none;
}

abbrev pub no_templates : TemplateStore
no_templates = record {
  templates = [];
  template_aliases = [];
  published_template_aliases = [];
  template_versions = [];
}

abbrev pub one_template : TemplateStore
one_template = record {
  templates = ("tmpl_1", test_template 1) ∷ [];
  template_aliases = ("welcome", "tmpl_1") ∷ [];
  published_template_aliases = [];
  template_versions = [];
}

abbrev test_publication : TemplatePublicationRecord
test_publication = record {
  id = "tmplv_1";
  template_id = "tmpl_1";
  version = test_version (some "welcome");
  published_at = "II";
  expires_at = "IIII";
  actor = record { id = "system"; name = "System" };
  source = TemplatePublicationSource.api;
  source_version_id = none;
}

template_aliases_lead_example : IsIndexed (create_template (test_template 1) no_templates).1
template_aliases_lead_example = template_aliases_lead test_platform no_templates _ refl refl refl (
    TemplateHistory.next TemplateHistory.start
      (TemplateStep.create (test_template 1) no_templates refl))

one_writer_wins_example :
    let t = (replace_template (test_template 2) (some "welcome") 1 one_template).1 in
    (replace_template (test_template 3) (some "welcome") 1 t ≡ (ok false, t))
    × (publish_template test_platform (test_template 3) test_publication (some "welcome") 1 50 t
        ≡ (ok false, t))
    × (delete_template "tmpl_1" 1 t ≡ (false, t))
unfolding replace_template get at_revision owned_by_other alias_owner
one_writer_wins_example =
    one_writer_wins test_platform (test_template 2) (test_template 3) test_publication
      (some "welcome") (some "welcome") 1 50 one_template refl (λ e. absurd (omega arith)) refl

-- A history that has one version, at its limit.
abbrev old_publication : TemplatePublicationRecord
old_publication = record test_publication { id = "tmplv_0"; published_at = "I" }

abbrev published_once : TemplateStore
published_once = record one_template {
  template_versions = ("tmpl_1", ("tmplv_0", old_publication) ∷ []) ∷ [];
}

history-IsKeyed : IsKeyed (λ v. v.id) (versions_of "tmpl_1" published_once)
unfolding versions_of or_empty get IsKeyed
history-IsKeyed = (refl, refl, tt)

publish_template_history_example :
    let t =
      (publish_template test_platform
        (test_template 2)
        test_publication
        none
        1
        1
        published_once).1 in
    (get "tmpl_1" t.templates ≡ some (test_template 2))
    × (length (versions_of "tmpl_1" t) ≤ 1)
    × ((other : String) → "tmpl_1" ≢ other → versions_of other t ≡ versions_of other published_once)
    × ((dropped : List TemplatePublicationRecord) × Permᴰ
          (values (versions_of "tmpl_1" t) ++ dropped)
          (values (versions_of "tmpl_1" published_once) ++ test_publication ∷ [])
        × All
            (λ v. All (λ u. test_platform.locale_le u.published_at v.published_at ≡ true) dropped)
            (values (versions_of "tmpl_1" t))
        × ((length (values (versions_of "tmpl_1" t)) ≡ 1) ⊎ (dropped ≡ [])))
unfolding publish_template get versions_of at_revision or_empty owned_by_other alias_owner
publish_template_history_example =
    publish_template_history test_platform test_platform-Orders (test_template 2) test_publication
      none 1 1 published_once history-IsKeyed refl
