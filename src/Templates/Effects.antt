-- ===== src/Templates/Effects.antt =====
-- services/template-service.ts: how each operation ends that writes, with the template that it has
-- read and what it leaves of it.
pub mod Replacing
pub mod Restoring
pub mod Creating
pub mod Publishing
use hayasend.Base.{
  ℕ, ◌+◌, ◌≡◌, ◌≢◌, refl, sym, ap, ◌∙◌, ◌⊎◌, inl, inr, String, Option, none, some, Result, ok, err,
  Error, require-eq-ok, none-ne-some,
}
use hayasend.Base.Assoc.{get}
use hayasend.Base.Assoc.Keyed.{IsKeyed, IsKeyed-key}
use hayasend.Catalog.Records.{TemplateRecord, TemplateVersion}
use hayasend.Catalog.State.{TemplateStore}
use hayasend.Catalog.Templates.{get_template, template_at}
use hayasend.Templates.Service.{World, Outcome, get_record}

-- A result is an error or a value.
pub Result-ends {ℓ} :
    {A : Type ℓ} (m : Result A) → ((e : Error) × (m ≡ err e)) ⊎ ((v : A) × (m ≡ ok v))
Result-ends (err e) = inl (e, refl)
Result-ends (ok v) = inr (v, refl)

-- A template that is found is stored under its own identifier.
pub found_is_stored :
    (identifier : String) (s : TemplateStore) (c : TemplateRecord)
    → IsKeyed (λ r. r.id) s.templates
    → get_record identifier s ≡ ok c
    → get c.id s.templates ≡ some c
unfolding get_record get_template template_at
found_is_stored identifier s c keyed h = at_key _ (require-eq-ok _ _ h)
  where
    at_key : (o : Option String) → template_at o s ≡ some c → get c.id s.templates ≡ some c
    at_key none e = absurd (none-ne-some e)
    at_key (some k) e =
        ap (λ i. get i s.templates) (sym (IsKeyed-key (λ r. r.id) k c s.templates keyed e)) ∙ e

-- The call throws, and the store is as it was.
abbrev pub Refused : World → Outcome String → Error → Type 0
Refused w out e = (out.0 ≡ err e) × (out.1.store ≡ w.store)

-- The call gives the template's identifier, under which the record is then stored; the other
-- templates are as they were.
abbrev pub Stores : World → Outcome String → TemplateRecord → Type 0
Stores w out r =
    (out.0 ≡ ok r.id)
    × (get r.id out.1.store.templates ≡ some r)
    × ((other : String)
        → r.id ≢ other
        → get other out.1.store.templates ≡ get other w.store.templates)
