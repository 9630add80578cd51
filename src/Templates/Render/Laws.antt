-- ===== src/Templates/Render/Laws.antt =====
-- What a rendering that succeeds keeps to, and a variable that cannot be rendered by its fallback.
use hayasend.Base.{
  ◌+◌, ◌≤◌, ◌≡◌, ◌≢◌, refl, sym, ap, ◌∙◌, String, true, false, List, [], ◌∷◌, Option, none, some,
  ok, refuse_if-eq-ok, >>=-eq-ok, ok_inj, err-ne-ok, some_inj, none-ne-some, true-ne-false, subst,
  ltb, All, arith, Bool-cases, inl, inr, validation_error, ◌==◌, string_eq, includes, beq_ne,
  beq→eq,
}
use hayasend.Text.{Text, has_line_break, utf8_byte_length}
use hayasend.Catalog.Records.{
  TemplateVersion, TemplateVariable, TemplateVariableType, FallbackValue,
}
use hayasend.Templates.Validation.{is_blank}
use hayasend.Templates.Render.{
  Value, Rendered, RenderTemplateInput, render_template_version, checked_rendering, safe_optional,
  safe_each, safe_list, ensure_safe_rendered_header, max_header_bytes, max_rendered_template_bytes,
  resolve_values, rendered_version, values_each, variable_keys, provided_value, prototype_names,
  value_fits, or_fallback,
}

abbrev pub IsSafeHeader : Text → Type 0
IsSafeHeader t = (has_line_break t ≡ false) × (utf8_byte_length t ≤ 998)

header_sound : (t : Text) → ensure_safe_rendered_header t ≡ ok tt → IsSafeHeader t
unfolding ensure_safe_rendered_header max_header_bytes
header_sound t h =
    let (a, rest) = refuse_if-eq-ok (has_line_break t) validation_error _ h in (a, ground arith)

optional_sound :
    (o : Option Text) (t : Text) → safe_optional o ≡ ok tt → o ≡ some t → IsSafeHeader t
unfolding safe_optional is_blank has_line_break utf8_byte_length
optional_sound none t h e = absurd (none-ne-some e)
optional_sound (some []) t h e = subst IsSafeHeader (some_inj e) (refl, omega arith)
optional_sound (some (c ∷ cs)) t h e = subst IsSafeHeader (some_inj e) (header_sound (c ∷ cs) h)

each_sound : (ts : List Text) → safe_each ts ≡ ok tt → All IsSafeHeader ts
unfolding safe_each
each_sound [] h = tt
each_sound (t ∷ ts) h =
    let (u, a, b) = >>=-eq-ok (ensure_safe_rendered_header t) _ h in
    (header_sound t a, each_sound ts b)

checked_parts :
    (r r' : Rendered)
    → checked_rendering r ≡ ok r'
    → (r ≡ r')
      × (safe_optional r.sender ≡ ok tt)
      × (safe_optional r.subject ≡ ok tt)
      × (safe_list r.reply_to ≡ ok tt)
      × (utf8_byte_length r.html + utf8_byte_length r.text ≤ 1048576)
unfolding checked_rendering max_rendered_template_bytes
checked_parts r r' h =
    let (_, h1) =
      refuse_if-eq-ok (ltb max_rendered_template_bytes (utf8_byte_length r.html)) validation_error _
        h in
    let (small, h2) =
      refuse_if-eq-ok
        (ltb max_rendered_template_bytes (utf8_byte_length r.html + utf8_byte_length r.text))
        validation_error _ h1 in
    let (_, a, h3) = >>=-eq-ok (safe_optional r.sender) _ h2 in
    let (_, b, h4) = >>=-eq-ok (safe_optional r.subject) _ h3 in
    let (_, c, h5) = >>=-eq-ok (safe_list r.reply_to) _ h4 in (ok_inj h5, a, b, c, ground arith)

list_sound :
    (o : Option (List Text)) (ts : List Text)
    → safe_list o ≡ ok tt
    → o ≡ some ts
    → All IsSafeHeader ts
unfolding safe_list
list_sound none ts h e = absurd (none-ne-some e)
list_sound (some us) ts h e = subst (All IsSafeHeader) (some_inj e) (each_sound us h)

-- Where a rendering succeeds, its sender, its subject and each of its reply addresses have no line
-- break and at most 998 bytes, and its HTML and its text have at most 1,048,576 bytes together.
pub rendering_is_safe :
    (plain_text : Text → Text) (version : TemplateVersion) (input : RenderTemplateInput)
    (r : Rendered)
    → render_template_version plain_text version input ≡ ok r
    → ((t : Text) → r.sender ≡ some t → IsSafeHeader t)
      × ((t : Text) → r.subject ≡ some t → IsSafeHeader t)
      × ((ts : List Text) → r.reply_to ≡ some ts → All IsSafeHeader ts)
      × (utf8_byte_length r.html + utf8_byte_length r.text ≤ 1048576)
unfolding render_template_version
rendering_is_safe plain_text version input r h =
    let (values, _, checked) = >>=-eq-ok (resolve_values version input.variables) _ h in
    let (same, a, b, c, small) =
      checked_parts (rendered_version plain_text version input values) r checked in
    (
      λ t e. optional_sound _ t a (ap (λ (x : Rendered). x.sender) same ∙ e),
      λ t e. optional_sound _ t b (ap (λ (x : Rendered). x.subject) same ∙ e),
      λ ts e. list_sound _ ts c (ap (λ (x : Rendered). x.reply_to) same ∙ e),
      subst (λ (x : Rendered). utf8_byte_length x.html + utf8_byte_length x.text ≤ 1048576) same
          small,
    )

-- A lookup of a name of Object.prototype that is not provided finds what is inherited.
inherited_lookup :
    (key : String) (provided : List (String × Value))
    → includes prototype_names key ≡ true
    → All (λ e. e.0 ≢ key) provided
    → provided_value key provided ≡ some Value.inherited
unfolding provided_value
inherited_lookup key [] named others = rw named refl
inherited_lookup key ((k, v) ∷ rest) named others =
    rw (beq_ne k key others.0) (inherited_lookup key rest named others.1)

value_missing :
    (kind : TemplateVariableType) (o : Option Value) (fallback : FallbackValue) (v : Value)
    → o ≡ some Value.inherited
    → value_fits kind (or_fallback o fallback) ≢ ok v
unfolding value_fits or_fallback
value_missing kind none fallback v e h = none-ne-some e
value_missing kind (some x) fallback v e h = err-ne-ok (rw (some_inj e) at h)

values_missing :
    (provided : List (String × Value)) (key : String) (vs : List TemplateVariable)
    (values : List (Text × Value))
    → includes prototype_names key ≡ true
    → All (λ e. e.0 ≢ key) provided
    → includes (variable_keys vs) key ≡ true
    → values_each provided vs ≢ ok values
unfolding values_each variable_keys
values_missing provided key [] values named others declared h = true-ne-false (sym declared)
values_missing provided key (v ∷ vs) values named others declared h =
    let (value, fits, later) =
      >>=-eq-ok (value_fits v.kind (or_fallback (provided_value v.key provided) v.fallback_value)) _
        h in
    let (rest, further, _) = >>=-eq-ok (values_each provided vs) _ later in
    elim (Bool-cases (v.key == key)) [
      | inl t ↦
          value_missing v.kind (provided_value v.key provided) v.fallback_value value
            (ap (λ k. provided_value k provided) (beq→eq v.key key t)
              ∙ inherited_lookup key provided named others)
            fits
      | inr f ↦ values_missing provided key vs rest named others (rw f at declared) further
    ]

-- A template that declares a variable by a name of Object.prototype, such as `constructor`, cannot be
-- rendered without a value for it, although the variable has a fallback.
pub inherited_name_has_no_fallback :
    (plain_text : Text → Text) (version : TemplateVersion) (input : RenderTemplateInput)
    (key : String) (r : Rendered)
    → includes prototype_names key ≡ true
    → includes (variable_keys version.variables) key ≡ true
    → All (λ e. e.0 ≢ key) input.variables
    → render_template_version plain_text version input ≢ ok r
unfolding render_template_version resolve_values
inherited_name_has_no_fallback plain_text version input key r named declared others h =
    let (values, resolved, _) = >>=-eq-ok (resolve_values version input.variables) _ h in
    let (_, rest) = refuse_if-eq-ok _ validation_error _ resolved in
    let (_, each) = refuse_if-eq-ok _ validation_error _ rest in
    values_missing input.variables key version.variables values named others declared each
