-- ===== src/Templates/Render/Escaping.antt =====
-- A value cannot bring markup into the rendered HTML.
use hayasend.Base.{
  ℕ, ◌≡◌, refl, ap, ◌∙◌, Bool, true, false, ◌||◌, List, [], ◌∷◌, ◌++◌, nat_beq, any, filter_by, inl,
  inr, Bool-cases, or_false,
}
use hayasend.Model.Formats.{codes}
use hayasend.Text.{Text, replace_all}
use hayasend.Templates.Placeholders.{Segment, segments}
use hayasend.Templates.Render.{
  Value, shown_value, value_of, escape_html, render_segment, render_segments, render_value,
}

-- `<`, `>`, `"` and `'`: what opens and closes tags and attributes.
abbrev pub is_markup : ℕ → Bool
is_markup c = nat_beq c b'<' || (nat_beq c b'>' || (nat_beq c b'"' || nat_beq c b'\''))

abbrev pub markup : Text → Text
markup t = filter_by is_markup t

-- What a template has outside its placeholders.
abbrev pub literals : List Segment → Text
literals [] = []
literals (Segment.literal c ∷ ss) = c ∷ literals ss
literals (Segment.placeholder key ∷ ss) = literals ss

any-append-false :
    (q : ℕ → Bool) (xs ys : Text) → any q xs ≡ false → any q ys ≡ false → any q (xs ++ ys) ≡ false
any-append-false q [] ys h k = k
any-append-false q (x ∷ xs) ys h k =
    let (a, b) = or_false (q x) (any q xs) h in rw a (any-append-false q xs ys b k)

replace_keeps :
    (q : ℕ → Bool) (c : ℕ) (by t : Text)
    → any q by ≡ false
    → any q t ≡ false
    → any q (replace_all c by t) ≡ false
unfolding replace_all
replace_keeps q c by [] h k = refl
replace_keeps q c by (d ∷ ds) h k =
    let (a, b) = or_false (q d) (any q ds) k in
    elim (Bool-cases (nat_beq d c)) [
      | inl t ↦ rw t (any-append-false q by _ h (replace_keeps q c by ds h b))
      | inr f ↦ rw (f, a) (replace_keeps q c by ds h b)
    ]

replace_gone :
    (c : ℕ) (by t : Text)
    → any (λ x. nat_beq x c) by ≡ false
    → any (λ x. nat_beq x c) (replace_all c by t) ≡ false
unfolding replace_all
replace_gone c by [] h = refl
replace_gone c by (d ∷ ds) h = elim (Bool-cases (nat_beq d c)) [
  | inl t ↦ rw t (any-append-false _ by _ h (replace_gone c by ds h))
  | inr f ↦ rw (f, f) (replace_gone c by ds h)
]

any-or-false :
    (p q : ℕ → Bool) (t : Text)
    → any p t ≡ false
    → any q t ≡ false
    → any (λ x. p x || q x) t ≡ false
any-or-false p q [] h k = refl
any-or-false p q (c ∷ cs) h k =
    let (a, b) = or_false (p c) (any p cs) h in
    let (d, e) = or_false (q c) (any q cs) k in rw (a, d) (any-or-false p q cs b e)

filter_by-none : (q : ℕ → Bool) (t : Text) → any q t ≡ false → filter_by q t ≡ []
filter_by-none q [] h = refl
filter_by-none q (c ∷ cs) h =
    let (a, b) = or_false (q c) (any q cs) h in rw a (filter_by-none q cs b)

filter_by-append :
    (q : ℕ → Bool) (xs ys : Text) → filter_by q (xs ++ ys) ≡ filter_by q xs ++ filter_by q ys
filter_by-append q [] ys = refl
filter_by-append q (x ∷ xs) ys = elim (Bool-cases (q x)) [
  | inl t ↦ rw t (ap (λ r. x ∷ r) (filter_by-append q xs ys))
  | inr f ↦ rw f (filter_by-append q xs ys)
]

-- The text has no such character.
abbrev Lacks : ℕ → Text → Type 0
Lacks c t = any (λ x. nat_beq x c) t ≡ false

Lacks-kept : (d c : ℕ) (by t : Text) → Lacks d by → Lacks d t → Lacks d (replace_all c by t)
Lacks-kept d = replace_keeps (λ x. nat_beq x d)

Lacks-all :
    (t : Text)
    → Lacks b'<' t
    → Lacks b'>' t
    → Lacks b'"' t
    → Lacks b'\'' t
    → any is_markup t ≡ false
Lacks-all t a b c d =
    any-or-false (λ x. nat_beq x b'<') (λ x. nat_beq x b'>' || (nat_beq x b'"' || nat_beq x b'\''))
      t a
      (any-or-false (λ x. nat_beq x b'>') (λ x. nat_beq x b'"' || nat_beq x b'\'') t b
        (any-or-false (λ x. nat_beq x b'"') (λ x. nat_beq x b'\'') t c d))

escape_html-markup : (t : Text) → markup (escape_html t) ≡ []
unfolding escape_html
escape_html-markup t = filter_by-none is_markup end (
    Lacks-all end
      (Lacks-kept b'<' b'\'' apos quoted refl (
        Lacks-kept b'<' b'"' quot closing refl
          (Lacks-kept b'<' b'>' gt opening refl (replace_gone b'<' (codes "&lt;") amped refl))))
      (Lacks-kept b'>' b'\'' apos quoted refl
        (Lacks-kept b'>' b'"' quot closing refl (replace_gone b'>' gt opening refl)))
      (Lacks-kept b'"' b'\'' apos quoted refl (replace_gone b'"' quot closing refl))
      (replace_gone b'\'' apos quoted refl))
  where
    gt : Text
    gt = codes "&gt;"

    quot : Text
    quot = codes "&quot;"

    apos : Text
    apos = codes "&#39;"

    amped : Text
    amped = replace_all b'&' (codes "&amp;") t

    opening : Text
    opening = replace_all b'<' (codes "&lt;") amped

    closing : Text
    closing = replace_all b'>' gt opening

    quoted : Text
    quoted = replace_all b'"' quot closing

    end : Text
    end = replace_all b'\'' apos quoted

render_segments-markup :
    (values : List (Text × Value)) (ss : List Segment)
    → markup (render_segments true values ss) ≡ markup (literals ss)
unfolding render_segments render_segment
render_segments-markup values [] = refl
render_segments-markup values (Segment.literal c ∷ ss) = elim (Bool-cases (is_markup c)) [
  | inl t ↦ rw t (ap (λ r. c ∷ r) (render_segments-markup values ss))
  | inr f ↦ rw f (render_segments-markup values ss)
]
render_segments-markup values (Segment.placeholder key ∷ ss) =
    filter_by-append is_markup (escape_html (shown_value (value_of key values))) _
    ∙ ap (λ r. r ++ markup (render_segments true values ss)) (escape_html-markup _)
    ∙ render_segments-markup values ss

-- The angle brackets and quotes of a rendered HTML are, in order, those that the template has outside
-- its placeholders, whatever the values are.
pub render_value-markup :
    (values : List (Text × Value)) (t : Text)
    → markup (render_value true values t) ≡ markup (literals (segments t))
unfolding render_value
render_value-markup values t = render_segments-markup values (segments t)
