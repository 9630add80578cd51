-- ===== src/Catalog/Templates/Index.antt =====
-- A map from aliases to the records that have them, and that moving an alias keeps it right.
use hayasend.Base.{
  ◌≡◌, ◌≢◌, refl, sym, ap, ◌∙◌, String, Option, none, some, inl, inr, string_eq, option_eq,
  some_inj, none-ne-some, ◌⊎◌, beq_ne, Bool-cases,
}
use hayasend.Base.Assoc.{
  Assoc, get, put, remove, get-put_same, get-put_ne, get-remove_same, get-remove_ne, text_cases,
}
use hayasend.Catalog.Templates.{put_alias, drop_alias, remove_alias}

module _ {ℓ} {R : Type ℓ} (alias_of : R → Option String) where
  -- Each alias leads to the record that has it, and each record's alias leads to it.
  pub record IsIndex (records : Assoc R) (index : Assoc String) : Type ℓ where
    pub leads :
        (a i : String)
        → get a index ≡ some i
        → (r : R) × (get i records ≡ some r) × (alias_of r ≡ some a)
    pub lists :
        (i a : String) (r : R) → get i records ≡ some r → alias_of r ≡ some a → get a index ≡ some i

drop_alias_kept :
    (previous next : Option String) (a : String) (m : Assoc String)
    → previous ≢ some a
    → get a (drop_alias previous next m) ≡ get a m
unfolding drop_alias
drop_alias_kept none next a m h = refl
drop_alias_kept (some p) next a m h = elim (Bool-cases (option_eq.beq (some p) next)) [
  | inl t ↦ rw t refl
  | inr f ↦ rw f (get-remove_ne p a m (λ e. h (ap some e)))
]

drop_alias_gone :
    (previous next : Option String) (a : String) (m : Assoc String)
    → previous ≡ some a
    → next ≢ some a
    → get a (drop_alias previous next m) ≡ none
unfolding drop_alias
drop_alias_gone none next a m e h = absurd (none-ne-some e)
drop_alias_gone (some p) next a m e h =
    rw (beq_ne (some p) next (λ q. h (sym q ∙ e))) (get-remove_same p a m (some_inj e))

put_alias_other :
    (next : Option String) (id a : String) (m : Assoc String)
    → next ≢ some a
    → get a (put_alias next id m) ≡ get a m
unfolding put_alias
put_alias_other none id a m h = refl
put_alias_other (some n) id a m h = get-put_ne n a id m (λ e. h (ap some e))

put_alias_same :
    (next : Option String) (id a : String) (m : Assoc String)
    → next ≡ some a
    → get a (put_alias next id m) ≡ some id
unfolding put_alias
put_alias_same none id a m h = absurd (none-ne-some h)
put_alias_same (some n) id a m h = get-put_same n a id m (some_inj h)

removed_alias :
    (o : Option String) (a : String) (m : Assoc String)
    → o ≡ some a
    → get a (remove_alias o m) ≡ none
unfolding remove_alias
removed_alias none a m h = absurd (none-ne-some h)
removed_alias (some b) a m h = get-remove_same b a m (some_inj h)

other_alias :
    (o : Option String) (a : String) (m : Assoc String)
    → o ≢ some a
    → get a (remove_alias o m) ≡ get a m
unfolding remove_alias
other_alias none a m h = refl
other_alias (some b) a m h = get-remove_ne b a m (λ e. h (ap some e))

-- Whether an optional alias is the given one.
alias_cases : (o : Option String) (a : String) → (o ≡ some a) ⊎ (o ≢ some a)
alias_cases none a = inr none-ne-some
alias_cases (some b) a = elim (text_cases b a) [
  | inl e ↦ inl (ap some e)
  | inr n ↦ inr (λ e. n (some_inj e))
]

module _ {ℓ} {R : Type ℓ} (alias_of : R → Option String) where
  -- Writing a record and moving its alias, where the previous alias is its own and the next one is
  -- free or its own.
  pub move-IsIndex :
      (id : String) (r : R) (previous : Option String) (records : Assoc R) (index : Assoc String)
      → IsIndex alias_of records index
      → ((c : R) → get id records ≡ some c → alias_of c ≡ previous)
      → ((a : String) → previous ≡ some a → get a index ≡ some id)
      → ((a owner : String) → alias_of r ≡ some a → get a index ≡ some owner → owner ≡ id)
      → IsIndex alias_of
          (put id r records)
          (put_alias (alias_of r) id (drop_alias previous (alias_of r) index))
  move-IsIndex id r previous records index v held before free = record { leads = to; lists = from }
    where
      moved : Assoc String
      moved = put_alias (alias_of r) id (drop_alias previous (alias_of r) index)

      kept : (a : String) → alias_of r ≢ some a → previous ≢ some a → get a moved ≡ get a index
      kept a h k =
          put_alias_other (alias_of r) id a _ h ∙ drop_alias_kept previous (alias_of r) a index k

      gone : (a : String) → alias_of r ≢ some a → previous ≡ some a → get a moved ≡ none
      gone a h k =
          put_alias_other (alias_of r) id a _ h ∙ drop_alias_gone previous (alias_of r) a index k h

      new : (a : String) → alias_of r ≡ some a → get a moved ≡ some id
      new a h = put_alias_same (alias_of r) id a _ h

      other :
          (a i : String)
          → previous ≢ some a
          → get a index ≡ some i
          → (x : R) × (get i (put id r records) ≡ some x) × (alias_of x ≡ some a)
      other a i k e =
          let (x, at, has_alias) = v.leads a i e in
          elim (text_cases id i) [
            | inl same ↦ absurd (k (sym (held x (ap (λ j. get j records) same ∙ at)) ∙ has_alias))
            | inr differ ↦ (x, get-put_ne id i r records differ ∙ at, has_alias)
          ]

      to :
          (a i : String)
          → get a moved ≡ some i
          → (x : R) × (get i (put id r records) ≡ some x) × (alias_of x ≡ some a)
      to a i e = elim (alias_cases (alias_of r) a) [
        | inl n ↦ (r, get-put_same id i r records (some_inj (sym (new a n) ∙ e)), n)
        | inr n ↦ elim (alias_cases previous a) [
          | inl k ↦ absurd (none-ne-some (sym (gone a n k) ∙ e))
          | inr k ↦ other a i k (sym (kept a n k) ∙ e)
        ]
      ]

      from :
          (i a : String) (x : R)
          → get i (put id r records) ≡ some x
          → alias_of x ≡ some a
          → get a moved ≡ some i
      from i a x at has_alias = elim (text_cases id i) [
        | inl same ↦
            let is : r ≡ x = some_inj (sym (get-put_same id i r records same) ∙ at) in
            new a (ap alias_of is ∙ has_alias) ∙ ap some same
        | inr differ ↦
            let old : get a index ≡ some i =
              v.lists i a x (sym (get-put_ne id i r records differ) ∙ at) has_alias in
            kept a (λ n. differ (sym (free a i n old)))
              (λ k. differ (some_inj (sym (before a k) ∙ old)))
            ∙ old
      ]

  -- Writing a record that keeps its alias.
  pub keep-IsIndex :
      (id : String) (r c : R) (records : Assoc R) (index : Assoc String)
      → IsIndex alias_of records index
      → get id records ≡ some c
      → alias_of c ≡ alias_of r
      → IsIndex alias_of (put id r records) index
  keep-IsIndex id r c records index v at same = record { leads = to; lists = from }
    where
      to :
          (a i : String)
          → get a index ≡ some i
          → (x : R) × (get i (put id r records) ≡ some x) × (alias_of x ≡ some a)
      to a i e =
          let (x, found, has_alias) = v.leads a i e in
          elim (text_cases id i) [
            | inl this ↦
                let is : c ≡ x = some_inj (sym at ∙ ap (λ j. get j records) this ∙ found) in
                (r, get-put_same id i r records this, sym same ∙ ap alias_of is ∙ has_alias)
            | inr differ ↦ (x, get-put_ne id i r records differ ∙ found, has_alias)
          ]

      from :
          (i a : String) (x : R)
          → get i (put id r records) ≡ some x
          → alias_of x ≡ some a
          → get a index ≡ some i
      from i a x found has_alias = elim (text_cases id i) [
        | inl this ↦
            let is : r ≡ x = some_inj (sym (get-put_same id i r records this) ∙ found) in
            v.lists i a c (ap (λ j. get j records) (sym this) ∙ at)
              (same ∙ ap alias_of is ∙ has_alias)
        | inr differ ↦ v.lists i a x (sym (get-put_ne id i r records differ) ∙ found) has_alias
      ]

  -- Writing a new record without an alias.
  pub new-IsIndex :
      (id : String) (r : R) (records : Assoc R) (index : Assoc String)
      → IsIndex alias_of records index
      → get id records ≡ none
      → alias_of r ≡ none
      → IsIndex alias_of (put id r records) index
  new-IsIndex id r records index v free bare = record { leads = to; lists = from }
    where
      to :
          (a i : String)
          → get a index ≡ some i
          → (x : R) × (get i (put id r records) ≡ some x) × (alias_of x ≡ some a)
      to a i e =
          let (x, found, has_alias) = v.leads a i e in
          elim (text_cases id i) [
            | inl this ↦ absurd (none-ne-some (sym free ∙ ap (λ j. get j records) this ∙ found))
            | inr differ ↦ (x, get-put_ne id i r records differ ∙ found, has_alias)
          ]

      from :
          (i a : String) (x : R)
          → get i (put id r records) ≡ some x
          → alias_of x ≡ some a
          → get a index ≡ some i
      from i a x found has_alias = elim (text_cases id i) [
        | inl this ↦
            let is : r ≡ x = some_inj (sym (get-put_same id i r records this) ∙ found) in
            absurd (none-ne-some (sym bare ∙ ap alias_of is ∙ has_alias))
        | inr differ ↦ v.lists i a x (sym (get-put_ne id i r records differ) ∙ found) has_alias
      ]

  -- Removing a record with its alias.
  pub remove-IsIndex :
      (id : String) (c : R) (records : Assoc R) (index : Assoc String)
      → IsIndex alias_of records index
      → get id records ≡ some c
      → IsIndex alias_of (remove id records) (remove_alias (alias_of c) index)
  remove-IsIndex id c records index v at = record { leads = to; lists = from }
    where
      to :
          (a i : String)
          → get a (remove_alias (alias_of c) index) ≡ some i
          → (x : R) × (get i (remove id records) ≡ some x) × (alias_of x ≡ some a)
      to a i e = elim (alias_cases (alias_of c) a) [
        | inl mine ↦ absurd (none-ne-some (sym (removed_alias _ a index mine) ∙ e))
        | inr n ↦
            let (x, found, has_alias) = v.leads a i (sym (other_alias _ a index n) ∙ e) in
            elim (text_cases id i) [
              | inl this ↦
                  let is : c ≡ x = some_inj (sym at ∙ ap (λ j. get j records) this ∙ found) in
                  absurd (n (ap alias_of is ∙ has_alias))
              | inr differ ↦ (x, get-remove_ne id i records differ ∙ found, has_alias)
            ]
      ]

      from :
          (i a : String) (x : R)
          → get i (remove id records) ≡ some x
          → alias_of x ≡ some a
          → get a (remove_alias (alias_of c) index) ≡ some i
      from i a x found has_alias = elim (text_cases id i) [
        | inl this ↦ absurd (none-ne-some (sym (get-remove_same id i records this) ∙ found))
        | inr differ ↦
            let old : get a index ≡ some i =
              v.lists i a x (sym (get-remove_ne id i records differ) ∙ found) has_alias in
            other_alias _ a index (λ n. differ (some_inj (sym (v.lists id a c at n) ∙ old))) ∙ old
      ]
