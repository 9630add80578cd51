-- ===== src/Base/Tests.antt =====
-- Boolean tests: on numbers, on texts, and `===` for every type that has an instance.
use Prim.Native.Nat.{ℕ, ◌≤◌, compare, Ordering}
use Prim.Native.String.{String}
use mathlib.Core.Path.{◌≡◌, refl, ap, sym, ◌∙◌}
use mathlib.Core.Logic.{◌↔◌, ◌≢◌, ◌⊎◌, inl, inr}
use mathlib.Core.Bool.{Bool, true, false, not, ◌&&◌, ◌||◌}
use mathlib.Core.Option.{Option, none, some}
use native.Mathlib.Omega.{arith}
use text.Mathlib.Text.{◌==◌ as str_eq}
use text.Mathlib.TextEquality.{eq_iff}

abbrev pub ltb : ℕ → ℕ → Bool
ltb a b = elim (compare a b) [ Ordering.lt ↦ true | _ ↦ false ]

abbrev pub leb : ℕ → ℕ → Bool
leb a b = elim (compare a b) [ Ordering.gt ↦ false | _ ↦ true ]

abbrev pub nat_beq : ℕ → ℕ → Bool
nat_beq a b = elim (compare a b) [ Ordering.eq ↦ true | _ ↦ false ]

infix 1 if◌then◌else◌
abbrev pub if◌then◌else◌ {ℓ} : {A : Type ℓ} → Bool → A → A → A
if true then x else y = x
if false then x else y = y

pub nat_beq_iff : (a b : ℕ) → (nat_beq a b ≡ true) ↔ (a ≡ b)
nat_beq_iff a b = ground arith

pub leb_iff : (a b : ℕ) → (leb a b ≡ true) ↔ (a ≤ b)
leb_iff a b = ground arith

pub and_true : (a b : Bool) → (a && b) ≡ true → (a ≡ true) × (b ≡ true)
and_true true b h = (refl, h)
and_true false b h = (cc, cc)

pub and_intro : {a b : Bool} → a ≡ true → b ≡ true → (a && b) ≡ true
and_intro h k = ground arith

-- Types whose values the source compares by `===`, or by their JSON.
pub record Eq {κ} (T : Type κ) : Type κ where
  pub beq : T → T → Bool
  pub beq_iff : (x y : T) → (beq x y ≡ true) ↔ (x ≡ y)

instance abbrev pub string_eq : Eq String
string_eq = record { beq_iff = eq_iff; beq = str_eq }

infix 50 ◌==◌
abbrev pub ◌==◌ {κ} : {T : Type κ} ⦃same : Eq T⦄ → T → T → Bool
◌==◌ ⦃same⦄ = same.beq

instance abbrev pub nat_eq : Eq ℕ
nat_eq = record { beq_iff = nat_beq_iff; beq = nat_beq }

-- An optional field: `undefined` equals only `undefined`.
abbrev pub option_beq {ℓ} : {A : Type ℓ} → (A → A → Bool) → Option A → Option A → Bool
option_beq f none none = true
option_beq f none (some b) = false
option_beq f (some a) none = false
option_beq f (some a) (some b) = f a b

module _ {ℓ} {A : Type ℓ} ⦃e : Eq A⦄ where
  pub option_beq_iff : (a b : Option A) → (option_beq e.beq a b ≡ true) ↔ (a ≡ b)
  option_beq_iff none none = (λ _. refl, λ _. refl)
  option_beq_iff none (some b) = (λ h. cc, λ h. cc)
  option_beq_iff (some a) none = (λ h. cc, λ h. cc)
  option_beq_iff (some a) (some b) =
      (λ h. ap some ((e.beq_iff a b).0 h), λ h. (e.beq_iff a b).1 (cc))

  instance abbrev pub option_eq : Eq (Option A)
  option_eq = record { beq = option_beq e.beq; beq_iff = option_beq_iff }

  pub beq_refl : (a : A) → (a == a) ≡ true
  beq_refl a = (e.beq_iff a a).1 refl

  pub beq→eq : (a b : A) → (a == b) ≡ true → a ≡ b
  beq→eq a b = (e.beq_iff a b).0

  pub beq_ne : (a b : A) → a ≢ b → (a == b) ≡ false
  beq_ne a b h = go (a == b) refl
    where
      go : (c : Bool) → (a == b) ≡ c → (a == b) ≡ false
      go true p = absurd (h (beq→eq a b p))
      go false p = p

-- An enumeration is compared through a number of each constructor that can be read back.
module _ {ℓ} {A : Type ℓ} (number : A → ℕ) (named : ℕ → A)
    (back : (a : A) → named (number a) ≡ a) where
  pub enum_beq_iff : (a b : A) → (nat_beq (number a) (number b) ≡ true) ↔ (a ≡ b)
  enum_beq_iff a b = (
    λ h. sym (back a) ∙ ap named ((nat_beq_iff (number a) (number b)).0 h) ∙ back b,
    λ h. (nat_beq_iff (number a) (number b)).1 (ap number h),
  )

-- A record is compared field by field, as a tuple of its fields.
module _ {ℓ κ} {A : Type ℓ} {B : Type κ} ⦃e : Eq A⦄ ⦃f : Eq B⦄ where
  pub pair_beq_iff : (p q : A × B) → ((e.beq p.0 q.0 && f.beq p.1 q.1) ≡ true) ↔ (p ≡ q)
  pair_beq_iff (a, b) (c, d) = (
    λ h.
        let (x, y) = and_true (e.beq a c) (f.beq b d) h in
        λ i. ((e.beq_iff a c).0 x i, (f.beq_iff b d).0 y i),
    λ h. and_intro ((e.beq_iff a c).1 (λ i. (h i).0)) ((f.beq_iff b d).1 (λ i. (h i).1)),
  )

  instance abbrev pub pair_eq : Eq (A × B)
  pair_eq = record { beq = λ p q. e.beq p.0 q.0 && f.beq p.1 q.1; beq_iff = pair_beq_iff }

module _ {ℓ κ} {A : Type ℓ} {B : Type κ} (e : Eq B) (fields : A → B) (make : B → A)
    (back : (a : A) → make (fields a) ≡ a) where
  pub record_beq_iff : (a b : A) → (e.beq (fields a) (fields b) ≡ true) ↔ (a ≡ b)
  record_beq_iff a b = (
    λ h. sym (back a) ∙ ap make ((e.beq_iff _ _).0 h) ∙ back b,
    λ h. (e.beq_iff _ _).1 (ap fields h),
  )

abbrev pub is_some {ℓ} : {A : Type ℓ} → Option A → Bool
is_some none = false
is_some (some a) = true

-- To split on a computed value and keep the equation.
pub Bool-cases : (b : Bool) → (b ≡ true) ⊎ (b ≡ false)
Bool-cases true = inl refl
Bool-cases false = inr refl

pub Option-cases {ℓ} : {A : Type ℓ} (o : Option A) → (o ≡ none) ⊎ ((a : A) × (o ≡ some a))
Option-cases none = inl refl
Option-cases (some a) = inr (a, refl)

abbrev pub bool_beq : Bool → Bool → Bool
bool_beq true b = b
bool_beq false b = not b

pub bool_beq_iff : (a b : Bool) → (bool_beq a b ≡ true) ↔ (a ≡ b)
bool_beq_iff true true = (λ _. refl, λ _. refl)
bool_beq_iff true false = (λ h. sym h, λ h. sym h)
bool_beq_iff false true = (λ h. h, λ h. h)
bool_beq_iff false false = (λ _. refl, λ _. refl)

instance abbrev pub bool_eq : Eq Bool
bool_eq = record { beq = bool_beq; beq_iff = bool_beq_iff }

pub or_false : (a b : Bool) → (a || b) ≡ false → (a ≡ false) × (b ≡ false)
or_false false b h = (refl, h)
or_false true b h = (cc, cc)

pub not-true : (b : Bool) → b ≡ false → not b ≡ true
not-true b h = ground arith

pub not-false : (b : Bool) → not b ≡ false → b ≡ true
not-false true h = refl
not-false false h = cc

pub some_inj {ℓ} : {A : Type ℓ} {a b : A} → some a ≡ some b → a ≡ b
some_inj h = cc

pub true-ne-false : true ≡ false → ⊥
true-ne-false h = cc

pub none-ne-some {ℓ} : {A : Type ℓ} {a : A} → none ≡ some a → ⊥
none-ne-some h = cc
