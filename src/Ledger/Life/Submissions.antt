-- ===== src/Ledger/Life/Submissions.antt =====
-- Attempts that are live: under way at the provider, or accepted by it.
use hayasend.Base.{
  ℕ, suc, ◌+◌, ◌≤◌, ◌≡◌, refl, subst, Bool, true, false, ◌||◌, List, [], ◌∷◌, ◌++◌, some, arith,
  ◌⊎◌, inl, inr, length, filter_by, find, All, All-map, sym, Bool-cases, ◌==◌,
}
use hayasend.Model.Status.{AttemptStatus, attempt_status_eq}
use hayasend.Model.Records.{DeliveryAttemptRecord}
use hayasend.Ledger.Attempts.{replace_first}

abbrev pub live : DeliveryAttemptRecord → Bool
live a = a.status == AttemptStatus.submitting || a.status == AttemptStatus.accepted

abbrev pub live_count : List DeliveryAttemptRecord → ℕ
live_count attempts = length (filter_by live attempts)

module _ (test : DeliveryAttemptRecord → Bool) where
  live_count_of_find :
      (xs : List DeliveryAttemptRecord) (current : DeliveryAttemptRecord)
      → find test xs ≡ some current
      → live current ≡ true
      → 1 ≤ live_count xs
  live_count_of_find [] current h l = cc
  live_count_of_find (x ∷ xs) current h l = elim (Bool-cases (test x)) [
    | inl t ↦
        let same : x ≡ current = ground arith in
        let lx : live x ≡ true = subst (λ y. live y ≡ true) (sym same) l in rw lx (omega arith)
    | inr f ↦ elim (Bool-cases (live x)) [
      | inl e ↦ rw e (omega arith)
      | inr e ↦ rw e (live_count_of_find xs current (rw f at h) l)
    ]
  ]

none_live : (xs : List DeliveryAttemptRecord) → live_count xs ≤ 0 → All (λ a. live a ≡ false) xs
none_live [] h = tt
none_live (x ∷ xs) h = elim (Bool-cases (live x)) [
  | inl e ↦ absurd (omega (arith, rw e at h))
  | inr e ↦ (e, none_live xs (rw e at h))
]

pub live_count_of_none :
    (xs : List DeliveryAttemptRecord) → All (λ a. live a ≡ false) xs → live_count xs ≡ 0
live_count_of_none [] h = refl
live_count_of_none (x ∷ xs) h = rw h.0 (live_count_of_none xs h.1)

pub live_count-snoc :
    (xs : List DeliveryAttemptRecord) (a : DeliveryAttemptRecord)
    → live_count (xs ++ a ∷ []) ≤ live_count xs + 1
live_count-snoc [] a = elim (Bool-cases (live a)) [
  | inl e ↦ rw e (omega arith)
  | inr e ↦ rw e (omega arith)
]
live_count-snoc (x ∷ xs) a = elim (Bool-cases (live x)) [
  | inl e ↦ rw e (omega (arith, live_count-snoc xs a))
  | inr e ↦ rw e (live_count-snoc xs a)
]

le_one_more :
    (a : DeliveryAttemptRecord) (xs : List DeliveryAttemptRecord)
    → live_count (a ∷ xs) ≤ suc (live_count xs)
le_one_more a xs = elim (Bool-cases (live a)) [
  | inl e ↦ rw e (omega arith)
  | inr e ↦ rw e (omega arith)
]

pred_le : (xs : List DeliveryAttemptRecord) → suc (live_count xs) ≤ 1 → live_count xs ≤ 0
pred_le xs h = omega arith

too_many : (xs : List DeliveryAttemptRecord) → suc (live_count xs) ≤ 1 → 1 ≤ live_count xs → ⊥
too_many xs h k = omega arith

module _ (test : DeliveryAttemptRecord → Bool) (new current : DeliveryAttemptRecord)
    (was_live : live current ≡ true) where
  -- Replacing a live attempt adds none.
  pub live_count-replace_first :
      (xs : List DeliveryAttemptRecord)
      → find test xs ≡ some current
      → live_count (replace_first test new xs) ≤ live_count xs
  unfolding replace_first
  live_count-replace_first [] h = cc
  live_count-replace_first (x ∷ xs) h = elim (Bool-cases (test x)) [
    | inl t ↦
        let same : x ≡ current = ground arith in
        let lx : live x ≡ true = subst (λ y. live y ≡ true) (sym same) was_live in
        rw (t, lx) (le_one_more new xs)
    | inr f ↦ elim (Bool-cases (live x)) [
      | inl e ↦ rw (f, e) (omega (arith, live_count-replace_first xs (rw f at h)))
      | inr e ↦ rw (f, e) (live_count-replace_first xs (rw f at h))
    ]
  ]

  -- Where it was the only live one, whatever is live afterwards is the new attempt.
  pub others_not_live :
      (xs : List DeliveryAttemptRecord)
      → live_count xs ≤ 1
      → find test xs ≡ some current
      → All (λ a. (live a ≡ false) ⊎ (a ≡ new)) (replace_first test new xs)
  unfolding replace_first
  others_not_live [] n h = cc
  others_not_live (x ∷ xs) n h = elim (Bool-cases (test x)) [
    | inl t ↦
        let same : x ≡ current = ground arith in
        let lx : live x ≡ true = subst (λ y. live y ≡ true) (sym same) was_live in
        rw t (inr refl, All-map (λ a e. inl e) xs (none_live xs (pred_le xs (rw lx at n))))
    | inr f ↦ elim (Bool-cases (live x)) [
      | inl e ↦
          absurd (too_many xs (rw e at n) (live_count_of_find test xs current (rw f at h) was_live))
      | inr e ↦ rw f (inl e, others_not_live xs (rw e at n) (rw f at h))
    ]
  ]
