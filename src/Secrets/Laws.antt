-- ===== src/Secrets/Laws.antt =====
-- The comparison of secrets is equality, though it looks at every byte.
use hayasend.Base.{
  ℕ, zero, suc, ◌+◌, ◌*◌, ◌/◌, ◌%◌, ◌<◌, ◌≡◌, refl, sym, ap, ◌∙◌, subst, true, List, [], ◌∷◌, ◌↔◌,
  length, nat_beq_iff, arith, All,
}
use Prim.Native.Nat.{◌^◌}
use hayasend.Secrets.{bit_xor, bit_or, add_difference, differences, secrets_equal}

-- `a` has at most `n` bits.
Fits : ℕ → ℕ → Type 0
Fits zero a = a ≡ 0
Fits (suc n) a = Fits n (a / 2)

doubles : ℕ → ℕ
doubles zero = 1
doubles (suc n) = doubles n + doubles n

below-Fits : (n a : ℕ) → a < doubles n → Fits n a
unfolding Fits doubles
below-Fits zero a h = omega (arith, h)
below-Fits (suc n) a h = below-Fits n (a / 2) (omega (arith, h))

-- The bits over the lowest one.
high_bits : (x r : ℕ) → x < 2 → (x + 2 * r) / 2 ≡ r
high_bits x r h = omega (arith, h)

bit_or-Fits : (n a b : ℕ) → Fits n (bit_or n a b)
unfolding Fits bit_or
bit_or-Fits zero a b = refl
bit_or-Fits (suc n) a b =
    subst (Fits n) (sym (high_bits _ (bit_or n (a / 2) (b / 2)) (ground arith)))
      (bit_or-Fits n (a / 2) (b / 2))

bit_xor-Fits : (n a b : ℕ) → Fits n (bit_xor n a b)
unfolding Fits bit_xor
bit_xor-Fits zero a b = refl
bit_xor-Fits (suc n) a b =
    subst (Fits n) (sym (high_bits ((a + b) % 2) (bit_xor n (a / 2) (b / 2)) (omega arith)))
      (bit_xor-Fits n (a / 2) (b / 2))

bit_or_zero : (n a b : ℕ) → Fits n a → Fits n b → bit_or n a b ≡ 0 → (a ≡ 0) × (b ≡ 0)
unfolding Fits bit_or
bit_or_zero zero a b fa fb h = (fa, fb)
bit_or_zero (suc n) a b fa fb h =
    let (za, zb) = bit_or_zero n (a / 2) (b / 2) fa fb (ground arith) in
    (ground arith, ground arith)

bit_or_of_zeros : (n : ℕ) → bit_or n 0 0 ≡ 0
unfolding bit_or
bit_or_of_zeros zero = refl
bit_or_of_zeros (suc n) = omega (arith, bit_or_of_zeros n)

bit_xor_zero : (n a b : ℕ) → Fits n a → Fits n b → bit_xor n a b ≡ 0 → a ≡ b
unfolding Fits bit_xor
bit_xor_zero zero a b fa fb h = fa ∙ sym fb
bit_xor_zero (suc n) a b fa fb h =
    let halves : a / 2 ≡ b / 2 = bit_xor_zero n (a / 2) (b / 2) fa fb (omega arith) in
    omega (arith, h, halves)

bit_xor_self : (n a : ℕ) → bit_xor n a a ≡ 0
unfolding bit_xor
bit_xor_self zero a = refl
bit_xor_self (suc n) a = omega (arith, bit_xor_self n (a / 2))

last_zero : (d a b : ℕ) → Fits 32 d → add_difference d a b ≡ 0 → bit_xor 32 a b ≡ 0
unfolding add_difference
last_zero d a b f h = (bit_or_zero 32 d (bit_xor 32 a b) f (bit_xor-Fits 32 a b) h).1

added-Fits : (d a b : ℕ) → Fits 32 (add_difference d a b)
unfolding add_difference
added-Fits d a b = bit_or-Fits 32 d (bit_xor 32 a b)

-- A difference that was found stays.
kept_zero : (d a b : ℕ) → Fits 32 d → add_difference d a b ≡ 0 → d ≡ 0
unfolding add_difference
kept_zero d a b f h = (bit_or_zero 32 d (bit_xor 32 a b) f (bit_xor-Fits 32 a b) h).0

differences_zero : (xs ys : List ℕ) (d : ℕ) → Fits 32 d → differences d xs ys ≡ 0 → d ≡ 0
unfolding differences
differences_zero [] [] d f h = h
differences_zero (x ∷ xs) [] d f h =
    kept_zero d x 0 f (differences_zero xs [] _ (added-Fits d x 0) h)
differences_zero [] (y ∷ ys) d f h =
    kept_zero d 0 y f (differences_zero [] ys _ (added-Fits d 0 y) h)
differences_zero (x ∷ xs) (y ∷ ys) d f h =
    kept_zero d x y f (differences_zero xs ys _ (added-Fits d x y) h)

-- Bytes are numbers below 256.
abbrev pub IsByte : ℕ → Type 0
IsByte c = c < 256

byte-Fits : (c : ℕ) → IsByte c → Fits 32 c
unfolding doubles
byte-Fits c h = below-Fits 32 c (omega (arith, h))

equal_of_zero :
    (xs ys : List ℕ) (d : ℕ)
    → Fits 32 d
    → length xs ≡ length ys
    → All IsByte xs
    → All IsByte ys
    → differences d xs ys ≡ 0
    → xs ≡ ys
unfolding differences add_difference
equal_of_zero [] [] d f n bx by h = refl
equal_of_zero (x ∷ xs) [] d f n bx by h = absurd (omega (arith, n))
equal_of_zero [] (y ∷ ys) d f n bx by h = absurd (omega (arith, n))
equal_of_zero (x ∷ xs) (y ∷ ys) d f n bx by h =
    let zero_here : add_difference d x y ≡ 0 = differences_zero xs ys _ (added-Fits d x y) h in
    let first : x ≡ y =
      bit_xor_zero 32 x y (byte-Fits x bx.0) (byte-Fits y by.0) (last_zero d x y f zero_here) in
    let rest : xs ≡ ys = equal_of_zero xs ys _ (added-Fits d x y) (omega (arith, n)) bx.1 by.1 h in
    ap (λ b. b ∷ xs) first ∙ ap (λ bs. y ∷ bs) rest

zero_of_equal : (xs : List ℕ) (d : ℕ) → d ≡ 0 → differences d xs xs ≡ 0
unfolding differences add_difference
zero_of_equal [] d h = h
zero_of_equal (x ∷ xs) d h = zero_of_equal xs _ (
    ap (λ n. bit_or 32 n (bit_xor 32 x x)) h
    ∙ ap (bit_or 32 0) (bit_xor_self 32 x)
    ∙ bit_or_of_zeros 32)

-- On bytes, and lengths of fewer than 32 bits, `secretsEqual` holds of equal secrets and of no others,
-- though it looks at every byte of both.
pub secrets_equal_iff :
    (left right : List ℕ)
    → All IsByte left
    → All IsByte right
    → length left < 2 ^ 32
    → length right < 2 ^ 32
    → (secrets_equal left right ≡ true) ↔ (left ≡ right)
unfolding secrets_equal doubles
secrets_equal_iff left right bl br nl nr = (
  λ h.
      let none : differences _ left right ≡ 0 = (nat_beq_iff _ 0).0 h in
      equal_of_zero left right _ (bit_xor-Fits 32 (length left) (length right))
        (bit_xor_zero 32 (length left) (length right) (below-Fits 32 _ (omega (arith, nl)))
          (below-Fits 32 _ (omega (arith, nr)))
          (differences_zero left right _ (bit_xor-Fits 32 (length left) (length right)) none))
        bl br none,
  λ e.
      subst (λ r. secrets_equal left r ≡ true) e
        ((nat_beq_iff _ 0).1 (zero_of_equal left _ (bit_xor_self 32 (length left)))),
)

pub secrets_equal_self : (secret : List ℕ) → secrets_equal secret secret ≡ true
unfolding secrets_equal
secrets_equal_self secret =
    (nat_beq_iff _ 0).1 (zero_of_equal secret _ (bit_xor_self 32 (length secret)))
