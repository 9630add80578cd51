-- ===== src/Secrets.antt =====
-- core/crypto.ts: the comparison of secrets, on the bytes of their texts, with the operators `^` and
-- `|` on 32-bit numbers.
pub mod Laws
use hayasend.Base.{
  ℕ, zero, suc, ◌+◌, ◌*◌, ◌/◌, ◌%◌, Bool, List, [], ◌∷◌, length, nat_beq, if◌then◌else◌,
}

-- The lowest `n` bits of a ^ b and of a | b.
unfoldable pub bit_xor : ℕ → ℕ → ℕ → ℕ
bit_xor zero a b = 0
bit_xor (suc n) a b = (a + b) % 2 + 2 * bit_xor n (a / 2) (b / 2)

unfoldable pub bit_or : ℕ → ℕ → ℕ → ℕ
bit_or zero a b = 0
bit_or (suc n) a b = (if nat_beq (a % 2 + b % 2) 0 then 0 else 1) + 2 * bit_or n (a / 2) (b / 2)

-- difference |= (leftBytes[index] ?? 0) ^ (rightBytes[index] ?? 0)
unfoldable pub add_difference : ℕ → ℕ → ℕ → ℕ
add_difference difference a b = bit_or 32 difference (bit_xor 32 a b)

-- The loop, up to the longer of the two.
unfoldable pub differences : ℕ → List ℕ → List ℕ → ℕ
differences difference [] [] = difference
differences difference (a ∷ left) [] = differences (add_difference difference a 0) left []
differences difference [] (b ∷ right) = differences (add_difference difference 0 b) [] right
differences difference (a ∷ left) (b ∷ right) =
    differences (add_difference difference a b) left right

unfoldable pub secrets_equal : List ℕ → List ℕ → Bool
secrets_equal left right =
    nat_beq (differences (bit_xor 32 (length left) (length right)) left right) 0
