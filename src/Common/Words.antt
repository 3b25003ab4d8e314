-- ===== src/Common/Words.antt =====
-- Unsigned big-endian words, as Node's `Buffer` reads and writes them, and integers of any size.
use Prim.Native.Nat.{ℕ, zero, suc, ◌+◌, ◌*◌, ◌/◌, ◌%◌, ◌^◌, ◌<◌}
use mathlib.Core.Path.{◌≡◌}
use mathlib.Core.List.{List, [], ◌∷◌}
use native.Mathlib.Omega.{arith}

-- The `k` low bytes of a number, highest first.
abbrev pub to_be : ℕ → ℕ → List ℕ
to_be zero n = []
to_be (suc k) n = (n / 256 ^ k % 256) ∷ to_be k n

abbrev pub of_be_from : ℕ → List ℕ → ℕ
of_be_from acc [] = acc
of_be_from acc (b ∷ bs) = of_be_from (acc * 256 + b) bs

abbrev pub of_be : List ℕ → ℕ
of_be = of_be_from 0

pub of_be-to_be_1 : (n : ℕ) → n < 256 → of_be (to_be 1 n) ≡ n
of_be-to_be_1 n h = omega arith

pub of_be-to_be_2 : (n : ℕ) → n < 2 ^ 16 → of_be (to_be 2 n) ≡ n
of_be-to_be_2 n h = omega arith

pub of_be-to_be_4 : (n : ℕ) → n < 2 ^ 32 → of_be (to_be 4 n) ≡ n
of_be-to_be_4 n h = omega arith

pub of_be-to_be_8 : (n : ℕ) → n < 2 ^ 64 → of_be (to_be 8 n) ≡ n
of_be-to_be_8 n h = omega arith

pub to_be-of_be_4 :
    (a b c d : ℕ)
    → a < 256
    → b < 256
    → c < 256
    → d < 256
    → to_be 4 (of_be (a ∷ b ∷ c ∷ d ∷ [])) ≡ a ∷ b ∷ c ∷ d ∷ []
to_be-of_be_4 a b c d ha hb hc hd = ground arith

-- `negsuc n` is -(n + 1).
pub data ℤ : Type 0 where
  pos : ℕ → ℤ
  negsuc : ℕ → ℤ
