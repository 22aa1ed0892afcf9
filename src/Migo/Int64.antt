-- ===== src/Migo/Int64.antt =====
-- Go's int64, which migoextract/loop.go computes with. The integer v is stored as v + 2 ^ 63, a
-- number below 2 ^ 64, so that the order is the order of the numbers.
use Prim.Native.Nat.{◌%◌, ◌^◌}
use dingo_hunter.Prelude.{ℕ, ◌+◌, ◌-◌}

abbrev pub bias : ℕ
bias = 2 ^ 63

abbrev pub modulus : ℕ
modulus = 2 ^ 64

-- A sum, which wraps around.
abbrev pub add : ℕ → ℕ → ℕ
add a b = (a + b + bias) % modulus

-- `-a`; the least integer is its own negation.
abbrev pub neg : ℕ → ℕ
neg a = (modulus - a) % modulus

-- A constant that is not negative.
abbrev pub int : ℕ → ℕ
int n = bias + n

-- `a - b`
abbrev pub sub : ℕ → ℕ → ℕ
sub a b = (a + modulus + bias - b) % modulus
