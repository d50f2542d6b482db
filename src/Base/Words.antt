-- ===== src/Base/Words.antt =====
-- `std::size_t` and `std::uint64_t`, which wrap around at 64 bits.
use Prim.Native.Nat.{ℕ, ◌+◌, ◌-◌, ◌%◌, ◌^◌, ◌≤◌, ◌<◌}
use mathlib.Core.Path.{◌≡◌}
use native.Mathlib.Omega.{arith}

abbrev pub size_add : ℕ → ℕ → ℕ
size_add a b = (a + b) % 2 ^ 64

abbrev pub size_sub : ℕ → ℕ → ℕ
size_sub a b = (a + 2 ^ 64 - b) % 2 ^ 64

pub size_add-exact : (a b : ℕ) → a + b < 2 ^ 64 → size_add a b ≡ a + b
size_add-exact a b h = omega arith

pub size_sub-exact : (a b : ℕ) → b ≤ a → a < 2 ^ 64 → size_sub a b ≡ a - b
size_sub-exact a b h k = omega arith
