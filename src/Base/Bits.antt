-- ===== src/Base/Bits.antt =====
-- The bit operations at variables: masks of low ones, and the union of disjoint fields.
use Prim.Native.Nat.{
  ℕ, zero, suc, ◌+◌, ◌-◌, ◌*◌, ◌/◌, ◌%◌, ◌^◌, ◌≤◌, ◌<◌, min, max, bit_and, bit_or, digits,
  bit_and-bitwise, bit_or-bitwise,
}
use mathlib.Core.Path.{◌≡◌, refl, sym, ap, ◌∙◌}
use mathlib.Core.Bool.{Bool, true, ◌&&◌}
use native.Mathlib.Omega.{arith}
use native.Mathlib.Nat.{pow-suc, add-mul-mod_self_left, mod-eq_of_lt, mod-lt, div-add-mod}

-- A test of each number below a bound, to be run.
unfoldable pub holds_below : (ℕ → Bool) → ℕ → Bool
holds_below test zero = true
holds_below test (suc bound) = holds_below test bound && test bound

pub holds_below_lem :
    (test : ℕ → Bool) (bound i : ℕ) → i < bound → holds_below test bound ≡ true → test i ≡ true
unfolding holds_below
holds_below_lem test zero i inside run = absurd (omega arith)
holds_below_lem test (suc bound) i inside run = ground (arith, holds_below_lem test bound i)

module _ (rest : ℕ → ℕ) (op : ℕ → ℕ → ℕ) where
  -- The first number is fuel enough for its own digits.
  settled :
      (size fuel a b : ℕ) → fuel ≤ size → a ≤ fuel → digits rest op fuel a b ≡ digits rest op a a b
  settled size zero zero b k h = refl
  settled size zero (suc a) b k h = absurd (omega arith)
  settled size (suc fuel) zero b k h = refl
  settled zero (suc fuel) (suc a) b k h = absurd (omega arith)
  settled (suc size) (suc fuel) (suc a) b k h =
      ap (λ q. q * 2 + op (suc a % 2) (b % 2))
        (settled size fuel (suc a / 2) (b / 2) (omega arith) (omega arith)
          ∙ sym (settled size a (suc a / 2) (b / 2) (omega arith) (omega arith)))

  -- The lowest digit and the others.
  lowest :
      (a b : ℕ)
      → digits rest op (suc a) (suc a) b
        ≡ digits rest op (suc a / 2) (suc a / 2) (b / 2) * 2 + op (suc a % 2) (b % 2)
  lowest a b =
      ap (λ q. q * 2 + op (suc a % 2) (b % 2))
        (settled a a (suc a / 2) (b / 2) (omega arith) (omega arith))

pub bit_or_step : (a b : ℕ) → bit_or a b ≡ bit_or (a / 2) (b / 2) * 2 + max (a % 2) (b % 2)
bit_or_step zero b = bit_or-bitwise 0 b ∙ omega (arith, bit_or-bitwise 0 (b / 2))
bit_or_step (suc a) b =
    bit_or-bitwise (suc a) b
    ∙ lowest (λ b. b) max a b
    ∙ ap (λ q. q * 2 + max (suc a % 2) (b % 2)) (sym (bit_or-bitwise (suc a / 2) (b / 2)))

pub bit_and_step : (a b : ℕ) → bit_and a b ≡ bit_and (a / 2) (b / 2) * 2 + min (a % 2) (b % 2)
bit_and_step zero b = bit_and-bitwise 0 b ∙ omega (arith, bit_and-bitwise 0 (b / 2))
bit_and_step (suc a) b =
    bit_and-bitwise (suc a) b
    ∙ lowest (λ b. zero) min a b
    ∙ ap (λ q. q * 2 + min (suc a % 2) (b % 2)) (sym (bit_and-bitwise (suc a / 2) (b / 2)))

-- Zero on the right.
on_zero : (size a : ℕ) → a ≤ size → (bit_or a 0 ≡ a) × (bit_and a 0 ≡ 0)
on_zero size zero h = (refl, refl)
on_zero zero (suc a) h = absurd (omega arith)
on_zero (suc size) (suc a) h =
    let (joined, met) = on_zero size (suc a / 2) (omega arith) in
    (omega (arith, bit_or_step (suc a) 0, joined), omega (arith, bit_and_step (suc a) 0, met))

pub zero-bit_or : (b : ℕ) → bit_or 0 b ≡ b
zero-bit_or b = bit_or-bitwise 0 b

pub bit_or-zero : (a : ℕ) → bit_or a 0 ≡ a
bit_or-zero a = (on_zero a a (omega arith)).0

pub bit_and-zero : (a : ℕ) → bit_and a 0 ≡ 0
bit_and-zero a = (on_zero a a (omega arith)).1

pub pow_pos : (k : ℕ) → 0 < 2 ^ k
pow_pos zero = omega arith
pow_pos (suc k) = omega (arith, pow-suc 2 k, pow_pos k)

double : (b k : ℕ) → b * 2 ^ suc k ≡ 2 * (b * 2 ^ k)
double b k = omega (arith, ap (λ (t : ℕ). b * t) (pow-suc 2 k))

-- A field below bit `k` joined with one from bit `k` on is their sum.
pub bit_or-low_high : (k a b : ℕ) → a < 2 ^ k → bit_or a (b * 2 ^ k) ≡ a + b * 2 ^ k
bit_or-low_high zero zero b h = omega (arith, zero-bit_or (b * 2 ^ 0))
bit_or-low_high zero (suc a) b h = absurd (omega arith)
bit_or-low_high (suc k) a b h =
    rw (double b k, bit_or_step a (2 * (b * 2 ^ k)), half)
      (omega (arith, bit_or-low_high k (a / 2) b (omega (arith, pow-suc 2 k))))
  where
    half : 2 * (b * 2 ^ k) / 2 ≡ b * 2 ^ k
    half = omega arith

pub bit_or-high_low : (k a b : ℕ) → b < 2 ^ k → bit_or (a * 2 ^ k) b ≡ a * 2 ^ k + b
bit_or-high_low zero a zero h = omega (arith, bit_or-zero (a * 2 ^ 0))
bit_or-high_low zero a (suc b) h = absurd (omega arith)
bit_or-high_low (suc k) a b h =
    rw (double a k, bit_or_step (2 * (a * 2 ^ k)) b, half)
      (omega (arith, bit_or-high_low k a (b / 2) (omega (arith, pow-suc 2 k))))
  where
    half : 2 * (a * 2 ^ k) / 2 ≡ a * 2 ^ k
    half = omega arith

mod-double : (a p : ℕ) → 0 < p → a % (2 * p) ≡ a / 2 % p * 2 + a % 2
mod-double a p h =
    ap (λ (t : ℕ). t % (2 * p)) whole
    ∙ add-mul-mod_self_left (a / 2 % p * 2 + a % 2) (2 * p) (a / 2 / p)
    ∙ mod-eq_of_lt (omega (arith, mod-lt (a / 2) h))
  where
    whole : a ≡ a / 2 % p * 2 + a % 2 + 2 * p * (a / 2 / p)
    whole = omega (arith, div-add-mod (a / 2) p)

-- A mask of `k` ones keeps the value modulo `2 ^ k`.
pub bit_and_mask : (k a : ℕ) → bit_and a (2 ^ k - 1) ≡ a % 2 ^ k
bit_and_mask zero a = omega (arith, bit_and-zero a)
bit_and_mask (suc k) a =
    rw (bit_and_step a (2 ^ suc k - 1), half, twice, mod-double a (2 ^ k) (pow_pos k))
      (omega (arith, bit_and_mask k (a / 2), pow_pos k))
  where
    half : (2 ^ suc k - 1) / 2 ≡ 2 ^ k - 1
    half = omega (arith, pow-suc 2 k)

    twice : 2 ^ suc k ≡ 2 * 2 ^ k
    twice = omega (arith, pow-suc 2 k)

pub bit_and_255 : (a : ℕ) → bit_and a 255 ≡ a % 256
bit_and_255 a = bit_and_mask 8 a
