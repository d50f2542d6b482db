-- ===== src/Core/Network/Prefix.antt =====
-- A network holds the addresses that begin with the bits of its prefix.
use server_core.Base.{
  ℕ, ltb→lt, ltb→le, zero, suc, ◌-◌, ◌*◌, ◌/◌, ◌^◌, ◌≤◌, ◌<◌, ◌≡◌, ◌↔◌, refl, sym, ap, ap₂, ◌∙◌,
  inl, inr, Bool, true, false, not, ◌&&◌, ◌||◌, List, [], ◌∷◌, arith, bit_and, ltb, ◌==◌, ==_iff,
  if◌then◌else◌, length, take, take-append_self, length-take, min, All, Bool-cases,
}
use native.Mathlib.Nat.{div-mul-le_self, mul-div_cancel}
use server_core.Base.Bits.{holds_below, holds_below_lem, pow_pos}
use server_core.Core.Endpoint.{
  IpFamily, unspecified, v4, v6, same_family, IpAddress, size_of, bytes_of, is_valid_address,
}
use server_core.Core.Network.{mask_of, masked, network_at, same_masked, contains}

-- The mask clears the low bits of a byte.
mask_table :
    holds_below
      (λ r. holds_below (λ b. bit_and b (mask_of r) == b / 2 ^ (8 - r) * 2 ^ (8 - r)) 256)
      9
    ≡ true
unfolding holds_below
mask_table = refl

mask_small : (r b : ℕ) → r < 9 → b < 256 → bit_and b (mask_of r) ≡ b / 2 ^ (8 - r) * 2 ^ (8 - r)
mask_small r b h k = (==_iff _ _).0 (
    holds_below_lem _ 256 b k (
      holds_below_lem
        (λ r. holds_below (λ b. bit_and b (mask_of r) == b / 2 ^ (8 - r) * 2 ^ (8 - r)) 256) 9 r h
        mask_table))

mask_large : (r : ℕ) → 8 ≤ r → mask_of r ≡ mask_of 8
mask_large r h = ground arith

mask_lem : (r b : ℕ) → b < 256 → bit_and b (mask_of r) ≡ b / 2 ^ (8 - r) * 2 ^ (8 - r)
mask_lem r b h = elim (Bool-cases (ltb r 9)) [
  | inl small ↦ mask_small r b (ltb→lt r 9 small) h
  | inr large ↦
      let over = ltb→le r 9 large in
      let none_left : 8 - r ≡ 0 = omega (arith, over) in
      rw (mask_large r (omega arith), none_left) (mask_small 8 b (omega arith) h)
]

-- The first byte is cleared of the bits that are not of the prefix, and so on.
mask_again :
    (r b : ℕ) → b < 256 → bit_and (bit_and b (mask_of r)) (mask_of r) ≡ bit_and b (mask_of r)
mask_again r b h =
    let k = 2 ^ (8 - r) in
    let low = div-mul-le_self b k in
    let inside : b / k * k < 256 = omega (arith, low) in
    ap (λ m. bit_and m (mask_of r)) (mask_lem r b h)
    ∙ mask_lem r (b / k * k) inside
    ∙ ap (λ q. q * k) (mul-div_cancel (b / k) (pow_pos (8 - r)))
    ∙ sym (mask_lem r b h)

same_byte :
    (r a b : ℕ)
    → a < 256
    → b < 256
    → (bit_and a (mask_of r) ≡ bit_and b (mask_of r)) ↔ (a / 2 ^ (8 - r) ≡ b / 2 ^ (8 - r))
same_byte r a b ha hb =
    let k = 2 ^ (8 - r) in
    (
      λ e.
          sym (mul-div_cancel (a / k) (pow_pos (8 - r)))
          ∙ ap (λ m. m / k) (sym (mask_lem r a ha) ∙ e ∙ mask_lem r b hb)
          ∙ mul-div_cancel (b / k) (pow_pos (8 - r)),
      λ e. mask_lem r a ha ∙ ap (λ q. q * k) e ∙ sym (mask_lem r b hb),
    )

both : (a b : Bool) → (a && b) ≡ true → (a ≡ true) × (b ≡ true)
both true b h = (refl, h)
both false b h = cc

abbrev pub SamePrefix : ℕ → List ℕ → List ℕ → Type 0
SamePrefix p [] ys = Unit
SamePrefix p (x ∷ xs) [] = ⊥
SamePrefix p (x ∷ xs) (y ∷ ys) = (x / 2 ^ (8 - p) ≡ y / 2 ^ (8 - p)) × SamePrefix (p - 8) xs ys

same_masked-SamePrefix :
    (p : ℕ) (xs ys : List ℕ)
    → All (λ b. b < 256) xs
    → All (λ b. b < 256) ys
    → (same_masked p xs (masked p ys) ≡ true) ↔ SamePrefix p xs ys
same_masked-SamePrefix p [] ys hx hy = (λ e. tt, λ e. refl)
same_masked-SamePrefix p (x ∷ xs) [] hx hy = (λ e. cc, λ e. absurd e)
same_masked-SamePrefix p (x ∷ xs) (y ∷ ys) (hx, hxs) (hy, hys) =
    let (rest_to, rest_from) = same_masked-SamePrefix (p - 8) xs ys hxs hys in
    let (to, from) = same_byte p x y hx hy in
    let (test_to, test_from) = ==_iff (bit_and x (mask_of p)) (bit_and y (mask_of p)) in
    rw (mask_again p y hy) (
      λ e. let (first, more) = both _ _ e in (to (test_to first), rest_to more),
      λ (e, more). ap₂ (λ s t. s && t) (test_from (from e)) (rest_from more),
    )

length-masked : (p : ℕ) (xs : List ℕ) → length (masked p xs) ≡ length xs
length-masked p [] = refl
length-masked p (x ∷ xs) = omega (arith, length-masked (p - 8) xs)

bytes_of-network :
    (p : ℕ) (a : IpAddress)
    → length a.bytes ≡ 16
    → bytes_of ((network_at p a).address) ≡ masked p (bytes_of a)
bytes_of-network p a h =
    take-append_self (size_of a.family) (masked p (bytes_of a)) _
      (length-masked p (bytes_of a) ∙ length-take (size_of a.family) a.bytes ∙ size a.family h)
  where
    size : (f : IpFamily) → length a.bytes ≡ 16 → min (size_of f) (length a.bytes) ≡ size_of f
    size unspecified h = ground arith
    size v4 h = ground arith
    size v6 h = ground arith

All-take : (n : ℕ) (xs : List ℕ) → All (λ b. b < 256) xs → All (λ b. b < 256) (take n xs)
All-take zero xs h = tt
All-take (suc n) [] h = tt
All-take (suc n) (x ∷ xs) (h, hs) = (h, All-take n xs hs)

guarded :
    {P : Type 0}
    → (valid same test : Bool) → ((test ≡ true) ↔ P)
    → ((if not valid || not same then false else test) ≡ true)
      ↔ ((valid ≡ true) × (same ≡ true) × P)
guarded true true test (to, from) = (λ e. (refl, refl, to e), λ (v, s, p). from p)
guarded true false test h = (λ e. cc, λ (v, s, p). cc)
guarded false same test h = (λ e. cc, λ (v, s, p). cc)

-- A network made of an address and a prefix contains an address exactly if the family is the same
-- one, not unspecified, and the bits of the prefix agree.
pub contains_iff :
    (p : ℕ) (a c : IpAddress)
    → length a.bytes ≡ 16
    → All (λ b. b < 256) a.bytes
    → All (λ b. b < 256) c.bytes
    → (contains (network_at p a) c ≡ true) ↔ (
        (is_valid_address a ≡ true)
        × (same_family c.family a.family ≡ true)
        × SamePrefix p (bytes_of c) (bytes_of a))
unfolding contains
contains_iff p a c h ha hc = rw (bytes_of-network p a h) (
    guarded (is_valid_address a) (same_family c.family a.family)
      (same_masked p (bytes_of c) (masked p (bytes_of a)))
      (same_masked-SamePrefix p (bytes_of c) (bytes_of a) (All-take (size_of c.family) c.bytes hc)
        (All-take (size_of a.family) a.bytes ha)))
