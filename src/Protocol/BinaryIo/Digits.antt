-- ===== src/Protocol/BinaryIo/Digits.antt =====
-- The bytes of an integer in either order: the loops of `Store` and `ReadUnsigned` are inverses.
use native.Mathlib.Nat.{
  pow-suc, mul-le-mul_right, pow-le-pow_right, mul-add, mul_assoc, mod-eq_of_lt, div-add-mod,
  div-div-eq-div-mul,
}
use server_core.Base.{
  ℕ, zero, suc, ◌+◌, ◌-◌, ◌*◌, ◌/◌, ◌%◌, ◌^◌, ◌≤◌, ◌<◌, ◌≡◌, refl, sym, ap, ap₂, ◌∙◌, List, [], ◌∷◌,
  arith, length, get_or, take, drop, length-take, length-drop, bit_or, bit_and, All,
}
use server_core.Base.Bits.{bit_or-low_high, bit_or-high_low, bit_and_255, pow_pos}
use server_core.Protocol.BinaryIo.{
  ByteOrder, big_endian, little_endian, shift_of, store_from, store, load_from,
}

abbrev pub IsByte : ℕ → Type 0
IsByte b = b < 256

-- What the bytes stand for.
abbrev pub little_value : List ℕ → ℕ
little_value [] = 0
little_value (b ∷ bytes) = b + 256 * little_value bytes

abbrev pub big_value : List ℕ → ℕ
big_value [] = 0
big_value (b ∷ bytes) = b * 2 ^ (8 * length bytes) + big_value bytes

abbrev pub value_of : ByteOrder → List ℕ → ℕ
value_of big_endian bytes = big_value bytes
value_of little_endian bytes = little_value bytes

pub pow_8 : (k : ℕ) → 2 ^ (8 * suc k) ≡ 256 * 2 ^ (8 * k)
pow_8 k =
    ap (λ n. 2 ^ n) {y = suc (suc (suc (suc (suc (suc (suc (suc (8 * k))))))))} (omega arith)
    ∙ omega (
      arith,
      pow-suc 2 (8 * k),
      pow-suc 2 (suc (8 * k)),
      pow-suc 2 (suc (suc (8 * k))),
      pow-suc 2 (suc (suc (suc (8 * k)))),
      pow-suc 2 (suc (suc (suc (suc (8 * k))))),
      pow-suc 2 (suc (suc (suc (suc (suc (8 * k)))))),
      pow-suc 2 (suc (suc (suc (suc (suc (suc (8 * k))))))),
      pow-suc 2 (suc (suc (suc (suc (suc (suc (suc (8 * k)))))))),
    )

-- The remainder by a product, in two steps.
mod-mul : (v a b : ℕ) → v % (a * b) ≡ v % a + a * (v / a % b)
mod-mul v a b = omega (
  arith,
  div-add-mod v a,
  ap (λ n. a * n) (div-add-mod (v / a) b),
  mul-add a (b * (v / a / b)) (v / a % b),
  mul_assoc a b (v / a / b),
  ap (λ n. a * b * n) (div-div-eq-div-mul v a b),
  div-add-mod v (a * b),
)

pub length-store_from :
    (order : ByteOrder) (n width i count : ℕ) → length (store_from order n width i count) ≡ count
unfolding store_from
length-store_from order n width i zero = refl
length-store_from order n width i (suc count) =
    ap suc (length-store_from order n width (i + 1) count)

pub store_from-bytes :
    (order : ByteOrder) (n width i count : ℕ) → All IsByte (store_from order n width i count)
unfolding store_from
store_from-bytes order n width i zero = tt
store_from-bytes order n width i (suc count) = (
  omega (arith, bit_and_255 (n / 2 ^ shift_of order width i)),
  store_from-bytes order n width (i + 1) count,
)

little_value-store :
    (n width i count : ℕ)
    → little_value (store_from little_endian n width i count) ≡ n / 2 ^ (8 * i) % 2 ^ (8 * count)
unfolding store_from
little_value-store n width i zero = omega arith
little_value-store n width i (suc count) =
    let v : ℕ = n / 2 ^ (8 * i) in
    let next : n / 2 ^ (8 * (i + 1)) ≡ v / 256 =
      ap (λ p. n / p) (ap (λ k. 2 ^ (8 * k)) {y = suc i} (omega arith) ∙ pow_8 i ∙ omega arith)
      ∙ sym (div-div-eq-div-mul n (2 ^ (8 * i)) 256) in
    ap₂ (λ x y. x + 256 * y) (bit_and_255 v)
      (little_value-store n width (i + 1) count ∙ ap (λ x. x % 2 ^ (8 * count)) next)
    ∙ sym (mod-mul v 256 (2 ^ (8 * count)))
    ∙ ap (λ p. v % p) (sym (pow_8 count))

big_value-store :
    (n width i count : ℕ)
    → i + count ≡ width
    → big_value (store_from big_endian n width i count) ≡ n % 2 ^ (8 * count)
unfolding store_from
big_value-store n width i zero h = omega arith
big_value-store n width i (suc count) h =
    let p : ℕ = 2 ^ (8 * count) in
    let shift : 2 ^ (8 * (width - i - 1)) ≡ p = ap (λ k. 2 ^ (8 * k)) (omega arith) in
    ap₂ (λ x y. x + y)
      (ap₂ (λ x y. bit_and (n / x) 255 * 2 ^ (8 * y)) shift
          (length-store_from big_endian n width (i + 1) count)
        ∙ ap (λ x. x * p) (bit_and_255 (n / p)))
      (big_value-store n width (i + 1) count (omega arith))
    ∙ omega (arith, mod-mul n p 256)
    ∙ ap (λ q. n % q) {x = p * 256} (omega arith ∙ sym (pow_8 count))

-- The bytes that `Store` writes stand for the number, in either order.
pub value_of-store :
    (order : ByteOrder) (n width : ℕ)
    → n < 2 ^ (8 * width)
    → value_of order (store order n width) ≡ n
value_of-store big_endian n width h = big_value-store n width 0 width (omega arith) ∙ mod-eq_of_lt h
value_of-store little_endian n width h =
    little_value-store n width 0 width
    ∙ ap (λ v. v % 2 ^ (8 * width)) {x = n / 2 ^ 0} {y = n} (omega arith)
    ∙ mod-eq_of_lt h

get_or-drop :
    (i : ℕ) (bytes : List ℕ)
    → i < length bytes
    → drop i bytes ≡ get_or bytes i 0 ∷ drop (i + 1) bytes
get_or-drop i [] h = absurd (omega arith)
get_or-drop zero (b ∷ bytes) h = ap (λ k. b ∷ drop k (b ∷ bytes)) {x = 1} {y = 0 + 1} (omega arith)
get_or-drop (suc i) (b ∷ bytes) h =
    get_or-drop i bytes (omega arith)
    ∙ ap (λ k. get_or bytes i 0 ∷ drop k (b ∷ bytes)) {x = suc (i + 1)} {y = suc i + 1}
        (omega arith)

get_or-byte : (i : ℕ) (bytes : List ℕ) → All IsByte bytes → get_or bytes i 0 < 256
get_or-byte i [] h = omega arith
get_or-byte zero (b ∷ bytes) h = h.0
get_or-byte (suc i) (b ∷ bytes) h = get_or-byte i bytes h.1

-- A byte moved by whole bytes stays in 64 bits.
shifted :
    (b k : ℕ)
    → b < 256
    → suc k ≤ 8
    → (b * 2 ^ (8 * k) < 2 ^ (8 * suc k)) × (b * 2 ^ (8 * k) % 2 ^ 64 ≡ b * 2 ^ (8 * k))
shifted b k h l =
    let small : b * 2 ^ (8 * k) < 2 ^ (8 * suc k) = omega (
      arith,
      pow_8 k,
      mul-le-mul_right {m = b} {n = 255} (2 ^ (8 * k)) (omega arith),
      pow_pos (8 * k),
    ) in
    (
      small,
      mod-eq_of_lt (
          omega (
            arith,
            small,
            pow-le-pow_right {n = 2} (omega arith) {i = 8 * suc k} {j = 64} (omega arith),
          )),
    )

module _ (bytes : List ℕ) (is_bytes : All IsByte bytes) (width : ℕ) (word : width ≤ 8)
    (inside : width ≤ length bytes) where
  little_load :
      (acc i count : ℕ)
      → i + count ≡ width
      → acc < 2 ^ (8 * i)
      → load_from little_endian bytes acc width i count
        ≡ acc + little_value (take count (drop i bytes)) * 2 ^ (8 * i)
  unfolding load_from
  little_load acc i zero h k = omega arith
  little_load acc i (suc count) h k =
      let b : ℕ = get_or bytes i 0 in
      let p : ℕ = 2 ^ (8 * i) in
      let (small, same) = shifted b i (get_or-byte i bytes is_bytes) (omega arith) in
      let joined : bit_or acc (b * p % 2 ^ 64) ≡ acc + b * p =
        ap (bit_or acc) same ∙ bit_or-low_high (8 * i) acc b k in
      let up : 2 ^ (8 * (i + 1)) ≡ 256 * p =
        ap (λ n. 2 ^ (8 * n)) {y = suc i} (omega arith) ∙ pow_8 i in
      let rest : ℕ = little_value (take count (drop (i + 1) bytes)) in
      ap (λ a. load_from little_endian bytes a width (i + 1) count) joined
      ∙ little_load (acc + b * p) (i + 1) count (omega arith) (
          omega (
            arith,
            small,
            up,
            pow_8 i,
            k,
            mul-le-mul_right {m = b} {n = 255} p (omega (arith, get_or-byte i bytes is_bytes)),
          ))
      ∙ omega (arith, ap (λ q. rest * q) up)
      ∙ ap (λ d. acc + little_value (take (suc count) d) * p)
          (sym (get_or-drop i bytes (omega arith)))

  big_load :
      (acc i count : ℕ)
      → i + count ≡ width
      → load_from big_endian bytes (acc * 2 ^ (8 * count)) width i count
        ≡ acc * 2 ^ (8 * count) + big_value (take count (drop i bytes))
  unfolding load_from
  big_load acc i zero h = omega arith
  big_load acc i (suc count) h =
      let b : ℕ = get_or bytes i 0 in
      let p : ℕ = 2 ^ (8 * count) in
      let shift : 2 ^ (8 * (width - i - 1)) ≡ p = ap (λ k. 2 ^ (8 * k)) {y = count} (omega arith) in
      let (small, same) = shifted b count (get_or-byte i bytes is_bytes) (omega arith) in
      let joined : bit_or (acc * 2 ^ (8 * suc count)) (b * 2 ^ (8 * (width - i - 1)) % 2 ^ 64)
          ≡ (acc * 256 + b) * p =
        ap (bit_or (acc * 2 ^ (8 * suc count))) (ap (λ q. b * q % 2 ^ 64) shift ∙ same)
        ∙ bit_or-high_low (8 * suc count) acc (b * p) small
        ∙ omega (arith, ap (λ q. acc * q) (pow_8 count)) in
      let rest : List ℕ = take count (drop (i + 1) bytes) in
      let size : length rest ≡ count =
        omega (arith, length-take count (drop (i + 1) bytes), length-drop (i + 1) bytes) in
      ap (λ a. load_from big_endian bytes a width (i + 1) count) joined
      ∙ big_load (acc * 256 + b) (i + 1) count (omega arith)
      ∙ omega (arith, ap (λ q. acc * q) (pow_8 count), ap (λ k. b * 2 ^ (8 * k)) size)
      ∙ ap (λ d. acc * 2 ^ (8 * suc count) + big_value (take (suc count) d))
          {x = b ∷ drop (i + 1) bytes} (sym (get_or-drop i bytes (omega arith)))

  -- The loop of `ReadUnsigned` reads the number that its bytes stand for.
  pub load_from-value_of :
      (order : ByteOrder)
      → load_from order bytes 0 width 0 width ≡ value_of order (take width bytes)
  load_from-value_of big_endian =
      ap (λ a. load_from big_endian bytes a width 0 width) {y = 0 * 2 ^ (8 * width)} (omega arith)
      ∙ big_load 0 0 width (omega arith)
      ∙ omega arith
  load_from-value_of little_endian =
      little_load 0 0 width (omega arith) (omega (arith, pow_pos 0)) ∙ omega arith
