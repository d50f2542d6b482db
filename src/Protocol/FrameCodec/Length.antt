-- ===== src/Protocol/FrameCodec/Length.antt =====
-- The length field: four bytes joined and split, and read back from the head of a frame.
use server_core.Base.{
  ℕ, ◌+◌, ◌*◌, ◌/◌, ◌^◌, ◌≤◌, ◌<◌, ◌≡◌, refl, ap, ◌∙◌, List, [], ◌∷◌, ◌++◌, arith, bit_or, bit_and,
  length, get_or, take, zero, suc,
}
use server_core.Base.Bits.{bit_or-low_high, bit_and_mask}
use server_core.Protocol.FrameCodec.{join, read_length, header, byte_at}

pub join-eq-sum :
    (b0 b1 b2 b3 : ℕ)
    → b0 < 256
    → b1 < 256
    → b2 < 256
    → b3 < 256
    → join b0 b1 b2 b3 ≡ b0 + b1 * 2 ^ 8 + b2 * 2 ^ 16 + b3 * 2 ^ 24
unfolding join
join-eq-sum b0 b1 b2 b3 h0 h1 h2 h3 =
    ap (λ t. bit_or (bit_or t (byte_at b2 16)) (byte_at b3 24)) (first ∙ bit_or-low_high 8 b0 b1 h0)
    ∙ ap (λ t. bit_or t (byte_at b3 24))
        (second ∙ bit_or-low_high 16 (b0 + b1 * 2 ^ 8) b2 (omega arith))
    ∙ third
    ∙ bit_or-low_high 24 (b0 + b1 * 2 ^ 8 + b2 * 2 ^ 16) b3 (omega arith)
  where
    first : bit_or b0 (byte_at b1 8) ≡ bit_or b0 (b1 * 2 ^ 8)
    first = ap (bit_or b0) (omega arith)

    second : bit_or (b0 + b1 * 2 ^ 8) (byte_at b2 16) ≡ bit_or (b0 + b1 * 2 ^ 8) (b2 * 2 ^ 16)
    second = ap (bit_or (b0 + b1 * 2 ^ 8)) (omega arith)

    third :
        bit_or (b0 + b1 * 2 ^ 8 + b2 * 2 ^ 16) (byte_at b3 24)
        ≡ bit_or (b0 + b1 * 2 ^ 8 + b2 * 2 ^ 16) (b3 * 2 ^ 24)
    third = ap (bit_or (b0 + b1 * 2 ^ 8 + b2 * 2 ^ 16)) (omega arith)

pub length-header : (n : ℕ) → length (header n) ≡ 4
unfolding header
length-header n = refl

-- A length below 2 ^ 32 is read back from its header, whatever follows.
pub read_length-header : (n : ℕ) (rest : List ℕ) → n < 2 ^ 32 → read_length (header n ++ rest) ≡ n
unfolding read_length header
read_length-header n rest h =
    join-eq-sum (bit_and n 0xFF) (bit_and (n / 2 ^ 8) 0xFF) (bit_and (n / 2 ^ 16) 0xFF)
      (bit_and (n / 2 ^ 24) 0xFF) (low n) (low (n / 2 ^ 8)) (low (n / 2 ^ 16)) (low (n / 2 ^ 24))
    ∙ omega (
      arith,
      bit_and_mask 8 n,
      bit_and_mask 8 (n / 2 ^ 8),
      bit_and_mask 8 (n / 2 ^ 16),
      bit_and_mask 8 (n / 2 ^ 24),
    )
  where
    low : (k : ℕ) → bit_and k 0xFF < 256
    low k = omega (arith, bit_and_mask 8 k)

get_or-take : (m i : ℕ) (xs : List ℕ) → i < m → get_or (take m xs) i 0 ≡ get_or xs i 0
get_or-take zero i xs h = absurd (omega arith)
get_or-take (suc m) i [] h = refl
get_or-take (suc m) zero (x ∷ xs) h = refl
get_or-take (suc m) (suc i) (x ∷ xs) h = get_or-take m i xs (omega arith)

-- The field depends on the four bytes at the head only.
pub read_length-take :
    (m : ℕ) (bytes : List ℕ) → 4 ≤ m → read_length (take m bytes) ≡ read_length bytes
unfolding read_length
read_length-take m bytes h = cc (
  get_or-take m 0 bytes (omega arith),
  get_or-take m 1 bytes (omega arith),
  get_or-take m 2 bytes (omega arith),
  get_or-take m 3 bytes (omega arith),
)

get_or-append : (i : ℕ) (xs ys : List ℕ) → i < length xs → get_or (xs ++ ys) i 0 ≡ get_or xs i 0
get_or-append i [] ys h = absurd (omega arith)
get_or-append zero (x ∷ xs) ys h = refl
get_or-append (suc i) (x ∷ xs) ys h = get_or-append i xs ys (omega arith)

pub read_length-append : (xs ys : List ℕ) → 4 ≤ length xs → read_length (xs ++ ys) ≡ read_length xs
unfolding read_length
read_length-append xs ys h = cc (
  get_or-append 0 xs ys (omega arith),
  get_or-append 1 xs ys (omega arith),
  get_or-append 2 xs ys (omega arith),
  get_or-append 3 xs ys (omega arith),
)
