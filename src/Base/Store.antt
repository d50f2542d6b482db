-- ===== src/Base/Store.antt =====
-- Fixed stores of bytes: `memmove` and `memcpy`, and what a range of the store holds afterwards.
use Prim.Native.Nat.{ℕ, ◌+◌, ◌-◌, ◌≤◌}
use mathlib.Core.Path.{◌≡◌, ap, sym, ◌∙◌}
use mathlib.Core.List.{List, [], ◌++◌, append_assoc}
use native.Mathlib.Omega.{arith}
use server_core.Base.Lists.{
  length, take, drop, length-append, length-take, length-drop, drop-append_le, take-append_self,
  drop-take, drop-drop, take-take,
}

module _ {ℓ} {A : Type ℓ} where
  -- The bytes `src` written from index `i` on.
  unfoldable pub overwrite : List A → ℕ → List A → List A
  overwrite dst i src = take i dst ++ (src ++ drop (i + length src) dst)

  -- The bytes from index `r` up to index `w`.
  abbrev pub range : ℕ → ℕ → List A → List A
  range r w xs = take (w - r) (drop r xs)

  pub length-overwrite :
      (dst : List A) (i : ℕ) (src : List A)
      → i + length src ≤ length dst
      → length (overwrite dst i src) ≡ length dst
  unfolding overwrite
  length-overwrite dst i src h = omega (
    arith,
    length-append (take i dst) (src ++ drop (i + length src) dst),
    length-append src (drop (i + length src) dst),
    length-take i dst,
    length-drop (i + length src) dst,
  )

  pub length-range : (r w : ℕ) (xs : List A) → w ≤ length xs → length (range r w xs) ≡ w - r
  length-range r w xs h = omega (arith, length-take (w - r) (drop r xs), length-drop r xs)

  -- A range that starts at or before the write and ends with it has grown by what was written.
  pub range-overwrite :
      (dst : List A) (r w : ℕ) (src : List A)
      → r ≤ w
      → w + length src ≤ length dst
      → range r (w + length src) (overwrite dst w src) ≡ range r w dst ++ src
  unfolding overwrite
  range-overwrite dst r w src h k =
      ap (take (w + length src - r))
        (drop-append_le r (take w dst) _ inside ∙ sym (append_assoc _ src _))
      ∙ take-append_self (w + length src - r) (drop r (take w dst) ++ src) _ fits
      ∙ ap (λ t. t ++ src) front
    where
      inside : r ≤ length (take w dst)
      inside = omega (arith, length-take w dst)

      fits : length (drop r (take w dst) ++ src) ≡ w + length src - r
      fits = omega (
        arith,
        length-append (drop r (take w dst)) src,
        length-drop r (take w dst),
        length-take w dst,
      )

      front : drop r (take w dst) ≡ range r w dst
      front =
          ap (λ n. drop r (take n dst)) {y = r + (w - r)} (omega arith) ∙ drop-take r (w - r) dst

  pub range-overwrite_front :
      (dst src : List A) (n : ℕ)
      → length src ≡ n
      → n ≤ length dst
      → range 0 n (overwrite dst 0 src) ≡ src
  range-overwrite_front dst src n e h =
      ap (λ k. range 0 k (overwrite dst 0 src)) {y = 0 + length src} (omega arith)
      ∙ range-overwrite dst 0 0 src (omega arith) (omega arith)

  pub range_empty : (r w : ℕ) (xs : List A) → w ≤ r → range r w xs ≡ []
  range_empty r w xs h = ap (λ k. take k (drop r xs)) {y = 0} (omega arith)

  pub drop-range :
      (n r w : ℕ) (xs : List A) → n ≤ w - r → drop n (range r w xs) ≡ range (r + n) w xs
  drop-range n r w xs h =
      ap (λ k. drop n (take k (drop r xs))) {y = n + (w - (r + n))} (omega arith)
      ∙ drop-take n _ (drop r xs)
      ∙ ap (take (w - (r + n))) (drop-drop n r xs)

  -- A part of a range is a part of what the range was taken from.
  pub take-drop-range :
      (m n r w : ℕ) (xs : List A)
      → n + m ≤ w - r
      → take m (drop n (range r w xs)) ≡ take m (drop n (drop r xs))
  take-drop-range m n r w xs h =
      ap (λ k. take m (drop n (take k (drop r xs)))) {y = n + (w - r - n)} (omega arith)
      ∙ ap (take m) (drop-take n (w - r - n) (drop r xs))
      ∙ take-take m (w - r - n) (drop n (drop r xs)) (omega arith)
