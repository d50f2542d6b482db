-- ===== src/Protocol/BinaryIo/Positions.antt =====
-- Where a reader stands and what a writer holds after a call, failed calls included.
use server_core.Base.{
  ℕ, ◌+◌, ◌-◌, refl, sym, ap, ◌∙◌, subst, subst₂, inl, inr, ltb, ltb→le, Bool-cases, take, drop,
  length-take, length-drop, ◌≤◌, ◌≡◌, ◌⊎◌, if◌then◌else◌, Bool, true, false, List, ◌++◌, arith,
  length, length-append,
}
use server_core.Core.Error.{ErrorCode, Status, is_ok, Result, value, failed, value-injective}
use server_core.Protocol.BinaryIo.{
  BinaryReader, BinaryWriter, read_unsigned, read_bool, read_bytes, read_length_prefixed, read_utf8,
  outside, remaining, attempt, append, write_unsigned, write_bool, write_bytes,
  write_length_prefixed, write_utf8, store,
}
use server_core.Core.Utf8.{is_valid_utf8}
use server_core.Protocol.BinaryIo.Digits.{length-store_from}
use server_core.Protocol.BinaryIo.Items.{
  Kind, unsigned_kind, bool_kind, bytes_kind, prefixed_kind, utf8_kind, Item, unsigned, boolean,
  raw, prefixed, utf8, kind, encoding, on_value, read_item, write_item,
}

-- A read that fails leaves the reader as it was; one that succeeds moves it by the size of what it gave,
-- within the input, and does nothing else.
abbrev pub MovedBy : {A : Type 0} → (A → ℕ) → BinaryReader → Result A × BinaryReader → Type 0
MovedBy size r (value a, out) =
    (out ≡ record r { position = r.position + size a }) × (r.position + size a ≤ length r.input)
MovedBy size r (failed code, out) = out ≡ r

-- The same of an item of the kind `k`: it moves the reader by the bytes of its encoding.
abbrev pub Moved : BinaryReader → Kind → Result Item × BinaryReader → Type 0
Moved r k (value item, out) =
    (kind item ≡ k)
    × (out ≡ record r { position = r.position + length (encoding r.order item) })
    × (r.position + length (encoding r.order item) ≤ length r.input)
Moved r k (failed code, out) = out ≡ r

length-slice :
    (n position : ℕ) (input : List ℕ)
    → n ≤ length input - position
    → length (take n (drop position input)) ≡ n
length-slice n position input h =
    omega (arith, h, length-take n (drop position input), length-drop position input)

-- A value that is built from what a call gave.
on_value-Moved :
    {A : Type 0} (size : A → ℕ) (f : A → Item) (k : Kind) (r : BinaryReader)
    (out : Result A × BinaryReader)
    → ((a : A) → length (encoding r.order (f a)) ≡ size a)
    → ((a : A) (r1 : BinaryReader) → out ≡ (value a, r1) → kind (f a) ≡ k)
    → MovedBy size r out
    → Moved r k (on_value f out)
on_value-Moved size f k r (value a, r1) e kinds m = (
  kinds a r1 refl,
  m.0 ∙ ap (λ n. record r { position = r.position + n }) (sym (e a)),
  subst (λ n. r.position + n ≤ length r.input) (sym (e a)) m.1,
)
on_value-Moved size f k r (failed code, r1) e kinds m = m

-- The length in front of the bytes.
abbrev behind_length : List ℕ → ℕ
behind_length bytes = 4 + length bytes

read_bytes-MovedBy :
    (r : BinaryReader) (size : ℕ)
    → r.position ≤ length r.input
    → MovedBy length r (read_bytes r size)
unfolding read_bytes
read_bytes-MovedBy r size h = elim (Bool-cases (ltb (remaining r) size)) [
  | inl l ↦ rw l refl
  | inr l ↦
      let n = length-slice size r.position r.input (ltb→le (remaining r) size l) in
      rw l (rw n (refl, omega (arith, ltb→le (remaining r) size l)))
]

read_bytes-size :
    (r : BinaryReader) (size : ℕ) (bytes : List ℕ) (r1 : BinaryReader)
    → read_bytes r size ≡ (value bytes, r1)
    → length bytes ≡ size
unfolding read_bytes
read_bytes-size r size bytes r1 e = elim (Bool-cases (ltb (remaining r) size)) [
  | inl l ↦ let bad = ap (λ o. o.0) (rw l at e) in cc
  | inr l ↦
      let same = ap (λ o. o.0) (rw l at e) in
      ap length (sym (value-injective (take size (drop r.position r.input)) bytes same))
      ∙ length-slice size r.position r.input (ltb→le (remaining r) size l)
]

-- Bytes that are read four behind `r`.
behind_four :
    (r saved : BinaryReader) (out : Result (List ℕ) × BinaryReader)
    → saved ≡ record r { position = r.position + 4 }
    → MovedBy length saved out
    → MovedBy behind_length r (attempt r out (λ bytes saved1. (value bytes, saved1)))
behind_four r saved (failed code, saved1) e m = refl
behind_four r saved (value bytes, saved1) e (same, fits) =
    let at : saved.position ≡ r.position + 4 = ap (λ s. s.position) e in
    let sum : saved.position + length bytes ≡ r.position + behind_length bytes =
      omega (arith, at) in
    (
      same
          ∙ ap (λ (s : BinaryReader). record s { position = saved.position + length bytes }) e
          ∙ ap (λ n. record r { position = n }) sum,
      subst₂ (λ n s. n ≤ length s) sum (ap (λ s. s.input) e) fits,
    )

module _ (r : BinaryReader) (h : r.position ≤ length r.input) where
  read_unsigned-MovedBy : (width : ℕ) → MovedBy (λ n. width) r (read_unsigned r width)
  unfolding read_unsigned
  read_unsigned-MovedBy width = ground arith

  read_bool-MovedBy : MovedBy (λ b. 1) r (read_bool r)
  unfolding read_bool
  read_bool-MovedBy = ground arith

  read_length_prefixed-MovedBy :
      (maximum : ℕ) → MovedBy behind_length r (read_length_prefixed r maximum)
  unfolding read_length_prefixed
  read_length_prefixed-MovedBy maximum = go (read_unsigned r 4) (read_unsigned-MovedBy 4)
    where
      go :
          (out : Result ℕ × BinaryReader)
          → MovedBy (λ n. 4) r out
          → MovedBy behind_length r (
              attempt r out (λ size saved.
                if ltb maximum size
                then (failed ErrorCode.too_large, r)
                else attempt r (read_bytes saved size) λ bytes saved1. (value bytes, saved1)))
      go (failed code, saved) m = refl
      go (value size, saved) (same, fits) = elim (Bool-cases (ltb maximum size)) [
        | inl l ↦ rw l refl
        | inr l ↦ rw l (
            behind_four r saved (read_bytes saved size) same (
              read_bytes-MovedBy saved size
                (subst (λ (s : BinaryReader). s.position ≤ length s.input) (sym same) fits)))
      ]

  read_utf8-MovedBy : (maximum : ℕ) → MovedBy behind_length r (read_utf8 r maximum)
  unfolding read_utf8
  read_utf8-MovedBy maximum =
      go (read_length_prefixed r maximum) (read_length_prefixed-MovedBy maximum)
    where
      go :
          (out : Result (List ℕ) × BinaryReader)
          → MovedBy behind_length r out
          → MovedBy behind_length r (
              attempt r out (λ view saved.
                if is_valid_utf8 view
                then (value view, saved)
                else (failed ErrorCode.invalid_format, r)))
      go (failed code, saved) m = refl
      go (value view, saved) m = elim (Bool-cases (is_valid_utf8 view)) [
        | inl v ↦ rw v m
        | inr v ↦ rw v refl
      ]

  length-prefixed :
      (bytes : List ℕ) → length (store r.order (length bytes) 4 ++ bytes) ≡ behind_length bytes
  length-prefixed bytes =
      length-append (store r.order (length bytes) 4) bytes
      ∙ ap (λ n. n + length bytes) (length-store_from r.order (length bytes) 4 0 4)

  -- Whatever is asked for, a read that fails leaves the reader as it was, and one that succeeds gives
  -- an item of the kind that was asked for and moves the reader by exactly the bytes of its encoding,
  -- never beyond the end of its input.
  pub read_item-Moved : (k : Kind) → Moved r k (read_item r k)
  unfolding read_item
  read_item-Moved (unsigned_kind width) =
      on_value-Moved (λ n. width) (unsigned width) (unsigned_kind width) r (read_unsigned r width)
        (λ n. length-store_from r.order n width 0 width) (λ n r1 e. refl)
        (read_unsigned-MovedBy width)
  read_item-Moved bool_kind =
      on_value-Moved (λ b. 1) boolean bool_kind r (read_bool r)
        (λ b. length-store_from r.order (if b then 1 else 0) 1 0 1) (λ b r1 e. refl)
        read_bool-MovedBy
  read_item-Moved (bytes_kind size) =
      on_value-Moved length raw (bytes_kind size) r (read_bytes r size) (λ bytes. refl)
        (λ bytes r1 e. ap bytes_kind (read_bytes-size r size bytes r1 e))
        (read_bytes-MovedBy r size h)
  read_item-Moved (prefixed_kind maximum) =
      on_value-Moved behind_length (prefixed maximum) (prefixed_kind maximum) r
        (read_length_prefixed r maximum) length-prefixed (λ bytes r1 e. refl)
        (read_length_prefixed-MovedBy maximum)
  read_item-Moved (utf8_kind maximum) =
      on_value-Moved behind_length (utf8 maximum) (utf8_kind maximum) r (read_utf8 r maximum)
        length-prefixed (λ bytes r1 e. refl) (read_utf8-MovedBy maximum)

-- What a write may leave: all of the item behind what was there, within the limit, or no change.
abbrev pub Grown : BinaryWriter → List ℕ → Status × BinaryWriter → Type 0
Grown w bytes out =
    ((out.0 ≡ ErrorCode.ok)
      × (out.1 ≡ record w { bytes = w.bytes ++ bytes })
      × (length out.1.bytes ≤ w.limit))
    ⊎ ((is_ok out.0 ≡ false) × (out.1 ≡ w))

module _ (allocate : ℕ → Bool) (w : BinaryWriter) (h : length w.bytes ≤ w.limit) where
  append-Grown : (bytes : List ℕ) → Grown w bytes (append allocate w (outside bytes) false)
  unfolding append
  append-Grown bytes = ground (arith, length-append w.bytes bytes)

  append-Grown_prefixed :
      (bytes : List ℕ)
      → Grown w (store w.order (length bytes) 4 ++ bytes) (append allocate w (outside bytes) true)
  unfolding append
  append-Grown_prefixed bytes =
      let four : length (store w.order (length bytes) 4) ≡ 4 =
        length-store_from w.order (length bytes) 4 0 4 in
      ground (
        arith,
        four,
        length-append w.bytes (store w.order (length bytes) 4 ++ bytes),
        length-append (store w.order (length bytes) 4) bytes,
      )

  -- A write puts the whole encoding of its item behind what was written, within the limit, or it
  -- fails and changes nothing.
  pub write_item-Grown :
      (item : Item) → Grown w (encoding w.order item) (write_item allocate w item)
  unfolding write_item write_unsigned write_bool write_bytes write_length_prefixed write_utf8
  write_item-Grown (unsigned width n) = ground (arith, append-Grown (store w.order n width))
  write_item-Grown (boolean b) = ground (arith, append-Grown (store w.order (if b then 1 else 0) 1))
  write_item-Grown (raw bytes) = append-Grown bytes
  write_item-Grown (prefixed maximum bytes) = ground (arith, append-Grown_prefixed bytes)
  write_item-Grown (utf8 maximum bytes) = ground (arith, append-Grown_prefixed bytes)
