-- ===== src/Protocol/BinaryIo/Values.antt =====
-- One value that `BinaryWriter` wrote, read back by `BinaryReader`.
use server_core.Base.{
  ℕ, ◌+◌, ◌*◌, ◌^◌, ◌≤◌, ◌<◌, ◌≡◌, refl, sym, ap, ◌∙◌, Bool, true, false, List, [], ◌∷◌, ◌++◌,
  append_assoc, arith, length, length-append, take, drop, length-drop, drop-drop, drop-append_self,
  take-append_self, All, if◌then◌else◌, ltb, get_or,
}
use server_core.Core.Error.{ErrorCode, value, failed}
use server_core.Core.Utf8.{is_valid_utf8}
use server_core.Protocol.BinaryIo.{
  BinaryReader, ByteOrder, big_endian, little_endian, store_from, is_width, attempt, read_unsigned,
  read_bool, read_bytes, read_length_prefixed, read_utf8, remaining, store, load_from,
}
use server_core.Protocol.BinaryIo.Digits.{
  IsByte, length-store_from, store_from-bytes, value_of-store, load_from-value_of, value_of,
}
use server_core.Protocol.BinaryIo.Items.{
  Item, unsigned, boolean, raw, prefixed, utf8, kind, IsTyped, encoding, on_value, read_item,
}

pub All-append : (xs ys : List ℕ) → All IsByte xs → All IsByte ys → All IsByte (xs ++ ys)
All-append [] ys h k = k
All-append (x ∷ xs) ys h k = (h.0, All-append xs ys h.1 k)

-- The bytes that a reader has before it.
abbrev pub ahead : BinaryReader → List ℕ
ahead r = drop r.position r.input

abbrev pub advance : BinaryReader → ℕ → BinaryReader
advance r n = record r { position = r.position + n }

module _ (r : BinaryReader) (rest : List ℕ) (is_bytes : All IsByte rest) where
  pub remaining_lem : (front : List ℕ) → ahead r ≡ front ++ rest → length front ≤ remaining r
  remaining_lem front e =
      omega (arith, length-drop r.position r.input, ap length e, length-append front rest)

  pub read_unsigned-store :
      (width n : ℕ)
      → is_width width ≡ true
      → n < 2 ^ (8 * width)
      → ahead r ≡ store r.order n width ++ rest
      → read_unsigned r width ≡ (value n, advance r width)
  unfolding read_unsigned
  read_unsigned-store width n w h e =
      let digits : List ℕ = store r.order n width in
      let size : length digits ≡ width = length-store_from r.order n width 0 width in
      let short : width ≤ 8 = ground (arith, w) in
      let enough : width ≤ remaining r = omega (arith, remaining_lem digits e, size) in
      let number : load_from r.order (ahead r) 0 width 0 width ≡ n =
        ap (λ bytes. load_from r.order bytes 0 width 0 width) e
        ∙ load_from-value_of (digits ++ rest)
            (All-append digits rest (store_from-bytes r.order n width 0 width) is_bytes) width short
            (omega (arith, length-append digits rest, size)) r.order
        ∙ ap (value_of r.order) (take-append_self width digits rest size)
        ∙ value_of-store r.order n width h in
      ground (arith, enough, number)

  pub read_bytes_lem :
      (bytes : List ℕ)
      → ahead r ≡ bytes ++ rest
      → read_bytes r (length bytes) ≡ (value bytes, advance r (length bytes))
  unfolding read_bytes
  read_bytes_lem bytes e =
      let enough : length bytes ≤ remaining r = remaining_lem bytes e in
      let taken : take (length bytes) (ahead r) ≡ bytes =
        ap (take (length bytes)) e ∙ take-append_self (length bytes) bytes rest refl in
      ground (arith, enough, taken)

pub ahead-advance :
    (r : BinaryReader) (front rest : List ℕ)
    → ahead r ≡ front ++ rest
    → ahead (advance r (length front)) ≡ rest
ahead-advance r front rest e =
    sym (drop-drop (length front) r.position r.input)
    ∙ ap (drop (length front)) e
    ∙ drop-append_self (length front) front rest refl

-- What the writer checks before it writes.
abbrev pub IsWritable : Item → Type 0
IsWritable (unsigned width n) = (is_width width ≡ true) × (n < 2 ^ (8 * width))
IsWritable (boolean b) = Unit
IsWritable (raw bytes) = Unit
IsWritable (prefixed maximum bytes) = (length bytes ≤ maximum) × (length bytes < 2 ^ 32)
IsWritable (utf8 maximum bytes) =
    (length bytes ≤ maximum) × (length bytes < 2 ^ 32) × (is_valid_utf8 bytes ≡ true)

pub encoding-bytes :
    (order : ByteOrder) (item : Item) → IsTyped item → All IsByte (encoding order item)
encoding-bytes order (unsigned width n) t = store_from-bytes order n width 0 width
encoding-bytes order (boolean b) t = store_from-bytes order (if b then 1 else 0) 1 0 1
encoding-bytes order (raw bytes) t = t
encoding-bytes order (prefixed maximum bytes) t =
    All-append (store order (length bytes) 4) bytes (store_from-bytes order (length bytes) 4 0 4) t
encoding-bytes order (utf8 maximum bytes) t =
    All-append (store order (length bytes) 4) bytes (store_from-bytes order (length bytes) 4 0 4) t

pub store_bool :
    (order : ByteOrder) (b : Bool) → store order (if b then 1 else 0) 1 ≡ (if b then 1 else 0) ∷ []
unfolding store_from
store_bool big_endian true = refl
store_bool big_endian false = refl
store_bool little_endian true = refl
store_bool little_endian false = refl

module _ (r : BinaryReader) (rest : List ℕ) (is_bytes : All IsByte rest) where
  pub read_bool_lem :
      (b : Bool)
      → ahead r ≡ store r.order (if b then 1 else 0) 1 ++ rest
      → read_bool r ≡ (value b, advance r 1)
  unfolding read_bool
  read_bool_lem b e =
      let byte : get_or (ahead r) 0 0 ≡ (if b then 1 else 0) =
        ap (λ bytes. get_or bytes 0 0) e
        ∙ ap (λ bytes. get_or (bytes ++ rest) 0 0) (store_bool r.order b) in
      let enough : 1 ≤ remaining r = omega (
        arith,
        remaining_lem r rest is_bytes (store r.order (if b then 1 else 0) 1) e,
        length-store_from r.order (if b then 1 else 0) 1 0 1,
      ) in
      bool_value b byte enough
    where
      bool_value :
          (b : Bool)
          → get_or (ahead r) 0 0 ≡ (if b then 1 else 0)
          → 1 ≤ remaining r
          → read_bool r ≡ (value b, advance r 1)
      bool_value true byte enough = ground arith
      bool_value false byte enough = ground arith

  pub read_length_prefixed_lem :
      (maximum : ℕ) (bytes : List ℕ)
      → length bytes ≤ maximum
      → length bytes < 2 ^ 32
      → All IsByte bytes
      → ahead r ≡ (store r.order (length bytes) 4 ++ bytes) ++ rest
      → read_length_prefixed r maximum
        ≡ (value bytes, advance r (length (store r.order (length bytes) 4 ++ bytes)))
  unfolding read_length_prefixed
  read_length_prefixed_lem maximum bytes h k t e =
      let n : ℕ = length bytes in
      let digits : List ℕ = store r.order n 4 in
      let four : length digits ≡ 4 = length-store_from r.order n 4 0 4 in
      let e1 : ahead r ≡ digits ++ (bytes ++ rest) = e ∙ append_assoc digits bytes rest in
      let r1 : BinaryReader = advance r 4 in
      let size : read_unsigned r 4 ≡ (value n, r1) =
        read_unsigned-store r (bytes ++ rest) (All-append bytes rest t is_bytes) 4 n refl
          (omega arith) e1 in
      let e2 : ahead r1 ≡ bytes ++ rest =
        ap (λ k. ahead (advance r k)) (sym four) ∙ ahead-advance r digits (bytes ++ rest) e1 in
      let body : read_bytes r1 n ≡ (value bytes, advance r1 n) =
        read_bytes_lem r1 rest is_bytes bytes e2 in
      let end : advance r1 n ≡ advance r (length (digits ++ bytes)) =
        ap (λ p. record r { position = p }) (omega (arith, four, length-append digits bytes)) in
      ap
        (λ o. attempt r o λ n1 saved.
          if ltb maximum n1
          then (failed ErrorCode.too_large, r)
          else attempt r (read_bytes saved n1) λ b saved1. (value b, saved1))
        size
      ∙ ap
          (λ o.
            if ltb maximum n
            then (failed ErrorCode.too_large, r)
            else attempt r o λ b saved1. (value b, saved1))
          body
      ∙ ground (arith, end)

  pub read_utf8_lem :
      (maximum : ℕ) (bytes : List ℕ)
      → is_valid_utf8 bytes ≡ true
      → length bytes ≤ maximum
      → length bytes < 2 ^ 32
      → All IsByte bytes
      → ahead r ≡ (store r.order (length bytes) 4 ++ bytes) ++ rest
      → read_utf8 r maximum
        ≡ (value bytes, advance r (length (store r.order (length bytes) 4 ++ bytes)))
  unfolding read_utf8
  read_utf8_lem maximum bytes v h k t e =
      ap
        (λ o. attempt r o λ view saved.
          if is_valid_utf8 view then (value view, saved) else (failed ErrorCode.invalid_format, r))
        (read_length_prefixed_lem maximum bytes h k t e)
      ∙ rw v refl

  pub read_item_lem :
      (item : Item)
      → IsWritable item
      → IsTyped item
      → ahead r ≡ encoding r.order item ++ rest
      → read_item r (kind item) ≡ (value item, advance r (length (encoding r.order item)))
  unfolding read_item
  read_item_lem (unsigned width n) w t e =
      ap (on_value (unsigned width)) (read_unsigned-store r rest is_bytes width n w.0 w.1 e)
      ∙ ap (λ k. (value (unsigned width n), advance r k))
          (sym (length-store_from r.order n width 0 width))
  read_item_lem (boolean b) w t e =
      ap (on_value boolean) (read_bool_lem b e)
      ∙ ap (λ k. (value (boolean b), advance r k))
          (sym (length-store_from r.order (if b then 1 else 0) 1 0 1))
  read_item_lem (raw bytes) w t e = ap (on_value raw) (read_bytes_lem r rest is_bytes bytes e)
  read_item_lem (prefixed maximum bytes) w t e =
      ap (on_value (prefixed maximum)) (read_length_prefixed_lem maximum bytes w.0 w.1 t e)
  read_item_lem (utf8 maximum bytes) w t e =
      ap (on_value (utf8 maximum)) (read_utf8_lem maximum bytes w.2 w.0 w.1 t e)
