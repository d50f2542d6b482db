-- ===== src/Protocol/BinaryIo/Items.antt =====
-- Sequences of typed values that are written and read by the calls of src/Protocol/BinaryIO.cpp.
use server_core.Base.{ℕ, ◌^◌, ◌<◌, Bool, List, [], ◌∷◌, ◌++◌, length, if◌then◌else◌, All}
use server_core.Core.Error.{ErrorCode, Status, is_ok, Result, value, failed}
use server_core.Protocol.BinaryIo.{
  BinaryReader, BinaryWriter, ByteOrder, read_unsigned, read_bool, read_bytes, read_length_prefixed,
  read_utf8, outside, write_unsigned, write_bool, write_bytes, write_length_prefixed, write_utf8,
  store,
}
use server_core.Protocol.BinaryIo.Digits.{IsByte}

-- What a reader is asked for.
pub data Kind : Type 0 where
  unsigned_kind : ℕ → Kind
  bool_kind : Kind
  bytes_kind : ℕ → Kind
  prefixed_kind : ℕ → Kind
  utf8_kind : ℕ → Kind

-- A value; a number comes with its width, bytes behind a length with the largest length.
pub data Item : Type 0 where
  unsigned : ℕ → ℕ → Item
  boolean : Bool → Item
  raw : List ℕ → Item
  prefixed : ℕ → List ℕ → Item
  utf8 : ℕ → List ℕ → Item

abbrev pub kind : Item → Kind
kind (unsigned width n) = unsigned_kind width
kind (boolean b) = bool_kind
kind (raw bytes) = bytes_kind (length bytes)
kind (prefixed maximum bytes) = prefixed_kind maximum
kind (utf8 maximum bytes) = utf8_kind maximum

-- The ranges of the C++ types.
abbrev pub IsTyped : Item → Type 0
IsTyped (unsigned width n) = n < 2 ^ 64
IsTyped (boolean b) = Unit
IsTyped (raw bytes) = All IsByte bytes
IsTyped (prefixed maximum bytes) = All IsByte bytes
IsTyped (utf8 maximum bytes) = All IsByte bytes

-- The bytes of an item.
abbrev pub encoding : ByteOrder → Item → List ℕ
encoding order (unsigned width n) = store order n width
encoding order (boolean b) = store order (if b then 1 else 0) 1
encoding order (raw bytes) = bytes
encoding order (prefixed maximum bytes) = store order (length bytes) 4 ++ bytes
encoding order (utf8 maximum bytes) = store order (length bytes) 4 ++ bytes

abbrev pub on_value : {A B : Type 0} → (A → B) → Result A × BinaryReader → Result B × BinaryReader
on_value f (value a, r) = (value (f a), r)
on_value f (failed code, r) = (failed code, r)

unfoldable pub read_item : BinaryReader → Kind → Result Item × BinaryReader
read_item r (unsigned_kind width) = on_value (unsigned width) (read_unsigned r width)
read_item r bool_kind = on_value boolean (read_bool r)
read_item r (bytes_kind size) = on_value raw (read_bytes r size)
read_item r (prefixed_kind maximum) = on_value (prefixed maximum) (read_length_prefixed r maximum)
read_item r (utf8_kind maximum) = on_value (utf8 maximum) (read_utf8 r maximum)

abbrev pub kinds : List Item → List Kind
kinds [] = []
kinds (item ∷ items) = kind item ∷ kinds items

abbrev pub and_then :
    {A B : Type 0}
    → Result A × BinaryReader
    → (A → BinaryReader → Result B × BinaryReader)
    → Result B × BinaryReader
and_then (value a, r) f = f a r
and_then (failed code, r) f = (failed code, r)

-- All reads succeed, or the first that fails ends them.
unfoldable pub read_items : BinaryReader → List Kind → Result (List Item) × BinaryReader
read_items r [] = (value [], r)
read_items r (k ∷ ks) =
    and_then (read_item r k)
      λ item r1. and_then (read_items r1 ks) λ items r2. (value (item ∷ items), r2)

module _ (allocate : ℕ → Bool) where
  unfoldable pub write_item : BinaryWriter → Item → Status × BinaryWriter
  write_item w (unsigned width n) = write_unsigned allocate w n width
  write_item w (boolean b) = write_bool allocate w b
  write_item w (raw bytes) = write_bytes allocate w (outside bytes)
  write_item w (prefixed maximum bytes) = write_length_prefixed allocate w (outside bytes) maximum
  write_item w (utf8 maximum bytes) = write_utf8 allocate w (outside bytes) maximum

  unfoldable pub write_items : BinaryWriter → List Item → Status × BinaryWriter
  write_items w [] = (ErrorCode.ok, w)
  write_items w (item ∷ items) =
      let out = write_item w item in
      let rest = write_items out.1 items in if is_ok out.0 then rest else (out.0, out.1)
