-- ===== src/Protocol/BinaryIo/RoundTrip.antt =====
-- What `BinaryWriter` wrote, `BinaryReader` reads back.
use server_core.Base.{
  ℕ, ◌≤◌, ◌≡◌, refl, sym, ap, subst, ◌∙◌, inl, inr, Bool, true, List, [], ◌∷◌, ◌++◌, append_assoc,
  append-nil, arith, length, length-append, All,
}
use server_core.Core.Error.{is_ok, value}
use server_core.Protocol.BinaryIo.{
  BinaryReader, BinaryWriter, ByteOrder, write_unsigned, write_length_prefixed, write_utf8,
}
use server_core.Protocol.BinaryIo.Digits.{IsByte}
use server_core.Protocol.BinaryIo.Items.{
  Kind, Item, unsigned, boolean, raw, prefixed, utf8, kind, kinds, and_then, IsTyped, encoding,
  read_item, read_items, write_item, write_items,
}
use server_core.Protocol.BinaryIo.Positions.{write_item-Grown}
use server_core.Protocol.BinaryIo.Values.{
  All-append, IsWritable, advance, ahead, ahead-advance, encoding-bytes, read_item_lem,
}

-- The bytes of all items, one after another.
abbrev pub encodings : ByteOrder → List Item → List ℕ
encodings order [] = []
encodings order (item ∷ items) = encoding order item ++ encodings order items

encodings-bytes :
    (order : ByteOrder) (items : List Item) → All IsTyped items → All IsByte (encodings order items)
encodings-bytes order [] t = tt
encodings-bytes order (item ∷ items) t =
    All-append (encoding order item) (encodings order items) (encoding-bytes order item t.0)
      (encodings-bytes order items t.1)

read_items-cons :
    (r r1 r2 : BinaryReader) (item : Item) (items : List Item) (k : Kind) (ks : List Kind)
    → read_item r k ≡ (value item, r1)
    → read_items r1 ks ≡ (value items, r2)
    → read_items r (k ∷ ks) ≡ (value (item ∷ items), r2)
unfolding read_items
read_items-cons r r1 r2 item items k ks e f =
    ap (λ o. and_then o λ i q. and_then (read_items q ks) λ is q2. (value (i ∷ is), q2)) e
    ∙ ap (λ o. and_then o λ is q2. (value (item ∷ is), q2)) f

pub read_items_lem :
    (r : BinaryReader) (items : List Item) (rest : List ℕ)
    → All IsWritable items
    → All IsTyped items
    → All IsByte rest
    → ahead r ≡ encodings r.order items ++ rest
    → read_items r (kinds items) ≡ (value items, advance r (length (encodings r.order items)))
read_items_lem r [] rest w t b e =
    unfold read_items in ap (λ p. (value [], record r { position = p })) (omega arith)
read_items_lem r (item ∷ items) rest w t b e =
    let front : List ℕ = encoding r.order item in
    let back : List ℕ = encodings r.order items in
    let r1 : BinaryReader = advance r (length front) in
    let e1 : ahead r ≡ front ++ (back ++ rest) = e ∙ append_assoc front back rest in
    read_items-cons r r1 (advance r1 (length back)) item items (kind item) (kinds items)
      (read_item_lem r (back ++ rest) (All-append back rest (encodings-bytes r.order items t.1) b)
        item w.0 t.0 e1)
      (read_items_lem r1 items rest w.1 t.1 b (ahead-advance r front (back ++ rest) e1))
    ∙ ap (λ p. (value (item ∷ items), record r { position = p }))
        (omega (arith, length-append front back))

module _ (allocate : ℕ → Bool) where
  write_item-IsWritable :
      (w : BinaryWriter) (item : Item)
      → IsTyped item
      → is_ok (write_item allocate w item).0 ≡ true
      → IsWritable item
  unfolding write_item write_unsigned write_length_prefixed write_utf8
  write_item-IsWritable w (unsigned width n) t h = ground arith
  write_item-IsWritable w (boolean b) t h = tt
  write_item-IsWritable w (raw bytes) t h = tt
  write_item-IsWritable w (prefixed maximum bytes) t h = ground arith
  write_item-IsWritable w (utf8 maximum bytes) t h = ground arith

  write_items-on :
      (w : BinaryWriter) (item : Item) (items : List Item)
      → is_ok (write_items allocate w (item ∷ items)).0 ≡ true
      → (is_ok (write_item allocate w item).0 ≡ true)
        × (write_items allocate w (item ∷ items)
            ≡ write_items allocate (write_item allocate w item).1 items)
  unfolding write_items
  write_items-on w item items h = ground arith

  -- A sequence of items that was written without an error stands behind what was there, and its
  -- encoding is read back, whatever bytes follow.
  pub write_items_lem :
      (w : BinaryWriter) (items : List Item)
      → length w.bytes ≤ w.limit
      → All IsTyped items
      → is_ok (write_items allocate w items).0 ≡ true
      → ((write_items allocate w items).1 ≡ record w { bytes = w.bytes ++ encodings w.order items })
        × All IsWritable items
  write_items_lem w [] h t e =
      (unfold write_items in ap (λ b. record w { bytes = b }) (sym (append-nil w.bytes)), tt)
  write_items_lem w (item ∷ items) h t e =
      let (ok, on) = write_items-on w item items e in
      elim (write_item-Grown allocate w h item) [
        | inr (bad, same) ↦ absurd (ground (arith, bad, ok))
        | inl (good, grown, within) ↦
            let w1 : BinaryWriter = record w { bytes = w.bytes ++ encoding w.order item } in
            let on1 : write_items allocate w (item ∷ items) ≡ write_items allocate w1 items =
              on ∙ ap (λ v. write_items allocate v items) grown in
            let (rest, writable) =
              write_items_lem w1 items (subst (λ v. length v.bytes ≤ w.limit) grown within) t.1
                (ap (λ o. is_ok o.0) (sym on1) ∙ e) in
            (
              ap (λ o. o.1) on1
                  ∙ rest
                  ∙ ap (λ b. record w { bytes = b })
                      (append_assoc w.bytes (encoding w.order item) (encodings w.order items)),
              (write_item-IsWritable w item t.0 ok, writable),
            )
      ]

  -- Items that a fresh writer took one after another without an error are read back by a reader over
  -- its bytes and whatever follows them: the same values, and the reader stands behind the last.
  pub read_items-write_items :
      (limit : ℕ) (order : ByteOrder) (items : List Item) (more : List ℕ)
      → All IsTyped items
      → All IsByte more
      → is_ok (write_items allocate (record { bytes = []; limit = limit; order = order }) items).0
        ≡ true
      → let written =
          (write_items allocate
            (record { bytes = []; limit = limit; order = order })
            items).1.bytes in
        read_items (record { input = written ++ more; order = order; position = 0 }) (kinds items)
        ≡ (
          value items,
          record { input = written ++ more; order = order; position = length written },
        )
  read_items-write_items limit order items more t b e =
      let w : BinaryWriter = record { bytes = []; limit = limit; order = order } in
      let (bytes, writable) = write_items_lem w items (omega arith) t e in
      subst
        (λ bytes.
          read_items (record { input = bytes ++ more; order = order; position = 0 }) (kinds items)
          ≡ (value items, record { input = bytes ++ more; order = order; position = length bytes }))
        (sym (ap (λ v. v.bytes) bytes))
        (read_items_lem
            (record { input = encodings order items ++ more; order = order; position = 0 }) items
            more writable t b refl
          ∙ ap
              (λ p. (
                value items,
                record { input = encodings order items ++ more; order = order; position = p },
              ))
              {y = length (encodings order items)} (omega arith))
