-- ===== src/Core/ByteBuffer/Fifo.antt =====
-- A buffer is a bounded queue of bytes: what `Peek` shows, and what `Write` and `Consume` make of it.
use mathlib.Core.Option
use server_core.Base.{
  sym, if◌then◌else◌, ℕ, ◌+◌, ◌-◌, ◌≤◌, ◌≡◌, refl, none, some, List, [], ◌∷◌, ◌++◌, arith, length,
  take, drop, min, length-take, append-nil, ltb,
}
use server_core.Base.Store.{
  range, length-overwrite, length-range, range-overwrite, range-overwrite_front, range_empty,
  drop-range,
}
use server_core.Core.ByteBuffer.{
  ByteBuffer, IsValid, size, capacity, peek, compact, store, write, consume,
}

compact-IsValid : (b : ByteBuffer) → IsValid b → IsValid (compact b)
unfolding compact
compact-IsValid b v = ground (
  arith,
  length-overwrite b.storage 0 (range b.read_pos b.write_pos b.storage),
  length-range b.read_pos b.write_pos b.storage,
)

length-compact : (b : ByteBuffer) → IsValid b → length (compact b).storage ≡ length b.storage
unfolding compact
length-compact b v = ground (
  arith,
  length-overwrite b.storage 0 (range b.read_pos b.write_pos b.storage),
  length-range b.read_pos b.write_pos b.storage,
)

peek-compact : (b : ByteBuffer) → IsValid b → peek (compact b) ≡ peek b
unfolding compact peek
peek-compact b v = ground (
  arith,
  range-overwrite_front b.storage (range b.read_pos b.write_pos b.storage)
      (b.write_pos - b.read_pos),
  length-range b.read_pos b.write_pos b.storage,
  range_empty b.read_pos b.write_pos b.storage,
  range_empty 0 (b.write_pos - b.read_pos) b.storage,
)

store-IsValid : (b : ByteBuffer) (bytes : List ℕ) → IsValid b → IsValid (store b bytes).1
unfolding store
store-IsValid b bytes v =
    let n = min (length bytes) (length b.storage - b.write_pos) in
    ground (arith, length-overwrite b.storage b.write_pos (take n bytes), length-take n bytes)

length-store :
    (b : ByteBuffer) (bytes : List ℕ)
    → IsValid b
    → length (store b bytes).1.storage ≡ length b.storage
unfolding store
length-store b bytes v =
    let n = min (length bytes) (length b.storage - b.write_pos) in
    ground (arith, length-overwrite b.storage b.write_pos (take n bytes), length-take n bytes)

peek-store :
    (b : ByteBuffer) (bytes : List ℕ)
    → IsValid b
    → peek (store b bytes).1 ≡ peek b ++ take (store b bytes).0 bytes
unfolding store peek
peek-store b bytes v =
    let n = min (length bytes) (length b.storage - b.write_pos) in
    ground (
      arith,
      range-overwrite b.storage b.read_pos b.write_pos (take n bytes),
      length-take n bytes,
      append-nil (range b.read_pos b.write_pos b.storage),
    )

-- The room that a buffer has: compaction makes all of it writable.
abbrev pub room : ByteBuffer → ℕ
room b = length b.storage - (b.write_pos - b.read_pos)

size-compact : (b : ByteBuffer) → (compact b).write_pos ≡ b.write_pos - b.read_pos
unfolding compact
size-compact b = refl

read_pos-compact : (b : ByteBuffer) → (compact b).read_pos ≡ 0
unfolding compact
read_pos-compact b = refl

pub write-count :
    (bytes : List ℕ) (b : ByteBuffer) → IsValid b → (write bytes b).0 ≡ min (length bytes) (room b)
unfolding write store
write-count [] b v = omega arith
write-count (x ∷ bytes) b v = ground (arith, length-compact b v, size-compact b, read_pos-compact b)

pub write-IsValid : (bytes : List ℕ) (b : ByteBuffer) → IsValid b → IsValid (write bytes b).1
unfolding write
write-IsValid [] b v = v
write-IsValid (x ∷ bytes) b v = ground (
  arith,
  store-IsValid b (x ∷ bytes) v,
  store-IsValid (compact b) (x ∷ bytes) (compact-IsValid b v),
)

pub capacity-write :
    (bytes : List ℕ) (b : ByteBuffer) → IsValid b → capacity (write bytes b).1 ≡ capacity b
unfolding write capacity
capacity-write [] b v = refl
capacity-write (x ∷ bytes) b v = ground (
  arith,
  length-store b (x ∷ bytes) v,
  length-store (compact b) (x ∷ bytes) (compact-IsValid b v),
  length-compact b v,
)

pub peek-write_count :
    (bytes : List ℕ) (b : ByteBuffer)
    → IsValid b
    → peek (write bytes b).1 ≡ peek b ++ take (write bytes b).0 bytes
unfolding write
peek-write_count [] b v = sym (append-nil (peek b))
peek-write_count (x ∷ bytes) b v = ground (
  arith,
  peek-store b (x ∷ bytes) v,
  peek-store (compact b) (x ∷ bytes) (compact-IsValid b v),
  peek-compact b v,
)

pub length-peek : (b : ByteBuffer) → IsValid b → length (peek b) ≡ size b
unfolding peek size
length-peek b v = length-range b.read_pos b.write_pos b.storage v.inside

drop-peek :
    (n : ℕ) (b : ByteBuffer)
    → n ≤ size b
    → drop n (peek b) ≡ range (b.read_pos + n) b.write_pos b.storage
unfolding peek size
drop-peek n b h = drop-range n b.read_pos b.write_pos b.storage h

pub consume-IsValid :
    (n : ℕ) (b c : ByteBuffer)
    → IsValid b
    → consume n b ≡ some c
    → IsValid c × (capacity c ≡ capacity b)
unfolding consume capacity
consume-IsValid n b c v h = ground arith

pub peek-consume :
    (n : ℕ) (b : ByteBuffer)
    → IsValid b
    → Option.map peek (consume n b) ≡ (if ltb (size b) n then none else some (drop n (peek b)))
unfolding consume size peek
peek-consume n b v = ground (
  arith,
  drop-peek n b,
  range_empty (b.read_pos + n) b.write_pos b.storage,
  range_empty 0 0 b.storage,
)
