-- ===== src/Core/ByteBuffer.antt =====
-- include/ServerCore/Core/ByteBuffer.h and src/Core/ByteBuffer.cpp: a byte queue in one fixed store
-- whose live bytes are always contiguous. A `none` is a failed SERVERCORE_ASSERT.
pub mod Fifo
pub mod Contract
use server_core.Base.{
  ℕ, ◌+◌, ◌-◌, ◌≤◌, ◌<◌, ◌≡◌, Bool, Option, none, some, List, [], ltb, ◌==◌, if◌then◌else◌, length,
  take, drop, replicate, min, not, ◌&&◌,
}
use server_core.Base.Store.{overwrite, range}

pub record ByteBuffer : Type 0 where
  pub storage : List ℕ
  pub read_pos : ℕ
  pub write_pos : ℕ

-- The constructor: a store of `capacity` zero bytes.
unfoldable pub create : ℕ → Option ByteBuffer
create capacity =
    if capacity == 0
    then none
    else some (record { storage = replicate capacity 0; read_pos = 0; write_pos = 0 })

unfoldable pub size : ByteBuffer → ℕ
size b = b.write_pos - b.read_pos

unfoldable pub empty : ByteBuffer → Bool
empty b = b.write_pos == b.read_pos

unfoldable pub capacity : ByteBuffer → ℕ
capacity b = length b.storage

unfoldable pub peek : ByteBuffer → List ℕ
peek b = range b.read_pos b.write_pos b.storage

-- The `memmove` of `Write`: the live bytes go to the front.
pub compact : ByteBuffer → ByteBuffer
compact b =
    let live = b.write_pos - b.read_pos in
    record {
      storage =
          if live == 0
          then b.storage
          else overwrite b.storage 0 (range b.read_pos b.write_pos b.storage);
      read_pos = 0;
      write_pos = live;
    }

-- The `memcpy` of `Write`: as many bytes as there is room for behind `write_pos`.
pub store : ByteBuffer → List ℕ → ℕ × ByteBuffer
store b bytes =
    let count = min (length bytes) (length b.storage - b.write_pos) in
    if count == 0 then (0, b) else (
      count,
      record b {
        storage = overwrite b.storage b.write_pos (take count bytes);
        write_pos = b.write_pos + count;
      },
    )

unfoldable pub write : List ℕ → ByteBuffer → ℕ × ByteBuffer
unfolding compact store
write [] b = (0, b)
write bytes b =
    if ltb (length b.storage - b.write_pos) (length bytes) && not (b.read_pos == 0)
    then store (compact b) bytes
    else store b bytes

unfoldable pub consume : ℕ → ByteBuffer → Option ByteBuffer
consume n b =
    if ltb (b.write_pos - b.read_pos) n
    then none
    else if b.read_pos + n == b.write_pos
    then some (record b { read_pos = 0; write_pos = 0 })
    else some (record b { read_pos = b.read_pos + n })

-- The live range lies in the store.
pub record IsValid (b : ByteBuffer) : Type 0 where
  pub ordered : b.read_pos ≤ b.write_pos
  pub inside : b.write_pos ≤ length b.storage
