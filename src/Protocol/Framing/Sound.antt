-- ===== src/Protocol/Framing/Sound.antt =====
-- What holds of a frame reader between its calls.
use server_core.Base.{ℕ, ◌+◌, ◌≤◌, ◌≡◌, List, [], Option, none, some}
use server_core.Protocol.FrameCodec.{Reader, size_max, header_size}
use server_core.Protocol.FrameCodec.Pump.{unread, IsReady}
use server_core.Protocol.Framing.{FrameReader}
pub use server_core.Base.{total, total-append}

-- The counter is the size of the queue, and did not wrap.
pub record IsCounted (r : FrameReader) : Type 0 where
  pub exact : r.completed_body_bytes ≡ total r.completed
  pub bounded : r.completed_body_bytes ≤ size_max

abbrev pub IsFitted : ℕ → Option Reader → Type 0
IsFitted m none = Unit
IsFitted m (some codec) = IsReady codec × (codec.max_body_size ≡ m)

pub record IsSound (r : FrameReader) : Type 0 where
  pub counted : IsCounted r
  pub fitted : IsFitted r.max_body_size r.codec
  pub addressable : r.max_body_size + header_size ≤ size_max

-- The bytes that wait for the rest of their frame.
abbrev pub pending_in : Option Reader → List ℕ
pending_in none = []
pending_in (some codec) = unread codec

abbrev pub pending : FrameReader → List ℕ
pending r = pending_in r.codec
