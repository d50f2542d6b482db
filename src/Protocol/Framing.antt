-- ===== src/Protocol/Framing.antt =====
-- src/Protocol/Framing.cpp: the frame reader of one connection, which keeps the bodies that a
-- `FrameCodec::Reader` cuts from the stream in a queue of its own. What the caller decides (the
-- admission of a body) and what the allocator grants are functions on a world `W` that the calls
-- pass on. A message that cannot be allocated does not change a status here.
pub mod Sound
pub mod Copying
pub mod Offers
pub mod Answers
pub mod Ending
pub mod Delivery
pub mod Lifecycle
use server_core.Base.{
  ℕ, ◌+◌, ◌-◌, Bool, true, false, Option, none, some, List, [], ◌∷◌, ◌++◌, ltb, if◌then◌else◌,
  length, replicate, ◌||◌, not,
}
use server_core.Core.Error.{ErrorCode, Status, is_ok, allocation_failure, Result, value, failed}
use server_core.Protocol.FrameCodec.{
  Error, Reader, AppendResult, header_size, size_max, encode_to, EncodeResult, is_none,
}
use server_core.Protocol.FrameCodec

unfoldable pub to_status : Error → Status
to_status Error.no_error = ErrorCode.ok
to_status Error.would_block = ErrorCode.would_block
to_status Error.too_large = ErrorCode.too_large
to_status Error.invalid_format = ErrorCode.invalid_format
to_status Error.invalid_argument = ErrorCode.invalid_argument
to_status Error.insufficient_storage = ErrorCode.platform_error

-- The codec holds the storage.
pub record FrameReader : Type 0 where
  pub max_body_size : ℕ
  pub codec : Option Reader
  pub completed : List (List ℕ)
  pub completed_body_bytes : ℕ
  pub current : List ℕ
  pub callback_allocation_failed : Bool
  pub callback_admission_rejected : Bool
  pub admission_terminal : Bool

abbrev pub create : ℕ → FrameReader
create max_body_size = record {
  max_body_size = max_body_size;
  codec = none;
  completed = [];
  completed_body_bytes = 0;
  current = [];
  callback_allocation_failed = false;
  callback_admission_rejected = false;
  admission_terminal = false;
}

-- Whether an admission function lets a body of this size in; without one, every body is.
abbrev pub ask : {W : Type 0} → Option (W → ℕ → Bool × W) → W → ℕ → Bool × W
ask none w size = (true, w)
ask (some admission) w size = admission w size

abbrev pub start_append : FrameReader → FrameReader
start_append r = record r {
  callback_allocation_failed = false;
  callback_admission_rejected = false;
}

-- The status of `Append`, once the codec has run.
abbrev pub end_append : FrameReader → Error → Status × FrameReader
end_append r error =
    if r.callback_admission_rejected
    then (to_status Error.too_large, record r { admission_terminal = true })
    else if r.callback_allocation_failed
    then (allocation_failure, r)
    else (to_status error, r)

module _ {W : Type 0} (allocate : W → ℕ → Bool × W) where
  unfoldable pub ensure_reader : FrameReader → W → Status × FrameReader × W
  unfolding to_status
  ensure_reader r w = elim r.codec [
    | some codec ↦ (ErrorCode.ok, r, w)
    | none ↦
        let (granted, w1) = allocate w (header_size + r.max_body_size) in
        let codec =
          FrameCodec.create (replicate (header_size + r.max_body_size) 0) r.max_body_size in
        if ltb (size_max - header_size) r.max_body_size
        then (ErrorCode.too_large, r, w)
        else if not granted
        then (allocation_failure, r, w1)
        else (to_status (FrameCodec.finish codec), record r { codec = some codec }, w1)
  ]

  -- The callback: it keeps a copy of the body, unless an earlier body of this call was refused.
  unfoldable pub copy_completed_frame :
      Option (W → ℕ → Bool × W) → FrameReader × W → List ℕ → FrameReader × W
  copy_completed_frame admission (r, w) body =
      let (admitted, w1) = ask admission w (length body) in
      let (granted, w2) = allocate w1 (length body) in
      if r.callback_allocation_failed || r.callback_admission_rejected
      then (r, w)
      else if ltb (size_max - r.completed_body_bytes) (length body)
      then (record r { callback_allocation_failed = true }, w)
      else if not admitted
      then (record r { callback_admission_rejected = true }, w1)
      else if not granted
      then (record r { callback_allocation_failed = true }, w2)
      else (
        record r {
          completed = r.completed ++ body ∷ [];
          completed_body_bytes = r.completed_body_bytes + length body;
        },
        w2,
      )

  -- `Append` with the reader that `EnsureReader` left; after the status Ok there is one, and `none` is
  -- not reached.
  unfoldable pub append_prepared :
      Option (W → ℕ → Bool × W)
      → Option Reader
      → FrameReader
      → W
      → List ℕ
      → Status × FrameReader × W
  append_prepared admission none r w bytes = (allocation_failure, r, w)
  append_prepared admission (some codec) r w bytes =
      let (appended, codec1, (r1, w1)) =
        FrameCodec.append (some (copy_completed_frame admission)) codec (start_append r, w) bytes in
      let (status, r2) = end_append (record r1 { codec = some codec1 }) appended.error in
      (status, r2, w1)

  unfoldable pub append :
      Option (W → ℕ → Bool × W) → FrameReader → W → List ℕ → Status × FrameReader × W
  append admission r w bytes =
      let (prepared, r1, w1) = ensure_reader r w in
      if r.admission_terminal
      then (to_status Error.too_large, r, w)
      else if not (is_ok prepared)
      then (prepared, r1, w1)
      else append_prepared admission r1.codec r1 w1 bytes

  -- `Append` without an admission function.
  abbrev pub append_all : FrameReader → W → List ℕ → Status × FrameReader × W
  append_all r w bytes = append none r w bytes

  -- `EncodeFrame`
  unfoldable pub encode_frame : List ℕ → ℕ → W → Result (List ℕ) × W
  encode_frame body max_body_size w =
      let (granted, w1) = allocate w (header_size + length body) in
      let (encoded, framed) =
        encode_to body (replicate (header_size + length body) 0) max_body_size in
      if ltb max_body_size (length body)
      then (failed (to_status Error.too_large), w)
      else if ltb (size_max - header_size) (length body)
      then (failed (to_status Error.too_large), w)
      else if not granted
      then (failed allocation_failure, w1)
      else if not (is_none encoded.error)
      then (failed (to_status encoded.error), w1)
      else (value framed, w1)

unfoldable pub take_next_frame : FrameReader → Result (List ℕ) × FrameReader
take_next_frame r = elim r.completed [
  | [] ↦ (failed ErrorCode.would_block, record r { current = [] })
  | body ∷ rest ↦ (
    value body,
    record r {
      current = [];
      completed = rest;
      completed_body_bytes = r.completed_body_bytes - length body;
    },
  )
]

-- The view that the caller gets shows `current`.
unfoldable pub next_frame : FrameReader → Result (List ℕ) × FrameReader
next_frame r = elim r.completed [
  | [] ↦ (failed ErrorCode.would_block, record r { current = [] })
  | body ∷ rest ↦ (
    value body,
    record r {
      current = body;
      completed = rest;
      completed_body_bytes = r.completed_body_bytes - length body;
    },
  )
]

abbrev pub discard_completed_frames : FrameReader → FrameReader
discard_completed_frames r = record r { completed = []; completed_body_bytes = 0 }

unfoldable pub release_storage : FrameReader → FrameReader
release_storage r = create r.max_body_size

unfoldable pub finish : FrameReader → Status
finish r =
    if r.admission_terminal
    then to_status Error.too_large
    else elim r.codec [ some codec ↦ to_status (FrameCodec.finish codec) | none ↦ ErrorCode.ok ]

unfoldable pub has_incomplete_frame : FrameReader → Bool
has_incomplete_frame r = elim r.codec [
  | some codec ↦ FrameCodec.has_incomplete_frame codec
  | none ↦ false
]

abbrev pub completed_frame_count : FrameReader → ℕ
completed_frame_count r = length r.completed
