-- ===== src/Protocol/Framing/Ending.antt =====
-- What a call of `Append` on the frame reader leaves, once the codec has run or was not asked.
use server_core.Base.{
  ℕ, ◌+◌, ◌≤◌, ◌≡◌, refl, sym, ap, subst, subst₂, ◌∙◌, false, some, ◌++◌, arith, take, append-nil,
}
use server_core.Core.Error.{ErrorCode, Status, is_ok}
use server_core.Protocol.FrameCodec.{Error, no_error, Reader, size_max, header_size, is_none}
use server_core.Protocol.FrameCodec.Stream.{Parsed}
use server_core.Protocol.FrameCodec.Pump.{unread, IsReady}
use server_core.Protocol.Framing.{FrameReader, start_append, end_append, to_status}
use server_core.Protocol.Framing.Sound.{total, IsFitted, IsSound, pending_in, pending}
use server_core.Protocol.Framing.Copying.{is_refused, Copied}

-- What `Append` leaves, by the parse `p` of the waiting bytes and the new ones: the queue has grown
-- by the first `count` frames, and with the status Ok by all of them.
pub record Delivered (r : FrameReader) (p : Parsed) (status : Status) (out : FrameReader)
    : Type 0 where
  pub count : ℕ
  pub queued : out.completed ≡ r.completed ++ take count p.frames
  pub whole :
      status ≡ ErrorCode.ok
      → (take count p.frames ≡ p.frames) × (p.error ≡ no_error) × (pending out ≡ p.rest)
  pub sound : IsSound out
  pub max_kept : out.max_body_size ≡ r.max_body_size

-- A call that fails before the codec runs.
pub Delivered-nothing :
    (r : FrameReader) (p : Parsed) (status : Status)
    → IsSound r
    → is_ok status ≡ false
    → Delivered r p status r
Delivered-nothing r p status s h = record {
  count = 0;
  queued = sym (append-nil r.completed);
  whole = λ e. absurd (ground (arith, ap is_ok e, h));
  sound = s;
  max_kept = refl;
}

pub to_status-ok : (e : Error) → to_status e ≡ ErrorCode.ok → e ≡ no_error
unfolding to_status
to_status-ok Error.no_error h = refl
to_status-ok _ h = absurd (ground (arith, h))

pub end_append-kept :
    (r : FrameReader) (error : Error)
    → let out = end_append r error in
      (out.1.completed ≡ r.completed)
      × (out.1.codec ≡ r.codec)
      × (out.1.max_body_size ≡ r.max_body_size)
      × (out.1.completed_body_bytes ≡ r.completed_body_bytes)
end_append-kept r error = ground arith

pub end_append-ok :
    (r : FrameReader) (error : Error)
    → (end_append r error).0 ≡ ErrorCode.ok
    → (is_refused r ≡ false) × (error ≡ no_error)
unfolding to_status
end_append-ok r error h = ground (arith, to_status-ok error)

pub Delivered-end :
    (r r1 : FrameReader) (p : Parsed) (codec : Reader) (error : Error)
    → IsSound r
    → Copied (start_append r) p.frames r1
    → error ≡ p.error
    → (error ≡ no_error → unread codec ≡ p.rest)
    → IsReady codec
    → codec.max_body_size ≡ r.max_body_size
    → let out = end_append (record r1 { codec = some codec }) error in Delivered r p out.0 out.1
Delivered-end r r1 p codec error s c e left ready fits =
    let r2 : FrameReader = record r1 { codec = some codec } in
    let (completed, kept, max_kept, bytes) = end_append-kept r2 error in
    let m : (end_append r2 error).1.max_body_size ≡ r.max_body_size =
      max_kept ∙ c.kept.max_body_size in
    record {
      count = c.count;
      queued = completed ∙ c.queued;
      whole = λ h.
          let (taken, fine) = end_append-ok r2 error h in
          (c.whole taken, sym e ∙ fine, ap pending_in kept ∙ left fine);
      sound = record {
        counted = record {
          exact = bytes ∙ c.counted.exact ∙ ap total (sym completed);
          bounded = subst (λ n. n ≤ size_max) (sym bytes) c.counted.bounded;
        };
        fitted = subst₂ IsFitted (sym m) (sym kept) (ready, fits);
        addressable = subst (λ n. n + header_size ≤ size_max) (sym m) s.addressable;
      };
      max_kept = m;
    }

-- A codec that an earlier error ended.
pub Delivered-terminal :
    (r : FrameReader) (p : Parsed) (codec : Reader)
    → IsSound r
    → IsReady codec
    → codec.max_body_size ≡ r.max_body_size
    → is_none codec.terminal_error ≡ false
    → Delivered r p
        (to_status codec.terminal_error)
        (record (start_append r) { codec = some codec })
Delivered-terminal r p codec s ready fits h = record {
  count = 0;
  queued = sym (append-nil r.completed);
  whole = λ e. absurd (ground (arith, ap is_none (to_status-ok codec.terminal_error e), h));
  sound = record {
    counted = record { exact = s.counted.exact; bounded = s.counted.bounded };
    fitted = (ready, fits);
    addressable = s.addressable;
  };
  max_kept = refl;
}
