-- ===== src/Protocol/Framing/Delivery.antt =====
-- `Append` of the frame reader against the parse of the waiting bytes and the new ones.
use server_core.Base.{
  ℕ, ◌+◌, ◌≤◌, ◌≡◌, refl, sym, ap, subst, subst₂, ◌∙◌, ◌⊎◌, Bool, true, false, Option, none, some,
  List, ◌++◌, arith, length-replicate, replicate, Bool-cases, Option-cases, inl, inr,
}
use server_core.Core.Error.{ErrorCode, allocation_failure}
use server_core.Protocol.FrameCodec.{
  Error, no_error, Reader, AppendResult, size_max, header_size, is_none,
}
use server_core.Protocol.FrameCodec
use server_core.Protocol.FrameCodec.Stream.{Parsed, parse}
use server_core.Protocol.FrameCodec.Chunks.{Error-cases}
use server_core.Protocol.FrameCodec.Pump.{unread, IsReady}
use server_core.Protocol.FrameCodec.Loop.{Appended, Appended-left}
use server_core.Protocol.FrameCodec.Reading.{append-Appended}
use server_core.Protocol.FrameCodec.RoundTrip.{create-IsReady}
use server_core.Protocol.Framing.{
  FrameReader, copy_completed_frame, start_append, end_append, append_prepared, append,
  ensure_reader, to_status,
}
use server_core.Protocol.Framing.Sound.{IsFitted, IsSound, pending_in, pending}
use server_core.Protocol.Framing.Copying.{Copied, copies-Copied}
use server_core.Protocol.Framing.Ending.{
  Delivered, Delivered-end, Delivered-nothing, Delivered-terminal,
}

module _ {W : Type 0} (allocate : W → ℕ → Bool × W) (admission : Option (W → ℕ → Bool × W)) where
  abbrev pub cut_by : Reader → FrameReader → W → List ℕ → AppendResult × Reader × (FrameReader × W)
  cut_by codec r w bytes =
      FrameCodec.append (some (copy_completed_frame allocate admission)) codec (start_append r, w)
        bytes

  pub cut_by-terminal :
      (codec : Reader) (r : FrameReader) (w : W) (bytes : List ℕ)
      → is_none codec.terminal_error ≡ false
      → cut_by codec r w bytes
        ≡ (record { error = codec.terminal_error; consumed = 0 }, codec, (start_append r, w))
  unfolding FrameCodec.append
  cut_by-terminal codec r w bytes h = ground arith

  -- A reader with a codec.
  append_prepared-Delivered :
      (codec : Reader) (r : FrameReader) (w : W) (bytes : List ℕ)
      → IsSound r
      → IsReady codec
      → codec.max_body_size ≡ r.max_body_size
      → let out = append_prepared allocate admission (some codec) r w bytes in
        Delivered r (parse r.max_body_size (unread codec ++ bytes)) out.0 out.1
  unfolding append_prepared
  append_prepared-Delivered codec r w bytes s ready fits = elim (Error-cases codec.terminal_error) [
    | inl fine ↦
        let p : Parsed = parse r.max_body_size (unread codec ++ bytes) in
        let cb = copy_completed_frame allocate admission in
        let out : AppendResult × Reader × (FrameReader × W) = cut_by codec r w bytes in
        let a : Appended cb codec (start_append r, w) bytes 0 p out =
          subst
            (λ n.
              Appended cb codec (start_append r, w) bytes 0 (parse n (unread codec ++ bytes)) out)
            fits (append-Appended cb codec (start_append r, w) bytes ready fine) in
        let c : Copied (start_append r) p.frames out.2.0 =
          subst (λ o. Copied (start_append r) p.frames o.0) (sym a.delivered)
            (copies-Copied allocate admission (start_append r) w p.frames refl
              (record { exact = s.counted.exact; bounded = s.counted.bounded })) in
        Delivered-end r out.2.0 p out.1 out.0.error s c a.error
          (λ ok. Appended-left cb codec (start_append r, w) bytes 0 p out a (sym a.error ∙ ok))
          a.ready (a.max_kept ∙ fits)
    | inr bad ↦
        subst
          (λ o.
            let e = end_append (record o.2.0 { codec = some o.1 }) o.0.error in
            Delivered r (parse r.max_body_size (unread codec ++ bytes)) e.0 e.1)
          (sym (cut_by-terminal codec r w bytes bad))
          (Delivered-terminal r (parse r.max_body_size (unread codec ++ bytes)) codec s ready fits
            bad)
  ]

  abbrev pub fresh : FrameReader → Reader
  fresh r = FrameCodec.create (replicate (header_size + r.max_body_size) 0) r.max_body_size

  pub ensure_some :
      (r : FrameReader) (w : W) (codec : Reader)
      → r.codec ≡ some codec
      → ensure_reader allocate r w ≡ (ErrorCode.ok, r, w)
  unfolding ensure_reader
  ensure_some r w codec h = rw h

  -- The storage is granted, and the new codec has no error, or it is not.
  pub ensure_none :
      (r : FrameReader) (w : W)
      → r.codec ≡ none
      → r.max_body_size + header_size ≤ size_max
      → let w1 = (allocate w (header_size + r.max_body_size)).1 in
        (ensure_reader allocate r w ≡ (allocation_failure, r, w1))
        ⊎ (ensure_reader allocate r w ≡ (ErrorCode.ok, record r { codec = some (fresh r) }, w1))
  unfolding ensure_reader to_status FrameCodec.finish FrameCodec.create
      FrameCodec.required_storage_size
  ensure_none r w h k = ground (arith, length-replicate {A = ℕ} (header_size + r.max_body_size) 0)

  module _ (r : FrameReader) (w : W) (bytes : List ℕ) where
    pub append_closed :
        r.admission_terminal ≡ true
        → append allocate admission r w bytes ≡ (ErrorCode.too_large, r, w)
    unfolding append to_status
    append_closed h = rw h

    pub append_failed :
        (w1 : W)
        → r.admission_terminal ≡ false
        → ensure_reader allocate r w ≡ (allocation_failure, r, w1)
        → append allocate admission r w bytes ≡ (allocation_failure, r, w1)
    unfolding append
    append_failed w1 h e = rw (e, h)

    pub append_open :
        (r1 : FrameReader) (w1 : W)
        → r.admission_terminal ≡ false
        → ensure_reader allocate r w ≡ (ErrorCode.ok, r1, w1)
        → append allocate admission r w bytes
          ≡ append_prepared allocate admission r1.codec r1 w1 bytes
    unfolding append
    append_open r1 w1 h e = rw (e, h)

  -- The call with the codec that is there.
  append-Delivered-some :
      (r : FrameReader) (w : W) (bytes : List ℕ) (codec : Reader)
      → IsSound r
      → r.admission_terminal ≡ false
      → r.codec ≡ some codec
      → let out = append allocate admission r w bytes in
        Delivered r (parse r.max_body_size (pending r ++ bytes)) out.0 out.1
  append-Delivered-some r w bytes codec s h e =
      let ready : IsFitted r.max_body_size (some codec) =
        subst (IsFitted r.max_body_size) e s.fitted in
      subst₂ (λ o c. Delivered r (parse r.max_body_size (pending_in c ++ bytes)) o.0 o.1)
        (sym (
          append_open r w bytes r w h (ensure_some r w codec e)
          ∙ ap (λ c. append_prepared allocate admission c r w bytes) e))
        (sym e) (append_prepared-Delivered codec r w bytes s ready.0 ready.1)

  -- The first call, which makes the codec.
  append-Delivered-none :
      (r : FrameReader) (w : W) (bytes : List ℕ)
      → IsSound r
      → r.admission_terminal ≡ false
      → r.codec ≡ none
      → let out = append allocate admission r w bytes in
        Delivered r (parse r.max_body_size (pending r ++ bytes)) out.0 out.1
  append-Delivered-none r w bytes s h e =
      let m : ℕ = r.max_body_size in
      let w1 : W = (allocate w (header_size + m)).1 in
      let p : Parsed = parse m (pending r ++ bytes) in
      elim (ensure_none r w e s.addressable) [
        | inl refused ↦
            subst (λ o. Delivered r p o.0 o.1) (sym (append_failed r w bytes w1 h refused))
              (Delivered-nothing r p allocation_failure s refl)
        | inr granted ↦
            let r1 : FrameReader = record r { codec = some (fresh r) } in
            let (ready, fine, empty) =
              create-IsReady (replicate (header_size + m) 0) m
                (omega (arith, length-replicate {A = ℕ} (header_size + m) 0)) s.addressable in
            let s1 : IsSound r1 = record {
              counted = record { exact = s.counted.exact; bounded = s.counted.bounded };
              fitted = (ready, unfold FrameCodec.create in refl);
              addressable = s.addressable;
            } in
            let d =
              append_prepared-Delivered (fresh r) r1 w1 bytes s1 ready
                (unfold FrameCodec.create in refl) in
            subst₂ (λ o u. Delivered r (parse m (u ++ bytes)) o.0 o.1)
              (sym (append_open r w bytes r1 w1 h granted)) (empty ∙ sym (ap pending_in e))
              (record {
                count = d.count;
                queued = d.queued;
                whole = d.whole;
                sound = d.sound;
                max_kept = d.max_kept;
              })
      ]

  -- `Append` queues a first part of the frames that the waiting bytes and the new ones hold, in order;
  -- with the status Ok it queues all of them, the codec has no error, and what waits is what the parse
  -- leaves. The reader stays sound, whatever the status.
  pub append-Delivered :
      (r : FrameReader) (w : W) (bytes : List ℕ)
      → IsSound r
      → let out = append allocate admission r w bytes in
        Delivered r (parse r.max_body_size (pending r ++ bytes)) out.0 out.1
  append-Delivered r w bytes s = elim (Bool-cases r.admission_terminal) [
    | inl closed ↦
        subst (λ o. Delivered r (parse r.max_body_size (pending r ++ bytes)) o.0 o.1)
          (sym (append_closed r w bytes closed))
          (Delivered-nothing r (parse r.max_body_size (pending r ++ bytes)) ErrorCode.too_large s
            refl)
    | inr open_ ↦ elim (Option-cases r.codec) [
      | inl e ↦ append-Delivered-none r w bytes s open_ e
      | inr (codec, e) ↦ append-Delivered-some r w bytes codec s open_ e
    ]
  ]
