-- ===== src/Protocol/Framing/Answers.antt =====
-- What `Append` of src/Protocol/Framing.cpp answers, on each of its ways.
use server_core.Base.{
  ℕ, ◌+◌, ◌≡◌, refl, sym, ap, subst, subst₂, ◌∙◌, ◌≤◌, ◌⊎◌, inl, inr, Bool, true, false, Option,
  none, some, List, ◌++◌, arith, length-replicate, replicate, Bool-cases, Option-cases,
}
use server_core.Core.Error.{ErrorCode, Status, allocation_failure}
use server_core.Protocol.FrameCodec.{Error, Reader, AppendResult, header_size, size_max, is_none}
use server_core.Protocol.FrameCodec
use server_core.Protocol.FrameCodec.Stream.{Parsed, parse}
use server_core.Protocol.FrameCodec.Chunks.{Error-cases}
use server_core.Protocol.FrameCodec.Pump.{unread, IsReady}
use server_core.Protocol.FrameCodec.Loop.{Appended}
use server_core.Protocol.FrameCodec.Reading.{append-Appended}
use server_core.Protocol.FrameCodec.RoundTrip.{create-IsReady}
use server_core.Protocol.Framing.{
  FrameReader, copy_completed_frame, start_append, end_append, append_prepared, append,
  ensure_reader, to_status,
}
use server_core.Protocol.Framing.Sound.{IsCounted, IsFitted, IsSound, pending_in, pending}
use server_core.Protocol.Framing.Copying.{Copied, copies-Copied}
use server_core.Protocol.Framing.Offers.{
  Answer, not_admitted, is_refusal, status_of, offer, Agrees, copies-Agrees, end_append-answer,
}
use server_core.Protocol.Framing.Ending.{Delivered}
use server_core.Protocol.Framing.Delivery.{
  cut_by, cut_by-terminal, fresh, ensure_some, append_closed, append_failed, append_open,
  append-Delivered,
}

-- The codec runs, and its outcome is that of the offers.
abbrev pub Ran :
    {W : Type 0}
    → FrameReader
    → Parsed
    → List (List ℕ) × Answer × W
    → Status × FrameReader × W
    → Type 0
Ran r p o out =
    (out.1.completed ≡ r.completed ++ o.0)
    × (out.0 ≡ status_of o.1 p.error)
    × (out.1.admission_terminal ≡ is_refusal o.1)
    × (out.2 ≡ o.2)

module _ {W : Type 0} (allocate : W → ℕ → Bool × W) (admission : Option (W → ℕ → Bool × W)) where
  prepared-Ran :
      (codec : Reader) (r : FrameReader) (w : W) (bytes : List ℕ)
      → IsSound r
      → IsReady codec
      → codec.max_body_size ≡ r.max_body_size
      → is_none codec.terminal_error ≡ true
      → r.admission_terminal ≡ false
      → let p = parse r.max_body_size (unread codec ++ bytes) in
        Ran r p
          (offer allocate admission w r.completed_body_bytes p.frames)
          (append_prepared allocate admission (some codec) r w bytes)
  unfolding append_prepared
  prepared-Ran codec r w bytes s ready fits running closed =
      elim (Error-cases codec.terminal_error) [
        | inr bad ↦ cc
        | inl fine ↦
            let p : Parsed = parse r.max_body_size (unread codec ++ bytes) in
            let cb = copy_completed_frame allocate admission in
            let out : AppendResult × Reader × (FrameReader × W) =
              cut_by allocate admission codec r w bytes in
            let a : Appended cb codec (start_append r, w) bytes 0 p out =
              subst
                (λ n.
                  Appended cb codec (start_append r, w) bytes 0 (parse n (unread codec ++ bytes))
                    out)
                fits (append-Appended cb codec (start_append r, w) bytes ready fine) in
            let o = offer allocate admission w r.completed_body_bytes p.frames in
            let counted : IsCounted (start_append r) = record {
              exact = s.counted.exact;
              bounded = s.counted.bounded;
            } in
            let (queued, rejected, exhausted, world) =
              subst (Agrees allocate admission (start_append r) o) (sym a.delivered)
                (copies-Agrees allocate admission p.frames (start_append r) w refl refl counted) in
            let c : Copied (start_append r) p.frames out.2.0 =
              subst (λ o. Copied (start_append r) p.frames o.0) (sym a.delivered)
                (copies-Copied allocate admission (start_append r) w p.frames refl counted) in
            let (same, status, terminal) =
              end_append-answer (record out.2.0 { codec = some out.1 }) o.1 out.0.error rejected
                exhausted (c.kept.terminal ∙ closed) in
            (same ∙ queued, status ∙ ap (status_of o.1) a.error, terminal, world)
      ]

  -- Whether the codec can run: it has had no error, or there is none yet and its store is granted. What
  -- the world is then, and what `Append` reports if it cannot.
  abbrev can_run : Option Reader → FrameReader → W → Bool
  can_run (some codec) r w = is_none codec.terminal_error
  can_run none r w = (allocate w (header_size + r.max_body_size)).0

  abbrev world_of : Option Reader → FrameReader → W → W
  world_of (some codec) r w = w
  world_of none r w = (allocate w (header_size + r.max_body_size)).1

  abbrev failure_of : Option Reader → Status
  failure_of (some codec) = to_status codec.terminal_error
  failure_of none = allocation_failure

  abbrev pub starts : FrameReader → W → Bool
  starts r w = can_run r.codec r w

  abbrev offered_at : Option Reader → FrameReader → W → List ℕ → List (List ℕ) × Answer × W
  offered_at codec r w bytes =
      offer allocate admission (world_of codec r w) r.completed_body_bytes
        (parse r.max_body_size (pending_in codec ++ bytes)).frames

  abbrev pub offered : FrameReader → W → List ℕ → List (List ℕ) × Answer × W
  offered r w bytes = offered_at r.codec r w bytes

  -- The three ways of `Append`: the reader is closed, the codec cannot run, or it runs.
  abbrev AnsweredAt : Option Reader → FrameReader → W → List ℕ → Status × FrameReader × W → Type 0
  AnsweredAt codec r w bytes out =
      ((r.admission_terminal ≡ true) × (out ≡ (ErrorCode.too_large, r, w)))
      ⊎ ((r.admission_terminal ≡ false)
          × (can_run codec r w ≡ false)
          × (out.0 ≡ failure_of codec)
          × (out.1.completed ≡ r.completed)
          × (out.1.admission_terminal ≡ false)
          × (out.2 ≡ world_of codec r w))
      ⊎ ((r.admission_terminal ≡ false)
          × (can_run codec r w ≡ true)
          × Ran r (parse r.max_body_size (pending_in codec ++ bytes)) (offered_at codec r w bytes)
              out)

  abbrev pub Answered : FrameReader → W → List ℕ → Status × FrameReader × W → Type 0
  Answered r w bytes out = AnsweredAt r.codec r w bytes out

  -- A codec that an earlier error ended.
  prepared_ended :
      (codec : Reader) (r : FrameReader) (w : W) (bytes : List ℕ)
      → is_none codec.terminal_error ≡ false
      → append_prepared allocate admission (some codec) r w bytes
        ≡ (to_status codec.terminal_error, record (start_append r) { codec = some codec }, w)
  unfolding append_prepared
  prepared_ended codec r w bytes h =
      ap
        (λ o. let e = end_append (record o.2.0 { codec = some o.1 }) o.0.error in (e.0, e.1, o.2.1))
        (cut_by-terminal allocate admission codec r w bytes h)

  Answered-some :
      (r : FrameReader) (w : W) (bytes : List ℕ) (codec : Reader)
      → IsSound r
      → r.admission_terminal ≡ false
      → r.codec ≡ some codec
      → Answered r w bytes (append allocate admission r w bytes)
  Answered-some r w bytes codec s t e =
      let (ready, fits) = subst (IsFitted r.max_body_size) e s.fitted in
      let run =
        append_open allocate admission r w bytes r w t (ensure_some allocate admission r w codec e)
        ∙ ap (λ c. append_prepared allocate admission c r w bytes) e in
      subst₂ (λ c o. AnsweredAt c r w bytes o) (sym e) (sym run)
        (elim (Bool-cases (is_none codec.terminal_error)) [
          | inl running ↦
              inr (inr (t, running, prepared-Ran codec r w bytes s ready fits running t))
          | inr ended ↦
              subst (λ o. AnsweredAt (some codec) r w bytes o)
                (sym (prepared_ended codec r w bytes ended))
                (inr (inl (t, ended, refl, refl, t, refl)))
        ])

  module _ (r : FrameReader) (w : W) (none_yet : r.codec ≡ none)
      (room : r.max_body_size + header_size ≤ size_max) where
    ensure_denied :
        (allocate w (header_size + r.max_body_size)).0 ≡ false
        → ensure_reader allocate r w
          ≡ (allocation_failure, r, (allocate w (header_size + r.max_body_size)).1)
    unfolding ensure_reader
    ensure_denied g = ground (arith, none_yet, room, g)

    ensure_granted :
        (allocate w (header_size + r.max_body_size)).0 ≡ true
        → ensure_reader allocate r w ≡ (
          ErrorCode.ok,
          record r { codec = some (fresh allocate admission r) },
          (allocate w (header_size + r.max_body_size)).1,
        )
    unfolding ensure_reader to_status FrameCodec.finish FrameCodec.create
        FrameCodec.required_storage_size
    ensure_granted g =
        ground
          (arith, none_yet, room, g, length-replicate {A = ℕ} (header_size + r.max_body_size) 0)

  Answered-none :
      (r : FrameReader) (w : W) (bytes : List ℕ)
      → IsSound r
      → r.admission_terminal ≡ false
      → r.codec ≡ none
      → Answered r w bytes (append allocate admission r w bytes)
  Answered-none r w bytes s t e =
      let m = r.max_body_size in
      let w1 = (allocate w (header_size + m)).1 in
      subst (λ c. AnsweredAt c r w bytes (append allocate admission r w bytes)) (sym e)
        (elim (Bool-cases (allocate w (header_size + m)).0) [
          | inr g ↦
              subst (λ o. AnsweredAt none r w bytes o)
                (sym (
                  append_failed allocate admission r w bytes w1 t
                    (ensure_denied r w e s.addressable g)))
                (inr (inl (t, g, refl, refl, t, refl)))
          | inl g ↦
              let r1 : FrameReader = record r { codec = some (fresh allocate admission r) } in
              let (ready, fine, empty) =
                create-IsReady (replicate (header_size + m) 0) m
                  (omega (arith, length-replicate {A = ℕ} (header_size + m) 0)) s.addressable in
              let s1 : IsSound r1 = record {
                counted = record { exact = s.counted.exact; bounded = s.counted.bounded };
                fitted = (ready, unfold FrameCodec.create in refl);
                addressable = s.addressable;
              } in
              let ran =
                prepared-Ran (fresh allocate admission r) r1 w1 bytes s1 ready
                  (unfold FrameCodec.create in refl) (ap is_none fine) t in
              subst (λ o. AnsweredAt none r w bytes o)
                (sym (
                  append_open allocate admission r w bytes r1 w1 t
                    (ensure_granted r w e s.addressable g)))
                (inr (
                  inr (
                    t,
                    g,
                    subst
                        (λ u.
                          Ran r (parse m (u ++ bytes))
                            (offer allocate admission w1 r.completed_body_bytes
                              (parse m (u ++ bytes)).frames)
                            (append_prepared allocate admission (some (fresh allocate admission r))
                              r1 w1 bytes))
                        empty ran,
                  )))
        ])

  -- `Append` offers the frames that the waiting bytes and the new ones hold to the admission and to the
  -- allocator, in order, and queues them up to the first that is not admitted, that no memory is granted
  -- for, or that would overflow the counter. A frame that is not admitted makes it TooLarge and closes the
  -- reader, one of the other two makes it an allocation failure; otherwise all frames are queued and the
  -- status is that of the parse, and with Ok what waits is what the parse leaves. If the reader is closed,
  -- or the codec has failed before or gets no store, nothing is offered. The reader stays sound, whatever
  -- the status.
  pub append-Answered :
      (r : FrameReader) (w : W) (bytes : List ℕ)
      → IsSound r
      → let out = append allocate admission r w bytes in
        Delivered r (parse r.max_body_size (pending r ++ bytes)) out.0 out.1
        × Answered r w bytes out
  append-Answered r w bytes s = (
    append-Delivered allocate admission r w bytes s,
    elim (Bool-cases r.admission_terminal) [
      | inl closed ↦ inl (closed, append_closed allocate admission r w bytes closed)
      | inr open_ ↦ elim (Option-cases r.codec) [
        | inl e ↦ Answered-none r w bytes s open_ e
        | inr (codec, e) ↦ Answered-some r w bytes codec s open_ e
      ]
    ],
  )

  pub refused_append :
      (r : FrameReader) (w : W) (bytes : List ℕ)
      → IsSound r
      → starts r w ≡ true
      → (offered r w bytes).1 ≡ not_admitted
      → let out = append allocate admission r w bytes in
        (out.0 ≡ ErrorCode.too_large) × (out.1.admission_terminal ≡ true)
  refused_append r w bytes s go refused = elim ((append-Answered r w bytes s).1) [
    | inl (closed, e) ↦ (ap (λ o. o.0) e, ap (λ o. o.1.admission_terminal) e ∙ closed)
    | inr (inl (_, halted, _, _, _, _)) ↦ cc (go, halted)
    | inr (inr (_, _, (queued, status, terminal, world))) ↦ (
      status ∙ ap (λ a. status_of a (parse r.max_body_size (pending r ++ bytes)).error) refused,
      terminal ∙ ap is_refusal refused,
    )
  ]
