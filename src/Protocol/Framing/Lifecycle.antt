-- ===== src/Protocol/Framing/Lifecycle.antt =====
-- A frame reader over all the calls of a connection.
use server_core.Base.{
  ℕ, ◌+◌, ◌^◌, ◌≤◌, ◌<◌, ◌≡◌, refl, ap, ◌∙◌, Bool, true, false, Option, List, [], ◌∷◌, ◌++◌, arith,
  ltb, length, length-replicate, replicate, drop, append-nil, All, if◌then◌else◌, drop_all,
}
use server_core.Core.Error.{ErrorCode, value, failed, allocation_failure}
use server_core.Protocol.FrameCodec.{no_error, header_size}
use server_core.Protocol.FrameCodec.Stream.{Parsed, parse}
use server_core.Protocol.FrameCodec.Chunks.{wire, wires, parse-wires}
use server_core.Protocol.FrameCodec.RoundTrip.{encode_to-wire}
use server_core.Protocol.Framing.{
  FrameReader, append, next_frame, take_next_frame, discard_completed_frames, release_storage,
  finish, encode_frame, to_status,
}
use server_core.Protocol.Framing.Sound.{total, IsSound, pending}
use server_core.Protocol.Framing.Offers.{not_admitted}
use server_core.Protocol.Framing.Answers.{starts, offered, refused_append}
use server_core.Protocol.Framing.Delivery.{append-Delivered, append_closed}

pub data Call (W : Type 0) : Type 0 where
  appends : Option (W → ℕ → Bool × W) → List ℕ → Call W
  takes nexts discards releases : Call W

abbrev pub is_release : {W : Type 0} → Call W → Bool
is_release releases = true
is_release _ = false

module _ {W : Type 0} (allocate : W → ℕ → Bool × W) where
  unfoldable pub step : FrameReader → W → Call W → FrameReader × W
  step r w (appends admission bytes) =
      let out = append allocate admission r w bytes in (out.1, out.2)
  step r w takes = ((take_next_frame r).1, w)
  step r w nexts = ((next_frame r).1, w)
  step r w discards = (discard_completed_frames r, w)
  step r w releases = (release_storage r, w)

  unfoldable pub run : FrameReader → W → List (Call W) → FrameReader × W
  run r w [] = (r, w)
  run r w (call ∷ calls) = let out = step r w call in run out.0 out.1 calls

  take-IsSound : (r : FrameReader) → IsSound r → IsSound (take_next_frame r).1
  unfolding take_next_frame
  take-IsSound r s = go r.completed s.counted.exact
    where
      go :
          (q : List (List ℕ))
          → r.completed_body_bytes ≡ total q
          → IsSound (take_next_frame (record r { completed = q })).1
      go [] e = record {
        counted = record { exact = e; bounded = s.counted.bounded };
        fitted = s.fitted;
        addressable = s.addressable;
      }
      go (body ∷ rest) e = record {
        counted = record { exact = omega arith; bounded = omega (arith, s.counted.bounded) };
        fitted = s.fitted;
        addressable = s.addressable;
      }

  next-IsSound : (r : FrameReader) → IsSound r → IsSound (next_frame r).1
  unfolding next_frame
  next-IsSound r s = go r.completed s.counted.exact
    where
      go :
          (q : List (List ℕ))
          → r.completed_body_bytes ≡ total q
          → IsSound (next_frame (record r { completed = q })).1
      go [] e = record {
        counted = record { exact = e; bounded = s.counted.bounded };
        fitted = s.fitted;
        addressable = s.addressable;
      }
      go (body ∷ rest) e = record {
        counted = record { exact = omega arith; bounded = omega (arith, s.counted.bounded) };
        fitted = s.fitted;
        addressable = s.addressable;
      }

  step-IsSound : (r : FrameReader) (w : W) (call : Call W) → IsSound r → IsSound (step r w call).0
  unfolding step release_storage
  step-IsSound r w (appends admission bytes) s =
      (append-Delivered allocate admission r w bytes s).sound
  step-IsSound r w takes s = take-IsSound r s
  step-IsSound r w nexts s = next-IsSound r s
  step-IsSound r w discards s = record {
    counted = record { exact = refl; bounded = omega arith };
    fitted = s.fitted;
    addressable = s.addressable;
  }
  step-IsSound r w releases s = record {
    counted = record { exact = refl; bounded = omega arith };
    fitted = tt;
    addressable = s.addressable;
  }

  -- After any calls the counter is the size of the queued bodies and did not wrap, so that no take
  -- can make it underflow, and the codec, if there is one, is ready for bodies of the same limit.
  pub run-IsSound :
      (r : FrameReader) (w : W) (calls : List (Call W)) → IsSound r → IsSound (run r w calls).0
  unfolding run
  run-IsSound r w [] s = s
  run-IsSound r w (call ∷ calls) s =
      run-IsSound (step r w call).0 (step r w call).1 calls (step-IsSound r w call s)

  take-terminal :
      (r : FrameReader) → (take_next_frame r).1.admission_terminal ≡ r.admission_terminal
  unfolding take_next_frame
  take-terminal r = ground arith

  next-terminal : (r : FrameReader) → (next_frame r).1.admission_terminal ≡ r.admission_terminal
  unfolding next_frame
  next-terminal r = ground arith

  step-terminal :
      (r : FrameReader) (w : W) (call : Call W)
      → is_release call ≡ false
      → r.admission_terminal ≡ true
      → (step r w call).0.admission_terminal ≡ true
  unfolding step
  step-terminal r w (appends admission bytes) h e =
      ap (λ o. o.1.admission_terminal) (append_closed allocate admission r w bytes e) ∙ e
  step-terminal r w takes h e = take-terminal r ∙ e
  step-terminal r w nexts h e = next-terminal r ∙ e
  step-terminal r w discards h e = e
  step-terminal r w releases h e = absurd (ground (arith, h))

  run-terminal :
      (r : FrameReader) (w : W) (calls : List (Call W))
      → All (λ call. is_release call ≡ false) calls
      → r.admission_terminal ≡ true
      → (run r w calls).0.admission_terminal ≡ true
  unfolding run
  run-terminal r w [] h e = e
  run-terminal r w (call ∷ calls) h e =
      run-terminal (step r w call).0 (step r w call).1 calls h.1 (step-terminal r w call h.0 e)

  finish-terminal : (r : FrameReader) → r.admission_terminal ≡ true → finish r ≡ ErrorCode.too_large
  unfolding finish to_status
  finish-terminal r h = rw h refl

  closed_for_good :
      (r : FrameReader) (w : W) (calls : List (Call W)) (admission : Option (W → ℕ → Bool × W))
      (bytes : List ℕ)
      → r.admission_terminal ≡ true
      → All (λ call. is_release call ≡ false) calls
      → let out = run r w calls in
        (append allocate admission out.0 out.1 bytes ≡ (ErrorCode.too_large, out.0, out.1))
        × (finish out.0 ≡ ErrorCode.too_large)
  closed_for_good r w calls admission bytes e h =
      let closed = run-terminal r w calls h e in
      (
        append_closed allocate admission (run r w calls).0 (run r w calls).1 bytes closed,
        finish-terminal (run r w calls).0 closed,
      )

  -- An `Append` whose codec runs and in which the admission refuses one of the frames that are offered to
  -- it is TooLarge; and then, whatever the caller calls short of `ReleaseStorage`, each `Append` with
  -- any admission fails with TooLarge and changes nothing, and `Finish` fails with TooLarge too.
  pub run_rejected :
      (r : FrameReader) (w : W) (refusing : Option (W → ℕ → Bool × W)) (refused_bytes : List ℕ)
      (calls : List (Call W)) (admission : Option (W → ℕ → Bool × W)) (bytes : List ℕ)
      → IsSound r
      → starts allocate refusing r w ≡ true
      → (offered allocate refusing r w refused_bytes).1 ≡ not_admitted
      → All (λ call. is_release call ≡ false) calls
      → let first = append allocate refusing r w refused_bytes in
        let out = run first.1 first.2 calls in
        (first.0 ≡ ErrorCode.too_large)
        × (append allocate admission out.0 out.1 bytes ≡ (ErrorCode.too_large, out.0, out.1))
        × (finish out.0 ≡ ErrorCode.too_large)
  run_rejected r w refusing refused_bytes calls admission bytes s go refused h =
      let first = append allocate refusing r w refused_bytes in
      let (status, closed) = refused_append allocate refusing r w refused_bytes s go refused in
      let (later, ended) = closed_for_good first.1 first.2 calls admission bytes closed h in
      (status, later, ended)

  -- A body within the limit is framed as its length and itself if the storage is granted, and
  -- a larger one is refused.
  pub encode_frame_lem :
      (body : List ℕ) (m : ℕ) (w : W)
      → m < 2 ^ 32
      → encode_frame allocate body m w ≡ (
          if ltb m (length body)
          then (failed ErrorCode.too_large, w)
          else if (allocate w (header_size + length body)).0
          then (value (wire body), (allocate w (header_size + length body)).1)
          else (failed allocation_failure, (allocate w (header_size + length body)).1))
  unfolding encode_frame to_status
  encode_frame_lem body m w k =
      let n : ℕ = header_size + length body in
      let none_left : drop n (replicate n 0) ≡ [] =
        drop_all n (replicate n 0) (omega (arith, length-replicate {A = ℕ} n 0)) in
      let whole : wire body ++ drop n (replicate n 0) ≡ wire body =
        ap (λ d. wire body ++ d) none_left ∙ append-nil (wire body) in
      ground (arith, length-replicate {A = ℕ} n 0, encode_to-wire body (replicate n 0) m, whole)

  -- Frames that are appended in one call with the status Ok stand behind the queue, in order, when
  -- no part of a frame was waiting, and none waits afterwards.
  pub append-wires :
      (admission : Option (W → ℕ → Bool × W)) (r : FrameReader) (w : W) (bodies : List (List ℕ))
      → IsSound r
      → r.max_body_size < 2 ^ 32
      → All (λ body. length body ≤ r.max_body_size) bodies
      → pending r ≡ []
      → (append allocate admission r w (wires bodies)).0 ≡ ErrorCode.ok
      → let out = append allocate admission r w (wires bodies) in
        (out.1.completed ≡ r.completed ++ bodies) × (pending out.1 ≡ [])
  append-wires admission r w bodies s k fits empty ok =
      let p : Parsed = parse r.max_body_size (pending r ++ wires bodies) in
      let d = append-Delivered allocate admission r w (wires bodies) s in
      let stream : p ≡ record { frames = bodies; rest = []; error = no_error } =
        ap (λ u. parse r.max_body_size (u ++ wires bodies)) empty
        ∙ parse-wires r.max_body_size k bodies fits in
      let (all, fine, left) = d.whole ok in
      (
        d.queued ∙ ap (λ q. r.completed ++ q) (all ∙ ap (λ q. q.frames) stream),
        left ∙ ap (λ q. q.rest) stream,
      )
