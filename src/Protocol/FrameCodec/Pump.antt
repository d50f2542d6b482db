-- ===== src/Protocol/FrameCodec/Pump.antt =====
-- `PumpCompletedFrames` and `CompactUnreadBytes` against the parse of the unread bytes.
use server_core.Base.{
  ℕ, zero, suc, ◌+◌, ◌-◌, ◌≤◌, ◌<◌, ◌≡◌, refl, sym, ap, subst₂, ◌∙◌, inl, inr, false, List, [], ◌∷◌,
  arith, length, drop, foldl,
}
use server_core.Base.Store.{range, length-range, drop-range, take-drop-range}
use server_core.Protocol.FrameCodec.{
  Error, no_error, too_large, header_size, read_length, Reader, pump,
}
use server_core.Protocol.FrameCodec.Length.{read_length-take}
use server_core.Protocol.FrameCodec.Stream.{
  Parsed, prepend, cut-shorter, incomplete, oversized, frame, cut, parse, Cut-cases,
  parse-incomplete, parse-oversized, parse-frame, cut-frame_inversion,
}

abbrev pub unread : Reader → List ℕ
unread r = range r.start r.end r.storage

-- A reader in use: its positions lie in the store, which holds a frame of the largest size.
pub record IsReady (r : Reader) : Type 0 where
  pub ordered : r.start ≤ r.end
  pub inside : r.end ≤ length r.storage
  pub roomy : header_size + r.max_body_size ≤ length r.storage
  pub idle : r.invoking_callback ≡ false

module _ (r : Reader) (v : IsReady r) where
  pub length-unread : length (unread r) ≡ r.end - r.start
  length-unread = length-range r.start r.end r.storage v.inside

  read_length-unread :
      4 ≤ r.end - r.start → read_length (drop r.start r.storage) ≡ read_length (unread r)
  read_length-unread h = sym (read_length-take (r.end - r.start) (drop r.start r.storage) h)

  -- The head of the unread bytes decides what `PumpCompletedFrames` does next.
  module _ {S : Type 0} (callback : S → List ℕ → S) (fuel : ℕ) (context : S)
      (e : r.terminal_error ≡ no_error) where
    pump-incomplete :
        cut r.max_body_size (unread r) ≡ incomplete
        → pump callback (suc fuel) r context ≡ (no_error, r, context)
    unfolding pump cut
    pump-incomplete h = ground (arith, length-unread, read_length-unread)

    pump-oversized :
        cut r.max_body_size (unread r) ≡ oversized
        → pump callback (suc fuel) r context
          ≡ (too_large, record r { terminal_error = too_large }, context)
    unfolding pump cut
    pump-oversized h = ground (arith, length-unread, read_length-unread)

    -- The frame is handed over where it lies in the store, and the next round starts behind it.
    pump-frame :
        (body rest : List ℕ)
        → cut r.max_body_size (unread r) ≡ frame body rest
        → pump callback (suc fuel) r context
          ≡ pump callback fuel
              (record r {
                start = r.start + (header_size + length body);
                invoking_callback = false;
              })
              (callback context body)
    unfolding pump
    pump-frame body rest h =
        let n = read_length (unread r) in
        let (fits, within, eb, er, el) =
          cut-frame_inversion r.max_body_size (unread r) body rest h in
        let part = take-drop-range n header_size r.start r.end r.storage in
        ground (arith, length-unread, read_length-unread, part)

-- What a pump leaves, by the parse `p` of the unread bytes: the frames were handed over in order,
-- and the rest of the parse is unread.
pub record Pumped {S : Type 0} (callback : S → List ℕ → S) (r : Reader) (context : S) (p : Parsed)
    (out : Error × Reader × S) : Type 0 where
  pub error : out.0 ≡ p.error
  pub delivered : out.2 ≡ foldl callback context p.frames
  pub left : unread out.1 ≡ p.rest
  pub terminal : out.1.terminal_error ≡ p.error
  pub kept : out.1.storage ≡ r.storage
  pub end_kept : out.1.end ≡ r.end
  pub max_kept : out.1.max_body_size ≡ r.max_body_size
  pub ordered : out.1.start ≤ r.end
  pub idle : out.1.invoking_callback ≡ false

module _ {S : Type 0} (callback : S → List ℕ → S) where
  abbrev next_reader : Reader → List ℕ → Reader
  next_reader r body = record r {
    start = r.start + (header_size + length body);
    invoking_callback = false;
  }

  next_reader-IsReady :
      (r : Reader) (body rest : List ℕ)
      → IsReady r
      → cut r.max_body_size (unread r) ≡ frame body rest
      → IsReady (next_reader r body) × (unread (next_reader r body) ≡ rest)
  next_reader-IsReady r body rest v c =
      let (fits, within, eb, er, el) = cut-frame_inversion r.max_body_size (unread r) body rest c in
      let len = length-unread r v in
      let n : ℕ = header_size + read_length (unread r) in
      let moved = drop-range n r.start r.end r.storage (omega arith) in
      (
        record { ordered = omega arith; inside = v.inside; roomy = v.roomy; idle = refl },
        ap (λ k. range (r.start + (header_size + k)) r.end r.storage) el ∙ sym moved ∙ sym er,
      )

  Pumped-cons :
      (r : Reader) (context : S) (body : List ℕ) (p : Parsed) (out : Error × Reader × S)
      → Pumped callback (next_reader r body) (callback context body) p out
      → Pumped callback r context (prepend (body ∷ []) p) out
  Pumped-cons r context body p out h = record {
    error = h.error;
    delivered = h.delivered;
    left = h.left;
    terminal = h.terminal;
    kept = h.kept;
    end_kept = h.end_kept;
    max_kept = h.max_kept;
    ordered = h.ordered;
    idle = h.idle;
  }

  -- A pump that stops at once, with an error or for want of bytes.
  Pumped-stop :
      (r : Reader) (context : S) (e : Error)
      → IsReady r
      → Pumped callback r context
          (record { frames = []; rest = unread r; error = e })
          (e, record r { terminal_error = e }, context)
  Pumped-stop r context e v = record {
    error = refl;
    delivered = refl;
    left = refl;
    terminal = refl;
    kept = refl;
    end_kept = refl;
    max_kept = refl;
    ordered = v.ordered;
    idle = v.idle;
  }

  abbrev PumpedBy : Reader → S → Error × Reader × S → Type 0
  PumpedBy r context out = Pumped callback r context (parse r.max_body_size (unread r)) out

  pub pump-Pumped :
      (fuel : ℕ) (r : Reader) (context : S)
      → IsReady r
      → r.terminal_error ≡ no_error
      → r.end - r.start < fuel
      → Pumped callback r context (parse r.max_body_size (unread r)) (pump callback fuel r context)
  pump-Pumped zero r context v e h = absurd (omega arith)
  pump-Pumped (suc fuel) r context v e h = elim (Cut-cases r.max_body_size (unread r)) [
    | inl c ↦
        subst₂ (Pumped callback r context) (sym (parse-incomplete r.max_body_size (unread r) c))
          (ap (λ t. (no_error, record r { terminal_error = t }, context)) (sym e)
            ∙ sym (pump-incomplete r v callback fuel context e c))
          (Pumped-stop r context no_error v)
    | inr (inl c) ↦
        subst₂ (Pumped callback r context) (sym (parse-oversized r.max_body_size (unread r) c))
          (sym (pump-oversized r v callback fuel context e c)) (Pumped-stop r context too_large v)
    | inr (inr (body, rest, c)) ↦
        let (v', left) = next_reader-IsReady r body rest v c in
        let fewer = cut-shorter r.max_body_size (unread r) body rest c in
        subst₂ (Pumped callback r context)
          (ap (λ u. prepend (body ∷ []) (parse r.max_body_size u)) left
            ∙ sym (parse-frame r.max_body_size (unread r) body rest c))
          (sym (pump-frame r v callback fuel context e body rest c))
          (Pumped-cons r context body _ _ (
            pump-Pumped fuel (next_reader r body) (callback context body) v' e
              (omega (arith, v'.ordered))))
  ]
