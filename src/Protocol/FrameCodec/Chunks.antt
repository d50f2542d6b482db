-- ===== src/Protocol/FrameCodec/Chunks.antt =====
-- Where a stream is split into chunks does not show in what is parsed from it, and the frames of
-- bodies in a row are parsed back.
use server_core.Base.{
  ℕ, zero, suc, ◌+◌, ◌^◌, ◌≤◌, ◌<◌, ◌≡◌, refl, sym, ap, ◌∙◌, inl, inr, ◌⊎◌, false, List, [], ◌∷◌,
  ◌++◌, arith, length, drop, length-append, length-drop, append_assoc, take-append_le,
  drop-append_le, drop-append_self, take-append_self, All,
}
use server_core.Protocol.FrameCodec.{Error, no_error, header_size, read_length, header, is_none}
use server_core.Protocol.FrameCodec.Length.{read_length-append, read_length-header, length-header}
use server_core.Protocol.FrameCodec.Stream.{
  incomplete, oversized, frame, cut, Parsed, prepend, parse, cut-shorter, Cut-cases,
  parse-incomplete, parse-oversized, parse-frame,
}

-- What more bytes make of a parse: the rest grows, and is parsed on unless an error ended it.
abbrev pub resume_by : Error → ℕ → Parsed → List ℕ → Parsed
resume_by Error.no_error m p w = prepend p.frames (parse m (p.rest ++ w))
resume_by _ m p w = record p { rest = p.rest ++ w }

abbrev pub resume : ℕ → Parsed → List ℕ → Parsed
resume m p w = resume_by p.error m p w

pub resume_stop :
    (m : ℕ) (p : Parsed) (w : List ℕ)
    → is_none p.error ≡ false
    → resume m p w ≡ record p { rest = p.rest ++ w }
resume_stop m p w h = go p.error h
  where
    go : (e : Error) → is_none e ≡ false → resume_by e m p w ≡ record p { rest = p.rest ++ w }
    go no_error h = cc
    go _ h = refl

pub resume_on :
    (m : ℕ) (p : Parsed) (w : List ℕ)
    → p.error ≡ no_error
    → resume m p w ≡ prepend p.frames (parse m (p.rest ++ w))
resume_on m p w h = ap (λ e. resume_by e m p w) h

pub Error-cases : (e : Error) → (e ≡ no_error) ⊎ (is_none e ≡ false)
Error-cases no_error = inl refl
Error-cases _ = inr refl

module _ (m : ℕ) where
  cut-append_oversized : (u w : List ℕ) → cut m u ≡ oversized → cut m (u ++ w) ≡ oversized
  unfolding cut
  cut-append_oversized u w h = ground (arith, length-append u w, read_length-append u w)

  cut-append_frame :
      (u w body rest : List ℕ) → cut m u ≡ frame body rest → cut m (u ++ w) ≡ frame body (rest ++ w)
  unfolding cut
  cut-append_frame u w body rest h =
      let n = read_length u in
      ground (
        arith,
        length-append u w,
        read_length-append u w,
        length-drop header_size u,
        drop-append_le header_size u w,
        take-append_le n (drop header_size u) w,
        drop-append_le (header_size + n) u w,
      )

  prepend-resume :
      (fs : List (List ℕ)) (p : Parsed) (w : List ℕ)
      → prepend fs (resume m p w) ≡ resume m (prepend fs p) w
  prepend-resume fs p w = go p.error
    where
      go : (e : Error) → prepend fs (resume_by e m p w) ≡ resume_by e m (prepend fs p) w
      go Error.no_error =
          ap (λ t. record { frames = t; rest = q.rest; error = q.error })
            (sym (append_assoc fs p.frames q.frames))
        where
          q : Parsed
          q = parse m (p.rest ++ w)
      go _ = refl

  append_incomplete :
      (u w : List ℕ) → cut m u ≡ incomplete → parse m (u ++ w) ≡ resume m (parse m u) w
  append_incomplete u w e = sym (ap (λ p. resume m p w) (parse-incomplete m u e))

  append_oversized :
      (u w : List ℕ) → cut m u ≡ oversized → parse m (u ++ w) ≡ resume m (parse m u) w
  append_oversized u w e =
      parse-oversized m (u ++ w) (cut-append_oversized u w e)
      ∙ sym (ap (λ p. resume m p w) (parse-oversized m u e))

  append_frame :
      (u w body rest : List ℕ)
      → cut m u ≡ frame body rest
      → parse m (rest ++ w) ≡ resume m (parse m rest) w
      → parse m (u ++ w) ≡ resume m (parse m u) w
  append_frame u w body rest e ih =
      parse-frame m (u ++ w) body (rest ++ w) (cut-append_frame u w body rest e)
      ∙ ap (prepend (body ∷ [])) ih
      ∙ prepend-resume (body ∷ []) (parse m rest) w
      ∙ sym (ap (λ p. resume m p w) (parse-frame m u body rest e))

  parse-append_fuel :
      (fuel : ℕ) (u w : List ℕ) → length u ≤ fuel → parse m (u ++ w) ≡ resume m (parse m u) w
  parse-append_fuel zero u w h = elim (Cut-cases m u) [
    | inl e ↦ append_incomplete u w e
    | inr (inl e) ↦ append_oversized u w e
    | inr (inr (body, rest, e)) ↦ absurd (omega (arith, cut-shorter m u body rest e))
  ]
  parse-append_fuel (suc fuel) u w h = elim (Cut-cases m u) [
    | inl e ↦ append_incomplete u w e
    | inr (inl e) ↦ append_oversized u w e
    | inr (inr (body, rest, e)) ↦
        let shorter = cut-shorter m u body rest e in
        append_frame u w body rest e (parse-append_fuel fuel rest w (omega arith))
  ]

  -- Parsing a stream that arrives in two parts.
  pub parse-append : (u w : List ℕ) → parse m (u ++ w) ≡ resume m (parse m u) w
  parse-append u w = parse-append_fuel (length u) u w (omega arith)

-- The bytes of one frame, and of frames in a row.
abbrev pub wire : List ℕ → List ℕ
wire body = header (length body) ++ body

unfoldable pub wires : List (List ℕ) → List ℕ
wires [] = []
wires (body ∷ bodies) = wire body ++ wires bodies

module _ (m : ℕ) (fits : m < 2 ^ 32) where
  cut-wire : (body rest : List ℕ) → length body ≤ m → cut m (wire body ++ rest) ≡ frame body rest
  unfolding cut
  cut-wire body rest h =
      let hd = header (length body) in
      let n = length body in
      let four = length-header n in
      ground (
        arith,
        append_assoc hd body rest,
        read_length-header n (body ++ rest),
        length-append hd (body ++ rest),
        length-append hd body,
        length-append body rest,
        drop-append_self header_size hd (body ++ rest),
        take-append_self n body rest,
        drop-append_self (header_size + n) (hd ++ body) rest,
      )

  pub parse-wires :
      (bodies : List (List ℕ))
      → All (λ body. length body ≤ m) bodies
      → parse m (wires bodies) ≡ record { frames = bodies; rest = []; error = no_error }
  unfolding wires
  parse-wires [] h = parse-incomplete m [] (unfold cut in refl)
  parse-wires (body ∷ bodies) h =
      parse-frame m (wire body ++ wires bodies) body (wires bodies)
        (cut-wire body (wires bodies) h.0)
      ∙ ap (prepend (body ∷ [])) (parse-wires bodies h.1)
