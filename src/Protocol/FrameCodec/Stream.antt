-- ===== src/Protocol/FrameCodec/Stream.antt =====
-- The wire format as a function on whole streams, with no store and no chunks: what the streaming
-- reader is measured against.
use server_core.Base.{
  ℕ, zero, suc, ◌+◌, ◌≤◌, ◌≡◌, refl, sym, ap, ◌∙◌, ◌⊎◌, List, [], ◌∷◌, ◌++◌, arith, ltb,
  if◌then◌else◌, length, take, drop, length-drop, length-take, inl, inr,
}
use server_core.Protocol.FrameCodec.{Error, no_error, too_large, header_size, read_length}

-- What a stream begins with: an incomplete frame, a frame that is too large, or a whole one.
pub data Cut : Type 0 where
  incomplete oversized : Cut
  frame : List ℕ → List ℕ → Cut

unfoldable pub cut : ℕ → List ℕ → Cut
cut max_body_size u =
    let n = read_length u in
    if ltb (length u) header_size
    then incomplete
    else if ltb max_body_size n
    then oversized
    else if ltb (length u) (header_size + n)
    then incomplete
    else frame (take n (drop header_size u)) (drop (header_size + n) u)

pub record Parsed : Type 0 where
  pub frames : List (List ℕ)
  pub rest : List ℕ
  pub error : Error

abbrev pub prepend : List (List ℕ) → Parsed → Parsed
prepend fs p = record p { frames = fs ++ p.frames }

unfoldable pub parse_from : ℕ → ℕ → List ℕ → Parsed
parse_from max_body_size zero u = record { frames = []; rest = u; error = no_error }
parse_from max_body_size (suc fuel) u = elim (cut max_body_size u) [
  | incomplete ↦ record { frames = []; rest = u; error = no_error }
  | oversized ↦ record { frames = []; rest = u; error = too_large }
  | frame body rest ↦ prepend (body ∷ []) (parse_from max_body_size fuel rest)
]

-- Each frame has a header, so there are at most as many frames as bytes.
unfoldable pub parse : ℕ → List ℕ → Parsed
unfolding parse_from
parse max_body_size u = parse_from max_body_size (length u) u

module _ (m : ℕ) where
  pub cut-shorter :
      (u body rest : List ℕ) → cut m u ≡ frame body rest → length rest + header_size ≤ length u
  unfolding cut
  cut-shorter u body rest h = ground (arith, length-drop (header_size + read_length u) u)

  parse_from-empty :
      (fuel : ℕ) → parse_from m fuel [] ≡ record { frames = []; rest = []; error = no_error }
  unfolding parse_from cut
  parse_from-empty zero = refl
  parse_from-empty (suc fuel) = refl

  -- What one round does, by the cut.
  parse_from-incomplete :
      (fuel : ℕ) (u : List ℕ)
      → cut m u ≡ incomplete
      → parse_from m (suc fuel) u ≡ record { frames = []; rest = u; error = no_error }
  unfolding parse_from
  parse_from-incomplete fuel u h = rw (h, parse_from)

  parse_from-oversized :
      (fuel : ℕ) (u : List ℕ)
      → cut m u ≡ oversized
      → parse_from m (suc fuel) u ≡ record { frames = []; rest = u; error = too_large }
  unfolding parse_from
  parse_from-oversized fuel u h = rw (h, parse_from)

  parse_from-frame :
      (fuel : ℕ) (u body rest : List ℕ)
      → cut m u ≡ frame body rest
      → parse_from m (suc fuel) u ≡ prepend (body ∷ []) (parse_from m fuel rest)
  unfolding parse_from
  parse_from-frame fuel u body rest h = rw (h, parse_from)

  pub Cut-cases :
      (u : List ℕ)
      → (cut m u ≡ incomplete)
        ⊎ (cut m u ≡ oversized)
        ⊎ ((body : List ℕ) × (rest : List ℕ) × (cut m u ≡ frame body rest))
  Cut-cases u = go (cut m u) refl
    where
      go :
          (c : Cut)
          → cut m u ≡ c
          → (cut m u ≡ incomplete)
            ⊎ (cut m u ≡ oversized)
            ⊎ ((body : List ℕ) × (rest : List ℕ) × (cut m u ≡ frame body rest))
      go incomplete e = inl e
      go oversized e = inr (inl e)
      go (frame body rest) e = inr (inr (body, rest, e))

  -- More fuel than bytes changes nothing.
  parse_from_fuel :
      (f g : ℕ) (u : List ℕ) → length u ≤ f → length u ≤ g → parse_from m f u ≡ parse_from m g u
  parse_from_fuel zero g [] h k = unfold parse_from in sym (parse_from-empty g)
  parse_from_fuel zero g (x ∷ u) h k = absurd (omega arith)
  parse_from_fuel (suc f) zero [] h k = parse_from-empty (suc f) ∙ sym (parse_from-empty zero)
  parse_from_fuel (suc f) zero (x ∷ u) h k = absurd (omega arith)
  parse_from_fuel (suc f) (suc g) u h k = elim (Cut-cases u) [
    | inl e ↦ parse_from-incomplete f u e ∙ sym (parse_from-incomplete g u e)
    | inr (inl e) ↦ parse_from-oversized f u e ∙ sym (parse_from-oversized g u e)
    | inr (inr (body, rest, e)) ↦
        let shorter = cut-shorter u body rest e in
        parse_from-frame f u body rest e
        ∙ ap (prepend (body ∷ [])) (parse_from_fuel f g rest (omega arith) (omega arith))
        ∙ sym (parse_from-frame g u body rest e)
  ]

  pub parse-incomplete :
      (u : List ℕ)
      → cut m u ≡ incomplete
      → parse m u ≡ record { frames = []; rest = u; error = no_error }
  unfolding parse
  parse-incomplete u e =
      parse_from_fuel (length u) (suc (length u)) u (omega arith) (omega arith)
      ∙ parse_from-incomplete (length u) u e

  pub parse-oversized :
      (u : List ℕ)
      → cut m u ≡ oversized
      → parse m u ≡ record { frames = []; rest = u; error = too_large }
  unfolding parse
  parse-oversized u e =
      parse_from_fuel (length u) (suc (length u)) u (omega arith) (omega arith)
      ∙ parse_from-oversized (length u) u e

  pub parse-frame :
      (u body rest : List ℕ)
      → cut m u ≡ frame body rest
      → parse m u ≡ prepend (body ∷ []) (parse m rest)
  unfolding parse
  parse-frame u body rest e =
      let shorter = cut-shorter u body rest e in
      parse_from_fuel (length u) (suc (length u)) u (omega arith) (omega arith)
      ∙ parse_from-frame (length u) u body rest e
      ∙ ap (prepend (body ∷ []))
          (parse_from_fuel (length u) (length rest) rest (omega arith) (omega arith))

  pub cut-frame_inversion :
      (u body rest : List ℕ)
      → cut m u ≡ frame body rest
      → (header_size + read_length u ≤ length u)
        × (read_length u ≤ m)
        × (body ≡ take (read_length u) (drop header_size u))
        × (rest ≡ drop (header_size + read_length u) u)
        × (length body ≡ read_length u)
  unfolding cut
  cut-frame_inversion u body rest h =
      let n = read_length u in
      ground (arith, length-take n (drop header_size u), length-drop header_size u)
