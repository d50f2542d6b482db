-- ===== src/Protocol/Framing/Copying.antt =====
-- The callback over the bodies of one `Append`.
use server_core.Base.{
  ℕ, suc, ◌≡◌, refl, sym, ap, subst, ◌∙◌, Bool, true, false, Option, List, [], ◌∷◌, ◌++◌, arith,
  take, foldl, ◌||◌, append-nil, append_assoc, Bool-cases, inl, inr,
}
use server_core.Protocol.Framing.{FrameReader, copy_completed_frame}
use server_core.Protocol.Framing.Sound.{IsCounted, total-append}

abbrev pub is_refused : FrameReader → Bool
is_refused r = r.callback_allocation_failed || r.callback_admission_rejected

-- What the callback never changes.
pub record Kept (r out : FrameReader) : Type 0 where
  pub max_body_size : out.max_body_size ≡ r.max_body_size
  pub codec : out.codec ≡ r.codec
  pub current : out.current ≡ r.current
  pub terminal : out.admission_terminal ≡ r.admission_terminal

-- A first part of the bodies is queued, and all of them if none is refused.
pub record Copied (r : FrameReader) (frames : List (List ℕ)) (out : FrameReader) : Type 0 where
  pub count : ℕ
  pub queued : out.completed ≡ r.completed ++ take count frames
  pub whole : is_refused out ≡ false → take count frames ≡ frames
  pub counted : IsCounted out
  pub kept : Kept r out

module _ {W : Type 0} (allocate : W → ℕ → Bool × W) (admission : Option (W → ℕ → Bool × W)) where
  abbrev pub copies : FrameReader × W → List (List ℕ) → FrameReader × W
  copies = foldl (copy_completed_frame allocate admission)

  copy_refused :
      (r : FrameReader) (w : W) (body : List ℕ)
      → is_refused r ≡ true
      → copy_completed_frame allocate admission (r, w) body ≡ (r, w)
  unfolding copy_completed_frame
  copy_refused r w body h = ground arith

  pub copies_refused :
      (r : FrameReader) (w : W) (frames : List (List ℕ))
      → is_refused r ≡ true
      → copies (r, w) frames ≡ (r, w)
  copies_refused r w [] h = refl
  copies_refused r w (body ∷ frames) h =
      ap (λ c. copies c frames) (copy_refused r w body h) ∙ copies_refused r w frames h

  -- One body, that is refused or queued.
  pub copy_one :
      (r : FrameReader) (w : W) (body : List ℕ)
      → is_refused r ≡ false
      → IsCounted r
      → let out = (copy_completed_frame allocate admission (r, w) body).0 in
        IsCounted out
        × Kept r out
        × (is_refused out ≡ true → out.completed ≡ r.completed)
        × (is_refused out ≡ false → out.completed ≡ r.completed ++ body ∷ [])
  unfolding copy_completed_frame
  copy_one r w body h c = ground (arith, c.exact, c.bounded, total-append r.completed (body ∷ []))

  Copied-stop :
      (r r1 out : FrameReader) (body : List ℕ) (frames : List (List ℕ))
      → IsCounted r1
      → Kept r r1
      → r1.completed ≡ r.completed
      → is_refused r1 ≡ true
      → out ≡ r1
      → Copied r (body ∷ frames) out
  Copied-stop r r1 out body frames c k e h same =
      subst (Copied r (body ∷ frames)) (sym same) (record {
        count = 0;
        queued = e ∙ sym (append-nil r.completed);
        whole = λ n. absurd (ground (arith, h, n));
        counted = c;
        kept = k;
      })

  Copied-go :
      (r r1 out : FrameReader) (body : List ℕ) (frames : List (List ℕ))
      → Kept r r1
      → r1.completed ≡ r.completed ++ body ∷ []
      → Copied r1 frames out
      → Copied r (body ∷ frames) out
  Copied-go r r1 out body frames k e h = record {
    count = suc h.count;
    queued =
        h.queued
        ∙ ap (λ q. q ++ take h.count frames) e
        ∙ append_assoc r.completed (body ∷ []) (take h.count frames);
    whole = λ n. ap (λ t. body ∷ t) (h.whole n);
    counted = h.counted;
    kept = record {
      max_body_size = h.kept.max_body_size ∙ k.max_body_size;
      codec = h.kept.codec ∙ k.codec;
      current = h.kept.current ∙ k.current;
      terminal = h.kept.terminal ∙ k.terminal;
    };
  }

  pub copies-Copied :
      (r : FrameReader) (w : W) (frames : List (List ℕ))
      → is_refused r ≡ false
      → IsCounted r
      → Copied r frames (copies (r, w) frames).0
  copies-Copied r w [] h c = record {
    count = 0;
    queued = sym (append-nil r.completed);
    whole = λ n. refl;
    counted = c;
    kept = record { max_body_size = refl; codec = refl; current = refl; terminal = refl };
  }
  copies-Copied r w (body ∷ frames) h c =
      let next : FrameReader × W = copy_completed_frame allocate admission (r, w) body in
      let (c1, k1, stopped, queued) = copy_one r w body h c in
      elim (Bool-cases (is_refused next.0)) [
        | inl hit ↦
            Copied-stop r next.0 (copies next frames).0 body frames c1 k1 (stopped hit) hit
              (ap (λ o. o.0) (copies_refused next.0 next.1 frames hit))
        | inr pass ↦
            Copied-go r next.0 (copies next frames).0 body frames k1 (queued pass)
              (copies-Copied next.0 next.1 frames pass c1)
      ]
