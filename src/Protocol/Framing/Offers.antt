-- ===== src/Protocol/Framing/Offers.antt =====
-- The bodies of one `Append` of src/Protocol/Framing.cpp, offered one by one to the admission and to the
-- allocator, up to the first that is not taken.
use server_core.Base.{
  ℕ, ◌+◌, ◌-◌, ◌≡◌, refl, sym, ap, subst₂, ◌∙◌, inl, inr, Bool, true, false, not, Option, List, [],
  ◌∷◌, ◌++◌, arith, ltb, ltb→lt, ltb→le, lt→ltb, le→ltb, if◌then◌else◌, length, append-nil,
  append_assoc, Bool-cases,
}
use server_core.Core.Error.{ErrorCode, Status, allocation_failure}
use server_core.Protocol.FrameCodec.{Error, size_max}
use server_core.Protocol.Framing.{FrameReader, ask, copy_completed_frame, end_append, to_status}
use server_core.Protocol.Framing.Sound.{IsCounted, total-append}
use server_core.Protocol.Framing.Copying.{is_refused, copies, copies_refused}

-- All bodies are taken, the admission refuses one, or there is no memory for one.
pub data Answer : Type 0 where
  all_taken not_admitted no_memory : Answer

abbrev pub is_refusal : Answer → Bool
is_refusal not_admitted = true
is_refusal _ = false

abbrev is_exhausted : Answer → Bool
is_exhausted no_memory = true
is_exhausted _ = false

abbrev pub status_of : Answer → Error → Status
status_of all_taken error = to_status error
status_of not_admitted error = ErrorCode.too_large
status_of no_memory error = allocation_failure

abbrev pub onto_taken :
    {W : Type 0} → List ℕ → List (List ℕ) × Answer × W → List (List ℕ) × Answer × W
onto_taken body (taken, answer, w) = (body ∷ taken, answer, w)

module _ {W : Type 0} (allocate : W → ℕ → Bool × W) (admission : Option (W → ℕ → Bool × W)) where
  -- The bodies that are taken, why no more are, and the world afterwards. So far `n` bytes wait.
  unfoldable pub offer : W → ℕ → List (List ℕ) → List (List ℕ) × Answer × W
  offer w n [] = ([], all_taken, w)
  offer w n (body ∷ bodies) =
      let w1 = (ask admission w (length body)).1 in
      let w2 = (allocate w1 (length body)).1 in
      let more = offer w2 (n + length body) bodies in
      if ltb size_max (n + length body)
      then ([], no_memory, w)
      else if not (ask admission w (length body)).0
      then ([], not_admitted, w1)
      else if not (allocate w1 (length body)).0
      then ([], no_memory, w2)
      else onto_taken body more

  -- What the callback leaves agrees with what was offered.
  abbrev pub Agrees : FrameReader → List (List ℕ) × Answer × W → FrameReader × W → Type 0
  Agrees r o out =
      (out.0.completed ≡ r.completed ++ o.0)
      × (out.0.callback_admission_rejected ≡ is_refusal o.1)
      × (out.0.callback_allocation_failed ≡ is_exhausted o.1)
      × (out.1 ≡ o.2)

  -- A body that is not taken ends the offers, and the callback leaves the others alone.
  stopped :
      (r r1 : FrameReader) (w w1 : W) (body : List ℕ) (bodies : List (List ℕ)) (answer : Answer)
      → copy_completed_frame allocate admission (r, w) body ≡ (r1, w1)
      → is_refused r1 ≡ true
      → offer w r.completed_body_bytes (body ∷ bodies) ≡ ([], answer, w1)
      → Agrees r ([], answer, w1) (r1, w1)
      → Agrees r
          (offer w r.completed_body_bytes (body ∷ bodies))
          (copies allocate admission (r, w) (body ∷ bodies))
  stopped r r1 w w1 body bodies answer step hit o a =
      subst₂ (λ x y. Agrees r x y) (sym o)
        (sym (
          ap (λ c. copies allocate admission c bodies) step
          ∙ copies_refused allocate admission r1 w1 bodies hit))
        a

  abbrev kept_body : FrameReader → List ℕ → FrameReader
  kept_body r body = record r {
    completed = r.completed ++ body ∷ [];
    completed_body_bytes = r.completed_body_bytes + length body;
  }

  went_on :
      (r : FrameReader) (w w1 : W) (body : List ℕ) (bodies : List (List ℕ))
      (o : List (List ℕ) × Answer × W)
      → copy_completed_frame allocate admission (r, w) body ≡ (kept_body r body, w1)
      → offer w r.completed_body_bytes (body ∷ bodies) ≡ onto_taken body o
      → Agrees (kept_body r body) o (copies allocate admission (kept_body r body, w1) bodies)
      → Agrees r
          (offer w r.completed_body_bytes (body ∷ bodies))
          (copies allocate admission (r, w) (body ∷ bodies))
  went_on r w w1 body bodies (taken, answer, w2) step o (queued, rejected, failed_, world) =
      subst₂ (λ x y. Agrees r x y) (sym o) (sym (ap (λ c. copies allocate admission c bodies) step))
        (queued ∙ append_assoc r.completed (body ∷ []) taken, rejected, failed_, world)

  -- The callback on a body, by the tests that it makes.
  module _ (r : FrameReader) (w : W) (body : List ℕ) (open_ : is_refused r ≡ false) where
    abbrev w1 : W
    w1 = (ask admission w (length body)).1

    abbrev w2 : W
    w2 = (allocate w1 (length body)).1

    copy_overflow :
        ltb (size_max - r.completed_body_bytes) (length body) ≡ true
        → copy_completed_frame allocate admission (r, w) body
          ≡ (record r { callback_allocation_failed = true }, w)
    unfolding copy_completed_frame
    copy_overflow l = simp (open_, l)

    copy_not_admitted :
        ltb (size_max - r.completed_body_bytes) (length body) ≡ false
        → (ask admission w (length body)).0 ≡ false
        → copy_completed_frame allocate admission (r, w) body
          ≡ (record r { callback_admission_rejected = true }, w1)
    unfolding copy_completed_frame
    copy_not_admitted l a = simp (open_, l, a)

    copy_no_memory :
        ltb (size_max - r.completed_body_bytes) (length body) ≡ false
        → (ask admission w (length body)).0 ≡ true
        → (allocate w1 (length body)).0 ≡ false
        → copy_completed_frame allocate admission (r, w) body
          ≡ (record r { callback_allocation_failed = true }, w2)
    unfolding copy_completed_frame
    copy_no_memory l a g = simp (open_, l, a, g)

    copy_taken :
        ltb (size_max - r.completed_body_bytes) (length body) ≡ false
        → (ask admission w (length body)).0 ≡ true
        → (allocate w1 (length body)).0 ≡ true
        → copy_completed_frame allocate admission (r, w) body ≡ (kept_body r body, w2)
    unfolding copy_completed_frame
    copy_taken l a g = simp (open_, l, a, g)

  pub copies-Agrees :
      (bodies : List (List ℕ)) (r : FrameReader) (w : W)
      → r.callback_admission_rejected ≡ false
      → r.callback_allocation_failed ≡ false
      → IsCounted r
      → Agrees r (offer w r.completed_body_bytes bodies) (copies allocate admission (r, w) bodies)
  unfolding offer
  copies-Agrees [] r w h k c = (sym (append-nil r.completed), h, k, refl)
  copies-Agrees (body ∷ bodies) r w h k c =
      let n = length body in
      let v = (ask admission w n).1 in
      let u = (allocate v n).1 in
      let open_ : is_refused r ≡ false = rw (k, h) refl in
      let nothing = sym (append-nil r.completed) in
      elim (Bool-cases (ltb size_max (r.completed_body_bytes + n))) [
        | inl l ↦
            stopped r (record r { callback_allocation_failed = true }) w w body bodies no_memory
              (copy_overflow r w body open_ (
                lt→ltb (size_max - r.completed_body_bytes) n
                  (omega (arith, ltb→lt size_max (r.completed_body_bytes + n) l, c.bounded))))
              refl (rw l refl) (nothing, h, refl, refl)
        | inr l ↦
            let fits = ltb→le size_max (r.completed_body_bytes + n) l in
            let room = le→ltb (size_max - r.completed_body_bytes) n (omega (arith, fits)) in
            elim (Bool-cases (ask admission w n).0) [
              | inr a ↦
                  stopped r (record r { callback_admission_rejected = true }) w v body bodies
                    not_admitted (copy_not_admitted r w body open_ room a) (rw k refl)
                    (rw (l, a) refl) (nothing, refl, k, refl)
              | inl a ↦ elim (Bool-cases (allocate v n).0) [
                | inr g ↦
                    stopped r (record r { callback_allocation_failed = true }) w u body bodies
                      no_memory (copy_no_memory r w body open_ room a g) refl (rw (l, a, g) refl)
                      (nothing, h, refl, refl)
                | inl g ↦
                    went_on r w u body bodies (offer u (r.completed_body_bytes + n) bodies)
                      (copy_taken r w body open_ room a g) (rw (l, a, g) refl)
                      (copies-Agrees bodies (kept_body r body) u h k (record {
                        exact = omega (arith, c.exact, total-append r.completed (body ∷ []));
                        bounded = fits;
                      }))
              ]
            ]
      ]

pub end_append-answer :
    (r : FrameReader) (answer : Answer) (error : Error)
    → r.callback_admission_rejected ≡ is_refusal answer
    → r.callback_allocation_failed ≡ is_exhausted answer
    → r.admission_terminal ≡ false
    → let out = end_append r error in
      (out.1.completed ≡ r.completed)
      × (out.0 ≡ status_of answer error)
      × (out.1.admission_terminal ≡ is_refusal answer)
unfolding to_status
end_append-answer r all_taken error h k t = simp (h, k) (refl, refl, t)
end_append-answer r not_admitted error h k t = simp (h, k) (refl, refl, refl)
end_append-answer r no_memory error h k t = simp (h, k) (refl, refl, t)
