-- ===== src/Runtime/LatestValue/Steps.antt =====
-- The outcomes of the calls of `LatestValue`.
use server_core.Base.{
  ℕ, ◌≤◌, ◌<◌, ◌≡◌, ◌≢◌, refl, ◌⊎◌, inl, inr, Bool, true, false, Option, none, some, List, [], ◌∷◌,
  ◌++◌, length, ltb, ltb→le, leb, leb→gt, ◌==◌, ==_iff, Bool-cases,
}
use server_core.Core.Error.{ErrorCode, Status, value, failed}
use server_core.Core.Completion.{
  Subscriptions, issued, is_pending, create, reset, bind_cancellation, source_complete,
}
use server_core.Core.Completion.Settling.{
  reset-pending, bind_cancellation-pending, source_complete-pending, completed-over,
}
use server_core.Runtime.LatestValue.{
  World, last_version, keep_pending, published, publish, watch, answer, subscribe_change,
  wait_for_change, if_ok,
}

module _ {V : Type 0} where
  pub publish-cases :
      (granted : Bool) (v : Option V) (n : ℕ) (w : World V)
      → ((status : Status) × (if_ok status v ≡ none) × (publish granted v n w ≡ (status, w)))
        ⊎ ((x : V) × (v ≡ some x)
            × (n ≤ w.latest.options.max_retained_bytes)
            × (w.latest.closed ≡ false)
            × (w.latest.version ≢ last_version)
            × (publish granted v n w ≡ (ErrorCode.ok, published x n w)))
  unfolding publish
  publish-cases granted none n w = inl (ErrorCode.invalid_argument, refl, refl)
  publish-cases granted (some x) n w =
      elim (Bool-cases (ltb w.latest.options.max_retained_bytes n)) [
        | inl l ↦ inl (ErrorCode.too_large, refl, rw l refl)
        | inr l ↦ elim (Bool-cases granted) [
          | inr g ↦ inl (ErrorCode.platform_error, refl, rw (l, g) refl)
          | inl g ↦ elim (Bool-cases w.latest.closed) [
            | inl c ↦ inl (ErrorCode.closed, refl, simp (l, g, c))
            | inr c ↦ elim (Bool-cases (w.latest.version == last_version)) [
              | inl m ↦ inl (ErrorCode.too_large, refl, simp (l, g, c, m))
              | inr m ↦ inr (
                x,
                refl,
                ltb→le w.latest.options.max_retained_bytes n l,
                c,
                (λ e. cc ((==_iff w.latest.version last_version).1 e, m)),
                simp (l, g, c, m),
              )
            ]
          ]
        ]
      ]

-- No subscription is open in `s` that is over in `t`.
abbrev pub IsBelow : Subscriptions → Subscriptions → Type 0
IsBelow s t = (i : ℕ) → is_pending i s ≡ true → is_pending i t ≡ true

module _ {V : Type 0} where
  abbrev pub relisted : List ℕ → Subscriptions → World V → World V
  relisted ids s w = record { latest = record w.latest { watchers = ids }; subscriptions = s }

  abbrev pub kept : World V → List ℕ
  kept w = keep_pending w.latest.watchers (issued w.subscriptions)

  -- A call fails, is answered at once, finds the list full, or waits.
  pub wait_for_change-cases :
      (version : ℕ) (has_callback granted listed stopped : Bool) (w : World V)
      → let out = wait_for_change version has_callback granted listed stopped w in
        let id = w.subscriptions.next in
        ((e : Status) × (s : Subscriptions) × IsBelow s w.subscriptions
          × (out ≡ (failed e, record w { subscriptions = s })))
        ⊎ ((s : Subscriptions) × IsBelow s w.subscriptions
            × (is_pending id s ≡ false)
            × (out ≡ (value id, record w { subscriptions = s })))
        ⊎ ((s : Subscriptions) × IsBelow s w.subscriptions
            × (out ≡ (failed ErrorCode.would_block, relisted (kept w) s w)))
        ⊎ ((s : Subscriptions) × IsBelow s w.subscriptions
            × (w.latest.version ≡ version)
            × (w.latest.closed ≡ false)
            × (length (kept w) < w.latest.options.max_subscriptions)
            × (out ≡ (value id, relisted (kept w ++ id ∷ []) s w)))
  unfolding wait_for_change create subscribe_change answer watch
  wait_for_change-cases version false granted listed stopped w =
      inl (ErrorCode.invalid_argument, w.subscriptions, (λ i p. p), refl)
  wait_for_change-cases version true false listed stopped w =
      inl (ErrorCode.platform_error, w.subscriptions, (λ i p. p), refl)
  wait_for_change-cases version true true false stopped w = inl (
    ErrorCode.platform_error,
    reset w.subscriptions.next (issued w.subscriptions),
    (λ i p. reset-pending i w.subscriptions.next (issued w.subscriptions) p),
    refl,
  )
  wait_for_change-cases version true true true stopped w =
      let id = w.subscriptions.next in
      let s = issued w.subscriptions in
      let dropped : IsBelow (reset id s) w.subscriptions = λ i p. reset-pending i id s p in
      let bound : IsBelow (bind_cancellation stopped id s) w.subscriptions =
        λ i p. bind_cancellation-pending i stopped id s p in
      let told : (code : Status)
          → IsBelow (source_complete (some id) code (bind_cancellation stopped id s))
              w.subscriptions =
        λ code i p.
          bound i (source_complete-pending i (some id) code (bind_cancellation stopped id s) p).0 in
      elim (Bool-cases (ltb w.latest.version version)) [
        | inl l ↦ inl (ErrorCode.invalid_argument, reset id s, dropped, rw l refl)
        | inr l ↦ elim (Bool-cases (w.latest.version == version)) [
          | inr m ↦ inr (
              inl (
                source_complete (some id) ErrorCode.ok (bind_cancellation stopped id s),
                told ErrorCode.ok,
                completed-over id ErrorCode.ok _,
                rw (l, m) refl,
              ))
          | inl m ↦ elim (Bool-cases w.latest.closed) [
            | inl c ↦ inr (
                inl (
                  source_complete (some id) ErrorCode.closed (bind_cancellation stopped id s),
                  told ErrorCode.closed,
                  completed-over id ErrorCode.closed _,
                  simp (l, m, c),
                ))
            | inr c ↦ elim (Bool-cases (leb w.latest.options.max_subscriptions (length (kept w)))) [
              | inl full ↦ inr (inr (inl (reset id s, dropped, simp (l, m, c, full))))
              | inr room ↦ inr (
                  inr (
                    inr (
                      bind_cancellation stopped id s,
                      bound,
                      (==_iff w.latest.version version).0 m,
                      c,
                      leb→gt w.latest.options.max_subscriptions (length (kept w)) room,
                      simp (l, m, c, room),
                    )))
            ]
          ]
        ]
      ]
