-- ===== src/Runtime/LatestValue/Versions.antt =====
-- The versions of a `LatestValue`: they count what was published.
use server_core.Base.{
  ℕ, ◌+◌, ◌≤◌, ◌≡◌, ◌≢◌, refl, ap, ◌∙◌, inl, inr, Option, none, some, List, [], ◌∷◌, ◌++◌, arith,
  length, length-append,
}
use server_core.Core.Completion.{Subscriptions, issued}
use server_core.Runtime.LatestValue.{
  Latest, World, last_version, keep_pending, published, close, Command, put, shut, wait, give_up,
  drop, onto, perform, run,
}
use server_core.Runtime.LatestValue.Steps.{relisted, kept, publish-cases, wait_for_change-cases}

-- The last of the values, or what was there before them.
abbrev pub last_of : {A : Type 0} → Option A → List A → Option A
last_of before [] = before
last_of before (x ∷ xs) = last_of (some x) xs

module _ {V : Type 0} where
  pub record IsLimited (l : Latest V) : Type 0 where
    pub counted : l.version ≤ last_version
    pub light : l.bytes ≤ l.options.max_retained_bytes
    pub few : length l.watchers ≤ l.options.max_subscriptions

length-keep_pending : (ids : List ℕ) (s : Subscriptions) → length (keep_pending ids s) ≤ length ids
unfolding keep_pending
length-keep_pending [] s = omega arith
length-keep_pending (id ∷ ids) s = ground (arith, length-keep_pending ids s)

module _ {V : Type 0} where
  -- What every call keeps: the versions count the values, and the last one is there.
  record IsStep (w : World V) (new : Option V) (u : World V) : Type 0 where
    pub limited : IsLimited w.latest → IsLimited u.latest
    pub counts : u.latest.version ≡ w.latest.version + length (onto new [])
    pub shows : u.latest.current ≡ last_of w.latest.current (onto new [])

  relisted-IsStep :
      (ids : List ℕ) (s : Subscriptions) (w : World V)
      → (IsLimited w.latest → length ids ≤ w.latest.options.max_subscriptions)
      → IsStep w none (relisted ids s w)
  relisted-IsStep ids s w h = record {
    limited = λ l. record { counted = l.counted; light = l.light; few = h l };
    counts = omega arith;
    shows = refl;
  }

  kept-few :
      (w : World V) → IsLimited w.latest → length (kept w) ≤ w.latest.options.max_subscriptions
  kept-few w l =
      omega (arith, l.few, length-keep_pending w.latest.watchers (issued w.subscriptions))

  published-IsStep :
      (v : V) (n : ℕ) (w : World V)
      → n ≤ w.latest.options.max_retained_bytes
      → w.latest.version ≢ last_version
      → IsStep w (some v) (published v n w)
  published-IsStep v n w h m = record {
    limited = λ l. record { counted = ground (arith, l.counted, m); light = h; few = omega arith };
    counts = omega arith;
    shows = refl;
  }

  same-IsStep : (s : Subscriptions) (w : World V) → IsStep w none (record w { subscriptions = s })
  same-IsStep s w = record { limited = λ l. l; counts = omega arith; shows = refl }

  perform-IsStep :
      (command : Command V) (w : World V) → IsStep w (perform command w).0 (perform command w).1
  unfolding perform close
  perform-IsStep (put granted v n) w = elim (publish-cases granted v n w) [
    | inl (status, e, k) ↦ rw (k, e) (same-IsStep w.subscriptions w)
    | inr (x, e, h, _, m, k) ↦ rw (k, e) (published-IsStep x n w h m)
  ]
  perform-IsStep shut w = record {
    limited = λ l. record { counted = l.counted; light = l.light; few = omega arith };
    counts = omega arith;
    shows = refl;
  }
  perform-IsStep (wait version has_callback granted listed stopped) w =
      elim (wait_for_change-cases version has_callback granted listed stopped w) [
        | inl (_, s, _, k) ↦ rw k (same-IsStep s w)
        | inr (inl (s, _, _, k)) ↦ rw k (same-IsStep s w)
        | inr (inr (inl (s, _, k))) ↦ rw k (relisted-IsStep (kept w) s w (kept-few w))
        | inr (inr (inr (s, _, _, _, room, k))) ↦ rw k (
            relisted-IsStep (kept w ++ w.subscriptions.next ∷ []) s w
              (λ l. omega (arith, room, length-append (kept w) (w.subscriptions.next ∷ []))))
      ]
  perform-IsStep (give_up id) w = same-IsStep _ w
  perform-IsStep (drop id) w = same-IsStep _ w

  last_of-onto :
      (before : Option V) (new : Option V) (more : List V)
      → last_of (last_of before (onto new [])) more ≡ last_of before (onto new more)
  last_of-onto before none more = refl
  last_of-onto before (some x) more = refl

  length-onto :
      (new : Option V) (more : List V) → length (onto new more) ≡ length (onto new []) + length more
  length-onto none more = omega arith
  length-onto (some x) more = omega arith

  -- Whatever calls are made, the version grows by the number of values that were published, the last of
  -- them is the current one, and the limits on the version, the bytes and the subscriptions hold.
  pub run-IsLatest :
      (commands : List (Command V)) (w : World V)
      → IsLimited w.latest
      → let (values, u) = run commands w in
        (u.latest.version ≡ w.latest.version + length values)
        × (u.latest.current ≡ last_of w.latest.current values)
        × IsLimited u.latest
  unfolding run
  run-IsLatest [] w l = (omega arith, refl, l)
  run-IsLatest (command ∷ commands) w l =
      let (new, next) = perform command w in
      let (more, u) = run commands next in
      let st = perform-IsStep command w in
      let (counts, shows, limited) = run-IsLatest commands next (st.limited l) in
      (
        omega (arith, counts, st.counts, length-onto new more),
        shows ∙ ap (λ c. last_of c more) st.shows ∙ last_of-onto w.latest.current new more,
        limited,
      )
