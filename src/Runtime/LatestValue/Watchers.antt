-- ===== src/Runtime/LatestValue/Watchers.antt =====
-- No change of a `LatestValue` is missed by a subscription that waits for it.
use server_core.Base.{
  ℕ, ◌≡◌, refl, sym, subst, subst₂, ◌∙◌, ◌⊎◌, inl, inr, Bool, true, false, ◌||◌, List, [], ◌∷◌,
  ◌++◌, arith, ◌==◌, ==_iff, Bool-cases,
}
use server_core.Core.Error.{ErrorCode, Status, Result, value, failed}
use server_core.Core.Completion.{called, Subscriptions, issued, is_pending, complete}
use server_core.Core.Completion.Settling.{settle-pending, cancel-pending, reset-pending}
use server_core.Runtime.LatestValue.{
  World, complete_all, keep_pending, wait_for_change, close, Command, put, shut, wait, give_up,
  drop, perform, run,
}
use server_core.Runtime.LatestValue.Steps.{IsBelow, kept, publish-cases, wait_for_change-cases}

abbrev listed_in : ℕ → List ℕ → Bool
listed_in id [] = false
listed_in id (other ∷ ids) = other == id || listed_in id ids

complete_all-pending :
    (i : ℕ) (ids : List ℕ) (code : Status) (s : Subscriptions)
    → is_pending i (complete_all ids code s) ≡ true
    → (is_pending i s ≡ true) × (listed_in i ids ≡ false)
unfolding complete_all complete
complete_all-pending i [] code s p = (p, refl)
complete_all-pending i (id ∷ ids) code s p =
    let (q, out) = complete_all-pending i ids code (complete id code s).1 p in
    let (r, other) = settle-pending i id (called code) s q in (r, rw other out)

keep_pending-listed :
    (i : ℕ) (ids : List ℕ) (s : Subscriptions)
    → is_pending i s ≡ true
    → listed_in i ids ≡ true
    → listed_in i (keep_pending ids s) ≡ true
unfolding keep_pending
keep_pending-listed i (id ∷ ids) s p h = elim (Bool-cases (id == i)) [
  | inl e ↦
      subst (λ j. listed_in i (keep_pending (j ∷ ids) s) ≡ true) (sym ((==_iff id i).0 e))
        (rw p (front i (keep_pending ids s)))
  | inr e ↦ elim (Bool-cases (is_pending id s)) [
    | inl q ↦ rw (q, e) (keep_pending-listed i ids s p (rw e at h))
    | inr q ↦ rw q (keep_pending-listed i ids s p (rw e at h))
  ]
]
  where
    front : (i : ℕ) (ids : List ℕ) → listed_in i (i ∷ ids) ≡ true
    front i ids = ground (arith, ==_iff i i)
keep_pending-listed i [] s p h = cc

listed-append : (i : ℕ) (xs ys : List ℕ) → listed_in i xs ≡ true → listed_in i (xs ++ ys) ≡ true
listed-append i [] ys h = cc
listed-append i (x ∷ xs) ys h = ground (arith, h, listed-append i xs ys)

listed-last : (i : ℕ) (xs : List ℕ) → listed_in i (xs ++ i ∷ []) ≡ true
listed-last i [] = ground (arith, ==_iff i i)
listed-last i (x ∷ xs) = ground (arith, listed-last i xs)

module _ {V : Type 0} where
  -- While the subscription is open, it is listed, and nothing has changed since.
  abbrev IsWatching : ℕ → ℕ → World V → Type 0
  IsWatching version id w =
      is_pending id w.subscriptions ≡ true
      → (listed_in id w.latest.watchers ≡ true)
        × (w.latest.version ≡ version)
        × (w.latest.closed ≡ false)

  below-IsWatching :
      (version id : ℕ) (s : Subscriptions) (w : World V)
      → IsBelow s w.subscriptions
      → IsWatching version id w
      → IsWatching version id (record w { subscriptions = s })
  below-IsWatching version id s w b h p = h (b id p)

  -- All that were listed are told.
  told-IsWatching :
      (version id : ℕ) (code : Status) (w : World V) {P : Type 0}
      → IsWatching version id w
      → is_pending id (complete_all w.latest.watchers code w.subscriptions) ≡ true
      → P
  told-IsWatching version id code w h p =
      let (q, out) = complete_all-pending id w.latest.watchers code w.subscriptions p in
      let (listed, _, _) = h q in absurd (cc (listed, out))

  perform-IsWatching :
      (version id : ℕ) (command : Command V) (w : World V)
      → IsWatching version id w
      → IsWatching version id (perform command w).1
  unfolding perform close
  perform-IsWatching version id (put granted v n) w h = elim (publish-cases granted v n w) [
    | inl (status, _, k) ↦ rw k h
    | inr (x, _, _, _, _, k) ↦ rw k (λ p. told-IsWatching version id ErrorCode.ok w h p)
  ]
  perform-IsWatching version id shut w h = λ p. told-IsWatching version id ErrorCode.closed w h p
  perform-IsWatching version id (wait asked has_callback granted listed stopped) w h =
      elim (wait_for_change-cases asked has_callback granted listed stopped w) [
        | inl (_, s, b, k) ↦ rw k (below-IsWatching version id s w b h)
        | inr (inl (s, b, _, k)) ↦ rw k (below-IsWatching version id s w b h)
        | inr (inr (inl (s, b, k))) ↦ rw k (λ p.
            let (there, same, live) = h (b id p) in
            (
              keep_pending-listed id w.latest.watchers (issued w.subscriptions) (b id p) there,
              same,
              live,
            ))
        | inr (inr (inr (s, b, _, _, _, k))) ↦ rw k (λ p.
            let (there, same, live) = h (b id p) in
            (
              listed-append id (kept w) (w.subscriptions.next ∷ []) (
                  keep_pending-listed id w.latest.watchers (issued w.subscriptions) (b id p) there),
              same,
              live,
            ))
      ]
  perform-IsWatching version id (give_up j) w h = λ p. h (cancel-pending id j w.subscriptions p)
  perform-IsWatching version id (drop j) w h = λ p. h (reset-pending id j w.subscriptions p)

  run-IsWatching :
      (version id : ℕ) (commands : List (Command V)) (w : World V)
      → IsWatching version id w
      → IsWatching version id (run commands w).1
  unfolding run
  run-IsWatching version id [] w h = h
  run-IsWatching version id (command ∷ commands) w h =
      run-IsWatching version id commands (perform command w).1
        (perform-IsWatching version id command w h)

  same-value :
      (i j : ℕ) (w u : World V)
      → ◌≡◌ {A = Result ℕ × World V} (value i, w) (value j, u)
      → (i ≡ j) × (w ≡ u)
  same-value i j w u e = ground (arith, e)

  failed-value :
      (status : Status) (j : ℕ) (w u : World V) {P : Type 0}
      → ◌≡◌ {A = Result ℕ × World V} (failed status, w) (value j, u)
      → P
  failed-value status j w u e = cc

  accepted-IsWatching :
      (version : ℕ) (has_callback granted listed stopped : Bool) (w : World V) (id : ℕ)
      (u : World V)
      → wait_for_change version has_callback granted listed stopped w ≡ (value id, u)
      → IsWatching version id u
  accepted-IsWatching version has_callback granted listed stopped w id u e =
      elim (wait_for_change-cases version has_callback granted listed stopped w) [
        | inl (status, s, _, k) ↦ failed-value status id _ u (sym k ∙ e)
        | inr (inl (s, _, over, k)) ↦
            let (i, v) = same-value w.subscriptions.next id _ u (sym k ∙ e) in
            subst₂ (λ x y. IsWatching version x y) i v (λ p. cc)
        | inr (inr (inl (s, _, k))) ↦ failed-value ErrorCode.would_block id _ u (sym k ∙ e)
        | inr (inr (inr (s, _, same, live, _, k))) ↦
            let (i, v) = same-value w.subscriptions.next id _ u (sym k ∙ e) in
            subst₂ (λ x y. IsWatching version x y) i v
              (λ p. (listed-last w.subscriptions.next (kept w), same, live))
      ]

  -- A subscription that waits for a change after a version, whatever calls are made after it was
  -- accepted, is over, or the version is still the same and the value is open.
  pub wait_for_change-wakes :
      (version : ℕ) (has_callback granted listed stopped : Bool) (w : World V) (id : ℕ)
      (u : World V) (commands : List (Command V))
      → wait_for_change version has_callback granted listed stopped w ≡ (value id, u)
      → let end = (run commands u).1 in
        (is_pending id end.subscriptions ≡ false)
        ⊎ ((end.latest.version ≡ version) × (end.latest.closed ≡ false))
  wait_for_change-wakes version has_callback granted listed stopped w id u commands e =
      let end = (run commands u).1 in
      let h =
        run-IsWatching version id commands u
          (accepted-IsWatching version has_callback granted listed stopped w id u e) in
      elim (Bool-cases (is_pending id end.subscriptions)) [
        | inl p ↦ let (_, same, live) = h p in inr (same, live)
        | inr p ↦ inl p
      ]
