-- ===== src/Runtime/Channel/Liveness.antt =====
-- No wakeup of `BoundedChannel` is lost: a subscription that a call accepted is over as soon as there is
-- something to do for its side.
use server_core.Base.{
  ℕ, ◌^◌, ◌<◌, ◌≡◌, refl, sym, subst, subst₂, ◌∙◌, ◌⊎◌, inl, inr, Bool, true, false, some, List, [],
  ◌∷◌, arith, Bool-cases,
}
use server_core.Core.Error.{ErrorCode, Status, Result, value, failed}
use server_core.Core.Completion.{Subscriptions, issued, is_pending, bind_cancellation}
use server_core.Core.Completion.Settling.{source_complete-pending}
use server_core.Runtime.Channel.Steps.{
  subscribe_read-cases, subscribe_write-cases, wait_for_read_ready-cases,
  wait_for_write_ready-cases, conclude-cases,
}
use server_core.Runtime.Channel.Wakeups.{IsSettled, Run-IsSettled, fresh-IsSettled}
use server_core.Runtime.Channel.Calls.{perform-Run}
use server_core.Runtime.Channel.Waiting.{
  Side, reading, writing, IsRegistered, IsHeld, still-pending, perform-IsHeld,
}
use server_core.Runtime.Channel.{
  Options, Channel, World, fresh, can_send, subscribe_read, subscribe_write, conclude,
  wait_for_read_ready, wait_for_write_ready, Command, perform, run,
}

module _ {V : Type 0} where
  unfoldable pub wait_ready : Side → Bool → Bool → Bool → World V → Result ℕ × World V
  wait_ready reading has_callback granted stopped w =
      wait_for_read_ready has_callback granted stopped w
  wait_ready (writing amount) has_callback granted stopped w =
      wait_for_write_ready amount has_callback granted stopped w

  -- There is nothing to take, or no room; the channel is open.
  abbrev pub HasNothing : Side → Channel V → Type 0
  HasNothing reading c = (c.queue ≡ []) × (c.closed ≡ false)
  HasNothing (writing amount) c = (can_send amount c ≡ false) × (c.closed ≡ false)

  run-IsHeld :
      (side : Side) (id : ℕ) (commands : List (Command V)) (w : World V)
      → IsHeld side id w.channel w.subscriptions
      → let u = (run commands w).1 in IsHeld side id u.channel u.subscriptions
  unfolding run
  run-IsHeld side id [] w h = h
  run-IsHeld side id (command ∷ commands) w h =
      run-IsHeld side id commands (perform command w).1 (perform-IsHeld side id command w h)

  pub run-IsSettled :
      (commands : List (Command V)) (w : World V) → IsSettled w → IsSettled (run commands w).1
  unfolding run
  run-IsSettled [] w t = t
  run-IsSettled (command ∷ commands) w t =
      run-IsSettled commands (perform command w).1 (Run-IsSettled (perform-Run command w) t)

  same-value :
      (i j : ℕ) (w u : World V)
      → ◌≡◌ {A = Result ℕ × World V} (value i, w) (value j, u)
      → (i ≡ j) × (w ≡ u)
  same-value i j w u e = ground (arith, e)

  failed-value :
      (status : Status) (j : ℕ) (w u : World V) {P : Type 0}
      → ◌≡◌ {A = Result ℕ × World V} (failed status, w) (value j, u)
      → P
  failed-value status j w u e = cc

  -- What a call that accepted the subscription leaves.
  concluded-IsHeld :
      (side : Side) (stopped : Bool) (j id : ℕ) (s : Subscriptions) (status : Status)
      (c : Channel V) (u : World V)
      → (status ≡ ErrorCode.would_block → IsRegistered side j c)
      → conclude stopped j s (status, c) ≡ (value id, u)
      → IsHeld side id u.channel u.subscriptions
  concluded-IsHeld side stopped j id s status c u h e = elim (conclude-cases stopped j s status c) [
    | inl (_, k) ↦ failed-value status id _ u (sym k ∙ e)
    | inr (inl (b, k)) ↦
        let (i, w) = same-value j id _ u (sym k ∙ e) in
        subst₂ (λ x y. IsHeld side x y.channel y.subscriptions) i w (λ _. h b)
    | inr (inr k) ↦
        let (i, w) = same-value j id _ u (sym k ∙ e) in
        subst₂ (λ x y. IsHeld side x y.channel y.subscriptions) i w
          (λ p.
            absurd (
              (source_complete-pending j (some j) status (bind_cancellation stopped j s) p).1 refl))
  ]

  read-IsHeld :
      (has_callback granted stopped : Bool) (id : ℕ) (w u : World V)
      → wait_for_read_ready has_callback granted stopped w ≡ (value id, u)
      → IsHeld reading id u.channel u.subscriptions
  read-IsHeld has_callback granted stopped id w u e =
      elim (wait_for_read_ready-cases has_callback granted stopped w) [
        | inl (status, k) ↦ failed-value status id w u (sym k ∙ e)
        | inr k ↦
            concluded-IsHeld reading stopped w.subscriptions.next id (issued w.subscriptions) _ _ u
              (registered w.subscriptions.next _ w.channel) (sym k ∙ e)
      ]
    where
      registered :
          (j : ℕ) (pending : Bool) (c : Channel V)
          → (subscribe_read j pending c).0 ≡ ErrorCode.would_block
          → IsRegistered reading j (subscribe_read j pending c).1
      registered j pending c = elim (subscribe_read-cases j pending c) [
        | inl (_, other, k) ↦ rw k (λ b. absurd (other b))
        | inr (k, _, _, _) ↦ rw k (λ _. refl)
      ]

  write-IsHeld :
      (amount : ℕ) (has_callback granted stopped : Bool) (id : ℕ) (w u : World V)
      → wait_for_write_ready amount has_callback granted stopped w ≡ (value id, u)
      → IsHeld (writing amount) id u.channel u.subscriptions
  write-IsHeld amount has_callback granted stopped id w u e =
      elim (wait_for_write_ready-cases amount has_callback granted stopped w) [
        | inl (status, k) ↦ failed-value status id w u (sym k ∙ e)
        | inr k ↦
            concluded-IsHeld (writing amount) stopped w.subscriptions.next id
              (issued w.subscriptions) _ _ u (registered w.subscriptions.next _ w.channel)
              (sym k ∙ e)
      ]
    where
      registered :
          (j : ℕ) (pending : Bool) (c : Channel V)
          → (subscribe_write amount j pending c).0 ≡ ErrorCode.would_block
          → IsRegistered (writing amount) j (subscribe_write amount j pending c).1
      registered j pending c = elim (subscribe_write-cases amount j pending c) [
        | inl (_, k) ↦ rw k (λ b. cc)
        | inr (inl (_, _, other, k)) ↦ rw k (λ b. absurd (other b))
        | inr (inr (_, k, _, _)) ↦ rw k (λ _. (refl, refl))
      ]

  wait_ready-IsHeld :
      (side : Side) (has_callback granted stopped : Bool) (id : ℕ) (w u : World V)
      → wait_ready side has_callback granted stopped w ≡ (value id, u)
      → IsHeld side id u.channel u.subscriptions
  unfolding wait_ready
  wait_ready-IsHeld reading has_callback granted stopped id w u e =
      read-IsHeld has_callback granted stopped id w u e
  wait_ready-IsHeld (writing amount) has_callback granted stopped id w u e =
      write-IsHeld amount has_callback granted stopped id w u e

  wait_ready-IsSettled :
      (side : Side) (has_callback granted stopped : Bool) (w : World V)
      → IsSettled w
      → IsSettled (wait_ready side has_callback granted stopped w).1
  unfolding wait_ready perform
  wait_ready-IsSettled reading has_callback granted stopped w t =
      Run-IsSettled (perform-Run (Command.wait_read has_callback granted stopped) w) t
  wait_ready-IsSettled (writing amount) has_callback granted stopped w t =
      Run-IsSettled (perform-Run (Command.wait_write amount has_callback granted stopped) w) t

  held-HasNothing :
      (side : Side) (id : ℕ) (w : World V)
      → IsSettled w
      → IsHeld side id w.channel w.subscriptions
      → (is_pending id w.subscriptions ≡ false) ⊎ HasNothing side w.channel
  held-HasNothing side id w t h = elim (Bool-cases (is_pending id w.subscriptions)) [
    | inl p ↦ inr (nothing side h p)
    | inr p ↦ inl p
  ]
    where
      nothing :
          (side : Side)
          → IsHeld side id w.channel w.subscriptions
          → is_pending id w.subscriptions ≡ true
          → HasNothing side w.channel
      nothing reading h p = t.reader (still-pending id w.channel.read w.subscriptions (h p) p)
      nothing (writing amount) h p =
          let (registered, asked) = h p in
          let (full, live) =
            t.writer (still-pending id w.channel.write w.subscriptions registered p) in
          (subst (λ n. can_send n w.channel ≡ false) asked full, live)

  -- A subscription that was accepted for a side of a channel, after any calls since the channel was
  -- made and before any further calls, has its end (its callback was called, or its owner reset it) or
  -- there is still nothing to do for that side and the channel is open.
  pub wait_ready-wakes :
      (o : Options) (s : Subscriptions) (before later : List (Command V)) (side : Side)
      (has_callback granted stopped : Bool) (id : ℕ) (u : World V)
      → o.max_retained_bytes < 2 ^ 64
      → wait_ready side has_callback granted stopped
          (run before (record { channel = fresh o; subscriptions = s })).1
        ≡ (value id, u)
      → let w = (run later u).1 in
        (is_pending id w.subscriptions ≡ false) ⊎ HasNothing side w.channel
  wait_ready-wakes o s before later side has_callback granted stopped id u h e =
      let start = (run before (record { channel = fresh o; subscriptions = s })).1 in
      let settled = run-IsSettled before _ (fresh-IsSettled o s h) in
      let accepted =
        subst (λ x. IsSettled x.1) e
          (wait_ready-IsSettled side has_callback granted stopped start settled) in
      held-HasNothing side id (run later u).1 (run-IsSettled later u accepted) (
        run-IsHeld side id later u
          (wait_ready-IsHeld side has_callback granted stopped id start u e))
