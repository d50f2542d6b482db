-- ===== src/Runtime/Channel/Waiting.antt =====
-- A subscription that `BoundedChannel` accepted stays registered until it ends.
use server_core.Base.{
  ℕ, ◌≡◌, inl, inr, Bool, true, false, Option, none, some, List, ltb, Bool-cases,
}
use server_core.Core.Error.{ErrorCode, Status}
use server_core.Core.Completion.{
  Subscriptions, issued, is_pending, source_complete, source_is_pending, bind_cancellation,
}
use server_core.Core.Completion.Settling.{
  source_complete-pending, bind_cancellation-pending, reset-pending, cancel-pending,
}
use server_core.Runtime.Channel.Steps.{
  send_locked-cases, popped, free_room-cases, receive_locked-cases, subscribe_read-cases,
  subscribe_write-cases, wait_for_read_ready-cases, wait_for_write_ready-cases, conclude-cases,
}
use server_core.Runtime.Channel.{
  Channel, World, push, send_locked, try_send, free_room, receive_locked, receive, close_locked,
  close, subscribe_read, subscribe_write, conclude, Command, send, take, shut, wait_read,
  wait_write, give_up, drop, perform,
}

-- The side of a channel that a subscription waits for.
pub data Side : Type 0 where
  reading : Side
  writing : (amount : ℕ) → Side

pub still-pending :
    (id : ℕ) (source : Option ℕ) (s : Subscriptions)
    → source ≡ some id
    → is_pending id s ≡ true
    → source_is_pending source s ≡ true
still-pending id source s e p = rw e p

-- A source that is completed and dropped takes no subscription with it.
dropped-IsHeld :
    (id : ℕ) (source : Option ℕ) (code : Status) (s : Subscriptions) {P : Type 0}
    → (is_pending id s ≡ true → source ≡ some id)
    → is_pending id (source_complete source code s) ≡ true
    → P
dropped-IsHeld id source code s h p =
    let (q, other) = source_complete-pending id source code s p in absurd (other (h q))

module _ {V : Type 0} where
  abbrev pub IsRegistered : Side → ℕ → Channel V → Type 0
  IsRegistered reading id c = c.read ≡ some id
  IsRegistered (writing amount) id c = (c.write ≡ some id) × (c.write_bytes ≡ amount)

  -- A subscription that is not over is registered.
  abbrev pub IsHeld : Side → ℕ → Channel V → Subscriptions → Type 0
  IsHeld side id c s = is_pending id s ≡ true → IsRegistered side id c

  kept-IsHeld :
      (side : Side) (id : ℕ) (source : Option ℕ) (code : Status) (c : Channel V) (s : Subscriptions)
      → IsHeld side id c s
      → IsHeld side id c (source_complete source code s)
  kept-IsHeld side id source code c s h p = h (source_complete-pending id source code s p).0

  pushed-IsHeld :
      (side : Side) (id : ℕ) (v : V) (n : ℕ) (c : Channel V) (s : Subscriptions)
      → IsHeld side id c s
      → IsHeld side id (push v n c) (source_complete c.read ErrorCode.ok s)
  pushed-IsHeld reading id v n c s h = dropped-IsHeld id c.read ErrorCode.ok s h
  pushed-IsHeld (writing amount) id v n c s h =
      λ p. h (source_complete-pending id c.read ErrorCode.ok s p).0

  send_locked-IsHeld :
      (side : Side) (id : ℕ) (v : V) (n : ℕ) (c : Channel V) (s : Subscriptions)
      → IsHeld side id c s
      → let out = send_locked v n c in IsHeld side id out.2 (source_complete out.1 ErrorCode.ok s)
  send_locked-IsHeld side id v n c s h = elim (send_locked-cases v n c) [
    | inl (e, _) ↦ rw e (kept-IsHeld side id none ErrorCode.ok c s h)
    | inr (inl (e, _)) ↦ rw e (kept-IsHeld side id none ErrorCode.ok c s h)
    | inr (inr (e, _, _)) ↦ rw e (pushed-IsHeld side id v n c s h)
  ]

  freed-IsHeld :
      (side : Side) (id : ℕ) (c : Channel V) (s : Subscriptions)
      → IsHeld side id c s
      → IsHeld side id (record c { write = none }) (source_complete c.write ErrorCode.ok s)
  freed-IsHeld reading id c s h = λ p. h (source_complete-pending id c.write ErrorCode.ok s p).0
  freed-IsHeld (writing amount) id c s h = dropped-IsHeld id c.write ErrorCode.ok s (λ p. (h p).0)

  popped-IsHeld :
      (side : Side) (id n : ℕ) (rest : List (V × ℕ)) (c : Channel V) (s : Subscriptions)
      → IsHeld side id c s
      → IsHeld side id (popped n rest c) s
  popped-IsHeld reading id n rest c s h = h
  popped-IsHeld (writing amount) id n rest c s h = h

  free_room-IsHeld :
      (side : Side) (id : ℕ) (v : V) (c : Channel V) (s : Subscriptions)
      → IsHeld side id c s
      → let out = free_room v c in IsHeld side id out.2 (source_complete out.1 ErrorCode.ok s)
  free_room-IsHeld side id v c s h = elim (free_room-cases v c) [
    | inl (e, _) ↦ rw e (freed-IsHeld side id c s h)
    | inr (e, _) ↦ rw e (kept-IsHeld side id none ErrorCode.ok c s h)
  ]

  receive_locked-IsHeld :
      (side : Side) (id : ℕ) (waits stopped : Bool) (c : Channel V) (s : Subscriptions)
      → IsHeld side id c s
      → let out = receive_locked waits stopped c in
        IsHeld side id out.2 (source_complete out.1 ErrorCode.ok s)
  receive_locked-IsHeld side id waits stopped c s h = elim (receive_locked-cases waits stopped c) [
    | inl (_, e) ↦ rw e (kept-IsHeld side id none ErrorCode.ok c s h)
    | inr (v, n, rest, q, e) ↦
        rw e (free_room-IsHeld side id v (popped n rest c) s (popped-IsHeld side id n rest c s h))
  ]

  conclude-IsHeld :
      (side : Side) (id : ℕ) (stopped : Bool) (j : ℕ) (s : Subscriptions) (status : Status)
      (c : Channel V)
      → IsHeld side id c s
      → let w = (conclude stopped j s (status, c)).1 in IsHeld side id w.channel w.subscriptions
  conclude-IsHeld side id stopped j s status c h = elim (conclude-cases stopped j s status c) [
    | inl (_, e) ↦ rw e (λ p. h (reset-pending id j s p))
    | inr (inl (_, e)) ↦ rw e (λ p. h (bind_cancellation-pending id stopped j s p))
    | inr (inr e) ↦ rw e (λ p. h (
        bind_cancellation-pending id stopped j s
          (source_complete-pending id (some j) status (bind_cancellation stopped j s) p).0))
  ]

  subscribe_read-IsHeld :
      (side : Side) (id j : ℕ) (c : Channel V) (s : Subscriptions)
      → IsHeld side id c s
      → IsHeld side id (subscribe_read j (source_is_pending c.read s) c).1 s
  subscribe_read-IsHeld side id j c s h =
      elim (subscribe_read-cases j (source_is_pending c.read s) c) [
        | inl (_, _, e) ↦ rw e h
        | inr (e, idle, _, _) ↦ rw e (registering side h idle)
      ]
    where
      registering :
          (side : Side)
          → IsHeld side id c s
          → source_is_pending c.read s ≡ false
          → IsHeld side id (record c { read = some j }) s
      registering reading h idle p = cc (still-pending id c.read s (h p) p, idle)
      registering (writing amount) h idle p = h p

  subscribe_write-IsHeld :
      (side : Side) (id amount j : ℕ) (c : Channel V) (s : Subscriptions)
      → IsHeld side id c s
      → IsHeld side id (subscribe_write amount j (source_is_pending c.write s) c).1 s
  subscribe_write-IsHeld side id amount j c s h =
      elim (subscribe_write-cases amount j (source_is_pending c.write s) c) [
        | inl (_, e) ↦ rw e h
        | inr (inl (idle, _, _, e)) ↦ rw e (registering side c.write h idle)
        | inr (inr (idle, e, _, _)) ↦ rw e (registering side (some j) h idle)
      ]
    where
      registering :
          (side : Side) (x : Option ℕ)
          → IsHeld side id c s
          → source_is_pending c.write s ≡ false
          → IsHeld side id (record c { write_bytes = amount; write = x }) s
      registering reading x h idle p = h p
      registering (writing other) x h idle p = cc (still-pending id c.write s (h p).0 p, idle)

  send-IsHeld :
      (side : Side) (id : ℕ) (granted : Bool) (v : Option V) (n : ℕ) (w : World V)
      → IsHeld side id w.channel w.subscriptions
      → let u = (try_send granted v n w).1 in IsHeld side id u.channel u.subscriptions
  unfolding try_send
  send-IsHeld side id granted none n w h = h
  send-IsHeld side id granted (some v) n w h =
      elim (Bool-cases (ltb w.channel.options.max_retained_bytes n)) [
        | inl l ↦ rw l h
        | inr l ↦ elim (Bool-cases granted) [
          | inl g ↦ rw (l, g) (send_locked-IsHeld side id v n w.channel w.subscriptions h)
          | inr g ↦ rw (l, g) h
        ]
      ]

  close-IsHeld :
      (side : Side) (id : ℕ) (w : World V)
      → IsHeld side id w.channel w.subscriptions
      → IsHeld side id (close w).channel (close w).subscriptions
  unfolding close close_locked
  close-IsHeld reading id w h p =
      dropped-IsHeld id w.channel.read _ w.subscriptions h
        (source_complete-pending id w.channel.write ErrorCode.closed _ p).0
  close-IsHeld (writing amount) id w h p =
      let (q, other) = source_complete-pending id w.channel.write ErrorCode.closed _ p in
      let (r, _) = source_complete-pending id w.channel.read _ w.subscriptions q in
      absurd (other (h r).0)

  pub perform-IsHeld :
      (side : Side) (id : ℕ) (command : Command V) (w : World V)
      → IsHeld side id w.channel w.subscriptions
      → let u = (perform command w).1 in IsHeld side id u.channel u.subscriptions
  unfolding perform receive
  perform-IsHeld side id (send granted v n) w h = send-IsHeld side id granted v n w h
  perform-IsHeld side id (take waits stopped) w h =
      receive_locked-IsHeld side id waits stopped w.channel w.subscriptions h
  perform-IsHeld side id shut w h = close-IsHeld side id w h
  perform-IsHeld side id (wait_read has_callback granted stopped) w h =
      elim (wait_for_read_ready-cases has_callback granted stopped w) [
        | inl (_, e) ↦ rw e h
        | inr e ↦ rw e (
            conclude-IsHeld side id stopped w.subscriptions.next (issued w.subscriptions) _ _ (
              subscribe_read-IsHeld side id w.subscriptions.next w.channel (issued w.subscriptions)
                h))
      ]
  perform-IsHeld side id (wait_write amount has_callback granted stopped) w h =
      elim (wait_for_write_ready-cases amount has_callback granted stopped w) [
        | inl (_, e) ↦ rw e h
        | inr e ↦ rw e (
            conclude-IsHeld side id stopped w.subscriptions.next (issued w.subscriptions) _ _ (
              subscribe_write-IsHeld side id amount w.subscriptions.next w.channel
                (issued w.subscriptions) h))
      ]
  perform-IsHeld side id (give_up j) w h = λ p. h (cancel-pending id j w.subscriptions p)
  perform-IsHeld side id (drop j) w h = λ p. h (reset-pending id j w.subscriptions p)
