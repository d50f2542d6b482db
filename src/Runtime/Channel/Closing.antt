-- ===== src/Runtime/Channel/Closing.antt =====
-- `Close` of `BoundedChannel` rejects what is sent and lets what was accepted drain.
use server_core.Base.{
  ℕ, ◌≡◌, refl, ap, ◌∙◌, inl, inr, Bool, true, false, Option, none, some, List, [], ◌∷◌, ◌++◌,
  append-nil, length, replicate, ltb, Bool-cases,
}
use server_core.Core.Error.{ErrorCode, Status, failed}
use server_core.Core.Completion.{Subscriptions, issued}
use server_core.Runtime.Channel.Steps.{
  send_locked-cases, popped, free_room-cases, receive_locked-cases, subscribe_read-cases,
  subscribe_write-cases, wait_for_read_ready-cases, wait_for_write_ready-cases, conclude-cases,
}
use server_core.Runtime.Channel.Delivery.{
  values, accepted_by, result_values, accepted, received, run-values,
}
use server_core.Runtime.Channel.{
  Channel, World, try_send, free_room, take_front, receive_locked, receive, try_receive,
  close_locked, close, subscribe_read, subscribe_write, conclude, Command, send, take, shut,
  wait_read, wait_write, give_up, drop, sent, perform, run,
}

module _ {V : Type 0} where
  send-refused :
      (granted : Bool) (v : Option V) (n : ℕ) (w : World V)
      → w.channel.closed ≡ true
      → let (status, u) = try_send granted v n w in
        (u.channel.closed ≡ true) × (accepted_by (send granted v n) (sent status) ≡ [])
  unfolding try_send
  send-refused granted none n w h = (h, refl)
  send-refused granted (some v) n w h =
      elim (Bool-cases (ltb w.channel.options.max_retained_bytes n)) [
        | inl l ↦ rw l (h, refl)
        | inr l ↦ elim (Bool-cases granted) [
          | inl g ↦
              rw (l, g)
                (elim (send_locked-cases v n w.channel) [
                  | inl (e, _) ↦ rw e (h, refl)
                  | inr (inl (e, _)) ↦ rw e (h, refl)
                  | inr (inr (_, _, live)) ↦ cc (h, live)
                ])
          | inr g ↦ rw (l, g) (h, refl)
        ]
      ]

  closed-free_room : (v : V) (c : Channel V) → (free_room v c).2.closed ≡ c.closed
  closed-free_room v c = elim (free_room-cases v c) [
    | inl (e, _) ↦ rw e refl
    | inr (e, _) ↦ rw e refl
  ]

  closed-receive :
      (waits stopped : Bool) (c : Channel V) → (receive_locked waits stopped c).2.closed ≡ c.closed
  closed-receive waits stopped c = elim (receive_locked-cases waits stopped c) [
    | inl (_, e) ↦ rw e refl
    | inr (v, n, rest, _, e) ↦ rw e (closed-free_room v (popped n rest c))
  ]

  closed-conclude :
      (stopped : Bool) (j : ℕ) (s : Subscriptions) (status : Status) (c : Channel V)
      → (conclude stopped j s (status, c)).1.channel.closed ≡ c.closed
  closed-conclude stopped j s status c = elim (conclude-cases stopped j s status c) [
    | inl (_, e) ↦ rw e refl
    | inr (inl (_, e)) ↦ rw e refl
    | inr (inr e) ↦ rw e refl
  ]

  closed-subscribe_read :
      (j : ℕ) (pending : Bool) (c : Channel V) → (subscribe_read j pending c).1.closed ≡ c.closed
  closed-subscribe_read j pending c = elim (subscribe_read-cases j pending c) [
    | inl (_, _, e) ↦ rw e refl
    | inr (e, _, _, _) ↦ rw e refl
  ]

  closed-subscribe_write :
      (amount j : ℕ) (pending : Bool) (c : Channel V)
      → (subscribe_write amount j pending c).1.closed ≡ c.closed
  closed-subscribe_write amount j pending c = elim (subscribe_write-cases amount j pending c) [
    | inl (_, e) ↦ rw e refl
    | inr (inl (_, _, _, e)) ↦ rw e refl
    | inr (inr (_, e, _, _)) ↦ rw e refl
  ]

  perform-closed :
      (command : Command V) (w : World V)
      → w.channel.closed ≡ true
      → let (answer, u) = perform command w in
        (u.channel.closed ≡ true) × (accepted_by command answer ≡ [])
  unfolding perform receive close close_locked
  perform-closed (send granted v n) w h = send-refused granted v n w h
  perform-closed (take waits stopped) w h = (closed-receive waits stopped w.channel ∙ h, refl)
  perform-closed shut w h = (refl, refl)
  perform-closed (wait_read has_callback granted stopped) w h =
      elim (wait_for_read_ready-cases has_callback granted stopped w) [
        | inl (_, e) ↦ rw e (h, refl)
        | inr e ↦ rw e (
          closed-conclude stopped w.subscriptions.next (issued w.subscriptions) _ _
              ∙ closed-subscribe_read w.subscriptions.next _ w.channel
              ∙ h,
          refl,
        )
      ]
  perform-closed (wait_write amount has_callback granted stopped) w h =
      elim (wait_for_write_ready-cases amount has_callback granted stopped w) [
        | inl (_, e) ↦ rw e (h, refl)
        | inr e ↦ rw e (
          closed-conclude stopped w.subscriptions.next (issued w.subscriptions) _ _
              ∙ closed-subscribe_write amount w.subscriptions.next _ w.channel
              ∙ h,
          refl,
        )
      ]
  perform-closed (give_up id) w h = (h, refl)
  perform-closed (drop id) w h = (h, refl)

  run-closed :
      (commands : List (Command V)) (w : World V)
      → w.channel.closed ≡ true
      → let (trace, u) = run commands w in (u.channel.closed ≡ true) × (accepted trace ≡ [])
  unfolding run
  run-closed [] w h = (h, refl)
  run-closed (command ∷ commands) w h =
      let (live, refused) = perform-closed command w h in
      let (still, later) = run-closed commands (perform command w).1 live in
      (still, rw (refused, later) refl)

  receive-front :
      (v : V) (n : ℕ) (rest : List (V × ℕ)) (c : Channel V)
      → c.queue ≡ (v, n) ∷ rest
      → let out = receive_locked false false c in
        (result_values out.0 ≡ v ∷ []) × (out.2.queue ≡ rest)
  unfolding receive_locked take_front
  receive-front v n rest c q = rw q (elim (free_room-cases v (popped n rest c)) [
    | inl (e, _) ↦ rw e (refl, refl)
    | inr (e, _) ↦ rw e (refl, refl)
  ])

  -- As many receives as values wait hand over all of them.
  drains :
      (queue : List (V × ℕ)) (w : World V)
      → w.channel.queue ≡ queue
      → let (trace, u) = run (replicate (length queue) (take false false)) w in
        (received trace ≡ values queue) × (u.channel.queue ≡ [])
  unfolding run perform receive
  drains [] w q = (refl, q)
  drains ((v, n) ∷ rest) w q =
      let (front, left) = receive-front v n rest w.channel q in
      let (more, nothing) = drains rest (receive false false w).1 left in
      (rw (front, more) refl, nothing)

  receive-nothing :
      (w : World V)
      → w.channel.queue ≡ []
      → w.channel.closed ≡ true
      → (try_receive w).0 ≡ failed ErrorCode.closed
  unfolding receive receive_locked take_front
  receive-nothing w q h = rw (q, h) refl

  -- After `Close`, whatever calls are made, as many receives as values are left hand over all that
  -- was accepted before, in order and nothing else, and the next receive reports Closed.
  pub close-drains :
      (commands : List (Command V)) (w : World V)
      → let (trace, u) = run commands (close w) in
        let (rest, end) = run (replicate (length u.channel.queue) (take false false)) u in
        (received trace ++ received rest ≡ values w.channel.queue)
        × ((try_receive end).0 ≡ failed ErrorCode.closed)
  unfolding close close_locked
  close-drains commands w =
      let (trace, u) = run commands (close w) in
      let (live, refused) = run-closed commands (close w) refl in
      let receives = replicate (length u.channel.queue) (take false false) in
      let (all, nothing) = drains u.channel.queue u refl in
      (
        ap (λ t. received trace ++ t) all
            ∙ run-values commands (close w)
            ∙ ap (λ t. values w.channel.queue ++ t) refused
            ∙ append-nil (values w.channel.queue),
        receive-nothing (run receives u).1 nothing (run-closed receives u live).0,
      )
