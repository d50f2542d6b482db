-- ===== src/Runtime/Channel/Delivery.antt =====
-- What `BoundedChannel` hands over: every value that it accepted, once and in order.
use server_core.Base.{
  ℕ, ◌≡◌, refl, sym, ap, ◌∙◌, inl, inr, Bool, Option, none, some, List, [], ◌∷◌, ◌++◌, append-nil,
  append_assoc, ltb, Bool-cases,
}
use server_core.Core.Error.{ErrorCode, Status, Result, value, failed}
use server_core.Core.Completion.{Subscriptions, issued}
use server_core.Runtime.Channel.Steps.{
  send_locked-cases, popped, free_room-cases, receive_locked-cases, subscribe_read-cases,
  subscribe_write-cases, wait_for_read_ready-cases, wait_for_write_ready-cases, conclude-cases,
}
use server_core.Runtime.Channel.{
  Channel, World, try_send, free_room, receive_locked, receive, close_locked, close, subscribe_read,
  subscribe_write, conclude, Command, send, take, shut, wait_read, wait_write, give_up, drop,
  Answer, sent, taken, perform, run,
}

module _ {V : Type 0} where
  -- The values that wait.
  abbrev pub values : List (V × ℕ) → List V
  values [] = []
  values ((v, n) ∷ queue) = v ∷ values queue

  values-append : (xs ys : List (V × ℕ)) → values (xs ++ ys) ≡ values xs ++ values ys
  values-append [] ys = refl
  values-append ((v, n) ∷ xs) ys = ap (λ t. v ∷ t) (values-append xs ys)

  abbrev pub if_ok : Status → List V → List V
  if_ok ErrorCode.ok vs = vs
  if_ok _ vs = []

  -- What one call accepted, and what it handed over.
  abbrev pub accepted_by : Command V → Answer V → List V
  accepted_by (send granted (some v) bytes) (sent status) = if_ok status (v ∷ [])
  accepted_by _ _ = []

  abbrev pub result_values : Result V → List V
  result_values (value v) = v ∷ []
  result_values (failed e) = []

  abbrev pub received_by : Answer V → List V
  received_by (taken r) = result_values r
  received_by _ = []

  abbrev pub accepted : List (Command V × Answer V) → List V
  accepted [] = []
  accepted ((command, answer) ∷ trace) = accepted_by command answer ++ accepted trace

  abbrev pub received : List (Command V × Answer V) → List V
  received [] = []
  received ((command, answer) ∷ trace) = received_by answer ++ received trace

  send-values :
      (granted : Bool) (v : Option V) (n : ℕ) (w : World V)
      → let (status, u) = try_send granted v n w in
        values u.channel.queue
        ≡ values w.channel.queue ++ accepted_by (send granted v n) (sent status)
  unfolding try_send
  send-values granted none n w = sym (append-nil (values w.channel.queue))
  send-values granted (some v) n w =
      elim (Bool-cases (ltb w.channel.options.max_retained_bytes n)) [
        | inl l ↦ rw l (sym (append-nil (values w.channel.queue)))
        | inr l ↦ elim (Bool-cases granted) [
          | inl g ↦
              rw (l, g)
                (elim (send_locked-cases v n w.channel) [
                  | inl (e, _) ↦ rw e (sym (append-nil (values w.channel.queue)))
                  | inr (inl (e, _)) ↦ rw e (sym (append-nil (values w.channel.queue)))
                  | inr (inr (e, _, _)) ↦ rw e (values-append w.channel.queue ((v, n) ∷ []))
                ])
          | inr g ↦ rw (l, g) (sym (append-nil (values w.channel.queue)))
        ]
      ]

  free_room-values :
      (v : V) (c : Channel V)
      → let out = free_room v c in result_values out.0 ++ values out.2.queue ≡ v ∷ values c.queue
  free_room-values v c = elim (free_room-cases v c) [
    | inl (e, _) ↦ rw e refl
    | inr (e, _) ↦ rw e refl
  ]

  receive-values :
      (waits stopped : Bool) (c : Channel V)
      → let out = receive_locked waits stopped c in
        result_values out.0 ++ values out.2.queue ≡ values c.queue
  receive-values waits stopped c = elim (receive_locked-cases waits stopped c) [
    | inl (_, e) ↦ rw e refl
    | inr (v, n, rest, q, e) ↦ rw e (free_room-values v (popped n rest c) ∙ ap values (sym q))
  ]

  queue-conclude :
      (stopped : Bool) (j : ℕ) (s : Subscriptions) (status : Status) (c : Channel V)
      → (conclude stopped j s (status, c)).1.channel.queue ≡ c.queue
  queue-conclude stopped j s status c = elim (conclude-cases stopped j s status c) [
    | inl (_, e) ↦ rw e refl
    | inr (inl (_, e)) ↦ rw e refl
    | inr (inr e) ↦ rw e refl
  ]

  queue-subscribe_read :
      (j : ℕ) (pending : Bool) (c : Channel V) → (subscribe_read j pending c).1.queue ≡ c.queue
  queue-subscribe_read j pending c = elim (subscribe_read-cases j pending c) [
    | inl (_, _, e) ↦ rw e refl
    | inr (e, _, _, _) ↦ rw e refl
  ]

  queue-subscribe_write :
      (amount j : ℕ) (pending : Bool) (c : Channel V)
      → (subscribe_write amount j pending c).1.queue ≡ c.queue
  queue-subscribe_write amount j pending c = elim (subscribe_write-cases amount j pending c) [
    | inl (_, e) ↦ rw e refl
    | inr (inl (_, _, _, e)) ↦ rw e refl
    | inr (inr (_, e, _, _)) ↦ rw e refl
  ]

  -- A call that neither sends nor receives leaves the queue.
  unmoved : (queue after : List (V × ℕ)) → after ≡ queue → values after ≡ values queue ++ []
  unmoved queue after e = ap values e ∙ sym (append-nil (values queue))

  perform-values :
      (command : Command V) (w : World V)
      → let (answer, u) = perform command w in
        received_by answer ++ values u.channel.queue
        ≡ values w.channel.queue ++ accepted_by command answer
  unfolding perform receive close close_locked
  perform-values (send granted v n) w = send-values granted v n w
  perform-values (take waits stopped) w =
      receive-values waits stopped w.channel ∙ sym (append-nil (values w.channel.queue))
  perform-values shut w = unmoved w.channel.queue _ refl
  perform-values (wait_read has_callback granted stopped) w =
      elim (wait_for_read_ready-cases has_callback granted stopped w) [
        | inl (_, e) ↦ rw e (unmoved w.channel.queue _ refl)
        | inr e ↦ rw e (
            unmoved w.channel.queue _ (
              queue-conclude stopped w.subscriptions.next (issued w.subscriptions) _ _
              ∙ queue-subscribe_read w.subscriptions.next _ w.channel))
      ]
  perform-values (wait_write amount has_callback granted stopped) w =
      elim (wait_for_write_ready-cases amount has_callback granted stopped w) [
        | inl (_, e) ↦ rw e (unmoved w.channel.queue _ refl)
        | inr e ↦ rw e (
            unmoved w.channel.queue _ (
              queue-conclude stopped w.subscriptions.next (issued w.subscriptions) _ _
              ∙ queue-subscribe_write amount w.subscriptions.next _ w.channel))
      ]
  perform-values (give_up id) w = unmoved w.channel.queue _ refl
  perform-values (drop id) w = unmoved w.channel.queue _ refl

  -- Whatever calls are made, the values that were handed over and those that still wait are, in order,
  -- those that waited before and those that were accepted since.
  pub run-values :
      (commands : List (Command V)) (w : World V)
      → let (trace, u) = run commands w in
        received trace ++ values u.channel.queue ≡ values w.channel.queue ++ accepted trace
  unfolding run
  run-values [] w = sym (append-nil (values w.channel.queue))
  run-values (command ∷ commands) w =
      let (answer, next) = perform command w in
      let (trace, u) = run commands next in
      append_assoc (received_by answer) (received trace) (values u.channel.queue)
      ∙ ap (λ t. received_by answer ++ t) (run-values commands next)
      ∙ sym (append_assoc (received_by answer) (values next.channel.queue) (accepted trace))
      ∙ ap (λ t. t ++ accepted trace) (perform-values command w)
      ∙ append_assoc (values w.channel.queue) (accepted_by command answer) (accepted trace)
