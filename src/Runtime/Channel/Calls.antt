-- ===== src/Runtime/Channel/Calls.antt =====
-- The calls of `BoundedChannel` are made of critical sections.
use server_core.Base.{
  ℕ, inl, inr, Bool, true, false, Option, none, some, ltb, if◌then◌else◌, Bool-cases,
}
use server_core.Core.Error.{ErrorCode, Status}
use server_core.Core.Completion.{
  called, discarded, Subscriptions, issued, complete, source_complete, bind_cancellation, reset,
  cancel,
}
use server_core.Runtime.Channel.Steps.{
  wait_for_read_ready-cases, wait_for_write_ready-cases, conclude-cases,
}
use server_core.Runtime.Channel.Wakeups.{
  lock_send, lock_receive, lock_close, lock_read, lock_write, end_subscription, new_subscription,
  Run, here, after,
}
use server_core.Runtime.Channel.{
  Channel, World, send_locked, try_send, receive_locked, receive, close, conclude, Command, send,
  take, shut, wait_read, wait_write, give_up, drop, perform, is_empty,
}

module _ {V : Type 0} where
  completed-Run :
      {w u : World V} (source : Option ℕ) (code : Status)
      → Run w u
      → Run w (record u { subscriptions = source_complete source code u.subscriptions })
  unfolding source_complete complete
  completed-Run none code r = r
  completed-Run (some id) code r = after r (end_subscription id (called code))

  bound-Run :
      {w u : World V} (stopped : Bool) (id : ℕ)
      → Run w u
      → Run w (record u { subscriptions = bind_cancellation stopped id u.subscriptions })
  unfolding bind_cancellation complete
  bound-Run true id r = after r (end_subscription id (called ErrorCode.cancelled))
  bound-Run false id r = r

  conclude-Run :
      {w : World V} (stopped : Bool) (id : ℕ) (s : Subscriptions) (status : Status) (c : Channel V)
      → Run w (record { channel = c; subscriptions = s })
      → Run w (conclude stopped id s (status, c)).1
  unfolding reset
  conclude-Run stopped id s status c r = elim (conclude-cases stopped id s status c) [
    | inl (_, e) ↦ rw e (after r (end_subscription id discarded))
    | inr (inl (_, e)) ↦ rw e (bound-Run stopped id r)
    | inr (inr e) ↦ rw e (completed-Run (some id) status (bound-Run stopped id r))
  ]

  send-Run :
      (granted : Bool) (v : Option V) (n : ℕ) (w : World V) → Run w (try_send granted v n w).1
  unfolding try_send
  send-Run granted none n w = here
  send-Run granted (some v) n w = elim (Bool-cases (ltb w.channel.options.max_retained_bytes n)) [
    | inl h ↦ rw h here
    | inr h ↦ elim (Bool-cases granted) [
      | inl g ↦
          rw (h, g)
            (completed-Run (send_locked v n w.channel).1 ErrorCode.ok (after here (lock_send v n)))
      | inr g ↦ rw (h, g) here
    ]
  ]

  -- Every call is a sequence of critical sections and ends of subscriptions.
  pub perform-Run : (command : Command V) (w : World V) → Run w (perform command w).1
  unfolding perform receive close cancel complete reset
  perform-Run (send granted v n) w = send-Run granted v n w
  perform-Run (take waits stopped) w =
      completed-Run (receive_locked waits stopped w.channel).1 ErrorCode.ok
        (after here (lock_receive waits stopped))
  perform-Run shut w = completed-Run w.channel.write ErrorCode.closed (
      completed-Run w.channel.read
        (if is_empty w.channel.queue then ErrorCode.closed else ErrorCode.ok)
        (after here lock_close))
  perform-Run (wait_read has_callback granted stopped) w =
      elim (wait_for_read_ready-cases has_callback granted stopped w) [
        | inl (_, e) ↦ rw e here
        | inr e ↦ rw e (
            conclude-Run stopped w.subscriptions.next (issued w.subscriptions) _ _
              (after (after here (new_subscription _)) (lock_read w.subscriptions.next)))
      ]
  perform-Run (wait_write amount has_callback granted stopped) w =
      elim (wait_for_write_ready-cases amount has_callback granted stopped w) [
        | inl (_, e) ↦ rw e here
        | inr e ↦ rw e (
            conclude-Run stopped w.subscriptions.next (issued w.subscriptions) _ _
              (after (after here (new_subscription _)) (lock_write amount w.subscriptions.next)))
      ]
  perform-Run (give_up id) w = after here (end_subscription id (called ErrorCode.cancelled))
  perform-Run (drop id) w = after here (end_subscription id discarded)
