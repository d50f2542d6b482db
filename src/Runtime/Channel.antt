-- ===== src/Runtime/Channel.antt =====
-- `BoundedChannel` of include/ServerCore/Runtime/Channel.h. The part of an operation that runs under the
-- lock is a function of its own, which gives back the source that the operation completes afterwards.
-- A wait ends with the value that its predicate has in the state that it returns in, so that this is
-- the state which a receive starts from. An empty handle, whose operations do nothing but report
-- InvalidArgument, is not modelled. Whether memory is granted is an argument.
pub mod Steps
pub mod Bounds
pub mod Delivery
pub mod Wakeups
pub mod Calls
pub mod Waiting
pub mod Liveness
pub mod Closing
use server_core.Base.{
  ℕ, ◌≡◌, Bool, true, false, not, ◌&&◌, ◌||◌, Option, none, some, List, [], ◌∷◌, ◌++◌, length, ltb,
  leb, ◌==◌, if◌then◌else◌,
}
use server_core.Base.Words.{size_add, size_sub}
use server_core.Core.Error.{ErrorCode, Status, is_ok, allocation_failure, Result, value, failed}
use server_core.Core.Completion.{
  Subscriptions, create, reset, bind_cancellation, source_complete, source_is_pending, cancel,
}

pub record Options : Type 0 where
  pub max_messages : ℕ
  pub max_retained_bytes : ℕ

-- `State`, an entry of whose queue is a value and its declared bytes.
pub record Channel (V : Type 0) : Type 0 where
  pub options : Options
  pub queue : List (V × ℕ)
  pub bytes : ℕ
  pub write_bytes : ℕ
  pub closed : Bool
  pub read : Option ℕ
  pub write : Option ℕ

-- A channel among the subscriptions of the program.
pub record World (V : Type 0) : Type 0 where
  pub channel : Channel V
  pub subscriptions : Subscriptions

abbrev pub is_empty {ℓ} : {A : Type ℓ} → List A → Bool
is_empty [] = true
is_empty (x ∷ xs) = false

module _ {V : Type 0} where
  abbrev pub fresh : Options → Channel V
  fresh o = record {
    options = o;
    queue = [];
    bytes = 0;
    write_bytes = 0;
    closed = false;
    read = none;
    write = none;
  }

  unfoldable pub create_channel : Bool → Options → Result (Channel V)
  create_channel granted o =
      if o.max_messages == 0 || o.max_retained_bytes == 0
      then failed ErrorCode.invalid_argument
      else if not granted
      then failed allocation_failure
      else value (fresh o)

  unfoldable pub can_send : ℕ → Channel V → Bool
  can_send amount c =
      ltb (length c.queue) c.options.max_messages
      && leb amount (size_sub c.options.max_retained_bytes c.bytes)

  abbrev pub push : V → ℕ → Channel V → Channel V
  push v n c = record c { queue = c.queue ++ (v, n) ∷ []; bytes = size_add c.bytes n; read = none }

  unfoldable pub send_locked : V → ℕ → Channel V → Status × Option ℕ × Channel V
  unfolding can_send
  send_locked v n c =
      if c.closed
      then (ErrorCode.closed, none, c)
      else if not (can_send n c)
      then (ErrorCode.would_block, none, c)
      else (ErrorCode.ok, c.read, push v n c)

  -- After the lock: the waiting side is told.
  abbrev pub tell : {A : Type 0} → A × Option ℕ × Channel V → Subscriptions → A × World V
  tell (answer, ready, c) s =
      (answer, record { channel = c; subscriptions = source_complete ready ErrorCode.ok s })

  -- A null value is `none`.
  unfoldable pub try_send : Bool → Option V → ℕ → World V → Status × World V
  unfolding send_locked source_complete
  try_send granted none n w = (ErrorCode.invalid_argument, w)
  try_send granted (some v) n w =
      if ltb w.channel.options.max_retained_bytes n
      then (ErrorCode.too_large, w)
      else if not granted
      then (allocation_failure, w)
      else tell (send_locked v n w.channel) w.subscriptions

  abbrev pub available : Channel V → Bool
  available c = c.closed || not (is_empty c.queue)

  -- The rest of a receive that took `v` out.
  unfoldable pub free_room : V → Channel V → Result V × Option ℕ × Channel V
  unfolding can_send
  free_room v c =
      if can_send c.write_bytes c
      then (value v, c.write, record c { write = none })
      else (value v, none, c)

  unfoldable pub take_front : List (V × ℕ) → Channel V → Result V × Option ℕ × Channel V
  unfolding free_room
  take_front [] c = (failed (if c.closed then ErrorCode.closed else ErrorCode.would_block), none, c)
  take_front ((v, n) ∷ rest) c = free_room v (record c { queue = rest; bytes = size_sub c.bytes n })

  -- Whether the call waits, and whether its token is stopped.
  unfoldable pub receive_locked : Bool → Bool → Channel V → Result V × Option ℕ × Channel V
  unfolding take_front
  receive_locked waits stopped c =
      if waits && not (available c)
      then (failed (if stopped then ErrorCode.cancelled else ErrorCode.timeout), none, c)
      else if stopped
      then (failed ErrorCode.cancelled, none, c)
      else take_front c.queue c

  unfoldable pub receive : Bool → Bool → World V → Result V × World V
  unfolding receive_locked source_complete
  receive waits stopped w = tell (receive_locked waits stopped w.channel) w.subscriptions

  abbrev pub try_receive : World V → Result V × World V
  try_receive w = receive false false w

  unfoldable pub close_locked : Channel V → Channel V
  close_locked c = record c { closed = true; read = none; write = none }

  unfoldable pub close : World V → World V
  unfolding close_locked source_complete
  close w =
      let told = if is_empty w.channel.queue then ErrorCode.closed else ErrorCode.ok in
      record {
        channel = close_locked w.channel;
        subscriptions =
            source_complete w.channel.write ErrorCode.closed
              (source_complete w.channel.read told w.subscriptions);
      }

  -- The critical section of `Subscribe`; WouldBlock is a subscription that waits.
  unfoldable pub subscribe_write : ℕ → ℕ → Bool → Channel V → Status × Channel V
  unfolding can_send
  subscribe_write amount id pending c =
      if pending
      then (ErrorCode.already_exists, c)
      else if c.closed
      then (ErrorCode.closed, record c { write_bytes = amount })
      else if can_send amount c
      then (ErrorCode.ok, record c { write_bytes = amount })
      else (ErrorCode.would_block, record c { write_bytes = amount; write = some id })

  unfoldable pub subscribe_read : ℕ → Bool → Channel V → Status × Channel V
  subscribe_read id pending c =
      if pending
      then (ErrorCode.already_exists, c)
      else if not (is_empty c.queue)
      then (ErrorCode.ok, c)
      else if c.closed
      then (ErrorCode.closed, c)
      else (ErrorCode.would_block, record c { read = some id })

  -- The end of `Subscribe`: a subscription that is refused goes out of scope, one that need not wait
  -- is completed.
  unfoldable pub conclude : Bool → ℕ → Subscriptions → Status × Channel V → Result ℕ × World V
  unfolding reset bind_cancellation source_complete
  conclude stopped id s (ErrorCode.already_exists, c) =
      (failed ErrorCode.already_exists, record { channel = c; subscriptions = reset id s })
  conclude stopped id s (ErrorCode.would_block, c) =
      (value id, record { channel = c; subscriptions = bind_cancellation stopped id s })
  conclude stopped id s (status, c) = (
    value id,
    record {
      channel = c;
      subscriptions = source_complete (some id) status (bind_cancellation stopped id s);
    },
  )

  abbrev subscribe_created :
      Channel V
      → (ℕ → Subscriptions → Result ℕ × World V)
      → Result ℕ × Subscriptions
      → Result ℕ × World V
  subscribe_created c body (failed e, s) = (failed e, record { channel = c; subscriptions = s })
  subscribe_created c body (value id, s) = body id s

  -- Whether there is a callback, whether memory is granted, whether the token is stopped.
  unfoldable pub wait_for_read_ready : Bool → Bool → Bool → World V → Result ℕ × World V
  unfolding create conclude subscribe_read
  wait_for_read_ready has_callback granted stopped w =
      subscribe_created w.channel
        (λ id s.
          conclude stopped id s (subscribe_read id (source_is_pending w.channel.read s) w.channel))
        (create has_callback granted w.subscriptions)

  unfoldable pub wait_for_write_ready : ℕ → Bool → Bool → Bool → World V → Result ℕ × World V
  unfolding create conclude subscribe_write
  wait_for_write_ready amount has_callback granted stopped w =
      if ltb w.channel.options.max_retained_bytes amount
      then (failed ErrorCode.too_large, w)
      else subscribe_created w.channel
          (λ id s.
            conclude stopped id s
              (subscribe_write amount id (source_is_pending w.channel.write s) w.channel))
          (create has_callback granted w.subscriptions)

  -- `~State`
  unfoldable pub destroy : World V → Subscriptions
  unfolding source_complete
  destroy w =
      source_complete w.channel.write ErrorCode.closed
        (source_complete w.channel.read ErrorCode.closed w.subscriptions)

  abbrev pub size : Channel V → ℕ
  size c = length c.queue

  abbrev pub retained_bytes : Channel V → ℕ
  retained_bytes c = c.bytes

-- The calls of the parts that hold a channel, the cancellation and the reset of subscriptions included.
pub data Command (V : Type 0) : Type 0 where
  send : (granted : Bool) (v : Option V) (bytes : ℕ) → Command V
  take : (waits stopped : Bool) → Command V
  shut : Command V
  wait_read : (has_callback granted stopped : Bool) → Command V
  wait_write : (amount : ℕ) (has_callback granted stopped : Bool) → Command V
  give_up : (id : ℕ) → Command V
  drop : (id : ℕ) → Command V

pub data Answer (V : Type 0) : Type 0 where
  sent : Status → Answer V
  taken : Result V → Answer V
  waiting : Result ℕ → Answer V
  done : Answer V

module _ {V : Type 0} where
  unfoldable pub perform : Command V → World V → Answer V × World V
  unfolding try_send receive close wait_for_read_ready wait_for_write_ready cancel reset
  perform (send granted v bytes) w = let out = try_send granted v bytes w in (sent out.0, out.1)
  perform (take waits stopped) w = let out = receive waits stopped w in (taken out.0, out.1)
  perform shut w = (done, close w)
  perform (wait_read has_callback granted stopped) w =
      let out = wait_for_read_ready has_callback granted stopped w in (waiting out.0, out.1)
  perform (wait_write amount has_callback granted stopped) w =
      let out = wait_for_write_ready amount has_callback granted stopped w in (waiting out.0, out.1)
  perform (give_up id) w = (done, record w { subscriptions = (cancel id w.subscriptions).1 })
  perform (drop id) w = (done, record w { subscriptions = reset id w.subscriptions })

  unfoldable pub run : List (Command V) → World V → List (Command V × Answer V) × World V
  unfolding perform
  run [] w = ([], w)
  run (command ∷ commands) w =
      let (answer, next) = perform command w in
      let (trace, end) = run commands next in ((command, answer) ∷ trace, end)
