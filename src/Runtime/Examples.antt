-- ===== src/Runtime/Examples.antt =====
-- The parts of src/Runtime at concrete inputs.
use server_core.Base.{
  ◌+◌, map, All, ℕ, ◌≡◌, refl, ◌⊎◌, true, false, none, some, List, [], ◌∷◌, ◌++◌, arith, length,
  replicate,
}
use server_core.Core.Error.{ErrorCode, value, failed}
use server_core.Core.Completion.{Outcome, called, discarded, Subscriptions, is_pending}
use server_core.Core.Completion
use server_core.Runtime.Ticks.{Ticks, Round, fire_all}
use server_core.Runtime.Ticks.Counting.{IsAscending, IsPunctual, fire_all-counts}
use server_core.Runtime.LatestValue
use server_core.Runtime.LatestValue.{LatestOptions}
use server_core.Runtime.LatestValue.Versions.{last_of, IsLimited, run-IsLatest}
use server_core.Runtime.LatestValue.Watchers.{wait_for_change-wakes}
use server_core.Runtime.Channel.{
  Options, World, fresh, create_channel, subscribe_read, try_receive, close, Command, send, take,
  wait_read, sent, taken, waiting, run,
}
use server_core.Runtime.Channel.Wakeups.{
  here, after, lock_read, IsSettled, create_channel-IsSettled,
}
use server_core.Runtime.Channel.Delivery.{values, accepted, received, run-values}
use server_core.Runtime.Channel.Waiting.{writing}
use server_core.Runtime.Channel.Liveness.{wait_ready, HasNothing, wait_ready-wakes}
use server_core.Runtime.Channel.Closing.{close-drains}

abbrev small : Options
small = record { max_messages = 2; max_retained_bytes = 10 }

abbrev new_world : World ℕ
new_world = record { channel = fresh small; subscriptions = Completion.empty }

abbrev put : ℕ → ℕ → Command ℕ
put v n = send true (some v) n

-- A reader waits, is told, and its value is taken; the third send finds no room.
abbrev session : List (Command ℕ)
session = wait_read true true false ∷ put 7 4 ∷ put 8 6 ∷ put 9 1 ∷ take false false ∷ put 9 1 ∷ []

session_trace :
    (run session new_world).0
    ≡ (wait_read true true false, waiting (value 0))
      ∷ (put 7 4, sent ErrorCode.ok)
      ∷ (put 8 6, sent ErrorCode.ok)
      ∷ (put 9 1, sent ErrorCode.would_block)
      ∷ (take false false, taken (value 7))
      ∷ (put 9 1, sent ErrorCode.ok)
      ∷ []
unfolding run
session_trace = refl

session_end :
    let w = (run session new_world).1 in
    (w.subscriptions.settled ≡ (0, called ErrorCode.ok) ∷ [])
    × (w.channel.queue ≡ (8, 6) ∷ (9, 1) ∷ [])
    × (w.channel.bytes ≡ 7)
unfolding run
session_end = (refl, refl, refl)

run-values_example :
    received (run session new_world).0 ++ values (run session new_world).1.channel.queue
    ≡ accepted (run session new_world).0
run-values_example = run-values session new_world

close-drains_example :
    let w = (run session new_world).1 in
    let (trace, u) = run (put 5 1 ∷ take false false ∷ []) (close w) in
    let (rest, end) = run (replicate (length u.channel.queue) (take false false)) u in
    (received trace ++ received rest ≡ values w.channel.queue)
    × ((try_receive end).0 ≡ failed ErrorCode.closed)
close-drains_example = close-drains (put 5 1 ∷ take false false ∷ []) (run session new_world).1

close-drains_values :
    received (run (put 5 1 ∷ take false false ∷ []) (close (run session new_world).1)).0 ≡ 8 ∷ []
unfolding run close
close-drains_values = refl

-- A writer of six bytes waits behind a full channel.
abbrev filled : List (Command ℕ)
filled = put 7 4 ∷ put 8 6 ∷ []

wait_ready-wakes_example :
    let w =
      (run
        (take false false ∷ [])
        (wait_ready (writing 6) true true false (run filled new_world).1).1).1 in
    (is_pending 0 w.subscriptions ≡ false) ⊎ HasNothing (writing 6) w.channel
unfolding wait_ready run
wait_ready-wakes_example =
    wait_ready-wakes small Completion.empty filled (take false false ∷ []) (writing 6) true true
      false 0 (wait_ready (writing 6) true true false (run filled new_world).1).1 (omega arith) refl

create_channel-IsSettled_example :
    IsSettled (record new_world { channel = record (fresh small) { read = some 0 } })
unfolding create_channel subscribe_read
create_channel-IsSettled_example =
    create_channel-IsSettled true small (fresh {V = ℕ} small) Completion.empty _ (omega arith) refl
      (after here (lock_read 0))

abbrev latest_options : LatestOptions
latest_options = record { max_retained_bytes = 10; max_subscriptions = 1 }

abbrev new_latest : LatestValue.World ℕ
new_latest = record {
  latest = record {
    options = latest_options;
    bytes = 0;
    current = none;
    version = 0;
    closed = false;
    watchers = [];
  };
  subscriptions = Completion.empty;
}

-- Two values and one that is too large; the watcher of version 0 is told by the first.
abbrev publishing : List (LatestValue.Command ℕ)
publishing =
    LatestValue.put true (some 5) 1
    ∷ LatestValue.put true (some 6) 11
    ∷ LatestValue.put true (some 7) 2
    ∷ []

publishing_read :
    let (values, u) = LatestValue.run publishing new_latest in
    (values ≡ 5 ∷ 7 ∷ []) × (LatestValue.read_after 1 u.latest ≡ value (2, some 7))
unfolding LatestValue.run LatestValue.read
publishing_read = (refl, refl)

run-IsLatest_example :
    let (values, u) = LatestValue.run publishing new_latest in
    (u.latest.version ≡ length values)
    × (u.latest.current ≡ last_of none values)
    × IsLimited u.latest
unfolding LatestValue.run
run-IsLatest_example =
    run-IsLatest publishing new_latest
      (record { counted = omega arith; light = omega arith; few = omega arith })

wait_for_change-wakes_example :
    let end =
      (LatestValue.run publishing
        (LatestValue.wait_for_change 0 true true true false new_latest).1).1 in
    (is_pending 0 end.subscriptions ≡ false)
    ⊎ ((end.latest.version ≡ 0) × (end.latest.closed ≡ false))
unfolding LatestValue.wait_for_change
wait_for_change-wakes_example =
    wait_for_change-wakes 0 true true true false new_latest 0
      (LatestValue.wait_for_change 0 true true true false new_latest).1 publishing refl

-- A tick every ten units from 110 on, at most two at once.
abbrev some_ticks : Ticks
some_ticks = record {
  epoch = 110;
  interval = 10;
  max_calls = 2;
  next = 0;
  metrics = record { executed = 0; skipped = 0; last_lateness = 0; max_lateness = 0 };
}

abbrev calm : Round
calm = record { stopped = λ n. false; delay = λ n. n; work = λ tick. ErrorCode.ok }

-- At 145 four intervals are due: two are skipped and two are run.
abbrev firings : List (ℕ × Round)
firings = (105, calm) ∷ (145, calm) ∷ (147, calm) ∷ (150, calm) ∷ []

firings_indices : map (λ tick. tick.index) (fire_all firings some_ticks).0 ≡ 3 ∷ 4 ∷ 5 ∷ []
unfolding fire_all
firings_indices = refl

fire_all-counts_example :
    let (ticks, u) = fire_all firings some_ticks in
    IsAscending 0 ticks u.next
    × All (IsPunctual 110 10) ticks
    × (u.metrics.executed ≡ length ticks)
    × (u.metrics.executed + u.metrics.skipped ≡ u.next)
unfolding fire_all
fire_all-counts_example =
    fire_all-counts firings some_ticks (record { all = refl; paced = omega arith })
