-- ===== src/Runtime/Ticks.antt =====
-- src/Runtime/TickRunner.cpp. A time is a number of the clock's units. The clock is steady, so that a
-- tick starts some units after the timer fired. What the machine decides is an argument: how many units a
-- millisecond has, the largest time, the size of the state, and whether the state is granted. The timer
-- scheduler is a parameter.
pub mod Counting
use server_core.Base.{
  ℕ, zero, suc, ◌+◌, ◌-◌, ◌*◌, ◌/◌, ◌^◌, ◌≡◌, Bool, true, false, not, ◌&&◌, ◌||◌, List, [], ◌∷◌,
  ◌++◌, min, max, ltb, leb, ◌==◌, if◌then◌else◌,
}
use server_core.Core.Error.{ErrorCode, Status, allocation_failure, is_ok, Result, value, failed}

pub data TickLagPolicy : Type 0 where
  skip catch_up : TickLagPolicy

-- The interval is in milliseconds; one that is not positive is 0 here.
pub record TickOptions : Type 0 where
  pub interval : ℕ
  pub lag_policy : TickLagPolicy
  pub max_catch_up : ℕ
  pub retained_bytes : ℕ

pub record TickInfo : Type 0 where
  pub index : ℕ
  pub scheduled : ℕ
  pub actual : ℕ
  pub lateness : ℕ
  pub skipped : ℕ

pub record TickMetrics : Type 0 where
  pub executed : ℕ
  pub skipped : ℕ
  pub last_lateness : ℕ
  pub max_lateness : ℕ

-- What the callback of the timer captures, and its metrics.
pub record Ticks : Type 0 where
  pub epoch : ℕ
  pub interval : ℕ
  pub max_calls : ℕ
  pub next : ℕ
  pub metrics : TickMetrics

-- What the world does in one run of the callback: for each tick whether the token is stopped in front
-- of it, after how many units it starts, and the status of the work.
pub record Round : Type 0 where
  pub stopped : ℕ → Bool
  pub delay : ℕ → ℕ
  pub work : TickInfo → Status

abbrev pub metrics_after : ℕ → TickMetrics → TickMetrics
metrics_after lateness m = record m {
  executed = m.executed + 1;
  last_lateness = lateness;
  max_lateness = max m.max_lateness lateness;
}

abbrev pub tick_of : ℕ → ℕ → Ticks → TickInfo
tick_of started skipped t = record {
  index = t.next + 1;
  scheduled = t.epoch + t.interval * t.next;
  actual = started;
  lateness = started - (t.epoch + t.interval * t.next);
  skipped = skipped;
}

abbrev pub ticked : ℕ → Ticks → Ticks
ticked started t = record t {
  next = t.next + 1;
  metrics = metrics_after (started - (t.epoch + t.interval * t.next)) t.metrics;
}

-- A tick in front of what follows it.
abbrev pub with_tick : TickInfo → Status × List TickInfo × Ticks → Status × List TickInfo × Ticks
with_tick tick (status, ticks, t) = (status, tick ∷ ticks, t)

-- The loop of the callback, with `count` calls left, the next one the `call`-th: the status, the ticks
-- that were run, and the state.
unfoldable pub run_ticks : ℕ → ℕ → ℕ → ℕ → Round → Ticks → Status × List TickInfo × Ticks
run_ticks zero call actual skipped r t = (ErrorCode.ok, [], t)
run_ticks (suc count) call actual skipped r t =
    let started = actual + r.delay call in
    let tick = tick_of started (if call == 0 then skipped else 0) t in
    let more = run_ticks count (call + 1) actual skipped r (ticked started t) in
    if r.stopped call
    then (ErrorCode.cancelled, [], t)
    else if is_ok (r.work tick)
    then with_tick tick more
    else (r.work tick, tick ∷ [], ticked started t)

abbrev pub skipping : ℕ → Ticks → Ticks
skipping skipped t = record t {
  next = t.next + skipped;
  metrics = record t.metrics { skipped = t.metrics.skipped + skipped };
}

-- The first interval that has not begun at that time.
abbrev pub due_at : ℕ → Ticks → ℕ
due_at actual t = (actual - t.epoch) / t.interval + 1

-- The callback of the timer at the time `actual`.
unfoldable pub fire : ℕ → Round → Ticks → Status × List TickInfo × Ticks
unfolding run_ticks
fire actual r t =
    let due = due_at actual t in
    let count = min (due - t.next) t.max_calls in
    let skipped = due - t.next - count in
    if ltb actual t.epoch
    then (ErrorCode.ok, [], t)
    else if leb due t.next
    then (ErrorCode.ok, [], t)
    else run_ticks count 0 actual skipped r (skipping skipped t)

pub data TimerRepeatMode : Type 0 where
  fixed_delay fixed_rate : TimerRepeatMode

-- The stop token of the options is passed on unchanged and is left out.
pub record TimerOptions : Type 0 where
  pub due : ℕ
  pub repeat_interval : ℕ
  pub repeat_mode : TimerRepeatMode
  pub retained_bytes : ℕ

-- What the machine decides.
pub record Machine : Type 0 where
  pub units : ℕ
  pub last_time : ℕ
  pub state_size : ℕ
  pub now : ℕ

abbrev pub invalid_options : Bool → TickOptions → Bool
invalid_options has_callback o =
    not has_callback
    || o.interval == 0
    || ltb (24 * 3600 * 1000) o.interval
    || o.max_catch_up == 0
    || ltb 1024 o.max_catch_up

abbrev pub calls_of : TickLagPolicy → ℕ → ℕ
calls_of skip max_catch_up = 1
calls_of catch_up max_catch_up = max_catch_up

abbrev pub first_ticks : Machine → TickOptions → Ticks
first_ticks m o = record {
  epoch = m.now + o.interval * m.units;
  interval = o.interval * m.units;
  max_calls = calls_of o.lag_policy o.max_catch_up;
  next = 0;
  metrics = record { executed = 0; skipped = 0; last_lateness = 0; max_lateness = 0 };
}

abbrev pub timer_of : Machine → TickOptions → TimerOptions
timer_of m o = record {
  due = m.now + o.interval * m.units;
  repeat_interval = o.interval * m.units;
  repeat_mode = fixed_rate;
  retained_bytes = o.retained_bytes + m.state_size;
}

abbrev pub handle : {T : Type 0} → Ticks → Result T → Result (T × Ticks)
handle ticks (value timer) = value (timer, ticks)
handle ticks (failed e) = failed e

-- `ScheduleTicks`
unfoldable pub schedule_ticks :
    {T : Type 0}
    → (TimerOptions → Result T)
    → Bool
    → Bool
    → Machine
    → TickOptions
    → Result (T × Ticks)
schedule_ticks schedule granted has_callback m o =
    if invalid_options has_callback o
    then failed ErrorCode.invalid_argument
    else if ltb (2 ^ 64 - 1 - m.state_size) o.retained_bytes
    then failed ErrorCode.too_large
    else if not granted
    then failed allocation_failure
    else if ltb (m.last_time - m.now) (o.interval * m.units)
    then failed ErrorCode.too_large
    else handle (first_ticks m o) (schedule (timer_of m o))

-- The timer fires at the times, one after another: all ticks that were run, and the end.
unfoldable pub fire_all : List (ℕ × Round) → Ticks → List TickInfo × Ticks
unfolding fire
fire_all [] t = ([], t)
fire_all ((actual, r) ∷ rounds) t =
    let (status, ticks, next) = fire actual r t in
    let (more, end) = fire_all rounds next in (ticks ++ more, end)
