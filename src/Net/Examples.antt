-- ===== src/Net/Examples.antt =====
-- Runs of the send queues on small inputs.
use server_core.Base.{
  ℕ, ◌+◌, ◌≤◌, ◌≡◌, refl, ◌⊎◌, true, false, some, List, [], ◌∷◌, arith, take, drop, length,
}
use server_core.Net.SendBudget.{
  SendBudget, try_reserve_budget, last_seen, try_reserve_budget-within,
}
use server_core.Net.SendQueue.{SendQueue, create, enqueue, front, consume, clear}
use server_core.Net.SendQueue.Accounting.{IsCounted}
use server_core.Net.SendQueue.Shared.{
  Call, enqueues, consumes, clears, run, IsAccounted, run-IsAccounted,
}
use server_core.Net.SendQueue.Stream.{pending, consume-pending}

-- Two other threads come first.
reserve-granted : (try_reserve_budget 3 10 4 (5 ∷ 6 ∷ [])).0 ≡ true
unfolding try_reserve_budget
reserve-granted = refl

try_reserve_budget-within_example :
    (◌≡◌ {A = ℕ} 4 0)
    ⊎ (((try_reserve_budget 3 10 4 (5 ∷ 6 ∷ [])).1 ≡ last_seen 3 (5 ∷ 6 ∷ []) + 4)
        × ((try_reserve_budget 3 10 4 (5 ∷ 6 ∷ [])).1 ≤ 10))
try_reserve_budget-within_example = try_reserve_budget-within 3 10 4 (5 ∷ 6 ∷ []) reserve-granted

abbrev small_budget : SendBudget
small_budget = record {
  limit_bytes = 9;
  connection_limit_bytes = 6;
  used_bytes = 5;
  changed = false;
}

-- One byte of the first payload was sent.
abbrev small_queue : SendQueue
small_queue = record {
  payloads = (1 ∷ 2 ∷ 3 ∷ []) ∷ (4 ∷ 5 ∷ []) ∷ [];
  offset = 1;
  queued_bytes = 4;
  retained_bytes = 5;
  reported_bytes = 5;
}

small_queue-IsCounted : IsCounted 6 small_queue
small_queue-IsCounted = record {
  partial = omega arith;
  filled = (omega arith, (omega arith, tt));
  retained = refl;
  queued = refl;
  reported = refl;
  bounded = omega arith;
}

abbrev after_consume : SendQueue × SendBudget
after_consume = (
  record {
    payloads = (4 ∷ 5 ∷ []) ∷ [];
    offset = 0;
    queued_bytes = 2;
    retained_bytes = 2;
    reported_bytes = 2;
  },
  record small_budget { used_bytes = 2; changed = true },
)

two-consumed : consume 2 small_queue small_budget ≡ some after_consume
unfolding consume server_core.Net.SendQueue.consume_front server_core.Net.SendBudget.release
two-consumed = refl

consume-pending_example :
    (bytes : List ℕ) × (front small_queue ≡ some bytes)
    × (2 ≤ length bytes)
    × (take 2 bytes ≡ take 2 (pending small_queue))
    × (pending after_consume.0 ≡ drop 2 (pending small_queue))
consume-pending_example =
    consume-pending 2 small_queue small_budget after_consume small_queue-IsCounted two-consumed

abbrev some_calls : List (ℕ × Call)
some_calls =
    (1, clears)
    ∷ (1, enqueues true (7 ∷ 8 ∷ []))
    ∷ (0, consumes 2)
    ∷ (1, enqueues false (9 ∷ []))
    ∷ (0, clears)
    ∷ []

abbrev after_calls : List SendQueue × SendBudget
after_calls = (
  create
      ∷ record {
        payloads = (7 ∷ 8 ∷ []) ∷ [];
        offset = 0;
        queued_bytes = 2;
        retained_bytes = 2;
        reported_bytes = 2;
      }
      ∷ [],
  record small_budget { used_bytes = 2; changed = true },
)

calls-run : run some_calls (small_queue ∷ []) small_budget ≡ some after_calls
unfolding run server_core.Net.SendQueue.Shared.step server_core.Net.SendQueue.Shared.apply consume
    server_core.Net.SendQueue.consume_front server_core.Net.SendBudget.release enqueue
    server_core.Net.SendBudget.try_reserve clear
calls-run = refl

run-IsAccounted_example : IsAccounted 0 after_calls.0 after_calls.1
run-IsAccounted_example =
    run-IsAccounted some_calls (small_queue ∷ []) small_budget after_calls
      (record { used = refl; within = omega arith; counted = (small_queue-IsCounted, tt) })
      calls-run
