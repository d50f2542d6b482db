-- ===== src/Net/SendQueue.antt =====
-- src/Net/SendQueueInternal.cpp: the payloads that a connection has yet to send, counted in a budget
-- that connections share. The waits for capacity are not modelled, beyond the size that they are told.
pub mod Stream
pub mod Accounting
pub mod Shared
use server_core.Base.{
  ℕ, ◌+◌, ◌-◌, ◌≡◌, Bool, true, false, not, Option, none, some, List, [], ◌∷◌, ◌++◌, ltb, ◌==◌,
  ◌||◌, if◌then◌else◌, length, drop,
}
use server_core.Core.Error.{ErrorCode, Status, allocation_failure}
use server_core.Net.SendBudget.{SendBudget, try_reserve, release}

pub record SendQueue : Type 0 where
  pub payloads : List (List ℕ)
  pub offset : ℕ
  pub queued_bytes : ℕ
  pub retained_bytes : ℕ
  pub reported_bytes : ℕ

abbrev pub create : SendQueue
create = record {
  payloads = [];
  offset = 0;
  queued_bytes = 0;
  retained_bytes = 0;
  reported_bytes = 0;
}

abbrev pub empty : SendQueue → Bool
empty q = elim q.payloads [ [] ↦ true | payload ∷ rest ↦ false ]

abbrev pub or_keep : SendBudget → Option SendBudget → SendBudget
or_keep b none = b
or_keep b (some c) = c

-- The payload that is appended, once its bytes are reserved.
abbrev pub push : List ℕ → SendQueue → SendQueue
push bytes q = record {
  payloads = q.payloads ++ bytes ∷ [];
  offset = q.offset;
  queued_bytes = q.queued_bytes + length bytes;
  retained_bytes = q.retained_bytes + length bytes;
  reported_bytes = q.retained_bytes + length bytes;
}

-- Whether the payload can be copied is the allocator's.
unfoldable pub enqueue : Bool → List ℕ → SendQueue → SendBudget → Status × SendQueue × SendBudget
enqueue granted bytes q b =
    let (reserved, b1) = try_reserve (length bytes) b in
    if length bytes == 0
    then (ErrorCode.ok, q, b)
    else if ltb b.connection_limit_bytes q.retained_bytes
        || ltb (b.connection_limit_bytes - q.retained_bytes) (length bytes)
    then (ErrorCode.would_block, q, b)
    else if not reserved
    then (ErrorCode.would_block, q, b1)
    else if not granted
    then (allocation_failure, q, or_keep b1 (release (length bytes) b1))
    else (ErrorCode.ok, push bytes q, b1)

-- `none` is the assertion on the payload.
unfoldable pub front : SendQueue → Option (List ℕ)
front q = elim q.payloads [ [] ↦ none | payload ∷ rest ↦ some (drop q.offset payload) ]

abbrev pub with_budget : SendQueue → Option SendBudget → Option (SendQueue × SendBudget)
with_budget q none = none
with_budget q (some b) = some (q, b)

-- The front payload of which `n` more bytes were sent.
unfoldable pub consume_front :
    ℕ → List ℕ → List (List ℕ) → SendQueue → SendBudget → Option (SendQueue × SendBudget)
consume_front n payload rest q b =
    if ltb (length payload - q.offset) n
    then none
    else if q.offset + n == length payload
    then with_budget
        (record {
          payloads = rest;
          offset = 0;
          queued_bytes = q.queued_bytes - n;
          retained_bytes = q.retained_bytes - length payload;
          reported_bytes = q.retained_bytes - length payload;
        })
        (release (length payload) b)
    else some (record q { offset = q.offset + n; queued_bytes = q.queued_bytes - n }, b)

-- `none` is one of the assertions.
unfoldable pub consume : ℕ → SendQueue → SendBudget → Option (SendQueue × SendBudget)
consume n q b = elim q.payloads [ [] ↦ none | payload ∷ rest ↦ consume_front n payload rest q b ]

unfoldable pub clear : SendQueue → SendBudget → Option (SendQueue × SendBudget)
clear q b = with_budget create (release q.retained_bytes b)
