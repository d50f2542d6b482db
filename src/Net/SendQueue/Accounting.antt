-- ===== src/Net/SendQueue/Accounting.antt =====
-- The counters of the queues and of the budget that they share.
use server_core.Base.{
  ℕ, ◌+◌, ◌-◌, ◌≤◌, ◌<◌, ◌≡◌, refl, sym, ap, subst, ◌∙◌, ◌⊎◌, inl, inr, Bool, true, some, List, [],
  ◌∷◌, ◌++◌, arith, length, total, total-append, All, ◌==◌, ==_iff, ==_refl, ◌≢◌, Bool-cases,
}
use server_core.Core.Error.{ErrorCode}
use server_core.Net.SendBudget.{SendBudget, try_reserve, release, try_reserve_lem, release_lem}
use server_core.Net.SendQueue.{
  SendQueue, create, or_keep, push, with_budget, enqueue, consume_front, consume, clear,
}

-- The part of the front payload that was sent is less than all of it.
abbrev pub IsPartial : ℕ → List (List ℕ) → Type 0
IsPartial offset [] = offset ≡ 0
IsPartial offset (payload ∷ rest) = offset < length payload

pub record IsCounted (limit : ℕ) (q : SendQueue) : Type 0 where
  pub partial : IsPartial q.offset q.payloads
  pub filled : All (λ payload. 0 < length payload) q.payloads
  pub retained : q.retained_bytes ≡ total q.payloads
  pub queued : q.queued_bytes ≡ total q.payloads - q.offset
  pub reported : q.reported_bytes ≡ q.retained_bytes
  pub bounded : q.retained_bytes ≤ limit

-- What a call does to a queue and to the budget: what the one gains the other counts.
pub record Settled (q : SendQueue) (b : SendBudget) (q' : SendQueue) (b' : SendBudget)
    : Type 0 where
  pub counted : IsCounted b.connection_limit_bytes q'
  pub balance : b'.used_bytes + q.retained_bytes ≡ b.used_bytes + q'.retained_bytes
  pub within : b'.used_bytes ≤ b.limit_bytes
  pub limit_kept : b'.limit_bytes ≡ b.limit_bytes
  pub connection_limit_kept : b'.connection_limit_bytes ≡ b.connection_limit_bytes

push-IsPartial :
    (offset : ℕ) (payloads : List (List ℕ)) (bytes : List ℕ)
    → 0 < length bytes
    → IsPartial offset payloads
    → IsPartial offset (payloads ++ bytes ∷ [])
push-IsPartial offset [] bytes h p = omega arith
push-IsPartial offset (payload ∷ rest) bytes h p = p

push-filled :
    (payloads : List (List ℕ)) (bytes : List ℕ)
    → 0 < length bytes
    → All (λ payload. 0 < length payload) payloads
    → All (λ payload. 0 < length payload) (payloads ++ bytes ∷ [])
push-filled [] bytes h f = (h, tt)
push-filled (payload ∷ rest) bytes h f = (f.0, push-filled rest bytes h f.1)

pub partial-total :
    (offset : ℕ) (payloads : List (List ℕ)) → IsPartial offset payloads → offset ≤ total payloads
partial-total offset [] p = omega arith
partial-total offset (payload ∷ rest) p = omega arith

module _ (q : SendQueue) (b : SendBudget) (c : IsCounted b.connection_limit_bytes q) where
  Settled-same : b.used_bytes ≤ b.limit_bytes → Settled q b q b
  Settled-same h = record {
    counted = c;
    balance = refl;
    within = h;
    limit_kept = refl;
    connection_limit_kept = refl;
  }

  push-IsCounted :
      (bytes : List ℕ)
      → 0 < length bytes
      → q.retained_bytes + length bytes ≤ b.connection_limit_bytes
      → IsCounted b.connection_limit_bytes (push bytes q)
  push-IsCounted bytes h k = record {
    partial = push-IsPartial q.offset q.payloads bytes h c.partial;
    filled = push-filled q.payloads bytes h c.filled;
    retained = omega (arith, c.retained, total-append q.payloads (bytes ∷ []));
    queued = omega (
      arith,
      c.queued,
      total-append q.payloads (bytes ∷ []),
      partial-total q.offset q.payloads c.partial,
    );
    reported = refl;
    bounded = k;
  }

  abbrev pub SameLimits : SendBudget → Type 0
  SameLimits b' =
      (b'.limit_bytes ≡ b.limit_bytes) × (b'.connection_limit_bytes ≡ b.connection_limit_bytes)

  -- What a failed allocation gives back.
  given_back :
      (n : ℕ)
      → b.used_bytes ≤ b.limit_bytes
      → (try_reserve n b).0 ≡ true
      → let b' = or_keep (try_reserve n b).1 (release n (try_reserve n b).1) in
        (b'.used_bytes ≡ b.used_bytes) × SameLimits b'
  given_back n h r =
      let (limit, connection_limit, answer) = try_reserve_lem n b h in
      let b1 : SendBudget = (try_reserve n b).1 in
      let used : b1.used_bytes ≡ b.used_bytes + n = ground (arith, answer, r) in
      let (b2, freed, rest, limit2, connection_limit2) = release_lem n b1 (omega arith) in
      subst (λ o. ((or_keep b1 o).used_bytes ≡ b.used_bytes) × SameLimits (or_keep b1 o))
        (sym freed)
        (omega (arith, rest, used), (limit2 ∙ limit, connection_limit2 ∙ connection_limit))

  -- The queue as it was, or the payload behind it.
  pub enqueue-cases :
      (granted : Bool) (bytes : List ℕ)
      → b.used_bytes ≤ b.limit_bytes
      → let out = enqueue granted bytes q b in
        SameLimits out.2
        × (((out.1 ≡ q) × (out.2.used_bytes ≡ b.used_bytes))
            ⊎ ((out.0 ≡ ErrorCode.ok)
                × (out.1 ≡ push bytes q)
                × (0 < length bytes)
                × (q.retained_bytes + length bytes ≤ b.connection_limit_bytes)
                × (out.2.used_bytes ≡ b.used_bytes + length bytes)
                × (out.2.used_bytes ≤ b.limit_bytes)))
  unfolding enqueue
  enqueue-cases granted bytes h = ground (
    arith,
    ==_iff (length bytes) 0,
    c.bounded,
    try_reserve_lem (length bytes) b h,
    given_back (length bytes) h,
  )

  pub enqueue-Settled :
      (granted : Bool) (bytes : List ℕ)
      → b.used_bytes ≤ b.limit_bytes
      → Settled q b (enqueue granted bytes q b).1 (enqueue granted bytes q b).2
  enqueue-Settled granted bytes h =
      let (limits, moved) = enqueue-cases granted bytes h in
      elim moved [
        | inl (same, used) ↦ record {
          counted = subst (IsCounted b.connection_limit_bytes) (sym same) c;
          balance = omega (arith, used, ap (λ r. r.retained_bytes) same);
          within = omega (arith, used, h);
          limit_kept = limits.0;
          connection_limit_kept = limits.1;
        }
        | inr (fine, pushed, filled, room, used, within) ↦ record {
          counted =
              subst (IsCounted b.connection_limit_bytes) (sym pushed)
                (push-IsCounted bytes filled room);
          balance = omega (arith, used, ap (λ r. r.retained_bytes) pushed);
          within = within;
          limit_kept = limits.0;
          connection_limit_kept = limits.1;
        }
      ]

  -- No assertion fails when the queue is emptied, and its bytes return to the budget.
  pub clear-Settled :
      b.used_bytes ≤ b.limit_bytes
      → q.retained_bytes ≤ b.used_bytes
      → (b' : SendBudget) × (clear q b ≡ some (create, b')) × Settled q b create b'
  unfolding clear
  clear-Settled h k =
      let (b', freed, used, limit, connection_limit) = release_lem q.retained_bytes b k in
      (
        b',
        ap (with_budget create) freed,
        record {
          counted = record {
            partial = refl;
            filled = tt;
            retained = refl;
            queued = refl;
            reported = refl;
            bounded = omega arith;
          };
          balance = omega (arith, used);
          within = omega (arith, used);
          limit_kept = limit;
          connection_limit_kept = connection_limit;
        },
      )

  module _ (n : ℕ) (payload : List ℕ) (rest : List (List ℕ)) (e : q.payloads ≡ payload ∷ rest)
      (fits : n ≤ length payload - q.offset) where
    abbrev pub popped : SendQueue
    popped = record {
      payloads = rest;
      offset = 0;
      queued_bytes = q.queued_bytes - n;
      retained_bytes = q.retained_bytes - length payload;
      reported_bytes = q.retained_bytes - length payload;
    }

    abbrev pub advanced : SendQueue
    advanced = record q { offset = q.offset + n; queued_bytes = q.queued_bytes - n }

    pub consume_open : consume n q b ≡ consume_front n payload rest q b
    unfolding consume
    consume_open = rw e refl

    pub consume_pops :
        q.offset + n ≡ length payload
        → consume_front n payload rest q b ≡ with_budget popped (release (length payload) b)
    unfolding consume_front
    consume_pops h = ground (arith, fits, h, ==_iff (q.offset + n) (length payload))

    pub consume_advances :
        q.offset + n ≢ length payload → consume_front n payload rest q b ≡ some (advanced, b)
    unfolding consume_front
    consume_advances h = ground (arith, fits, h, ==_iff (q.offset + n) (length payload))

    head_partial : q.offset < length payload
    head_partial = subst (IsPartial q.offset) e c.partial

    rest_filled : All (λ p. 0 < length p) rest
    rest_filled = (subst (All (λ p. 0 < length p)) e c.filled).1

    all_bytes : total q.payloads ≡ length payload + total rest
    all_bytes = ap total e

    rest-IsPartial : (xs : List (List ℕ)) → All (λ p. 0 < length p) xs → IsPartial 0 xs
    rest-IsPartial [] f = refl
    rest-IsPartial (x ∷ xs) f = f.0

    popped-IsCounted : q.offset + n ≡ length payload → IsCounted b.connection_limit_bytes popped
    popped-IsCounted h = record {
      partial = rest-IsPartial rest rest_filled;
      filled = rest_filled;
      retained = omega (arith, c.retained, all_bytes);
      queued = omega (arith, c.queued, all_bytes, h);
      reported = refl;
      bounded = omega (arith, c.bounded);
    }

    advanced-IsCounted : q.offset + n ≢ length payload → IsCounted b.connection_limit_bytes advanced
    advanced-IsCounted h = record {
      partial = subst (IsPartial (q.offset + n)) (sym e) (ground (arith, fits, h, head_partial));
      filled = c.filled;
      retained = c.retained;
      queued = omega (arith, c.queued);
      reported = c.reported;
      bounded = c.bounded;
    }

    -- No assertion fails when at most what is left of the front payload is consumed.
    pub consume-Settled :
        b.used_bytes ≤ b.limit_bytes
        → q.retained_bytes ≤ b.used_bytes
        → (q' : SendQueue) × (b' : SendBudget) × (consume n q b ≡ some (q', b')) × Settled q b q' b'
    consume-Settled h k = elim (Bool-cases (q.offset + n == length payload)) [
      | inl whole ↦
          let same : q.offset + n ≡ length payload =
            (==_iff (q.offset + n) (length payload)).0 whole in
          let (b', freed, used, limit, connection_limit) =
            release_lem (length payload) b (omega (arith, c.retained, all_bytes)) in
          (
            popped,
            b',
            consume_open ∙ consume_pops same ∙ ap (with_budget popped) freed,
            record {
              counted = popped-IsCounted same;
              balance = omega (arith, used, c.retained, all_bytes);
              within = omega (arith, used);
              limit_kept = limit;
              connection_limit_kept = connection_limit;
            },
          )
      | inr part ↦
          let other : q.offset + n ≢ length payload =
            λ same. absurd (ground (arith, part, same, ==_refl (length payload))) in
          (
            advanced,
            b,
            consume_open ∙ consume_advances other,
            record {
              counted = advanced-IsCounted other;
              balance = refl;
              within = h;
              limit_kept = refl;
              connection_limit_kept = refl;
            },
          )
    ]
