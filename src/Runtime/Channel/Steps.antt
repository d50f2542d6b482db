-- ===== src/Runtime/Channel/Steps.antt =====
-- The outcomes of the critical sections of a channel, with what each of them tested.
use server_core.Base.{
  ℕ, ◌≡◌, refl, ◌≢◌, ◌⊎◌, inl, inr, Bool, true, false, none, some, List, [], ◌∷◌, arith,
  if◌then◌else◌, not, ◌&&◌, Bool-cases, List-cases, ltb,
}
use server_core.Base.Words.{size_sub}
use server_core.Core.Error.{ErrorCode, Status, allocation_failure, value, failed}
use server_core.Core.Completion.{
  Subscriptions, create, issued, source_is_pending, reset, source_complete, bind_cancellation,
}
use server_core.Runtime.Channel.{
  World, conclude, subscribe_read, subscribe_write, wait_for_read_ready, wait_for_write_ready,
  Channel, can_send, push, send_locked, free_room, take_front, is_empty, receive_locked, available,
}

is_empty-nil : {A : Type 0} (xs : List A) → is_empty xs ≡ true → xs ≡ []
is_empty-nil [] h = refl
is_empty-nil (x ∷ xs) h = cc

module _ {V : Type 0} where
  pub send_locked-cases :
      (v : V) (n : ℕ) (c : Channel V)
      → ((send_locked v n c ≡ (ErrorCode.closed, none, c)) × (c.closed ≡ true))
        ⊎ ((send_locked v n c ≡ (ErrorCode.would_block, none, c)) × (can_send n c ≡ false))
        ⊎ ((send_locked v n c ≡ (ErrorCode.ok, c.read, push v n c))
            × (can_send n c ≡ true)
            × (c.closed ≡ false))
  unfolding send_locked
  send_locked-cases v n c = elim (Bool-cases c.closed) [
    | inl h ↦ inl (rw h, h)
    | inr h ↦ elim (Bool-cases (can_send n c)) [
      | inl k ↦ inr (inr (rw (h, k), k, h))
      | inr k ↦ inr (inl (rw (h, k), k))
    ]
  ]

  -- The channel after its first entry, of `n` bytes, is taken out.
  abbrev pub popped : ℕ → List (V × ℕ) → Channel V → Channel V
  popped n rest c = record c { queue = rest; bytes = size_sub c.bytes n }

  pub free_room-cases :
      (v : V) (c : Channel V)
      → ((free_room v c ≡ (value v, c.write, record c { write = none }))
          × (can_send c.write_bytes c ≡ true))
        ⊎ ((free_room v c ≡ (value v, none, c)) × (can_send c.write_bytes c ≡ false))
  unfolding free_room
  free_room-cases v c = elim (Bool-cases (can_send c.write_bytes c)) [
    | inl k ↦ inl (rw k, k)
    | inr k ↦ inr (rw k, k)
  ]

  -- A receive fails and changes nothing, or it takes the first entry.
  pub receive_locked-cases :
      (waits stopped : Bool) (c : Channel V)
      → ((e : Status) × (receive_locked waits stopped c ≡ (failed e, none, c)))
        ⊎ ((v : V) × (n : ℕ) × (rest : List (V × ℕ)) × (c.queue ≡ (v, n) ∷ rest)
            × (receive_locked waits stopped c ≡ free_room v (popped n rest c)))
  unfolding receive_locked take_front
  receive_locked-cases waits stopped c = elim (Bool-cases (waits && not (available c))) [
    | inl h ↦ inl (if stopped then ErrorCode.cancelled else ErrorCode.timeout, rw h)
    | inr h ↦ elim (Bool-cases stopped) [
      | inl s ↦ inl (ErrorCode.cancelled, rw (h, s))
      | inr s ↦ elim (List-cases c.queue) [
        | inl q ↦ inl (if c.closed then ErrorCode.closed else ErrorCode.would_block, rw (h, s, q))
        | inr ((v, n), rest, q) ↦ inr (v, n, rest, q, rw (h, s, q))
      ]
    ]
  ]

  pub subscribe_read-cases :
      (id : ℕ) (pending : Bool) (c : Channel V)
      → ((status : Status) × (status ≢ ErrorCode.would_block)
          × (subscribe_read id pending c ≡ (status, c)))
        ⊎ ((subscribe_read id pending c ≡ (ErrorCode.would_block, record c { read = some id }))
            × (pending ≡ false)
            × (c.queue ≡ [])
            × (c.closed ≡ false))
  unfolding subscribe_read
  subscribe_read-cases id true c = inl (ErrorCode.already_exists, (λ h. cc), refl)
  subscribe_read-cases id false c = elim (Bool-cases (is_empty c.queue)) [
    | inl q ↦ elim (Bool-cases c.closed) [
      | inl h ↦ inl (ErrorCode.closed, (λ h. cc), simp (q, h))
      | inr h ↦ inr (simp (q, h), refl, is_empty-nil c.queue q, h)
    ]
    | inr q ↦ inl (ErrorCode.ok, (λ h. cc), simp q)
  ]

  pub subscribe_write-cases :
      (amount id : ℕ) (pending : Bool) (c : Channel V)
      → ((pending ≡ true) × (subscribe_write amount id pending c ≡ (ErrorCode.already_exists, c)))
        ⊎ ((pending ≡ false)
            × (status : Status) × (status ≢ ErrorCode.would_block)
            × (subscribe_write amount id pending c ≡ (status, record c { write_bytes = amount })))
        ⊎ ((pending ≡ false)
            × (subscribe_write amount id pending c
                ≡ (ErrorCode.would_block, record c { write_bytes = amount; write = some id }))
            × (can_send amount c ≡ false)
            × (c.closed ≡ false))
  unfolding subscribe_write
  subscribe_write-cases amount id true c = inl (refl, refl)
  subscribe_write-cases amount id false c = elim (Bool-cases c.closed) [
    | inl h ↦ inr (inl (refl, ErrorCode.closed, (λ h. cc), simp h))
    | inr h ↦ elim (Bool-cases (can_send amount c)) [
      | inl k ↦ inr (inl (refl, ErrorCode.ok, (λ h. cc), simp (h, k)))
      | inr k ↦ inr (inr (refl, simp (h, k), k, h))
    ]
  ]

  -- The channel that a call leaves is the one that its critical section left.
  pub channel-conclude :
      (stopped : Bool) (id : ℕ) (s : Subscriptions) (status : Status) (c : Channel V)
      → (conclude stopped id s (status, c)).1.channel ≡ c
  unfolding conclude
  channel-conclude stopped id s status c = ground arith

  pub wait_for_read_ready-cases :
      (has_callback granted stopped : Bool) (w : World V)
      → let out = wait_for_read_ready has_callback granted stopped w in
        ((e : Status) × (out ≡ (failed e, w)))
        ⊎ ((out
            ≡ conclude stopped w.subscriptions.next (issued w.subscriptions) (
                subscribe_read w.subscriptions.next
                  (source_is_pending w.channel.read (issued w.subscriptions))
                  w.channel)))
  unfolding wait_for_read_ready create
  wait_for_read_ready-cases true true stopped w = inr refl
  wait_for_read_ready-cases true false stopped w = inl (_, refl)
  wait_for_read_ready-cases false granted stopped w = inl (_, refl)

  pub wait_for_write_ready-cases :
      (amount : ℕ) (has_callback granted stopped : Bool) (w : World V)
      → let out = wait_for_write_ready amount has_callback granted stopped w in
        ((e : Status) × (out ≡ (failed e, w)))
        ⊎ ((out
            ≡ conclude stopped w.subscriptions.next (issued w.subscriptions) (
                subscribe_write amount w.subscriptions.next
                  (source_is_pending w.channel.write (issued w.subscriptions))
                  w.channel)))
  unfolding wait_for_write_ready create
  wait_for_write_ready-cases amount has_callback granted stopped w =
      elim (Bool-cases (ltb w.channel.options.max_retained_bytes amount)) [
        | inl h ↦ inl (ErrorCode.too_large, rw h)
        | inr h ↦ elim (Bool-cases has_callback) [
          | inl k ↦ elim (Bool-cases granted) [
            | inl g ↦ inr (rw (h, k, g))
            | inr g ↦ inl (allocation_failure, rw (h, k, g))
          ]
          | inr k ↦ inl (ErrorCode.invalid_argument, rw (h, k))
        ]
      ]

  -- How a call ends after its critical section.
  pub conclude-cases :
      (stopped : Bool) (id : ℕ) (s : Subscriptions) (status : Status) (c : Channel V)
      → ((status ≡ ErrorCode.already_exists)
          × (conclude stopped id s (status, c)
              ≡ (failed status, record { channel = c; subscriptions = reset id s })))
        ⊎ ((status ≡ ErrorCode.would_block)
            × (conclude stopped id s (status, c) ≡ (
              value id,
              record { channel = c; subscriptions = bind_cancellation stopped id s },
            )))
        ⊎ ((conclude stopped id s (status, c) ≡ (
          value id,
          record {
            channel = c;
            subscriptions = source_complete (some id) status (bind_cancellation stopped id s);
          },
        )))
  unfolding conclude
  conclude-cases stopped id s ErrorCode.already_exists c = inl (refl, refl)
  conclude-cases stopped id s ErrorCode.would_block c = inr (inl (refl, refl))
  conclude-cases stopped id s ErrorCode.ok c = inr (inr refl)
  conclude-cases stopped id s ErrorCode.invalid_argument c = inr (inr refl)
  conclude-cases stopped id s ErrorCode.invalid_format c = inr (inr refl)
  conclude-cases stopped id s ErrorCode.too_large c = inr (inr refl)
  conclude-cases stopped id s ErrorCode.not_found c = inr (inr refl)
  conclude-cases stopped id s ErrorCode.closed c = inr (inr refl)
  conclude-cases stopped id s ErrorCode.platform_error c = inr (inr refl)
  conclude-cases stopped id s ErrorCode.unimplemented c = inr (inr refl)
  conclude-cases stopped id s ErrorCode.unknown_type c = inr (inr refl)
  conclude-cases stopped id s ErrorCode.timeout c = inr (inr refl)
  conclude-cases stopped id s ErrorCode.cancelled c = inr (inr refl)
