-- ===== src/Net/SendQueue/Stream.antt =====
-- The bytes of a queue as one stream.
use server_core.Base.{
  ℕ, ◌+◌, ◌-◌, ◌≤◌, ◌<◌, ◌≡◌, ◌≢◌, refl, sym, ap, subst, ◌∙◌, ◌⊎◌, inl, inr, Bool, false, Option,
  none, some, List, [], ◌∷◌, ◌++◌, append_assoc, append-nil, arith, length, length-append, total,
  take, drop, drop_all, drop-drop, drop-append_le, drop-append_self, take-append_le, length-drop,
  ==_iff, ==_refl, ◌==◌, Bool-cases, some-injective,
}
use server_core.Core.Error.{ErrorCode, is_ok}
use server_core.Net.SendBudget.{SendBudget}
use server_core.Net.SendQueue.{SendQueue, push, enqueue, front, consume, with_budget}
use server_core.Net.SendBudget.{release}
use server_core.Net.SendQueue.Accounting.{
  IsPartial, IsCounted, partial-total, popped, advanced, consume_open, consume_pops,
  consume_advances,
}
use server_core.Net.SendQueue.Shared.{consume-legal}

abbrev pub joined : List (List ℕ) → List ℕ
joined [] = []
joined (payload ∷ rest) = payload ++ joined rest

-- The bytes that are still to be sent.
abbrev pub pending : SendQueue → List ℕ
pending q = drop q.offset (joined q.payloads)

length-joined : (payloads : List (List ℕ)) → length (joined payloads) ≡ total payloads
length-joined [] = refl
length-joined (payload ∷ rest) =
    omega (arith, length-append payload (joined rest), length-joined rest)

joined-push :
    (payloads : List (List ℕ)) (bytes : List ℕ)
    → joined (payloads ++ bytes ∷ []) ≡ joined payloads ++ bytes
joined-push [] bytes = append-nil bytes
joined-push (payload ∷ rest) bytes =
    ap (λ t. payload ++ t) (joined-push rest bytes) ∙ sym (append_assoc payload (joined rest) bytes)

with_budget-some :
    (q : SendQueue) (o : Option SendBudget) (out : SendQueue × SendBudget)
    → with_budget q o ≡ some out
    → (b : SendBudget) × (o ≡ some b) × (out ≡ (q, b))
with_budget-some q none out h = absurd (ground (arith, h))
with_budget-some q (some b) out h = (b, refl, sym (some-injective (q, b) out h))

pending-push :
    (limit : ℕ) (q : SendQueue) (bytes : List ℕ)
    → IsCounted limit q
    → pending (push bytes q) ≡ pending q ++ bytes
pending-push limit q bytes c =
    ap (drop q.offset) (joined-push q.payloads bytes)
    ∙ drop-append_le q.offset (joined q.payloads) bytes
        (omega (arith, length-joined q.payloads, partial-total q.offset q.payloads c.partial))

enqueue-shape :
    (granted : Bool) (bytes : List ℕ) (q : SendQueue) (b : SendBudget)
    → let out = enqueue granted bytes q b in
      ((out.0 ≡ ErrorCode.ok) × (out.1 ≡ push bytes q))
      ⊎ ((out.0 ≡ ErrorCode.ok) × (length bytes ≡ 0) × (out.1 ≡ q))
      ⊎ ((is_ok out.0 ≡ false) × (out.1 ≡ q))
unfolding enqueue
enqueue-shape granted bytes q b = ground (arith, ==_iff (length bytes) 0)

-- An accepted payload is sent after all that was accepted before it, and one that is refused leaves
-- the queue as it was.
pub enqueue-pending :
    (granted : Bool) (bytes : List ℕ) (q : SendQueue) (b : SendBudget)
    → IsCounted b.connection_limit_bytes q
    → let out = enqueue granted bytes q b in
      ((out.0 ≡ ErrorCode.ok) × (pending out.1 ≡ pending q ++ bytes))
      ⊎ ((is_ok out.0 ≡ false) × (out.1 ≡ q))
enqueue-pending granted bytes q b c = elim (enqueue-shape granted bytes q b) [
  | inl (fine, pushed) ↦
      inl (fine, ap pending pushed ∙ pending-push b.connection_limit_bytes q bytes c)
  | inr (inl (fine, empty, same)) ↦ inl (
    fine,
    ap pending same
        ∙ sym (append-nil (pending q))
        ∙ ap (λ t. pending q ++ t) (sym (drop_all 0 bytes (omega (arith, empty)))),
  )
  | inr (inr (bad, same)) ↦ inr (bad, same)
]

-- A consume that no assertion stops takes its bytes from the head of the stream, and they lie in
-- the front payload that was handed to the transport.
pub consume-pending :
    (n : ℕ) (q : SendQueue) (b : SendBudget) (out : SendQueue × SendBudget)
    → IsCounted b.connection_limit_bytes q
    → consume n q b ≡ some out
    → (bytes : List ℕ) × (front q ≡ some bytes)
      × (n ≤ length bytes)
      × (take n bytes ≡ take n (pending q))
      × (pending out.0 ≡ drop n (pending q))
consume-pending n q b out c e =
    let (payload, rest, head, fits) = consume-legal n q b out e in
    let partial : q.offset < length payload = subst (IsPartial q.offset) head c.partial in
    let bytes : List ℕ = drop q.offset payload in
    let size : n ≤ length bytes = omega (arith, length-drop q.offset payload) in
    let stream : pending q ≡ bytes ++ joined rest =
      ap (λ p. drop q.offset (joined p)) head
      ∙ drop-append_le q.offset payload (joined rest) (omega arith) in
    (
      bytes,
      (unfold front in rw head refl),
      size,
      sym (ap (take n) stream ∙ take-append_le n bytes (joined rest) size),
      remaining payload rest head fits partial,
    )
  where
    remaining :
        (payload : List ℕ) (rest : List (List ℕ))
        → q.payloads ≡ payload ∷ rest
        → n ≤ length payload - q.offset
        → q.offset < length payload
        → pending out.0 ≡ drop n (pending q)
    remaining payload rest head fits partial = elim (Bool-cases (q.offset + n == length payload)) [
      | inl whole ↦
          let same : q.offset + n ≡ length payload =
            (==_iff (q.offset + n) (length payload)).0 whole in
          let (b', freed, kept) =
            with_budget-some (popped q b c n payload rest head fits) (release (length payload) b)
              out
              (sym (
                  consume_open q b c n payload rest head fits
                  ∙ consume_pops q b c n payload rest head fits same)
                ∙ e) in
          ap (λ o. pending o.0) kept
          ∙ sym (drop-append_self (length payload) payload (joined rest) refl)
          ∙ ap (λ k. drop k (payload ++ joined rest)) (sym same)
          ∙ sym (drop-drop n q.offset (payload ++ joined rest))
          ∙ ap (λ p. drop n (drop q.offset (joined p))) (sym head)
      | inr part ↦
          let other : q.offset + n ≢ length payload =
            λ same. absurd (ground (arith, part, same, ==_refl (length payload))) in
          ap (λ o. pending o.0)
            (sym (
              some-injective (advanced q b c n payload rest head fits, b) out
                (sym (
                    consume_open q b c n payload rest head fits
                    ∙ consume_advances q b c n payload rest head fits other)
                  ∙ e)))
          ∙ sym (drop-drop n q.offset (joined q.payloads))
    ]
