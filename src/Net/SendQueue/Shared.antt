-- ===== src/Net/SendQueue/Shared.antt =====
-- All queues of a host over one budget.
use server_core.Base.{
  ℕ, zero, suc, ◌+◌, ◌-◌, ◌≤◌, ◌≡◌, refl, sym, ap, subst, ◌∙◌, inl, inr, Bool, Option, none, some,
  List, [], ◌∷◌, arith, length, All, Option-cases, some-injective,
}
use server_core.Net.SendBudget.{SendBudget}
use server_core.Net.SendQueue.{SendQueue, create, enqueue, consume_front, consume, clear}
use server_core.Net.SendQueue.Accounting.{
  IsCounted, Settled, enqueue-Settled, clear-Settled, consume-Settled,
}

pub data Call : Type 0 where
  enqueues : Bool → List ℕ → Call
  consumes : ℕ → Call
  clears : Call

-- `none` is an assertion that fails.
unfoldable pub apply : Call → SendQueue → SendBudget → Option (SendQueue × SendBudget)
apply (enqueues granted bytes) q b =
    some ((enqueue granted bytes q b).1, (enqueue granted bytes q b).2)
apply (consumes n) q b = consume n q b
apply clears q b = clear q b

abbrev pub put_back :
    List SendQueue → Option (SendQueue × SendBudget) → Option (List SendQueue × SendBudget)
put_back qs none = none
put_back qs (some (q, b)) = some (q ∷ qs, b)

abbrev pub put_before :
    SendQueue → Option (List SendQueue × SendBudget) → Option (List SendQueue × SendBudget)
put_before q none = none
put_before q (some (qs, b)) = some (q ∷ qs, b)

-- A call on the queue at a position; beyond the last, a new connection joins.
unfoldable pub step : ℕ → Call → List SendQueue → SendBudget → Option (List SendQueue × SendBudget)
step i call [] b = some (create ∷ [], b)
step zero call (q ∷ qs) b = put_back qs (apply call q b)
step (suc i) call (q ∷ qs) b = put_before q (step i call qs b)

abbrev pub retained_sum : List SendQueue → ℕ
retained_sum [] = 0
retained_sum (q ∷ qs) = q.retained_bytes + retained_sum qs

-- The budget counts the bytes of its queues, and perhaps `others`, within its limit.
pub record IsAccounted (others : ℕ) (qs : List SendQueue) (b : SendBudget) : Type 0 where
  pub used : b.used_bytes ≡ retained_sum qs + others
  pub within : b.used_bytes ≤ b.limit_bytes
  pub counted : All (IsCounted b.connection_limit_bytes) qs

pub consume-legal :
    (n : ℕ) (q : SendQueue) (b : SendBudget) (out : SendQueue × SendBudget)
    → consume n q b ≡ some out
    → (payload : List ℕ) × (rest : List (List ℕ)) × (q.payloads ≡ payload ∷ rest)
      × (n ≤ length payload - q.offset)
unfolding consume consume_front
consume-legal n q b out h = go q.payloads refl
  where
    go :
        (xs : List (List ℕ))
        → q.payloads ≡ xs
        → (payload : List ℕ) × (rest : List (List ℕ)) × (q.payloads ≡ payload ∷ rest)
          × (n ≤ length payload - q.offset)
    go [] e = absurd (ground (arith, e, h))
    go (payload ∷ rest) e = (payload, rest, e, ground (arith, e, h))

apply-Settled :
    (call : Call) (q : SendQueue) (b : SendBudget) (out : SendQueue × SendBudget)
    → IsCounted b.connection_limit_bytes q
    → b.used_bytes ≤ b.limit_bytes
    → q.retained_bytes ≤ b.used_bytes
    → apply call q b ≡ some out
    → Settled q b out.0 out.1
unfolding apply
apply-Settled (enqueues granted bytes) q b out c h k e =
    subst (λ o. Settled q b o.0 o.1)
      (some-injective ((enqueue granted bytes q b).1, (enqueue granted bytes q b).2) out e)
      (enqueue-Settled q b c granted bytes h)
apply-Settled (consumes n) q b out c h k e =
    let (payload, rest, front, fits) = consume-legal n q b out e in
    let (q', b', some_out, s) = consume-Settled q b c n payload rest front fits h k in
    subst (λ o. Settled q b o.0 o.1) (some-injective (q', b') out (sym some_out ∙ e)) s
apply-Settled clears q b out c h k e =
    let (b', some_out, s) = clear-Settled q b c h k in
    subst (λ o. Settled q b o.0 o.1) (some-injective (create, b') out (sym some_out ∙ e)) s

put_back-some :
    (qs : List SendQueue) (o : Option (SendQueue × SendBudget)) (out : List SendQueue × SendBudget)
    → put_back qs o ≡ some out
    → (p : SendQueue × SendBudget) × (o ≡ some p) × (out ≡ (p.0 ∷ qs, p.1))
put_back-some qs none out h = absurd (ground (arith, h))
put_back-some qs (some p) out h = (p, refl, sym (some-injective (p.0 ∷ qs, p.1) out h))

put_before-some :
    (q : SendQueue) (o : Option (List SendQueue × SendBudget)) (out : List SendQueue × SendBudget)
    → put_before q o ≡ some out
    → (p : List SendQueue × SendBudget) × (o ≡ some p) × (out ≡ (q ∷ p.0, p.1))
put_before-some q none out h = absurd (ground (arith, h))
put_before-some q (some p) out h = (p, refl, sym (some-injective (q ∷ p.0, p.1) out h))

-- The limits never change.
pub record Moved (others : ℕ) (b : SendBudget) (out : List SendQueue × SendBudget) : Type 0 where
  pub accounted : IsAccounted others out.0 out.1
  pub limit_kept : out.1.limit_bytes ≡ b.limit_bytes
  pub connection_limit_kept : out.1.connection_limit_bytes ≡ b.connection_limit_bytes

step-Moved :
    (i : ℕ) (call : Call) (qs : List SendQueue) (b : SendBudget) (others : ℕ)
    (out : List SendQueue × SendBudget)
    → IsAccounted others qs b
    → step i call qs b ≡ some out
    → Moved others b out
unfolding step
step-Moved i call [] b others out a e =
    subst (Moved others b) (some-injective (create ∷ [], b) out e) (record {
      accounted = record {
        used = omega (arith, a.used);
        within = a.within;
        counted = (
          record {
            partial = refl;
            filled = tt;
            retained = refl;
            queued = refl;
            reported = refl;
            bounded = omega arith;
          },
          tt,
        );
      };
      limit_kept = refl;
      connection_limit_kept = refl;
    })
step-Moved zero call (q ∷ qs) b others out a e =
    let (p, applied, same) = put_back-some qs (apply call q b) out e in
    let s = apply-Settled call q b p a.counted.0 a.within (omega (arith, a.used)) applied in
    subst (Moved others b) (sym same) (record {
      accounted = record {
        used = omega (arith, a.used, s.balance);
        within = omega (arith, s.within, s.limit_kept);
        counted =
            subst (λ n. All (IsCounted n) (p.0 ∷ qs)) (sym s.connection_limit_kept)
              (s.counted, a.counted.1);
      };
      limit_kept = s.limit_kept;
      connection_limit_kept = s.connection_limit_kept;
    })
step-Moved (suc i) call (q ∷ qs) b others out a e =
    let (p, stepped, same) = put_before-some q (step i call qs b) out e in
    let m =
      step-Moved i call qs b (q.retained_bytes + others) p
        (record { used = omega (arith, a.used); within = a.within; counted = a.counted.1 })
        stepped in
    subst (Moved others b) (sym same) (record {
      accounted = record {
        used = omega (arith, m.accounted.used);
        within = m.accounted.within;
        counted = (
          subst (λ n. IsCounted n q) (sym m.connection_limit_kept) a.counted.0,
          m.accounted.counted,
        );
      };
      limit_kept = m.limit_kept;
      connection_limit_kept = m.connection_limit_kept;
    })

abbrev pub on_some :
    Option (List SendQueue × SendBudget)
    → (List SendQueue → SendBudget → Option (List SendQueue × SendBudget))
    → Option (List SendQueue × SendBudget)
on_some none f = none
on_some (some (qs, b)) f = f qs b

-- `none` is an assertion that fails.
unfoldable pub run :
    List (ℕ × Call) → List SendQueue → SendBudget → Option (List SendQueue × SendBudget)
run [] qs b = some (qs, b)
run ((i, call) ∷ calls) qs b = on_some (step i call qs b) λ qs1 b1. run calls qs1 b1

-- Whatever connections join, enqueue, consume and clear, in any order, as long as no assertion on
-- the caller fails: the shared budget counts exactly the bytes that all queues retain and stays
-- within its limit, and each queue counts its payloads and stays within the limit of a connection.
pub run-IsAccounted :
    (calls : List (ℕ × Call)) (qs : List SendQueue) (b : SendBudget)
    (out : List SendQueue × SendBudget)
    → IsAccounted 0 qs b
    → run calls qs b ≡ some out
    → IsAccounted 0 out.0 out.1
unfolding run
run-IsAccounted [] qs b out a e =
    subst (λ o. IsAccounted 0 o.0 o.1) (some-injective (qs, b) out e) a
run-IsAccounted ((i, call) ∷ calls) qs b out a e = elim (Option-cases (step i call qs b)) [
  | inl stopped ↦
      absurd (ground (arith, sym (ap (λ o. on_some o λ qs1 b1. run calls qs1 b1) stopped) ∙ e))
  | inr (p, stepped) ↦
      run-IsAccounted calls p.0 p.1 out (step-Moved i call qs b 0 p a stepped).accounted
        (sym (ap (λ o. on_some o λ qs1 b1. run calls qs1 b1) stepped) ∙ e)
]
